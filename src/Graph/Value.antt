-- ===== src/Graph/Value.antt =====
-- `Value` of src/graph/types.rs and its order.
pub mod Order
pub mod Encode
pub mod Equal
mod Tests
use minigraf.Prelude.Order.{compare_bytes}
use minigraf.Prelude.Int.{ℤ, compare_ℤ, IsI64}
use minigraf.Prelude.Text.{Text}
use minigraf.Error.{◌>>=◌, ◌>>◌}
use minigraf.Prelude.{
  ℕ, ◌^◌, ◌<◌, compare, Ordering, Bool, true, false, ◌&&◌, Option, none, some, if◌then◌else◌, All,
}
use minigraf.Graph.Float.{IsF64, is_nan, partial_cmp}
use minigraf.Bytes.{IsByte}

-- `EntityId`: a UUID as its 128-bit number, which has the order of its bytes.
abbrev pub EntityId : Type 0
EntityId = ℕ

-- `Value`; a float is its bit pattern.
pub data Value : Type 0 where
  string : Text → Value
  integer : ℤ → Value
  float : ℕ → Value
  boolean : Bool → Value
  ref : EntityId → Value
  keyword : Text → Value
  null : Value

-- The values that the Rust type has.
abbrev pub IsValue : Value → Type 0
IsValue (string s) = All IsByte s
IsValue (integer n) = IsI64 n
IsValue (float bits) = IsF64 bits
IsValue (boolean b) = Unit
IsValue (ref id) = id < 2 ^ 128
IsValue (keyword k) = All IsByte k
IsValue null = Unit

-- The `discriminant` inside `Value::cmp`.
abbrev pub variant : Value → ℕ
variant (string s) = 0
variant (integer n) = 1
variant (float bits) = 2
variant (boolean b) = 3
variant (ref id) = 4
variant (keyword k) = 5
variant null = 6

abbrev pub or_equal : Option Ordering → Ordering
or_equal none = Ordering.eq
or_equal (some o) = o

-- `bool::cmp`
abbrev pub compare_bool : Bool → Bool → Ordering
compare_bool false false = Ordering.eq
compare_bool false true = Ordering.lt
compare_bool true false = Ordering.gt
compare_bool true true = Ordering.eq

-- The float branch of `Value::cmp`.
abbrev pub compare_float : ℕ → ℕ → Ordering
compare_float a b =
    if is_nan a && is_nan b
    then Ordering.eq
    else if is_nan a
    then Ordering.gt
    else if is_nan b
    then Ordering.lt
    else or_equal (partial_cmp a b)

-- `Value::cmp`
unfoldable pub cmp : Value → Value → Ordering
cmp (string a) (string b) = compare_bytes a b
cmp (integer a) (integer b) = compare_ℤ a b
cmp (float a) (float b) = compare_float a b
cmp (boolean a) (boolean b) = compare_bool a b
cmp (ref a) (ref b) = compare a b
cmp (keyword a) (keyword b) = compare_bytes a b
cmp null null = Ordering.eq
cmp a b = compare (variant a) (variant b)
