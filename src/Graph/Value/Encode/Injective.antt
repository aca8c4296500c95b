-- ===== src/Graph/Value/Encode/Injective.antt =====
-- Which values share an encoding (src/storage/index.rs).
use minigraf.Prelude.Order.{compare_bytes, compare_bytes_self}
use minigraf.Prelude.Int.{ℤ, IsI64, cast_unsigned}
use minigraf.Prelude.Text.{Text}
use minigraf.Prelude.{
  ℕ, ◌^◌, ◌<◌, compare, Ordering, bit_xor, ◌≡◌, refl, sym, ap, ◌∙◌, ◌⊎◌, true, false, List, [], ◌∷◌,
  arith,
}
use minigraf.Bytes.{to_be}
use minigraf.Bytes.BigEndian.{compare_bytes-to_be}
use minigraf.Graph.Float.{IsF64, is_nan}
use minigraf.Graph.Value.{
  Value, string, integer, float, boolean, ref, keyword, null, cmp, variant, IsValue,
}
use minigraf.Graph.Value.Encode.{encode_value, float_bits}
use minigraf.Graph.Value.Encode.Sorted.{integer_bits, sorted_bits, float_bits_lem}

to_be_injective : (k a b : ℕ) → a < 256 ^ k → b < 256 ^ k → to_be k a ≡ to_be k b → a ≡ b
to_be_injective k a b ha hb e =
    let same : compare a b ≡ Ordering.eq =
      sym (compare_bytes-to_be k a b ha hb)
      ∙ ap (λ t. compare_bytes t (to_be k b)) e
      ∙ compare_bytes_self (to_be k b) in
    ground arith

-- What follows the first byte of an encoding.
payload : List ℕ → List ℕ
payload [] = []
payload (tag ∷ bytes) = bytes

-- A value that is not NaN.
abbrev pub IsNumber : Value → Type 0
IsNumber (float bits) = is_nan bits ≡ false
IsNumber v = Unit {0}

integer_injective :
    (a b : ℤ)
    → IsI64 a
    → IsI64 b
    → bit_xor (cast_unsigned a) 0x8000_0000_0000_0000
      ≡ bit_xor (cast_unsigned b) 0x8000_0000_0000_0000
    → a ≡ b
integer_injective a b h k e =
    let biased = sym (integer_bits a h) ∙ e ∙ integer_bits b k in ground arith

integer_bits_bound : (a : ℤ) → IsI64 a → bit_xor (cast_unsigned a) 0x8000_0000_0000_0000 < 256 ^ 8
integer_bits_bound a h = rw (integer_bits a h) (ground arith)

float_injective :
    (a b : ℕ)
    → IsF64 a
    → IsF64 b
    → is_nan a ≡ false
    → is_nan b ≡ false
    → float_bits a ≡ float_bits b
    → a ≡ b
float_injective a b h k na nb e =
    let sorted : sorted_bits a ≡ sorted_bits b =
      sym (float_bits_lem a h na) ∙ e ∙ float_bits_lem b k nb in
    ground arith

float_bits_bound : (a : ℕ) → IsF64 a → is_nan a ≡ false → float_bits a < 256 ^ 8
float_bits_bound a h na = rw (float_bits_lem a h na) (ground arith)

-- Apart from NaN, no two values share an encoding.
pub encode_value_injective :
    (a b : Value)
    → IsValue a
    → IsValue b
    → IsNumber a
    → IsNumber b
    → encode_value a ≡ encode_value b
    → a ≡ b
unfolding encode_value payload
encode_value_injective (string a) (string b) h k p q e = ap string (ap payload e)
encode_value_injective (integer a) (integer b) h k p q e = ap integer (
    integer_injective a b h k
      (to_be_injective 8 _ _ (integer_bits_bound a h) (integer_bits_bound b k) (ap payload e)))
encode_value_injective (float a) (float b) h k p q e = ap float (
    float_injective a b h k p q
      (to_be_injective 8 _ _ (float_bits_bound a h p) (float_bits_bound b k q) (ap payload e)))
encode_value_injective (boolean a) (boolean b) h k p q e = ground arith
encode_value_injective (ref a) (ref b) h k p q e =
    ap ref (to_be_injective 16 a b (omega arith) (omega arith) (ap payload e))
encode_value_injective (keyword a) (keyword b) h k p q e = ap keyword (ap payload e)
encode_value_injective null null h k p q e = refl
encode_value_injective _ _ h k p q e = cc

-- The negative subnormal float whose encoding every NaN has.
abbrev pub nan_twin : Value
nan_twin = float 0x8007_ffff_ffff_ffff

-- Every NaN is encoded as the one negative subnormal float 0x8007_ffff_ffff_ffff is, which is no
-- NaN and which `Value::cmp` puts below it.
pub encode_value_nan :
    (bits : ℕ)
    → is_nan bits ≡ true
    → (encode_value (float bits) ≡ encode_value nan_twin)
      × (cmp nan_twin (float bits) ≡ Ordering.lt)
unfolding encode_value cmp
encode_value_nan bits nan = (rw nan refl, rw nan refl)

-- The variants stand in another order in the encoding than in `Value::cmp`: every string is below
-- every integer, float and boolean for `cmp`, and above it in the index.
pub encode_value_reorders :
    (s : Text) (v : Value)
    → (variant v ≡ 1) ⊎ ((variant v ≡ 2) ⊎ (variant v ≡ 3))
    → (cmp (string s) v ≡ Ordering.lt)
      × (compare_bytes (encode_value (string s)) (encode_value v) ≡ Ordering.gt)
unfolding encode_value cmp
encode_value_reorders s (integer n) h = (refl, refl)
encode_value_reorders s (float f) h = (refl, refl)
encode_value_reorders s (boolean b) h = (refl, refl)
encode_value_reorders s _ h = absurd (omega arith)
