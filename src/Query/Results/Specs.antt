-- ===== src/Query/Results/Specs.antt =====
-- `FindSpec` and `WindowSpec` of src/query/datalog/types.rs, and the names under which the executor
-- (src/query/datalog/executor.rs) keeps computed values.
use minigraf.Prelude.{
  ℕ, zero, suc, ◌+◌, ◌-◌, ◌*◌, ◌/◌, ◌%◌, ◌<◌, ◌≡◌, refl, sym, ap, ◌∙◌, inl, inr, Bool, true, false,
  Option, none, some, [], ◌∷◌, ◌++◌, arith, ltb, ltb-false, Bool-cases, drop,
}
use minigraf.Prelude.Text.{Text, codes}

-- `WindowFunc`
pub data WindowFunc : Type 0 where
  sum count min_ max_ avg rank row_number : WindowFunc
  udf : Text → WindowFunc

-- `Order`
pub data Order : Type 0 where
  asc desc : Order

-- `WindowSpec`
pub record WindowSpec : Type 0 where
  pub func : WindowFunc
  pub var : Option Text
  pub partition_by : Option Text
  pub order_by : Text
  pub order : Order

-- `FindSpec`
pub data FindSpec : Type 0 where
  variable : Text → FindSpec
  aggregate : Text → Text → FindSpec
  window : WindowSpec → FindSpec

-- `WindowSpec::func_name`
abbrev pub func_name : WindowFunc → Text
func_name WindowFunc.sum = codes "sum"
func_name WindowFunc.count = codes "count"
func_name WindowFunc.min_ = codes "min"
func_name WindowFunc.max_ = codes "max"
func_name WindowFunc.avg = codes "avg"
func_name WindowFunc.rank = codes "rank"
func_name WindowFunc.row_number = codes "row-number"
func_name (WindowFunc.udf name) = name

abbrev pub var_or : Option Text → Text
var_or none = codes "__window_var"
var_or (some v) = v

-- `FindSpec::var`
abbrev pub spec_var : FindSpec → Text
spec_var (FindSpec.variable v) = v
spec_var (FindSpec.aggregate func var) = var
spec_var (FindSpec.window ws) = var_or ws.var

-- `format!("{}", n)`: at most as many digits as are given, the last one last.
abbrev shown : Bool → ℕ → Text → Text
shown true n rest = (48 + n) ∷ []
shown false n rest = rest ++ ((48 + n % 10) ∷ [])

unfoldable pub digits : ℕ → ℕ → Text
digits zero n = []
digits (suc k) n = shown (ltb n 10) n (digits k (n / 10))

abbrev pub decimal : ℕ → Text
decimal n = digits (suc n) n

-- The names of the value of the i-th find spec.
abbrev pub agg_key : ℕ → Text
agg_key i = codes "__agg_" ++ decimal i

abbrev pub win_key : ℕ → Text
win_key i = codes "__win_" ++ decimal i

-- The number that a text of digits stands for.
unfoldable pub number : ℕ → Text → ℕ
number acc [] = acc
number acc (c ∷ text) = number (10 * acc + (c - 48)) text

number-append :
    (acc c : ℕ) (text : Text) → number acc (text ++ (c ∷ [])) ≡ 10 * number acc text + (c - 48)
unfolding number
number-append acc c [] = refl
number-append acc c (d ∷ text) = number-append (10 * acc + (d - 48)) c text

number-digits : (k n : ℕ) → n < k → number 0 (digits k n) ≡ n
unfolding number digits
number-digits zero n h = absurd (omega arith)
number-digits (suc k) n h = elim (Bool-cases (ltb n 10)) [
  | inl small ↦ rw small (omega arith)
  | inr large ↦
      let shorter : number 0 (digits k (n / 10)) ≡ n / 10 =
        number-digits k (n / 10) (ground (arith, ltb-false n 10)) in
      rw large (number-append 0 (48 + n % 10) (digits k (n / 10)) ∙ omega (arith, shorter))
]

pub decimal_injective : (i j : ℕ) → decimal i ≡ decimal j → i ≡ j
decimal_injective i j h =
    sym (number-digits (suc i) i (omega arith))
    ∙ ap (number 0) h
    ∙ number-digits (suc j) j (omega arith)

pub win_key_injective : (i j : ℕ) → win_key i ≡ win_key j → i ≡ j
win_key_injective i j h = decimal_injective i j (ap (drop 6) h)

pub agg_key_injective : (i j : ℕ) → agg_key i ≡ agg_key j → i ≡ j
agg_key_injective i j h = decimal_injective i j (ap (drop 6) h)
