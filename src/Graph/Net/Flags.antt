-- ===== src/Graph/Net/Flags.antt =====
-- Which position wins a window, and the flags that the second loop sets (src/graph/storage.rs).
use minigraf.Prelude.{
  ℕ, suc, ◌+◌, ◌≤◌, ◌<◌, ◌≡◌, refl, ap, ◌∙◌, ◌≢◌, ◌⊎◌, inl, inr, Bool, true, false, not, ◌&&◌, ◌||◌,
  Option, none, some, List, [], ◌∷◌, ◌++◌, arith, ltb, leb, ◌==◌, if◌then◌else◌, Bool-cases, length,
}
use minigraf.Prelude.Map.{modify_or}
use minigraf.Graph.Net.{WindowKey, eav_key, window_key, challenge}
use minigraf.Graph.Net.Winner.{in_window, winner}
use minigraf.Graph.Fact.{Fact}

-- The position `i` is the best one, and its count is later than `r`.
abbrev pub crowned : ℕ → ℕ → Option (ℕ × ℕ) → Bool
crowned i r none = false
crowned i r (some (j, t)) = j == i && ltb r t

-- The best count is below `x`.
abbrev pub is_below : ℕ → Option (ℕ × ℕ) → Bool
is_below x none = true
is_below x (some (j, t)) = ltb t x

-- Every assertion of the window has a count below `x`.
unfoldable pub all_below : WindowKey → ℕ → List Fact → Bool
all_below k x [] = true
all_below k x (f ∷ facts) = (not (in_window k f) || ltb f.tx_count x) && all_below k x facts

-- Every assertion of the window has a count of at most `x`.
unfoldable pub none_above : WindowKey → ℕ → List Fact → Bool
none_above k x [] = true
none_above k x (f ∷ facts) = (not (in_window k f) || leb f.tx_count x) && none_above k x facts

is_below_step :
    (b : Bool) (x idx t : ℕ) (best : Option (ℕ × ℕ))
    → is_below x (if b then some (modify_or (challenge idx t) (idx, t) best) else best)
      ≡ (is_below x best && (not b || ltb t x))
is_below_step true x idx t none = refl
is_below_step true x idx t (some (j, u)) = ground arith
is_below_step false x idx t best = ground arith

is_below-winner :
    (k : WindowKey) (x idx : ℕ) (facts : List Fact) (best : Option (ℕ × ℕ))
    → is_below x (winner k idx facts best) ≡ (is_below x best && all_below k x facts)
unfolding winner all_below
is_below-winner k x idx [] best = ground arith
is_below-winner k x idx (f ∷ facts) best =
    is_below-winner k x (suc idx) facts _
    ∙ ap (λ b. b && all_below k x facts) (is_below_step (in_window k f) x idx f.tx_count best)
    ∙ ground arith

crowned_step :
    (b : Bool) (i r idx t : ℕ) (best : Option (ℕ × ℕ))
    → i ≢ idx
    → crowned i r best ≡ false
    → crowned i r (if b then some (modify_or (challenge idx t) (idx, t) best) else best) ≡ false
crowned_step true i r idx t none h e = ground arith
crowned_step true i r idx t (some (j, u)) h e = ground arith
crowned_step false i r idx t best h e = e

-- A position outside the list is not crowned by it.
pub crowned_outside :
    (k : WindowKey) (i r idx : ℕ) (facts : List Fact) (best : Option (ℕ × ℕ))
    → (i < idx) ⊎ (idx + length facts ≤ i)
    → crowned i r best ≡ false
    → crowned i r (winner k idx facts best) ≡ false
unfolding winner
crowned_outside k i r idx [] best h e = e
crowned_outside k i r idx (f ∷ facts) best h e =
    crowned_outside k i r (suc idx) facts _ (ground arith)
      (crowned_step (in_window k f) i r idx f.tx_count best (ground arith) e)

-- A crowned position stays crowned as long as no later count is greater.
crowned_kept :
    (k : WindowKey) (i r t idx : ℕ) (facts : List Fact)
    → i < idx
    → crowned i r (winner k idx facts (some (i, t))) ≡ (ltb r t && none_above k t facts)
unfolding winner none_above
crowned_kept k i r t idx [] h = ground arith
crowned_kept k i r t idx (f ∷ facts) h = elim (Bool-cases (in_window k f)) [
  | inl inside ↦ elim (Bool-cases (ltb t f.tx_count)) [
    | inl greater ↦
        rw (inside, greater)
          (crowned_outside k i r (suc idx) facts (some (idx, f.tx_count)) (inl (omega arith))
              (ground arith)
            ∙ ground arith)
    | inr not_greater ↦
        rw (inside, not_greater) (crowned_kept k i r t (suc idx) facts (omega arith) ∙ ground arith)
  ]
  | inr outside ↦ rw outside (crowned_kept k i r t (suc idx) facts (omega arith))
]

-- A fact of the window is crowned exactly if it beats what came before and nothing later beats it.
crowned_step_at :
    (k : WindowKey) (r t idx : ℕ) (later : List Fact) (best : Option (ℕ × ℕ))
    → crowned idx r best ≡ false
    → crowned idx r (winner k (suc idx) later (some (modify_or (challenge idx t) (idx, t) best)))
      ≡ (ltb r t && (is_below t best && none_above k t later))
crowned_step_at k r t idx later none e = crowned_kept k idx r t (suc idx) later (omega arith)
crowned_step_at k r t idx later (some (j, u)) e = elim (Bool-cases (ltb u t)) [
  | inl beats ↦ rw beats (crowned_kept k idx r t (suc idx) later (omega arith))
  | inr loses ↦
      rw loses
        (crowned_outside k idx r (suc idx) later (some (j, u)) (inl (omega arith)) e ∙ ground arith)
]

winner-append :
    (k : WindowKey) (idx : ℕ) (before after : List Fact) (best : Option (ℕ × ℕ))
    → winner k idx (before ++ after) best
      ≡ winner k (length before + idx) after (winner k idx before best)
unfolding winner
winner-append k idx [] after best = ap (λ n. winner k n after best) (omega arith)
winner-append k idx (f ∷ before) after best =
    winner-append k (suc idx) before after _
    ∙ ap (λ n. winner k n after (winner k idx (f ∷ before) best)) (omega arith)

zero_last : (n : ℕ) → n + 0 ≡ n
zero_last n = omega arith

-- The fact after `before` is crowned in the window `k` of the whole list.
pub crowned_at :
    (k : WindowKey) (r : ℕ) (before later : List Fact) (f : Fact)
    → crowned (length before) r (winner k 0 (before ++ f ∷ later) none) ≡ (
        in_window k f
        && (ltb r f.tx_count && (all_below k f.tx_count before && none_above k f.tx_count later)))
unfolding winner
crowned_at k r before later f =
    let fresh = crowned_outside k (length before) r 0 before none (inr (omega arith)) refl in
    ap (crowned (length before) r) (winner-append k 0 before (f ∷ later) none)
    ∙ rw (zero_last (length before)) (elim (Bool-cases (in_window k f)) [
      | inl inside ↦ rw inside (
          crowned_step_at k r f.tx_count (length before) later (winner k 0 before none) fresh
          ∙ ap (λ b. ltb r f.tx_count && (b && none_above k f.tx_count later))
              (is_below-winner k f.tx_count 0 before none))
      | inr outside ↦ rw outside (
          crowned_outside k (length before) r (suc (length before)) later (winner k 0 before none)
            (inl (omega arith)) fresh)
    ])
