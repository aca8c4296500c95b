-- ===== src/Graph/Net/Survivors.antt =====
-- Which facts `net_asserted_facts` keeps (src/graph/storage.rs).
use minigraf.Prelude.{
  ℕ, zero, suc, ◌+◌, ◌≤◌, ◌≡◌, refl, sym, ap, ap₂, ◌∙◌, Bool, true, false, ◌&&◌, ◌||◌, Option, none,
  some, List, [], ◌∷◌, ◌++◌, append_assoc, arith, ltb, ◌==◌, if◌then◌else◌, length, set, replicate,
  length-append,
}
use minigraf.Prelude.Map.{Map, lookup, IsMap, any_entry, holds_at, any_entry_at}
use minigraf.Graph.Net.{
  EavKey, WindowKey, eav_key, window_key, window_same, window_same_iff, eav_of, window_of,
  no_groups, group_facts, or_zero, keep_winners, pick, net_asserted_facts,
}
use minigraf.Graph.Net.Winner.{
  in_window, winner, last_retraction, lookup-by_window, lookup-max_retract_tx, group_facts-IsMap,
}
use minigraf.Graph.Net.Flags.{crowned, all_below, none_above, crowned_at}
use minigraf.Graph.Fact.{Fact}

-- The flags of a list from the position `n` on, with those at which `q` holds set.
pub marked : (ℕ → Bool) → ℕ → List Bool → List Bool
marked q n [] = []
marked q n (b ∷ flags) = (b || q n) ∷ marked q (suc n) flags

marked_ext :
    (q p : ℕ → Bool) (n : ℕ) (flags : List Bool)
    → ((j : ℕ) → n ≤ j → q j ≡ p j)
    → marked q n flags ≡ marked p n flags
unfolding marked
marked_ext q p n [] h = refl
marked_ext q p n (b ∷ flags) h =
    ap₂ (λ a rest. (b || a) ∷ rest) (h n (omega arith))
      (marked_ext q p (suc n) flags (λ j l. h j (omega arith)))

marked_never : (n : ℕ) (flags : List Bool) → marked (λ j. false) n flags ≡ flags
unfolding marked
marked_never n [] = refl
marked_never n (b ∷ flags) = ap₂ ◌∷◌ (ground arith) (marked_never (suc n) flags)

marked-set :
    (q : ℕ → Bool) (c : Bool) (n i : ℕ) (flags : List Bool)
    → marked q n (if c then set flags i true else flags)
      ≡ marked (λ j. (i + n == j && c) || q j) n flags
unfolding marked
marked-set q false n i flags = marked_ext q _ n flags (λ j l. ground arith)
marked-set q true n i [] = refl
marked-set q true n zero (b ∷ flags) =
    ap₂ ◌∷◌ (ground arith) (marked_ext q _ (suc n) flags (λ j l. ground arith))
marked-set q true n (suc i) (b ∷ flags) =
    ap₂ ◌∷◌ (ground arith)
      (marked-set q true (suc n) i flags ∙ marked_ext _ _ (suc n) flags (λ j l. ground arith))

-- The test of the second loop on one window.
abbrev wins : Map EavKey ℕ → ℕ → WindowKey → ℕ × ℕ → Bool
wins retracts i k best = crowned i (or_zero (lookup k.eav retracts)) (some best)

keep_winners-marked :
    (retracts : Map EavKey ℕ) (winners : Map WindowKey (ℕ × ℕ)) (flags : List Bool)
    → keep_winners retracts winners flags
      ≡ marked (λ i. any_entry (wins retracts i) winners) 0 flags
unfolding keep_winners
keep_winners-marked retracts [] flags = sym (marked_never 0 flags)
keep_winners-marked retracts ((k, (idx, t)) ∷ winners) flags =
    keep_winners-marked retracts winners _
    ∙ marked-set _ (ltb (or_zero (lookup k.eav retracts)) t) 0 idx flags
    ∙ marked_ext _ _ 0 flags (λ j l. ground arith)

-- The test of the specification: `f` stands in `all` between `before` and `later`.
abbrev pub is_current : List Fact → List Fact → Fact → List Fact → Bool
is_current all before f later =
    f.asserted
    && (ltb (last_retraction (eav_of f) all) f.tx_count
        && (all_below (window_of f) f.tx_count before && none_above (window_of f) f.tx_count later))

-- The facts of a list that are current, in their order; `before` is what stands before the list.
unfoldable pub survivors : List Fact → List Fact → List Fact → List Fact
survivors all before [] = []
survivors all before (f ∷ later) =
    let rest = survivors all (before ++ f ∷ []) later in
    if is_current all before f later then f ∷ rest else rest

pub in_window-window_of : (f : Fact) → in_window (window_of f) f ≡ f.asserted
in_window-window_of f =
    ap (◌&&◌ f.asserted) ((window_same_iff (window_of f) (window_of f)).1 refl) ∙ ground arith

length-snoc : (before : List Fact) (f : Fact) → suc (length before) ≡ length (before ++ f ∷ [])
length-snoc before f = omega (arith, length-append before (f ∷ []))

module _ (all : List Fact) where
  retracts : Map EavKey ℕ
  retracts = (group_facts 0 all no_groups).max_retract_tx

  winners : Map WindowKey (ℕ × ℕ)
  winners = (group_facts 0 all no_groups).by_window

  retracts_lem : (k : EavKey) → or_zero (lookup k retracts) ≡ last_retraction k all
  unfolding retracts
  retracts_lem k = lookup-max_retract_tx k 0 all no_groups ∙ ground arith

  winners_lem : (k : WindowKey) → lookup k winners ≡ winner k 0 all none
  unfolding winners
  winners_lem k = lookup-by_window k 0 all no_groups

  winners-IsMap : IsMap winners
  unfolding winners
  winners-IsMap = group_facts-IsMap 0 all no_groups tt

  holds_at-wins :
      (i : ℕ) (k : WindowKey)
      → holds_at (wins retracts i) k (lookup k winners)
        ≡ crowned i (last_retraction k.eav all) (winner k 0 all none)
  holds_at-wins i k = rw (winners_lem k) (by_entry (winner k 0 all none))
    where
      by_entry :
          (o : Option (ℕ × ℕ))
          → holds_at (wins retracts i) k o ≡ crowned i (last_retraction k.eav all) o
      by_entry none = refl
      by_entry (some v) = ap (λ r. crowned i r (some v)) (retracts_lem k.eav)

  wins_elsewhere :
      (before later : List Fact) (f : Fact) (j : WindowKey) (v : ℕ × ℕ)
      → all ≡ before ++ f ∷ later
      → lookup j winners ≡ some v
      → window_same (window_of f) j ≡ false
      → wins retracts (length before) j v ≡ false
  wins_elsewhere before later f j v here e differ =
      sym (ap (holds_at (wins retracts (length before)) j) e)
      ∙ holds_at-wins (length before) j
      ∙ ap (λ l. crowned (length before) (last_retraction j.eav all) (winner j 0 l none)) here
      ∙ crowned_at j (last_retraction j.eav all) before later f
      ∙ ground arith

  any_entry-wins :
      (before later : List Fact) (f : Fact)
      → all ≡ before ++ f ∷ later
      → any_entry (wins retracts (length before)) winners ≡ is_current all before f later
  unfolding window_of
  any_entry-wins before later f here =
      any_entry_at (wins retracts (length before)) (window_of f) winners winners-IsMap
        (λ j v e differ. wins_elsewhere before later f j v here e differ)
      ∙ holds_at-wins (length before) (window_of f)
      ∙ ap
          (λ l.
            crowned (length before) (last_retraction (eav_of f) all)
              (winner (window_of f) 0 l none))
          here
      ∙ crowned_at (window_of f) (last_retraction (eav_of f) all) before later f
      ∙ ap
          (λ a.
            a
            && (ltb (last_retraction (eav_of f) all) f.tx_count
                && (all_below (window_of f) f.tx_count before
                    && none_above (window_of f) f.tx_count later)))
          (in_window-window_of f)

  pick-marked :
      (before later : List Fact)
      → all ≡ before ++ later
      → pick later (
          marked
            (λ i. any_entry (wins retracts i) winners)
            (length before)
            (replicate (length later) false))
        ≡ survivors all before later
  unfolding pick marked survivors
  pick-marked before [] here = refl
  pick-marked before (f ∷ later) here =
      ap₂ (λ b rest. if b then f ∷ rest else rest) (any_entry-wins before later f here)
        (ap
            (λ n. pick later (
              marked (λ i. any_entry (wins retracts i) winners) n (replicate (length later) false)))
            (length-snoc before f)
          ∙ pick-marked (before ++ f ∷ []) later (here ∙ sym (append_assoc before (f ∷ []) later)))

-- The facts that `net_asserted_facts` keeps are those that are asserted, have a count later than
-- every retraction of their entity, attribute and value (later than 0 if there is none), have a
-- greater count than every earlier assertion with their window in the list, and at least the count
-- of every later one; they keep their order.
pub net_asserted_facts-survivors :
    (facts : List Fact) → net_asserted_facts facts ≡ survivors facts [] facts
unfolding net_asserted_facts retracts winners
net_asserted_facts-survivors facts =
    ap (pick facts)
      (keep_winners-marked (retracts facts) (winners facts) (replicate (length facts) false))
    ∙ pick-marked facts [] facts refl
