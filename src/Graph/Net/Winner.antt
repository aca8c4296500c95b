-- ===== src/Graph/Net/Winner.antt =====
-- What the first loop of `net_asserted_facts` leaves in its two maps (src/graph/storage.rs).
use minigraf.Prelude.{
  ℕ, suc, max, ◌≡◌, refl, ap, ◌∙◌, inl, inr, Bool, true, false, not, ◌&&◌, Option, none, some, List,
  [], ◌∷◌, arith, if◌then◌else◌, Bool-cases,
}
use minigraf.Prelude.Map.{Map, lookup, entry, IsMap, modify_or, entry-IsMap, lookup-entry_at}
use minigraf.Graph.Net.{
  EavKey, WindowKey, eav_key, window_key, eav_same, window_same, eav_of, window_of, Groups,
  challenge, group_fact, group_facts, or_zero,
}
use minigraf.Graph.Fact.{Fact}

-- The latest retraction of a key, 0 if there is none.
unfoldable pub last_retraction : EavKey → List Fact → ℕ
last_retraction k [] = 0
last_retraction k (f ∷ facts) =
    if not f.asserted && eav_same (eav_of f) k
    then max f.tx_count (last_retraction k facts)
    else last_retraction k facts

abbrev pub in_window : WindowKey → Fact → Bool
in_window k f = f.asserted && window_same (window_of f) k

-- The winner of one window.
unfoldable pub winner : WindowKey → ℕ → List Fact → Option (ℕ × ℕ) → Option (ℕ × ℕ)
winner k idx [] best = best
winner k idx (f ∷ facts) best = winner k (suc idx) facts (
    if in_window k f
    then some (modify_or (challenge idx f.tx_count) (idx, f.tx_count) best)
    else best)

by_window_if :
    (b : Bool) (g : Groups) (m : Map WindowKey (ℕ × ℕ)) (r : Map EavKey ℕ)
    → ((if b then record g { by_window = m } else record g { max_retract_tx = r }).by_window)
      ≡ (if b then m else g.by_window)
by_window_if true g m r = refl
by_window_if false g m r = refl

max_retract_tx_if :
    (b : Bool) (g : Groups) (m : Map WindowKey (ℕ × ℕ)) (r : Map EavKey ℕ)
    → ((if b then record g { by_window = m } else record g { max_retract_tx = r }).max_retract_tx)
      ≡ (if b then g.max_retract_tx else r)
max_retract_tx_if true g m r = refl
max_retract_tx_if false g m r = refl

lookup_if :
    (b : Bool) (k w : WindowKey) (c : ℕ × ℕ → ℕ × ℕ) (v : ℕ × ℕ) (m : Map WindowKey (ℕ × ℕ))
    → lookup k (if b then entry w c v m else m)
      ≡ (if b && window_same w k then some (modify_or c v (lookup k m)) else lookup k m)
lookup_if true k w c v m = lookup-entry_at w k c v m
lookup_if false k w c v m = refl

lookup-group_fact :
    (k : WindowKey) (idx : ℕ) (f : Fact) (g : Groups)
    → lookup k ((group_fact idx f g).by_window) ≡ (
        if in_window k f
        then some (modify_or (challenge idx f.tx_count) (idx, f.tx_count) (lookup k g.by_window))
        else lookup k g.by_window)
unfolding group_fact
lookup-group_fact k idx f g =
    ap (lookup k) (by_window_if f.asserted g _ _)
    ∙ lookup_if f.asserted k (window_of f) (challenge idx f.tx_count) (idx, f.tx_count) g.by_window

pub lookup-by_window :
    (k : WindowKey) (idx : ℕ) (facts : List Fact) (g : Groups)
    → lookup k ((group_facts idx facts g).by_window) ≡ winner k idx facts (lookup k g.by_window)
unfolding group_facts winner
lookup-by_window k idx [] g = refl
lookup-by_window k idx (f ∷ facts) g =
    lookup-by_window k (suc idx) facts (group_fact idx f g)
    ∙ ap (winner k (suc idx) facts) (lookup-group_fact k idx f g)

max_modify :
    (x y : ℕ) (o : Option ℕ) → max (modify_or (λ t. max t x) x o) y ≡ max (or_zero o) (max x y)
max_modify x y none = ground arith
max_modify x y (some t) = ground arith

retraction_if :
    (b : Bool) (k w : EavKey) (x y : ℕ) (m : Map EavKey ℕ)
    → max (or_zero (lookup k (if b then m else entry w (λ t. max t x) x m))) y
      ≡ max (or_zero (lookup k m)) (if not b && eav_same w k then max x y else y)
retraction_if true k w x y m = refl
retraction_if false k w x y m =
    rw (lookup-entry_at w k (λ t. max t x) x m) (elim (Bool-cases (eav_same w k)) [
      | inl same ↦ rw same (max_modify x y (lookup k m))
      | inr differ ↦ rw differ refl
    ])

retraction-group_fact :
    (k : EavKey) (idx : ℕ) (f : Fact) (facts : List Fact) (g : Groups)
    → max (or_zero (lookup k (group_fact idx f g).max_retract_tx)) (last_retraction k facts)
      ≡ max (or_zero (lookup k g.max_retract_tx)) (last_retraction k (f ∷ facts))
unfolding group_fact last_retraction
retraction-group_fact k idx f facts g =
    ap (λ m. max (or_zero (lookup k m)) (last_retraction k facts))
      (max_retract_tx_if f.asserted g _ _)
    ∙ retraction_if f.asserted k (eav_of f) f.tx_count (last_retraction k facts) g.max_retract_tx

pub lookup-max_retract_tx :
    (k : EavKey) (idx : ℕ) (facts : List Fact) (g : Groups)
    → or_zero (lookup k ((group_facts idx facts g).max_retract_tx))
      ≡ max (or_zero (lookup k g.max_retract_tx)) (last_retraction k facts)
unfolding group_facts last_retraction
lookup-max_retract_tx k idx [] g = ground arith
lookup-max_retract_tx k idx (f ∷ facts) g =
    lookup-max_retract_tx k (suc idx) facts (group_fact idx f g)
    ∙ retraction-group_fact k idx f facts g

by_window_if-IsMap :
    (b : Bool) (w : WindowKey) (c : ℕ × ℕ → ℕ × ℕ) (v : ℕ × ℕ) (m : Map WindowKey (ℕ × ℕ))
    → IsMap m
    → IsMap (if b then entry w c v m else m)
by_window_if-IsMap true w c v m h = entry-IsMap w c v m h
by_window_if-IsMap false w c v m h = h

pub group_facts-IsMap :
    (idx : ℕ) (facts : List Fact) (g : Groups)
    → IsMap g.by_window
    → IsMap ((group_facts idx facts g).by_window)
unfolding group_facts group_fact
group_facts-IsMap idx [] g h = h
group_facts-IsMap idx (f ∷ facts) g h = group_facts-IsMap (suc idx) facts (group_fact idx f g) (
    rw (by_window_if f.asserted g _ _) (
      by_window_if-IsMap f.asserted (window_of f) (challenge idx f.tx_count) (idx, f.tx_count)
        g.by_window h))
