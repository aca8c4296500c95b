-- ===== src/Graph/Net/Duplicates.antt =====
-- A record that is loaded twice does not change the current view (src/graph/storage.rs).
use minigraf.Prelude.{
  ℕ, max, ◌≡◌, refl, sym, ap, ap₂, ◌∙◌, inl, inr, true, false, not, ◌&&◌, ◌||◌, List, [], ◌∷◌, ◌++◌,
  append-nil, append_assoc, arith, ltb, leb, if◌then◌else◌, Bool-cases,
}
use minigraf.Graph.Net.{
  EavKey, WindowKey, eav_key, window_key, eav_same, eav_of, window_of, net_asserted_facts,
}
use minigraf.Graph.Net.Winner.{in_window, last_retraction}
use minigraf.Graph.Net.Flags.{all_below, none_above}
use minigraf.Graph.Net.Survivors.{
  is_current, survivors, net_asserted_facts-survivors, in_window-window_of,
}
use minigraf.Graph.Fact.{Fact}

none_above-append :
    (k : WindowKey) (x : ℕ) (fs gs : List Fact)
    → none_above k x (fs ++ gs) ≡ (none_above k x fs && none_above k x gs)
unfolding none_above
none_above-append k x [] gs = refl
none_above-append k x (f ∷ fs) gs =
    ap (λ b. (not (in_window k f) || leb f.tx_count x) && b) (none_above-append k x fs gs)
    ∙ ground arith

all_below-append :
    (k : WindowKey) (x : ℕ) (fs gs : List Fact)
    → all_below k x (fs ++ gs) ≡ (all_below k x fs && all_below k x gs)
unfolding all_below
all_below-append k x [] gs = refl
all_below-append k x (f ∷ fs) gs =
    ap (λ b. (not (in_window k f) || ltb f.tx_count x) && b) (all_below-append k x fs gs)
    ∙ ground arith

last_retraction-append :
    (k : EavKey) (fs gs : List Fact)
    → last_retraction k (fs ++ gs) ≡ max (last_retraction k fs) (last_retraction k gs)
unfolding last_retraction
last_retraction-append k [] gs = omega arith
last_retraction-append k (f ∷ fs) gs = elim (Bool-cases (not f.asserted && eav_same (eav_of f) k)) [
  | inl so ↦ rw so (ap (max f.tx_count) (last_retraction-append k fs gs) ∙ omega arith)
  | inr else_ ↦ rw else_ (last_retraction-append k fs gs)
]

none_above-of_below :
    (k : WindowKey) (x : ℕ) (fs : List Fact) → all_below k x fs ≡ true → none_above k x fs ≡ true
unfolding none_above all_below
none_above-of_below k x [] h = refl
none_above-of_below k x (f ∷ fs) h = ground (arith, none_above-of_below k x fs)

-- What the second copy of `f` adds to the test of `g` has been tested at the first one.
already_tested :
    (k : WindowKey) (before later xs ys : List Fact) (f g : Fact)
    → before ++ g ∷ later ≡ xs ++ f ∷ ys
    → all_below k g.tx_count before && none_above k g.tx_count later ≡ true
    → not (in_window k f) || leb f.tx_count g.tx_count ≡ true
unfolding none_above
already_tested k before later xs ys f g e h =
    let whole : none_above k g.tx_count (before ++ g ∷ later) ≡ true =
      none_above-append k g.tx_count before (g ∷ later)
      ∙ ground (arith, none_above-of_below k g.tx_count before) in
    let split =
      sym (none_above-append k g.tx_count xs (f ∷ ys))
      ∙ sym (ap (none_above k g.tx_count) e)
      ∙ whole in
    ground arith

none_above-duplicate :
    (k : WindowKey) (before later xs ys : List Fact) (f g : Fact)
    → before ++ g ∷ later ≡ xs ++ f ∷ ys
    → (all_below k g.tx_count before && none_above k g.tx_count (later ++ f ∷ []))
      ≡ (all_below k g.tx_count before && none_above k g.tx_count later)
unfolding none_above
none_above-duplicate k before later xs ys f g e = ground (
  arith,
  already_tested k before later xs ys f g e,
  none_above-append k g.tx_count later (f ∷ []),
)

module _ (f : Fact) (xs ys : List Fact) where
  abbrev once : List Fact
  once = xs ++ f ∷ ys

  abbrev twice : List Fact
  twice = (xs ++ f ∷ ys) ++ f ∷ []

  last_retraction-twice : (k : EavKey) → last_retraction k twice ≡ last_retraction k once
  unfolding last_retraction
  last_retraction-twice k =
      last_retraction-append k (xs ++ f ∷ ys) (f ∷ [])
      ∙ ground (arith, last_retraction-append k xs (f ∷ ys))

  copy_loses : is_current twice once f [] ≡ false
  unfolding all_below
  copy_loses =
      ground (arith, all_below-append (window_of f) f.tx_count xs (f ∷ ys), in_window-window_of f)

  survivors-twice :
      (before later : List Fact)
      → before ++ later ≡ once
      → survivors twice before (later ++ f ∷ []) ≡ survivors once before later
  unfolding survivors
  survivors-twice before [] e = rw (sym (append-nil before) ∙ e, copy_loses) refl
  survivors-twice before (g ∷ later) e =
      ap₂ (λ b rest. if b then g ∷ rest else rest)
        (rw (last_retraction-twice (eav_of g)) (
          ap (λ b. g.asserted && (ltb (last_retraction (eav_of g) (xs ++ f ∷ ys)) g.tx_count && b))
            (none_above-duplicate (window_of g) before later xs ys f g e)))
        (survivors-twice (before ++ g ∷ []) later (append_assoc before (g ∷ []) later ∙ e))

-- A record that stands in the list a second time, at its end, does not change the current view.
pub net_asserted_facts_duplicate :
    (f : Fact) (xs ys : List Fact)
    → net_asserted_facts ((xs ++ f ∷ ys) ++ f ∷ []) ≡ net_asserted_facts (xs ++ f ∷ ys)
net_asserted_facts_duplicate f xs ys =
    net_asserted_facts-survivors ((xs ++ f ∷ ys) ++ f ∷ [])
    ∙ survivors-twice f xs ys [] (xs ++ f ∷ ys) refl
    ∙ sym (net_asserted_facts-survivors (xs ++ f ∷ ys))
