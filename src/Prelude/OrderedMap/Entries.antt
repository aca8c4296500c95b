-- ===== src/Prelude/OrderedMap/Entries.antt =====
-- Which entries an insertion into a `BTreeMap` leaves.
use minigraf.Prelude.{Ordering, ◌≡◌, refl, sym, ap, ◌∙◌, ◌⊎◌, inl, inr, List, [], ◌∷◌}
use minigraf.Prelude.OrderedMap.{Ordered, insert_ordered, placed}

-- `x` stands in the list.
abbrev pub IsIn : {A : Type 0} → A → List A → Type 0
IsIn x [] = ⊥
IsIn x (y ∷ ys) = (x ≡ y) ⊎ IsIn x ys

module _ {K V : Type 0} ⦃ordered : Ordered K⦄ where
  IsIn-of_placed :
      (k j i : K) (v w u : V) (m rest : List (K × V)) (o : Ordering)
      → (o ≡ Ordering.eq → k ≡ i)
      → (IsIn (j, w) rest → ((j ≡ k) × (w ≡ v)) ⊎ IsIn (j, w) m)
      → IsIn (j, w) (placed k v i u m rest o)
      → ((j ≡ k) × (w ≡ v)) ⊎ IsIn (j, w) ((i, u) ∷ m)
  IsIn-of_placed k j i v w u m rest Ordering.lt same later h = elim h [
    | inl e ↦ inl (ap (λ p. p.0) e, ap (λ p. p.1) e)
    | inr old ↦ inr old
  ]
  IsIn-of_placed k j i v w u m rest Ordering.eq same later h = elim h [
    | inl e ↦ inl (ap (λ p. p.0) e ∙ sym (same refl), ap (λ p. p.1) e)
    | inr old ↦ inr (inr old)
  ]
  IsIn-of_placed k j i v w u m rest Ordering.gt same later h = elim h [
    | inl e ↦ inr (inl e)
    | inr more ↦ elim (later more) [ inl new ↦ inl new | inr old ↦ inr (inr old) ]
  ]

  -- An entry after an insertion is the new one or an old one.
  pub IsIn-of_insert :
      (k j : K) (v w : V) (m : List (K × V))
      → ((a b : K) → ordered.compare_keys a b ≡ Ordering.eq → a ≡ b)
      → IsIn (j, w) (insert_ordered k v m)
      → ((j ≡ k) × (w ≡ v)) ⊎ IsIn (j, w) m
  unfolding insert_ordered
  IsIn-of_insert k j v w [] same h = elim h [
    | inl e ↦ inl (ap (λ p. p.0) e, ap (λ p. p.1) e)
    | inr never ↦ inr never
  ]
  IsIn-of_insert k j v w ((i, u) ∷ m) same h =
      IsIn-of_placed k j i v w u m (insert_ordered k v m) (ordered.compare_keys k i) (same k i)
        (IsIn-of_insert k j v w m same) h

  -- Some entry has the key.
  abbrev pub IsKey : K → List (K × V) → Type 0
  IsKey k m = (v : V) × IsIn (k, v) m

  IsKey-placed_new :
      (k i : K) (v u : V) (m rest : List (K × V)) (o : Ordering)
      → (o ≡ Ordering.eq → k ≡ i)
      → IsKey k rest
      → IsKey k (placed k v i u m rest o)
  IsKey-placed_new k i v u m rest Ordering.lt same later = (v, inl refl)
  IsKey-placed_new k i v u m rest Ordering.eq same later = (v, inl (ap (λ x. (x, v)) (same refl)))
  IsKey-placed_new k i v u m rest Ordering.gt same (w, later) = (w, inr later)

  -- The inserted key has an entry.
  pub IsKey-insert_new :
      (k : K) (v : V) (m : List (K × V))
      → ((a b : K) → ordered.compare_keys a b ≡ Ordering.eq → a ≡ b)
      → IsKey k (insert_ordered k v m)
  unfolding insert_ordered
  IsKey-insert_new k v [] same = (v, inl refl)
  IsKey-insert_new k v ((i, u) ∷ m) same =
      IsKey-placed_new k i v u m (insert_ordered k v m) (ordered.compare_keys k i) (same k i)
        (IsKey-insert_new k v m same)

  IsKey-placed_old :
      (k j i : K) (v u : V) (m rest : List (K × V)) (o : Ordering)
      → (IsKey j m → IsKey j rest)
      → IsKey j ((i, u) ∷ m)
      → IsKey j (placed k v i u m rest o)
  IsKey-placed_old k j i v u m rest Ordering.lt later (w, h) = (w, inr h)
  IsKey-placed_old k j i v u m rest Ordering.eq later (w, h) = elim h [
    | inl e ↦ (v, inl (ap (λ p. (p.0, v)) e))
    | inr old ↦ (w, inr old)
  ]
  IsKey-placed_old k j i v u m rest Ordering.gt later (w, h) = elim h [
    | inl e ↦ (w, inl e)
    | inr old ↦ let (found, there) = later (w, old) in (found, inr there)
  ]

  -- A key that had an entry still has one.
  pub IsKey-insert_old :
      (k j : K) (v : V) (m : List (K × V)) → IsKey j m → IsKey j (insert_ordered k v m)
  unfolding insert_ordered
  IsKey-insert_old k j v [] (w, h) = absurd h
  IsKey-insert_old k j v ((i, u) ∷ m) h =
      IsKey-placed_old k j i v u m (insert_ordered k v m) (ordered.compare_keys k i)
        (IsKey-insert_old k j v m) h
