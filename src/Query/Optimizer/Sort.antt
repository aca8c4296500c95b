-- ===== src/Query/Optimizer/Sort.antt =====
-- `sort_by_key` with `Reverse` in src/query/datalog/optimizer.rs.
use minigraf.Prelude.{ℕ, ◌≤◌, inl, inr, List, [], ◌∷◌, arith, leb, Bool-cases, All}
use mathlib.Core.List.{Perm}
use mathlib.Core.List.Perm
use minigraf.Query.Optimizer.Plan.{insert_by, sort_by_reverse}

module _ {A : Type 0} (key : A → ℕ) where
  insert_by-Perm : (x : A) (ys : List A) → Perm (insert_by key x ys) (x ∷ ys)
  unfolding insert_by
  insert_by-Perm x [] = Perm.refl (x ∷ [])
  insert_by-Perm x (y ∷ ys) = elim (Bool-cases (leb (key y) (key x))) [
    | inl lower ↦ rw lower (Perm.refl (x ∷ y ∷ ys))
    | inr higher ↦ rw higher (Perm.trans (Perm.cons y (insert_by-Perm x ys)) (Perm.swap x y ys))
  ]

  pub sort_by_reverse-Perm : (xs : List A) → Perm (sort_by_reverse key xs) xs
  unfolding sort_by_reverse
  sort_by_reverse-Perm [] = Perm.refl []
  sort_by_reverse-Perm (x ∷ xs) =
      Perm.trans (insert_by-Perm x (sort_by_reverse key xs)) (Perm.cons x (sort_by_reverse-Perm xs))

  -- The keys never grow along the list.
  abbrev pub IsDescending : List A → Type 0
  IsDescending [] = Unit
  IsDescending (x ∷ xs) = All (λ y. key y ≤ key x) xs × IsDescending xs

  insert_by-below :
      (x : A) (ys : List A) (bound : ℕ)
      → key x ≤ bound
      → All (λ y. key y ≤ bound) ys
      → All (λ y. key y ≤ bound) (insert_by key x ys)
  unfolding insert_by
  insert_by-below x [] bound h all = (h, tt)
  insert_by-below x (y ∷ ys) bound h (g, all) = elim (Bool-cases (leb (key y) (key x))) [
    | inl lower ↦ rw lower (h, (g, all))
    | inr higher ↦ rw higher (g, insert_by-below x ys bound h all)
  ]

  below_trans :
      (low high : ℕ) (ys : List A)
      → low ≤ high
      → All (λ y. key y ≤ low) ys
      → All (λ y. key y ≤ high) ys
  below_trans low high [] h all = tt
  below_trans low high (y ∷ ys) h (g, all) = (omega (arith, h, g), below_trans low high ys h all)

  insert_by-IsDescending :
      (x : A) (ys : List A) → IsDescending ys → IsDescending (insert_by key x ys)
  unfolding insert_by
  insert_by-IsDescending x [] d = (tt, tt)
  insert_by-IsDescending x (y ∷ ys) (below, d) = elim (Bool-cases (leb (key y) (key x))) [
    | inl lower ↦
        let h : key y ≤ key x = ground arith in
        rw lower ((h, below_trans (key y) (key x) ys h below), (below, d))
    | inr higher ↦
        let h : key x ≤ key y = ground arith in
        rw higher (insert_by-below x ys (key y) h below, insert_by-IsDescending x ys d)
  ]

  pub sort_by_reverse-IsDescending : (xs : List A) → IsDescending (sort_by_reverse key xs)
  unfolding sort_by_reverse
  sort_by_reverse-IsDescending [] = tt
  sort_by_reverse-IsDescending (x ∷ xs) =
      insert_by-IsDescending x _ (sort_by_reverse-IsDescending xs)

insert_by-All :
    {A : Type 0} (P : A → Type 0) (key : A → ℕ) (x : A) (ys : List A)
    → P x
    → All P ys
    → All P (insert_by key x ys)
unfolding insert_by
insert_by-All P key x [] p all = (p, tt)
insert_by-All P key x (y ∷ ys) p (q, all) = elim (Bool-cases (leb (key y) (key x))) [
  | inl lower ↦ rw lower (p, (q, all))
  | inr higher ↦ rw higher (q, insert_by-All P key x ys p all)
]

pub sort_by_reverse-All :
    {A : Type 0} (P : A → Type 0) (key : A → ℕ) (xs : List A)
    → All P xs
    → All P (sort_by_reverse key xs)
unfolding sort_by_reverse
sort_by_reverse-All P key [] all = tt
sort_by_reverse-All P key (x ∷ xs) (p, all) =
    insert_by-All P key x _ p (sort_by_reverse-All P key xs all)
