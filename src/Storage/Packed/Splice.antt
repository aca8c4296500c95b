-- ===== src/Storage/Packed/Splice.antt =====
-- What a page holds after a write into it, at and beside the place of the write.
use minigraf.Prelude.{
  ℕ, zero, suc, ◌+◌, ◌-◌, ◌≤◌, ◌<◌, ◌≡◌, refl, sym, ap, ◌∙◌, true, some, List, [], ◌∷◌, ◌++◌, arith,
  leb, length, get_elem?, take, drop, length-take, take-append, drop-append,
}
use minigraf.Bytes.{slice}
use minigraf.Storage.Packed.{splice}

module _ {A : Type 0} where
  pub get_elem?-append_before :
      (xs ys : List A) (i : ℕ) → i < length xs → get_elem? (xs ++ ys) i ≡ get_elem? xs i
  get_elem?-append_before [] ys i h = absurd (omega arith)
  get_elem?-append_before (x ∷ xs) ys zero h = refl
  get_elem?-append_before (x ∷ xs) ys (suc i) h = get_elem?-append_before xs ys i (omega arith)

  pub get_elem?-append_after :
      (xs ys : List A) (i : ℕ)
      → length xs ≤ i
      → get_elem? (xs ++ ys) i ≡ get_elem? ys (i - length xs)
  get_elem?-append_after [] ys i h = ap (get_elem? ys) (omega arith)
  get_elem?-append_after (x ∷ xs) ys zero h = absurd (omega arith)
  get_elem?-append_after (x ∷ xs) ys (suc i) h =
      get_elem?-append_after xs ys i (omega arith) ∙ ap (get_elem? ys) (omega arith)

  get_elem?-take : (n : ℕ) (xs : List A) (i : ℕ) → i < n → get_elem? (take n xs) i ≡ get_elem? xs i
  get_elem?-take zero xs i h = absurd (omega arith)
  get_elem?-take (suc n) [] i h = refl
  get_elem?-take (suc n) (x ∷ xs) zero h = refl
  get_elem?-take (suc n) (x ∷ xs) (suc i) h = get_elem?-take n xs i (omega arith)

  get_elem?-drop : (n : ℕ) (xs : List A) (i : ℕ) → get_elem? (drop n xs) i ≡ get_elem? xs (n + i)
  get_elem?-drop zero xs i = ap (get_elem? xs) (omega arith)
  get_elem?-drop (suc n) [] i = refl
  get_elem?-drop (suc n) (x ∷ xs) i =
      let e : suc (n + i) ≡ suc n + i = omega arith in
      get_elem?-drop n xs i ∙ ap (get_elem? (x ∷ xs)) e

  drop-append_after :
      (xs ys : List A) (n : ℕ) → length xs ≤ n → drop n (xs ++ ys) ≡ drop (n - length xs) ys
  drop-append_after [] ys n h = ap (λ k. drop k ys) (omega arith)
  drop-append_after (x ∷ xs) ys zero h = absurd (omega arith)
  drop-append_after (x ∷ xs) ys (suc n) h =
      drop-append_after xs ys n (omega arith) ∙ ap (λ k. drop k ys) (omega arith)

  drop-nil : (n : ℕ) → drop {A = A} n [] ≡ []
  drop-nil zero = refl
  drop-nil (suc n) = refl

  drop-drop : (m n : ℕ) (xs : List A) → drop n (drop m xs) ≡ drop (m + n) xs
  drop-drop zero n xs = ap (λ k. drop k xs) (omega arith)
  drop-drop (suc m) n [] =
      let e : suc (m + n) ≡ suc m + n = omega arith in drop-nil n ∙ ap (λ k. drop k []) e
  drop-drop (suc m) n (x ∷ xs) =
      let e : suc (m + n) ≡ suc m + n = omega arith in
      drop-drop m n xs ∙ ap (λ k. drop k (x ∷ xs)) e

-- `w` is `bytes` with `new` written at `offset`.
pub record IsWritten (bytes : List ℕ) (offset : ℕ) (new : List ℕ) (w : List ℕ) : Type 0 where
  pub within : offset + length new ≤ length bytes
  pub splices : splice bytes offset new ≡ some w
  pub same_length : length w ≡ length bytes
  pub parts : w ≡ take offset bytes ++ (new ++ drop (offset + length new) bytes)

module _ (bytes : List ℕ) (offset : ℕ) (new w : List ℕ)
    (written : IsWritten bytes offset new w) where
  -- A byte before the place of the write, or after it, stays.
  pub get_elem?-splice_before : (i : ℕ) → i < offset → get_elem? w i ≡ get_elem? bytes i
  get_elem?-splice_before i h =
      let within : offset + length new ≤ length bytes = written.within in
      let first : length (take offset bytes) ≡ offset =
        length-take offset bytes (omega (arith, within)) in
      ap (λ page. get_elem? page i) written.parts
      ∙ get_elem?-append_before (take offset bytes) _ i (omega (arith, first))
      ∙ get_elem?-take offset bytes i h

  -- The bytes that were written.
  pub get_elem?-splice_at : (i : ℕ) → i < length new → get_elem? w (offset + i) ≡ get_elem? new i
  get_elem?-splice_at i h =
      let within : offset + length new ≤ length bytes = written.within in
      let first : length (take offset bytes) ≡ offset =
        length-take offset bytes (omega (arith, within)) in
      let shift : offset + i - length (take offset bytes) ≡ i = omega (arith, first) in
      ap (λ page. get_elem? page (offset + i)) written.parts
      ∙ get_elem?-append_after (take offset bytes) _ (offset + i) (omega (arith, first))
      ∙ ap (get_elem? (new ++ drop (offset + length new) bytes)) shift
      ∙ get_elem?-append_before new _ i h

  -- The slice that was written.
  pub slice-splice : slice w offset (length new) ≡ some new
  unfolding slice
  slice-splice =
      let within : offset + length new ≤ length bytes = written.within in
      let same : length w ≡ length bytes = written.same_length in
      let first : length (take offset bytes) ≡ offset =
        length-take offset bytes (omega (arith, within)) in
      let fits : leb (offset + length new) (length w) ≡ true = ground (arith, within, same) in
      rw
        (
          fits,
          written.parts,
          drop-append (take offset bytes) (new ++ drop (offset + length new) bytes) offset first,
          take-append new (drop (offset + length new) bytes) (length new) refl,
        )
        refl

  rest_eq : (o : ℕ) → offset + length new ≤ o → drop o w ≡ drop o bytes
  rest_eq o h =
      let within : offset + length new ≤ length bytes = written.within in
      let first : length (take offset bytes) ≡ offset =
        length-take offset bytes (omega (arith, within)) in
      let shift : offset + length new + (o - length (take offset bytes) - length new) ≡ o =
        omega (arith, first, h) in
      ap (drop o) written.parts
      ∙ drop-append_after (take offset bytes) _ o (omega (arith, first, h))
      ∙ drop-append_after new _ (o - length (take offset bytes)) (omega (arith, first, h))
      ∙ drop-drop (offset + length new) (o - length (take offset bytes) - length new) bytes
      ∙ ap (λ k. drop k bytes) shift

  pub slice-splice_after : (o n : ℕ) → offset + length new ≤ o → slice w o n ≡ slice bytes o n
  unfolding slice
  slice-splice_after o n h = rw (written.same_length, rest_eq o h) refl

  pub get_elem?-splice_after : (i : ℕ) → offset + length new ≤ i → get_elem? w i ≡ get_elem? bytes i
  get_elem?-splice_after i h =
      let e : i ≡ i + 0 = omega arith in
      ap (get_elem? w) e
      ∙ sym (get_elem?-drop i w 0)
      ∙ ap (λ xs. get_elem? xs 0) (rest_eq i h)
      ∙ get_elem?-drop i bytes 0
      ∙ ap (get_elem? bytes) (sym e)
