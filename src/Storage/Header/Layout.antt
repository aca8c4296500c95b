-- ===== src/Storage/Header/Layout.antt =====
-- Where the fields of a header stand in its bytes (src/storage/mod.rs).
use minigraf.Error.{ok}
use minigraf.Prelude.{
  ℕ, zero, suc, ◌+◌, ◌^◌, ◌<◌, ◌≡◌, refl, sym, ap, ◌∙◌, some, List, [], ◌∷◌, ◌++◌, append_assoc,
  arith, length, get_elem?, length-append,
}
use minigraf.Bytes.{to_le, slice}
use minigraf.Bytes.RoundTrip.{length-to_le, from_le-to_le, slice-append}
use minigraf.Storage.Header.{concat, read_u32_le, read_u64_le}

-- The fields in front of `tail`.
abbrev pub prepend : List (List ℕ) → List ℕ → List ℕ
prepend [] tail = tail
prepend (f ∷ fs) tail = f ++ prepend fs tail

abbrev pub sizes : List (List ℕ) → ℕ
sizes [] = 0
sizes (f ∷ fs) = length f + sizes fs

pub concat-append : (fs : List (List ℕ)) (tail : List ℕ) → concat fs ++ tail ≡ prepend fs tail
concat-append [] tail = refl
concat-append (f ∷ fs) tail =
    append_assoc f (concat fs) tail ∙ ap (λ t. f ++ t) (concat-append fs tail)

length-concat : (fs : List (List ℕ)) → length (concat fs) ≡ sizes fs
length-concat [] = refl
length-concat (f ∷ fs) = omega (arith, length-append f (concat fs), length-concat fs)

pub length-prepend :
    (fs : List (List ℕ)) (tail : List ℕ) → length (prepend fs tail) ≡ sizes fs + length tail
length-prepend [] tail = omega arith
length-prepend (f ∷ fs) tail =
    omega (arith, length-append f (prepend fs tail), length-prepend fs tail)

module _ (before : List (List ℕ)) (tail : List ℕ) (offset : ℕ) where
  pub slice_field :
      (f : List ℕ) (n : ℕ)
      → sizes before ≡ offset
      → length f ≡ n
      → slice (prepend before (f ++ tail)) offset n ≡ some f
  slice_field f n ho hn =
      ap (λ t. slice t offset n) (sym (concat-append before (f ++ tail)))
      ∙ slice-append (concat before) f tail offset n (length-concat before ∙ ho) hn

  pub read_u64_le_field :
      (x : ℕ)
      → sizes before ≡ offset
      → x < 256 ^ 8
      → read_u64_le (prepend before (to_le 8 x ++ tail)) offset ≡ ok x
  unfolding read_u64_le
  read_u64_le_field x ho hx =
      rw (slice_field (to_le 8 x) 8 ho (length-to_le 8 x)) (ap ok (from_le-to_le 8 x hx))

  pub read_u32_le_field :
      (x : ℕ)
      → sizes before ≡ offset
      → x < 256 ^ 4
      → read_u32_le (prepend before (to_le 4 x ++ tail)) offset ≡ ok x
  unfolding read_u32_le
  read_u32_le_field x ho hx =
      rw (slice_field (to_le 4 x) 4 ho (length-to_le 4 x)) (ap ok (from_le-to_le 4 x hx))

get_elem?-append :
    {A : Type 0} (front back : List A) (b : A) (i : ℕ)
    → length front ≡ i
    → get_elem? (front ++ (b ∷ back)) i ≡ some b
get_elem?-append [] back b zero h = refl
get_elem?-append [] back b (suc i) h = absurd (omega arith)
get_elem?-append (x ∷ front) back b zero h = absurd (omega arith)
get_elem?-append (x ∷ front) back b (suc i) h = get_elem?-append front back b i (omega arith)

pub get_elem?_field :
    (before : List (List ℕ)) (b : ℕ) (tail : List ℕ) (i : ℕ)
    → sizes before ≡ i
    → get_elem? (prepend before (b ∷ tail)) i ≡ some b
get_elem?_field before b tail i h =
    ap (λ t. get_elem? t i) (sym (concat-append before (b ∷ tail)))
    ∙ get_elem?-append (concat before) tail b i (length-concat before ∙ h)

get_elem?-append_inside :
    (xs ys : List ℕ) (n : ℕ) → n < length xs → get_elem? (xs ++ ys) n ≡ get_elem? xs n
get_elem?-append_inside [] ys n h = absurd (omega arith)
get_elem?-append_inside (x ∷ xs) ys zero h = refl
get_elem?-append_inside (x ∷ xs) ys (suc n) h = get_elem?-append_inside xs ys n (omega arith)

get_elem?-append_add :
    (xs ys : List ℕ) (n i : ℕ) → i ≡ length xs + n → get_elem? (xs ++ ys) i ≡ get_elem? ys n
get_elem?-append_add [] ys n i h = ap (get_elem? ys) (omega arith)
get_elem?-append_add (x ∷ xs) ys n zero h = absurd (omega arith)
get_elem?-append_add (x ∷ xs) ys n (suc i) h = get_elem?-append_add xs ys n i (omega arith)

pub get_elem?_padding :
    (before : List (List ℕ)) (f tail : List ℕ) (n i : ℕ)
    → i ≡ sizes before + n
    → n < length f
    → get_elem? (prepend before (f ++ tail)) i ≡ get_elem? f n
get_elem?_padding before f tail n i h hn =
    ap (λ t. get_elem? t i) (sym (concat-append before (f ++ tail)))
    ∙ get_elem?-append_add (concat before) (f ++ tail) n i (omega (arith, length-concat before))
    ∙ get_elem?-append_inside f tail n hn
