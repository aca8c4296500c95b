-- ===== src/Query/Optimizer/Sets.antt =====
-- Lists of variables as sets.
use minigraf.Prelude.{◌≡◌, ◌⊎◌, inl, inr, true, List, [], ◌∷◌, ◌++◌, arith, Bool-cases}
use minigraf.Prelude.Text.{Text, bytes_eq, bytes_eq→eq}
use minigraf.Prelude.OrderedMap.Entries.{IsIn}
use minigraf.Query.Optimizer.Plan.{is_subset, has_var}

-- Each variable of the one list is in the other.
abbrev pub Within : List Text → List Text → Type 0
Within xs ys = (v : Text) → IsIn v xs → IsIn v ys

pub Within-refl : (xs : List Text) → Within xs xs
Within-refl xs v i = i

pub Within-trans : (xs ys zs : List Text) → Within xs ys → Within ys zs → Within xs zs
Within-trans xs ys zs f g v i = g v (f v i)

pub IsIn-append_left : (v : Text) (xs ys : List Text) → IsIn v xs → IsIn v (xs ++ ys)
IsIn-append_left v [] ys i = absurd i
IsIn-append_left v (x ∷ xs) ys (inl e) = inl e
IsIn-append_left v (x ∷ xs) ys (inr i) = inr (IsIn-append_left v xs ys i)

pub IsIn-append_right : (v : Text) (xs ys : List Text) → IsIn v ys → IsIn v (xs ++ ys)
IsIn-append_right v [] ys i = i
IsIn-append_right v (x ∷ xs) ys i = inr (IsIn-append_right v xs ys i)

pub IsIn-of_append : (v : Text) (xs ys : List Text) → IsIn v (xs ++ ys) → IsIn v xs ⊎ IsIn v ys
IsIn-of_append v [] ys i = inr i
IsIn-of_append v (x ∷ xs) ys (inl e) = inl (inl e)
IsIn-of_append v (x ∷ xs) ys (inr i) = elim (IsIn-of_append v xs ys i) [
  | inl a ↦ inl (inr a)
  | inr b ↦ inr b
]

pub Within-append : (xs ys zs : List Text) → Within xs zs → Within ys zs → Within (xs ++ ys) zs
Within-append xs ys zs f g v i = elim (IsIn-of_append v xs ys i) [ inl a ↦ f v a | inr b ↦ g v b ]

-- More on the right, after what is there or before it.
pub Within-weaken : (xs ys zs : List Text) → Within xs ys → Within xs (ys ++ zs)
Within-weaken xs ys zs f v i = IsIn-append_left v ys zs (f v i)

pub Within-both : (xs ys zs : List Text) → Within xs ys → Within (xs ++ zs) (ys ++ zs)
Within-both xs ys zs f =
    Within-append xs zs (ys ++ zs) (Within-weaken xs ys zs f) (λ v i. IsIn-append_right v ys zs i)

has_var-IsIn : (bound : List Text) (v : Text) → has_var bound v ≡ true → IsIn v bound
has_var-IsIn [] v h = cc
has_var-IsIn (x ∷ bound) v h = elim (Bool-cases (bytes_eq v x)) [
  | inl same ↦ inl (bytes_eq→eq v x same)
  | inr other ↦ inr (has_var-IsIn bound v (rw other at h))
]

pub is_subset-Within : (vars bound : List Text) → is_subset vars bound ≡ true → Within vars bound
unfolding is_subset
is_subset-Within [] bound h v i = absurd i
is_subset-Within (x ∷ vars) bound h v (inl e) = rw e (has_var-IsIn bound x (ground (arith, h)))
is_subset-Within (x ∷ vars) bound h v (inr i) = is_subset-Within vars bound (ground (arith, h)) v i
