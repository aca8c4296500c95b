-- ===== src/Prelude/Options.antt =====
-- Chains of `Option` results, as the `?` operator makes them.
use mathlib.Core.Path.{◌≡◌, refl}
use mathlib.Core.Option.{Option, none, some}
use mathlib.Core.Option
use mathlib.Core.List.{List, ◌∷◌}

infixl 5 ◌>>=◌
abbrev pub ◌>>=◌ : {A B : Type 0} → Option A → (A → Option B) → Option B
none >>= next = none
some a >>= next = next a

-- A chain that succeeds has a first step that succeeds.
pub some-of_bind :
    {A B : Type 0} (o : Option A) (next : A → Option B) {b : B}
    → (o >>= next) ≡ some b
    → (a : A) × (o ≡ some a) × (next a ≡ some b)
some-of_bind none next e = cc
some-of_bind (some a) next e = (a, refl, e)

pub some_injective : {A : Type 0} {a b : A} → some a ≡ some b → a ≡ b
some_injective e = cc

pub none-ne-some : {A : Type 0} {a : A} → none ≡ some a → ⊥
none-ne-some e = cc

-- `if let Some(a) = o { results.push(a) }`, before what follows.
abbrev pub push_some : {A : Type 0} → Option A → List A → List A
push_some none rest = rest
push_some (some a) rest = a ∷ rest

pub bind-agree :
    {A B : Type 0} (o : Option A) (f g : A → Option B)
    → ((a : A) → f a ≡ g a)
    → (o >>= f) ≡ (o >>= g)
bind-agree none f g alike = refl
bind-agree (some a) f g alike = alike a

-- A mapped answer is the image of an answer.
pub some-of_map :
    {A B : Type 0} (o : Option A) (f : A → B) {b : B}
    → Option.map f o ≡ some b
    → (a : A) × (o ≡ some a) × (f a ≡ b)
some-of_map none f h = absurd (none-ne-some h)
some-of_map (some a) f h = (a, refl, some_injective h)
