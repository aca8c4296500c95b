-- ===== src/Prelude/Map.antt =====
-- Hash maps and ordered maps as association lists with one entry for each key.
use Prim.Native.Nat.{ℕ}
use Prim.Native.String.{String}
use mathlib.Core.Path.{◌≡◌, refl, ap, sym, ◌∙◌}
use mathlib.Core.Logic.{◌↔◌, inl, inr}
use mathlib.Core.Bool.{Bool, true, false, ◌&&◌, ◌||◌, not}
use mathlib.Core.List.{List, [], ◌∷◌}
use mathlib.Core.Option.{Option, none, some}
use native.Mathlib.Omega.{arith}
use text.Mathlib.Text.{◌==◌ as str_eq}
use text.Mathlib.TextEquality.{eq_iff as str_eq_iff}
use minigraf.Prelude.Tests.{◌==◌, ==_iff, if◌then◌else◌, Bool-cases}
use minigraf.Prelude.Text.{bytes_eq, bytes_eq_iff}

-- A type of keys: its `==`.
pub record Key (K : Type 0) : Type 0 where
  pub same : K → K → Bool
  pub same_iff : (a b : K) → (same a b ≡ true) ↔ (a ≡ b)

instance abbrev pub nat_key : Key ℕ
nat_key = record { same = ◌==◌; same_iff = ==_iff }

instance abbrev pub bytes_key : Key (List ℕ)
bytes_key = record { same = bytes_eq; same_iff = bytes_eq_iff }

instance abbrev pub string_key : Key String
string_key = record { same = str_eq; same_iff = str_eq_iff }

abbrev pub Map : Type 0 → Type 0 → Type 0
Map K V = List (K × V)

abbrev pub modify_or {ℓ} : {V : Type ℓ} → (V → V) → V → Option V → V
modify_or f v none = v
modify_or f v (some w) = f w

module _ {K V : Type 0} ⦃key : Key K⦄ where
  -- `map.get(&k)`
  abbrev pub lookup : K → Map K V → Option V
  lookup k [] = none
  lookup k ((j, v) ∷ m) = if key.same j k then some v else lookup k m

  -- `map.insert(k, v)`: the value of a key that is there is replaced.
  abbrev pub insert : K → V → Map K V → Map K V
  insert k v [] = (k, v) ∷ []
  insert k v ((j, w) ∷ m) = if key.same j k then (j, v) ∷ m else (j, w) ∷ insert k v m

  -- `map.entry(k).and_modify(f).or_insert(v)`
  abbrev pub entry : K → (V → V) → V → Map K V → Map K V
  entry k f v [] = (k, v) ∷ []
  entry k f v ((j, w) ∷ m) = if key.same j k then (j, f w) ∷ m else (j, w) ∷ entry k f v m

  -- `map.remove(&k)`
  abbrev pub remove : K → Map K V → Map K V
  remove k [] = []
  remove k ((j, w) ∷ m) = let rest = remove k m in if key.same j k then rest else (j, w) ∷ rest

  -- `map.contains_key(&k)`
  abbrev pub contains_key : K → Map K V → Bool
  contains_key k [] = false
  contains_key k ((j, w) ∷ m) = key.same j k || contains_key k m

  -- No two entries have one key.
  abbrev pub IsMap : Map K V → Type 0
  IsMap [] = Unit {0}
  IsMap ((j, w) ∷ m) = (contains_key j m ≡ false) × IsMap m

  pub lookup-entry :
      (k j : K) (f : V → V) (v : V) (m : Map K V)
      → lookup j (entry k f v m)
        ≡ (if key.same k j then some (modify_or f v (lookup k m)) else lookup j m)
  lookup-entry k j f v [] = refl
  lookup-entry k j f v ((i, w) ∷ m) =
      ground (arith, lookup-entry k j f v m, key.same_iff i k, key.same_iff i j, key.same_iff k j)

  pub lookup-entry_at :
      (k j : K) (f : V → V) (v : V) (m : Map K V)
      → lookup j (entry k f v m)
        ≡ (if key.same k j then some (modify_or f v (lookup j m)) else lookup j m)
  lookup-entry_at k j f v [] = refl
  lookup-entry_at k j f v ((i, w) ∷ m) =
      ground
        (arith, lookup-entry_at k j f v m, key.same_iff i k, key.same_iff i j, key.same_iff k j)

  pub lookup-insert :
      (k j : K) (v : V) (m : Map K V)
      → lookup j (insert k v m) ≡ (if key.same k j then some v else lookup j m)
  lookup-insert k j v [] = refl
  lookup-insert k j v ((i, w) ∷ m) =
      ground (arith, lookup-insert k j v m, key.same_iff i k, key.same_iff i j, key.same_iff k j)

  pub lookup-remove :
      (k j : K) (m : Map K V) → lookup j (remove k m) ≡ (if key.same k j then none else lookup j m)
  lookup-remove k j [] = ground arith
  lookup-remove k j ((i, w) ∷ m) =
      ground (arith, lookup-remove k j m, key.same_iff i k, key.same_iff i j, key.same_iff k j)

  pub contains_key-entry :
      (k j : K) (f : V → V) (v : V) (m : Map K V)
      → contains_key j (entry k f v m) ≡ (key.same k j || contains_key j m)
  contains_key-entry k j f v [] = refl
  contains_key-entry k j f v ((i, w) ∷ m) =
      ground
        (arith, contains_key-entry k j f v m, key.same_iff i k, key.same_iff i j, key.same_iff k j)

  pub contains_key-insert :
      (k j : K) (v : V) (m : Map K V)
      → contains_key j (insert k v m) ≡ (key.same k j || contains_key j m)
  contains_key-insert k j v [] = refl
  contains_key-insert k j v ((i, w) ∷ m) =
      ground
        (arith, contains_key-insert k j v m, key.same_iff i k, key.same_iff i j, key.same_iff k j)

  pub contains_key-remove :
      (k j : K) (m : Map K V)
      → contains_key j (remove k m) ≡ (not (key.same k j) && contains_key j m)
  contains_key-remove k j [] = ground arith
  contains_key-remove k j ((i, w) ∷ m) =
      ground
        (arith, contains_key-remove k j m, key.same_iff i k, key.same_iff i j, key.same_iff k j)

  pub entry-IsMap : (k : K) (f : V → V) (v : V) (m : Map K V) → IsMap m → IsMap (entry k f v m)
  entry-IsMap k f v [] h = (refl, tt)
  entry-IsMap k f v ((i, w) ∷ m) (hi, h) = ground (
    arith,
    entry-IsMap k f v m h,
    contains_key-entry k i f v m,
    key.same_iff i k,
    key.same_iff k i,
  )

  pub insert-IsMap : (k : K) (v : V) (m : Map K V) → IsMap m → IsMap (insert k v m)
  insert-IsMap k v [] h = (refl, tt)
  insert-IsMap k v ((i, w) ∷ m) (hi, h) =
      ground (
        arith,
        insert-IsMap k v m h,
        contains_key-insert k i v m,
        key.same_iff i k,
        key.same_iff k i,
      )

  pub remove-IsMap : (k : K) (m : Map K V) → IsMap m → IsMap (remove k m)
  remove-IsMap k [] h = tt
  remove-IsMap k ((i, w) ∷ m) (hi, h) =
      ground (arith, remove-IsMap k m h, contains_key-remove k i m)

  pub contains_key_of_lookup :
      (k : K) (m : Map K V) (v : V) → lookup k m ≡ some v → contains_key k m ≡ true
  contains_key_of_lookup k [] v e = cc
  contains_key_of_lookup k ((i, w) ∷ m) v e = ground (arith, contains_key_of_lookup k m v)

  pub lookup_absent : (k : K) (m : Map K V) → contains_key k m ≡ false → lookup k m ≡ none
  lookup_absent k [] e = refl
  lookup_absent k ((i, w) ∷ m) e = ground (arith, lookup_absent k m)

  -- `map.iter().any(|(k, v)| p(k, v))`
  abbrev pub any_entry : (K → V → Bool) → Map K V → Bool
  any_entry p [] = false
  any_entry p ((j, w) ∷ m) = p j w || any_entry p m

  abbrev pub holds_at : (K → V → Bool) → K → Option V → Bool
  holds_at p k none = false
  holds_at p k (some v) = p k v

  any_entry_none :
      (p : K → V → Bool) (m : Map K V)
      → ((j : K) (v : V) → contains_key j m ≡ true → p j v ≡ false)
      → any_entry p m ≡ false
  any_entry_none p [] h = refl
  any_entry_none p ((i, w) ∷ m) h = ground (
    arith,
    h i w (ground (arith, key.same_iff i i)),
    any_entry_none p m (λ j v c. h j v (ground arith)),
  )

  lookup_tail :
      (i j : K) (w v : V) (m : Map K V)
      → contains_key i m ≡ false
      → lookup j m ≡ some v
      → lookup j ((i, w) ∷ m) ≡ some v
  lookup_tail i j w v m absent e = elim (Bool-cases (key.same i j)) [
    | inl same ↦
        let ij : i ≡ j = (key.same_iff i j).0 same in
        let present = contains_key_of_lookup j m v e in absurd (cc)
    | inr differ ↦ rw differ e
  ]

  -- A predicate that holds at most at one key is decided by the entry of that key.
  pub any_entry_at :
      (p : K → V → Bool) (k : K) (m : Map K V)
      → IsMap m
      → ((j : K) (v : V) → lookup j m ≡ some v → key.same k j ≡ false → p j v ≡ false)
      → any_entry p m ≡ holds_at p k (lookup k m)
  any_entry_at p k [] h only = refl
  any_entry_at p k ((i, w) ∷ m) (hi, h) only =
      let rest = any_entry_at p k m h (λ j v e. only j v (lookup_tail i j w v m hi e)) in
      elim (Bool-cases (key.same i k)) [
        | inl same ↦
            let ik : i ≡ k = (key.same_iff i k).0 same in
            rw (same, rest, lookup_absent k m (ap (λ t. contains_key t m) (sym ik) ∙ hi), ik)
              (ground arith)
        | inr differ ↦
            rw
              (
                differ,
                rest,
                only i w (ground (arith, key.same_iff i i))
                    (ground (arith, key.same_iff i k, key.same_iff k i)),
              )
              refl
      ]
