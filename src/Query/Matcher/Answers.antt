-- ===== src/Query/Matcher/Answers.antt =====
-- What a join keeps: the bindings of the row and those of the match (src/query/datalog/matcher.rs).
use minigraf.Prelude.{
  ◌≡◌, refl, sym, ap, ◌∙◌, inl, inr, Bool, true, false, ◌&&◌, ◌||◌, Option, none, some, [], ◌∷◌,
  Bool-cases, Option-cases,
}
use mathlib.Core.Path.{subst}
use minigraf.Prelude.Options.{some-of_bind, none-ne-some, some_injective}
use minigraf.Prelude.Text.{Text, bytes_eq, bytes_eq→eq, bytes_eq_refl}
use minigraf.Prelude.Map.{bytes_key, lookup, insert, IsMap, lookup-insert, lookup_absent}
use minigraf.Graph.Value.{Value}
use minigraf.Graph.Value.Equal.{value_eq, value_eq-canonical}
use minigraf.Query.Matcher.{UuidCrate, Bindings, is_hidden, normalize_join_value}
use minigraf.Query.Matcher.Join.{
  agrees, is_consistent, extend_bindings, joined, merged_at, merged_with, merge,
}
use minigraf.Query.Matcher.Sound.{Extends-insert_new, Extends-insert_hidden}
use minigraf.Query.Matcher.Sense.{
  denotes, value_eq-denotes, IsBound, Extends, Extends-refl, Extends-trans,
}

module _ (uuid : UuidCrate) where
  -- Adding bindings that agree with those that are there.
  abbrev last_of : Option Value → Option Value → Option Value
  last_of none old = old
  last_of (some w) old = some w

  lookup-extend_bindings :
      (var : Text) (b added : Bindings)
      → IsMap added
      → lookup var (extend_bindings b added) ≡ last_of (lookup var added) (lookup var b)
  unfolding extend_bindings
  lookup-extend_bindings var b [] m = refl
  lookup-extend_bindings var b ((k, v) ∷ added) (fresh, m) =
      lookup-extend_bindings var (insert k v b) added m ∙ elim (Bool-cases (bytes_eq k var)) [
        | inl same ↦
            let absent : lookup var added ≡ none =
              ap (λ i. lookup i added) (sym (bytes_eq→eq k var same))
              ∙ lookup_absent k added fresh in
            let put : lookup var (insert k v b) ≡ some v = lookup-insert k var v b ∙ rw same refl in
            rw (absent, put, same) refl
        | inr differs ↦
            let kept : lookup var (insert k v b) ≡ lookup var b =
              lookup-insert k var v b ∙ rw differs refl in
            rw (kept, differs) refl
      ]

  both_true : (a b : Bool) → (a && b) ≡ true → (a ≡ true) × (b ≡ true)
  both_true true b h = (refl, h)
  both_true false b h = cc

  agreement :
      (existing added : Bindings) (var : Text) (w x : Value)
      → is_consistent existing added ≡ true
      → is_hidden var ≡ false
      → lookup var existing ≡ some w
      → lookup var added ≡ some x
      → value_eq w x ≡ true
  unfolding is_consistent
  agreement existing [] var w x c h e f = absurd (none-ne-some f)
  agreement existing ((k, v) ∷ added) var w x c h e f =
      let (here, later) =
        both_true (is_hidden k || agrees v (lookup k existing)) (is_consistent existing added) c in
      elim (Bool-cases (bytes_eq k var)) [
        | inl same ↦
            let kv : k ≡ var = bytes_eq→eq k var same in
            let shown : is_hidden k ≡ false = ap is_hidden kv ∙ h in
            let found : lookup k existing ≡ some w = ap (λ i. lookup i existing) kv ∙ e in
            let vx : v ≡ x = some_injective (rw same at f) in
            ap (value_eq w) (sym vx) ∙ rw (shown, found) at here
        | inr differs ↦ agreement existing added var w x later h e (rw differs at f)
      ]

  -- Both the bindings that were there and the added ones stay.
  pub joined-Extends :
      (existing added c : Bindings)
      → IsMap added
      → joined existing (some added) ≡ some c
      → Extends uuid existing c × Extends uuid added c
  joined-Extends existing added c m h = elim (Bool-cases (is_consistent existing added)) [
    | inl fits ↦
        let same : extend_bindings existing added ≡ c = some_injective (rw fits at h) in
        rw (sym same) (
          (λ var w shown e. elim (Option-cases (lookup var added)) [
            | inl absent ↦
                (w, lookup-extend_bindings var existing added m ∙ rw (absent, e) refl, refl)
            | inr (x, there) ↦ (
              x,
              lookup-extend_bindings var existing added m ∙ rw there refl,
              sym (value_eq-denotes uuid w x (agreement existing added var w x fits shown e there)),
            )
          ]),
          (λ var w shown e. (w, lookup-extend_bindings var existing added m ∙ rw e refl, refl)),
        )
    | inr clash ↦ absurd (none-ne-some (rw clash at h))
  ]

  -- Merging a candidate keeps both, too.
  merged_with-Extends :
      (var : Text) (val : Value) (b c : Bindings)
      → merged_with uuid var val b ≡ some c
      → Extends uuid b c × (is_hidden var ≡ false → IsBound uuid c var val)
  merged_with-Extends var val b c h = elim (Bool-cases (is_hidden var)) [
    | inl hidden ↦
        let same : insert var val b ≡ c = some_injective (rw hidden at h) in
        (
          subst (Extends uuid b) same (Extends-insert_hidden uuid b var val hidden),
          λ shown. absurd (true_false (sym hidden ∙ shown)),
        )
    | inr shown ↦ let (x, bound) = at_lookup (lookup var b) refl (rw shown at h) in (x, λ s. bound)
  ]
    where
      true_false : true ≡ false → ⊥
      true_false e = cc

      at_lookup :
          (found : Option Value)
          → lookup var b ≡ found
          → merged_at uuid var val b found ≡ some c
          → Extends uuid b c × IsBound uuid c var val
      at_lookup none e g =
          let same : insert var val b ≡ c = some_injective g in
          (
            subst (Extends uuid b) same (Extends-insert_new uuid b var val e),
            subst (λ d. IsBound uuid d var val) same
                (val, lookup-insert var var val b ∙ rw (bytes_eq_refl var) refl, refl),
          )
      at_lookup (some old) e g =
          elim (Bool-cases
            (value_eq (normalize_join_value uuid old) (normalize_join_value uuid val))) [
              | inl equal ↦
                  let same : b ≡ c = some_injective (rw equal at g) in
                  (
                    subst (Extends uuid b) same (Extends-refl uuid b),
                    subst (λ d. IsBound uuid d var val) same (old, e, value_eq-canonical _ _ equal),
                  )
              | inr differs ↦ absurd (none-ne-some (rw differs at g))
            ]

  pub merge-Extends :
      (b candidate c : Bindings)
      → merge uuid b candidate ≡ some c
      → Extends uuid b c × Extends uuid candidate c
  unfolding merge
  merge-Extends b [] c h =
      let same : b ≡ c = some_injective h in
      (subst (Extends uuid b) same (Extends-refl uuid b), λ var w s e. absurd (none-ne-some e))
  merge-Extends b ((k, v) ∷ candidate) c h =
      let (d, e₁, more) = some-of_bind (merged_with uuid k v b) _ h in
      let (x, bound) = merged_with-Extends k v b d e₁ in
      let (y, rest) = merge-Extends d candidate c more in
      (
        Extends-trans uuid b d c x y,
        λ var w shown e. elim (Bool-cases (bytes_eq k var)) [
          | inl same ↦
              let kv : k ≡ var = bytes_eq→eq k var same in
              let vw : v ≡ w = some_injective (rw same at e) in
              let (u, eu, pu) = bound (ap is_hidden kv ∙ shown) in
              let (t, et, pt) = y k u (ap is_hidden kv ∙ shown) eu in
              (t, ap (λ i. lookup i c) (sym kv) ∙ et, pt ∙ pu ∙ ap (denotes uuid) vw)
          | inr differs ↦ rest var w shown (rw differs at e)
        ],
      )
