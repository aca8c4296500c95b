-- ===== src/Query/Results/KeyOrder.antt =====
-- The order of the group keys of `compute_aggregation` (src/query/datalog/executor.rs).
use minigraf.Prelude.{Ordering, ◌≡◌, refl, sym, ap, ap₂, ◌∙◌, List, [], ◌∷◌, All}
use minigraf.Prelude.Order.{and_then, flip}
use minigraf.Graph.Value.{Value, IsValue, cmp}
use minigraf.Graph.Value.Order.{cmp_total_order}
use minigraf.Query.Results.Groups.{compare_group_keys}

flip-and_then : (o p : Ordering) → and_then (flip o) (flip p) ≡ flip (and_then o p)
flip-and_then Ordering.lt p = refl
flip-and_then Ordering.eq p = refl
flip-and_then Ordering.gt p = refl

pub flip-compare_group_keys :
    (a b : List Value)
    → All IsValue a
    → All IsValue b
    → compare_group_keys b a ≡ flip (compare_group_keys a b)
unfolding compare_group_keys
flip-compare_group_keys [] [] ha hb = refl
flip-compare_group_keys [] (y ∷ b) ha hb = refl
flip-compare_group_keys (x ∷ a) [] ha hb = refl
flip-compare_group_keys (x ∷ a) (y ∷ b) (hx, ha) (hy, hb) =
    ap₂ and_then (cmp_total_order x y y hx hy hy).0 (flip-compare_group_keys a b ha hb)
    ∙ flip-and_then (cmp x y) (compare_group_keys a b)

-- An equal first value leaves the order to the rest.
equal_heads :
    (x y z : Value) → IsValue x → IsValue y → IsValue z → cmp y z ≡ Ordering.eq → cmp x z ≡ cmp x y
equal_heads x y z hx hy hz e =
    (cmp_total_order z x x hz hx hx).0
    ∙ sym (ap flip ((cmp_total_order y z x hy hz hx).2 e))
    ∙ sym (cmp_total_order y x x hy hx hx).0

pub compare_keys_trans :
    (a b c : List Value)
    → All IsValue a
    → All IsValue b
    → All IsValue c
    → compare_group_keys a b ≡ Ordering.lt
    → compare_group_keys b c ≡ Ordering.lt
    → compare_group_keys a c ≡ Ordering.lt
unfolding compare_group_keys
compare_keys_trans [] [] [] ha hb hc h k = cc
compare_keys_trans [] (y ∷ b) [] ha hb hc h k = cc
compare_keys_trans [] b (z ∷ c) ha hb hc h k = refl
compare_keys_trans (x ∷ a) [] c ha hb hc h k = cc
compare_keys_trans (x ∷ a) (y ∷ b) [] ha hb hc h k = cc
compare_keys_trans (x ∷ a) (y ∷ b) (z ∷ c) (hx, ha) (hy, hb) (hz, hc) h k =
    heads (cmp x y) (cmp y z) refl refl h k (compare_keys_trans a b c ha hb hc)
  where
    heads :
        (o p : Ordering)
        → cmp x y ≡ o
        → cmp y z ≡ p
        → and_then o (compare_group_keys a b) ≡ Ordering.lt
        → and_then p (compare_group_keys b c) ≡ Ordering.lt
        → (compare_group_keys a b ≡ Ordering.lt
            → compare_group_keys b c ≡ Ordering.lt
            → compare_group_keys a c ≡ Ordering.lt)
        → and_then (cmp x z) (compare_group_keys a c) ≡ Ordering.lt
    heads Ordering.lt Ordering.lt e f h k rest = rw ((cmp_total_order x y z hx hy hz).1 e f) refl
    heads Ordering.lt Ordering.eq e f h k rest = rw (equal_heads x y z hx hy hz f ∙ e) refl
    heads Ordering.eq Ordering.lt e f h k rest = rw ((cmp_total_order x y z hx hy hz).2 e ∙ f) refl
    heads Ordering.eq Ordering.eq e f h k rest =
        rw ((cmp_total_order x y z hx hy hz).2 e ∙ f) (rest h k)
    heads Ordering.eq Ordering.gt e f h k rest = cc
    heads Ordering.gt p e f h k rest = cc
    heads Ordering.lt Ordering.gt e f h k rest = cc

own_flip : (o : Ordering) → o ≡ flip o → o ≡ Ordering.eq
own_flip Ordering.lt h = cc
own_flip Ordering.eq h = refl
own_flip Ordering.gt h = cc

pub compare_keys_self : (a : List Value) → All IsValue a → compare_group_keys a a ≡ Ordering.eq
compare_keys_self a h = own_flip (compare_group_keys a a) (flip-compare_group_keys a a h h)
