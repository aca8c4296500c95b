-- ===== src/Graph/Store/Query/Ranges.antt =====
-- What lies between the bounds of the index scans of src/graph/storage.rs.
use minigraf.Prelude.Order.{and_then, compare_bytes}
use minigraf.Prelude.Int.{ℤ, compare_ℤ, IsI64, i64_min}
use minigraf.Prelude.Text.{Text, bytes_eq}
use minigraf.Prelude.{
  ℕ, ◌+◌, ◌-◌, ◌^◌, ◌<◌, compare, Ordering, ◌≡◌, refl, true, false, not, ◌&&◌, ◌||◌, none, List, [],
  ◌∷◌, arith, ◌==◌,
}
use minigraf.Prelude.OrderedMap.{in_range, is_lt}
use minigraf.Graph.Value.{EntityId}
use minigraf.Graph.Index.{FactRef, EavtKey, AevtKey, ordered_eavt, ordered_aevt}
use minigraf.Graph.Store.{FactStorage}
use minigraf.Graph.Store.Query.{entity_key, attribute_key, successor, next_entity, entity_facts}

-- The bounds of a key's times.
abbrev pub IsAevt : AevtKey → Type 0
IsAevt k = IsI64 k.valid_from × IsI64 k.valid_to

abbrev pub IsEavt : EavtKey → Type 0
IsEavt k = IsI64 k.valid_from × IsI64 k.valid_to

-- No text lies between a text and the one with a zero byte at its end.
no_text_between :
    (a k : Text) → is_lt (compare_bytes k (successor a)) ≡ is_lt (compare_bytes k a) || bytes_eq k a
no_text_between [] [] = refl
no_text_between [] (x ∷ []) = ground arith
no_text_between [] (x ∷ y ∷ k) = ground arith
no_text_between (x ∷ a) [] = refl
no_text_between (x ∷ a) (y ∷ k) = ground (arith, no_text_between a k)

bytes_eq-compare :
    (a k : Text)
    → bytes_eq k a ≡ (elim (compare_bytes k a) [
      | Ordering.eq ↦ true
      | Ordering.lt ↦ false
      | Ordering.gt ↦ false
    ])
bytes_eq-compare [] [] = refl
bytes_eq-compare [] (x ∷ k) = refl
bytes_eq-compare (x ∷ a) [] = refl
bytes_eq-compare (x ∷ a) (y ∷ k) = ground (arith, bytes_eq-compare a k)

-- Fields that are least do not lower a key.
least :
    (t : ℕ) (from to : ℤ)
    → IsI64 from
    → IsI64 to
    → is_lt (and_then (compare_ℤ from i64_min) (and_then (compare_ℤ to i64_min) (compare t 0)))
      ≡ false
least t from to h k = ground arith

text_range :
    (a k : Text) (o : Ordering)
    → is_lt o ≡ false
    → (not (is_lt (and_then (compare_bytes k a) o))
        && is_lt (and_then (compare_bytes k (successor a)) o))
      ≡ bytes_eq k a
text_range a k o h = ground (arith, no_text_between a k, bytes_eq-compare a k)

-- The keys that the scan for an attribute reads, from the attribute itself to the attribute with a
-- zero byte at its end, are those with this attribute and no others, whatever their entity, their
-- times and their count.
pub in_range-attribute_key :
    (a : Text) (k : AevtKey)
    → IsAevt k
    → in_range (attribute_key a) (attribute_key (successor a)) k ≡ bytes_eq k.attribute a
in_range-attribute_key a k (from, to) =
    text_range a k.attribute _ (ground (arith, least k.tx_count k.valid_from k.valid_to from to))

-- The same scan for an entity and an attribute reads the keys with both and no others.
pub in_range-entity_key :
    (e : EntityId) (a : Text) (k : EavtKey)
    → IsEavt k
    → in_range (entity_key e a) (entity_key e (successor a)) k
      ≡ (k.entity == e && bytes_eq k.attribute a)
in_range-entity_key e a k (from, to) = ground (
  arith,
  text_range a k.attribute
      (and_then (compare_ℤ k.valid_from i64_min)
        (and_then (compare_ℤ k.valid_to i64_min) (compare k.tx_count 0)))
      (least k.tx_count k.valid_from k.valid_to from to),
)

least_text : (t : Text) → is_lt (compare_bytes t []) ≡ false
least_text [] = refl
least_text (x ∷ t) = refl

-- The scan for an entity other than the last UUID reads the keys of this entity and no others.
pub in_range-next_entity :
    (e : EntityId) (k : EavtKey)
    → e + 1 < 2 ^ 128
    → IsEavt k
    → in_range (entity_key e []) (entity_key (next_entity e) []) k ≡ (k.entity == e)
in_range-next_entity e k h (from, to) =
    ground (arith, least_text k.attribute, least k.tx_count k.valid_from k.valid_to from to)

-- The scan for the last UUID ends at the first one: where the store has a pending index entry, the
-- lookup of the facts of this entity panics, since the start of its range is after the end.
pub entity_facts_last :
    (s : FactStorage) (entry : EavtKey × FactRef) (entries : List (EavtKey × FactRef))
    → s.pending_indexes.eavt ≡ entry ∷ entries
    → entity_facts (2 ^ 128 - 1) s ≡ none
unfolding entity_facts
entity_facts_last s entry entries e = rw e refl
