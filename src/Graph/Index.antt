-- ===== src/Graph/Index.antt =====
-- The four covering indexes of src/storage/index.rs.
use minigraf.Prelude.Order.{and_then, compare_bytes}
use minigraf.Prelude.Int.{ℤ, compare_ℤ, i64_max, i64_min}
use minigraf.Prelude.Text.{Text}
use minigraf.Prelude.{ℕ, ◌-◌, ◌^◌, compare, Ordering, Option, List, [], ◌∷◌, replicate}
use mathlib.Core.Option
use minigraf.Prelude.OrderedMap.{Ordered, insert_ordered, values, range, range_closed}
use minigraf.Graph.Value.{Value, EntityId, string, integer, float, boolean, ref, keyword, null}
use minigraf.Graph.Value.Encode.{encode_value}
use minigraf.Graph.Fact.{Fact}

-- `FactRef`
pub record FactRef : Type 0 where
  pub page_id : ℕ
  pub slot_index : ℕ

pub record EavtKey : Type 0 where
  pub entity : EntityId
  pub attribute : Text
  pub valid_from : ℤ
  pub valid_to : ℤ
  pub tx_count : ℕ

pub record AevtKey : Type 0 where
  pub attribute : Text
  pub entity : EntityId
  pub valid_from : ℤ
  pub valid_to : ℤ
  pub tx_count : ℕ

pub record AvetKey : Type 0 where
  pub attribute : Text
  pub value_bytes : List ℕ
  pub valid_from : ℤ
  pub valid_to : ℤ
  pub entity : EntityId
  pub tx_count : ℕ

pub record VaetKey : Type 0 where
  pub ref_target : EntityId
  pub attribute : Text
  pub valid_from : ℤ
  pub valid_to : ℤ
  pub source_entity : EntityId
  pub tx_count : ℕ

-- The derived orders: field by field.
abbrev pub compare_eavt : EavtKey → EavtKey → Ordering
compare_eavt a b = and_then (compare a.entity b.entity) (
    and_then (compare_bytes a.attribute b.attribute) (
      and_then (compare_ℤ a.valid_from b.valid_from)
        (and_then (compare_ℤ a.valid_to b.valid_to) (compare a.tx_count b.tx_count))))

abbrev pub compare_aevt : AevtKey → AevtKey → Ordering
compare_aevt a b = and_then (compare_bytes a.attribute b.attribute) (
    and_then (compare a.entity b.entity) (
      and_then (compare_ℤ a.valid_from b.valid_from)
        (and_then (compare_ℤ a.valid_to b.valid_to) (compare a.tx_count b.tx_count))))

abbrev pub compare_avet : AvetKey → AvetKey → Ordering
compare_avet a b = and_then (compare_bytes a.attribute b.attribute) (
    and_then (compare_bytes a.value_bytes b.value_bytes) (
      and_then (compare_ℤ a.valid_from b.valid_from) (
        and_then (compare_ℤ a.valid_to b.valid_to)
          (and_then (compare a.entity b.entity) (compare a.tx_count b.tx_count)))))

abbrev pub compare_vaet : VaetKey → VaetKey → Ordering
compare_vaet a b = and_then (compare a.ref_target b.ref_target) (
    and_then (compare_bytes a.attribute b.attribute) (
      and_then (compare_ℤ a.valid_from b.valid_from) (
        and_then (compare_ℤ a.valid_to b.valid_to)
          (and_then (compare a.source_entity b.source_entity) (compare a.tx_count b.tx_count)))))

instance abbrev pub ordered_eavt : Ordered EavtKey
ordered_eavt = record { compare_keys = compare_eavt }

instance abbrev pub ordered_aevt : Ordered AevtKey
ordered_aevt = record { compare_keys = compare_aevt }

instance abbrev pub ordered_avet : Ordered AvetKey
ordered_avet = record { compare_keys = compare_avet }

instance abbrev pub ordered_vaet : Ordered VaetKey
ordered_vaet = record { compare_keys = compare_vaet }

-- `Indexes`
pub record Indexes : Type 0 where
  pub eavt : List (EavtKey × FactRef)
  pub aevt : List (AevtKey × FactRef)
  pub avet : List (AvetKey × FactRef)
  pub vaet : List (VaetKey × FactRef)

-- `Indexes::new`
abbrev pub no_indexes : Indexes
no_indexes = record { eavt = []; aevt = []; avet = []; vaet = [] }

abbrev pub eavt_of : Fact → EavtKey
eavt_of f = record {
  entity = f.entity;
  attribute = f.attribute;
  valid_from = f.valid_from;
  valid_to = f.valid_to;
  tx_count = f.tx_count;
}

abbrev pub aevt_of : Fact → AevtKey
aevt_of f = record {
  attribute = f.attribute;
  entity = f.entity;
  valid_from = f.valid_from;
  valid_to = f.valid_to;
  tx_count = f.tx_count;
}

abbrev pub avet_of : Fact → AvetKey
avet_of f = record {
  attribute = f.attribute;
  value_bytes = encode_value f.value;
  valid_from = f.valid_from;
  valid_to = f.valid_to;
  entity = f.entity;
  tx_count = f.tx_count;
}

abbrev pub vaet_of : EntityId → Fact → VaetKey
vaet_of target f = record {
  ref_target = target;
  attribute = f.attribute;
  valid_from = f.valid_from;
  valid_to = f.valid_to;
  source_entity = f.entity;
  tx_count = f.tx_count;
}

-- Only references stand in the fourth index.
abbrev pub insert_vaet :
    Value → Fact → FactRef → List (VaetKey × FactRef) → List (VaetKey × FactRef)
insert_vaet (ref target) f r vaet = insert_ordered (vaet_of target f) r vaet
insert_vaet (string s) f r vaet = vaet
insert_vaet (integer n) f r vaet = vaet
insert_vaet (float bits) f r vaet = vaet
insert_vaet (boolean b) f r vaet = vaet
insert_vaet (keyword k) f r vaet = vaet
insert_vaet null f r vaet = vaet

-- `Indexes::insert`
unfoldable pub insert : Fact → FactRef → Indexes → Indexes
insert f r indexes = record {
  eavt = insert_ordered (eavt_of f) r indexes.eavt;
  aevt = insert_ordered (aevt_of f) r indexes.aevt;
  avet = insert_ordered (avet_of f) r indexes.avet;
  vaet = insert_vaet f.value f r indexes.vaet;
}

-- The eighteen letters z of `lookup_eavt_entity`.
abbrev pub high_attribute : Text
high_attribute = replicate 18 122

-- `Indexes::lookup_eavt_entity`; `none` is a panic.
unfoldable pub lookup_eavt_entity : EntityId → Indexes → Option (List FactRef)
lookup_eavt_entity entity indexes = Option.map values (
    range
      (record {
        entity = entity;
        attribute = [];
        valid_from = i64_min;
        valid_to = i64_min;
        tx_count = 0;
      })
      (record {
        entity = entity;
        attribute = high_attribute;
        valid_from = i64_max;
        valid_to = i64_max;
        tx_count = 2 ^ 64 - 1;
      })
      indexes.eavt)

-- The largest UUID.
abbrev pub max_uuid : EntityId
max_uuid = 2 ^ 128 - 1

-- `Indexes::lookup_eavt_entity_attr`
unfoldable pub lookup_eavt_entity_attr : EntityId → Text → Indexes → Option (List FactRef)
lookup_eavt_entity_attr entity attribute indexes = Option.map values (
    range_closed
      (record {
        entity = entity;
        attribute = attribute;
        valid_from = i64_min;
        valid_to = i64_min;
        tx_count = 0;
      })
      (record {
        entity = entity;
        attribute = attribute;
        valid_from = i64_max;
        valid_to = i64_max;
        tx_count = 2 ^ 64 - 1;
      })
      indexes.eavt)

-- `Indexes::lookup_aevt_attr`
unfoldable pub lookup_aevt_attr : Text → Indexes → Option (List FactRef)
lookup_aevt_attr attribute indexes = Option.map values (
    range_closed
      (record {
        attribute = attribute;
        entity = 0;
        valid_from = i64_min;
        valid_to = i64_min;
        tx_count = 0;
      })
      (record {
        attribute = attribute;
        entity = max_uuid;
        valid_from = i64_max;
        valid_to = i64_max;
        tx_count = 2 ^ 64 - 1;
      })
      indexes.aevt)

-- `Indexes::lookup_avet_attr_value`
unfoldable pub lookup_avet_attr_value : Text → Value → Indexes → Option (List FactRef)
lookup_avet_attr_value attribute value indexes = Option.map values (
    range_closed
      (record {
        attribute = attribute;
        value_bytes = encode_value value;
        valid_from = i64_min;
        valid_to = i64_min;
        entity = 0;
        tx_count = 0;
      })
      (record {
        attribute = attribute;
        value_bytes = encode_value value;
        valid_from = i64_max;
        valid_to = i64_max;
        entity = max_uuid;
        tx_count = 2 ^ 64 - 1;
      })
      indexes.avet)

-- `char::MAX` in UTF-8.
abbrev pub high_character : Text
high_character = 0xf4 ∷ 0x8f ∷ 0xbf ∷ 0xbf ∷ []

-- `Indexes::lookup_vaet_ref`
unfoldable pub lookup_vaet_ref : EntityId → Indexes → Option (List FactRef)
lookup_vaet_ref target indexes = Option.map values (
    range_closed
      (record {
        ref_target = target;
        attribute = [];
        valid_from = i64_min;
        valid_to = i64_min;
        source_entity = 0;
        tx_count = 0;
      })
      (record {
        ref_target = target;
        attribute = high_character;
        valid_from = i64_max;
        valid_to = i64_max;
        source_entity = max_uuid;
        tx_count = 2 ^ 64 - 1;
      })
      indexes.vaet)
