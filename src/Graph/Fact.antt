-- ===== src/Graph/Fact.antt =====
-- `Fact` of src/graph/types.rs and its constructors.
use minigraf.Prelude.Int.{ℤ, i64_max, i64_of_u64}
use minigraf.Prelude.Text.{Text}
use minigraf.Prelude.{ℕ, Bool, true, false, Option}
use minigraf.Graph.Value.{Value, EntityId}

-- `VALID_TIME_FOREVER`
abbrev pub valid_time_forever : ℤ
valid_time_forever = i64_max

-- `Fact`
pub record Fact : Type 0 where
  pub entity : EntityId
  pub attribute : Text
  pub value : Value
  pub tx_id : ℕ
  pub tx_count : ℕ
  pub valid_from : ℤ
  pub valid_to : ℤ
  pub asserted : Bool

-- `Fact::new`
unfoldable pub new : EntityId → Text → Value → ℕ → Fact
new entity attribute value tx_id = record {
  entity = entity;
  attribute = attribute;
  value = value;
  tx_id = tx_id;
  tx_count = 0;
  valid_from = i64_of_u64 tx_id;
  valid_to = valid_time_forever;
  asserted = true;
}

-- `Fact::with_valid_time`
unfoldable pub with_valid_time : EntityId → Text → Value → ℕ → ℕ → ℤ → ℤ → Fact
with_valid_time entity attribute value tx_id tx_count valid_from valid_to = record {
  entity = entity;
  attribute = attribute;
  value = value;
  tx_id = tx_id;
  tx_count = tx_count;
  valid_from = valid_from;
  valid_to = valid_to;
  asserted = true;
}

-- `Fact::retract`
unfoldable pub retract : EntityId → Text → Value → ℕ → Fact
retract entity attribute value tx_id = record {
  entity = entity;
  attribute = attribute;
  value = value;
  tx_id = tx_id;
  tx_count = 0;
  valid_from = i64_of_u64 tx_id;
  valid_to = valid_time_forever;
  asserted = false;
}

-- `TransactOptions`
pub record TransactOptions : Type 0 where
  pub valid_from : Option ℤ
  pub valid_to : Option ℤ

-- `AsOf` of src/query/datalog/types.rs
pub data AsOf : Type 0 where
  counter : ℕ → AsOf
  timestamp : ℤ → AsOf
  slot : Text → AsOf
