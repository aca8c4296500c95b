-- ===== src/Graph/Store/Writes/Counter.antt =====
-- The writers and the transaction counter of `FactStorage` (src/graph/storage.rs).
use minigraf.Prelude.Text.{Text}
use minigraf.Prelude.Int.{ℤ, i64_of_u64}
use minigraf.Graph.Fact.{valid_time_forever}
use minigraf.Prelude.{
  true, false, none, some, ℕ, ◌≤◌, max, ◌≡◌, refl, Option, List, [], ◌∷◌, arith, length,
}
use minigraf.Graph.Value.{Value, EntityId}
use minigraf.Graph.Fact.{Fact, TransactOptions, with_valid_time}
use minigraf.Graph.Store.{
  FactStorage, allocate_tx_count, dated, dated_of_batch, transact, transact_batch, retract,
  retraction, restore_tx_counter, max_tx_count, or_else, no_options,
}
use minigraf.Graph.Store.Writes.Batch.{All_imp, IsUpTo, IsCounted, IsReady, Appends, Appends-commit}

-- A time is the one that is given, or else the default.
abbrev pub IsGivenOr : ℤ → Option ℤ → ℤ → Type 0
IsGivenOr default none t = t ≡ default
IsGivenOr default (some given) t = t ≡ given

abbrev pub HasWindow : ℕ → Option TransactOptions → Fact → Type 0
HasWindow tx_id none f = (f.valid_from ≡ i64_of_u64 tx_id) × (f.valid_to ≡ valid_time_forever)
HasWindow tx_id (some opts) f =
    IsGivenOr (i64_of_u64 tx_id) opts.valid_from f.valid_from
    × IsGivenOr valid_time_forever opts.valid_to f.valid_to

-- The fact asserts the tuple at the clock's reading, with the valid times of the options.
pub record Asserts (tx_id : ℕ) (opts : Option TransactOptions) (tuple : EntityId × Text × Value)
    (f : Fact) : Type 0 where
  pub the_tuple : (f.entity, f.attribute, f.value) ≡ tuple
  pub asserts : f.asserted ≡ true
  pub at : f.tx_id ≡ tx_id
  pub window : HasWindow tx_id opts f

IsGivenOr-or_else :
    (default : ℤ) (given : Option ℤ) → IsGivenOr default given (or_else default given)
IsGivenOr-or_else default none = refl
IsGivenOr-or_else default (some t) = refl

dated-Asserts :
    (tx_id n : ℕ) (opts : Option TransactOptions) (tuple : EntityId × Text × Value)
    → Asserts tx_id opts tuple (dated tx_id n (or_else no_options opts) tuple)
unfolding dated with_valid_time
dated-Asserts tx_id n none (entity, attribute, value) = record {
  the_tuple = refl;
  asserts = refl;
  at = refl;
  window = (refl, refl);
}
dated-Asserts tx_id n (some opts) (entity, attribute, value) = record {
  the_tuple = refl;
  asserts = refl;
  at = refl;
  window = (IsGivenOr-or_else _ opts.valid_from, IsGivenOr-or_else _ opts.valid_to);
}

dated_count :
    (tx_id n : ℕ) (opts : TransactOptions) (tuple : EntityId × Text × Value)
    → (dated tx_id n opts tuple).tx_count ≡ n
unfolding dated with_valid_time
dated_count tx_id n opts (entity, attribute, value) = refl

dated_of_batch_count :
    (tx_id n : ℕ) (opts : TransactOptions)
    (tuple : EntityId × Text × Value × Option TransactOptions)
    → (dated_of_batch tx_id n opts tuple).tx_count ≡ n
unfolding dated_of_batch dated with_valid_time
dated_of_batch_count tx_id n opts (entity, attribute, value, own) = refl

retraction_count :
    (tx_id n : ℕ) (tuple : EntityId × Text × Value) → (retraction tx_id n tuple).tx_count ≡ n
unfolding retraction
retraction_count tx_id n (entity, attribute, value) = refl

dated_of_batch-asserted :
    (tx_id n : ℕ) (opts : TransactOptions)
    (tuple : EntityId × Text × Value × Option TransactOptions)
    → (dated_of_batch tx_id n opts tuple).asserted ≡ true
unfolding dated_of_batch dated with_valid_time
dated_of_batch-asserted tx_id n opts (entity, attribute, value, own) = refl

retraction-retracts :
    (tx_id n : ℕ) (tuple : EntityId × Text × Value) → (retraction tx_id n tuple).asserted ≡ false
unfolding retraction minigraf.Graph.Fact.retract
retraction-retracts tx_id n (entity, attribute, value) = refl

-- In a store with room and a counter in order, `transact` succeeds with the clock's reading: it
-- appends one fact for each tuple, in order, which asserts the tuple at the clock's reading, valid
-- from and to the times of the options, or else from that reading and forever. All have the new value
-- of the counter, which is above every count that was in the log, and the counter is in order again.
pub transact-Appends :
    (tx_id : ℕ) (tuples : List (EntityId × Text × Value)) (opts : Option TransactOptions)
    (s : FactStorage)
    → IsReady s (length tuples)
    → Appends (Asserts tx_id opts) tuples s tx_id (transact tx_id tuples opts s)
unfolding transact
transact-Appends tx_id tuples opts s ready =
    Appends-commit (Asserts tx_id opts) s tx_id
      (λ n tuple. dated tx_id n (or_else no_options opts) tuple) tuples ready
      (λ n tuple. dated_count tx_id n (or_else no_options opts) tuple)
      (λ n tuple. dated-Asserts tx_id n opts tuple)

-- `transact_batch` appends with the new count, and answers with the clock's reading and that count.
pub transact_batch-Appends :
    (tx_id : ℕ) (tuples : List (EntityId × Text × Value × Option TransactOptions))
    (opts : Option TransactOptions) (s : FactStorage)
    → IsReady s (length tuples)
    → Appends
        (λ tuple f. f.asserted ≡ true)
        tuples
        s
        (tx_id, (allocate_tx_count s).0)
        (transact_batch tx_id tuples opts s)
unfolding transact_batch
transact_batch-Appends tx_id tuples opts s ready =
    Appends-commit _ s (tx_id, (allocate_tx_count s).0)
      (λ n tuple. dated_of_batch tx_id n (or_else no_options opts) tuple) tuples ready
      (λ n tuple. dated_of_batch_count tx_id n (or_else no_options opts) tuple)
      (λ n tuple. dated_of_batch-asserted tx_id n (or_else no_options opts) tuple)

-- `retract` does the same with retractions.
pub retract-Appends :
    (tx_id : ℕ) (tuples : List (EntityId × Text × Value)) (s : FactStorage)
    → IsReady s (length tuples)
    → Appends
        (λ tuple f. f.asserted ≡ false)
        tuples
        s
        (tx_id, (allocate_tx_count s).0)
        (retract tx_id tuples s)
unfolding retract
retract-Appends tx_id tuples s ready =
    Appends-commit _ s (tx_id, (allocate_tx_count s).0) (retraction tx_id) tuples ready
      (retraction_count tx_id) (λ n tuple. retraction-retracts tx_id n tuple)

IsUpTo-max_tx_count : (n : ℕ) (facts : List Fact) → IsUpTo (max n (max_tx_count facts)) facts
unfolding max_tx_count
IsUpTo-max_tx_count n [] = tt
IsUpTo-max_tx_count n (f ∷ facts) =
    (omega arith, All_imp _ _ facts (λ g l. omega arith) (IsUpTo-max_tx_count n facts))

-- After `restore_tx_counter` the counter is in order, is no lower than it was, and is
-- otherwise the greatest count of the log.
pub restore_tx_counter-IsCounted :
    (s : FactStorage)
    → IsCounted (restore_tx_counter s)
      × (s.tx_counter ≤ (restore_tx_counter s).tx_counter)
      × ((restore_tx_counter s).tx_counter ≡ max s.tx_counter (max_tx_count s.facts))
unfolding restore_tx_counter
restore_tx_counter-IsCounted s = (IsUpTo-max_tx_count s.tx_counter s.facts, omega arith, refl)
