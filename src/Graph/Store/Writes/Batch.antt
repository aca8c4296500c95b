-- ===== src/Graph/Store/Writes/Batch.antt =====
-- The batches that the writers of `FactStorage` append (src/graph/storage.rs).
use minigraf.Error.{ok}
use minigraf.Prelude.{
  ℕ, suc, ◌+◌, ◌-◌, ◌%◌, ◌^◌, ◌≤◌, ◌<◌, min, ◌≡◌, refl, sym, ap, ◌∙◌, List, [], ◌∷◌, ◌++◌, map,
  arith, length, All, All-append,
}
use minigraf.Graph.Fact.{Fact}
use minigraf.Graph.Store.{FactStorage, Written, commit, extend, allocate_tx_count}
use minigraf.Graph.Store.Writes.{extended, extend_fits, facts-extended, tx_counter-extended}

-- Every fact of the log has a count of at most `n`.
abbrev pub IsUpTo : ℕ → List Fact → Type 0
IsUpTo n facts = All (λ f. f.tx_count ≤ n) facts

-- The counter is at least every count in the log.
abbrev pub IsCounted : FactStorage → Type 0
IsCounted s = IsUpTo s.tx_counter s.facts

-- One fact for each tuple, in order.
abbrev pub Each : {X : Type 0} → (X → Fact → Type 0) → List X → List Fact → Type 0
Each Tells [] [] = Unit {0}
Each Tells [] (f ∷ facts) = ⊥
Each Tells (x ∷ tuples) [] = ⊥
Each Tells (x ∷ tuples) (f ∷ facts) = Tells x f × Each Tells tuples facts

-- A batch of facts, one for each tuple, with one count that is above every count of the log.
pub record IsNewBatch {X : Type 0} (Tells : X → Fact → Type 0) (tuples : List X)
    (before after : FactStorage) : Type 0 where
  pub batch : List Fact
  pub appended : after.facts ≡ before.facts ++ batch
  pub size_of_batch : length batch ≡ length tuples
  pub told : Each Tells tuples batch
  pub one_count : All (λ f. f.tx_count ≡ after.tx_counter) batch
  pub above : All (λ f. f.tx_count < after.tx_counter) before.facts
  pub counted : IsCounted after

pub All_imp {ℓ κ υ} :
    {A : Type ℓ} (P : A → Type κ) (Q : A → Type υ) (xs : List A)
    → ((a : A) → P a → Q a)
    → All P xs
    → All Q xs
All_imp P Q [] f h = tt
All_imp P Q (x ∷ xs) f (p, h) = (f x p, All_imp P Q xs f h)

IsNewBatch-extended :
    {X : Type 0} (Tells : X → Fact → Type 0) (tuples : List X) (s t : FactStorage)
    (batch : List Fact)
    → length batch ≡ length tuples
    → Each Tells tuples batch
    → IsCounted s
    → t.facts ≡ s.facts
    → t.tx_counter ≡ s.tx_counter + 1
    → All (λ f. f.tx_count ≡ s.tx_counter + 1) batch
    → IsNewBatch Tells tuples s (extended batch t)
IsNewBatch-extended Tells tuples s t batch el told h ef ec one =
    let log = facts-extended batch t ∙ ap (λ l. l ++ batch) ef in
    let count = tx_counter-extended batch t ∙ ec in
    record {
      batch = batch;
      appended = log;
      size_of_batch = el;
      told = told;
      one_count = All_imp _ _ batch (λ f e. e ∙ sym count) one;
      above = All_imp _ _ s.facts (λ f l. omega (arith, count)) h;
      counted = rw (log) (
          All-append _ s.facts batch (All_imp _ _ s.facts (λ f l. omega (arith, count)) h)
            (All_imp _ _ batch (λ f e. omega (arith, count)) one));
    }

Each-map :
    {X : Type 0} (Tells : X → Fact → Type 0) (make : X → Fact) (tuples : List X)
    → ((x : X) → Tells x (make x))
    → Each Tells tuples (map make tuples)
Each-map Tells make [] h = tt
Each-map Tells make (x ∷ tuples) h = (h x, Each-map Tells make tuples h)

map-All {ℓ κ υ} :
    {A : Type ℓ} {B : Type κ} (g : A → B) (P : B → Type υ) (xs : List A)
    → ((a : A) → P (g a))
    → All P (map g xs)
map-All g P [] h = tt
map-All g P (x ∷ xs) h = (h x, map-All g P xs h)

length-map {ℓ κ} :
    {A : Type ℓ} {B : Type κ} (g : A → B) (xs : List A) → length (map g xs) ≡ length xs
length-map g [] = refl
length-map g (x ∷ xs) = ap suc (length-map g xs)

-- A store with room for `size` more facts and for one more count, whose counter is in order.
pub record IsReady (s : FactStorage) (size : ℕ) : Type 0 where
  pub counted : IsCounted s
  pub room : length s.facts + size ≤ 2 ^ 32
  pub counter_room : s.tx_counter + 1 < 2 ^ 64

-- The writer's answer is good, and the store has the new batch.
abbrev pub Appends :
    {A X : Type 0} → (X → Fact → Type 0) → List X → FactStorage → A → Written A → Type 0
Appends Tells tuples before answer outcome =
    (outcome.0 ≡ ok answer) × IsNewBatch Tells tuples before outcome.1

-- What the three writers have in common: one fact for each tuple, all with the new count.
pub Appends-commit :
    {A X : Type 0} (Tells : X → Fact → Type 0) (s : FactStorage) (answer : A) (make : ℕ → X → Fact)
    (tuples : List X)
    → IsReady s (length tuples)
    → ((n : ℕ) (x : X) → (make n x).tx_count ≡ n)
    → ((n : ℕ) (x : X) → Tells x (make n x))
    → Appends Tells tuples s answer (
        commit answer
          (allocate_tx_count s).1
          (extend (map (make ((allocate_tx_count s).0)) tuples) (allocate_tx_count s).1))
unfolding allocate_tx_count
Appends-commit Tells s answer make tuples ready counts tells =
    let t = record s { tx_counter = (s.tx_counter + 1) % 2 ^ 64 } in
    let batch = map (make (min (s.tx_counter + 1) (2 ^ 64 - 1))) tuples in
    let size = length-map (make (min (s.tx_counter + 1) (2 ^ 64 - 1))) tuples in
    rw (extend_fits batch t (omega (arith, size, ready.room))) (
      refl,
      IsNewBatch-extended Tells tuples s t batch size (Each-map Tells _ tuples (tells _))
          ready.counted refl (omega (arith, ready.counter_room))
          (map-All _ _ tuples (λ x. counts _ x ∙ omega (arith, ready.counter_room))),
    )
