-- ===== src/Graph/Store/Writes/Loads.antt =====
-- `load_facts` and `load_fact` (src/graph/storage.rs).
use minigraf.Prelude.Text.{bytes_eq_refl}
use minigraf.Error.{ok, err}
use minigraf.Prelude.{
  ℕ, suc, ◌+◌, ◌^◌, ◌≤◌, ◌<◌, ◌≡◌, refl, sym, ap, ap₂, ◌∙◌, inl, inr, Bool, true, false, List, [],
  ◌∷◌, append-nil, arith, if◌then◌else◌, Bool-cases, length, length-append,
}
use minigraf.Graph.Fact.{Fact}
use minigraf.Graph.Store.{
  FactStorage, PendingKey, pending_key, pending_same, Written, commit, holds_key, new_facts,
  load_fact, load_facts,
}
use minigraf.Graph.Store.Writes.{extended, extend_fits, extended_step, facts-extended}
use minigraf.Graph.Net.{int_same_iff}

-- The facts loaded one after the other, with the number of those that were new.
pub load_each : List Fact → ℕ → FactStorage → Written ℕ
load_each [] n s = (ok n, s)
load_each (f ∷ facts) n s = elim ((load_fact f s).0) [
  | ok loaded ↦ load_each facts (if loaded then suc n else n) ((load_fact f s).1)
  | err e ↦ (err e, (load_fact f s).1)
]

keys-extended_one :
    (f : Fact) (s : FactStorage)
    → (extended (f ∷ []) s).pending_keys ≡ pending_key f ∷ s.pending_keys
unfolding extended minigraf.Graph.Store.index_facts minigraf.Graph.Store.Writes.refs_from
keys-extended_one f s = refl

length-extended_one :
    (f : Fact) (s : FactStorage) → length ((extended (f ∷ []) s).facts) ≡ suc (length s.facts)
length-extended_one f s =
    ap length (facts-extended (f ∷ []) s) ∙ omega (arith, length-append s.facts (f ∷ []))

extended_nil : (s : FactStorage) → extended [] s ≡ s
unfolding extended minigraf.Graph.Store.index_facts minigraf.Graph.Store.Writes.refs_from
extended_nil s = ap (λ l. record s { facts = l }) (append-nil s.facts)

load_fact_known :
    (f : Fact) (s : FactStorage)
    → holds_key (pending_key f) s.pending_keys ≡ true
    → load_fact f s ≡ (ok false, s)
unfolding load_fact
load_fact_known f s known = rw known refl

load_fact_fresh :
    (f : Fact) (s : FactStorage)
    → holds_key (pending_key f) s.pending_keys ≡ false
    → length s.facts < 2 ^ 32
    → load_fact f s ≡ (ok true, extended (f ∷ []) s)
unfolding load_fact
load_fact_fresh f s fresh h = rw (fresh, extend_fits (f ∷ []) s (omega arith)) refl

load_each_step :
    (f : Fact) (facts : List Fact) (n : ℕ) (s t : FactStorage) (loaded : Bool)
    → load_fact f s ≡ (ok loaded, t)
    → load_each (f ∷ facts) n s ≡ load_each facts (if loaded then suc n else n) t
unfolding load_each
load_each_step f facts n s t loaded e =
    ap
      (λ (w : Written Bool). elim w.0 as (λ r. Written ℕ) [
        | ok b ↦ load_each facts (if b then suc n else n) w.1
        | err failure ↦ (err failure, w.1)
      ])
      e

-- The outcome of `load_each`, in closed form.
abbrev loaded_as : ℕ → List Fact → FactStorage → Written ℕ
loaded_as n fresh s = (ok (n + length fresh), extended fresh s)

new_facts_known :
    (keys : List PendingKey) (f : Fact) (facts : List Fact)
    → holds_key (pending_key f) keys ≡ true
    → new_facts keys (f ∷ facts) ≡ new_facts keys facts
unfolding new_facts
new_facts_known keys f facts known = rw known refl

new_facts_fresh :
    (keys : List PendingKey) (f : Fact) (facts : List Fact)
    → holds_key (pending_key f) keys ≡ false
    → new_facts keys (f ∷ facts) ≡ f ∷ new_facts (pending_key f ∷ keys) facts
unfolding new_facts
new_facts_fresh keys f facts fresh = rw fresh refl

load_each_lem :
    (facts : List Fact) (n : ℕ) (s : FactStorage)
    → length s.facts + length facts ≤ 2 ^ 32
    → load_each facts n s ≡ loaded_as n (new_facts s.pending_keys facts) s
load_each_lem [] n s h =
    unfold load_each new_facts in ap₂ (λ k t. (ok k, t)) (omega arith) (sym (extended_nil s))
load_each_lem (f ∷ facts) n s h = elim (Bool-cases (holds_key (pending_key f) s.pending_keys)) [
  | inl known ↦
      load_each_step f facts n s s false (load_fact_known f s known)
      ∙ load_each_lem facts n s (omega arith)
      ∙ ap (λ fresh. loaded_as n fresh s) (sym (new_facts_known s.pending_keys f facts known))
  | inr fresh ↦
      let one = extended (f ∷ []) s in
      load_each_step f facts n s one true (load_fact_fresh f s fresh (omega arith))
      ∙ load_each_lem facts (suc n) one (omega (arith, length-extended_one f s))
      ∙ ap (λ keys. loaded_as (suc n) (new_facts keys facts) one) (keys-extended_one f s)
      ∙ ap₂ (λ k t. (ok k, t)) (omega arith)
          (sym (extended_step f (new_facts (pending_key f ∷ s.pending_keys) facts) s))
      ∙ ap (λ l. loaded_as n l s) (sym (new_facts_fresh s.pending_keys f facts fresh))
]

length-new_facts :
    (keys : List PendingKey) (facts : List Fact) → length (new_facts keys facts) ≤ length facts
unfolding new_facts
length-new_facts keys [] = omega arith
length-new_facts keys (f ∷ facts) = elim (Bool-cases (holds_key (pending_key f) keys)) [
  | inl known ↦ rw known (omega (arith, length-new_facts keys facts))
  | inr fresh ↦ rw fresh (omega (arith, length-new_facts (pending_key f ∷ keys) facts))
]

-- A batch that fits is loaded as its facts are one by one: the same facts are new, and the store
-- and the number of loaded facts are the same.
pub load_facts-load_each :
    (facts : List Fact) (s : FactStorage)
    → length s.facts + length facts ≤ 2 ^ 32
    → load_facts facts s ≡ load_each facts 0 s
unfolding load_facts
load_facts-load_each facts s h =
    ap (commit (length (new_facts s.pending_keys facts)) s) (
      extend_fits (new_facts s.pending_keys facts) s
        (omega (arith, length-new_facts s.pending_keys facts)))
    ∙ sym (
        load_each_lem facts 0 s h
        ∙ ap (λ k. (ok k, extended (new_facts s.pending_keys facts) s)) (omega arith))

pending_same_self : (k : PendingKey) → pending_same k k ≡ true
pending_same_self k = ground (
  arith,
  bytes_eq_refl k.attribute,
  bytes_eq_refl k.value,
  int_same_iff k.valid_from k.valid_from,
  int_same_iff k.valid_to k.valid_to,
)

-- Loading a fact that fits makes a second load of it do nothing, whether the first one was needed
-- or not.
pub load_fact_twice :
    (f : Fact) (s : FactStorage)
    → length s.facts < 2 ^ 32
    → load_fact f (load_fact f s).1 ≡ (ok false, (load_fact f s).1)
unfolding load_fact
load_fact_twice f s h = elim (Bool-cases (holds_key (pending_key f) s.pending_keys)) [
  | inl known ↦ rw (known, known) refl
  | inr fresh ↦
      rw
        (
          fresh,
          extend_fits (f ∷ []) s (omega arith),
          keys-extended_one f s,
          pending_same_self (pending_key f),
        )
        refl
]
