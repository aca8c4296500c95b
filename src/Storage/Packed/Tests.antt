-- ===== src/Storage/Packed/Tests.antt =====
-- Packing run on two facts, and the witnesses.
use minigraf.Prelude.{ℕ, ◌≡◌, refl, true, List, [], ◌∷◌, arith, length, All}
use minigraf.Error.{ok}
use minigraf.Prelude.Int.{pos}
use minigraf.Prelude.Text.{codes}
use minigraf.Bytes.{to_le, from_le}
use minigraf.Graph.Value.{integer}
use minigraf.Graph.Fact.{Fact}
use minigraf.Graph.Index.{FactRef}
use minigraf.Storage.Header.{page_size}
use minigraf.Storage.Packed.{Serialiser, pack_facts}
use minigraf.Storage.Packed.Fits.{IsStorable, pack_facts-Fits}
use minigraf.Storage.Packed.Placed.{IsReadable}
use minigraf.Storage.Packed.RoundTrip.{Both, IsRestorable, pack_facts-read_slot}

abbrev fact_of : ℕ → Fact
fact_of n = record {
  entity = n;
  attribute = codes ":age";
  value = integer (pos n);
  tx_id = 1000;
  tx_count = 1;
  valid_from = pos 1000;
  valid_to = pos 2000;
  asserted = true;
}

-- A serialiser that keeps the entity.
abbrev short : Serialiser
short = record {
  to_allocvec = λ fact. ok (to_le 4 fact.entity);
  from_bytes = λ bytes. ok (fact_of (from_le bytes));
}

short-IsStorable : (fact : Fact) → IsStorable short fact
unfolding to_le
short-IsStorable fact = record {
  serialised = to_le 4 fact.entity;
  serialises = refl;
  not_empty = omega arith;
  fits = omega arith;
}

pack_facts-Fits_example :
    (pages : List (List ℕ)) × (fact_refs : List FactRef) × (pack_facts short
        (fact_of 7 ∷ fact_of 300 ∷ [])
        5
      ≡ ok (pages, fact_refs))
    × All (λ page. length page ≡ page_size) pages
    × (length fact_refs ≡ 2)
pack_facts-Fits_example =
    pack_facts-Fits short (fact_of 7 ∷ fact_of 300 ∷ []) 5
      (short-IsStorable (fact_of 7), (short-IsStorable (fact_of 300), tt))

seven-IsRestorable : IsRestorable short (fact_of 7)
unfolding to_le from_le short-IsStorable
seven-IsRestorable = record { storable = short-IsStorable (fact_of 7); decodes = refl }

three_hundred-IsRestorable : IsRestorable short (fact_of 300)
unfolding to_le from_le short-IsStorable
three_hundred-IsRestorable = record { storable = short-IsStorable (fact_of 300); decodes = refl }

pack_facts-read_slot_example :
    (pages : List (List ℕ)) × (fact_refs : List FactRef) × (pack_facts short
        (fact_of 7 ∷ fact_of 300 ∷ [])
        5
      ≡ ok (pages, fact_refs))
    × Both (IsReadable short 5 pages) (fact_of 7 ∷ fact_of 300 ∷ []) fact_refs
pack_facts-read_slot_example =
    pack_facts-read_slot short (fact_of 7 ∷ fact_of 300 ∷ []) 5
      (seven-IsRestorable, (three_hundred-IsRestorable, tt))
