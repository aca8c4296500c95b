-- ===== src/Storage/Packed/RoundTrip.antt =====
-- Packing facts and reading them back by their references (src/storage/packed_pages.rs).
use minigraf.Prelude.{
  ℕ, ◌+◌, ◌-◌, ◌≤◌, ◌<◌, ◌≡◌, refl, sym, inl, inr, false, List, [], ◌∷◌, ◌++◌, append-nil,
  append_assoc, arith, ltb, ltb-false, length, All,
}
use minigraf.Error.{ok}
use minigraf.Graph.Fact.{Fact}
use minigraf.Graph.Index.{FactRef}
use minigraf.Storage.Packed.{
  Serialiser, max_fact_bytes, Packing, recorded, new_packing, flushed_pages, make_room, pack_fact,
  pack_each, pack_facts,
}
use minigraf.Storage.Packed.Fits.{IsStorable, new_packing-IsPacking}
use minigraf.Storage.Packed.Room.{IsRecorded, make_room-Fits, write_record-Fits}
use minigraf.Storage.Packed.Placed.{
  IsReadable, IsCounted, IsPlaced, append-IsReadable, flushed_pages-IsReadable, make_room-IsCounted,
  make_room-IsPlaced, new_packed_page-type,
}
use minigraf.Storage.Packed.Recorded.{recorded-IsCounted, recorded-IsSlot, recorded-IsSlot_new}

-- A reference that was in place stays in place, or becomes a pending record.
recorded-IsPlaced :
    (postcard : Serialiser) (start_page_id : ℕ) (serialised : List ℕ) (p : Packing)
    → (i : IsCounted p) (room : p.dir_offset + 4 + length serialised ≤ p.data_offset)
    → (few : p.current_record_count < 65535) → (w : IsRecorded start_page_id serialised p)
    → (fact : Fact) (r : FactRef) → IsPlaced postcard start_page_id p fact r
    → IsPlaced postcard start_page_id
        (recorded start_page_id (p.data_offset - length serialised) w.with_entry p)
        fact
        r
recorded-IsPlaced postcard start_page_id serialised p i room few w fact r (inl s) = inl s
recorded-IsPlaced postcard start_page_id serialised p i room few w fact r (inr s) = inr (record {
  bytes = s.bytes;
  slot =
      recorded-IsSlot start_page_id serialised p i room few w r.slot_index s.bytes s.listed s.slot;
  listed = omega (arith, s.listed);
  addressed = s.addressed;
  decodes = s.decodes;
})

-- The facts and the references stand side by side in the relation.
abbrev pub Both : (Fact → FactRef → Type 0) → List Fact → List FactRef → Type 0
Both R [] [] = Unit
Both R [] (r ∷ refs) = ⊥
Both R (fact ∷ facts) [] = ⊥
Both R (fact ∷ facts) (r ∷ refs) = R fact r × Both R facts refs

Both-map :
    {R S : Fact → FactRef → Type 0} (change : (fact : Fact) (r : FactRef) → R fact r → S fact r)
    → (facts : List Fact) (refs : List FactRef) → Both R facts refs
    → Both S facts refs
Both-map change [] [] b = b
Both-map change [] (r ∷ refs) b = absurd b
Both-map change (fact ∷ facts) [] b = absurd b
Both-map change (fact ∷ facts) (r ∷ refs) (s, b) = (change fact r s, Both-map change facts refs b)

Both-along :
    (R : Fact → FactRef → Type 0) (facts : List Fact) (refs more : List FactRef)
    → refs ≡ more
    → Both R facts refs
    → Both R facts more
Both-along R facts refs more e b = rw (sym e) b

Both-append :
    (R : Fact → FactRef → Type 0) (facts : List Fact) (refs : List FactRef) (fact : Fact)
    (r : FactRef)
    → Both R facts refs
    → R fact r
    → Both R (facts ++ (fact ∷ [])) (refs ++ (r ∷ []))
Both-append R [] [] fact r b s = (s, tt)
Both-append R [] (q ∷ refs) fact r b s = absurd b
Both-append R (f ∷ facts) [] fact r b s = absurd b
Both-append R (f ∷ facts) (q ∷ refs) fact r (t, b) s = (t, Both-append R facts refs fact r b s)

-- A storable fact that the serialiser reads back.
pub record IsRestorable (postcard : Serialiser) (fact : Fact) : Type 0 where
  pub storable : IsStorable postcard fact
  pub decodes : postcard.from_bytes storable.serialised ≡ ok fact

abbrev AllPlaced : Serialiser → ℕ → Packing → List Fact → Type 0
AllPlaced postcard start_page_id p facts =
    Both (IsPlaced postcard start_page_id p) facts p.fact_refs

pack_fact-AllPlaced :
    (postcard : Serialiser) (start_page_id : ℕ) (fact : Fact) (p : Packing) (behind : List Fact)
    → IsRestorable postcard fact
    → IsCounted p
    → AllPlaced postcard start_page_id p behind
    → (q : Packing) × (pack_fact postcard start_page_id fact p ≡ ok q)
      × IsCounted q
      × AllPlaced postcard start_page_id q (behind ++ (fact ∷ []))
unfolding pack_fact
pack_fact-AllPlaced postcard start_page_id fact p behind f i placed =
    let bytes : List ℕ = f.storable.serialised in
    let len : ℕ = length bytes in
    let fits : ltb max_fact_bytes len ≡ false = ltb-false max_fact_bytes len f.storable.fits in
    let m : Packing = make_room len p in
    let (packing, room, same) =
      make_room-Fits len p i.packing f.storable.not_empty f.storable.fits in
    let (j, few) = make_room-IsCounted len p i in
    let w : IsRecorded start_page_id bytes m =
      write_record-Fits start_page_id bytes m packing room in
    let moved : Both (IsPlaced postcard start_page_id m) behind m.fact_refs =
      Both-along (IsPlaced postcard start_page_id m) behind p.fact_refs m.fact_refs (sym same) (
        Both-map (λ g r s. make_room-IsPlaced postcard start_page_id len p g r i s) behind
          p.fact_refs placed) in
    let kept : Both
        (IsPlaced postcard start_page_id
          (recorded start_page_id (m.data_offset - len) w.with_entry m))
        behind m.fact_refs =
      Both-map (λ g r s. recorded-IsPlaced postcard start_page_id bytes m j room few w g r s) behind
        m.fact_refs moved in
    (
      recorded start_page_id (m.data_offset - len) w.with_entry m,
      rw (f.storable.serialises, fits) w.writes,
      recorded-IsCounted start_page_id bytes m j room few w,
      Both-append
          (IsPlaced postcard start_page_id
            (recorded start_page_id (m.data_offset - len) w.with_entry m))
          behind m.fact_refs fact _ kept
          (inr (record {
            bytes = bytes;
            slot = recorded-IsSlot_new start_page_id bytes m j room few w;
            listed = omega (arith, few);
            addressed = refl;
            decodes = f.decodes;
          })),
    )

pack_each-AllPlaced :
    (postcard : Serialiser) (start_page_id : ℕ) (facts : List Fact) (p : Packing)
    → (behind : List Fact) → All (IsRestorable postcard) facts
    → IsCounted p
    → AllPlaced postcard start_page_id p behind
    → (q : Packing) × (pack_each postcard start_page_id facts p ≡ ok q)
      × IsCounted q
      × AllPlaced postcard start_page_id q (behind ++ facts)
unfolding pack_each
pack_each-AllPlaced postcard start_page_id [] p behind fs i placed =
    (p, refl, i, rw (append-nil behind) placed)
pack_each-AllPlaced postcard start_page_id (fact ∷ facts) p behind (f, fs) i placed =
    let (q, e, j, more) = pack_fact-AllPlaced postcard start_page_id fact p behind f i placed in
    let (t, g, k, all) =
      pack_each-AllPlaced postcard start_page_id facts q (behind ++ (fact ∷ [])) fs j more in
    (t, rw e g, k, rw (sym (append_assoc behind (fact ∷ []) facts)) all)

new_packing-IsCounted : IsCounted new_packing
new_packing-IsCounted = record {
  packing = new_packing-IsPacking;
  page_type = new_packed_page-type;
  directory = omega arith;
  counted = omega arith;
}

-- For facts whose serialisation succeeds, is not empty, has at most `MAX_FACT_BYTES` bytes and is
-- read back by the deserialiser, `pack_facts` succeeds, and its references stand in the order of
-- the facts: the page that a reference names is one of the pages, numbered from `start_page_id`
-- on, and `read_slot` at the reference's slot of that page gives the fact.
pub pack_facts-read_slot :
    (postcard : Serialiser) (facts : List Fact) (start_page_id : ℕ)
    → All (IsRestorable postcard) facts
    → (pages : List (List ℕ)) × (fact_refs : List FactRef) × (pack_facts postcard facts
          start_page_id
        ≡ ok (pages, fact_refs))
      × Both (IsReadable postcard start_page_id pages) facts fact_refs
unfolding pack_facts
pack_facts-read_slot postcard facts start_page_id fs =
    let (p, e, i, placed) =
      pack_each-AllPlaced postcard start_page_id facts new_packing [] fs new_packing-IsCounted tt in
    (
      flushed_pages p,
      p.fact_refs,
      rw e refl,
      Both-map (λ fact r s. finished p i fact r s) facts p.fact_refs placed,
    )
  where
    finished :
        (p : Packing)
        → IsCounted p
        → (fact : Fact) (r : FactRef) → IsPlaced postcard start_page_id p fact r
        → IsReadable postcard start_page_id (flushed_pages p) fact r
    finished p i fact r (inl s) = append-IsReadable postcard start_page_id fact r p.pages _ s
    finished p i fact r (inr s) = flushed_pages-IsReadable postcard start_page_id fact r p i s
