-- ===== src/Storage/Packed/Fits.antt =====
-- What packing gives for facts that fit (src/storage/packed_pages.rs).
use minigraf.Prelude.{
  ℕ, suc, ◌+◌, ◌≤◌, ◌<◌, ◌≡◌, refl, ap, ◌∙◌, false, List, [], ◌∷◌, arith, ltb, ltb-false, length,
  All, length-append,
}
use minigraf.Error.{ok}
use minigraf.Graph.Fact.{Fact}
use minigraf.Graph.Index.{FactRef}
use minigraf.Storage.Header.{page_size}
use minigraf.Storage.Packed.{
  Serialiser, max_fact_bytes, Packing, new_packing, flushed_pages, make_room, recorded, pack_fact,
  pack_each, pack_facts,
}
use minigraf.Storage.Packed.Room.{
  IsPacking, IsRecorded, write_record-Fits, recorded-IsPacking, new_packed_page-whole,
  flushed_pages-whole, make_room-Fits,
}

-- A fact whose serialisation fits in a page.
pub record IsStorable (postcard : Serialiser) (fact : Fact) : Type 0 where
  pub serialised : List ℕ
  pub serialises : postcard.to_allocvec fact ≡ ok serialised
  pub not_empty : 0 < length serialised
  pub fits : length serialised ≤ max_fact_bytes

pack_fact-Fits :
    (postcard : Serialiser) (start_page_id : ℕ) (fact : Fact) (p : Packing)
    → IsStorable postcard fact
    → IsPacking p
    → (q : Packing) × (pack_fact postcard start_page_id fact p ≡ ok q)
      × IsPacking q
      × (length q.fact_refs ≡ suc (length p.fact_refs))
unfolding pack_fact
pack_fact-Fits postcard start_page_id fact p storable i =
    let len : ℕ = length storable.serialised in
    let fits : ltb max_fact_bytes len ≡ false = ltb-false max_fact_bytes len storable.fits in
    let (j, room, same) = make_room-Fits len p i storable.not_empty storable.fits in
    let r : IsRecorded start_page_id storable.serialised (make_room len p) =
      write_record-Fits start_page_id storable.serialised (make_room len p) j room in
    (
      recorded start_page_id _ r.with_entry (make_room len p),
      rw (storable.serialises, fits) r.writes,
      recorded-IsPacking start_page_id storable.serialised (make_room len p) j room r,
      length-append (make_room len p).fact_refs _ ∙ omega (arith, ap length same),
    )

pack_each-Fits :
    (postcard : Serialiser) (start_page_id : ℕ) (facts : List Fact) (p : Packing)
    → All (IsStorable postcard) facts
    → IsPacking p
    → (q : Packing) × (pack_each postcard start_page_id facts p ≡ ok q)
      × IsPacking q
      × (length q.fact_refs ≡ length p.fact_refs + length facts)
unfolding pack_each
pack_each-Fits postcard start_page_id [] p storable i = (p, refl, i, omega arith)
pack_each-Fits postcard start_page_id (fact ∷ facts) p (first, others) i =
    let (q, e, j, n) = pack_fact-Fits postcard start_page_id fact p first i in
    let (r, f, k, m) = pack_each-Fits postcard start_page_id facts q others j in
    (r, rw e f, k, omega (arith, n, m))

pub new_packing-IsPacking : IsPacking new_packing
new_packing-IsPacking = record {
  whole = new_packed_page-whole;
  apart = omega arith;
  inside = omega arith;
  flushed = tt;
}

-- `pack_facts` never fails on facts whose serialisation succeeds, is not empty and has at most
-- `MAX_FACT_BYTES` bytes: no write leaves the page and no INT-024 is raised. Each page that it
-- gives has exactly `PAGE_SIZE` bytes, and there is one reference for each fact.
pub pack_facts-Fits :
    (postcard : Serialiser) (facts : List Fact) (start_page_id : ℕ)
    → All (IsStorable postcard) facts
    → (pages : List (List ℕ)) × (fact_refs : List FactRef) × (pack_facts postcard facts
          start_page_id
        ≡ ok (pages, fact_refs))
      × All (λ page. length page ≡ page_size) pages
      × (length fact_refs ≡ length facts)
unfolding pack_facts
pack_facts-Fits postcard facts start_page_id storable =
    let (p, e, i, n) =
      pack_each-Fits postcard start_page_id facts new_packing storable new_packing-IsPacking in
    (flushed_pages p, p.fact_refs, rw e refl, flushed_pages-whole p i, n ∙ omega arith)
