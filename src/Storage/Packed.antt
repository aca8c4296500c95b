-- ===== src/Storage/Packed.antt =====
-- src/storage/packed_pages.rs: packing facts into pages and reading them back. The serialiser of
-- facts, postcard, is an argument.
pub mod Room
pub mod Fits
pub mod Splice
pub mod Slots
pub mod Placed
pub mod Recorded
pub mod RoundTrip
mod Tests
use minigraf.Error.{
  coded, Result, ok, err, ◌>>=◌, ◌>>◌, bail_if, ok_or, int023, int024, stg014, stg015,
}
use minigraf.Prelude.{
  ℕ, zero, suc, ◌+◌, ◌-◌, ◌*◌, ◌%◌, ◌^◌, min, Bool, not, ◌||◌, Option, none, some, List, [], ◌∷◌,
  ◌++◌, map, ltb, leb, ◌==◌, if◌then◌else◌, length, get_elem?, set, take, drop, replicate,
}
use minigraf.Bytes.{to_le, from_le, slice}
use minigraf.Graph.Fact.{Fact}
use minigraf.Graph.Index.{FactRef}
use minigraf.Storage.Header.{page_size}
use minigraf.Storage.Backend.{StorageBackend}

-- `postcard::to_allocvec` and `postcard::from_bytes`, at the type of facts.
pub record Serialiser : Type 0 where
  pub to_allocvec : Fact → Result (List ℕ)
  pub from_bytes : List ℕ → Result Fact

-- `PAGE_TYPE_PACKED`
abbrev pub page_type_packed : ℕ
page_type_packed = 0x02

-- `PACKED_HEADER_SIZE`
abbrev pub packed_header_size : ℕ
packed_header_size = 12

-- `MAX_FACT_BYTES`
abbrev pub max_fact_bytes : ℕ
max_fact_bytes = 4080

-- `bytes.get_mut(offset..offset + n)?.copy_from_slice(new)`, `n` the length of `new`.
abbrev splice_within : Bool → List ℕ → ℕ → List ℕ → Option (List ℕ)
splice_within fits bytes offset new =
    if fits then some (take offset bytes ++ (new ++ drop (offset + length new) bytes)) else none

unfoldable pub splice : List ℕ → ℕ → List ℕ → Option (List ℕ)
splice bytes offset new = splice_within (leb (offset + length new) (length bytes)) bytes offset new

unfoldable pub saturating_add : ℕ → ℕ → ℕ
saturating_add a b = min (a + b) (2 ^ 64 - 1)

unfoldable pub wrapping_sub : ℕ → ℕ → ℕ
wrapping_sub a b = (a + (2 ^ 64 - b)) % 2 ^ 64

unfoldable pub try_u16 : ℕ → Result ℕ
try_u16 n = if ltb n 65536 then ok n else err (coded int024)

-- `new_packed_page`
abbrev pub new_packed_page : List ℕ
new_packed_page = set (replicate page_size 0) 0 page_type_packed

abbrev spliced_or : Option (List ℕ) → List ℕ → List ℕ
spliced_or none page = page
spliced_or (some written) page = written

-- `write_record_count`
unfoldable pub write_record_count : List ℕ → ℕ → List ℕ
write_record_count page count = spliced_or (splice page 2 (to_le 2 count)) page

-- The variables of `pack_facts`.
pub record Packing : Type 0 where
  pub pages : List (List ℕ)
  pub fact_refs : List FactRef
  pub current_page : List ℕ
  pub current_record_count : ℕ
  pub dir_offset : ℕ
  pub data_offset : ℕ

abbrev pub new_packing : Packing
new_packing = record {
  pages = [];
  fact_refs = [];
  current_page = new_packed_page;
  current_record_count = 0;
  dir_offset = packed_header_size;
  data_offset = page_size;
}

-- `write_record_count(..); pages.push(current_page)`
abbrev pub flushed_pages : Packing → List (List ℕ)
flushed_pages p = p.pages ++ (write_record_count p.current_page p.current_record_count ∷ [])

-- The page is flushed and a new one started.
unfoldable pub start_page : Packing → Packing
start_page p = record p {
  pages = flushed_pages p;
  current_page = new_packed_page;
  current_record_count = 0;
  dir_offset = packed_header_size;
  data_offset = page_size;
}

-- The free space on the current page.
abbrev pub free : Packing → ℕ
free p = p.data_offset - saturating_add p.dir_offset 4

unfoldable pub make_room : ℕ → Packing → Packing
make_room len p = if ltb (free p) len || (p.current_record_count == 65535) then start_page p else p

-- The reference is added, and the record counted.
abbrev pub recorded : ℕ → ℕ → List ℕ → Packing → Packing
recorded start_page_id data_offset page p = record p {
  fact_refs =
      p.fact_refs
      ++ (record {
        page_id = saturating_add start_page_id (length p.pages);
        slot_index = p.current_record_count;
      }
          ∷ []);
  current_page = page;
  current_record_count = min (p.current_record_count + 1) 65535;
  dir_offset = saturating_add p.dir_offset 4;
  data_offset = data_offset;
}

-- The part of the loop that writes the record, its directory entry and its reference.
unfoldable pub write_record : ℕ → List ℕ → Packing → Result Packing
write_record start_page_id serialised p = do
  let data_offset = wrapping_sub p.data_offset (length serialised)
  with_data ← ok_or (splice p.current_page data_offset serialised) int024
  offset ← try_u16 data_offset
  len ← try_u16 (length serialised)
  with_offset ← ok_or (splice with_data p.dir_offset (to_le 2 offset)) int024
  with_entry ← ok_or (splice with_offset (saturating_add p.dir_offset 2) (to_le 2 len)) int024
  ok (recorded start_page_id data_offset with_entry p)

-- One round of the loop of `pack_facts`.
unfoldable pub pack_fact : Serialiser → ℕ → Fact → Packing → Result Packing
pack_fact postcard start_page_id fact p = do
  serialised ← postcard.to_allocvec fact
  bail_if (ltb max_fact_bytes (length serialised)) int023
  write_record start_page_id serialised (make_room (length serialised) p)

unfoldable pub pack_each : Serialiser → ℕ → List Fact → Packing → Result Packing
pack_each postcard start_page_id [] p = ok p
pack_each postcard start_page_id (fact ∷ facts) p = do
  q ← pack_fact postcard start_page_id fact p
  pack_each postcard start_page_id facts q

-- `pack_facts`
unfoldable pub pack_facts : Serialiser → List Fact → ℕ → Result (List (List ℕ) × List FactRef)
pack_facts postcard facts start_page_id = do
  p ← pack_each postcard start_page_id facts new_packing
  ok (flushed_pages p, p.fact_refs)

-- `read_slot`
unfoldable pub read_slot : Serialiser → List ℕ → ℕ → Result Fact
read_slot postcard page slot = do
  bail_if (ltb (length page) page_size) int024
  page_type ← ok_or (get_elem? page 0) int024
  bail_if (not (page_type == page_type_packed)) stg014
  b2 ← ok_or (get_elem? page 2) int024
  b3 ← ok_or (get_elem? page 3) int024
  bail_if (leb (from_le (b2 ∷ b3 ∷ [])) slot) int024
  let dir_base = saturating_add packed_header_size (min (slot * 4) (2 ^ 64 - 1))
  db0 ← ok_or (get_elem? page dir_base) int024
  db1 ← ok_or (get_elem? page (saturating_add dir_base 1)) int024
  db2 ← ok_or (get_elem? page (saturating_add dir_base 2)) int024
  db3 ← ok_or (get_elem? page (saturating_add dir_base 3)) int024
  let offset = from_le (db0 ∷ db1 ∷ [])
  let len = from_le (db2 ∷ db3 ∷ [])
  bail_if (ltb page_size (saturating_add offset len)) stg015
  record_bytes ← ok_or (slice page offset len) int024
  postcard.from_bytes record_bytes

abbrev byte_or_zero : Option ℕ → ℕ
byte_or_zero none = 0
byte_or_zero (some b) = b

-- The slots from `slot` on, `n` of them, each with its reference.
unfoldable pub read_slots : Serialiser → ℕ → List ℕ → ℕ → ℕ → Result (List (Fact × FactRef))
read_slots postcard page_id page slot zero = ok []
read_slots postcard page_id page slot (suc n) = do
  fact ← read_slot postcard page slot
  rest ← read_slots postcard page_id page (suc slot) n
  ok ((fact, record { page_id = page_id; slot_index = slot }) ∷ rest)

-- One page of `read_all_with_refs`: a page that is not packed is skipped.
unfoldable pub read_packed_page : Serialiser → ℕ → List ℕ → Result (List (Fact × FactRef))
read_packed_page postcard page_id page =
    if ltb (length page) page_size || not (byte_or_zero (get_elem? page 0) == page_type_packed)
    then ok []
    else read_slots postcard page_id page 0
        (from_le (byte_or_zero (get_elem? page 2) ∷ byte_or_zero (get_elem? page 3) ∷ []))

-- `read_all_with_refs`, the facts paired with their references; `i` pages are behind.
unfoldable pub read_pages :
    {S : Type 0} → Serialiser → StorageBackend S → S → ℕ → ℕ → ℕ → Result (List (Fact × FactRef))
read_pages postcard backend s first_page_id i zero = ok []
read_pages postcard backend s first_page_id i (suc n) = do
  let page_id = saturating_add first_page_id i
  page ← backend.read_page page_id s
  here ← read_packed_page postcard page_id page
  rest ← read_pages postcard backend s first_page_id (suc i) n
  ok (here ++ rest)

unfoldable pub read_all_with_refs :
    {S : Type 0} → Serialiser → StorageBackend S → S → ℕ → ℕ → Result (List Fact × List FactRef)
read_all_with_refs postcard backend s first_page_id num_pages = do
  found ← read_pages postcard backend s first_page_id 0 num_pages
  ok (map (λ fr. fr.0) found, map (λ fr. fr.1) found)

unfoldable pub read_all_from_pages :
    {S : Type 0} → Serialiser → StorageBackend S → S → ℕ → ℕ → Result (List Fact)
read_all_from_pages postcard backend s first_page_id num_pages = do
  both ← read_all_with_refs postcard backend s first_page_id num_pages
  ok both.0
