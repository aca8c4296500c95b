-- ===== src/Storage/Packed/Placed.antt =====
-- Where the records of packed facts stand while pages are filled (src/storage/packed_pages.rs).
use minigraf.Prelude.{
  ℕ, zero, suc, ◌+◌, ◌*◌, ◌≤◌, ◌<◌, ◌≡◌, refl, ◌∙◌, ◌⊎◌, inl, inr, ◌||◌, some, List, [], ◌∷◌, ◌++◌,
  arith, ltb, ◌==◌, Bool-cases, length, get_elem?,
}
use minigraf.Error.{ok}
use minigraf.Bytes.{to_le}
use minigraf.Graph.Fact.{Fact}
use minigraf.Graph.Index.{FactRef}
use minigraf.Storage.Packed.{
  Serialiser, page_type_packed, saturating_add, new_packed_page, write_record_count, Packing,
  flushed_pages, start_page, free, make_room, read_slot,
}
use minigraf.Storage.Packed.Splice.{get_elem?-splice_before, get_elem?-splice_at}
use minigraf.Storage.Packed.Room.{IsPacking, splice-IsWritten, start_page-IsPacking}
use minigraf.Storage.Packed.Slots.{IsSlot, splice-IsSlot, read_slot-IsSlot}

-- A reference that reads back the fact from a finished page.
pub record IsReadable (postcard : Serialiser) (start_page_id : ℕ) (pages : List (List ℕ))
    (fact : Fact) (r : FactRef) : Type 0 where
  pub index : ℕ
  pub page : List ℕ
  pub stands : get_elem? pages index ≡ some page
  pub addressed : r.page_id ≡ saturating_add start_page_id index
  pub reads : read_slot postcard page r.slot_index ≡ ok fact

-- A reference whose record lies on the page that is being filled.
pub record IsPending (postcard : Serialiser) (start_page_id : ℕ) (p : Packing) (fact : Fact)
    (r : FactRef) : Type 0 where
  pub bytes : List ℕ
  pub slot : IsSlot p.current_page r.slot_index bytes p.data_offset
  pub listed : r.slot_index < p.current_record_count
  pub addressed : r.page_id ≡ saturating_add start_page_id (length p.pages)
  pub decodes : postcard.from_bytes bytes ≡ ok fact

-- The page is of the packed type, and its directory has one entry for each record.
pub record IsCounted (p : Packing) : Type 0 where
  pub packing : IsPacking p
  pub page_type : get_elem? p.current_page 0 ≡ some page_type_packed
  pub directory : p.dir_offset ≡ 12 + p.current_record_count * 4
  pub counted : p.current_record_count ≤ 65535

get_elem?-append :
    {A : Type 0} (xs ys : List A) (i : ℕ) {a : A}
    → get_elem? xs i ≡ some a
    → get_elem? (xs ++ ys) i ≡ some a
get_elem?-append [] ys i e = ground (arith, e)
get_elem?-append (x ∷ xs) ys zero e = e
get_elem?-append (x ∷ xs) ys (suc i) e = get_elem?-append xs ys i e

get_elem?-append_last :
    {A : Type 0} (xs : List A) (a : A) → get_elem? (xs ++ (a ∷ [])) (length xs) ≡ some a
get_elem?-append_last [] a = refl
get_elem?-append_last (x ∷ xs) a = get_elem?-append_last xs a

module _ (postcard : Serialiser) (start_page_id : ℕ) (fact : Fact) (r : FactRef) where
  pub append-IsReadable :
      (pages more : List (List ℕ))
      → IsReadable postcard start_page_id pages fact r
      → IsReadable postcard start_page_id (pages ++ more) fact r
  append-IsReadable pages more s = record {
    index = s.index;
    page = s.page;
    stands = get_elem?-append pages more s.index s.stands;
    addressed = s.addressed;
    reads = s.reads;
  }

  -- The page is finished: a pending record can be read.
  pub flushed_pages-IsReadable :
      (p : Packing)
      → IsCounted p
      → IsPending postcard start_page_id p fact r
      → IsReadable postcard start_page_id (flushed_pages p) fact r
  unfolding write_record_count to_le
  flushed_pages-IsReadable p i s =
      let whole : length p.current_page ≡ 4096 = i.packing.whole in
      let apart : p.dir_offset ≤ p.data_offset = i.packing.apart in
      let (w, written) =
        splice-IsWritten p.current_page 2 (to_le 2 p.current_record_count) (omega (arith, whole)) in
      record {
        index = length p.pages;
        page = write_record_count p.current_page p.current_record_count;
        stands = get_elem?-append_last p.pages _;
        addressed = s.addressed;
        reads = rw written.splices (
            read_slot-IsSlot postcard w r.slot_index p.current_record_count s.bytes p.data_offset
              (record {
                whole = written.same_length ∙ whole;
                page_type =
                    get_elem?-splice_before p.current_page 2 _ w written 0 (omega arith)
                    ∙ i.page_type;
                low_count = get_elem?-splice_at p.current_page 2 _ w written 0 (omega arith);
                high_count = get_elem?-splice_at p.current_page 2 _ w written 1 (omega arith);
              })
              s.listed (omega (arith, i.counted))
              (splice-IsSlot p.current_page r.slot_index s.bytes p.data_offset 2 _ w written
                (inl (omega arith)) (omega (arith, apart, i.directory)) s.slot)
            ∙ s.decodes);
      }

abbrev pub IsPlaced : Serialiser → ℕ → Packing → Fact → FactRef → Type 0
IsPlaced postcard start_page_id p fact r =
    IsReadable postcard start_page_id p.pages fact r ⊎ IsPending postcard start_page_id p fact r

pub new_packed_page-type : get_elem? new_packed_page 0 ≡ some page_type_packed
new_packed_page-type = refl

-- Making room leaves each fact where its reference says.
start_page-IsPlaced :
    (postcard : Serialiser) (start_page_id : ℕ) (p : Packing) (fact : Fact) (r : FactRef)
    → IsCounted p
    → IsPlaced postcard start_page_id p fact r
    → IsPlaced postcard start_page_id (start_page p) fact r
unfolding start_page
start_page-IsPlaced postcard start_page_id p fact r i (inl s) =
    inl (append-IsReadable postcard start_page_id fact r p.pages _ s)
start_page-IsPlaced postcard start_page_id p fact r i (inr s) =
    inl (flushed_pages-IsReadable postcard start_page_id fact r p i s)

start_page-directory :
    (p : Packing)
    → (get_elem? (start_page p).current_page 0 ≡ some page_type_packed)
      × ((start_page p).dir_offset ≡ 12 + (start_page p).current_record_count * 4)
      × ((start_page p).current_record_count < 65535)
unfolding start_page
start_page-directory p = (new_packed_page-type, omega arith, omega arith)

pub make_room-IsCounted :
    (len : ℕ) (p : Packing)
    → IsCounted p
    → IsCounted (make_room len p) × ((make_room len p).current_record_count < 65535)
unfolding make_room
make_room-IsCounted len p i =
    elim (Bool-cases (ltb (free p) len || (p.current_record_count == 65535))) [
      | inl full ↦
          let (type, directory, count) = start_page-directory p in
          rw full (
            record {
              packing = start_page-IsPacking p i.packing;
              page_type = type;
              directory = directory;
              counted = omega (arith, count);
            },
            count,
          )
      | inr room ↦ rw room (i, ground (arith, room, i.counted))
    ]

pub make_room-IsPlaced :
    (postcard : Serialiser) (start_page_id len : ℕ) (p : Packing) (fact : Fact) (r : FactRef)
    → IsCounted p
    → IsPlaced postcard start_page_id p fact r
    → IsPlaced postcard start_page_id (make_room len p) fact r
unfolding make_room
make_room-IsPlaced postcard start_page_id len p fact r i s =
    elim (Bool-cases (ltb (free p) len || (p.current_record_count == 65535))) [
      | inl full ↦ rw full (start_page-IsPlaced postcard start_page_id p fact r i s)
      | inr room ↦ rw room s
    ]
