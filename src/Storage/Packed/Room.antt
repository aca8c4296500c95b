-- ===== src/Storage/Packed/Room.antt =====
-- What the writing of a record and the making of room do to the page (src/storage/packed_pages.rs).
use minigraf.Prelude.{
  ℕ, ◌+◌, ◌-◌, ◌^◌, ◌≤◌, ◌<◌, ◌≡◌, refl, ◌∙◌, inl, inr, true, false, ◌||◌, List, ◌++◌, arith, ltb,
  leb, ◌==◌, Bool-cases, length, take, drop, replicate, All, length-append, length-take,
  length-drop, length-replicate, length-set, All-append,
}
use minigraf.Error.{ok}
use minigraf.Bytes.{to_le}
use minigraf.Bytes.RoundTrip.{length-to_le}
use minigraf.Storage.Header.{page_size}
use minigraf.Storage.Packed.Splice.{IsWritten}
use minigraf.Storage.Packed.{
  page_type_packed, max_fact_bytes, splice, saturating_add, wrapping_sub, try_u16, new_packed_page,
  write_record_count, Packing, flushed_pages, start_page, free, make_room, write_record, recorded,
}

pub splice-IsWritten :
    (bytes : List ℕ) (offset : ℕ) (new : List ℕ)
    → offset + length new ≤ length bytes
    → (w : List ℕ) × IsWritten bytes offset new w
unfolding splice
splice-IsWritten bytes offset new h =
    let fits : leb (offset + length new) (length bytes) ≡ true = ground (arith, h) in
    (
      take offset bytes ++ (new ++ drop (offset + length new) bytes),
      record {
        within = h;
        splices = rw fits refl;
        same_length =
            rw
              (
                length-append (take offset bytes) (new ++ drop (offset + length new) bytes),
                length-append new (drop (offset + length new) bytes),
                length-take offset bytes (omega arith),
                length-drop (offset + length new) bytes,
              )
              (omega arith);
        parts = refl;
      },
    )

-- The page is whole, and the directory ends before the data begins.
pub record IsPacking (p : Packing) : Type 0 where
  pub whole : length p.current_page ≡ page_size
  pub apart : p.dir_offset ≤ p.data_offset
  pub inside : p.data_offset ≤ page_size
  pub flushed : All (λ page. length page ≡ page_size) p.pages

pub wrapping_sub_eq : (a b : ℕ) → b ≤ a → a ≤ 4096 → wrapping_sub a b ≡ a - b
unfolding wrapping_sub
wrapping_sub_eq a b h k = omega arith

pub saturating_add_eq : (a b : ℕ) → a + b < 2 ^ 32 → saturating_add a b ≡ a + b
unfolding saturating_add
saturating_add_eq a b h = omega arith

pub try_u16_eq : (n : ℕ) → n ≤ 65535 → try_u16 n ≡ ok n
unfolding try_u16
try_u16_eq n h = let low : ltb n 65536 ≡ true = ground (arith, h) in rw low refl

-- What `write_record` does on a page with room: three writes into the page.
pub record IsRecorded (start_page_id : ℕ) (serialised : List ℕ) (p : Packing) : Type 0 where
  pub with_data : List ℕ
  pub with_offset : List ℕ
  pub with_entry : List ℕ
  pub record_bytes :
      IsWritten p.current_page (p.data_offset - length serialised) serialised with_data
  pub offset :
      IsWritten with_data p.dir_offset (to_le 2 (p.data_offset - length serialised)) with_offset
  pub len : IsWritten with_offset (p.dir_offset + 2) (to_le 2 (length serialised)) with_entry
  pub writes :
      write_record start_page_id serialised p
      ≡ ok (recorded start_page_id (p.data_offset - length serialised) with_entry p)

-- A record that fits on the page is written.
pub write_record-Fits :
    (start_page_id : ℕ) (serialised : List ℕ) (p : Packing)
    → IsPacking p
    → p.dir_offset + 4 + length serialised ≤ p.data_offset
    → IsRecorded start_page_id serialised p
unfolding write_record
write_record-Fits start_page_id serialised p i h =
    let len : ℕ = length serialised in
    let at : ℕ = p.data_offset - len in
    let small : p.data_offset ≤ 4096 = i.inside in
    let page : length p.current_page ≡ 4096 = i.whole in
    let (w₁, s₁) = splice-IsWritten p.current_page at serialised (omega arith) in
    let (w₂, s₂) =
      splice-IsWritten w₁ p.dir_offset (to_le 2 at)
        (omega (arith, length-to_le 2 at, s₁.same_length)) in
    let (w₃, s₃) =
      splice-IsWritten w₂ (p.dir_offset + 2) (to_le 2 len)
        (omega (arith, length-to_le 2 len, s₁.same_length, s₂.same_length)) in
    record {
      with_data = w₁;
      with_offset = w₂;
      with_entry = w₃;
      record_bytes = s₁;
      offset = s₂;
      len = s₃;
      writes =
          rw
            (
              wrapping_sub_eq p.data_offset len (omega arith) small,
              s₁.splices,
              try_u16_eq at (omega arith),
              try_u16_eq len (omega arith),
              s₂.splices,
              saturating_add_eq p.dir_offset 2 (omega arith),
              s₃.splices,
            )
            refl;
    }

pub recorded-IsPacking :
    (start_page_id : ℕ) (serialised : List ℕ) (p : Packing)
    → IsPacking p
    → p.dir_offset + 4 + length serialised ≤ p.data_offset
    → (r : IsRecorded start_page_id serialised p)
    → IsPacking (recorded start_page_id (p.data_offset - length serialised) r.with_entry p)
recorded-IsPacking start_page_id serialised p i h r =
    let small : p.data_offset ≤ 4096 = i.inside in
    record {
      whole = r.len.same_length ∙ r.offset.same_length ∙ r.record_bytes.same_length ∙ i.whole;
      apart = omega (arith, saturating_add_eq p.dir_offset 4 (omega arith));
      inside = omega arith;
      flushed = i.flushed;
    }

pub new_packed_page-whole : length new_packed_page ≡ page_size
new_packed_page-whole =
    let zero_byte : ℕ = 0 in
    length-set (replicate page_size zero_byte) 0 page_type_packed
    ∙ length-replicate page_size zero_byte

pub write_record_count-whole :
    (page : List ℕ) (count : ℕ)
    → length page ≡ page_size
    → length (write_record_count page count) ≡ page_size
unfolding write_record_count
write_record_count-whole page count whole =
    let (w, s) =
      splice-IsWritten page 2 (to_le 2 count) (omega (arith, length-to_le 2 count, whole)) in
    rw s.splices (s.same_length ∙ whole)

pub flushed_pages-whole :
    (p : Packing) → IsPacking p → All (λ page. length page ≡ page_size) (flushed_pages p)
flushed_pages-whole p i =
    All-append (λ page. length page ≡ page_size) p.pages _ i.flushed
      (write_record_count-whole p.current_page p.current_record_count i.whole, tt)

pub start_page-IsPacking : (p : Packing) → IsPacking p → IsPacking (start_page p)
unfolding start_page
start_page-IsPacking p i = record {
  whole = new_packed_page-whole;
  apart = omega arith;
  inside = omega arith;
  flushed = flushed_pages-whole p i;
}

-- After `make_room` there is room for any record of at most `max_fact_bytes`.
pub make_room-Fits :
    (len : ℕ) (p : Packing)
    → IsPacking p
    → 0 < len
    → len ≤ max_fact_bytes
    → IsPacking (make_room len p)
      × ((make_room len p).dir_offset + 4 + len ≤ (make_room len p).data_offset)
      × ((make_room len p).fact_refs ≡ p.fact_refs)
unfolding make_room start_page
make_room-Fits len p i some_bytes h =
    elim (Bool-cases (ltb (free p) len || (p.current_record_count == 65535))) [
      | inl full ↦ rw full (start_page-IsPacking p i, omega arith, refl)
      | inr room ↦ rw room (i, fits room, refl)
    ]
  where
    small : p.data_offset ≤ 4096
    small = i.inside

    apart : p.dir_offset ≤ p.data_offset
    apart = i.apart

    fits :
        ltb (free p) len || (p.current_record_count == 65535) ≡ false
        → p.dir_offset + 4 + len ≤ p.data_offset
    fits room =
        let at : saturating_add p.dir_offset 4 ≡ p.dir_offset + 4 =
          saturating_add_eq p.dir_offset 4 (omega arith) in
        ground (arith, some_bytes, at, room)
