-- ===== src/Storage/Packed/Slots.antt =====
-- The records of a packed page: what a write leaves of them, and what `read_slot` reads
-- (src/storage/packed_pages.rs).
use minigraf.Prelude.{
  ℕ, ◌+◌, ◌-◌, ◌*◌, ◌/◌, ◌%◌, ◌^◌, ◌≤◌, ◌<◌, min, ◌≡◌, refl, ap, ◌∙◌, ◌⊎◌, inl, inr, false, some,
  List, [], ◌∷◌, ◌++◌, arith, ltb, leb, ltb-false, length, get_elem?,
}
use minigraf.Bytes.{to_le, from_le, slice}
use minigraf.Bytes.RoundTrip.{from_le-to_le}
use minigraf.Storage.Header.{page_size}
use minigraf.Storage.Packed.{Serialiser, page_type_packed, read_slot}
use minigraf.Storage.Packed.Room.{saturating_add_eq}
use minigraf.Storage.Packed.Splice.{
  IsWritten, get_elem?-splice_before, get_elem?-splice_after, slice-splice_after,
}

-- The directory entry of a record.
abbrev pub entry_of : ℕ → ℕ → List ℕ
entry_of offset len = to_le 2 offset ++ to_le 2 len

-- Slot `slot` of the page holds `bytes`, which lie at `low` or above.
pub record IsSlot (page : List ℕ) (slot : ℕ) (bytes : List ℕ) (low : ℕ) : Type 0 where
  pub offset : ℕ
  pub entry :
      (k : ℕ)
      → k < 4
      → get_elem? page (12 + slot * 4 + k) ≡ get_elem? (entry_of offset (length bytes)) k
  pub found : slice page offset (length bytes) ≡ some bytes
  pub above : low ≤ offset
  pub inside : offset + length bytes ≤ page_size

-- A write below the records that leaves the directory entry leaves the slot.
pub splice-IsSlot :
    (page : List ℕ) (slot : ℕ) (bytes : List ℕ) (low at : ℕ) (new w : List ℕ)
    → IsWritten page at new w
    → (at + length new ≤ 12 + slot * 4) ⊎ (16 + slot * 4 ≤ at)
    → at + length new ≤ low
    → IsSlot page slot bytes low
    → IsSlot w slot bytes low
splice-IsSlot page slot bytes low at new w written beside below s = record {
  offset = s.offset;
  entry = λ k h. kept beside k h ∙ s.entry k h;
  found =
      slice-splice_after page at new w written s.offset (length bytes)
        (omega (arith, below, s.above))
      ∙ s.found;
  above = s.above;
  inside = s.inside;
}
  where
    kept :
        (at + length new ≤ 12 + slot * 4) ⊎ (16 + slot * 4 ≤ at)
        → (k : ℕ) → k < 4
        → get_elem? w (12 + slot * 4 + k) ≡ get_elem? page (12 + slot * 4 + k)
    kept (inl before) k h = get_elem?-splice_after page at new w written _ (omega arith)
    kept (inr after) k h = get_elem?-splice_before page at new w written _ (omega arith)

-- The page is packed and counts `count` records.
pub record IsPackedPage (page : List ℕ) (count : ℕ) : Type 0 where
  pub whole : length page ≡ page_size
  pub page_type : get_elem? page 0 ≡ some page_type_packed
  pub low_count : get_elem? page 2 ≡ some (count % 256)
  pub high_count : get_elem? page 3 ≡ some (count / 256 % 256)

word_eq : (n : ℕ) → n < 65536 → from_le (n % 256 ∷ n / 256 % 256 ∷ []) ≡ n
unfolding to_le
word_eq n h = from_le-to_le 2 n h

-- The four bytes of the directory entry, where `read_slot` reads them.
entry-IsSlot :
    (page : List ℕ) (slot : ℕ) (bytes : List ℕ) (low : ℕ) (s : IsSlot page slot bytes low)
    → (get_elem? page (12 + slot * 4) ≡ some (s.offset % 256))
      × (get_elem? page (12 + slot * 4 + 1) ≡ some (s.offset / 256 % 256))
      × (get_elem? page (12 + slot * 4 + 2) ≡ some (length bytes % 256))
      × (get_elem? page (12 + slot * 4 + 3) ≡ some (length bytes / 256 % 256))
unfolding to_le
entry-IsSlot page slot bytes low s =
    let e : 12 + slot * 4 ≡ 12 + slot * 4 + 0 = omega arith in
    (
      ap (get_elem? page) e ∙ s.entry 0 (omega arith),
      s.entry 1 (omega arith),
      s.entry 2 (omega arith),
      s.entry 3 (omega arith),
    )

pub read_slot-IsSlot :
    (postcard : Serialiser) (page : List ℕ) (slot count : ℕ) (bytes : List ℕ) (low : ℕ)
    → IsPackedPage page count
    → slot < count
    → count < 65536
    → IsSlot page slot bytes low
    → read_slot postcard page slot ≡ postcard.from_bytes bytes
unfolding read_slot
read_slot-IsSlot postcard page slot count bytes low p h small s =
    let inside : s.offset + length bytes ≤ 4096 = s.inside in
    let whole : ltb (length page) page_size ≡ false = ltb-false _ _ (omega (arith, p.whole)) in
    let listed : leb count slot ≡ false = ground (arith, h) in
    let slot_bytes : min (slot * 4) (2 ^ 64 - 1) ≡ slot * 4 = omega arith in
    let (b₀, b₁, b₂, b₃) = entry-IsSlot page slot bytes low s in
    let fits : ltb page_size (s.offset + length bytes) ≡ false = ltb-false _ _ s.inside in
    rw
      (
        whole,
        p.page_type,
        p.low_count,
        p.high_count,
        word_eq count small,
        listed,
        slot_bytes,
        saturating_add_eq 12 (slot * 4) (omega arith),
        b₀,
        saturating_add_eq (12 + slot * 4) 1 (omega arith),
        b₁,
        saturating_add_eq (12 + slot * 4) 2 (omega arith),
        b₂,
        saturating_add_eq (12 + slot * 4) 3 (omega arith),
        b₃,
        word_eq s.offset (omega arith),
        word_eq (length bytes) (omega arith),
        saturating_add_eq s.offset (length bytes) (omega arith),
        fits,
        s.found,
      )
      refl
