-- ===== src/Storage/Packed/Recorded.antt =====
-- What a written record changes on its page (src/storage/packed_pages.rs).
use minigraf.Prelude.{
  ℕ, ◌+◌, ◌-◌, ◌*◌, ◌≤◌, ◌<◌, ◌≡◌, sym, ap, ◌∙◌, inl, inr, List, arith, ltb, Bool-cases, length,
  get_elem?,
}
use minigraf.Bytes.{to_le}
use minigraf.Bytes.RoundTrip.{length-to_le}
use minigraf.Storage.Packed.{Packing, recorded}
use minigraf.Storage.Packed.Splice.{
  get_elem?-append_before, get_elem?-append_after, get_elem?-splice_before, get_elem?-splice_at,
  slice-splice, slice-splice_after,
}
use minigraf.Storage.Packed.Room.{IsRecorded, recorded-IsPacking, saturating_add_eq}
use minigraf.Storage.Packed.Slots.{IsSlot, entry_of, splice-IsSlot}
use minigraf.Storage.Packed.Placed.{IsCounted}

module _ (start_page_id : ℕ) (serialised : List ℕ) (p : Packing) (i : IsCounted p)
    (room : p.dir_offset + 4 + length serialised ≤ p.data_offset)
    (few : p.current_record_count < 65535) (w : IsRecorded start_page_id serialised p) where
  abbrev low : ℕ
  low = p.data_offset - length serialised

  abbrev after : Packing
  after = recorded start_page_id low w.with_entry p

  small : p.data_offset ≤ 4096
  small = i.packing.inside

  pub recorded-IsCounted : IsCounted after
  recorded-IsCounted =
      let directory : p.dir_offset ≡ 12 + p.current_record_count * 4 = i.directory in
      record {
        packing = recorded-IsPacking start_page_id serialised p i.packing room w;
        page_type =
            get_elem?-splice_before _ _ _ _ w.len 0 (omega arith)
            ∙ get_elem?-splice_before _ _ _ _ w.offset 0 (omega arith)
            ∙ get_elem?-splice_before _ _ _ _ w.record_bytes 0 (omega arith)
            ∙ i.page_type;
        directory = omega (arith, saturating_add_eq p.dir_offset 4 (omega (arith, small)));
        counted = omega arith;
      }

  -- The records before stay.
  pub recorded-IsSlot :
      (slot : ℕ) (bytes : List ℕ)
      → slot < p.current_record_count
      → IsSlot p.current_page slot bytes p.data_offset
      → IsSlot w.with_entry slot bytes low
  recorded-IsSlot slot bytes h s =
      let directory : p.dir_offset ≡ 12 + p.current_record_count * 4 = i.directory in
      let first : IsSlot w.with_data slot bytes p.data_offset =
        splice-IsSlot _ slot bytes _ _ _ _ w.record_bytes (inr (omega arith)) (omega arith) s in
      let lower : IsSlot w.with_data slot bytes low = record {
        offset = first.offset;
        entry = first.entry;
        found = first.found;
        above = omega (arith, first.above);
        inside = first.inside;
      } in
      let second : IsSlot w.with_offset slot bytes low =
        splice-IsSlot _ slot bytes _ _ _ _ w.offset (inr (omega arith))
          (omega (arith, length-to_le 2 low)) lower in
      splice-IsSlot _ slot bytes _ _ _ _ w.len (inr (omega arith))
        (omega (arith, length-to_le 2 (length serialised))) second

  recorded_entry :
      (k : ℕ)
      → k < 4
      → get_elem? w.with_entry (12 + p.current_record_count * 4 + k)
        ≡ get_elem? (entry_of low (length serialised)) k
  unfolding to_le
  recorded_entry k h =
      let directory : p.dir_offset ≡ 12 + p.current_record_count * 4 = i.directory in
      elim (Bool-cases (ltb k 2)) [
        | inl offset_byte ↦
            let early : k < 2 = ground (arith, offset_byte) in
            let e : 12 + p.current_record_count * 4 + k ≡ p.dir_offset + k = omega arith in
            ap (get_elem? w.with_entry) e
            ∙ get_elem?-splice_before _ _ _ _ w.len (p.dir_offset + k) (omega arith)
            ∙ get_elem?-splice_at _ _ _ _ w.offset k early
            ∙ sym (get_elem?-append_before (to_le 2 low) (to_le 2 (length serialised)) k early)
        | inr len_byte ↦
            let late : 2 ≤ k = ground (arith, len_byte) in
            let e : 12 + p.current_record_count * 4 + k ≡ p.dir_offset + 2 + (k - 2) =
              omega arith in
            ap (get_elem? w.with_entry) e
            ∙ get_elem?-splice_at _ _ _ _ w.len (k - 2) (omega arith)
            ∙ sym (get_elem?-append_after (to_le 2 low) (to_le 2 (length serialised)) k late)
      ]

  -- The new record stands in the next slot.
  pub recorded-IsSlot_new : IsSlot w.with_entry p.current_record_count serialised low
  recorded-IsSlot_new =
      let directory : p.dir_offset ≡ 12 + p.current_record_count * 4 = i.directory in
      record {
        offset = low;
        entry = recorded_entry;
        found =
            slice-splice_after _ _ _ _ w.len low (length serialised)
              (omega (arith, length-to_le 2 (length serialised)))
            ∙ slice-splice_after _ _ _ _ w.offset low (length serialised)
                (omega (arith, length-to_le 2 low))
            ∙ slice-splice _ _ _ _ w.record_bytes;
        above = omega arith;
        inside = omega (arith, small);
      }
