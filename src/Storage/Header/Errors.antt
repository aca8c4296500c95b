-- ===== src/Storage/Header/Errors.antt =====
-- What `from_bytes` refuses (src/storage/mod.rs).
use minigraf.Prelude.Text.{bytes_eq, bytes_eq→eq}
use minigraf.Error.{coded, Result, ok, err, ErrorCode, stg001, stg002, stg003, stg004, stg005}
use minigraf.Prelude.{
  ℕ, zero, suc, ◌+◌, ◌≤◌, ◌<◌, ◌≡◌, refl, sym, ap, ◌∙◌, ◌⊎◌, inl, inr, true, false, not, some, List,
  [], ◌∷◌, arith, ltb, leb, if◌then◌else◌, ltb-false, Bool-cases, length, get_elem?, take, drop,
}
use minigraf.Bytes.{from_le, slice}
use minigraf.Storage.Header.{
  FileHeader, magic_number, from_bytes, read_indexed, read_fact_page_count, read_header_checksum,
  read_u32_le, read_u64_le,
}

slice_fits :
    (bytes : List ℕ) (o n : ℕ)
    → o + n ≤ length bytes
    → slice bytes o n ≡ some (take n (drop o bytes))
slice_fits bytes o n h = unfold slice in ground arith

read_u64_le_fits :
    (bytes : List ℕ) (o : ℕ)
    → o + 8 ≤ length bytes
    → read_u64_le bytes o ≡ ok (from_le (take 8 (drop o bytes)))
unfolding read_u64_le
read_u64_le_fits bytes o h = rw (slice_fits bytes o 8 h)

read_u32_le_fits :
    (bytes : List ℕ) (o : ℕ)
    → o + 4 ≤ length bytes
    → read_u32_le bytes o ≡ ok (from_le (take 4 (drop o bytes)))
unfolding read_u32_le
read_u32_le_fits bytes o h = rw (slice_fits bytes o 4 h)

get_elem?_fits :
    (bytes : List ℕ) (i : ℕ) → i < length bytes → (b : ℕ) × (get_elem? bytes i ≡ some b)
get_elem?_fits [] i h = absurd (omega arith)
get_elem?_fits (b ∷ bs) zero h = (b, refl)
get_elem?_fits (b ∷ bs) (suc i) h = get_elem?_fits bs i (omega arith)

-- The length that a header of the version needs.
abbrev pub needed : ℕ → ℕ
needed version =
    if leb version 3 then 64 else if leb version 5 then 72 else if leb version 6 then 80 else 84

-- The code for bytes that are too few for their version.
abbrev pub too_short : ℕ → ErrorCode
too_short n =
    if ltb n 64 then stg001 else if ltb n 72 then stg003 else if ltb n 80 then stg004 else stg005

-- The version field of the bytes.
abbrev pub version_of : List ℕ → ℕ
version_of bytes = from_le (take 4 (drop 4 bytes))

-- What `from_bytes` answers, by the length, the magic number and the version of the bytes.
abbrev pub Answers : List ℕ → Result FileHeader → Type 0
Answers bytes r =
    if ltb (length bytes) 64
    then r ≡ err (coded stg001)
    else if not (bytes_eq (take 4 bytes) magic_number)
    then r ≡ err (coded stg002)
    else if ltb (length bytes) (needed (version_of bytes))
    then r ≡ err (coded (too_short (length bytes)))
    else (h : FileHeader) × (r ≡ ok h) × (h.version ≡ version_of bytes) × (h.magic ≡ magic_number)

module _ (bytes : List ℕ) where
  fact_page_count_ok :
      (v : ℕ) → needed v ≤ length bytes → (n : ℕ) × (read_fact_page_count bytes v ≡ ok n)
  unfolding read_fact_page_count
  fact_page_count_ok v h = elim (Bool-cases (leb 6 v)) [
    | inl recent ↦ (
      from_le (take 8 (drop 72 bytes)),
      rw (recent, ltb-false (length bytes) 80 (ground arith))
          (read_u64_le_fits bytes 72 (ground arith)),
    )
    | inr old ↦ (0, rw old)
  ]

  header_checksum_ok :
      (v : ℕ) → needed v ≤ length bytes → (n : ℕ) × (read_header_checksum bytes v ≡ ok n)
  unfolding read_header_checksum
  header_checksum_ok v h = elim (Bool-cases (leb 7 v)) [
    | inl recent ↦ (
      from_le (take 4 (drop 80 bytes)),
      rw (recent, ltb-false (length bytes) 84 (ground arith))
          (read_u32_le_fits bytes 80 (ground arith)),
    )
    | inr old ↦ (0, rw old)
  ]

  indexed_ok :
      (base : FileHeader)
      → 72 ≤ length bytes
      → needed base.version ≤ length bytes
      → (h : FileHeader) × (read_indexed bytes base ≡ ok h)
        × (h.version ≡ base.version)
        × (h.magic ≡ base.magic)
  unfolding read_indexed
  indexed_ok base long h =
      let (f, ef) = fact_page_count_ok base.version h in
      let (c, ec) = header_checksum_ok base.version h in
      let (b68, e68) = get_elem?_fits bytes 68 (omega arith) in
      let (b69, e69) = get_elem?_fits bytes 69 (omega arith) in
      let (b70, e70) = get_elem?_fits bytes 70 (omega arith) in
      let (b71, e71) = get_elem?_fits bytes 71 (omega arith) in
      (
        record base {
          eavt_root_page = from_le (take 8 (drop 32 bytes));
          aevt_root_page = from_le (take 8 (drop 40 bytes));
          avet_root_page = from_le (take 8 (drop 48 bytes));
          vaet_root_page = from_le (take 8 (drop 56 bytes));
          index_checksum = from_le (take 4 (drop 64 bytes));
          fact_page_format = b68;
          padding = b69 ∷ b70 ∷ b71 ∷ [];
          fact_page_count = f;
          header_checksum = c;
        },
        rw (
          ltb-false (length bytes) 72 long,
          ef,
          ec,
          read_u64_le_fits bytes 32 (omega arith),
          read_u64_le_fits bytes 40 (omega arith),
          read_u64_le_fits bytes 48 (omega arith),
          read_u64_le_fits bytes 56 (omega arith),
          read_u32_le_fits bytes 64 (omega arith),
          e68,
          e69,
          e70,
          e71,
        ),
        refl,
        refl,
      )

  count_short :
      (v : ℕ)
      → 6 ≤ v
      → ltb (length bytes) 80 ≡ true
      → read_fact_page_count bytes v ≡ err (coded stg004)
  unfolding read_fact_page_count
  count_short v h short = rw short (ground arith)

  checksum_short :
      (v : ℕ)
      → 7 ≤ v
      → ltb (length bytes) 84 ≡ true
      → read_header_checksum bytes v ≡ err (coded stg005)
  unfolding read_header_checksum
  checksum_short v h short = rw short (ground arith)

  short_code :
      (v : ℕ)
      → leb v 3 ≡ false
      → 72 ≤ length bytes
      → ltb (length bytes) (needed v) ≡ true
      → ((6 ≤ v) × (ltb (length bytes) 80 ≡ true) × (too_short (length bytes) ≡ stg004))
        ⊎ ((7 ≤ v)
            × (80 ≤ length bytes)
            × (ltb (length bytes) 84 ≡ true)
            × (too_short (length bytes) ≡ stg005))
  short_code v recent long h = elim (Bool-cases (ltb (length bytes) 80)) [
    | inl short ↦ inl (ground arith, short, ground arith)
    | inr enough ↦ inr (ground arith, ground arith, ground arith, ground arith)
  ]

  count_long : (v : ℕ) → 80 ≤ length bytes → (n : ℕ) × (read_fact_page_count bytes v ≡ ok n)
  unfolding read_fact_page_count
  count_long v h = (
    if leb 6 v then from_le (take 8 (drop 72 bytes)) else 0,
    rw (ltb-false (length bytes) 80 h, read_u64_le_fits bytes 72 (omega arith)) (ground arith),
  )

  indexed_short :
      (base : FileHeader)
      → 64 ≤ length bytes
      → leb base.version 3 ≡ false
      → ltb (length bytes) (needed base.version) ≡ true
      → read_indexed bytes base ≡ err (coded (too_short (length bytes)))
  unfolding read_indexed
  indexed_short base long recent h = elim (Bool-cases (ltb (length bytes) 72)) [
    | inl short ↦ rw (short, ltb-false (length bytes) 64 long)
    | inr enough ↦ elim (short_code base.version recent (ground arith) h) [
      | inl (v, short, code) ↦
          let step : read_indexed bytes base ≡ err (coded stg004) =
            rw (enough, count_short base.version v short) in
          step ∙ ap (λ c. err (coded c)) (sym code)
      | inr (v, longer, short, code) ↦
          let (n, e) = count_long base.version longer in
          let step : read_indexed bytes base ≡ err (coded stg005) =
            rw (enough, e, checksum_short base.version v short) in
          step ∙ ap (λ c. err (coded c)) (sym code)
    ]
  ]

  -- The fields that a header of every version has.
  common : FileHeader
  common = record {
    magic = take 4 bytes;
    version = version_of bytes;
    page_count = from_le (take 8 (drop 8 bytes));
    node_count = from_le (take 8 (drop 16 bytes));
    last_checkpointed_tx_count = from_le (take 8 (drop 24 bytes));
    eavt_root_page = 0;
    aevt_root_page = 0;
    avet_root_page = 0;
    vaet_root_page = 0;
    index_checksum = 0;
    fact_page_format = 0;
    padding = 0 ∷ 0 ∷ 0 ∷ [];
    fact_page_count = 0;
    header_checksum = 0;
  }

  common_version : common.version ≡ version_of bytes
  unfolding common
  common_version = refl

  common_magic : common.magic ≡ take 4 bytes
  unfolding common
  common_magic = refl

  read_common :
      ltb (length bytes) 64 ≡ false
      → not (bytes_eq (take 4 bytes) magic_number) ≡ false
      → from_bytes bytes ≡ (if leb common.version 3 then ok common else read_indexed bytes common)
  unfolding from_bytes common
  read_common long good =
      let n : 64 ≤ length bytes = ground arith in
      rw (
        long,
        slice_fits bytes 0 4 (omega arith),
        good,
        read_u32_le_fits bytes 4 (omega arith),
        read_u64_le_fits bytes 8 (omega arith),
        read_u64_le_fits bytes 16 (omega arith),
        read_u64_le_fits bytes 24 (omega arith),
      )

  -- What is left of `from_bytes` once the fields of every version have been read.
  finish :
      (base : FileHeader)
      → 64 ≤ length bytes
      → base.version ≡ version_of bytes
      → base.magic ≡ magic_number
      → (if ltb (length bytes) (needed (version_of bytes))
          then (if leb base.version 3 then ok base else read_indexed bytes base)
            ≡ err (coded (too_short (length bytes)))
          else (h : FileHeader) × ((if leb base.version 3 then ok base else read_indexed bytes base)
              ≡ ok h)
            × (h.version ≡ version_of bytes)
            × (h.magic ≡ magic_number))
  finish base long v m = elim (Bool-cases (leb base.version 3)) [
    | inl old ↦
        let e : ltb (length bytes) (needed (version_of bytes)) ≡ false =
          rw (← v, old) (ltb-false (length bytes) 64 long) in
        rw (e, old) (base, refl, v, m)
    | inr recent ↦ elim (Bool-cases (ltb (length bytes) (needed (version_of bytes)))) [
      | inl short ↦ rw (short, recent) (indexed_short base long recent (rw v short))
      | inr enough ↦
          let (h, e, hv, hm) = indexed_ok base (ground arith) (ground arith) in
          rw (enough, recent) (h, e, hv ∙ v, hm ∙ m)
    ]
  ]

  -- `from_bytes` answers on every input: STG-001 below 64 bytes, STG-002 for another magic number,
  -- STG-003, STG-004 or STG-005 for bytes that are too few for their version, and otherwise a
  -- header with the version of the bytes. The internal codes of the slice reads never show.
  pub from_bytes-Answers : Answers bytes (from_bytes bytes)
  unfolding from_bytes
  from_bytes-Answers = elim (Bool-cases (ltb (length bytes) 64)) [
    | inl short ↦ rw short refl
    | inr long ↦ elim (Bool-cases (not (bytes_eq (take 4 bytes) magic_number))) [
      | inl bad ↦
          let n : 64 ≤ length bytes = ground arith in
          rw (long, slice_fits bytes 0 4 (omega arith), bad) refl
      | inr good ↦
          let n : 64 ≤ length bytes = ground arith in
          let m : take 4 bytes ≡ magic_number =
            bytes_eq→eq (take 4 bytes) magic_number (ground arith) in
          rw (read_common long good, long, good)
            (rw long at (finish common n common_version (common_magic ∙ m)))
    ]
  ]
