-- ===== src/Storage/Header/RoundTrip.antt =====
-- Reading back a header that was written (src/storage/mod.rs).
use minigraf.Prelude.Text.{bytes_eq}
use minigraf.Error.{ok}
use minigraf.Prelude.{
  ℕ, ◌+◌, ◌^◌, ◌≤◌, ◌<◌, ◌≡◌, refl, ap, ◌∙◌, inl, inr, true, false, some, List, [], ◌∷◌, ◌++◌,
  arith, ltb, leb, if◌then◌else◌, ltb-false, Bool-cases, length, get_elem?,
}
use minigraf.Bytes.{to_le, slice}
use minigraf.Bytes.RoundTrip.{length-to_le}
use minigraf.Storage.Header.{
  FileHeader, magic_number, fields, to_bytes, from_bytes, read_indexed, read_fact_page_count,
  read_header_checksum, read_u32_le, read_u64_le,
}
use minigraf.Storage.Header.Layout.{
  prepend, concat-append, length-prepend, slice_field, read_u64_le_field, read_u32_le_field,
  get_elem?_field, get_elem?_padding,
}

-- The values of the Rust struct, with the magic number of the format.
pub record IsHeader (h : FileHeader) : Type 0 where
  pub magic : h.magic ≡ magic_number
  pub version : h.version < 256 ^ 4
  pub page_count : h.page_count < 256 ^ 8
  pub node_count : h.node_count < 256 ^ 8
  pub last_checkpointed_tx_count : h.last_checkpointed_tx_count < 256 ^ 8
  pub eavt_root_page : h.eavt_root_page < 256 ^ 8
  pub aevt_root_page : h.aevt_root_page < 256 ^ 8
  pub avet_root_page : h.avet_root_page < 256 ^ 8
  pub vaet_root_page : h.vaet_root_page < 256 ^ 8
  pub index_checksum : h.index_checksum < 256 ^ 4
  pub padding : (p : ℕ) × (q : ℕ) × (r : ℕ) × (h.padding ≡ p ∷ q ∷ r ∷ [])
  pub fact_page_count : h.fact_page_count < 256 ^ 8
  pub header_checksum : h.header_checksum < 256 ^ 4

-- The header with every field that version 3 lacks set to 0.
abbrev pub blank : FileHeader → FileHeader
blank h = record h {
  eavt_root_page = 0;
  aevt_root_page = 0;
  avet_root_page = 0;
  vaet_root_page = 0;
  index_checksum = 0;
  fact_page_format = 0;
  padding = 0 ∷ 0 ∷ 0 ∷ [];
  fact_page_count = 0;
  header_checksum = 0;
}

-- What a reader of the header's version sees of it: the fields that the version lacks are 0.
abbrev pub as_version : FileHeader → FileHeader
as_version h = if leb h.version 3 then blank h else record h {
  fact_page_count = if leb 6 h.version then h.fact_page_count else 0;
  header_checksum = if leb 7 h.version then h.header_checksum else 0;
}

module _ (h : FileHeader) (is_header : IsHeader h) (rest : List ℕ) where
  magic_len : length h.magic ≡ 4
  magic_len = rw is_header.magic

  padding_len : length h.padding ≡ 3
  padding_len = let (p, q, r, e) = is_header.padding in rw e

  bytes_of : List ℕ
  bytes_of = prepend (fields h) rest

  length-bytes_of : length bytes_of ≡ 84 + length rest
  unfolding bytes_of
  length-bytes_of =
      omega (arith, length-prepend (fields h) rest, length-to_le, magic_len, padding_len)

  at_magic : slice bytes_of 0 4 ≡ some h.magic
  unfolding bytes_of
  at_magic = slice_field [] _ 0 h.magic 4 refl magic_len

  at_version : read_u32_le bytes_of 4 ≡ ok h.version
  unfolding bytes_of
  at_version =
      read_u32_le_field (h.magic ∷ []) _ 4 h.version (omega (arith, length-to_le, magic_len))
        is_header.version

  at_page_count : read_u64_le bytes_of 8 ≡ ok h.page_count
  unfolding bytes_of
  at_page_count =
      read_u64_le_field (h.magic ∷ to_le 4 h.version ∷ []) _ 8 h.page_count
        (omega (arith, length-to_le, magic_len)) is_header.page_count

  at_node_count : read_u64_le bytes_of 16 ≡ ok h.node_count
  unfolding bytes_of
  at_node_count =
      read_u64_le_field (h.magic ∷ to_le 4 h.version ∷ to_le 8 h.page_count ∷ []) _ 16 h.node_count
        (omega (arith, length-to_le, magic_len)) is_header.node_count

  at_last_checkpointed_tx_count : read_u64_le bytes_of 24 ≡ ok h.last_checkpointed_tx_count
  unfolding bytes_of
  at_last_checkpointed_tx_count =
      read_u64_le_field
        (h.magic ∷ to_le 4 h.version ∷ to_le 8 h.page_count ∷ to_le 8 h.node_count ∷ []) _ 24
        h.last_checkpointed_tx_count (omega (arith, length-to_le, magic_len))
        is_header.last_checkpointed_tx_count

  at_eavt_root_page : read_u64_le bytes_of 32 ≡ ok h.eavt_root_page
  unfolding bytes_of
  at_eavt_root_page =
      read_u64_le_field
        (h.magic
          ∷ to_le 4 h.version
          ∷ to_le 8 h.page_count
          ∷ to_le 8 h.node_count
          ∷ to_le 8 h.last_checkpointed_tx_count
          ∷ [])
        _ 32 h.eavt_root_page (omega (arith, length-to_le, magic_len)) is_header.eavt_root_page

  at_aevt_root_page : read_u64_le bytes_of 40 ≡ ok h.aevt_root_page
  unfolding bytes_of
  at_aevt_root_page =
      read_u64_le_field
        (h.magic
          ∷ to_le 4 h.version
          ∷ to_le 8 h.page_count
          ∷ to_le 8 h.node_count
          ∷ to_le 8 h.last_checkpointed_tx_count
          ∷ to_le 8 h.eavt_root_page
          ∷ [])
        _ 40 h.aevt_root_page (omega (arith, length-to_le, magic_len)) is_header.aevt_root_page

  at_avet_root_page : read_u64_le bytes_of 48 ≡ ok h.avet_root_page
  unfolding bytes_of
  at_avet_root_page =
      read_u64_le_field
        (h.magic
          ∷ to_le 4 h.version
          ∷ to_le 8 h.page_count
          ∷ to_le 8 h.node_count
          ∷ to_le 8 h.last_checkpointed_tx_count
          ∷ to_le 8 h.eavt_root_page
          ∷ to_le 8 h.aevt_root_page
          ∷ [])
        _ 48 h.avet_root_page (omega (arith, length-to_le, magic_len)) is_header.avet_root_page

  at_vaet_root_page : read_u64_le bytes_of 56 ≡ ok h.vaet_root_page
  unfolding bytes_of
  at_vaet_root_page =
      read_u64_le_field
        (h.magic
          ∷ to_le 4 h.version
          ∷ to_le 8 h.page_count
          ∷ to_le 8 h.node_count
          ∷ to_le 8 h.last_checkpointed_tx_count
          ∷ to_le 8 h.eavt_root_page
          ∷ to_le 8 h.aevt_root_page
          ∷ to_le 8 h.avet_root_page
          ∷ [])
        _ 56 h.vaet_root_page (omega (arith, length-to_le, magic_len)) is_header.vaet_root_page

  at_index_checksum : read_u32_le bytes_of 64 ≡ ok h.index_checksum
  unfolding bytes_of
  at_index_checksum =
      read_u32_le_field
        (h.magic
          ∷ to_le 4 h.version
          ∷ to_le 8 h.page_count
          ∷ to_le 8 h.node_count
          ∷ to_le 8 h.last_checkpointed_tx_count
          ∷ to_le 8 h.eavt_root_page
          ∷ to_le 8 h.aevt_root_page
          ∷ to_le 8 h.avet_root_page
          ∷ to_le 8 h.vaet_root_page
          ∷ [])
        _ 64 h.index_checksum (omega (arith, length-to_le, magic_len)) is_header.index_checksum

  at_fact_page_format : get_elem? bytes_of 68 ≡ some h.fact_page_format
  unfolding bytes_of
  at_fact_page_format =
      get_elem?_field
        (h.magic
          ∷ to_le 4 h.version
          ∷ to_le 8 h.page_count
          ∷ to_le 8 h.node_count
          ∷ to_le 8 h.last_checkpointed_tx_count
          ∷ to_le 8 h.eavt_root_page
          ∷ to_le 8 h.aevt_root_page
          ∷ to_le 8 h.avet_root_page
          ∷ to_le 8 h.vaet_root_page
          ∷ to_le 4 h.index_checksum
          ∷ [])
        h.fact_page_format _ 68 (omega (arith, length-to_le, magic_len))

  at_fact_page_count : read_u64_le bytes_of 72 ≡ ok h.fact_page_count
  unfolding bytes_of
  at_fact_page_count =
      read_u64_le_field
        (h.magic
          ∷ to_le 4 h.version
          ∷ to_le 8 h.page_count
          ∷ to_le 8 h.node_count
          ∷ to_le 8 h.last_checkpointed_tx_count
          ∷ to_le 8 h.eavt_root_page
          ∷ to_le 8 h.aevt_root_page
          ∷ to_le 8 h.avet_root_page
          ∷ to_le 8 h.vaet_root_page
          ∷ to_le 4 h.index_checksum
          ∷ (h.fact_page_format ∷ [])
          ∷ h.padding
          ∷ [])
        _ 72 h.fact_page_count (omega (arith, length-to_le, magic_len, padding_len))
        is_header.fact_page_count

  at_header_checksum : read_u32_le bytes_of 80 ≡ ok h.header_checksum
  unfolding bytes_of
  at_header_checksum =
      read_u32_le_field
        (h.magic
          ∷ to_le 4 h.version
          ∷ to_le 8 h.page_count
          ∷ to_le 8 h.node_count
          ∷ to_le 8 h.last_checkpointed_tx_count
          ∷ to_le 8 h.eavt_root_page
          ∷ to_le 8 h.aevt_root_page
          ∷ to_le 8 h.avet_root_page
          ∷ to_le 8 h.vaet_root_page
          ∷ to_le 4 h.index_checksum
          ∷ (h.fact_page_format ∷ [])
          ∷ h.padding
          ∷ to_le 8 h.fact_page_count
          ∷ [])
        _ 80 h.header_checksum (omega (arith, length-to_le, magic_len, padding_len))
        is_header.header_checksum

  padding_at : (n i : ℕ) → n < 3 → i ≡ 69 + n → get_elem? bytes_of i ≡ get_elem? h.padding n
  unfolding bytes_of
  padding_at n i hn hi =
      get_elem?_padding
        (h.magic
          ∷ to_le 4 h.version
          ∷ to_le 8 h.page_count
          ∷ to_le 8 h.node_count
          ∷ to_le 8 h.last_checkpointed_tx_count
          ∷ to_le 8 h.eavt_root_page
          ∷ to_le 8 h.aevt_root_page
          ∷ to_le 8 h.avet_root_page
          ∷ to_le 8 h.vaet_root_page
          ∷ to_le 4 h.index_checksum
          ∷ (h.fact_page_format ∷ [])
          ∷ [])
        h.padding _ n i (omega (arith, length-to_le, magic_len)) (omega (arith, padding_len))

  long_enough : (n : ℕ) → n ≤ 84 → ltb (length bytes_of) n ≡ false
  long_enough n hn = ltb-false _ n (omega (arith, length-bytes_of))

  read_fact_page_count_lem :
      read_fact_page_count bytes_of h.version
      ≡ ok (if leb 6 h.version then h.fact_page_count else 0)
  unfolding read_fact_page_count
  read_fact_page_count_lem = ground (arith, at_fact_page_count, long_enough 80 (omega arith))

  read_header_checksum_lem :
      read_header_checksum bytes_of h.version
      ≡ ok (if leb 7 h.version then h.header_checksum else 0)
  unfolding read_header_checksum
  read_header_checksum_lem = ground (arith, at_header_checksum, long_enough 84 (omega arith))

  read_indexed_lem :
      (p q r : ℕ)
      → h.padding ≡ p ∷ q ∷ r ∷ []
      → read_indexed bytes_of (blank h)
        ≡ ok (record h {
          fact_page_count = if leb 6 h.version then h.fact_page_count else 0;
          header_checksum = if leb 7 h.version then h.header_checksum else 0;
        })
  unfolding read_indexed
  read_indexed_lem p q r e = rw (
    long_enough 72 (omega arith),
    read_fact_page_count_lem,
    read_header_checksum_lem,
    at_eavt_root_page,
    at_aevt_root_page,
    at_avet_root_page,
    at_vaet_root_page,
    at_index_checksum,
    at_fact_page_format,
    padding_at 0 69 (omega arith) refl,
    padding_at 1 70 (omega arith) refl,
    padding_at 2 71 (omega arith) refl,
    e,
  )

  is_magic : bytes_eq h.magic magic_number ≡ true
  is_magic = rw is_header.magic

  choose_version :
      (if leb h.version 3 then ok (blank h) else read_indexed bytes_of (blank h))
      ≡ ok (as_version h)
  choose_version =
      let (p, q, r, e) = is_header.padding in
      elim (Bool-cases (leb h.version 3)) [
        | inl old ↦ rw old
        | inr recent ↦ rw (recent, read_indexed_lem p q r e)
      ]

  from_bytes-bytes_of : from_bytes bytes_of ≡ ok (as_version h)
  unfolding from_bytes
  from_bytes-bytes_of =
      rw
        (
          long_enough 64 (omega arith),
          at_magic,
          is_magic,
          at_version,
          at_page_count,
          at_node_count,
          at_last_checkpointed_tx_count,
        )
        choose_version

-- Reading the bytes of a header, whatever follows them in the page, gives the fields that the
-- version of the header has, and 0 for the others.
pub from_bytes-to_bytes :
    (h : FileHeader) (rest : List ℕ)
    → IsHeader h
    → from_bytes (to_bytes h ++ rest) ≡ ok (as_version h)
unfolding to_bytes
from_bytes-to_bytes h rest is_header =
    ap from_bytes (concat-append (fields h) rest)
    ∙ unfold bytes_of in from_bytes-bytes_of h is_header rest
