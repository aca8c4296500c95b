-- ===== src/Storage/Header.antt =====
-- src/storage/mod.rs: the file header of a `.graph` file, formats 1 to 7.
pub mod Layout
pub mod RoundTrip
pub mod Errors
pub mod Valid
mod Tests
use minigraf.Prelude.Text.{bytes_eq}
use minigraf.Error.{
  Result, ok, ◌>>=◌, ◌>>◌, bail_if, ok_or, stg001, stg002, stg003, stg004, stg005, stg006, stg007,
  stg008, stg009, int036, int038, int039,
}
use minigraf.Prelude.{
  ℕ, not, ◌&&◌, ◌||◌, List, [], ◌∷◌, ◌++◌, ltb, leb, ◌==◌, if◌then◌else◌, length, get_elem?,
}
use minigraf.Bytes.{to_le, from_le, slice}

-- `read_u32_le`, `read_u64_le`: the slice has the right length, so `try_into` cannot fail (INT-037).
pub read_u32_le : List ℕ → ℕ → Result ℕ
read_u32_le bytes offset = do b ← ok_or (slice bytes offset 4) int036; ok (from_le b)

pub read_u64_le : List ℕ → ℕ → Result ℕ
read_u64_le bytes offset = do b ← ok_or (slice bytes offset 8) int036; ok (from_le b)

-- `PAGE_SIZE`
abbrev pub page_size : ℕ
page_size = 4096

-- `MAGIC_NUMBER`, "MGRF"
abbrev pub magic_number : List ℕ
magic_number = b'M' ∷ b'G' ∷ b'R' ∷ b'F' ∷ []

-- `FORMAT_VERSION`
abbrev pub format_version : ℕ
format_version = 7

-- `FACT_PAGE_FORMAT_PACKED`
abbrev pub fact_page_format_packed : ℕ
fact_page_format_packed = 0x02

-- `FileHeader`; `magic` and `padding` are the byte arrays.
pub record FileHeader : Type 0 where
  pub magic : List ℕ
  pub version : ℕ
  pub page_count : ℕ
  pub node_count : ℕ
  pub last_checkpointed_tx_count : ℕ
  pub eavt_root_page : ℕ
  pub aevt_root_page : ℕ
  pub avet_root_page : ℕ
  pub vaet_root_page : ℕ
  pub index_checksum : ℕ
  pub fact_page_format : ℕ
  pub padding : List ℕ
  pub fact_page_count : ℕ
  pub header_checksum : ℕ

-- `FileHeader::new`
abbrev pub new : FileHeader
new = record {
  magic = magic_number;
  version = format_version;
  page_count = 1;
  node_count = 0;
  last_checkpointed_tx_count = 0;
  eavt_root_page = 0;
  aevt_root_page = 0;
  avet_root_page = 0;
  vaet_root_page = 0;
  index_checksum = 0;
  fact_page_format = fact_page_format_packed;
  padding = 0 ∷ 0 ∷ 0 ∷ [];
  fact_page_count = 0;
  header_checksum = 0;
}

abbrev pub concat : List (List ℕ) → List ℕ
concat [] = []
concat (f ∷ fs) = f ++ concat fs

-- The fields in the order in which `to_bytes` appends them.
abbrev pub fields : FileHeader → List (List ℕ)
fields h =
    h.magic
    ∷ to_le 4 h.version
    ∷ to_le 8 h.page_count
    ∷ to_le 8 h.node_count
    ∷ to_le 8 h.last_checkpointed_tx_count
    ∷ to_le 8 h.eavt_root_page
    ∷ to_le 8 h.aevt_root_page
    ∷ to_le 8 h.avet_root_page
    ∷ to_le 8 h.vaet_root_page
    ∷ to_le 4 h.index_checksum
    ∷ (h.fact_page_format ∷ [])
    ∷ h.padding
    ∷ to_le 8 h.fact_page_count
    ∷ to_le 4 h.header_checksum
    ∷ []

-- `FileHeader::to_bytes`
pub to_bytes : FileHeader → List ℕ
to_bytes h = concat (fields h)

-- The reads of `from_bytes` that depend on the version: one field and the length that it needs.
read_fact_page_count : List ℕ → ℕ → Result ℕ
read_fact_page_count bytes version =
    if leb 6 version
    then (do bail_if (ltb (length bytes) 80) stg004; read_u64_le bytes 72)
    else ok 0

read_header_checksum : List ℕ → ℕ → Result ℕ
read_header_checksum bytes version =
    if leb 7 version
    then (do bail_if (ltb (length bytes) 84) stg005; read_u32_le bytes 80)
    else ok 0

-- The second part of `from_bytes`, for a version above 3.
read_indexed : List ℕ → FileHeader → Result FileHeader
read_indexed bytes h = do
  bail_if (ltb (length bytes) 72) stg003
  fact_page_count ← read_fact_page_count bytes h.version
  header_checksum ← read_header_checksum bytes h.version
  eavt_root_page ← read_u64_le bytes 32
  aevt_root_page ← read_u64_le bytes 40
  avet_root_page ← read_u64_le bytes 48
  vaet_root_page ← read_u64_le bytes 56
  index_checksum ← read_u32_le bytes 64
  fact_page_format ← ok_or (get_elem? bytes 68) int038
  padding₀ ← ok_or (get_elem? bytes 69) int038
  padding₁ ← ok_or (get_elem? bytes 70) int038
  padding₂ ← ok_or (get_elem? bytes 71) int038
  ok (record h {
    eavt_root_page = eavt_root_page;
    aevt_root_page = aevt_root_page;
    avet_root_page = avet_root_page;
    vaet_root_page = vaet_root_page;
    index_checksum = index_checksum;
    fact_page_format = fact_page_format;
    padding = padding₀ ∷ padding₁ ∷ padding₂ ∷ [];
    fact_page_count = fact_page_count;
    header_checksum = header_checksum;
  })

-- `FileHeader::from_bytes`
pub from_bytes : List ℕ → Result FileHeader
from_bytes bytes = do
  bail_if (ltb (length bytes) 64) stg001
  magic ← ok_or (slice bytes 0 4) int038
  bail_if (not (bytes_eq magic magic_number)) stg002
  version ← read_u32_le bytes 4
  page_count ← read_u64_le bytes 8
  node_count ← read_u64_le bytes 16
  last_checkpointed_tx_count ← read_u64_le bytes 24
  let h : FileHeader = record {
    magic = magic;
    version = version;
    page_count = page_count;
    node_count = node_count;
    last_checkpointed_tx_count = last_checkpointed_tx_count;
    eavt_root_page = 0;
    aevt_root_page = 0;
    avet_root_page = 0;
    vaet_root_page = 0;
    index_checksum = 0;
    fact_page_format = 0;
    padding = 0 ∷ 0 ∷ 0 ∷ [];
    fact_page_count = 0;
    header_checksum = 0;
  }
  if leb version 3 then ok h else read_indexed bytes h

-- `FileHeader::validate`
pub validate : FileHeader → Result (Unit {0})
validate h = do
  bail_if (not (bytes_eq h.magic magic_number)) int039
  bail_if (ltb h.version 1 || ltb format_version h.version) stg006
  bail_if (h.page_count == 0) stg007
  bail_if (not (h.eavt_root_page == 0) && leb h.page_count h.eavt_root_page) stg008
  bail_if (ltb h.page_count h.fact_page_count) stg009
  ok tt
