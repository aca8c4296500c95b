-- ===== src/Storage/Header/Valid.antt =====
-- Which headers `FileHeader::validate` of src/storage/mod.rs accepts.
use minigraf.Prelude.Text.{bytes_eq→eq}
use minigraf.Error.{ok}
use minigraf.Prelude.{◌≤◌, ◌<◌, ◌≡◌, ◌↔◌, ◌⊎◌, inl, inr, arith, ◌==◌, Bool-cases}
use minigraf.Storage.Header.{FileHeader, magic_number, format_version, validate}

-- What a valid header satisfies.
pub record IsValid (h : FileHeader) : Type 0 where
  pub magic : h.magic ≡ magic_number
  pub version : (1 ≤ h.version) × (h.version ≤ format_version)
  pub page_count : 0 < h.page_count
  pub eavt_root_page : (h.eavt_root_page ≡ 0) ⊎ (h.eavt_root_page < h.page_count)
  pub fact_page_count : h.fact_page_count ≤ h.page_count

IsValid-of_validate : (h : FileHeader) → validate h ≡ ok tt → IsValid h
unfolding validate
IsValid-of_validate h e = record {
  magic = bytes_eq→eq h.magic magic_number (ground arith);
  version = (ground arith, ground arith);
  page_count = ground arith;
  eavt_root_page = elim (Bool-cases (h.eavt_root_page == 0)) [
    | inl z ↦ inl (ground arith)
    | inr nz ↦ inr (ground arith)
  ];
  fact_page_count = ground arith;
}

validate-of_IsValid : (h : FileHeader) → IsValid h → validate h ≡ ok tt
unfolding validate
validate-of_IsValid h v = rw v.magic (ground arith)

-- `validate` accepts exactly the headers with the magic number, a version from 1 to 7, at least one
-- page, an EAVT root inside the file (0 stands for none) and no more fact pages than pages.
pub validate_iff : (h : FileHeader) → (validate h ≡ ok tt) ↔ IsValid h
validate_iff h = (IsValid-of_validate h, validate-of_IsValid h)
