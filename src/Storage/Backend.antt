-- ===== src/Storage/Backend.antt =====
-- `StorageBackend` of src/storage/mod.rs and the in-memory backend of src/storage/backend/memory.rs.
use minigraf.Error.{coded, Result, ok, err, ok_or, int051, int052}
use minigraf.Prelude.{
  ℕ, ◌≡◌, refl, sym, inl, inr, true, false, List, arith, ◌==◌, if◌then◌else◌, Bool-cases, length,
}
use minigraf.Prelude.Map.{Map, nat_key, lookup, insert, lookup-insert}
use minigraf.Storage.Header.{page_size}

-- `StorageBackend`: the operations that the cache uses, on a state of type `S`.
pub record StorageBackend (S : Type 0) : Type 0 where
  pub write_page : ℕ → List ℕ → S → Result S
  pub read_page : ℕ → S → Result (List ℕ)

-- `MemoryBackend`
abbrev pub MemoryBackend : Type 0
MemoryBackend = Map ℕ (List ℕ)

unfoldable pub memory_write_page : ℕ → List ℕ → MemoryBackend → Result MemoryBackend
memory_write_page page_id bytes pages =
    if length bytes == page_size then ok (insert page_id bytes pages) else err (coded int051)

unfoldable pub memory_read_page : ℕ → MemoryBackend → Result (List ℕ)
memory_read_page page_id pages = ok_or (lookup page_id pages) int052

-- `MemoryBackend::page_count`
unfoldable pub memory_page_count : MemoryBackend → ℕ
memory_page_count pages = length pages

abbrev pub memory_backend : StorageBackend MemoryBackend
memory_backend = record { write_page = memory_write_page; read_page = memory_read_page }

-- What a backend promises: a page that was written is read back, and no other page changes.
pub record IsBackend {S : Type 0} (backend : StorageBackend S) : Type 0 where
  pub read-write_page :
      (page_id other : ℕ) (bytes : List ℕ) (s t : S)
      → backend.write_page page_id bytes s ≡ ok t
      → backend.read_page other t
        ≡ (if page_id == other then ok bytes else backend.read_page other s)

read-memory_write :
    (page_id other : ℕ) (bytes : List ℕ) (s t : MemoryBackend)
    → memory_write_page page_id bytes s ≡ ok t
    → memory_read_page other t ≡ (if page_id == other then ok bytes else memory_read_page other s)
unfolding memory_write_page memory_read_page
read-memory_write page_id other bytes s t e = elim (Bool-cases (length bytes == page_size)) [
  | inl right ↦
      let written : insert page_id bytes s ≡ t = written_as right e in
      rw (sym written, lookup-insert page_id other bytes s)
        (elim (Bool-cases (page_id == other)) [
          | inl same ↦ rw same refl
          | inr differ ↦ rw differ refl
        ])
  | inr wrong ↦ absurd (refused wrong e)
]
  where
    written_as :
        length bytes == page_size ≡ true
        → (if length bytes == page_size then ok (insert page_id bytes s) else err (coded int051))
          ≡ ok t
        → insert page_id bytes s ≡ t
    written_as right e = ground (arith, right, e)

    refused :
        length bytes == page_size ≡ false
        → (if length bytes == page_size then ok (insert page_id bytes s) else err (coded int051))
          ≡ ok t
        → ⊥
    refused wrong e = ground (arith, wrong, e)

-- The in-memory backend keeps this promise.
pub memory_backend-IsBackend : IsBackend memory_backend
memory_backend-IsBackend = record { read-write_page = read-memory_write }
