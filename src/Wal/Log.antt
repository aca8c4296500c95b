-- ===== src/Wal/Log.antt =====
-- src/wal.rs: what the scan finds in a log.
use minigraf.Prelude.{
  ℕ, zero, suc, ◌+◌, ◌-◌, ◌≤◌, ◌≡◌, refl, sym, ap, ◌∙◌, none, List, [], ◌∷◌, ◌++◌, append-nil,
  append_assoc, arith, length, length-append, drop-append,
}
use minigraf.Bytes.{to_le}
use minigraf.Storage.Packed.{Serialiser}
use minigraf.Wal.Format.{wal_header, wal_header_size, WalEntry}
use minigraf.Wal.Scan.{scan_entry, scan_from, scan_entries}
use minigraf.Wal.Reads.{read_exact-short}
use minigraf.Wal.Entries.{IsLogged}

module _ (postcard : Serialiser) (crc : List ℕ → ℕ) where
  -- The bytes are those of the entries, one after the other.
  abbrev pub IsLog : List WalEntry → List ℕ → Type 0
  IsLog [] bytes = bytes ≡ []
  IsLog (entry ∷ entries) bytes =
      (i : IsLogged postcard crc entry) × (rest : List ℕ) × (bytes ≡ i.bytes ++ rest)
      × IsLog entries rest

  pub IsLog-append :
      (entries : List WalEntry) (bytes : List ℕ) (entry : WalEntry)
      → IsLog entries bytes
      → (i : IsLogged postcard crc entry) → IsLog (entries ++ (entry ∷ [])) (bytes ++ i.bytes)
  IsLog-append [] bytes entry e i =
      (i, [], ap (λ bs. bs ++ i.bytes) e ∙ sym (append-nil i.bytes), refl)
  IsLog-append (first ∷ entries) bytes entry (j, rest, e, log) i = (
    j,
    rest ++ i.bytes,
    ap (λ bs. bs ++ i.bytes) e ∙ append_assoc j.bytes rest i.bytes,
    IsLog-append entries rest entry log i,
  )

  pub length-IsLog :
      (entries : List WalEntry) (bytes : List ℕ)
      → IsLog entries bytes
      → length entries ≤ length bytes
  length-IsLog [] bytes e = omega arith
  length-IsLog (entry ∷ entries) bytes (i, rest, e, log) =
      omega (arith, length-IsLog entries rest log, i.size, ap length e, length-append i.bytes rest)

  -- The scan goes through the entries of a log, whatever follows them.
  pub scan_from-IsLog :
      (file_len fuel valid_end : ℕ) (entries : List WalEntry) (bytes tail : List ℕ)
      → IsLog entries bytes
      → valid_end + length bytes ≤ file_len
      → scan_from postcard crc file_len (length entries + fuel) valid_end (bytes ++ tail) ≡ (
        entries ++ (scan_from postcard crc file_len fuel (valid_end + length bytes) tail).0,
        (scan_from postcard crc file_len fuel (valid_end + length bytes) tail).1,
      )
  unfolding scan_from
  scan_from-IsLog file_len fuel valid_end [] bytes tail e h =
      let n : 0 + fuel ≡ fuel = omega arith in
      let v : valid_end + 0 ≡ valid_end = omega arith in rw (e, n, v) refl
  scan_from-IsLog file_len fuel valid_end (entry ∷ entries) bytes tail (i, rest, e, log) h =
      let sizes : length bytes ≡ length i.bytes + length rest =
        ap length e ∙ length-append i.bytes rest in
      let all : length (i.bytes ++ (rest ++ tail)) ≡ length i.bytes + length (rest ++ tail) =
        length-append i.bytes (rest ++ tail) in
      let moved : valid_end + (length (i.bytes ++ (rest ++ tail)) - length (rest ++ tail))
          ≡ valid_end + length i.bytes =
        omega (arith, all) in
      let more : suc (length entries) + fuel ≡ suc (length entries + fuel) = omega arith in
      let ends : valid_end + length i.bytes + length rest ≡ valid_end + length bytes =
        omega (arith, sizes) in
      rw
        (
          ap (λ bs. bs ++ tail) e ∙ append_assoc i.bytes rest tail,
          more,
          i.reads file_len valid_end (rest ++ tail) (omega (arith, sizes, h)),
          moved,
          scan_from-IsLog file_len fuel (valid_end + length i.bytes) entries rest tail log
              (omega (arith, sizes, h)),
          ends,
        )
        refl

  -- Nothing can be read from the tail, so the scan ends there.
  pub scan_from-stop :
      (file_len fuel valid_end : ℕ) (tail : List ℕ)
      → scan_entry postcard crc file_len valid_end tail ≡ none
      → scan_from postcard crc file_len fuel valid_end tail ≡ ([], valid_end)
  unfolding scan_from
  scan_from-stop file_len zero valid_end tail e = refl
  scan_from-stop file_len (suc fuel) valid_end tail e = rw e refl

  pub scan_entry-nil :
      (file_len valid_end : ℕ) → scan_entry postcard crc file_len valid_end [] ≡ none
  unfolding scan_entry
  scan_entry-nil file_len valid_end = rw (read_exact-short 4 [] (omega arith)) refl

  pub length-wal_header : length wal_header ≡ wal_header_size
  unfolding to_le
  length-wal_header = refl

  -- The entries of a log and the place where they end, if nothing can be read from what follows.
  pub scan_entries-IsLog :
      (entries : List WalEntry) (bytes tail : List ℕ)
      → IsLog entries bytes
      → ((file_len valid_end : ℕ) → scan_entry postcard crc file_len valid_end tail ≡ none)
      → scan_entries postcard crc (wal_header ++ (bytes ++ tail))
        ≡ (entries, wal_header_size + length bytes)
  unfolding scan_entries
  scan_entries-IsLog entries bytes tail log unread =
      let file_len : ℕ = length (wal_header ++ (bytes ++ tail)) in
      let size : length (wal_header ++ (bytes ++ tail)) ≡ 32 + (length bytes + length tail) =
        length-append wal_header (bytes ++ tail)
        ∙ omega (arith, length-wal_header, length-append bytes tail) in
      let fuel : suc (length (wal_header ++ (bytes ++ tail)))
          ≡ length entries + (suc file_len - length entries) =
        omega (arith, size, length-IsLog entries bytes log) in
      rw
        (
          drop-append wal_header (bytes ++ tail) wal_header_size length-wal_header,
          fuel,
          scan_from-IsLog file_len (suc file_len - length entries) wal_header_size entries bytes
              tail log (omega (arith, size)),
          scan_from-stop file_len (suc file_len - length entries) (wal_header_size + length bytes)
              tail (unread file_len (wal_header_size + length bytes)),
          append-nil entries,
        )
        refl
