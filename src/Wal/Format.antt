-- ===== src/Wal/Format.antt =====
-- src/wal.rs: the header of the write-ahead log, and the bytes of one entry. The serialiser of
-- facts (postcard) and the checksum (crc32fast) are arguments.
use minigraf.Prelude.{
  ℕ, ◌^◌, not, Option, none, some, List, [], ◌∷◌, ◌++◌, ltb, leb, ◌==◌, if◌then◌else◌, length, take,
  drop, replicate,
}
use minigraf.Error.{
  Result, ok, err, ◌>>=◌, ◌>>◌, bail_if, coded, foreign, wal001, wal002, wal003, wal004,
}
use minigraf.Prelude.Text.{codes, bytes_eq}
use minigraf.Bytes.{to_le, from_le}
use minigraf.Graph.Fact.{Fact}
use minigraf.Storage.Packed.{Serialiser, max_fact_bytes}

-- `WAL_MAGIC`
abbrev pub wal_magic : List ℕ
wal_magic = codes "MWAL"

-- `WAL_VERSION`
abbrev pub wal_version : ℕ
wal_version = 1

-- `WAL_HEADER_SIZE`
abbrev pub wal_header_size : ℕ
wal_header_size = 32

-- The buffer that `write_wal_header` fills.
abbrev pub wal_header : List ℕ
wal_header = wal_magic ++ (to_le 4 wal_version ++ replicate 24 0)

-- `write_wal_header`: the first bytes of the file are overwritten.
unfoldable pub write_wal_header : List ℕ → List ℕ
write_wal_header file = wal_header ++ drop wal_header_size file

-- `Read::read_exact`: the bytes that were read and those that are left, or none at the file's end.
unfoldable pub read_exact : ℕ → List ℕ → Option (List ℕ × List ℕ)
read_exact n bytes = if leb n (length bytes) then some (take n bytes, drop n bytes) else none

abbrev pub or_foreign {ℓ} : {A : Type ℓ} → Option A → Result A
or_foreign none = err foreign
or_foreign (some a) = ok a

-- `validate_wal_header`
unfoldable pub validate_wal_header : List ℕ → Result (Unit {0})
validate_wal_header file = do
  (buf, rest) ← or_foreign (read_exact wal_header_size file)
  bail_if (not (bytes_eq (take 4 buf) wal_magic)) wal001
  bail_if (not (from_le (take 4 (drop 4 buf)) == wal_version)) wal002
  ok tt

-- `WalHeaderState`
pub data WalHeaderState : Type 0 where
  present absent : WalHeaderState

-- `check_wal_header_length`
unfoldable pub check_wal_header_length : List ℕ → WalHeaderState
check_wal_header_length file = if ltb (length file) wal_header_size then absent else present

abbrev pub try_u32 : ℕ → Result ℕ
try_u32 n = if ltb n (2 ^ 32) then ok n else err (coded wal004)

-- The loop of `serialize_entry`.
unfoldable pub serialize_facts : Serialiser → List Fact → Result (List ℕ)
serialize_facts postcard [] = ok []
serialize_facts postcard (fact ∷ facts) = do
  fact_bytes ← postcard.to_allocvec fact
  bail_if (ltb max_fact_bytes (length fact_bytes)) wal003
  fact_len ← try_u32 (length fact_bytes)
  rest ← serialize_facts postcard facts
  ok (to_le 4 fact_len ++ (fact_bytes ++ rest))

-- The checksum stands before what it covers.
abbrev pub checked : (List ℕ → ℕ) → List ℕ → List ℕ
checked crc payload = to_le 4 (crc payload) ++ payload

-- `serialize_entry`
unfoldable pub serialize_entry : Serialiser → (List ℕ → ℕ) → ℕ → List Fact → Result (List ℕ)
serialize_entry postcard crc tx_count facts = do
  body ← serialize_facts postcard facts
  ok (checked crc (to_le 8 tx_count ++ (to_le 8 (length facts) ++ body)))

-- `WalEntry`
pub record WalEntry : Type 0 where
  pub tx_count : ℕ
  pub facts : List Fact
