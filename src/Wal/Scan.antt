-- ===== src/Wal/Scan.antt =====
-- src/wal.rs: reading the entries of a log. The file is read from memory: a read fails only at
-- the file's end. A `usize` has 64 bits, so WAL-005 is not raised.
use minigraf.Prelude.{
  ℕ, zero, suc, ◌+◌, ◌-◌, ◌*◌, ◌/◌, Option, none, some, List, [], ◌∷◌, ◌++◌, ltb, ◌==◌,
  if◌then◌else◌, length, drop,
}
use minigraf.Error.{Result, ok, err}
use minigraf.Prelude.Options.{◌>>=◌}
use minigraf.Bytes.{from_le}
use minigraf.Graph.Fact.{Fact}
use minigraf.Storage.Packed.{Serialiser, saturating_add}
use minigraf.Wal.Format.{wal_header_size, read_exact, WalEntry}

abbrev pub to_option : Result Fact → Option Fact
to_option (ok fact) = some fact
to_option (err failure) = none

-- `MAX_FACT_SIZE`
abbrev pub max_fact_size : ℕ
max_fact_size = 10 * 1024 * 1024

-- The loop over the facts of an entry: the facts, the payload that the checksum covers, and the
-- bytes that are left. No answer is `truncated`.
unfoldable pub read_facts : Serialiser → ℕ → List ℕ → Option (List Fact × (List ℕ × List ℕ))
read_facts postcard zero bytes = some ([], ([], bytes))
read_facts postcard (suc n) bytes = do
  (len_buf, bytes₁) ← read_exact 4 bytes
  (fact_bytes, bytes₂) ←
      if ltb max_fact_size (from_le len_buf) then none else read_exact (from_le len_buf) bytes₁
  fact ← to_option (postcard.from_bytes fact_bytes)
  (facts, (payload, rest)) ← read_facts postcard n bytes₂
  some (fact ∷ facts, (len_buf ++ (fact_bytes ++ payload), rest))

-- One round of the loop of `scan_entries`: an entry and the bytes after it, or no answer where
-- the loop is left.
unfoldable pub scan_entry : Serialiser → (List ℕ → ℕ) → ℕ → ℕ → List ℕ → Option (WalEntry × List ℕ)
scan_entry postcard crc file_len valid_end bytes = do
  (csum_buf, bytes₁) ← read_exact 4 bytes
  (tx_count_buf, bytes₂) ← read_exact 8 bytes₁
  (num_facts_buf, bytes₃) ← read_exact 8 bytes₂
  let left = file_len - saturating_add valid_end 20
  (facts, (payload, rest)) ←
      if ltb (left / 4) (from_le num_facts_buf)
      then none
      else read_facts postcard (from_le num_facts_buf) bytes₃
  if from_le csum_buf == crc (tx_count_buf ++ (num_facts_buf ++ payload))
      then some (record { tx_count = from_le tx_count_buf; facts = facts }, rest)
      else none

-- A round of the loop that has found an entry goes on behind it; `valid_end` moves by the bytes
-- that were read.
abbrev pub scan_on :
    (ℕ → List ℕ → List WalEntry × ℕ) → ℕ → List ℕ → Option (WalEntry × List ℕ) → List WalEntry × ℕ
scan_on more valid_end bytes none = ([], valid_end)
scan_on more valid_end bytes (some (entry, rest)) =
    let found = more (valid_end + (length bytes - length rest)) rest in (entry ∷ found.0, found.1)

-- The loop, on fuel.
unfoldable pub scan_from : Serialiser → (List ℕ → ℕ) → ℕ → ℕ → ℕ → List ℕ → List WalEntry × ℕ
scan_from postcard crc file_len zero valid_end bytes = ([], valid_end)
scan_from postcard crc file_len (suc fuel) valid_end bytes =
    scan_on (scan_from postcard crc file_len fuel) valid_end bytes
      (scan_entry postcard crc file_len valid_end bytes)

-- `scan_entries`
unfoldable pub scan_entries : Serialiser → (List ℕ → ℕ) → List ℕ → List WalEntry × ℕ
scan_entries postcard crc file =
    scan_from postcard crc (length file) (suc (length file)) wal_header_size
      (drop wal_header_size file)
