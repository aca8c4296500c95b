-- ===== src/Wal/Writer.antt =====
-- src/wal.rs: the writer and the reader of the log, on the bytes of its file. What the operating
-- system makes of a write is an argument. The directory is synced outside the model.
use minigraf.Prelude.{
  ℕ, zero, suc, Bool, true, false, not, Option, none, some, List, [], ◌++◌, ltb, if◌then◌else◌,
  length, take,
}
use minigraf.Error.{Result, ok, err, ◌>>◌, coded, foreign, wal006, wal007}
use minigraf.Graph.Fact.{Fact}
use minigraf.Storage.Packed.{Serialiser}
use minigraf.Wal.Format.{
  write_wal_header, validate_wal_header, WalHeaderState, present, absent, check_wal_header_length,
  serialize_entry, WalEntry,
}
use minigraf.Wal.Scan.{scan_entries}

-- `SyncMode` of src/db.rs
pub data SyncMode : Type 0 where
  full normal : SyncMode

-- What becomes of a write and the sync after it: all is done, the write fails after some bytes,
-- or the sync fails.
pub data WriteOutcome : Type 0 where
  written : WriteOutcome
  torn : ℕ → WriteOutcome
  unsynced : WriteOutcome

-- `WalWriter`; the file is written at its end.
pub record WalWriter : Type 0 where
  pub file : List ℕ
  pub sync_mode : SyncMode
  pub failed : Bool

-- `set_len(valid_end)`, where the file is longer.
abbrev pub cut : ℕ → List ℕ → List ℕ
cut valid_end file = if ltb valid_end (length file) then take valid_end file else file

abbrev pub reopened :
    Serialiser → (List ℕ → ℕ) → SyncMode → List ℕ → WalHeaderState → Result WalWriter
reopened postcard crc sync_mode file present = do
  validate_wal_header file
  ok (record {
    file = cut (scan_entries postcard crc file).1 file;
    sync_mode = sync_mode;
    failed = false;
  })
reopened postcard crc sync_mode file absent =
    ok (record { file = write_wal_header file; sync_mode = sync_mode; failed = false })

-- `WalWriter::open_or_create`, at the file that the path names, if there is one.
unfoldable pub open_or_create :
    Serialiser → (List ℕ → ℕ) → SyncMode → Option (List ℕ) → Result WalWriter
open_or_create postcard crc sync_mode none =
    ok (record { file = write_wal_header []; sync_mode = sync_mode; failed = false })
open_or_create postcard crc sync_mode (some file) =
    reopened postcard crc sync_mode file (check_wal_header_length file)

-- `WalWriter::write_entry`: what the file holds afterwards, and whether the call succeeds.
unfoldable pub write_entry : WriteOutcome → SyncMode → List ℕ → List ℕ → List ℕ × Bool
write_entry written sync_mode entry_bytes file = (file ++ entry_bytes, true)
write_entry (torn n) sync_mode entry_bytes file = (file ++ take n entry_bytes, false)
write_entry unsynced full entry_bytes file = (file ++ entry_bytes, false)
write_entry unsynced normal entry_bytes file = (file ++ entry_bytes, true)

abbrev pub answer : Bool → Result (Unit {0})
answer true = ok tt
answer false = err foreign

abbrev pub appended : WriteOutcome → WalWriter → Result (List ℕ) → WalWriter × Result (Unit {0})
appended outcome w (err failure) = (w, err failure)
appended outcome w (ok entry_bytes) =
    let (file, success) = write_entry outcome w.sync_mode entry_bytes w.file in
    (record w { file = file; failed = not success }, answer success)

-- `WalWriter::append_entry`
unfoldable pub append_entry :
    Serialiser
    → (List ℕ → ℕ)
    → WriteOutcome
    → ℕ
    → List Fact
    → WalWriter
    → WalWriter × Result (Unit {0})
append_entry postcard crc outcome tx_count facts w =
    if w.failed
    then (w, err (coded wal007))
    else appended outcome w (serialize_entry postcard crc tx_count facts)

-- `WalWriter::delete_file`: the attempts that are left, and whether each of them removes the file.
unfoldable pub delete_file : ℕ → (ℕ → Bool) → Option (List ℕ) → Option (List ℕ) × Result (Unit {0})
delete_file zero removes path = (path, err (coded wal006))
delete_file (suc retries) removes path =
    let rest = delete_file retries removes path in if removes retries then (none, ok tt) else rest

abbrev validated : List ℕ → WalHeaderState → Result (List ℕ)
validated file present = do validate_wal_header file; ok file
validated file absent = ok file

-- `WalReader::open`
unfoldable pub open_reader : List ℕ → Result (List ℕ)
open_reader file = validated file (check_wal_header_length file)

-- `WalReader::read_entries`
unfoldable pub read_entries : Serialiser → (List ℕ → ℕ) → List ℕ → List WalEntry
read_entries postcard crc file = (scan_entries postcard crc file).0
