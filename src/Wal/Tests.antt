-- ===== src/Wal/Tests.antt =====
-- The log run on a few entries, and the witnesses.
use minigraf.Prelude.{
  ℕ, ◌%◌, ◌^◌, ◌≤◌, ◌<◌, ◌≡◌, refl, ap, ◌≢◌, true, false, some, List, [], ◌∷◌, ◌++◌, arith, length,
  take, drop, replicate,
}
use minigraf.Error.{ok, err, coded, wal001, wal002}
use minigraf.Prelude.Int.{pos}
use minigraf.Prelude.Text.{codes}
use minigraf.Bytes.{to_le, from_le}
use minigraf.Graph.Value.{integer}
use minigraf.Graph.Fact.{Fact}
use minigraf.Storage.Packed.{Serialiser, saturating_add}
use minigraf.Wal.Format.{
  wal_header, wal_header_size, wal_magic, wal_version, WalEntry, serialize_entry, serialize_facts,
  read_exact, write_wal_header,
}
use minigraf.Wal.Scan.{scan_entry, scan_from, scan_entries, read_facts}
use minigraf.Wal.Writer.{
  full, normal, WalWriter, written, torn, open_or_create, append_entry, write_entry, read_entries,
  open_reader,
}
use minigraf.Wal.Entries.{IsEntry}
use minigraf.Wal.Reads.{IsLoggable}
use minigraf.Wal.Durable.{succeeds}
use minigraf.Wal.Recovery.{
  History, Run, created, append, Recovers, read_entries-Recovers, open_or_create_again,
}
use minigraf.Wal.Ends.{Scans, scan_entries-Scans}
use minigraf.Wal.Opening.{magic_of, version_of, open_or_create-Answers}

abbrev age_of : ℕ → Fact
age_of n = record {
  entity = n;
  attribute = codes ":age";
  value = integer (pos 30);
  tx_id = 1000;
  tx_count = 1;
  valid_from = pos 1000;
  valid_to = pos 2000;
  asserted = true;
}

-- A serialiser that keeps the entity, and the length for a checksum.
abbrev brief : Serialiser
brief = record {
  to_allocvec = λ fact. ok (to_le 2 fact.entity);
  from_bytes = λ bytes. ok (age_of (from_le bytes));
}

abbrev size_sum : List ℕ → ℕ
size_sum bytes = length bytes % 2 ^ 32

size_sum_u32 : (bytes : List ℕ) → size_sum bytes < 2 ^ 32
size_sum_u32 bytes = omega arith

abbrev first : WalEntry
first = record { tx_count = 1; facts = age_of 7 ∷ age_of 300 ∷ [] }

abbrev second : WalEntry
second = record { tx_count = 2; facts = age_of 9 ∷ [] }

age_of-IsLoggable : (n : ℕ) → from_le (to_le 2 n) ≡ n → IsLoggable brief (age_of n)
unfolding to_le
age_of-IsLoggable n e = record {
  fact_bytes = to_le 2 n;
  serialises = refl;
  fits = omega arith;
  decodes = ap (λ m. ok (age_of m)) e;
}

seven : from_le (to_le 2 7) ≡ 7
unfolding to_le from_le
seven = refl

three_hundred : from_le (to_le 2 300) ≡ 300
unfolding to_le from_le
three_hundred = refl

nine : from_le (to_le 2 9) ≡ 9
unfolding to_le from_le
nine = refl

first-IsEntry : IsEntry brief first
first-IsEntry = record {
  tx_count_u64 = omega arith;
  num_facts_u64 = omega arith;
  loggable = (age_of-IsLoggable 7 seven, (age_of-IsLoggable 300 three_hundred, tt));
}

second-IsEntry : IsEntry brief second
second-IsEntry = record {
  tx_count_u64 = omega arith;
  num_facts_u64 = omega arith;
  loggable = (age_of-IsLoggable 9 nine, tt);
}

abbrev new_writer : WalWriter
new_writer = record { file = write_wal_header []; sync_mode = full; failed = false }

-- A second entry of which ten bytes are written.
abbrev after_first : WalWriter
after_first = (append_entry brief size_sum written 1 first.facts new_writer).0

abbrev after_second : WalWriter
after_second = (append_entry brief size_sum (torn 10) 2 second.facts after_first).0

abbrev history : History
history =
    ([]
      ++ ((first, succeeds (append_entry brief size_sum written 1 first.facts new_writer).1) ∷ []))
    ++ ((second, succeeds (append_entry brief size_sum (torn 10) 2 second.facts after_first).1)
        ∷ [])

Run-two_appends : Run brief size_sum after_second history
unfolding open_or_create
Run-two_appends =
    append (torn 10) second second-IsEntry (append written first first-IsEntry (created full refl))

-- The torn entry is not read.
torn_lost : read_entries brief size_sum after_second.file ≡ first ∷ []
unfolding read_entries scan_entries scan_from scan_entry read_facts read_exact append_entry
    write_entry serialize_entry serialize_facts to_le from_le write_wal_header saturating_add
torn_lost = refl

read_entries-Recovers_example : Recovers history (read_entries brief size_sum after_second.file)
read_entries-Recovers_example =
    read_entries-Recovers brief size_sum size_sum_u32 after_second history Run-two_appends

open_or_create_again_example :
    (next : WalWriter) × (open_or_create brief size_sum normal (some after_second.file) ≡ ok next)
    × (next.failed ≡ false)
    × (read_entries brief size_sum next.file ≡ read_entries brief size_sum after_second.file)
    × ((append_entry brief size_sum written 2 second.facts next).1 ≡ ok tt)
    × (read_entries brief size_sum (append_entry brief size_sum written 2 second.facts next).0.file
        ≡ read_entries brief size_sum after_second.file ++ (second ∷ []))
open_or_create_again_example =
    open_or_create_again brief size_sum size_sum_u32 after_second history normal second
      Run-two_appends second-IsEntry

scan_entries-Scans_example :
    Scans brief size_sum
      (length after_second.file)
      wal_header_size
      (drop wal_header_size after_second.file)
      (scan_entries brief size_sum after_second.file).0
      (scan_entries brief size_sum after_second.file).1
    × (wal_header_size ≤ length after_second.file
        → (scan_entries brief size_sum after_second.file).1 ≤ length after_second.file)
scan_entries-Scans_example = scan_entries-Scans brief size_sum after_second.file

abbrev other_file : List ℕ
other_file = replicate 40 0

open_or_create-Answers_example :
    (length other_file < wal_header_size
      → (open_or_create brief size_sum full (some other_file)
          ≡ ok (record { file = wal_header; sync_mode = full; failed = false }))
        × (open_reader other_file ≡ ok other_file))
    × (wal_header_size ≤ length other_file
        → magic_of other_file ≢ wal_magic
        → (open_or_create brief size_sum full (some other_file) ≡ err (coded wal001))
          × (open_reader other_file ≡ err (coded wal001)))
    × (wal_header_size ≤ length other_file
        → magic_of other_file ≡ wal_magic
        → version_of other_file ≢ wal_version
        → (open_or_create brief size_sum full (some other_file) ≡ err (coded wal002))
          × (open_reader other_file ≡ err (coded wal002)))
    × (wal_header_size ≤ length other_file
        → magic_of other_file ≡ wal_magic
        → version_of other_file ≡ wal_version
        → (open_or_create brief size_sum full (some other_file)
            ≡ ok (record {
              file = take (scan_entries brief size_sum other_file).1 other_file;
              sync_mode = full;
              failed = false;
            }))
          × (open_reader other_file ≡ ok other_file))
open_or_create-Answers_example = open_or_create-Answers brief size_sum full other_file
