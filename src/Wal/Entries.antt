-- ===== src/Wal/Entries.antt =====
-- src/wal.rs: the bytes that `serialize_entry` gives are what the scan reads, and a part of them
-- is not.
use minigraf.Prelude.{
  ℕ, ◌+◌, ◌-◌, ◌/◌, ◌^◌, ◌≤◌, ◌<◌, ◌≡◌, refl, inl, inr, false, none, some, List, ◌++◌, append_assoc,
  arith, ltb, ltb→lt, ltb-false, ==_refl, Bool-cases, length, take, All, length-append,
}
use minigraf.Error.{ok}
use minigraf.Bytes.{to_le, from_le}
use minigraf.Bytes.RoundTrip.{length-to_le, from_le-to_le}
use minigraf.Storage.Packed.{Serialiser, saturating_add}
use minigraf.Wal.Format.{serialize_entry, WalEntry}
use minigraf.Wal.Scan.{scan_entry}
use minigraf.Wal.Reads.{
  read_exact-append, read_exact-torn, read_exact-past, IsLoggable, AreLogged, facts_AreLogged,
}

-- An entry whose bytes the scan reads, and of whose bytes no proper part is read.
pub record IsLogged (postcard : Serialiser) (crc : List ℕ → ℕ) (entry : WalEntry) : Type 0 where
  pub bytes : List ℕ
  pub serialises : serialize_entry postcard crc entry.tx_count entry.facts ≡ ok bytes
  pub size : 20 ≤ length bytes
  pub reads :
      (file_len valid_end : ℕ) (rest : List ℕ)
      → valid_end + length bytes ≤ file_len
      → scan_entry postcard crc file_len valid_end (bytes ++ rest) ≡ some (entry, rest)
  pub torn :
      (file_len valid_end n : ℕ)
      → n < length bytes
      → scan_entry postcard crc file_len valid_end (take n bytes) ≡ none

-- An entry as the database writes it: its numbers have 64 bits, and its facts can be logged.
pub record IsEntry (postcard : Serialiser) (entry : WalEntry) : Type 0 where
  pub tx_count_u64 : entry.tx_count < 2 ^ 64
  pub num_facts_u64 : length entry.facts < 2 ^ 64
  pub loggable : All (IsLoggable postcard) entry.facts

module _ (postcard : Serialiser) (crc : List ℕ → ℕ)
    (crc_u32 : (bytes : List ℕ) → crc bytes < 2 ^ 32) (entry : WalEntry)
    (i : IsEntry postcard entry) (fs : AreLogged postcard entry.facts) where
  abbrev counts : List ℕ
  counts = to_le 8 (length entry.facts) ++ fs.body

  abbrev payload : List ℕ
  payload = to_le 8 entry.tx_count ++ (to_le 8 (length entry.facts) ++ fs.body)

  abbrev whole_entry : List ℕ
  whole_entry = to_le 4 (crc payload) ++ payload

  length-whole_entry : length whole_entry ≡ 20 + length fs.body
  length-whole_entry = omega (
    arith,
    length-append (to_le 4 (crc payload)) payload,
    length-append (to_le 8 entry.tx_count) counts,
    length-append (to_le 8 (length entry.facts)) fs.body,
    length-to_le 4 (crc payload),
    length-to_le 8 entry.tx_count,
    length-to_le 8 (length entry.facts),
  )

  num_facts_eq : from_le (to_le 8 (length entry.facts)) ≡ length entry.facts
  num_facts_eq = from_le-to_le 8 (length entry.facts) (omega (arith, i.num_facts_u64))

  left_bound :
      (file_len valid_end : ℕ)
      → valid_end + length whole_entry ≤ file_len
      → length entry.facts ≤ (file_len - saturating_add valid_end 20) / 4
  unfolding saturating_add
  left_bound file_len valid_end h = omega (arith, fs.size, length-whole_entry)

  reads_entry :
      (file_len valid_end : ℕ) (rest : List ℕ)
      → valid_end + length whole_entry ≤ file_len
      → scan_entry postcard crc file_len valid_end (whole_entry ++ rest) ≡ some (entry, rest)
  unfolding scan_entry
  reads_entry file_len valid_end rest h =
      let count : ltb ((file_len - saturating_add valid_end 20) / 4) (length entry.facts) ≡ false =
        ltb-false _ _ (left_bound file_len valid_end h) in
      rw
        (
          append_assoc (to_le 4 (crc payload)) payload rest,
          read_exact-append 4 (to_le 4 (crc payload)) (payload ++ rest)
              (length-to_le 4 (crc payload)),
          append_assoc (to_le 8 entry.tx_count) counts rest,
          read_exact-append 8 (to_le 8 entry.tx_count) (counts ++ rest)
              (length-to_le 8 entry.tx_count),
          append_assoc (to_le 8 (length entry.facts)) fs.body rest,
          read_exact-append 8 (to_le 8 (length entry.facts)) (fs.body ++ rest)
              (length-to_le 8 (length entry.facts)),
          num_facts_eq,
          count,
          fs.reads rest,
          from_le-to_le 4 (crc payload) (omega (arith, crc_u32 payload)),
          ==_refl (crc payload),
          from_le-to_le 8 entry.tx_count (omega (arith, i.tx_count_u64)),
        )
        refl

  torn_entry :
      (file_len valid_end n : ℕ)
      → n < length whole_entry
      → scan_entry postcard crc file_len valid_end (take n whole_entry) ≡ none
  unfolding scan_entry
  torn_entry file_len valid_end n h = elim (Bool-cases (ltb n 4)) [
    | inl early ↦ rw (read_exact-torn n 4 (to_le 4 (crc payload)) payload (ltb→lt n 4 early)) refl
    | inr later ↦
        rw
          (read_exact-past n 4 (to_le 4 (crc payload)) payload (length-to_le 4 (crc payload))
            (ground (arith, later)))
          (elim (Bool-cases (ltb (n - 4) 8)) [
            | inl early₂ ↦
                rw (read_exact-torn (n - 4) 8 (to_le 8 entry.tx_count) counts (ltb→lt _ 8 early₂))
                  refl
            | inr later₂ ↦
                rw
                  (read_exact-past (n - 4) 8 (to_le 8 entry.tx_count) counts
                    (length-to_le 8 entry.tx_count) (ground (arith, later₂)))
                  (elim (Bool-cases (ltb (n - 4 - 8) 8)) [
                    | inl early₃ ↦
                        rw
                          (read_exact-torn (n - 4 - 8) 8 (to_le 8 (length entry.facts)) fs.body
                            (ltb→lt _ 8 early₃))
                          refl
                    | inr later₃ ↦
                        rw
                          (
                            read_exact-past (n - 4 - 8) 8 (to_le 8 (length entry.facts)) fs.body
                                (length-to_le 8 (length entry.facts)) (ground (arith, later₃)),
                            num_facts_eq,
                            fs.torn (n - 4 - 8 - 8)
                                (ground (arith, h, later, later₂, later₃, length-whole_entry)),
                          )
                          (elim (Bool-cases (
                            ltb ((file_len - saturating_add valid_end 20) / 4)
                              (length entry.facts))) [
                                | inl many ↦ rw many refl
                                | inr few ↦ rw few refl
                              ])
                  ])
          ])
  ]

-- An entry that the database writes is read back, and no proper part of it is read.
pub entry-IsLogged :
    (postcard : Serialiser) (crc : List ℕ → ℕ)
    → ((bytes : List ℕ) → crc bytes < 2 ^ 32)
    → (entry : WalEntry) → IsEntry postcard entry
    → IsLogged postcard crc entry
unfolding serialize_entry
entry-IsLogged postcard crc crc_u32 entry i =
    let fs : AreLogged postcard entry.facts = facts_AreLogged postcard entry.facts i.loggable in
    record {
      bytes = whole_entry postcard crc crc_u32 entry i fs;
      serialises = rw fs.serialises refl;
      size = omega (arith, length-whole_entry postcard crc crc_u32 entry i fs);
      reads = reads_entry postcard crc crc_u32 entry i fs;
      torn = torn_entry postcard crc crc_u32 entry i fs;
    }
