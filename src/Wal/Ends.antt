-- ===== src/Wal/Ends.antt =====
-- src/wal.rs: the loop of the scan ends by itself, inside the file.
use minigraf.Prelude.{
  ℕ, zero, suc, ◌+◌, ◌-◌, ◌/◌, ◌≤◌, ◌<◌, ◌≡◌, ap, inl, inr, Bool, true, false, Option, none, some,
  List, [], ◌∷◌, arith, ltb, leb, if◌then◌else◌, Bool-cases, Option-cases, length, drop,
  length-drop,
}
use minigraf.Prelude.Options.{some-of_bind}
use minigraf.Storage.Packed.{Serialiser, saturating_add}
use minigraf.Bytes.{from_le}
use minigraf.Graph.Fact.{Fact}
use minigraf.Wal.Format.{read_exact, wal_header_size, WalEntry}
use minigraf.Wal.Scan.{read_facts, max_fact_size, to_option, scan_entry, scan_from, scan_entries}

some-of_if :
    {A : Type 0} (test : Bool) (o : Option A) {a : A}
    → (if test then none else o) ≡ some a
    → o ≡ some a
some-of_if true o e = cc
some-of_if false o e = e

abbrev rest_of : {A : Type 0} → Option (A × List ℕ) → List ℕ
rest_of none = []
rest_of (some (a, rest)) = rest

length-read_exact :
    (n : ℕ) (bytes front rest : List ℕ)
    → read_exact n bytes ≡ some (front, rest)
    → length rest + n ≡ length bytes
unfolding read_exact
length-read_exact n bytes front rest e = elim (Bool-cases (leb n (length bytes))) [
  | inl fits ↦
      let same : drop n bytes ≡ rest = ap rest_of (rw fits at e) in
      let within : n ≤ length bytes = ground (arith, fits) in
      omega (arith, length-drop n bytes, ap length same)
  | inr short ↦ absurd (none_some (rw short at e))
]
  where
    none_some : {A : Type 0} {a : A} → none ≡ some a → ⊥
    none_some e = cc

abbrev left_of : Option (List Fact × (List ℕ × List ℕ)) → List ℕ
left_of none = []
left_of (some (facts, (payload, rest))) = rest

length-read_facts :
    (postcard : Serialiser) (n : ℕ) (bytes : List ℕ) (facts : List Fact) (payload rest : List ℕ)
    → read_facts postcard n bytes ≡ some (facts, (payload, rest))
    → length rest ≤ length bytes
unfolding read_facts
length-read_facts postcard zero bytes facts payload rest e =
    let same : bytes ≡ rest = ap left_of e in omega (arith, ap length same)
length-read_facts postcard (suc n) bytes facts payload rest e =
    let ((len_buf, bytes₁), e₁, more₁) = some-of_bind (read_exact 4 bytes) _ e in
    let ((fact_bytes, bytes₂), e₂, more₂) =
      some-of_bind {A = List ℕ × List ℕ}
        (if ltb max_fact_size (from_le len_buf) then none else read_exact (from_le len_buf) bytes₁)
        _ more₁ in
    let (fact, e₃, more₃) = some-of_bind (to_option (postcard.from_bytes fact_bytes)) _ more₂ in
    let ((facts₁, (payload₁, rest₁)), e₄, more₄) =
      some-of_bind (read_facts postcard n bytes₂) _ more₃ in
    let same : rest₁ ≡ rest = ap left_of more₄ in
    omega (
      arith,
      length-read_exact 4 bytes len_buf bytes₁ e₁,
      length-read_exact (from_le len_buf) bytes₁ fact_bytes bytes₂
          (some-of_if (ltb max_fact_size (from_le len_buf)) _ e₂),
      length-read_facts postcard n bytes₂ facts₁ payload₁ rest₁ e₄,
      ap length same,
    )

-- A round that finds an entry has read at least its first twenty bytes.
length-scan_entry :
    (postcard : Serialiser) (crc : List ℕ → ℕ) (file_len valid_end : ℕ) (bytes : List ℕ)
    → (entry : WalEntry) (rest : List ℕ)
    → scan_entry postcard crc file_len valid_end bytes ≡ some (entry, rest)
    → length rest + 20 ≤ length bytes
unfolding scan_entry
length-scan_entry postcard crc file_len valid_end bytes entry rest e =
    let ((csum_buf, bytes₁), e₁, more₁) = some-of_bind (read_exact 4 bytes) _ e in
    let ((tx_count_buf, bytes₂), e₂, more₂) = some-of_bind (read_exact 8 bytes₁) _ more₁ in
    let ((num_facts_buf, bytes₃), e₃, more₃) = some-of_bind (read_exact 8 bytes₂) _ more₂ in
    let ((facts, (payload, rest₁)), e₄, more₄) =
      some-of_bind {A = List Fact × (List ℕ × List ℕ)}
        (if ltb ((file_len - saturating_add valid_end 20) / 4) (from_le num_facts_buf)
          then none
          else read_facts postcard (from_le num_facts_buf) bytes₃)
        _ more₃ in
    let same : rest₁ ≡ rest = found _ _ rest₁ more₄ in
    omega (
      arith,
      length-read_exact 4 bytes csum_buf bytes₁ e₁,
      length-read_exact 8 bytes₁ tx_count_buf bytes₂ e₂,
      length-read_exact 8 bytes₂ num_facts_buf bytes₃ e₃,
      length-read_facts postcard (from_le num_facts_buf) bytes₃ facts payload rest₁ (
          some-of_if (ltb ((file_len - saturating_add valid_end 20) / 4) (from_le num_facts_buf)) _
            e₄),
      ap length same,
    )
  where
    found :
        (test : Bool) (first : WalEntry) (r : List ℕ)
        → ◌≡◌ {A = Option (WalEntry × List ℕ)}
            (if test then some (first, r) else none)
            (some (entry, rest))
        → r ≡ rest
    found true first r e = ap rest_of e
    found false first r e = cc

-- The rounds of the loop: it goes on while an entry is found, and each round reads some bytes.
pub data Scans (postcard : Serialiser) (crc : List ℕ → ℕ) (file_len : ℕ)
    : ℕ → List ℕ → List WalEntry → ℕ → Type 0 where
  stop :
      {valid_end : ℕ} {bytes : List ℕ}
      → scan_entry postcard crc file_len valid_end bytes ≡ none
      → Scans postcard crc file_len valid_end bytes [] valid_end
  next :
      {valid_end end : ℕ} {bytes rest : List ℕ} {entry : WalEntry} {entries : List WalEntry}
      → scan_entry postcard crc file_len valid_end bytes ≡ some (entry, rest)
      → length rest < length bytes
      → Scans postcard crc file_len (valid_end + (length bytes - length rest)) rest entries end
      → Scans postcard crc file_len valid_end bytes (entry ∷ entries) end

scan_from-Scans :
    (postcard : Serialiser) (crc : List ℕ → ℕ) (file_len fuel valid_end : ℕ) (bytes : List ℕ)
    → length bytes < fuel
    → (let found = scan_from postcard crc file_len fuel valid_end bytes in
        Scans postcard crc file_len valid_end bytes found.0 found.1
        × (found.1 ≤ valid_end + length bytes))
unfolding scan_from
scan_from-Scans postcard crc file_len zero valid_end bytes h = absurd (omega arith)
scan_from-Scans postcard crc file_len (suc fuel) valid_end bytes h =
    elim (Option-cases (scan_entry postcard crc file_len valid_end bytes)) [
      | inl none_left ↦ rw none_left (stop none_left, omega arith)
      | inr ((entry, rest), e) ↦
          let shorter : length rest + 20 ≤ length bytes =
            length-scan_entry postcard crc file_len valid_end bytes entry rest e in
          let (scans, within) =
            scan_from-Scans postcard crc file_len fuel (valid_end + (length bytes - length rest))
              rest (omega (arith, shorter)) in
          rw e (next e (omega (arith, shorter)) scans, omega (arith, within, shorter))
    ]

-- The loop of `scan_entries` ends at an entry that cannot be read, never by the fuel of the model;
-- each round before it finds an entry and reads some bytes, and the offset that is answered lies
-- in the file, if the file has a header.
pub scan_entries-Scans :
    (postcard : Serialiser) (crc : List ℕ → ℕ) (file : List ℕ)
    → (let found = scan_entries postcard crc file in
        Scans postcard crc (length file) wal_header_size (drop wal_header_size file) found.0 found.1
        × (wal_header_size ≤ length file → found.1 ≤ length file))
unfolding scan_entries
scan_entries-Scans postcard crc file =
    let size : length (drop wal_header_size file) ≡ length file - 32 =
      length-drop wal_header_size file in
    let (scans, within) =
      scan_from-Scans postcard crc (length file) (suc (length file)) wal_header_size
        (drop wal_header_size file) (omega (arith, size)) in
    (scans, λ h. omega (arith, within, size, h))
