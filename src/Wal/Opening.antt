-- ===== src/Wal/Opening.antt =====
-- src/wal.rs: how the writer and the reader answer to the file that they find.
use minigraf.Prelude.{
  ℕ, zero, suc, ◌-◌, ◌≤◌, ◌<◌, ◌≡◌, refl, sym, ap, ◌∙◌, ◌≢◌, inl, inr, true, false, some, List, [],
  ◌∷◌, append-nil, arith, ltb, leb, ◌==◌, lt→ltb, ltb-false, ==_iff, Bool-cases, length, take, drop,
}
use minigraf.Error.{Result, ok, err, coded, wal001, wal002}
use minigraf.Prelude.Text.{bytes_eq, bytes_eq→eq, bytes_eq_iff}
use minigraf.Bytes.{from_le}
use minigraf.Storage.Packed.{Serialiser}
use minigraf.Wal.Format.{
  wal_header, wal_header_size, wal_magic, wal_version, validate_wal_header, check_wal_header_length,
  read_exact, write_wal_header,
}
use minigraf.Wal.Scan.{scan_entries}
use minigraf.Wal.Writer.{SyncMode, open_or_create, open_reader, cut}
use minigraf.Wal.Durable.{take_all, drop_all}

take-take : (m n : ℕ) (xs : List ℕ) → m ≤ n → take m (take n xs) ≡ take m xs
take-take zero n xs h = refl
take-take (suc m) zero xs h = absurd (omega arith)
take-take (suc m) (suc n) [] h = refl
take-take (suc m) (suc n) (x ∷ xs) h = ap (◌∷◌ x) (take-take m n xs (omega arith))

drop-take : (m n : ℕ) (xs : List ℕ) → m ≤ n → drop m (take n xs) ≡ take (n - m) (drop m xs)
drop-take zero n xs h = ap (λ k. take k xs) (omega arith)
drop-take (suc m) zero xs h = absurd (omega arith)
drop-take (suc m) (suc n) [] h = sym (take_nil (suc n - suc m))
  where
    take_nil : (k : ℕ) → ◌≡◌ {A = List ℕ} (take k []) []
    take_nil zero = refl
    take_nil (suc k) = refl
drop-take (suc m) (suc n) (x ∷ xs) h =
    drop-take m n xs (omega arith) ∙ ap (λ k. take k (drop m xs)) (omega arith)

-- What `validate_wal_header` looks at.
abbrev pub magic_of : List ℕ → List ℕ
magic_of file = take 4 file

abbrev pub version_of : List ℕ → ℕ
version_of file = from_le (take 4 (drop 4 file))

abbrev Validates : List ℕ → Result (Unit {0}) → Type 0
Validates file r =
    (magic_of file ≢ wal_magic → r ≡ err (coded wal001))
    × (magic_of file ≡ wal_magic → version_of file ≢ wal_version → r ≡ err (coded wal002))
    × (magic_of file ≡ wal_magic → version_of file ≡ wal_version → r ≡ ok tt)

bytes_eq-true : (xs ys : List ℕ) → xs ≡ ys → bytes_eq xs ys ≡ true
bytes_eq-true xs ys e = (bytes_eq_iff xs ys).1 e

bytes_eq-false : (xs ys : List ℕ) → xs ≢ ys → bytes_eq xs ys ≡ false
bytes_eq-false xs ys n = elim (Bool-cases (bytes_eq xs ys)) [
  | inl same ↦ absurd (n (bytes_eq→eq xs ys same))
  | inr differs ↦ differs
]

==_true : (a b : ℕ) → a ≡ b → (a == b) ≡ true
==_true a b e = (==_iff a b).1 e

==_false : (a b : ℕ) → a ≢ b → (a == b) ≡ false
==_false a b n = ground (arith, n)

cut-take : (end : ℕ) (file : List ℕ) → cut end file ≡ take end file
cut-take end file = elim (Bool-cases (ltb end (length file))) [
  | inl longer ↦ rw longer refl
  | inr not_longer ↦ rw not_longer (sym (take_all end file (ground (arith, not_longer))))
]

validate_wal_header_lem :
    (file : List ℕ) → wal_header_size ≤ length file → Validates file (validate_wal_header file)
unfolding validate_wal_header read_exact
validate_wal_header_lem file h =
    let fits : leb wal_header_size (length file) ≡ true = ground (arith, h) in
    let magic : take 4 (take wal_header_size file) ≡ take 4 file =
      take-take 4 wal_header_size file (omega arith) in
    let version : take 4 (drop 4 (take wal_header_size file)) ≡ take 4 (drop 4 file) =
      ap (take 4) (drop-take 4 wal_header_size file (omega arith))
      ∙ take-take 4 28 (drop 4 file) (omega arith) in
    rw (fits, magic, version)
      (
        (λ differs. rw (bytes_eq-false (take 4 file) wal_magic differs) refl),
        (λ same other.
            rw
              (
                bytes_eq-true (take 4 file) wal_magic same,
                ==_false (version_of file) wal_version other,
              )
              refl),
        (λ same equal.
            rw
              (
                bytes_eq-true (take 4 file) wal_magic same,
                ==_true (version_of file) wal_version equal,
              )
              refl),
      )

-- Opening a log answers every file: a file too short for a header becomes an empty log; otherwise
-- WAL-001 refuses another magic number and WAL-002 another version, for the writer as for the
-- reader, and the writer keeps the file up to the end of the entries that the scan reads.
pub open_or_create-Answers :
    (postcard : Serialiser) (crc : List ℕ → ℕ) (sync_mode : SyncMode) (file : List ℕ)
    → (length file < wal_header_size
        → (open_or_create postcard crc sync_mode (some file)
            ≡ ok (record { file = wal_header; sync_mode = sync_mode; failed = false }))
          × (open_reader file ≡ ok file))
      × (wal_header_size ≤ length file
          → magic_of file ≢ wal_magic
          → (open_or_create postcard crc sync_mode (some file) ≡ err (coded wal001))
            × (open_reader file ≡ err (coded wal001)))
      × (wal_header_size ≤ length file
          → magic_of file ≡ wal_magic
          → version_of file ≢ wal_version
          → (open_or_create postcard crc sync_mode (some file) ≡ err (coded wal002))
            × (open_reader file ≡ err (coded wal002)))
      × (wal_header_size ≤ length file
          → magic_of file ≡ wal_magic
          → version_of file ≡ wal_version
          → (open_or_create postcard crc sync_mode (some file)
              ≡ ok (record {
                file = take (scan_entries postcard crc file).1 file;
                sync_mode = sync_mode;
                failed = false;
              }))
            × (open_reader file ≡ ok file))
unfolding open_or_create open_reader check_wal_header_length write_wal_header
open_or_create-Answers postcard crc sync_mode file = (
  (λ short.
      rw (lt→ltb (length file) wal_header_size short)
        (rw (drop_all wal_header_size file (omega arith), append-nil wal_header) refl, refl)),
  (λ long differs.
      rw
        (
          ltb-false (length file) wal_header_size long,
          (validate_wal_header_lem file long).0 differs,
        )
        (refl, refl)),
  (λ long same other.
      rw
        (
          ltb-false (length file) wal_header_size long,
          (validate_wal_header_lem file long).1 same other,
        )
        (refl, refl)),
  (λ long same equal.
      rw
        (
          ltb-false (length file) wal_header_size long,
          (validate_wal_header_lem file long).2 same equal,
          cut-take (scan_entries postcard crc file).1 file,
        )
        (refl, refl)),
)
