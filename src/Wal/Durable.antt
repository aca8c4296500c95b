-- ===== src/Wal/Durable.antt =====
-- src/wal.rs: what the file of a log holds between two calls, and that every call keeps it.
use minigraf.Prelude.{
  ℕ, zero, suc, ◌+◌, ◌≤◌, ◌<◌, ◌≡◌, refl, sym, ap, ◌∙◌, ◌⊎◌, inl, inr, Bool, true, false, not, none,
  some, List, [], ◌∷◌, ◌++◌, append-nil, append_assoc, arith, ltb, if◌then◌else◌, ltb→lt, lt→ltb,
  ltb-false, Bool-cases, length, take, drop, length-append, take-append,
}
use mathlib.Core.Bool.{false≢true}
use mathlib.Core.Path.{subst}
use minigraf.Error.{Result, ok, err, coded, wal007}
use minigraf.Bytes.{to_le, from_le}
use minigraf.Storage.Packed.{Serialiser}
use minigraf.Wal.Format.{
  wal_header, wal_header_size, write_wal_header, validate_wal_header, check_wal_header_length,
  present, serialize_entry, WalEntry,
}
use minigraf.Wal.Scan.{scan_entry, scan_entries}
use minigraf.Wal.Writer.{
  SyncMode, full, normal, WriteOutcome, written, torn, unsynced, WalWriter, open_or_create,
  write_entry, append_entry, cut, appended, answer,
}
use minigraf.Wal.Reads.{read_exact-append}
use minigraf.Wal.Entries.{IsLogged}
use minigraf.Wal.Log.{IsLog, IsLog-append, scan_entry-nil, length-wal_header, scan_entries-IsLog}

abbrev pub succeeds : {A : Type 0} → Result A → Bool
succeeds (ok a) = true
succeeds (err failure) = false

pub take_all : {A : Type 0} (n : ℕ) (xs : List A) → length xs ≤ n → take n xs ≡ xs
take_all zero [] h = refl
take_all zero (x ∷ xs) h = absurd (omega arith)
take_all (suc n) [] h = refl
take_all (suc n) (x ∷ xs) h = ap (◌∷◌ x) (take_all n xs (omega arith))

pub drop_all : {A : Type 0} (n : ℕ) (xs : List A) → length xs ≤ n → drop n xs ≡ []
drop_all zero [] h = refl
drop_all zero (x ∷ xs) h = absurd (omega arith)
drop_all (suc n) [] h = refl
drop_all (suc n) (x ∷ xs) h = drop_all n xs (omega arith)

nil_of_length : {A : Type 0} (xs : List A) → length xs ≤ 0 → xs ≡ []
nil_of_length [] h = refl
nil_of_length (x ∷ xs) h = absurd (omega arith)

cut_lem : (front tail : List ℕ) (n : ℕ) → length front ≡ n → cut n (front ++ tail) ≡ front
cut_lem front tail n h = elim (Bool-cases (ltb n (length (front ++ tail)))) [
  | inl longer ↦ rw longer (take-append front tail n h)
  | inr not_longer ↦ rw not_longer (
      ap (λ more. front ++ more)
        (nil_of_length tail (ground (arith, h, not_longer, length-append front tail)))
      ∙ append-nil front)
]

module _ (postcard : Serialiser) (crc : List ℕ → ℕ) where
  -- The file is a log of the entries and a part from which no entry can be read. Only a writer
  -- that has failed leaves such a part.
  pub record IsDurable (w : WalWriter) (entries : List WalEntry) : Type 0 where
    pub bytes : List ℕ
    pub part : List ℕ
    pub layout : w.file ≡ wal_header ++ (bytes ++ part)
    pub log : IsLog postcard crc entries bytes
    pub unread : (file_len valid_end : ℕ) → scan_entry postcard crc file_len valid_end part ≡ none
    pub clean : w.failed ≡ false → part ≡ []

  pub scan_entries-IsDurable :
      (w : WalWriter) (entries : List WalEntry) (d : IsDurable w entries)
      → scan_entries postcard crc w.file ≡ (entries, wal_header_size + length d.bytes)
  scan_entries-IsDurable w entries d =
      ap (scan_entries postcard crc) d.layout
      ∙ scan_entries-IsLog postcard crc entries d.bytes d.part d.log d.unread

  empty-IsDurable :
      (w : WalWriter) (file : List ℕ)
      → length file < wal_header_size
      → w.file ≡ write_wal_header file
      → IsDurable w []
  unfolding write_wal_header
  empty-IsDurable w file short e = record {
    bytes = [];
    part = [];
    layout = e ∙ ap (λ rest. wal_header ++ rest) (drop_all wal_header_size file (omega arith));
    log = refl;
    unread = scan_entry-nil postcard crc;
    clean = λ h. refl;
  }

  abbrev file_of : Result WalWriter → List ℕ
  file_of (ok w) = w.file
  file_of (err failure) = []

  -- A new file, or one that is too short for a header, becomes an empty log.
  pub created_lem :
      (sync_mode : SyncMode) (w : WalWriter)
      → open_or_create postcard crc sync_mode none ≡ ok w
      → IsDurable w []
  unfolding open_or_create
  created_lem sync_mode w e = empty-IsDurable w [] (omega arith) (sym (ap file_of e))

  pub interrupted_lem :
      (sync_mode : SyncMode) (file : List ℕ) (w : WalWriter)
      → length file < wal_header_size
      → open_or_create postcard crc sync_mode (some file) ≡ ok w
      → IsDurable w []
  unfolding open_or_create check_wal_header_length
  interrupted_lem sync_mode file w short e =
      let a : ltb (length file) wal_header_size ≡ true = lt→ltb _ _ short in
      empty-IsDurable w file short (sym (ap file_of (rw a at e)))

  module _ (w : WalWriter) (entries : List WalEntry) (entry : WalEntry) (d : IsDurable w entries)
      (i : IsLogged postcard crc entry) where
    extended : (more : List ℕ) → w.failed ≡ false → w.file ++ more ≡ wal_header ++ (d.bytes ++ more)
    extended more ready =
        ap (λ f. f ++ more) (d.layout ∙ ap (λ q. wal_header ++ (d.bytes ++ q)) (d.clean ready))
        ∙ append_assoc wal_header (d.bytes ++ []) more
        ∙ ap (λ b. wal_header ++ (b ++ more)) (append-nil d.bytes)

    -- The whole entry is in the file.
    pub whole-IsDurable :
        (next : WalWriter)
        → w.failed ≡ false
        → next.file ≡ w.file ++ i.bytes
        → IsDurable next (entries ++ (entry ∷ []))
    whole-IsDurable next ready e = record {
      bytes = d.bytes ++ i.bytes;
      part = [];
      layout =
          e
          ∙ extended i.bytes ready
          ∙ ap (λ b. wal_header ++ b) (sym (append-nil (d.bytes ++ i.bytes)));
      log = IsLog-append postcard crc entries d.bytes entry d.log i;
      unread = scan_entry-nil postcard crc;
      clean = λ h. refl;
    }

    -- A part of the entry is in the file.
    part-IsDurable :
        (next : WalWriter) (n : ℕ)
        → w.failed ≡ false
        → n < length i.bytes
        → next.failed ≡ true
        → next.file ≡ w.file ++ take n i.bytes
        → IsDurable next entries
    part-IsDurable next n ready short failing e = record {
      bytes = d.bytes;
      part = take n i.bytes;
      layout = e ∙ extended (take n i.bytes) ready;
      log = d.log;
      unread = λ file_len valid_end. i.torn file_len valid_end n short;
      clean = λ h. absurd (false≢true (sym h ∙ failing));
    }

    -- What an append leaves: the log with the entry, or, if the call fails, perhaps without it.
    abbrev pub Leaves : WalWriter × Result (Unit {0}) → Type 0
    Leaves (next, r) =
        IsDurable next (entries ++ (entry ∷ [])) ⊎ (IsDurable next entries × (succeeds r ≡ false))

    abbrev outcome_of : List ℕ × Bool → WalWriter × Result (Unit {0})
    outcome_of (file, success) = (record w { file = file; failed = not success }, answer success)

    write_entry-Leaves :
        (outcome : WriteOutcome) (sync_mode : SyncMode)
        → w.failed ≡ false
        → Leaves (outcome_of (write_entry outcome sync_mode i.bytes w.file))
    unfolding write_entry
    write_entry-Leaves written sync_mode ready = inl (whole-IsDurable _ ready refl)
    write_entry-Leaves unsynced full ready = inl (whole-IsDurable _ ready refl)
    write_entry-Leaves unsynced normal ready = inl (whole-IsDurable _ ready refl)
    write_entry-Leaves (torn n) sync_mode ready = elim (Bool-cases (ltb n (length i.bytes))) [
      | inl short ↦ inr (part-IsDurable _ n ready (ltb→lt _ _ short) refl refl, refl)
      | inr all ↦ inl (
          whole-IsDurable _ ready
            (ap (λ b. w.file ++ b) (take_all n i.bytes (ground (arith, all)))))
    ]

    pub append_entry-Leaves :
        (outcome : WriteOutcome)
        → Leaves (append_entry postcard crc outcome entry.tx_count entry.facts w)
    unfolding append_entry
    append_entry-Leaves outcome = elim (Bool-cases w.failed) [
      | inl failing ↦ subst Leaves (sym (ap dispatch failing)) (inr (d, refl))
      | inr ready ↦
          subst Leaves (sym (ap dispatch ready ∙ ap (appended outcome w) i.serialises))
            (write_entry-Leaves outcome w.sync_mode ready)
    ]
      where
        dispatch : Bool → WalWriter × Result (Unit {0})
        dispatch failed =
            if failed
            then (w, err (coded wal007))
            else appended outcome w (serialize_entry postcard crc entry.tx_count entry.facts)

  present_lem : (rest : List ℕ) → check_wal_header_length (wal_header ++ rest) ≡ present
  unfolding check_wal_header_length
  present_lem rest =
      let long : ltb (length (wal_header ++ rest)) wal_header_size ≡ false =
        ltb-false _ _
          (omega (arith, length-append wal_header rest, length-wal_header postcard crc)) in
      rw long refl

  validate_wal_header_lem : (rest : List ℕ) → validate_wal_header (wal_header ++ rest) ≡ ok tt
  unfolding validate_wal_header to_le from_le
  validate_wal_header_lem rest =
      rw (read_exact-append wal_header_size wal_header rest (length-wal_header postcard crc)) refl

  abbrev pub rewound : SyncMode → List ℕ → WalWriter
  rewound sync_mode bytes = record {
    file = wal_header ++ bytes;
    sync_mode = sync_mode;
    failed = false;
  }

  -- Opening the file of a log cuts the part off.
  pub open_or_create-IsDurable :
      (sync_mode : SyncMode) (w : WalWriter) (entries : List WalEntry) (d : IsDurable w entries)
      → open_or_create postcard crc sync_mode (some w.file) ≡ ok (rewound sync_mode d.bytes)
  unfolding open_or_create
  open_or_create-IsDurable sync_mode w entries d =
      let cuts : cut (wal_header_size + length d.bytes) (wal_header ++ (d.bytes ++ d.part))
          ≡ wal_header ++ d.bytes =
        ap (cut (wal_header_size + length d.bytes)) (sym (append_assoc wal_header d.bytes d.part))
        ∙ cut_lem (wal_header ++ d.bytes) d.part (wal_header_size + length d.bytes)
            (omega (arith, length-append wal_header d.bytes, length-wal_header postcard crc)) in
      ap (λ file. open_or_create postcard crc sync_mode (some file)) d.layout
      ∙ rw
          (
            present_lem (d.bytes ++ d.part),
            validate_wal_header_lem (d.bytes ++ d.part),
            scan_entries-IsLog postcard crc entries d.bytes d.part d.log d.unread,
            cuts,
          )
          refl

  pub rewound-IsDurable :
      (sync_mode : SyncMode) (w : WalWriter) (entries : List WalEntry) (d : IsDurable w entries)
      → IsDurable (rewound sync_mode d.bytes) entries
  rewound-IsDurable sync_mode w entries d = record {
    bytes = d.bytes;
    part = [];
    layout = ap (λ b. wal_header ++ b) (sym (append-nil d.bytes));
    log = d.log;
    unread = scan_entry-nil postcard crc;
    clean = λ h. refl;
  }
