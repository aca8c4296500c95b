-- ===== src/Wal/Recovery.antt =====
-- src/wal.rs: what a log holds after any appends, failures and restarts. The process may stop
-- after each call; what a call has written stays in the file.
use minigraf.Prelude.{
  ℕ, ◌^◌, ◌<◌, ◌≡◌, refl, sym, ap, ◌∙◌, inl, inr, Bool, false, none, some, List, [], ◌∷◌, ◌++◌,
  length,
}
use mathlib.Core.Path.{subst}
use minigraf.Error.{Result, ok}
use minigraf.Storage.Packed.{Serialiser}
use minigraf.Wal.Format.{wal_header_size, WalEntry}
use minigraf.Wal.Scan.{scan_entries}
use minigraf.Wal.Writer.{
  SyncMode, WriteOutcome, written, WalWriter, open_or_create, write_entry, append_entry,
  read_entries,
}
use minigraf.Wal.Entries.{IsLogged, IsEntry, entry-IsLogged}
use minigraf.Wal.Durable.{
  succeeds, IsDurable, scan_entries-IsDurable, created_lem, interrupted_lem, whole-IsDurable,
  append_entry-Leaves, rewound, open_or_create-IsDurable, rewound-IsDurable,
}

-- The entries that were appended, each with whether its append succeeded.
abbrev pub History : Type 0
History = List (WalEntry × Bool)

-- The entries stand for the history: each that succeeded is there, one that failed may be, and
-- nothing else, in their order.
pub data Recovers : History → List WalEntry → Type 0 where
  nothing : Recovers [] []
  kept :
      {h : History} {entries : List WalEntry} (entry : WalEntry) (success : Bool)
      → Recovers h entries
      → Recovers (h ++ ((entry, success) ∷ [])) (entries ++ (entry ∷ []))
  lost :
      {h : History} {entries : List WalEntry} (entry : WalEntry)
      → Recovers h entries
      → Recovers (h ++ ((entry, false) ∷ [])) entries

module _ (postcard : Serialiser) (crc : List ℕ → ℕ) where
  -- The runs of the program on one log.
  pub data Run : WalWriter → History → Type 0 where
    created :
        {w : WalWriter} (sync_mode : SyncMode)
        → open_or_create postcard crc sync_mode none ≡ ok w
        → Run w []
    interrupted :
        {w : WalWriter} (sync_mode : SyncMode) (file : List ℕ)
        → length file < wal_header_size
        → open_or_create postcard crc sync_mode (some file) ≡ ok w
        → Run w []
    append :
        {w : WalWriter} {h : History} (outcome : WriteOutcome) (entry : WalEntry)
        → IsEntry postcard entry
        → Run w h
        → Run (append_entry postcard crc outcome entry.tx_count entry.facts w).0 (
            h
            ++ ((entry, succeeds (append_entry postcard crc outcome entry.tx_count entry.facts w).1)
                ∷ []))
    reopen :
        {w next : WalWriter} {h : History} (sync_mode : SyncMode)
        → open_or_create postcard crc sync_mode (some w.file) ≡ ok next
        → Run w h
        → Run next h

ok_injective : {v w : WalWriter} → ◌≡◌ {A = Result WalWriter} (ok v) (ok w) → v ≡ w
ok_injective e = cc e

module _ (postcard : Serialiser) (crc : List ℕ → ℕ)
    (crc_u32 : (bytes : List ℕ) → crc bytes < 2 ^ 32) where
  Run-IsDurable :
      {w : WalWriter} {h : History}
      → Run postcard crc w h
      → (entries : List WalEntry) × IsDurable postcard crc w entries × Recovers h entries
  Run-IsDurable (created sync_mode e) = ([], created_lem postcard crc sync_mode _ e, nothing)
  Run-IsDurable (interrupted sync_mode file short e) =
      ([], interrupted_lem postcard crc sync_mode file _ short e, nothing)
  Run-IsDurable (append outcome entry i run) =
      let (entries, d, r) = Run-IsDurable run in
      elim (append_entry-Leaves postcard crc _ entries entry d
        (entry-IsLogged postcard crc crc_u32 entry i) outcome) [
          | inl with_entry ↦ (entries ++ (entry ∷ []), with_entry, kept entry _ r)
          | inr (without, fails) ↦ (entries, without, rw fails (lost entry r))
        ]
  Run-IsDurable (reopen sync_mode e run) =
      let (entries, d, r) = Run-IsDurable run in
      let same : rewound postcard crc sync_mode d.bytes ≡ _ =
        ok_injective (sym (open_or_create-IsDurable postcard crc sync_mode _ entries d) ∙ e) in
      (
        entries,
        subst (λ next. IsDurable postcard crc next entries) same
            (rewound-IsDurable postcard crc sync_mode _ entries d),
        r,
      )

  -- After any appends, whole, torn or unsynced, and any restarts, also after a crash during the
  -- creation of the file, the log reads back as entries that stand for what was appended: in
  -- order, each entry whose append succeeded, and of those whose append failed only some. The
  -- checksum has 32 bits, counts have 64, and facts serialise to at most `MAX_FACT_BYTES` bytes
  -- and back.
  pub read_entries-Recovers :
      (w : WalWriter) (h : History)
      → Run postcard crc w h
      → Recovers h (read_entries postcard crc w.file)
  unfolding read_entries
  read_entries-Recovers w h run =
      let (entries, d, r) = Run-IsDurable run in
      let found : (scan_entries postcard crc w.file).0 ≡ entries =
        ap (λ (x : List WalEntry × ℕ). x.0) (scan_entries-IsDurable postcard crc w entries d) in
      rw found r

  -- At any time the file of the log can be opened again: the new writer has not failed, reads as
  -- the old one, and an entry that it appends is read after those.
  pub open_or_create_again :
      (w : WalWriter) (h : History) (sync_mode : SyncMode) (entry : WalEntry)
      → Run postcard crc w h
      → IsEntry postcard entry
      → (next : WalWriter) × (open_or_create postcard crc sync_mode (some w.file) ≡ ok next)
        × (next.failed ≡ false)
        × (read_entries postcard crc next.file ≡ read_entries postcard crc w.file)
        × ((append_entry postcard crc written entry.tx_count entry.facts next).1 ≡ ok tt)
        × (read_entries postcard crc
              (append_entry postcard crc written entry.tx_count entry.facts next).0.file
            ≡ read_entries postcard crc w.file ++ (entry ∷ []))
  unfolding read_entries append_entry write_entry
  open_or_create_again w h sync_mode entry run i =
      let (entries, d, r) = Run-IsDurable run in
      let next : WalWriter = rewound postcard crc sync_mode d.bytes in
      let again : IsDurable postcard crc next entries =
        rewound-IsDurable postcard crc sync_mode w entries d in
      let logged : IsLogged postcard crc entry = entry-IsLogged postcard crc crc_u32 entry i in
      let read = λ (v : WalWriter) (es : List WalEntry) (k : IsDurable postcard crc v es).
        ap (λ (x : List WalEntry × ℕ). x.0) (scan_entries-IsDurable postcard crc v es k) in
      let more : WalWriter = record next { file = next.file ++ logged.bytes } in
      (
        next,
        open_or_create-IsDurable postcard crc sync_mode w entries d,
        refl,
        read next entries again ∙ sym (read w entries d),
        rw logged.serialises refl,
        rw logged.serialises (
            read more (entries ++ (entry ∷ []))
              (whole-IsDurable postcard crc next entries entry again logged more refl refl)
            ∙ ap (λ es. es ++ (entry ∷ [])) (sym (read w entries d))),
      )
