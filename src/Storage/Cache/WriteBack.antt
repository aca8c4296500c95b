-- ===== src/Storage/Cache/WriteBack.antt =====
-- What the page cache writes, and what it holds after a write (src/storage/cache.rs).
use minigraf.Error.{Result, ok, err}
use minigraf.Prelude.{
  ℕ, ◌≤◌, ◌≡◌, refl, sym, ap, ◌∙◌, inl, inr, Bool, true, false, Option, none, some, List, [], ◌∷◌,
  arith, ◌==◌, if◌then◌else◌, ==_refl, Bool-cases, length,
}
use minigraf.Prelude.Map.{
  Map, nat_key, lookup, insert, contains_key, IsMap, contains_key_of_lookup, lookup-insert,
  lookup_absent,
}
use minigraf.Storage.Backend.{StorageBackend, IsBackend}
use minigraf.Storage.Cache.{
  CacheEntry, PageCache, put_dirty, flush, flush_entries, Flushed, with_entry, after_write, touch,
}
use minigraf.Storage.Cache.Bounds.{IsCache}
use minigraf.Storage.Cache.Coherent.{IsCurrent, IsCurrent-admit}

-- What is read after a flush: the page of a dirty entry, and otherwise what was there.
abbrev pub read_flushed : Option CacheEntry → Result (List ℕ) → Result (List ℕ)
read_flushed none old = old
read_flushed (some page) old = if page.dirty then ok page.bytes else old

module _ {S : Type 0} (backend : StorageBackend S) (lawful : IsBackend backend) where
  -- What the flush of one more entry owes.
  abbrev Owes : ℕ → Result (List ℕ) → Flushed S → Type 0
  Owes k expected outcome = outcome.0 ≡ ok tt → backend.read_page k (outcome.1).1 ≡ expected

  Owes-write :
      (k id : ℕ) (page : CacheEntry) (entries : Map ℕ CacheEntry) (s : S) (w : Result S)
      → ((t : S)
          → Owes k
              (read_flushed (lookup k entries) (backend.read_page k t))
              (flush_entries backend entries t))
      → contains_key id entries ≡ false
      → backend.write_page id page.bytes s ≡ w
      → Owes k
          (if id == k
            then ok page.bytes
            else read_flushed (lookup k entries) (backend.read_page k s))
          (after_write (λ t. flush_entries backend entries t) id page entries s w)
  Owes-write k id page entries s (err failure) others new wrote e = cc
  Owes-write k id page entries s (ok t) others new wrote e =
      others t e
      ∙ ap (read_flushed (lookup k entries)) (lawful.read-write_page id k page.bytes s t wrote)
      ∙ elim (Bool-cases (id == k)) [
        | inl same ↦
            let ik : id ≡ k = ground (arith, same) in
            rw (same, lookup_absent k entries (ap (λ x. contains_key x entries) (sym ik) ∙ new))
              refl
        | inr differ ↦ rw differ refl
      ]

  Owes-entry :
      (k id : ℕ) (page : CacheEntry) (entries : Map ℕ CacheEntry) (s : S) (d : Bool)
      → ((t : S)
          → Owes k
              (read_flushed (lookup k entries) (backend.read_page k t))
              (flush_entries backend entries t))
      → contains_key id entries ≡ false
      → Owes k
          (if id == k
            then (if d then ok page.bytes else backend.read_page k s)
            else read_flushed (lookup k entries) (backend.read_page k s))
          (if d
            then after_write
                (λ t. flush_entries backend entries t)
                id
                page
                entries
                s
                (backend.write_page id page.bytes s)
            else with_entry (id, page) (flush_entries backend entries s))
  Owes-entry k id page entries s true others new e =
      Owes-write k id page entries s (backend.write_page id page.bytes s) others new refl e
  Owes-entry k id page entries s false others new e = others s e ∙ elim (Bool-cases (id == k)) [
    | inl same ↦
        let ik : id ≡ k = ground (arith, same) in
        rw (same, lookup_absent k entries (ap (λ x. contains_key x entries) (sym ik) ∙ new)) refl
    | inr differ ↦ rw differ refl
  ]

  read-flush_entries :
      (k : ℕ) (entries : Map ℕ CacheEntry) (s : S)
      → IsMap entries
      → Owes k
          (read_flushed (lookup k entries) (backend.read_page k s))
          (flush_entries backend entries s)
  unfolding flush_entries
  read-flush_entries k [] s m e = refl
  read-flush_entries k ((id, page) ∷ entries) s (new, m) e =
      Owes-entry k id page entries s page.dirty (λ t. read-flush_entries k entries t m) new e
      ∙ elim (Bool-cases (id == k)) [ inl same ↦ rw same refl | inr differ ↦ rw differ refl ]

  -- After a flush that succeeds, the backend reads every page that was dirty as the cache had it, and
  -- every other page as before.
  pub read-flush :
      (k : ℕ) (s : S) (cache : PageCache)
      → IsCache cache
      → (flush backend s cache).0 ≡ ok tt
      → backend.read_page k ((flush backend s cache).1).1
        ≡ read_flushed (lookup k cache.entries) (backend.read_page k s)
  unfolding flush
  read-flush k s cache c e = read-flush_entries k cache.entries s c.in_sync.is_map e

  IsCurrent-write :
      (page_id : ℕ) (bytes : List ℕ) (s t : S) (cache : PageCache) (k : ℕ) (page : CacheEntry)
      → backend.write_page page_id bytes s ≡ ok t
      → page_id == k ≡ false
      → backend.read_page k s ≡ ok page.bytes
      → backend.read_page k t ≡ ok page.bytes
  IsCurrent-write page_id bytes s t cache k page wrote differ old =
      lawful.read-write_page page_id k bytes s t wrote ∙ rw differ old

  IsCurrent-update :
      (page_id : ℕ) (bytes : List ℕ) (s t : S) (cache : PageCache) (order : List ℕ)
      → backend.write_page page_id bytes s ≡ ok t
      → IsCurrent backend s cache
      → IsCurrent backend t (record cache {
        entries = insert page_id (record { bytes = bytes; dirty = true }) cache.entries;
        order = order;
      })
  IsCurrent-update page_id bytes s t cache order wrote c k page e =
      let new : CacheEntry = record { bytes = bytes; dirty = true } in
      let here : (if page_id == k then some new else lookup k cache.entries) ≡ some page =
        sym (lookup-insert page_id k new cache.entries) ∙ e in
      elim (Bool-cases (page_id == k)) [
        | inl same ↦
            let found : some new ≡ some page =
              sym (ap (λ b. if b then some new else lookup k cache.entries) same) ∙ here in
            let there : new ≡ page = cc in
            lawful.read-write_page page_id k bytes s t wrote
            ∙ rw same (ap (λ (p : CacheEntry). ok p.bytes) there)
        | inr differ ↦ IsCurrent-write page_id bytes s t cache k page wrote differ (
            c k page (sym (ap (λ b. if b then some new else lookup k cache.entries) differ) ∙ here))
      ]

  nothing_cached :
      (k : ℕ) (page : CacheEntry) (entries : Map ℕ CacheEntry)
      → length entries ≤ 0
      → lookup k entries ≡ some page
      → ⊥
  nothing_cached k page [] h e = cc
  nothing_cached k page (entry ∷ entries) h e = absurd (omega arith)

  -- A page that is written to the backend and then put in the cache, in this order, leaves a current
  -- cache current.
  pub put_dirty-IsCurrent :
      (page_id : ℕ) (bytes : List ℕ) (s t : S) (cache : PageCache)
      → IsCache cache
      → IsCurrent backend s cache
      → backend.write_page page_id bytes s ≡ ok t
      → IsCurrent backend t (put_dirty page_id bytes cache)
  unfolding put_dirty
  put_dirty-IsCurrent page_id bytes s t cache sound c wrote =
      elim (Bool-cases (cache.capacity == 0)) [
        | inl off ↦ rw off (λ k page e.
            absurd (nothing_cached k page cache.entries (ground (arith, off, sound.bound)) e))
        | inr on ↦ elim (Bool-cases (contains_key page_id cache.entries)) [
          | inl there ↦
              rw (on, there)
                (IsCurrent-update page_id bytes s t cache (touch page_id cache.order) wrote c)
          | inr new ↦
              rw (on, new)
                (IsCurrent-admit backend page_id (record { bytes = bytes; dirty = true }) t cache
                  (lawful.read-write_page page_id page_id bytes s t wrote
                    ∙ rw (==_refl page_id) refl)
                  (λ k page e. elim (Bool-cases (page_id == k)) [
                    | inl same ↦
                        let present = contains_key_of_lookup k cache.entries page e in
                        let ik : page_id ≡ k = ground (arith, same) in
                        absurd
                          (ground (arith, present, new, ap (λ x. contains_key x cache.entries) ik))
                    | inr differ ↦
                        IsCurrent-write page_id bytes s t cache k page wrote differ (c k page e)
                  ]))
        ]
      ]
