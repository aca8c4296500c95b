-- ===== src/Storage/Cache/Coherent.antt =====
-- What the page cache answers and writes back (src/storage/cache.rs).
use minigraf.Prelude.{
  ℕ, ◌≡◌, refl, sym, ap, ◌∙◌, inl, inr, false, ◌&&◌, some, List, [], ◌∷◌, arith, ltb, leb, ◌==◌,
  if◌then◌else◌, Bool-cases, Option-cases, length,
}
use minigraf.Prelude.Map.{Map, nat_key, lookup, remove, lookup-insert, lookup-remove}
use minigraf.Error.{ok, err, Failure}
use minigraf.Storage.Backend.{StorageBackend}
use minigraf.Storage.Cache.{CacheEntry, PageCache, evict, admit, cached, install, get_or_load}

-- Every cached page has the bytes that the backend has.
abbrev pub IsCurrent : {S : Type 0} → StorageBackend S → S → PageCache → Type 0
IsCurrent backend s cache =
    (k : ℕ) (page : CacheEntry)
    → lookup k cache.entries ≡ some page
    → backend.read_page k s ≡ ok page.bytes

lookup-evict :
    (capacity k : ℕ) (page : CacheEntry) (entries : Map ℕ CacheEntry) (order : List ℕ)
    → lookup k (evict capacity entries order).0 ≡ some page
    → lookup k entries ≡ some page
unfolding evict
lookup-evict capacity k page entries [] e = e
lookup-evict capacity k page entries (id ∷ order) e =
    elim (Bool-cases (leb capacity (length entries) && ltb 0 capacity)) [
      | inl full ↦
          let deeper : lookup k (evict capacity (remove id entries) order).0 ≡ some page =
            sym (
              ap
                (λ b.
                  lookup k
                    (if b
                      then evict capacity (remove id entries) order
                      else (entries, id ∷ order)).0)
                full)
            ∙ e in
          ground (
            arith,
            lookup-remove id k entries,
            lookup-evict capacity k page (remove id entries) order deeper,
          )
      | inr room ↦
          sym (
            ap
              (λ b.
                lookup k
                  (if b then evict capacity (remove id entries) order else (entries, id ∷ order)).0)
              room)
          ∙ e
    ]

module _ {S : Type 0} (backend : StorageBackend S) where
  pub IsCurrent-admit :
      (id : ℕ) (page : CacheEntry) (s : S) (cache : PageCache)
      → backend.read_page id s ≡ ok page.bytes
      → IsCurrent backend s cache
      → IsCurrent backend s (admit id page cache)
  unfolding admit
  IsCurrent-admit id page s cache read c k found e =
      let left = (evict cache.capacity cache.entries cache.order).0 in
      elim (Bool-cases (id == k)) [
        | inl same ↦
            let ik : id ≡ k = ground (arith, same) in
            let there : page ≡ found = ground (arith, same, lookup-insert id k page left, e) in
            rw (sym ik, sym there) read
        | inr differ ↦ c k found (
            lookup-evict cache.capacity k found cache.entries cache.order
              (ground (arith, differ, lookup-insert id k page left, e)))
      ]

  -- A load through a current cache answers what the backend has, cached or not and whatever the
  -- capacity, and leaves the cache current; a page that the backend cannot read is not answered.
  pub get_or_load_lem :
      (page_id : ℕ) (s : S) (cache : PageCache)
      → IsCurrent backend s cache
      → (((e : Failure)
          → backend.read_page page_id s ≡ err e
          → get_or_load page_id backend s cache ≡ err e))
        × ((bytes : List ℕ)
            → backend.read_page page_id s ≡ ok bytes
            → (after : PageCache) × (get_or_load page_id backend s cache ≡ ok (bytes, after))
              × IsCurrent backend s after)
  unfolding get_or_load cached install
  get_or_load_lem page_id s cache c = elim (Bool-cases (cache.capacity == 0)) [
    | inl off ↦ (λ e failed. rw (off, failed) refl, λ bytes read. (cache, rw (off, read) refl, c))
    | inr on ↦ elim (Option-cases (lookup page_id cache.entries)) [
      | inl absent ↦ (
        λ e failed. rw (on, absent, failed) refl,
        λ bytes read.
            let page : CacheEntry = record { bytes = bytes; dirty = false } in
            (
              admit page_id page cache,
              rw (on, absent, read) (rw absent refl),
              IsCurrent-admit page_id page s cache read c,
            ),
      )
      | inr (page, there) ↦
          let current = c page_id page there in
          (
            λ e failed. let never = sym current ∙ failed in cc,
            λ bytes read.
                let same : page.bytes ≡ bytes = ok_injective (sym current ∙ read) in
                (cache, rw (on, there) (ap (λ b. ok (b, cache)) same), c),
          )
    ]
  ]
    where
      ok_injective : {a b : List ℕ} → ok a ≡ ok b → a ≡ b
      ok_injective e = cc
