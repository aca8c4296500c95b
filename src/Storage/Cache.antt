-- ===== src/Storage/Cache.antt =====
-- `PageCache` of src/storage/cache.rs: the pages in memory, least recently used first.
pub mod Bounds
pub mod Order
pub mod Invalidate
pub mod Coherent
pub mod WriteBack
mod Tests
use minigraf.Error.{Result, ok, err, ◌>>=◌, ◌>>◌}
use minigraf.Prelude.{
  ℕ, Bool, true, false, not, ◌&&◌, Option, none, some, List, [], ◌∷◌, ◌++◌, ltb, leb, ◌==◌,
  if◌then◌else◌, length, keep, any,
}
use minigraf.Prelude.Map.{Map, nat_key, lookup, insert, remove, contains_key}
use minigraf.Storage.Backend.{StorageBackend}

-- `CacheEntry`
pub record CacheEntry : Type 0 where
  pub bytes : List ℕ
  pub dirty : Bool

-- `CacheInner`
pub record PageCache : Type 0 where
  pub entries : Map ℕ CacheEntry
  pub order : List ℕ
  pub capacity : ℕ

-- `PageCache::new`
abbrev pub new : ℕ → PageCache
new capacity = record { entries = []; order = []; capacity = capacity }

-- `order.remove(position of page_id)`, if it is there.
unfoldable pub take_out : ℕ → List ℕ → List ℕ
take_out page_id [] = []
take_out page_id (id ∷ order) =
    let rest = take_out page_id order in if id == page_id then order else id ∷ rest

-- `order.back() == Some(&page_id)`
unfoldable pub is_last : ℕ → List ℕ → Bool
is_last page_id [] = false
is_last page_id (id ∷ []) = id == page_id
is_last page_id (id ∷ next ∷ order) = is_last page_id (next ∷ order)

abbrev pub holds_id : ℕ → List ℕ → Bool
holds_id page_id order = any (λ id. id == page_id) order

-- `CacheInner::touch`, on the order.
unfoldable pub touch : ℕ → List ℕ → List ℕ
touch page_id order =
    if holds_id page_id order
    then (if is_last page_id order then order else take_out page_id order ++ page_id ∷ [])
    else order ++ page_id ∷ []

-- The loop that evicts the least recently used pages until there is room.
unfoldable pub evict : ℕ → Map ℕ CacheEntry → List ℕ → Map ℕ CacheEntry × List ℕ
evict capacity entries [] = (entries, [])
evict capacity entries (id ∷ order) =
    let fewer = evict capacity (remove id entries) order in
    if leb capacity (length entries) && ltb 0 capacity then fewer else (entries, id ∷ order)

-- A new page, once there is room for it.
unfoldable pub admit : ℕ → CacheEntry → PageCache → PageCache
admit page_id page cache =
    let room = evict cache.capacity cache.entries cache.order in
    record cache { entries = insert page_id page room.0; order = room.1 ++ page_id ∷ [] }

-- The first step of `get_or_load`, under the read lock: the page, if it is cached.
unfoldable pub cached : ℕ → PageCache → Option (List ℕ)
cached page_id cache = elim (lookup page_id cache.entries) [
  | none ↦ none
  | some page ↦ some page.bytes
]

-- The outcome of the double check of the second step.
abbrev pub installed : ℕ → List ℕ → PageCache → Option CacheEntry → List ℕ × PageCache
installed page_id bytes cache none =
    (bytes, admit page_id (record { bytes = bytes; dirty = false }) cache)
installed page_id bytes cache (some page) = (page.bytes, cache)

-- Its second step, under the write lock, with the page that was read in between: a page that
-- another caller has cached meanwhile comes first.
unfoldable pub install : ℕ → List ℕ → PageCache → List ℕ × PageCache
install page_id bytes cache = installed page_id bytes cache (lookup page_id cache.entries)

-- `PageCache::get_or_load` with no other caller in between.
unfoldable pub get_or_load :
    {S : Type 0} → ℕ → StorageBackend S → S → PageCache → Result (List ℕ × PageCache)
get_or_load page_id backend s cache =
    if cache.capacity == 0
    then (backend.read_page page_id s >>= λ bytes. ok (bytes, cache))
    else elim (cached page_id cache) [
      | some bytes ↦ ok (bytes, cache)
      | none ↦ (backend.read_page page_id s >>= λ bytes. ok (install page_id bytes cache))
    ]

-- `PageCache::put_dirty`
unfoldable pub put_dirty : ℕ → List ℕ → PageCache → PageCache
put_dirty page_id bytes cache =
    if cache.capacity == 0
    then cache
    else if contains_key page_id cache.entries
    then record cache {
      entries = insert page_id (record { bytes = bytes; dirty = true }) cache.entries;
      order = touch page_id cache.order;
    }
    else admit page_id (record { bytes = bytes; dirty = true }) cache

-- The state of a flush: its outcome, the entries and the backend.
abbrev pub Flushed : Type 0 → Type 0
Flushed S = Result (Unit {0}) × (Map ℕ CacheEntry × S)

abbrev pub with_entry : {S : Type 0} → ℕ × CacheEntry → Flushed S → Flushed S
with_entry entry rest = (rest.0, (entry ∷ (rest.1).0, (rest.1).1))

-- What follows the write of a dirty page: a failure stops the flush.
abbrev pub after_write :
    {S : Type 0} → (S → Flushed S) → ℕ → CacheEntry → Map ℕ CacheEntry → S → Result S → Flushed S
after_write others id page entries s (err e) = (err e, ((id, page) ∷ entries, s))
after_write others id page entries s (ok t) =
    with_entry (id, record page { dirty = false }) (others t)

-- The loop of `flush`.
unfoldable pub flush_entries : {S : Type 0} → StorageBackend S → Map ℕ CacheEntry → S → Flushed S
flush_entries backend [] s = (ok tt, ([], s))
flush_entries backend ((id, page) ∷ entries) s =
    if page.dirty
    then after_write (λ t. flush_entries backend entries t) id page entries s
        (backend.write_page id page.bytes s)
    else with_entry (id, page) (flush_entries backend entries s)

-- `PageCache::flush`
unfoldable pub flush :
    {S : Type 0} → StorageBackend S → S → PageCache → Result (Unit {0}) × (PageCache × S)
flush backend s cache =
    let written = flush_entries backend cache.entries s in
    (written.0, (record cache { entries = (written.1).0 }, (written.1).1))

-- `PageCache::invalidate`
unfoldable pub invalidate : ℕ → PageCache → PageCache
invalidate page_id cache = record cache {
  entries = remove page_id cache.entries;
  order = keep (λ id. not (id == page_id)) cache.order;
}

-- `PageCache::invalidate_from`
unfoldable pub invalidate_from : ℕ → PageCache → PageCache
invalidate_from from_page cache = record cache {
  entries = keep (λ entry. ltb entry.0 from_page) cache.entries;
  order = keep (λ id. ltb id from_page) cache.order;
}
