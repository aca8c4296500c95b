-- ===== src/Storage/Cache/Tests.antt =====
-- The cache theorems on a cache of two pages over the in-memory backend.
use minigraf.Error.{Failure, ok, err}
use minigraf.Prelude.{
  ℕ, ◌≡◌, refl, inl, inr, true, false, some, List, [], ◌∷◌, arith, ◌==◌, Bool-cases, replicate,
}
use minigraf.Prelude.Map.{lookup, nat_key}
use minigraf.Storage.Header.{page_size}
use minigraf.Storage.Backend.{
  MemoryBackend, memory_backend, memory_write_page, memory_read_page, memory_backend-IsBackend,
}
use minigraf.Storage.Cache.{CacheEntry, PageCache, get_or_load, put_dirty, flush, flush_entries}
use minigraf.Storage.Cache.Bounds.{IsCache}
use minigraf.Storage.Cache.Order.{put_dirty-IsCache}
use minigraf.Storage.Cache.Coherent.{IsCurrent, get_or_load_lem}
use minigraf.Storage.Cache.WriteBack.{read_flushed, read-flush, put_dirty-IsCurrent}

abbrev blank : List ℕ
blank = replicate page_size 0

abbrev two_pages : PageCache
two_pages = record {
  entries =
      (3, record { bytes = blank; dirty = false })
      ∷ (5, record { bytes = blank; dirty = true })
      ∷ [];
  order = 5 ∷ 3 ∷ [];
  capacity = 2;
}

abbrev stored : MemoryBackend
stored = (3, blank) ∷ (5, blank) ∷ []

two_pages-IsCache : IsCache two_pages
two_pages-IsCache = record {
  in_sync = record {
    each = λ k. ground arith;
    once = (refl, (refl, tt));
    is_map = (refl, (refl, tt));
  };
  bound = omega arith;
}

pages_of :
    (b : List ℕ) (k : ℕ) (page : CacheEntry)
    → lookup k
        ((3, record { bytes = b; dirty = false }) ∷ (5, record { bytes = b; dirty = true }) ∷ [])
      ≡ some page
    → memory_read_page k ((3, b) ∷ (5, b) ∷ []) ≡ ok page.bytes
unfolding memory_read_page
pages_of b k page e = elim (Bool-cases (3 == k)) [
  | inl three ↦ rw three (ground (arith, e, three))
  | inr other ↦ elim (Bool-cases (5 == k)) [
    | inl five ↦ rw (other, five) (ground (arith, e, other, five))
    | inr none_left ↦ absurd (ground (arith, e, other, none_left))
  ]
]

two_pages-IsCurrent : IsCurrent memory_backend stored two_pages
two_pages-IsCurrent k page e = pages_of blank k page e

put_dirty-IsCache_example : IsCache (put_dirty 7 blank two_pages)
put_dirty-IsCache_example = put_dirty-IsCache 7 blank two_pages two_pages-IsCache

get_or_load_lem_example :
    ((e : Failure)
      → memory_read_page 3 stored ≡ err e
      → get_or_load 3 memory_backend stored two_pages ≡ err e)
    × ((bytes : List ℕ)
        → memory_read_page 3 stored ≡ ok bytes
        → (after : PageCache) × (get_or_load 3 memory_backend stored two_pages ≡ ok (bytes, after))
          × IsCurrent memory_backend stored after)
get_or_load_lem_example = get_or_load_lem memory_backend 3 stored two_pages two_pages-IsCurrent

two_pages_flushed : (flush memory_backend stored two_pages).0 ≡ ok tt
unfolding flush flush_entries memory_write_page
two_pages_flushed = refl

read-flush_example :
    memory_read_page 5 ((flush memory_backend stored two_pages).1).1
    ≡ read_flushed (some (record { bytes = blank; dirty = true })) (memory_read_page 5 stored)
read-flush_example =
    read-flush memory_backend memory_backend-IsBackend 5 stored two_pages two_pages-IsCache
      two_pages_flushed

written : memory_write_page 7 blank stored ≡ ok ((3, blank) ∷ (5, blank) ∷ (7, blank) ∷ [])
unfolding memory_write_page
written = refl

put_dirty-IsCurrent_example :
    IsCurrent memory_backend
      ((3, blank) ∷ (5, blank) ∷ (7, blank) ∷ [])
      (put_dirty 7 blank two_pages)
put_dirty-IsCurrent_example =
    put_dirty-IsCurrent memory_backend memory_backend-IsBackend 7 blank stored
      ((3, blank) ∷ (5, blank) ∷ (7, blank) ∷ []) two_pages two_pages-IsCache two_pages-IsCurrent
      written
