-- ===== src/Storage/Cache/Invalidate.antt =====
-- Invalidation keeps the page cache in order (src/storage/cache.rs).
use minigraf.Prelude.{
  ℕ, ◌≡◌, sym, ap, ◌∙◌, inl, inr, Bool, not, ◌&&◌, List, [], ◌∷◌, arith, ltb, ◌==◌, Bool-cases,
  keep,
}
use minigraf.Prelude.Map.{Map, nat_key, contains_key, IsMap, contains_key-remove, remove-IsMap}
use minigraf.Storage.Cache.{CacheEntry, PageCache, holds_id, invalidate, invalidate_from}
use minigraf.Storage.Cache.Bounds.{IsOrder, IsCache, length-remove, length-keep}

holds_id-keep :
    (p : ℕ → Bool) (k : ℕ) (order : List ℕ) → holds_id k (keep p order) ≡ (p k && holds_id k order)
holds_id-keep p k [] = ground arith
holds_id-keep p k (id ∷ order) = elim (Bool-cases (id == k)) [
  | inl same ↦
      let ik : id ≡ k = ground (arith, same) in rw ik (ground (arith, holds_id-keep p k order))
  | inr differ ↦ ground (arith, differ, holds_id-keep p k order)
]

IsOrder-keep : (p : ℕ → Bool) (order : List ℕ) → IsOrder order → IsOrder (keep p order)
IsOrder-keep p [] o = tt
IsOrder-keep p (id ∷ order) (new, o) = elim (Bool-cases (p id)) [
  | inl kept ↦ rw kept (holds_id-keep p id order ∙ ground (arith, new), IsOrder-keep p order o)
  | inr dropped ↦ rw dropped (IsOrder-keep p order o)
]

contains_key-keep :
    (p : ℕ → Bool) (k : ℕ) (entries : Map ℕ CacheEntry)
    → contains_key k (keep (λ entry. p entry.0) entries) ≡ (p k && contains_key k entries)
contains_key-keep p k [] = ground arith
contains_key-keep p k ((id, page) ∷ entries) = elim (Bool-cases (id == k)) [
  | inl same ↦
      let ik : id ≡ k = ground (arith, same) in
      rw ik (ground (arith, contains_key-keep p k entries))
  | inr differ ↦ ground (arith, differ, contains_key-keep p k entries)
]

keep-IsMap :
    (p : ℕ → Bool) (entries : Map ℕ CacheEntry)
    → IsMap entries
    → IsMap (keep (λ entry. p entry.0) entries)
keep-IsMap p [] m = tt
keep-IsMap p ((id, page) ∷ entries) (new, m) = elim (Bool-cases (p id)) [
  | inl kept ↦
      rw kept (contains_key-keep p id entries ∙ ground (arith, new), keep-IsMap p entries m)
  | inr dropped ↦ rw dropped (keep-IsMap p entries m)
]

-- After `invalidate_from` the cache is in order, and holds exactly its pages below the bound.
pub invalidate_from-IsCache :
    (from_page : ℕ) (cache : PageCache)
    → IsCache cache
    → IsCache (invalidate_from from_page cache)
      × ((k : ℕ)
          → contains_key k (invalidate_from from_page cache).entries
            ≡ (ltb k from_page && contains_key k cache.entries))
unfolding invalidate_from
invalidate_from-IsCache from_page cache c =
    let p = λ (id : ℕ). ltb id from_page in
    (
      record {
        in_sync = record {
          each = λ k.
              contains_key-keep p k cache.entries
              ∙ ap (λ b. p k && b) (c.in_sync.each k)
              ∙ sym (holds_id-keep p k cache.order);
          once = IsOrder-keep p cache.order c.in_sync.once;
          is_map = keep-IsMap p cache.entries c.in_sync.is_map;
        };
        bound =
            omega
              (arith, length-keep (λ (entry : ℕ × CacheEntry). p entry.0) cache.entries, c.bound);
      },
      λ k. contains_key-keep p k cache.entries,
    )

-- After `invalidate` the cache is in order, and holds exactly its other pages.
pub invalidate-IsCache :
    (page_id : ℕ) (cache : PageCache)
    → IsCache cache
    → IsCache (invalidate page_id cache)
      × ((k : ℕ)
          → contains_key k (invalidate page_id cache).entries
            ≡ (not (page_id == k) && contains_key k cache.entries))
unfolding invalidate
invalidate-IsCache page_id cache c =
    let p = λ (id : ℕ). not (id == page_id) in
    (
      record {
        in_sync = record {
          each = λ k. ground (
            arith,
            contains_key-remove page_id k cache.entries,
            c.in_sync.each k,
            holds_id-keep p k cache.order,
          );
          once = IsOrder-keep p cache.order c.in_sync.once;
          is_map = remove-IsMap page_id cache.entries c.in_sync.is_map;
        };
        bound = omega (arith, length-remove page_id cache.entries, c.bound);
      },
      λ k. contains_key-remove page_id k cache.entries,
    )
