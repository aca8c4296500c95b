-- ===== src/Storage/Cache/Bounds.antt =====
-- The page cache stays within its capacity, and its order lists its pages (src/storage/cache.rs).
use minigraf.Prelude.{
  ℕ, suc, ◌≤◌, ◌<◌, ◌≡◌, refl, sym, ap, ◌∙◌, inl, inr, Bool, true, false, ◌||◌, List, [], ◌∷◌, ◌++◌,
  arith, leb, ◌==◌, if◌then◌else◌, lt→ltb, Bool-cases, length, keep,
}
use minigraf.Prelude.Map.{
  Map, nat_key, insert, remove, contains_key, IsMap, contains_key-insert, contains_key-remove,
  insert-IsMap, remove-IsMap,
}
use minigraf.Storage.Cache.{CacheEntry, PageCache, holds_id, evict, admit}

-- No page stands twice in the order.
abbrev pub IsOrder : List ℕ → Type 0
IsOrder [] = Unit {0}
IsOrder (id ∷ order) = (holds_id id order ≡ false) × IsOrder order

-- The order lists the cached pages, each once.
pub record IsInSync (entries : Map ℕ CacheEntry) (order : List ℕ) : Type 0 where
  pub each : (k : ℕ) → contains_key k entries ≡ holds_id k order
  pub once : IsOrder order
  pub is_map : IsMap entries

-- A cache that is in sync and holds at most as many pages as its capacity.
pub record IsCache (cache : PageCache) : Type 0 where
  pub in_sync : IsInSync cache.entries cache.order
  pub bound : length cache.entries ≤ cache.capacity

pub holds_id-append :
    (k : ℕ) (xs ys : List ℕ) → holds_id k (xs ++ ys) ≡ (holds_id k xs || holds_id k ys)
holds_id-append k [] ys = refl
holds_id-append k (x ∷ xs) ys = ap (λ b. x == k || b) (holds_id-append k xs ys) ∙ ground arith

pub IsOrder-snoc :
    (id : ℕ) (order : List ℕ)
    → holds_id id order ≡ false
    → IsOrder order
    → IsOrder (order ++ id ∷ [])
IsOrder-snoc id [] h o = (refl, tt)
IsOrder-snoc id (x ∷ order) h (new, o) = (
  ground (arith, h, new, holds_id-append x order (id ∷ [])),
  IsOrder-snoc id order (ground (arith, h)) o,
)

pub length-insert :
    (id : ℕ) (page : CacheEntry) (entries : Map ℕ CacheEntry)
    → length (insert id page entries)
      ≡ (if contains_key id entries then length entries else suc (length entries))
length-insert id page [] = refl
length-insert id page ((j, w) ∷ entries) = ground (arith, length-insert id page entries)

pub length-remove :
    (id : ℕ) (entries : Map ℕ CacheEntry) → length (remove id entries) ≤ length entries
length-remove id [] = omega arith
length-remove id ((j, w) ∷ entries) = ground (arith, length-remove id entries)

pub length-keep : {A : Type 0} (p : A → Bool) (xs : List A) → length (keep p xs) ≤ length xs
length-keep p [] = omega arith
length-keep p (x ∷ xs) = ground (arith, length-keep p xs)

empty_of_each : (entries : Map ℕ CacheEntry) → IsInSync entries [] → entries ≡ []
empty_of_each [] s = refl
empty_of_each ((j, w) ∷ entries) s = absurd (ground (arith, s.each j))

-- Dropping the least recently used page keeps the rest in sync.
IsInSync-remove :
    (id : ℕ) (entries : Map ℕ CacheEntry) (order : List ℕ)
    → IsInSync entries (id ∷ order)
    → IsInSync (remove id entries) order
IsInSync-remove id entries order s = record {
  each =
      λ k. ground (arith, contains_key-remove id k entries, s.each k, s.once.0, same_id id k order);
  once = s.once.1;
  is_map = remove-IsMap id entries s.is_map;
}
  where
    same_id : (id k : ℕ) (order : List ℕ) → id == k ≡ true → holds_id k order ≡ holds_id id order
    same_id id k order e = ap (λ x. holds_id x order) (ground (arith, e))

-- After the eviction there is room for a page, and no page is new.
pub record HasRoom (capacity : ℕ) (entries new_entries : Map ℕ CacheEntry) (new_order : List ℕ)
    : Type 0 where
  pub in_sync : IsInSync new_entries new_order
  pub room : length new_entries < capacity
  pub no_more : (k : ℕ) → contains_key k new_entries ≡ true → contains_key k entries ≡ true

HasRoom-evict :
    (capacity : ℕ) (entries : Map ℕ CacheEntry) (order : List ℕ)
    → 0 < capacity
    → IsInSync entries order
    → HasRoom capacity entries (evict capacity entries order).0 (evict capacity entries order).1
unfolding evict
HasRoom-evict capacity entries [] h s = record {
  in_sync = s;
  room = rw (empty_of_each entries s) (omega (arith, h));
  no_more = λ k e. e;
}
HasRoom-evict capacity entries (id ∷ order) h s =
    elim (Bool-cases (leb capacity (length entries))) [
      | inl full ↦
          let rest =
            HasRoom-evict capacity (remove id entries) order h
              (IsInSync-remove id entries order s) in
          rw (full, lt→ltb 0 capacity h)
            (record {
              in_sync = rest.in_sync;
              room = rest.room;
              no_more = λ k e. ground (arith, rest.no_more k e, contains_key-remove id k entries);
            })
      | inr free ↦ rw free (record { in_sync = s; room = ground (arith, free); no_more = λ k e. e })
    ]

-- A page that was not cached is admitted within the capacity.
pub IsCache-admit :
    (id : ℕ) (page : CacheEntry) (cache : PageCache)
    → 0 < cache.capacity
    → contains_key id cache.entries ≡ false
    → IsCache cache
    → IsCache (admit id page cache)
unfolding admit
IsCache-admit id page cache h new c =
    let r = HasRoom-evict cache.capacity cache.entries cache.order h c.in_sync in
    let left = evict cache.capacity cache.entries cache.order in
    let absent : contains_key id left.0 ≡ false = ground (arith, r.no_more id, new) in
    record {
      in_sync = record {
        each = λ k. ground (
          arith,
          contains_key-insert id k page left.0,
          r.in_sync.each k,
          holds_id-append k left.1 (id ∷ []),
        );
        once = IsOrder-snoc id left.1 (sym (r.in_sync.each id) ∙ absent) r.in_sync.once;
        is_map = insert-IsMap id page left.0 r.in_sync.is_map;
      };
      bound = ground (arith, length-insert id page left.0, absent, r.room);
    }
