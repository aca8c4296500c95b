-- ===== src/Storage/Cache/Order.antt =====
-- Loads and writes keep the page cache in sync and within its capacity (src/storage/cache.rs).
use minigraf.Prelude.{
  ℕ, ◌<◌, ◌≡◌, refl, sym, ap, ◌∙◌, inl, inr, true, false, not, ◌&&◌, ◌||◌, Option, none, some, List,
  [], ◌∷◌, arith, ◌==◌, Bool-cases,
}
use minigraf.Prelude.Map.{
  Map, nat_key, lookup, insert, contains_key, contains_key-insert, insert-IsMap,
}
use minigraf.Storage.Cache.{
  CacheEntry, PageCache, holds_id, take_out, is_last, touch, install, installed, put_dirty,
}
use minigraf.Storage.Cache.Bounds.{
  IsOrder, IsCache, IsCache-admit, IsOrder-snoc, holds_id-append, length-insert,
}

contains_key_of_none :
    (id : ℕ) (entries : Map ℕ CacheEntry)
    → lookup id entries ≡ none
    → contains_key id entries ≡ false
contains_key_of_none id [] e = refl
contains_key_of_none id ((j, w) ∷ entries) e = ground (arith, contains_key_of_none id entries)

-- The second step of a load keeps the cache in order, whatever other callers did after the first.
pub install-IsCache :
    (page_id : ℕ) (bytes : List ℕ) (cache : PageCache)
    → 0 < cache.capacity
    → IsCache cache
    → IsCache (install page_id bytes cache).1
unfolding install
install-IsCache page_id bytes cache h c = by_entry (lookup page_id cache.entries) refl
  where
    by_entry :
        (o : Option CacheEntry)
        → lookup page_id cache.entries ≡ o
        → IsCache (installed page_id bytes cache o).1
    by_entry none e =
        IsCache-admit page_id (record { bytes = bytes; dirty = false }) cache h
          (contains_key_of_none page_id cache.entries e) c
    by_entry (some page) e = c

first_away :
    (page_id k id : ℕ) (order : List ℕ)
    → holds_id id order ≡ false
    → id ≡ page_id
    → holds_id k order ≡ (not (page_id == k) && (id == k || holds_id k order))
first_away page_id k id order new e = elim (Bool-cases (page_id == k)) [
  | inl same ↦ let there : id ≡ k = ground (arith, same, e) in rw (same, sym there, new) refl
  | inr differ ↦ ground (arith, differ, e)
]

holds_id-take_out :
    (page_id k : ℕ) (order : List ℕ)
    → IsOrder order
    → holds_id k (take_out page_id order) ≡ (not (page_id == k) && holds_id k order)
unfolding take_out
holds_id-take_out page_id k [] o = ground arith
holds_id-take_out page_id k (id ∷ order) (new, o) = elim (Bool-cases (id == page_id)) [
  | inl same ↦ rw same (first_away page_id k id order new (ground (arith, same)))
  | inr differ ↦ rw differ (ground (arith, holds_id-take_out page_id k order o))
]

IsOrder-take_out : (page_id : ℕ) (order : List ℕ) → IsOrder order → IsOrder (take_out page_id order)
unfolding take_out
IsOrder-take_out page_id [] o = tt
IsOrder-take_out page_id (id ∷ order) (new, o) = elim (Bool-cases (id == page_id)) [
  | inl same ↦ rw same o
  | inr differ ↦
      rw differ (
        holds_id-take_out page_id id order o ∙ ground (arith, new),
        IsOrder-take_out page_id order o,
      )
]

holds_id-touch :
    (page_id k : ℕ) (order : List ℕ)
    → IsOrder order
    → holds_id page_id order ≡ true
    → holds_id k (touch page_id order) ≡ holds_id k order
unfolding touch
holds_id-touch page_id k order o there = elim (Bool-cases (is_last page_id order)) [
  | inl last ↦ rw (there, last) refl
  | inr earlier ↦
      rw (there, earlier)
        (holds_id-append k (take_out page_id order) (page_id ∷ [])
          ∙ elim (Bool-cases (page_id == k)) [
            | inl same ↦
                let pk : page_id ≡ k = ground (arith, same) in
                let listed : holds_id k order ≡ true =
                  sym (ap (λ x. holds_id x order) pk) ∙ there in
                rw (same, listed) (ground arith)
            | inr differ ↦ ground (arith, differ, holds_id-take_out page_id k order o)
          ])
]

IsOrder-touch :
    (page_id : ℕ) (order : List ℕ)
    → IsOrder order
    → holds_id page_id order ≡ true
    → IsOrder (touch page_id order)
unfolding touch
IsOrder-touch page_id order o there = elim (Bool-cases (is_last page_id order)) [
  | inl last ↦ rw (there, last) o
  | inr earlier ↦
      rw (there, earlier)
        (IsOrder-snoc page_id (take_out page_id order)
          (holds_id-take_out page_id page_id order o ∙ ground arith)
          (IsOrder-take_out page_id order o))
]

IsCache-update :
    (page_id : ℕ) (page : CacheEntry) (cache : PageCache)
    → contains_key page_id cache.entries ≡ true
    → IsCache cache
    → IsCache (record cache {
      entries = insert page_id page cache.entries;
      order = touch page_id cache.order;
    })
IsCache-update page_id page cache there c =
    let s = c.in_sync in
    let listed : holds_id page_id cache.order ≡ true = sym (s.each page_id) ∙ there in
    record {
      in_sync = record {
        each = λ k.
            contains_key-insert page_id k page cache.entries
            ∙ same_key k there
            ∙ s.each k
            ∙ sym (holds_id-touch page_id k cache.order s.once listed);
        once = IsOrder-touch page_id cache.order s.once listed;
        is_map = insert-IsMap page_id page cache.entries s.is_map;
      };
      bound = ground (arith, length-insert page_id page cache.entries, there, c.bound);
    }
  where
    same_key :
        (k : ℕ)
        → contains_key page_id cache.entries ≡ true
        → (page_id == k || contains_key k cache.entries) ≡ contains_key k cache.entries
    same_key k there = elim (Bool-cases (page_id == k)) [
      | inl same ↦
          let pk : page_id ≡ k = ground (arith, same) in
          rw same (sym (sym (ap (λ x. contains_key x cache.entries) pk) ∙ there))
      | inr differ ↦ rw differ refl
    ]

-- `put_dirty` keeps the cache in order: at most its capacity of pages, and the order lists them.
pub put_dirty-IsCache :
    (page_id : ℕ) (bytes : List ℕ) (cache : PageCache)
    → IsCache cache
    → IsCache (put_dirty page_id bytes cache)
unfolding put_dirty
put_dirty-IsCache page_id bytes cache c = elim (Bool-cases (cache.capacity == 0)) [
  | inl off ↦ rw off c
  | inr on ↦ elim (Bool-cases (contains_key page_id cache.entries)) [
    | inl there ↦ rw (on, there) (IsCache-update page_id _ cache there c)
    | inr new ↦ rw (on, new) (IsCache-admit page_id _ cache (ground (arith, on)) new c)
  ]
]
