-- ===== src/Pipeline/Dedup.antt =====
-- internal/pipeline/dedup.go: the LRU cache behind the dedup middleware, as a linked list of
-- elements (front first) and a map from a hash to the element that holds it. An element has an
-- identity, as a `*list.Element` has its address.
pub mod Spec
pub mod Index
pub mod Coherent
pub mod Refine
pub mod Laws
pub mod Runs
mod Tests
use nephtys.Prelude.{
  ℕ, zero, suc, ◌+◌, ◌-◌, Bool, true, false, Option, none, some, List, [], ◌∷◌, ltb, leb, ◌==◌,
  if◌then◌else◌,
}
use nephtys.Prelude.Lists.{length}

pub record Element : Type 0 where
  pub address : ℕ
  pub hash : ℕ
  pub ts : ℕ

pub record Lru : Type 0 where
  pub elements : List Element
  pub cache : List (ℕ × ℕ)  -- hash, and the address of its element
  pub next_address : ℕ
  pub evictions : ℕ
  pub size_gauge : ℕ
  pub drops : ℕ

abbrev pub empty : Lru
empty = record {
  elements = [];
  cache = [];
  next_address = 0;
  evictions = 0;
  size_gauge = 0;
  drops = 0;
}

-- `cache[hash]`, and `delete(cache, hash)`
pub find : ℕ → List (ℕ × ℕ) → Option ℕ
find h [] = none
find h ((k, a) ∷ c) = if k == h then some a else find h c

pub delete : ℕ → List (ℕ × ℕ) → List (ℕ × ℕ)
delete h [] = []
delete h ((k, a) ∷ c) = let rest = delete h c in if k == h then rest else (k, a) ∷ rest

-- `elem.Value`, `ll.Remove(elem)`, `ll.Back()`
pub deref : ℕ → List Element → Option Element
deref a [] = none
deref a (e ∷ es) = if e.address == a then some e else deref a es

pub unlink : ℕ → List Element → List Element
unlink a [] = []
unlink a (e ∷ es) = let rest = unlink a es in if e.address == a then es else e ∷ rest

pub back : List Element → Option Element
back [] = none
back (e ∷ []) = some e
back (e ∷ f ∷ es) = back (f ∷ es)

-- `ll.MoveToFront(elem)`
pub move_to_front : Element → List Element → List Element
unfolding unlink
move_to_front e es = e ∷ unlink e.address es

-- The eviction when the map is full.
pub evict : Option Element → Lru → Lru
unfolding unlink delete
evict none s = s
evict (some oldest) s = record s {
  elements = unlink oldest.address s.elements;
  cache = delete oldest.hash s.cache;
  evictions = s.evictions + 1;
}

pub make_room : ℕ → Lru → Lru
unfolding evict back
make_room cache_size s = if leb cache_size (length s.cache) then evict (back s.elements) s else s

-- `ll.PushFront`, and the entry in the map
pub mark_seen : ℕ → ℕ → Lru → Lru
unfolding delete
mark_seen hash now s =
    let cache = (hash, s.next_address) ∷ delete hash s.cache in
    record s {
      elements = record { address = s.next_address; hash = hash; ts = now } ∷ s.elements;
      cache = cache;
      next_address = s.next_address + 1;
      size_gauge = length cache;
    }

pub remember : ℕ → ℕ → ℕ → Lru → Lru
unfolding make_room mark_seen
remember cache_size hash now s = mark_seen hash now (make_room cache_size s)

-- A hit: within the TTL the event is a duplicate, past it the entry is dropped first.
pub hit : ℕ → ℕ → ℕ → ℕ → Element → Lru → Lru × Bool
unfolding remember move_to_front unlink delete
hit ttl cache_size hash now ent s =
    if leb (now - ent.ts) ttl
    then (record s { elements = move_to_front ent s.elements; drops = s.drops + 1 }, false)
    else (
      remember cache_size hash now
          (record s { elements = unlink ent.address s.elements; cache = delete hash s.cache }),
      true,
    )

-- `nil` in the map is no element; the code would fault on an address that is not in the list, which
-- `Coherent` excludes.
pub seen : ℕ → ℕ → ℕ → ℕ → Option Element → Lru → Lru × Bool
unfolding hit remember
seen ttl cache_size hash now none s = (remember cache_size hash now s, true)
seen ttl cache_size hash now (some ent) s = hit ttl cache_size hash now ent s

abbrev pub look_up : ℕ → Lru → Option Element
unfolding find deref
look_up hash s = elim (find hash s.cache) [ none ↦ none | some a ↦ deref a s.elements ]

-- The part of the handler that the mutex guards: `true` hands the event on, `false` drops it.
unfoldable pub check : ℕ → ℕ → ℕ → ℕ → Lru → Lru × Bool
unfolding seen find deref
check ttl cache_size hash now s =
    seen ttl cache_size hash now
      (elim (find hash s.cache) [ none ↦ none | some a ↦ deref a s.elements ]) s
