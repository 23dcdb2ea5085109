-- ===== src/Pipeline/Dedup/Coherent.antt =====
-- internal/pipeline/dedup.go: the list and the map of the cache agree, and every event keeps that.
use nephtys.Prelude.{
  ℕ, suc, ◌≡◌, ap, ◌∙◌, Option, none, some, arith, leb, Option-cases, Bool-cases, inl, inr,
}
use nephtys.Prelude.Lists.{length}
use nephtys.Pipeline.Dedup.{
  Element, Lru, find, delete, deref, unlink, back, evict, make_room, mark_seen, remember,
}
use nephtys.Pipeline.Dedup.Spec.{drop_oldest, admit}
use nephtys.Pipeline.Dedup.Index.{
  by_hash, view, Distinct, DistinctKeys, Below, find-delete, delete-DistinctKeys, length-delete,
  delete_absent, length-view, deref_found, view-unlink, by_hash-unlink, by_hash-unlink-none,
  unlink-Distinct, length-unlink, unlink-Below, Below-suc, deref-Below, back_found, forget-back,
  drop_oldest-no_back,
}

abbrev pub address_of : Option Element → Option ℕ
address_of none = none
address_of (some e) = some e.address

pub record Coherent (s : Lru) : Type 0 where
  pub distinct : Distinct s.elements
  pub keys : DistinctKeys s.cache
  pub indexed : (h : ℕ) → find h s.cache ≡ address_of (by_hash h s.elements)
  pub below : Below s.next_address s.elements
  pub sized : length s.cache ≡ length s.elements

-- An element leaves the list and its hash leaves the map.
abbrev pub take_out : Element → Lru → Lru
take_out e s = record s { elements = unlink e.address s.elements; cache = delete e.hash s.cache }

pub take_out-Coherent :
    (e : Element) (s : Lru)
    → Coherent s
    → by_hash e.hash s.elements ≡ some e
    → Coherent (take_out e s)
take_out-Coherent e s c p = record {
  distinct = unlink-Distinct e.address s.elements c.distinct;
  keys = delete-DistinctKeys e.hash s.cache c.keys;
  indexed = λ h. ground (
    arith,
    find-delete e.hash h s.cache,
    by_hash-unlink e.hash h s.elements e c.distinct p,
    c.indexed h,
  );
  below = unlink-Below e.address s.next_address s.elements c.below;
  sized = ground (
    arith,
    c.indexed e.hash,
    length-unlink e.hash s.elements e c.distinct p,
    length-delete e.hash e.address s.cache c.keys,
    c.sized,
  );
}

-- The lookup through the map finds the element with the hash.
pub look_up-eq :
    (h : ℕ) (s : Lru)
    → Coherent s
    → (elim (find h s.cache) [ none ↦ none | some a ↦ deref a s.elements ]) ≡ by_hash h s.elements
look_up-eq h s c = elim (Option-cases (by_hash h s.elements)) [
  | inl e ↦ ground (arith, c.indexed h)
  | inr (x, e) ↦ ground (arith, c.indexed h, deref_found h s.elements x c.distinct e)
]

mark_seen-Coherent :
    (h now : ℕ) (s : Lru) → Coherent s → by_hash h s.elements ≡ none → Coherent (mark_seen h now s)
unfolding mark_seen by_hash find deref
mark_seen-Coherent h now s c p =
    let gone : delete h s.cache ≡ s.cache = delete_absent h s.cache (ground (arith, c.indexed h)) in
    record {
      distinct = (p, deref-Below s.next_address s.elements c.below, c.distinct);
      keys = (ground (arith, find-delete h h s.cache), delete-DistinctKeys h s.cache c.keys);
      indexed = λ j. ground (arith, find-delete h j s.cache, c.indexed j);
      below = (omega arith, Below-suc s.next_address s.elements c.below);
      sized = ap suc (ap length gone ∙ c.sized);
    }

evict-some-Coherent :
    (e : Element) (s : Lru) → Coherent (take_out e s) → Coherent (evict (some e) s)
unfolding evict
evict-some-Coherent e s c = record {
  distinct = c.distinct;
  keys = c.keys;
  indexed = c.indexed;
  below = c.below;
  sized = c.sized;
}

evict-Coherent : (s : Lru) → Coherent s → Coherent (evict (back s.elements) s)
evict-Coherent s c = elim (Option-cases (back s.elements)) [
  | inl e ↦ rw e (unfold evict in c)
  | inr (x, e) ↦
      rw e
        (evict-some-Coherent x s (take_out-Coherent x s c (back_found s.elements x c.distinct e)))
]

make_room-Coherent : (size : ℕ) (s : Lru) → Coherent s → Coherent (make_room size s)
unfolding make_room
make_room-Coherent size s c = elim (Bool-cases (leb size (length s.cache))) [
  | inl e ↦ rw e (evict-Coherent s c)
  | inr e ↦ rw e c
]

make_room_absent :
    (size h : ℕ) (s : Lru)
    → by_hash h s.elements ≡ none
    → by_hash h (make_room size s).elements ≡ none
unfolding make_room evict
make_room_absent size h s p = elim (Option-cases (back s.elements)) [
  | inl e ↦ ground arith
  | inr (x, e) ↦ ground (arith, by_hash-unlink-none x.address h s.elements)
]

-- Every new hash is remembered coherently.
pub remember-Coherent :
    (size h now : ℕ) (s : Lru)
    → Coherent s
    → by_hash h s.elements ≡ none
    → Coherent (remember size h now s)
unfolding remember
remember-Coherent size h now s c p =
    mark_seen-Coherent h now (make_room size s) (make_room-Coherent size s c)
      (make_room_absent size h s p)

evict-view :
    (s : Lru)
    → Coherent s
    → view (evict (back s.elements) s).elements ≡ drop_oldest (view s.elements)
unfolding evict
evict-view s c = elim (Option-cases (back s.elements)) [
  | inl e ↦ rw e (drop_oldest-no_back s.elements e)
  | inr (x, e) ↦ rw e (
      view-unlink x.hash s.elements x c.distinct (back_found s.elements x c.distinct e)
      ∙ forget-back s.elements x c.distinct e)
]

-- The window that `remember` leaves is the one that `admit` describes.
pub remember-view :
    (size h now : ℕ) (s : Lru)
    → Coherent s
    → view (remember size h now s).elements ≡ admit size h now (view s.elements)
unfolding remember mark_seen make_room admit
remember-view size h now s c = ground (arith, evict-view s c, c.sized, length-view s.elements)
