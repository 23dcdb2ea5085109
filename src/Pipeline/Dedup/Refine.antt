-- ===== src/Pipeline/Dedup/Refine.antt =====
-- internal/pipeline/dedup.go: the cache implements the window of Spec.
use nephtys.Prelude.{
  ℕ, ◌+◌, subst, ◌-◌, ◌≡◌, refl, ap, ◌∙◌, Bool, true, none, some, ◌∷◌, arith, leb, Option-cases,
  Bool-cases, inl, inr,
}
use nephtys.Pipeline.Dedup.{Element, Lru, deref, move_to_front, remember, hit, seen, check}
use nephtys.Pipeline.Dedup.Spec.{Window, admit, judge, step}
use nephtys.Pipeline.Dedup.Index.{
  by_hash, view, by_hash-hash, age_of-view, view-unlink, by_hash-unlink, deref-unlink_self,
  unlink-Distinct, length-unlink, unlink-Below, Below-found,
}
use nephtys.Pipeline.Dedup.Coherent.{
  Coherent, take_out, take_out-Coherent, look_up-eq, remember-Coherent, remember-view,
}

-- What a step of the cache owes to its window.
pub record Simulates (r : Lru × Bool) (w : Window × Bool) : Type 0 where
  pub coherent : Coherent r.0
  pub window : view r.0.elements ≡ w.0
  pub verdict : r.1 ≡ w.1

module _ (e : Element) (s : Lru) (c : Coherent s) (p : by_hash e.hash s.elements ≡ some e) where
  front-Coherent :
      Coherent (record s { elements = move_to_front e s.elements; drops = s.drops + 1 })
  unfolding move_to_front by_hash deref
  front-Coherent = record {
    distinct = (
      ground (arith, by_hash-unlink e.hash e.hash s.elements e c.distinct p),
      deref-unlink_self e.address s.elements c.distinct,
      unlink-Distinct e.address s.elements c.distinct,
    );
    keys = c.keys;
    indexed = λ j. ground (arith, c.indexed j, by_hash-unlink e.hash j s.elements e c.distinct p);
    below = (
      Below-found s.next_address e.hash s.elements e c.below p,
      unlink-Below e.address s.next_address s.elements c.below,
    );
    sized = ground (arith, c.sized, length-unlink e.hash s.elements e c.distinct p);
  }

  stale_absent : by_hash e.hash (take_out e s).elements ≡ none
  stale_absent = ground (arith, by_hash-unlink e.hash e.hash s.elements e c.distinct p)

  hit-Simulates :
      (ttl size now : ℕ)
      → Simulates
          (hit ttl size e.hash now e s)
          (judge ttl size e.hash now (some e.ts) (view s.elements))
  unfolding hit judge
  hit-Simulates ttl size now = elim (Bool-cases (leb (now - e.ts) ttl)) [
    | inl fresh ↦ rw fresh (record {
      coherent = front-Coherent;
      window =
          unfold move_to_front in
          ap (◌∷◌ (e.hash, e.ts)) (view-unlink e.hash s.elements e c.distinct p);
      verdict = refl;
    })
    | inr stale ↦ rw stale (record {
      coherent =
          remember-Coherent size e.hash now (take_out e s) (take_out-Coherent e s c p) stale_absent;
      window =
          remember-view size e.hash now (take_out e s) (take_out-Coherent e s c p)
          ∙ ap (admit size e.hash now) (view-unlink e.hash s.elements e c.distinct p);
      verdict = refl;
    })
  ]

module _ (ttl size h now : ℕ) (s : Lru) (c : Coherent s) where
  miss-Simulates :
      by_hash h s.elements ≡ none
      → Simulates (remember size h now s, true) (judge ttl size h now none (view s.elements))
  unfolding judge
  miss-Simulates p = record {
    coherent = remember-Coherent size h now s c p;
    window = remember-view size h now s c;
    verdict = refl;
  }

  hit_at-Simulates :
      (e : Element)
      → by_hash h s.elements ≡ some e
      → Simulates (hit ttl size h now e s) (judge ttl size h now (some e.ts) (view s.elements))
  hit_at-Simulates e p =
      subst
        (λ k.
          by_hash k s.elements ≡ some e
          → Simulates (hit ttl size k now e s) (judge ttl size k now (some e.ts) (view s.elements)))
        (by_hash-hash h s.elements e p) (λ q. hit-Simulates e s c q ttl size now) p

  -- On a coherent cache, one event does to the list and the map what Spec.step does to the window:
  -- the new cache is coherent, its window is that of Spec.step, and the verdict is the same.
  pub check-Simulates : Simulates (check ttl size h now s) (step ttl size h now (view s.elements))
  unfolding check seen step
  check-Simulates =
      rw (look_up-eq h s c, age_of-view h s.elements)
        (elim (Option-cases (by_hash h s.elements)) [
          | inl e ↦ rw e (miss-Simulates e)
          | inr (x, e) ↦ rw e (hit_at-Simulates x e)
        ])
