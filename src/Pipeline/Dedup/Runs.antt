-- ===== src/Pipeline/Dedup/Runs.antt =====
-- internal/pipeline/dedup.go: the cache over any sequence of events, from the empty cache on.
use nephtys.Prelude.{
  ℕ, suc, ◌+◌, ◌-◌, ◌≤◌, ◌<◌, ◌≡◌, refl, sym, ap, ◌∙◌, subst, ◌⊎◌, true, false, some, List, [], ◌∷◌,
  arith, ltb, if◌then◌else◌, inl, inr, Bool-cases,
}
use nephtys.Prelude.Lists.{length, All, take}
use nephtys.Pipeline.Dedup.{Lru, empty, find, check}
use nephtys.Pipeline.Dedup.Spec.{age_of}
use nephtys.Pipeline.Dedup.Index.{view, by_hash, length-view}
use nephtys.Pipeline.Dedup.Coherent.{Coherent}
use nephtys.Pipeline.Dedup.Refine.{check-Simulates}
use nephtys.Pipeline.Dedup.Laws.{
  length-step, keep_hash, age_of-step, age_of-take, verdict_of_age, dropped_has_age,
  handed_on_front,
}

pub record Arrival : Type 0 where
  pub hash : ℕ
  pub at : ℕ

-- The cache after the events, and the events that were handed on, the last one first.
unfoldable pub run : ℕ → ℕ → Lru → List Arrival → List Arrival → Lru × List Arrival
run ttl size s handed [] = (s, handed)
run ttl size s handed (a ∷ rest) =
    let (s', out) = check ttl size a.hash a.at s in
    run ttl size s' (if out then a ∷ handed else handed) rest

abbrev pub HandedOn : ℕ → ℕ → List Arrival → Type 0
HandedOn h t [] = ⊥
HandedOn h t (a ∷ rest) = ((a.hash ≡ h) × (a.at ≡ t)) ⊎ HandedOn h t rest

-- The list and the map agree, the cache is within its capacity, and its entries were handed on.
pub record Sound (size : ℕ) (s : Lru) (handed : List Arrival) : Type 0 where
  pub coherent : Coherent s
  pub bounded : length s.elements ≤ size
  pub backed : (h t : ℕ) → age_of h (view s.elements) ≡ some t → HandedOn h t handed

empty-Sound : (size : ℕ) → Sound size empty []
unfolding find by_hash age_of
empty-Sound size = record {
  coherent = record { distinct = tt; keys = tt; indexed = λ h. refl; below = tt; sized = refl };
  bounded = omega arith;
  backed = λ h t e. cc;
}

check-Sound :
    (ttl size : ℕ) (s : Lru) (handed : List Arrival) (a : Arrival)
    → 0 < size
    → Sound size s handed
    → Sound size
        (check ttl size a.hash a.at s).0
        (if (check ttl size a.hash a.at s).1 then a ∷ handed else handed)
check-Sound ttl size s handed a p v =
    let r = check-Simulates ttl size a.hash a.at s v.coherent in
    record {
      coherent = r.coherent;
      bounded = omega (
        arith,
        ap length r.window,
        length-view s.elements,
        length-view (check ttl size a.hash a.at s).0.elements,
        length-step ttl size a.hash a.at (view s.elements) p,
        v.bounded,
      );
      backed = λ h t e. ground (
        arith,
        r.verdict,
        v.backed h t,
        age_of-step ttl size a.hash a.at h t (view s.elements)
            (subst (λ w. age_of h w ≡ some t) r.window e),
      );
    }

run-Sound :
    (ttl size : ℕ) (s : Lru) (handed rest : List Arrival)
    → 0 < size
    → Sound size s handed
    → Sound size (run ttl size s handed rest).0 (run ttl size s handed rest).1
unfolding run
run-Sound ttl size s handed [] p v = v
run-Sound ttl size s handed (a ∷ rest) p v =
    run-Sound ttl size (check ttl size a.hash a.at s).0
      (if (check ttl size a.hash a.at s).1 then a ∷ handed else handed) rest p
      (check-Sound ttl size s handed a p v)

module _ (ttl size : ℕ) (rest : List Arrival) (p : 0 < size) where
  -- After any events from the empty cache on, the list and the map agree and hold at most `size`
  -- entries each.
  pub cache_bounded :
      let s = (run ttl size empty [] rest).0 in
      Coherent s × (length s.elements ≤ size) × (length s.cache ≤ size)
  cache_bounded =
      let v = run-Sound ttl size empty [] rest p (empty-Sound size) in
      (v.coherent, v.bounded, omega (arith, v.bounded, v.coherent.sized))

  -- After any events from the empty cache on, an event that is dropped has a hash that an earlier
  -- event, no older than the TTL, was handed on with.
  pub dropped_was-HandedOn :
      (h now : ℕ)
      → (check ttl size h now (run ttl size empty [] rest).0).1 ≡ false
      → (t : ℕ) × HandedOn h t (run ttl size empty [] rest).1 × (now - t ≤ ttl)
  dropped_was-HandedOn h now e =
      let v = run-Sound ttl size empty [] rest p (empty-Sound size) in
      let s = (run ttl size empty [] rest).0 in
      let r = check-Simulates ttl size h now s v.coherent in
      let (t, aged, young) = dropped_has_age ttl size h now (view s.elements) (sym r.verdict ∙ e) in
      (t, v.backed h t aged, young)

  -- After any events from the empty cache on, the list and the map agree and hold at most `size`
  -- entries each, and the next event is handed on, or it has a hash that an earlier event, no older
  -- than the TTL, was handed on with.
  pub runs_sound :
      (h now : ℕ)
      → let s = (run ttl size empty [] rest).0 in
        Coherent s
        × (length s.elements ≤ size)
        × (length s.cache ≤ size)
        × (((check ttl size h now s).1 ≡ true)
            ⊎ ((t : ℕ) × HandedOn h t (run ttl size empty [] rest).1 × (now - t ≤ ttl)))
  runs_sound h now =
      let (coherent, elements, cache) = cache_bounded in
      (
        coherent,
        elements,
        cache,
        elim (Bool-cases (check ttl size h now (run ttl size empty [] rest).0).1) [
          | inl passed ↦ inl passed
          | inr dropped ↦ inr (dropped_was-HandedOn h now dropped)
        ],
      )

-- No event of the list has the hash `h` past the TTL of an entry of time `t`.
abbrev pub Within : ℕ → ℕ → ℕ → List Arrival → Type 0
Within ttl h t = All (λ a. a.hash ≡ h → a.at - t ≤ ttl)

keep_run :
    (ttl size n h t : ℕ) (s : Lru) (handed rest : List Arrival)
    → Coherent s
    → n + length rest ≤ size
    → age_of h (take n (view s.elements)) ≡ some t
    → Within ttl h t rest
    → Coherent (run ttl size s handed rest).0
      × (age_of h (view (run ttl size s handed rest).0.elements) ≡ some t)
unfolding run
keep_run ttl size n h t s handed [] c p e within = (c, age_of-take n h t (view s.elements) e)
keep_run ttl size n h t s handed (a ∷ rest) c p e within =
    let r = check-Simulates ttl size a.hash a.at s c in
    keep_run ttl size (suc n) h t (check ttl size a.hash a.at s).0
      (if (check ttl size a.hash a.at s).1 then a ∷ handed else handed) rest r.coherent
      (omega arith)
      (subst (λ w. age_of h (take (suc n) w) ≡ some t) (sym r.window)
        (keep_hash ttl size a.hash a.at n h t (view s.elements) (omega arith) e within.0))
      within.1

-- On a coherent cache, let an event of hash `h` be handed on at `t`, then fewer than `size` further
-- events come in, none of them of hash `h` past its TTL. Then an event of hash `h` at `now` is
-- handed on exactly when `now - t` exceeds the TTL, however many duplicates came in between.
pub repeat_verdict :
    (ttl size h t now : ℕ) (s : Lru) (handed rest : List Arrival)
    → Coherent s
    → (check ttl size h t s).1 ≡ true
    → length rest < size
    → Within ttl h t rest
    → (check ttl size h now (run ttl size (check ttl size h t s).0 handed rest).0).1
      ≡ ltb ttl (now - t)
repeat_verdict ttl size h t now s handed rest c first few within =
    let r = check-Simulates ttl size h t s c in
    let s₁ = (check ttl size h t s).0 in
    let s₂ = (run ttl size s₁ handed rest).0 in
    let (c₂, aged) =
      keep_run ttl size 1 h t s₁ handed rest r.coherent (omega arith)
        (subst (λ w. age_of h (take 1 w) ≡ some t) (sym r.window)
          (handed_on_front ttl size h t (view s.elements) (sym r.verdict ∙ first)))
        within in
    (check-Simulates ttl size h now s₂ c₂).verdict
    ∙ verdict_of_age ttl size h now t (view s₂.elements) aged
