-- ===== src/Pipeline/Dedup/Laws.antt =====
-- internal/pipeline/dedup.go: what the window keeps and for how long, over any sequence of events.
use nephtys.Prelude.{
  ℕ, zero, suc, ◌-◌, ◌≤◌, ◌<◌, ◌≡◌, ◌≢◌, refl, ap, true, false, none, some, [], ◌∷◌, arith, leb,
  ltb, ◌==◌, if◌then◌else◌, Option-cases, Bool-cases, inl, inr, ◌⊎◌, subst,
}
use native.Mathlib.Decide.{ℕ_discrete}
use nephtys.Prelude.Lists.{length, take}
use nephtys.Pipeline.Dedup.Spec.{Window, age_of, forget, drop_oldest, admit, judge, step}

length-forget : (h : ℕ) (w : Window) → length (forget h w) ≤ length w
unfolding forget
length-forget h [] = omega arith
length-forget h (x ∷ w) = ground (arith, length-forget h w)

length-forget_found :
    (h t : ℕ) (w : Window) → age_of h w ≡ some t → suc (length (forget h w)) ≤ length w
unfolding forget age_of
length-forget_found h t [] e = cc
length-forget_found h t ((k, u) ∷ w) e =
    ground (arith, length-forget h w, length-forget_found h t w)

length-drop_oldest : (x : ℕ × ℕ) (w : Window) → length (drop_oldest (x ∷ w)) ≡ length w
unfolding drop_oldest
length-drop_oldest x [] = refl
length-drop_oldest x (y ∷ w) = ap suc (length-drop_oldest y w)

length-admit :
    (size h now : ℕ) (w : Window) → 0 < size → length w ≤ size → length (admit size h now w) ≤ size
unfolding admit
length-admit size h now [] p q = ground arith
length-admit size h now (x ∷ w) p q = ground (arith, length-drop_oldest x w)

-- A window within the capacity stays within it.
pub length-step :
    (ttl size h now : ℕ) (w : Window)
    → 0 < size
    → length w ≤ size
    → length (step ttl size h now w).0 ≤ size
unfolding step judge
length-step ttl size h now w p q = elim (Option-cases (age_of h w)) [
  | inl e ↦ ground (arith, length-admit size h now w)
  | inr (t, e) ↦
      ground
        (arith, length-admit size h now (forget h w), length-forget h w, length-forget_found h t w)
]

age_of-forget :
    (h j : ℕ) (w : Window) → age_of h (forget j w) ≡ (if j == h then none else age_of h w)
unfolding age_of forget
age_of-forget h j [] = ground arith
age_of-forget h j ((k, t) ∷ w) = ground (arith, age_of-forget h j w)

age_of-take-suc :
    (n h t : ℕ) (w : Window) → age_of h (take n w) ≡ some t → age_of h (take (suc n) w) ≡ some t
unfolding age_of
age_of-take-suc zero h t w e = cc
age_of-take-suc (suc n) h t [] e = cc
age_of-take-suc (suc n) h t ((k, u) ∷ w) e = ground (arith, age_of-take-suc n h t w)

take-forget :
    (n h j t : ℕ) (w : Window)
    → j ≢ h
    → age_of h (take n w) ≡ some t
    → age_of h (take n (forget j w)) ≡ some t
unfolding age_of forget
take-forget zero h j t w d e = cc
take-forget (suc n) h j t [] d e = cc
take-forget (suc n) h j t ((k, u) ∷ w) d e =
    ground (arith, take-forget n h j t w d, age_of-take-suc n h t (forget j w))

take-drop_oldest : (n : ℕ) (w : Window) → n < length w → take n (drop_oldest w) ≡ take n w
unfolding drop_oldest
take-drop_oldest n [] p = elim p [ ]
take-drop_oldest zero (x ∷ []) p = refl
take-drop_oldest (suc n) (x ∷ []) p = absurd (omega arith)
take-drop_oldest zero (x ∷ y ∷ w) p = refl
take-drop_oldest (suc n) (x ∷ y ∷ w) p = ap (◌∷◌ x) (take-drop_oldest n (y ∷ w) (omega arith))

pub age_of-take : (n h t : ℕ) (w : Window) → age_of h (take n w) ≡ some t → age_of h w ≡ some t
unfolding age_of
age_of-take zero h t w e = cc
age_of-take (suc n) h t [] e = cc
age_of-take (suc n) h t ((k, u) ∷ w) e = ground (arith, age_of-take n h t w)

keep-admit :
    (size j at n h t : ℕ) (w : Window)
    → j ≢ h
    → n < size
    → age_of h (take n w) ≡ some t
    → age_of h (take (suc n) (admit size j at w)) ≡ some t
unfolding admit age_of
keep-admit size j at n h t w d p e = elim (Bool-cases (leb size (length w))) [
  | inl full ↦ rw full (ground (arith, ap (age_of h) (take-drop_oldest n w (ground arith))))
  | inr room ↦ rw room (ground arith)
]

keep-judge :
    (ttl size j at n h t : ℕ) (w : Window)
    → j ≢ h
    → n < size
    → age_of h (take n w) ≡ some t
    → age_of h (take (suc n) (judge ttl size j at (age_of j w) w).0) ≡ some t
unfolding judge age_of
keep-judge ttl size j at n h t w d p e = elim (Option-cases (age_of j w)) [
  | inl q ↦ rw q (keep-admit size j at n h t w d p e)
  | inr (u, q) ↦ rw q (
      ground (
        arith,
        take-forget n h j t w d e,
        keep-admit size j at n h t (forget j w) d p (take-forget n h j t w d e),
      ))
]

-- While fewer than `size` other events have come in, the hash that is looked for stays in the part
-- of the window that they cannot push out.
pub keep_hash :
    (ttl size j at n h t : ℕ) (w : Window)
    → n < size
    → age_of h (take n w) ≡ some t
    → (j ≡ h → at - t ≤ ttl)
    → age_of h (take (suc n) (step ttl size j at w).0) ≡ some t
unfolding step judge admit age_of
keep_hash ttl size j at n h t w p e fresh = elim (ℕ_discrete j h) [
  | yes q ↦ ground (arith, age_of-take n h t w e)
  | no d ↦ keep-judge ttl size j at n h t w d p e
]

age_of-drop_oldest :
    (h t : ℕ) (w : Window) → age_of h (drop_oldest w) ≡ some t → age_of h w ≡ some t
unfolding age_of drop_oldest
age_of-drop_oldest h t [] e = cc
age_of-drop_oldest h t (x ∷ []) e = cc
age_of-drop_oldest h t (x ∷ y ∷ w) e = ground (arith, age_of-drop_oldest h t (y ∷ w))

age_of-admit :
    (size j at h t : ℕ) (w : Window)
    → age_of h (admit size j at w) ≡ some t
    → ((j ≡ h) × (at ≡ t)) ⊎ (age_of h w ≡ some t)
unfolding admit age_of
age_of-admit size j at h t w e = ground (arith, age_of-drop_oldest h t w)

-- What a window holds after an event it held before, or the event was handed on and put it there.
pub age_of-step :
    (ttl size j at h t : ℕ) (w : Window)
    → age_of h (step ttl size j at w).0 ≡ some t
    → ((j ≡ h) × (at ≡ t) × ((step ttl size j at w).1 ≡ true)) ⊎ (age_of h w ≡ some t)
unfolding step judge age_of
age_of-step ttl size j at h t w e = elim (Option-cases (age_of j w)) [
  | inl q ↦ ground (arith, age_of-admit size j at h t w)
  | inr (u, q) ↦
      ground
        (arith, age_of-admit size j at h t (forget j w), age_of-forget h j w, age_of-here j h u w q)
]
  where
    age_of-here : (j h u : ℕ) (w : Window) → age_of j w ≡ some u → j ≡ h → age_of h w ≡ some u
    age_of-here j h u w q p = subst (λ k. age_of k w ≡ some u) p q

-- The verdict is false exactly where the window has the hash, not older than the TTL.
pub verdict_of_age :
    (ttl size h now t : ℕ) (w : Window)
    → age_of h w ≡ some t
    → (step ttl size h now w).1 ≡ ltb ttl (now - t)
unfolding step judge
verdict_of_age ttl size h now t w e = rw e (ground arith)

pub dropped_has_age :
    (ttl size h now : ℕ) (w : Window)
    → (step ttl size h now w).1 ≡ false
    → (t : ℕ) × (age_of h w ≡ some t) × (now - t ≤ ttl)
unfolding step judge
dropped_has_age ttl size h now w e = ground arith

-- An event that is handed on stands at the front with its own time.
pub handed_on_front :
    (ttl size h now : ℕ) (w : Window)
    → (step ttl size h now w).1 ≡ true
    → age_of h (take 1 (step ttl size h now w).0) ≡ some now
unfolding step judge admit age_of
handed_on_front ttl size h now w e = ground arith
