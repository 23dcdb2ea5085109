-- ===== src/Pipeline/Generation/Invariant.antt =====
-- internal/pipeline/generation.go and batch.go: what holds of a generation under every interleaving
-- of its goroutines.
use nephtys.Prelude.{
  ℕ, zero, suc, ◌≤◌, ◌<◌, ◌≡◌, refl, sym, ap, ◌∙◌, subst, String, Bool, true, false, Option, none,
  some, List, [], ◌∷◌, ◌++◌, arith, Option-cases, inl, inr, not, ◌&&◌, ◌||◌, ltb, if◌then◌else◌,
}
use nephtys.Prelude.Lists.{length, All, is_empty, append-nil, length-append}
use nephtys.Domain.Event.{Bytes, StreamEvent, is_binary}
use nephtys.Pipeline.Batch.{single, flush, collect}
use nephtys.Pipeline.Batch.Laws.{
  flushed, flushed-append, flushed-flush, flushed-collect, Fits, flush-Fits, collect-Fits,
}
use nephtys.Pipeline.Generation.{
  Publisher, draining, exited, RetirePhase, active, locking, waiting_worker, returned, Generation,
  new_generation, Action, arrive, pass_check, forward, send, receive, tick, see_done, see_sealed,
  drain, finish_drain, cancel, seal, return, pick, enter, is_active, is_locking, is_receiving,
  is_draining, is_exited, is_waiting_seal, is_waiting_worker, past_check, forwarded, sent, take_in,
  flush_now, act, when, with_publisher,
}
use nephtys.Pipeline.Generation.Ordering.{events, order_send, order_take, order_flush}

abbrev pub Quiet : List Publisher → Type 0
Quiet = All (λ p. p.selecting ≡ false)

abbrev pub past_seal : RetirePhase → Bool
past_seal active = false
past_seal locking = false
past_seal waiting_worker = true
past_seal returned = true

pub record Inv (max_size : ℕ) (g : Generation) : Type 0 where
  -- what was flushed, what is in the batch and what is in the channel are the accepted events
  pub in_order : flushed g.calls ++ (g.worker.batch ++ events g.channel) ≡ g.accepted
  pub channel_fits : length g.channel ≤ max_size
  pub batch_fits : length g.worker.batch < max_size
  pub calls_fit : All (Fits max_size) g.calls
  -- the phases of Retire
  pub open_until_retired : is_active g.retire ≡ not g.cancelled
  pub seal_phase : past_seal g.retire ≡ g.is_sealed
  pub sealed_quiet : g.is_sealed ≡ true → Quiet g.inside
  pub draining_sealed : g.phase ≡ draining → g.is_sealed ≡ true
  pub exited_sealed : g.phase ≡ exited → g.is_sealed ≡ true
  pub exited_empty : g.phase ≡ exited → (g.channel ≡ []) × (g.worker.batch ≡ [])
  pub returned_exited : g.retire ≡ returned → g.phase ≡ exited

pub new-Inv : (max_size : ℕ) → 0 < max_size → Inv max_size new_generation
new-Inv max_size p = ground arith

pub All-append {ℓ κ} :
    {A : Type ℓ} (P : A → Type κ) (xs ys : List A) → All P xs → All P ys → All P (xs ++ ys)
All-append P [] ys p q = q
All-append P (x ∷ xs) ys p q = (p.0, All-append P xs ys p.1 q)

pub Quiet-pick :
    (i : ℕ) (ps others : List Publisher) (p : Publisher)
    → pick i ps ≡ some (p, others)
    → Quiet ps
    → Quiet others × (p.selecting ≡ false)
unfolding pick
Quiet-pick i [] others p e q = cc
Quiet-pick zero (x ∷ ps) others p e q = ground arith
Quiet-pick (suc i) (x ∷ ps) others p e q = elim (Option-cases (pick i ps)) [
  | inl n ↦ ground arith
  | inr ((y, ys), n) ↦ ground (arith, Quiet-pick i ps ys y n q.1)
]

pub when-Inv :
    {max_size : ℕ} (b : Bool) (x : Generation) {g' : Generation}
    → when b x ≡ some g'
    → (b ≡ true → Inv max_size x)
    → Inv max_size g'
when-Inv {max_size} true x {g' = y} h k =
    let same : x ≡ y = cc in subst (Inv max_size) same (k refl)
when-Inv false x h k = cc

module _ (marshal : List Bytes → Option Bytes) (max_size : ℕ) (g : Generation)
    (v : Inv max_size g) where
  enter-Inv :
      (topic : String) (e : StreamEvent) {g' : Generation}
      → enter topic e g ≡ some g'
      → Inv max_size g'
  unfolding enter
  enter-Inv topic e h = when-Inv (not (is_locking g.retire)) _ h (λ b. record {
    in_order = v.in_order;
    channel_fits = v.channel_fits;
    batch_fits = v.batch_fits;
    calls_fit = v.calls_fit;
    open_until_retired = v.open_until_retired;
    seal_phase = v.seal_phase;
    sealed_quiet = λ s.
        All-append (λ (p : Publisher). p.selecting ≡ false) g.inside _ (v.sealed_quiet s)
          (refl, tt);
    draining_sealed = v.draining_sealed;
    exited_sealed = v.exited_sealed;
    exited_empty = v.exited_empty;
    returned_exited = v.returned_exited;
  })

  module _ (i : ℕ) (p : Publisher) (others : List Publisher)
      (picked : pick i g.inside ≡ some (p, others)) where
    past_check-Inv : {g' : Generation} → past_check g p others ≡ some g' → Inv max_size g'
    unfolding past_check
    past_check-Inv h =
        when-Inv (not p.selecting && not (is_binary p.event) && not g.cancelled) _ h
          (λ b. ground (arith, v))

    forwarded-Inv : {g' : Generation} → forwarded g p others ≡ some g' → Inv max_size g'
    unfolding forwarded
    forwarded-Inv h = when-Inv (g.cancelled || (not p.selecting && is_binary p.event)) _ h (λ b.
        ground (
          arith,
          v,
          Quiet-pick i g.inside others p picked,
          flushed-append g.calls (single p.topic p.event ∷ []),
          append-nil (flushed g.calls),
          All-append (Fits max_size) g.calls (single p.topic p.event ∷ []) v.calls_fit (tt, tt),
        ))

    sent-Inv : {g' : Generation} → sent max_size g p others ≡ some g' → Inv max_size g'
    unfolding sent
    sent-Inv h = when-Inv (p.selecting && ltb (length g.channel) max_size) _ h (λ b. ground (
      arith,
      v,
      Quiet-pick i g.inside others p picked,
      length-append g.channel ((p.topic, p.event) ∷ []),
      order_send (flushed g.calls) g.worker.batch g.channel (p.topic, p.event) g.accepted,
    ))

  module _ (now : ℕ) (busy : (is_receiving g.phase || is_draining g.phase) ≡ true) where
    taken-Inv :
        (topic : String) (e : StreamEvent) (rest : List (String × StreamEvent))
        → g.channel ≡ (topic, e) ∷ rest
        → let (w, made) = collect marshal max_size now topic e g.worker in
          Inv max_size (record g { channel = rest; worker = w; calls = g.calls ++ made })
    taken-Inv topic e rest ch =
        let r = collect marshal max_size now topic e g.worker in
        let fit = collect-Fits marshal max_size now topic e g.worker v.batch_fits in
        record {
          in_order =
              order_take g.calls r.1 g.worker.batch r.0.batch (topic, e) rest g.accepted
                (flushed-collect marshal max_size now topic e g.worker)
                (ap
                    (λ (c : List (String × StreamEvent)).
                      flushed g.calls ++ (g.worker.batch ++ events c))
                    (sym ch)
                  ∙ v.in_order);
          channel_fits = omega (arith, ap length ch, v.channel_fits);
          batch_fits = fit.0;
          calls_fit = All-append (Fits max_size) g.calls r.1 v.calls_fit fit.1;
          open_until_retired = v.open_until_retired;
          seal_phase = v.seal_phase;
          sealed_quiet = v.sealed_quiet;
          draining_sealed = v.draining_sealed;
          exited_sealed = v.exited_sealed;
          exited_empty = λ x. ground arith;
          returned_exited = v.returned_exited;
        }

    take_in-Inv :
        (ch : List (String × StreamEvent)) {g' : Generation}
        → g.channel ≡ ch
        → take_in marshal max_size now g ch ≡ some g'
        → Inv max_size g'
    unfolding take_in
    take_in-Inv [] ch h = cc
    take_in-Inv ((topic, e) ∷ rest) ch h = when-Inv true _ h (λ b. taken-Inv topic e rest ch)

    flush_now-Inv : Inv max_size (flush_now marshal max_size now g)
    unfolding flush_now
    flush_now-Inv = ground (
      arith,
      v,
      order_flush g.calls (flush marshal max_size now g.worker).1 g.worker.batch g.channel
          g.accepted (flushed-flush marshal max_size now g.worker),
      All-append (Fits max_size) g.calls (flush marshal max_size now g.worker).1 v.calls_fit
          (flush-Fits marshal max_size now g.worker (omega (arith, v.batch_fits))),
    )

pub with_publisher-Inv :
    {max_size : ℕ} {g' : Generation} (step : Publisher → List Publisher → Option Generation)
    (o : Option (Publisher × List Publisher))
    → with_publisher step o ≡ some g'
    → ((p : Publisher) (others : List Publisher)
        → o ≡ some (p, others)
        → step p others ≡ some g'
        → Inv max_size g')
    → Inv max_size g'
with_publisher-Inv step none h k = cc
with_publisher-Inv step (some (p, others)) h k = k p others refl h

pub if_some :
    (b : Bool) (o : Option Generation) {g' : Generation}
    → (if b then o else none) ≡ some g'
    → (b ≡ true) × (o ≡ some g')
if_some true o h = (refl, h)
if_some false o h = cc

-- Every step of every goroutine keeps the invariant.
module _ (marshal : List Bytes → Option Bytes) (max_size : ℕ) where
  pub act-Inv :
      (a : Action) (g : Generation) {g' : Generation}
      → Inv max_size g
      → act marshal max_size a g ≡ some g'
      → Inv max_size g'
  unfolding act
  act-Inv (arrive topic e) g v h = enter-Inv marshal max_size g v topic e h
  act-Inv (pass_check i) g v h =
      with_publisher-Inv (past_check g) (pick i g.inside) h
        (λ p others picked. past_check-Inv marshal max_size g v i p others picked)
  act-Inv (forward i) g v h =
      with_publisher-Inv (forwarded g) (pick i g.inside) h
        (λ p others picked. forwarded-Inv marshal max_size g v i p others picked)
  act-Inv (send i) g v h =
      with_publisher-Inv (sent max_size g) (pick i g.inside) h
        (λ p others picked. sent-Inv marshal max_size g v i p others picked)
  act-Inv (receive now) g v h =
      let (busy, taken) =
        if_some (is_receiving g.phase) (take_in marshal max_size now g g.channel) h in
      take_in-Inv marshal max_size g v now (ground arith) g.channel refl taken
  act-Inv (tick now) g v h =
      when-Inv (is_receiving g.phase) _ h
        (λ b. flush_now-Inv marshal max_size g v now (ground arith))
  act-Inv see_done g v h =
      when-Inv (is_receiving g.phase && g.cancelled) _ h (λ b. ground (arith, v))
  act-Inv see_sealed g v h =
      when-Inv (is_waiting_seal g.phase && g.is_sealed) _ h (λ b. ground (arith, v))
  act-Inv (drain now) g v h =
      let (busy, taken) =
        if_some (is_draining g.phase) (take_in marshal max_size now g g.channel) h in
      take_in-Inv marshal max_size g v now (ground arith) g.channel refl taken
  act-Inv (finish_drain now) g v h =
      when-Inv (is_draining g.phase && is_empty g.channel) _ h
        (λ b. ground (arith, v, flush_now-Inv marshal max_size g v now))
  act-Inv cancel g v h = when-Inv (is_active g.retire) _ h (λ b. ground (arith, v))
  act-Inv seal g v h =
      when-Inv (is_locking g.retire && is_empty g.inside) _ h (λ b. ground (arith, v))
  act-Inv return g v h =
      when-Inv (is_waiting_worker g.retire && is_exited g.phase) _ h (λ b. ground (arith, v))
