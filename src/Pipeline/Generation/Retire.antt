-- ===== src/Pipeline/Generation/Retire.antt =====
-- internal/pipeline/generation.go: what Retire promises, over every interleaving.
use nephtys.Prelude.{
  ℕ, ◌<◌, ◌≤◌, ◌≡◌, refl, ◌∙◌, subst, Bool, true, false, Option, none, some, List, [], ◌∷◌, arith,
  Option-cases, inl, inr,
}
use nephtys.Prelude.Lists.{All, append-nil, length}
use nephtys.Domain.Event.{Bytes}
use nephtys.Pipeline.Batch.Laws.{flushed, Fits}
use nephtys.Pipeline.Generation.{
  Generation, new_generation, Action, arrive, pass_check, forward, send, returned, act, run,
  and_then, enter, past_check, forwarded, sent, take_in, flush_now, pick, when,
}
use nephtys.Pipeline.Generation.Invariant.{Inv, new-Inv, act-Inv, Quiet-pick}

pub and_then-some :
    (o : Option Generation) (k : Generation → Option Generation) {h : Generation}
    → and_then o k ≡ some h
    → (g : Generation) × (o ≡ some g) × (k g ≡ some h)
and_then-some none k e = cc
and_then-some (some g) k e = (g, refl, e)

-- What stays once Retire has returned.
record Settled (g h : Generation) : Type 0 where
  final : h.accepted ≡ g.accepted
  still : h.retire ≡ returned

when-Settled :
    {g : Generation} (b : Bool) (x : Generation) {h : Generation}
    → when b x ≡ some h
    → (b ≡ true → Settled g x)
    → Settled g h
when-Settled {g} true x {h = y} e k = let same : x ≡ y = cc in subst (Settled g) same (k refl)
when-Settled false x e k = cc

module _ (marshal : List Bytes → Option Bytes) (max_size : ℕ) where
  pub run-Inv :
      (acts : List Action) (g : Generation) {h : Generation}
      → Inv max_size g
      → run marshal max_size acts g ≡ some h
      → Inv max_size h
  unfolding run
  run-Inv [] g {h = x} v e = let same : g ≡ x = cc in subst (Inv max_size) same v
  run-Inv (a ∷ acts) g v e =
      let (x, first, rest) =
        and_then-some (act marshal max_size a g) (run marshal max_size acts) e in
      run-Inv acts x (act-Inv marshal max_size a g v first) rest

  act-Settled :
      (a : Action) (g : Generation) {h : Generation}
      → Inv max_size g
      → g.retire ≡ returned
      → act marshal max_size a g ≡ some h
      → Settled g h
  unfolding act enter past_check forwarded sent take_in flush_now
  act-Settled (arrive topic e) g v r h = ground arith
  act-Settled (pass_check i) g v r h = elim (Option-cases (pick i g.inside)) [
    | inl n ↦ ground arith
    | inr ((p, others), n) ↦ ground (arith, v)
  ]
  act-Settled (forward i) g v r h = elim (Option-cases (pick i g.inside)) [
    | inl n ↦ ground arith
    | inr ((p, others), n) ↦ ground (arith, v)
  ]
  act-Settled (send i) g v r h = elim (Option-cases (pick i g.inside)) [
    | inl n ↦ ground arith
    | inr ((p, others), n) ↦ ground (arith, v, Quiet-pick i g.inside others p n)
  ]
  act-Settled _ g v r h = ground (arith, v)

  run-Settled :
      (acts : List Action) (g : Generation) {h : Generation}
      → Inv max_size g
      → g.retire ≡ returned
      → run marshal max_size acts g ≡ some h
      → Settled g h
  unfolding run
  run-Settled [] g {h = x} v r e =
      let same : g ≡ x = cc in subst (Settled g) same (record { final = refl; still = r })
  run-Settled (a ∷ acts) g v r e =
      let (x, first, rest) =
        and_then-some (act marshal max_size a g) (run marshal max_size acts) e in
      let s = act-Settled a g v r first in
      let t = run-Settled acts x (act-Inv marshal max_size a g v first) s.still rest in
      record { final = t.final ∙ s.final; still = t.still }

  -- Take any interleaving from a new generation on at whose end Retire has returned, and any
  -- interleaving that follows it. At the end of the first the channel and the batch are empty, and
  -- the events that the worker flushed are exactly the accepted ones, each once and in order. At the
  -- end of the second both are what they were.
  pub retire_lossless :
      0 < max_size
      → (acts later : List Action) (g h : Generation)
      → run marshal max_size acts new_generation ≡ some g
      → g.retire ≡ returned
      → run marshal max_size later g ≡ some h
      → (g.channel ≡ [])
        × (g.worker.batch ≡ [])
        × (flushed g.calls ≡ g.accepted)
        × (h.accepted ≡ g.accepted)
        × (flushed h.calls ≡ g.accepted)
  retire_lossless p acts later g h e r f =
      let v = run-Inv acts new_generation (new-Inv max_size p) e in
      let s = run-Settled later g v r f in
      let w = run-Inv later g v f in
      let (c, b) = v.exited_empty (v.returned_exited r) in
      let (d, k) = w.exited_empty (w.returned_exited s.still) in
      (c, b, drained g v c b, s.final, drained h w d k ∙ s.final)
    where
      drained :
          (x : Generation)
          → Inv max_size x
          → x.channel ≡ []
          → x.worker.batch ≡ []
          → flushed x.calls ≡ x.accepted
      drained x v c b = ground (arith, v.in_order, append-nil (flushed x.calls))

  -- In every interleaving each array that is handed on holds between one and `max_size` events, the
  -- channel never holds more than `max_size`, and the batch stays below that.
  pub batches_fit :
      0 < max_size
      → (acts : List Action) (g : Generation) → run marshal max_size acts new_generation ≡ some g
      → All (Fits max_size) g.calls
        × (length g.channel ≤ max_size)
        × (length g.worker.batch < max_size)
  batches_fit p acts g e =
      let v = run-Inv acts new_generation (new-Inv max_size p) e in
      (v.calls_fit, v.channel_fits, v.batch_fits)
