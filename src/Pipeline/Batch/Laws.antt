-- ===== src/Pipeline/Batch/Laws.antt =====
-- internal/pipeline/batch.go: a flush and a received event lose nothing and keep the order.
use nephtys.Prelude.{
  ℕ, ◌≤◌, ◌<◌, ◌≡◌, refl, String, Option, List, [], ◌∷◌, ◌++◌, ◌∙◌, arith, leb, Bool-cases,
  Option-cases, inl, inr,
}
use nephtys.Prelude.Lists.{length, All, append-nil, append_assoc, length-append}
use nephtys.Domain.Event.{Bytes, StreamEvent}
use nephtys.Pipeline.Batch.{
  Call, single, batched, marshal_failed, Worker, payloads, deliver, flush_batch, flush, collect,
}

-- The events that the calls took out of the batch, in order.
abbrev pub flushed : List Call → List StreamEvent
flushed [] = []
flushed (single topic e ∷ cs) = flushed cs
flushed (batched topic e es ∷ cs) = es ++ flushed cs
flushed (marshal_failed es ∷ cs) = es ++ flushed cs

pub flushed-append : (cs ds : List Call) → flushed (cs ++ ds) ≡ flushed cs ++ flushed ds
flushed-append [] ds = refl
flushed-append (single topic e ∷ cs) ds = flushed-append cs ds
flushed-append (batched topic e es ∷ cs) ds = rw (flushed-append cs ds, append_assoc)
flushed-append (marshal_failed es ∷ cs) ds = rw (flushed-append cs ds, append_assoc)

-- A batch that is handed on has between one and `max_size` events.
abbrev pub Fits : ℕ → Call → Type 0
Fits max_size (single topic e) = Unit
Fits max_size (batched topic e es) = (0 < length es) × (length es ≤ max_size)
Fits max_size (marshal_failed es) = (0 < length es) × (length es ≤ max_size)

module _ (marshal : List Bytes → Option Bytes) (max_size : ℕ) where
  flushed-flush_batch :
      (now : ℕ) (topic : String) (es : List StreamEvent)
      → flushed (flush_batch marshal max_size now topic es) ≡ es
  unfolding flush_batch deliver
  flushed-flush_batch now topic [] = refl
  flushed-flush_batch now topic (e ∷ es) = elim (Option-cases (marshal (payloads (e ∷ es)))) [
    | inl q ↦ rw q (append-nil (e ∷ es))
    | inr (b, q) ↦ rw q (append-nil (e ∷ es))
  ]

  -- A flush takes out the whole batch.
  pub flushed-flush : (now : ℕ) (w : Worker) → flushed (flush marshal max_size now w).1 ≡ w.batch
  unfolding flush
  flushed-flush now w = flushed-flush_batch now w.last_topic w.batch

  -- A received event comes after what was in the batch.
  pub flushed-collect :
      (now : ℕ) (topic : String) (e : StreamEvent) (w : Worker)
      → let (w', cs) = collect marshal max_size now topic e w in
        flushed cs ++ w'.batch ≡ w.batch ++ e ∷ []
  unfolding collect flush
  flushed-collect now topic e w = elim (Bool-cases (leb max_size (length (w.batch ++ e ∷ [])))) [
    | inl q ↦ rw q (
        append-nil (flushed (flush_batch marshal max_size now topic (w.batch ++ e ∷ [])))
        ∙ flushed-flush_batch now topic (w.batch ++ e ∷ []))
    | inr q ↦ rw q
  ]

  flush_batch-Fits :
      (now : ℕ) (topic : String) (es : List StreamEvent)
      → length es ≤ max_size
      → All (Fits max_size) (flush_batch marshal max_size now topic es)
  unfolding flush_batch deliver
  flush_batch-Fits now topic [] p = tt
  flush_batch-Fits now topic (e ∷ es) p = elim (Option-cases (marshal (payloads (e ∷ es)))) [
    | inl q ↦ rw q (omega arith)
    | inr (b, q) ↦ rw q (omega arith)
  ]

  pub flush-Fits :
      (now : ℕ) (w : Worker)
      → length w.batch ≤ max_size
      → All (Fits max_size) (flush marshal max_size now w).1
  unfolding flush
  flush-Fits now w p = flush_batch-Fits now w.last_topic w.batch p

  -- Below the size a received event leaves the batch below the size, and what it flushes fits.
  pub collect-Fits :
      (now : ℕ) (topic : String) (e : StreamEvent) (w : Worker)
      → length w.batch < max_size
      → let (w', cs) = collect marshal max_size now topic e w in
        (length w'.batch < max_size) × All (Fits max_size) cs
  unfolding collect flush
  collect-Fits now topic e w p = elim (Bool-cases (leb max_size (length (w.batch ++ e ∷ [])))) [
    | inl q ↦ rw q (
      omega arith,
      flush_batch-Fits now topic (w.batch ++ e ∷ [])
          (omega (arith, length-append w.batch (e ∷ []))),
    )
    | inr q ↦ rw q (ground arith, tt)
  ]
