-- ===== src/Pipeline/Generation/Ordering.antt =====
-- internal/pipeline/batch.go: the events on their way from the channel through the batch.
use nephtys.Prelude.{◌≡◌, sym, ap, ◌∙◌, String, List, [], ◌∷◌, ◌++◌, map}
use mathlib.Core.List.{map-append}
use nephtys.Prelude.Lists.{append_assoc}
use nephtys.Domain.Event.{StreamEvent}
use nephtys.Pipeline.Batch.{Call}
use nephtys.Pipeline.Batch.Laws.{flushed, flushed-append}

abbrev pub events : List (String × StreamEvent) → List StreamEvent
events = map (λ (te : String × StreamEvent). te.1)

-- The order of the accepted events, across a send, a receive and a flush.
pub order_send :
    (fs bs : List StreamEvent) (ch : List (String × StreamEvent)) (te : String × StreamEvent)
    (accepted : List StreamEvent)
    → fs ++ (bs ++ events ch) ≡ accepted
    → fs ++ (bs ++ events (ch ++ te ∷ [])) ≡ accepted ++ te.1 ∷ []
order_send fs bs ch te accepted h = rw (← h) (simp (map-append, append_assoc))

pub order_take :
    (calls made : List Call) (bs bs' : List StreamEvent) (te : String × StreamEvent)
    (rest : List (String × StreamEvent)) (accepted : List StreamEvent)
    → flushed made ++ bs' ≡ bs ++ te.1 ∷ []
    → flushed calls ++ (bs ++ events (te ∷ rest)) ≡ accepted
    → flushed (calls ++ made) ++ (bs' ++ events rest) ≡ accepted
order_take calls made bs bs' te rest accepted m h =
    rw (← h, flushed-append calls made)
      (simp (append_assoc) (
        ap (λ (es : List StreamEvent). flushed calls ++ es)
          (sym (append_assoc (flushed made) bs' (events rest))
            ∙ ap (λ (es : List StreamEvent). es ++ events rest) m
            ∙ append_assoc bs (te.1 ∷ []) (events rest))))

pub order_flush :
    (calls made : List Call) (bs : List StreamEvent) (ch : List (String × StreamEvent))
    (accepted : List StreamEvent)
    → flushed made ≡ bs
    → flushed calls ++ (bs ++ events ch) ≡ accepted
    → flushed (calls ++ made) ++ events ch ≡ accepted
order_flush calls made bs ch accepted m h =
    rw (← h, flushed-append calls made, m) (append_assoc (flushed calls) bs (events ch))
