-- ===== src/Replay/Limit.antt =====
-- docs/replay/consumer.go: what a run prints and acknowledges, and when it ends.
use nephtys.Prelude.{
  ℕ, zero, suc, ◌+◌, ◌≤◌, ◌≡◌, refl, subst, String, Bool, true, false, Option, none, some, List, [],
  ◌∷◌, length, arith, All, length-append, both-branches,
}
use nephtys.Prelude.Int.{ℤ, pos, negsuc}
use nephtys.Replay.{
  FetchError, canceled, deadline_exceeded, timeout, failed, fetch_error, Msg, Fetched, messages,
  error, wants_more, want, End, waiting, counted, interrupt, idle_end, receive_failed, ack_failed,
  Run, new_run, print, ack, unless_unacked, consume, stop, on_error, round, is_over, replay,
}

-- The client gives no more messages than it was asked for.
abbrev pub Bounded : Fetched → Type 0
Bounded (messages f) = (n : ℕ) → length (f n) ≤ n
Bounded (error e x) = Unit {0}

-- Whether a run ended on an acknowledgement that failed.
abbrev pub unacked : Option End → ℕ
unacked (some (ack_failed e)) = 1
unacked _ = 0

-- Every message that was seen is printed, and acknowledged but for the one whose Ack failed.
pub record Tallies (r : Run) : Type 0 where
  pub printed : length r.printed ≡ r.seen
  pub acked : r.acked + unacked r.end ≡ r.seen

-- A run that goes on.
pub record Level (r : Run) : Type 0 where
  pub printed : length r.printed ≡ r.seen
  pub acked : r.acked ≡ r.seen
  pub goes_on : r.end ≡ none

pub ack-Level : (m : Msg) (r : Run) → Level r → Level (ack none (print m r))
ack-Level m r t = record {
  printed = omega (arith, length-append r.printed (m.content ∷ []), t.printed);
  acked = omega (arith, t.acked);
  goes_on = t.goes_on;
}

Level-Tallies : (r : Run) → Level r → Tallies r
Level-Tallies r t = record { printed = t.printed; acked = ground (arith, t.goes_on, t.acked) }

abbrev Consumed : Run → ℕ → Run → Type 0
Consumed r n r' = Tallies r' × (r'.seen ≤ r.seen + n) × (r'.end ≡ none → Level r')

unless_unacked-Consumed :
    (o : Option String) (m : Msg) (r rest : Run) (n : ℕ)
    → Level r
    → Consumed (ack none (print m r)) n rest
    → Consumed r (suc n) (unless_unacked o (print m r) rest)
unless_unacked-Consumed none m r rest n t (a, b, c) = (a, omega (arith, b), c)
unless_unacked-Consumed (some x) m r rest n t c = (
  record {
    printed = omega (arith, length-append r.printed (m.content ∷ []), t.printed);
    acked = omega (arith, t.acked);
  },
  omega arith,
  (λ e. cc),
)

consume-Consumed : (ms : List Msg) (r : Run) → Level r → Consumed r (length ms) (consume ms r)
unfolding consume
consume-Consumed [] r t = (Level-Tallies r t, omega arith, λ _. t)
consume-Consumed (m ∷ ms) r t =
    unless_unacked-Consumed m.ack_error m r (consume ms (ack none (print m r))) (length ms) t
      (consume-Consumed ms (ack none (print m r)) (ack-Level m r t))

-- The limit of a run with a positive count.
abbrev Below : ℤ → ℕ → Type 0
Below (pos (suc c)) seen = seen ≤ suc c
Below _ seen = Unit {0}

abbrev Rounded : ℤ → Run → Type 0
Rounded count r' = Tallies r' × Below count r'.seen × (r'.end ≡ none → Level r')

stop-Rounded :
    (count : ℤ) (e : End) (r : Run)
    → unacked (some e) ≡ 0
    → Level r
    → Below count r.seen
    → Rounded count (stop e r)
stop-Rounded count e r u t b =
    (record { printed = t.printed; acked = omega (arith, u, t.acked) }, b, (λ x. cc))

on_error-Rounded :
    (count : ℤ) (has_idle : Bool) (e : FetchError) (r : Run)
    → Level r
    → Below count r.seen
    → Rounded count (on_error has_idle e r)
on_error-Rounded count has_idle canceled r t b = stop-Rounded count interrupt r refl t b
on_error-Rounded count has_idle (failed e) r t b =
    stop-Rounded count (receive_failed (failed e)) r refl t b
on_error-Rounded count true deadline_exceeded r t b = stop-Rounded count idle_end r refl t b
on_error-Rounded count true timeout r t b = stop-Rounded count idle_end r refl t b
on_error-Rounded count false deadline_exceeded r t b = (Level-Tallies r t, b, λ _. t)
on_error-Rounded count false timeout r t b = (Level-Tallies r t, b, λ _. t)

want-Below :
    (count : ℤ) (seen seen' n : ℕ)
    → wants_more count seen ≡ true
    → n ≤ want count seen
    → seen' ≤ seen + n
    → Below count seen'
unfolding wants_more want
want-Below (pos zero) seen seen' n w l m = tt
want-Below (pos (suc c)) seen seen' n w l m = ground (arith, w, l, m)
want-Below (negsuc c) seen seen' n w l m = tt

round-Rounded :
    (count : ℤ) (has_idle : Bool) (x : Fetched) (r : Run)
    → Bounded x
    → wants_more count r.seen ≡ true
    → Level r
    → Below count r.seen
    → Rounded count (round count has_idle x r)
round-Rounded count has_idle (messages f) r bound w t b =
    let ms = f (want count r.seen) in
    let (a, l, c) = consume-Consumed ms r t in
    (a, want-Below count r.seen (consume ms r).seen (length ms) w (bound (want count r.seen)) l, c)
round-Rounded count has_idle (error e x) r bound w t b =
    on_error-Rounded count has_idle (fetch_error has_idle e x) r t b

over-or-none : (o : Option End) → (elim o [ none ↦ false | some e ↦ true ]) ≡ false → o ≡ none
over-or-none none e = refl
over-or-none (some x) e = cc

replay-Rounded :
    (count : ℤ) (has_idle : Bool) (xs : List Fetched) (r : Run)
    → All Bounded xs
    → Rounded count r
    → Tallies (replay count has_idle xs r) × Below count (replay count has_idle xs r).seen
unfolding replay
replay-Rounded count has_idle [] r bs (t, b, l) =
    both-branches (λ x. Tallies x × Below count x.seen) (is_over r) (λ _. (t, b))
      (λ o.
        let level = l (over-or-none r.end o) in
        let done = λ (e : End) (u : unacked (some e) ≡ 0). stop-Rounded count e r u level b in
        both-branches (λ x. Tallies x × Below count x.seen) (wants_more count r.seen)
          (λ _. ((done waiting refl).0, b)) (λ _. ((done counted refl).0, b)))
replay-Rounded count has_idle (x ∷ xs) r (bound, bs) (t, b, l) =
    both-branches (λ x. Tallies x × Below count x.seen) (is_over r) (λ _. (t, b))
      (λ o.
        let level = l (over-or-none r.end o) in
        both-branches (λ x. Tallies x × Below count x.seen) (wants_more count r.seen)
          (λ w.
            replay-Rounded count has_idle xs (round count has_idle x r) bs
              (round-Rounded count has_idle x r bound w level b))
          (λ _. ((stop-Rounded count counted r refl level b).0, b)))

begun : (count : ℤ) → Rounded count new_run
begun (pos zero) = (record { printed = refl; acked = omega arith }, tt, λ _. fresh)
  where
    fresh : Level new_run
    fresh = record { printed = refl; acked = refl; goes_on = refl }
begun (pos (suc c)) = (record { printed = refl; acked = omega arith }, omega arith, λ _. fresh)
  where
    fresh : Level new_run
    fresh = record { printed = refl; acked = refl; goes_on = refl }
begun (negsuc c) = (record { printed = refl; acked = omega arith }, tt, λ _. fresh)
  where
    fresh : Level new_run
    fresh = record { printed = refl; acked = refl; goes_on = refl }

-- Whatever the broker answers, if it gives no more messages than it is asked for: a run prints each
-- message that it counts and acknowledges it, but for the last one if its Ack failed, and under a
-- positive count it takes no more messages than that.
pub limit_kept :
    (count : ℤ) (has_idle : Bool) (xs : List Fetched)
    → All Bounded xs
    → let r = replay count has_idle xs new_run in
      (length r.printed ≡ r.seen)
      × (r.acked + unacked r.end ≡ r.seen)
      × ((c : ℕ) → count ≡ pos (suc c) → r.seen ≤ suc c)
limit_kept count has_idle xs bs =
    let r = replay count has_idle xs new_run in
    let (t, b) = replay-Rounded count has_idle xs new_run bs (begun count) in
    (t.printed, t.acked, (λ c e. subst (λ k. Below k r.seen) e b))
