-- ===== src/Replay/Ends.antt =====
-- docs/replay/consumer.go: a run that is limited ends.
use nephtys.Prelude.{
  ℕ, suc, ◌+◌, ◌-◌, ◌≤◌, ◌<◌, ◌≡◌, refl, ap, sym, subst, Bool, true, false, Option, none, some,
  List, [], ◌∷◌, ltb, if◌then◌else◌, length, arith, All, both-branches,
}
use nephtys.Prelude.Int.{pos}
use nephtys.Replay.{
  Msg, Fetched, messages, error, wants_more, want, End, waiting, counted, Run, new_run, print, ack,
  unless_unacked, consume, stop, round, is_over, replay,
}
use nephtys.Replay.Limit.{Level, ack-Level}

abbrev pub Acknowledged : List Msg → Type 0
Acknowledged ms = All (λ m. m.ack_error ≡ none) ms

-- The broker has a message, gives at most as many as it is asked for, and takes every Ack.
abbrev pub Delivers : Fetched → Type 0
Delivers (messages f) =
    (n : ℕ) → 0 < n → (0 < length (f n)) × (length (f n) ≤ n) × Acknowledged (f n)
Delivers (error e x) = ⊥

consume_all :
    (ms : List Msg) (r : Run)
    → Acknowledged ms
    → Level r
    → Level (consume ms r) × ((consume ms r).seen ≡ r.seen + length ms)
unfolding consume
consume_all [] r a l = (l, omega arith)
consume_all (m ∷ ms) r (p, a) l =
    let next : Run = ack none (print m r) in
    let (l', e) = consume_all ms next a (ack-Level m r l) in
    subst
      (λ o.
        let r' = unless_unacked o (print m r) (consume ms next) in
        Level r' × (r'.seen ≡ r.seen + suc (length ms)))
      (sym p) (l', omega (arith, e))

want-pos :
    (c seen : ℕ)
    → seen < suc c
    → (0 < want (pos (suc c)) seen) × (want (pos (suc c)) seen ≤ suc c - seen)
unfolding want
want-pos c seen l = ground (arith, l)

module _ (c : ℕ) (has_idle : Bool) where
  abbrev Done : Run → Type 0
  Done r = (r.end ≡ some counted) × (r.seen ≡ suc c)

  -- One pass of the loop of a run that goes on.
  pass-Done :
      (r rest : Run)
      → Level r
      → r.seen ≤ suc c
      → (r.seen < suc c → Done rest)
      → Done (
          if is_over r then r else if wants_more (pos (suc c)) r.seen then rest else stop counted r)
  unfolding wants_more
  pass-Done r rest l b more =
      both-branches Done (is_over r)
        (λ o.
          absurd (cc (ap (λ (x : Option End). elim x [ none ↦ false | some e ↦ true ]) l.goes_on)))
        (λ _.
          both-branches Done (ltb r.seen (suc c)) (λ w. more (ground (arith, w)))
            (λ w. (refl, ground (arith, w, b))))

  ended :
      (xs : List Fetched) (r : Run)
      → All Delivers xs
      → Level r
      → r.seen ≤ suc c
      → suc c ≤ r.seen + length xs
      → Done (replay (pos (suc c)) has_idle xs r)
  unfolding replay
  ended [] r ds l b enough =
      pass-Done r (stop waiting r) l b (λ w. absurd (omega (arith, enough, w)))
  ended (error e x ∷ xs) r (d, ds) l b enough = absurd d
  ended (messages f ∷ xs) r (d, ds) l b enough =
      let next : Run = round (pos (suc c)) has_idle (messages f) r in
      pass-Done r (replay (pos (suc c)) has_idle xs next) l b (λ w.
        let (some_wanted, fits) = want-pos c r.seen w in
        let (got, few, acks) = d (want (pos (suc c)) r.seen) some_wanted in
        let (l', e) = consume_all (f (want (pos (suc c)) r.seen)) r acks l in
        ended xs next ds l' (omega (arith, e, few, fits, w)) (omega (arith, e, got, enough)))

  -- If the broker has a message in every round, gives at most as many as it is asked for and takes
  -- every Ack, a run under a positive count ends after at most that many rounds, by its count and with
  -- exactly that many messages seen.
  pub replay_ends :
      (xs : List Fetched)
      → All Delivers xs
      → suc c ≤ length xs
      → let r = replay (pos (suc c)) has_idle xs new_run in
        (r.end ≡ some counted) × (r.seen ≡ suc c)
  replay_ends xs ds enough =
      ended xs new_run ds (record { printed = refl; acked = refl; goes_on = refl }) (omega arith)
        (omega (arith, enough))
