-- ===== src/Replay/Position.antt =====
-- docs/replay/consumer.go: where a replay starts.
use nephtys.Prelude.{
  ℕ, zero, suc, ◌<◌, ◌^◌, ◌≡◌, refl, subst, String, Bool, true, false, Option, none, some, arith,
  if◌then◌else◌, ◌||◌,
}
use nephtys.Prelude.Int.{ℤ, pos, negsuc, ◌≤ℤ◌}
use nephtys.Prelude.Text.{str_eq, is_blank, codes}
use nephtys.Prelude.Result.{Result, ok}
use nephtys.Host.Number.{read_number}
use nephtys.Replay.{
  Start, deliver_all, deliver_new, deliver_last, deliver_last_per_subject, start_sequence, ago,
  instant, StartError, Parsers, in_uint64, parse_uint, at_instant, at_duration, at_sequence,
  start_option,
}

-- What a start means: a sequence that a stream can have and that the text spells, a time that is not
-- ahead, or an instant.
abbrev pub InRange : Parsers → String → Start → Type 0
InRange parsers from (start_sequence n) =
    (0 < n) × (n < 2 ^ 64) × (read_number (codes from) ≡ some n)
InRange parsers from (ago d) = (pos 0 ≤ℤ d) × (parsers.parse_duration from ≡ some d)
InRange parsers from (instant t) = parsers.parse_time from ≡ some t
InRange parsers from _ = Unit {0}

in_uint64-some : (o : Option ℕ) (n : ℕ) → in_uint64 o ≡ some n → (o ≡ some n) × (n < 2 ^ 64)
in_uint64-some none n e = cc
in_uint64-some (some k) n e = ground (arith, e)

at_instant-InRange :
    (parsers : Parsers) (from : String) (o : Option ℕ) (s : Start)
    → parsers.parse_time from ≡ o
    → at_instant o ≡ ok s
    → InRange parsers from s
at_instant-InRange parsers from none s p e = cc
at_instant-InRange parsers from (some t) s p e =
    let same : instant t ≡ s = cc in subst (InRange parsers from) same p

at_duration-InRange :
    (parsers : Parsers) (from : String) (o : Option ℤ) (s : Start)
    → parsers.parse_duration from ≡ o
    → at_duration o (parsers.parse_time from) ≡ ok s
    → InRange parsers from s
at_duration-InRange parsers from none s p e =
    at_instant-InRange parsers from (parsers.parse_time from) s refl e
at_duration-InRange parsers from (some (negsuc d)) s p e = ground (arith, e)
at_duration-InRange parsers from (some (pos d)) s p e =
    let same : ago (pos d) ≡ s = ground (arith, e) in
    subst (InRange parsers from) same (omega arith, p)

at_sequence-InRange :
    (parsers : Parsers) (from : String) (o : Option ℕ) (s : Start)
    → parse_uint from ≡ o
    → at_sequence o (parsers.parse_duration from) (parsers.parse_time from) ≡ ok s
    → InRange parsers from s
unfolding parse_uint
at_sequence-InRange parsers from none s p e =
    at_duration-InRange parsers from (parsers.parse_duration from) s refl e
at_sequence-InRange parsers from (some zero) s p e = cc
at_sequence-InRange parsers from (some (suc n)) s p e =
    let same : start_sequence (suc n) ≡ s = cc in
    let (read, small) = in_uint64-some (read_number (codes from)) (suc n) p in
    subst (InRange parsers from) same (omega arith, small, read)

-- The words for a start have no number in them.
word-InRange :
    (parsers : Parsers) (from : String) (b : Bool) (w s : Start) (r : Result StartError Start)
    → InRange parsers from w
    → (r ≡ ok s → InRange parsers from s)
    → (if b then ok w else r) ≡ ok s
    → InRange parsers from s
word-InRange parsers from true w s r i rest e =
    let same : w ≡ s = cc in subst (InRange parsers from) same i
word-InRange parsers from false w s r i rest e = rest e

-- A start by sequence is the positive number below 2 ^ 64 that the text spells, one by duration goes
-- back by the duration that the text reads as, which is not negative, and one by time is the instant
-- that the text reads as.
pub start-InRange :
    (parsers : Parsers) (from : String) (s : Start)
    → start_option parsers from ≡ ok s
    → InRange parsers from s
unfolding start_option
start-InRange parsers from s =
    let word = parsers.fold from in
    word-InRange parsers from (str_eq word "all" || is_blank word) deliver_all s _ tt (
      word-InRange parsers from (str_eq word "new") deliver_new s _ tt (
        word-InRange parsers from (str_eq word "last") deliver_last s _ tt (
          word-InRange parsers from (str_eq word "last-per-subject") deliver_last_per_subject s _ tt
            (at_sequence-InRange parsers from (parse_uint from) s refl))))
