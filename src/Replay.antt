-- ===== src/Replay.antt =====
-- docs/replay/consumer.go: the example consumer that replays what was published. What the broker and
-- the signals answer are inputs; a text is its bytes where it is cut.
pub mod Line
pub mod Published
pub mod Position
pub mod Limit
pub mod Ends
pub mod Preview
mod Tests
use nephtys.Prelude.{
  ℕ, zero, suc, ◌+◌, ◌-◌, ◌^◌, String, Bool, true, false, Option, none, some, List, [], ◌∷◌, ◌++◌,
  not, ◌&&◌, ◌||◌, leb, ltb, ◌==◌, if◌then◌else◌, length, get_elem?, take,
}
use nephtys.Prelude.Int.{ℤ, pos, negsuc, ltb_ℤ}
use nephtys.Prelude.Text.{str_eq, is_blank, codes, append}
use nephtys.Prelude.Result.{Result, ok, err}
use nephtys.Domain.Event.{Bytes}
use nephtys.Host.{Url}
use nephtys.Host.Number.{read_number}

-- A delivery policy. `ago` is a start time that many nanoseconds before now, `instant` one that
-- time.Parse read.
pub data Start : Type 0 where
  deliver_all deliver_new deliver_last deliver_last_per_subject : Start
  start_sequence : ℕ → Start
  ago : ℤ → Start
  instant : ℕ → Start

pub data StartError : Type 0 where
  sequence_zero negative_duration unknown : StartError

-- strings.ToLower after strings.TrimSpace, time.ParseDuration, time.Parse
pub record Parsers : Type 0 where
  pub fold : String → String
  pub parse_duration : String → Option ℤ
  pub parse_time : String → Option ℕ

abbrev pub in_uint64 : Option ℕ → Option ℕ
in_uint64 none = none
in_uint64 (some n) = if ltb n (2 ^ 64) then some n else none

-- `strconv.ParseUint(from, 10, 64)`
unfoldable pub parse_uint : String → Option ℕ
unfolding read_number
parse_uint from = in_uint64 (read_number (codes from))

abbrev pub at_instant : Option ℕ → Result StartError Start
at_instant none = err unknown
at_instant (some t) = ok (instant t)

abbrev pub at_duration : Option ℤ → Option ℕ → Result StartError Start
at_duration none time = at_instant time
at_duration (some d) time = if ltb_ℤ d (pos 0) then err negative_duration else ok (ago d)

abbrev pub at_sequence : Option ℕ → Option ℤ → Option ℕ → Result StartError Start
at_sequence none duration time = at_duration duration time
at_sequence (some zero) duration time = err sequence_zero
at_sequence (some (suc n)) duration time = ok (start_sequence (suc n))

unfoldable pub start_option : Parsers → String → Result StartError Start
unfolding parse_uint
start_option parsers from =
    let word = parsers.fold from in
    if str_eq word "all" || is_blank word
    then ok deliver_all
    else if str_eq word "new"
    then ok deliver_new
    else if str_eq word "last"
    then ok deliver_last
    else if str_eq word "last-per-subject"
    then ok deliver_last_per_subject
    else at_sequence (parse_uint from) (parsers.parse_duration from) (parsers.parse_time from)

-- An error of Fetch, and whether the interrupt had come by then.
pub data FetchError : Type 0 where
  canceled deadline_exceeded timeout : FetchError
  failed : String → FetchError

unfoldable pub quiet : FetchError → Bool
quiet deadline_exceeded = true
quiet timeout = true
quiet _ = false

-- A message that was fetched, with what its Ack answers.
pub record Msg : Type 0 where
  pub content : Bytes
  pub ack_error : Option String

-- What Fetch answers for the number of messages asked for.
pub data Fetched : Type 0 where
  messages : (ℕ → List Msg) → Fetched
  error : FetchError → Bool → Fetched

-- The error that fetch returns: with an idle time, an interrupt wins over the deadline of the child.
unfoldable pub fetch_error : Bool → FetchError → Bool → FetchError
fetch_error has_idle e interrupted = if has_idle && interrupted then canceled else e

abbrev pub fetch_batch : ℕ
fetch_batch = 64

-- `count == 0 || seen < count`
unfoldable pub wants_more : ℤ → ℕ → Bool
wants_more (pos zero) seen = true
wants_more (pos (suc c)) seen = ltb seen (suc c)
wants_more (negsuc c) seen = false

-- How many messages are asked for.
unfoldable pub want : ℤ → ℕ → ℕ
want (pos (suc c)) seen = if ltb (suc c - seen) fetch_batch then suc c - seen else fetch_batch
want count seen = fetch_batch

-- How a run ends; `waiting` where the broker has not answered yet.
pub data End : Type 0 where
  waiting counted interrupt idle_end : End
  receive_failed : FetchError → End
  ack_failed : String → End

pub record Run : Type 0 where
  pub printed : List Bytes
  pub acked : ℕ
  pub seen : ℕ
  pub end : Option End

abbrev pub new_run : Run
new_run = record { printed = []; acked = 0; seen = 0; end = none }

abbrev pub print : Msg → Run → Run
print m r = record r { printed = r.printed ++ m.content ∷ []; seen = r.seen + 1 }

abbrev pub ack : Option String → Run → Run
ack none r = record r { acked = r.acked + 1 }
ack (some e) r = record r { end = some (ack_failed e) }

-- An Ack that fails ends the run.
abbrev pub unless_unacked : Option String → Run → Run → Run
unless_unacked none r rest = rest
unless_unacked (some e) r rest = ack (some e) r

-- The loop over a batch, with its early return.
unfoldable pub consume : List Msg → Run → Run
consume [] r = r
consume (m ∷ ms) r =
    let rest = consume ms (ack none (print m r)) in unless_unacked m.ack_error (print m r) rest

abbrev pub stop : End → Run → Run
stop e r = record r { end = some e }

abbrev pub on_error : Bool → FetchError → Run → Run
on_error has_idle canceled r = stop interrupt r
on_error has_idle (failed e) r = stop (receive_failed (failed e)) r
on_error has_idle e r = if has_idle then stop idle_end r else r

abbrev pub round : ℤ → Bool → Fetched → Run → Run
round count has_idle (messages f) r = consume (f (want count r.seen)) r
round count has_idle (error e interrupted) r =
    on_error has_idle (fetch_error has_idle e interrupted) r

abbrev pub is_over : Run → Bool
is_over r = elim r.end [ none ↦ false | some e ↦ true ]

-- The main loop, on what the broker answers round by round.
unfoldable pub replay : ℤ → Bool → List Fetched → Run → Run
unfolding consume fetch_error wants_more want
replay count has_idle [] r =
    if is_over r then r else if wants_more count r.seen then stop waiting r else stop counted r
replay count has_idle (x ∷ xs) r =
    let rest = replay count has_idle xs (round count has_idle x r) in
    if is_over r then r else if wants_more count r.seen then rest else stop counted r

abbrev pub payload_preview : ℕ
payload_preview = 160

-- `utf8.RuneStart`
unfoldable pub rune_start : ℕ → Bool
rune_start b = ltb b 128 || leb 192 b

-- The byte at a place; the loop stays inside the text.
abbrev pub starts_at : Option ℕ → Bool
starts_at none = true
starts_at (some b) = rune_start b

-- `for cut > 0 && !utf8.RuneStart(s[cut]) { cut-- }`
unfoldable pub back_up : Bytes → ℕ → ℕ
unfolding rune_start
back_up s zero = zero
back_up s (suc cut) =
    let before = back_up s cut in if starts_at (get_elem? s (suc cut)) then suc cut else before

-- The bytes of the ellipsis.
abbrev pub ellipsis : Bytes
ellipsis = 226 ∷ 128 ∷ 166 ∷ []

-- Of the trimmed text.
unfoldable pub preview : Bytes → Bytes
unfolding back_up
preview s =
    if leb (length s) payload_preview then s else take (back_up s payload_preview) s ++ ellipsis

-- `strings.Contains(raw, "://")` is a parameter, and `url.Parse` and `String` as elsewhere.
abbrev pub broker_url : (Url → String) → Option Url → Option String
broker_url show_url none = none
broker_url show_url (some u) =
    if is_blank u.host
    then none
    else some (show_url (record u { user = none; raw_query = []; fragment = "" }))

unfoldable pub redact_url :
    (String → Bool) → (String → Option Url) → (Url → String) → String → Option String
redact_url has_scheme parse_url show_url raw =
    broker_url show_url (parse_url (if has_scheme raw then raw else append "nats://" raw))
