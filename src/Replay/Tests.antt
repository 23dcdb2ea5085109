-- ===== src/Replay/Tests.antt =====
-- A run over two messages.
use nephtys.Prelude.{Option, ℕ, ◌≡◌, refl, true, none, some, List, [], ◌∷◌, arith}
use nephtys.Prelude.Int.{pos}
use nephtys.Replay.{Msg, messages, counted, new_run, replay, start_option, Parsers, start_sequence}
use nephtys.Prelude.Result.{ok}
use nephtys.Domain.Event.{Bytes, StreamEvent, content_type_json}
use nephtys.Broker
use nephtys.Broker.{encode_event, encode_as, publish_message}
use nephtys.Replay.Line.{Envelope, Position, print_message}
use nephtys.Replay.Published.{delivered, envelope_of, line_of, published_printed}
use nephtys.Fixtures.{trade}
use nephtys.Replay.Ends.{Delivers, replay_ends}

abbrev msg : Msg
msg = record { content = 1 ∷ []; ack_error = none }

-- One message for whoever asks.
abbrev one : ℕ → List Msg
one n = msg ∷ []

one-Delivers : Delivers (messages one)
one-Delivers n h = (omega arith, h, (refl, tt))

replay_ends_example :
    let r = replay (pos 2) true (messages one ∷ messages one ∷ []) new_run in
    (r.end ≡ some counted) × (r.seen ≡ 2)
replay_ends_example =
    replay_ends 1 true (messages one ∷ messages one ∷ []) (one-Delivers, (one-Delivers, tt))
      (omega arith)

abbrev parsers : Parsers
parsers = record { fold = λ s. s; parse_duration = λ s. none; parse_time = λ s. none }

from_sequence : start_option parsers "4210" ≡ ok (start_sequence 4210)
unfolding start_option
from_sequence = refl

abbrev as_text : StreamEvent → Option Bytes
as_text e = some (b'{' ∷ b'}' ∷ [])

abbrev as_trade : Bytes → Option Envelope
as_trade bs = some (envelope_of (trade 4))

abbrev sent : Broker.Msg
sent = record {
  subject = "events";
  payload = b'{' ∷ b'}' ∷ [];
  content_type = some content_type_json;
  seq = some 4;
}

trade-sent : publish_message as_text "events" (trade 4) ≡ ok sent
unfolding publish_message encode_event encode_as
trade-sent = refl

abbrev place : Position
place = record { sequence = 12; stored_at = 100 }

published_printed_example :
    print_message as_trade (λ bs. bs) (delivered place sent)
    ≡ line_of as_text as_trade (λ bs. bs) place "events" (trade 4)
published_printed_example =
    published_printed as_text as_trade (λ bs. bs) place "events" (trade 4) sent trade-sent
      (λ b e. refl)
