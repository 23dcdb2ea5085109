-- ===== src/Broker/Tests.antt =====
-- An Arrow batch on its way out.
use nephtys.Prelude.{◌≡◌, refl, Option, some, [], ◌∷◌}
use nephtys.Prelude.Result.{ok}
use nephtys.Domain.Event.{Bytes, StreamEvent, content_type_arrow_stream}
use nephtys.Broker.{
  Carries, Msg, encode_event, encode_as, publish_message, type_or_json, message_agrees,
}
use nephtys.Fixtures.{trade}

abbrev arrow : StreamEvent
arrow = record (trade 4) {
  content_type = content_type_arrow_stream;
  payload = [];
  body_data = 4 ∷ 5 ∷ [];
}

abbrev as_text : StreamEvent → Option Bytes
as_text e = some (b'{' ∷ b'}' ∷ [])

abbrev sent : Msg
sent = record {
  subject = "events";
  payload = 4 ∷ 5 ∷ [];
  content_type = some content_type_arrow_stream;
  seq = some 4;
}

arrow-sent : publish_message as_text "events" arrow ≡ ok sent
unfolding publish_message encode_event encode_as
arrow-sent = refl

message_agrees_example :
    (sent.subject ≡ "events")
    × (sent.content_type ≡ some (type_or_json arrow.content_type))
    × Carries as_text arrow sent.payload
message_agrees_example = message_agrees as_text "events" arrow sent arrow-sent
