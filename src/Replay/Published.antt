-- ===== src/Replay/Published.antt =====
-- docs/replay/consumer.go with internal/broker/nats.go: what the consumer prints of an event that
-- Publish sent.
use nephtys.Prelude.{
  ◌≡◌, refl, ap, sym, ◌∙◌, ℕ, String, true, false, Option, none, some, inl, inr, if◌then◌else◌,
  length, ltb, arith, Bool-cases,
}
use nephtys.Prelude.Text.{is_blank}
use nephtys.Prelude.Result.{ok, >>=-eq-ok}
use nephtys.Domain.Event.{Bytes, StreamEvent, content_type_json, is_binary, body}
use nephtys.Broker.{Msg, message, type_or_json, encode_event, encode-ok, publish_message}
use nephtys.Replay.{preview}
use nephtys.Replay.Line.{
  Envelope, Position, Delivered, Line, raw, event_line, is_raw, print_decoded, print_message,
}

abbrev pub header : Option String → String
header none = ""
header (some text) = text

-- The message that the broker stored at the position, as it is delivered.
abbrev pub delivered : Position → Msg → Delivered
delivered p msg = record {
  subject = msg.subject;
  content = msg.payload;
  content_type = header msg.content_type;
  seq = msg.seq;
  position = some p;
}

abbrev pub envelope_of : StreamEvent → Envelope
envelope_of e = record {
  source = e.source;
  type = e.type;
  timestamp = e.timestamp;
  seq = e.seq;
  content_type = e.content_type;
  payload = e.payload;
}

is_raw-type_or_json : (ct : String) → is_raw (type_or_json ct) ≡ is_raw ct
unfolding is_raw
is_raw-type_or_json ct = elim (Bool-cases (is_blank ct)) [
  | inl b ↦
      let json : type_or_json ct ≡ content_type_json = ground (arith, b) in
      let plain : is_raw ct ≡ false = ground (arith, b) in ap is_raw json ∙ sym plain
  | inr b ↦ let kept : type_or_json ct ≡ ct = ground (arith, b) in ap is_raw kept
]

raw_type : (e : StreamEvent) → is_binary e ≡ true → type_or_json e.content_type ≡ e.content_type
unfolding is_binary
raw_type e b = ground (arith, b)

is_raw-is_binary : (e : StreamEvent) → is_raw e.content_type ≡ is_binary e
unfolding is_raw is_binary
is_raw-is_binary e = refl

module _ (marshal : StreamEvent → Option Bytes) (unmarshal : Bytes → Option Envelope)
    (trim : Bytes → Bytes) where
  -- The line that shows the event.
  abbrev pub line_of : Position → String → StreamEvent → Line
  line_of p topic e =
      if is_binary e
      then raw p topic e.content_type (length e.body_data)
          (if ltb 0 e.seq then some e.seq else none)
      else event_line p topic e.source e.type e.seq (preview (trim e.payload))

  sent-printed :
      (p : Position) (topic : String) (e : StreamEvent) (bs : Bytes) (ct : String)
      → encode_event marshal e ≡ ok (bs, ct)
      → ((b : Bytes) → marshal e ≡ some b → unmarshal b ≡ some (envelope_of e))
      → print_message unmarshal trim (delivered p (message topic e (bs, ct))) ≡ line_of p topic e
  unfolding print_message body
  sent-printed p topic e bs ct sent reads =
      let (typed, filled, binary, json) = encode-ok marshal e bs ct sent in
      let head : header (if is_blank ct then none else some ct) ≡ ct =
        ap (λ b. header (if b then none else some ct)) filled in
      let is_raw_ct : is_raw ct ≡ is_binary e =
        ap is_raw typed ∙ is_raw-type_or_json e.content_type ∙ is_raw-is_binary e in
      let seq : Option ℕ = if ltb 0 e.seq then some e.seq else none in
      let other : Line =
        print_decoded unmarshal trim p (delivered p (message topic e (bs, ct))) (unmarshal bs) in
      let shown : String → Line = λ h. if is_raw h then raw p topic h (length bs) seq else other in
      elim (Bool-cases (is_binary e)) [
        | inl b ↦
            let kept : ct ≡ e.content_type = typed ∙ raw_type e b in
            let bytes : bs ≡ e.body_data =
              (binary b).0 ∙ ap (λ x. if x then e.body_data else e.payload) b in
            ap shown head
            ∙ ap (λ x. if x then raw p topic ct (length bs) seq else other) (is_raw_ct ∙ b)
            ∙ ap (λ c. raw p topic c (length bs) seq) kept
            ∙ ap (λ x. raw p topic e.content_type (length x) seq) bytes
            ∙ sym (
                ap
                  (λ x.
                    if x
                    then raw p topic e.content_type (length e.body_data) seq
                    else event_line p topic e.source e.type e.seq (preview (trim e.payload)))
                  b)
        | inr b ↦
            ap shown head
            ∙ ap (λ x. if x then raw p topic ct (length bs) seq else other) (is_raw_ct ∙ b)
            ∙ ap (print_decoded unmarshal trim p (delivered p (message topic e (bs, ct))))
                (reads bs (json b))
            ∙ sym (
                ap
                  (λ x.
                    if x
                    then raw p topic e.content_type (length e.body_data) seq
                    else event_line p topic e.source e.type e.seq (preview (trim e.payload)))
                  b)
      ]

  -- Let unmarshalling read back what marshalling wrote of the event, and let Publish send it. The
  -- line that the consumer prints of the message has the topic and, for a binary event, its content
  -- type, the number of its bytes and its sequence number if that is positive; for any other event
  -- its source, type and sequence number, and the preview of its payload.
  pub published_printed :
      (p : Position) (topic : String) (e : StreamEvent) (msg : Msg)
      → publish_message marshal topic e ≡ ok msg
      → ((b : Bytes) → marshal e ≡ some b → unmarshal b ≡ some (envelope_of e))
      → print_message unmarshal trim (delivered p msg) ≡ line_of p topic e
  unfolding publish_message
  published_printed p topic e msg sent reads =
      let (encoded, first, rest) = >>=-eq-ok (encode_event marshal e) _ sent in
      let (bs, ct) = encoded in
      let same : message topic e (bs, ct) ≡ msg = cc in
      ap (λ m. print_message unmarshal trim (delivered p m)) (sym same)
      ∙ sent-printed p topic e bs ct first reads
