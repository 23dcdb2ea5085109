-- ===== src/Broker.antt =====
-- internal/broker/nats.go: the message that Publish hands to JetStream.
pub mod Connection
pub mod Ensured
mod Tests
use nephtys.Prelude.{
  ℕ, ◌≡◌, refl, ◌↔◌, String, Bool, true, false, Option, none, some, List, [], ◌∷◌, ltb,
  if◌then◌else◌, ◌&&◌, not, is_empty, both-branches, arith, eq_iff, is_some, Bool-cases, subst, sym,
  ap, ◌∙◌, inl, inr,
}
use nephtys.Prelude.Text.{str_eq, is_blank}
use nephtys.Prelude.Result.{Result, ok, err, ◌>>=◌, >>=-eq-ok}
use nephtys.Domain.Event.{Bytes, StreamEvent, content_type_json, is_binary, body}

pub data EncodeError : Type 0 where
  not_marshalled : EncodeError
  empty_binary : String → EncodeError

pub record Msg : Type 0 where
  pub subject : String
  pub payload : Bytes
  pub content_type : Option String
  pub seq : Option ℕ

abbrev pub marshalled : String → Option Bytes → Result EncodeError (Bytes × String)
marshalled ct none = err not_marshalled
marshalled ct (some bs) = ok (bs, ct)

-- `contentType`, once the default is in.
abbrev pub type_or_json : String → String
type_or_json ct = if is_blank ct then content_type_json else ct

unfoldable pub encode_as :
    (StreamEvent → Option Bytes) → String → StreamEvent → Result EncodeError (Bytes × String)
encode_as marshal ct event =
    if str_eq ct content_type_json
    then marshalled ct (marshal event)
    else if is_empty event.body_data
    then err (empty_binary event.type)
    else ok (event.body_data, ct)

-- `marshal` is json.Marshal of the envelope.
unfoldable pub encode_event :
    (StreamEvent → Option Bytes) → StreamEvent → Result EncodeError (Bytes × String)
unfolding encode_as
encode_event marshal event = encode_as marshal (type_or_json event.content_type) event

abbrev pub message : String → StreamEvent → Bytes × String → Msg
message topic event (bs, ct) = record {
  subject = topic;
  payload = bs;
  content_type = if is_blank ct then none else some ct;
  seq = if ltb 0 event.seq then some event.seq else none;
}

unfoldable pub publish_message :
    (StreamEvent → Option Bytes) → String → StreamEvent → Result EncodeError Msg
unfolding encode_event
publish_message marshal topic event =
    encode_event marshal event >>= λ encoded. ok (message topic event encoded)

-- How the encoding of an event came out.
encode_as-ok :
    (marshal : StreamEvent → Option Bytes) (ct : String) (event : StreamEvent) (bs : Bytes)
    (c : String)
    → encode_as marshal ct event ≡ ok (bs, c)
    → (c ≡ ct)
      × (str_eq ct content_type_json ≡ false → (bs ≡ event.body_data) × (is_empty bs ≡ false))
      × (str_eq ct content_type_json ≡ true → marshal event ≡ some bs)
unfolding encode_as
encode_as-ok marshal ct event bs c e = ground (arith, e)

pub encode-ok :
    (marshal : StreamEvent → Option Bytes) (event : StreamEvent) (bs : Bytes) (ct : String)
    → encode_event marshal event ≡ ok (bs, ct)
    → (ct ≡ type_or_json event.content_type)
      × (is_blank ct ≡ false)
      × (is_binary event ≡ true → (bs ≡ body event) × (is_empty bs ≡ false))
      × (is_binary event ≡ false → marshal event ≡ some bs)
unfolding encode_event is_binary body
encode-ok marshal event bs ct e = elim (Bool-cases (is_blank event.content_type)) [
  | inl b ↦
      let typed : type_or_json event.content_type ≡ content_type_json = ground (arith, b) in
      let (same, binary, json) =
        encode_as-ok marshal content_type_json event bs ct
          (ap (λ c. encode_as marshal c event) (sym typed) ∙ e) in
      (same ∙ sym typed, ap is_blank same, (λ x. ground (arith, b, x)), (λ _. json refl))
  | inr b ↦
      let typed : type_or_json event.content_type ≡ event.content_type = ground (arith, b) in
      let (same, binary, json) =
        encode_as-ok marshal event.content_type event bs ct
          (ap (λ c. encode_as marshal c event) (sym typed) ∙ e) in
      ground (arith, b, same, binary, json, typed)
]

-- The bytes that a message should carry, and that those of a binary event are there.
abbrev pub Carries : (StreamEvent → Option Bytes) → StreamEvent → Bytes → Type 0
Carries marshal event bs =
    ((if is_binary event then some (body event) else marshal event) ≡ some bs)
    × ((is_binary event && is_empty bs) ≡ false)

encode-Carries :
    (marshal : StreamEvent → Option Bytes) (event : StreamEvent) (bs : Bytes) (ct : String)
    → encode_event marshal event ≡ ok (bs, ct)
    → Carries marshal event bs
encode-Carries marshal event bs ct e =
    let (typed, filled, binary, json) = encode-ok marshal event bs ct e in
    elim (Bool-cases (is_binary event)) [
      | inl b ↦
          let (same, there) = binary b in
          (
            ap (λ x. if x then some (body event) else marshal event) b ∙ ap some (sym same),
            ap (λ x. x && is_empty bs) b ∙ there,
          )
      | inr b ↦ (
        ap (λ x. if x then some (body event) else marshal event) b ∙ json b,
        ap (λ x. x && is_empty bs) b,
      )
    ]

-- A message that Publish sends has the topic as its subject and a content type, JSON where the
-- event has none; a binary event goes as its body, which is not empty, and any other event as its
-- marshalled envelope.
pub message_agrees :
    (marshal : StreamEvent → Option Bytes) (topic : String) (event : StreamEvent) (msg : Msg)
    → publish_message marshal topic event ≡ ok msg
    → (msg.subject ≡ topic)
      × (msg.content_type ≡ some (type_or_json event.content_type))
      × Carries marshal event msg.payload
unfolding publish_message
message_agrees marshal topic event msg e =
    let (encoded, first, rest) = >>=-eq-ok (encode_event marshal event) _ e in
    let (bs, ct) = encoded in
    let (typed, filled, binary, json) = encode-ok marshal event bs ct first in
    let same : message topic event (bs, ct) ≡ msg = cc in
    subst
      (λ m.
        (m.subject ≡ topic)
        × (m.content_type ≡ some (type_or_json event.content_type))
        × Carries marshal event m.payload)
      same
      (
        refl,
        ap (λ b. if b then none else some ct) filled ∙ ap some typed,
        encode-Carries marshal event bs ct first,
      )
