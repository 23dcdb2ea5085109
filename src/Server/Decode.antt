-- ===== src/Server/Decode.antt =====
-- internal/server/validate.go: the strict decoding of a configuration, and limitBody of server.go.
-- The JSON decoder is a parameter.
use nephtys.Prelude.{ℕ, ◌*◌, String, ltb, if◌then◌else◌, length}
use nephtys.Prelude.Result.{Result, ok, err}
use nephtys.Domain.Event.{Bytes}

-- What the decoder finds behind the first value.
pub data Next : Type 0 where
  end_of_file another_value malformed : Next

-- A json.Decoder that disallows unknown fields: the first value, or the error, and what Decode
-- answers if it is called again.
pub record Decoder (A : Type 0) : Type 0 where
  pub decode : Bytes → Result String A
  pub next : Bytes → Next

abbrev pub unless_more : {A : Type 0} → A → Next → Result String A
unless_more v end_of_file = ok v
unless_more v another_value = err "invalid JSON: unexpected content after the configuration object"
unless_more v malformed = err "invalid JSON: unexpected content after the configuration object"

abbrev pub decoded : {A : Type 0} → Result String A → Next → Result String A
decoded (err e) next = err e
decoded (ok v) next = unless_more v next

-- decodeStrict, and so DecodeStreamConfig and DecodePipelineConfig.
unfoldable pub decode_strict : {A : Type 0} → Decoder A → Bytes → Result String A
decode_strict decoder document = decoded (decoder.decode document) (decoder.next document)

abbrev pub max_body : ℕ
max_body = 1 * 1024 * 1024

-- A handler's decoding of a body: one call of Decode reads up to the limit at most, and the check
-- for a second value fails on a longer body.
unfoldable pub decode_body : {A : Type 0} → Decoder A → Bytes → Result String A
unfolding decode_strict
decode_body decoder body =
    if ltb max_body (length body)
    then err "http: request body too large"
    else decode_strict decoder body
