-- ===== src/Process/Tests.antt =====
-- The checks of the command on a short document.
use nephtys.Prelude.{◌≡◌, ◌≢◌, ◌≤◌, ◌<◌, ◌↔◌, ◌⊎◌, refl, none, some, [], ◌∷◌, length}
use nephtys.Prelude.Map.{empty}
use nephtys.Prelude.Result.{ok}
use nephtys.Domain.Event.{Bytes}
use nephtys.Domain.Config.{StreamSourceConfig}
use nephtys.Server.Decode.{Decoder, end_of_file, decode_body, max_body}
use nephtys.Server.Manager.{Admission, Manager, new_stream_manager}
use nephtys.Server.Handlers.{handle_create_stream}
use nephtys.Process.{stdin, file, run_config_check, resolve_version}
use nephtys.Process.Checks.{check_agrees}
use nephtys.Fixtures.{host, hash, feed}

abbrev decoder : Decoder StreamSourceConfig
decoder = record { decode = λ bs. ok feed; next = λ bs. end_of_file }

abbrev opens : Admission
opens = record { open_error = none; put_error = none }

abbrev document : Bytes
document = b'{' ∷ b'}' ∷ []

abbrev fresh : Manager
fresh = new_stream_manager (some empty)

check_agrees_example :
    let code = (handle_create_stream host hash opens (decode_body decoder document) fresh).1.code in
    ((length document ≤ max_body)
      × (((cfg : StreamSourceConfig) × (run_config_check host decoder (stdin (some document))
              ≡ ok cfg))
          ↔ (code ≢ 400)))
    ⊎ ((max_body < length document) × (stdin (some document) ≡ file (some document)) × (code ≡ 400))
check_agrees_example =
    check_agrees host hash opens fresh decoder (stdin (some document)) document refl

dirty_build :
    resolve_version "" (some (("vcs.revision", "0123456789abcdef") ∷ ("vcs.modified", "true") ∷ []))
    ≡ "0123456789ab-dirty"
unfolding resolve_version
dirty_build = refl
