-- ===== src/Process.antt =====
-- cmd/nephtys/main.go: the modes of the command and the life of the service. What the files, the
-- broker, the network and the signals answer are inputs.
pub mod Checks
mod Tests
use nephtys.Prelude.{
  ℕ, ◌*◌, String, Bool, true, false, Option, none, some, List, [], ◌∷◌, ◌++◌, ltb, ◌==◌,
  if◌then◌else◌, length,
}
use nephtys.Prelude.Text.{str_eq, is_blank, append}
use nephtys.Prelude.Result.{Result, ok, err, Check, ◌>>=◌, ◌>>◌, require}
use nephtys.Domain.Event.{Bytes}
use nephtys.Domain.Config.{StreamSourceConfig}
use nephtys.Host.{Host}
use nephtys.Server.Decode.{Decoder, decode_strict}
use nephtys.Server.Validate.{validate_stream_config}
use nephtys.Server.Validate.Fields.{StreamError}
use nephtys.Server.Redact.Message.{take_text, text_length}

-- A setting of debug.BuildInfo.
abbrev pub Settings : Type 0
Settings = List (String × String)

-- The last value of a key, blank if there is none.
unfoldable pub last_setting : String → String → Settings → String
last_setting key found [] = found
last_setting key found ((k, v) ∷ rest) = last_setting key (if str_eq k key then v else found) rest

abbrev pub short_revision : String → String
short_revision revision = if ltb 12 (text_length revision) then take_text 12 revision else revision

abbrev pub build_version : String → String → String
build_version revision modified =
    if is_blank revision
    then "dev"
    else if str_eq modified "true"
    then append (short_revision revision) "-dirty"
    else short_revision revision

abbrev pub from_build_info : Option Settings → String
from_build_info none = "dev"
from_build_info (some settings) =
    build_version (last_setting "vcs.revision" "" settings)
      (last_setting "vcs.modified" "" settings)

unfoldable pub resolve_version : String → Option Settings → String
unfolding last_setting take_text text_length
resolve_version version info = if is_blank version then from_build_info info else version

-- Why a mode of the command fails.
pub data CommandError : Type 0 where
  stdin_too_large unreadable : CommandError
  parse_config : String → CommandError
  invalid_config : StreamError → CommandError
  probe_failed : String → CommandError
  not_ready : ℕ → CommandError
  service : String → CommandError

-- Where --config-check reads from; the bytes are missing where they cannot be read.
pub data Source : Type 0 where
  stdin file : Option Bytes → Source

abbrev pub max_config_bytes : ℕ
max_config_bytes = 1 * 1024 * 1024

-- The reader of stdin stops one byte behind the limit, which is enough to see that there is more.
abbrev pub read_config : Source → Result CommandError Bytes
read_config (stdin none) = err unreadable
read_config (stdin (some document)) =
    if ltb max_config_bytes (length document) then err stdin_too_large else ok document
read_config (file none) = err unreadable
read_config (file (some document)) = ok document

abbrev pub parsed : Result String StreamSourceConfig → Result CommandError StreamSourceConfig
parsed (ok cfg) = ok cfg
parsed (err e) = err (parse_config e)

abbrev pub accepted :
    StreamSourceConfig → Check StreamError → Result CommandError StreamSourceConfig
accepted cfg (ok u) = ok cfg
accepted cfg (err e) = err (invalid_config e)

-- The configuration that is reported as valid, or the error.
unfoldable pub run_config_check :
    Host → Decoder StreamSourceConfig → Source → Result CommandError StreamSourceConfig
unfolding decode_strict
run_config_check host decoder source = do
  document ← read_config source
  cfg ← parsed (decode_strict decoder document)
  accepted cfg (validate_stream_config host cfg)

-- --ready-check, with what the GET of /readyz answers.
unfoldable pub run_ready_check : Result String ℕ → Check CommandError
run_ready_check (err e) = err (probe_failed e)
run_ready_check (ok code) = require (code == 200) (not_ready code)

-- The calls that runService makes, in order.
pub data Call : Type 0 where
  connect ensure_stream new_store restore start stop_all shutdown_server close_broker : Call

-- How the service ends: a signal, or the server, with its error.
pub data Ending : Type 0 where
  signalled : Ending
  server_ended : Option String → Ending

pub record Answers : Type 0 where
  pub connect_error : Option String
  pub ensure_error : Option String
  pub store_error : Option String
  pub ending : Ending

abbrev pub ended : Ending → List Call × Option String
ended signalled = (stop_all ∷ shutdown_server ∷ [], none)
ended (server_ended e) = ([], e)

abbrev pub before : List Call → List Call × Option String → List Call × Option String
before calls (more, e) = (calls ++ more, e)

abbrev pub with_store : Answers → Option String → List Call × Option String
with_store a (some e) = (new_store ∷ [], some e)
with_store a none = before (new_store ∷ restore ∷ start ∷ []) (ended a.ending)

abbrev pub with_stream : Answers → Option String → List Call × Option String
with_stream a (some e) = (ensure_stream ∷ [], some e)
with_stream a none = before (ensure_stream ∷ []) (with_store a a.store_error)

-- The deferred close of the broker.
abbrev pub deferred : List Call × Option String → List Call × Option String
deferred (calls, e) = (calls ++ close_broker ∷ [], e)

abbrev pub with_broker : Answers → Option String → List Call × Option String
with_broker a (some e) = (connect ∷ [], some e)
with_broker a none = before (connect ∷ []) (deferred (with_stream a a.ensure_error))

unfoldable pub run_service : Answers → List Call × Option String
run_service a = with_broker a a.connect_error
