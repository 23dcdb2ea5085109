-- ===== src/Server/Handlers.antt =====
-- internal/server/handlers.go: the REST handlers, each as the manager after it and its response.
pub mod Status
use nephtys.Prelude.{ℕ, String, Bool, true, false, Option, none, some, List, length, if◌then◌else◌}
use nephtys.Prelude.Text.{is_blank}
use nephtys.Prelude.Result.{Result, ok, err, Check}
use nephtys.Domain.Event.{SourceStatus, connecting, Bytes}
use nephtys.Domain.Config.{PipelineConfig, StreamSourceConfig}
use nephtys.Host.{Host}
use nephtys.Pipeline.Validate.{validate_config}
use nephtys.Pipeline.Validate.Resolve.{ConfigError}
use nephtys.Server.Validate.{validate_stream_config}
use nephtys.Server.Validate.Fields.{StreamError}
use nephtys.Server.Manager.{
  ManagerError, stream_not_found, stream_exists, port_conflict, source_open, Admission, Manager,
  Reply, Live, register,
}
use nephtys.Server.Manager.Remove.{remove_stream}
use nephtys.Server.Manager.Update.{begin_update, finish_update}
use nephtys.Server.Manager.Restore.{source_from_config}
use nephtys.Server.Manager.Info.{StreamInfo, StreamDetail, list_streams, describe, status_of}

pub data Body : Type 0 where
  id_required : Body
  undecoded : String → Body
  invalid_stream : StreamError → Body
  invalid_pipeline : ConfigError → Body
  failed : ManagerError → Body
  started : String → SourceStatus → Body
  removed pipeline_updated : String → Body
  streams : List StreamInfo → ℕ → Body
  detail : StreamDetail → Body

pub record Response : Type 0 where
  pub code : ℕ
  pub body : Body

abbrev pub write_json : ℕ → Body → Response
write_json code body = record { code = code; body = body }

unfoldable pub register_status : ManagerError → ℕ
register_status (stream_exists id) = 409
register_status (port_conflict port holder) = 409
register_status (source_open e) = 409
register_status _ = 503

unfoldable pub not_found_status : ManagerError → ℕ
not_found_status (stream_not_found id) = 404
not_found_status _ = 503

unfoldable pub handle_list_streams : Manager → Response
handle_list_streams m = let infos = list_streams m in write_json 200 (streams infos (length infos))

abbrev pub described : String → Option StreamDetail → Response
described id none = write_json 404 (failed (stream_not_found id))
described id (some d) = write_json 200 (detail d)

unfoldable pub handle_get_stream :
    (StreamSourceConfig → StreamSourceConfig) → String → Manager → Response
handle_get_stream redact id m =
    if is_blank id then write_json 400 id_required else described id (describe redact id m)

abbrev pub current_or_connecting : Option SourceStatus → SourceStatus
current_or_connecting none = connecting
current_or_connecting (some st) = st

unfoldable pub registered : String → Reply → Manager × Response
unfolding register_status
registered id (m, some e) = (m, write_json (register_status e) (failed e))
registered id (m, none) = (m, write_json 201 (started id (current_or_connecting (status_of id m))))

abbrev pub removal : String → Reply → Manager × Response
removal id (m, some e) = (m, write_json (not_found_status e) (failed e))
removal id (m, none) = (m, write_json 200 (removed id))

abbrev pub update_done : String → Reply → Manager × Response
update_done id (m, some e) = (m, write_json (not_found_status e) (failed e))
update_done id (m, none) = (m, write_json 200 (pipeline_updated id))

unfoldable pub handle_delete_stream : Option String → String → Manager → Manager × Response
handle_delete_stream delete_error id m =
    if is_blank id
    then (m, write_json 400 id_required)
    else removal id (remove_stream delete_error id m)

module _ (host : Host) (hash : Bytes → ℕ) where
  unfoldable pub sourced :
      Admission → StreamSourceConfig → Option ManagerError → Manager → Manager × Response
  unfolding registered
  sourced env cfg (some e) m = (m, write_json 400 (failed e))
  sourced env cfg none m = registered cfg.id (register host hash env cfg m)

  unfoldable pub validated :
      Admission → StreamSourceConfig → Check StreamError → Manager → Manager × Response
  unfolding sourced
  validated env cfg (err e) m = (m, write_json 400 (invalid_stream e))
  validated env cfg (ok u) m = sourced env cfg (source_from_config cfg) m

  -- The request is what DecodeStreamConfig returned.
  unfoldable pub handle_create_stream :
      Admission → Result String StreamSourceConfig → Manager → Manager × Response
  unfolding validated
  handle_create_stream env (err e) m = (m, write_json 400 (undecoded e))
  handle_create_stream env (ok cfg) m = validated env cfg (validate_stream_config host cfg) m

  -- UpdatePipeline with nothing between its two halves.
  unfoldable pub update_pipeline :
      Option String → String → Option PipelineConfig → Manager × Result ManagerError Live → Reply
  update_pipeline put_error id cfg (m, err e) = (m, some e)
  update_pipeline put_error id cfg (m, ok next) = finish_update put_error id cfg next m

  unfoldable pub pipeline_validated :
      Option String → String → PipelineConfig → Check ConfigError → Manager → Manager × Response
  unfolding update_pipeline
  pipeline_validated put_error id cfg (err e) m = (m, write_json 400 (invalid_pipeline e))
  pipeline_validated put_error id cfg (ok u) m =
      update_done id
        (update_pipeline put_error id (some cfg) (begin_update host hash id (some cfg) m))

  unfoldable pub pipeline_decoded :
      Option String → String → Result String PipelineConfig → Manager → Manager × Response
  unfolding pipeline_validated
  pipeline_decoded put_error id (err e) m = (m, write_json 400 (undecoded e))
  pipeline_decoded put_error id (ok cfg) m =
      pipeline_validated put_error id cfg (validate_config host (some cfg)) m

  unfoldable pub handle_update_pipeline :
      Option String → String → Result String PipelineConfig → Manager → Manager × Response
  unfolding pipeline_decoded
  handle_update_pipeline put_error id request m =
      if is_blank id
      then (m, write_json 400 id_required)
      else pipeline_decoded put_error id request m
