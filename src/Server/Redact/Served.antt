-- ===== src/Server/Redact/Served.antt =====
-- internal/server/handlers.go with redact.go: what GET /v1/streams/{id} serves.
use nephtys.Prelude.{◌≡◌, refl, ap, ◌∙◌, String, Option, none, some, if◌then◌else◌}
use nephtys.Prelude.Text.{is_blank}
use nephtys.Prelude.Map.{get}
use nephtys.Domain.Config.{StreamSourceConfig}
use nephtys.Host.{Url}
use nephtys.Server.Supervisor.{StreamRuntime}
use nephtys.Server.Manager.{Manager}
use nephtys.Server.Manager.Info.{stream_info, detail, describe}
use nephtys.Server.Handlers.{described, write_json, id_required, handle_get_stream}
use nephtys.Server.Redact.{redact_config}
use nephtys.Server.Redact.Hidden.{config_hides}
use nephtys.Server.Redact.Structure.{Alike, SameStructure}

module _ (parse_url : String → Option Url) (show_url : Url → String) where
  detail_hides :
      (id : String) (a b : Option StreamSourceConfig) (rt : Option StreamRuntime)
      → Alike (SameStructure parse_url) a b
      → detail (redact_config parse_url show_url) id a rt
        ≡ detail (redact_config parse_url show_url) id b rt
  detail_hides id a b none s = refl
  detail_hides id none none (some rt) s = refl
  detail_hides id none (some b) (some rt) s = absurd s
  detail_hides id (some a) none (some rt) s = absurd s
  detail_hides id (some a) (some b) (some rt) s =
      ap (λ c. some (record { info = stream_info id rt; config = c }))
        (config_hides parse_url show_url a b s)

  -- GET /v1/streams/{id} answers alike, code and body, where the stream has the same runtime, with
  -- the same recorded error, and configurations that agree but for: the userinfo and fragment of the
  -- URL, its path segments and query values, as many and empty in one where they are in the other;
  -- the webhook's token, empty in both or in neither; the values of headers under the same names; and
  -- the frames, as many. The rest of the URL, its opaque part included, agrees, and whether it parses.
  pub get_hides :
      (id : String) (m h : Manager)
      → Alike (SameStructure parse_url) (get m.configs id) (get h.configs id)
      → get m.runtimes id ≡ get h.runtimes id
      → handle_get_stream (redact_config parse_url show_url) id m
        ≡ handle_get_stream (redact_config parse_url show_url) id h
  unfolding handle_get_stream describe
  get_hides id m h s e =
      let redact = redact_config parse_url show_url in
      ap (λ d. if is_blank id then write_json 400 id_required else described id d)
        (ap (detail redact id (get m.configs id)) e
          ∙ detail_hides id (get m.configs id) (get h.configs id) (get h.runtimes id) s)
