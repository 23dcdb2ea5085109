-- ===== src/Connector/Redact.antt =====
-- internal/connector/redact.go: an endpoint in an error message.
use nephtys.Prelude.{String, Option, none, some, [], if◌then◌else◌}
use nephtys.Prelude.Text.{is_blank}
use nephtys.Host.{Url}

abbrev pub rendered : (Url → String) → Option Url → String
rendered show_url none = "the configured endpoint"
rendered show_url (some u) =
    if is_blank u.host
    then "the configured endpoint"
    else show_url (record u { user = none; raw_query = []; fragment = "" })

unfoldable pub redact_url : (String → Option Url) → (Url → String) → String → String
redact_url parse_url show_url raw = rendered show_url (parse_url raw)
