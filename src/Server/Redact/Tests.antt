-- ===== src/Server/Redact/Tests.antt =====
-- Two streams whose webhooks and URLs carry different credentials.
use nephtys.Prelude.{◌≡◌, refl, String, Option, none, some, false, if◌then◌else◌}
use nephtys.Prelude.Text.{codes, str_eq, append}
use nephtys.Domain.Config.{StreamSourceConfig}
use nephtys.Domain.Event.{connecting}
use nephtys.Host.{Url}
use nephtys.Prelude.Map.{get, find, put, empty}
use nephtys.Server.Supervisor.{new_stream_runtime}
use nephtys.Server.Manager.{Manager, new_stream_manager}
use nephtys.Server.Handlers.{handle_get_stream}
use nephtys.Host.Text.{split, join, cut}
use nephtys.Server.Redact.{redact_path_segments, redact_query_values, redact_config}
use nephtys.Server.Redact.Structure.{Alike, SameStructure}
use nephtys.Server.Redact.Served.{get_hides}
use nephtys.Server.Redact.Message.{
  redact_for_api, is_scheme_char, is_letter, is_break, body_length, trim_right, drop_text,
  text_length,
}
use nephtys.Server.Redact.Message.Urls.{Quoted, message_hides}
use nephtys.Server.Redact.Message.Match.{leads_in, all_scheme, no_break, ends_url}
use nephtys.Fixtures.{feed}

abbrev service : String → Option String → Url
service query user = record {
  scheme = "https";
  opaque = "";
  user = user;
  host = "feed";
  path = codes "/v2/stream";
  raw_path = codes "/v2/stream";
  omit_host = false;
  force_query = false;
  raw_query = codes query;
  fragment = "";
}

-- One text names a URL with a password, any other one with none.
abbrev parse : String → Option Url
parse s =
    if str_eq s "https://b"
    then some (service "token=1" (some "me:secret"))
    else some (service "token=22" none)

abbrev show : Url → String
show u = append "https://" u.host

abbrev secretive : StreamSourceConfig
secretive = record feed {
  url = "https://b";
  webhook = some (record { port = "9000"; path = "/"; auth_token = "one" });
}

abbrev other : StreamSourceConfig
other = record feed {
  url = "https://a";
  webhook = some (record { port = "9000"; path = "/"; auth_token = "two" });
}

alike : SameStructure parse secretive other
unfolding split cut
alike = record {
  id = refl;
  kind = refl;
  topic = refl;
  metadata = refl;
  grpc = refl;
  pipeline = refl;
  restart = refl;
  url = (
    refl,
    record {
      scheme = refl;
      opaque = refl;
      host = refl;
      omit_host = refl;
      force_query = refl;
      segments = refl;
      labels = refl;
    },
  );
  webhook = (refl, refl, refl);
  sse = tt;
  rest_poller = tt;
  websocket = tt;
}

abbrev with_config : StreamSourceConfig → Manager
with_config cfg = record (new_stream_manager none) {
  configs = put empty "feed" cfg;
  runtimes = put empty "feed" (new_stream_runtime connecting);
}

held-Alike :
    Alike
      (SameStructure parse)
      (get (with_config secretive).configs "feed")
      (get (with_config other).configs "feed")
unfolding get find put
held-Alike = alike

get_hides_example :
    handle_get_stream (redact_config parse show) "feed" (with_config secretive)
    ≡ handle_get_stream (redact_config parse show) "feed" (with_config other)
unfolding get find put
get_hides_example =
    get_hides parse show "feed" (with_config secretive) (with_config other) held-Alike refl

path_shown : redact_path_segments (codes "/services/T00/") ≡ codes "/[REDACTED]/[REDACTED]/"
unfolding redact_path_segments join split
path_shown = refl

query_shown : redact_query_values (codes "k=v&flag") ≡ codes "k=[REDACTED]&[REDACTED]"
unfolding redact_query_values join split cut
query_shown = refl

Quoted-b : Quoted "dial \"" " refused" "h" "ttps" "b" ":"
unfolding leads_in all_scheme no_break ends_url is_letter is_scheme_char is_break
Quoted-b = record { leads = refl; letter = refl; scheme_chars = refl; unbroken = refl; ends = refl }

Quoted-a : Quoted "dial \"" " refused" "h" "ttps" "a" "?k:"
unfolding leads_in all_scheme no_break ends_url is_letter is_scheme_char is_break
Quoted-a = record { leads = refl; letter = refl; scheme_chars = refl; unbroken = refl; ends = refl }

message_hides_example :
    redact_for_api parse show (append "dial \"" (append "https://b:" " refused"))
    ≡ redact_for_api parse show (append "dial \"" (append "https://a?k:" " refused"))
unfolding trim_right drop_text text_length
message_hides_example =
    message_hides parse show "dial \"" " refused" "h" "b" "h" "a" "ttps" ":" "ttps" "?k:"
      (service "token=1" (some "me:secret")) (service "token=22" none) Quoted-b Quoted-a
      (refl, refl) (refl, refl) refl
      (record {
        scheme = refl;
        opaque = refl;
        host = refl;
        path = refl;
        raw_path = refl;
        omit_host = refl;
        force_query = refl;
      })

message_shown : redact_for_api parse show "dial https://b: refused" ≡ "dial https://feed: refused"
unfolding redact_for_api is_letter is_scheme_char is_break body_length
message_shown = refl
