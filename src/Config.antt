-- ===== src/Config.antt =====
-- internal/config/config.go: what the process reads from its environment. `fold` is strings.ToLower
-- after strings.TrimSpace.
use nephtys.Prelude.{String, Bool, true, false, if◌then◌else◌}
use nephtys.Prelude.Text.{str_eq, is_blank}

pub record Config : Type 0 where
  pub nats_url : String
  pub port : String
  pub log_level : String
  pub admin_token : String

-- `getenv` answers the blank text for a variable that is not set.
unfoldable pub env_or : (String → String) → String → String → String
env_or getenv key fallback = if is_blank (getenv key) then fallback else getenv key

unfoldable pub load : (String → String) → Config
unfolding env_or
load getenv = record {
  nats_url = env_or getenv "NATS_URL" "nats://localhost:4222";
  port = env_or getenv "NEPHTYS_PORT" "3002";
  log_level = env_or getenv "NEPHTYS_LOG_LEVEL" "info";
  admin_token = getenv "NEPHTYS_ADMIN_TOKEN";
}

pub data Level : Type 0 where
  debug info warn error : Level

-- The level, and whether the text was recognised.
unfoldable pub parse_log_level : (String → String) → String → Level × Bool
parse_log_level fold s =
    let word = fold s in
    if str_eq word "debug"
    then (debug, true)
    else if is_blank word
    then (info, true)
    else if str_eq word "info"
    then (info, true)
    else if str_eq word "warn"
    then (warn, true)
    else if str_eq word "warning"
    then (warn, true)
    else if str_eq word "error"
    then (error, true)
    else (info, false)
