-- ===== src/Server/Validate/Fields.antt =====
-- internal/server/validate.go: the checks of single fields, and the errors of all checks.
use nephtys.Prelude.{
  ℕ, zero, String, Bool, false, Option, none, some, List, [], ◌∷◌, not, ◌&&◌, ◌||◌, leb, ◌==◌,
  if◌then◌else◌,
}
use nephtys.Prelude.Int.{ℤ, pos, ltb_ℤ}
use nephtys.Prelude.Lists.{all, any, is_empty}
use nephtys.Prelude.Text.{str_eq, is_blank, codes}
use nephtys.Prelude.Result.{Result, ok, err, Check, ◌>>=◌, ◌>>◌, require}
use nephtys.Domain.Config.{Headers, RestartConfig}
use nephtys.Host.{Host}
use nephtys.Host.Float.{float_one}
use nephtys.Host.Number.{atoi, is_digit}
use nephtys.Pipeline.Validate.{has_blank_key}
use nephtys.Pipeline.Validate.Resolve.{ConfigError}
use nephtys.Server.Restart.{default_initial_backoff, default_max_backoff}

pub data StreamError : Type 0 where
  id_required id_invalid kind_required topic_required topic_invalid : StreamError
  kind_unsupported url_required url_scheme : String → StreamError
  url_invalid url_no_host : StreamError
  foreign_block : String → String → StreamError
  blank_frame : ℕ → StreamError
  bad_interval bad_method : String → StreamError
  blank_header bad_port port_out_of_range : String → StreamError
  negative_attempts factor_below_one max_below_initial : StreamError
  bad_duration duration_not_positive : String → StreamError
  bad_pipeline : ConfigError → StreamError

-- `^[a-zA-Z0-9._-]+$`
unfoldable pub is_subject_char : ℕ → Bool
unfolding is_digit
is_subject_char c =
    leb b'a' c && leb c b'z'
    || leb b'A' c && leb c b'Z'
    || is_digit c
    || c == b'.'
    || c == b'_'
    || c == b'-'

unfoldable pub is_subject : String → Bool
unfolding is_subject_char
is_subject s = not (is_empty (codes s)) && all is_subject_char (codes s)

-- 0 stands for a field that is not set.
unfoldable pub validate_restart_duration : Host → String → String → Result StreamError ℤ
validate_restart_duration host path raw =
    if is_blank raw then ok (pos 0) else elim (host.parse_duration raw) [
      | none ↦ err (bad_duration path)
      | some d ↦ if ltb_ℤ (pos 0) d then ok d else err (duration_not_positive path)
    ]

abbrev pub is_negative : Option ℤ → Bool
is_negative none = false
is_negative (some n) = ltb_ℤ n (pos 0)

-- The value that the stream runs with.
abbrev pub effective : ℤ → ℤ → ℤ
effective d def = if ltb_ℤ (pos 0) d then d else def

-- `rc.Factor != 0 && rc.Factor < 1`
unfoldable pub factor_too_small : ℤ → Bool
factor_too_small (pos zero) = false
factor_too_small f = ltb_ℤ f float_one

unfoldable pub check_restart : Host → RestartConfig → Check StreamError
unfolding validate_restart_duration factor_too_small
check_restart host rc = do
  require (not (is_negative rc.max_attempts)) negative_attempts
  require (not (factor_too_small rc.factor)) factor_below_one
  initial ← validate_restart_duration host "restart.initial_backoff" rc.initial_backoff
  maximum ← validate_restart_duration host "restart.max_backoff" rc.max_backoff
  _ ← validate_restart_duration host "restart.reset_after" rc.reset_after
  require
      (not
        (ltb_ℤ (effective maximum default_max_backoff) (effective initial default_initial_backoff)))
      max_below_initial

unfoldable pub validate_restart : Host → Option RestartConfig → Check StreamError
unfolding check_restart
validate_restart host none = ok tt
validate_restart host (some rc) = check_restart host rc

abbrev pub min_poll_interval : ℤ
min_poll_interval = pos 100000000

unfoldable pub validate_poll_interval : Host → String → Check StreamError
validate_poll_interval host raw = if is_blank raw then ok tt else elim (host.parse_duration raw) [
  | none ↦ err (bad_interval raw)
  | some d ↦ require (not (ltb_ℤ d min_poll_interval)) (bad_interval raw)
]

abbrev pub poll_methods : List String
poll_methods = "GET" ∷ "POST" ∷ "PUT" ∷ "PATCH" ∷ "DELETE" ∷ "HEAD" ∷ "OPTIONS" ∷ []

unfoldable pub validate_poll_method : String → Check StreamError
validate_poll_method raw =
    if is_blank raw then ok tt else require (any (str_eq raw) poll_methods) (bad_method raw)

unfoldable pub validate_headers : String → Headers → Check StreamError
unfolding has_blank_key
validate_headers path headers = require (not (has_blank_key headers)) (blank_header path)

unfoldable pub check_port_number : String → Option ℤ → Check StreamError
check_port_number path none = err (bad_port path)
check_port_number path (some port) =
    require (not (ltb_ℤ port (pos 1) || ltb_ℤ (pos 65535) port)) (port_out_of_range path)

unfoldable pub validate_port : String → String → Check StreamError
unfolding check_port_number
validate_port path s = check_port_number path (atoi s)
