-- ===== src/Host.antt =====
-- What the program calls of Go's standard library, where a call stays a parameter: every theorem
-- holds for any such functions. The values that pass between them and the program (JSON, floats,
-- numerals, URLs) are in the children. Durations are nanoseconds.
pub mod Json
pub mod Float
pub mod Number
pub mod Decimal
pub mod Text
use nephtys.Prelude.{ℕ, String, Bool, List, Option}
use nephtys.Prelude.Int.{ℤ}
use nephtys.Domain.Event.{Bytes}

-- A `url.URL`; `String` prints a fragment by RawFragment only where Fragment is not empty, and no
-- function of the program leaves a fragment in a URL that it prints.
pub record Url : Type 0 where
  pub scheme : String
  pub opaque : String
  pub user : Option String  -- `none` for a nil pointer
  pub host : String
  pub path : List ℕ
  pub raw_path : List ℕ
  pub omit_host : Bool  -- whether `String` leaves out an empty host
  pub force_query : Bool  -- whether `String` prints a `?` before an empty query
  pub raw_query : List ℕ
  pub fragment : String

pub record Host : Type 0 where
  -- `time.ParseDuration`, `none` for an error
  pub parse_duration : String → Option ℤ
  -- `url.Parse`
  pub parse_url : String → Option Url
  -- `time.Duration(float64(d) * math.Pow(factor, n))`, `none` where that is beyond every duration
  pub scale : ℤ → ℤ → ℕ → Option ℤ
  -- `json.Unmarshal` into an `interface{}`, `json.Marshal` of a value and of a list of raw messages
  pub unmarshal : Bytes → Option Json.Json
  pub marshal : Json.Json → Option Bytes
  pub marshal_array : List Bytes → Option Bytes
  -- `strconv.ParseFloat`, `fmt.Sprint` of a decoded value
  pub parse_float : String → Option Float.Float
  pub sprint : Json.Json → String
  -- `math.Abs(a-b) >= delta` of finite floats
  pub far : ℤ → ℤ → ℤ → Bool
