-- ===== src/Server/Redact/Message.antt =====
-- internal/server/redact.go: the URLs inside an error message, as urlInMessage finds them.
pub mod Match
pub mod Urls
use Prim.Native.Char.{Char, code}
use nephtys.Prelude.{
  ℕ, zero, suc, ◌+◌, ◌-◌, String, Bool, true, false, Option, none, some, [], List, ◌∷◌, ◌&&◌, ◌||◌,
  ◌==◌, leb, if◌then◌else◌,
}
use nephtys.Prelude.Lists.{any}
use nephtys.Prelude.Text.{codes, is_blank, append}
use nephtys.Host.{Url}

unfoldable pub is_letter : ℕ → Bool
is_letter c = (leb b'a' c && leb c b'z') || (leb b'A' c && leb c b'Z')

-- [a-zA-Z0-9+.\-]
unfoldable pub is_scheme_char : ℕ → Bool
unfolding is_letter
is_scheme_char c = is_letter c || (leb b'0' c && leb c b'9') || c == b'+' || c == b'.' || c == b'-'

-- [\s"']
unfoldable pub is_break : ℕ → Bool
is_break c = c == 9 || c == 10 || c == 12 || c == 13 || c == b' ' || c == 34 || c == 39

-- How many characters `[^\s"']*` takes.
unfoldable pub body_length : String → ℕ
body_length String.[] = 0
body_length (String.◌∷◌ c s) = let rest = body_length s in if is_break (code c) then 0 else suc rest

abbrev pub with_separator : ℕ → Option ℕ
with_separator zero = none
with_separator (suc n) = some (4 + n)

-- `://[^\s"']+`
unfoldable pub match_rest : String → Option ℕ
unfolding body_length
match_rest (String.◌∷◌ c (String.◌∷◌ d (String.◌∷◌ e s))) =
    if code c == b':' && code d == b'/' && code e == b'/'
    then with_separator (body_length s)
    else none
match_rest _ = none

abbrev pub one_more : Option ℕ → Option ℕ
one_more none = none
one_more (some n) = some (suc n)

-- `[a-zA-Z0-9+.\-]*://[^\s"']+`: a colon is no scheme character, so the first one ends the scheme.
unfoldable pub match_scheme : String → Option ℕ
unfolding match_rest
match_scheme String.[] = none
match_scheme (String.◌∷◌ c s) =
    let rest = match_scheme s in
    if is_scheme_char (code c) then one_more rest else match_rest (String.◌∷◌ c s)

-- The length of the match at the start of a text.
unfoldable pub match_url : String → Option ℕ
unfolding match_scheme
match_url String.[] = none
match_url (String.◌∷◌ c s) = if is_letter (code c) then one_more (match_scheme s) else none

unfoldable pub take_text : ℕ → String → String
take_text zero s = String.[]
take_text (suc n) String.[] = String.[]
take_text (suc n) (String.◌∷◌ c s) = String.◌∷◌ c (take_text n s)

unfoldable pub drop_text : ℕ → String → String
drop_text zero s = s
drop_text (suc n) String.[] = String.[]
drop_text (suc n) (String.◌∷◌ c s) = drop_text n s

unfoldable pub text_length : String → ℕ
text_length String.[] = 0
text_length (String.◌∷◌ c s) = suc (text_length s)

abbrev pub still_to_skip : Option ℕ → ℕ
still_to_skip none = 0
still_to_skip (some zero) = 0
still_to_skip (some (suc n)) = n

module _ (f : String → String) where
  abbrev pub emit : Option ℕ → Char → String → String → String
  emit none c s rest = String.◌∷◌ c rest
  emit (some n) c s rest = append (f (take_text n (String.◌∷◌ c s))) rest

  -- `ReplaceAllStringFunc`; the number counts the characters of a match that are still to be passed.
  unfoldable pub replace_urls : ℕ → String → String
  unfolding match_url take_text
  replace_urls n String.[] = String.[]
  replace_urls (suc n) (String.◌∷◌ c s) = replace_urls n s
  replace_urls zero (String.◌∷◌ c s) =
      let found = match_url (String.◌∷◌ c s) in
      emit found c s (replace_urls (still_to_skip found) s)

abbrev pub punctuation : List ℕ
punctuation = codes ".,;:!?)]}"

-- `strings.TrimRight`
unfoldable pub trim_right : String → String
trim_right String.[] = String.[]
trim_right (String.◌∷◌ c s) =
    let rest = trim_right s in
    if is_blank rest && any (◌==◌ (code c)) punctuation then String.[] else String.◌∷◌ c rest

unfoldable pub without_credentials : Url → Url
without_credentials u = record u { user = none; raw_query = []; fragment = "" }

module _ (parse_url : String → Option Url) (show_url : Url → String) where
  unfoldable pub redact_parsed_match : String → String → Option Url → String
  unfolding without_credentials
  redact_parsed_match raw suffix none = raw
  redact_parsed_match raw suffix (some u) =
      if is_blank u.host then raw else append (show_url (without_credentials u)) suffix

  unfoldable pub redact_match : String → String
  unfolding trim_right drop_text text_length redact_parsed_match
  redact_match raw =
      let trimmed = trim_right raw in
      redact_parsed_match raw (drop_text (text_length trimmed) raw) (parse_url trimmed)

  unfoldable pub redact_for_api : String → String
  unfolding replace_urls redact_match
  redact_for_api message = replace_urls redact_match 0 message
