-- ===== src/Server/Redact/Message/Urls.antt =====
-- internal/server/redact.go: what becomes of a URL inside an error message.
use Prim.Native.Char.{Char, code}
use nephtys.Prelude.{
  ℕ, suc, ◌≡◌, refl, ap, ◌∙◌, sym, String, true, false, Option, none, some, arith,
}
use nephtys.Prelude.Text.{is_blank, append}
use nephtys.Host.{Url}
use nephtys.Server.Redact.Message.{
  is_letter, match_url, take_text, drop_text, text_length, still_to_skip, emit, replace_urls,
  trim_right, without_credentials, redact_parsed_match, redact_match, redact_for_api,
}
use nephtys.Server.Redact.Message.Match.{
  leads_in, all_scheme, no_break, ends_url, url_text, take-append, leads_in-url, leads_in-rest,
  url_text-match,
}

module _ (f : String → String) where
  skipped : (s t : String) → replace_urls f (text_length s) (append s t) ≡ replace_urls f 0 t
  unfolding replace_urls text_length
  skipped String.[] t = refl
  skipped (String.◌∷◌ c s) t = skipped s t

  replace_urls-step :
      (c : Char) (s : String)
      → replace_urls f 0 (String.◌∷◌ c s)
        ≡ emit f
            (match_url (String.◌∷◌ c s))
            c
            s
            (replace_urls f (still_to_skip (match_url (String.◌∷◌ c s))) s)
  unfolding replace_urls
  replace_urls-step c s = refl

  emit-at :
      (c : Char) (s : String) (o : Option ℕ)
      → match_url (String.◌∷◌ c s) ≡ o
      → replace_urls f 0 (String.◌∷◌ c s) ≡ emit f o c s (replace_urls f (still_to_skip o) s)
  emit-at c s o e =
      replace_urls-step c s ∙ ap (λ m. emit f m c s (replace_urls f (still_to_skip m) s)) e

  -- A text that leads in is passed unchanged.
  lead :
      (s t : String)
      → leads_in s ≡ true
      → replace_urls f 0 (append s t) ≡ append s (replace_urls f 0 t)
  lead String.[] t l = refl
  lead (String.◌∷◌ c s) t l =
      emit-at c (append s t) none (leads_in-url c s t l)
      ∙ ap (String.◌∷◌ c) (lead s t (leads_in-rest c s l))

  -- A URL that runs up to the end of the text, or to white space or a quote, is what the function
  -- is called with.
  url_replaced :
      (c d : Char) (scheme body after : String)
      → is_letter (code c) ≡ true
      → all_scheme scheme ≡ true
      → no_break (String.◌∷◌ d body) ≡ true
      → ends_url after ≡ true
      → replace_urls f 0 (append (url_text c scheme d body) after)
        ≡ append (f (url_text c scheme d body)) (replace_urls f 0 after)
  unfolding take_text
  url_replaced c d scheme body after l a b e =
      let rest = append scheme (append "://" (String.◌∷◌ d body)) in
      emit-at c (append rest after) (some (suc (text_length rest)))
        (url_text-match c d scheme body after l a b e)
      ∙ ap (λ u. append (f u) (replace_urls f (text_length rest) (append rest after)))
          (ap (String.◌∷◌ c) (take-append rest after))
      ∙ ap (append (f (String.◌∷◌ c rest))) (skipped rest after)

-- A URL as the pattern finds it in a message, between two texts that do not belong to it.
pub record Quoted (before after : String) (c : Char) (scheme : String) (d : Char) (body : String)
    : Type 0 where
  pub leads : leads_in before ≡ true
  pub letter : is_letter (code c) ≡ true
  pub scheme_chars : all_scheme scheme ≡ true
  pub unbroken : no_break (String.◌∷◌ d body) ≡ true
  pub ends : ends_url after ≡ true

-- The punctuation that ends a text.
abbrev pub suffix : String → String
suffix text = drop_text (text_length (trim_right text)) text

-- Two URLs that differ in userinfo, query and fragment.
pub record SameAddress (u v : Url) : Type 0 where
  pub scheme : u.scheme ≡ v.scheme
  pub opaque : u.opaque ≡ v.opaque
  pub host : u.host ≡ v.host
  pub path : u.path ≡ v.path
  pub raw_path : u.raw_path ≡ v.raw_path
  pub omit_host : u.omit_host ≡ v.omit_host
  pub force_query : u.force_query ≡ v.force_query

same_shown : (u v : Url) → SameAddress u v → without_credentials u ≡ without_credentials v
unfolding without_credentials
same_shown u v s = ground (arith, s)

module _ (parse_url : String → Option Url) (show_url : Url → String) where
  -- The text is a URL with a host, and what it parses to.
  abbrev pub Names : String → Url → Type 0
  Names text u = (parse_url (trim_right text) ≡ some u) × (is_blank u.host ≡ false)

  redact_match-Names :
      (text : String) (u : Url)
      → Names text u
      → redact_match parse_url show_url text
        ≡ append (show_url (without_credentials u)) (suffix text)
  unfolding redact_match redact_parsed_match
  redact_match-Names text u (p, h) = rw (p, h)

  Quoted-replaced :
      (before after : String) (c d : Char) (scheme body : String) (u : Url)
      → Quoted before after c scheme d body
      → Names (url_text c scheme d body) u
      → redact_for_api parse_url show_url (append before (append (url_text c scheme d body) after))
        ≡ append before (
            append
              (append (show_url (without_credentials u)) (suffix (url_text c scheme d body)))
              (redact_for_api parse_url show_url after))
  unfolding redact_for_api
  Quoted-replaced before after c d scheme body u q n =
      let f = redact_match parse_url show_url in
      let text = url_text c scheme d body in
      lead f before (append text after) q.leads
      ∙ ap (append before) (
          url_replaced f c d scheme body after q.letter q.scheme_chars q.unbroken q.ends
          ∙ ap (λ x. append x (replace_urls f 0 after)) (redact_match-Names text u n))

  -- Two messages that quote, between the same texts, URLs with hosts that differ in userinfo, query
  -- and fragment only and end in the same punctuation are served alike: the text before ends in no
  -- character of a scheme and has no colon, the text after starts with white space or a quote. The
  -- two agree in every other part that `url.Parse` finds, ForceQuery included: that a URL has a `?`
  -- with nothing behind it is served.
  pub message_hides :
      (before after : String) (c d c' d' : Char) (scheme body scheme' body' : String) (u v : Url)
      → Quoted before after c scheme d body
      → Quoted before after c' scheme' d' body'
      → Names (url_text c scheme d body) u
      → Names (url_text c' scheme' d' body') v
      → suffix (url_text c scheme d body) ≡ suffix (url_text c' scheme' d' body')
      → SameAddress u v
      → redact_for_api parse_url show_url (append before (append (url_text c scheme d body) after))
        ≡ redact_for_api parse_url show_url
            (append before (append (url_text c' scheme' d' body') after))
  message_hides before after c d c' d' scheme body scheme' body' u v q q' n n' e s =
      let rest = redact_for_api parse_url show_url after in
      Quoted-replaced before after c d scheme body u q n
      ∙ ap
          (λ w.
            append before (append (append (show_url w) (suffix (url_text c scheme d body))) rest))
          (same_shown u v s)
      ∙ ap (λ x. append before (append (append (show_url (without_credentials v)) x) rest)) e
      ∙ sym (Quoted-replaced before after c' d' scheme' body' v q' n')
