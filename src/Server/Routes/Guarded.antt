-- ===== src/Server/Routes/Guarded.antt =====
-- internal/server/server.go with auth.go: which requests reach a handler.
use nephtys.Prelude.{
  ℕ, ◌≡◌, ◌⊎◌, inl, inr, refl, ap, sym, ◌∙◌, subst, String, true, false, Option, none, some, ◌++◌,
  arith, take, List, [], ◌∷◌, All, Bool-cases, eq_iff,
}
use nephtys.Prelude.Text.{str_eq, codes, is_blank}
use nephtys.Server.Auth.{bearer_auth, has_scheme, served_iff_token}
use nephtys.Server.Routes.{
  is_public, Route, livez, readyz, health, metrics, Found, handler, route, past_auth, serve, on_get,
}

abbrev pub IsProbe : Route → Type 0
IsProbe livez = Unit {0}
IsProbe readyz = Unit {0}
IsProbe health = Unit {0}
IsProbe metrics = Unit {0}
IsProbe _ = ⊥

past_auth-handler : (o : Option ℕ) (f g : Found) → past_auth o f ≡ inl g → (o ≡ none) × (f ≡ g)
past_auth-handler none f g e = (refl, cc)
past_auth-handler (some c) f g e = cc

on_get-handler :
    (method : String) (x r : Route) → IsProbe x → on_get method x ≡ handler r → IsProbe r
on_get-handler method x r p e = let same : x ≡ r = ground (arith, e) in subst IsProbe same p

livez-route : (method : String) → route method "/livez" ≡ on_get method livez
unfolding route
livez-route method = refl

readyz-route : (method : String) → route method "/readyz" ≡ on_get method readyz
unfolding route
readyz-route method = refl

health_route : (method : String) → route method "/health" ≡ on_get method health
unfolding route
health_route method = refl

metrics_route : (method : String) → route method "/metrics" ≡ on_get method metrics
unfolding route
metrics_route method = refl

-- What is found under a public path is a probe.
public-IsProbe :
    (method path : String) (r : Route)
    → is_public path ≡ true
    → route method path ≡ handler r
    → IsProbe r
unfolding is_public
public-IsProbe method path r p e = elim (Bool-cases (str_eq path "/livez")) [
  | inl same ↦ at "/livez" same livez tt (livez-route method)
  | inr a ↦ elim (Bool-cases (str_eq path "/readyz")) [
    | inl same ↦ at "/readyz" same readyz tt (readyz-route method)
    | inr b ↦ elim (Bool-cases (str_eq path "/health")) [
      | inl same ↦ at "/health" same health tt (health_route method)
      | inr c ↦ at "/metrics" (ground (arith, p, a, b, c)) metrics tt (metrics_route method)
    ]
  ]
]
  where
    at :
        (public : String)
        → str_eq path public ≡ true
        → (x : Route) → IsProbe x
        → route method public ≡ on_get method x
        → IsProbe r
    at public same x probe found =
        on_get-handler method x r probe
          (sym found ∙ ap (route method) (sym ((eq_iff path public).0 same)) ∙ e)

-- What a request carries that has the token.
abbrev pub Authorized : String → String → Type 0
Authorized token authorization =
    (is_blank token ≡ false)
    × (has_scheme (codes authorization) ≡ true)
    × (take 7 (codes authorization) ++ codes token ≡ codes authorization)

-- A probe at its path, for the two methods that it answers.
abbrev pub Answers : String → String → String × Route → Type 0
Answers token authorization (path, probe) =
    (serve token "GET" path authorization ≡ inl (handler probe))
    × (serve token "HEAD" path authorization ≡ inl (handler probe))

abbrev pub probes : List (String × Route)
probes = ("/livez", livez) ∷ ("/readyz", readyz) ∷ ("/health", health) ∷ ("/metrics", metrics) ∷ []

-- A request that reaches a handler other than the four probes carries the token behind the scheme,
-- and there is a token; and each of /livez, /readyz, /health and /metrics reaches its handler by GET
-- and by HEAD, whatever the token and the header are.
pub api_guarded :
    (token method path authorization : String) (r : Route)
    → serve token method path authorization ≡ inl (handler r)
    → (IsProbe r ⊎ Authorized token authorization) × All (Answers token authorization) probes
unfolding serve
api_guarded token method path authorization r e =
    let (passed, found) =
      past_auth-handler (bearer_auth token is_public path authorization) (route method path)
        (handler r) e in
    (
      elim (Bool-cases (is_public path)) [
        | inl p ↦ inl (public-IsProbe method path r p found)
        | inr p ↦ inr ((served_iff_token token is_public path authorization p).0 passed)
      ],
      ((refl, refl), ((refl, refl), ((refl, refl), ((refl, refl), tt)))),
    )
