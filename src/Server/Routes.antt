-- ===== src/Server/Routes.antt =====
-- internal/server/server.go: the routes, behind the bearer token.
pub mod Guarded
mod Tests
use nephtys.Prelude.{
  ℕ, String, Bool, true, false, Option, none, some, List, [], ◌∷◌, ◌++◌, ◌&&◌, ◌⊎◌, inl, inr,
  is_empty, if◌then◌else◌, any,
}
use nephtys.Prelude.Text.{str_eq, codes}
use nephtys.Host.Text.{Text, split}
use nephtys.Server.Auth.{bearer_auth, equal_codes}

-- The paths that New keeps public.
unfoldable pub is_public : String → Bool
is_public path = any (str_eq path) ("/livez" ∷ "/readyz" ∷ "/health" ∷ "/metrics" ∷ [])

-- What registerRoutes wires, the streams' handlers with the id of the path.
pub data Route : Type 0 where
  livez readyz health metrics list_streams create_stream : Route
  get_stream delete_stream update_pipeline : Text → Route

-- What the mux finds: a handler, a path with other methods, or nothing.
pub data Found : Type 0 where
  handler : Route → Found
  method_not_allowed not_found : Found

abbrev pub on_method : String → String → Route → Found
on_method method wanted route = if str_eq method wanted then handler route else method_not_allowed

-- A GET pattern also serves HEAD.
abbrev pub on_get : String → Route → Found
on_get method route = if str_eq method "HEAD" then handler route else on_method method "GET" route

abbrev pub streams : String → Found
streams method = if str_eq method "POST" then handler create_stream else on_get method list_streams

abbrev pub stream : String → Text → Found
stream method id =
    if is_empty id
    then not_found
    else if str_eq method "DELETE"
    then handler (delete_stream id)
    else on_get method (get_stream id)

abbrev pub pipeline : String → Text → Found
pipeline method id = if is_empty id then not_found else on_method method "PUT" (update_pipeline id)

abbrev pub probe : String → Text → Found
probe method name =
    if equal_codes name (codes "livez")
    then on_get method livez
    else if equal_codes name (codes "readyz")
    then on_get method readyz
    else if equal_codes name (codes "health")
    then on_get method health
    else if equal_codes name (codes "metrics")
    then on_get method metrics
    else not_found

abbrev pub is_streams : Text → Text → Bool
is_streams version name = equal_codes version (codes "v1") && equal_codes name (codes "streams")

-- The parts of a path behind its first slash.
abbrev pub on_parts : String → List Text → Found
on_parts method ([] ∷ name ∷ []) = probe method name
on_parts method ([] ∷ version ∷ name ∷ []) =
    if is_streams version name then streams method else not_found
on_parts method ([] ∷ version ∷ name ∷ id ∷ []) =
    if is_streams version name then stream method id else not_found
on_parts method ([] ∷ version ∷ name ∷ id ∷ last ∷ []) =
    if is_streams version name && equal_codes last (codes "pipeline")
    then pipeline method id
    else not_found
on_parts method _ = not_found

-- A path that the mux serves as it stands; it redirects one that is not clean.
unfoldable pub route : String → String → Found
unfolding equal_codes split
route method path = on_parts method (split b'/' (codes path))

-- What a request gets: the status of the middleware, or what the mux finds.
abbrev pub past_auth : Option ℕ → Found → Found ⊎ ℕ
past_auth (some code) found = inr code
past_auth none found = inl found

unfoldable pub serve : String → String → String → String → Found ⊎ ℕ
unfolding route bearer_auth is_public
serve token method path authorization =
    past_auth (bearer_auth token is_public path authorization) (route method path)
