-- ===== src/Server/Routes/Tests.antt =====
-- A request for the streams, and what the mux makes of other paths.
use nephtys.Prelude.{◌≡◌, ◌⊎◌, inl, inr, refl, All}
use nephtys.Prelude.Text.{codes}
use nephtys.Server.Auth.{bearer_auth, has_scheme}
use nephtys.Server.Routes.{list_streams, update_pipeline, handler, method_not_allowed, route, serve}
use nephtys.Server.Routes.Guarded.{IsProbe, Authorized, Answers, probes, api_guarded}

listed : serve "secret" "GET" "/v1/streams" "bearer secret" ≡ inl (handler list_streams)
unfolding serve route bearer_auth has_scheme
listed = refl

api_guarded_example :
    (IsProbe list_streams ⊎ Authorized "secret" "bearer secret")
    × All (Answers "secret" "bearer secret") probes
api_guarded_example = api_guarded "secret" "GET" "/v1/streams" "bearer secret" list_streams listed

unauthorized : serve "secret" "DELETE" "/v1/streams/feed" "" ≡ inr 401
unfolding serve route bearer_auth has_scheme
unauthorized = refl

routed : route "PUT" "/v1/streams/feed/pipeline" ≡ handler (update_pipeline (codes "feed"))
unfolding route
routed = refl

wrong_method : route "PATCH" "/v1/streams" ≡ method_not_allowed
unfolding route
wrong_method = refl
