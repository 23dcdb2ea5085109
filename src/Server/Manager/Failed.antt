-- ===== src/Server/Manager/Failed.antt =====
-- internal/server/manager.go: a stream registered in its terminal state keeps the maps in agreement.
use nephtys.Prelude.{◌≡◌, String, true, false, some, inl, inr, is_some, arith, eq_iff, Bool-cases}
use nephtys.Prelude.Text.{str_eq}
use nephtys.Prelude.Map.{Map, get, put, get-put}
use nephtys.Domain.Config.{StreamSourceConfig}
use nephtys.Server.Supervisor.{StreamRuntime}
use nephtys.Server.Manager.{Live, claim_if_free}
use nephtys.Server.Manager.Ports.{connector_port}
use nephtys.Server.Manager.Consistent.{Agree, stranger_claims}

module _ (gs : Map Live) (cs : Map StreamSourceConfig) (ks ds : Map (Unit {0}))
    (rs : Map StreamRuntime) (ps : Map String) (agree : Agree gs cs ks ds rs ps) where
  unsupervised : (id : String) → is_some (get rs id) ≡ false → is_some (get gs id) ≡ false
  unsupervised id u = ground (arith, agree.registered id, u)

  free-claims :
      (cfg : StreamSourceConfig)
      → is_some (get rs cfg.id) ≡ false
      → (port id : String) → get (claim_if_free (connector_port cfg) cfg.id ps) port ≡ some id
      → (x : StreamSourceConfig) × (get (put cs cfg.id cfg) id ≡ some x) × (connector_port x ≡ port)
  unfolding claim_if_free
  free-claims cfg u port id e = elim (Bool-cases (str_eq cfg.id id)) [
    | inl same ↦ (cfg, ground (arith, get-put cs cfg.id id cfg, same), own same)
    | inr other ↦
        let (x, known, at) = agree.claims port id (old other) in
        (x, ground (arith, get-put cs cfg.id id cfg, other, known), at)
  ]
    where
      own : str_eq cfg.id id ≡ true → connector_port cfg ≡ port
      own same = ground (
        arith,
        e,
        same,
        eq_iff cfg.id id,
        eq_iff (connector_port cfg) port,
        get-put ps (connector_port cfg) port cfg.id,
        stranger_claims gs cs ks ds rs ps agree cfg.id u port,
      )

      old : str_eq cfg.id id ≡ false → get ps port ≡ some id
      old other = ground (
        arith,
        e,
        other,
        eq_iff cfg.id id,
        eq_iff (connector_port cfg) port,
        get-put ps (connector_port cfg) port cfg.id,
      )

  pub fail-Agree :
      (cfg : StreamSourceConfig) (rt : StreamRuntime)
      → is_some (get rs cfg.id) ≡ false
      → Agree gs
          (put cs cfg.id cfg)
          ks
          ds
          (put rs cfg.id rt)
          (claim_if_free (connector_port cfg) cfg.id ps)
  unfolding claim_if_free
  fail-Agree cfg rt u = record {
    keyed = λ id. ground (arith, get-put cs cfg.id id cfg, get-put rs cfg.id id rt, agree.keyed id);
    supervised = agree.supervised;
    waited = agree.waited;
    registered = λ id r. ground (arith, get-put rs cfg.id id rt, agree.registered id, r);
    named =
        λ id x e. ground (arith, get-put cs cfg.id id cfg, agree.named id x, e, eq_iff cfg.id id);
    claims = free-claims cfg u;
    held = λ id x r e b.
        let was : get ps (connector_port x) ≡ some id =
          agree.held id x r
            (ground
              (arith, get-put cs cfg.id id cfg, e, r, unsupervised cfg.id u, eq_iff cfg.id id))
            b in
        ground (
          arith,
          was,
          b,
          eq_iff (connector_port cfg) (connector_port x),
          get-put ps (connector_port cfg) (connector_port x) cfg.id,
        );
  }

  -- The supervisor of a registered stream writes its runtime.
  pub runtime-Agree :
      (id : String) (rt : StreamRuntime)
      → is_some (get rs id) ≡ true
      → Agree gs cs ks ds (put rs id rt) ps
  runtime-Agree id rt r = record {
    keyed = λ j. ground (arith, get-put rs id j rt, agree.keyed j, r, eq_iff id j);
    supervised = agree.supervised;
    waited = agree.waited;
    registered = λ j e. ground (arith, get-put rs id j rt, agree.registered j, e);
    named = agree.named;
    claims = agree.claims;
    held = agree.held;
  }
