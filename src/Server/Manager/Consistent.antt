-- ===== src/Server/Manager/Consistent.antt =====
-- internal/server/manager.go: the maps of StreamManager agree with each other.
use nephtys.Prelude.{
  ◌≡◌, ap, sym, ◌∙◌, String, true, false, none, some, inl, inr, is_some, arith, eq_iff, Bool-cases,
}
use nephtys.Prelude.Text.{str_eq, is_blank}
use nephtys.Prelude.Map.{Map, get, put, get-put, get-remove, get-drop_if, remove}
use nephtys.Domain.Config.{StreamSourceConfig}
use nephtys.Server.Supervisor.{StreamRuntime}
use nephtys.Server.Manager.{Live, Manager, claim, holder_of}
use nephtys.Server.Manager.Remove.{release_claims}
use nephtys.Server.Manager.Ports.{connector_port}
use nephtys.Server.Manager.Settled.{SameMaps}

pub record Agree (generations : Map Live) (configs : Map StreamSourceConfig)
    (cancels dones : Map (Unit {0})) (runtimes : Map StreamRuntime) (port_claims : Map String)
    : Type 0 where
  -- a stream has a configuration exactly if it is registered
  pub keyed : (id : String) → is_some (get configs id) ≡ is_some (get runtimes id)
  -- one that was admitted has a pipeline, a supervisor to cancel and one to wait for
  pub supervised : (id : String) → is_some (get cancels id) ≡ is_some (get generations id)
  pub waited : (id : String) → is_some (get dones id) ≡ is_some (get generations id)
  pub registered :
      (id : String) → is_some (get generations id) ≡ true → is_some (get runtimes id) ≡ true
  pub named : (id : String) (cfg : StreamSourceConfig) → get configs id ≡ some cfg → cfg.id ≡ id
  -- a claim is that of the port in its holder's configuration
  pub claims :
      (port id : String)
      → get port_claims port ≡ some id
      → (cfg : StreamSourceConfig) × (get configs id ≡ some cfg) × (connector_port cfg ≡ port)
  -- one that was admitted holds the port that it binds
  pub held :
      (id : String) (cfg : StreamSourceConfig)
      → is_some (get generations id) ≡ true
      → get configs id ≡ some cfg
      → is_blank (connector_port cfg) ≡ false
      → get port_claims (connector_port cfg) ≡ some id

abbrev pub Consistent : Manager → Type 0
Consistent m = Agree m.generations m.configs m.cancels m.dones m.runtimes m.port_claims

pub SameMaps-Consistent : (m h : Manager) → SameMaps m h → Consistent m → Consistent h
SameMaps-Consistent m h s c =
    rw s.generations (rw s.configs (rw s.cancels (rw s.dones (rw s.runtimes (rw s.port_claims c)))))

module _ (gs : Map Live) (cs : Map StreamSourceConfig) (ks ds : Map (Unit {0}))
    (rs : Map StreamRuntime) (ps : Map String) (agree : Agree gs cs ks ds rs ps) where
  -- No stream holds a claim without being registered.
  pub stranger_claims :
      (id : String) → is_some (get rs id) ≡ false → (port : String) → get ps port ≡ some id → ⊥
  stranger_claims id u port e =
      let (cfg, known, at) = agree.claims port id e in ground (arith, agree.keyed id, known, u)

  -- One claim more, of a port that was free.
  claim-claims :
      (cfg : StreamSourceConfig)
      → is_some (get rs cfg.id) ≡ false
      → holder_of (connector_port cfg) ps ≡ none
      → (port id : String) → get (claim (connector_port cfg) cfg.id ps) port ≡ some id
      → (x : StreamSourceConfig) × (get (put cs cfg.id cfg) id ≡ some x) × (connector_port x ≡ port)
  unfolding claim holder_of
  claim-claims cfg u f port id e = elim (Bool-cases (str_eq cfg.id id)) [
    | inl same ↦ (cfg, ground (arith, get-put cs cfg.id id cfg, same), own same)
    | inr other ↦
        let (x, known, at) = agree.claims port id (old other) in
        (x, ground (arith, get-put cs cfg.id id cfg, other, known), at)
  ]
    where
      own : str_eq cfg.id id ≡ true → connector_port cfg ≡ port
      own same = ground (
        arith,
        e,
        same,
        f,
        eq_iff cfg.id id,
        eq_iff (connector_port cfg) port,
        get-put ps (connector_port cfg) port cfg.id,
        stranger_claims cfg.id u port,
      )

      old : str_eq cfg.id id ≡ false → get ps port ≡ some id
      old other = ground (
        arith,
        e,
        other,
        f,
        eq_iff cfg.id id,
        eq_iff (connector_port cfg) port,
        get-put ps (connector_port cfg) port cfg.id,
      )

  claim-held :
      (cfg : StreamSourceConfig) (g : Live)
      → holder_of (connector_port cfg) ps ≡ none
      → (id : String) (x : StreamSourceConfig) → is_some (get (put gs cfg.id g) id) ≡ true
      → get (put cs cfg.id cfg) id ≡ some x
      → is_blank (connector_port x) ≡ false
      → get (claim (connector_port cfg) cfg.id ps) (connector_port x) ≡ some id
  unfolding claim holder_of
  claim-held cfg g f id x r e b = elim (Bool-cases (str_eq cfg.id id)) [
    | inl same ↦
        let own : cfg ≡ x = ground (arith, get-put cs cfg.id id cfg, same, e) in
        let port : connector_port cfg ≡ connector_port x = ap connector_port own in
        ground (
          arith,
          b,
          same,
          f,
          port,
          eq_iff cfg.id id,
          eq_iff (connector_port cfg) (connector_port x),
          get-put ps (connector_port cfg) (connector_port x) cfg.id,
        )
    | inr other ↦
        let was : get ps (connector_port x) ≡ some id =
          agree.held id x (ground (arith, get-put gs cfg.id id g, other, r))
            (ground (arith, get-put cs cfg.id id cfg, other, e)) b in
        ground (
          arith,
          b,
          was,
          f,
          eq_iff (connector_port cfg) (connector_port x),
          get-put ps (connector_port cfg) (connector_port x) cfg.id,
        )
  ]

  pub put-Agree :
      (cfg : StreamSourceConfig) (g : Live) (rt : StreamRuntime)
      → is_some (get rs cfg.id) ≡ false
      → holder_of (connector_port cfg) ps ≡ none
      → Agree
          (put gs cfg.id g)
          (put cs cfg.id cfg)
          (put ks cfg.id tt)
          (put ds cfg.id tt)
          (put rs cfg.id rt)
          (claim (connector_port cfg) cfg.id ps)
  unfolding claim holder_of
  put-Agree cfg g rt u f = record {
    keyed = λ id. ground (arith, get-put cs cfg.id id cfg, get-put rs cfg.id id rt, agree.keyed id);
    supervised =
        λ id. ground (arith, get-put ks cfg.id id tt, get-put gs cfg.id id g, agree.supervised id);
    waited = λ id. ground (arith, get-put ds cfg.id id tt, get-put gs cfg.id id g, agree.waited id);
    registered = λ id r.
        ground (arith, get-put rs cfg.id id rt, get-put gs cfg.id id g, agree.registered id, r);
    named =
        λ id x e. ground (arith, get-put cs cfg.id id cfg, agree.named id x, e, eq_iff cfg.id id);
    claims = claim-claims cfg u f;
    held = claim-held cfg g f;
  }

  -- The stream and its claims go.
  pub remove-Agree :
      (id : String)
      → Agree
          (remove gs id)
          (remove cs id)
          (remove ks id)
          (remove ds id)
          (remove rs id)
          (release_claims id ps)
  unfolding release_claims
  remove-Agree id = record {
    keyed = λ j. ground (arith, get-remove cs id j, get-remove rs id j, agree.keyed j);
    supervised = λ j. ground (arith, get-remove ks id j, get-remove gs id j, agree.supervised j);
    waited = λ j. ground (arith, get-remove ds id j, get-remove gs id j, agree.waited j);
    registered =
        λ j r. ground (arith, get-remove rs id j, get-remove gs id j, agree.registered j, r);
    named = λ j x e. ground (arith, get-remove cs id j, agree.named j x, e);
    claims = λ port j e.
        let was : get ps port ≡ some j =
          ground (arith, e, get-drop_if (λ holder. str_eq holder id) ps port) in
        let (x, known, at) = agree.claims port j was in
        (
          x,
          ground (
            arith,
            known,
            e,
            get-drop_if (λ holder. str_eq holder id) ps port,
            get-remove cs id j,
            eq_iff j id,
            eq_iff id j,
          ),
          at,
        );
    held = λ j x r e b.
        let was : get ps (connector_port x) ≡ some j =
          agree.held j x (ground (arith, get-remove gs id j, r))
            (ground (arith, get-remove cs id j, e)) b in
        ground (
          arith,
          was,
          e,
          get-drop_if (λ holder. str_eq holder id) ps (connector_port x),
          get-remove cs id j,
          eq_iff j id,
          eq_iff id j,
        );
  }

  -- Another pipeline of a stream that has one, and its configuration with the pipeline replaced.
  pub swap-Agree :
      (id : String) (g : Live) (old new : StreamSourceConfig)
      → is_some (get gs id) ≡ true
      → get cs id ≡ some old
      → new.id ≡ old.id
      → connector_port new ≡ connector_port old
      → Agree (put gs id g) (put cs id new) ks ds rs ps
  swap-Agree id g old new r k n p = record {
    keyed = λ j. ground (arith, get-put cs id j new, agree.keyed j, agree.keyed id, k, eq_iff id j);
    supervised = λ j.
        ground (arith, get-put gs id j g, agree.supervised j, agree.supervised id, r, eq_iff id j);
    waited =
        λ j. ground (arith, get-put gs id j g, agree.waited j, agree.waited id, r, eq_iff id j);
    registered = λ j e.
        ground
          (arith, get-put gs id j g, agree.registered j, agree.registered id, r, e, eq_iff id j);
    named = λ j x e. elim (Bool-cases (str_eq id j)) [
      | inl same ↦
          let own : new ≡ x = ground (arith, get-put cs id j new, same, e) in
          ap (λ c. c.id) (sym own) ∙ n ∙ agree.named id old k ∙ ground (arith, eq_iff id j, same)
      | inr other ↦ agree.named j x (ground (arith, get-put cs id j new, other, e))
    ];
    claims = λ port j e.
        let (x, known, at) = agree.claims port j e in
        elim (Bool-cases (str_eq id j)) [
          | inl same ↦
              let joined : id ≡ j = ground (arith, eq_iff id j, same) in
              let own : old ≡ x = ground (arith, ap (get cs) joined, k, known) in
              (new, ground (arith, get-put cs id j new, same), p ∙ ap connector_port own ∙ at)
          | inr other ↦ (x, ground (arith, get-put cs id j new, other, known), at)
        ];
    held = λ j x e f b. elim (Bool-cases (str_eq id j)) [
      | inl same ↦
          let own : new ≡ x = ground (arith, get-put cs id j new, same, f) in
          let port : connector_port x ≡ connector_port old = ap connector_port (sym own) ∙ p in
          let was = agree.held id old r k (ap is_blank (sym port) ∙ b) in
          ap (get ps) port ∙ was ∙ ap some (ground (arith, eq_iff id j, same))
      | inr other ↦
          agree.held j x (ground (arith, get-put gs id j g, other, e))
            (ground (arith, get-put cs id j new, other, f)) b
    ];
  }
