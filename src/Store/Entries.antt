-- ===== src/Store/Entries.antt =====
-- internal/store/kv.go: what Put, Delete and Get do to the map that the bucket represents.
use nephtys.Prelude.{
  ◌≡◌, ◌⊎◌, refl, ap, ◌∙◌, sym, String, Bool, true, false, Option, none, some, List, [], ◌∷◌,
  if◌then◌else◌, arith, is_some, any,
}
use nephtys.Prelude.Text.{str_eq}
use nephtys.Prelude.Map
use nephtys.Prelude.Map.{Map, map_laws}
use nephtys.Prelude.Result.{Result, ok, err}
use nephtys.Domain.Event.{Bytes}
use nephtys.Domain.Config.{StreamSourceConfig}
use nephtys.Store.{
  KvError, no_keys_found, KeyValue, Codec, StoreError, put, put_data, put_result, delete,
  delete_result, get, get_entry, decoded,
}

-- What the client of the bucket documents: the calls that succeed put, delete and read entries, and
-- the keys are those with an entry.
pub record Documented (kv : KeyValue) (view : kv.State → String → Option Bytes) : Type 0 where
  pub put_lem :
      (k j : String) (bs : Bytes) (s t : kv.State)
      → kv.put k bs s ≡ ok t
      → view t j ≡ (if str_eq k j then some bs else view s j)
  pub delete_lem :
      (k j : String) (s t : kv.State)
      → kv.delete k s ≡ ok t
      → view t j ≡ (if str_eq k j then none else view s j)
  pub get_lem : (k : String) (s : kv.State) (bs : Bytes) → kv.get k s ≡ ok bs → view s k ≡ some bs
  pub keys_lem :
      (k : String) (s : kv.State) (ks : List String)
      → kv.keys s ≡ ok ks
      → any (λ j. str_eq j k) ks ≡ is_some (view s k)
  pub no_keys_lem : (k : String) (s : kv.State) → kv.keys s ≡ err no_keys_found → view s k ≡ none

-- `encoding/json` reads back what it writes of the configuration.
abbrev pub ReadsBack : Codec → StreamSourceConfig → Type 0
ReadsBack codec cfg = (bs : Bytes) → codec.marshal cfg ≡ some bs → codec.unmarshal bs ≡ some cfg

-- A call succeeds only with a value of which the predicate holds.
abbrev pub After : {A : Type 0} → Result StoreError A → (A → Type 0) → Type 0
After (err e) P = Unit {0}
After (ok a) P = P a

abbrev pub Listed : StreamSourceConfig → List StreamSourceConfig → Type 0
Listed c [] = ⊥
Listed c (d ∷ ds) = (d ≡ c) ⊎ Listed c ds

module _ (kv : KeyValue) (codec : Codec) (view : kv.State → String → Option Bytes)
    (documented : Documented kv view) where
  -- The configuration under an id, as far as it decodes.
  abbrev pub decode : Option Bytes → Option StreamSourceConfig
  decode none = none
  decode (some bs) = codec.unmarshal bs

  abbrev pub Represents : kv.State → Map StreamSourceConfig → Type 0
  Represents s m = (k : String) → decode (view s k) ≡ Map.get m k

  put_result-ok :
      (id : String) (r : Result KvError kv.State) (t : kv.State)
      → put_result kv codec id r ≡ ok t
      → r ≡ ok t
  put_result-ok id (ok s) t e = cc
  put_result-ok id (err x) t e = cc

  put-bytes :
      (cfg : StreamSourceConfig) (o : Option Bytes) (s t : kv.State)
      → codec.marshal cfg ≡ o
      → ReadsBack codec cfg
      → put_data kv codec cfg.id o s ≡ ok t
      → (bs : Bytes) × (codec.unmarshal bs ≡ some cfg) × (kv.put cfg.id bs s ≡ ok t)
  put-bytes cfg none s t m b e = cc
  put-bytes cfg (some bs) s t m b e = (bs, b bs m, put_result-ok cfg.id (kv.put cfg.id bs s) t e)

  decode-if :
      (b : Bool) (o p : Option Bytes)
      → decode (if b then o else p) ≡ (if b then decode o else decode p)
  decode-if true o p = refl
  decode-if false o p = refl

  pub put-Represents :
      (cfg : StreamSourceConfig) (s t : kv.State) (m : Map StreamSourceConfig)
      → Represents s m
      → ReadsBack codec cfg
      → put kv codec cfg s ≡ ok t
      → Represents t (Map.put m cfg.id cfg)
  unfolding put
  put-Represents cfg s t m r b e k =
      let (bs, read, done) = put-bytes cfg (codec.marshal cfg) s t refl b e in
      ap decode (documented.put_lem cfg.id k bs s t done)
      ∙ decode-if (str_eq cfg.id k) (some bs) (view s k)
      ∙ ground (arith, read, r k, Map.get-put m cfg.id k cfg)

  delete-ok :
      (id : String) (r : Result KvError kv.State) (t : kv.State)
      → delete_result kv codec id r ≡ ok t
      → r ≡ ok t
  delete-ok id (ok s) t e = cc
  delete-ok id (err x) t e = cc

  pub delete-Represents :
      (id : String) (s t : kv.State) (m : Map StreamSourceConfig)
      → Represents s m
      → delete kv codec id s ≡ ok t
      → Represents t (Map.remove m id)
  unfolding delete
  delete-Represents id s t m r e k =
      ap decode (documented.delete_lem id k s t (delete-ok id (kv.delete id s) t e))
      ∙ decode-if (str_eq id k) none (view s k)
      ∙ ground (arith, r k, Map.get-remove m id k)

  -- A read that succeeds.
  pub get-bytes :
      (id : String) (x : Result KvError Bytes) (cfg : StreamSourceConfig)
      → get_entry kv codec id x ≡ ok cfg
      → (bs : Bytes) × (x ≡ ok bs) × (codec.unmarshal bs ≡ some cfg)
  get-bytes id (err e) cfg h = cc
  get-bytes id (ok bs) cfg h = (bs, refl, decoded-ok (codec.unmarshal bs) h)
    where
      decoded-ok : (o : Option StreamSourceConfig) → decoded kv codec id o ≡ ok cfg → o ≡ some cfg
      decoded-ok none h = cc
      decoded-ok (some c) h = cc

  pub get-Represents :
      (id : String) (s : kv.State) (m : Map StreamSourceConfig) (cfg : StreamSourceConfig)
      → Represents s m
      → get kv codec id s ≡ ok cfg
      → Map.get m id ≡ some cfg
  unfolding get
  get-Represents id s m cfg r e =
      let (bs, read, same) = get-bytes id (kv.get id s) cfg e in
      sym (r id) ∙ ap decode (documented.get_lem id s bs read) ∙ same
