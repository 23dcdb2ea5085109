-- ===== src/Store/Refines.antt =====
-- internal/store/kv.go: the store as the map that the stream manager works with.
use nephtys.Prelude.{
  ◌≡◌, refl, ap, ◌∙◌, sym, subst, String, true, Option, none, some, List, [], ◌∷◌, arith, is_some,
  any, All, Bool-cases, inl, inr, eq_iff,
}
use nephtys.Prelude.Text.{str_eq}
use nephtys.Prelude.Map
use nephtys.Prelude.Map.{Map, map_laws}
use nephtys.Prelude.Result.{Result, ok, err}
use nephtys.Domain.Event.{Bytes}
use nephtys.Domain.Config.{StreamSourceConfig}
use nephtys.Store.{
  KvError, no_keys_found, bucket_not_found, unavailable, KeyValue, Codec, StoreError, put, delete,
  get, entries, append_entry, append_decoded, list, listed,
}
use nephtys.Store.Entries.{
  Documented, ReadsBack, After, Listed, decode, Represents, put-Represents, delete-Represents,
  get-bytes, get-Represents,
}

module _ (kv : KeyValue) (codec : Codec) (view : kv.State → String → Option Bytes)
    (documented : Documented kv view) where
  IsHeld : kv.State → StreamSourceConfig → Type 0
  IsHeld s c = (k : String) × (decode kv codec view documented (view s k) ≡ some c)

  append_entry-IsHeld :
      (key : String) (s : kv.State) (x : Result KvError Bytes) (rest : List StreamSourceConfig)
      → kv.get key s ≡ x
      → All (IsHeld s) rest
      → All (IsHeld s) (append_entry kv codec x rest)
  unfolding IsHeld
  append_entry-IsHeld key s (err e) rest g a = a
  append_entry-IsHeld key s (ok bs) rest g a =
      each (codec.unmarshal bs)
        (ap (decode kv codec view documented) (documented.get_lem key s bs g))
    where
      each :
          (o : Option StreamSourceConfig)
          → decode kv codec view documented (view s key) ≡ o
          → All (IsHeld s) (append_decoded kv codec o rest)
      each none e = a
      each (some c) e = ((key, e), a)

  entries-IsHeld : (keys : List String) (s : kv.State) → All (IsHeld s) (entries kv codec keys s)
  unfolding entries
  entries-IsHeld [] s = tt
  entries-IsHeld (key ∷ keys) s =
      append_entry-IsHeld key s (kv.get key s) (entries kv codec keys s) refl
        (entries-IsHeld keys s)

  append_entry-Listed :
      (x : Result KvError Bytes) (rest : List StreamSourceConfig) (c : StreamSourceConfig)
      → Listed c rest
      → Listed c (append_entry kv codec x rest)
  append_entry-Listed (err e) rest c l = l
  append_entry-Listed (ok bs) rest c l = each (codec.unmarshal bs)
    where
      each : (o : Option StreamSourceConfig) → Listed c (append_decoded kv codec o rest)
      each none = l
      each (some d) = inr l

  entries-Listed :
      (keys : List String) (s : kv.State) (k : String) (bs : Bytes) (c : StreamSourceConfig)
      → any (λ j. str_eq j k) keys ≡ true
      → kv.get k s ≡ ok bs
      → codec.unmarshal bs ≡ some c
      → Listed c (entries kv codec keys s)
  unfolding entries
  entries-Listed [] s k bs c a g u = cc
  entries-Listed (key ∷ keys) s k bs c a g u = elim (Bool-cases (str_eq key k)) [
    | inl same ↦
        let at : kv.get key s ≡ ok bs = ap (λ j. kv.get j s) ((eq_iff key k).0 same) ∙ g in
        subst (λ x. Listed c (append_entry kv codec x (entries kv codec keys s))) (sym at)
          (subst (λ o. Listed c (append_decoded kv codec o (entries kv codec keys s))) (sym u)
            (inl refl))
    | inr other ↦
        append_entry-Listed (kv.get key s) (entries kv codec keys s) c
          (entries-Listed keys s k bs c (ground (arith, a, other)) g u)
  ]

  list-IsHeld :
      (s : kv.State) (r : Result KvError (List String)) (cs : List StreamSourceConfig)
      → listed kv codec s r ≡ ok cs
      → All (IsHeld s) cs
  list-IsHeld s (err no_keys_found) [] e = tt
  list-IsHeld s (err no_keys_found) (c ∷ cs) e = cc
  list-IsHeld s (err bucket_not_found) cs e = cc
  list-IsHeld s (err (unavailable x)) cs e = cc
  list-IsHeld s (ok keys) cs e =
      let same : entries kv codec keys s ≡ cs = cc in
      subst (All (IsHeld s)) same (entries-IsHeld keys s)

  list-Listed :
      (s : kv.State) (r : Result KvError (List String)) (cs : List StreamSourceConfig) (k : String)
      (bs : Bytes) (c : StreamSourceConfig)
      → kv.keys s ≡ r
      → listed kv codec s r ≡ ok cs
      → kv.get k s ≡ ok bs
      → codec.unmarshal bs ≡ some c
      → Listed c cs
  list-Listed s (err no_keys_found) cs k bs c f e g u =
      absurd (cc (documented.no_keys_lem k s f, documented.get_lem k s bs g))
  list-Listed s (err bucket_not_found) cs k bs c f e g u = cc
  list-Listed s (err (unavailable x)) cs k bs c f e g u = cc
  list-Listed s (ok keys) cs k bs c f e g u =
      let same : entries kv codec keys s ≡ cs = cc in
      let key : any (λ j. str_eq j k) keys ≡ true =
        documented.keys_lem k s keys f ∙ ap is_some (documented.get_lem k s bs g) in
      subst (Listed c) same (entries-Listed keys s k bs c key g u)

  All-held :
      (s : kv.State) (m : Map StreamSourceConfig) (cs : List StreamSourceConfig)
      → Represents kv codec view documented s m
      → All (IsHeld s) cs
      → All (λ c. (k : String) × (Map.get m k ≡ some c)) cs
  unfolding IsHeld
  All-held s m [] r a = tt
  All-held s m (c ∷ cs) r ((k, e), a) = ((k, sym (r k) ∙ e), All-held s m cs r a)

  abbrev pub AfterList :
      kv.State → Map StreamSourceConfig → String → List StreamSourceConfig → Type 0
  AfterList s m id cs =
      All (λ c. (k : String) × (Map.get m k ≡ some c)) cs
      × After (get kv codec id s) (λ c. Listed c cs)

  after :
      {A : Type 0} (r : Result StoreError A) (P : A → Type 0)
      → ((a : A) → r ≡ ok a → P a)
      → After r P
  after (err e) P h = tt
  after (ok a) P h = h a refl

  -- Let a map hold what the bucket holds under each id, as far as it decodes, let the client do what
  -- it documents, and let JSON read back a configuration. A Put of it that succeeds puts it into the
  -- map under its id, and a Delete that succeeds removes the id; a Get that succeeds answers what the
  -- map holds, and a List that succeeds answers nothing but what the map holds, and what a Get of any
  -- id would answer.
  pub store_refines :
      (s : kv.State) (m : Map StreamSourceConfig) (cfg : StreamSourceConfig) (id : String)
      → Represents kv codec view documented s m
      → ReadsBack codec cfg
      → After
          (put kv codec cfg s)
          (λ t. Represents kv codec view documented t (Map.put m cfg.id cfg))
        × After
            (delete kv codec id s)
            (λ t. Represents kv codec view documented t (Map.remove m id))
        × After (get kv codec id s) (λ c. Map.get m id ≡ some c)
        × After (list kv codec s) (AfterList s m id)
  unfolding list get
  store_refines s m cfg id r b = (
    after (put kv codec cfg s) _ (λ t e. put-Represents kv codec view documented cfg s t m r b e),
    after (delete kv codec id s) _ (λ t e. delete-Represents kv codec view documented id s t m r e),
    after (get kv codec id s) _ (λ c e. get-Represents kv codec view documented id s m c r e),
    after (list kv codec s) _ (λ cs e. (
      All-held s m cs r (list-IsHeld s (kv.keys s) cs e),
      after (get kv codec id s) _ (λ c g.
          let (bs, read, same) = get-bytes kv codec view documented id (kv.get id s) c g in
          list-Listed s (kv.keys s) cs id bs c refl e read same),
    )),
  )
