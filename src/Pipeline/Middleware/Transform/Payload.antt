-- ===== src/Pipeline/Middleware/Transform/Payload.antt =====
-- internal/pipeline/transform.go and enrich.go: which fields the rewritten payload has.
use nephtys.Prelude.{
  ◌≡◌, ◌⊎◌, ◌↔◌, inl, inr, refl, ap, sym, subst, ◌∙◌, ℕ, String, true, false, Option, none, some,
  List, [], ◌∷◌, arith, if◌then◌else◌, eq_iff, any, Bool-cases,
}
use nephtys.Prelude.Int.{ℤ, pos, negsuc}
use nephtys.Prelude.Lists.{is_empty}
use nephtys.Prelude.Text.{str_eq}
use nephtys.Domain.Event.{StreamEvent}
use nephtys.Host.{Host}
use nephtys.Host.Number.{atoi, split_dots}
use nephtys.Host.Json.{
  Json, null, bool, num, str, arr, obj, Fields, Items, field, end, get_field, set_field, get_item,
}
use nephtys.Pipeline.Chain.{
  panicked, ChainState, Handler, extract_value, walk, step_into, at_index, or_stop,
}
use nephtys.Pipeline.Middleware.Transform.{
  set_if_found, transformed, inject, enrich_events, repacked,
}

pub get_field-set_field :
    (k j : String) (v : Json) (fs : Fields)
    → get_field j (set_field k v fs) ≡ (if str_eq k j then some v else get_field j fs)
unfolding get_field set_field
get_field-set_field k j v end = ground arith
get_field-set_field k j v (field i w fs) =
    ground (arith, eq_iff k j, eq_iff i k, eq_iff i j, get_field-set_field k j v fs)

-- Later assignments win over earlier ones: the tag of a key, or else what was there.
unfoldable pub tagged : String → List (String × String) → Option Json → Option Json
tagged k [] old = old
tagged k ((j, v) ∷ tags) old = tagged k tags (if str_eq j k then some (str v) else old)

-- Every field of the enriched object is the last tag of its key, or, where no tag has the key, the
-- field of the object as it came.
pub get_field-inject :
    (k : String) (tags : List (String × String)) (fs : Fields)
    → get_field k (inject tags fs) ≡ tagged k tags (get_field k fs)
unfolding inject tagged
get_field-inject k [] fs = refl
get_field-inject k ((j, v) ∷ tags) fs =
    get_field-inject k tags (set_field j (str v) fs)
    ∙ ap (tagged k tags) (get_field-set_field j k (str v) fs)

-- The value that a path leads to: a member of an object by its name, an element of an array by its
-- place, written as a number that is not negative.
pub data Leads : List String → Json → Json → Type 0 where
  here : (v : Json) → Leads [] v v
  in_object :
      (part : String) (parts : List String) (fs : Fields) (w v : Json)
      → get_field part fs ≡ some w
      → Leads parts w v
      → Leads (part ∷ parts) (obj fs) v
  in_array :
      (part : String) (parts : List String) (i : ℕ) (vs : Items) (w v : Json)
      → atoi part ≡ some (pos i)
      → get_item i vs ≡ some w
      → Leads parts w v
      → Leads (part ∷ parts) (arr vs) v

Leads-walk : {parts : List String} {u v : Json} → Leads parts u v → walk parts u ≡ some v
unfolding walk step_into at_index
Leads-walk (here v) = refl
Leads-walk (in_object part parts fs w v e l) = ap (λ o. or_stop o (walk parts)) e ∙ Leads-walk l
Leads-walk (in_array part parts i vs w v n e l) =
    ap (λ o. or_stop (at_index o (arr vs)) (walk parts)) n
    ∙ ap (λ o. or_stop o (walk parts)) e
    ∙ Leads-walk l

or_stop-eq-some :
    (o : Option Json) (k : Json → Option Json) (v : Json)
    → or_stop o k ≡ some v
    → (w : Json) × (o ≡ some w) × (k w ≡ some v)
or_stop-eq-some none k v e = cc
or_stop-eq-some (some w) k v e = (w, refl, e)

at_index-eq-some :
    (o : Option ℤ) (vs : Items) (w : Json)
    → at_index o (arr vs) ≡ some w
    → (i : ℕ) × (o ≡ some (pos i)) × (get_item i vs ≡ some w)
unfolding at_index
at_index-eq-some none vs w e = cc
at_index-eq-some (some (pos i)) vs w e = (i, refl, e)
at_index-eq-some (some (negsuc i)) vs w e = cc

walk-Leads : (parts : List String) (u v : Json) → walk parts u ≡ some v → Leads parts u v
unfolding walk step_into
walk-Leads [] u v e = let same : u ≡ v = cc in subst (Leads [] u) same (here u)
walk-Leads (part ∷ parts) (obj fs) v e =
    let (w, found, rest) = or_stop-eq-some (get_field part fs) (walk parts) v e in
    in_object part parts fs w v found (walk-Leads parts w v rest)
walk-Leads (part ∷ parts) (arr vs) v e =
    let (w, found, rest) = or_stop-eq-some (at_index (atoi part) (arr vs)) (walk parts) v e in
    let (i, place, item) = at_index-eq-some (atoi part) vs w found in
    in_array part parts i vs w v place item (walk-Leads parts w v rest)
walk-Leads (part ∷ parts) null v e = cc
walk-Leads (part ∷ parts) (bool b) v e = cc
walk-Leads (part ∷ parts) (num x) v e = cc
walk-Leads (part ∷ parts) (str x) v e = cc

-- The keys of a Go map: none comes twice.
abbrev pub Distinct : List (String × String) → Type 0
Distinct [] = Unit {0}
Distinct ((k, path) ∷ rest) = (any (λ m. str_eq m.0 k) rest ≡ false) × Distinct rest

-- The path that the mapping has for a key.
unfoldable pub path_of : String → List (String × String) → Option String
path_of k [] = none
path_of k ((j, path) ∷ rest) = if str_eq j k then some path else path_of k rest

abbrev or_old : Option Json → Option Json → Option Json
or_old none old = old
or_old (some v) old = some v

abbrev found_by : Json → Option String → Option Json → Option Json
found_by original none old = old
found_by original (some path) old = or_old (extract_value original path) old

get_field-set_if_found :
    (k j : String) (o : Option Json) (fs : Fields)
    → get_field j (set_if_found k o fs)
      ≡ (if str_eq k j then or_old o (get_field j fs) else get_field j fs)
unfolding set_if_found
get_field-set_if_found k j none fs = ground arith
get_field-set_if_found k j (some v) fs = get_field-set_field k j v fs

path_of-none :
    (k : String) (mapping : List (String × String))
    → any (λ m. str_eq m.0 k) mapping ≡ false
    → path_of k mapping ≡ none
unfolding path_of
path_of-none k [] e = refl
path_of-none k ((j, path) ∷ rest) e = ground (arith, e, path_of-none k rest)

-- With no key twice, the loop leaves under a key what the path of that key finds.
transformed_fields :
    (k : String) (original : Json) (mapping : List (String × String)) (fs : Fields)
    → Distinct mapping
    → get_field k (transformed original mapping fs)
      ≡ found_by original (path_of k mapping) (get_field k fs)
unfolding transformed path_of
transformed_fields k original [] fs d = refl
transformed_fields k original ((j, path) ∷ rest) fs (once, d) =
    transformed_fields k original rest (set_if_found j (extract_value original path) fs) d
    ∙ ap (found_by original (path_of k rest))
        (get_field-set_if_found j k (extract_value original path) fs)
    ∙ both (Bool-cases (str_eq j k))
  where
    both :
        (str_eq j k ≡ true) ⊎ (str_eq j k ≡ false)
        → found_by original (path_of k rest) (
            if str_eq j k
            then or_old (extract_value original path) (get_field k fs)
            else get_field k fs)
          ≡ found_by original (if str_eq j k then some path else path_of k rest) (get_field k fs)
    both (inl same) =
        let key : j ≡ k = (eq_iff j k).0 same in
        let last : path_of k rest ≡ none =
          path_of-none k rest (ap (λ x. any (λ m. str_eq m.0 x) rest) (sym key) ∙ once) in
        rw same (rw last refl)
    both (inr other) = rw other refl

-- A mapping in which no key comes twice, as in a Go map: the object that is built has a value under a
-- key exactly if the mapping has a path for the key that leads to that value in the payload, step
-- by step through the members of objects and the elements of arrays.
pub get_field-transformed :
    (k : String) (original v : Json) (mapping : List (String × String))
    → Distinct mapping
    → (get_field k (transformed original mapping end) ≡ some v)
      ↔ ((path : String) × (path_of k mapping ≡ some path) × Leads (split_dots path) original v)
unfolding extract_value get_field
get_field-transformed k original v mapping d =
    let fields : get_field k (transformed original mapping end)
        ≡ found_by original (path_of k mapping) none =
      transformed_fields k original mapping end d in
    (
      (λ e. to (path_of k mapping) refl (sym fields ∙ e)),
      (λ (path, p, l). fields ∙ ap (λ o. found_by original o none) p ∙ from path l),
    )
  where
    to :
        (o : Option String)
        → path_of k mapping ≡ o
        → found_by original o none ≡ some v
        → (path : String) × (path_of k mapping ≡ some path) × Leads (split_dots path) original v
    to none p e = cc
    to (some path) p e = (
      path,
      p,
      walk-Leads (split_dots path) original v (or_old-none (walk (split_dots path) original) ∙ e),
    )
      where
        or_old-none : (o : Option Json) → o ≡ or_old o none
        or_old-none none = refl
        or_old-none (some x) = refl

    from :
        (path : String)
        → Leads (split_dots path) original v
        → or_old (extract_value original path) none ≡ some v
    from path l = ap (λ o. or_old o none) (Leads-walk l)

-- An event whose payload is JSON null makes the enrichment panic, whatever the tags and whatever
-- comes behind it in the chain; nothing is handed on.
pub enrich_null_panics :
    (host : Host) (tags : List (String × String)) (next : Handler) (topic : String)
    (e : StreamEvent) (s : ChainState)
    → is_empty e.payload ≡ false
    → host.unmarshal e.payload ≡ some null
    → enrich_events host tags next topic e s ≡ (s, panicked)
unfolding enrich_events
enrich_null_panics host tags next topic e s p q = rw p (rw q refl)

-- An event whose payload is a JSON object is handed on once, with the payload that marshals the
-- object with the tags in it (or as it came, where that does not marshal) and nothing else changed.
pub enrich_object :
    (host : Host) (tags : List (String × String)) (next : Handler) (topic : String)
    (e : StreamEvent) (s : ChainState) (fs : Fields)
    → is_empty e.payload ≡ false
    → host.unmarshal e.payload ≡ some (obj fs)
    → enrich_events host tags next topic e s
      ≡ next topic (repacked (host.marshal (obj (inject tags fs))) e) s
unfolding enrich_events
enrich_object host tags next topic e s fs p q = rw p (rw q refl)
