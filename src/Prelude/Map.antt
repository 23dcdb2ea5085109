-- ===== src/Prelude/Map.antt =====
-- A Go map with string keys: `m[k]`, `m[k] = v`, `delete(m, k)` and the loops over its entries.
-- The newest entry of a key is the one in force; an entry without a value is a deleted key.
use mathlib.Core.Path.{◌≡◌, refl, sym, ◌∙◌}
use mathlib.Core.Bool.{Bool, true, not, ◌&&◌}
use mathlib.Core.Logic.{inl, inr}
use mathlib.Core.Option.{Option, none, some}
use mathlib.Core.List.{List, [], ◌∷◌}
use text.Mathlib.TextEquality.{eq_iff}
use Prim.Native.String.{String}
use native.Mathlib.Omega.{arith}
use nephtys.Prelude.Tests.{if◌then◌else◌, Bool-cases}
use nephtys.Prelude.Lists.{any}
use nephtys.Prelude.Text.{str_eq}

pub record Map {ℓ} (V : Type ℓ) : Type ℓ where
  entries : List (String × Option V)

module _ {ℓ} {V : Type ℓ} where
  unfoldable pub find : String → List (String × Option V) → Option V
  find k [] = none
  find k ((j, o) ∷ l) = if str_eq j k then o else find k l

  unfoldable pub drop_entry : (V → Bool) → Option V → Option V
  drop_entry p none = none
  drop_entry p (some v) = if p v then none else some v

  unfoldable pub drop_entries : (V → Bool) → List (String × Option V) → List (String × Option V)
  drop_entries p [] = []
  drop_entries p ((j, o) ∷ l) = (j, drop_entry p o) ∷ drop_entries p l

  unfoldable pub empty : Map V
  empty = record { entries = [] }

  unfoldable pub get : Map V → String → Option V
  unfolding find
  get m k = find k m.entries

  unfoldable pub put : Map V → String → V → Map V
  put m k v = record { entries = (k, some v) ∷ m.entries }

  unfoldable pub remove : Map V → String → Map V
  remove m k = record { entries = (k, none) ∷ m.entries }

  -- `for k, v := range m { if p(v) { delete(m, k) } }`
  unfoldable pub drop_if : (V → Bool) → Map V → Map V
  unfolding drop_entries drop_entry
  drop_if p m = record { entries = drop_entries p m.entries }

  pub get-empty : (k : String) → get empty k ≡ none
  unfolding get empty
  get-empty k = refl

  pub get-put :
      (m : Map V) (k j : String) (v : V)
      → get (put m k v) j ≡ (if str_eq k j then some v else get m j)
  unfolding get put
  get-put m k j v = refl

  pub get-remove :
      (m : Map V) (k j : String) → get (remove m k) j ≡ (if str_eq k j then none else get m j)
  unfolding get remove
  get-remove m k j = refl

  find-drop_entries :
      (p : V → Bool) (l : List (String × Option V)) (k : String)
      → find k (drop_entries p l) ≡ drop_entry p (find k l)
  unfolding find drop_entries drop_entry
  find-drop_entries p [] k = refl
  find-drop_entries p ((j, o) ∷ l) k = ground (arith, find-drop_entries p l k)

  abbrev pub unless : (V → Bool) → Option V → Option V
  unless p none = none
  unless p (some v) = if p v then none else some v

  drop_entry-eq : (p : V → Bool) (o : Option V) → drop_entry p o ≡ unless p o
  unfolding drop_entry
  drop_entry-eq p none = refl
  drop_entry-eq p (some v) = refl

  pub get-drop_if :
      (p : V → Bool) (m : Map V) (k : String) → get (drop_if p m) k ≡ unless p (get m k)
  unfolding get drop_if
  get-drop_if p m k = rw (find-drop_entries p m.entries k) (drop_entry-eq p (find k m.entries))

  -- The bindings of the other keys.
  others : String → List (String × V) → List (String × V)
  others k [] = []
  others k (b ∷ bs) = let rest = others k bs in if str_eq b.0 k then rest else b ∷ rest

  bindings_from : List (String × Option V) → List (String × V)
  unfolding others
  bindings_from [] = []
  bindings_from ((k, none) ∷ l) = others k (bindings_from l)
  bindings_from ((k, some v) ∷ l) = (k, v) ∷ others k (bindings_from l)

  -- What a `range` over the map visits: each key in force, once.
  pub bindings : Map V → List (String × V)
  unfolding bindings_from
  bindings m = bindings_from m.entries

  unfoldable pub lookup : String → List (String × V) → Option V
  lookup k [] = none
  lookup k (b ∷ bs) = if str_eq b.0 k then some b.1 else lookup k bs

  lookup-others :
      (j : String) (bs : List (String × V)) (k : String)
      → lookup k (others j bs) ≡ (if str_eq j k then none else lookup k bs)
  unfolding others lookup
  lookup-others j [] k = ground arith
  lookup-others j (b ∷ bs) k =
      ground (arith, eq_iff j k, eq_iff b.0 k, eq_iff b.0 j, lookup-others j bs k)

  lookup-bindings_from :
      (k : String) (l : List (String × Option V)) → lookup k (bindings_from l) ≡ find k l
  unfolding lookup bindings_from find
  lookup-bindings_from k [] = refl
  lookup-bindings_from k ((j, none) ∷ l) =
      ground (arith, lookup-others j (bindings_from l) k, lookup-bindings_from k l)
  lookup-bindings_from k ((j, some v) ∷ l) =
      ground (arith, lookup-others j (bindings_from l) k, lookup-bindings_from k l)

  -- The loop over the entries sees exactly what the lookups see.
  pub lookup-bindings : (k : String) (m : Map V) → lookup k (bindings m) ≡ get m k
  unfolding bindings get
  lookup-bindings k m = lookup-bindings_from k m.entries

  any-others :
      (p : String × V → Bool) (j : String) (bs : List (String × V))
      → any p (others j bs) ≡ any (λ b. p b && not (str_eq b.0 j)) bs
  unfolding others
  any-others p j [] = refl
  any-others p j (b ∷ bs) = ground (arith, any-others p j bs)

  any-bindings_from :
      (p : String × V → Bool) (l : List (String × Option V))
      → any p (bindings_from l) ≡ true
      → (b : String × V) × (p b ≡ true) × (find b.0 l ≡ some b.1)
  unfolding bindings_from find
  any-bindings_from p [] e = cc
  any-bindings_from p ((k, none) ∷ l) e =
      let (b, holds, found) =
        any-bindings_from (λ b. p b && not (str_eq b.0 k)) l
          (sym (any-others p k (bindings_from l)) ∙ e) in
      (b, ground (arith, holds), ground (arith, holds, found, eq_iff k b.0, eq_iff b.0 k))
  any-bindings_from p ((k, some v) ∷ l) e = elim (Bool-cases (p (k, v))) [
    | inl first ↦ ((k, v), first, ground (arith, eq_iff k k))
    | inr other ↦
        let (b, holds, found) =
          any-bindings_from (λ b. p b && not (str_eq b.0 k)) l
            (sym (any-others p k (bindings_from l)) ∙ ground (arith, other, e)) in
        (b, ground (arith, holds), ground (arith, holds, found, eq_iff k b.0, eq_iff b.0 k))
  ]

  -- What holds of some entry that a `range` visits holds of a key and the value that it looks up.
  pub any-bindings :
      (p : String × V → Bool) (m : Map V)
      → any p (bindings m) ≡ true
      → (b : String × V) × (p b ≡ true) × (get m b.0 ≡ some b.1)
  unfolding bindings get
  any-bindings p m e = any-bindings_from p m.entries e

-- The proofs of the other modules go by these laws; only their tests look inside a map.
pub ruleset map_laws = (get-empty, get-put, get-remove, get-drop_if)
