-- ===== src/Server/Manager/Stopped.antt =====
-- internal/server/manager.go: StopAll retires every pipeline after its source has stopped.
use nephtys.Prelude.{
  ◌≡◌, refl, sym, ap, ◌∙◌, subst, ◌⊎◌, inl, inr, String, true, Option, none, some, List, [], ◌∷◌,
  ◌++◌, arith, is_some, Bool-cases, eq_iff, append_assoc,
}
use nephtys.Prelude.Text.{str_eq}
use nephtys.Prelude.Map.{Map, get, bindings, lookup, lookup-bindings, remove}
use nephtys.Server.Supervisor.{StreamRuntime}
use nephtys.Server.Manager.{Live, Manager, Effect, awaited, cancelled, retired, note, retire}
use nephtys.Server.Manager.Remove.{note_if}
use nephtys.Server.Manager.Consistent.{Consistent}
use nephtys.Server.Manager.StopAll.{cancel_all, await_all, retire_all, drop_series, stop_all}

-- The effect is in the trace.
abbrev pub Noted : Effect → List Effect → Type 0
Noted e [] = ⊥
Noted e (x ∷ l) = (x ≡ e) ⊎ Noted e l

Noted-append : (e : Effect) (xs ys : List Effect) → Noted e ys → Noted e (xs ++ ys)
Noted-append e [] ys n = n
Noted-append e (x ∷ xs) ys n = inr (Noted-append e xs ys n)

-- The trace after some operation is longer by a prefix.
abbrev Extends : Manager → Manager → Type 0
Extends m h = (pre : List Effect) × (h.trace ≡ pre ++ m.trace)

Extends-Noted : (e : Effect) (m h : Manager) → Extends m h → Noted e m.trace → Noted e h.trace
Extends-Noted e m h (pre, x) n = subst (Noted e) (sym x) (Noted-append e pre m.trace n)

note_if-Extends :
    {A : Type 0} (o : Option A) (e : Effect) (m : Manager) → Extends m (note_if o (λ _. note e) m)
unfolding note_if note
note_if-Extends none e m = ([], refl)
note_if-Extends (some a) e m = (e ∷ [], refl)

then_Extends : (m h k : Manager) → Extends m h → Extends h k → Extends m k
then_Extends m h k (p, x) (q, y) = (q ++ p, y ∙ ap (λ l. q ++ l) x ∙ sym (append_assoc q p m.trace))

note_if-dones :
    {A : Type 0} (o : Option A) (e : Effect) (m : Manager)
    → (note_if o (λ _. note e) m).dones ≡ m.dones
unfolding note_if note
note_if-dones none e m = refl
note_if-dones (some a) e m = refl

await_all-Extends : (l : List (String × Unit {0})) (m : Manager) → Extends m (await_all l m)
unfolding await_all
await_all-Extends [] m = ([], refl)
await_all-Extends ((id, u) ∷ l) m =
    let h : Manager = note_if (get m.dones id) (λ _. note (awaited id)) m in
    then_Extends m h (await_all l h) (note_if-Extends (get m.dones id) (awaited id) m)
      (await_all-Extends l h)

note_if-Noted :
    {A : Type 0} (o : Option A) (e : Effect) (m : Manager)
    → is_some o ≡ true
    → Noted e (note_if o (λ _. note e) m).trace
unfolding note_if note
note_if-Noted none e m x = cc
note_if-Noted (some a) e m x = inl refl

await_all-Noted :
    (id : String) (l : List (String × Unit {0})) (m : Manager)
    → is_some (lookup id l) ≡ true
    → is_some (get m.dones id) ≡ true
    → Noted (awaited id) (await_all l m).trace
unfolding await_all lookup
await_all-Noted id [] m x d = cc
await_all-Noted id ((j, u) ∷ l) m x d =
    let h : Manager = note_if (get m.dones j) (λ _. note (awaited j)) m in
    elim (Bool-cases (str_eq j id)) [
      | inl same ↦
          let joined : j ≡ id = ground (arith, same, eq_iff j id) in
          let here : Noted (awaited j) h.trace =
            note_if-Noted (get m.dones j) (awaited j) m
              (ap (λ k. is_some (get m.dones k)) joined ∙ d) in
          subst (λ k. Noted (awaited k) (await_all l h).trace) joined
            (Extends-Noted (awaited j) h (await_all l h) (await_all-Extends l h) here)
      | inr other ↦ await_all-Noted id l h (ground (arith, x, other)) (
          ap (λ (ds : Map (Unit {0})). is_some (get ds id))
            (note_if-dones (get m.dones j) (awaited j) m)
          ∙ d)
    ]

retire_all-Extends : (l : List (String × Live)) (m : Manager) → Extends m (retire_all l m)
unfolding retire_all retire note
retire_all-Extends [] m = ([], refl)
retire_all-Extends ((id, g) ∷ l) m =
    then_Extends m (retire g m) (retire_all l (retire g m)) (retired g.serial ∷ [], refl)
      (retire_all-Extends l (retire g m))

-- The generation is retired after everything that was noted before.
record Retires (g : Live) (m h : Manager) : Type 0 where
  later : List Effect
  earlier : List Effect
  trace : h.trace ≡ later ++ retired g.serial ∷ (earlier ++ m.trace)

retire_all-Retires :
    (id : String) (g : Live) (l : List (String × Live)) (m : Manager)
    → lookup id l ≡ some g
    → Retires g m (retire_all l m)
unfolding retire_all lookup retire note
retire_all-Retires id g [] m e = cc
retire_all-Retires id g ((j, x) ∷ l) m e = elim (Bool-cases (str_eq j id)) [
  | inl same ↦
      let own : x ≡ g = ground (arith, same, e) in
      let (pre, t) = retire_all-Extends l (retire x m) in
      record {
        later = pre;
        earlier = [];
        trace = t ∙ ap (λ (y : Live). pre ++ retired y.serial ∷ m.trace) own;
      }
  | inr other ↦
      let r = retire_all-Retires id g l (retire x m) (ground (arith, other, e)) in
      record {
        later = r.later;
        earlier = r.earlier ++ retired x.serial ∷ [];
        trace =
            r.trace
            ∙ ap (λ y. r.later ++ retired g.serial ∷ y)
                (sym (append_assoc r.earlier (retired x.serial ∷ []) m.trace));
      }
]

drop_series-trace :
    (l : List (String × StreamRuntime)) (m : Manager) → (drop_series l m).trace ≡ m.trace
unfolding drop_series
drop_series-trace [] m = refl
drop_series-trace ((id, rt) ∷ l) m = drop_series-trace l (record m { series = remove m.series id })

cancel_all-dones : (l : List (String × Unit {0})) (m : Manager) → (cancel_all l m).dones ≡ m.dones
unfolding cancel_all note
cancel_all-dones [] m = refl
cancel_all-dones ((id, u) ∷ l) m = cancel_all-dones l (note (cancelled id) m)

-- On maps that agree, StopAll retires the generation of every stream, and it waits for the
-- supervisor of the stream before.
pub stop_all_ordered :
    (id : String) (g : Live) (m : Manager)
    → Consistent m
    → get m.generations id ≡ some g
    → (later : List Effect) × (earlier : List Effect) × ((stop_all m).trace
        ≡ later ++ retired g.serial ∷ earlier)
      × Noted (awaited id) earlier
unfolding stop_all
stop_all_ordered id g m c e =
    let live : is_some (get m.generations id) ≡ true = ap is_some e in
    let asked : Manager = cancel_all (bindings m.cancels) m in
    let quiet : Manager = await_all (bindings m.cancels) asked in
    let r =
      retire_all-Retires id g (bindings m.generations) quiet
        (lookup-bindings id m.generations ∙ e) in
    let waited : Noted (awaited id) quiet.trace =
      await_all-Noted id (bindings m.cancels) asked
        (ap is_some (lookup-bindings id m.cancels) ∙ c.supervised id ∙ live)
        (ap (λ (ds : Map (Unit {0})). is_some (get ds id)) (cancel_all-dones (bindings m.cancels) m)
          ∙ c.waited id
          ∙ live) in
    (
      r.later,
      r.earlier ++ quiet.trace,
      drop_series-trace (bindings m.runtimes) (retire_all (bindings m.generations) quiet) ∙ r.trace,
      Noted-append (awaited id) r.earlier quiet.trace waited,
    )
