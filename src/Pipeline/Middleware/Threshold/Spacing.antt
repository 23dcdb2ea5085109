-- ===== src/Pipeline/Middleware/Threshold/Spacing.antt =====
-- internal/pipeline/threshold.go: what passes over any sequence of measured values.
use nephtys.Prelude.{
  ◌≡◌, refl, sym, ap, ◌∙◌, String, Bool, true, false, Option, none, some, List, [], ◌∷◌, arith,
  if◌then◌else◌, Bool-cases, inl, inr, eq_iff,
}
use nephtys.Prelude.Map.{Map, get, empty, get-put, get-empty}
use nephtys.Prelude.Text.{str_eq}
use nephtys.Prelude.Lists.{All}
use nephtys.Domain.Config.{Float64}
use nephtys.Host.{Host}
use nephtys.Host.Float.{Float, nan, finite, reaches}
use nephtys.Pipeline.Middleware.Threshold.{passes, judge}

-- The measured events, each with its group and its value, the last one first.
abbrev pub Passed : Type 0
Passed = List (String × Float)

-- The value that passed last in a group.
unfoldable pub last_passed : String → Passed → Option Float
last_passed g [] = none
last_passed g ((h, x) ∷ log) = if str_eq h g then some x else last_passed g log

unfoldable pub run :
    Host → Float64 → Map Float → Passed → List (String × Float) → Map Float × Passed
run host delta states log [] = (states, log)
run host delta states log ((g, x) ∷ rest) =
    let (states', pass) = judge host delta g x states in
    run host delta states' (if pass then (g, x) ∷ log else log) rest

-- A value is the first of its group, or math.Abs(value-last) >= delta, as float64 computes it.
unfoldable pub is_apart : Host → Float64 → Option Float → Float → Bool
is_apart host delta none x = true
is_apart host delta (some last) x = reaches host.far x last delta

passes-is_apart :
    (host : Host) (delta : Float64) (o : Option Float) (x : Float)
    → passes host delta o x ≡ is_apart host delta o x
unfolding passes is_apart
passes-is_apart host delta none x = refl
passes-is_apart host delta (some last) x = refl

-- Every value that passed was apart from the one that passed before it in its group.
abbrev pub Spaced : Host → Float64 → Passed → Type 0
Spaced host delta [] = Unit
Spaced host delta ((g, x) ∷ log) =
    (is_apart host delta (last_passed g log) x ≡ true) × Spaced host delta log

record Tracks (host : Host) (delta : Float64) (states : Map Float) (log : Passed) : Type 0 where
  lasts : (g : String) → get states g ≡ last_passed g log
  spaced : Spaced host delta log

judge-Tracks :
    (host : Host) (delta : Float64) (states : Map Float) (log : Passed) (g : String) (x : Float)
    → Tracks host delta states log
    → let (states', pass) = judge host delta g x states in
      Tracks host delta states' (if pass then (g, x) ∷ log else log)
unfolding judge
judge-Tracks host delta states log g x t = elim (Bool-cases (passes host delta (get states g) x)) [
  | inl p ↦ rw p (record {
    lasts = λ h. unfold last_passed in ground (arith, get-put states g h x, t.lasts h);
    spaced = (
      ap (λ (o : Option Float). is_apart host delta o x) (sym (t.lasts g))
          ∙ sym (passes-is_apart host delta (get states g) x)
          ∙ p,
      t.spaced,
    );
  })
  | inr p ↦ rw p t
]

run-Tracks :
    (host : Host) (delta : Float64) (states : Map Float) (log : Passed)
    (values : List (String × Float))
    → Tracks host delta states log
    → let (states', log') = run host delta states log values in Tracks host delta states' log'
unfolding run
run-Tracks host delta states log [] t = t
run-Tracks host delta states log ((g, x) ∷ rest) t =
    run-Tracks host delta (judge host delta g x states).0
      (if (judge host delta g x states).1 then (g, x) ∷ log else log) rest
      (judge-Tracks host delta states log g x t)

-- Over any values from the empty state on, the value kept for a group is the one that passed last in
-- it, every value that passed was at least delta away from the one that passed before it in its
-- group, as float64 computes the distance, or was the first of its group, and the next value passes
-- exactly if that holds of it.
pub threshold_spacing :
    (host : Host) (delta : Float64) (values : List (String × Float)) (g : String) (x : Float)
    → let (states, log) = run host delta empty [] values in
      (get states g ≡ last_passed g log)
      × Spaced host delta log
      × ((judge host delta g x states).1 ≡ is_apart host delta (last_passed g log) x)
unfolding judge
threshold_spacing host delta values g x =
    let t =
      run-Tracks host delta empty [] values
        (record { lasts = λ h. unfold last_passed in get-empty h; spaced = tt }) in
    (
      t.lasts g,
      t.spaced,
      ground (
        arith,
        t.lasts g,
        passes-is_apart host delta (get (run host delta empty [] values).0 g) x,
      ),
    )

nan_unreached : (host : Host) (delta : Float64) (x : Float) → passes host delta (some nan) x ≡ false
unfolding passes reaches
nan_unreached host delta (finite a) = refl
nan_unreached host delta _ = refl

abbrev Elsewhere : String → Passed → Type 0
Elsewhere g = All (λ (gx : String × Float). str_eq gx.0 g ≡ false)

judge_nan :
    (host : Host) (delta : Float64) (g h : String) (x : Float) (states : Map Float)
    → get states g ≡ some nan
    → (get (judge host delta h x states).0 g ≡ some nan)
      × ((judge host delta h x states).1 ≡ true → str_eq h g ≡ false)
unfolding judge
judge_nan host delta g h x states n = elim (Bool-cases (str_eq h g)) [
  | inl q ↦
      let same : h ≡ g = (eq_iff h g).0 q in
      ground (arith, nan_unreached host delta x, ap (get states) same, n)
  | inr q ↦ ground (arith, get-put states h g x)
]

run_nan :
    (host : Host) (delta : Float64) (g : String) (values : List (String × Float))
    (states : Map Float) (log : Passed)
    → get states g ≡ some nan
    → Elsewhere g log
    → let (states', log') = run host delta states log values in
      (get states' g ≡ some nan) × Elsewhere g log'
unfolding run
run_nan host delta g [] states log n a = (n, a)
run_nan host delta g ((h, x) ∷ rest) states log n a =
    let (kept, other) = judge_nan host delta g h x states n in
    run_nan host delta g rest (judge host delta h x states).0
      (if (judge host delta h x states).1 then (h, x) ∷ log else log) kept
      (elim (Bool-cases (judge host delta h x states).1) [
        | inl p ↦ rw p (other p, a)
        | inr p ↦ rw p a
      ])

-- Once NaN is the last value of a group, whatever values follow, none in that group passes: the
-- group keeps NaN, and every value that passes belongs to another group.
pub nan_blocks_group :
    (host : Host) (delta : Float64) (g : String) (values : List (String × Float))
    (states : Map Float)
    → get states g ≡ some nan
    → let (states', log) = run host delta states [] values in
      (get states' g ≡ some nan) × All (λ (gx : String × Float). str_eq gx.0 g ≡ false) log
nan_blocks_group host delta g values states n = run_nan host delta g values states [] n tt
