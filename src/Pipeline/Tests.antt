-- ===== src/Pipeline/Tests.antt =====
-- The theorems on the middlewares and the chain at concrete inputs.
use nephtys.Prelude.{◌↔◌, refl, ◌≡◌, String, false, some, List, [], ◌∷◌, arith}
use nephtys.Prelude.Int.{pos}
use nephtys.Prelude.Lists.{All}
use nephtys.Prelude.Map.{get, empty, put, get-put}
use nephtys.Prelude.Text.{str_eq}
use nephtys.Host.Float.{Float, nan, finite}
use nephtys.Host.Json.{Json, field, end, obj, str, arr, null, cons, nil, get_field}
use nephtys.Host.Number.{split_dots}
use nephtys.Pipeline.Middleware.Transform.{transformed}
use nephtys.Pipeline.Middleware.Transform.Payload.{path_of, Leads, get_field-transformed}
use nephtys.Pipeline.Middleware.Threshold.{judge}
use nephtys.Pipeline.Middleware.Threshold.Spacing.{
  is_apart, last_passed, Spaced, threshold_spacing, nan_blocks_group,
}
use nephtys.Pipeline.Middleware.Threshold.Spacing.{run as measure_all}
use nephtys.Fixtures.{host}

-- A price in the second order of a payload.
abbrev orders : Json
orders = obj (field "orders" (arr (cons null (cons (obj (field "p" (str "1") end)) nil))) end)

get_field-transformed_example :
    (get_field "price" (transformed orders (("price", "orders.1.p") ∷ []) end) ≡ some (str "1")) ↔ (
      (path : String) × (path_of "price" (("price", "orders.1.p") ∷ []) ≡ some path)
      × Leads (split_dots path) orders (str "1"))
get_field-transformed_example =
    get_field-transformed "price" orders (str "1") (("price", "orders.1.p") ∷ []) (refl, tt)

abbrev measured : List (String × Float)
measured = ("a", finite (pos 1)) ∷ ("b", nan) ∷ ("a", finite (pos 2)) ∷ []

threshold_spacing_example :
    let (states, log) = measure_all host (pos 1) empty [] measured in
    (get states "a" ≡ last_passed "a" log)
    × Spaced host (pos 1) log
    × ((judge host (pos 1) "a" (finite (pos 3)) states).1
        ≡ is_apart host (pos 1) (last_passed "a" log) (finite (pos 3)))
threshold_spacing_example = threshold_spacing host (pos 1) measured "a" (finite (pos 3))

nan_blocks_group_example :
    let (states, log) = measure_all host (pos 1) (put empty "b" nan) [] measured in
    (get states "b" ≡ some nan) × All (λ (gx : String × Float). str_eq gx.0 "b" ≡ false) log
nan_blocks_group_example =
    nan_blocks_group host (pos 1) "b" measured (put empty "b" nan)
      (ground (arith, get-put {V = Float} empty "b" "b" nan))
