-- ===== src/Host/Json.antt =====
-- The values that encoding/json decodes into an `interface{}`.
use nephtys.Prelude.{String, Bool, ℕ, zero, suc, Option, none, some, if◌then◌else◌}
use nephtys.Prelude.Int.{ℤ}
use nephtys.Prelude.Text.{str_eq}

mutual
  pub data Json : Type 0 where
    null : Json
    bool : Bool → Json
    num : ℤ → Json  -- a finite float64
    str : String → Json
    arr : Items → Json
    obj : Fields → Json

  pub data Items : Type 0 where
    nil : Items
    cons : Json → Items → Items

  pub data Fields : Type 0 where
    end : Fields
    field : String → Json → Fields → Fields

-- `m[key]`, and `m[key] = v`
unfoldable pub get_field : String → Fields → Option Json
get_field k end = none
get_field k (field j v fs) = if str_eq j k then some v else get_field k fs

unfoldable pub set_field : String → Json → Fields → Fields
set_field k v end = field k v end
set_field k v (field j w fs) =
    let rest = set_field k v fs in if str_eq j k then field j v fs else field j w rest

-- `s[i]` of a slice, `none` out of range
unfoldable pub get_item : ℕ → Items → Option Json
get_item i nil = none
get_item zero (cons v vs) = some v
get_item (suc i) (cons v vs) = get_item i vs
