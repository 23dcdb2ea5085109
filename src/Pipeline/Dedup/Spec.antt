-- ===== src/Pipeline/Dedup/Spec.antt =====
-- What the dedup cache promises: a list of hashes with the time at which each was last handed on,
-- the most recently used first.
use nephtys.Prelude.{
  ℕ, ◌-◌, Bool, true, false, Option, none, some, List, [], ◌∷◌, leb, ◌==◌, if◌then◌else◌,
}
use nephtys.Prelude.Lists.{length}

abbrev pub Window : Type 0
Window = List (ℕ × ℕ)

unfoldable pub age_of : ℕ → Window → Option ℕ
age_of h [] = none
age_of h ((k, t) ∷ w) = if k == h then some t else age_of h w

unfoldable pub forget : ℕ → Window → Window
forget h [] = []
forget h ((k, t) ∷ w) = let rest = forget h w in if k == h then rest else (k, t) ∷ rest

unfoldable pub drop_oldest : Window → Window
drop_oldest [] = []
drop_oldest (x ∷ []) = []
drop_oldest (x ∷ y ∷ w) = x ∷ drop_oldest (y ∷ w)

unfoldable pub admit : ℕ → ℕ → ℕ → Window → Window
unfolding drop_oldest
admit cache_size h now w = (h, now) ∷ (if leb cache_size (length w) then drop_oldest w else w)

unfoldable pub judge : ℕ → ℕ → ℕ → ℕ → Option ℕ → Window → Window × Bool
unfolding admit forget
judge ttl cache_size h now none w = (admit cache_size h now w, true)
judge ttl cache_size h now (some t) w =
    if leb (now - t) ttl
    then ((h, t) ∷ forget h w, false)
    else (admit cache_size h now (forget h w), true)

unfoldable pub step : ℕ → ℕ → ℕ → ℕ → Window → Window × Bool
unfolding judge age_of
step ttl cache_size h now w = judge ttl cache_size h now (age_of h w) w
