-- ===== src/Server/Restart/Ladder.antt =====
-- internal/server/restart.go with validateRestart: the ladder of delays of a validated policy.
use nephtys.Prelude.{
  ℕ, zero, suc, ◌^◌, ◌≡◌, refl, String, Bool, true, false, some, arith, not, if◌then◌else◌,
  Option-cases, inl, inr,
}
use nephtys.Prelude.Int.{ℤ, pos, negsuc, ◌≤ℤ◌, ltb_ℤ}
use nephtys.Prelude.Result.{ok, require, >>=-eq-ok, >>-eq-ok}
use nephtys.Domain.Config.{RestartConfig, StreamSourceConfig}
use nephtys.Host.{Host}
use nephtys.Host.Float.{float_one, float_two}
use nephtys.Server.Restart.{
  RestartPolicy, default_initial_backoff, default_max_backoff, default_reset_after, default_policy,
  override, restart_policy_for, stated, delay, capped,
}
use nephtys.Server.Validate.Fields.{
  validate_restart, check_restart, validate_restart_duration, effective, factor_too_small,
  is_negative, negative_attempts, factor_below_one,
}

-- A policy whose ladder grows, within its cap.
pub record Grows (p : RestartPolicy) : Type 0 where
  pub starts : pos 1 ≤ℤ p.initial_backoff
  pub room : p.initial_backoff ≤ℤ p.max_backoff
  pub resets : pos 1 ≤ℤ p.reset_after
  pub factor_grows : float_one ≤ℤ p.factor

default_policy-Grows : (kind : String) → Grows (default_policy kind)
unfolding default_policy float_one float_two
default_policy-Grows kind = record {
  starts = omega arith;
  room = omega arith;
  resets = omega arith;
  factor_grows = omega arith;
}

-- What validation resolves is what the policy takes.
stated-effective :
    (host : Host) (path raw : String) (def d : ℤ)
    → validate_restart_duration host path raw ≡ ok d
    → stated host raw def ≡ effective d def
unfolding validate_restart_duration stated
stated-effective host path raw def d v = ground arith

effective_positive : (d def : ℤ) → pos 1 ≤ℤ def → pos 1 ≤ℤ effective d def
effective_positive d def p = ground arith

require-true : {E : Type 0} (b : Bool) (e : E) → require b e ≡ ok tt → b ≡ true
require-true true e v = refl
require-true false e v = cc

not-true : (b : Bool) → not b ≡ true → b ≡ false
not-true true e = cc
not-true false e = refl

not_less : (a b : ℤ) → ltb_ℤ a b ≡ false → b ≤ℤ a
not_less a b e = ground arith

-- A factor of 0 stands for the default, and any other below 1 is refused.
factor_lem :
    (f : ℤ) → factor_too_small f ≡ false → float_one ≤ℤ (if ltb_ℤ (pos 0) f then f else float_two)
unfolding factor_too_small float_one float_two
factor_lem (pos zero) e = omega arith
factor_lem (pos (suc n)) e = ground arith
factor_lem (negsuc n) e = ground arith

module _ (host : Host) (kind : String) (rc : RestartConfig) where
  fields-Grows :
      (initial maximum reset : ℤ)
      → factor_too_small rc.factor ≡ false
      → validate_restart_duration host "restart.initial_backoff" rc.initial_backoff ≡ ok initial
      → validate_restart_duration host "restart.max_backoff" rc.max_backoff ≡ ok maximum
      → validate_restart_duration host "restart.reset_after" rc.reset_after ≡ ok reset
      → ltb_ℤ (effective maximum default_max_backoff) (effective initial default_initial_backoff)
        ≡ false
      → Grows (override host (default_policy kind) (some rc))
  unfolding override default_policy
  fields-Grows initial maximum reset f v₃ v₄ v₅ t =
      let e₃ = stated-effective host _ rc.initial_backoff default_initial_backoff initial v₃ in
      let e₄ = stated-effective host _ rc.max_backoff default_max_backoff maximum v₄ in
      let e₅ = stated-effective host _ rc.reset_after default_reset_after reset v₅ in
      record {
        starts = rw e₃ (effective_positive initial default_initial_backoff (omega arith));
        room =
            rw (e₃, e₄)
              (not_less (effective maximum default_max_backoff)
                (effective initial default_initial_backoff) t);
        resets = rw e₅ (effective_positive reset default_reset_after (omega arith));
        factor_grows = factor_lem rc.factor f;
      }

  override-Grows :
      check_restart host rc ≡ ok tt → Grows (override host (default_policy kind) (some rc))
  unfolding check_restart
  override-Grows v =
      let (v₁, r₁) = >>-eq-ok (require (not (is_negative rc.max_attempts)) negative_attempts) _ v in
      let (v₂, r₂) = >>-eq-ok (require (not (factor_too_small rc.factor)) factor_below_one) _ r₁ in
      let (initial, v₃, r₃) =
        >>=-eq-ok (validate_restart_duration host "restart.initial_backoff" rc.initial_backoff) _
          r₂ in
      let (maximum, v₄, r₄) =
        >>=-eq-ok (validate_restart_duration host "restart.max_backoff" rc.max_backoff) _ r₃ in
      let (reset, v₅, r₅) =
        >>=-eq-ok (validate_restart_duration host "restart.reset_after" rc.reset_after) _ r₄ in
      fields-Grows initial maximum reset (not-true _ (require-true _ _ v₂)) v₃ v₄ v₅
        (not-true _ (require-true _ _ r₅))

-- Of a validated configuration the policy starts with a positive delay, not above its cap, resets
-- after a positive time, and has a factor of at least 1.
pub valid_policy-Grows :
    (host : Host) (cfg : StreamSourceConfig)
    → validate_restart host cfg.restart ≡ ok tt
    → Grows (restart_policy_for host cfg)
unfolding restart_policy_for validate_restart override
valid_policy-Grows host cfg v = elim (Option-cases cfg.restart) [
  | inl e ↦ rw e (default_policy-Grows cfg.kind)
  | inr (rc, e) ↦ rw e (override-Grows host cfg.kind rc (rw e at v))
]

-- The durations that a float64 holds exactly: about 104 days.
abbrev pub max_exact : ℤ
max_exact = pos (2 ^ 53)

policy_delay_bounds :
    (host : Host) (p : RestartPolicy) (attempt : ℕ)
    (scale_grows : (d f r : ℤ) (n : ℕ)
      → pos 1 ≤ℤ d
      → d ≤ℤ max_exact
      → float_one ≤ℤ f
      → host.scale d f n ≡ some r
      → d ≤ℤ r)
    → Grows p
    → p.max_backoff ≤ℤ max_exact
    → (p.initial_backoff ≤ℤ delay host p attempt) × (delay host p attempt ≤ℤ p.max_backoff)
unfolding delay
policy_delay_bounds host p zero scale_grows g m = (omega arith, g.room)
policy_delay_bounds host p (suc zero) scale_grows g m = (omega arith, g.room)
policy_delay_bounds host p (suc (suc n)) scale_grows g m =
    elim (Option-cases (host.scale p.initial_backoff p.factor (suc n))) [
      | inl e ↦ rw e (unfold capped in (g.room, omega arith))
      | inr (r, e) ↦
          let least =
            scale_grows p.initial_backoff p.factor r (suc n) g.starts (omega (arith, g.room, m))
              g.factor_grows e in
          rw e (unfold capped in ground (arith, g.room, least))
    ]

-- Of a validated configuration every delay is at least the first one and at most the cap, if no
-- duration exceeds what a float64 holds exactly, and if scaling such a duration by a power of a
-- factor of at least 1 does not shrink it.
pub delay_bounds :
    (host : Host) (cfg : StreamSourceConfig) (attempt : ℕ)
    (scale_grows : (d f r : ℤ) (n : ℕ)
      → pos 1 ≤ℤ d
      → d ≤ℤ max_exact
      → float_one ≤ℤ f
      → host.scale d f n ≡ some r
      → d ≤ℤ r)
    → validate_restart host cfg.restart ≡ ok tt
    → (restart_policy_for host cfg).max_backoff ≤ℤ max_exact
    → let p = restart_policy_for host cfg in
      (p.initial_backoff ≤ℤ delay host p attempt) × (delay host p attempt ≤ℤ p.max_backoff)
delay_bounds host cfg attempt scale_grows v m =
    policy_delay_bounds host (restart_policy_for host cfg) attempt scale_grows
      (valid_policy-Grows host cfg v) m
