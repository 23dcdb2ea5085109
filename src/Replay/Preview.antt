-- ===== src/Replay/Preview.antt =====
-- docs/replay/consumer.go: the preview of a payload.
use nephtys.Prelude.{
  ℕ, zero, suc, ◌≤◌, ◌<◌, ◌≡◌, ◌⊎◌, inl, inr, refl, subst, true, false, leb, arith, length,
  get_elem?, take, ◌++◌, Bool-cases, both-branches,
}
use nephtys.Domain.Event.{Bytes}
use nephtys.Replay.{starts_at, back_up, payload_preview, ellipsis, preview}

-- The last place up to the limit at which a rune starts, or the start of the text.
pub record IsCut (s : Bytes) (limit n : ℕ) : Type 0 where
  pub within : n ≤ limit
  pub boundary : (n ≡ 0) ⊎ (starts_at (get_elem? s n) ≡ true)
  pub last : (k : ℕ) → n < k → k ≤ limit → starts_at (get_elem? s k) ≡ false

back_up-IsCut : (s : Bytes) (limit : ℕ) → IsCut s limit (back_up s limit)
unfolding back_up
back_up-IsCut s zero = record {
  within = omega arith;
  boundary = inl refl;
  last = λ k a b. absurd (omega (arith, a, b));
}
back_up-IsCut s (suc limit) =
    both-branches (IsCut s (suc limit)) (starts_at (get_elem? s (suc limit)))
      (λ e. record {
        within = omega arith;
        boundary = inr e;
        last = λ k a b. absurd (omega (arith, a, b));
      })
      (λ e.
        let before = back_up-IsCut s limit in
        record {
          within = omega (arith, before.within);
          boundary = before.boundary;
          last = λ k a b. elim (Bool-cases (leb k limit)) [
            | inl small ↦ before.last k a (ground (arith, small))
            | inr large ↦
                let same : suc limit ≡ k = ground (arith, large, b) in
                subst (λ j. starts_at (get_elem? s j) ≡ false) same e
          ];
        })

-- A trimmed text of up to 160 bytes is shown whole; of a longer one the bytes up to the last start of
-- a rune that is no later than that are shown, with an ellipsis behind them.
pub preview_cuts :
    (s : Bytes)
    → ((length s ≤ payload_preview) × (preview s ≡ s))
      ⊎ ((payload_preview < length s)
          × ((n : ℕ) × IsCut s payload_preview n × (preview s ≡ take n s ++ ellipsis)))
unfolding preview
preview_cuts s = elim (Bool-cases (leb (length s) payload_preview)) [
  | inl short ↦ inl (ground (arith, short), ground (arith, short))
  | inr long ↦ inr (
    ground (arith, long),
    (back_up s payload_preview, back_up-IsCut s payload_preview, ground (arith, long)),
  )
]
