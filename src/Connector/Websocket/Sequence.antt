-- ===== src/Connector/Websocket/Sequence.antt =====
-- internal/connector/websocket.go: the sequence number that is read from a message.
use nephtys.Prelude.{
  ℕ, zero, suc, ◌<◌, ◌≡◌, ◌⊎◌, inl, inr, refl, String, Option, none, some, List, [], ◌∷◌, ◌++◌, All,
  arith, ap, subst,
}
use nephtys.Prelude.Int.{ℤ, pos, negsuc}
use nephtys.Connector.Websocket.{
  Member, int64_from_any, positive, or_else, seq_keys, first_positive, infer_websocket_metadata,
}

-- The member is no number that fits an int64, or is not positive.
abbrev pub Unusable : (String → Option Member) → String → Type 0
Unusable obj key = positive (int64_from_any (obj key)) ≡ none

-- The number is that of one key, and no key before it has a usable one.
pub record FirstOf (obj : String → Option Member) (keys : List String) (n : ℕ) : Type 0 where
  pub before : List String
  pub key : String
  pub after : List String
  pub listed : keys ≡ before ++ key ∷ after
  pub skipped : All (Unusable obj) before
  pub found : int64_from_any (obj key) ≡ some (pos n)

positive-some : (o : Option ℤ) (n : ℕ) → positive o ≡ some n → (o ≡ some (pos n)) × (0 < n)
positive-some none n e = cc
positive-some (some (negsuc m)) n e = cc
positive-some (some (pos zero)) n e = cc
positive-some (some (pos (suc m))) n e = ground (arith, e)

abbrev Found : (String → Option Member) → List String → ℕ → Type 0
Found obj keys n = ((n ≡ 0) × All (Unusable obj) keys) ⊎ ((0 < n) × FirstOf obj keys n)

Found-cons :
    (obj : String → Option Member) (key : String) (keys : List String) (n : ℕ) (o : Option ℕ)
    → positive (int64_from_any (obj key)) ≡ o
    → Found obj keys n
    → Found obj (key ∷ keys) (or_else o n)
Found-cons obj key keys n none e (inl (z, u)) = inl (z, (e, u))
Found-cons obj key keys n none e (inr (l, f)) = inr (
  l,
  record {
    before = key ∷ f.before;
    key = f.key;
    after = f.after;
    listed = ap (◌∷◌ key) f.listed;
    skipped = (e, f.skipped);
    found = f.found;
  },
)
Found-cons obj key keys n (some m) e f =
    let (found, l) = positive-some (int64_from_any (obj key)) m e in
    inr (
      l,
      record { before = []; key = key; after = keys; listed = refl; skipped = tt; found = found },
    )

first_positive-Found :
    (obj : String → Option Member) (keys : List String) → Found obj keys (first_positive obj keys)
unfolding first_positive
first_positive-Found obj [] = inl (refl, tt)
first_positive-Found obj (key ∷ keys) =
    Found-cons obj key keys (first_positive obj keys) (positive (int64_from_any (obj key))) refl
      (first_positive-Found obj keys)

-- The sequence number of a message that decodes to an object is that of the first of the keys seq,
-- u, lastUpdateId and t whose member is a number that fits an int64 and is positive, and 0 if there
-- is none; of any other message it is 0.
pub seq_found :
    (fallback : ℕ) (message : Option (String → Option Member))
    → let n = (infer_websocket_metadata message fallback).seq in
      ((n ≡ 0)
        × ((obj : String → Option Member) → message ≡ some obj → All (Unusable obj) seq_keys))
      ⊎ ((0 < n) × ((obj : String → Option Member) × (message ≡ some obj) × FirstOf obj seq_keys n))
unfolding infer_websocket_metadata
seq_found fallback none = inl (refl, λ obj e. cc)
seq_found fallback (some obj) = decided (first_positive-Found obj seq_keys)
  where
    decided :
        Found obj seq_keys (first_positive obj seq_keys)
        → let n = first_positive obj seq_keys in
          ((n ≡ 0) × ((o : String → Option Member) → some obj ≡ some o → All (Unusable o) seq_keys))
          ⊎ ((0 < n) × ((o : String → Option Member) × (some obj ≡ some o) × FirstOf o seq_keys n))
    decided (inl (z, u)) = inl (
      z,
      λ o e.
          let same : obj ≡ o = cc in
          subst (λ (p : String → Option Member). All (Unusable p) seq_keys) same u,
    )
    decided (inr (l, f)) = inr (l, (obj, refl, f))
