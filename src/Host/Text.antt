-- ===== src/Host/Text.antt =====
-- `strings.Split`, `strings.Join` and `strings.Cut` at one separator, on texts as their code points.
use nephtys.Prelude.{
  ℕ, ◌≡◌, refl, ap, ◌∙◌, sym, Bool, true, false, Option, none, some, List, [], ◌∷◌, ◌++◌, ◌==◌,
  if◌then◌else◌, arith, All, append-nil, subst,
}

abbrev pub Text : Type 0
Text = List ℕ

unfoldable pub prefix_first : ℕ → List Text → List Text
prefix_first c [] = []
prefix_first c (s ∷ ss) = (c ∷ s) ∷ ss

unfoldable pub split : ℕ → Text → List Text
unfolding prefix_first
split sep [] = [] ∷ []
split sep (c ∷ s) = let rest = split sep s in if c == sep then [] ∷ rest else prefix_first c rest

-- The separator and what follows it, before each part but the first.
unfoldable pub join_rest : ℕ → List Text → Text
join_rest sep [] = []
join_rest sep (s ∷ ss) = sep ∷ (s ++ join_rest sep ss)

unfoldable pub join : ℕ → List Text → Text
unfolding join_rest
join sep [] = []
join sep (s ∷ ss) = s ++ join_rest sep ss

-- What stands before the first separator, and what behind it, if there is one.
unfoldable pub cut : ℕ → Text → Text × Option Text
cut sep [] = ([], none)
cut sep (c ∷ s) =
    let (before, after) = cut sep s in if c == sep then ([], some s) else (c ∷ before, after)

-- Whether no code point is the separator.
unfoldable pub lacks : ℕ → Text → Bool
lacks sep [] = true
lacks sep (c ∷ s) = let rest = lacks sep s in if c == sep then false else rest

abbrev pub Lacks : ℕ → Text → Type 0
Lacks sep s = lacks sep s ≡ true

pub Lacks-append : (sep : ℕ) (s t : Text) → Lacks sep s → Lacks sep t → Lacks sep (s ++ t)
unfolding lacks
Lacks-append sep [] t a b = b
Lacks-append sep (c ∷ s) t a b = ground (arith, Lacks-append sep s t, a, b)

-- A text without the separator is one part, also in front of one.
pub split-part : (sep : ℕ) (s : Text) → Lacks sep s → split sep s ≡ s ∷ []
unfolding split lacks
split-part sep [] l = refl
split-part sep (c ∷ s) l = ground (arith, l, split-part sep s)

pub split-append : (sep : ℕ) (s t : Text) → Lacks sep s → split sep (s ++ sep ∷ t) ≡ s ∷ split sep t
unfolding split lacks
split-append sep [] t l = ground arith
split-append sep (c ∷ s) t l = ground (arith, l, split-append sep s t)

-- Joining parts without the separator and splitting again gives the parts.
pub split-join :
    (sep : ℕ) (s : Text) (ss : List Text)
    → Lacks sep s
    → All (Lacks sep) ss
    → split sep (join sep (s ∷ ss)) ≡ s ∷ ss
unfolding join
split-join sep s [] l a = ap (split sep) (append-nil s) ∙ split-part sep s l
split-join sep s (t ∷ ss) l (m, a) =
    split-append sep s (join sep (t ∷ ss)) l ∙ ap (◌∷◌ s) (split-join sep t ss m a)

-- Splitting leaves at least one part, and the separator in none.
unfoldable pub first_part : List Text → Text
first_part [] = []
first_part (s ∷ ss) = s

unfoldable pub other_parts : List Text → List Text
other_parts [] = []
other_parts (s ∷ ss) = ss

split-Parts :
    (sep : ℕ) (s : Text)
    → (split sep s ≡ first_part (split sep s) ∷ other_parts (split sep s))
      × Lacks sep (first_part (split sep s))
      × All (Lacks sep) (other_parts (split sep s))
unfolding split lacks first_part other_parts
split-Parts sep [] = (refl, refl, tt)
split-Parts sep (c ∷ s) = step (split sep s) (split-Parts sep s)
  where
    step :
        (rest : List Text)
        → (rest ≡ first_part rest ∷ other_parts rest)
          × Lacks sep (first_part rest)
          × All (Lacks sep) (other_parts rest)
        → let all = if c == sep then [] ∷ rest else prefix_first c rest in
          (all ≡ first_part all ∷ other_parts all)
          × Lacks sep (first_part all)
          × All (Lacks sep) (other_parts all)
    step [] (e, l, a) = cc
    step (t ∷ ts) (e, l, a) = ground (arith, l, a)

pub split-parts :
    (sep : ℕ) (s : Text) → split sep s ≡ first_part (split sep s) ∷ other_parts (split sep s)
split-parts sep s = (split-Parts sep s).0

pub split-Lacks : (sep : ℕ) (s : Text) → All (Lacks sep) (split sep s)
split-Lacks sep s =
    let (e, first, others) = split-Parts sep s in subst (All (Lacks sep)) (sym e) (first, others)
