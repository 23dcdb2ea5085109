-- ===== src/Server/Redact/Shape.antt =====
-- internal/server/redact.go: what is left of a path and of a query.
use nephtys.Prelude.{
  ℕ, ◌≡◌, refl, ap, ◌∙◌, sym, Option, none, some, List, [], ◌∷◌, map, All, arith, subst,
}
use nephtys.Host.Text.{
  Text, split, join, join_rest, cut, lacks, Lacks, Lacks-append, split-join, split-parts,
  split-Lacks, first_part, other_parts, prefix_first,
}
use nephtys.Server.Redact.{
  withhold_segment, is_root, redact_path_segments, withhold_value, withhold_param,
  redact_query_values,
}

map-Lacks :
    (sep : ℕ) (f : Text → Text)
    → ((s : Text) → Lacks sep s → Lacks sep (f s))
    → (parts : List Text) → All (Lacks sep) parts
    → All (Lacks sep) (map f parts)
map-Lacks sep f keep [] a = tt
map-Lacks sep f keep (s ∷ ss) (l, a) = (keep s l, map-Lacks sep f keep ss a)

-- Rewriting the parts of a text by a function that adds no separator rewrites exactly the parts.
split-rewritten :
    (sep : ℕ) (f : Text → Text)
    → ((s : Text) → Lacks sep s → Lacks sep (f s))
    → (s : Text) → split sep (join sep (map f (split sep s))) ≡ map f (split sep s)
split-rewritten sep f keep s =
    let parts = split sep s in
    let clean : All (Lacks sep) (first_part parts ∷ other_parts parts) =
      subst (All (Lacks sep)) (split-parts sep s) (split-Lacks sep s) in
    ap (λ p. split sep (join sep (map f p))) (split-parts sep s)
    ∙ split-join sep (f (first_part parts)) (map f (other_parts parts))
        (keep (first_part parts) clean.0) (map-Lacks sep f keep (other_parts parts) clean.1)
    ∙ ap (map f) (sym (split-parts sep s))

withhold_segment-Lacks : (s : Text) → Lacks b'/' s → Lacks b'/' (withhold_segment s)
unfolding withhold_segment lacks
withhold_segment-Lacks [] l = refl
withhold_segment-Lacks (c ∷ s) l = refl

cut-Lacks : (sep other : ℕ) (s : Text) → Lacks sep s → Lacks sep (cut other s).0
unfolding cut lacks
cut-Lacks sep other [] l = refl
cut-Lacks sep other (c ∷ s) l = ground (arith, l, cut-Lacks sep other s)

withhold_value-Lacks :
    (param : Text) (c : Text × Option Text) → Lacks b'&' c.0 → Lacks b'&' (withhold_value param c)
unfolding lacks
withhold_value-Lacks param (key, some value) l = Lacks-append b'&' key _ l refl
withhold_value-Lacks [] (key, none) l = refl
withhold_value-Lacks (c ∷ s) (key, none) l = refl

withhold_param-Lacks : (s : Text) → Lacks b'&' s → Lacks b'&' (withhold_param s)
unfolding withhold_param
withhold_param-Lacks s l = withhold_value-Lacks s (cut b'=' s) (cut-Lacks b'&' b'=' s l)

-- The early returns agree with the general case.
pub redact_path-eq :
    (path : Text) → redact_path_segments path ≡ join b'/' (map withhold_segment (split b'/' path))
unfolding redact_path_segments is_root
redact_path-eq [] = unfold split join join_rest withhold_segment in refl
redact_path-eq (c ∷ []) = unfold split join join_rest withhold_segment prefix_first in ground arith
redact_path-eq (c ∷ d ∷ s) = ground arith

pub redact_query-eq :
    (query : Text) → redact_query_values query ≡ join b'&' (map withhold_param (split b'&' query))
unfolding redact_query_values
redact_query-eq [] = unfold split join join_rest withhold_param cut in refl
redact_query-eq (c ∷ s) = refl

-- The redacted path has the segments of the path, each that is not empty replaced by the marker, and
-- the redacted query its parameters, each with its key and the marker for its value, or as the
-- marker where it has no equals sign and is not empty.
pub parts_withheld :
    (path query : Text)
    → (split b'/' (redact_path_segments path) ≡ map withhold_segment (split b'/' path))
      × (split b'&' (redact_query_values query) ≡ map withhold_param (split b'&' query))
parts_withheld path query = (
  ap (split b'/') (redact_path-eq path)
      ∙ split-rewritten b'/' withhold_segment withhold_segment-Lacks path,
  ap (split b'&') (redact_query-eq query)
      ∙ split-rewritten b'&' withhold_param withhold_param-Lacks query,
)
