-- ===== src/Pipeline/Dedup/Index.antt =====
-- internal/pipeline/dedup.go: how the list of elements, the map into it and the abstract window
-- answer lookups and removals.
use nephtys.Prelude.{
  ℕ, suc, ◌+◌, ◌<◌, ◌≡◌, refl, ap, Option, none, some, List, [], ◌∷◌, arith, ◌==◌, if◌then◌else◌,
}
use nephtys.Prelude.Lists.{length, All}
use nephtys.Pipeline.Dedup.{Element, find, delete, deref, unlink, back}
use nephtys.Pipeline.Dedup.Spec.{Window, age_of, forget, drop_oldest}

unfoldable pub by_hash : ℕ → List Element → Option Element
by_hash h [] = none
by_hash h (e ∷ es) = if e.hash == h then some e else by_hash h es

abbrev pub view : List Element → Window
view [] = []
view (e ∷ es) = (e.hash, e.ts) ∷ view es

-- No two elements have one hash, or one address; no key stands twice in the map.
abbrev pub Distinct : List Element → Type 0
Distinct [] = Unit
Distinct (e ∷ es) = (by_hash e.hash es ≡ none) × (deref e.address es ≡ none) × Distinct es

abbrev pub DistinctKeys : List (ℕ × ℕ) → Type 0
DistinctKeys [] = Unit
DistinctKeys ((k, a) ∷ c) = (find k c ≡ none) × DistinctKeys c

pub find-delete :
    (h j : ℕ) (c : List (ℕ × ℕ)) → find j (delete h c) ≡ (if h == j then none else find j c)
unfolding find delete
find-delete h j [] = ground arith
find-delete h j ((k, a) ∷ c) = ground (arith, find-delete h j c)

pub delete-DistinctKeys : (h : ℕ) (c : List (ℕ × ℕ)) → DistinctKeys c → DistinctKeys (delete h c)
unfolding delete
delete-DistinctKeys h [] d = tt
delete-DistinctKeys h ((k, a) ∷ c) d =
    ground (arith, delete-DistinctKeys h c d.1, find-delete h k c)

pub delete_absent : (h : ℕ) (c : List (ℕ × ℕ)) → find h c ≡ none → delete h c ≡ c
unfolding find delete
delete_absent h [] e = refl
delete_absent h ((k, a) ∷ c) e = ground (arith, delete_absent h c)

pub length-delete :
    (h a : ℕ) (c : List (ℕ × ℕ))
    → DistinctKeys c
    → find h c ≡ some a
    → length c ≡ suc (length (delete h c))
unfolding find delete
length-delete h a [] d e = cc
length-delete h a ((k, b) ∷ c) d e = ground (arith, length-delete h a c d.1, delete_absent h c)

pub by_hash-hash : (h : ℕ) (es : List Element) (e : Element) → by_hash h es ≡ some e → e.hash ≡ h
unfolding by_hash
by_hash-hash h [] e p = cc
by_hash-hash h (f ∷ es) e p = ground (arith, by_hash-hash h es e)

pub age_of-view :
    (h : ℕ) (es : List Element)
    → age_of h (view es) ≡ elim (by_hash h es) [ none ↦ none | some e ↦ some e.ts ]
unfolding age_of by_hash
age_of-view h [] = refl
age_of-view h (e ∷ es) = ground (arith, age_of-view h es)

pub length-view : (es : List Element) → length (view es) ≡ length es
length-view [] = refl
length-view (e ∷ es) = ap suc (length-view es)

-- An element found by its hash is found by its address.
pub deref_found :
    (h : ℕ) (es : List Element) (e : Element)
    → Distinct es
    → by_hash h es ≡ some e
    → deref e.address es ≡ some e
unfolding by_hash deref
deref_found h [] e d p = cc
deref_found h (f ∷ es) e d p = ground (arith, deref_found h es e d.2)

forget_absent : (h : ℕ) (es : List Element) → by_hash h es ≡ none → forget h (view es) ≡ view es
unfolding by_hash forget
forget_absent h [] p = refl
forget_absent h (f ∷ es) p = ground (arith, forget_absent h es)

-- Unlinking an element forgets its hash.
pub view-unlink :
    (h : ℕ) (es : List Element) (e : Element)
    → Distinct es
    → by_hash h es ≡ some e
    → view (unlink e.address es) ≡ forget h (view es)
unfolding by_hash unlink forget
view-unlink h [] e d p = refl
view-unlink h (f ∷ es) e d p =
    ground (arith, view-unlink h es e d.2, forget_absent h es, deref_found h es e d.2)

pub by_hash-unlink :
    (h j : ℕ) (es : List Element) (e : Element)
    → Distinct es
    → by_hash h es ≡ some e
    → by_hash j (unlink e.address es) ≡ (if h == j then none else by_hash j es)
unfolding by_hash unlink
by_hash-unlink h j [] e d p = cc
by_hash-unlink h j (f ∷ es) e d p =
    ground (arith, by_hash-unlink h j es e d.2, deref_found h es e d.2)

deref-unlink-none : (a b : ℕ) (es : List Element) → deref b es ≡ none → deref b (unlink a es) ≡ none
unfolding deref unlink
deref-unlink-none a b [] p = refl
deref-unlink-none a b (f ∷ es) p = ground (arith, deref-unlink-none a b es)

pub deref-unlink_self : (a : ℕ) (es : List Element) → Distinct es → deref a (unlink a es) ≡ none
unfolding deref unlink
deref-unlink_self a [] d = refl
deref-unlink_self a (f ∷ es) d = ground (arith, deref-unlink_self a es d.2)

pub by_hash-unlink-none :
    (a h : ℕ) (es : List Element) → by_hash h es ≡ none → by_hash h (unlink a es) ≡ none
unfolding by_hash unlink
by_hash-unlink-none a h [] p = refl
by_hash-unlink-none a h (f ∷ es) p = ground (arith, by_hash-unlink-none a h es)

pub unlink-Distinct : (a : ℕ) (es : List Element) → Distinct es → Distinct (unlink a es)
unfolding unlink
unlink-Distinct a [] d = tt
unlink-Distinct a (f ∷ es) d = ground (
  arith,
  unlink-Distinct a es d.2,
  by_hash-unlink-none a f.hash es d.0,
  deref-unlink-none a f.address es d.1,
)

pub length-unlink :
    (h : ℕ) (es : List Element) (e : Element)
    → Distinct es
    → by_hash h es ≡ some e
    → length es ≡ suc (length (unlink e.address es))
unfolding by_hash unlink
length-unlink h [] e d p = cc
length-unlink h (f ∷ es) e d p = ground (arith, length-unlink h es e d.2, deref_found h es e d.2)

abbrev pub Below : ℕ → List Element → Type 0
Below n = All (λ e. e.address < n)

pub unlink-Below : (a n : ℕ) (es : List Element) → Below n es → Below n (unlink a es)
unfolding unlink
unlink-Below a n [] b = tt
unlink-Below a n (f ∷ es) b = ground (arith, unlink-Below a n es b.1)

pub Below-suc : (n : ℕ) (es : List Element) → Below n es → Below (n + 1) es
Below-suc n [] b = tt
Below-suc n (f ∷ es) b = (omega arith, Below-suc n es b.1)

pub deref-Below : (n : ℕ) (es : List Element) → Below n es → deref n es ≡ none
unfolding deref
deref-Below n [] b = refl
deref-Below n (f ∷ es) b = ground (arith, deref-Below n es b.1)

-- The element at the back is the oldest of the window.
pub back_found :
    (es : List Element) (e : Element) → Distinct es → back es ≡ some e → by_hash e.hash es ≡ some e
unfolding by_hash back
back_found [] e d p = cc
back_found (f ∷ []) e d p = ground arith
back_found (f ∷ g ∷ es) e d p = ground (arith, back_found (g ∷ es) e d.2)

pub forget-back :
    (es : List Element) (e : Element)
    → Distinct es
    → back es ≡ some e
    → forget e.hash (view es) ≡ drop_oldest (view es)
unfolding forget drop_oldest back
forget-back [] e d p = refl
forget-back (f ∷ []) e d p = ground arith
forget-back (f ∷ g ∷ es) e d p =
    ground (arith, forget-back (g ∷ es) e d.2, back_found (g ∷ es) e d.2)

pub drop_oldest-no_back : (es : List Element) → back es ≡ none → view es ≡ drop_oldest (view es)
unfolding drop_oldest back
drop_oldest-no_back [] p = refl
drop_oldest-no_back (f ∷ []) p = cc
drop_oldest-no_back (f ∷ g ∷ es) p = absurd (back_cons g es p)
  where
    back_cons : (g : Element) (es : List Element) → back (g ∷ es) ≡ none → ⊥
    back_cons g [] p = cc
    back_cons g (h ∷ es) p = back_cons h es p

pub Below-found :
    (n h : ℕ) (es : List Element) (e : Element) → Below n es → by_hash h es ≡ some e → e.address < n
unfolding by_hash
Below-found n h [] e b p = cc
Below-found n h (f ∷ es) e b p = ground (arith, Below-found n h es e b.1)
