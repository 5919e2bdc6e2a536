-- ===== src/Tests/Verify.antt =====
-- The theorem on `_link` at three bugs, one of which depends on another.
use bzr_live.Common.{
  String, Bool, ℕ, List, some, All, eq_iff, true, false, ◌||◌, arith, ◌≡◌, refl, sym, ◌∙◌, ap, [],
  ◌∷◌, Result, ok, err, mem_text, ◌==ₛ◌, if◌then◌else◌,
}
use bzr_live.Verify.Reach.{reachable}
use bzr_live.Verify.Reach.Exact.{Walk, names, reachable-total}
use bzr_live.Verify.Links.{Relation, depends_on, blocks, inverse, Edges, Bugs, link}
use bzr_live.Verify.Links.Edges.{has_edge, edges_at, is_known}
use bzr_live.Verify.Links.Mutual.{IsMutual, replaced, link-IsMutual}
use bzr_live.Verify.Links.Total.{AreKnown, link-total}

abbrev nothing : Edges
nothing key = []

-- no edges yet
abbrev fresh : Bugs
fresh = ("crash", nothing) ∷ ("leak", nothing) ∷ ("typo", nothing) ∷ []

edges_fresh : (k : Relation) (x : String) → edges_at fresh k x ≡ []
unfolding edges_at
edges_fresh k x = by_tests ("crash" ==ₛ x) ("leak" ==ₛ x) ("typo" ==ₛ x)
  where
    by_tests :
        (a b c : Bool)
        → (if a then nothing k else (if b then nothing k else (if c then nothing k else []))) ≡ []
    by_tests true b c = refl
    by_tests false true c = refl
    by_tests false false true = refl
    by_tests false false false = refl

fresh-IsMutual : IsMutual fresh
fresh-IsMutual k x y =
    ap (mem_text y) (edges_fresh k x) ∙ sym (ap (mem_text x) (edges_fresh (inverse k) y))

abbrev or_fresh : Result (Bugs × Bool) → Bugs × Bool
or_fresh (ok made) = made
or_fresh (err e) = (fresh, false)

-- crash depends on leak
abbrev linked : Bugs × Bool
unfolding link
linked = or_fresh (link "crash" depends_on ("leak" ∷ []) fresh)

first_link : link "crash" depends_on ("leak" ∷ []) fresh ≡ ok linked
unfolding link
first_link = refl

-- crash depends on typo in its place
abbrev relinked : Bugs × Bool
unfolding link
relinked = or_fresh (link "crash" depends_on ("typo" ∷ []) linked.0)

second_link : link "crash" depends_on ("typo" ∷ []) linked.0 ≡ ok relinked
unfolding link
second_link = refl

-- the inverse edges follow
moved :
    (edges_at relinked.0 blocks "leak" ≡ []) × (edges_at relinked.0 blocks "typo" ≡ "crash" ∷ [])
unfolding link edges_at
moved = (refl, refl)

link-IsMutual_example :
    IsMutual relinked.0
    × ((k : Relation) (x y : String)
        → has_edge relinked.0 k x y ≡ replaced linked.0 "crash" depends_on ("typo" ∷ []) k x y)
link-IsMutual_example =
    link-IsMutual "crash" depends_on ("typo" ∷ []) linked.0 relinked
      (link-IsMutual "crash" depends_on ("leak" ∷ []) fresh linked fresh-IsMutual first_link).0
      second_link

declared_known : AreKnown linked.0 ("typo" ∷ [])
unfolding link is_known
declared_known x m = by_tests ("crash" ==ₛ x) ("leak" ==ₛ x) ("typo" ==ₛ x) m
  where
    by_tests : (a b c : Bool) → (c || false) ≡ true → (a || (b || (c || false))) ≡ true
    by_tests a b c h = ground (arith, h)

link-total_example :
    (after : Bugs × Bool) × (link "crash" depends_on ("typo" ∷ []) linked.0 ≡ ok after)
unfolding link is_known
link-total_example =
    link-total "crash" depends_on ("typo" ∷ []) linked.0
      (link-IsMutual "crash" depends_on ("leak" ∷ []) fresh linked fresh-IsMutual first_link).0 refl
      declared_known

-- crash leads to leak, and leak to typo and back
abbrev ends : String → List String
ends x = if x ==ₛ "crash" then "leak" ∷ [] else (if x ==ₛ "leak" then "crash" ∷ "typo" ∷ [] else [])

abbrev aliases : List String
aliases = "crash" ∷ "leak" ∷ "typo" ∷ []

found_hops : reachable ends aliases "crash" ≡ some (("leak", 1) ∷ ("typo", 2) ∷ [])
unfolding reachable
found_hops = refl

ends_inner : (z b : String) → mem_text b (ends z) ≡ true → mem_text b aliases ≡ true
ends_inner z b m = ground (arith, m, eq_iff z "crash", eq_iff z "leak")

reachable-total_example :
    (hops : List (String × ℕ)) × (reachable ends aliases "crash" ≡ some hops)
    × All (λ h. Walk ends "crash" aliases h.1 h.0) hops
    × ((n : ℕ) (z : String)
        → Walk ends "crash" aliases n z
        → ("crash" ==ₛ z || mem_text z (names hops)) ≡ true)
reachable-total_example = reachable-total ends "crash" aliases ends_inner refl
