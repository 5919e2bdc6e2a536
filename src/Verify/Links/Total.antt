-- ===== src/Verify/Links/Total.antt =====
-- `_link` raises nothing where the bugs that it names are there.
use bzr_live.Common.{
  String, Bool, true, false, not, ◌≡◌, refl, sym, ◌∙◌, ap, List, [], ◌∷◌, Option, some, ◌==ₛ◌,
  eq_refl, arith, mem_text, ok, if◌then◌else◌,
}
use bzr_live.Verify.Links
use bzr_live.Verify.Links.{Relation, inverse, Edges, Bugs, find_bug, set_edges}
use bzr_live.Verify.Links.Edges.{
  has_edge, edges_at, is_known, is_known-set, found, mem-minus, unlink_all-edges,
}
use bzr_live.Verify.Links.Mutual.{IsMutual}

-- the head, or what the rest has
if_some-total :
    (b : Bool) (edges : Edges) (later : Option Edges)
    → (b ≡ false → (own : Edges) × (later ≡ some own))
    → (own : Edges) × ((if b then some edges else later) ≡ some own)
if_some-total true edges later h = (edges, refl)
if_some-total false edges later h = h refl

find-known :
    (bugs : Bugs) (x : String)
    → is_known bugs x ≡ true
    → (edges : Edges) × (find_bug x bugs ≡ some edges)
unfolding is_known find_bug
find-known [] x h = cc
find-known ((a, edges) ∷ bugs) x h =
    if_some-total (a ==ₛ x) edges (find_bug x bugs) (λ e. find-known bugs x (ground (arith, h, e)))

-- an edge that is there starts at a bug that is there
edge-known :
    (bugs : Bugs) (k : Relation) (x y : String)
    → has_edge bugs k x y ≡ true
    → is_known bugs x ≡ true
unfolding is_known edges_at
edge-known [] k x y h = cc
edge-known ((a, edges) ∷ bugs) k x y h = ground (arith, h, edge-known bugs k x y)

-- all of these bugs are there
abbrev pub AreKnown : Bugs → List String → Type 0
AreKnown bugs xs = (x : String) → mem_text x xs ≡ true → is_known bugs x ≡ true

AreKnown-tail :
    (bugs : Bugs) (x : String) (xs : List String) → AreKnown bugs (x ∷ xs) → AreKnown bugs xs
AreKnown-tail bugs x xs h z m = h z (ground (arith, m))

AreKnown-set :
    (bugs : Bugs) (alias : String) (key : Relation) (members xs : List String)
    → AreKnown bugs xs
    → AreKnown (set_edges alias key members bugs) xs
AreKnown-set bugs alias key members xs h z m = is_known-set bugs alias key members z ∙ h z m

module _ (alias : String) (key : Relation) where
  unlink_all-total :
      (others : List String) (bugs : Bugs)
      → AreKnown bugs others
      → (after : Bugs) × (Links.unlink_all alias key others bugs ≡ ok after)
  unfolding Links.unlink_all
  unlink_all-total [] bugs h = (bugs, refl)
  unlink_all-total (other ∷ others) bugs h =
      let (edges, p) = find-known bugs other (h other (ground (arith, eq_refl other))) in
      let members = Links.discard alias (edges key) in
      let (after, q) =
        unlink_all-total others (set_edges other key members bugs)
          (AreKnown-set bugs other key members others (AreKnown-tail bugs other others h)) in
      (after, rw p q)

  link_all-total :
      (others : List String) (bugs : Bugs)
      → AreKnown bugs others
      → (after : Bugs) × (Links.link_all alias key others bugs ≡ ok after)
  unfolding Links.link_all
  link_all-total [] bugs h = (bugs, refl)
  link_all-total (other ∷ others) bugs h =
      let (edges, p) = find-known bugs other (h other (ground (arith, eq_refl other))) in
      let members = Links.add_member alias (edges key) in
      let (after, q) =
        link_all-total others (set_edges other key members bugs)
          (AreKnown-set bugs other key members others (AreKnown-tail bugs other others h)) in
      (after, rw p q)

-- When each edge is there at both of its ends, `_link` raises nothing for a bug that is there and
-- declared aliases of bugs that are there.
pub link-total :
    (alias : String) (key : Relation) (declared : List String) (bugs : Bugs)
    → IsMutual bugs
    → is_known bugs alias ≡ true
    → AreKnown bugs declared
    → (after : Bugs × Bool) × (Links.link alias key declared bugs ≡ ok after)
unfolding Links.link
link-total alias key declared bugs paired known all =
    let (own, p) = find-known bugs alias known in
    let gone = Links.minus (own key) declared in
    let new = Links.minus declared (own key) in
    let ends : AreKnown bugs gone = λ x m. edge-known bugs (inverse key) x alias (
      sym (paired key alias x)
      ∙ (ap (mem_text x) ((found bugs alias p).1 key)
          ∙ ground (arith, m, mem-minus (own key) declared x))) in
    let (unlinked, q) = unlink_all-total alias (inverse key) gone bugs ends in
    let (same, _) = (unlink_all-edges alias (inverse key) gone bugs).at q in
    let (linked, q') =
      link_all-total alias (inverse key) new unlinked
        (λ x m. same x ∙ all x (ground (arith, m, mem-minus declared (own key) x))) in
    ((set_edges alias key declared linked, not (Links.is_empty new)), rw (p, q, q'))
