-- ===== src/Verify/Links/Mutual.antt =====
-- `_link` keeps the two ends of each edge in step.
use bzr_live.Common.{
  String, Bool, not, ◌&&◌, ◌||◌, ◌≡◌, sym, ◌∙◌, ap, List, ◌==ₛ◌, eq_iff, arith, mem_text, ok,
  key_error, or_raise, or_raise-ok, OnOk, OnOk-ok, OnOk-bind, if◌then◌else◌,
}
use bzr_live.Verify.Links
use bzr_live.Verify.Links.{
  Relation, depends_on, blocks, inverse, eq_relation, Edges, Bugs, find_bug, set_edges,
}
use bzr_live.Verify.Links.Edges.{
  has_edge, found, mem-minus, has_edge-set, touched, unlink_all-edges, link_all-edges,
}

-- Each edge is there at both of its ends, under inverse relations.
abbrev pub IsMutual : Bugs → Type 0
IsMutual bugs = (k : Relation) (x y : String) → has_edge bugs k x y ≡ has_edge bugs (inverse k) y x

-- the edges that `_link` is to leave: those of the bug under its relation are the declared ones, and
-- so are the inverse ones that lead to it
abbrev pub replaced : Bugs → String → Relation → List String → Relation → String → String → Bool
replaced bugs alias key declared k x y =
    if eq_relation key k
    then (if alias ==ₛ x then mem_text y declared else has_edge bugs k x y)
    else (if alias ==ₛ y then mem_text x declared else has_edge bugs k x y)

-- what the parts of `_link` make of one edge
combined :
    (bugs : Bugs) (alias : String) (key : Relation) (declared own : List String) (k : Relation)
    (x y : String) (removed added final : Bool)
    → mem_text x own ≡ has_edge bugs key alias x
    → has_edge bugs key alias x ≡ has_edge bugs (inverse key) x alias
    → removed
      ≡ (has_edge bugs k x y && not (touched alias (inverse key) (Links.minus own declared) k x y))
    → added ≡ (removed || touched alias (inverse key) (Links.minus declared own) k x y)
    → final ≡ (if alias ==ₛ x && eq_relation key k then mem_text y declared else added)
    → final ≡ replaced bugs alias key declared k x y
combined bugs alias depends_on declared own depends_on x y removed added final o m r a f =
    ground (arith, f, a, r)
combined bugs alias blocks declared own blocks x y removed added final o m r a f =
    ground (arith, f, a, r)
combined bugs alias depends_on declared own blocks x y removed added final o m r a f =
    let at_alias = λ (e : alias ≡ y). ap (has_edge bugs blocks x) e in
    ground (
      arith,
      f,
      a,
      r,
      o,
      m,
      at_alias,
      mem-minus own declared x,
      mem-minus declared own x,
      eq_iff alias y,
    )
combined bugs alias blocks declared own depends_on x y removed added final o m r a f =
    let at_alias = λ (e : alias ≡ y). ap (has_edge bugs depends_on x) e in
    ground (
      arith,
      f,
      a,
      r,
      o,
      m,
      at_alias,
      mem-minus own declared x,
      mem-minus declared own x,
      eq_iff alias y,
    )

link-replaced :
    (alias : String) (key : Relation) (declared : List String) (bugs : Bugs)
    → IsMutual bugs
    → OnOk
        (λ after.
          (k : Relation) (x y : String)
          → has_edge after.0 k x y ≡ replaced bugs alias key declared k x y)
        (Links.link alias key declared bugs)
unfolding Links.link
link-replaced alias key declared bugs paired =
    OnOk-bind (or_raise (find_bug alias bugs) (key_error alias)) _ (λ own p.
      let gone = Links.minus (own key) declared in
      let new = Links.minus declared (own key) in
      OnOk-bind (Links.unlink_all alias (inverse key) gone bugs) _ (λ unlinked q.
        OnOk-bind (Links.link_all alias (inverse key) new unlinked) _ (λ linked q'.
          let (known, at) = found bugs alias (or_raise-ok (find_bug alias bugs) _ p) in
          let (known', removed) = (unlink_all-edges alias (inverse key) gone bugs).at q in
          let (known'', added) = (link_all-edges alias (inverse key) new unlinked).at q' in
          OnOk-ok _ (λ k x y.
            combined bugs alias key declared (own key) k x y (has_edge unlinked k x y)
              (has_edge linked k x y) (has_edge (set_edges alias key declared linked) k x y)
              (ap (mem_text x) (sym (at key))) (paired key alias x) (removed k x y) (added k x y)
              (has_edge-set linked alias key declared k x y
                (known'' alias ∙ (known' alias ∙ known)))))))

replaced-IsMutual :
    (bugs : Bugs) (alias : String) (key : Relation) (declared : List String)
    → IsMutual bugs
    → (k : Relation) (x y : String)
    → replaced bugs alias key declared k x y ≡ replaced bugs alias key declared (inverse k) y x
replaced-IsMutual bugs alias depends_on declared paired depends_on x y =
    ground (arith, paired depends_on x y)
replaced-IsMutual bugs alias depends_on declared paired blocks x y =
    ground (arith, paired blocks x y)
replaced-IsMutual bugs alias blocks declared paired depends_on x y =
    ground (arith, paired depends_on x y)
replaced-IsMutual bugs alias blocks declared paired blocks x y = ground (arith, paired blocks x y)

-- When each edge is there at both of its ends, it is so after `_link`; and the edges of the bug
-- under its relation are then the declared ones, those that lead to it under the inverse relation
-- are their inverses, and every other edge is as it was.
pub link-IsMutual :
    (alias : String) (key : Relation) (declared : List String) (bugs : Bugs) (after : Bugs × Bool)
    → IsMutual bugs
    → Links.link alias key declared bugs ≡ ok after
    → IsMutual after.0
      × ((k : Relation) (x y : String)
          → has_edge after.0 k x y ≡ replaced bugs alias key declared k x y)
link-IsMutual alias key declared bugs after paired h =
    let edges = (link-replaced alias key declared bugs paired).at h in
    (
      λ k x y.
          edges k x y
          ∙ (replaced-IsMutual bugs alias key declared paired k x y ∙ sym (edges (inverse k) y x)),
      edges,
    )
