-- ===== src/Verify/Links/Edges.antt =====
-- What the loops of `_link` do to each edge.
use bzr_live.Common.{
  String, Bool, true, false, not, ◌&&◌, ◌||◌, ◌≡◌, refl, sym, ◌∙◌, ap, List, [], ◌∷◌, some, ◌==ₛ◌,
  eq_iff, arith, &&-eq_true, mem_text, key_error, or_raise, or_raise-ok, if_some-cases, Bool-cases,
  inl, inr, OnOk, OnOk-ok, OnOk-bind, if◌then◌else◌,
}
use bzr_live.Verify.Links
use bzr_live.Verify.Links.{
  Relation, depends_on, blocks, inverse, eq_relation, Edges, Bugs, find_bug, set_edges,
}

-- `bugs[x].edges.get(key, set())`, and no edges for a bug that is not there
unfoldable pub edges_at : Bugs → Relation → String → List String
edges_at [] key x = []
edges_at ((a, edges) ∷ bugs) key x =
    let later = edges_at bugs key x in if a ==ₛ x then edges key else later

-- an edge from the first bug to the second
abbrev pub has_edge : Bugs → Relation → String → String → Bool
has_edge bugs key x y = mem_text y (edges_at bugs key x)

unfoldable pub is_known : Bugs → String → Bool
is_known [] x = false
is_known ((a, edges) ∷ bugs) x = a ==ₛ x || is_known bugs x

pub found :
    (bugs : Bugs) (x : String) {edges : Edges}
    → find_bug x bugs ≡ some edges
    → (is_known bugs x ≡ true) × ((key : Relation) → edges_at bugs key x ≡ edges key)
unfolding find_bug is_known edges_at
found [] x h = cc
found ((a, own) ∷ bugs) x h = elim (if_some-cases (a ==ₛ x) own (find_bug x bugs) h) [
  | inl (same, e) ↦ (ground (arith, same), λ key. ground (arith, same, ap (λ (f : Edges). f key) e))
  | inr (other, rest) ↦
      let (known, at) = found bugs x rest in
      (ground (arith, known), λ key. ground (arith, other, at key))
]

-- what is stored is found again, and the rest stays
edges_at-set :
    (bugs : Bugs) (alias : String) (key : Relation) (members : List String) (k : Relation)
    (x : String)
    → is_known bugs alias ≡ true
    → edges_at (set_edges alias key members bugs) k x
      ≡ (if alias ==ₛ x && eq_relation key k then members else edges_at bugs k x)
unfolding edges_at set_edges is_known
edges_at-set [] alias key members k x h = cc
edges_at-set ((a, edges) ∷ bugs) alias key members k x h = elim (Bool-cases (a ==ₛ alias)) [
  | inl e ↦ ground (arith, e, eq_iff a alias, eq_iff a x, eq_iff alias x)
  | inr e ↦ ground (
    arith,
    e,
    h,
    edges_at-set bugs alias key members k x,
    eq_iff a alias,
    eq_iff a x,
    eq_iff alias x,
  )
]

pub is_known-set :
    (bugs : Bugs) (alias : String) (key : Relation) (members : List String) (x : String)
    → is_known (set_edges alias key members bugs) x ≡ is_known bugs x
unfolding set_edges is_known
is_known-set [] alias key members x = refl
is_known-set ((a, edges) ∷ bugs) alias key members x =
    ground (arith, is_known-set bugs alias key members x)

pub mem-minus :
    (xs ys : List String) (z : String)
    → mem_text z (Links.minus xs ys) ≡ (mem_text z xs && not (mem_text z ys))
unfolding Links.minus
mem-minus [] ys z = refl
mem-minus (x ∷ xs) ys z = ground (arith, mem-minus xs ys z, eq_iff x z)

mem-discard :
    (x : String) (ys : List String) (z : String)
    → mem_text z (Links.discard x ys) ≡ (mem_text z ys && not (x ==ₛ z))
unfolding Links.discard
mem-discard x [] z = refl
mem-discard x (y ∷ ys) z = ground (arith, mem-discard x ys z, eq_iff y x, eq_iff y z, eq_iff x z)

mem-add :
    (x : String) (ys : List String) (z : String)
    → mem_text z (Links.add_member x ys) ≡ (mem_text z ys || x ==ₛ z)
mem-add x ys z = ground (arith, eq_iff x z)

eq_relation-eq : (a b : Relation) → eq_relation a b ≡ true → a ≡ b
eq_relation-eq depends_on depends_on h = refl
eq_relation-eq depends_on blocks h = cc
eq_relation-eq blocks depends_on h = cc
eq_relation-eq blocks blocks h = refl

-- the edges at the place that is written
at_place :
    (bugs : Bugs) (other : String) (key k : Relation) (x : String) {edges : Edges}
    → find_bug other bugs ≡ some edges
    → (other ==ₛ x && eq_relation key k) ≡ true
    → edges_at bugs k x ≡ edges key
at_place bugs other key k x {edges} h e =
    let (name, relation) = &&-eq_true (other ==ₛ x) (eq_relation key k) e in
    ap (edges_at bugs k) (sym ((eq_iff other x).0 name))
    ∙ ((found bugs other h).1 k ∙ ap edges (sym (eq_relation-eq key k relation)))

pub has_edge-set :
    (bugs : Bugs) (other : String) (key : Relation) (members : List String) (k : Relation)
    (x y : String)
    → is_known bugs other ≡ true
    → has_edge (set_edges other key members bugs) k x y
      ≡ (if other ==ₛ x && eq_relation key k then mem_text y members else has_edge bugs k x y)
has_edge-set bugs other key members k x y known =
    ap (mem_text y) (edges_at-set bugs other key members k x known)
    ∙ by_place (other ==ₛ x && eq_relation key k)
  where
    by_place :
        (b : Bool)
        → mem_text y (if b then members else edges_at bugs k x)
          ≡ (if b then mem_text y members else has_edge bugs k x y)
    by_place true = refl
    by_place false = refl

-- the edges that a loop over `others` touches
abbrev pub touched : String → Relation → List String → Relation → String → String → Bool
touched alias key others k x y = eq_relation key k && (mem_text x others && alias ==ₛ y)

-- a loop writes, at one place, members that differ in the alias only
module _ (bugs : Bugs) (alias other : String) (key k : Relation) (x y : String) where
  set_discard :
      {edges : Edges}
      → find_bug other bugs ≡ some edges
      → has_edge (set_edges other key (Links.discard alias (edges key)) bugs) k x y
        ≡ (has_edge bugs k x y && not (eq_relation key k && (other ==ₛ x && alias ==ₛ y)))
  set_discard {edges} h =
      has_edge-set bugs other key (Links.discard alias (edges key)) k x y (found bugs other h).0
      ∙ by_place (other ==ₛ x && eq_relation key k) refl
    where
      by_place :
          (b : Bool)
          → (other ==ₛ x && eq_relation key k) ≡ b
          → (if b then mem_text y (Links.discard alias (edges key)) else has_edge bugs k x y)
            ≡ (has_edge bugs k x y && not (eq_relation key k && (other ==ₛ x && alias ==ₛ y)))
      by_place true e =
          let same = ap (mem_text y) (at_place bugs other key k x h e) in
          ground (arith, e, same, mem-discard alias (edges key) y)
      by_place false e = ground (arith, e)

  set_add :
      {edges : Edges}
      → find_bug other bugs ≡ some edges
      → has_edge (set_edges other key (Links.add_member alias (edges key)) bugs) k x y
        ≡ (has_edge bugs k x y || (eq_relation key k && (other ==ₛ x && alias ==ₛ y)))
  set_add {edges} h =
      has_edge-set bugs other key (Links.add_member alias (edges key)) k x y (found bugs other h).0
      ∙ by_place (other ==ₛ x && eq_relation key k) refl
    where
      by_place :
          (b : Bool)
          → (other ==ₛ x && eq_relation key k) ≡ b
          → (if b then mem_text y (Links.add_member alias (edges key)) else has_edge bugs k x y)
            ≡ (has_edge bugs k x y || (eq_relation key k && (other ==ₛ x && alias ==ₛ y)))
      by_place true e =
          let same = ap (mem_text y) (at_place bugs other key k x h e) in
          ground (arith, e, same, mem-add alias (edges key) y)
      by_place false e = ground (arith, e)

module _ (alias : String) (key : Relation) where
  pub unlink_all-edges :
      (others : List String) (bugs : Bugs)
      → OnOk
          (λ after.
            ((x : String) → is_known after x ≡ is_known bugs x)
            × ((k : Relation) (x y : String)
                → has_edge after k x y
                  ≡ (has_edge bugs k x y && not (touched alias key others k x y))))
          (Links.unlink_all alias key others bugs)
  unfolding Links.unlink_all
  unlink_all-edges [] bugs = OnOk-ok bugs (λ x. refl, λ k x y. ground arith)
  unlink_all-edges (other ∷ others) bugs =
      OnOk-bind (or_raise (find_bug other bugs) (key_error other)) _ (λ edges p.
        let members = Links.discard alias (edges key) in
        let here = or_raise-ok (find_bug other bugs) _ p in
        record {
          at = λ q.
              let (known, kept) =
                (unlink_all-edges others (set_edges other key members bugs)).at q in
              (
                λ x. known x ∙ is_known-set bugs other key members x,
                λ k x y. kept k x y ∙ ground (arith, set_discard bugs alias other key k x y here),
              );
        })

  pub link_all-edges :
      (others : List String) (bugs : Bugs)
      → OnOk
          (λ after.
            ((x : String) → is_known after x ≡ is_known bugs x)
            × ((k : Relation) (x y : String)
                → has_edge after k x y ≡ (has_edge bugs k x y || touched alias key others k x y)))
          (Links.link_all alias key others bugs)
  unfolding Links.link_all
  link_all-edges [] bugs = OnOk-ok bugs (λ x. refl, λ k x y. ground arith)
  link_all-edges (other ∷ others) bugs =
      OnOk-bind (or_raise (find_bug other bugs) (key_error other)) _ (λ edges p.
        let members = Links.add_member alias (edges key) in
        let here = or_raise-ok (find_bug other bugs) _ p in
        record {
          at = λ q.
              let (known, kept) = (link_all-edges others (set_edges other key members bugs)).at q in
              (
                λ x. known x ∙ is_known-set bugs other key members x,
                λ k x y. kept k x y ∙ ground (arith, set_add bugs alias other key k x y here),
              );
        })
