-- ===== src/Verify/Links.antt =====
-- verify/expected.py: the edges between bugs, and `_link`. A bug is known by its alias, and its
-- edges by their relation; a set of aliases is a list.
pub mod Edges
pub mod Mutual
pub mod Total
use bzr_live.Common.{
  String, Bool, true, false, not, ◌||◌, List, [], ◌∷◌, Option, none, some, ◌==ₛ◌, mem_text, Result,
  ok, key_error, ◌>>=◌, or_raise, if◌then◌else◌,
}

-- the keys of `edges`, `_EDGE_SETS`
pub data Relation : Type 0 where
  depends_on blocks : Relation

-- `_INVERSE`
abbrev pub inverse : Relation → Relation
inverse depends_on = blocks
inverse blocks = depends_on

abbrev pub eq_relation : Relation → Relation → Bool
eq_relation depends_on depends_on = true
eq_relation blocks blocks = true
eq_relation _ _ = false

-- the edges of a bug, and those of each bug; a relation that `edges` does not hold has no members
abbrev pub Edges : Type 0
Edges = Relation → List String

abbrev pub Bugs : Type 0
Bugs = List (String × Edges)

-- `bugs[alias]`
unfoldable pub find_bug : String → Bugs → Option Edges
find_bug alias [] = none
find_bug alias ((a, edges) ∷ bugs) =
    let later = find_bug alias bugs in if a ==ₛ alias then some edges else later

abbrev pub assign : Relation → List String → Edges → Edges
assign key members edges k = if eq_relation key k then members else edges k

-- `bugs[alias].edges[key] = members`
unfoldable pub set_edges : String → Relation → List String → Bugs → Bugs
set_edges alias key members [] = []
set_edges alias key members ((a, edges) ∷ bugs) =
    let later = set_edges alias key members bugs in
    if a ==ₛ alias then (a, assign key members edges) ∷ bugs else (a, edges) ∷ later

-- `xs - ys`
unfoldable pub minus : List String → List String → List String
minus [] ys = []
minus (x ∷ xs) ys = let rest = minus xs ys in if mem_text x ys then rest else x ∷ rest

-- `xs.discard(x)`
unfoldable pub discard : String → List String → List String
discard x [] = []
discard x (y ∷ ys) = let rest = discard x ys in if y ==ₛ x then rest else y ∷ rest

-- `xs.add(x)`
abbrev pub add_member : String → List String → List String
add_member x xs = if mem_text x xs then xs else x ∷ xs

-- the loop over `current - declared`
unfoldable pub unlink_all : String → Relation → List String → Bugs → Result Bugs
unfolding find_bug set_edges discard
unlink_all alias key [] bugs = ok bugs
unlink_all alias key (other ∷ others) bugs = do
  edges ← or_raise (find_bug other bugs) (key_error other)
  unlink_all alias key others (set_edges other key (discard alias (edges key)) bugs)

-- the loop over `declared - current`
unfoldable pub link_all : String → Relation → List String → Bugs → Result Bugs
unfolding find_bug set_edges
link_all alias key [] bugs = ok bugs
link_all alias key (other ∷ others) bugs = do
  edges ← or_raise (find_bug other bugs) (key_error other)
  link_all alias key others (set_edges other key (add_member alias (edges key)) bugs)

abbrev is_empty : List String → Bool
is_empty [] = true
is_empty _ = false

-- `_link`: the bugs afterwards, and whether an edge was added
unfoldable pub link : String → Relation → List String → Bugs → Result (Bugs × Bool)
unfolding find_bug minus unlink_all link_all set_edges
link alias key declared bugs = do
  own ← or_raise (find_bug alias bugs) (key_error alias)
  unlinked ← unlink_all alias (inverse key) (minus (own key) declared) bugs
  linked ← link_all alias (inverse key) (minus declared (own key)) unlinked
  ok (set_edges alias key declared linked, not (is_empty (minus declared (own key))))
