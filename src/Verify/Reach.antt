-- ===== src/Verify/Reach.antt =====
-- verify/expected.py: `reachable`, over the other ends of the edges of each bug, in sorted order.
pub mod Exact
use bzr_live.Common.{
  ℕ, zero, suc, String, List, [], ◌∷◌, ◌++◌, Option, none, some, mem_text, length, if◌then◌else◌,
}

-- the variables of the search; `following` is the next frontier
pub record Search : Type 0 where
  pub seen : List String
  pub hops : List (String × ℕ)
  pub following : List String

abbrev pub meet : ℕ → String → Search → Search
meet depth other s = if mem_text other s.seen then s else record {
  seen = other ∷ s.seen;
  hops = s.hops ++ (other, depth) ∷ [];
  following = s.following ++ other ∷ [];
}

-- the loop over the edges of a bug
unfoldable pub visit : ℕ → List String → Search → Search
visit depth [] s = s
visit depth (other ∷ others) s = visit depth others (meet depth other s)

module _ (edges : String → List String) where
  -- the loop over the frontier
  unfoldable pub visit_all : ℕ → List String → Search → Search
  unfolding visit
  visit_all depth [] s = s
  visit_all depth (alias ∷ frontier) s = visit_all depth frontier (visit depth (edges alias) s)

  -- `while frontier`; `none` means that the fuel ran out
  unfoldable pub search : ℕ → ℕ → List String → Search → Option (List (String × ℕ))
  unfolding visit_all
  search fuel depth [] s = some s.hops
  search zero depth (alias ∷ frontier) s = none
  search (suc fuel) depth (alias ∷ frontier) s =
      let t = visit_all (suc depth) (alias ∷ frontier) (record s { following = [] }) in
      search fuel (suc depth) t.following t

  -- `reachable`, with fuel for as many rounds as there are bugs
  unfoldable pub reachable : List String → String → Option (List (String × ℕ))
  unfolding search
  reachable nodes root =
      search (length nodes) 0 (root ∷ []) (record { seen = root ∷ []; hops = []; following = [] })
