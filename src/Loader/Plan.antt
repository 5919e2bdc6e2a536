-- ===== src/Loader/Plan.antt =====
-- scenario/loader.py: the order in which `_validate_resources` plans the resources. A resource is
-- known by its identity; `deps` gives the set of the identities that it depends on, each once.
pub mod Step
pub mod Loop
use bzr_live.Common.{
  ℕ, zero, suc, String, Bool, true, false, List, [], ◌∷◌, ◌++◌, Option, none, some, ◌==ₛ◌, leb,
  mem_text, if◌then◌else◌, ℤ, pos, negsuc, eq_ℤ, length,
}

-- `x -= 1`
abbrev pub decrement : ℤ → ℤ
decrement (pos zero) = negsuc 0
decrement (pos (suc n)) = pos n
decrement (negsuc n) = negsuc (suc n)

-- The state of the loop: `indegree` for every identity, the heap `ready` from its least entry on,
-- and `plan`, oldest first.
pub record Planning : Type 0 where
  pub indegree : String → ℤ
  pub ready : List String
  pub plan : List String

-- `indegree[identity] = degree`
abbrev pub assign : String → ℤ → (String → ℤ) → String → ℤ
assign x degree table = λ y. if x ==ₛ y then degree else table y

module _ (index : String → ℕ) where
  -- `heapq.heappush(ready, (indexes[x], x))`; the heap is kept in order of the indexes
  pub push : String → List String → List String
  push x [] = x ∷ []
  push x (y ∷ ys) =
      let later = y ∷ push x ys in if leb (index x) (index y) then x ∷ y ∷ ys else later

  -- `heapq.heapify`
  pub heapify : List String → List String
  unfolding push
  heapify [] = []
  heapify (x ∷ xs) = push x (heapify xs)

module _ (index : String → ℕ) (nodes : List String) (deps : String → List String) where
  -- `dependents[identity]`: the loop that fills it goes over the identities in their order
  pub dependents_among : List String → String → List String
  dependents_among [] x = []
  dependents_among (y ∷ ys) x =
      let rest = dependents_among ys x in if mem_text x (deps y) then y ∷ rest else rest

  -- one round of the loop over the dependents of an identity that has been planned
  pub lower : String → Planning → Planning
  unfolding push
  lower y s =
      let degree = decrement (s.indegree y) in
      record s {
        indegree = assign y degree s.indegree;
        ready = if eq_ℤ degree (pos 0) then push index y s.ready else s.ready;
      }

  -- that loop
  pub release : List String → Planning → Planning
  unfolding lower
  release [] s = s
  release (y ∷ ys) s = release ys (lower y s)

  -- the body of `while ready`, for the identity that is popped and the heap that is left
  pub step : String → List String → Planning → Planning
  unfolding dependents_among release
  step x rest s =
      release (dependents_among nodes x) (record s { ready = rest; plan = s.plan ++ x ∷ [] })

  -- `while ready`; `none` means that the fuel ran out
  unfoldable pub loop : ℕ → Planning → Option (List String)
  unfolding step
  loop zero s = none
  loop (suc fuel) s = elim s.ready [ [] ↦ some s.plan | x ∷ rest ↦ loop fuel (step x rest s) ]

  -- the identities with no dependencies, in their order
  pub roots : List String → List String
  roots [] = []
  roots (x ∷ xs) =
      let rest = roots xs in if eq_ℤ (pos (length (deps x))) (pos 0) then x ∷ rest else rest

  unfoldable pub start : Planning
  unfolding roots heapify
  start = record {
    indegree = λ x. pos (length (deps x));
    ready = heapify index (roots nodes);
    plan = [];
  }
