-- ===== src/Loader/Plan/Step.antt =====
-- One round of the planning loop: what it does to the degrees and to the heap.
use bzr_live.Common.{
  ℕ, ◌+◌, ◌≤◌, String, ◌≡◌, refl, Bool, List, [], ◌∷◌, arith, ◌==ₛ◌, ◌==◌, eq_iff, mem_text,
  if◌then◌else◌, pos, eq_ℤ,
}
use bzr_live.Common.Times.{times}
use bzr_live.Loader.Plan
use bzr_live.Loader.Plan.{Planning, decrement}

-- Each text occurs once at most.
abbrev pub IsDistinct : List String → Type 0
IsDistinct xs = (z : String) → times z xs ≤ 1

module _ (index : String → ℕ) where
  pub times-push :
      (z x : String) (xs : List String)
      → times z (Plan.push index x xs) ≡ (if x ==ₛ z then 1 else 0) + times z xs
  unfolding Plan.push
  times-push z x [] = refl
  times-push z x (y ∷ ys) = ground (arith, times-push z x ys)

  pub times-heapify : (z : String) (xs : List String) → times z (Plan.heapify index xs) ≡ times z xs
  unfolding Plan.heapify
  times-heapify z [] = refl
  times-heapify z (x ∷ xs) =
      ground (arith, times-heapify z xs, times-push z x (Plan.heapify index xs))

module _ (index : String → ℕ) (nodes : List String) (deps : String → List String) where
  -- whether the degree of an identity falls to nothing
  abbrev falls : String → Planning → Bool
  falls y s = eq_ℤ (decrement (s.indegree y)) (pos 0)

  pub indegree-release :
      (z : String) (ys : List String) (s : Planning)
      → times z ys ≤ 1
      → (Plan.release index nodes deps ys s).indegree z
        ≡ (if times z ys == 0 then s.indegree z else decrement (s.indegree z))
  unfolding Plan.release
  indegree-release z [] s h = refl
  indegree-release z (y ∷ ys) s h =
      ground (arith, eq_iff y z, indegree-release z ys (Plan.lower index nodes deps y s))

  pub ready-release :
      (z : String) (ys : List String) (s : Planning)
      → times z ys ≤ 1
      → times z (Plan.release index nodes deps ys s).ready
        ≡ times z s.ready + (if times z ys == 0 then 0 else (if falls z s then 1 else 0))
  unfolding Plan.release
  ready-release z [] s h = omega arith
  ready-release z (y ∷ ys) s h = ground (
    arith,
    eq_iff y z,
    ready-release z ys (Plan.lower index nodes deps y s),
    times-push index z y s.ready,
  )

  pub plan-release :
      (ys : List String) (s : Planning) → (Plan.release index nodes deps ys s).plan ≡ s.plan
  unfolding Plan.release
  plan-release [] s = refl
  plan-release (y ∷ ys) s = plan-release ys (Plan.lower index nodes deps y s)

  pub times-dependents :
      (z x : String) (ys : List String)
      → times z (Plan.dependents_among index nodes deps ys x)
        ≡ (if mem_text x (deps z) then times z ys else 0)
  unfolding Plan.dependents_among
  times-dependents z x [] = ground arith
  times-dependents z x (y ∷ ys) = ground (arith, eq_iff y z, times-dependents z x ys)
