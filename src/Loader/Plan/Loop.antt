-- ===== src/Loader/Plan/Loop.antt =====
-- The invariant of the planning loop, and that the loop ends.
use bzr_live.Common.{
  ℕ, zero, suc, ◌+◌, ◌≤◌, ◌<◌, String, ◌≡◌, refl, sym, ◌∙◌, ap, Bool, true, false, ◌&&◌, ◌||◌, not,
  List, [], ◌∷◌, ◌++◌, arith, ◌==ₛ◌, ◌==◌, eq_iff, eq_refl, mem_text, if◌then◌else◌, pos, length,
  length-append, Bool-cases, inl, inr, some,
}
use mathlib.Core.Path.{subst}
use mathlib.Core.List.{append-nil, append_assoc}
use bzr_live.Common.Times.{times, times-append, times_pos, times_zero, mem-append, length-times}
use bzr_live.Loader.Plan
use bzr_live.Loader.Plan.{Planning, decrement}
use bzr_live.Loader.Plan.Step.{
  IsDistinct, times-heapify, indegree-release, ready-release, plan-release, times-dependents,
}

-- how many of the identities are not among those that are planned
unfoldable pub missing : List String → List String → ℕ
missing planned [] = 0
missing planned (d ∷ ds) = (if mem_text d planned then 0 else 1) + missing planned ds

missing-snoc :
    (x : String) (planned ds : List String)
    → mem_text x planned ≡ false
    → missing (planned ++ x ∷ []) ds + times x ds ≡ missing planned ds
unfolding missing
missing-snoc x planned [] h = omega arith
missing-snoc x planned (d ∷ ds) h =
    ground
      (arith, missing-snoc x planned ds h, mem-append d planned (x ∷ []), eq_iff d x, eq_iff x d)

-- Everything in the second list depends on members of the first list and of what stands before it.
abbrev pub IsAfter : (String → List String) → List String → List String → Type 0
IsAfter deps before [] = Unit
IsAfter deps before (x ∷ xs) = (missing before (deps x) ≡ 0) × IsAfter deps (before ++ x ∷ []) xs

IsAfter-snoc :
    (deps : String → List String) (before xs : List String) (x : String)
    → IsAfter deps before xs
    → missing (before ++ xs) (deps x) ≡ 0
    → IsAfter deps before (xs ++ x ∷ [])
IsAfter-snoc deps before [] x h m = (ap (λ b. missing b (deps x)) (sym (append-nil before)) ∙ m, tt)
IsAfter-snoc deps before (y ∷ xs) x h m = (
  h.0,
  IsAfter-snoc deps (before ++ y ∷ []) xs x h.1
      (ap (λ b. missing b (deps x)) (append_assoc before (y ∷ []) xs) ∙ m),
)

module _ (index : String → ℕ) (nodes : List String) (deps : String → List String) where
  -- what waits in the heap: the identities that are not planned and miss nothing
  abbrev is_ready : List String → String → Bool
  is_ready planned z = mem_text z nodes && not (mem_text z planned) && missing planned (deps z) == 0

  pub record IsPlanning (s : Planning) : Type 0 where
    pub degrees :
        (z : String) → mem_text z nodes ≡ true → s.indegree z ≡ pos (missing s.plan (deps z))
    pub heap : (z : String) → times z s.ready ≡ (if is_ready s.plan z then 1 else 0)
    pub planned : (z : String) → mem_text z s.plan ≡ true → missing s.plan (deps z) ≡ 0
    pub within : (z : String) → times z s.plan ≤ times z nodes
    pub ordered : IsAfter deps [] s.plan

  module _ (nodes_distinct : IsDistinct nodes) (deps_distinct : (z : String) → IsDistinct (deps z))
      (x : String) (rest : List String) (s : Planning) (v : IsPlanning s)
      (popped : s.ready ≡ x ∷ rest) where
    popped-times :
        (z : String)
        → (if x ==ₛ z then 1 else 0) + times z rest ≡ (if is_ready s.plan z then 1 else 0)
    popped-times z = ap (times z) (sym popped) ∙ v.heap z

    popped-is_ready : is_ready s.plan x ≡ true
    popped-is_ready = ground (arith, popped-times x, eq_refl x)

    fresh : mem_text x s.plan ≡ false
    fresh = ground (arith, popped-is_ready)

    now_missing :
        (z : String)
        → missing (s.plan ++ x ∷ []) (deps z) + (if mem_text x (deps z) then 1 else 0)
          ≡ missing s.plan (deps z)
    now_missing z = ground (
      arith,
      missing-snoc x s.plan (deps z) fresh,
      times_pos x (deps z),
      times_zero x (deps z),
      deps_distinct z x,
    )

    now_planned : (z : String) → mem_text z (s.plan ++ x ∷ []) ≡ (mem_text z s.plan || x ==ₛ z)
    now_planned z = ground (arith, mem-append z s.plan (x ∷ []))

    abbrev freed : List String
    freed = Plan.dependents_among index nodes deps nodes x

    freed-once : (z : String) → times z freed ≤ 1
    freed-once z = ground (arith, times-dependents index nodes deps z x nodes, nodes_distinct z)

    abbrev popped_state : Planning
    popped_state = record s { ready = rest; plan = s.plan ++ x ∷ [] }

    now_degrees :
        (z : String)
        → mem_text z nodes ≡ true
        → (Plan.step index nodes deps x rest s).indegree z
          ≡ pos (missing (s.plan ++ x ∷ []) (deps z))
    unfolding Plan.step
    now_degrees z h = ground (
      arith,
      indegree-release index nodes deps z freed popped_state (freed-once z),
      times-dependents index nodes deps z x nodes,
      times_pos z nodes h,
      v.degrees z h,
      now_missing z,
    )

    now_heap :
        (z : String)
        → times z (Plan.step index nodes deps x rest s).ready
          ≡ (if is_ready (s.plan ++ x ∷ []) z then 1 else 0)
    unfolding Plan.step
    now_heap z = ground (
      arith,
      ready-release index nodes deps z freed popped_state (freed-once z),
      times-dependents index nodes deps z x nodes,
      times_pos z nodes,
      times_zero z nodes,
      v.degrees z,
      now_missing z,
      now_planned z,
      popped-times z,
      popped-is_ready,
      v.planned z,
      eq_iff x z,
    )

    now_plan : (Plan.step index nodes deps x rest s).plan ≡ s.plan ++ x ∷ []
    unfolding Plan.step
    now_plan = plan-release index nodes deps freed popped_state

    still_planned :
        (z : String)
        → mem_text z (s.plan ++ x ∷ []) ≡ true
        → missing (s.plan ++ x ∷ []) (deps z) ≡ 0
    still_planned z h =
        ground (arith, now_missing z, now_planned z, v.planned z, popped-is_ready, eq_iff x z)

    still_within : (z : String) → times z (s.plan ++ x ∷ []) ≤ times z nodes
    still_within z = ground (
      arith,
      times-append z s.plan (x ∷ []),
      v.within z,
      times_zero x s.plan fresh,
      times_pos x nodes,
      popped-is_ready,
      eq_iff x z,
    )

    pub step-IsPlanning : IsPlanning (Plan.step index nodes deps x rest s)
    step-IsPlanning = record {
      degrees = λ z h. now_degrees z h ∙ ap (λ p. pos (missing p (deps z))) (sym now_plan);
      heap = λ z. now_heap z ∙ ap (λ p. if is_ready p z then 1 else 0) (sym now_plan);
      planned = λ z.
          subst (λ p. mem_text z p ≡ true → missing p (deps z) ≡ 0) (sym now_plan)
            (still_planned z);
      within = λ z. subst (λ p. times z p ≤ times z nodes) (sym now_plan) (still_within z);
      ordered =
          subst (IsAfter deps []) (sym now_plan)
            (IsAfter-snoc deps [] s.plan x v.ordered (ground (arith, popped-is_ready)));
    }

    pub step-length : length (Plan.step index nodes deps x rest s).plan ≡ suc (length s.plan)
    step-length = ap length now_plan ∙ omega (arith, length-append s.plan (x ∷ []))

  missing_none : (ds : List String) → missing [] ds ≡ length ds
  unfolding missing
  missing_none [] = refl
  missing_none (d ∷ ds) = omega (arith, missing_none ds)

  times-roots :
      (z : String) (xs : List String)
      → times z (Plan.roots index nodes deps xs) ≡ (if length (deps z) == 0 then times z xs else 0)
  unfolding Plan.roots
  times-roots z [] = ground arith
  times-roots z (x ∷ xs) = ground (arith, times-roots z xs, eq_iff x z)

  start_heap :
      (z : String)
      → times z nodes ≤ 1
      → times z (Plan.start index nodes deps).ready ≡ (if is_ready [] z then 1 else 0)
  unfolding Plan.start
  start_heap z one = ground (
    arith,
    times-heapify index z (Plan.roots index nodes deps nodes),
    times-roots z nodes,
    missing_none (deps z),
    times_pos z nodes,
    times_zero z nodes,
  )

  pub start-IsPlanning : IsDistinct nodes → IsPlanning (Plan.start index nodes deps)
  unfolding Plan.start
  start-IsPlanning nodes_distinct = record {
    degrees = λ z h. ap pos (sym (missing_none (deps z)));
    heap = λ z. start_heap z (nodes_distinct z);
    planned = λ z h. cc;
    within = λ z. omega arith;
    ordered = tt;
  }

  -- the state in which the loop ends
  pub record IsPlanned (plan : List String) : Type 0 where
    pub within : (z : String) → times z plan ≤ times z nodes
    pub ordered : IsAfter deps [] plan
    pub stuck :
        (z : String) → mem_text z nodes ≡ true → mem_text z plan ≡ false → 1 ≤ missing plan (deps z)

  ended-IsPlanned : (s : Planning) → IsPlanning s → s.ready ≡ [] → IsPlanned s.plan
  ended-IsPlanned s v e = record {
    within = v.within;
    ordered = v.ordered;
    stuck = λ z h k. ground (arith, v.heap z, ap (times z) e);
  }

  -- Each round plans one more identity, so the loop ends within as many rounds as there are.
  pub loop-IsPlanned :
      (nodes_distinct : IsDistinct nodes) (deps_distinct : (z : String) → IsDistinct (deps z))
      (fuel : ℕ) (s : Planning)
      → IsPlanning s
      → length nodes < fuel + length s.plan
      → (plan : List String) × (Plan.loop index nodes deps fuel s ≡ some plan) × IsPlanned plan
  unfolding Plan.loop
  loop-IsPlanned nodes_distinct deps_distinct zero s v h =
      absurd (omega (arith, length-times s.plan nodes v.within))
  loop-IsPlanned nodes_distinct deps_distinct (suc fuel) s v h = by_heap s.ready refl (λ x rest e.
      loop-IsPlanned nodes_distinct deps_distinct fuel (Plan.step index nodes deps x rest s)
        (step-IsPlanning nodes_distinct deps_distinct x rest s v e)
        (omega (arith, step-length nodes_distinct deps_distinct x rest s v e)))
    where
      by_heap :
          (r : List String)
          → s.ready ≡ r
          → ((x : String) (rest : List String)
              → s.ready ≡ x ∷ rest
              → (plan : List String) × (Plan.loop index nodes deps fuel
                    (Plan.step index nodes deps x rest s)
                  ≡ some plan)
                × IsPlanned plan)
          → (plan : List String) × (Plan.loop index nodes deps (suc fuel) s ≡ some plan)
            × IsPlanned plan
      by_heap [] e next = (s.plan, rw e, ended-IsPlanned s v e)
      by_heap (x ∷ rest) e next =
          let (plan, p, done) = next x rest e in (plan, rw (e, Plan.loop) p, done)

  module _ (rank : String → ℕ)
      (falls : (z d : String) → mem_text d (deps z) ≡ true → rank d < rank z)
      (closed : (z d : String) → mem_text d (deps z) ≡ true → mem_text d nodes ≡ true) where
    missing_one :
        (planned ds : List String)
        → 1 ≤ missing planned ds
        → (d : String) × (mem_text d ds ≡ true) × (mem_text d planned ≡ false)
    unfolding missing
    missing_one planned [] h = absurd (omega arith)
    missing_one planned (d ∷ ds) h = elim (Bool-cases (mem_text d planned)) [
      | inl known ↦ let (e, p, q) = missing_one planned ds (ground arith) in (e, ground arith, q)
      | inr unknown ↦ (d, ground (arith, eq_refl d), unknown)
    ]

    descend :
        (plan : List String)
        → IsPlanned plan
        → (k : ℕ) (z : String) → rank z < k
        → mem_text z nodes ≡ true
        → mem_text z plan ≡ false
        → ⊥
    descend plan done zero z h m u = absurd (omega arith)
    descend plan done (suc k) z h m u =
        let (d, p, q) = missing_one plan (deps z) (done.stuck z m u) in
        let lower = falls z d p in descend plan done k d (omega (arith, lower)) (closed z d p) q

    -- with a rank nothing is stuck
    pub ranked-all :
        (plan : List String)
        → IsPlanned plan
        → (z : String) → mem_text z nodes ≡ true
        → mem_text z plan ≡ true
    ranked-all plan done z m = elim (Bool-cases (mem_text z plan)) [
      | inl yes_planned ↦ yes_planned
      | inr not_planned ↦ absurd (descend plan done (suc (rank z)) z (omega arith) m not_planned)
    ]
