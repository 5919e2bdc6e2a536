-- ===== src/Loader/Catalog/Planned.antt =====
-- What `plan_resources` makes of a catalogue that passed its checks.
use bzr_live.Common.{
  ℕ, ◌<◌, ◌≤◌, String, true, ◌≡◌, refl, sym, ◌∙◌, ap, List, [], map, Option, none, some, ◌==◌,
  ==_iff, mem_text, ok, >>=-eq-ok, ◌>>=◌, arith, length, require, or_raise, require-ok, or_raise-ok,
  some-injective, invalid, Result, Error, err, Bool-cases, inl, inr, ◌⊎◌,
}
use mathlib.Core.Path.{subst}
use bzr_live.Common.Times.{times, times_pos, times_zero, length-times, times-length}
use bzr_live.Value.{identity}
use bzr_live.Scenario.{PlannedResource}
use bzr_live.Loader.Plan.Loop.{IsAfter, ranked-all}
use bzr_live.Loader.Catalog
use bzr_live.Loader.Catalog.{identity_of}
use bzr_live.Loader.Catalog.Order.{
  ids_of, length-ids, nodes-IsDistinct, plan_ids-IsPlanned, planned_resources-ids,
  planned_resources-total, mem-unique, check_resources-present,
}

-- the parts of the check on the catalogue
catalog-parts :
    (rs : List PlannedResource)
    → Catalog.check_catalog rs ≡ ok tt
    → (Catalog.check_identities rs [] ≡ ok tt) × (Catalog.check_resources rs rs ≡ ok tt)
unfolding Catalog.check_catalog
catalog-parts rs h =
    let (_, p, q) =
      >>=-eq-ok (Catalog.check_identities rs []) (λ _. Catalog.check_resources rs rs) h in
    (p, q)

-- The plan of a checked catalogue holds each identity as often as the catalogue, and so once; each
-- of its resources stands behind everything that it depends on.
pub plan_resources-ordered :
    (rs plan : List PlannedResource)
    → Catalog.check_catalog rs ≡ ok tt
    → Catalog.plan_resources rs ≡ ok plan
    → ((z : String) → times z (ids_of plan) ≡ times z (ids_of rs))
      × IsAfter (Catalog.deps_of rs) [] (ids_of plan)
unfolding Catalog.plan_resources
plan_resources-ordered rs plan checked h =
    let (distinct, present) = catalog-parts rs checked in
    let (ids, found, done) = plan_ids-IsPlanned rs distinct in
    let (ids', p, q) =
      >>=-eq-ok (or_raise (Catalog.plan_ids rs) (invalid "out of fuel"))
        (λ ids. require (length ids == length rs) "resource dependency cycle" >>= λ _.
          Catalog.planned_resources rs ids)
        h in
    let same : ids ≡ ids' = some-injective (sym found ∙ or_raise-ok (Catalog.plan_ids rs) _ p) in
    let (_, p', q') =
      >>=-eq-ok (require (length ids' == length rs) "resource dependency cycle")
        (λ _. Catalog.planned_resources rs ids') q in
    let whole = (==_iff (length ids') (length rs)).0 (require-ok (length ids' == length rs) _ p') in
    let named = planned_resources-ids rs ids' q' ∙ sym same in
    let full = ap length same ∙ (whole ∙ sym (length-ids rs)) in
    (
      λ z. ap (times z) named ∙ times-length ids (ids_of rs) done.within full z,
      subst (IsAfter (Catalog.deps_of rs) []) (sym named) done.ordered,
    )

-- each dependency that the planner sees is the identity of a resource
deps_of-present :
    (rs : List PlannedResource)
    → Catalog.check_resources rs rs ≡ ok tt
    → (z d : String) → mem_text d (Catalog.deps_of rs z) ≡ true
    → mem_text d (ids_of rs) ≡ true
unfolding Catalog.deps_of
deps_of-present rs checked z d m = by_found (Catalog.find_identity z rs) refl m
  where
    by_found :
        (o : Option PlannedResource)
        → Catalog.find_identity z rs ≡ o
        → mem_text d (elim o [ none ↦ [] | some r ↦ Catalog.dependency_ids r ]) ≡ true
        → mem_text d (ids_of rs) ≡ true
    by_found none e k = cc
    by_found (some r) e k =
        check_resources-present rs rs z d r checked e
          (sym (mem-unique d (map identity r.dependencies)) ∙ k)

-- a checked catalogue whose dependencies fall in some rank is planned
ranked-planned :
    (rs : List PlannedResource) (rank : String → ℕ)
    → Catalog.check_catalog rs ≡ ok tt
    → ((z d : String) → mem_text d (Catalog.deps_of rs z) ≡ true → rank d < rank z)
    → (plan : List PlannedResource) × (Catalog.plan_resources rs ≡ ok plan)
unfolding Catalog.plan_resources
ranked-planned rs rank checked falls =
    let (distinct, present) = catalog-parts rs checked in
    let (ids, found, done) = plan_ids-IsPlanned rs distinct in
    let all =
      ranked-all (Catalog.index_of rs) (ids_of rs) (Catalog.deps_of rs) rank falls
        (deps_of-present rs present) ids done in
    let (plan, p) = planned_resources-total rs ids done.within in
    let no_less : (z : String) → times z (ids_of rs) ≤ times z ids = λ z.
      ground
        (arith, nodes-IsDistinct rs distinct z, all z, times_pos z ids, times_zero z (ids_of rs)) in
    let one = length-times ids (ids_of rs) done.within in
    let other = length-times (ids_of rs) ids no_less in
    let whole : (length ids == length rs) ≡ true =
      (==_iff (length ids) (length rs)).1 (omega (arith, one, other, length-ids rs)) in
    (plan, rw (found, whole) p)

ok_err {ℓ} : {A : Type ℓ} (r : Result A) {a : A} {e : Error} → r ≡ ok a → r ≡ err e → ⊥
ok_err (ok b) p q = cc
ok_err (err e) p q = cc

-- A checked catalogue is planned, or its plan is refused for a cycle; it is refused only where there
-- is no rank in which each dependency stands below what depends on it. It never runs out of fuel.
pub plan_resources-total :
    (rs : List PlannedResource)
    → Catalog.check_catalog rs ≡ ok tt
    → ((plan : List PlannedResource) × (Catalog.plan_resources rs ≡ ok plan))
      ⊎ ((Catalog.plan_resources rs ≡ err (invalid "resource dependency cycle"))
          × ((rank : String → ℕ)
              → ((z d : String) → mem_text d (Catalog.deps_of rs z) ≡ true → rank d < rank z)
              → ⊥))
unfolding Catalog.plan_resources
plan_resources-total rs checked =
    let (distinct, present) = catalog-parts rs checked in
    let (ids, found, done) = plan_ids-IsPlanned rs distinct in
    elim (Bool-cases (length ids == length rs)) [
      | inl whole ↦
          let (plan, p) = planned_resources-total rs ids done.within in
          inl (plan, rw (found, whole) p)
      | inr short ↦
          let cycle : Catalog.plan_resources rs ≡ err (invalid "resource dependency cycle") =
            rw (found, short) refl in
          inr (
            cycle,
            λ rank falls.
                let (plan, p) = ranked-planned rs rank checked falls in
                ok_err (Catalog.plan_resources rs) p cycle,
          )
    ]
