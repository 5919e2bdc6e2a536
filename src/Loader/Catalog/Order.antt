-- ===== src/Loader/Catalog/Order.antt =====
-- The plan holds each resource once, behind everything that it depends on.
use bzr_live.Common.{
  suc, ◌≤◌, String, true, ◌≡◌, refl, sym, ◌∙◌, ap, List, [], ◌∷◌, map, Option, none, some, ◌==ₛ◌,
  eq_iff, eq_refl, mem_text, ok, >>=-eq-ok, arith, length, raise_if, require, raise_if-ok,
  require-ok, or_raise-ok, ◌>>=◌, or_raise, key_error, ok-injective, Bool-cases, if_some-cases, inl,
  inr,
}
use bzr_live.Common.Times.{times, times_zero}
use bzr_live.Scenario.{PlannedResource}
use bzr_live.Loader.Plan
use bzr_live.Loader.Plan.Step.{IsDistinct}
use bzr_live.Loader.Plan.Loop.{IsPlanned, start-IsPlanning, loop-IsPlanned}
use bzr_live.Loader.Catalog
use bzr_live.Loader.Catalog.{identity_of}
use bzr_live.Value.{identity}

-- the identities of a list of resources
abbrev pub ids_of : List PlannedResource → List String
ids_of = map identity_of

pub length-ids : (rs : List PlannedResource) → length (ids_of rs) ≡ length rs
length-ids [] = refl
length-ids (r ∷ rs) = omega (arith, length-ids rs)

unique-IsDistinct : (xs : List String) → IsDistinct (Catalog.unique xs)
unfolding Catalog.unique
unique-IsDistinct [] z = omega arith
unique-IsDistinct (x ∷ xs) z =
    ground (arith, unique-IsDistinct xs z, times_zero x (Catalog.unique xs), eq_iff x z)

deps_of-IsDistinct : (rs : List PlannedResource) (z : String) → IsDistinct (Catalog.deps_of rs z)
unfolding Catalog.deps_of
deps_of-IsDistinct rs z = by_found (Catalog.find_identity z rs)
  where
    by_found :
        (o : Option PlannedResource)
        → IsDistinct (elim o [ none ↦ [] | some r ↦ Catalog.dependency_ids r ])
    by_found none y = omega arith
    by_found (some r) y = unique-IsDistinct (map identity r.dependencies) y

-- identities that pass the check occur once, and not among those seen before
check_identities-times :
    (rs : List PlannedResource) (seen : List String) (z : String) {u : Unit {0}}
    → Catalog.check_identities rs seen ≡ ok u
    → (times z (ids_of rs) ≤ 1) × (mem_text z seen ≡ true → times z (ids_of rs) ≡ 0)
unfolding Catalog.check_identities
check_identities-times [] seen z h = (omega arith, λ k. refl)
check_identities-times (r ∷ rs) seen z h =
    let (_, p, q) =
      >>=-eq-ok (raise_if (mem_text (identity_of r) seen) "duplicate resource identity")
        (λ _. Catalog.check_identities rs (identity_of r ∷ seen)) h in
    let new = raise_if-ok (mem_text (identity_of r) seen) _ p in
    let (one, none_seen) = check_identities-times rs (identity_of r ∷ seen) z q in
    (
      ground (arith, one, none_seen, eq_refl (identity_of r), eq_iff (identity_of r) z),
      λ k. ground (arith, none_seen, eq_iff (identity_of r) z, new, k),
    )

module _ (rs : List PlannedResource) (distinct : Catalog.check_identities rs [] ≡ ok tt) where
  pub nodes-IsDistinct : IsDistinct (ids_of rs)
  nodes-IsDistinct z = (check_identities-times rs [] z distinct).0

  -- the loop ends within its fuel
  pub plan_ids-IsPlanned :
      (ids : List String) × (Catalog.plan_ids rs ≡ some ids)
      × IsPlanned (Catalog.index_of rs) (ids_of rs) (Catalog.deps_of rs) ids
  unfolding Catalog.plan_ids Plan.start
  plan_ids-IsPlanned =
      loop-IsPlanned (Catalog.index_of rs) (ids_of rs) (Catalog.deps_of rs) nodes-IsDistinct
        (deps_of-IsDistinct rs) (suc (length rs))
        (Plan.start (Catalog.index_of rs) (ids_of rs) (Catalog.deps_of rs))
        (start-IsPlanning (Catalog.index_of rs) (ids_of rs) (Catalog.deps_of rs) nodes-IsDistinct)
        (omega (arith, length-ids rs))

find_identity-id :
    (x : String) (rs : List PlannedResource) (r : PlannedResource)
    → Catalog.find_identity x rs ≡ some r
    → identity_of r ≡ x
unfolding Catalog.find_identity
find_identity-id x [] r h = cc
find_identity-id x (s ∷ rs) r h =
    elim (if_some-cases (identity_of s ==ₛ x) s (Catalog.find_identity x rs) h) [
      | inl (same, e) ↦ ap identity_of (sym e) ∙ (eq_iff (identity_of s) x).0 same
      | inr (other, found) ↦ find_identity-id x rs r found
    ]

pub planned_resources-ids :
    (rs : List PlannedResource) (ids : List String) {plan : List PlannedResource}
    → Catalog.planned_resources rs ids ≡ ok plan
    → ids_of plan ≡ ids
unfolding Catalog.planned_resources
planned_resources-ids rs [] h = ap ids_of (sym (ok-injective h))
planned_resources-ids rs (x ∷ ids) h =
    let (r, p, q) =
      >>=-eq-ok (or_raise (Catalog.find_identity x rs) (key_error x))
        (λ r. Catalog.planned_resources rs ids >>= λ rest. ok (r ∷ rest)) h in
    let (rest, p', q') = >>=-eq-ok (Catalog.planned_resources rs ids) (λ rest. ok (r ∷ rest)) q in
    let found =
      find_identity-id x rs r (or_raise-ok (Catalog.find_identity x rs) (key_error x) p) in
    ap ids_of (sym (ok-injective q'))
    ∙ ap (λ i. i ∷ ids_of rest) found
    ∙ ap (λ i. x ∷ i) (planned_resources-ids rs ids p')

find_identity-mem :
    (x : String) (rs : List PlannedResource)
    → mem_text x (ids_of rs) ≡ true
    → (r : PlannedResource) × (Catalog.find_identity x rs ≡ some r)
unfolding Catalog.find_identity
find_identity-mem x [] h = cc
find_identity-mem x (s ∷ rs) h = elim (Bool-cases (identity_of s ==ₛ x)) [
  | inl same ↦ (s, rw same)
  | inr other ↦ let (r, p) = find_identity-mem x rs (ground (arith, other, h)) in (r, rw other p)
]

pub planned_resources-total :
    (rs : List PlannedResource) (ids : List String)
    → ((z : String) → times z ids ≤ times z (ids_of rs))
    → (plan : List PlannedResource) × (Catalog.planned_resources rs ids ≡ ok plan)
unfolding Catalog.planned_resources
planned_resources-total rs [] h = ([], refl)
planned_resources-total rs (x ∷ ids) h =
    let known : mem_text x (ids_of rs) ≡ true =
      ground (arith, h x, eq_refl x, times_zero x (ids_of rs)) in
    let (r, found) = find_identity-mem x rs known in
    let (plan, p) = planned_resources-total rs ids (λ z. ground (arith, h z)) in
    (r ∷ plan, rw (found, p))

check_present-mem :
    (known ds : List String) (d : String)
    → Catalog.check_present known ds ≡ ok tt
    → mem_text d ds ≡ true
    → mem_text d known ≡ true
unfolding Catalog.check_present
check_present-mem known [] d h m = cc
check_present-mem known (e ∷ ds) d h m =
    let (_, p, q) =
      >>=-eq-ok (require (mem_text e known) "missing dependency")
        (λ _. Catalog.check_present known ds) h in
    let present = require-ok (mem_text e known) _ p in
    ground (arith, present, m, check_present-mem known ds d q, eq_iff e d)

pub mem-unique : (d : String) (xs : List String) → mem_text d (Catalog.unique xs) ≡ mem_text d xs
unfolding Catalog.unique
mem-unique d [] = refl
mem-unique d (x ∷ xs) = ground (arith, mem-unique d xs, eq_iff x d, mem-unique x xs)

-- the dependencies of a checked resource are identities of resources
pub check_resources-present :
    (all rs : List PlannedResource) (x d : String) (r : PlannedResource)
    → Catalog.check_resources all rs ≡ ok tt
    → Catalog.find_identity x rs ≡ some r
    → mem_text d (map identity r.dependencies) ≡ true
    → mem_text d (ids_of all) ≡ true
unfolding Catalog.check_resources Catalog.find_identity
check_resources-present all [] x d r h f m = cc
check_resources-present all (s ∷ rs) x d r h f m =
    let (_, p, q) =
      >>=-eq-ok (Catalog.check_present (ids_of all) (map identity s.dependencies))
        (λ _. Catalog.check_flag_type all s >>= λ _. Catalog.check_resources all rs) h in
    let (_, p', q') =
      >>=-eq-ok (Catalog.check_flag_type all s) (λ _. Catalog.check_resources all rs) q in
    elim (if_some-cases (identity_of s ==ₛ x) s (Catalog.find_identity x rs) f) [
      | inl (same, e) ↦
          check_present-mem (ids_of all) (map identity s.dependencies) d p
            (ap (λ t. mem_text d (map identity t.dependencies)) e ∙ m)
      | inr (other, found) ↦ check_resources-present all rs x d r q' found m
    ]
