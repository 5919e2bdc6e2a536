-- ===== src/Loader/Catalog.antt =====
-- scenario/loader.py: `_validate_resources`. `identities` and `indexes` are read off the resources,
-- whose identities are distinct.
pub mod Order
pub mod Planned
pub mod Known
use Prim.Native.String.{◌++◌}
use bzr_live.Common.{
  ℕ, suc, String, Bool, true, false, ◌&&◌, not, List, [], ◌∷◌, map, Option, none, some, ◌==ₛ◌, ◌==◌,
  any_of, mem_text, Result, ok, err, invalid, key_error, ◌>>=◌, ◌>>◌, raise_if, require, or_raise,
  if◌then◌else◌, length,
}
use bzr_live.Value.{Reference, identity, Value, Items, nil, cons}
use bzr_live.Scenario.{PlannedResource}
use bzr_live.Loader.Checks.{object_of, version_of, list_of, member, mem_ref}
use bzr_live.Loader.Resource.{parse_resource}
use bzr_live.Loader.Plan
use bzr_live.Replay.Values.{refs_at, ref_at}

abbrev pub identity_of : PlannedResource → String
identity_of r = r.kind ++ (":" ++ r.name)

-- `identities[identity]`
unfoldable pub find_identity : String → List PlannedResource → Option PlannedResource
find_identity x [] = none
find_identity x (r ∷ rs) =
    let rest = find_identity x rs in if identity_of r ==ₛ x then some r else rest

-- `indexes[identity]`
pub index_of : List PlannedResource → String → ℕ
index_of [] x = 0
index_of (r ∷ rs) x = let later = suc (index_of rs x) in if identity_of r ==ₛ x then 0 else later

-- `set(xs)`, in the order of the last occurrences
unfoldable pub unique : List String → List String
unique [] = []
unique (x ∷ xs) = let rest = unique xs in if mem_text x rest then rest else x ∷ rest

abbrev dependency_ids : PlannedResource → List String
dependency_ids r = unique (map identity r.dependencies)

-- `unique` of the loop, for the resource with that identity
unfoldable pub deps_of : List PlannedResource → String → List String
unfolding find_identity unique
deps_of resources x = elim (find_identity x resources) [ none ↦ [] | some r ↦ dependency_ids r ]

parse_all : Items → Result (List PlannedResource)
unfolding parse_resource
parse_all nil = ok []
parse_all (cons v xs) = do r ← parse_resource v; rs ← parse_all xs; ok (r ∷ rs)

pub check_identities : List PlannedResource → List String → Result (Unit {0})
check_identities [] seen = ok tt
check_identities (r ∷ rs) seen = do
  raise_if (mem_text (identity_of r) seen) "duplicate resource identity"
  check_identities rs (identity_of r ∷ seen)

pub check_present : List String → List String → Result (Unit {0})
check_present known [] = ok tt
check_present known (d ∷ ds) = do
  require (mem_text d known) "missing dependency"
  check_present known ds

abbrev no_refs : List Reference → Bool
no_refs [] = true
no_refs _ = false

-- the products of the components of a flag type
check_owners : List PlannedResource → List Reference → List Reference → Result (Unit {0})
unfolding find_identity ref_at
check_owners resources products [] = ok tt
check_owners resources products (c ∷ cs) = do
  component ← or_raise (find_identity ("component:" ++ c.name) resources) (key_error c.name)
  owner ← ref_at component.fields "product"
  raise_if (not (no_refs products) && not (mem_ref owner products))
      "component product is outside flag scope"
  check_owners resources products cs

check_flag_type : List PlannedResource → PlannedResource → Result (Unit {0})
unfolding check_owners refs_at
check_flag_type resources r =
    if r.kind ==ₛ "flag-type"
    then (do
      products ← refs_at r.fields "products"
      components ← refs_at r.fields "components"
      check_owners resources products components)
    else ok tt

-- the second loop over the resources
pub check_resources : List PlannedResource → List PlannedResource → Result (Unit {0})
unfolding check_present check_flag_type
check_resources resources [] = ok tt
check_resources resources (r ∷ rs) = do
  check_present (map identity_of resources) (map identity r.dependencies)
  check_flag_type resources r
  check_resources resources rs

-- `[identities[identity] for …]`, for the plan
pub planned_resources : List PlannedResource → List String → Result (List PlannedResource)
unfolding find_identity
planned_resources resources [] = ok []
planned_resources resources (x ∷ xs) = do
  r ← or_raise (find_identity x resources) (key_error x)
  rs ← planned_resources resources xs
  ok (r ∷ rs)

-- the planning loop, with fuel for one round more than there are resources
pub plan_ids : List PlannedResource → Option (List String)
unfolding Plan.loop Plan.start deps_of index_of
plan_ids resources =
    let nodes = map identity_of resources in
    Plan.loop (index_of resources) nodes (deps_of resources) (suc (length resources))
      (Plan.start (index_of resources) nodes (deps_of resources))

-- the plan of resources that have been checked, and the test for a cycle
unfoldable pub plan_resources : List PlannedResource → Result (List PlannedResource)
unfolding plan_ids planned_resources
plan_resources resources = do
  ids ← or_raise (plan_ids resources) (invalid "out of fuel")
  require (length ids == length resources) "resource dependency cycle"
  planned_resources resources ids

-- the checks on the resources and their dependencies
unfoldable pub check_catalog : List PlannedResource → Result (Unit {0})
unfolding check_identities check_resources
check_catalog resources = do check_identities resources []; check_resources resources resources

-- `_validate_resources`: the resources as declared, and as planned
unfoldable pub validate_resources : Value → Result (List PlannedResource × List PlannedResource)
unfolding object_of version_of member list_of parse_all check_catalog plan_resources
validate_resources document = do
  fs ←
      object_of document ("format_version" ∷ "resources" ∷ []) ("format_version" ∷ "resources" ∷ [])
  version_of (member "format_version" fs)
  items ← list_of (member "resources" fs)
  resources ← parse_all items
  check_catalog resources
  plan ← plan_resources resources
  ok (resources, plan)
