-- ===== src/Loader/Catalog/Known.antt =====
-- What `_validate_resources` returns: resources of known kinds, and their plan.
use bzr_live.Common.{String, ◌≡◌, List, [], ◌∷◌, OnOk, OnOk-ok, OnOk-bind, OnOk-then, All}
use bzr_live.Common.Times.{times}
use bzr_live.Value.{Value, Items, nil, cons}
use bzr_live.Scenario.{PlannedResource}
use bzr_live.Loader.Checks.{member, object_of, version_of, list_of}
use bzr_live.Loader.Resource.{parse_resource}
use bzr_live.Loader.Resource.Kind.{IsKnown, parse_resource-IsKnown}
use bzr_live.Loader.Plan.Loop.{IsAfter}
use bzr_live.Loader.Catalog
use bzr_live.Loader.Catalog.Order.{ids_of}
use bzr_live.Loader.Catalog.Planned.{plan_resources-ordered}

-- The plan holds each resource as often as the catalogue, behind what it depends on.
abbrev pub IsOrdered : List PlannedResource → List PlannedResource → Type 0
IsOrdered resources plan =
    ((z : String) → times z (ids_of plan) ≡ times z (ids_of resources))
    × IsAfter (Catalog.deps_of resources) [] (ids_of plan)

parse_all-IsKnown : (xs : Items) → OnOk (All IsKnown) (Catalog.parse_all xs)
unfolding Catalog.parse_all
parse_all-IsKnown nil = OnOk-ok [] tt
parse_all-IsKnown (cons v xs) = OnOk-bind (parse_resource v) _ (λ r p.
    OnOk-bind (Catalog.parse_all xs) _
      (λ rs q. OnOk-ok (r ∷ rs) ((parse_resource-IsKnown v).at p, (parse_all-IsKnown xs).at q)))

abbrev keys : List String
keys = "format_version" ∷ "resources" ∷ []

pub validate_resources-IsOrdered :
    (document : Value)
    → OnOk
        (λ made. All IsKnown made.0 × IsOrdered made.0 made.1)
        (Catalog.validate_resources document)
unfolding Catalog.validate_resources
validate_resources-IsOrdered document = OnOk-bind (object_of document keys keys) _ (λ fs _.
    OnOk-then (version_of (member "format_version" fs)) _ (λ _.
      OnOk-bind (list_of (member "resources" fs)) _ (λ items _.
        OnOk-bind (Catalog.parse_all items) _ (λ resources p.
          OnOk-then (Catalog.check_catalog resources) _ (λ checked.
            OnOk-bind (Catalog.plan_resources resources) _ (λ plan q.
              OnOk-ok (resources, plan)
                (
                  (parse_all-IsKnown items).at p,
                  plan_resources-ordered resources plan checked q,
                )))))))
