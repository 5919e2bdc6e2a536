-- ===== src/Tests/Loader.antt =====
-- The theorems on the scenario loader at a small scenario: a product, a component of it that is
-- declared first, an actor, an asset, and two events.
use bzr_live.Common.{
  ℕ, ◌<◌, String, true, ◌≡◌, refl, List, [], ◌∷◌, map, Result, ok, err, invalid, All, mem_text, ◌⊎◌,
}
use bzr_live.Common.Times.{times}
use bzr_live.Value.{Reference, null, list, obj, Items, nil, cons, end, field}
use bzr_live.Scenario.{Asset, PlannedResource, PlannedEvent, ValidatedScenario}
use bzr_live.Loader.Checks
use bzr_live.Loader.Checks.{mem_ref}
use bzr_live.Loader.Checks.Unique.{IsUnique, decode_pairs-IsUnique}
use bzr_live.Loader.Resolve
use bzr_live.Loader.Plan.Loop.{IsAfter}
use bzr_live.Loader.Catalog
use bzr_live.Loader.Catalog.Order.{ids_of}
use bzr_live.Loader.Catalog.Planned.{plan_resources-ordered, plan_resources-total}
use bzr_live.Loader.Assets.{validate_assets, is_asset_path}
use bzr_live.Loader.Assets.Stored.{AreStored, validate_assets-AreStored}
use bzr_live.Loader.Assets.Split.{join_with, IsPart, is_asset_path-below}
use bzr_live.Loader.Events
use bzr_live.Loader.Events.{Progress, declared}
use bzr_live.Loader.Events.Closed.{IsClosed}
use bzr_live.Loader.Events.Rounds.{IsNamed, at_start, after_round}
use bzr_live.Loader.Events.Scoped.{start_of, bug_scope-total}
use bzr_live.Loader.Load
use bzr_live.Loader.Load.{Outside}
use bzr_live.Loader.Load.Sound.{
  load_scenario-ordered, load_scenario-IsClosed, load_scenario-IsNamed,
}
use bzr_live.Tests.Data.{scenario, note}
use bzr_live.Tests.Documents.{resources_doc, scenario_doc, log_doc, create_fields, outside, zeros}

abbrev or_default : Result ValidatedScenario → ValidatedScenario
or_default (ok s) = s
or_default (err e) = scenario

abbrev loaded : ValidatedScenario
unfolding Load.load_scenario
loaded = or_default (Load.load_scenario outside)

loads : Load.load_scenario outside ≡ ok loaded
unfolding Load.load_scenario
loads = refl

-- the product is planned before its component
loaded_plan : ids_of loaded.resource_plan ≡ "product:core" ∷ "component:parser" ∷ "actor:alice" ∷ []
unfolding Load.load_scenario
loaded_plan = refl

loaded_events :
    map (λ (e : PlannedEvent). e.reconciliation_marker) loaded.events
    ≡ "bzr-live:demo:report" ∷ "bzr-live:demo:note" ∷ []
unfolding Load.load_scenario
loaded_events = refl

load_scenario-ordered_example :
    ((z : String) → times z (ids_of loaded.resource_plan) ≡ times z (ids_of loaded.resources))
    × IsAfter (Catalog.deps_of loaded.resources) [] (ids_of loaded.resource_plan)
load_scenario-ordered_example = load_scenario-ordered outside loaded loads

load_scenario-IsClosed_example : IsClosed (declared loaded.resources loaded.assets) loaded.events
load_scenario-IsClosed_example = load_scenario-IsClosed outside loaded loads

load_scenario-IsNamed_example : IsNamed [] [] loaded.events
load_scenario-IsNamed_example = load_scenario-IsNamed outside loaded loads

abbrev catalog : List PlannedResource
unfolding Load.load_scenario
catalog = loaded.resources

checked : Catalog.check_catalog catalog ≡ ok tt
unfolding Catalog.check_catalog Load.load_scenario
checked = refl

planned : Catalog.plan_resources catalog ≡ ok loaded.resource_plan
unfolding Catalog.plan_resources Load.load_scenario
planned = refl

plan_resources-ordered_example :
    ((z : String) → times z (ids_of loaded.resource_plan) ≡ times z (ids_of catalog))
    × IsAfter (Catalog.deps_of catalog) [] (ids_of loaded.resource_plan)
plan_resources-ordered_example = plan_resources-ordered catalog loaded.resource_plan checked planned

plan_resources-total_example :
    ((plan : List PlannedResource) × (Catalog.plan_resources catalog ≡ ok plan))
    ⊎ ((Catalog.plan_resources catalog ≡ err (invalid "resource dependency cycle"))
        × ((rank : String → ℕ)
            → ((z d : String) → mem_text d (Catalog.deps_of catalog z) ≡ true → rank d < rank z)
            → ⊥))
plan_resources-total_example = plan_resources-total catalog checked

taken : Checks.decode_pairs scenario_doc ≡ ok scenario_doc
unfolding Checks.decode_pairs
taken = refl

decode_pairs-IsUnique_example : (scenario_doc ≡ scenario_doc) × IsUnique scenario_doc
decode_pairs-IsUnique_example = decode_pairs-IsUnique scenario_doc scenario_doc taken

-- a repeated key within
repeated :
    Checks.decode_pairs (list (cons (obj (field "a" null (field "a" null end))) nil))
    ≡ err (invalid "duplicate object key")
unfolding Checks.decode_pairs
repeated = refl

abbrev asset_items : Items
asset_items = cons log_doc nil

abbrev log_asset : Asset
log_asset = record {
  name = "log";
  path = "assets/log.txt";
  sha256 = zeros;
  content = 104 ∷ 105 ∷ [];
}

stores :
    validate_assets outside.sha256 outside.read_asset (list asset_items)
    ≡ ok (log_asset ∷ [], asset_items)
unfolding validate_assets
stores = refl

validate_assets-AreStored_example : AreStored outside.sha256 outside.read_asset [] (log_asset ∷ [])
validate_assets-AreStored_example =
    validate_assets-AreStored outside.sha256 outside.read_asset (list asset_items)
      (log_asset ∷ [], asset_items) stores

below : is_asset_path "assets/log.txt" ≡ true
unfolding is_asset_path
below = refl

is_asset_path-below_example :
    (first : String) × (rest : List String) × ("assets/log.txt"
      ≡ join_with "/" ("assets" ∷ first ∷ rest))
    × All IsPart (first ∷ rest)
is_asset_path-below_example = is_asset_path-below "assets/log.txt" below

abbrev alias_of : String → String
alias_of name = "bzr-live-0000000000000000000000000000000"

abbrev made : List PlannedResource × List PlannedResource
made = (catalog, loaded.resource_plan)

valid : Catalog.validate_resources resources_doc ≡ ok made
unfolding Catalog.validate_resources Load.load_scenario
valid = refl

abbrev or_start : Result (PlannedEvent × Progress) → PlannedEvent × Progress
or_start (ok step) = step
or_start (err e) = (note, start_of [] [])

abbrev round : PlannedEvent × Progress
unfolding Events.plan_event Load.load_scenario
round = or_start (Events.plan_event alias_of catalog [] "demo" create_fields (start_of catalog []))

rounds : Events.plan_event alias_of catalog [] "demo" create_fields (start_of catalog []) ≡ ok round
unfolding Events.plan_event Load.load_scenario
rounds = refl

abbrev crash_bug : Reference
crash_bug = record { kind = "bug"; name = "crash" }

known : mem_ref crash_bug round.1.available ≡ true
unfolding Events.plan_event Load.load_scenario
known = refl

bug_scope-total_example :
    (scope : Reference × Reference) × (Resolve.bug_scope crash_bug round.1.scopes ≡ ok scope)
bug_scope-total_example =
    bug_scope-total alias_of resources_doc made [] "demo" round.1 crash_bug valid
      (after_round create_fields round at_start rounds) refl known
