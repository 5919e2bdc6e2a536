-- ===== src/Loader/Load/Sound.antt =====
-- What a scenario that was loaded is known to be.
use bzr_live.Common.{String, ◌≡◌, List, [], ◌∷◌, true, ok, OnOk, OnOk-ok, OnOk-bind, OnOk-then}
use bzr_live.Common.Times.{times}
use bzr_live.Value.{str, list, obj, nil, Fields}
use bzr_live.Scenario.{Asset, PlannedResource, ValidatedScenario}
use bzr_live.Loader.Checks.{member, member_or, object_of, version_of, name_of, text_of}
use bzr_live.Loader.Plan.Loop.{IsAfter}
use bzr_live.Loader.Catalog
use bzr_live.Loader.Catalog.Order.{ids_of}
use bzr_live.Loader.Catalog.Known.{IsOrdered, validate_resources-IsOrdered}
use bzr_live.Loader.Assets.{validate_assets}
use bzr_live.Loader.Events
use bzr_live.Loader.Events.{Progress, declared, resource_ref, asset_ref}
use bzr_live.Loader.Events.Closed.{IsClosed}
use bzr_live.Loader.Events.Rounds.{IsNamed, plan_events-IsClosed, plan_events-IsNamed}
use bzr_live.Loader.Load
use bzr_live.Loader.Load.{Outside}

-- the events of a scenario, from what its resources and its assets declare
pub validate_events_sound :
    (server_alias : String → String) (raws : List Fields) (resources : List PlannedResource)
    (assets : List Asset) (scenario_name : String)
    → OnOk
        (λ made. IsClosed (declared resources assets) made.0 × IsNamed [] [] made.0)
        (Events.validate_events server_alias raws resources assets scenario_name)
unfolding Events.validate_events
validate_events_sound server_alias raws resources assets scenario_name =
    let start : Progress = record {
      available = declared resources assets;
      scopes = [];
      names = [];
    } in
    OnOk-bind (Events.plan_events server_alias resources assets scenario_name raws start) _
      (λ events p. OnOk-ok _ (
        (plan_events-IsClosed server_alias resources assets scenario_name raws start).at p,
        (plan_events-IsNamed server_alias resources assets scenario_name raws start).at p,
      ))

abbrev scenario_keys : List String
scenario_keys = "format_version" ∷ "name" ∷ "description" ∷ "assets" ∷ []

-- the three together, for a scenario that is loaded
record IsSound (s : ValidatedScenario) : Type 0 where
  ordered : IsOrdered s.resources s.resource_plan
  closed : IsClosed (declared s.resources s.assets) s.events
  named : IsNamed [] [] s.events

load_scenario-IsSound : (outside : Outside) → OnOk IsSound (Load.load_scenario outside)
unfolding Load.load_scenario
load_scenario-IsSound outside =
    OnOk-bind (Load.load_json outside "scenario.json") _ (λ scenario_doc _.
      OnOk-bind (Load.load_json outside "resources.json") _ (λ resources_doc _.
        OnOk-bind (outside.read_regular "events.jsonl") _ (λ events_content _.
          OnOk-bind (Load.parse_events outside events_content) _ (λ raw_events _.
            OnOk-bind (object_of (obj scenario_doc) scenario_keys ("format_version" ∷ "name" ∷ []))
              _
              (λ fs _. OnOk-then (version_of (member "format_version" fs)) _ (λ _.
                OnOk-bind (name_of (member "name" fs)) _ (λ scenario_name _.
                  OnOk-bind (text_of (member_or "description" (str "") fs) true) _ (λ description _.
                    OnOk-bind
                      (validate_assets outside.sha256 outside.read_asset
                        (member_or "assets" (list nil) fs))
                      _
                      (λ assets _.
                        OnOk-bind (Catalog.validate_resources (obj resources_doc)) _ (λ resources p.
                          OnOk-bind
                            (Events.validate_events (Load.server_alias outside scenario_name)
                              raw_events resources.0 assets.0 scenario_name)
                            _
                            (λ events q.
                              let sound =
                                (validate_events_sound (Load.server_alias outside scenario_name)
                                    raw_events resources.0 assets.0 scenario_name).at
                                  q in
                              OnOk-ok _ (record {
                                ordered =
                                    ((validate_resources-IsOrdered (obj resources_doc)).at p).1;
                                closed = sound.0;
                                named = sound.1;
                              }))))))))))))

-- The plan of a scenario that is loaded holds each identity as often as its resources do, and each
-- of its resources stands behind everything that it depends on.
pub load_scenario-ordered :
    (outside : Outside) (s : ValidatedScenario)
    → Load.load_scenario outside ≡ ok s
    → ((z : String) → times z (ids_of s.resource_plan) ≡ times z (ids_of s.resources))
      × IsAfter (Catalog.deps_of s.resources) [] (ids_of s.resource_plan)
load_scenario-ordered outside s h = ((load_scenario-IsSound outside).at h).ordered

-- Each event of a scenario that is loaded depends on what its resources and assets declare or an
-- earlier event creates, and creates nothing that is already there.
pub load_scenario-IsClosed :
    (outside : Outside) (s : ValidatedScenario)
    → Load.load_scenario outside ≡ ok s
    → IsClosed (declared s.resources s.assets) s.events
load_scenario-IsClosed outside s h = ((load_scenario-IsSound outside).at h).closed

-- The events of a scenario that is loaded have distinct names and distinct markers. Each has the
-- recovery class that the journal asks of its action, and the postcondition that it is journalled
-- with holds its action and its marker.
pub load_scenario-IsNamed :
    (outside : Outside) (s : ValidatedScenario)
    → Load.load_scenario outside ≡ ok s
    → IsNamed [] [] s.events
load_scenario-IsNamed outside s h = ((load_scenario-IsSound outside).at h).named
