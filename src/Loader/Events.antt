-- ===== src/Loader/Events.antt =====
-- scenario/loader.py: `_validate_events`.
pub mod Kept
pub mod Closed
pub mod Rounds
pub mod Scoped
use Prim.Native.String.{◌++◌}
use bzr_live.Common.{
  pos, String, Bool, true, false, List, [], ◌∷◌, map, Option, none, some, ◌==ₛ◌, mem_text, Result,
  ok, err, invalid, ◌>>=◌, ◌>>◌, raise_if, or_raise, if◌then◌else◌,
}
use mathlib.Core.List.{◌++◌ as ◌++ₗ◌}
use bzr_live.Value.{Reference, Value, str, ref, obj, int, Fields, end, field}
use bzr_live.Value.Planned.{freeze_fields, planned_to_json}
use bzr_live.Scenario.{Asset, PlannedResource, PlannedEvent}
use bzr_live.Journal.Record.{RecoveryClass, unique_create, idempotent_set, append}
use bzr_live.Loader.Checks.{object_of, member, version_of, name_of}
use bzr_live.Loader.Resolve.{Scopes, resolve, extend_new}
use bzr_live.Loader.Create.{Payload, create_payload}
use bzr_live.Loader.Actions.{
  update_payload, comment_payload, attach_payload, worktime_payload, custom_payload, flag_payload,
  attachment_payload,
}

-- what the loop keeps: the references that later events may use, the scopes of the bugs, and the
-- names of the events
pub record Progress : Type 0 where
  pub available : List Reference
  pub scopes : Scopes
  pub names : List String

-- `classes`, the table of the loader
class_of : String → Option RecoveryClass
class_of action =
    if action ==ₛ "bug.create"
    then some unique_create
    else (if action ==ₛ "bug.update"
        then some idempotent_set
        else (if action ==ₛ "bug.comment"
            then some append
            else (if action ==ₛ "bug.attach"
                then some append
                else (if action ==ₛ "bug.worktime"
                    then some append
                    else (if action ==ₛ "bug.custom-field-set"
                        then some idempotent_set
                        else (if action ==ₛ "bug.flag"
                            then some idempotent_set
                            else (if action ==ₛ "attachment.update"
                                then some idempotent_set
                                else none)))))))

-- `action`, of those in the table
action_of : Value → Result String
unfolding class_of
action_of (str s) = do _ ← or_raise (class_of s) (invalid "unsupported action"); ok s
action_of v = err (invalid "unsupported action")

-- what an action creates
abbrev pub created : String → Reference → Option Reference
created action target =
    if action ==ₛ "bug.create"
    then some target
    else (if action ==ₛ "bug.attach" then some target else none)

-- `if creates is not None: available.add(creates)`
abbrev pub add_created : Option Reference → List Reference → List Reference
add_created none available = available
add_created (some r) available = r ∷ available

-- `marker`, by the scenario and the event
unfoldable pub marker_of : String → String → String
marker_of scenario_name name = "bzr-live:" ++ (scenario_name ++ (":" ++ name))

-- the expected postcondition, before it is frozen
pub postcondition_of : String → String → String → Payload → Fields
unfolding marker_of
postcondition_of scenario_name name action made = field "action" (str action) (
    field "target" (ref made.target)
      (field "values" (obj made.values) (field "marker" (str (marker_of scenario_name name)) end)))

module _ (server_alias : String → String) (resources : List PlannedResource)
    (assets : List Asset) where
  -- the branches over the action, with the scopes afterwards
  unfoldable pub action_payload : String → Value → Progress → Result (Payload × Scopes)
  unfolding create_payload update_payload comment_payload attach_payload worktime_payload
      custom_payload flag_payload attachment_payload
  action_payload action value p =
      if action ==ₛ "bug.create"
      then (do
        made ← create_payload p.available resources server_alias value
        ok (made.0, (made.0.target, made.1) ∷ p.scopes))
      else (if action ==ₛ "bug.update"
          then (do made ← update_payload p.available resources value p.scopes; ok (made, p.scopes))
          else (if action ==ₛ "bug.comment"
              then (do made ← comment_payload p.available resources value; ok (made, p.scopes))
              else (if action ==ₛ "bug.attach"
                  then (do
                    made ← attach_payload p.available resources value assets
                    ok (made, p.scopes))
                  else (if action ==ₛ "bug.worktime"
                      then (do
                        made ← worktime_payload p.available resources value
                        ok (made, p.scopes))
                      else (if action ==ₛ "bug.custom-field-set"
                          then (do
                            made ← custom_payload p.available resources value
                            ok (made, p.scopes))
                          else (if action ==ₛ "bug.flag"
                              then (do
                                made ← flag_payload p.available resources value p.scopes
                                ok (made, p.scopes))
                              else (do
                                made ← attachment_payload p.available resources value
                                ok (made, p.scopes))))))))

  -- one round of the loop of `_validate_events`
  unfoldable pub plan_event : String → Fields → Progress → Result (PlannedEvent × Progress)
  unfolding object_of version_of member name_of resolve class_of action_of action_payload
      freeze_fields marker_of postcondition_of extend_new
  plan_event scenario_name raw p = do
    fs ←
        object_of (obj raw) ("format_version" ∷ "name" ∷ "actor" ∷ "action" ∷ "payload" ∷ [])
          ("format_version" ∷ "name" ∷ "actor" ∷ "action" ∷ "payload" ∷ [])
    version_of (member "format_version" fs)
    name ← name_of (member "name" fs)
    raise_if (mem_text name p.names) "duplicate event name"
    actor ← resolve (member "actor" fs) "actor" p.available
    action ← action_of (member "action" fs)
    made ← action_payload action (member "payload" fs) p
    payload ← freeze_fields made.0.payload
    postcondition ← freeze_fields (postcondition_of scenario_name name action made.0)
    class ← or_raise (class_of action) (invalid "unsupported action")
    let creates = created action made.0.target
    ok (
      record {
        name = name;
        actor = actor;
        action = action;
        action_class = class;
        payload = payload;
        dependencies = extend_new [] (actor ∷ made.0.refs);
        reconciliation_marker = marker_of scenario_name name;
        expected_postcondition = postcondition;
        creates = creates;
      },
      record {
        available = add_created creates p.available;
        scopes = made.1;
        names = name ∷ p.names;
      },
    )

  -- the loop of `_validate_events`
  unfoldable pub plan_events : String → List Fields → Progress → Result (List PlannedEvent)
  unfolding plan_event
  plan_events scenario_name [] p = ok []
  plan_events scenario_name (raw ∷ rest) p = do
    step ← plan_event scenario_name raw p
    events ← plan_events scenario_name rest step.1
    ok (step.0 ∷ events)

abbrev pub resource_ref : PlannedResource → Reference
resource_ref r = record { kind = r.kind; name = r.name }

abbrev pub asset_ref : Asset → Reference
asset_ref a = record { kind = "asset"; name = a.name }

-- `available` before the first event
abbrev pub declared : List PlannedResource → List Asset → List Reference
declared resources assets = map resource_ref resources ++ₗ map asset_ref assets

-- an entry of `normalized_events`
unfoldable pub normalized_event : PlannedEvent → Value
unfolding planned_to_json
normalized_event event = obj (
    field "format_version" (int (pos 1)) (
      field "name" (str event.name) (
        field "actor" (planned_to_json (ref event.actor)) (
          field "action" (str event.action)
            (field "payload" (planned_to_json (obj event.payload)) end)))))

-- `_validate_events`, with the hash of an alias as a parameter
unfoldable pub validate_events :
    (String → String)
    → List Fields
    → List PlannedResource
    → List Asset
    → String
    → Result (List PlannedEvent × List Value)
unfolding plan_events normalized_event
validate_events server_alias raw_events resources assets scenario_name = do
  events ←
      plan_events server_alias resources assets scenario_name raw_events
        (record { available = declared resources assets; scopes = []; names = [] })
  ok (events, map normalized_event events)
