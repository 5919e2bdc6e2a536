-- ===== src/Replay/Update.antt =====
-- replay/actions.py: `class BugUpdateHandler`, `build` and `reconcile`.
pub mod Quiet
use Prim.Native.String.{◌++◌}
use mathlib.Core.List.{◌++◌ as ◌++ₗ◌}
use bzr_live.Common.{
  pos, String, Bool, true, false, List, [], ◌∷◌, map, Option, none, some, ◌==ₛ◌, replay_error,
  or_raise, key_error, if◌then◌else◌, mem_text,
}
use bzr_live.Value.{Reference, Value, null, int, str, ref, Fields, end, field, get, has}
use bzr_live.Value.Equality.{eq_value}
use bzr_live.Exec.{Exec, pure, raise, lift, ◌>>=◌, for_each}
use bzr_live.Journal.Record.{advance, retry}
use bzr_live.Provision.Client.{not_found_codes}
use bzr_live.Scenario.{PlannedEvent}
use bzr_live.Replay.Context.{Setup, Context, actor_email, resolve, read_as, read_bug, show_ℕ}
use bzr_live.Replay.Delta.{delta}
use bzr_live.Replay.Invocation.{Invocation, Reconciliation}
use bzr_live.Replay.Values.{
  values_of, target_of, refs_at, optional_ref_at, get_or_null, object_with_id, elements, same_set,
  show_value, bzr_invocation,
}

abbrev pub advance_with : Value → Reconciliation
advance_with output = record { next_action = advance; output = output; resolved_ids = [] }

abbrev pub retry_with : Value → Reconciliation
retry_with output = record { next_action = retry; output = output; resolved_ids = [] }

-- `_UPDATE_COMPARE_SETS`, by field name: its fields keep their names in the reply
abbrev is_set_field : String → Bool
is_set_field key = mem_text key ("groups" ∷ "cc" ∷ "keywords" ∷ "depends_on" ∷ "blocks" ∷ [])

-- the key of `bzr bug view` for a field of `_UPDATE_COMPARE`
abbrev view_key : String → Option String
view_key key =
    if key ==ₛ "summary"
    then some "summary"
    else (if key ==ₛ "status"
        then some "status"
        else (if key ==ₛ "resolution"
            then some "resolution"
            else (if key ==ₛ "assignee"
                then some "assigned_to"
                else (if key ==ₛ "duplicate_of"
                    then some "dupe_of"
                    else (if key ==ₛ "milestone" then some "target_milestone" else none)))))

-- `field in _UPDATE_ALWAYS_RETRY or (field == "assignee" and values[field] is None)`
abbrev is_unreadable : String → Value → Bool
is_unreadable key null = mem_text key ("estimated_hours" ∷ "remaining_hours" ∷ "assignee" ∷ [])
is_unreadable key v = mem_text key ("estimated_hours" ∷ "remaining_hours" ∷ [])

milestone_arg : Option Reference → List String
milestone_arg none = []
milestone_arg (some r) = ("--target-milestone=" ++ r.name) ∷ []

module _ {W : Type 0} (setup : Setup W) where
  -- the projections of `_UPDATE_COMPARE` and `_UPDATE_COMPARE_SETS` on a reference
  project_ref : String → Reference → Exec (Context W) Value
  unfolding ◌>>=◌
  project_ref key r =
      if mem_text key ("assignee" ∷ "cc" ∷ [])
      then (do email ← actor_email setup r; pure (str email))
      else (if mem_text key ("duplicate_of" ∷ "depends_on" ∷ "blocks" ∷ [])
          then (do n ← resolve setup r; pure (int (pos n)))
          else pure (str r.name))

  -- a declared scalar, projected
  project : String → Value → Exec (Context W) Value
  unfolding project_ref
  project key (ref r) = project_ref key r
  project key v = pure v

  -- one `--flag=value` of `build`, when the field is declared
  scalar_arg : String → String → Fields → List String
  unfolding get show_value
  scalar_arg key flag values = elim (get key values) [
    | none ↦ []
    | some v ↦ (flag ++ ("=" ++ show_value setup.show_other v)) ∷ []
  ]

  assignee_arg : Option Value → Exec (Context W) (List String)
  unfolding ◌>>=◌
  assignee_arg none = pure []
  assignee_arg (some (ref r)) = do email ← actor_email setup r; pure (("--assignee=" ++ email) ∷ [])
  assignee_arg (some null) = pure ("--reset-assigned-to" ∷ [])
  assignee_arg (some v) = raise (key_error "assignee")

  duplicate_arg : Option Reference → Exec (Context W) (List String)
  unfolding ◌>>=◌ show_ℕ
  duplicate_arg none = pure []
  duplicate_arg (some r) = do n ← resolve setup r; pure (("--dupe-of=" ++ show_ℕ n) ∷ [])

  abbrev flags : String → List Value → List String
  flags flag vs = map (λ v. flag ++ ("=" ++ show_value setup.show_other v)) vs

  -- the add and remove flags of one list field that is declared
  set_args : Fields → Fields → String → String → Exec (Context W) (List String)
  unfolding has refs_at elements get_or_null eq_value project_ref delta for_each show_value ◌>>=◌
  set_args values observed key flag =
      if has key values
      then (do
        rs ← lift (refs_at values key)
        declared ← for_each (project_ref key) rs
        seen ← lift (elements (get_or_null key observed))
        let (add, remove) = delta eq_value declared seen
        pure (flags (flag ++ "-add") add ++ₗ flags (flag ++ "-remove") remove))
      else pure []

  -- `BugUpdateHandler.build`
  unfoldable pub build_update : PlannedEvent → Exec (Context W) Invocation
  unfolding values_of target_of scalar_arg assignee_arg duplicate_arg milestone_arg set_args
      object_with_id optional_ref_at bzr_invocation show_ℕ ◌>>=◌
  build_update event = do
    values ← lift (values_of event)
    target ← lift (target_of event)
    bug_id ← resolve setup target
    reply ← read_as setup event.actor ("bug" ∷ "view" ∷ []) (show_ℕ bug_id ∷ []) not_found_codes
    observed ←
        lift (
          or_raise (object_with_id reply)
            (replay_error "cannot read the bug to compute the update"))
    assignee ← assignee_arg (get "assignee" values)
    duplicate_ref ← lift (optional_ref_at values "duplicate_of")
    duplicate ← duplicate_arg duplicate_ref
    milestone ← lift (optional_ref_at values "milestone")
    groups ← set_args values observed "groups" "--groups"
    cc ← set_args values observed "cc" "--cc"
    keywords ← set_args values observed "keywords" "--keywords"
    depends ← set_args values observed "depends_on" "--depends-on"
    blocks ← set_args values observed "blocks" "--blocks"
    let texts =
        scalar_arg "summary" "--summary" values
        ++ₗ (scalar_arg "status" "--status" values
            ++ₗ scalar_arg "resolution" "--resolution" values)
    let target_milestone = milestone_arg milestone
    let hours =
        scalar_arg "estimated_hours" "--estimated-time" values
        ++ₗ scalar_arg "remaining_hours" "--remaining-time" values
    let lists = groups ++ₗ (cc ++ₗ (keywords ++ₗ (depends ++ₗ blocks)))
    let args = texts ++ₗ (assignee ++ₗ (duplicate ++ₗ (target_milestone ++ₗ (hours ++ₗ lists))))
    pure (bzr_invocation "bug update" ("bug" ∷ "update" ∷ args) (show_ℕ bug_id ∷ []))

  -- the comparison of a scalar with its key of the reply, and that of a list field
  compare_field : Fields → String → Value → Option String → Exec (Context W) Bool
  unfolding project project_ref get_or_null eq_value refs_at elements same_set for_each ◌>>=◌
  compare_field bug key v (some name) = do
    declared ← project key v
    pure (eq_value declared (get_or_null name bug))
  compare_field bug key v none =
      if is_set_field key
      then (do
        rs ← lift (refs_at (field key v end) key)
        declared ← for_each (project_ref key) rs
        seen ← lift (elements (get_or_null key bug))
        lift (same_set declared seen))
      else pure true

  -- one declared field agrees with the reply
  field_agrees : Fields → String → Value → Exec (Context W) Bool
  unfolding compare_field
  field_agrees bug key v = compare_field bug key v (view_key key)

  -- the loop of `BugUpdateHandler.reconcile` over the declared fields
  unfoldable pub all_agree : Fields → Fields → Exec (Context W) Bool
  unfolding field_agrees ◌>>=◌
  all_agree bug end = pure true
  all_agree bug (field key v values) =
      if is_unreadable key v
      then pure false
      else (do same ← field_agrees bug key v; if same then all_agree bug values else pure false)

  judge_update : Fields → Value → Option Fields → Exec (Context W) Reconciliation
  unfolding all_agree ◌>>=◌
  judge_update values reply none = pure (retry_with null)
  judge_update values reply (some bug) = do
    same ← all_agree bug values
    pure (if same then advance_with reply else retry_with reply)

  -- `BugUpdateHandler.reconcile`
  unfoldable pub reconcile_update : PlannedEvent → Exec (Context W) Reconciliation
  unfolding values_of target_of object_with_id judge_update show_ℕ ◌>>=◌
  reconcile_update event = do
    values ← lift (values_of event)
    target ← lift (target_of event)
    bug_id ← resolve setup target
    reply ← read_bug setup event.actor (show_ℕ bug_id ∷ [])
    judge_update values reply (object_with_id reply)
