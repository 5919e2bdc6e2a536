-- ===== src/Replay/Update/Quiet.antt =====
-- The two passes over `bug.update` send no mutation.
use bzr_live.Common.{String, Option, none, some, false}
use bzr_live.Value.{Reference, Value, null, ref, Fields, end, field}
use bzr_live.Exec.Keeps.{Keeps-if, Keeps-pure, Keeps-bind}
use bzr_live.Scenario.{PlannedEvent}
use bzr_live.Replay.Context.{Setup}
use bzr_live.Replay.Context.Quiet.{Quiet, quiet_rules}
use bzr_live.Replay.Update

module _ {W : Type 0} (setup : Setup W) where
  project_ref-Quiet : (key : String) (r : Reference) → Quiet (Update.project_ref setup key r)
  unfolding Update.project_ref
  project_ref-Quiet key r = search quiet_rules depth 20

  project-Quiet : (key : String) (v : Value) → Quiet (Update.project setup key v)
  unfolding Update.project
  project-Quiet key (ref r) = project_ref-Quiet key r
  project-Quiet key v = search quiet_rules

  assignee_arg-Quiet : (v : Option Value) → Quiet (Update.assignee_arg setup v)
  unfolding Update.assignee_arg
  assignee_arg-Quiet none = search quiet_rules
  assignee_arg-Quiet (some (ref r)) = search quiet_rules
  assignee_arg-Quiet (some null) = search quiet_rules
  assignee_arg-Quiet (some v) = search quiet_rules

  duplicate_arg-Quiet : (r : Option Reference) → Quiet (Update.duplicate_arg setup r)
  unfolding Update.duplicate_arg
  duplicate_arg-Quiet none = search quiet_rules
  duplicate_arg-Quiet (some r) = search quiet_rules

  set_args-Quiet :
      (values observed : Fields) (key flag : String)
      → Quiet (Update.set_args setup values observed key flag)
  unfolding Update.set_args
  set_args-Quiet values observed key flag = search (quiet_rules, project_ref-Quiet) depth 20

  pub build_update-Quiet : (event : PlannedEvent) → Quiet (Update.build_update setup event)
  unfolding Update.build_update
  build_update-Quiet event =
      search (quiet_rules, assignee_arg-Quiet, duplicate_arg-Quiet, set_args-Quiet) depth 60 fits
        4000

  compare_field-Quiet :
      (bug : Fields) (key : String) (v : Value) (name : Option String)
      → Quiet (Update.compare_field setup bug key v name)
  unfolding Update.compare_field
  compare_field-Quiet bug key v (some name) = search (quiet_rules, project-Quiet)
  compare_field-Quiet bug key v none = search (quiet_rules, project_ref-Quiet) depth 20

  field_agrees-Quiet :
      (bug : Fields) (key : String) (v : Value) → Quiet (Update.field_agrees setup bug key v)
  unfolding Update.field_agrees
  field_agrees-Quiet bug key v = compare_field-Quiet bug key v (Update.view_key key)

  all_agree-Quiet : (bug values : Fields) → Quiet (Update.all_agree setup bug values)
  unfolding Update.all_agree
  all_agree-Quiet bug end = search quiet_rules
  all_agree-Quiet bug (field key v values) =
      Keeps-if (Update.is_unreadable key v) _ _ (Keeps-pure false) (
        Keeps-bind (Update.field_agrees setup bug key v) _ (field_agrees-Quiet bug key v)
          (λ same. Keeps-if same _ _ (all_agree-Quiet bug values) (Keeps-pure false)))

  judge_update-Quiet :
      (values : Fields) (reply : Value) (found : Option Fields)
      → Quiet (Update.judge_update setup values reply found)
  unfolding Update.judge_update
  judge_update-Quiet values reply none = search quiet_rules
  judge_update-Quiet values reply (some bug) = search (quiet_rules, all_agree-Quiet)

  pub reconcile_update-Quiet : (event : PlannedEvent) → Quiet (Update.reconcile_update setup event)
  unfolding Update.reconcile_update
  reconcile_update-Quiet event = search (quiet_rules, judge_update-Quiet) depth 20
