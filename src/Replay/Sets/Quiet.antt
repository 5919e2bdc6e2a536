-- ===== src/Replay/Sets/Quiet.antt =====
-- The two passes over custom fields, a flag and an attachment's fields send no mutation.
use bzr_live.Common.{String, Option, none, some}
use bzr_live.Value.{Reference, Value, Fields}
use bzr_live.Scenario.{PlannedEvent}
use bzr_live.Replay.Context.{Setup}
use bzr_live.Replay.Context.Quiet.{Quiet, quiet_rules}
use bzr_live.Replay.Sets

module _ {W : Type 0} (setup : Setup W) where
  pub build_custom_field-Quiet :
      (event : PlannedEvent) → Quiet (Sets.build_custom_field setup event)
  unfolding Sets.build_custom_field
  build_custom_field-Quiet event = search quiet_rules depth 30

  judge_custom_field-Quiet :
      (values : Fields) (reply : Value) (found : Option Fields)
      → Quiet (Sets.judge_custom_field setup values reply found)
  unfolding Sets.judge_custom_field
  judge_custom_field-Quiet values reply none = search quiet_rules
  judge_custom_field-Quiet values reply (some found) = search quiet_rules

  pub reconcile_custom_field-Quiet :
      (event : PlannedEvent) → Quiet (Sets.reconcile_custom_field setup event)
  unfolding Sets.reconcile_custom_field
  reconcile_custom_field-Quiet event = search (quiet_rules, judge_custom_field-Quiet) depth 30

  optional_email-Quiet : (r : Option Reference) → Quiet (Sets.optional_email setup r)
  unfolding Sets.optional_email
  optional_email-Quiet none = search quiet_rules
  optional_email-Quiet (some actor) = search quiet_rules

  pub build_flag-Quiet : (event : PlannedEvent) → Quiet (Sets.build_flag setup event)
  unfolding Sets.build_flag
  build_flag-Quiet event = search (quiet_rules, optional_email-Quiet) depth 30

  requestee_for-Quiet :
      (status : String) (r : Option Reference) → Quiet (Sets.requestee_for setup status r)
  unfolding Sets.requestee_for
  requestee_for-Quiet status r = search (quiet_rules, optional_email-Quiet)

  judge_flag-Quiet :
      (values : Fields) (reply : Value) (found : Option Fields)
      → Quiet (Sets.judge_flag setup values reply found)
  unfolding Sets.judge_flag
  judge_flag-Quiet values reply none = search quiet_rules
  judge_flag-Quiet values reply (some found) = search (quiet_rules, requestee_for-Quiet) depth 20

  pub reconcile_flag-Quiet : (event : PlannedEvent) → Quiet (Sets.reconcile_flag setup event)
  unfolding Sets.reconcile_flag
  reconcile_flag-Quiet event = search (quiet_rules, judge_flag-Quiet) depth 30

  pub build_attachment-Quiet : (event : PlannedEvent) → Quiet (Sets.build_attachment setup event)
  unfolding Sets.build_attachment
  build_attachment-Quiet event = search quiet_rules depth 30

  pub reconcile_attachment-Quiet :
      (event : PlannedEvent) → Quiet (Sets.reconcile_attachment setup event)
  unfolding Sets.reconcile_attachment
  reconcile_attachment-Quiet event = search quiet_rules depth 30
