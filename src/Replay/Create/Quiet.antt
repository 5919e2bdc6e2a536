-- ===== src/Replay/Create/Quiet.antt =====
-- The two passes over `bug.create` send no mutation.
use bzr_live.Common.{Option, none, some}
use bzr_live.Value.{Reference}
use bzr_live.Scenario.{PlannedEvent}
use bzr_live.Replay.Context.{Setup}
use bzr_live.Replay.Context.Quiet.{Quiet, quiet_rules}
use bzr_live.Replay.Create

module _ {W : Type 0} (setup : Setup W) where
  optional_email-Quiet : (r : Option Reference) → Quiet (Create.optional_email setup r)
  unfolding Create.optional_email
  optional_email-Quiet none = search quiet_rules
  optional_email-Quiet (some actor) = search quiet_rules

  pub build_create-Quiet : (event : PlannedEvent) → Quiet (Create.build_create setup event)
  unfolding Create.build_create
  build_create-Quiet event = search (quiet_rules, optional_email-Quiet) depth 60 fits 4000

  pub reconcile_create-Quiet : (event : PlannedEvent) → Quiet (Create.reconcile_create setup event)
  unfolding Create.reconcile_create
  reconcile_create-Quiet event = search quiet_rules depth 20
