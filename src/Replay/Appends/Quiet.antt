-- ===== src/Replay/Appends/Quiet.antt =====
-- The two passes over a comment, an attachment and worked time send no mutation.
use bzr_live.Common.{ℕ, String, List, Option}
use bzr_live.Scenario.{PlannedEvent}
use bzr_live.Replay.Context.{Setup}
use bzr_live.Replay.Context.Quiet.{Quiet, quiet_rules}
use bzr_live.Replay.Appends

module _ {W : Type 0} (setup : Setup W) where
  reconcile_append-Quiet :
      (event : PlannedEvent) (bug_id : ℕ) (args : List String) (name : String) (key : Option String)
      → Quiet (Appends.reconcile_append setup event bug_id args name key)
  unfolding Appends.reconcile_append
  reconcile_append-Quiet event bug_id args name key = search quiet_rules depth 20

  pub build_comment-Quiet : (event : PlannedEvent) → Quiet (Appends.build_comment setup event)
  unfolding Appends.build_comment
  build_comment-Quiet event = search quiet_rules depth 30

  pub reconcile_comment-Quiet :
      (event : PlannedEvent) → Quiet (Appends.reconcile_comment setup event)
  unfolding Appends.reconcile_comment
  reconcile_comment-Quiet event = search (quiet_rules, reconcile_append-Quiet) depth 20

  pub build_attach-Quiet : (event : PlannedEvent) → Quiet (Appends.build_attach setup event)
  unfolding Appends.build_attach
  build_attach-Quiet event = search quiet_rules depth 30

  pub reconcile_attach-Quiet : (event : PlannedEvent) → Quiet (Appends.reconcile_attach setup event)
  unfolding Appends.reconcile_attach
  reconcile_attach-Quiet event = search (quiet_rules, reconcile_append-Quiet) depth 20

  pub build_worktime-Quiet : (event : PlannedEvent) → Quiet (Appends.build_worktime setup event)
  unfolding Appends.build_worktime
  build_worktime-Quiet event = search quiet_rules depth 30

  pub reconcile_worktime-Quiet :
      (event : PlannedEvent) → Quiet (Appends.reconcile_worktime setup event)
  unfolding Appends.reconcile_worktime
  reconcile_worktime-Quiet event = search (quiet_rules, reconcile_append-Quiet) depth 20
