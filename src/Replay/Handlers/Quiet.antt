-- ===== src/Replay/Handlers/Quiet.antt =====
-- Building an invocation and reconciling an event send no mutation.
use bzr_live.Scenario.{PlannedEvent}
use bzr_live.Replay.Context.{Setup}
use bzr_live.Replay.Context.Quiet.{Quiet, quiet_rules}
use bzr_live.Replay.Create.Quiet.{build_create-Quiet, reconcile_create-Quiet}
use bzr_live.Replay.Appends.Quiet.{
  build_comment-Quiet, reconcile_comment-Quiet, build_attach-Quiet, reconcile_attach-Quiet,
  build_worktime-Quiet, reconcile_worktime-Quiet,
}
use bzr_live.Replay.Update.Quiet.{build_update-Quiet, reconcile_update-Quiet}
use bzr_live.Replay.Sets.Quiet.{
  build_custom_field-Quiet, reconcile_custom_field-Quiet, build_flag-Quiet, reconcile_flag-Quiet,
  build_attachment-Quiet, reconcile_attachment-Quiet,
}
use bzr_live.Replay.Handlers

module _ {W : Type 0} (setup : Setup W) where
  pub build-Quiet : (event : PlannedEvent) → Quiet (Handlers.build setup event)
  unfolding Handlers.build
  build-Quiet event =
      search
        (
          quiet_rules, build_create-Quiet, build_update-Quiet, build_comment-Quiet,
          build_attach-Quiet, build_worktime-Quiet, build_custom_field-Quiet, build_flag-Quiet,
          build_attachment-Quiet,
        )
        depth 20

  pub reconcile-Quiet : (event : PlannedEvent) → Quiet (Handlers.reconcile setup event)
  unfolding Handlers.reconcile
  reconcile-Quiet event =
      search
        (
          quiet_rules, reconcile_create-Quiet, reconcile_update-Quiet, reconcile_comment-Quiet,
          reconcile_attach-Quiet, reconcile_worktime-Quiet, reconcile_custom_field-Quiet,
          reconcile_flag-Quiet, reconcile_attachment-Quiet,
        )
        depth 20
