-- ===== src/Replay/Handlers.antt =====
-- replay/actions.py: `HANDLERS`, by the action of the event. The last handler of each table is that
-- of `attachment.update`.
pub mod Quiet
use bzr_live.Common.{ℕ, String, List, [], Result, ok, ◌==ₛ◌, if◌then◌else◌}
use bzr_live.Value.{Value}
use bzr_live.Exec.{Exec}
use bzr_live.Scenario.{PlannedEvent}
use bzr_live.Replay.Appends.{
  attached_ids, build_comment, reconcile_comment, build_attach, reconcile_attach, build_worktime,
  reconcile_worktime,
}
use bzr_live.Replay.Context.{Setup, Context}
use bzr_live.Replay.Create.{created_ids, build_create, reconcile_create}
use bzr_live.Replay.Invocation.{Invocation, Reconciliation}
use bzr_live.Replay.Sets.{
  build_custom_field, reconcile_custom_field, build_flag, reconcile_flag, build_attachment,
  reconcile_attachment,
}
use bzr_live.Replay.Update.{build_update, reconcile_update}

-- `resolved_ids`
unfoldable pub resolved_ids : PlannedEvent → Value → Result (List (String × ℕ))
unfolding created_ids attached_ids
resolved_ids event output =
    if event.action ==ₛ "bug.create"
    then created_ids event output
    else (if event.action ==ₛ "bug.attach" then attached_ids event output else ok [])

module _ {W : Type 0} (setup : Setup W) where
  -- `build`
  unfoldable pub build : PlannedEvent → Exec (Context W) Invocation
  unfolding build_create build_update build_comment build_attach build_worktime build_custom_field
      build_flag build_attachment
  build event =
      if event.action ==ₛ "bug.create"
      then build_create setup event
      else (if event.action ==ₛ "bug.update"
          then build_update setup event
          else (if event.action ==ₛ "bug.comment"
              then build_comment setup event
              else (if event.action ==ₛ "bug.attach"
                  then build_attach setup event
                  else (if event.action ==ₛ "bug.worktime"
                      then build_worktime setup event
                      else (if event.action ==ₛ "bug.custom-field-set"
                          then build_custom_field setup event
                          else (if event.action ==ₛ "bug.flag"
                              then build_flag setup event
                              else build_attachment setup event))))))

  -- `reconcile`
  unfoldable pub reconcile : PlannedEvent → Exec (Context W) Reconciliation
  unfolding reconcile_create reconcile_update reconcile_comment reconcile_attach reconcile_worktime
      reconcile_custom_field reconcile_flag reconcile_attachment
  reconcile event =
      if event.action ==ₛ "bug.create"
      then reconcile_create setup event
      else (if event.action ==ₛ "bug.update"
          then reconcile_update setup event
          else (if event.action ==ₛ "bug.comment"
              then reconcile_comment setup event
              else (if event.action ==ₛ "bug.attach"
                  then reconcile_attach setup event
                  else (if event.action ==ₛ "bug.worktime"
                      then reconcile_worktime setup event
                      else (if event.action ==ₛ "bug.custom-field-set"
                          then reconcile_custom_field setup event
                          else (if event.action ==ₛ "bug.flag"
                              then reconcile_flag setup event
                              else reconcile_attachment setup event))))))
