-- ===== src/Replay/Context/Sends.antt =====
-- `invoke` of replay/context.py sends at most one mutation.
use bzr_live.Common.{ℕ, String, Option, none, some, refl, inr}
use bzr_live.Value.{Reference, Fields}
use bzr_live.Journal.Record.{bzr, rest_custom_field, Boundary}
use bzr_live.Exec.Logs.{AddsOne, AddsOne-after, AddsOne-before}
use bzr_live.Replay.Invocation.{Invocation}
use bzr_live.Replay.Context
use bzr_live.Replay.Context.Quiet.{Quiet, quiet_rules, on_world-Quiet}

ruleset sends_rules = (AddsOne-after, AddsOne-before, quiet_rules)

module _ {W : Type 0} (setup : Context.Setup W) where
  log_sent-AddsOne :
      (invocation : Invocation) → AddsOne (λ c. c.sent) (Context.log_sent setup invocation)
  unfolding Context.log_sent
  log_sent-AddsOne invocation = record { at = λ c. inr (invocation, refl) }

  put_fields-Quiet :
      (key : String) (target : Option (ℕ × Fields)) → Quiet (Context.put_fields setup key target)
  unfolding Context.put_fields
  put_fields-Quiet key none = search quiet_rules
  put_fields-Quiet key (some (bug_id, values)) = on_world-Quiet setup _

  send_rest-AddsOne :
      (actor : Reference) (invocation : Invocation)
      → AddsOne (λ c. c.sent) (Context.send_rest setup actor invocation)
  unfolding Context.send_rest
  send_rest-AddsOne actor invocation =
      search (sends_rules, log_sent-AddsOne, put_fields-Quiet) depth 10

  send_bzr-AddsOne :
      (actor : Reference) (invocation : Invocation)
      → AddsOne (λ c. c.sent) (Context.send_bzr setup actor invocation)
  unfolding Context.send_bzr
  send_bzr-AddsOne actor invocation =
      search (sends_rules, log_sent-AddsOne, on_world-Quiet) depth 10

  pub invoke-AddsOne :
      (actor : Reference) (invocation : Invocation)
      → AddsOne (λ c. c.sent) (Context.invoke setup actor invocation)
  unfolding Context.invoke
  invoke-AddsOne actor invocation = by_boundary invocation.metadata.mutation_boundary
    where
      by_boundary :
          (b : Boundary)
          → AddsOne
              (λ c. c.sent)
              (elim b [
                | rest_custom_field ↦ Context.send_rest setup actor invocation
                | bzr ↦ Context.send_bzr setup actor invocation
              ])
      by_boundary rest_custom_field = send_rest-AddsOne actor invocation
      by_boundary bzr = send_bzr-AddsOne actor invocation
