-- ===== src/Replay/Engine/Sends.antt =====
-- How many mutations the engine sends for an event.
use bzr_live.Common.{ℕ, ◌+◌, ℤ, String, List, Option, none, some, Result, ok, err, ◌≡◌, refl}
use bzr_live.Value.{Value, null}
use bzr_live.Exec.{Exec}
use bzr_live.Exec.Keeps.{Keeps, keeps_rules}
use bzr_live.Exec.Logs.{AddsOne, AddsOne-Keeps, AddsOne-after, AddsOne-before, IsOneMore}
use bzr_live.Journal.Directory.{JournalStore}
use bzr_live.Journal.Record.{
  NextAction, advance, reconcile, retry, stop, InFlightRecord, CompletedRecord, Record, in_flight,
  completed,
}
use bzr_live.Scenario.{PlannedEvent}
use bzr_live.Replay.Context.{Context, Setup}
use bzr_live.Replay.Context.Quiet.{Quiet, actor_key-Quiet, adopt-Quiet, read_bug-Quiet}
use bzr_live.Replay.Context.Sends.{invoke-AddsOne}
use bzr_live.Replay.Handlers.Quiet.{build-Quiet, reconcile-Quiet}
use bzr_live.Replay.Invocation.{Invocation}
use bzr_live.Replay.Engine

abbrev pub sent_of : {W : Type 0} → Engine.Run W → List Invocation
sent_of s = s.context.sent

-- `m` sends no mutation.
abbrev pub Silent : {W A : Type 0} → Exec (Engine.Run W) A → Type 0
Silent m = Keeps sent_of m

-- `m` sends one mutation at most.
abbrev pub SendsOne : {W A : Type 0} → Exec (Engine.Run W) A → Type 0
SendsOne m = AddsOne sent_of m

module _ {W : Type 0} where
  pub on_context-Silent :
      {A : Type 0} (m : Exec (Context W) A) → Quiet m → Silent (Engine.on_context m)
  unfolding Engine.on_context
  on_context-Silent m q = record { at = λ s. q.at s.context }

  on_context-SendsOne :
      {A : Type 0} (m : Exec (Context W) A)
      → AddsOne (λ c. c.sent) m
      → SendsOne (Engine.on_context m)
  unfolding Engine.on_context
  on_context-SendsOne m q = record { at = λ s. q.at s.context }

  attempt_to-AddsOne :
      {A : Type 0} (m : Exec (Context W) A)
      → AddsOne (λ c. c.sent) m
      → AddsOne (λ c. c.sent) (Engine.attempt_to m)
  unfolding Engine.attempt_to
  attempt_to-AddsOne m q = record { at = q.at }

  stored-sent :
      (s : Engine.Run W) (r : Result JournalStore) → sent_of (Engine.stored s r).1 ≡ sent_of s
  unfolding Engine.stored
  stored-sent s (ok store) = refl
  stored-sent s (err e) = refl

module _ {W : Type 0} (setup : Setup W) where
  write_completed-Silent :
      (event : PlannedEvent) (n : ℕ) (i : Invocation) (v : Value) (x : ℤ) (ids : List (String × ℕ))
      (next : NextAction)
      → Silent (Engine.write_completed setup event n i v x ids next)
  unfolding Engine.write_completed Engine.on_store
  write_completed-Silent event n i v x ids next = record { at = λ s. stored-sent s _ }

  pub begin_attempt-Silent :
      (event : PlannedEvent) (n : ℕ) → Silent (Engine.begin_attempt setup event n)
  unfolding Engine.begin_attempt Engine.on_store
  begin_attempt-Silent event n = record { at = λ s. stored-sent s _ }

  rebuilt-Silent :
      (event : PlannedEvent) (given : Option Invocation) → Silent (Engine.rebuilt setup event given)
  unfolding Engine.rebuilt
  rebuilt-Silent event (some i) = search keeps_rules
  rebuilt-Silent event none = on_context-Silent _ (build-Quiet setup event)

  adopt_when-Silent :
      (next : NextAction) (ids : List (String × ℕ)) → Silent (Engine.adopt_when setup next ids)
  unfolding Engine.adopt_when
  adopt_when-Silent advance ids = on_context-Silent _ (adopt-Quiet setup ids)
  adopt_when-Silent retry ids = search keeps_rules
  adopt_when-Silent stop ids = search keeps_rules
  adopt_when-Silent reconcile ids = search keeps_rules

  pub settle-Silent :
      (event : PlannedEvent) (n : ℕ) (given : Option Invocation)
      → Silent (Engine.settle setup event n given)
  unfolding Engine.settle
  settle-Silent event n given =
      search
        (
          keeps_rules, on_context-Silent, reconcile-Quiet, rebuilt-Silent, write_completed-Silent,
          adopt_when-Silent,
        )
        depth 12

  refuse_present-Silent : (v : Value) → Silent (Engine.refuse_present setup v)
  unfolding Engine.refuse_present
  refuse_present-Silent null = search keeps_rules
  refuse_present-Silent v = search keeps_rules

  pub require_absent-Silent : (event : PlannedEvent) → Silent (Engine.require_absent setup event)
  unfolding Engine.require_absent
  require_absent-Silent event =
      search (keeps_rules, on_context-Silent, read_bug-Quiet, refuse_present-Silent) depth 12

  send-AddsOne :
      (event : PlannedEvent) (i : Invocation) → AddsOne (λ c. c.sent) (Engine.send setup event i)
  unfolding Engine.send
  send-AddsOne event i = search (AddsOne-before, invoke-AddsOne, keeps_rules)

  after_failure-Silent : (next : NextAction) → Silent (Engine.after_failure setup next)
  unfolding Engine.after_failure
  after_failure-Silent advance = search keeps_rules
  after_failure-Silent retry = search keeps_rules
  after_failure-Silent stop = search keeps_rules
  after_failure-Silent reconcile = search keeps_rules

  conclude-Silent :
      (event : PlannedEvent) (n : ℕ) (i : Invocation) (r : Result (Value × List (String × ℕ)))
      → Silent (Engine.conclude setup event n i r)
  unfolding Engine.conclude
  conclude-Silent event n i (ok (output, ids)) =
      search (keeps_rules, on_context-Silent, write_completed-Silent, adopt-Quiet) depth 12
  conclude-Silent event n i (err e) =
      search (keeps_rules, settle-Silent, after_failure-Silent) depth 12

  pub execute-SendsOne : (event : PlannedEvent) (n : ℕ) → SendsOne (Engine.execute setup event n)
  unfolding Engine.execute
  execute-SendsOne event n =
      search
        (
          AddsOne-after, AddsOne-before, on_context-Silent, on_context-SendsOne, attempt_to-AddsOne,
          actor_key-Quiet, build-Quiet, begin_attempt-Silent, send-AddsOne, conclude-Silent,
        )
        depth 12

  resume_completed-SendsOne :
      (event : PlannedEvent) (c : CompletedRecord) (next : NextAction)
      → SendsOne (Engine.resume_completed setup event c next)
  unfolding Engine.resume_completed
  resume_completed-SendsOne event c advance =
      AddsOne-Keeps (search (keeps_rules, on_context-Silent, adopt-Quiet))
  resume_completed-SendsOne event c stop = AddsOne-Keeps (search keeps_rules)
  resume_completed-SendsOne event c retry = execute-SendsOne event (c.attempt + 1)
  resume_completed-SendsOne event c reconcile = AddsOne-Keeps (search keeps_rules)

  resume_settled-SendsOne :
      (event : PlannedEvent) (r : InFlightRecord) (next : NextAction)
      → SendsOne (Engine.resume_settled setup event r next)
  unfolding Engine.resume_settled
  resume_settled-SendsOne event r advance = AddsOne-Keeps (search keeps_rules)
  resume_settled-SendsOne event r stop = AddsOne-Keeps (search keeps_rules)
  resume_settled-SendsOne event r retry = execute-SendsOne event (r.attempt + 1)
  resume_settled-SendsOne event r reconcile = execute-SendsOne event (r.attempt + 1)

  pub advance_event-SendsOne :
      (event : PlannedEvent) (found : Option Record)
      → SendsOne (Engine.advance_event setup event found)
  unfolding Engine.advance_event
  advance_event-SendsOne event none =
      search (AddsOne-after, require_absent-Silent, execute-SendsOne)
  advance_event-SendsOne event (some (completed c)) =
      resume_completed-SendsOne event c c.next_safe_action
  advance_event-SendsOne event (some (in_flight r)) =
      search (AddsOne-after, settle-Silent, resume_settled-SendsOne)

  -- One step of the engine over an event, whatever the journal holds of it and whether the step
  -- returns or raises, leaves the log of sent mutations as it was or adds one entry at its end.
  pub advance_event-sends :
      (event : PlannedEvent) (found : Option Record) (s : Engine.Run W)
      → IsOneMore s.context.sent (Engine.advance_event setup event found s).1.context.sent
  advance_event-sends event found s = (advance_event-SendsOne event found).at s
