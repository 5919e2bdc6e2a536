-- ===== src/Replay/Engine.antt =====
-- replay/engine.py: `class ReplayEngine`. A method acts on the context and the journal store of a
-- run. The lines that it prints are the report that it returns.
pub mod Sends
pub mod Report
pub mod WriteAhead
pub mod Resumed
use bzr_live.Common.{
  ℕ, ◌+◌, ℤ, pos, negsuc, String, Bool, true, false, List, [], ◌∷◌, map, Option, none, some, any_of,
  mem_text, not, ◌==ₛ◌, if◌then◌else◌, Error, replay_error, provision_error, Result, ok, err,
}
use bzr_live.Value.{Value, null}
use bzr_live.Exec.{Exec, pure, raise, lift, gets, ◌>>=◌, ◌>>◌}
use bzr_live.Journal.Directory.{JournalStore, StoredFile, read}
use bzr_live.Journal.FileName.{parse_attempt_file}
use bzr_live.Journal.Record.{
  NextAction, advance, reconcile, retry, stop, InFlightRecord, CompletedRecord, Record, in_flight,
  completed, identity_of,
}
use bzr_live.Journal.Store
use bzr_live.Scenario.{PlannedEvent}
use bzr_live.Replay.Context.{Setup, Context, actor_key, adopt, invoke, read_bug}
use bzr_live.Replay.Handlers
use bzr_live.Replay.Invocation.{Invocation, Reconciliation}
use bzr_live.Replay.Supported.{check_supported}
use bzr_live.Replay.Values.{values_of, text_at}

pub record Run (W : Type 0) : Type 0 where
  pub context : Context W
  pub store : JournalStore

-- the status that a report names
pub data Status : Type 0 where
  executed reconciled resumed skipped : Status

abbrev pub Latest : Type 0
Latest = List (PlannedEvent × Option Record)

-- `_RECONCILED_EXIT`
abbrev pub reconciled_exit : ℤ
reconciled_exit = negsuc 0

-- what `except (ProvisionError, ReplayError)` catches
abbrev pub catches : Error → Bool
catches (replay_error m) = true
catches (provision_error m) = true
catches _ = false

-- `try` with that handler: an error that is caught becomes a value
caught : {A : Type 0} → Result A → Result (Result A)
caught (ok a) = ok (ok a)
caught (err e) = if catches e then ok (err e) else err e

unfoldable pub attempt_to : {S A : Type 0} → Exec S A → Exec S (Result A)
unfolding caught
attempt_to m s = let (r, s') = m s in (caught r, s')

module _ {W : Type 0} where
  unfoldable pub on_context : {A : Type 0} → Exec (Context W) A → Exec (Run W) A
  on_context m s = let (r, c) = m s.context in (r, record s { context = c })

  stored : Run W → Result JournalStore → Result (Unit {0}) × Run W
  stored s (ok store) = (ok tt, record s { store = store })
  stored s (err e) = (err e, s)

  -- a method of the store
  unfoldable pub on_store : (JournalStore → Result JournalStore) → Exec (Run W) (Unit {0})
  unfolding stored
  on_store m s = stored s (m s.store)

  -- `known_secrets`
  abbrev pub known_secrets : Run W → List String
  known_secrets s = map (λ e. e.1) s.context.keys_seen

module _ {W : Type 0} (setup : Setup W) where
  abbrev pub digest : String
  digest = setup.scenario.digest

  -- the seven fields that both records of an attempt begin with
  abbrev pub identity_for : PlannedEvent → ℕ → InFlightRecord
  identity_for event attempt = record {
    scenario_digest = digest;
    event = event.name;
    attempt = attempt;
    actor = event.actor;
    action_class = event.action_class;
    expected_postcondition = event.expected_postcondition;
    reconciliation_marker = event.reconciliation_marker;
  }

  -- `_write_completed`
  unfoldable pub write_completed :
      PlannedEvent
      → ℕ
      → Invocation
      → Value
      → ℤ
      → List (String × ℕ)
      → NextAction
      → Exec (Run W) (Unit {0})
  unfolding on_store Store.replace_completed
  write_completed event attempt invocation output exit_status ids next s =
      on_store
        (Store.replace_completed
          (record {
            identity = identity_for event attempt;
            invocation = invocation.metadata;
            handler_output = output;
            exit_status = exit_status;
            resolved_ids = ids;
            next_safe_action = next;
          })
          (known_secrets s))
        s

  -- `store.write_in_flight(…)` of `_execute`
  unfoldable pub begin_attempt : PlannedEvent → ℕ → Exec (Run W) (Unit {0})
  unfolding on_store Store.write_in_flight
  begin_attempt event attempt s =
      on_store (Store.write_in_flight (identity_for event attempt) (known_secrets s)) s

  -- the invocation that was supplied, or one that is built again
  rebuilt : PlannedEvent → Option Invocation → Exec (Run W) Invocation
  unfolding on_context Handlers.build
  rebuilt event (some invocation) = pure invocation
  rebuilt event none = on_context (Handlers.build setup event)

  adopt_when : NextAction → List (String × ℕ) → Exec (Run W) (Unit {0})
  unfolding on_context adopt
  adopt_when advance ids = on_context (adopt setup ids)
  adopt_when _ ids = pure tt

  -- `_settle`
  unfoldable pub settle : PlannedEvent → ℕ → Option Invocation → Exec (Run W) Reconciliation
  unfolding on_context Handlers.reconcile rebuilt write_completed adopt_when ◌>>=◌
  settle event attempt given = do
    result ← on_context (Handlers.reconcile setup event)
    invocation ← rebuilt event given
    write_completed event attempt invocation result.output reconciled_exit result.resolved_ids
        result.next_action
    adopt_when result.next_action result.resolved_ids
    pure result

  -- the `try` of `_execute`: the mutation, and the ids in its reply
  unfoldable pub send : PlannedEvent → Invocation → Exec (Context W) (Value × List (String × ℕ))
  unfolding invoke Handlers.resolved_ids ◌>>=◌
  send event invocation = do
    output ← invoke setup event.actor invocation
    ids ← lift (Handlers.resolved_ids event output)
    pure (output, ids)

  -- the end of `_execute` when the mutation failed and the event is settled
  after_failure : NextAction → Exec (Run W) Status
  after_failure advance = pure reconciled
  after_failure _ = raise (replay_error "event failed")

  -- the rest of `_execute` after the `try`
  conclude :
      PlannedEvent → ℕ → Invocation → Result (Value × List (String × ℕ)) → Exec (Run W) Status
  unfolding write_completed settle on_context adopt after_failure ◌>>=◌
  conclude event attempt invocation (ok (output, ids)) = do
    write_completed event attempt invocation output (pos 0) ids advance
    on_context (adopt setup ids)
    pure executed
  conclude event attempt invocation (err e) = do
    result ← settle event attempt (some invocation)
    after_failure result.next_action

  -- `_execute`
  unfoldable pub execute : PlannedEvent → ℕ → Exec (Run W) Status
  unfolding on_context actor_key Handlers.build begin_attempt attempt_to send conclude ◌>>=◌
  execute event attempt = do
    key ← on_context (actor_key setup event.actor)
    invocation ← on_context (Handlers.build setup event)
    begin_attempt event attempt
    outcome ← on_context (attempt_to (send event invocation))
    conclude event attempt invocation outcome

  -- an answer other than `None` about the alias refuses
  refuse_present : Value → Exec (Run W) (Unit {0})
  refuse_present null = pure tt
  refuse_present v = raise (replay_error "bug alias already exists in the fixture")

  -- `_require_absent`
  unfoldable pub require_absent : PlannedEvent → Exec (Run W) (Unit {0})
  unfolding values_of text_at on_context read_bug refuse_present ◌>>=◌
  require_absent event =
      if event.action ==ₛ "bug.create"
      then (do
        values ← lift (values_of event)
        alias ← lift (text_at values "server_alias")
        found ← on_context (read_bug setup event.actor (alias ∷ []))
        refuse_present found)
      else pure tt

  -- `_advance` on a completed record, by its next action
  resume_completed : PlannedEvent → CompletedRecord → NextAction → Exec (Run W) Status
  unfolding on_context adopt execute ◌>>=◌
  resume_completed event c advance = do on_context (adopt setup c.resolved_ids); pure skipped
  resume_completed event c stop =
      raise (replay_error "event was recorded as ambiguous by an earlier run")
  resume_completed event c retry = execute event (c.attempt + 1)
  resume_completed event c reconcile =
      raise (replay_error "event was recorded with an action that cannot be acted on")

  -- `_advance` on a record that is in flight, after it is settled
  resume_settled : PlannedEvent → InFlightRecord → NextAction → Exec (Run W) Status
  unfolding execute
  resume_settled event r advance = pure resumed
  resume_settled event r stop = raise (replay_error "event cannot be reconciled")
  resume_settled event r _ = execute event (r.attempt + 1)

  -- `_advance`
  unfoldable pub advance_event : PlannedEvent → Option Record → Exec (Run W) Status
  unfolding require_absent execute resume_completed settle resume_settled ◌>>=◌
  advance_event event none = do require_absent event; execute event 1
  advance_event event (some (completed c)) = resume_completed event c c.next_safe_action
  advance_event event (some (in_flight r)) = do
    result ← settle event r.attempt none
    resume_settled event r result.next_action

  -- `_run`, with the report
  unfoldable pub run : Latest → Exec (Run W) (List (Status × String))
  unfolding advance_event ◌>>=◌
  run [] = pure []
  run ((event, record_) ∷ rest) = do
    status ← advance_event event record_
    report ← run rest
    pure ((status, event.name) ∷ report)
