-- ===== src/Journal/Record.antt =====
-- scenario/journal.py: the records of the journal. Their fields are typed, so the `isinstance`
-- checks of the constructors have no counterpart; an attempt is a natural number, and 0 stands for
-- every attempt that is not positive.
use bzr_live.Common.{
  ℕ, ℤ, String, Bool, true, false, List, Option, none, some, ◌==ₛ◌, if◌then◌else◌,
}
use bzr_live.Value.{Reference, Value, Fields}

pub data RecoveryClass : Type 0 where
  unique_create idempotent_set append : RecoveryClass

abbrev pub eq_class : RecoveryClass → RecoveryClass → Bool
eq_class unique_create unique_create = true
eq_class idempotent_set idempotent_set = true
eq_class append append = true
eq_class _ _ = false

-- `_ACTION_CLASSES`
abbrev pub action_class_of : String → Option RecoveryClass
action_class_of action =
    if action ==ₛ "bug.create"
    then some unique_create
    else (if action ==ₛ "bug.update"
        then some idempotent_set
        else (if action ==ₛ "bug.comment"
            then some append
            else (if action ==ₛ "bug.attach"
                then some append
                else (if action ==ₛ "bug.worktime"
                    then some append
                    else (if action ==ₛ "bug.custom-field-set"
                        then some idempotent_set
                        else (if action ==ₛ "bug.flag"
                            then some idempotent_set
                            else (if action ==ₛ "attachment.update"
                                then some idempotent_set
                                else none)))))))

-- `next_safe_action`, of `_NEXT_ACTIONS`
pub data NextAction : Type 0 where
  advance reconcile retry stop : NextAction

-- `mutation_boundary`, of `_BOUNDARIES`
pub data Boundary : Type 0 where
  bzr rest_custom_field : Boundary

pub record InvocationMetadata : Type 0 where
  pub mutation_boundary : Boundary
  pub operation : String
  pub arguments : List String
  pub environment_names : List String

pub record InFlightRecord : Type 0 where
  pub scenario_digest : String
  pub event : String
  pub attempt : ℕ
  pub actor : Reference
  pub action_class : RecoveryClass
  pub expected_postcondition : Fields
  pub reconciliation_marker : String

-- The seven fields of an in-flight record come first in a completed one.
pub record CompletedRecord : Type 0 where
  pub identity : InFlightRecord
  pub open identity use *
  pub invocation : InvocationMetadata
  pub handler_output : Value
  pub exit_status : ℤ
  pub resolved_ids : List (String × ℕ)
  pub next_safe_action : NextAction

pub data Record : Type 0 where
  in_flight : InFlightRecord → Record
  completed : CompletedRecord → Record

-- The fields that both kinds of record have.
abbrev pub identity_of : Record → InFlightRecord
identity_of (in_flight r) = r
identity_of (completed r) = r.identity
