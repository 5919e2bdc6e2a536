-- ===== src/Journal/Check.antt =====
-- scenario/journal.py: what the constructors of the records check, and `_validate_retry_transition`.
pub mod Again
use bzr_live.Common.{
  ℕ, String, Bool, true, false, ◌&&◌, ◌||◌, List, [], ◌∷◌, ◌==ₛ◌, ◌==◌, if◌then◌else◌, is_blank,
  mem_text, count_char, split_at, Option, none, some, Result, ok, err, invalid, ◌>>=◌, ◌>>◌,
  raise_if, require, or_raise,
}
use bzr_live.Value.{eq_ref, Value, str, Fields, has}
use bzr_live.Value.Equality.{count_fields, eq_value, eq_fields, as_obj}
use bzr_live.Value.Planned.{freeze_fields}
use bzr_live.Patterns.{is_name, is_sha256, is_environment_name}
use bzr_live.Journal.Json.{validate_json}
use bzr_live.Journal.Record.{
  eq_class, action_class_of, retry, Boundary, bzr, rest_custom_field, InvocationMetadata,
  InFlightRecord, CompletedRecord, Record, in_flight, completed, identity_of,
}
use bzr_live.Journal.Validate.{reference_kinds, check_reference, validate_reference, item}
use bzr_live.Journal.Postcondition.{validate_postcondition_values}

-- `set(postcondition) != {"action", "target", "values", "marker"}`
abbrev has_recovery_fields : Fields → Bool
has_recovery_fields p =
    count_fields p == 4 && has "action" p && has "target" p && has "values" p && has "marker" p

abbrev pub text_of : Value → Option String
text_of (str s) = some s
text_of _ = none

abbrev target_kind : String → String
target_kind action =
    if action ==ₛ "bug.attach" || action ==ₛ "attachment.update" then "attachment" else "bug"

-- `_validate_common`, from the shape of the postcondition on
check_postcondition : InFlightRecord → Result (Unit {0})
unfolding has item validate_reference validate_postcondition_values count_fields eq_value
check_postcondition r = do
  let p = r.expected_postcondition
  require (has_recovery_fields p) "must contain the exact recovery fields"
  action_value ← item p "action"
  action ← or_raise (text_of action_value) (invalid "unsupported action")
  expected ← or_raise (action_class_of action) (invalid "unsupported action")
  require (eq_class r.action_class expected) "does not match the expected action"
  target_value ← item p "target"
  target ← validate_reference target_value none
  require (target.kind ==ₛ target_kind action) "must reference the expected kind"
  values ← item p "values"
  fields ← or_raise (as_obj values) (invalid "must be an object")
  validate_postcondition_values action values
  marker ← item p "marker"
  require (eq_value marker (str r.reconciliation_marker)) "must match reconciliation marker"

-- `_validate_common`
pub validate_common : InFlightRecord → Result (Unit {0})
unfolding check_postcondition check_reference is_sha256 is_name
validate_common r = do
  require (is_sha256 r.scenario_digest) "must be a lowercase SHA-256"
  require (is_name r.event) "must be a slug"
  raise_if (r.attempt == 0) "must be a positive integer"
  actor ← check_reference r.actor (some "actor")
  raise_if (r.reconciliation_marker ==ₛ "") "must be a non-empty string"
  check_postcondition r

-- what `except (TypeError, ValueError)` of `_validate_planned` makes of an error
checked_planned : Result Fields → Result Fields
checked_planned (ok fs) = ok fs
checked_planned (err e) = err (invalid "contains an unsupported value")

-- `_validate_planned`, of a mapping
unfoldable pub validate_planned : Fields → Result Fields
unfolding freeze_fields checked_planned
validate_planned fs = checked_planned (freeze_fields fs)

-- `InFlightRecord.__post_init__`: the postcondition is frozen before it is checked
unfoldable pub init_in_flight : InFlightRecord → Result InFlightRecord
unfolding validate_common validate_planned
init_in_flight r = do
  frozen ← validate_planned r.expected_postcondition
  let r' = record r { expected_postcondition = frozen }
  validate_common r'
  ok r'

check_environment : List String → List String → Result (Unit {0})
unfolding is_environment_name
check_environment [] seen = ok tt
check_environment (name ∷ names) seen = do
  require (is_environment_name name) "invalid environment variable name"
  raise_if (mem_text name seen) "duplicate environment variable name"
  check_environment names (name ∷ seen)

-- `InvocationMetadata.__post_init__`
unfoldable pub init_invocation : InvocationMetadata → Result InvocationMetadata
unfolding check_environment
init_invocation m = do
  raise_if (is_blank m.operation) "must be a non-empty string"
  check_environment m.environment_names []
  ok m

-- the boundary that the action of a postcondition is sent to
expected_boundary : Value → Boundary
expected_boundary (str action) =
    if action ==ₛ "bug.custom-field-set" then rest_custom_field else bzr
expected_boundary _ = bzr

abbrev pub eq_boundary : Boundary → Boundary → Bool
eq_boundary bzr bzr = true
eq_boundary rest_custom_field rest_custom_field = true
eq_boundary _ _ = false

-- one round of the loop over `resolved_ids`
check_resolved_key : String → Result (Unit {0})
unfolding count_char split_at is_name
check_resolved_key key = do
  require (count_char b':' key == 1) "keys must be typed references"
  parts ← or_raise (split_at b':' key) (invalid "keys must be typed references")
  require (mem_text parts.0 reference_kinds && is_name parts.1) "invalid resolved identity"

pub check_resolved : List (String × ℕ) → Result (Unit {0})
unfolding check_resolved_key
check_resolved [] = ok tt
check_resolved ((key, value) ∷ ids) = do
  check_resolved_key key
  raise_if (value == 0) "must be a positive integer"
  check_resolved ids

-- `CompletedRecord.__post_init__`
unfoldable pub init_completed : CompletedRecord → Result CompletedRecord
unfolding validate_common validate_planned validate_json item expected_boundary check_resolved
init_completed c = do
  frozen ← validate_planned c.expected_postcondition
  output ← validate_json c.handler_output
  let r = record c.identity { expected_postcondition = frozen }
  validate_common r
  action ← item frozen "action"
  require (eq_boundary c.invocation.mutation_boundary (expected_boundary action))
      "does not match the expected action"
  check_resolved c.resolved_ids
  ok (record c { identity = r; handler_output = output })

-- the fields that `_validate_retry_transition` compares
abbrev pub same_identity : InFlightRecord → InFlightRecord → Bool
same_identity a b =
    a.scenario_digest ==ₛ b.scenario_digest
    && a.event ==ₛ b.event
    && eq_ref a.actor b.actor
    && eq_class a.action_class b.action_class
    && eq_fields a.expected_postcondition b.expected_postcondition
    && a.reconciliation_marker ==ₛ b.reconciliation_marker

abbrev pub permits_retry : Record → Bool
permits_retry (in_flight r) = false
permits_retry (completed c) = elim c.next_safe_action [ retry ↦ true | _ ↦ false ]

-- `_validate_retry_transition`
unfoldable pub validate_retry_transition : Record → Record → Result (Unit {0})
unfolding eq_value
validate_retry_transition prior current = do
  require (permits_retry prior) "prior attempt does not permit retry"
  require (same_identity (identity_of current) (identity_of prior))
      "retry identity does not match prior attempt"
