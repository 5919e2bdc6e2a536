-- ===== src/Journal/Check/Again.antt =====
-- The constructor of a record, run on a record that it has built, as the two writes of the store do.
use bzr_live.Common.{
  Result, ok, err, ◌≡◌, ok-injective, >>=-eq-ok, ◌>>◌, OnOk, OnOk-ok, OnOk-bind, refl, raise_if,
  require, is_blank, [],
}
use bzr_live.Value.{Fields}
use bzr_live.Journal.Json.{validate_json}
use bzr_live.Journal.Validate.{item}
use mathlib.Core.Path.{subst}
use bzr_live.Value.Planned.{freeze_fields, freeze_fields_idem}
use bzr_live.Journal.Check
use bzr_live.Journal.Record.{InFlightRecord, InvocationMetadata, CompletedRecord}

checked_planned-ok : (r : Result Fields) {fs : Fields} → Check.checked_planned r ≡ ok fs → r ≡ ok fs
unfolding Check.checked_planned
checked_planned-ok (ok fs) h = h
checked_planned-ok (err e) h = cc

-- what is frozen passes the check again
validate_planned_idem :
    (fs gs : Fields) → Check.validate_planned fs ≡ ok gs → Check.validate_planned gs ≡ ok gs
unfolding Check.validate_planned Check.checked_planned
validate_planned_idem fs gs h =
    rw (freeze_fields_idem fs gs (checked_planned-ok (freeze_fields fs) h)) refl

-- What the constructor of an in-flight record has built passes it again and is left as it is.
pub init_in_flight_idem :
    (given r : InFlightRecord) → Check.init_in_flight given ≡ ok r → Check.init_in_flight r ≡ ok r
unfolding Check.init_in_flight
init_in_flight_idem given r h =
    let (frozen, p, q) =
      >>=-eq-ok (Check.validate_planned given.expected_postcondition)
        (λ frozen.
          Check.validate_common (record given { expected_postcondition = frozen })
          >> ok (record given { expected_postcondition = frozen }))
        h in
    let checked : InFlightRecord = record given { expected_postcondition = frozen } in
    let (_, p', q') = >>=-eq-ok (Check.validate_common checked) (λ _. ok checked) q in
    subst (λ x. Check.init_in_flight x ≡ ok x) (ok-injective q')
      (rw (validate_planned_idem given.expected_postcondition frozen p, p'))

pub init_invocation-same :
    (m : InvocationMetadata) → OnOk (λ m'. m'.arguments ≡ m.arguments) (Check.init_invocation m)
unfolding Check.init_invocation
init_invocation-same m =
    OnOk-bind (raise_if (is_blank m.operation) "must be a non-empty string") _
      (λ _ _. OnOk-bind (Check.check_environment m.environment_names []) _ (λ _ _. OnOk-ok m refl))

pub init_completed-same :
    (c : CompletedRecord)
    → OnOk
        (λ c'.
          (c'.invocation.arguments ≡ c.invocation.arguments)
          × (c'.event ≡ c.event)
          × (c'.attempt ≡ c.attempt)
          × (validate_json c.handler_output ≡ ok c'.handler_output))
        (Check.init_completed c)
unfolding Check.init_completed
init_completed-same c = OnOk-bind (Check.validate_planned c.expected_postcondition) _ (λ frozen _.
    OnOk-bind (validate_json c.handler_output) _ (λ output out.
      OnOk-bind (Check.validate_common (record c.identity { expected_postcondition = frozen })) _
        (λ _ _. OnOk-bind (item frozen "action") _ (λ action _.
          OnOk-bind
            (require
              (Check.eq_boundary c.invocation.mutation_boundary (Check.expected_boundary action))
              "does not match the expected action")
            _
            (λ _ _.
              OnOk-bind (Check.check_resolved c.resolved_ids) _
                (λ _ _. OnOk-ok _ (refl, refl, refl, out)))))))
