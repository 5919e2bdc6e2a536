-- ===== src/Journal/Store.antt =====
-- scenario/journal.py: what `class JournalStore` writes. Each write leaves one more file, or one
-- other, in the directory; the temporary file that it goes through is gone at the end.
pub mod Redacted
pub mod Files
use bzr_live.Common.{
  ℕ, ◌+◌, String, Bool, true, ◌&&◌, List, [], ◌∷◌, ◌++◌, map, Option, none, some, ◌==ₛ◌, ◌==◌,
  if◌then◌else◌, any_of, Result, ok, err, invalid, os_error, ◌>>=◌, ◌>>◌, raise_if, require,
  or_raise, length, pos,
}
use bzr_live.Value.{Value, null, int, str, ref, tuple, Items, nil, cons, Fields, get}
use bzr_live.Value.Equality.{eq_value}
use bzr_live.Journal.Secrets.{secret_list, remove_secrets, contains_secret}
use bzr_live.Journal.Redaction.{redact_opaque}
use bzr_live.Journal.Record.{
  RecoveryClass, unique_create, idempotent_set, append, NextAction, advance, reconcile, retry, stop,
  Boundary, bzr, rest_custom_field, InFlightRecord, CompletedRecord, Record, in_flight, completed,
}
use bzr_live.Journal.Check.{
  init_in_flight, init_completed, init_invocation, same_identity, validate_retry_transition,
}
use bzr_live.Journal.FileName.{filename}
use bzr_live.Journal.Directory.{StoredFile, JournalStore, last, records, read_attempt}

class_text : RecoveryClass → String
class_text unique_create = "unique-create"
class_text idempotent_set = "idempotent-set"
class_text append = "append"

-- `postcondition[key]`, of a validated record
abbrev part : Fields → String → Value
part p key = elim (get key p) [ none ↦ null | some v ↦ v ]

-- `_common_structural_values`
common_structural : InFlightRecord → Items
unfolding class_text get
common_structural r =
    let p = r.expected_postcondition in
    cons (str r.scenario_digest) (
      cons (str r.event) (
        cons (int (pos r.attempt)) (
          cons (ref r.actor) (
            cons (str (class_text r.action_class)) (
              cons (part p "action") (
                cons (part p "target") (
                  cons (part p "values")
                    (cons (part p "marker") (cons (str r.reconciliation_marker) nil)))))))))

-- What `_write_temp` and the link or the replacement leave in the directory
abbrev pub fresh : Record → StoredFile
fresh r = record { regular = true; mode_0600 = true; owned = true; content = ok r }

has_file : String → List (String × StoredFile) → Bool
has_file name files = any_of (λ e. e.0 ==ₛ name) files

-- the checks on `record.attempt` in `write_in_flight`
check_attempt : InFlightRecord → List Record → Result (Unit {0})
unfolding validate_retry_transition
check_attempt r rs = do
  require (r.attempt == length rs + 1) "attempt must be consecutive"
  elim (last rs) [ none ↦ ok tt | some prior ↦ validate_retry_transition prior (in_flight r) ]

-- `write_in_flight`; `os.link` fails when the target exists
unfoldable pub write_in_flight : InFlightRecord → List String → JournalStore → Result JournalStore
unfolding init_in_flight secret_list contains_secret common_structural records check_attempt
    filename has_file
write_in_flight given known s = do
  require s.is_open "journal store is closed"
  r ← init_in_flight given
  raise_if (contains_secret (tuple (common_structural r)) (secret_list known))
      "known secret occurs in structural journal metadata"
  rs ← records r.event s
  check_attempt r rs
  let target = filename r.event r.attempt
  if has_file target s.files then err os_error else ok tt
  ok (record s { files = s.files ++ (target, fresh (in_flight r)) ∷ [] })

identity_values : CompletedRecord → Items
unfolding common_structural
identity_values c = common_structural c.identity

boundary_text : Boundary → String
boundary_text bzr = "bzr"
boundary_text rest_custom_field = "bugzilla-rest-custom-field"

action_text : NextAction → String
action_text advance = "advance"
action_text reconcile = "reconcile"
action_text retry = "retry"
action_text stop = "stop"

texts : List String → Items
texts [] = nil
texts (s ∷ ss) = cons (str s) (texts ss)

resolved_keys : List (String × ℕ) → Items
resolved_keys [] = nil
resolved_keys ((k, v) ∷ ids) = cons (str k) (resolved_keys ids)

-- `structural` of `replace_completed`; the numbers among the values hold no text
completed_structural : CompletedRecord → Items
unfolding identity_values boundary_text action_text texts resolved_keys
completed_structural c = cons (tuple (identity_values c)) (
    cons (str (boundary_text c.invocation.mutation_boundary)) (
      cons (str c.invocation.operation) (
        cons (tuple (texts c.invocation.environment_names)) (
          cons (tuple (resolved_keys c.resolved_ids))
            (cons (str (action_text c.next_safe_action)) nil)))))

-- `_redacted_completed`: both constructors check what they are given
unfoldable pub redacted_completed : CompletedRecord → List String → Result CompletedRecord
unfolding init_invocation init_completed redact_opaque remove_secrets
redacted_completed c secrets = do
  invocation ← init_invocation (record c.invocation {
    arguments = map (λ a. remove_secrets a secrets) c.invocation.arguments;
  })
  output ← redact_opaque c.handler_output secrets
  init_completed (record c { invocation = invocation; handler_output = output })

-- `isinstance(existing, InFlightRecord)`
abbrev pub as_in_flight : Option Record → Option InFlightRecord
as_in_flight (some (in_flight r)) = some r
as_in_flight _ = none

-- the comparison of the seven identity fields
abbrev pub same_record : InFlightRecord → InFlightRecord → Bool
same_record a b = same_identity a b && a.attempt == b.attempt

-- `os.replace`: the file of that name is another one from now on
unfoldable pub put_file :
    String → StoredFile → List (String × StoredFile) → List (String × StoredFile)
put_file name f [] = (name, f) ∷ []
put_file name f ((n, g) ∷ files) =
    if n ==ₛ name then (n, f) ∷ files else (n, g) ∷ put_file name f files

-- `replace_completed`
unfoldable pub replace_completed :
    CompletedRecord → List String → JournalStore → Result JournalStore
unfolding init_completed secret_list contains_secret completed_structural read_attempt eq_value
    redacted_completed filename put_file
replace_completed given known s = do
  require s.is_open "journal store is closed"
  c ← init_completed given
  raise_if (contains_secret (tuple (completed_structural c)) (secret_list known))
      "known secret occurs in structural journal metadata"
  found ← read_attempt c.event c.attempt s
  existing ← or_raise (as_in_flight found) (invalid "matching in-flight attempt is required")
  require (same_record c.identity existing) "completion identity does not match in-flight record"
  redacted ← redacted_completed c (secret_list known)
  ok (record s {
    files = put_file (filename c.event c.attempt) (fresh (completed redacted)) s.files;
  })
