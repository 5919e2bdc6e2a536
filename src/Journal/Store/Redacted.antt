-- ===== src/Journal/Store/Redacted.antt =====
-- What a completion writes of its invocation and its output.
use bzr_live.Common.{
  true, ◌>>=◌, >>=-eq-ok, String, false, List, [], ◌∷◌, map, Option, none, some, ok, ◌≡◌, refl, sym,
  ◌∙◌, All, OnOk, OnOk-ok, OnOk-bind, ◌==ₛ◌, if◌then◌else◌, eq_iff, Bool-cases, inl, inr, arith,
  require, raise_if, or_raise, invalid,
}
use bzr_live.Value.{tuple}
use bzr_live.Journal.FileName.{filename}
use mathlib.Core.Path.{subst}
use bzr_live.Journal.Check.Again.{init_invocation-same, init_completed-same}
use bzr_live.Journal.Check.{init_invocation, init_completed}
use bzr_live.Journal.Record.{InvocationMetadata, CompletedRecord, completed}
use bzr_live.Journal.Directory.{StoredFile, JournalStore, read_file, read_attempt}
use bzr_live.Journal.Redaction.{redact_opaque}
use bzr_live.Journal.Secrets.{secret_list, remove_secrets, text_has_secret, contains_secret}
use bzr_live.Journal.Secrets.Removal.{remove_secrets-IsFree}
use bzr_live.Journal.Secrets.Known.{IsFree-any, secret_list-AllNonempty}
use bzr_live.Journal.Store
use bzr_live.Journal.Json.{is_frozen, handler_output_roundtrip}
use bzr_live.Journal.Redaction.Proofs.{redact_opaque-clean, hides_sensitive}
use bzr_live.Journal.Redaction.Kept.{validate_json-IsAlike}

cleaned : List String → List String → List String
cleaned arguments secrets = map (λ a. remove_secrets a secrets) arguments

cleaned-free :
    (known arguments : List String)
    → All
        (λ a. text_has_secret a (secret_list known) ≡ false)
        (cleaned arguments (secret_list known))
unfolding cleaned
cleaned-free known [] = tt
cleaned-free known (a ∷ arguments) = (
  IsFree-any (remove_secrets a (secret_list known)) (secret_list known)
      (remove_secrets-IsFree a (secret_list known) (secret_list-AllNonempty known)),
  cleaned-free known arguments,
)

arguments-cleaned :
    (c : CompletedRecord) (secrets : List String)
    → OnOk
        (λ c'. c'.invocation.arguments ≡ cleaned c.invocation.arguments secrets)
        (Store.redacted_completed c secrets)
unfolding Store.redacted_completed cleaned
arguments-cleaned c secrets =
    let given : InvocationMetadata = record c.invocation {
      arguments = map (λ a. remove_secrets a secrets) c.invocation.arguments;
    } in
    OnOk-bind (init_invocation given) _ (λ m p.
      OnOk-bind (redact_opaque c.handler_output secrets) _ (λ output _. record {
        at = λ h.
            ((init_completed-same (record c { invocation = m; handler_output = output })).at h).0
            ∙ (init_invocation-same given).at p;
      }))

-- no argument that a redacted completion keeps contains a known secret
redacted_completed-arguments :
    (c c' : CompletedRecord) (known : List String)
    → Store.redacted_completed c (secret_list known) ≡ ok c'
    → All (λ a. text_has_secret a (secret_list known) ≡ false) c'.invocation.arguments
redacted_completed-arguments c c' known h =
    subst (All (λ a. text_has_secret a (secret_list known) ≡ false))
      (sym ((arguments-cleaned c (secret_list known)).at h))
      (cleaned-free known c.invocation.arguments)

-- the output that a redacted completion keeps
redacted_completed-output :
    (c c' : CompletedRecord) (known : List String)
    → is_frozen c.handler_output ≡ true
    → Store.redacted_completed c (secret_list known) ≡ ok c'
    → (contains_secret c'.handler_output (secret_list known) ≡ false)
      × (hides_sensitive c'.handler_output ≡ true)
unfolding Store.redacted_completed
redacted_completed-output c c' known frozen h =
    let given : InvocationMetadata = record c.invocation {
      arguments = map (λ a. remove_secrets a (secret_list known)) c.invocation.arguments;
    } in
    let (m, _, h₁) =
      >>=-eq-ok (init_invocation given)
        (λ m. redact_opaque c.handler_output (secret_list known) >>= λ output.
          init_completed (record c { invocation = m; handler_output = output }))
        h in
    let (output, p, h₂) =
      >>=-eq-ok (redact_opaque c.handler_output (secret_list known))
        (λ output. init_completed (record c { invocation = m; handler_output = output })) h₁ in
    let (clean, hides) = redact_opaque-clean known c.handler_output output frozen p in
    let (_, _, _, out) =
      (init_completed-same (record c { invocation = m; handler_output = output })).at h₂ in
    let alike = validate_json-IsAlike (secret_list known) output c'.handler_output out in
    (alike.secret ∙ clean, alike.hides ∙ hides)

-- the file of that name
abbrev pub file_of : String → List (String × StoredFile) → Option StoredFile
file_of name [] = none
file_of name ((n, f) ∷ files) = if n ==ₛ name then some f else file_of name files

put_file-file_of :
    (name : String) (f : StoredFile) (files : List (String × StoredFile))
    → file_of name (Store.put_file name f files) ≡ some f
unfolding Store.put_file
put_file-file_of name f [] = rw ((eq_iff name name).1 refl)
put_file-file_of name f ((n, g) ∷ files) = elim (Bool-cases (n ==ₛ name)) [
  | inl e ↦ ground (arith, e)
  | inr e ↦ ground (arith, e, put_file-file_of name f files)
]

-- what is read again from the file of the attempt
abbrev pub IsWritten : CompletedRecord → List String → JournalStore → Type 0
IsWritten given known s =
    (f : StoredFile) × (c : CompletedRecord) × (file_of (filename given.event given.attempt) s.files
      ≡ some f)
    × (read_file f ≡ ok (completed c))
    × All (λ a. text_has_secret a (secret_list known) ≡ false) c.invocation.arguments
    × (contains_secret c.handler_output (secret_list known) ≡ false)
    × (hides_sensitive c.handler_output ≡ true)

read_file-fresh : (c : CompletedRecord) → read_file (Store.fresh (completed c)) ≡ ok (completed c)
unfolding read_file
read_file-fresh c = refl

replaced :
    (given : CompletedRecord) (known : List String) (s : JournalStore)
    → OnOk (IsWritten given known) (Store.replace_completed given known s)
unfolding Store.replace_completed
replaced given known s = OnOk-bind (require s.is_open "journal store is closed") _ (λ _ _.
    OnOk-bind (init_completed given) _ (λ c p.
      let (_, event, attempt, out) = (init_completed-same given).at p in
      OnOk-bind
        (raise_if (contains_secret (tuple (Store.completed_structural c)) (secret_list known))
          "known secret occurs in structural journal metadata")
        _
        (λ _ _. OnOk-bind (read_attempt c.event c.attempt s) _ (λ found _.
          OnOk-bind
            (or_raise (Store.as_in_flight found) (invalid "matching in-flight attempt is required"))
            _
            (λ existing _.
              OnOk-bind
                (require (Store.same_record c.identity existing)
                  "completion identity does not match in-flight record")
                _
                (λ _ _. OnOk-bind (Store.redacted_completed c (secret_list known)) _ (λ redacted q.
                  let written : StoredFile = Store.fresh (completed redacted) in
                  let frozen =
                    (handler_output_roundtrip given.handler_output c.handler_output out).0 in
                  let (clean, hides) = redacted_completed-output c redacted known frozen q in
                  OnOk-ok _ (
                    written,
                    redacted,
                    rw (sym event, sym attempt)
                        (put_file-file_of (filename c.event c.attempt) written s.files),
                    read_file-fresh redacted,
                    redacted_completed-arguments c redacted known q,
                    clean,
                    hides,
                  ))))))))

-- After a completion that returns, the file that the directory has under the name of the given event
-- and attempt is read again as a completed record. No argument of its invocation contains a known
-- secret, nor does a text or a key of its output, which holds nothing under a sensitive key.
pub replace_completed-redacted :
    (given : CompletedRecord) (known : List String) (s s' : JournalStore)
    → Store.replace_completed given known s ≡ ok s'
    → IsWritten given known s'
replace_completed-redacted given known s s' h = (replaced given known s).at h
