-- ===== src/Tests/Journal.antt =====
-- The theorems on the journal and the values at concrete inputs.
use bzr_live.Common.{
  Result, err, List, pos, String, true, false, [], ◌∷◌, some, ok, ◌≡◌, ◌≢◌, refl, contains, arith,
}
use bzr_live.Value.{Value, null, bool, int, str, list, tuple, obj, nil, cons, end, field}
use bzr_live.Patterns.{is_name}
use bzr_live.Value.Planned.{freeze_fields, freeze_fields_idem}
use bzr_live.Journal.Check.{init_in_flight}
use bzr_live.Journal.Check.Again.{init_in_flight_idem}
use bzr_live.Journal.Store.Redacted.{IsWritten, replace_completed-redacted}
use bzr_live.Journal.Directory.{JournalStore, records}
use bzr_live.Journal.Directory.History.{IsCounted, IsRetried, records-history}
use bzr_live.Journal.FileName.{filename, parse_attempt_file}
use bzr_live.Journal.FileName.Roundtrip.{parse_attempt_file-filename}
use bzr_live.Journal.Json.{validate_json, json_mutable, is_frozen, handler_output_roundtrip}
use bzr_live.Journal.Record.{CompletedRecord, in_flight, completed}
use bzr_live.Journal.Redaction.{redact_opaque}
use bzr_live.Journal.Redaction.Proofs.{redact_opaque-clean, hides_sensitive}
use bzr_live.Journal.Secrets.{secret_list, remove_secrets, contains_secret}
use bzr_live.Journal.Secrets.Known.{remove_secrets-contains}
use bzr_live.Journal.Store
use bzr_live.Replay.Engine.{identity_for}
use bzr_live.Tests.Data.{setup, start, begun, note, note_done, replayed}

abbrev after_write : JournalStore
after_write = record {
  is_open = true;
  files = ("note.000001.json", Store.fresh (in_flight (identity_for setup note 1))) ∷ [];
}

first_write :
    Store.write_in_flight (identity_for setup note 1) ("hunter2hunter2" ∷ []) start.store
    ≡ ok after_write
unfolding Store.write_in_flight
first_write = refl

-- a reply that repeats a key and holds a token
abbrev reply : Value
reply = obj (field "note" (str "key hunter2!") (field "token" (str "abc") end))

abbrev clean_reply : Value
clean_reply = obj (field "note" (str "key !") (field "token" null end))

reply_redacted : redact_opaque reply (secret_list ("hunter2" ∷ [])) ≡ ok clean_reply
unfolding redact_opaque secret_list remove_secrets
reply_redacted = refl

redact_opaque-clean_example :
    (contains_secret clean_reply (secret_list ("hunter2" ∷ [])) ≡ false)
    × (hides_sensitive clean_reply ≡ true)
unfolding is_frozen
redact_opaque-clean_example =
    redact_opaque-clean ("hunter2" ∷ []) reply clean_reply refl reply_redacted

abbrev ab : String
ab = "ab"

ab_nonempty : ab ≢ ""
ab_nonempty p = cc

remove_secrets-contains_example :
    contains ab (remove_secrets "xaabby" (secret_list (ab ∷ []))) ≡ false
remove_secrets-contains_example = remove_secrets-contains "xaabby" ab (ab ∷ []) ab_nonempty refl

parse_attempt_file-filename_example : parse_attempt_file (filename "note" 12) ≡ some ("note", 12)
unfolding is_name
parse_attempt_file-filename_example = parse_attempt_file-filename "note" 12 refl (omega arith)

listed :
    validate_json (list (cons (bool true) (cons (str "x") nil)))
    ≡ ok (tuple (cons (bool true) (cons (str "x") nil)))
unfolding validate_json
listed = refl

handler_output_roundtrip_example :
    (is_frozen (tuple (cons (bool true) (cons (str "x") nil))) ≡ true)
    × (validate_json (json_mutable (tuple (cons (bool true) (cons (str "x") nil))))
        ≡ ok (tuple (cons (bool true) (cons (str "x") nil))))
handler_output_roundtrip_example =
    handler_output_roundtrip (list (cons (bool true) (cons (str "x") nil)))
      (tuple (cons (bool true) (cons (str "x") nil))) listed

frozen_once :
    freeze_fields (field "cc" (list (cons (int (pos 1)) nil)) end)
    ≡ ok (field "cc" (tuple (cons (int (pos 1)) nil)) end)
unfolding freeze_fields
frozen_once = refl

freeze_fields_idem_example :
    freeze_fields (field "cc" (tuple (cons (int (pos 1)) nil)) end)
    ≡ ok (field "cc" (tuple (cons (int (pos 1)) nil)) end)
freeze_fields_idem_example =
    freeze_fields_idem (field "cc" (list (cons (int (pos 1)) nil)) end)
      (field "cc" (tuple (cons (int (pos 1)) nil)) end) frozen_once

replayed_history : records "note" replayed.store ≡ ok (completed note_done ∷ [])
unfolding records
replayed_history = refl

records-history_example :
    IsCounted "note" 1 (completed note_done ∷ []) × IsRetried (completed note_done ∷ [])
records-history_example = records-history "note" replayed.store replayed_history

note_checked : init_in_flight (identity_for setup note 1) ≡ ok (identity_for setup note 1)
unfolding init_in_flight
note_checked = refl

init_in_flight_idem_example :
    init_in_flight (identity_for setup note 1) ≡ ok (identity_for setup note 1)
init_in_flight_idem_example =
    init_in_flight_idem (identity_for setup note 1) (identity_for setup note 1) note_checked

-- a completion with the given arguments
abbrev note_with : List String → CompletedRecord
note_with arguments = record note_done {
  invocation = record note_done.invocation { arguments = arguments };
}

note_redacted :
    Store.redacted_completed (note_with ("--key=hunter2!" ∷ [])) (secret_list ("hunter2" ∷ []))
    ≡ ok (note_with ("--key=!" ∷ []))
unfolding Store.redacted_completed secret_list remove_secrets
note_redacted = refl

abbrev or_begun : Result JournalStore → JournalStore
or_begun (ok s) = s
or_begun (err e) = begun.store

abbrev secret_note : CompletedRecord
secret_note = record (note_with ("--key=hunter2!" ∷ [])) { handler_output = reply }

abbrev completed_store : JournalStore
unfolding Store.replace_completed
completed_store = or_begun (Store.replace_completed secret_note ("hunter2" ∷ []) begun.store)

completes : Store.replace_completed secret_note ("hunter2" ∷ []) begun.store ≡ ok completed_store
unfolding Store.replace_completed
completes = refl

replace_completed-redacted_example : IsWritten secret_note ("hunter2" ∷ []) completed_store
replace_completed-redacted_example =
    replace_completed-redacted secret_note ("hunter2" ∷ []) begun.store completed_store completes
