-- ===== src/Journal/Store/Files.antt =====
-- Which files the two writes of the store leave in the directory.
use bzr_live.Common.{
  String, Bool, true, false, ◌||◌, List, [], ◌∷◌, ◌++◌, ◌≡◌, refl, ap, ◌∙◌, ok, err, ◌==ₛ◌, eq_refl,
  OnOk, OnOk-bind, OnOk-ok, require, or_raise, raise_if, any_of, if◌then◌else◌, os_error, invalid,
}
use bzr_live.Journal.Record.{InFlightRecord, CompletedRecord, in_flight}
use bzr_live.Journal.Check.{validate_planned, init_in_flight, init_completed, validate_common}
use bzr_live.Journal.Directory.{StoredFile, JournalStore, records, read_attempt}
use bzr_live.Journal.Secrets.{secret_list, contains_secret}
use bzr_live.Value.{tuple}
use bzr_live.Journal.FileName.{filename}
use bzr_live.Journal.Store

-- The directory holds a file of that name.
abbrev pub HasFile : String → JournalStore → Type 0
HasFile name s = any_of (λ e. e.0 ==ₛ name) s.files ≡ true

or_right : (b c : Bool) → c ≡ true → (b || c) ≡ true
or_right true c h = refl
or_right false c h = h

or_weaken : (b c d : Bool) → (c ≡ true → d ≡ true) → (b || c) ≡ true → (b || d) ≡ true
or_weaken true c d f h = refl
or_weaken false c d f h = f h

any_of-append :
    (name : String) (files : List (String × StoredFile)) (f : StoredFile)
    → any_of (λ e. e.0 ==ₛ name) (files ++ (name, f) ∷ []) ≡ true
any_of-append name [] f = rw (eq_refl name)
any_of-append name ((n, g) ∷ files) f = or_right (n ==ₛ name) _ (any_of-append name files f)

put_step :
    (hit : Bool) (n name : String) (f g : StoredFile) (rest rest' : List (String × StoredFile))
    → (any_of (λ e. e.0 ==ₛ name) rest ≡ true → any_of (λ e. e.0 ==ₛ name) rest' ≡ true)
    → (n ==ₛ name || any_of (λ e. e.0 ==ₛ name) rest) ≡ true
    → any_of (λ e. e.0 ==ₛ name) (if hit then (n, f) ∷ rest else (n, g) ∷ rest') ≡ true
put_step true n name f g rest rest' k h = h
put_step false n name f g rest rest' k h = or_weaken (n ==ₛ name) _ _ k h

-- `put_file` takes no name away.
put_file-keeps :
    (name target : String) (f : StoredFile) (files : List (String × StoredFile))
    → any_of (λ e. e.0 ==ₛ name) files ≡ true
    → any_of (λ e. e.0 ==ₛ name) (Store.put_file target f files) ≡ true
unfolding Store.put_file
put_file-keeps name target f [] h = cc
put_file-keeps name target f ((n, g) ∷ files) h =
    put_step (n ==ₛ target) n name f g files (Store.put_file target f files)
      (put_file-keeps name target f files) h

-- the constructor changes the postcondition alone
pub init_in_flight-same :
    (given : InFlightRecord)
    → OnOk (λ r. (r.event ≡ given.event) × (r.attempt ≡ given.attempt)) (init_in_flight given)
unfolding init_in_flight
init_in_flight-same given = OnOk-bind (validate_planned given.expected_postcondition) _ (λ frozen p.
    OnOk-bind (validate_common (record given { expected_postcondition = frozen })) _
      (λ _ p'. OnOk-ok _ (refl, refl)))

-- the steps of `write_in_flight`, with what the last one leaves
in_flight_files :
    (given : InFlightRecord) (known : List String) (s : JournalStore)
    → OnOk
        (λ s'.
          (r : InFlightRecord) × (init_in_flight given ≡ ok r)
          × (s'.files
              ≡ s.files ++ (filename given.event given.attempt, Store.fresh (in_flight r)) ∷ []))
        (Store.write_in_flight given known s)
unfolding Store.write_in_flight
in_flight_files given known s = OnOk-bind (require s.is_open "journal store is closed") _ (λ _ _.
    OnOk-bind (init_in_flight given) _ (λ r p.
      OnOk-bind
        (raise_if (contains_secret (tuple (Store.common_structural r)) (secret_list known))
          "known secret occurs in structural journal metadata")
        _
        (λ _ _. OnOk-bind (records r.event s) _ (λ rs _.
          OnOk-bind (Store.check_attempt r rs) _ (λ _ _.
            OnOk-bind
              (if Store.has_file (filename r.event r.attempt) s.files then err os_error else ok tt)
              _
              (λ _ _. OnOk-ok _ (
                r,
                p,
                ap (λ name. s.files ++ (name, Store.fresh (in_flight r)) ∷ [])
                    (let (e, n) = (init_in_flight-same given).at p in
                      ap (λ e. filename e r.attempt) e ∙ ap (λ n. filename given.event n) n),
              )))))))

write_in_flight-files :
    (given : InFlightRecord) (known : List String) (s : JournalStore) {s' : JournalStore}
    → Store.write_in_flight given known s ≡ ok s'
    → (r : InFlightRecord) × (init_in_flight given ≡ ok r)
      × (s'.files ≡ s.files ++ (filename given.event given.attempt, Store.fresh (in_flight r)) ∷ [])
write_in_flight-files given known s h = (in_flight_files given known s).at h

-- what is begun has its file
pub write_in_flight-HasFile :
    (given : InFlightRecord) (known : List String) (s : JournalStore) {s' : JournalStore}
    → Store.write_in_flight given known s ≡ ok s'
    → HasFile (filename given.event given.attempt) s'
write_in_flight-HasFile given known s h =
    let (r, _, p) = write_in_flight-files given known s h in
    ap (any_of (λ e. e.0 ==ₛ filename given.event given.attempt)) p
    ∙ any_of-append (filename given.event given.attempt) s.files (Store.fresh (in_flight r))

-- A completion takes no file away.
pub replace_completed-HasFile :
    (given : CompletedRecord) (known : List String) (s : JournalStore) (name : String)
    → HasFile name s
    → OnOk (HasFile name) (Store.replace_completed given known s)
unfolding Store.replace_completed
replace_completed-HasFile given known s name h =
    OnOk-bind (require s.is_open "journal store is closed") _ (λ _ _.
      OnOk-bind (init_completed given) _ (λ c _.
        OnOk-bind
          (raise_if (contains_secret (tuple (Store.completed_structural c)) (secret_list known))
            "known secret occurs in structural journal metadata")
          _
          (λ _ _. OnOk-bind (read_attempt c.event c.attempt s) _ (λ found _.
            OnOk-bind
              (or_raise (Store.as_in_flight found)
                (invalid "matching in-flight attempt is required"))
              _
              (λ existing _.
                OnOk-bind
                  (require (Store.same_record c.identity existing)
                    "completion identity does not match in-flight record")
                  _
                  (λ _ _.
                    OnOk-bind (Store.redacted_completed c (secret_list known)) _
                      (λ redacted _. OnOk-ok _ (put_file-keeps name _ _ s.files h))))))))
