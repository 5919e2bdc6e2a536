-- ===== src/Journal/Directory.antt =====
-- scenario/journal.py: how `class JournalStore` reads the files of its directory. A file stands for the
-- record that its document decodes to. Access control lists are checked on macOS only, and a
-- directory or a file that the operating system fails to read or write is not modelled.
pub mod History
use bzr_live.Common.{
  ℕ, zero, suc, ◌-◌, String, Bool, true, false, ◌&&◌, List, [], ◌∷◌, ◌++◌, Option, none, some,
  ◌==ₛ◌, ◌==◌, leb, if◌then◌else◌, strip_prefix, any_of, Result, ok, err, invalid, ◌>>=◌, ◌>>◌,
  raise_if, require,
}
use bzr_live.Patterns.{is_name}
use bzr_live.Journal.Record.{Record, identity_of}
use bzr_live.Journal.Check.{validate_retry_transition}
use bzr_live.Journal.FileName.{parse_attempt_file}

pub record StoredFile : Type 0 where
  -- opened without following a link, and regular
  pub regular : Bool
  pub mode_0600 : Bool
  pub owned : Bool
  pub content : Result Record

pub record JournalStore : Type 0 where
  pub is_open : Bool
  pub files : List (String × StoredFile)

-- `_verify_fd` on an attempt file, and `_verify_retained_file`
unfoldable pub verify_file : StoredFile → Result (Unit {0})
verify_file f = do
  require f.regular "has the wrong file type"
  require f.mode_0600 "must have mode 0600"
  require f.owned "must be owned by the current user"

-- `_read_file`
unfoldable pub read_file : StoredFile → Result Record
unfolding verify_file
read_file f = do verify_file f; f.content

abbrev pub Indexed : Type 0
Indexed = List (ℕ × StoredFile)

abbrev pub has_attempt : ℕ → Indexed → Bool
has_attempt n = any_of (λ e. e.0 == n)

abbrev is_temporary : String → Bool
is_temporary name = elim (strip_prefix ".tmp-" name) [ none ↦ false | some _ ↦ true ]

-- one round of the loop over `os.listdir`, for a name of the form of an attempt file
index_match : String → StoredFile → String → ℕ → Indexed → Result Indexed
unfolding verify_file
index_match event f e n indexed =
    if e ==ₛ event
    then (if has_attempt n indexed
        then err (invalid "conflicting attempt files")
        else ok (indexed ++ (n, f) ∷ []))
    else (do verify_file f; ok indexed)

-- one round of the loop over `os.listdir`
pub index_one : String → String → StoredFile → Indexed → Result Indexed
unfolding index_match parse_attempt_file strip_prefix
index_one event name f indexed =
    if name ==ₛ ".lock"
    then ok indexed
    else (if is_temporary name
        then (do verify_file f; ok indexed)
        else elim (parse_attempt_file name) [
          | none ↦ err (invalid "state directory contains an invalid record name")
          | some (e, n) ↦ index_match event f e n indexed
        ])

pub index_files : String → List (String × StoredFile) → Indexed → Result Indexed
unfolding index_one
index_files event [] indexed = ok indexed
index_files event ((name, f) ∷ files) indexed =
    index_one event name f indexed >>= λ next. index_files event files next

-- `sorted(indexed)`, with the file of each attempt
pub insert_attempt : ℕ × StoredFile → Indexed → Indexed
insert_attempt x [] = x ∷ []
insert_attempt x (y ∷ ys) =
    let later = y ∷ insert_attempt x ys in if leb x.0 y.0 then x ∷ y ∷ ys else later

pub sort_attempts : Indexed → Indexed
unfolding insert_attempt
sort_attempts [] = []
sort_attempts (x ∷ xs) = insert_attempt x (sort_attempts xs)

-- The attempts count up from `n`. A list is `list(range(1, max(list) + 1))` when it does from 1.
abbrev pub counts_up : ℕ → Indexed → Bool
counts_up n [] = true
counts_up n (x ∷ xs) = x.0 == n && counts_up (suc n) xs

pub read_all : Indexed → Result (List Record)
unfolding read_file
read_all [] = ok []
read_all ((n, f) ∷ xs) = do r ← read_file f; rs ← read_all xs; ok (r ∷ rs)

-- `record.event == event` and `record.attempt == index`, from the index `n` on
pub match_names : String → ℕ → List Record → Result (Unit {0})
match_names event n [] = ok tt
match_names event n (r ∷ rs) = do
  require ((identity_of r).event ==ₛ event && (identity_of r).attempt == n)
      "attempt filename does not match record identity"
  match_names event (suc n) rs

-- `_validate_retry_transition` on each record and the next one
pub check_transitions : List Record → Result (Unit {0})
unfolding validate_retry_transition
check_transitions [] = ok tt
check_transitions (r ∷ []) = ok tt
check_transitions (r ∷ s ∷ rs) = do validate_retry_transition r s; check_transitions (s ∷ rs)

-- `_records` on an open store
unfoldable pub records_in : String → List (String × StoredFile) → Result (List Record)
unfolding index_files sort_attempts read_all match_names check_transitions is_name
records_in event files = do
  require (is_name event) "must be a slug"
  indexed ← index_files event files []
  let ordered = sort_attempts indexed
  require (counts_up 1 ordered) "attempt history contains a gap"
  rs ← read_all ordered
  match_names event 1 rs
  check_transitions rs
  ok rs

-- `_records`
unfoldable pub records : String → JournalStore → Result (List Record)
unfolding records_in
records event s = do require s.is_open "journal store is closed"; records_in event s.files

abbrev pub last : List Record → Option Record
last [] = none
last (r ∷ []) = some r
last (r ∷ s ∷ rs) = last (s ∷ rs)

abbrev pub get_elem? : List Record → ℕ → Option Record
get_elem? [] i = none
get_elem? (r ∷ rs) zero = some r
get_elem? (r ∷ rs) (suc i) = get_elem? rs i

-- `read`, without an attempt and with one
unfoldable pub read : String → JournalStore → Result (Option Record)
unfolding records
read event s = do rs ← records event s; ok (last rs)

unfoldable pub read_attempt : String → ℕ → JournalStore → Result (Option Record)
unfolding records
read_attempt event attempt s = do
  rs ← records event s
  raise_if (attempt == 0) "must be a positive integer"
  ok (get_elem? rs (attempt - 1))
