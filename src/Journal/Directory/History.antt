-- ===== src/Journal/Directory/History.antt =====
-- What `_records` guarantees of the attempts that it returns.
use bzr_live.Common.{
  ℕ, suc, String, true, ◌&&◌, List, [], ◌∷◌, ok, ◌≡◌, ◌==ₛ◌, ◌==◌, ==_iff, eq_iff, >>=-eq-ok,
  &&-eq_true, require, require-ok, OnOk, OnOk-ok, OnOk-bind,
}
use bzr_live.Patterns.{is_name}
use bzr_live.Journal.Check.{permits_retry, same_identity, validate_retry_transition}
use bzr_live.Journal.Directory
use bzr_live.Journal.Directory.{StoredFile, JournalStore}
use bzr_live.Journal.Record.{Record, identity_of}

-- The records belong to the event, and their attempts count up from `n`.
abbrev pub IsCounted : String → ℕ → List Record → Type 0
IsCounted event n [] = Unit
IsCounted event n (r ∷ rs) =
    ((identity_of r).event ≡ event) × ((identity_of r).attempt ≡ n) × IsCounted event (suc n) rs

-- Each record but the last permits a retry, and the next one has its identity.
abbrev pub IsRetried : List Record → Type 0
IsRetried [] = Unit
IsRetried (r ∷ []) = Unit
IsRetried (r ∷ s ∷ rs) =
    (permits_retry r ≡ true)
    × (same_identity (identity_of s) (identity_of r) ≡ true)
    × IsRetried (s ∷ rs)

match_names-IsCounted :
    (event : String) (n : ℕ) (rs : List Record) {u : Unit {0}}
    → Directory.match_names event n rs ≡ ok u
    → IsCounted event n rs
unfolding Directory.match_names
match_names-IsCounted event n [] h = tt
match_names-IsCounted event n (r ∷ rs) h =
    let (_, p, q) =
      >>=-eq-ok
        (require ((identity_of r).event ==ₛ event && (identity_of r).attempt == n)
          "attempt filename does not match record identity")
        (λ _. Directory.match_names event (suc n) rs) h in
    let (same_event, same_attempt) = &&-eq_true _ _ (require-ok _ _ p) in
    (
      (eq_iff (identity_of r).event event).0 same_event,
      (==_iff (identity_of r).attempt n).0 same_attempt,
      match_names-IsCounted event (suc n) rs q,
    )

transition-ok :
    (r s : Record) {u : Unit {0}}
    → validate_retry_transition r s ≡ ok u
    → (permits_retry r ≡ true) × (same_identity (identity_of s) (identity_of r) ≡ true)
unfolding validate_retry_transition
transition-ok r s h =
    let (_, p, q) =
      >>=-eq-ok (require (permits_retry r) "prior attempt does not permit retry")
        (λ _.
          require (same_identity (identity_of s) (identity_of r))
            "retry identity does not match prior attempt")
        h in
    (require-ok (permits_retry r) _ p, require-ok _ _ q)

check_transitions-IsRetried :
    (rs : List Record) {u : Unit {0}} → Directory.check_transitions rs ≡ ok u → IsRetried rs
unfolding Directory.check_transitions
check_transitions-IsRetried [] h = tt
check_transitions-IsRetried (r ∷ []) h = tt
check_transitions-IsRetried (r ∷ s ∷ rs) h =
    let (_, p, q) =
      >>=-eq-ok (validate_retry_transition r s) (λ _. Directory.check_transitions (s ∷ rs)) h in
    let (permits, same) = transition-ok r s p in
    (permits, same, check_transitions-IsRetried (s ∷ rs) q)

history :
    (event : String) (files : List (String × StoredFile))
    → OnOk (λ rs. IsCounted event 1 rs × IsRetried rs) (Directory.records_in event files)
unfolding Directory.records_in
history event files = OnOk-bind (require (is_name event) "must be a slug") _ (λ _ _.
    OnOk-bind (Directory.index_files event files []) _ (λ indexed _.
      OnOk-bind
        (require (Directory.counts_up 1 (Directory.sort_attempts indexed))
          "attempt history contains a gap")
        _
        (λ _ _. OnOk-bind (Directory.read_all (Directory.sort_attempts indexed)) _ (λ rs _.
          OnOk-bind (Directory.match_names event 1 rs) _ (λ _ p.
            OnOk-bind (Directory.check_transitions rs) _ (λ _ q.
              OnOk-ok rs
                (match_names-IsCounted event 1 rs p, check_transitions-IsRetried rs q)))))))

-- The attempts that `_records` returns belong to the event and count up from 1; each but the last is
-- completed with a retry as its next action, and is followed by one of the same identity. So a
-- record in flight, or one that is not to be retried, is the last.
pub records-history :
    (event : String) (s : JournalStore) {rs : List Record}
    → Directory.records event s ≡ ok rs
    → IsCounted event 1 rs × IsRetried rs
unfolding Directory.records
records-history event s h =
    let (_, _, q) =
      >>=-eq-ok (require s.is_open "journal store is closed")
        (λ _. Directory.records_in event s.files) h in
    (history event s.files).at q
