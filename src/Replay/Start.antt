-- ===== src/Replay/Start.antt =====
-- replay/engine.py: `replay` and `resume`, with what they check before the first event.
pub mod Bounds
use bzr_live.Common.{
  String, Bool, true, false, List, [], ◌∷◌, map, Option, none, some, any_of, mem_text, not, ◌==ₛ◌,
  if◌then◌else◌, replay_error, err, ok,
}
use bzr_live.Exec.{Exec, pure, raise, lift, gets, ◌>>=◌, ◌>>◌}
use bzr_live.Journal.Directory.{StoredFile, read}
use bzr_live.Journal.FileName.{parse_attempt_file}
use bzr_live.Journal.Record.{Record, identity_of}
use bzr_live.Scenario.{PlannedEvent}
use bzr_live.Replay.Context.{Setup}
use bzr_live.Replay.Engine.{Run, Status, Latest, digest, require_absent, run}
use bzr_live.Replay.Supported.{check_supported}

unfoldable pub is_attempt : String × StoredFile → Bool
unfolding parse_attempt_file
is_attempt (name, f) = elim (parse_attempt_file name) [ none ↦ false | some _ ↦ true ]

is_stray : List String → String × StoredFile → Bool
unfolding parse_attempt_file
is_stray known (name, f) = elim (parse_attempt_file name) [
  | none ↦ false
  | some (event, n) ↦ not (mem_text event known)
]

module _ {W : Type 0} (setup : Setup W) where
  all_supported : List PlannedEvent → Exec (Run W) (Unit {0})
  unfolding check_supported ◌>>=◌
  all_supported [] = pure tt
  all_supported (event ∷ events) = do lift (check_supported event); all_supported events

  refuse_when : Bool → String → Exec (Run W) (Unit {0})
  refuse_when true message = raise (replay_error message)
  refuse_when false message = pure tt

  -- `_require_no_stray_records`
  unfoldable pub require_no_stray_records : Exec (Run W) (Unit {0})
  unfolding is_stray refuse_when
  require_no_stray_records s =
      refuse_when (any_of (is_stray (map (λ e. e.name) setup.scenario.events)) s.store.files)
        "journal record belongs to an event this scenario no longer names" s

  -- `record.scenario_digest != self._scenario.digest`
  foreign : Option Record → Bool
  foreign none = false
  foreign (some r) = not ((identity_of r).scenario_digest ==ₛ digest setup)

  read_latest : PlannedEvent → Exec (Run W) (Option Record)
  unfolding read
  read_latest event s = (read event.name s.store, s)

  -- the record of an event is kept, unless it is foreign, before those that `later` reads
  keep_own : PlannedEvent → Exec (Run W) Latest → Option Record → Exec (Run W) Latest
  unfolding foreign ◌>>=◌
  keep_own event later found =
      if foreign found
      then raise (replay_error "event was journalled under another scenario digest")
      else (later >>= λ rest. pure ((event, found) ∷ rest))

  -- the loop over the events in `_check_local_preconditions`
  latest_of : List PlannedEvent → Exec (Run W) Latest
  unfolding read_latest keep_own ◌>>=◌
  latest_of [] = pure []
  latest_of (event ∷ events) = read_latest event >>= keep_own event (latest_of events)

  -- `_check_local_preconditions`
  unfoldable pub check_local_preconditions : Exec (Run W) Latest
  unfolding all_supported require_no_stray_records latest_of ◌>>=◌
  check_local_preconditions = do
    all_supported setup.scenario.events
    require_no_stray_records
    latest_of setup.scenario.events

  -- `_require_empty_journal`
  unfoldable pub require_empty_journal : Exec (Run W) (Unit {0})
  unfolding is_attempt refuse_when
  require_empty_journal s =
      refuse_when (any_of is_attempt s.store.files) "this scenario has already been replayed" s

  -- `_sweep_pristine`
  sweep_pristine : List PlannedEvent → Exec (Run W) (Unit {0})
  unfolding require_absent ◌>>=◌
  sweep_pristine [] = pure tt
  sweep_pristine (event ∷ events) = do require_absent setup event; sweep_pristine events

  -- `replay`
  unfoldable pub replay : Exec (Run W) (List (Status × String))
  unfolding check_local_preconditions require_empty_journal sweep_pristine run ◌>>=◌
  replay = do
    latest ← check_local_preconditions
    require_empty_journal
    sweep_pristine setup.scenario.events
    run setup latest

  -- `resume`
  unfoldable pub resume : Exec (Run W) (List (Status × String))
  unfolding check_local_preconditions run ◌>>=◌
  resume = do latest ← check_local_preconditions; run setup latest
