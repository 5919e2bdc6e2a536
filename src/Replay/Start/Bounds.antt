-- ===== src/Replay/Start/Bounds.antt =====
-- What `replay` and `resume` send, and what they report.
use bzr_live.Common.{
  ◌+◌, ◌≤◌, String, Bool, true, false, List, [], ◌∷◌, map, Option, any_of, ok, err, replay_error,
  ◌≡◌, refl, sym, ◌∙◌, ap, length, arith, ok-injective,
}
use bzr_live.Exec.{Exec, pure, lift, ◌>>=◌}
use bzr_live.Exec.Inversion.{bind-ok, bind-err, if_raise-ok}
use bzr_live.Exec.Keeps.{
  Keeps, Keeps-view, IsRefused, bind-IsRefused, Keeps-bind, Keeps-lift, keeps_rules,
}
use bzr_live.Exec.Logs.{bind_within}
use bzr_live.Journal.Record.{Record}
use bzr_live.Replay.Supported.{check_supported}
use bzr_live.Scenario.{PlannedEvent}
use bzr_live.Replay.Context.{Setup}
use bzr_live.Replay.Engine.{require_absent, Run, Status, Latest, run}
use bzr_live.Replay.Engine.Sends.{sent_of, Silent, require_absent-Silent}
use bzr_live.Replay.Engine.Report.{run-AddsUpTo, run-names}
use bzr_live.Replay.Start

-- `m` changes nothing.
abbrev Still : {W A : Type 0} → Exec (Run W) A → Type 0
Still m = Keeps (λ s. s) m

map-fst-name :
    (latest : Latest) → map (λ e. e.0.name) latest ≡ map (λ e. e.name) (map (λ e. e.0) latest)
map-fst-name [] = refl
map-fst-name (e ∷ latest) = ap (λ names. e.0.name ∷ names) (map-fst-name latest)

length-map : (latest : Latest) → length (map (λ e. e.0) latest) ≡ length latest
length-map [] = refl
length-map (e ∷ latest) = omega (arith, length-map latest)

module _ {W : Type 0} (setup : Setup W) where
  all_supported-Still : (events : List PlannedEvent) → Still (Start.all_supported setup events)
  unfolding Start.all_supported
  all_supported-Still [] = search keeps_rules
  all_supported-Still (event ∷ events) =
      Keeps-bind (lift (check_supported event)) _ (Keeps-lift _) (λ _. all_supported-Still events)

  refuse_when-Still :
      (b : Bool) (message : String) (s : Run W) → (Start.refuse_when setup b message s).1 ≡ s
  unfolding Start.refuse_when
  refuse_when-Still true message s = refl
  refuse_when-Still false message s = refl

  no_stray-Still : Still (Start.require_no_stray_records setup)
  unfolding Start.require_no_stray_records
  no_stray-Still = record { at = λ s. refuse_when-Still _ _ s }

  empty_journal-Still : Still (Start.require_empty_journal setup)
  unfolding Start.require_empty_journal
  empty_journal-Still = record { at = λ s. refuse_when-Still _ _ s }

  read_latest-Still : (event : PlannedEvent) → Still (Start.read_latest setup event)
  unfolding Start.read_latest
  read_latest-Still event = record { at = λ s. refl }

  keep_own-Still :
      (event : PlannedEvent) (later : Exec (Run W) Latest) (found : Option Record)
      → Still later
      → Still (Start.keep_own setup event later found)
  unfolding Start.keep_own
  keep_own-Still event later found k = search keeps_rules

  latest_of-Still : (events : List PlannedEvent) → Still (Start.latest_of setup events)
  unfolding Start.latest_of
  latest_of-Still [] = search keeps_rules
  latest_of-Still (event ∷ events) =
      Keeps-bind (Start.read_latest setup event)
        (Start.keep_own setup event (Start.latest_of setup events)) (read_latest-Still event)
        (λ found.
          keep_own-Still event (Start.latest_of setup events) found (latest_of-Still events))

  checks-Still : Still (Start.check_local_preconditions setup)
  unfolding Start.check_local_preconditions
  checks-Still = search (keeps_rules, all_supported-Still, no_stray-Still, latest_of-Still)

  sweep-Silent : (events : List PlannedEvent) → Silent (Start.sweep_pristine setup events)
  unfolding Start.sweep_pristine
  sweep-Silent [] = search keeps_rules
  sweep-Silent (event ∷ events) =
      Keeps-bind (require_absent setup event) _ (require_absent-Silent setup event)
        (λ _. sweep-Silent events)

  keep_own-ok :
      (event : PlannedEvent) (later : Exec (Run W) Latest) (found : Option Record) (s : Run W)
      {latest : Latest}
      → (Start.keep_own setup event later found s).0 ≡ ok latest
      → (rest : Latest) × ((later s).0 ≡ ok rest) × (latest ≡ (event, found) ∷ rest)
  unfolding Start.keep_own
  keep_own-ok event later found s h =
      let add : Latest → Exec (Run W) Latest = λ rest. pure ((event, found) ∷ rest) in
      let kept =
        if_raise-ok (Start.foreign setup found)
          (replay_error "event was journalled under another scenario digest") (later >>= add) s h in
      let (rest, p, q) = bind-ok later add s kept in (rest, p, sym (ok-injective q))

  -- the events that `_check_local_preconditions` returns are the scenario's
  latest_of-events :
      (events : List PlannedEvent) (s : Run W) {latest : Latest}
      → (Start.latest_of setup events s).0 ≡ ok latest
      → map (λ e. e.0) latest ≡ events
  unfolding Start.latest_of Start.read_latest
  latest_of-events [] s h = ap (map (λ e. e.0)) (sym (ok-injective h))
  latest_of-events (event ∷ events) s h =
      let others = Start.latest_of setup events in
      let (found, p, q) =
        bind-ok (Start.read_latest setup event) (Start.keep_own setup event others) s h in
      let (rest, p', q') = keep_own-ok event others found s q in
      ap (map (λ e. e.0)) q' ∙ ap (λ names. event ∷ names) (latest_of-events events s p')

  checks-events :
      (s : Run W) {latest : Latest}
      → (Start.check_local_preconditions setup s).0 ≡ ok latest
      → map (λ e. e.0) latest ≡ setup.scenario.events
  unfolding Start.check_local_preconditions
  checks-events s h =
      let events = setup.scenario.events in
      let (_, p, q) =
        bind-ok (Start.all_supported setup events)
          (λ _. Start.require_no_stray_records setup >>= λ _. Start.latest_of setup events) s h in
      let s' = (Start.all_supported setup events s).1 in
      let (_, p', q') =
        bind-ok (Start.require_no_stray_records setup) (λ _. Start.latest_of setup events) s' q in
      latest_of-events events (Start.require_no_stray_records setup s').1 q'

  run-events :
      (latest : Latest) (s : Run W) {report : List (Status × String)}
      → map (λ e. e.0) latest ≡ setup.scenario.events
      → (run setup latest s).0 ≡ ok report
      → map (λ line. line.1) report ≡ map (λ e. e.name) setup.scenario.events
  run-events latest s h p =
      run-names setup latest s p ∙ (map-fst-name latest ∙ ap (map (λ e. e.name)) h)

  -- A `resume` that returns reports each event of the scenario once, by name and in the scenario's
  -- order.
  pub resume-names :
      (s : Run W) {report : List (Status × String)}
      → (Start.resume setup s).0 ≡ ok report
      → map (λ line. line.1) report ≡ map (λ e. e.name) setup.scenario.events
  unfolding Start.resume
  resume-names s h =
      let (latest, p, q) = bind-ok (Start.check_local_preconditions setup) (run setup) s h in
      run-events latest (Start.check_local_preconditions setup s).1 (checks-events s p) q

  run-within :
      (latest : Latest) (s : Run W)
      → map (λ e. e.0) latest ≡ setup.scenario.events
      → length (sent_of (run setup latest s).1) ≤ length (sent_of s) + length setup.scenario.events
  run-within latest s h =
      let bound = (run-AddsUpTo setup latest).at s in
      omega (arith, bound, length-map latest, ap length h)

  -- `resume`, whether it returns or raises, sends at most one mutation for each event of the
  -- scenario.
  pub resume-sends :
      (s : Run W)
      → length (sent_of (Start.resume setup s).1)
        ≤ length (sent_of s) + length setup.scenario.events
  unfolding Start.resume
  resume-sends s =
      bind_within sent_of (length setup.scenario.events) (Start.check_local_preconditions setup)
        (run setup) s (Keeps-view sent_of _ checks-Still)
        (λ latest p s'. run-within latest s' (checks-events s p))

  -- `replay`, whether it returns or raises, sends at most one mutation for each event of the
  -- scenario.
  pub replay-sends :
      (s : Run W)
      → length (sent_of (Start.replay setup s).1)
        ≤ length (sent_of s) + length setup.scenario.events
  unfolding Start.replay
  replay-sends s =
      let n = length setup.scenario.events in
      bind_within sent_of n (Start.check_local_preconditions setup) _ s
        (Keeps-view sent_of _ checks-Still)
        (λ latest p s'.
          bind_within sent_of n (Start.require_empty_journal setup) _ s'
            (Keeps-view sent_of _ empty_journal-Still)
            (λ _ p' s''.
              bind_within sent_of n (Start.sweep_pristine setup setup.scenario.events) _ s''
                (sweep-Silent setup.scenario.events)
                (λ _ p'' t. run-within latest t (checks-events s p))))

  empty_journal-refuses :
      (t : Run W)
      → any_of Start.is_attempt t.store.files ≡ true
      → Start.require_empty_journal setup t
        ≡ (err (replay_error "this scenario has already been replayed"), t)
  unfolding Start.require_empty_journal Start.refuse_when
  empty_journal-refuses t h =
      ap (λ b. Start.refuse_when setup b "this scenario has already been replayed" t) h

  -- When the journal holds an attempt file of any event, `replay` raises and changes nothing: not the
  -- server, not the journal, not the workspace.
  pub replay-refuses :
      (s : Run W)
      → any_of Start.is_attempt s.store.files ≡ true
      → IsRefused s (Start.replay setup s)
  unfolding Start.replay
  replay-refuses s h =
      bind-IsRefused (Start.check_local_preconditions setup) _ s checks-Still (λ latest t p.
        let refused =
          bind-err (Start.require_empty_journal setup) (after latest) t
            (replay_error "this scenario has already been replayed") t
            (empty_journal-refuses t (ap (λ r. any_of Start.is_attempt r.store.files) p ∙ h)) in
        (
          ap (λ r. r.1) refused ∙ p,
          (replay_error "this scenario has already been replayed", ap (λ r. r.0) refused),
        ))
    where
      after : Latest → Unit {0} → Exec (Run W) (List (Status × String))
      after latest _ = Start.sweep_pristine setup setup.scenario.events >>= λ _. run setup latest
