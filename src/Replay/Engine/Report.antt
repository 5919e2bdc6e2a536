-- ===== src/Replay/Engine/Report.antt =====
-- What `_run` reports, and what it does where everything has been done.
use bzr_live.Common.{
  ◌+◌, String, List, [], ◌∷◌, sym, ok-injective, map, Option, none, some, ok, ◌≡◌, refl, ◌∙◌, ap,
  length, All, arith,
}
use bzr_live.Exec.{pure, ◌>>=◌}
use bzr_live.Exec.Inversion.{bind-ok, bind-eq}
use bzr_live.Exec.Keeps.{Keeps-pure}
use bzr_live.Exec.Logs.{AddsUpTo, AddsUpTo-AddsOne, AddsUpTo-Keeps, AddsUpTo-bind}
use bzr_live.Journal.Record.{CompletedRecord, Record, completed, in_flight, advance}
use bzr_live.Scenario.{PlannedEvent}
use bzr_live.Replay.Context.{Setup, adopt}
use bzr_live.Replay.Engine
use bzr_live.Replay.Engine.Sends.{sent_of, advance_event-SendsOne}

module _ {W : Type 0} (setup : Setup W) where
  pub run-AddsUpTo :
      (latest : Engine.Latest) → AddsUpTo (length latest) sent_of (Engine.run setup latest)
  unfolding Engine.run
  run-AddsUpTo [] = AddsUpTo-Keeps 0 (Keeps-pure [])
  run-AddsUpTo ((event, found) ∷ rest) = record {
    at = λ s.
        let whole =
          (AddsUpTo-bind 1 (length rest + 0) (Engine.advance_event setup event found) _
              (AddsUpTo-AddsOne (advance_event-SendsOne setup event found))
              (λ status.
                AddsUpTo-bind (length rest) 0 (Engine.run setup rest) _ (run-AddsUpTo rest)
                  (λ report. AddsUpTo-Keeps 0 (Keeps-pure ((status, event.name) ∷ report))))).at
            s in
        omega (arith, whole);
  }

  -- A run over the events that returns has reported each of them once, by name and in their order.
  pub run-names :
      (latest : Engine.Latest) (s : Engine.Run W) {report : List (Engine.Status × String)}
      → (Engine.run setup latest s).0 ≡ ok report
      → map (λ line. line.1) report ≡ map (λ e. e.0.name) latest
  unfolding Engine.run
  run-names [] s {report} h = ap (map (λ line. line.1)) (sym (ok-injective h))
  run-names ((event, found) ∷ rest) s {report} h =
      let (status, p, q) =
        bind-ok (Engine.advance_event setup event found)
          (λ status. Engine.run setup rest >>= λ later. pure ((status, event.name) ∷ later)) s h in
      let s' = (Engine.advance_event setup event found s).1 in
      let (later, p', q') =
        bind-ok (Engine.run setup rest) (λ later. pure ((status, event.name) ∷ later)) s' q in
      let ih = run-names rest s' p' in
      ap (map (λ line. line.1)) (sym (ok-injective q')) ∙ ap (λ names. event.name ∷ names) ih

  -- The event's last attempt was completed, and is done.
  abbrev pub IsDone : PlannedEvent × Option Record → Type 0
  IsDone (event, some (completed c)) = c.next_safe_action ≡ advance
  IsDone (event, some (in_flight r)) = ⊥
  IsDone (event, none) = ⊥

  -- what the step over an event that is done leaves as it was
  abbrev pub Untouched : Engine.Run W → Engine.Run W → Type 0
  Untouched s s' =
      (s'.context.world ≡ s.context.world)
      × (s'.context.sent ≡ s.context.sent)
      × (s'.context.workspace ≡ s.context.workspace)
      × (s'.store ≡ s.store)

  skip-eq :
      (event : PlannedEvent) (c : CompletedRecord) (s : Engine.Run W)
      → c.next_safe_action ≡ advance
      → Engine.advance_event setup event (some (completed c)) s
        ≡ (ok Engine.skipped, record s { context = (adopt setup c.resolved_ids s.context).1 })
  unfolding Engine.advance_event Engine.resume_completed Engine.on_context adopt ◌>>=◌
  skip-eq event c s h = ap (λ n. Engine.resume_completed setup event c n s) h

  -- When the last attempt of each event is completed and done, a run returns, reports each event as
  -- skipped, and leaves the server, the log of sent mutations, the workspace and the journal as they
  -- were.
  pub run-IsDone :
      (latest : Engine.Latest) (s : Engine.Run W)
      → All IsDone latest
      → ((Engine.run setup latest s).0 ≡ ok (map (λ e. (Engine.skipped, e.0.name)) latest))
        × Untouched s (Engine.run setup latest s).1
  unfolding Engine.run adopt
  run-IsDone [] s h = (refl, (refl, refl, refl, refl))
  run-IsDone ((event, some (completed c)) ∷ rest) s (done, h) =
      let s' = record s { context = (adopt setup c.resolved_ids s.context).1 } in
      let report = map (λ e. (Engine.skipped, e.0.name)) rest in
      let (p, (world, sent, workspace, store)) = run-IsDone rest s' h in
      let s'' = (Engine.run setup rest s').1 in
      let whole =
        bind-eq (Engine.advance_event setup event (some (completed c)))
          (λ status. Engine.run setup rest >>= λ later. pure ((status, event.name) ∷ later)) s
          Engine.skipped s' (skip-eq event c s done)
        ∙ bind-eq (Engine.run setup rest) (λ later. pure ((Engine.skipped, event.name) ∷ later)) s'
            report s'' (ap (λ r. (r, s'')) p) in
      (
        ap (λ r. r.0) whole,
        (
          ap (λ r. r.1.context.world) whole ∙ world,
          ap (λ r. r.1.context.sent) whole ∙ sent,
          ap (λ r. r.1.context.workspace) whole ∙ workspace,
          ap (λ r. r.1.store) whole ∙ store,
        ),
      )
  run-IsDone ((event, some (in_flight r)) ∷ rest) s (none_done, h) = absurd none_done
  run-IsDone ((event, none) ∷ rest) s (none_done, h) = absurd none_done
