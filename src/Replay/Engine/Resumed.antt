-- ===== src/Replay/Engine/Resumed.antt =====
-- What the engine does of an append that the journal left in flight.
use bzr_live.Common.{
  ℕ, ◌+◌, String, List, Option, none, some, Result, ok, err, ◌≡◌, refl, ◌∙◌, ap, inl, inr, ◌⊎◌,
}
use bzr_live.Value.{Value}
use bzr_live.Exec.Inversion.{bind-ok, Ends, Ends-pure, Ends-bind, bind-Ends}
use bzr_live.Exec
use bzr_live.Exec.{continue}
use bzr_live.Journal.Record.{NextAction, advance, reconcile, retry, stop, InFlightRecord, in_flight}
use bzr_live.Scenario.{PlannedEvent}
use bzr_live.Replay.Appends.Judged.{
  Listing, listing_of, IsThere, IsMissing, IsJudged, reconcile-IsJudged,
}
use bzr_live.Replay.Context.{Setup}
use bzr_live.Replay.Engine
use bzr_live.Replay.Engine.Sends.{sent_of, settle-Silent}
use bzr_live.Replay.Handlers
use bzr_live.Replay.Invocation.{Invocation, Reconciliation}

module _ {W : Type 0} (setup : Setup W) where
  abbrev IsOther : Engine.Status → Type 0
  IsOther status = status ≡ Engine.resumed → ⊥

  after_failure-IsOther : (next : NextAction) → Ends IsOther (Engine.after_failure setup next)
  unfolding Engine.after_failure
  after_failure-IsOther advance = Ends-pure Engine.reconciled (λ h. cc)
  after_failure-IsOther retry = record { at = λ s status h. cc }
  after_failure-IsOther stop = record { at = λ s status h. cc }
  after_failure-IsOther reconcile = record { at = λ s status h. cc }

  conclude-IsOther :
      (event : PlannedEvent) (n : ℕ) (i : Invocation) (r : Result (Value × List (String × ℕ)))
      → Ends IsOther (Engine.conclude setup event n i r)
  unfolding Engine.conclude
  conclude-IsOther event n i (ok (output, ids)) =
      let other : IsOther Engine.executed = λ h. cc in search (Ends-bind, Ends-pure, other) depth 8
  conclude-IsOther event n i (err e) = search (Ends-bind, after_failure-IsOther) depth 8

  -- an event that is executed is not reported as resumed
  execute-IsOther : (event : PlannedEvent) (n : ℕ) → Ends IsOther (Engine.execute setup event n)
  unfolding Engine.execute
  execute-IsOther event n = search (Ends-bind, conclude-IsOther) depth 12

  -- what settles an event is the answer of its reconciliation
  settle-reconcile :
      (event : PlannedEvent) (n : ℕ) (given : Option Invocation) (s : Engine.Run W)
      (result : Reconciliation)
      → (Engine.settle setup event n given s).0 ≡ ok result
      → (Handlers.reconcile setup event s.context).0 ≡ ok result
  unfolding Engine.settle Engine.on_context
  settle-reconcile event n given s result h =
      let (found, q, same) =
        bind-Ends {P = λ found r. found ≡ r} (Engine.on_context (Handlers.reconcile setup event)) _
          s result h
          (λ (found : Reconciliation).
            let same : found ≡ found = refl in search (Ends-bind, Ends-pure, same) depth 12) in
      q ∙ ap ok same

  resume_settled-advance :
      (event : PlannedEvent) (r : InFlightRecord) (next : NextAction) (s : Engine.Run W)
      → (Engine.resume_settled setup event r next s).0 ≡ ok Engine.resumed
      → next ≡ advance
  unfolding Engine.resume_settled
  resume_settled-advance event r advance s h = refl
  resume_settled-advance event r stop s h = cc
  resume_settled-advance event r retry s h =
      absurd ((execute-IsOther event (r.attempt + 1)).at s _ h refl)
  resume_settled-advance event r reconcile s h =
      absurd ((execute-IsOther event (r.attempt + 1)).at s _ h refl)

  IsJudged-advance :
      (event : PlannedEvent) (l : Listing) (s : Engine.Run W) (result : Reconciliation)
      → result.next_action ≡ advance
      → IsJudged setup event l s.context result
      → IsThere setup event l s.context
  IsJudged-advance event l s result a (inl (_, h)) = h
  IsJudged-advance event l s result a (inr (inl p)) = cc
  IsJudged-advance event l s result a (inr (inr (p, _))) = cc

  -- An append that the journal left in flight is reported as resumed only when the server, asked for
  -- the comments or the attachments of the event's bug, lists one entry, and no second one, that
  -- carries the event's marker.
  pub advance_event-once :
      (event : PlannedEvent) (r : InFlightRecord) (l : Listing) (s : Engine.Run W)
      → listing_of event.action ≡ some l
      → (Engine.advance_event setup event (some (in_flight r)) s).0 ≡ ok Engine.resumed
      → IsThere setup event l s.context
  unfolding Engine.advance_event
  advance_event-once event r l s known h =
      let (result, q, h') = bind-ok (Engine.settle setup event r.attempt none) _ s h in
      IsJudged-advance event l s result (resume_settled-advance event r result.next_action _ h') (
        reconcile-IsJudged setup event l s.context result known
          (settle-reconcile event r.attempt none s result q))

  resume_settled-sent :
      (event : PlannedEvent) (r : InFlightRecord) (l : Listing) (s s' : Engine.Run W)
      (next : NextAction)
      → ((next ≡ advance) × IsThere setup event l s.context)
        ⊎ ((next ≡ stop) ⊎ ((next ≡ retry) × IsMissing setup event l s.context))
      → (sent_of (Engine.resume_settled setup event r next s').1 ≡ sent_of s')
        ⊎ IsMissing setup event l s.context
  unfolding Engine.resume_settled
  resume_settled-sent event r l s s' advance h = inl refl
  resume_settled-sent event r l s s' stop h = inl refl
  resume_settled-sent event r l s s' next (inr (inr (_, h))) = inr h
  resume_settled-sent event r l s s' retry (inl (p, _)) = cc
  resume_settled-sent event r l s s' retry (inr (inl p)) = cc
  resume_settled-sent event r l s s' reconcile (inl (p, _)) = cc
  resume_settled-sent event r l s s' reconcile (inr (inl p)) = cc

  -- The engine's step over an append that the journal left in flight, whether it returns or raises,
  -- sends no mutation, unless the server, asked for the comments or the attachments of the event's
  -- bug, lists no entry that carries the event's marker.
  pub advance_event-unsent :
      (event : PlannedEvent) (r : InFlightRecord) (l : Listing) (s : Engine.Run W)
      → listing_of event.action ≡ some l
      → (sent_of (Engine.advance_event setup event (some (in_flight r)) s).1 ≡ sent_of s)
        ⊎ IsMissing setup event l s.context
  unfolding Engine.advance_event Exec.◌>>=◌
  advance_event-unsent event r l s known =
      by_answer (Engine.settle setup event r.attempt none s).0 refl
    where
      after : Engine.Run W
      after = (Engine.settle setup event r.attempt none s).1

      quiet : sent_of after ≡ sent_of s
      quiet = (settle-Silent setup event r.attempt none).at s

      by_answer :
          (answer : Result Reconciliation)
          → (Engine.settle setup event r.attempt none s).0 ≡ answer
          → (sent_of
                (continue answer
                  (λ result. Engine.resume_settled setup event r result.next_action)
                  after).1
              ≡ sent_of s)
            ⊎ IsMissing setup event l s.context
      by_answer (err e) q = inl quiet
      by_answer (ok result) q =
          elim (resume_settled-sent event r l s after result.next_action (
            reconcile-IsJudged setup event l s.context result known
              (settle-reconcile event r.attempt none s result q))) [
                | inl same ↦ inl (same ∙ quiet)
                | inr h ↦ inr h
              ]
