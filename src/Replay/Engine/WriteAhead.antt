-- ===== src/Replay/Engine/WriteAhead.antt =====
-- Nothing is sent before the attempt is in the journal.
use bzr_live.Common.{
  ℕ, ℤ, String, List, Option, none, some, Result, ok, err, ◌≡◌, refl, ◌∙◌, ◌⊎◌, inl, inr,
}
use bzr_live.Value.{Value}
use bzr_live.Exec.{Exec, ◌>>=◌, continue}
use bzr_live.Exec.Preserves.{Preserves, preserves_rules}
use bzr_live.Journal.Directory.{JournalStore}
use bzr_live.Journal.FileName.{filename}
use bzr_live.Journal.Record.{CompletedRecord, NextAction, advance, reconcile, retry, stop}
use bzr_live.Journal.Store
use bzr_live.Journal.Store.Files.{HasFile, write_in_flight-HasFile, replace_completed-HasFile}
use bzr_live.Scenario.{PlannedEvent}
use bzr_live.Replay.Context.{Context, Setup, actor_key}
use bzr_live.Replay.Context.Quiet.{actor_key-Quiet}
use bzr_live.Replay.Handlers
use bzr_live.Replay.Handlers.Quiet.{build-Quiet}
use bzr_live.Replay.Invocation.{Invocation}
use bzr_live.Replay.Engine
use bzr_live.Replay.Engine.Sends.{sent_of, Silent, on_context-Silent, begin_attempt-Silent}

module _ {W : Type 0} (setup : Setup W) (name : String) where
  -- the journal holds a file of that name
  abbrev Journaled : Engine.Run W → Type 0
  Journaled s = HasFile name s.store

  on_context-Journaled :
      {A : Type 0} (m : Exec (Context W) A) → Preserves Journaled (Engine.on_context m)
  unfolding Engine.on_context
  on_context-Journaled m = record { at = λ s h. h }

  stored-Journaled :
      (s : Engine.Run W) (r : Result JournalStore)
      → ((t : JournalStore) → r ≡ ok t → HasFile name t)
      → Journaled s
      → Journaled (Engine.stored s r).1
  unfolding Engine.stored
  stored-Journaled s (ok t) k h = k t refl
  stored-Journaled s (err e) k h = h

  write_completed-Journaled :
      (event : PlannedEvent) (n : ℕ) (i : Invocation) (v : Value) (x : ℤ) (ids : List (String × ℕ))
      (next : NextAction)
      → Preserves Journaled (Engine.write_completed setup event n i v x ids next)
  unfolding Engine.write_completed Engine.on_store
  write_completed-Journaled event n i v x ids next = record {
    at = λ s h.
        let c : CompletedRecord = record {
          identity = Engine.identity_for setup event n;
          invocation = i.metadata;
          handler_output = v;
          exit_status = x;
          resolved_ids = ids;
          next_safe_action = next;
        } in
        let known = Engine.known_secrets s in
        stored-Journaled s (Store.replace_completed c known s.store)
          (λ t p. (replace_completed-HasFile c known s.store name h).at p) h;
  }

  rebuilt-Journaled :
      (event : PlannedEvent) (given : Option Invocation)
      → Preserves Journaled (Engine.rebuilt setup event given)
  unfolding Engine.rebuilt
  rebuilt-Journaled event (some i) = search preserves_rules
  rebuilt-Journaled event none = on_context-Journaled _

  adopt_when-Journaled :
      (next : NextAction) (ids : List (String × ℕ))
      → Preserves Journaled (Engine.adopt_when setup next ids)
  unfolding Engine.adopt_when
  adopt_when-Journaled advance ids = on_context-Journaled _
  adopt_when-Journaled retry ids = search preserves_rules
  adopt_when-Journaled stop ids = search preserves_rules
  adopt_when-Journaled reconcile ids = search preserves_rules

  settle-Journaled :
      (event : PlannedEvent) (n : ℕ) (given : Option Invocation)
      → Preserves Journaled (Engine.settle setup event n given)
  unfolding Engine.settle
  settle-Journaled event n given =
      search
        (
          preserves_rules, on_context-Journaled, rebuilt-Journaled, write_completed-Journaled,
          adopt_when-Journaled,
        )
        depth 12

  after_failure-Journaled :
      (next : NextAction) → Preserves Journaled (Engine.after_failure setup next)
  unfolding Engine.after_failure
  after_failure-Journaled advance = search preserves_rules
  after_failure-Journaled retry = search preserves_rules
  after_failure-Journaled stop = search preserves_rules
  after_failure-Journaled reconcile = search preserves_rules

  conclude-Journaled :
      (event : PlannedEvent) (n : ℕ) (i : Invocation) (r : Result (Value × List (String × ℕ)))
      → Preserves Journaled (Engine.conclude setup event n i r)
  unfolding Engine.conclude
  conclude-Journaled event n i (ok (output, ids)) =
      search (preserves_rules, on_context-Journaled, write_completed-Journaled) depth 12
  conclude-Journaled event n i (err e) =
      search (preserves_rules, settle-Journaled, after_failure-Journaled) depth 12

module _ {W : Type 0} (setup : Setup W) where
  -- the log has not changed, or the attempt is in the journal
  abbrev WroteAhead : String → Engine.Run W → Engine.Run W → Type 0
  WroteAhead name s s' = (sent_of s' ≡ sent_of s) ⊎ HasFile name s'.store

  -- `m` has sent nothing when it ends, or the journal holds the file.
  record WritesAhead {A : Type 0} (name : String) (m : Exec (Engine.Run W) A) : Type 0 where
    at : (s : Engine.Run W) → WroteAhead name s (m s).1

  module _ {A B : Type 0} (name : String) where
    unsent :
        (r : Result A) (k : A → Exec (Engine.Run W) B) (s s' : Engine.Run W)
        → sent_of s' ≡ sent_of s
        → ((a : A) → WritesAhead name (k a))
        → WroteAhead name s (continue r k s').1
    unsent (ok a) k s s' p kk = elim ((kk a).at s') [ inl q ↦ inl (q ∙ p) | inr h ↦ inr h ]
    unsent (err e) k s s' p kk = inl p

    -- nothing is sent before
    WritesAhead-after :
        (m : Exec (Engine.Run W) A) (k : A → Exec (Engine.Run W) B)
        → Silent m
        → ((a : A) → WritesAhead name (k a))
        → WritesAhead name (m >>= k)
    unfolding ◌>>=◌
    WritesAhead-after m k km kk = record {
      at = λ s. let (r, s') = m s in unsent r k s s' (km.at s) kk;
    }

    written :
        (r : Result A) (k : A → Exec (Engine.Run W) B) (s s' : Engine.Run W)
        → sent_of s' ≡ sent_of s
        → ((a : A) → r ≡ ok a → HasFile name s'.store)
        → ((a : A) → Preserves (Journaled setup name) (k a))
        → WroteAhead name s (continue r k s').1
    written (ok a) k s s' p h kk = inr ((kk a).at s' (h a refl))
    written (err e) k s s' p h kk = inl p

    -- the file is written, and stays
    WritesAhead-before :
        (m : Exec (Engine.Run W) A) (k : A → Exec (Engine.Run W) B)
        → Silent m
        → ((s : Engine.Run W) (a : A) → (m s).0 ≡ ok a → HasFile name (m s).1.store)
        → ((a : A) → Preserves (Journaled setup name) (k a))
        → WritesAhead name (m >>= k)
    unfolding ◌>>=◌
    WritesAhead-before m k km h kk = record {
      at = λ s. let (r, s') = m s in written r k s s' (km.at s) (h s) kk;
    }

  stored-HasFile :
      (name : String) (s : Engine.Run W) (r : Result JournalStore) {u : Unit {0}}
      → ((t : JournalStore) → r ≡ ok t → HasFile name t)
      → (Engine.stored s r).0 ≡ ok u
      → HasFile name (Engine.stored s r).1.store
  unfolding Engine.stored
  stored-HasFile name s (ok t) k h = k t refl
  stored-HasFile name s (err e) k h = cc

  begin_attempt-HasFile :
      (event : PlannedEvent) (n : ℕ) (s : Engine.Run W) (u : Unit {0})
      → (Engine.begin_attempt setup event n s).0 ≡ ok u
      → HasFile (filename event.name n) (Engine.begin_attempt setup event n s).1.store
  unfolding Engine.begin_attempt Engine.on_store
  begin_attempt-HasFile event n s u h =
      stored-HasFile (filename event.name n) s _
        (λ t p.
          write_in_flight-HasFile (Engine.identity_for setup event n) (Engine.known_secrets s)
            s.store p)
        h

  execute-WritesAhead :
      (event : PlannedEvent) (n : ℕ)
      → WritesAhead (filename event.name n) (Engine.execute setup event n)
  unfolding Engine.execute
  execute-WritesAhead event n =
      WritesAhead-after (filename event.name n) (Engine.on_context (actor_key setup event.actor)) _
        (on_context-Silent _ (actor_key-Quiet setup event.actor))
        (λ key.
          WritesAhead-after (filename event.name n) (Engine.on_context (Handlers.build setup event))
            _ (on_context-Silent _ (build-Quiet setup event))
            (λ i.
              WritesAhead-before (filename event.name n) (Engine.begin_attempt setup event n) _
                (begin_attempt-Silent setup event n) (begin_attempt-HasFile event n)
                (λ _. search (preserves_rules, on_context-Journaled, conclude-Journaled))))

  -- However `_execute` ends, it has sent nothing, or the journal holds the file of the event and the
  -- attempt.
  pub execute-writes_ahead :
      (event : PlannedEvent) (n : ℕ) (s : Engine.Run W)
      → (sent_of (Engine.execute setup event n s).1 ≡ sent_of s)
        ⊎ HasFile (filename event.name n) (Engine.execute setup event n s).1.store
  execute-writes_ahead event n s = (execute-WritesAhead event n).at s
