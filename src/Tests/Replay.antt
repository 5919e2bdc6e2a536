-- ===== src/Tests/Replay.antt =====
-- The theorems on the replay engine at concrete inputs.
use bzr_live.Common.{
  pos, List, ◌+◌, ◌≤◌, String, true, false, not, ◌&&◌, [], ◌∷◌, ◌++◌, map, none, some, ok, ◌≡◌,
  refl, ◌⊎◌, strip_prefix, length,
}
use bzr_live.Value.Equality.{eq_value}
use bzr_live.Value.{Value, int, bool, null, str, obj, Items, nil, cons, end, field}
use bzr_live.Exec.Keeps.{IsRefused}
use bzr_live.Exec.Logs.{IsOneMore}
use bzr_live.Journal.FileName.{filename}
use bzr_live.Journal.Record.{completed, in_flight}
use bzr_live.Journal.Store.Files.{HasFile}
use bzr_live.Replay.Appends.Judged.{Listing, IsThere, IsMissing}
use bzr_live.Replay.Context
use bzr_live.Replay.Context.{Setup}
use bzr_live.Replay.Delta.{delta, mem, without}
use bzr_live.Replay.Delta.Laws.{delta_reaches}
use bzr_live.Replay.Engine.{Status, skipped, resumed, execute, advance_event, run}
use bzr_live.Replay.Engine.Resumed.{advance_event-once, advance_event-unsent}
use bzr_live.Replay.Engine.Report.{run-IsDone, Untouched}
use bzr_live.Replay.Engine.Sends.{sent_of, advance_event-sends}
use bzr_live.Replay.Engine.WriteAhead.{execute-writes_ahead}
use bzr_live.Replay.Start.{is_attempt, replay, resume}
use bzr_live.Replay.Start.Bounds.{resume-names, resume-sends, replay-sends, replay-refuses}
use bzr_live.Tests.Data.{
  lists, note_begun, begun, setup, start, note, note_done, replayed, scenario,
}

-- the comment is sent
execute_sends : length (sent_of (execute setup note 1 start).1) ≡ 1
unfolding execute Context.resolve
execute_sends = refl

execute-writes_ahead_example :
    (sent_of (execute setup note 1 start).1 ≡ sent_of start)
    ⊎ HasFile (filename "note" 1) (execute setup note 1 start).1.store
execute-writes_ahead_example = execute-writes_ahead setup note 1 start

advance_event-sends_example : IsOneMore [] (advance_event setup note none start).1.context.sent
advance_event-sends_example = advance_event-sends setup note none start

replay-refuses_example : IsRefused replayed (replay setup replayed)
unfolding is_attempt
replay-refuses_example = replay-refuses setup replayed refl

resume_skips : (resume setup replayed).0 ≡ ok ((skipped, "note") ∷ [])
unfolding resume
resume_skips = refl

resume-names_example :
    map {A = Status × String} (λ line. line.1) ((skipped, "note") ∷ [])
    ≡ map (λ e. e.name) scenario.events
resume-names_example = resume-names setup replayed resume_skips

resume-sends_example : length (sent_of (resume setup start).1) ≤ 0 + 1
resume-sends_example = resume-sends setup start

replay-sends_example : length (sent_of (replay setup start).1) ≤ 0 + 1
replay-sends_example = replay-sends setup start

run-IsDone_example :
    ((run setup ((note, some (completed note_done)) ∷ []) replayed).0 ≡ ok ((skipped, "note") ∷ []))
    × Untouched setup replayed (run setup ((note, some (completed note_done)) ∷ []) replayed).1
run-IsDone_example = run-IsDone setup ((note, some (completed note_done)) ∷ []) replayed (refl, tt)

-- two comments of which one carries the marker of the event
abbrev comments : Items
comments =
    cons (obj (field "text" (str "first") end))
      (cons (obj (field "text" (str "seen again\n\n[bzr-live:demo:note]") end)) nil)

abbrev listing : Listing
listing = record { args = "comment" ∷ "list" ∷ []; field = "text" }

taken_for_done :
    (advance_event (lists comments) note (some (in_flight note_begun)) begun).0 ≡ ok resumed
unfolding advance_event Context.resolve strip_prefix
taken_for_done = refl

advance_event-once_example : IsThere (lists comments) note listing begun.context
advance_event-once_example =
    advance_event-once (lists comments) note note_begun listing begun refl taken_for_done

-- the comment is sent again where no entry carries its marker
sent_again :
    length (sent_of (advance_event (lists nil) note (some (in_flight note_begun)) begun).1) ≡ 1
unfolding advance_event Context.resolve strip_prefix
sent_again = refl

advance_event-unsent_example :
    (sent_of (advance_event (lists nil) note (some (in_flight note_begun)) begun).1 ≡ [])
    ⊎ IsMissing (lists nil) note listing begun.context
advance_event-unsent_example = advance_event-unsent (lists nil) note note_begun listing begun refl

abbrev declared_ids : List Value
declared_ids = int (pos 2) ∷ int (pos 3) ∷ []

abbrev observed_ids : List Value
observed_ids = bool true ∷ int (pos 2) ∷ null ∷ []

abbrev after_delta : List Value
after_delta =
    without eq_value observed_ids (delta eq_value declared_ids observed_ids).1
    ++ (delta eq_value declared_ids observed_ids).0

delta_reaches_example :
    (mem eq_value (int (pos 1)) after_delta ≡ mem eq_value (int (pos 1)) declared_ids)
    × ((mem eq_value (int (pos 1)) (delta eq_value declared_ids observed_ids).0
          && mem eq_value (int (pos 1)) observed_ids)
        ≡ false)
    × ((mem eq_value (int (pos 1)) (delta eq_value declared_ids observed_ids).1
          && not (mem eq_value (int (pos 1)) observed_ids))
        ≡ false)
delta_reaches_example =
    delta_reaches declared_ids observed_ids (int (pos 1)) (refl, (refl, tt))
      (refl, (refl, (refl, tt))) refl
