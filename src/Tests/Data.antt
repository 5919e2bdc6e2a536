-- ===== src/Tests/Data.antt =====
-- A scenario with one comment, on a server that answers each call with the same object.
use bzr_live.Common.{pos, String, true, false, [], ◌∷◌, none, some, ok}
use bzr_live.Value.{Reference, null, bool, int, str, ref, list, obj, Items, end, field}
use bzr_live.Journal.Directory.{StoredFile}
use bzr_live.Journal.Record.{
  InFlightRecord, CompletedRecord, in_flight, completed, advance, bzr, append,
}
use bzr_live.Provision.Client.{Fixture, answered}
use bzr_live.Scenario.{PlannedEvent, PlannedResource, ValidatedScenario}
use bzr_live.Replay.Context.{Setup}
use bzr_live.Replay.Engine.{Run, identity_for}

abbrev pub alice : Reference
alice = record { kind = "actor"; name = "alice" }

abbrev pub crash : Reference
crash = record { kind = "bug"; name = "crash" }

abbrev pub note_marker : String
note_marker = "bzr-live:demo:note"

abbrev pub note : PlannedEvent
note = record {
  name = "note";
  actor = alice;
  action = "bug.comment";
  action_class = append;
  payload = end;
  dependencies = [];
  reconciliation_marker = note_marker;
  expected_postcondition = field "action" (str "bug.comment") (
      field "target" (ref crash) (
        field "values" (obj (field "body" (str "seen again") (field "private" (bool false) end)))
          (field "marker" (str note_marker) end)));
  creates = none;
}

abbrev alice_account : PlannedResource
alice_account = record {
  kind = "actor";
  name = "alice";
  fields = field "email" (str "alice@example.test") end;
  dependencies = [];
}

abbrev pub scenario : ValidatedScenario
scenario = record {
  name = "demo";
  description = "";
  format_version = 1;
  resources = alice_account ∷ [];
  resource_plan = alice_account ∷ [];
  events = note ∷ [];
  assets = [];
  digest = "0123456789abcdef0123456789abcdef0123456789abcdef0123456789abcdef";
}

-- a server that answers each call with one bug, and counts nothing
abbrev pub server : Fixture (Unit {0})
server = record {
  run = λ client args positionals w. (
    some (record {
      returncode = pos 0;
      reply = some (obj (field "id" (int (pos 7)) end));
      silent = false;
      api_code = none;
    }),
    w,
  );
  open_rest = λ key bug_id values w. (answered (some (obj end)), w);
}

abbrev pub setup : Setup (Unit {0})
setup = record {
  scenario = scenario;
  stored_key = λ name. ok (some "hunter2hunter2");
  fixture = server;
  workspace_path = "/tmp/replay";
  show_other = λ v. "";
}

-- a server that lists these comments, whatever it is asked
abbrev pub lister : Items → Fixture (Unit {0})
lister items = record {
  run = λ client args positionals w. (
    some
        (record { returncode = pos 0; reply = some (list items); silent = false; api_code = none }),
    w,
  );
  open_rest = λ key bug_id values w. (answered (some (obj end)), w);
}

abbrev pub lists : Items → Setup (Unit {0})
lists items = record setup { fixture = lister items }

-- the comment as a run that was stopped left it
abbrev pub note_begun : InFlightRecord
note_begun = identity_for setup note 1

abbrev pub start : Run (Unit {0})
start = record {
  context = record {
    world = tt;
    keys_seen = [];
    ids = ("bug:crash", 7) ∷ [];
    files = 0;
    workspace = [];
    sent = [];
  };
  store = record { is_open = true; files = [] };
}

-- the comment as it is journalled by an earlier run
abbrev pub note_done : CompletedRecord
note_done = record {
  identity = identity_for setup note 1;
  invocation = record {
    mutation_boundary = bzr;
    operation = "comment add";
    arguments = [];
    environment_names = [];
  };
  handler_output = null;
  exit_status = pos 0;
  resolved_ids = [];
  next_safe_action = advance;
}

abbrev pub note_file : StoredFile
note_file = record {
  regular = true;
  mode_0600 = true;
  owned = true;
  content = ok (completed note_done);
}

abbrev pub replayed : Run (Unit {0})
replayed = record start {
  store = record { is_open = true; files = ("note.000001.json", note_file) ∷ [] };
}

abbrev pub begun_file : StoredFile
begun_file = record note_file { content = ok (in_flight note_begun) }

abbrev pub begun : Run (Unit {0})
begun = record start {
  store = record { is_open = true; files = ("note.000001.json", begun_file) ∷ [] };
}
