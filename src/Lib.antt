-- ===== src/Lib.antt =====
-- bzr-live replays a validated scenario against a Bugzilla server through the bzr binary and a REST
-- call, and keeps a journal of its attempts, so that a run that broke off can be resumed without
-- sending a mutation twice. This library models the replay engine and the parts below it, all under
-- src/bzr_live.
--
-- The parts and their files:
-- - Common: shared names, Boolean tests, texts, results. `Error` has the exceptions of the program,
--   by a message without the values that are formatted into it.
-- - Value: the dynamic values of scenario/model.py. `Value/Equality` is Python's `==` on them,
--   `Value/Planned` is `freeze_planned` and `planned_to_json`. A dict and a read-only mapping are
--   both `obj`; a tuple and a list stay apart.
-- - Scenario: the validated scenario of scenario/model.py.
-- - Loader: scenario/loader.py. `Checks` has the checks on the parts of a document, `Resource` is
--   `_parse_resource`, `Plan` the loop that orders the resources, `Catalog` `_validate_resources`,
--   `Resolve` the references and the assignments of custom fields, `Create` `_create_payload`,
--   `Update` `_update_set`, `Actions` and `Events` `_validate_events`, `Assets` `_validate_assets`,
--   and `Load` `load_scenario`.
-- - Patterns: the regular expressions for names, digests, numbers and the like.
-- - Journal: scenario/journal.py. `Record` and `Check` are the records and their constructors,
--   `Validate` and `Postcondition` what these check, `Json` the values of a handler's output,
--   `Secrets` and `Redaction` the removal of secrets, `FileName` the names of attempt files,
--   `Directory` the reading of an event's attempts, `Store` the two writes.
-- - Provision/Client: `BzrClient.read`, `BzrClient.write` and `assign_bug_custom_fields` of
--   provision/adapters.py, as functions of what the process or the server answers.
-- - Exec: actions that change an object and may raise. `Keeps`, `Logs`, `Preserves` and `Inversion`
--   have the rules by which the proofs follow such an action.
-- - Replay: `Context` is replay/context.py; `Values`, `Append`, `Delta`, `Supported`, `Create`,
--   `Update`, `Appends`, `Sets` and `Handlers` are replay/actions.py; `Engine` is the step over one
--   event and the run of replay/engine.py, `Start` is its `replay` and `resume`.
-- - Verify: of verify/expected.py, the edges between bugs and `_link` (`Links`), and `reachable`
--   (`Reach`), which takes the other ends of the edges of each bug in their sorted order.
-- - Tests: each theorem at a concrete input, and some runs.
--
-- How they interact: the loader (`Load.load_scenario`) makes the scenario that a setup of the engine
-- holds. The engine (`Engine.run`) asks the handlers for an invocation, writes the attempt
-- as in flight (`Store.write_in_flight`), hands the invocation to the context (`Context.invoke`),
-- which calls the boundary that its metadata names, and completes the record
-- (`Store.replace_completed`). When the boundary raises, it settles the event: the handler reads the
-- server and says whether the mutation took place. The state of a run is a context and a journal
-- store. A method is a function of that state to a result and the state that it leaves, so what was
-- written before a raise stays written.
--
-- Parameters: `Fixture W` is the bzr process and the REST server, in a state `W` of any type that a
-- call may change; `Setup` holds it with the scenario, the answers of the key store, and `str` of
-- the values that no handler prints. `Context.sent` is a log of the mutations handed to a boundary,
-- which the program does not keep.
--
-- The loader takes an `Outside`: the reading of files, UTF-8, `json.loads`, `json.dumps` and SHA-256.
-- A decoded object keeps repeated keys, as the pairs do that the source decodes to. What the source
-- keeps in sets, `available` and the like, is a list; `_update_set` goes over the fields of an update
-- in the order of a set, so the error for several faulty fields may be that of another one.
--
-- Bounds and fuel: the planning loop takes fuel for one round more than there are resources, since
-- each round plans one. The search for reachable bugs takes fuel for as many rounds as there are
-- bugs, since each round but the last finds one. The removal of secrets repeats as long as the text
-- shrinks, so its fuel is the size of the text. The decimal digits of a number take fuel above the
-- number. Attempts are natural numbers, and 0 stands for every attempt that is not positive.
--
-- Not modelled: the codec between a record and its JSON text (a file holds the record that it
-- decodes to), temporary files, locks, access control lists and failing system calls; `isinstance`
-- checks that the types of the model decide; surrogates, which no text of the model holds; the
-- provision executor and key store, the rest of verification, checkpoints and the command lines.
pub mod Common
pub mod Patterns
pub mod Value
pub mod Journal
pub mod Exec
pub mod Scenario
pub mod Loader
pub mod Provision
pub mod Replay
pub mod Verify
pub mod Tests
