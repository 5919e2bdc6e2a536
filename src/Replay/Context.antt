-- ===== src/Replay/Context.antt =====
-- replay/context.py: `class ReplayContext`. `Setup` holds what its constructor is given and never
-- changes, `Context` what its methods change. `sent` is a log of the mutations handed to a boundary,
-- oldest first; the program keeps no such log.
pub mod Quiet
pub mod Sends
use Prim.Native.Char.{code}
use Prim.Native.String.{◌++◌}
use mathlib.Core.List.{◌++◌ as ◌++ₗ◌}
use bzr_live.Common.{
  Bool, true, false, ℕ, suc, ◌/◌, ◌%◌, ℤ, String, List, [], ◌∷◌, Option, none, some, ◌==ₛ◌, ◌==◌,
  ltb, count_char, if◌then◌else◌, any_of, Result, ok, err, replay_error, provision_error, key_error,
  os_error, or_raise,
}
use bzr_live.Value.{Reference, identity, Value, str, Fields, get}
use bzr_live.Exec.{Exec, pure, raise, lift, modify, ◌>>=◌, ◌>>◌}
use bzr_live.Journal.Record.{bzr, rest_custom_field}
use bzr_live.Journal.FileName.{digit, decimal}
use bzr_live.Scenario.{Asset, PlannedResource, ValidatedScenario}
use bzr_live.Provision.Client
use bzr_live.Provision.Client.{Fixture, BzrClient, bug_absent_codes}
use bzr_live.Replay.Invocation.{Invocation}

-- a file in the scratch workspace: text, a JSON document, or bytes
pub data Content : Type 0 where
  text : String → Content
  json : Fields → Content
  bytes : List ℕ → Content

-- `actor_key` of the key store, which raises or answers `None`
pub record Setup (W : Type 0) : Type 0 where
  pub scenario : ValidatedScenario
  pub stored_key : String → Result (Option String)
  pub fixture : Fixture W
  pub workspace_path : String
  -- `str` of a float or of a container
  pub show_other : Value → String

pub record Context (W : Type 0) : Type 0 where
  pub world : W
  pub keys_seen : List (String × String)
  pub ids : List (String × ℕ)
  pub files : ℕ
  pub workspace : List (String × Content)
  pub sent : List Invocation

-- `mapping[key]` for an association list
unfoldable pub lookup {ℓ} : {A : Type ℓ} → String → List (String × A) → Option A
lookup key [] = none
lookup key ((k, v) ∷ m) = if k ==ₛ key then some v else lookup key m

-- `str(n)`
unfoldable pub show_ℕ : ℕ → String
unfolding decimal
show_ℕ n = decimal (suc n) n ""

-- `f"{n:04d}"`
unfoldable pub pad4 : ℕ → String
unfolding digit show_ℕ
pad4 n =
    if ltb n 10_000
    then String.◌∷◌ (digit (n / 1_000 % 10)) (
        String.◌∷◌ (digit (n / 100 % 10))
          (String.◌∷◌ (digit (n / 10 % 10)) (String.◌∷◌ (digit (n % 10)) "")))
    else show_ℕ n

-- `Path(path).name`: what follows the last slash
basename : String → String
unfolding count_char
basename String.[] = ""
basename (String.◌∷◌ c s) =
    let rest = basename s in
    if ltb 0 (count_char b'/' s) then rest else (if code c == b'/' then s else String.◌∷◌ c s)

-- `resource`; the scenario's identities are distinct
find_resource : String → String → List PlannedResource → Option PlannedResource
find_resource kind name [] = none
find_resource kind name (r ∷ rs) =
    let rest = find_resource kind name rs in
    if r.kind ==ₛ kind then (if r.name ==ₛ name then some r else rest) else rest

email_of : PlannedResource → Result String
unfolding get
email_of r = elim (get "email" r.fields) [ some (str s) ↦ ok s | _ ↦ err (key_error "email") ]

find_asset : String → List Asset → Option Asset
find_asset name [] = none
find_asset name (a ∷ as') =
    let rest = find_asset name as' in if a.name ==ₛ name then some a else rest

module _ {W : Type 0} (setup : Setup W) where
  open setup use {scenario, stored_key, fixture, workspace_path}

  -- `actor_email`
  unfoldable pub actor_email : Reference → Exec (Context W) String
  unfolding find_resource email_of ◌>>=◌
  actor_email actor = do
    r ← lift (
        or_raise (find_resource "actor" actor.name scenario.resources)
          (replay_error "is not declared in this scenario"))
    lift (email_of r)

  remember_key : String → Result (Option String) → Exec (Context W) String
  remember_key name (err e) c = (err e, c)
  remember_key name (ok none) c = (err (replay_error "no API key for actor"), c)
  remember_key name (ok (some key)) c = (ok key, record c { keys_seen = (name, key) ∷ c.keys_seen })

  -- the key that was read before, or the stored one
  key_or_ask : String → Option String → Exec (Context W) String
  unfolding remember_key
  key_or_ask name (some key) c = (ok key, c)
  key_or_ask name none c = remember_key name (stored_key name) c

  -- `actor_key`
  unfoldable pub actor_key : Reference → Exec (Context W) String
  unfolding key_or_ask lookup
  actor_key actor c = key_or_ask actor.name (lookup actor.name c.keys_seen) c

  -- `client`
  unfoldable pub client : Reference → Exec (Context W) BzrClient
  unfolding actor_key actor_email ◌>>=◌
  client actor = do
    key ← actor_key actor
    email ← actor_email actor
    pure (record { api_key = key; admin_email = email })

  -- a call of a boundary, which changes the server alone
  unfoldable pub on_world : {A : Type 0} → Exec W A → Exec (Context W) A
  on_world m c = let (r, w) = m c.world in (r, record c { world = w })

  -- `client(actor).read(…)`
  unfoldable pub read_as : Reference → List String → List String → List ℤ → Exec (Context W) Value
  unfolding client on_world Client.read ◌>>=◌
  read_as actor args positionals absent = do
    as_client ← client actor
    on_world (Client.read fixture as_client args positionals absent)

  -- `read_bug`
  unfoldable pub read_bug : Reference → List String → Exec (Context W) Value
  unfolding read_as
  read_bug actor positionals = read_as actor ("bug" ∷ "view" ∷ []) positionals bug_absent_codes

  -- `resolve`
  unfoldable pub resolve : Reference → Exec (Context W) ℕ
  unfolding lookup
  resolve r c = (or_raise (lookup (identity r) c.ids) (replay_error "has no server id"), c)

  -- `adopt`
  unfoldable pub adopt : List (String × ℕ) → Exec (Context W) Unit
  adopt resolved = modify (λ c. record c { ids = resolved ++ₗ c.ids })

  -- the file is created, unless its name is taken
  create_file : Bool → String → Content → Exec (Context W) String
  create_file true name content c = (err os_error, c)
  create_file false name content c =
      (ok (workspace_path ++ ("/" ++ name)), record c { workspace = (name, content) ∷ c.workspace })

  -- `_write_private`
  unfoldable pub write_private : String → Content → Exec (Context W) String
  unfolding create_file
  write_private name content c = create_file (any_of (λ f. f.0 ==ₛ name) c.workspace) name content c

  -- the number of the next file, `self._files` after its increment
  unfoldable pub next_file : Exec (Context W) ℕ
  next_file c = (ok (suc c.files), record c { files = suc c.files })

  -- `text_file`
  unfoldable pub text_file : String → String → Exec (Context W) String
  unfolding next_file write_private pad4 ◌>>=◌
  text_file stem content = do
    n ← next_file
    write_private (pad4 n ++ ("-" ++ (stem ++ ".txt"))) (text content)

  -- `json_file`
  unfoldable pub json_file : String → Fields → Exec (Context W) String
  unfolding next_file write_private pad4 ◌>>=◌
  json_file stem document = do
    n ← next_file
    write_private (pad4 n ++ ("-" ++ (stem ++ ".json"))) (json document)

  write_asset : Asset → Exec (Context W) String
  unfolding next_file write_private pad4 basename ◌>>=◌
  write_asset asset = do
    n ← next_file
    write_private (pad4 n ++ ("-asset/" ++ basename asset.path)) (bytes asset.content)

  -- `asset_file`, in a directory of its own
  unfoldable pub asset_file : String → String → Exec (Context W) String
  unfolding find_asset write_asset ◌>>=◌
  asset_file name expected = do
    asset ← lift (or_raise (find_asset name scenario.assets) (key_error name))
    if asset.sha256 ==ₛ expected
        then write_asset asset
        else raise (replay_error "the scenario and its journal disagree")

  log_sent : Invocation → Exec (Context W) Unit
  log_sent invocation = modify (λ c. record c { sent = c.sent ++ₗ invocation ∷ [] })

  put_fields : String → Option (ℕ × Fields) → Exec (Context W) Value
  unfolding on_world Client.assign_bug_custom_fields
  put_fields key none = raise (provision_error "bug id must be an integer")
  put_fields key (some (bug_id, values)) =
      on_world (Client.assign_bug_custom_fields fixture key bug_id values)

  send_rest : Reference → Invocation → Exec (Context W) Value
  unfolding actor_key log_sent put_fields ◌>>=◌
  send_rest actor invocation = do
    key ← actor_key actor
    log_sent invocation
    put_fields key invocation.rest_target

  send_bzr : Reference → Invocation → Exec (Context W) Value
  unfolding client log_sent on_world Client.write ◌>>=◌
  send_bzr actor invocation = do
    as_client ← client actor
    log_sent invocation
    on_world (Client.write fixture as_client invocation.args invocation.positionals)

  -- `invoke`: the boundary that the metadata names
  unfoldable pub invoke : Reference → Invocation → Exec (Context W) Value
  unfolding send_rest send_bzr
  invoke actor invocation = elim invocation.metadata.mutation_boundary [
    | rest_custom_field ↦ send_rest actor invocation
    | bzr ↦ send_bzr actor invocation
  ]
