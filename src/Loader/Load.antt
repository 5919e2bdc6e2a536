-- ===== src/Loader/Load.antt =====
-- scenario/loader.py: `load_scenario`. What the loader calls are the fields of `Outside`.
pub mod Sound
use mathlib.Core.List.{◌++◌ as ◌++ₗ◌}
use Prim.Native.Char.{code}
use Prim.Native.String.{[], ◌∷◌, ◌++◌}
use bzr_live.Common.{
  ℕ, zero, suc, pos, String, Bool, true, false, List, [], ◌∷◌, map, Option, none, some, is_blank,
  Result, ok, err, invalid, ◌>>=◌, ◌>>◌, or_raise, if◌then◌else◌,
}
use bzr_live.Value.{Value, int, str, list, obj, Items, nil, cons, Fields, end, field}
use bzr_live.Value.Planned.{planned_fields}
use bzr_live.Scenario.{Asset, PlannedResource, PlannedEvent, ValidatedScenario}
use bzr_live.Loader.Checks.{
  decode_pairs, object_of, member, member_or, version_of, name_of, text_of,
}
use bzr_live.Loader.Assets.{split_all, validate_assets}
use bzr_live.Loader.Catalog.{validate_resources}
use bzr_live.Loader.Events.{validate_events}

-- what the loader calls and the repository does not hold
pub record Outside : Type 0 where
  -- `_read_regular`, by the name below the scenario's directory
  pub read_regular : String → Result (List ℕ)
  -- `_read_asset`, by the path
  pub read_asset : String → Result (List ℕ)
  -- `bytes.decode("utf-8")`
  pub decode : List ℕ → Option String
  -- `str.encode("utf-8")`
  pub encode : String → List ℕ
  -- `json.loads`, with repeated keys kept, and an error for a number that is no integer
  pub loads : String → Result Value
  -- `json.dumps` with sorted keys and without spaces
  pub dumps : Value → String
  -- `hashlib.sha256(…).hexdigest()`
  pub sha256 : List ℕ → String

-- `s[:n]`
first_chars : ℕ → String → String
first_chars zero s = ""
first_chars (suc n) String.[] = ""
first_chars (suc n) (c ∷ s) = c ∷ first_chars n s

as_object : Value → Result Fields
as_object (obj fs) = ok fs
as_object v = err (invalid "document must be an object")

to_items : List Value → Items
to_items [] = nil
to_items (v ∷ vs) = cons v (to_items vs)

-- `_resource_json`
resource_json : PlannedResource → Value
unfolding planned_fields
resource_json r =
    obj (field "kind" (str r.kind) (field "name" (str r.name) (planned_fields r.fields)))

module _ (outside : Outside) where
  -- `_decode_json_bytes` of a text
  unfoldable pub decode_json : String → Result Value
  unfolding decode_pairs
  decode_json text = do raw ← outside.loads text; decode_pairs raw

  -- `_load_json`
  unfoldable pub load_json : String → Result Fields
  unfolding decode_json as_object
  load_json basename = do
    content ← outside.read_regular basename
    text ← or_raise (outside.decode content) (invalid "input is not valid UTF-8")
    value ← decode_json text
    as_object value

  events_of : List String → Result (List Fields)
  unfolding decode_json as_object
  events_of [] = ok []
  events_of (line ∷ lines) =
      let later = events_of lines in
      if is_blank line
      then later
      else (do value ← decode_json line; fs ← as_object value; rest ← later; ok (fs ∷ rest))

  -- `_parse_events`
  unfoldable pub parse_events : List ℕ → Result (List Fields)
  unfolding events_of split_all
  parse_events content = do
    text ← or_raise (outside.decode content) (invalid "input is not valid UTF-8")
    events_of (split_all b'\n' text)

  -- the alias of a bug on the server
  unfoldable pub server_alias : String → String → String
  unfolding first_chars
  server_alias scenario_name name =
      "bzr-live-"
      ++ first_chars 31 (
          outside.sha256 (
            (b'v' ∷ b'1' ∷ 0 ∷ [])
            ++ₗ (outside.encode scenario_name ++ₗ (0 ∷ outside.encode name))))

  -- the digest of the normalised inputs
  unfoldable pub digest_of : String → String → Items → List PlannedResource → List Value → String
  unfolding to_items resource_json
  digest_of scenario_name description asset_table resources normalized_events =
      let normalized_scenario = obj (
        field "format_version" (int (pos 1)) (
          field "name" (str scenario_name)
            (field "description" (str description) (field "assets" (list asset_table) end)))) in
      let normalized_resources = obj (
        field "format_version" (int (pos 1))
          (field "resources" (list (to_items (map resource_json resources))) end)) in
      outside.sha256 (
        outside.encode (
          outside.dumps (
            obj (
              field "format_version" (int (pos 1)) (
                field "inputs"
                  (obj (
                    field "scenario.json" normalized_scenario (
                      field "resources.json" normalized_resources
                        (field "events.jsonl" (list (to_items normalized_events)) end))))
                  (field "assets" (list asset_table) end))))))

  -- `load_scenario`
  unfoldable pub load_scenario : Result ValidatedScenario
  unfolding load_json parse_events object_of member member_or version_of name_of text_of
      validate_assets validate_resources validate_events server_alias digest_of
  load_scenario = do
    scenario_doc ← load_json "scenario.json"
    resources_doc ← load_json "resources.json"
    events_content ← outside.read_regular "events.jsonl"
    raw_events ← parse_events events_content
    fs ←
        object_of (obj scenario_doc) ("format_version" ∷ "name" ∷ "description" ∷ "assets" ∷ [])
          ("format_version" ∷ "name" ∷ [])
    version_of (member "format_version" fs)
    scenario_name ← name_of (member "name" fs)
    description ← text_of (member_or "description" (str "") fs) true
    assets ← validate_assets outside.sha256 outside.read_asset (member_or "assets" (list nil) fs)
    resources ← validate_resources (obj resources_doc)
    events ←
        validate_events (server_alias scenario_name) raw_events resources.0 assets.0 scenario_name
    ok (record {
      name = scenario_name;
      description = description;
      format_version = 1;
      resources = resources.0;
      resource_plan = resources.1;
      events = events.0;
      assets = assets.0;
      digest = digest_of scenario_name description assets.1 resources.0 events.1;
    })
