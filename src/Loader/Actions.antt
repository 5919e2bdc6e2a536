-- ===== src/Loader/Actions.antt =====
-- scenario/loader.py: the branches of `_validate_events`, one for each action.
pub mod Within
use bzr_live.Common.{
  String, Bool, true, false, not, List, [], ◌∷◌, Option, none, some, ◌==ₛ◌, mem_text, Result, ok,
  err, invalid, key_error, ◌>>=◌, ◌>>◌, raise_if, require, or_raise, if◌then◌else◌,
}
use bzr_live.Value.{Reference, Value, null, bool, str, ref, tuple, Fields, end, field, has}
use bzr_live.Patterns.{is_media_type}
use bzr_live.Scenario.{Asset, PlannedResource}
use bzr_live.Replay.Values.{text_at}
use bzr_live.Loader.Checks.{
  object_of, member, member_or, name_of, text_of, boolean_of, decimal_of, mem_ref,
}
use bzr_live.Loader.Resolve.{
  Scopes, resolve, resolve_optional, resource_at, require_scope, bug_scope, append_items,
  custom_assignments,
}
use bzr_live.Loader.Create.{Payload}
use bzr_live.Loader.Update.{update_set}

-- `assets[name]`
unfoldable pub asset_named : String → List Asset → Result Asset
asset_named name [] = err (key_error name)
asset_named name (a ∷ rest) =
    let later = asset_named name rest in if a.name ==ₛ name then ok a else later

media_type_of : Value → Result String
unfolding is_media_type
media_type_of (str s) = do require (is_media_type s) "invalid media type"; ok s
media_type_of v = err (invalid "invalid media type")

status_of : Value → Result String
status_of (str s) = do
  require (mem_text s ("?" ∷ "+" ∷ "-" ∷ "X" ∷ [])) "unsupported flag status"
  ok s
status_of v = err (invalid "unsupported flag status")

-- `requestee is not None and status_value != "?"`
misplaced_requestee : Value → String → Bool
misplaced_requestee null status = false
misplaced_requestee v status = not (status ==ₛ "?")

-- a reference that may be `None`, among the dependencies
requestee_refs : Value → List Reference
requestee_refs (ref r) = r ∷ []
requestee_refs v = []

-- `if "description" in payload`, for an update of an attachment
description_fields : Fields → Result Fields
unfolding has text_of member
description_fields fs =
    if has "description" fs
    then (do
      description ← text_of (member "description" fs) true
      ok (field "description" (str description) end))
    else ok end

module _ (available : List Reference) (resources : List PlannedResource) where
  unfoldable pub update_payload : Value → Scopes → Result Payload
  unfolding object_of resolve member update_set
  update_payload value scopes = do
    fs ← object_of value ("bug" ∷ "set" ∷ []) ("bug" ∷ "set" ∷ [])
    bug ← resolve (member "bug" fs) "bug" available
    parts ← update_set available resources (member "set" fs) bug scopes
    ok (record {
      payload = field "bug" (ref bug) (field "set" (Value.obj parts.0) end);
      values = parts.0;
      target = bug;
      refs = bug ∷ parts.1;
    })

  unfoldable pub comment_payload : Value → Result Payload
  unfolding object_of resolve member member_or text_of boolean_of
  comment_payload value = do
    fs ← object_of value ("bug" ∷ "body" ∷ "private" ∷ []) ("bug" ∷ "body" ∷ [])
    bug ← resolve (member "bug" fs) "bug" available
    body ← text_of (member "body" fs) false
    private ← boolean_of (member_or "private" (bool false) fs)
    let values = field "body" (str body) (field "private" (bool private) end)
    ok (record {
      payload = field "bug" (ref bug) values;
      values = values;
      target = bug;
      refs = bug ∷ [];
    })

  unfoldable pub attach_payload : Value → List Asset → Result Payload
  unfolding object_of resolve member member_or name_of media_type_of text_of boolean_of asset_named
  attach_payload value assets = do
    fs ←
        object_of value
          ("alias" ∷ "bug" ∷ "asset" ∷ "description" ∷ "content_type" ∷ "private" ∷ [])
          ("alias" ∷ "bug" ∷ "asset" ∷ "description" ∷ "content_type" ∷ [])
    alias ← name_of (member "alias" fs)
    let creates : Reference = record { kind = "attachment"; name = alias }
    raise_if (mem_ref creates available) "duplicate created identity"
    bug ← resolve (member "bug" fs) "bug" available
    asset ← resolve (member "asset" fs) "asset" available
    content_type ← media_type_of (member "content_type" fs)
    description ← text_of (member "description" fs) true
    private ← boolean_of (member_or "private" (bool false) fs)
    content ← asset_named asset.name assets
    let last =
        field "description" (str description)
          (field "content_type" (str content_type) (field "private" (bool private) end))
    ok (record {
      payload = field "alias" (str alias) (field "bug" (ref bug) (field "asset" (ref asset) last));
      values =
          field "bug" (ref bug)
            (field "asset" (ref asset) (field "asset_sha256" (str content.sha256) last));
      target = creates;
      refs = bug ∷ asset ∷ [];
    })

  unfoldable pub worktime_payload : Value → Result Payload
  unfolding object_of resolve member decimal_of text_of
  worktime_payload value = do
    fs ← object_of value ("bug" ∷ "hours" ∷ "comment" ∷ []) ("bug" ∷ "hours" ∷ "comment" ∷ [])
    bug ← resolve (member "bug" fs) "bug" available
    hours ← decimal_of (member "hours" fs)
    comment ← text_of (member "comment" fs) false
    let values =
        field "bug" (ref bug) (field "hours" (str hours) (field "comment" (str comment) end))
    ok (record { payload = values; values = values; target = bug; refs = bug ∷ [] })

  unfoldable pub custom_payload : Value → Result Payload
  unfolding object_of resolve member custom_assignments append_items
  custom_payload value = do
    fs ← object_of value ("bug" ∷ "values" ∷ []) ("bug" ∷ "values" ∷ [])
    bug ← resolve (member "bug" fs) "bug" available
    assignments ← custom_assignments available resources (member "values" fs)
    let values = field "bug" (ref bug) (field "values" (tuple assignments) end)
    ok (record {
      payload = values;
      values = values;
      target = bug;
      refs = append_items (bug ∷ []) assignments;
    })

  unfoldable pub flag_payload : Value → Scopes → Result Payload
  unfolding object_of resolve member status_of resolve_optional misplaced_requestee resource_at
      text_at bug_scope require_scope requestee_refs
  flag_payload value scopes = do
    fs ←
        object_of value ("bug" ∷ "flag_type" ∷ "status" ∷ "requestee" ∷ [])
          ("bug" ∷ "flag_type" ∷ "status" ∷ [])
    bug ← resolve (member "bug" fs) "bug" available
    flag_type ← resolve (member "flag_type" fs) "flag-type" available
    status ← status_of (member "status" fs)
    requestee ← resolve_optional (member "requestee" fs) "actor" available
    raise_if (misplaced_requestee requestee status) "requestee is allowed only for ?"
    catalog ← resource_at "flag-type" flag_type.name resources
    aims ← text_at catalog.fields "target"
    require (aims ==ₛ "bug") "flag type does not target bugs"
    scope ← bug_scope bug scopes
    require_scope catalog.fields "products" scope.0 "flag type is outside product scope"
    require_scope catalog.fields "components" scope.1 "flag type is outside component scope"
    let values = field "bug" (ref bug) (
        field "flag_type" (ref flag_type)
          (field "status" (str status) (field "requestee" requestee end)))
    ok (record {
      payload = values;
      values = values;
      target = bug;
      refs = bug ∷ flag_type ∷ requestee_refs requestee;
    })

  unfoldable pub attachment_payload : Value → Result Payload
  unfolding object_of resolve member boolean_of description_fields
  attachment_payload value = do
    fs ←
        object_of value ("attachment" ∷ "obsolete" ∷ "description" ∷ [])
          ("attachment" ∷ "obsolete" ∷ [])
    attachment ← resolve (member "attachment" fs) "attachment" available
    obsolete ← boolean_of (member "obsolete" fs)
    last ← description_fields fs
    let values = field "attachment" (ref attachment) (field "obsolete" (bool obsolete) last)
    ok (record { payload = values; values = values; target = attachment; refs = attachment ∷ [] })
