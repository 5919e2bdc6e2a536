-- ===== src/Replay/Supported.antt =====
-- replay/actions.py: `check_supported` of each handler, the refusals that come before any mutation.
use Prim.Native.Char.{code}
use Prim.Native.String
use Prim.Native.String.{◌++◌}
use bzr_live.Common.{
  ℕ, String, Bool, true, false, ◌&&◌, ◌||◌, List, [], ◌∷◌, Result, ok, err, replay_error, key_error,
  ◌>>=◌, ◌>>◌, ◌==ₛ◌, ◌==◌, ltb, if◌then◌else◌, strip,
}
use bzr_live.Value.{Value, null, Fields, has}
use bzr_live.Provision.Client.{truthy}
use bzr_live.Scenario.{PlannedEvent}
use bzr_live.Replay.Values.{values_of, text_at, ref_at, get_or_null}
use bzr_live.Replay.Append.{reject_embedded_marker}

-- `_unsupported`
abbrev pub unsupported : Result (Unit {0})
unsupported = err (replay_error "declares a field which the boundary cannot apply")

abbrev pub refuse_if : Bool → Result (Unit {0})
refuse_if b = if b then unsupported else ok tt

abbrev is_null : Value → Bool
is_null null = true
is_null _ = false

-- `_CREATE_UNSUPPORTED`
abbrev create_unsupported : List String
create_unsupported = "custom_fields" ∷ "estimated_hours" ∷ "remaining_hours" ∷ "duplicate_of" ∷ []

refuse_declared : List String → Fields → Result (Unit {0})
unfolding truthy get_or_null
refuse_declared [] values = ok tt
refuse_declared (key ∷ ks) values = do
  refuse_if (truthy (get_or_null key values))
  refuse_declared ks values

-- `BugCreateHandler.check_supported`
unfoldable pub create_supported : Fields → Result (Unit {0})
unfolding refuse_declared get_or_null text_at reject_embedded_marker
create_supported values = do
  refuse_declared create_unsupported values
  refuse_if (is_null (get_or_null "version" values))
  reject_embedded_marker (← text_at values "description")

-- `field in values and values[field] is None`
abbrev cleared : String → Fields → Bool
cleared key values = has key values && is_null (get_or_null key values)

-- `BugUpdateHandler.check_supported`, over `_UPDATE_UNSUPPORTED`, `_UPDATE_NO_CLEAR` and
-- `_UPDATE_DUPE_CONFLICTS`
unfoldable pub update_supported : Fields → Result (Unit {0})
unfolding has get_or_null
update_supported values = do
  refuse_if (has "version" values)
  refuse_if (cleared "resolution" values)
  refuse_if (cleared "milestone" values)
  refuse_if (cleared "duplicate_of" values)
  if is_null (get_or_null "duplicate_of" values)
      then ok tt
      else refuse_if (has "status" values || has "resolution" values)

-- `BugCommentHandler.check_supported`
unfoldable pub comment_supported : Fields → Result (Unit {0})
unfolding text_at reject_embedded_marker
comment_supported values = do reject_embedded_marker (← text_at values "body")

-- `render_attachment_summary`
unfoldable pub render_attachment_summary : String → String → String → String
unfolding strip
render_attachment_summary description marker sha256 =
    strip (description ++ (" [" ++ (marker ++ ("] sha256=" ++ sha256))))

abbrev pub summary_byte_limit : ℕ
summary_byte_limit = 255

-- `BugAttachHandler.check_supported`; the size is in bytes of UTF-8
unfoldable pub attach_supported : String → Fields → Result (Unit {0})
unfolding text_at reject_embedded_marker render_attachment_summary
attach_supported marker values = do
  description ← text_at values "description"
  reject_embedded_marker description
  sha256 ← text_at values "asset_sha256"
  refuse_if
      (ltb summary_byte_limit (String.len (render_attachment_summary description marker sha256)))

-- `BugWorktimeHandler.check_supported`
unfoldable pub worktime_supported : Fields → Result (Unit {0})
unfolding text_at reject_embedded_marker
worktime_supported values = do reject_embedded_marker (← text_at values "comment")

-- one of the characters that bzr's flag parser takes for the status
any_status_char : String → Bool
any_status_char String.[] = false
any_status_char (String.◌∷◌ c s) =
    (code c == b'+' || code c == b'-' || code c == b'?' || code c == b'X') || any_status_char s

-- `BugFlagHandler.check_supported`
unfoldable pub flag_supported : Fields → Result (Unit {0})
unfolding ref_at any_status_char
flag_supported values = do
  flag_type ← ref_at values "flag_type"
  refuse_if (any_status_char flag_type.name)

-- `AttachmentUpdateHandler.check_supported`
unfoldable pub attachment_supported : Fields → Result (Unit {0})
unfolding has text_at reject_embedded_marker
attachment_supported values =
    if has "description" values
    then (do
      description ← text_at values "description"
      reject_embedded_marker description
      refuse_if (ltb summary_byte_limit (String.len description)))
    else ok tt

-- a check on the values of the event
on_values : (Fields → Result (Unit {0})) → PlannedEvent → Result (Unit {0})
unfolding values_of
on_values check event = do values ← values_of event; check values

-- `HANDLERS[event.action].check_supported(event)`; the custom-field handler reads nothing
unfoldable pub check_supported : PlannedEvent → Result (Unit {0})
unfolding on_values create_supported update_supported comment_supported attach_supported
    worktime_supported flag_supported attachment_supported
check_supported event =
    if event.action ==ₛ "bug.create"
    then on_values create_supported event
    else (if event.action ==ₛ "bug.update"
        then on_values update_supported event
        else (if event.action ==ₛ "bug.comment"
            then on_values comment_supported event
            else (if event.action ==ₛ "bug.attach"
                then on_values (attach_supported event.reconciliation_marker) event
                else (if event.action ==ₛ "bug.worktime"
                    then on_values worktime_supported event
                    else (if event.action ==ₛ "bug.custom-field-set"
                        then ok tt
                        else (if event.action ==ₛ "bug.flag"
                            then on_values flag_supported event
                            else (if event.action ==ₛ "attachment.update"
                                then on_values attachment_supported event
                                else err (key_error event.action))))))))
