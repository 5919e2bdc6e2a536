-- ===== src/Replay/Appends.antt =====
-- replay/actions.py: `BugCommentHandler`, `BugAttachHandler` and `BugWorktimeHandler`.
pub mod Quiet
pub mod Judged
use Prim.Native.String.{◌++◌}
use mathlib.Core.List.{◌++◌ as ◌++ₗ◌}
use bzr_live.Common.{
  ℕ, String, Bool, List, [], ◌∷◌, Option, none, some, Result, ok, err, replay_error, if◌then◌else◌,
}
use bzr_live.Value.{Value, obj}
use bzr_live.Exec.{Exec, pure, lift, ◌>>=◌}
use bzr_live.Scenario.{PlannedEvent}
use bzr_live.Replay.Append.{render_marker, marker_count, entries, append_result}
use bzr_live.Replay.Context.{Setup, Context, resolve, read_as, text_file, asset_file, show_ℕ}
use bzr_live.Replay.Create.{created_name}
use bzr_live.Replay.Invocation.{Invocation, Reconciliation}
use bzr_live.Replay.Supported.{render_attachment_summary}
use bzr_live.Replay.Values.{
  values_of, target_of, ref_at, text_at, bool_at, get_or_null, usable_id, bzr_invocation,
}

abbrev private_flag : Bool → List String
private_flag hidden = if hidden then "--private" ∷ [] else []

attachment_key : Result String → Result String
attachment_key (ok name) = ok ("attachment:" ++ name)
attachment_key (err e) = err e

uploaded : String → Value → Result (List (String × ℕ))
unfolding usable_id get_or_null
uploaded key (obj fs) = elim (usable_id (get_or_null "id" fs)) [
  | none ↦ err (replay_error "bzr attachment upload returned no usable attachment id")
  | some n ↦ ok ((key, n) ∷ [])
]
uploaded key v = err (replay_error "bzr attachment upload returned no usable attachment id")

-- `BugAttachHandler.resolved_ids`
unfoldable pub attached_ids : PlannedEvent → Value → Result (List (String × ℕ))
unfolding attachment_key uploaded created_name
attached_ids event output = elim (attachment_key (created_name event)) [
  | ok key ↦ uploaded key output
  | err e ↦ err e
]

module _ {W : Type 0} (setup : Setup W) where
  -- the reconciliation of an append: the entries of the bug that carry the event's marker
  reconcile_append :
      PlannedEvent → ℕ → List String → String → Option String → Exec (Context W) Reconciliation
  unfolding read_as marker_count entries append_result show_ℕ ◌>>=◌
  reconcile_append event bug_id args name id_key = do
    payload ← read_as setup event.actor args (show_ℕ bug_id ∷ []) []
    count ← lift (marker_count (entries payload) name event.reconciliation_marker)
    pure (append_result count payload id_key)

  -- `BugCommentHandler.build`
  unfoldable pub build_comment : PlannedEvent → Exec (Context W) Invocation
  unfolding values_of target_of text_at bool_at text_file render_marker bzr_invocation show_ℕ ◌>>=◌
  build_comment event = do
    values ← lift (values_of event)
    target ← lift (target_of event)
    bug_id ← resolve setup target
    body ← lift (text_at values "body")
    path ←
        text_file setup ("comment-" ++ event.name) (render_marker body event.reconciliation_marker)
    hidden ← lift (bool_at values "private")
    pure (
        bzr_invocation "comment add"
          (("comment" ∷ "add" ∷ ("--body-file=" ++ path) ∷ []) ++ₗ private_flag hidden)
          (show_ℕ bug_id ∷ []))

  -- `BugCommentHandler.reconcile`
  unfoldable pub reconcile_comment : PlannedEvent → Exec (Context W) Reconciliation
  unfolding target_of reconcile_append ◌>>=◌
  reconcile_comment event = do
    target ← lift (target_of event)
    bug_id ← resolve setup target
    reconcile_append event bug_id ("comment" ∷ "list" ∷ []) "text" none

  -- `BugAttachHandler.build`
  unfoldable pub build_attach : PlannedEvent → Exec (Context W) Invocation
  unfolding values_of ref_at text_at bool_at asset_file render_attachment_summary bzr_invocation
      show_ℕ ◌>>=◌
  build_attach event = do
    values ← lift (values_of event)
    bug ← lift (ref_at values "bug")
    bug_id ← resolve setup bug
    asset ← lift (ref_at values "asset")
    sha256 ← lift (text_at values "asset_sha256")
    path ← asset_file setup asset.name sha256
    description ← lift (text_at values "description")
    content_type ← lift (text_at values "content_type")
    hidden ← lift (bool_at values "private")
    let summary = render_attachment_summary description event.reconciliation_marker sha256
    let args =
        "attachment"
        ∷ "upload"
        ∷ ("--summary=" ++ summary)
        ∷ ("--content-type=" ++ content_type)
        ∷ []
    pure (
        bzr_invocation "attachment upload" (args ++ₗ private_flag hidden)
          (show_ℕ bug_id ∷ path ∷ []))

  -- `BugAttachHandler.reconcile`
  unfoldable pub reconcile_attach : PlannedEvent → Exec (Context W) Reconciliation
  unfolding values_of ref_at reconcile_append attachment_key created_name ◌>>=◌
  reconcile_attach event = do
    values ← lift (values_of event)
    bug ← lift (ref_at values "bug")
    bug_id ← resolve setup bug
    key ← lift (attachment_key (created_name event))
    reconcile_append event bug_id ("attachment" ∷ "list" ∷ []) "summary" (some key)

  -- `BugWorktimeHandler.build`
  unfoldable pub build_worktime : PlannedEvent → Exec (Context W) Invocation
  unfolding values_of ref_at text_at text_file render_marker bzr_invocation show_ℕ ◌>>=◌
  build_worktime event = do
    values ← lift (values_of event)
    bug ← lift (ref_at values "bug")
    bug_id ← resolve setup bug
    comment ← lift (text_at values "comment")
    path ←
        text_file setup ("worktime-" ++ event.name)
          (render_marker comment event.reconciliation_marker)
    hours ← lift (text_at values "hours")
    pure (
        bzr_invocation "bug update"
          ("bug" ∷ "update" ∷ ("--work-time=" ++ hours) ∷ ("--comment-file=" ++ path) ∷ [])
          (show_ℕ bug_id ∷ []))

  -- `BugWorktimeHandler.reconcile`
  unfoldable pub reconcile_worktime : PlannedEvent → Exec (Context W) Reconciliation
  unfolding values_of ref_at reconcile_append ◌>>=◌
  reconcile_worktime event = do
    values ← lift (values_of event)
    bug ← lift (ref_at values "bug")
    bug_id ← resolve setup bug
    reconcile_append event bug_id ("comment" ∷ "list" ∷ []) "text" none
