-- ===== src/Replay/Sets.antt =====
-- replay/actions.py: `BugCustomFieldHandler`, `BugFlagHandler` and `AttachmentUpdateHandler`.
pub mod Quiet
use Prim.Native.Char.{code}
use Prim.Native.Nat.{Ordering}
use Prim.Native.String
use Prim.Native.String.{◌++◌}
use mathlib.Core.List.{◌++◌ as ◌++ₗ◌}
use bzr_live.Common.{
  String, Bool, true, false, ◌&&◌, not, List, [], ◌∷◌, Option, none, some, ◌==ₛ◌, ◌==◌, Result, ok,
  err, key_error, if◌then◌else◌,
}
use bzr_live.Value.{
  Reference, Value, null, str, tuple, list, obj, Items, nil, cons, Fields, end, field, get, has,
}
use bzr_live.Value.Equality.{eq_value}
use bzr_live.Exec.{Exec, pure, lift, ◌>>=◌}
use bzr_live.Journal.Record.{rest_custom_field}
use bzr_live.Provision.Client.{not_found_codes}
use bzr_live.Scenario.{PlannedEvent}
use bzr_live.Replay.Context.{Setup, Context, actor_email, resolve, read_as, read_bug, show_ℕ}
use bzr_live.Replay.Invocation.{Invocation, Reconciliation}
use bzr_live.Replay.Update.{advance_with, retry_with}
use bzr_live.Replay.Values.{
  values_of, ref_at, text_at, bool_at, optional_ref_at, get_or_null, object_with_id, elements,
  to_list, same_set, bzr_invocation,
}

dash_to_underscore : String → String
dash_to_underscore String.[] = ""
dash_to_underscore (String.◌∷◌ c s) =
    String.◌∷◌ (if code c == b'-' then "_" else c) (dash_to_underscore s)

-- `custom_field_name`, of provision/executor.py
unfoldable pub custom_field_name : String → String
unfolding dash_to_underscore
custom_field_name slug = "cf_" ++ dash_to_underscore slug

-- a tuple is sent as a list
thaw : Value → Value
thaw (tuple xs) = list xs
thaw v = v

-- The assignments of a custom-field event, by the field's name. They name distinct fields, so the
-- keys of the body are distinct too.
assignments : Items → Result Fields
unfolding custom_field_name ref_at get_or_null
assignments nil = ok end
assignments (cons (obj fs) xs) = elim (ref_at fs "field") [
  | err e ↦ err e
  | ok r ↦ elim (assignments xs) [
    | err e ↦ err e
    | ok rest ↦ ok (field (custom_field_name r.name) (get_or_null "value" fs) rest)
  ]
]
assignments (cons v xs) = err (key_error "field")

assignments_of : Fields → Result Fields
unfolding assignments get
assignments_of values = elim (get "values" values) [
  | some (tuple xs) ↦ assignments xs
  | _ ↦ err (key_error "values")
]

thaw_fields : Fields → Fields
unfolding thaw
thaw_fields end = end
thaw_fields (field k v fs) = field k (thaw v) (thaw_fields fs)

field_names : Fields → List String
field_names end = []
field_names (field k v fs) = k ∷ field_names fs

insert_name : String → List String → List String
insert_name s [] = s ∷ []
insert_name s (t ∷ ts) =
    let later = t ∷ insert_name s ts in
    elim (String.compare s t) [ Ordering.gt ↦ later | _ ↦ s ∷ t ∷ ts ]

-- `sorted(body)`
sort_names : List String → List String
unfolding insert_name
sort_names [] = []
sort_names (s ∷ ss) = insert_name s (sort_names ss)

-- one assignment agrees with the reply: as sets for a tuple, by `==` for any other value
assignment_agrees : Fields → String → Value → Result Bool
unfolding elements same_set to_list eq_value get_or_null
assignment_agrees bug key (tuple xs) = elim (elements (get_or_null key bug)) [
  | ok seen ↦ same_set (to_list xs) seen
  | err e ↦ err e
]
assignment_agrees bug key v = ok (eq_value v (get_or_null key bug))

-- the loop of `BugCustomFieldHandler.reconcile`
assignments_agree : Fields → Fields → Result Bool
unfolding assignment_agrees
assignments_agree bug end = ok true
assignments_agree bug (field key v rest) =
    let later = assignments_agree bug rest in
    elim (assignment_agrees bug key v) [
      | err e ↦ err e
      | ok same ↦ if same then later else ok false
    ]

-- `flag.get("name") == flag_name and …` for one flag of the reply
flag_agrees : String → String → Option String → Value → Bool
unfolding eq_value get_or_null
flag_agrees name status requestee (obj fs) =
    eq_value (get_or_null "name" fs) (str name)
    && eq_value (get_or_null "status" fs) (str status)
    && elim requestee [
      | none ↦ true
      | some email ↦ eq_value (get_or_null "requestee" fs) (str email)
    ]
flag_agrees name status requestee v = false

named : String → Value → Bool
unfolding eq_value get_or_null
named name (obj fs) = eq_value (get_or_null "name" fs) (str name)
named name v = false

any_value : (Value → Bool) → List Value → Bool
any_value p [] = false
any_value p (v ∷ vs) = if p v then true else any_value p vs

-- whether the flags of the reply show the declared status; a cleared flag shows no entry
unfoldable pub flags_match : String → String → Option String → List Value → Bool
unfolding flag_agrees named any_value
flags_match name status requestee flags =
    if status ==ₛ "X"
    then not (any_value (named name) flags)
    else any_value (flag_agrees name status requestee) flags

-- the comparison of `AttachmentUpdateHandler.reconcile`
attachment_agrees : Fields → Fields → Bool
unfolding eq_value get_or_null has
attachment_agrees attachment values =
    eq_value (get_or_null "is_obsolete" attachment) (get_or_null "obsolete" values)
    && (if has "description" values
        then eq_value (get_or_null "summary" attachment) (get_or_null "description" values)
        else true)

abbrev verdict : Bool → Value → Reconciliation
verdict same output = if same then advance_with output else retry_with output

-- what `AttachmentUpdateHandler.reconcile` makes of the attachment in the reply
judge_attachment : Fields → Value → Option Fields → Reconciliation
unfolding attachment_agrees
judge_attachment values reply none = retry_with reply
judge_attachment values reply (some found) = verdict (attachment_agrees found values) reply

module _ {W : Type 0} (setup : Setup W) where
  -- `BugCustomFieldHandler.build`
  unfoldable pub build_custom_field : PlannedEvent → Exec (Context W) Invocation
  unfolding values_of ref_at assignments_of thaw_fields field_names sort_names show_ℕ ◌>>=◌
  build_custom_field event = do
    values ← lift (values_of event)
    bug ← lift (ref_at values "bug")
    bug_id ← resolve setup bug
    declared ← lift (assignments_of values)
    let body = thaw_fields declared
    pure (record {
      metadata = record {
        mutation_boundary = rest_custom_field;
        operation = "PUT rest/bug/" ++ show_ℕ bug_id;
        arguments = sort_names (field_names body);
        environment_names = [];
      };
      args = [];
      positionals = [];
      rest_target = some (bug_id, body);
    })

  -- what `reconcile` makes of the bug in the reply, when it holds one
  judge_custom_field : Fields → Value → Option Fields → Exec (Context W) Reconciliation
  unfolding assignments_of assignments_agree ◌>>=◌
  judge_custom_field values reply none = pure (retry_with null)
  judge_custom_field values reply (some found) = do
    declared ← lift (assignments_of values)
    same ← lift (assignments_agree found declared)
    pure (verdict same reply)

  -- `BugCustomFieldHandler.reconcile`
  unfoldable pub reconcile_custom_field : PlannedEvent → Exec (Context W) Reconciliation
  unfolding values_of ref_at object_with_id judge_custom_field show_ℕ ◌>>=◌
  reconcile_custom_field event = do
    values ← lift (values_of event)
    bug ← lift (ref_at values "bug")
    bug_id ← resolve setup bug
    reply ← read_bug setup event.actor (show_ℕ bug_id ∷ [])
    judge_custom_field values reply (object_with_id reply)

  optional_email : Option Reference → Exec (Context W) (Option String)
  unfolding ◌>>=◌
  optional_email none = pure none
  optional_email (some actor) = do email ← actor_email setup actor; pure (some email)

  abbrev requestee_suffix : Option String → String
  requestee_suffix none = ""
  requestee_suffix (some email) = "(" ++ (email ++ ")")

  -- `BugFlagHandler.build`
  unfoldable pub build_flag : PlannedEvent → Exec (Context W) Invocation
  unfolding values_of ref_at text_at optional_ref_at optional_email bzr_invocation show_ℕ ◌>>=◌
  build_flag event = do
    values ← lift (values_of event)
    bug ← lift (ref_at values "bug")
    bug_id ← resolve setup bug
    flag_type ← lift (ref_at values "flag_type")
    status ← lift (text_at values "status")
    requestee_ref ← lift (optional_ref_at values "requestee")
    requestee ← optional_email requestee_ref
    let spec = flag_type.name ++ (status ++ requestee_suffix requestee)
    pure (
        bzr_invocation "bug update" ("bug" ∷ "update" ∷ ("--flag=" ++ spec) ∷ [])
          (show_ℕ bug_id ∷ []))

  -- the requestee is read unless the flag is cleared
  requestee_for : String → Option Reference → Exec (Context W) (Option String)
  unfolding optional_email
  requestee_for status r = if status ==ₛ "X" then pure none else optional_email r

  judge_flag : Fields → Value → Option Fields → Exec (Context W) Reconciliation
  unfolding ref_at text_at optional_ref_at requestee_for elements get_or_null flags_match ◌>>=◌
  judge_flag values reply none = pure (retry_with null)
  judge_flag values reply (some found) = do
    flag_type ← lift (ref_at values "flag_type")
    status ← lift (text_at values "status")
    flags ← lift (elements (get_or_null "flags" found))
    requestee_ref ← lift (optional_ref_at values "requestee")
    requestee ← requestee_for status requestee_ref
    pure (verdict (flags_match flag_type.name status requestee flags) reply)

  -- `BugFlagHandler.reconcile`
  unfoldable pub reconcile_flag : PlannedEvent → Exec (Context W) Reconciliation
  unfolding values_of ref_at object_with_id judge_flag show_ℕ ◌>>=◌
  reconcile_flag event = do
    values ← lift (values_of event)
    bug ← lift (ref_at values "bug")
    bug_id ← resolve setup bug
    reply ← read_bug setup event.actor (show_ℕ bug_id ∷ [])
    judge_flag values reply (object_with_id reply)

  -- `AttachmentUpdateHandler.build`
  unfoldable pub build_attachment : PlannedEvent → Exec (Context W) Invocation
  unfolding values_of ref_at bool_at has text_at bzr_invocation show_ℕ ◌>>=◌
  build_attachment event = do
    values ← lift (values_of event)
    attachment ← lift (ref_at values "attachment")
    attachment_id ← resolve setup attachment
    obsolete ← lift (bool_at values "obsolete")
    let flag = if obsolete then "--obsolete" else "--no-obsolete"
    summary ←
        (if has "description" values
          then (do
            description ← lift (text_at values "description")
            pure (("--summary=" ++ description) ∷ []))
          else pure [])
    pure (
        bzr_invocation "attachment update" (("attachment" ∷ "update" ∷ flag ∷ []) ++ₗ summary)
          (show_ℕ attachment_id ∷ []))

  -- `AttachmentUpdateHandler.reconcile`
  unfoldable pub reconcile_attachment : PlannedEvent → Exec (Context W) Reconciliation
  unfolding values_of ref_at object_with_id judge_attachment show_ℕ ◌>>=◌
  reconcile_attachment event = do
    values ← lift (values_of event)
    attachment ← lift (ref_at values "attachment")
    attachment_id ← resolve setup attachment
    reply ←
        read_as setup event.actor ("attachment" ∷ "view" ∷ []) (show_ℕ attachment_id ∷ [])
          not_found_codes
    pure (judge_attachment values reply (object_with_id reply))
