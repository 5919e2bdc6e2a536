-- ===== src/Journal/Postcondition.antt =====
-- scenario/journal.py: `_validate_update_values` and `_validate_postcondition_values`.
use bzr_live.Common.{
  String, Bool, true, false, ◌&&◌, not, List, [], ◌∷◌, ◌==ₛ◌, ◌==◌, if◌then◌else◌, mem_text, Result,
  ok, ◌>>=◌, ◌>>◌, raise_if, require,
}
use bzr_live.Value.{Value, null, str, tuple, nil, Fields, end, field, has}
use bzr_live.Value.Equality.{count_fields}
use bzr_live.Patterns.{is_media_type, is_server_alias, is_sha256}
use bzr_live.Journal.Validate.{
  utf8_string, keys, item, nullable_ref, ref_value, refs_value, hours_value, custom_values,
  boolean_value, matching,
}

-- `allowed` of `_validate_update_values`
abbrev pub update_fields : List String
update_fields =
    "summary" ∷ "status" ∷ "resolution" ∷ "assignee" ∷ "cc" ∷ "groups" ∷ "depends_on" ∷ "blocks"
    ∷ "duplicate_of" ∷ "version" ∷ "milestone" ∷ "keywords" ∷ "estimated_hours" ∷ "remaining_hours"
    ∷ []

-- the kind of reference that a list field holds
abbrev pub list_kind : String → String
list_kind key =
    if key ==ₛ "cc"
    then "actor"
    else (if key ==ₛ "groups" then "group" else (if key ==ₛ "keywords" then "keyword" else "bug"))

-- `value is not None` before a text is demanded
optional_text : Value → Result (Unit {0})
unfolding utf8_string
optional_text null = ok tt
optional_text v = utf8_string v true

-- one round of the loop of `_validate_update_values`
update_value : String → Value → Result (Unit {0})
unfolding utf8_string optional_text nullable_ref hours_value refs_value
update_value key v =
    if mem_text key ("summary" ∷ "status" ∷ [])
    then utf8_string v true
    else (if key ==ₛ "resolution"
        then optional_text v
        else (if key ==ₛ "assignee"
            then nullable_ref v "actor"
            else (if key ==ₛ "duplicate_of"
                then nullable_ref v "bug"
                else (if mem_text key ("version" ∷ "milestone" ∷ [])
                    then nullable_ref v key
                    else (if mem_text key ("estimated_hours" ∷ "remaining_hours" ∷ [])
                        then hours_value v false
                        else refs_value v (list_kind key))))))

update_loop : Fields → Result (Unit {0})
unfolding update_value
update_loop end = ok tt
update_loop (field k v fs) = do update_value k v; update_loop fs

only_update_fields : Fields → Bool
only_update_fields end = true
only_update_fields (field k v fs) = mem_text k update_fields && only_update_fields fs

-- `_validate_update_values`
unfoldable pub validate_update_values : Fields → Result (Unit {0})
unfolding update_loop only_update_fields count_fields
validate_update_values fs = do
  require (not (count_fields fs == 0) && only_update_fields fs)
      "must contain only supported non-empty update fields"
  update_loop fs

abbrev create_fields : List String
create_fields =
    "product" ∷ "component" ∷ "summary" ∷ "description" ∷ "version" ∷ "milestone" ∷ "assignee"
    ∷ "cc" ∷ "groups" ∷ "depends_on" ∷ "blocks" ∷ "duplicate_of" ∷ "keywords" ∷ "estimated_hours"
    ∷ "remaining_hours" ∷ "custom_fields" ∷ "server_alias" ∷ []

-- the kind of reference that a scalar field of a create holds
abbrev scalar_kind : String → String
scalar_kind key =
    if key ==ₛ "assignee" then "actor" else (if key ==ₛ "duplicate_of" then "bug" else key)

scalar_refs : List String → Fields → Result (Unit {0})
unfolding item nullable_ref
scalar_refs [] values = ok tt
scalar_refs (key ∷ ks) values = do
  v ← item values key
  nullable_ref v (scalar_kind key)
  scalar_refs ks values

list_refs : List String → Fields → Result (Unit {0})
unfolding item refs_value
list_refs [] values = ok tt
list_refs (key ∷ ks) values = do
  v ← item values key
  refs_value v (list_kind key)
  list_refs ks values

-- the branch for `bug.create`
create_values : Value → Result (Unit {0})
unfolding keys item ref_value utf8_string scalar_refs list_refs hours_value custom_values matching
create_values value = do
  values ← keys value create_fields []
  ref_value (← item values "product") "product"
  ref_value (← item values "component") "component"
  utf8_string (← item values "summary") true
  utf8_string (← item values "description") false
  scalar_refs ("version" ∷ "milestone" ∷ "assignee" ∷ "duplicate_of" ∷ []) values
  list_refs ("cc" ∷ "groups" ∷ "depends_on" ∷ "blocks" ∷ "keywords" ∷ []) values
  hours_value (← item values "estimated_hours") true
  hours_value (← item values "remaining_hours") true
  custom_values (← item values "custom_fields")
  matching is_server_alias "must be a deterministic server alias" (← item values "server_alias")

attach_values : Value → Result (Unit {0})
unfolding keys item ref_value utf8_string matching boolean_value
attach_values value = do
  values ←
      keys value
        ("bug" ∷ "asset" ∷ "asset_sha256" ∷ "description" ∷ "content_type" ∷ "private" ∷ []) []
  ref_value (← item values "bug") "bug"
  ref_value (← item values "asset") "asset"
  matching is_sha256 "must be a lowercase SHA-256" (← item values "asset_sha256")
  utf8_string (← item values "description") false
  matching is_media_type "must be a media type" (← item values "content_type")
  boolean_value (← item values "private")

abbrev is_status : String → Bool
is_status s = mem_text s ("?" ∷ "+" ∷ "-" ∷ "X" ∷ [])

abbrev is_question : Value → Bool
is_question (str s) = s ==ₛ "?"
is_question _ = false

-- a requestee goes with the status `?` only
requestee_allowed : Value → Value → Result (Unit {0})
requestee_allowed null status = ok tt
requestee_allowed v status = require (is_question status) "requestee is allowed only for ?"

flag_values : Value → Result (Unit {0})
unfolding keys item ref_value matching nullable_ref requestee_allowed
flag_values value = do
  values ← keys value ("bug" ∷ "flag_type" ∷ "status" ∷ "requestee" ∷ []) []
  ref_value (← item values "bug") "bug"
  ref_value (← item values "flag_type") "flag-type"
  status ← item values "status"
  matching is_status "unsupported flag status" status
  requestee ← item values "requestee"
  nullable_ref requestee "actor"
  requestee_allowed requestee status

-- `not values["values"]`
abbrev is_empty_tuple : Value → Bool
is_empty_tuple (tuple nil) = true
is_empty_tuple _ = false

-- The branches of `_validate_postcondition_values`, by the action; the last is `attachment.update`.
unfoldable pub validate_postcondition_values : String → Value → Result (Unit {0})
unfolding create_values validate_update_values attach_values flag_values keys item utf8_string
    boolean_value ref_value hours_value custom_values has
validate_postcondition_values action value =
    if action ==ₛ "bug.create"
    then create_values value
    else (if action ==ₛ "bug.update"
        then (do values ← keys value [] update_fields; validate_update_values values)
        else (if action ==ₛ "bug.comment"
            then (do
              values ← keys value ("body" ∷ "private" ∷ []) []
              utf8_string (← item values "body") true
              boolean_value (← item values "private"))
            else (if action ==ₛ "bug.attach"
                then attach_values value
                else (if action ==ₛ "bug.worktime"
                    then (do
                      values ← keys value ("bug" ∷ "hours" ∷ "comment" ∷ []) []
                      ref_value (← item values "bug") "bug"
                      hours_value (← item values "hours") false
                      utf8_string (← item values "comment") true)
                    else (if action ==ₛ "bug.custom-field-set"
                        then (do
                          values ← keys value ("bug" ∷ "values" ∷ []) []
                          ref_value (← item values "bug") "bug"
                          assignments ← item values "values"
                          custom_values assignments
                          raise_if (is_empty_tuple assignments) "must not be empty")
                        else (if action ==ₛ "bug.flag" then flag_values value else (do
                          values ← keys value ("attachment" ∷ "obsolete" ∷ []) ("description" ∷ [])
                          ref_value (← item values "attachment") "attachment"
                          boolean_value (← item values "obsolete")
                          if has "description" values
                              then (do utf8_string (← item values "description") false)
                              else ok tt)))))))
