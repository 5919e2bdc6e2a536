-- ===== src/Loader/Update.antt =====
-- scenario/loader.py: `_update_set`.
pub mod Within
use bzr_live.Common.{
  String, Bool, true, false, List, [], ◌∷◌, ◌==ₛ◌, mem_text, Result, ok, err, invalid, ◌>>=◌, ◌>>◌,
  raise_if, if◌then◌else◌,
}
use bzr_live.Value.{Reference, Value, null, str, ref, tuple, obj, Fields, end, field, has}
use bzr_live.Scenario.{PlannedResource}
use bzr_live.Loader.Checks.{object_of, member, text_of, decimal_of, refs_tuple}
use bzr_live.Loader.Resolve.{
  Scopes, resolve, resolve_optional, resolved_list, require_product, check_groups, bug_scope,
  append_dependencies,
}

-- the fields of an update, in the order of the normalised mapping
abbrev update_keys : List String
update_keys =
    "summary" ∷ "status" ∷ "resolution" ∷ "assignee" ∷ "cc" ∷ "groups" ∷ "depends_on" ∷ "blocks"
    ∷ "duplicate_of" ∷ "version" ∷ "milestone" ∷ "keywords" ∷ "estimated_hours" ∷ "remaining_hours"
    ∷ []

-- the kind that a list field refers to
abbrev list_kind : String → String
list_kind key = if key ==ₛ "cc" then "actor" else (if key ==ₛ "keywords" then "keyword" else "bug")

abbrev no_fields : Fields → Bool
no_fields end = true
no_fields _ = false

optional_text : Value → Result Value
unfolding text_of
optional_text null = ok null
optional_text v = do s ← text_of v false; ok (str s)

module _ (available : List Reference) (resources : List PlannedResource) where
  product_field : String → Value → Reference → Result Value
  unfolding resolve require_product
  product_field key null product = ok null
  product_field key v product = do
    r ← resolve v key available
    require_product key r product resources "is outside the target product"
    ok (ref r)

  group_field : Value → Reference → Result Value
  unfolding resolved_list check_groups refs_tuple
  group_field v product = do
    refs ← resolved_list v "group" available
    check_groups refs product resources
    ok (tuple (refs_tuple refs))

  -- one round of the loop over the fields
  update_field : String → Value → Reference → Result Value
  unfolding text_of optional_text resolve_optional product_field decimal_of group_field
      resolved_list refs_tuple
  update_field key v product =
      if mem_text key ("summary" ∷ "status" ∷ [])
      then (do s ← text_of v false; ok (str s))
      else (if key ==ₛ "resolution"
          then optional_text v
          else (if key ==ₛ "assignee"
              then resolve_optional v "actor" available
              else (if key ==ₛ "duplicate_of"
                  then resolve_optional v "bug" available
                  else (if mem_text key ("version" ∷ "milestone" ∷ [])
                      then product_field key v product
                      else (if mem_text key ("estimated_hours" ∷ "remaining_hours" ∷ [])
                          then (do s ← decimal_of v; ok (str s))
                          else (if key ==ₛ "groups" then group_field v product else (do
                            refs ← resolved_list v (list_kind key) available
                            ok (tuple (refs_tuple refs)))))))))

  -- The loop over the fields, which the source makes in the order of a set: the error of a mapping
  -- with several faulty fields may be that of another one.
  update_fields : List String → Fields → Reference → Result Fields
  unfolding has update_field member
  update_fields [] fs product = ok end
  update_fields (key ∷ ks) fs product =
      let later = update_fields ks fs product in
      if has key fs
      then (do v ← update_field key (member key fs) product; rest ← later; ok (field key v rest))
      else later

  -- `_update_set`: the normalised fields, and the references in them
  unfoldable pub update_set : Value → Reference → Scopes → Result (Fields × List Reference)
  unfolding object_of bug_scope update_fields append_dependencies
  update_set value bug scopes = do
    fs ← object_of value update_keys []
    raise_if (no_fields fs) "must not be empty"
    scope ← bug_scope bug scopes
    updates ← update_fields update_keys fs scope.0
    ok (updates, append_dependencies [] (obj updates))
