-- ===== src/Loader/Resolve.antt =====
-- scenario/loader.py: references that resolve to an earlier value, and what a value depends on.
pub mod Within
pub mod Assigned
use Prim.Native.String.{◌++◌}
use bzr_live.Common.{
  String, Bool, true, false, ◌&&◌, not, List, [], ◌∷◌, Option, none, some, ◌==ₛ◌, all_of, Result,
  ok, err, invalid, key_error, ◌>>=◌, ◌>>◌, raise_if, require, or_raise, if◌then◌else◌,
}
use bzr_live.Value.{
  Reference, eq_ref, Value, null, bool, int, float, str, ref, tuple, list, obj, Items, nil, cons,
  Fields, end, field, get,
}
use bzr_live.Value.Planned.{freeze_planned}
use bzr_live.Scenario.{PlannedResource}
use bzr_live.Replay.Values.{ref_at, refs_at, text_at, to_list, mem_value}
use bzr_live.Loader.Checks.{
  object_of, member, list_of, mem_ref, reference_of, unique_refs, unique_strings, texts_tuple,
}
use bzr_live.Loader.Catalog.{find_identity}

-- the product and the component of each bug, by the bug: `bug_scopes`
abbrev pub Scopes : Type 0
Scopes = List (Reference × (Reference × Reference))

-- `_resolve`
unfoldable pub resolve : Value → String → List Reference → Result Reference
unfolding reference_of
resolve value expected available = do
  r ← reference_of value expected
  require (mem_ref r available) "reference does not resolve to an earlier value"
  ok r

-- `None if raw is None else _resolve(raw, …)`
unfoldable pub resolve_optional : Value → String → List Reference → Result Value
unfolding resolve
resolve_optional null expected available = ok null
resolve_optional v expected available = do r ← resolve v expected available; ok (ref r)

-- `_resolved_list`
unfoldable pub resolved_list : Value → String → List Reference → Result (List Reference)
unfolding unique_refs
resolved_list value expected available = do
  rs ← unique_refs value expected
  require (all_of (λ r. mem_ref r available) rs) "reference does not resolve"
  ok rs

-- `resources[f"{kind}:{name}"]`
unfoldable pub resource_at : String → String → List PlannedResource → Result PlannedResource
unfolding find_identity
resource_at kind name resources =
    or_raise (find_identity (kind ++ (":" ++ name)) resources) (key_error name)

-- the product of a resource is the one that is asked for
unfoldable pub require_product :
    String → Reference → Reference → List PlannedResource → String → Result (Unit {0})
unfolding resource_at ref_at
require_product kind r product resources message = do
  found ← resource_at kind r.name resources
  owner ← ref_at found.fields "product"
  require (eq_ref owner product) message

abbrev no_refs : List Reference → Bool
no_refs [] = true
no_refs _ = false

-- `catalog[key] and wanted not in catalog[key]`
unfoldable pub require_scope : Fields → String → Reference → String → Result (Unit {0})
unfolding refs_at
require_scope catalog key wanted message = do
  scope ← refs_at catalog key
  raise_if (not (no_refs scope) && not (mem_ref wanted scope)) message

-- the groups of a bug may be set on its product
unfoldable pub check_groups : List Reference → Reference → List PlannedResource → Result (Unit {0})
unfolding resource_at require_scope
check_groups [] product resources = ok tt
check_groups (g ∷ gs) product resources = do
  found ← resource_at "group" g.name resources
  require_scope found.fields "products" product "group is outside the product"
  check_groups gs product resources

-- `_bug_scope`
unfoldable pub bug_scope : Reference → Scopes → Result (Reference × Reference)
bug_scope bug [] = err (invalid "bug scope is unavailable")
bug_scope bug ((b, scope) ∷ scopes) =
    let rest = bug_scope bug scopes in if eq_ref b bug then ok scope else rest

-- `if r not in target: target.append(r)`
abbrev pub append_new : List Reference → Reference → List Reference
append_new [] r = r ∷ []
append_new (s ∷ ss) r = let rest = s ∷ append_new ss r in if eq_ref s r then s ∷ ss else rest

unfoldable mutual
  -- `_append_dependencies`
  pub append_dependencies : List Reference → Value → List Reference
  append_dependencies target (ref r) = append_new target r
  append_dependencies target (tuple xs) = append_items target xs
  append_dependencies target (list xs) = append_items target xs
  append_dependencies target (obj fs) = append_fields target fs
  append_dependencies target v = target

  pub append_items : List Reference → Items → List Reference
  append_items target nil = target
  append_items target (cons v xs) = append_items (append_dependencies target v) xs

  pub append_fields : List Reference → Fields → List Reference
  append_fields target end = target
  append_fields target (field k v fs) = append_fields (append_dependencies target v) fs

-- `dict.fromkeys(refs)`, and an `extend` by the references that are not there yet
unfoldable pub extend_new : List Reference → List Reference → List Reference
extend_new target [] = target
extend_new target (r ∷ rs) = extend_new (append_new target r) rs

text_value : Value → Result Value
text_value (str s) = ok (str s)
text_value v = err (invalid "text field requires a string")

-- the choices of a select field
choice_list : Value → List Value
unfolding to_list
choice_list (tuple xs) = to_list xs
choice_list v = []

single_value : List Value → Value → Result Value
single_value choices (str s) = do
  require (mem_value (str s) choices) "value is outside the select catalog"
  ok (str s)
single_value choices v = err (invalid "value is outside the select catalog")

multiple_value : List Value → Value → Result Value
unfolding unique_strings texts_tuple
multiple_value choices v = do
  selected ← unique_strings v true
  require (all_of (λ s. mem_value (str s) choices) selected) "value is outside the select catalog"
  ok (tuple (texts_tuple selected))

-- the value of an assignment, checked against the catalogue of its field
assigned_value : Fields → Value → Result Value
unfolding text_at get choice_list text_value single_value multiple_value
assigned_value catalog v = do
  field_type ← text_at catalog "field_type"
  choices ← or_raise (get "values" catalog) (key_error "values")
  if field_type ==ₛ "text"
      then text_value v
      else (if field_type ==ₛ "single-select"
          then single_value (choice_list choices) v
          else multiple_value (choice_list choices) v)

module _ (available : List Reference) (resources : List PlannedResource) where
  -- the loop of `_custom_assignments`
  assignments_loop : Items → List Reference → Result Items
  unfolding object_of resolve member resource_at assigned_value freeze_planned
  assignments_loop nil seen = ok nil
  assignments_loop (cons v xs) seen = do
    fs ← object_of v ("field" ∷ "value" ∷ []) ("field" ∷ "value" ∷ [])
    r ← resolve (member "field" fs) "custom-field" available
    raise_if (mem_ref r seen) "duplicate custom-field assignment"
    found ← resource_at "custom-field" r.name resources
    assigned ← assigned_value found.fields (member "value" fs)
    frozen ← freeze_planned assigned
    rest ← assignments_loop xs (r ∷ seen)
    ok (cons (obj (field "field" (ref r) (field "value" frozen end))) rest)

  abbrev no_items : Items → Bool
  no_items nil = true
  no_items _ = false

  -- `_custom_assignments`
  unfoldable pub custom_assignments : Value → Result Items
  unfolding list_of assignments_loop
  custom_assignments value = do
    xs ← list_of value
    raise_if (no_items xs) "must contain at least one assignment"
    assignments_loop xs []
