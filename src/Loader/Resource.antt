-- ===== src/Loader/Resource.antt =====
-- scenario/loader.py: `_parse_resource`, by the kind of the resource.
pub mod Kind
use bzr_live.Common.{
  String, Bool, true, false, ◌&&◌, not, List, [], ◌∷◌, ◌++◌, Option, none, some, ◌==ₛ◌, mem_text,
  Result, ok, err, invalid, ◌>>=◌, ◌>>◌, raise_if, require, or_raise, if◌then◌else◌,
}
use bzr_live.Value.{Reference, Value, null, str, ref, tuple, list, nil, Fields, end, field, has}
use bzr_live.Value.Planned.{freeze_fields}
use bzr_live.Scenario.{PlannedResource}
use bzr_live.Loader.Checks.{
  member, member_or, object_of, name_of, text_of, reference_of, unique_refs, unique_strings,
  is_email, refs_tuple, texts_tuple,
}

-- `_RESOURCE_FIELDS`: the required and the optional fields of a kind
abbrev pub resource_fields : String → Option (List String × List String)
resource_fields kind =
    if kind ==ₛ "group"
    then some ("kind" ∷ "name" ∷ "description" ∷ [], "products" ∷ [])
    else (if kind ==ₛ "actor"
        then some ("kind" ∷ "name" ∷ "email" ∷ "display_name" ∷ [], "groups" ∷ [])
        else (if kind ==ₛ "product"
            then some ("kind" ∷ "name" ∷ "description" ∷ [], [])
            else (if kind ==ₛ "component"
                then some
                    ("kind" ∷ "name" ∷ "product" ∷ "description" ∷ [], "default_assignee" ∷ [])
                else (if kind ==ₛ "version"
                    then some ("kind" ∷ "name" ∷ "product" ∷ [], [])
                    else (if kind ==ₛ "milestone"
                        then some ("kind" ∷ "name" ∷ "product" ∷ [], [])
                        else (if kind ==ₛ "custom-field"
                            then some ("kind" ∷ "name" ∷ "field_type" ∷ [], "values" ∷ [])
                            else (if kind ==ₛ "keyword"
                                then some ("kind" ∷ "name" ∷ "description" ∷ [], [])
                                else (if kind ==ₛ "flag-type"
                                    then some (
                                      "kind" ∷ "name" ∷ "description" ∷ "target" ∷ [],
                                      "products" ∷ "components" ∷ [],
                                    )
                                    else none))))))))

-- the union of all these fields
abbrev all_fields : List String
all_fields =
    "kind" ∷ "name" ∷ "description" ∷ "products" ∷ "email" ∷ "display_name" ∷ "groups" ∷ "product"
    ∷ "default_assignee" ∷ "field_type" ∷ "values" ∷ "target" ∷ "components" ∷ []

-- the data of a resource, and what it depends on
abbrev pub Parsed : Type 0
Parsed = Fields × List Reference

parse_described : Fields → Result Parsed
unfolding text_of member
parse_described fs = do
  description ← text_of (member "description" fs) false
  ok (field "description" (str description) end, [])

parse_group : Fields → Result Parsed
unfolding text_of member unique_refs member_or refs_tuple
parse_group fs = do
  description ← text_of (member "description" fs) false
  products ← unique_refs (member_or "products" (list nil) fs) "product"
  ok (
    field "description" (str description) (field "products" (tuple (refs_tuple products)) end),
    products,
  )

parse_email : Value → Result String
unfolding is_email
parse_email (str s) = do require (is_email s) "must be an email address"; ok s
parse_email v = err (invalid "must be an email address")

parse_actor : Fields → Result Parsed
unfolding parse_email text_of member unique_refs member_or refs_tuple
parse_actor fs = do
  email ← parse_email (member "email" fs)
  display_name ← text_of (member "display_name" fs) false
  groups ← unique_refs (member_or "groups" (list nil) fs) "group"
  ok (
    field "email" (str email)
        (field "display_name" (str display_name) (field "groups" (tuple (refs_tuple groups)) end)),
    groups,
  )

-- the assignee of a component, when the field is there
parse_assignee : Fields → Result (Value × List Reference)
unfolding has reference_of member
parse_assignee fs =
    if has "default_assignee" fs
    then (do
      assignee ← reference_of (member "default_assignee" fs) "actor"
      ok (ref assignee, assignee ∷ []))
    else ok (null, [])

parse_component : Fields → Result Parsed
unfolding reference_of text_of member parse_assignee
parse_component fs = do
  product ← reference_of (member "product" fs) "product"
  description ← text_of (member "description" fs) false
  (assignee, refs) ← parse_assignee fs
  ok (
    field "product" (ref product)
        (field "description" (str description) (field "default_assignee" assignee end)),
    product ∷ refs,
  )

parse_in_product : Fields → Result Parsed
unfolding reference_of member
parse_in_product fs = do
  product ← reference_of (member "product" fs) "product"
  ok (field "product" (ref product) end, product ∷ [])

one_of : List String → String → Value → Result String
one_of choices message (str s) = do require (mem_text s choices) message; ok s
one_of choices message v = err (invalid message)

abbrev is_empty : List String → Bool
is_empty [] = true
is_empty _ = false

parse_custom_field : Fields → Result Parsed
unfolding one_of member unique_strings member_or texts_tuple
parse_custom_field fs = do
  field_type ←
      one_of ("text" ∷ "single-select" ∷ "multi-select" ∷ []) "unsupported custom-field type"
        (member "field_type" fs)
  values ← unique_strings (member_or "values" (list nil) fs) true
  raise_if (field_type ==ₛ "text" && not (is_empty values)) "text fields cannot declare values"
  raise_if (not (field_type ==ₛ "text") && is_empty values) "select fields require values"
  ok (field "field_type" (str field_type) (field "values" (tuple (texts_tuple values)) end), [])

parse_flag_type : Fields → Result Parsed
unfolding text_of one_of member unique_refs member_or refs_tuple
parse_flag_type fs = do
  description ← text_of (member "description" fs) false
  target ← one_of ("bug" ∷ "attachment" ∷ []) "must be bug or attachment" (member "target" fs)
  products ← unique_refs (member_or "products" (list nil) fs) "product"
  components ← unique_refs (member_or "components" (list nil) fs) "component"
  ok (
    field "description" (str description) (
        field "target" (str target) (
          field "products" (tuple (refs_tuple products))
            (field "components" (tuple (refs_tuple components)) end))),
    products ++ components,
  )

parse_data : String → Fields → Result Parsed
unfolding parse_described parse_group parse_actor parse_component parse_in_product
    parse_custom_field parse_flag_type
parse_data kind fs =
    if kind ==ₛ "group"
    then parse_group fs
    else (if kind ==ₛ "product"
        then parse_described fs
        else (if kind ==ₛ "keyword"
            then parse_described fs
            else (if kind ==ₛ "actor"
                then parse_actor fs
                else (if kind ==ₛ "component"
                    then parse_component fs
                    else (if kind ==ₛ "version"
                        then parse_in_product fs
                        else (if kind ==ₛ "milestone"
                            then parse_in_product fs
                            else (if kind ==ₛ "custom-field"
                                then parse_custom_field fs
                                else (if kind ==ₛ "flag-type"
                                    then parse_flag_type fs
                                    else ok (end, [])))))))))

kind_of : Value → Result String
kind_of (str kind) = ok kind
kind_of v = err (invalid "unsupported resource kind")

-- `_parse_resource`
unfoldable pub parse_resource : Value → Result PlannedResource
unfolding object_of member kind_of name_of parse_data freeze_fields
parse_resource value = do
  base ← object_of value all_fields ("kind" ∷ "name" ∷ [])
  kind ← kind_of (member "kind" base)
  (required, optional) ← or_raise (resource_fields kind) (invalid "unsupported resource kind")
  fs ← object_of value (required ++ optional) required
  name ← name_of (member "name" fs)
  (parsed, dependencies) ← parse_data kind fs
  frozen ← freeze_fields parsed
  ok (record { kind = kind; name = name; fields = frozen; dependencies = dependencies })
