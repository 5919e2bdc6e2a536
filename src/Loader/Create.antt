-- ===== src/Loader/Create.antt =====
-- scenario/loader.py: `_create_payload`.
pub mod Within
use bzr_live.Common.{
  String, Bool, true, false, List, [], ◌∷◌, Result, ok, err, invalid, ◌>>=◌, ◌>>◌, raise_if,
}
use bzr_live.Value.{Reference, Value, null, str, ref, tuple, list, nil, Fields, end, field}
use bzr_live.Scenario.{PlannedResource}
use bzr_live.Loader.Checks.{
  object_of, member, member_or, name_of, text_of, decimal_of, mem_ref, refs_tuple,
}
use bzr_live.Loader.Resolve.{
  resolve, resolve_optional, resolved_list, require_product, check_groups, append_dependencies,
  custom_assignments,
}

-- what the payload of an event comes to: the normalised payload, the values and the target of the
-- postcondition, the references to add to the dependencies, and what a creation registers
pub record Payload : Type 0 where
  pub payload : Fields
  pub values : Fields
  pub target : Reference
  pub refs : List Reference

abbrev required : List String
required = "alias" ∷ "product" ∷ "component" ∷ "summary" ∷ []

abbrev allowed : List String
allowed =
    "alias" ∷ "product" ∷ "component" ∷ "summary" ∷ "description" ∷ "version" ∷ "milestone"
    ∷ "assignee" ∷ "cc" ∷ "groups" ∷ "depends_on" ∷ "blocks" ∷ "duplicate_of" ∷ "keywords"
    ∷ "estimated_hours" ∷ "remaining_hours" ∷ "custom_fields" ∷ []

optional_decimal : Value → Result Value
unfolding decimal_of
optional_decimal null = ok null
optional_decimal v = do s ← decimal_of v; ok (str s)

module _ (available : List Reference) (resources : List PlannedResource) where
  -- a version or a milestone, which belongs to the product
  in_product : String → Value → Reference → Result Value
  unfolding resolve require_product
  in_product kind null product = ok null
  in_product kind v product = do
    r ← resolve v kind available
    require_product kind r product resources "is outside the selected product"
    ok (ref r)

  optional_assignments : Value → Result Value
  unfolding custom_assignments
  optional_assignments null = ok (tuple nil)
  optional_assignments v = do xs ← custom_assignments available resources v; ok (tuple xs)

  -- what the payload depends on
  created_refs : List Value → List Reference → List Reference
  unfolding append_dependencies
  created_refs [] target = target
  created_refs (v ∷ vs) target = created_refs vs (append_dependencies target v)

  -- `_create_payload`, with the hash of the alias as a parameter, and the scope of the bug
  unfoldable pub create_payload :
      (String → String) → Value → Result (Payload × (Reference × Reference))
  unfolding object_of member member_or name_of text_of resolve resolve_optional resolved_list
      require_product check_groups in_product optional_decimal optional_assignments created_refs
      refs_tuple
  create_payload server_alias value = do
    fs ← object_of value allowed required
    alias ← name_of (member "alias" fs)
    let creates : Reference = record { kind = "bug"; name = alias }
    raise_if (mem_ref creates available) "duplicate created identity"
    product ← resolve (member "product" fs) "product" available
    component ← resolve (member "component" fs) "component" available
    require_product "component" component product resources
        "component is outside the selected product"
    summary ← text_of (member "summary" fs) false
    description ← text_of (member_or "description" (str "") fs) true
    version ← in_product "version" (member "version" fs) product
    milestone ← in_product "milestone" (member "milestone" fs) product
    assignee ← resolve_optional (member "assignee" fs) "actor" available
    cc ← resolved_list (member_or "cc" (list nil) fs) "actor" available
    depends_on ← resolved_list (member_or "depends_on" (list nil) fs) "bug" available
    blocks ← resolved_list (member_or "blocks" (list nil) fs) "bug" available
    keywords ← resolved_list (member_or "keywords" (list nil) fs) "keyword" available
    groups ← resolved_list (member_or "groups" (list nil) fs) "group" available
    check_groups groups product resources
    duplicate_of ← resolve_optional (member "duplicate_of" fs) "bug" available
    estimated_hours ← optional_decimal (member "estimated_hours" fs)
    remaining_hours ← optional_decimal (member "remaining_hours" fs)
    custom_fields ← optional_assignments (member "custom_fields" fs)
    let rest = λ (last : Fields). field "product" (ref product) (
        field "component" (ref component) (
          field "summary" (str summary) (
            field "description" (str description) (
              field "version" version (
                field "milestone" milestone (
                  field "assignee" assignee (
                    field "cc" (tuple (refs_tuple cc)) (
                      field "depends_on" (tuple (refs_tuple depends_on)) (
                        field "blocks" (tuple (refs_tuple blocks)) (
                          field "keywords" (tuple (refs_tuple keywords)) (
                            field "groups" (tuple (refs_tuple groups)) (
                              field "duplicate_of" duplicate_of (
                                field "estimated_hours" estimated_hours (
                                  field "remaining_hours" remaining_hours
                                    (field "custom_fields" custom_fields last)))))))))))))))
    let parts =
        ref product
        ∷ ref component
        ∷ version
        ∷ milestone
        ∷ assignee
        ∷ tuple (refs_tuple cc)
        ∷ tuple (refs_tuple groups)
        ∷ tuple (refs_tuple depends_on)
        ∷ tuple (refs_tuple blocks)
        ∷ duplicate_of
        ∷ tuple (refs_tuple keywords)
        ∷ custom_fields
        ∷ []
    ok (
      record {
        payload = field "alias" (str alias) (rest end);
        values = rest (field "server_alias" (str (server_alias alias)) end);
        target = creates;
        refs = created_refs parts [];
      },
      (product, component),
    )
