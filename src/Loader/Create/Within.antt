-- ===== src/Loader/Create/Within.antt =====
-- The references of a creation are available, and what it creates is not.
use bzr_live.Common.{
  String, Bool, true, false, ◌≡◌, refl, List, [], ◌∷◌, ok, ◌>>=◌, OnOk, OnOk-ok, OnOk-bind,
  OnOk-then, &&-true, &&-eq_true, all_of, raise_if, raise_if-ok,
}
use bzr_live.Value.{Reference, Value, null, bool, int, float, str, ref, tuple, list, nil, obj}
use bzr_live.Scenario.{PlannedResource}
use bzr_live.Loader.Checks.{member, member_or, object_of, refs_tuple, text_of, name_of, mem_ref}
use bzr_live.Loader.Resolve.{
  resolve, resolve_optional, resolved_list, require_product, check_groups, append_dependencies,
  custom_assignments,
}
use bzr_live.Loader.Resolve.Within.{
  within, holds, of_product, holds-refs_tuple, resolve-mem, resolve_optional-holds,
  resolved_list-within, within-append_dependencies,
}
use bzr_live.Loader.Resolve.Assigned.{custom_assignments-holds}
use bzr_live.Loader.Create

module _ (available : List Reference) (resources : List PlannedResource) where
  abbrev IsHeld : Value → Type 0
  IsHeld w = holds available w ≡ true

  in_product-holds :
      (kind : String) (v : Value) (product : Reference)
      → OnOk IsHeld (Create.in_product available resources kind v product)
  unfolding Create.in_product holds
  in_product-holds kind null product = OnOk-ok null refl
  in_product-holds kind (bool b) product =
      of_product available resources "is outside the selected product" kind (bool b) product
  in_product-holds kind (int n) product =
      of_product available resources "is outside the selected product" kind (int n) product
  in_product-holds kind (float x) product =
      of_product available resources "is outside the selected product" kind (float x) product
  in_product-holds kind (str s) product =
      of_product available resources "is outside the selected product" kind (str s) product
  in_product-holds kind (ref r) product =
      of_product available resources "is outside the selected product" kind (ref r) product
  in_product-holds kind (tuple xs) product =
      of_product available resources "is outside the selected product" kind (tuple xs) product
  in_product-holds kind (list xs) product =
      of_product available resources "is outside the selected product" kind (list xs) product
  in_product-holds kind (obj fs) product =
      of_product available resources "is outside the selected product" kind (obj fs) product

  some_assignments :
      (v : Value) → OnOk IsHeld (custom_assignments available resources v >>= λ xs. ok (tuple xs))
  unfolding holds
  some_assignments v =
      OnOk-bind (custom_assignments available resources v) _
        (λ xs p. OnOk-ok (tuple xs) ((custom_assignments-holds available resources v).at p))

  optional_assignments-holds :
      (v : Value) → OnOk IsHeld (Create.optional_assignments available resources v)
  unfolding Create.optional_assignments holds
  optional_assignments-holds null = OnOk-ok (tuple nil) refl
  optional_assignments-holds (bool b) = some_assignments (bool b)
  optional_assignments-holds (int n) = some_assignments (int n)
  optional_assignments-holds (float x) = some_assignments (float x)
  optional_assignments-holds (str s) = some_assignments (str s)
  optional_assignments-holds (ref r) = some_assignments (ref r)
  optional_assignments-holds (tuple xs) = some_assignments (tuple xs)
  optional_assignments-holds (list xs) = some_assignments (list xs)
  optional_assignments-holds (obj fs) = some_assignments (obj fs)

  abbrev all_held : List Value → Bool
  all_held vs = all_of (λ v. holds available v) vs

  created_refs-within :
      (vs : List Value) (target : List Reference)
      → all_held vs ≡ true
      → within available target ≡ true
      → within available (Create.created_refs available resources vs target) ≡ true
  unfolding Create.created_refs
  created_refs-within [] target h k = k
  created_refs-within (v ∷ vs) target h k =
      let (m, rest) = &&-eq_true (holds available v) (all_held vs) h in
      created_refs-within vs (append_dependencies target v) rest
        (within-append_dependencies available target v k m)

  refs-IsHeld :
      (v : Value) (kind : String) {rs : List Reference}
      → resolved_list v kind available ≡ ok rs
      → IsHeld (tuple (refs_tuple rs))
  unfolding holds
  refs-IsHeld v kind {rs} p =
      holds-refs_tuple available rs ((resolved_list-within available v kind).at p)

  -- what a payload that was taken refers to and creates
  pub record IsCreation (made : Create.Payload) : Type 0 where
    pub resolved : within available made.refs ≡ true
    pub fresh : mem_ref made.target available ≡ false

  pub create_payload-IsCreation :
      (server_alias : String → String) (value : Value)
      → OnOk
          (λ made. IsCreation made.0 × (made.0.target.kind ≡ "bug"))
          (Create.create_payload available resources server_alias value)
  unfolding Create.create_payload holds
  create_payload-IsCreation server_alias value =
      OnOk-bind (object_of value Create.allowed Create.required) _ (λ fs _.
        OnOk-bind (name_of (member "alias" fs)) _ (λ alias _.
          let creates : Reference = record { kind = "bug"; name = alias } in
          OnOk-then (raise_if (mem_ref creates available) _) _ (λ new.
            OnOk-bind (resolve (member "product" fs) "product" available) _ (λ product p1.
              OnOk-bind (resolve (member "component" fs) "component" available) _ (λ component p2.
                OnOk-then (require_product "component" component product resources _) _ (λ _.
                  OnOk-bind (text_of (member "summary" fs) false) _ (λ summary _.
                    OnOk-bind (text_of (member_or "description" (str "") fs) true) _
                      (λ description _.
                        OnOk-bind
                          (Create.in_product available resources "version" (member "version" fs)
                            product)
                          _
                          (λ version p3.
                            OnOk-bind
                              (Create.in_product available resources "milestone"
                                (member "milestone" fs) product)
                              _
                              (λ milestone p4.
                                OnOk-bind
                                  (resolve_optional (member "assignee" fs) "actor" available) _
                                  (λ assignee p5.
                                    OnOk-bind
                                      (resolved_list (member_or "cc" (list nil) fs) "actor"
                                        available)
                                      _
                                      (λ cc p6.
                                        OnOk-bind
                                          (resolved_list (member_or "depends_on" (list nil) fs)
                                            "bug" available)
                                          _
                                          (λ depends_on p7.
                                            OnOk-bind
                                              (resolved_list (member_or "blocks" (list nil) fs)
                                                "bug" available)
                                              _
                                              (λ blocks p8.
                                                OnOk-bind
                                                  (resolved_list
                                                    (member_or "keywords" (list nil) fs) "keyword"
                                                    available)
                                                  _
                                                  (λ keywords p9.
                                                    OnOk-bind
                                                      (resolved_list
                                                        (member_or "groups" (list nil) fs) "group"
                                                        available)
                                                      _
                                                      (λ groups p10.
                                                        OnOk-then
                                                          (check_groups groups product resources) _
                                                          (λ _.
                                                            OnOk-bind
                                                            (resolve_optional
                                                            (member "duplicate_of" fs) "bug"
                                                            available)
                                                            _
                                                            (λ duplicate_of p11.
                                                            OnOk-bind
                                                            (Create.optional_decimal
                                                            (member "estimated_hours" fs))
                                                            _
                                                            (λ estimated_hours _.
                                                            OnOk-bind
                                                            (Create.optional_decimal
                                                            (member "remaining_hours" fs))
                                                            _
                                                            (λ remaining_hours _.
                                                            OnOk-bind
                                                            (Create.optional_assignments available
                                                            resources (member "custom_fields" fs))
                                                            _
                                                            (λ custom_fields p12.
                                                            let parts =
                                                            ref product
                                                            ∷ ref component
                                                            ∷ version
                                                            ∷ milestone
                                                            ∷ assignee
                                                            ∷ tuple (refs_tuple cc)
                                                            ∷ tuple (refs_tuple groups)
                                                            ∷ tuple (refs_tuple depends_on)
                                                            ∷ tuple (refs_tuple blocks)
                                                            ∷ duplicate_of
                                                            ∷ tuple (refs_tuple keywords)
                                                            ∷ custom_fields
                                                            ∷ [] in
                                                            let held : all_held parts ≡ true =
                                                            &&-true
                                                            ((resolve-mem available
                                                            (member "product" fs) "product").at
                                                            p1)
                                                            (&&-true
                                                            ((resolve-mem available
                                                            (member "component" fs) "component").at
                                                            p2)
                                                            (&&-true
                                                            ((in_product-holds "version"
                                                            (member "version" fs) product).at
                                                            p3)
                                                            (&&-true
                                                            ((in_product-holds "milestone"
                                                            (member "milestone" fs) product).at
                                                            p4)
                                                            (&&-true
                                                            ((resolve_optional-holds available
                                                            (member "assignee" fs) "actor").at
                                                            p5)
                                                            (&&-true
                                                            (refs-IsHeld
                                                            (member_or "cc" (list nil) fs) "actor"
                                                            p6)
                                                            (&&-true
                                                            (refs-IsHeld
                                                            (member_or "groups" (list nil) fs)
                                                            "group" p10)
                                                            (&&-true
                                                            (refs-IsHeld
                                                            (member_or "depends_on" (list nil) fs)
                                                            "bug" p7)
                                                            (&&-true
                                                            (refs-IsHeld
                                                            (member_or "blocks" (list nil) fs) "bug"
                                                            p8)
                                                            (&&-true
                                                            ((resolve_optional-holds available
                                                            (member "duplicate_of" fs) "bug").at
                                                            p11)
                                                            (&&-true
                                                            (refs-IsHeld
                                                            (member_or "keywords" (list nil) fs)
                                                            "keyword" p9)
                                                            (&&-true
                                                            ((optional_assignments-holds
                                                            (member "custom_fields" fs)).at
                                                            p12)
                                                            refl))))))))))) in
                                                            OnOk-ok _ (
                                                            record {
                                                            resolved =
                                                            created_refs-within parts [] held refl;
                                                            fresh =
                                                            raise_if-ok (mem_ref creates available)
                                                            _ new;
                                                            },
                                                            refl,
                                                            ))))))))))))))))))))))
