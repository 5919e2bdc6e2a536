-- ===== src/Loader/Update/Within.antt =====
-- The references of an update are available.
use bzr_live.Common.{
  String, true, false, ◌≡◌, refl, List, [], ◌∷◌, ◌==ₛ◌, mem_text, ok, ◌>>=◌, OnOk, OnOk-ok,
  OnOk-bind, OnOk-then, OnOk-if, &&-true,
}
use bzr_live.Value.{
  Reference, Value, null, bool, int, float, str, ref, tuple, list, obj, Fields, end, field, has,
}
use bzr_live.Scenario.{PlannedResource}
use bzr_live.Loader.Checks.{member, object_of, refs_tuple, text_of, decimal_of}
use bzr_live.Loader.Resolve.{Scopes, resolved_list, check_groups, bug_scope}
use bzr_live.Loader.Resolve.Within.{
  within, holds, of_product, holds_fields, holds-refs_tuple, resolve_optional-holds,
  resolved_list-within, within-append_dependencies,
}
use bzr_live.Loader.Update

module _ (available : List Reference) (resources : List PlannedResource) where
  abbrev IsHeld : Value → Type 0
  IsHeld w = holds available w ≡ true

  text-IsHeld : (v : Value) → OnOk IsHeld (text_of v false >>= λ s. ok (str s))
  unfolding holds
  text-IsHeld v = OnOk-bind (text_of v false) _ (λ s _. OnOk-ok (str s) refl)

  optional_text-holds : (v : Value) → OnOk IsHeld (Update.optional_text v)
  unfolding Update.optional_text holds
  optional_text-holds null = OnOk-ok null refl
  optional_text-holds (bool b) = text-IsHeld (bool b)
  optional_text-holds (int n) = text-IsHeld (int n)
  optional_text-holds (float x) = text-IsHeld (float x)
  optional_text-holds (str t) = text-IsHeld (str t)
  optional_text-holds (ref r) = text-IsHeld (ref r)
  optional_text-holds (tuple xs) = text-IsHeld (tuple xs)
  optional_text-holds (list xs) = text-IsHeld (list xs)
  optional_text-holds (obj fs) = text-IsHeld (obj fs)

  product_field-holds :
      (key : String) (v : Value) (product : Reference)
      → OnOk IsHeld (Update.product_field available resources key v product)
  unfolding Update.product_field holds
  product_field-holds key null product = OnOk-ok null refl
  product_field-holds key (bool b) product =
      of_product available resources "is outside the target product" key (bool b) product
  product_field-holds key (int n) product =
      of_product available resources "is outside the target product" key (int n) product
  product_field-holds key (float x) product =
      of_product available resources "is outside the target product" key (float x) product
  product_field-holds key (str s) product =
      of_product available resources "is outside the target product" key (str s) product
  product_field-holds key (ref r) product =
      of_product available resources "is outside the target product" key (ref r) product
  product_field-holds key (tuple xs) product =
      of_product available resources "is outside the target product" key (tuple xs) product
  product_field-holds key (list xs) product =
      of_product available resources "is outside the target product" key (list xs) product
  product_field-holds key (obj fs) product =
      of_product available resources "is outside the target product" key (obj fs) product

  group_field-holds :
      (v : Value) (product : Reference)
      → OnOk IsHeld (Update.group_field available resources v product)
  unfolding Update.group_field holds
  group_field-holds v product = OnOk-bind (resolved_list v "group" available) _ (λ refs p.
      OnOk-then (check_groups refs product resources) _ (λ _.
        OnOk-ok (tuple (refs_tuple refs))
          (holds-refs_tuple available refs ((resolved_list-within available v "group").at p))))

  list_field-holds :
      (v : Value) (kind : String)
      → OnOk IsHeld (resolved_list v kind available >>= λ refs. ok (tuple (refs_tuple refs)))
  unfolding holds
  list_field-holds v kind = OnOk-bind (resolved_list v kind available) _ (λ refs p.
      OnOk-ok (tuple (refs_tuple refs))
        (holds-refs_tuple available refs ((resolved_list-within available v kind).at p)))

  update_field-holds :
      (key : String) (v : Value) (product : Reference)
      → OnOk IsHeld (Update.update_field available resources key v product)
  unfolding Update.update_field holds
  update_field-holds key v product =
      OnOk-if (mem_text key ("summary" ∷ "status" ∷ [])) (text-IsHeld v) (
        OnOk-if (key ==ₛ "resolution") (optional_text-holds v) (
          OnOk-if (key ==ₛ "assignee") (resolve_optional-holds available v "actor") (
            OnOk-if (key ==ₛ "duplicate_of") (resolve_optional-holds available v "bug") (
              OnOk-if (mem_text key ("version" ∷ "milestone" ∷ []))
                (product_field-holds key v product)
                (OnOk-if (mem_text key ("estimated_hours" ∷ "remaining_hours" ∷ []))
                  (OnOk-bind (decimal_of v) _ (λ s _. OnOk-ok (str s) refl))
                  (OnOk-if (key ==ₛ "groups") (group_field-holds v product)
                    (list_field-holds v (Update.list_kind key))))))))

  update_fields-holds :
      (keys : List String) (fs : Fields) (product : Reference)
      → OnOk
          (λ gs. holds_fields available gs ≡ true)
          (Update.update_fields available resources keys fs product)
  unfolding Update.update_fields holds_fields
  update_fields-holds [] fs product = OnOk-ok end refl
  update_fields-holds (key ∷ keys) fs product =
      OnOk-if (has key fs)
        (OnOk-bind (Update.update_field available resources key (member key fs) product) _ (λ v p.
          OnOk-bind (Update.update_fields available resources keys fs product) _ (λ rest q.
            OnOk-ok (field key v rest) (
              &&-true ((update_field-holds key (member key fs) product).at p)
                ((update_fields-holds keys fs product).at q)))))
        (update_fields-holds keys fs product)

  pub update_set-within :
      (value : Value) (bug : Reference) (scopes : Scopes)
      → OnOk
          (λ made. within available made.1 ≡ true)
          (Update.update_set available resources value bug scopes)
  unfolding Update.update_set holds
  update_set-within value bug scopes = OnOk-bind (object_of value Update.update_keys []) _ (λ fs _.
      OnOk-then (Update.raise_if (Update.no_fields fs) _) _ (λ _.
        OnOk-bind (bug_scope bug scopes) _ (λ scope _.
          OnOk-bind (Update.update_fields available resources Update.update_keys fs scope.0) _
            (λ updates p. OnOk-ok _ (
              within-append_dependencies available [] (obj updates) refl
                ((update_fields-holds Update.update_keys fs scope.0).at p))))))
