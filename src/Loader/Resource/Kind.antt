-- ===== src/Loader/Resource/Kind.antt =====
-- The kind of a parsed resource is one of the resource kinds, and so no bug.
use bzr_live.Common.{
  String, ◌≡◌, ◌≢◌, sym, ◌∙◌, ap, List, [], ◌∷◌, ◌++◌, none, some, OnOk, OnOk-ok, OnOk-bind,
  or_raise, or_raise-ok, invalid,
}
use bzr_live.Value.{Value}
use bzr_live.Value.Planned.{freeze_fields}
use bzr_live.Scenario.{PlannedResource}
use bzr_live.Loader.Checks.{object_of, member, name_of}
use bzr_live.Loader.Resource
use bzr_live.Loader.Resource.{resource_fields}

-- the kind is one that `_RESOURCE_FIELDS` has
abbrev pub IsKnown : PlannedResource → Type 0
IsKnown r = (known : List String × List String) × (resource_fields r.kind ≡ some known)

pub IsKnown-no_bug : (r : PlannedResource) → IsKnown r → r.kind ≢ "bug"
IsKnown-no_bug r (known, p) e = let no : none ≡ some known = sym (ap resource_fields e) ∙ p in cc

pub parse_resource-IsKnown : (value : Value) → OnOk IsKnown (Resource.parse_resource value)
unfolding Resource.parse_resource
parse_resource-IsKnown value =
    OnOk-bind (object_of value Resource.all_fields ("kind" ∷ "name" ∷ [])) _ (λ base _.
      OnOk-bind (Resource.kind_of (member "kind" base)) _ (λ kind _.
        OnOk-bind (or_raise (resource_fields kind) (invalid "unsupported resource kind")) _
          (λ known p. OnOk-bind (object_of value (known.0 ++ known.1) known.0) _ (λ fs _.
            OnOk-bind (name_of (member "name" fs)) _ (λ name _.
              OnOk-bind (Resource.parse_data kind fs) _ (λ parsed _.
                OnOk-bind (freeze_fields parsed.0) _
                  (λ frozen _. OnOk-ok _ (known, or_raise-ok (resource_fields kind) _ p))))))))
