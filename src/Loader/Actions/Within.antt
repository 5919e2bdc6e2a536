-- ===== src/Loader/Actions/Within.antt =====
-- The references of a payload are available, and what it creates is not.
use bzr_live.Common.{
  true, false, ◌≡◌, refl, List, [], ◌∷◌, ◌==ₛ◌, OnOk, OnOk-ok, OnOk-bind, OnOk-then, &&-true,
  raise_if, raise_if-ok, require,
}
use bzr_live.Value.{Reference, Value, null, bool, int, float, str, ref, tuple, list, obj}
use bzr_live.Scenario.{Asset, PlannedResource}
use bzr_live.Replay.Values.{text_at}
use bzr_live.Loader.Checks.{
  member, member_or, object_of, text_of, decimal_of, name_of, boolean_of, mem_ref,
}
use bzr_live.Loader.Resolve.{
  Scopes, resolve, resolve_optional, resource_at, require_scope, bug_scope, custom_assignments,
}
use bzr_live.Loader.Resolve.Within.{
  within, holds, resolve-mem, resolve_optional-holds, within-append_items,
}
use bzr_live.Loader.Resolve.Assigned.{custom_assignments-holds}
use bzr_live.Loader.Create.{Payload}
use bzr_live.Loader.Create.Within.{IsCreation}
use bzr_live.Loader.Update.{update_set}
use bzr_live.Loader.Update.Within.{update_set-within}
use bzr_live.Loader.Actions

module _ (available : List Reference) (resources : List PlannedResource) where
  abbrev IsResolved : Payload → Type 0
  IsResolved made = within available made.refs ≡ true

  pub update_payload-within :
      (value : Value) (scopes : Scopes)
      → OnOk IsResolved (Actions.update_payload available resources value scopes)
  unfolding Actions.update_payload
  update_payload-within value scopes =
      OnOk-bind (object_of value ("bug" ∷ "set" ∷ []) ("bug" ∷ "set" ∷ [])) _ (λ fs _.
        OnOk-bind (resolve (member "bug" fs) "bug" available) _ (λ bug p.
          OnOk-bind (update_set available resources (member "set" fs) bug scopes) _ (λ parts q.
            OnOk-ok _ (
              &&-true ((resolve-mem available (member "bug" fs) "bug").at p)
                ((update_set-within available resources (member "set" fs) bug scopes).at q)))))

  pub comment_payload-within :
      (value : Value) → OnOk IsResolved (Actions.comment_payload available resources value)
  unfolding Actions.comment_payload
  comment_payload-within value =
      OnOk-bind (object_of value ("bug" ∷ "body" ∷ "private" ∷ []) ("bug" ∷ "body" ∷ [])) _ (λ fs _.
        OnOk-bind (resolve (member "bug" fs) "bug" available) _ (λ bug p.
          OnOk-bind (text_of (member "body" fs) false) _ (λ body _.
            OnOk-bind (boolean_of (member_or "private" (bool false) fs)) _ (λ private _.
              OnOk-ok _ (&&-true ((resolve-mem available (member "bug" fs) "bug").at p) refl)))))

  pub attach_payload-IsCreation :
      (value : Value) (assets : List Asset)
      → OnOk
          (λ made. IsCreation available resources made × (made.target.kind ≡ "attachment"))
          (Actions.attach_payload available resources value assets)
  unfolding Actions.attach_payload
  attach_payload-IsCreation value assets =
      OnOk-bind
        (object_of value
          ("alias" ∷ "bug" ∷ "asset" ∷ "description" ∷ "content_type" ∷ "private" ∷ [])
          ("alias" ∷ "bug" ∷ "asset" ∷ "description" ∷ "content_type" ∷ []))
        _
        (λ fs _. OnOk-bind (name_of (member "alias" fs)) _ (λ alias _.
          let creates : Reference = record { kind = "attachment"; name = alias } in
          OnOk-then (raise_if (mem_ref creates available) _) _ (λ new.
            OnOk-bind (resolve (member "bug" fs) "bug" available) _ (λ bug p.
              OnOk-bind (resolve (member "asset" fs) "asset" available) _ (λ asset q.
                OnOk-bind (Actions.media_type_of (member "content_type" fs)) _ (λ content_type _.
                  OnOk-bind (text_of (member "description" fs) true) _ (λ description _.
                    OnOk-bind (boolean_of (member_or "private" (bool false) fs)) _ (λ private _.
                      OnOk-bind (Actions.asset_named asset.name assets) _ (λ content _. OnOk-ok _ (
                        record {
                          resolved =
                              &&-true ((resolve-mem available (member "bug" fs) "bug").at p) (
                                &&-true ((resolve-mem available (member "asset" fs) "asset").at q)
                                  refl);
                          fresh = raise_if-ok (mem_ref creates available) _ new;
                        },
                        refl,
                      ))))))))))

  pub worktime_payload-within :
      (value : Value) → OnOk IsResolved (Actions.worktime_payload available resources value)
  unfolding Actions.worktime_payload
  worktime_payload-within value =
      OnOk-bind
        (object_of value ("bug" ∷ "hours" ∷ "comment" ∷ []) ("bug" ∷ "hours" ∷ "comment" ∷ [])) _
        (λ fs _. OnOk-bind (resolve (member "bug" fs) "bug" available) _ (λ bug p.
          OnOk-bind (decimal_of (member "hours" fs)) _ (λ hours _.
            OnOk-bind (text_of (member "comment" fs) false) _ (λ comment _.
              OnOk-ok _ (&&-true ((resolve-mem available (member "bug" fs) "bug").at p) refl)))))

  pub custom_payload-within :
      (value : Value) → OnOk IsResolved (Actions.custom_payload available resources value)
  unfolding Actions.custom_payload
  custom_payload-within value =
      OnOk-bind (object_of value ("bug" ∷ "values" ∷ []) ("bug" ∷ "values" ∷ [])) _ (λ fs _.
        OnOk-bind (resolve (member "bug" fs) "bug" available) _ (λ bug p.
          OnOk-bind (custom_assignments available resources (member "values" fs)) _
            (λ assignments q. OnOk-ok _ (
              within-append_items available (bug ∷ []) assignments
                (&&-true ((resolve-mem available (member "bug" fs) "bug").at p) refl)
                ((custom_assignments-holds available resources (member "values" fs)).at q)))))

  requestee_refs-within :
      (v : Value) → holds available v ≡ true → within available (Actions.requestee_refs v) ≡ true
  unfolding Actions.requestee_refs holds
  requestee_refs-within null h = refl
  requestee_refs-within (bool b) h = refl
  requestee_refs-within (int n) h = refl
  requestee_refs-within (float x) h = refl
  requestee_refs-within (str s) h = refl
  requestee_refs-within (ref r) h = &&-true h refl
  requestee_refs-within (tuple xs) h = refl
  requestee_refs-within (list xs) h = refl
  requestee_refs-within (obj fs) h = refl

  pub flag_payload-within :
      (value : Value) (scopes : Scopes)
      → OnOk IsResolved (Actions.flag_payload available resources value scopes)
  unfolding Actions.flag_payload
  flag_payload-within value scopes =
      OnOk-bind
        (object_of value ("bug" ∷ "flag_type" ∷ "status" ∷ "requestee" ∷ [])
          ("bug" ∷ "flag_type" ∷ "status" ∷ []))
        _
        (λ fs _. OnOk-bind (resolve (member "bug" fs) "bug" available) _ (λ bug p.
          OnOk-bind (resolve (member "flag_type" fs) "flag-type" available) _ (λ flag_type q.
            OnOk-bind (Actions.status_of (member "status" fs)) _ (λ status _.
              OnOk-bind (resolve_optional (member "requestee" fs) "actor" available) _
                (λ requestee p'.
                  OnOk-then (raise_if (Actions.misplaced_requestee requestee status) _) _ (λ _.
                    OnOk-bind (resource_at "flag-type" flag_type.name resources) _ (λ catalog _.
                      OnOk-bind (text_at catalog.fields "target") _ (λ aims _.
                        OnOk-then (require (aims ==ₛ "bug") _) _ (λ _.
                          OnOk-bind (bug_scope bug scopes) _ (λ scope _.
                            OnOk-then (require_scope catalog.fields "products" scope.0 _) _ (λ _.
                              OnOk-then (require_scope catalog.fields "components" scope.1 _) _
                                (λ _.
                                  let asked =
                                    (resolve_optional-holds available (member "requestee" fs)
                                        "actor").at
                                      p' in
                                  OnOk-ok _ (
                                    &&-true ((resolve-mem available (member "bug" fs) "bug").at p) (
                                      &&-true
                                        ((resolve-mem available (member "flag_type" fs)
                                            "flag-type").at
                                          q)
                                        (requestee_refs-within requestee asked)))))))))))))))

  pub attachment_payload-within :
      (value : Value) → OnOk IsResolved (Actions.attachment_payload available resources value)
  unfolding Actions.attachment_payload
  attachment_payload-within value =
      OnOk-bind
        (object_of value ("attachment" ∷ "obsolete" ∷ "description" ∷ [])
          ("attachment" ∷ "obsolete" ∷ []))
        _
        (λ fs _.
          OnOk-bind (resolve (member "attachment" fs) "attachment" available) _ (λ attachment p.
            OnOk-bind (boolean_of (member "obsolete" fs)) _ (λ obsolete _.
              OnOk-bind (Actions.description_fields fs) _ (λ last _. OnOk-ok _ (
                &&-true ((resolve-mem available (member "attachment" fs) "attachment").at p)
                  refl)))))
