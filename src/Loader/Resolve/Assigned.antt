-- ===== src/Loader/Resolve/Assigned.antt =====
-- The references that the assignments of custom fields hold are available.
use bzr_live.Common.{
  true, ◌≡◌, refl, List, [], ◌∷◌, ◌==ₛ◌, OnOk, OnOk-ok, OnOk-bind, OnOk-then, OnOk-if, OnOk-err,
  &&-true, &&-eq_true,
}
use bzr_live.Value.{
  Reference, Value, null, bool, int, float, str, ref, tuple, list, obj, Items, nil, cons, Fields,
  end, field,
}
use bzr_live.Value.Planned.{freeze_planned, freeze_items, freeze_fields}
use bzr_live.Loader.Resolve
use bzr_live.Loader.Checks.{mem_ref}
use bzr_live.Loader.Resolve.Within.{
  holds, holds_items, holds_fields, resolve-mem, holds-texts_tuple,
}
use bzr_live.Scenario.{PlannedResource}

module _ (available : List Reference) where
  mutual
    unfolding freeze_planned holds

    -- freezing keeps the references
    pub freeze-holds :
        (v : Value)
        → holds available v ≡ true
        → OnOk (λ w. holds available w ≡ true) (freeze_planned v)
    freeze-holds null h = OnOk-ok null refl
    freeze-holds (bool b) h = OnOk-ok (bool b) refl
    freeze-holds (int n) h = OnOk-ok (int n) refl
    freeze-holds (float x) h = OnOk-err
    freeze-holds (str s) h = OnOk-ok (str s) refl
    freeze-holds (ref r) h = OnOk-ok (ref r) h
    freeze-holds (tuple xs) h =
        OnOk-bind _ _ (λ ys p. OnOk-ok (tuple ys) ((freeze-items xs h).at p))
    freeze-holds (list xs) h = OnOk-bind _ _ (λ ys p. OnOk-ok (tuple ys) ((freeze-items xs h).at p))
    freeze-holds (obj fs) h = OnOk-bind _ _ (λ gs p. OnOk-ok (obj gs) ((freeze-fields fs h).at p))

    freeze-items :
        (xs : Items)
        → holds_items available xs ≡ true
        → OnOk (λ ys. holds_items available ys ≡ true) (freeze_items xs)
    freeze-items nil h = OnOk-ok nil refl
    freeze-items (cons v xs) h =
        let (m, rest) = &&-eq_true (holds available v) (holds_items available xs) h in
        OnOk-bind _ _ (λ w p. OnOk-bind _ _ (λ ys q.
          OnOk-ok (cons w ys) (&&-true ((freeze-holds v m).at p) ((freeze-items xs rest).at q))))

    freeze-fields :
        (fs : Fields)
        → holds_fields available fs ≡ true
        → OnOk (λ gs. holds_fields available gs ≡ true) (freeze_fields fs)
    freeze-fields end h = OnOk-ok end refl
    freeze-fields (field k v fs) h =
        let (m, rest) = &&-eq_true (holds available v) (holds_fields available fs) h in
        OnOk-bind _ _ (λ w p. OnOk-bind _ _ (λ gs q.
          OnOk-ok (field k w gs)
            (&&-true ((freeze-holds v m).at p) ((freeze-fields fs rest).at q))))

  text_value-holds : (v : Value) → OnOk (λ w. holds available w ≡ true) (Resolve.text_value v)
  unfolding Resolve.text_value holds
  text_value-holds (str s) = OnOk-ok (str s) refl
  text_value-holds null = OnOk-err
  text_value-holds (bool b) = OnOk-err
  text_value-holds (int n) = OnOk-err
  text_value-holds (float x) = OnOk-err
  text_value-holds (ref r) = OnOk-err
  text_value-holds (tuple xs) = OnOk-err
  text_value-holds (list xs) = OnOk-err
  text_value-holds (obj fs) = OnOk-err

  single_value-holds :
      (choices : List Value) (v : Value)
      → OnOk (λ w. holds available w ≡ true) (Resolve.single_value choices v)
  unfolding Resolve.single_value holds
  single_value-holds choices (str s) = OnOk-then _ _ (λ _. OnOk-ok (str s) refl)
  single_value-holds choices null = OnOk-err
  single_value-holds choices (bool b) = OnOk-err
  single_value-holds choices (int n) = OnOk-err
  single_value-holds choices (float x) = OnOk-err
  single_value-holds choices (ref r) = OnOk-err
  single_value-holds choices (tuple xs) = OnOk-err
  single_value-holds choices (list xs) = OnOk-err
  single_value-holds choices (obj fs) = OnOk-err

  multiple_value-holds :
      (choices : List Value) (v : Value)
      → OnOk (λ w. holds available w ≡ true) (Resolve.multiple_value choices v)
  unfolding Resolve.multiple_value holds
  multiple_value-holds choices v = OnOk-bind (Resolve.unique_strings v true) _ (λ selected _.
      OnOk-then _ _ (λ _.
        OnOk-ok (tuple (Resolve.texts_tuple selected)) (holds-texts_tuple available selected)))

  assigned_value-holds :
      (catalog : Fields) (v : Value)
      → OnOk (λ w. holds available w ≡ true) (Resolve.assigned_value catalog v)
  unfolding Resolve.assigned_value
  assigned_value-holds catalog v =
      OnOk-bind (Resolve.text_at catalog "field_type") _ (λ field_type _.
        OnOk-bind _ _ (λ choices _. OnOk-if (field_type ==ₛ "text") (text_value-holds v) (
          OnOk-if (field_type ==ₛ "single-select")
            (single_value-holds (Resolve.choice_list choices) v)
            (multiple_value-holds (Resolve.choice_list choices) v))))

  assignments_loop-holds :
      (resources : List PlannedResource) (xs : Items) (seen : List Reference)
      → OnOk
          (λ ys. holds_items available ys ≡ true)
          (Resolve.assignments_loop available resources xs seen)
  unfolding Resolve.assignments_loop holds_items
  assignments_loop-holds resources nil seen = OnOk-ok nil refl
  assignments_loop-holds resources (cons v xs) seen =
      OnOk-bind (Resolve.object_of v ("field" ∷ "value" ∷ []) ("field" ∷ "value" ∷ [])) _ (λ fs _.
        let key = Resolve.member "field" fs in
        let given = Resolve.member "value" fs in
        OnOk-bind (Resolve.resolve key "custom-field" available) _ (λ r p.
          OnOk-then (Resolve.raise_if (mem_ref r seen) _) _ (λ _.
            OnOk-bind (Resolve.resource_at "custom-field" r.name resources) _ (λ found _.
              OnOk-bind (Resolve.assigned_value found.fields given) _ (λ assigned q.
                OnOk-bind (freeze_planned assigned) _ (λ frozen q'.
                  OnOk-bind (Resolve.assignments_loop available resources xs (r ∷ seen)) _
                    (λ rest p'.
                      let known = (resolve-mem available key "custom-field").at p in
                      let value = (assigned_value-holds found.fields given).at q in
                      let cold = (freeze-holds assigned value).at q' in
                      OnOk-ok _ (
                        &&-true (&&-true known (&&-true cold refl))
                          ((assignments_loop-holds resources xs (r ∷ seen)).at p')))))))))

  pub custom_assignments-holds :
      (resources : List PlannedResource) (v : Value)
      → OnOk
          (λ ys. holds_items available ys ≡ true)
          (Resolve.custom_assignments available resources v)
  unfolding Resolve.custom_assignments
  custom_assignments-holds resources v =
      OnOk-bind (Resolve.list_of v) _
        (λ xs _. OnOk-then _ _ (λ _. assignments_loop-holds resources xs []))
