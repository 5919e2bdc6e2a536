-- ===== src/Loader/Resolve/Within.antt =====
-- The references that a checked part of a payload holds are available.
use bzr_live.Common.{
  String, Bool, true, ◌≡◌, refl, List, [], ◌∷◌, ◌&&◌, arith, ok, ◌>>=◌, require, require-ok, OnOk,
  OnOk-ok, OnOk-bind, OnOk-then, all_of, &&-eq_true, &&-true,
}
use bzr_live.Value.{
  Reference, Value, null, bool, int, float, str, ref, tuple, list, obj, Items, nil, cons, Fields,
  end, field,
}
use bzr_live.Scenario.{PlannedResource}
use bzr_live.Loader.Checks.{mem_ref, reference_of, unique_refs, refs_tuple, texts_tuple}
use bzr_live.Loader.Resolve
use bzr_live.Loader.Resolve.{append_new}

-- all the references are among the available ones
abbrev pub within : List Reference → List Reference → Bool
within available rs = all_of (λ r. mem_ref r available) rs

unfoldable mutual
  -- so are all those that a value holds
  pub holds : List Reference → Value → Bool
  holds available (ref r) = mem_ref r available
  holds available (tuple xs) = holds_items available xs
  holds available (list xs) = holds_items available xs
  holds available (obj fs) = holds_fields available fs
  holds available v = true

  pub holds_items : List Reference → Items → Bool
  holds_items available nil = true
  holds_items available (cons v xs) = holds available v && holds_items available xs

  pub holds_fields : List Reference → Fields → Bool
  holds_fields available end = true
  holds_fields available (field k v fs) = holds available v && holds_fields available fs

module _ (available : List Reference) where
  pub within-append_new :
      (rs : List Reference) (r : Reference)
      → within available rs ≡ true
      → mem_ref r available ≡ true
      → within available (append_new rs r) ≡ true
  within-append_new [] r h m = ground (arith, m)
  within-append_new (s ∷ rs) r h m = ground (arith, h, m, within-append_new rs r)

  pub within-extend_new :
      (target rs : List Reference)
      → within available target ≡ true
      → within available rs ≡ true
      → within available (Resolve.extend_new target rs) ≡ true
  unfolding Resolve.extend_new
  within-extend_new target [] h k = h
  within-extend_new target (r ∷ rs) h k =
      let (m, rest) = &&-eq_true (mem_ref r available) (within available rs) k in
      within-extend_new (append_new target r) rs (within-append_new target r h m) rest

  mutual
    unfolding Resolve.append_dependencies holds

    pub within-append_dependencies :
        (target : List Reference) (v : Value)
        → within available target ≡ true
        → holds available v ≡ true
        → within available (Resolve.append_dependencies target v) ≡ true
    within-append_dependencies target null h k = h
    within-append_dependencies target (bool b) h k = h
    within-append_dependencies target (int n) h k = h
    within-append_dependencies target (float x) h k = h
    within-append_dependencies target (str s) h k = h
    within-append_dependencies target (ref r) h k = within-append_new target r h k
    within-append_dependencies target (tuple xs) h k = within-append_items target xs h k
    within-append_dependencies target (list xs) h k = within-append_items target xs h k
    within-append_dependencies target (obj fs) h k = within-append_fields target fs h k

    pub within-append_items :
        (target : List Reference) (xs : Items)
        → within available target ≡ true
        → holds_items available xs ≡ true
        → within available (Resolve.append_items target xs) ≡ true
    within-append_items target nil h k = h
    within-append_items target (cons v xs) h k =
        let (m, rest) = &&-eq_true (holds available v) (holds_items available xs) k in
        within-append_items (Resolve.append_dependencies target v) xs
          (within-append_dependencies target v h m) rest

    pub within-append_fields :
        (target : List Reference) (fs : Fields)
        → within available target ≡ true
        → holds_fields available fs ≡ true
        → within available (Resolve.append_fields target fs) ≡ true
    within-append_fields target end h k = h
    within-append_fields target (field name v fs) h k =
        let (m, rest) = &&-eq_true (holds available v) (holds_fields available fs) k in
        within-append_fields (Resolve.append_dependencies target v) fs
          (within-append_dependencies target v h m) rest

  pub holds-refs_tuple :
      (rs : List Reference)
      → within available rs ≡ true
      → holds_items available (refs_tuple rs) ≡ true
  unfolding holds_items refs_tuple
  holds-refs_tuple [] h = refl
  holds-refs_tuple (r ∷ rs) h =
      let (m, rest) = &&-eq_true (mem_ref r available) (within available rs) h in
      &&-true m (holds-refs_tuple rs rest)

  pub holds-texts_tuple : (ss : List String) → holds_items available (texts_tuple ss) ≡ true
  unfolding holds_items texts_tuple
  holds-texts_tuple [] = refl
  holds-texts_tuple (s ∷ ss) = holds-texts_tuple ss

  pub resolve-mem :
      (v : Value) (kind : String)
      → OnOk (λ r. mem_ref r available ≡ true) (Resolve.resolve v kind available)
  unfolding Resolve.resolve
  resolve-mem v kind =
      OnOk-bind (reference_of v kind) _
        (λ r _. OnOk-bind (require (mem_ref r available) _) _ (λ _ p. OnOk-ok r (require-ok _ _ p)))

  pub resolved_list-within :
      (v : Value) (kind : String)
      → OnOk (λ rs. within available rs ≡ true) (Resolve.resolved_list v kind available)
  unfolding Resolve.resolved_list
  resolved_list-within v kind =
      OnOk-bind (unique_refs v kind) _ (λ rs _.
        OnOk-bind (require (within available rs) _) _ (λ _ p. OnOk-ok rs (require-ok _ _ p)))

  -- a reference that may be `None`
  holds-resolve :
      (v : Value) (kind : String)
      → OnOk (λ w. holds available w ≡ true) (Resolve.resolve v kind available >>= λ r. ok (ref r))
  unfolding holds
  holds-resolve v kind =
      OnOk-bind (Resolve.resolve v kind available) _
        (λ r p. OnOk-ok (ref r) ((resolve-mem v kind).at p))

  pub resolve_optional-holds :
      (v : Value) (kind : String)
      → OnOk (λ w. holds available w ≡ true) (Resolve.resolve_optional v kind available)
  unfolding Resolve.resolve_optional holds
  resolve_optional-holds null kind = OnOk-ok null refl
  resolve_optional-holds (bool b) kind = holds-resolve (bool b) kind
  resolve_optional-holds (int n) kind = holds-resolve (int n) kind
  resolve_optional-holds (float x) kind = holds-resolve (float x) kind
  resolve_optional-holds (str s) kind = holds-resolve (str s) kind
  resolve_optional-holds (ref r) kind = holds-resolve (ref r) kind
  resolve_optional-holds (tuple xs) kind = holds-resolve (tuple xs) kind
  resolve_optional-holds (list xs) kind = holds-resolve (list xs) kind
  resolve_optional-holds (obj fs) kind = holds-resolve (obj fs) kind

  -- a reference to something of the product
  pub of_product :
      (resources : List PlannedResource) (message kind : String) (v : Value) (product : Reference)
      → OnOk
          (λ w. holds available w ≡ true)
          (Resolve.resolve v kind available >>= λ r.
            Resolve.require_product kind r product resources message >>= λ _. ok (ref r))
  unfolding holds
  of_product resources message kind v product =
      OnOk-bind (Resolve.resolve v kind available) _ (λ r p.
        OnOk-then (Resolve.require_product kind r product resources message) _
          (λ _. OnOk-ok (ref r) ((resolve-mem v kind).at p)))
