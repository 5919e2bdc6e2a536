-- ===== src/Journal/Json.antt =====
-- Captured JSON, scenario/journal.py: `_validate_json`, and `_json_mutable`, its inverse on the
-- way to a file.
use bzr_live.Common.{
  Bool, true, false, ◌≡◌, refl, ◌&&◌, arith, Result, ok, err, invalid, ◌>>=◌, >>=-eq-ok, &&-eq_true,
  &&-true,
}
use bzr_live.Value.{
  finite, infinite, nan, Value, null, bool, int, float, str, ref, tuple, list, obj, Items, nil,
  cons, Fields, end, field,
}

-- `_validate_json`: lists are frozen to tuples; references and non-finite numbers are refused
unfoldable mutual
  pub validate_json : Value → Result Value
  validate_json (ref r) = err (invalid "JSON output cannot contain typed references")
  validate_json (float (infinite n)) = err (invalid "must be a finite number")
  validate_json (float nan) = err (invalid "must be a finite number")
  validate_json (tuple xs) = do ys ← validate_items xs; ok (tuple ys)
  validate_json (list xs) = do ys ← validate_items xs; ok (tuple ys)
  validate_json (obj fs) = do gs ← validate_fields fs; ok (obj gs)
  validate_json v = ok v

  pub validate_items : Items → Result Items
  validate_items nil = ok nil
  validate_items (cons v xs) = do w ← validate_json v; ys ← validate_items xs; ok (cons w ys)

  pub validate_fields : Fields → Result Fields
  validate_fields end = ok end
  validate_fields (field k v fs) = do
    w ← validate_json v
    gs ← validate_fields fs
    ok (field k w gs)

-- `_json_mutable`: tuples become lists again
unfoldable mutual
  pub json_mutable : Value → Value
  json_mutable (obj fs) = obj (mutable_fields fs)
  json_mutable (tuple xs) = list (mutable_items xs)
  json_mutable v = v

  pub mutable_items : Items → Items
  mutable_items nil = nil
  mutable_items (cons v xs) = cons (json_mutable v) (mutable_items xs)

  pub mutable_fields : Fields → Fields
  mutable_fields end = end
  mutable_fields (field k v fs) = field k (json_mutable v) (mutable_fields fs)

-- A value that `_validate_json` can return: frozen, finite and free of references.
unfoldable mutual
  pub is_frozen : Value → Bool
  is_frozen (ref r) = false
  is_frozen (list xs) = false
  is_frozen (float (infinite n)) = false
  is_frozen (float nan) = false
  is_frozen (tuple xs) = frozen_items xs
  is_frozen (obj fs) = frozen_fields fs
  is_frozen v = true

  pub frozen_items : Items → Bool
  frozen_items nil = true
  frozen_items (cons v xs) = is_frozen v && frozen_items xs

  pub frozen_fields : Fields → Bool
  frozen_fields end = true
  frozen_fields (field k v fs) = is_frozen v && frozen_fields fs

mutual
  unfolding validate_json is_frozen

  validate-frozen : (v w : Value) → validate_json v ≡ ok w → is_frozen w ≡ true
  validate-frozen null w h = ground arith
  validate-frozen (bool b) w h = ground arith
  validate-frozen (int n) w h = ground arith
  validate-frozen (float (finite m e)) w h = ground arith
  validate-frozen (float (infinite n)) w h = cc
  validate-frozen (float nan) w h = cc
  validate-frozen (str s) w h = ground arith
  validate-frozen (ref r) w h = cc
  validate-frozen (tuple xs) w h =
      let (ys, e, p) = >>=-eq-ok (validate_items xs) (λ zs. ok (tuple zs)) h in
      let same : tuple ys ≡ w = cc in rw (← same) (validate_items-frozen xs ys e)
  validate-frozen (list xs) w h =
      let (ys, e, p) = >>=-eq-ok (validate_items xs) (λ zs. ok (tuple zs)) h in
      let same : tuple ys ≡ w = cc in rw (← same) (validate_items-frozen xs ys e)
  validate-frozen (obj fs) w h =
      let (gs, e, p) = >>=-eq-ok (validate_fields fs) (λ zs. ok (obj zs)) h in
      let same : obj gs ≡ w = cc in rw (← same) (validate_fields-frozen fs gs e)

  validate_items-frozen : (xs ys : Items) → validate_items xs ≡ ok ys → frozen_items ys ≡ true
  validate_items-frozen nil ys h = ground arith
  validate_items-frozen (cons v xs) ys h =
      let (w, e, p) =
        >>=-eq-ok (validate_json v) (λ w. validate_items xs >>= λ zs. ok (cons w zs)) h in
      let (zs, e', p') = >>=-eq-ok (validate_items xs) (λ zs. ok (cons w zs)) p in
      let same : cons w zs ≡ ys = cc in
      rw (← same) (&&-true (validate-frozen v w e) (validate_items-frozen xs zs e'))

  validate_fields-frozen : (fs gs : Fields) → validate_fields fs ≡ ok gs → frozen_fields gs ≡ true
  validate_fields-frozen end gs h = ground arith
  validate_fields-frozen (field k v fs) gs h =
      let (w, e, p) =
        >>=-eq-ok (validate_json v) (λ w. validate_fields fs >>= λ zs. ok (field k w zs)) h in
      let (zs, e', p') = >>=-eq-ok (validate_fields fs) (λ zs. ok (field k w zs)) p in
      let same : field k w zs ≡ gs = cc in
      rw (← same) (&&-true (validate-frozen v w e) (validate_fields-frozen fs zs e'))

mutual
  unfolding validate_json json_mutable is_frozen

  validate-mutable : (v : Value) → is_frozen v ≡ true → validate_json (json_mutable v) ≡ ok v
  validate-mutable null h = refl
  validate-mutable (bool b) h = refl
  validate-mutable (int n) h = refl
  validate-mutable (float (finite m e)) h = refl
  validate-mutable (float (infinite n)) h = cc
  validate-mutable (float nan) h = cc
  validate-mutable (str s) h = refl
  validate-mutable (ref r) h = cc
  validate-mutable (tuple xs) h = rw (validate_items-mutable xs h)
  validate-mutable (list xs) h = cc
  validate-mutable (obj fs) h = rw (validate_fields-mutable fs h)

  validate_items-mutable :
      (xs : Items) → frozen_items xs ≡ true → validate_items (mutable_items xs) ≡ ok xs
  validate_items-mutable nil h = refl
  validate_items-mutable (cons v xs) h =
      let (p, q) = &&-eq_true (is_frozen v) (frozen_items xs) h in
      rw (validate-mutable v p, validate_items-mutable xs q)

  validate_fields-mutable :
      (fs : Fields) → frozen_fields fs ≡ true → validate_fields (mutable_fields fs) ≡ ok fs
  validate_fields-mutable end h = refl
  validate_fields-mutable (field k v fs) h =
      let (p, q) = &&-eq_true (is_frozen v) (frozen_fields fs) h in
      rw (validate-mutable v p, validate_fields-mutable fs q)

-- What `_validate_json` accepts it returns frozen, and a frozen value that is thawed for the file
-- and validated again when it is read comes back as it was.
pub handler_output_roundtrip :
    (v w : Value)
    → validate_json v ≡ ok w
    → (is_frozen w ≡ true) × (validate_json (json_mutable w) ≡ ok w)
handler_output_roundtrip v w h =
    let frozen : is_frozen w ≡ true = validate-frozen v w h in (frozen, validate-mutable w frozen)
