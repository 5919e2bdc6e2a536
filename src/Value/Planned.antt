-- ===== src/Value/Planned.antt =====
-- scenario/model.py: `freeze_planned` and `planned_to_json`.
use Prim.Native.String.{◌++◌}
use bzr_live.Common.{◌≡◌, Result, ok, err, type_error, ◌>>=◌, >>=-eq-ok}
use bzr_live.Value.{
  Value, null, bool, int, float, str, ref, tuple, list, obj, Items, nil, cons, Fields, end, field,
}

-- `freeze_planned`: sequences become tuples; a float is no planned value
unfoldable mutual
  pub freeze_planned : Value → Result Value
  freeze_planned (float x) = err type_error
  freeze_planned (tuple xs) = do ys ← freeze_items xs; ok (tuple ys)
  freeze_planned (list xs) = do ys ← freeze_items xs; ok (tuple ys)
  freeze_planned (obj fs) = do gs ← freeze_fields fs; ok (obj gs)
  freeze_planned v = ok v

  pub freeze_items : Items → Result Items
  freeze_items nil = ok nil
  freeze_items (cons v xs) = do w ← freeze_planned v; ys ← freeze_items xs; ok (cons w ys)

  pub freeze_fields : Fields → Result Fields
  freeze_fields end = ok end
  freeze_fields (field k v fs) = do w ← freeze_planned v; gs ← freeze_fields fs; ok (field k w gs)

-- `planned_to_json`: a reference becomes the object that names it
unfoldable mutual
  pub planned_to_json : Value → Value
  planned_to_json (ref r) = obj (field "ref" (str (r.kind ++ ":" ++ r.name)) end)
  planned_to_json (tuple xs) = tuple (planned_items xs)
  planned_to_json (obj fs) = obj (planned_fields fs)
  planned_to_json v = v

  pub planned_items : Items → Items
  planned_items nil = nil
  planned_items (cons v xs) = cons (planned_to_json v) (planned_items xs)

  pub planned_fields : Fields → Fields
  planned_fields end = end
  planned_fields (field k v fs) = field k (planned_to_json v) (planned_fields fs)

mutual
  unfolding freeze_planned

  refreeze : (v w : Value) → freeze_planned v ≡ ok w → freeze_planned w ≡ ok w
  refreeze null w h = let same : null ≡ w = cc in rw (← same)
  refreeze (bool b) w h = let same : bool b ≡ w = cc in rw (← same)
  refreeze (int n) w h = let same : int n ≡ w = cc in rw (← same)
  refreeze (float x) w h = cc
  refreeze (str s) w h = let same : str s ≡ w = cc in rw (← same)
  refreeze (ref r) w h = let same : ref r ≡ w = cc in rw (← same)
  refreeze (tuple xs) w h =
      let (ys, e, p) = >>=-eq-ok (freeze_items xs) (λ zs. ok (tuple zs)) h in
      let same : tuple ys ≡ w = cc in rw (← same, refreeze_items xs ys e)
  refreeze (list xs) w h =
      let (ys, e, p) = >>=-eq-ok (freeze_items xs) (λ zs. ok (tuple zs)) h in
      let same : tuple ys ≡ w = cc in rw (← same, refreeze_items xs ys e)
  refreeze (obj fs) w h =
      let (gs, e, p) = >>=-eq-ok (freeze_fields fs) (λ zs. ok (obj zs)) h in
      let same : obj gs ≡ w = cc in rw (← same, refreeze_fields fs gs e)

  refreeze_items : (xs ys : Items) → freeze_items xs ≡ ok ys → freeze_items ys ≡ ok ys
  refreeze_items nil ys h = let same : nil ≡ ys = cc in rw (← same)
  refreeze_items (cons v xs) ys h =
      let (w, e, p) =
        >>=-eq-ok (freeze_planned v) (λ w. freeze_items xs >>= λ zs. ok (cons w zs)) h in
      let (zs, e', p') = >>=-eq-ok (freeze_items xs) (λ zs. ok (cons w zs)) p in
      let same : cons w zs ≡ ys = cc in rw (← same, refreeze v w e, refreeze_items xs zs e')

  refreeze_fields : (fs gs : Fields) → freeze_fields fs ≡ ok gs → freeze_fields gs ≡ ok gs
  refreeze_fields end gs h = let same : end ≡ gs = cc in rw (← same)
  refreeze_fields (field k v fs) gs h =
      let (w, e, p) =
        >>=-eq-ok (freeze_planned v) (λ w. freeze_fields fs >>= λ zs. ok (field k w zs)) h in
      let (zs, e', p') = >>=-eq-ok (freeze_fields fs) (λ zs. ok (field k w zs)) p in
      let same : field k w zs ≡ gs = cc in rw (← same, refreeze v w e, refreeze_fields fs zs e')

-- A frozen mapping is left alone when it is frozen again.
pub freeze_fields_idem : (fs gs : Fields) → freeze_fields fs ≡ ok gs → freeze_fields gs ≡ ok gs
freeze_fields_idem fs gs h = refreeze_fields fs gs h
