-- ===== src/Loader/Checks/Unique.antt =====
-- What `_decode_pairs` lets through.
use bzr_live.Common.{
  String, false, ◌≡◌, refl, ap, List, [], ◌∷◌, ok, mem_text, OnOk, OnOk-ok, OnOk-bind, OnOk-then,
  raise_if, raise_if-ok,
}
use bzr_live.Value.{
  Value, null, bool, int, float, str, ref, tuple, list, obj, Items, nil, cons, Fields, end, field,
}
use bzr_live.Loader.Checks

mutual
  -- no object within holds a key twice
  pub IsUnique : Value → Type 0
  IsUnique (list xs) = IsUniqueItems xs
  IsUnique (obj fs) = IsUniqueFields [] fs
  IsUnique v = Unit {0}

  pub IsUniqueItems : Items → Type 0
  IsUniqueItems nil = Unit {0}
  IsUniqueItems (cons v xs) = IsUnique v × IsUniqueItems xs

  pub IsUniqueFields : List String → Fields → Type 0
  IsUniqueFields seen end = Unit {0}
  IsUniqueFields seen (field k v fs) =
      (mem_text k seen ≡ false) × IsUnique v × IsUniqueFields (k ∷ seen) fs

mutual
  unfolding Checks.decode_pairs IsUnique

  pub decode-IsUnique : (v : Value) → OnOk (λ w. (w ≡ v) × IsUnique v) (Checks.decode_pairs v)
  decode-IsUnique null = OnOk-ok null (refl, tt)
  decode-IsUnique (bool b) = OnOk-ok (bool b) (refl, tt)
  decode-IsUnique (int n) = OnOk-ok (int n) (refl, tt)
  decode-IsUnique (float x) = OnOk-ok (float x) (refl, tt)
  decode-IsUnique (str s) = OnOk-ok (str s) (refl, tt)
  decode-IsUnique (ref r) = OnOk-ok (ref r) (refl, tt)
  decode-IsUnique (tuple xs) = OnOk-ok (tuple xs) (refl, tt)
  decode-IsUnique (list xs) = OnOk-bind (Checks.decode_items xs) _ (λ ys p.
      let (same, once) = (decode_items_unique xs).at p in OnOk-ok (list ys) (ap list same, once))
  decode-IsUnique (obj fs) = OnOk-bind (Checks.decode_fields fs []) _ (λ gs p.
      let (same, once) = (decode_fields_unique fs []).at p in OnOk-ok (obj gs) (ap obj same, once))

  decode_items_unique :
      (xs : Items) → OnOk (λ ys. (ys ≡ xs) × IsUniqueItems xs) (Checks.decode_items xs)
  decode_items_unique nil = OnOk-ok nil (refl, tt)
  decode_items_unique (cons v xs) = OnOk-bind (Checks.decode_pairs v) _ (λ w p.
      OnOk-bind (Checks.decode_items xs) _ (λ ys q.
        let (same, once) = (decode-IsUnique v).at p in
        let (later, rest) = (decode_items_unique xs).at q in
        OnOk-ok (cons w ys) (rw (same, later), (once, rest))))

  decode_fields_unique :
      (fs : Fields) (seen : List String)
      → OnOk (λ gs. (gs ≡ fs) × IsUniqueFields seen fs) (Checks.decode_fields fs seen)
  decode_fields_unique end seen = OnOk-ok end (refl, tt)
  decode_fields_unique (field k v fs) seen = OnOk-then (raise_if (mem_text k seen) _) _ (λ new.
      OnOk-bind (Checks.decode_pairs v) _ (λ w p.
        OnOk-bind (Checks.decode_fields fs (k ∷ seen)) _ (λ gs q.
          let (same, once) = (decode-IsUnique v).at p in
          let (later, rest) = (decode_fields_unique fs (k ∷ seen)).at q in
          OnOk-ok (field k w gs)
            (rw (same, later), (raise_if-ok (mem_text k seen) _ new, once, rest)))))

-- A document that `_decode_pairs` returns is the one it was given, and no object in it, at any
-- depth, holds a key twice.
pub decode_pairs-IsUnique : (v w : Value) → Checks.decode_pairs v ≡ ok w → (w ≡ v) × IsUnique v
decode_pairs-IsUnique v w h = (decode-IsUnique v).at h
