-- ===== src/Journal/Redaction/Kept.antt =====
-- The validation of a JSON value keeps what the redaction has achieved.
use bzr_live.Common.{List, String, ok, ◌>>=◌, >>=-eq-ok, ok-injective, ◌≡◌, refl, sym, ◌∙◌, ap}
use bzr_live.Value.{
  Value, null, bool, int, float, finite, infinite, nan, str, ref, tuple, list, obj, Items, nil,
  cons, Fields, end, field,
}
use bzr_live.Journal.Json.{validate_json, validate_items, validate_fields}
use bzr_live.Journal.Redaction.Proofs.{hides_sensitive, items_hide, fields_hide, is_null}
use bzr_live.Journal.Secrets.{contains_secret, items_have_secret, fields_have_secret}

module _ (ss : List String) where
  -- the two values are redacted alike
  pub record IsAlike (v w : Value) : Type 0 where
    pub secret : contains_secret w ss ≡ contains_secret v ss
    pub hides : hides_sensitive w ≡ hides_sensitive v
    pub nothing : is_null w ≡ is_null v

  IsAlike-refl : (v w : Value) → v ≡ w → IsAlike v w
  IsAlike-refl v w e = record {
    secret = ap (λ z. contains_secret z ss) (sym e);
    hides = ap hides_sensitive (sym e);
    nothing = ap is_null (sym e);
  }

  abbrev AreAlike : Items → Items → Type 0
  AreAlike xs ys =
      (items_have_secret ys ss ≡ items_have_secret xs ss) × (items_hide ys ≡ items_hide xs)

  abbrev HaveAlike : Fields → Fields → Type 0
  HaveAlike fs gs =
      (fields_have_secret gs ss ≡ fields_have_secret fs ss) × (fields_hide gs ≡ fields_hide fs)

  IsAlike-tuple : (xs ys : Items) (w : Value) → tuple ys ≡ w → AreAlike xs ys → IsAlike (tuple xs) w
  unfolding contains_secret hides_sensitive
  IsAlike-tuple xs ys w e (s, h) = record {
    secret = ap (λ z. contains_secret z ss) (sym e) ∙ s;
    hides = ap hides_sensitive (sym e) ∙ h;
    nothing = ap is_null (sym e);
  }

  IsAlike-list : (xs ys : Items) (w : Value) → tuple ys ≡ w → AreAlike xs ys → IsAlike (list xs) w
  unfolding contains_secret hides_sensitive
  IsAlike-list xs ys w e (s, h) = record {
    secret = ap (λ z. contains_secret z ss) (sym e) ∙ s;
    hides = ap hides_sensitive (sym e) ∙ h;
    nothing = ap is_null (sym e);
  }

  IsAlike-obj : (fs gs : Fields) (w : Value) → obj gs ≡ w → HaveAlike fs gs → IsAlike (obj fs) w
  unfolding contains_secret hides_sensitive
  IsAlike-obj fs gs w e (s, h) = record {
    secret = ap (λ z. contains_secret z ss) (sym e) ∙ s;
    hides = ap hides_sensitive (sym e) ∙ h;
    nothing = ap is_null (sym e);
  }

  mutual
    unfolding validate_json contains_secret hides_sensitive

    pub validate_json-IsAlike : (v w : Value) → validate_json v ≡ ok w → IsAlike v w
    validate_json-IsAlike null w h = IsAlike-refl null w (ok-injective h)
    validate_json-IsAlike (bool b) w h = IsAlike-refl (bool b) w (ok-injective h)
    validate_json-IsAlike (int n) w h = IsAlike-refl (int n) w (ok-injective h)
    validate_json-IsAlike (float (finite m e)) w h =
        IsAlike-refl (float (finite m e)) w (ok-injective h)
    validate_json-IsAlike (float (infinite n)) w h = cc
    validate_json-IsAlike (float nan) w h = cc
    validate_json-IsAlike (str s) w h = IsAlike-refl (str s) w (ok-injective h)
    validate_json-IsAlike (ref r) w h = cc
    validate_json-IsAlike (tuple xs) w h =
        let (ys, e, q) = >>=-eq-ok (validate_items xs) (λ ys. ok (tuple ys)) h in
        IsAlike-tuple xs ys w (ok-injective q) (validate_items-AreAlike xs ys e)
    validate_json-IsAlike (list xs) w h =
        let (ys, e, q) = >>=-eq-ok (validate_items xs) (λ ys. ok (tuple ys)) h in
        IsAlike-list xs ys w (ok-injective q) (validate_items-AreAlike xs ys e)
    validate_json-IsAlike (obj fs) w h =
        let (gs, e, q) = >>=-eq-ok (validate_fields fs) (λ gs. ok (obj gs)) h in
        IsAlike-obj fs gs w (ok-injective q) (validate_fields-HaveAlike fs gs e)

    validate_items-AreAlike : (xs ys : Items) → validate_items xs ≡ ok ys → AreAlike xs ys
    validate_items-AreAlike nil ys h = rw (← ok-injective h) (refl, refl)
    validate_items-AreAlike (cons v xs) ys h =
        let (w, p, h') =
          >>=-eq-ok (validate_json v) (λ w. validate_items xs >>= λ ys. ok (cons w ys)) h in
        let (zs, q, e) = >>=-eq-ok (validate_items xs) (λ ys. ok (cons w ys)) h' in
        let one = validate_json-IsAlike v w p in
        let (s, r) = validate_items-AreAlike xs zs q in
        rw (← ok-injective e, one.secret, one.hides, s, r) (refl, refl)

    validate_fields-HaveAlike : (fs gs : Fields) → validate_fields fs ≡ ok gs → HaveAlike fs gs
    validate_fields-HaveAlike end gs h = rw (← ok-injective h) (refl, refl)
    validate_fields-HaveAlike (field k v fs) gs h =
        let (w, p, h') =
          >>=-eq-ok (validate_json v) (λ w. validate_fields fs >>= λ gs. ok (field k w gs)) h in
        let (hs, q, e) = >>=-eq-ok (validate_fields fs) (λ gs. ok (field k w gs)) h' in
        let one = validate_json-IsAlike v w p in
        let (s, r) = validate_fields-HaveAlike fs hs q in
        rw (← ok-injective e, one.secret, one.hides, one.nothing, s, r) (refl, refl)
