-- ===== src/Journal/Redaction/Proofs.antt =====
-- A redacted value holds no known secret, and nothing under a sensitive key.
use bzr_live.Common.{
  String, ◌≡◌, refl, Bool, true, false, ◌&&◌, ◌||◌, List, [], ◌∷◌, arith, mem_text, if◌then◌else◌,
  Error, Result, ok, err, ◌>>=◌, >>=-eq-ok, &&-eq_true, &&-true, ||-false, Bool-cases, inl, inr,
}
use bzr_live.Value.{
  Value, null, bool, int, float, str, ref, tuple, list, obj, Items, nil, cons, Fields, end, field,
}
use bzr_live.Journal.Json.{is_frozen, frozen_items, frozen_fields}
use bzr_live.Journal.Secrets.{
  remove_secrets, contains_secret, items_have_secret, fields_have_secret, text_has_secret,
  secret_list,
}
use bzr_live.Journal.Secrets.Removal.{AllNonempty, remove_secrets-IsFree}
use bzr_live.Journal.Secrets.Known.{IsFree-any, secret_list-AllNonempty}
use bzr_live.Journal.Redaction.{redact_opaque, redact_items, redact_fields, sensitive_key}

abbrev pub is_null : Value → Bool
is_null null = true
is_null _ = false

-- Each field with a sensitive key holds nothing.
unfoldable mutual
  pub hides_sensitive : Value → Bool
  hides_sensitive (tuple xs) = items_hide xs
  hides_sensitive (list xs) = items_hide xs
  hides_sensitive (obj fs) = fields_hide fs
  hides_sensitive v = true

  pub items_hide : Items → Bool
  items_hide nil = true
  items_hide (cons v xs) = hides_sensitive v && items_hide xs

  pub fields_hide : Fields → Bool
  fields_hide end = true
  fields_hide (field k v fs) =
      (if sensitive_key k then is_null v else hides_sensitive v) && fields_hide fs

-- What a redacted field is built from, when its key is not a repetition.
redacted_field :
    (repeated : Bool) (key : String) (m : Result Value) (n : Result Fields) (gs : Fields)
    (e : Error)
    → (if repeated then err e else (do w ← m; rest ← n; ok (field key w rest))) ≡ ok gs
    → (w : Value) × (rest : Fields) × (m ≡ ok w) × (n ≡ ok rest) × (gs ≡ field key w rest)
redacted_field true key m n gs e h = cc
redacted_field false key m n gs e h =
    let (w, p, q) = >>=-eq-ok m (λ w. n >>= λ rest. ok (field key w rest)) h in
    let (rest, p', q') = >>=-eq-ok n (λ rest. ok (field key w rest)) q in (w, rest, p, p', cc)

null_hides : (s : Bool) → (if s then true else true) ≡ true
null_hides true = refl
null_hides false = refl

module _ (ss : List String) (ne : AllNonempty ss) where
  clean_text : (s : String) → text_has_secret (remove_secrets s ss) ss ≡ false
  clean_text s = IsFree-any (remove_secrets s ss) ss (remove_secrets-IsFree s ss ne)

  abbrev IsClean : Value → Type 0
  IsClean w = (contains_secret w ss ≡ false) × (hides_sensitive w ≡ true)

  abbrev AreClean : Items → Type 0
  AreClean ys = (items_have_secret ys ss ≡ false) × (items_hide ys ≡ true)

  abbrev HasClean : Fields → Type 0
  HasClean gs = (fields_have_secret gs ss ≡ false) × (fields_hide gs ≡ true)

  -- the value of one field, dropped or redacted
  kept_or_dropped :
      (s : Bool) (key : String) (m : Result Value) (w : Value)
      → (if s || sensitive_key key then ok null else m) ≡ ok w
      → (m ≡ ok w → IsClean w)
      → (contains_secret w ss ≡ false)
        × ((if sensitive_key key then is_null w else hides_sensitive w) ≡ true)
  unfolding contains_secret hides_sensitive
  kept_or_dropped true key m w h clean =
      let same : null ≡ w = cc in rw (← same) (refl, null_hides (sensitive_key key))
  kept_or_dropped false key m w h clean = elim (Bool-cases (sensitive_key key)) [
    | inl drop ↦ let same : null ≡ w = cc (rw drop at h) in rw (← same, drop) (refl, refl)
    | inr keep ↦ let (c, d) = clean (rw keep at h) in rw keep (c, d)
  ]

  mutual
    unfolding redact_opaque contains_secret hides_sensitive is_frozen

    redact-IsClean : (v w : Value) → is_frozen v ≡ true → redact_opaque v ss ≡ ok w → IsClean w
    redact-IsClean null w f h = ground arith
    redact-IsClean (bool b) w f h = ground arith
    redact-IsClean (int n) w f h = ground arith
    redact-IsClean (float x) w f h = ground arith
    redact-IsClean (str s) w f h = ground (arith, clean_text s)
    redact-IsClean (ref r) w f h = cc
    redact-IsClean (tuple xs) w f h =
        let (ys, e, p) = >>=-eq-ok (redact_items xs ss) (λ zs. ok (tuple zs)) h in
        let same : tuple ys ≡ w = cc in rw (← same) (redact_items-AreClean xs ys f e)
    redact-IsClean (list xs) w f h = cc
    redact-IsClean (obj fs) w f h =
        let (gs, e, p) = >>=-eq-ok (redact_fields fs [] ss) (λ zs. ok (obj zs)) h in
        let same : obj gs ≡ w = cc in rw (← same) (redact_fields-HasClean fs [] gs f e)

    redact_items-AreClean :
        (xs ys : Items) → frozen_items xs ≡ true → redact_items xs ss ≡ ok ys → AreClean ys
    redact_items-AreClean nil ys f h = ground arith
    redact_items-AreClean (cons v xs) ys f h =
        let (w, e, p) =
          >>=-eq-ok (redact_opaque v ss) (λ w. redact_items xs ss >>= λ zs. ok (cons w zs)) h in
        let (zs, e', p') = >>=-eq-ok (redact_items xs ss) (λ zs. ok (cons w zs)) p in
        let same : cons w zs ≡ ys = cc in
        let (fv, fxs) = &&-eq_true (is_frozen v) (frozen_items xs) f in
        let (c, d) = redact-IsClean v w fv e in
        let (cs, ds) = redact_items-AreClean xs zs fxs e' in
        rw (← same) (||-false c cs, &&-true d ds)

    redact_fields-HasClean :
        (fs : Fields) (seen : List String) (gs : Fields)
        → frozen_fields fs ≡ true
        → redact_fields fs seen ss ≡ ok gs
        → HasClean gs
    redact_fields-HasClean end seen gs f h = ground arith
    redact_fields-HasClean (field k v fs) seen gs f h =
        let key = remove_secrets k ss in
        let dropped = sensitive_key k || sensitive_key key in
        let (w, rest, e, e', same) =
          redacted_field (mem_text key seen) key (if dropped then ok null else redact_opaque v ss)
            (redact_fields fs (key ∷ seen) ss) gs _ h in
        let (fv, ffs) = &&-eq_true (is_frozen v) (frozen_fields fs) f in
        let (c, d) =
          kept_or_dropped (sensitive_key k) key (redact_opaque v ss) w e (redact-IsClean v w fv) in
        let (cs, ds) = redact_fields-HasClean fs (key ∷ seen) rest ffs e' in
        rw same (||-false (||-false (clean_text k) c) cs, &&-true d ds)

-- What is redacted from a frozen value contains no known secret, in a text or in a key, and holds
-- nothing under a sensitive key.
pub redact_opaque-clean :
    (known : List String) (v w : Value)
    → is_frozen v ≡ true
    → redact_opaque v (secret_list known) ≡ ok w
    → (contains_secret w (secret_list known) ≡ false) × (hides_sensitive w ≡ true)
redact_opaque-clean known = redact-IsClean (secret_list known) (secret_list-AllNonempty known)
