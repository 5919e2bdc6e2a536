-- ===== src/Journal/Validate.antt =====
-- scenario/journal.py: the checks on the parts of an expected postcondition.
use bzr_live.Common.{
  String, Bool, true, false, ◌&&◌, ◌||◌, not, List, [], ◌∷◌, Option, none, some, ◌==ₛ◌, is_blank,
  any_of, all_of, mem_text, Result, ok, err, invalid, key_error, ◌>>=◌, ◌>>◌, raise_if, require,
  or_raise,
}
use bzr_live.Value.{
  Reference, eq_ref, Value, null, bool, str, ref, tuple, obj, Items, nil, cons, Fields, end, field,
  get, has,
}
use bzr_live.Patterns.{is_name, is_decimal}

-- `_REFERENCE_KINDS`
abbrev pub reference_kinds : List String
reference_kinds =
    "group" ∷ "actor" ∷ "product" ∷ "component" ∷ "version" ∷ "milestone" ∷ "custom-field"
    ∷ "keyword" ∷ "flag-type" ∷ "asset" ∷ "bug" ∷ "attachment" ∷ []

-- `kind is not None and value.kind != kind`
abbrev other_kind : Option String → String → Bool
other_kind none actual = false
other_kind (some kind) actual = not (actual ==ₛ kind)

unfoldable pub check_reference : Reference → Option String → Result Reference
unfolding is_name
check_reference r kind = do
  require (mem_text r.kind reference_kinds) "uses an unsupported reference kind"
  raise_if (other_kind kind r.kind) "must reference the expected kind"
  require (is_name r.name) "reference name must be a slug"
  ok r

-- `_validate_reference`
unfoldable pub validate_reference : Value → Option String → Result Reference
unfolding check_reference
validate_reference (ref r) kind = check_reference r kind
validate_reference v kind = err (invalid "must be a typed reference")

-- `_utf8_string`
unfoldable pub utf8_string : Value → Bool → Result (Unit {0})
utf8_string (str s) nonempty = raise_if (nonempty && is_blank s) "must be a string"
utf8_string v nonempty = err (invalid "must be a string")

-- some key of the mapping passes the test
any_key : (String → Bool) → Fields → Bool
any_key p end = false
any_key p (field k v fs) = p k || any_key p fs

-- `_keys`
unfoldable pub keys : Value → List String → List String → Result Fields
unfolding any_key has
keys (obj fs) required optional = do
  raise_if (any_key (λ k. not (mem_text k required || mem_text k optional)) fs) "unknown field"
  require (all_of (λ k. has k fs) required) "required field is missing"
  ok fs
keys v required optional = err (invalid "must be an object")

-- `values[key]`
unfoldable pub item : Fields → String → Result Value
unfolding get
item fs key = or_raise (get key fs) (key_error key)

-- `_ref_value` with `nullable`
unfoldable pub nullable_ref : Value → String → Result (Unit {0})
unfolding validate_reference
nullable_ref null kind = ok tt
nullable_ref v kind = do r ← validate_reference v (some kind); ok tt

-- `_ref_value` without it
unfoldable pub ref_value : Value → String → Result (Unit {0})
unfolding validate_reference
ref_value v kind = do r ← validate_reference v (some kind); ok tt

-- the loop of `_refs_value`
refs_loop : Items → String → List Reference → Result (Unit {0})
refs_loop nil kind seen = ok tt
refs_loop (cons v xs) kind seen = do
  r ← validate_reference v (some kind)
  raise_if (any_of (eq_ref r) seen) "duplicate reference"
  refs_loop xs kind (r ∷ seen)

-- `_refs_value`
unfoldable pub refs_value : Value → String → Result (Unit {0})
unfolding refs_loop validate_reference
refs_value (tuple xs) kind = refs_loop xs kind []
refs_value v kind = err (invalid "must be an immutable reference sequence")

-- `_hours_value`
unfoldable pub hours_value : Value → Bool → Result (Unit {0})
unfolding is_decimal
hours_value null nullable = require nullable "must be a canonical decimal string"
hours_value (str s) nullable = require (is_decimal s) "must be a canonical decimal string"
hours_value v nullable = err (invalid "must be a canonical decimal string")

all_strings : Items → Bool
all_strings nil = true
all_strings (cons (str s) xs) = all_strings xs
all_strings (cons v xs) = false

assigned_value : Value → Result (Unit {0})
unfolding all_strings
assigned_value (tuple xs) = require (all_strings xs) "must contain strings"
assigned_value (str s) = ok tt
assigned_value v = err (invalid "must be a string or string sequence")

-- the loop of `_custom_values`
custom_loop : Items → List Reference → Result (Unit {0})
unfolding assigned_value keys item validate_reference
custom_loop nil seen = ok tt
custom_loop (cons v xs) seen = do
  assignment ← keys v ("field" ∷ "value" ∷ []) []
  field_ref ← item assignment "field"
  r ← validate_reference field_ref (some "custom-field")
  raise_if (any_of (eq_ref r) seen) "duplicate assignment"
  assigned ← item assignment "value"
  assigned_value assigned
  custom_loop xs (r ∷ seen)

-- `_custom_values`
unfoldable pub custom_values : Value → Result (Unit {0})
unfolding custom_loop
custom_values (tuple xs) = custom_loop xs []
custom_values v = err (invalid "must be an immutable assignment sequence")

-- `type(value) is bool`
unfoldable pub boolean_value : Value → Result (Unit {0})
boolean_value (bool b) = ok tt
boolean_value v = err (invalid "must be a boolean")

-- a text that matches a pattern
unfoldable pub matching : (String → Bool) → String → Value → Result (Unit {0})
matching p message (str s) = require (p s) message
matching p message v = err (invalid message)
