-- ===== src/Loader/Checks.antt =====
-- scenario/loader.py: the checks on the parts of a decoded document. A message leaves out the
-- document and the path within it.
pub mod Unique
use bzr_live.Common.{
  ℕ, pos, String, Bool, true, false, ◌&&◌, ◌||◌, not, List, [], ◌∷◌, ◌++◌, Option, none, some,
  ◌==ₛ◌, ◌==◌, eq_ℤ, is_blank, is_ascii_space, any_of, all_of, mem_text, count_char, split_at,
  all_chars, Result, ok, err, invalid, ◌>>=◌, ◌>>◌, raise_if, require, or_raise, if◌then◌else◌,
}
use bzr_live.Value.{
  Reference, eq_ref, Value, null, bool, int, float, str, ref, tuple, list, obj, Items, nil, cons,
  Fields, end, field, get, has,
}
use bzr_live.Patterns.{is_name, is_decimal}

-- a value of the decoded document, `obj[key]`, once the object has been checked to hold it
unfoldable pub member : String → Fields → Value
unfolding get
member key fs = elim (get key fs) [ none ↦ null | some v ↦ v ]

-- `obj.get(key, default)`
unfoldable pub member_or : String → Value → Fields → Value
unfolding get
member_or key default fs = elim (get key fs) [ none ↦ default | some v ↦ v ]

unfoldable mutual
  -- `_decode_pairs`: a repeated key is refused at every depth
  pub decode_pairs : Value → Result Value
  decode_pairs (list xs) = do ys ← decode_items xs; ok (list ys)
  decode_pairs (obj fs) = do gs ← decode_fields fs []; ok (obj gs)
  decode_pairs v = ok v

  pub decode_items : Items → Result Items
  decode_items nil = ok nil
  decode_items (cons v xs) = do w ← decode_pairs v; ys ← decode_items xs; ok (cons w ys)

  pub decode_fields : Fields → List String → Result Fields
  decode_fields end seen = ok end
  decode_fields (field k v fs) seen = do
    raise_if (mem_text k seen) "duplicate object key"
    w ← decode_pairs v
    gs ← decode_fields fs (k ∷ seen)
    ok (field k w gs)

unfoldable pub field_names : Fields → List String
field_names end = []
field_names (field k v fs) = k ∷ field_names fs

-- `_object`
unfoldable pub object_of : Value → List String → List String → Result Fields
unfolding field_names has
object_of (obj fs) allowed required = do
  require (all_of (λ k. mem_text k allowed) (field_names fs)) "unknown field"
  require (all_of (λ k. has k fs) required) "required field is missing"
  ok fs
object_of v allowed required = err (invalid "must be an object")

-- `_version`
unfoldable pub version_of : Value → Result (Unit {0})
version_of (int n) = require (eq_ℤ n (pos 1)) "must be integer 1"
version_of v = err (invalid "must be integer 1")

-- `_name`
unfoldable pub name_of : Value → Result String
unfolding is_name
name_of (str s) = do require (is_name s) "must be an ASCII slug"; ok s
name_of v = err (invalid "must be an ASCII slug")

-- `_text`
unfoldable pub text_of : Value → Bool → Result String
text_of (str s) empty = do require (empty || not (is_blank s)) "must be a non-empty string"; ok s
text_of v empty = err (invalid "must be a non-empty string")

-- `_list`
unfoldable pub list_of : Value → Result Items
list_of (list xs) = ok xs
list_of v = err (invalid "must be an array")

-- `_boolean`
unfoldable pub boolean_of : Value → Result Bool
boolean_of (bool b) = ok b
boolean_of v = err (invalid "must be a boolean")

-- `_decimal`
unfoldable pub decimal_of : Value → Result String
unfolding is_decimal
decimal_of (str s) = do
  require (is_decimal s) "must be a canonical non-negative decimal string"
  ok s
decimal_of v = err (invalid "must be a canonical non-negative decimal string")

-- `_RESOURCE_KINDS`
abbrev pub resource_kinds : List String
resource_kinds =
    "group" ∷ "actor" ∷ "product" ∷ "component" ∷ "version" ∷ "milestone" ∷ "custom-field"
    ∷ "keyword" ∷ "flag-type" ∷ []

abbrev scenario_kinds : List String
scenario_kinds = resource_kinds ++ "asset" ∷ "bug" ∷ "attachment" ∷ []

-- a typed reference in a text, `kind:name`
parse_reference : String → String → Result Reference
unfolding count_char split_at is_name
parse_reference expected raw = do
  require (count_char b':' raw == 1) "must be a typed reference"
  parts ← or_raise (split_at b':' raw) (invalid "must be a typed reference")
  require (mem_text parts.0 scenario_kinds && is_name parts.1) "must use a supported kind and slug"
  require (parts.0 ==ₛ expected) "must reference another kind"
  ok (record { kind = parts.0; name = parts.1 })

-- `_reference`
unfoldable pub reference_of : Value → String → Result Reference
unfolding object_of member parse_reference
reference_of value expected = do
  fs ← object_of value ("ref" ∷ []) ("ref" ∷ [])
  elim (member "ref" fs) [
    | str raw ↦ parse_reference expected raw
    | _ ↦ err (invalid "must be a typed reference")
  ]

abbrev pub mem_ref : Reference → List Reference → Bool
mem_ref r rs = any_of (eq_ref r) rs

-- the loop of `_unique_refs`, after the references that were seen
unique_loop : String → Items → List Reference → Result (List Reference)
unfolding reference_of
unique_loop expected nil seen = ok []
unique_loop expected (cons v xs) seen = do
  r ← reference_of v expected
  raise_if (mem_ref r seen) "duplicate reference"
  rs ← unique_loop expected xs (r ∷ seen)
  ok (r ∷ rs)

-- `_unique_refs`
unfoldable pub unique_refs : Value → String → Result (List Reference)
unfolding list_of unique_loop
unique_refs value expected = do xs ← list_of value; unique_loop expected xs []

strings_loop : Bool → Items → List String → Result (List String)
strings_loop nonempty nil seen = ok []
strings_loop nonempty (cons (str s) xs) seen = do
  raise_if (nonempty && is_blank s) "must be a non-empty string"
  raise_if (mem_text s seen) "duplicate value"
  rest ← strings_loop nonempty xs (s ∷ seen)
  ok (s ∷ rest)
strings_loop nonempty (cons v xs) seen = err (invalid "must be a non-empty string")

-- `_unique_strings`
unfoldable pub unique_strings : Value → Bool → Result (List String)
unfolding list_of strings_loop
unique_strings value nonempty = do xs ← list_of value; strings_loop nonempty xs []

-- `_EMAIL`
unfoldable pub is_email : String → Bool
unfolding count_char split_at all_chars
is_email s =
    count_char b'@' s == 1 && all_chars (λ c. not (is_ascii_space c)) s && elim (split_at b'@' s) [
      | none ↦ false
      | some (user, host) ↦ not (user ==ₛ "") && not (host ==ₛ "")
    ]

unfoldable pub refs_tuple : List Reference → Items
refs_tuple [] = nil
refs_tuple (r ∷ rs) = cons (ref r) (refs_tuple rs)

unfoldable pub texts_tuple : List String → Items
texts_tuple [] = nil
texts_tuple (s ∷ ss) = cons (str s) (texts_tuple ss)
