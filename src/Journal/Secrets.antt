-- ===== src/Journal/Secrets.antt =====
-- The redaction of known secrets, scenario/journal.py: `_secret_list`, `_remove_secrets`,
-- `_contains_secret`. The proofs stand in `Secrets/Removal`.
use Prim.Native.Nat.{Ordering}
use Prim.Native.String
pub mod Removal
pub mod Known
use bzr_live.Common.{
  ℕ, zero, suc, String, Bool, true, false, ◌||◌, List, [], ◌∷◌, ltb, ◌==ₛ◌, ◌==◌, if◌then◌else◌,
  size, remove_all, contains, any_of,
}
use bzr_live.Value.{Value, str, ref, tuple, list, obj, Items, nil, cons, Fields, end, field}

-- the order of the key `(-len(item), item)`
abbrev before : String → String → Bool
before a b =
    if ltb (size b) (size a)
    then true
    else (if size a == size b
        then elim (String.compare a b) [ Ordering.lt ↦ true | _ ↦ false ]
        else false)

-- insertion into a sorted list without repetition
pub insert_secret : String → List String → List String
insert_secret s [] = s ∷ []
insert_secret s (t ∷ ts) =
    let later = t ∷ insert_secret s ts in
    if s ==ₛ t then t ∷ ts else (if before s t then s ∷ t ∷ ts else later)

-- `_secret_list`: the distinct non-empty secrets, longest first
unfoldable pub secret_list : List String → List String
unfolding insert_secret size
secret_list [] = []
secret_list (s ∷ ss) = if s ==ₛ "" then secret_list ss else insert_secret s (secret_list ss)

-- the body of the `while` loop of `_remove_secrets`
unfoldable pub remove_once : String → List String → String
unfolding remove_all
remove_once value [] = value
remove_once value (s ∷ ss) = remove_once (remove_all value s) ss

-- the `while` loop of `_remove_secrets`, on fuel
pub remove_loop : ℕ → String → List String → String
remove_loop zero value secrets = value
remove_loop (suc fuel) value secrets =
    let next = remove_once value secrets in
    let more = remove_loop fuel next secrets in if next ==ₛ value then value else more

-- `_remove_secrets`: each round but the last shortens the value
unfoldable pub remove_secrets : String → List String → String
unfolding remove_loop remove_once size
remove_secrets value secrets = remove_loop (suc (size value)) value secrets

abbrev pub text_has_secret : String → List String → Bool
text_has_secret s secrets = any_of (λ secret. contains secret s) secrets

-- `_contains_secret`
unfoldable mutual
  unfolding contains

  pub contains_secret : Value → List String → Bool
  contains_secret (str s) secrets = text_has_secret s secrets
  contains_secret (ref r) secrets = text_has_secret r.kind secrets || text_has_secret r.name secrets
  contains_secret (tuple xs) secrets = items_have_secret xs secrets
  contains_secret (list xs) secrets = items_have_secret xs secrets
  contains_secret (obj fs) secrets = fields_have_secret fs secrets
  contains_secret _ secrets = false

  pub items_have_secret : Items → List String → Bool
  items_have_secret nil secrets = false
  items_have_secret (cons v xs) secrets = contains_secret v secrets || items_have_secret xs secrets

  pub fields_have_secret : Fields → List String → Bool
  fields_have_secret end secrets = false
  fields_have_secret (field k v fs) secrets =
      (text_has_secret k secrets || contains_secret v secrets) || fields_have_secret fs secrets
