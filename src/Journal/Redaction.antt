-- ===== src/Journal/Redaction.antt =====
-- The redaction of captured output, scenario/journal.py: `_normalized_key`, `_sensitive_key`,
-- `_redact_opaque`. A normalised key is the list of its code points.
pub mod Proofs
pub mod Kept
use Prim.Native.Char.{code}
use bzr_live.Common.{
  ℕ, ◌+◌, String, Bool, true, false, ◌&&◌, ◌||◌, List, [], ◌∷◌, ◌==◌, if◌then◌else◌, is_digit,
  is_lower, is_upper, any_of, mem_text, Result, ok, err, invalid, ◌>>=◌,
}
use bzr_live.Value.{Value, null, str, tuple, obj, Items, nil, cons, Fields, end, field}
use bzr_live.Journal.Secrets.{remove_secrets}

abbrev pub codes : String → List ℕ
codes String.[] = []
codes (String.◌∷◌ c s) = code c ∷ codes s

-- `re.sub(r"[^A-Za-z0-9]+", "_", key)`; `inside` says that the last character began such a run
collapse : Bool → List ℕ → List ℕ
collapse inside [] = []
collapse inside (c ∷ s) =
    if is_lower c || is_upper c || is_digit c
    then c ∷ collapse false s
    else (if inside then collapse true s else b'_' ∷ collapse true s)

-- `re.sub(r"(?<=[a-z0-9])(?=[A-Z])", "_", value)`; `low` says what stands before
split_camel : Bool → List ℕ → List ℕ
split_camel low [] = []
split_camel low (c ∷ s) =
    let rest = split_camel (is_lower c || is_digit c) s in
    if low && is_upper c then b'_' ∷ c ∷ rest else c ∷ rest

abbrev starts_lower : List ℕ → Bool
starts_lower [] = false
starts_lower (c ∷ _) = is_lower c

-- `re.sub(r"(?<=[A-Z])(?=[A-Z][a-z])", "_", value)`
split_acronym : Bool → List ℕ → List ℕ
split_acronym up [] = []
split_acronym up (c ∷ s) =
    let rest = split_acronym (is_upper c) s in
    if up && is_upper c && starts_lower s then b'_' ∷ c ∷ rest else c ∷ rest

abbrev lower : ℕ → ℕ
lower c = if is_upper c then c + 32 else c

abbrev push : ℕ → List (List ℕ) → List (List ℕ)
push c [] = (c ∷ []) ∷ []
push c (segment ∷ rest) = (c ∷ segment) ∷ rest

-- `value.lower().split("_")`, with the empty segments kept
split_segments : List ℕ → List (List ℕ)
split_segments [] = [] ∷ []
split_segments (c ∷ s) =
    let rest = split_segments s in if c == b'_' then [] ∷ rest else push (lower c) rest

nonempty_segments : List (List ℕ) → List (List ℕ)
nonempty_segments [] = []
nonempty_segments ([] ∷ ss) = nonempty_segments ss
nonempty_segments ((c ∷ s) ∷ ss) = (c ∷ s) ∷ nonempty_segments ss

-- The segments of `_normalized_key`. Its `strip("_")` drops only what would be empty segments.
segments : String → List (List ℕ)
unfolding collapse split_camel split_acronym split_segments nonempty_segments
segments key =
    nonempty_segments
      (split_segments (split_acronym false (split_camel false (collapse false (codes key)))))

eq_codes : List ℕ → List ℕ → Bool
eq_codes [] [] = true
eq_codes (a ∷ s) (b ∷ t) = a == b && eq_codes s t
eq_codes _ _ = false

-- `_SENSITIVE_SEGMENTS`
abbrev sensitive_segments : List (List ℕ)
sensitive_segments =
    codes "token"
    ∷ codes "password"
    ∷ codes "secret"
    ∷ codes "cookie"
    ∷ codes "credential"
    ∷ codes "authorization"
    ∷ codes "apikey"
    ∷ []

-- an `api` segment with a `key` segment behind it
has_api_key : List (List ℕ) → Bool
unfolding eq_codes
has_api_key [] = false
has_api_key (a ∷ []) = false
has_api_key (a ∷ b ∷ rest) =
    (eq_codes a (codes "api") && eq_codes b (codes "key")) || has_api_key (b ∷ rest)

-- `_sensitive_key`
pub sensitive_key : String → Bool
unfolding segments has_api_key eq_codes
sensitive_key key =
    any_of (λ segment. any_of (eq_codes segment) sensitive_segments) (segments key)
    || has_api_key (segments key)

-- `_redact_opaque`; `seen` holds the keys of `redacted` so far. A list is returned as it is: the
-- output of a handler has been frozen to tuples.
unfoldable mutual
  unfolding sensitive_key

  pub redact_opaque : Value → List String → Result Value
  redact_opaque (str s) secrets = ok (str (remove_secrets s secrets))
  redact_opaque (tuple xs) secrets = do ys ← redact_items xs secrets; ok (tuple ys)
  redact_opaque (obj fs) secrets = do gs ← redact_fields fs [] secrets; ok (obj gs)
  redact_opaque v secrets = ok v

  pub redact_items : Items → List String → Result Items
  redact_items nil secrets = ok nil
  redact_items (cons v xs) secrets = do
    w ← redact_opaque v secrets
    ys ← redact_items xs secrets
    ok (cons w ys)

  pub redact_fields : Fields → List String → List String → Result Fields
  redact_fields end seen secrets = ok end
  redact_fields (field k v fs) seen secrets =
      let key = remove_secrets k secrets in
      let item = redact_opaque v secrets in
      let rest = redact_fields fs (key ∷ seen) secrets in
      if mem_text key seen then err (invalid "redaction creates a duplicate mapping key") else (do
        w ← if sensitive_key k || sensitive_key key then ok null else item
        gs ← rest
        ok (field key w gs))
