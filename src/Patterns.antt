-- ===== src/Patterns.antt =====
-- The regular expressions of scenario/loader.py and scenario/journal.py, as tests on a whole text.
use Prim.Native.Char.{code}
use Prim.Native.String.{[], ◌∷◌}
use bzr_live.Common.{
  String, Bool, true, false, ◌&&◌, ◌||◌, none, some, leb, ◌==◌, if◌then◌else◌, ℕ, size, all_chars,
  in_range, is_digit, is_lower, is_upper, strip_prefix,
}

abbrev pub is_slug_char : ℕ → Bool
is_slug_char c = is_lower c || is_digit c || c == b'-'

-- `_NAME`, [a-z][a-z0-9-]{0,62}
unfoldable pub is_name : String → Bool
unfolding all_chars size
is_name [] = false
is_name (c ∷ s) = is_lower (code c) && all_chars is_slug_char s && leb (size s) 62

abbrev is_hex : ℕ → Bool
is_hex c = is_digit c || in_range b'a' b'f' c

-- `_SHA256`, [0-9a-f]{64}
unfoldable pub is_sha256 : String → Bool
unfolding all_chars size
is_sha256 s = all_chars is_hex s && size s == 64

-- (?:\.[0-9]{1,2})?
is_fraction : String → Bool
is_fraction [] = true
is_fraction (p ∷ []) = false
is_fraction (p ∷ a ∷ []) = code p == b'.' && is_digit (code a)
is_fraction (p ∷ a ∷ b ∷ []) = code p == b'.' && is_digit (code a) && is_digit (code b)
is_fraction _ = false

digits_fraction : String → Bool
digits_fraction [] = true
digits_fraction (c ∷ s) =
    let more = digits_fraction s in if is_digit (code c) then more else is_fraction (c ∷ s)

-- `_DECIMAL`, (?:0|[1-9][0-9]*)(?:\.[0-9]{1,2})?
unfoldable pub is_decimal : String → Bool
unfolding is_fraction digits_fraction
is_decimal [] = false
is_decimal (c ∷ s) =
    if code c == b'0' then is_fraction s else in_range b'1' b'9' (code c) && digits_fraction s

-- [A-Za-z0-9!#$&^_.+-]
abbrev is_token_char : ℕ → Bool
is_token_char c =
    is_lower c
    || is_upper c
    || is_digit c
    || c == b'!'
    || c == b'#'
    || c == b'$'
    || c == b'&'
    || c == b'^'
    || c == b'_'
    || c == b'.'
    || c == b'+'
    || c == b'-'

subtype : String → Bool
subtype [] = false
subtype (c ∷ s) = is_token_char (code c) && all_chars is_token_char s

after_type : String → Bool
after_type [] = false
after_type (c ∷ s) =
    let more = after_type s in if code c == b'/' then subtype s else is_token_char (code c) && more

-- `_MEDIA_TYPE`, one or more such characters, a slash, one or more such characters
unfoldable pub is_media_type : String → Bool
unfolding after_type subtype all_chars
is_media_type [] = false
is_media_type (c ∷ s) = is_token_char (code c) && after_type s

-- bzr-live-[0-9a-f]{31}
unfoldable pub is_server_alias : String → Bool
unfolding all_chars size strip_prefix
is_server_alias s = elim (strip_prefix "bzr-live-" s) [
  | none ↦ false
  | some hash ↦ all_chars is_hex hash && size hash == 31
]

-- `_ENVIRONMENT_NAME`, [A-Za-z_][A-Za-z0-9_]*
unfoldable pub is_environment_name : String → Bool
unfolding all_chars
is_environment_name [] = false
is_environment_name (c ∷ s) =
    (is_lower (code c) || is_upper (code c) || code c == b'_')
    && all_chars (λ d. is_lower d || is_upper d || is_digit d || d == b'_') s
