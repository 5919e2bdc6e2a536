-- ===== src/Common/Text.antt =====
-- Text as the native `String`, walked by its characters. A Python string that holds an unpaired
-- surrogate has no counterpart here, so the checks that refuse one have none either.
use Prim.Native.Nat.{ℕ, zero, suc, ◌-◌}
use Prim.Native.Char.{code}
use Prim.Native.String.{String, [], ◌∷◌}
use mathlib.Core.Bool.{Bool, true, false, ◌&&◌, ◌||◌}
use mathlib.Core.Option.{Option, none, some}
use text.Mathlib.Text.{◌==◌ as ◌==ₛ◌}
use bzr_live.Common.Tests.{leb, ◌==◌, if◌then◌else◌}

-- `len(s)`, in code points
unfoldable pub size : String → ℕ
size [] = 0
size (c ∷ s) = suc (size s)

unfoldable pub all_chars : (ℕ → Bool) → String → Bool
all_chars p [] = true
all_chars p (c ∷ s) = p (code c) && all_chars p s

abbrev pub in_range : ℕ → ℕ → ℕ → Bool
in_range lo hi c = leb lo c && leb c hi

abbrev pub is_digit : ℕ → Bool
is_digit c = in_range b'0' b'9' c

abbrev pub is_lower : ℕ → Bool
is_lower c = in_range b'a' b'z' c

abbrev pub is_upper : ℕ → Bool
is_upper c = in_range b'A' b'Z' c

-- what `str.strip` removes: the characters for which `str.isspace` holds
abbrev pub is_space : ℕ → Bool
is_space c =
    in_range 9 13 c
    || in_range 28 32 c
    || c == 0x85
    || c == 0xa0
    || c == 0x1680
    || in_range 0x2000 0x200a c
    || in_range 0x2028 0x2029 c
    || c == 0x202f
    || c == 0x205f
    || c == 0x3000

-- what `\s` matches in a pattern for ASCII
abbrev pub is_ascii_space : ℕ → Bool
is_ascii_space c = in_range 9 13 c || c == 32

-- `not value.strip()`
abbrev pub is_blank : String → Bool
is_blank s = all_chars is_space s

-- What follows the prefix `p` in `s`, if `s` begins with it.
unfoldable pub strip_prefix : String → String → Option String
strip_prefix [] s = some s
strip_prefix (p ∷ ps) [] = none
strip_prefix (p ∷ ps) (c ∷ s) = if code p == code c then strip_prefix ps s else none

-- `part in s`
unfoldable pub contains : String → String → Bool
contains part [] = elim (strip_prefix part []) [ some _ ↦ true | none ↦ false ]
contains part (c ∷ s) =
    let later = contains part s in elim (strip_prefix part (c ∷ s)) [ some _ ↦ true | none ↦ later ]

-- `s.count(ch)` for one character, by its code
unfoldable pub count_char : ℕ → String → ℕ
count_char c [] = 0
count_char c (d ∷ s) = let n = count_char c s in if code d == c then suc n else n

-- `s.split(ch, 1)`, when the character occurs
unfoldable pub split_at : ℕ → String → Option (String × String)
split_at c [] = none
split_at c (d ∷ s) =
    let rest = split_at c s in
    if code d == c then some ([], s) else elim rest [ none ↦ none | some (a, b) ↦ some (d ∷ a, b) ]

-- `s.replace(part, "")` from left to right, with `skip` characters of a match still to drop
unfoldable pub drop_matches : String → ℕ → String → String
drop_matches part skip [] = []
drop_matches part (suc skip) (c ∷ s) = drop_matches part skip s
drop_matches part zero (c ∷ s) =
    let rest = drop_matches part (size part - 1) s in
    let kept = c ∷ drop_matches part zero s in
    elim (strip_prefix part (c ∷ s)) [ some _ ↦ rest | none ↦ kept ]

-- `s.replace(part, "")`; replacing the empty text by itself changes nothing
unfoldable pub remove_all : String → String → String
unfolding drop_matches size strip_prefix
remove_all s part = if part ==ₛ "" then s else drop_matches part zero s

strip_left : String → String
strip_left [] = []
strip_left (c ∷ s) = let rest = strip_left s in if is_space (code c) then rest else c ∷ s

strip_right : String → String
strip_right [] = []
strip_right (c ∷ s) =
    let rest = strip_right s in
    if rest ==ₛ "" then (if is_space (code c) then [] else c ∷ rest) else c ∷ rest

-- `s.strip()`
unfoldable pub strip : String → String
unfolding strip_left strip_right
strip s = strip_left (strip_right s)
