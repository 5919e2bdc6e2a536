-- ===== src/Journal/FileName.antt =====
-- scenario/journal.py: the names of the files in the journal directory, `_ATTEMPT_FILE` and
-- `_filename`.
pub mod Roundtrip
use Prim.Native.Char.{Char}
use Prim.Native.String.{[], ◌∷◌, ◌++◌}
use bzr_live.Common.{
  ℕ, zero, suc, ◌+◌, ◌-◌, ◌*◌, ◌/◌, ◌%◌, String, Bool, true, false, ◌&&◌, Option, none, some, ◌==ₛ◌,
  ◌==◌, ltb, if◌then◌else◌, is_digit, all_chars, size, split_at,
}
use bzr_live.Patterns.{is_name}
use Prim.Native.Char.{code}

-- the character of a digit
unfoldable pub digit : ℕ → Char
digit zero = "0"
digit (suc zero) = "1"
digit (suc (suc zero)) = "2"
digit (suc (suc (suc zero))) = "3"
digit (suc (suc (suc (suc zero)))) = "4"
digit (suc (suc (suc (suc (suc zero))))) = "5"
digit (suc (suc (suc (suc (suc (suc zero)))))) = "6"
digit (suc (suc (suc (suc (suc (suc (suc zero))))))) = "7"
digit (suc (suc (suc (suc (suc (suc (suc (suc zero)))))))) = "8"
digit _ = "9"

-- the decimal digits of `n`, before `rest`; the fuel is at least the number of digits
unfoldable pub decimal : ℕ → ℕ → String → String
unfolding digit
decimal zero n rest = rest
decimal (suc fuel) n rest =
    let longer = decimal fuel (n / 10) (digit (n % 10) ∷ rest) in
    if ltb n 10 then digit n ∷ rest else longer

-- `f"{attempt:06d}"`, before `rest`: zeros fill six places, and a longer number has more
unfoldable pub pad6 : ℕ → String → String
unfolding decimal digit
pad6 n rest =
    if ltb n 1_000_000
    then digit (n / 100_000 % 10)
      ∷ digit (n / 10_000 % 10)
      ∷ digit (n / 1_000 % 10)
      ∷ digit (n / 100 % 10)
      ∷ digit (n / 10 % 10)
      ∷ digit (n % 10)
      ∷ rest
    else decimal n n rest

-- `JournalStore._filename`
unfoldable pub filename : String → ℕ → String
unfolding pad6
filename event attempt = event ++ ("." ++ pad6 attempt ".json")

-- `int(digits)`
digits_value : ℕ → String → ℕ
digits_value n [] = n
digits_value n (c ∷ s) = digits_value (n * 10 + (code c - 48)) s

-- what follows the event's name and its dot: six digits, and `.json`
attempt_number : String → Option ℕ
unfolding digits_value all_chars size split_at
attempt_number s = elim (split_at b'.' s) [
  | none ↦ none
  | some (digits, suffix) ↦
      if all_chars is_digit digits && size digits == 6 && suffix ==ₛ "json"
      then some (digits_value 0 digits)
      else none
]

-- `_ATTEMPT_FILE.fullmatch(name)`, with the event and the attempt of its two groups. A slug has no
-- dot, so the event is what stands before the first one.
unfoldable pub parse_attempt_file : String → Option (String × ℕ)
unfolding attempt_number split_at is_name
parse_attempt_file name = elim (split_at b'.' name) [
  | none ↦ none
  | some (event, rest) ↦
      if is_name event
      then elim (attempt_number rest) [ none ↦ none | some n ↦ some (event, n) ]
      else none
]
