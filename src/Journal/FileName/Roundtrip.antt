-- ===== src/Journal/FileName/Roundtrip.antt =====
-- A file name is parsed back to the event and the attempt that it was made from.
use Prim.Native.Char.{Char, code}
use Prim.Native.String.{[], ◌∷◌, ◌++◌}
use text.Mathlib.TextLemmas.{nil-append, cons-append}
use bzr_live.Common.{
  ℕ, zero, suc, ◌+◌, ◌*◌, ◌/◌, ◌%◌, ◌<◌, String, ◌≡◌, refl, ap, ◌∙◌, true, false, Option, some,
  arith, ◌==◌, ltb, is_digit, all_chars, size, split_at,
}
use bzr_live.Patterns.{is_name, is_slug_char}
use bzr_live.Journal.FileName.{
  digit, pad6, filename, digits_value, attempt_number, parse_attempt_file,
}

code-digit : (n : ℕ) → n < 10 → code (digit n) ≡ 48 + n
unfolding digit
code-digit zero h = refl
code-digit (suc zero) h = refl
code-digit (suc (suc zero)) h = refl
code-digit (suc (suc (suc zero))) h = refl
code-digit (suc (suc (suc (suc zero)))) h = refl
code-digit (suc (suc (suc (suc (suc zero))))) h = refl
code-digit (suc (suc (suc (suc (suc (suc zero)))))) h = refl
code-digit (suc (suc (suc (suc (suc (suc (suc zero))))))) h = refl
code-digit (suc (suc (suc (suc (suc (suc (suc (suc zero)))))))) h = refl
code-digit (suc (suc (suc (suc (suc (suc (suc (suc (suc zero))))))))) h = refl
code-digit (suc (suc (suc (suc (suc (suc (suc (suc (suc (suc n)))))))))) h = absurd (omega arith)

split_slug :
    (event rest : String) (dot : Char)
    → code dot ≡ b'.'
    → all_chars is_slug_char event ≡ true
    → split_at b'.' (event ++ (dot ∷ rest)) ≡ some (event, rest)
unfolding split_at all_chars
split_slug [] rest dot e h = simp nil-append (ground arith)
split_slug (c ∷ event) rest dot e h = simp cons-append (ground (arith, split_slug event rest dot e))

not_dot : (c : Char) (n : ℕ) → code c ≡ 48 + n → (code c == b'.') ≡ false
not_dot c n h = ground arith

digit_char : (c : Char) (n : ℕ) → code c ≡ 48 + n → n < 10 → is_digit (code c) ≡ true
digit_char c n h lt = ground arith

split_cons :
    (c : Char) (n : ℕ) (s p q : String)
    → code c ≡ 48 + n
    → split_at b'.' s ≡ some (p, q)
    → split_at b'.' (c ∷ s) ≡ some (c ∷ p, q)
unfolding split_at
split_cons c n s p q h e = ground arith

attempt_of_split :
    (s digits : String)
    → split_at b'.' s ≡ some (digits, "json")
    → all_chars is_digit digits ≡ true
    → size digits ≡ 6
    → attempt_number s ≡ some (digits_value 0 digits)
unfolding attempt_number
attempt_of_split s digits e all six = rw (e, attempt_number) (rw (all, six))

-- Six digits before `.json` are read as their number.
six_digits :
    (a b c d e f : Char) (u v w x y z : ℕ)
    → code a ≡ 48 + u
    → u < 10
    → code b ≡ 48 + v
    → v < 10
    → code c ≡ 48 + w
    → w < 10
    → code d ≡ 48 + x
    → x < 10
    → code e ≡ 48 + y
    → y < 10
    → code f ≡ 48 + z
    → z < 10
    → attempt_number (a ∷ b ∷ c ∷ d ∷ e ∷ f ∷ ".json")
      ≡ some (((((u * 10 + v) * 10 + w) * 10 + x) * 10 + y) * 10 + z)
unfolding attempt_number
six_digits a b c d e f u v w x y z ha hu hb hv hc hw hd hx he hy hf hz =
    attempt_of_split (a ∷ b ∷ c ∷ d ∷ e ∷ f ∷ ".json") (a ∷ b ∷ c ∷ d ∷ e ∷ f ∷ "")
      (split_cons a u (b ∷ c ∷ d ∷ e ∷ f ∷ ".json") _ _ ha (
        split_cons b v (c ∷ d ∷ e ∷ f ∷ ".json") _ _ hb (
          split_cons c w (d ∷ e ∷ f ∷ ".json") _ _ hc (
            split_cons d x (e ∷ f ∷ ".json") _ _ hd
              (split_cons e y (f ∷ ".json") _ _ he (split_cons f z ".json" _ _ hf refl))))))
      (rw (
        digit_char a u ha hu,
        digit_char b v hb hv,
        digit_char c w hc hw,
        digit_char d x hd hx,
        digit_char e y he hy,
        digit_char f z hf hz,
      ))
      refl
    ∙ ap {B = Option ℕ} some (omega arith)

attempt_number-pad6 : (n : ℕ) → n < 1_000_000 → attempt_number (pad6 n ".json") ≡ some n
unfolding pad6
attempt_number-pad6 n h =
    let small : ltb n 1_000_000 ≡ true = ground arith in
    let d = λ (m : ℕ). code-digit (m % 10) (omega arith) in
    let lt = λ (m : ℕ). let p : m % 10 < 10 = omega arith in p in
    rw small (
      six_digits _ _ _ _ _ _ _ _ _ _ _ _ (d (n / 100_000)) (lt (n / 100_000)) (d (n / 10_000))
        (lt (n / 10_000)) (d (n / 1_000)) (lt (n / 1_000)) (d (n / 100)) (lt (n / 100)) (d (n / 10))
        (lt (n / 10)) (d n) (lt n)
      ∙ ap {B = Option ℕ} some (omega arith))

is_name-slug : (event : String) → is_name event ≡ true → all_chars is_slug_char event ≡ true
unfolding is_name
is_name-slug [] h = cc
is_name-slug (c ∷ event) h = ground arith

dot-append : (s : String) → "." ++ s ≡ "." ∷ s
dot-append s = cons-append "." "" s ∙ ap (λ (t : String). "." ∷ t) (nil-append s)

split_name :
    (event : String) (attempt : ℕ)
    → is_name event ≡ true
    → split_at b'.' (filename event attempt) ≡ some (event, pad6 attempt ".json")
unfolding filename
split_name event attempt slug =
    ap (λ rest. split_at b'.' (event ++ rest)) (dot-append (pad6 attempt ".json"))
    ∙ split_slug event (pad6 attempt ".json") "." refl (is_name-slug event slug)

-- A file name made from a slug and an attempt of at most six digits is parsed back to them.
pub parse_attempt_file-filename :
    (event : String) (attempt : ℕ)
    → is_name event ≡ true
    → attempt < 1_000_000
    → parse_attempt_file (filename event attempt) ≡ some (event, attempt)
unfolding parse_attempt_file filename
parse_attempt_file-filename event attempt slug small =
    rw (split_name event attempt slug, parse_attempt_file)
      (rw (slug, attempt_number-pad6 attempt small, parse_attempt_file))
