-- ===== src/Common/Times.antt =====
-- How often a text occurs in a list, and lists that agree in that.
use Prim.Native.Nat.{ℕ, suc, ◌+◌, ◌≤◌}
use Prim.Native.String.{String}
use mathlib.Core.Path.{◌≡◌, refl}
use mathlib.Core.Bool.{true, false, ◌||◌}
use mathlib.Core.List.{List, [], ◌∷◌, ◌++◌}
use native.Mathlib.Omega.{arith}
use text.Mathlib.Text.{◌==◌ as ◌==ₛ◌}
use text.Mathlib.TextEquality.{eq_iff}
use text.Mathlib.TextPositions.{eq_refl}
use bzr_live.Common.Lists.{length, mem_text}
use bzr_live.Common.Tests.{if◌then◌else◌}

abbrev pub times : String → List String → ℕ
times x [] = 0
times x (y ∷ ys) = (if y ==ₛ x then 1 else 0) + times x ys

pub times-append : (x : String) (xs ys : List String) → times x (xs ++ ys) ≡ times x xs + times x ys
times-append x [] ys = omega arith
times-append x (y ∷ xs) ys = omega (arith, times-append x xs ys)

pub times_pos : (x : String) (xs : List String) → mem_text x xs ≡ true → 1 ≤ times x xs
times_pos x [] h = cc
times_pos x (y ∷ xs) h = ground (arith, times_pos x xs)

pub times_zero : (x : String) (xs : List String) → mem_text x xs ≡ false → times x xs ≡ 0
times_zero x [] h = refl
times_zero x (y ∷ xs) h = ground (arith, times_zero x xs)

pub mem-append :
    (x : String) (xs ys : List String) → mem_text x (xs ++ ys) ≡ (mem_text x xs || mem_text x ys)
mem-append x [] ys = refl
mem-append x (y ∷ xs) ys = ground (arith, mem-append x xs ys)

-- the list without the first occurrence
remove : String → List String → List String
remove x [] = []
remove x (y ∷ ys) = let rest = y ∷ remove x ys in if y ==ₛ x then ys else rest

times-remove :
    (x z : String) (ys : List String)
    → 1 ≤ times x ys
    → (if x ==ₛ z then 1 else 0) + times z (remove x ys) ≡ times z ys
unfolding remove
times-remove x z [] h = absurd (omega arith)
times-remove x z (y ∷ ys) h =
    ground (arith, times-remove x z ys, eq_iff y x, eq_iff x z, eq_iff y z)

length-remove :
    (x : String) (ys : List String) → 1 ≤ times x ys → suc (length (remove x ys)) ≡ length ys
unfolding remove
length-remove x [] h = absurd (omega arith)
length-remove x (y ∷ ys) h = ground (arith, length-remove x ys)

-- a list that holds nothing more often than another is not longer
pub length-times :
    (xs ys : List String) → ((z : String) → times z xs ≤ times z ys) → length xs ≤ length ys
length-times [] ys h = omega arith
length-times (x ∷ xs) ys h =
    let one : 1 ≤ times x ys = ground (arith, h x, eq_refl x) in
    let rest = length-times xs (remove x ys) (λ z. ground (arith, h z, times-remove x z ys)) in
    ground (arith, rest, length-remove x ys)

-- and holds everything as often when it is as long
pub times-length :
    (xs ys : List String)
    → ((z : String) → times z xs ≤ times z ys)
    → length xs ≡ length ys
    → (z : String) → times z xs ≡ times z ys
times-length [] [] h e z = refl
times-length [] (y ∷ ys) h e z = absurd (omega arith)
times-length (x ∷ xs) ys h e z =
    let one : 1 ≤ times x ys = ground (arith, h x, eq_refl x) in
    let rest =
      times-length xs (remove x ys) (λ z. ground (arith, h z, times-remove x z ys))
        (ground (arith, length-remove x ys)) z in
    ground (arith, rest, times-remove x z ys)
