-- ===== src/Common/Replace.antt =====
-- What `s.replace(part, "")` leaves: it never lengthens the text, and shortens one that holds `part`.
use Prim.Native.Nat.{ℕ, zero, suc, ◌-◌, ◌≤◌, ◌<◌}
use Prim.Native.String.{String, [], ◌∷◌}
use mathlib.Core.Path.{◌≡◌, refl, ap}
use mathlib.Core.Logic.{◌≢◌, ◌⊎◌, inl}
use mathlib.Core.Bool.{true, false}
use native.Mathlib.Omega.{arith}
use text.Mathlib.TextEquality.{eq_iff}
use bzr_live.Common.Text.{size, strip_prefix, contains, drop_matches, remove_all}

size-drop_matches : (p : String) (k : ℕ) (s : String) → size (drop_matches p k s) ≤ size s
unfolding drop_matches size
size-drop_matches p zero [] = omega arith
size-drop_matches p (suc k) [] = omega arith
size-drop_matches p (suc k) (c ∷ s) = omega (arith, size-drop_matches p k s)
size-drop_matches p zero (c ∷ s) =
    ground (arith, size-drop_matches p (size p - 1) s, size-drop_matches p zero s)

-- Matches are only dropped, so a shorter text is a change and an equal length is none.
drop_matches_shrinks :
    (p s : String) → (drop_matches p zero s ≡ s) ⊎ (size (drop_matches p zero s) < size s)
unfolding drop_matches size
drop_matches_shrinks p [] = inl refl
drop_matches_shrinks p (c ∷ s) =
    ground (arith, size-drop_matches p (size p - 1) s, drop_matches_shrinks p s)

contains-shrinks :
    (p s : String) → p ≢ "" → contains p s ≡ true → size (drop_matches p zero s) < size s
unfolding drop_matches size contains
contains-shrinks [] s ne h = absurd (ne refl)
contains-shrinks (q ∷ p) [] ne h = unfold strip_prefix in ground arith
contains-shrinks (q ∷ p) (c ∷ s) ne h =
    ground (arith, size-drop_matches (q ∷ p) (size (q ∷ p) - 1) s, contains-shrinks (q ∷ p) s ne)

absent_unchanged : (p s : String) → contains p s ≡ false → drop_matches p zero s ≡ s
unfolding drop_matches contains
absent_unchanged p [] h = refl
absent_unchanged p (c ∷ s) h = ground (arith, absent_unchanged p s)

module _ (s p : String) where
  -- A removal changes nothing or shortens the text.
  pub remove_all_shrinks : (remove_all s p ≡ s) ⊎ (size (remove_all s p) < size s)
  unfolding remove_all
  remove_all_shrinks = ground (arith, drop_matches_shrinks p s)

  -- What a removal leaves unchanged does not hold the part.
  pub remove_all_fixed : p ≢ "" → remove_all s p ≡ s → contains p s ≡ false
  unfolding remove_all
  remove_all_fixed ne h = ground (arith, contains-shrinks p s ne, eq_iff p "", ap size h)

  -- A text that does not hold the part is left alone.
  pub remove_all_absent : contains p s ≡ false → remove_all s p ≡ s
  unfolding remove_all
  remove_all_absent h = ground (arith, absent_unchanged p s h)
