-- ===== src/Exec/Logs.antt =====
-- Actions that add at most one entry to a log in the state.
use bzr_live.Common.{
  ◌≡◌, refl, ◌∙◌, ap, ◌⊎◌, inl, inr, Result, ok, err, Bool, true, false, List, [], ◌∷◌, ◌++◌,
  if◌then◌else◌, length, length-append, ℕ, ◌+◌, ◌≤◌, arith,
}
use bzr_live.Exec.{Exec, continue, ◌>>=◌}
use bzr_live.Exec.Keeps.{Keeps}

-- `after` is `before`, or has one entry more.
abbrev pub IsOneMore : {X : Type 0} → List X → List X → Type 0
IsOneMore {X} before after = (after ≡ before) ⊎ ((x : X) × (after ≡ before ++ x ∷ []))

pub IsOneMore-length :
    {X : Type 0} (before after : List X) → IsOneMore before after → length after ≤ length before + 1
IsOneMore-length before after (inl p) = omega (arith, ap length p)
IsOneMore-length before after (inr (x, p)) =
    omega (arith, ap length p, length-append before (x ∷ []))

-- `m` adds at most one entry to the log `f`, whether it returns or raises.
pub record AddsOne {S A X : Type 0} (f : S → List X) (m : Exec S A) : Type 0 where
  pub at : (s : S) → IsOneMore (f s) (f (m s).1)

module _ {S A X : Type 0} {f : S → List X} where
  pub AddsOne-Keeps : {m : Exec S A} → Keeps f m → AddsOne f m
  AddsOne-Keeps k = record { at = λ s. inl (k.at s) }

  pub AddsOne-if :
      (b : Bool) (m n : Exec S A) → AddsOne f m → AddsOne f n → AddsOne f (if b then m else n)
  AddsOne-if true m n km kn = km
  AddsOne-if false m n km kn = kn

module _ {S A B X : Type 0} {f : S → List X} where
  then_add :
      (r : Result A) (k : A → Exec S B) (s s' : S)
      → f s' ≡ f s
      → ((a : A) → AddsOne f (k a))
      → IsOneMore (f s) (f (continue r k s').1)
  then_add (ok a) k s s' p kk = elim ((kk a).at s') [
    | inl q ↦ inl (q ∙ p)
    | inr (x, q) ↦ inr (x, q ∙ ap (λ l. l ++ x ∷ []) p)
  ]
  then_add (err e) k s s' p kk = inl p

  then_keep :
      (r : Result A) (k : A → Exec S B) (s s' : S)
      → IsOneMore (f s) (f s')
      → ((a : A) → Keeps f (k a))
      → IsOneMore (f s) (f (continue r k s').1)
  then_keep (ok a) k s s' (inl p) kk = inl ((kk a).at s' ∙ p)
  then_keep (ok a) k s s' (inr (x, p)) kk = inr (x, (kk a).at s' ∙ p)
  then_keep (err e) k s s' p kk = p

  -- nothing before the step that adds
  pub AddsOne-after :
      (m : Exec S A) (k : A → Exec S B)
      → Keeps f m
      → ((a : A) → AddsOne f (k a))
      → AddsOne f (m >>= k)
  unfolding ◌>>=◌
  AddsOne-after m k km kk = record { at = λ s. let (r, s') = m s in then_add r k s s' (km.at s) kk }

  -- nothing after the step that adds
  pub AddsOne-before :
      (m : Exec S A) (k : A → Exec S B)
      → AddsOne f m
      → ((a : A) → Keeps f (k a))
      → AddsOne f (m >>= k)
  unfolding ◌>>=◌
  AddsOne-before m k km kk = record {
    at = λ s. let (r, s') = m s in then_keep r k s s' (km.at s) kk;
  }

-- `m` adds at most `n` entries to the log `f`, whether it returns or raises.
pub record AddsUpTo {S A X : Type 0} (n : ℕ) (f : S → List X) (m : Exec S A) : Type 0 where
  pub at : (s : S) → length (f (m s).1) ≤ length (f s) + n

module _ {S A X : Type 0} {f : S → List X} where
  pub AddsUpTo-AddsOne : {m : Exec S A} → AddsOne f m → AddsUpTo 1 f m
  AddsUpTo-AddsOne k = record { at = λ s. IsOneMore-length (f s) _ (k.at s) }

  pub AddsUpTo-Keeps : {m : Exec S A} (n : ℕ) → Keeps f m → AddsUpTo n f m
  AddsUpTo-Keeps n k = record { at = λ s. omega (arith, ap length (k.at s)) }

module _ {S A B X : Type 0} {f : S → List X} where
  continue_up_to :
      (n : ℕ) (r : Result A) (k : A → Exec S B) (s : S)
      → ((a : A) → AddsUpTo n f (k a))
      → length (f (continue r k s).1) ≤ length (f s) + n
  continue_up_to n (ok a) k s kk = (kk a).at s
  continue_up_to n (err e) k s kk = omega arith

  pub AddsUpTo-bind :
      (a n : ℕ) (m : Exec S A) (k : A → Exec S B)
      → AddsUpTo a f m
      → ((x : A) → AddsUpTo n f (k x))
      → AddsUpTo (a + n) f (m >>= k)
  unfolding ◌>>=◌
  AddsUpTo-bind a n m k km kk = record {
    at = λ s.
        let (r, s') = m s in
        let first = km.at s in let rest = continue_up_to n r k s' kk in omega (arith, first, rest);
  }

module _ {S A B X : Type 0} (f : S → List X) where
  continue_within :
      (n : ℕ) (r : Result A) (k : A → Exec S B) (s : S)
      → ((a : A) → r ≡ ok a → length (f (k a s).1) ≤ length (f s) + n)
      → length (f (continue r k s).1) ≤ length (f s) + n
  continue_within n (ok a) k s kk = kk a refl
  continue_within n (err e) k s kk = omega arith

  -- a bound that depends on what the first action returned
  pub bind_within :
      (n : ℕ) (m : Exec S A) (k : A → Exec S B) (s : S)
      → Keeps f m
      → ((a : A) → (m s).0 ≡ ok a → (s' : S) → length (f (k a s').1) ≤ length (f s') + n)
      → length (f ((m >>= k) s).1) ≤ length (f s) + n
  unfolding ◌>>=◌
  bind_within n m k s km kk =
      let (r, s') = m s in
      let same = ap length (km.at s) in
      let rest = continue_within n r k s' (λ a p. kk a p s') in omega (arith, same, rest)
