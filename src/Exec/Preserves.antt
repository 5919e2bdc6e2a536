-- ===== src/Exec/Preserves.antt =====
-- Properties of the state that an action preserves, with a rule for each way to build one.
use bzr_live.Common.{Error, Result, ok, err}
use bzr_live.Exec.{Exec, pure, raise, continue, ◌>>=◌}

-- `P` holds after `m` when it held before, whether `m` returns or raises.
pub record Preserves {S A : Type 0} (P : S → Type 0) (m : Exec S A) : Type 0 where
  pub at : (s : S) → P s → P (m s).1

module _ {S A : Type 0} {P : S → Type 0} where
  pub Preserves-pure : (a : A) → Preserves P (pure {S = S} a)
  Preserves-pure a = record { at = λ s h. h }

  pub Preserves-raise : (e : Error) → Preserves P (raise {S = S} {A = A} e)
  Preserves-raise e = record { at = λ s h. h }

module _ {S A B : Type 0} {P : S → Type 0} where
  continue-preserves :
      (r : Result A) (k : A → Exec S B) (s : S)
      → ((a : A) → Preserves P (k a))
      → P s
      → P (continue r k s).1
  continue-preserves (ok a) k s kk h = (kk a).at s h
  continue-preserves (err e) k s kk h = h

  pub Preserves-bind :
      (m : Exec S A) (k : A → Exec S B)
      → Preserves P m
      → ((a : A) → Preserves P (k a))
      → Preserves P (m >>= k)
  unfolding ◌>>=◌
  Preserves-bind m k km kk = record {
    at = λ s h. let (r, s') = m s in continue-preserves r k s' kk (km.at s h);
  }

pub ruleset preserves_rules = (Preserves-pure, Preserves-raise, Preserves-bind)
