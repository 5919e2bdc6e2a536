-- ===== src/Exec/Inversion.antt =====
-- What ran before an action returned.
use bzr_live.Common.{◌≡◌, refl, ap, Error, Result, ok, err, Bool, true, false, if◌then◌else◌}
use bzr_live.Common.{ok-injective}
use mathlib.Core.Path.{subst}
use bzr_live.Exec.{Exec, pure, raise, continue, ◌>>=◌}

module _ {S A B : Type 0} where
  continue-ok :
      (r : Result A) (k : A → Exec S B) (s : S) {b : B}
      → (continue r k s).0 ≡ ok b
      → (a : A) × (r ≡ ok a) × ((k a s).0 ≡ ok b)
  continue-ok (ok a) k s h = (a, refl, h)
  continue-ok (err e) k s h = cc

  pub bind-ok :
      (m : Exec S A) (k : A → Exec S B) (s : S) {b : B}
      → ((m >>= k) s).0 ≡ ok b
      → (a : A) × ((m s).0 ≡ ok a) × ((k a (m s).1).0 ≡ ok b)
  unfolding ◌>>=◌
  bind-ok m k s h = let (r, s') = m s in continue-ok r k s' h

  -- the rest runs where the first action returned
  pub bind-eq :
      (m : Exec S A) (k : A → Exec S B) (s : S) (a : A) (s' : S)
      → m s ≡ (ok a, s')
      → (m >>= k) s ≡ k a s'
  unfolding ◌>>=◌
  bind-eq m k s a s' h = ap (λ r. continue r.0 k r.1) h

  -- nothing runs after an error
  pub bind-err :
      (m : Exec S A) (k : A → Exec S B) (s : S) (e : Error) (s' : S)
      → m s ≡ (err e, s')
      → (m >>= k) s ≡ (err e, s')
  unfolding ◌>>=◌
  bind-err m k s e s' h = ap (λ r. continue r.0 k r.1) h

pub if_raise-ok :
    {S A : Type 0} (b : Bool) (e : Error) (m : Exec S A) (s : S) {a : A}
    → ((if b then raise e else m) s).0 ≡ ok a
    → (m s).0 ≡ ok a
if_raise-ok true e m s h = cc
if_raise-ok false e m s h = h

-- whatever `m` returns has the property
pub record Ends {S A : Type 0} (P : A → Type 0) (m : Exec S A) : Type 0 where
  pub at : (s : S) (a : A) → (m s).0 ≡ ok a → P a

pub Ends-pure : {S A : Type 0} {P : A → Type 0} (a : A) → P a → Ends {S = S} P (pure a)
Ends-pure {P} a p = record { at = λ s b h. subst P (ok-injective h) p }

-- only the last action counts
pub Ends-bind :
    {S A B : Type 0} {P : B → Type 0} (m : Exec S A) (k : A → Exec S B)
    → ((a : A) → Ends P (k a))
    → Ends P (m >>= k)
Ends-bind m k h = record { at = λ s b e. let (a, _, q) = bind-ok m k s e in (h a).at (m s).1 b q }

-- the first answer beside what the rest makes of it
pub bind-Ends :
    {S A B : Type 0} {P : A → B → Type 0} (m : Exec S A) (k : A → Exec S B) (s : S) (b : B)
    → ((m >>= k) s).0 ≡ ok b
    → ((a : A) → Ends (P a) (k a))
    → (a : A) × ((m s).0 ≡ ok a) × P a b
bind-Ends m k s b h rest = let (a, p, q) = bind-ok m k s h in (a, p, (rest a).at (m s).1 b q)
