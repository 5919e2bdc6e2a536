-- ===== src/Exec/Keeps.antt =====
-- What an action leaves as it was, with a rule for each way to build one.
use bzr_live.Common.{
  Option, none, some, ◌≡◌, refl, ap, ◌∙◌, Error, Result, ok, err, Bool, true, false, List, [], ◌∷◌,
  if◌then◌else◌,
}
use bzr_live.Exec.{Exec, pure, raise, lift, gets, continue, ◌>>=◌, for_each}

-- `m` leaves the view `f` of the state unchanged, whether it returns or raises.
pub record Keeps {S A V : Type 0} (f : S → V) (m : Exec S A) : Type 0 where
  pub at : (s : S) → f (m s).1 ≡ f s

module _ {S A V : Type 0} {f : S → V} where
  pub Keeps-pure : (a : A) → Keeps f (pure {S = S} a)
  Keeps-pure a = record { at = λ s. refl }

  pub Keeps-raise : (e : Error) → Keeps f (raise {S = S} {A = A} e)
  Keeps-raise e = record { at = λ s. refl }

  pub Keeps-lift : (r : Result A) → Keeps f (lift {S = S} r)
  Keeps-lift r = record { at = λ s. refl }

  pub Keeps-gets : (g : S → A) → Keeps f (gets g)
  Keeps-gets g = record { at = λ s. refl }

  pub Keeps-if : (b : Bool) (m n : Exec S A) → Keeps f m → Keeps f n → Keeps f (if b then m else n)
  Keeps-if true m n km kn = km
  Keeps-if false m n km kn = kn

module _ {S A B V : Type 0} {f : S → V} where
  continue-Keeps :
      (r : Result A) (k : A → Exec S B) (s : S)
      → ((a : A) → Keeps f (k a))
      → f (continue r k s).1 ≡ f s
  continue-Keeps (ok a) k s kk = (kk a).at s
  continue-Keeps (err e) k s kk = refl

  pub Keeps-bind :
      (m : Exec S A) (k : A → Exec S B) → Keeps f m → ((a : A) → Keeps f (k a)) → Keeps f (m >>= k)
  unfolding ◌>>=◌
  Keeps-bind m k km kk = record {
    at = λ s. let (r, s') = m s in continue-Keeps r k s' kk ∙ km.at s;
  }

  pub Keeps-elim :
      (o : Option B) (m : Exec S A) (k : B → Exec S A)
      → Keeps f m
      → ((b : B) → Keeps f (k b))
      → Keeps f (elim o [ none ↦ m | some b ↦ k b ])
  Keeps-elim none m k km kk = km
  Keeps-elim (some b) m k km kk = kk b

module _ {S A B V : Type 0} {f : S → V} where
  pub Keeps-for_each :
      (k : A → Exec S B) (xs : List A) → ((a : A) → Keeps f (k a)) → Keeps f (for_each k xs)
  unfolding for_each
  Keeps-for_each k [] kk = Keeps-pure []
  Keeps-for_each k (x ∷ xs) kk =
      Keeps-bind (k x) _ (kk x)
        (λ y. Keeps-bind (for_each k xs) _ (Keeps-for_each k xs kk) (λ ys. Keeps-pure (y ∷ ys)))

-- `r` is an error, and leaves the state `s`.
abbrev pub IsRefused : {S A : Type 0} → S → Result A × S → Type 0
IsRefused s (r, s') = (s' ≡ s) × ((e : Error) × (r ≡ err e))

module _ {S A B : Type 0} where
  continue-IsRefused :
      (r : Result A) (k : A → Exec S B) (s s' : S)
      → s' ≡ s
      → ((a : A) (t : S) → t ≡ s → IsRefused s (k a t))
      → IsRefused s (continue r k s')
  continue-IsRefused (ok a) k s s' p kk = kk a s' p
  continue-IsRefused (err e) k s s' p kk = (p, (e, refl))

  -- an action that changes nothing, before one that is refused
  pub bind-IsRefused :
      (m : Exec S A) (k : A → Exec S B) (s : S)
      → Keeps (λ t. t) m
      → ((a : A) (t : S) → t ≡ s → IsRefused s (k a t))
      → IsRefused s ((m >>= k) s)
  unfolding ◌>>=◌
  bind-IsRefused m k s km kk = let (r, s') = m s in continue-IsRefused r k s s' (km.at s) kk

pub Keeps-view : {S A V : Type 0} (f : S → V) (m : Exec S A) → Keeps (λ s. s) m → Keeps f m
Keeps-view f m k = record { at = λ s. ap f (k.at s) }

pub ruleset keeps_rules = (
  Keeps-pure, Keeps-raise, Keeps-lift, Keeps-gets, Keeps-if, Keeps-elim, Keeps-bind, Keeps-for_each,
)
