-- ===== src/Common/Errors.antt =====
-- The exceptions that the modelled code raises, and results that may be one. A message is kept up
-- to the values that the source formats into it.
use Prim.Native.String.{String}
use mathlib.Core.Path.{◌≡◌, refl, subst, ap}
use mathlib.Core.Bool.{Bool, true, false}
use mathlib.Core.Option.{Option, none, some}
use bzr_live.Common.Tests.{if◌then◌else◌}

pub data Error : Type 0 where
  -- `ScenarioValidationError`, by its message
  invalid : String → Error
  -- `ReplayError`, by its message
  replay_error : String → Error
  -- `ProvisionError`, by its message
  provision_error : String → Error
  -- `KeyError`, by the key
  key_error : String → Error
  -- `TypeError`
  type_error : Error
  -- `OSError`
  os_error : Error

pub data Result {ℓ} (A : Type ℓ) : Type ℓ where
  ok : A → Result A
  err : Error → Result A

abbrev pub raise_if : Bool → String → Result (Unit {0})
raise_if true message = err (invalid message)
raise_if false message = ok tt

abbrev pub require : Bool → String → Result (Unit {0})
require true message = ok tt
require false message = err (invalid message)

pub ok-injective {ℓ} : {A : Type ℓ} {a b : A} → ok a ≡ ok b → a ≡ b
ok-injective h = cc

pub raise_if-ok :
    (b : Bool) (message : String) {u : Unit {0}} → raise_if b message ≡ ok u → b ≡ false
raise_if-ok true message h = cc
raise_if-ok false message h = refl

pub require-ok : (b : Bool) (message : String) {u : Unit {0}} → require b message ≡ ok u → b ≡ true
require-ok true message h = refl
require-ok false message h = cc

abbrev pub or_raise {ℓ} : {A : Type ℓ} → Option A → Error → Result A
or_raise none e = err e
or_raise (some a) e = ok a

pub or_raise-ok {ℓ} :
    {A : Type ℓ} (o : Option A) (e : Error) {a : A} → or_raise o e ≡ ok a → o ≡ some a
or_raise-ok none e h = cc
or_raise-ok (some a) e h = ap some (ok-injective h)

infixl 5 ◌>>=◌ ◌>>◌
-- an error ends the block
abbrev pub ◌>>=◌ {ℓ κ} : {A : Type ℓ} {B : Type κ} → Result A → (A → Result B) → Result B
ok value >>= next = next value
err raised >>= next = err raised

-- What a block returned went through its first step.
pub >>=-eq-ok {ℓ κ} :
    {A : Type ℓ} {B : Type κ} (first : Result A) (next : A → Result B) {last : B}
    → (first >>= next) ≡ ok last
    → (value : A) × (first ≡ ok value) × (next value ≡ ok last)
>>=-eq-ok (ok value) next p = (value, refl, p)
>>=-eq-ok (err raised) next p = cc

-- a statement whose value is not used
abbrev pub ◌>>◌ {ℓ} : {B : Type ℓ} → Result (Unit {0}) → Result B → Result B
statement >> rest = statement >>= λ _. rest

-- `P` holds of what `r` returns, if it returns.
pub record OnOk {A : Type 0} (P : A → Type 0) (r : Result A) : Type 0 where
  pub at : {a : A} → r ≡ ok a → P a

pub OnOk-ok : {A : Type 0} {P : A → Type 0} (a : A) → P a → OnOk P (ok a)
OnOk-ok {P} a h = record { at = λ p. subst P (ok-injective p) h }

pub OnOk-bind :
    {A B : Type 0} {P : B → Type 0} (m : Result A) (f : A → Result B)
    → ((a : A) → m ≡ ok a → OnOk P (f a))
    → OnOk P (m >>= f)
OnOk-bind (ok a) f h = h a refl
OnOk-bind (err e) f h = record { at = λ p. cc }

pub OnOk-err : {A : Type 0} {P : A → Type 0} {e : Error} → OnOk P (err e)
OnOk-err = record { at = λ p. cc }

pub OnOk-if :
    {A : Type 0} {P : A → Type 0} (b : Bool) {r s : Result A}
    → OnOk P r
    → OnOk P s
    → OnOk P (if b then r else s)
OnOk-if true h k = h
OnOk-if false h k = k

pub OnOk-then :
    {B : Type 0} {P : B → Type 0} (s : Result (Unit {0})) (rest : Result B)
    → (s ≡ ok tt → OnOk P rest)
    → OnOk P (s >> rest)
OnOk-then (ok u) rest h = h refl
OnOk-then (err e) rest h = OnOk-err

-- the branch that is taken knows its test
pub OnOk-cases :
    {A : Type 0} {P : A → Type 0} (b : Bool) {r s : Result A}
    → (b ≡ true → OnOk P r)
    → (b ≡ false → OnOk P s)
    → OnOk P (if b then r else s)
OnOk-cases true h k = h refl
OnOk-cases false h k = k refl
