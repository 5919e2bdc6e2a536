-- ===== src/Replay/Delta/Laws.antt =====
-- The delta of a list field takes what is observed to what is declared, for Python's `==` on the
-- values that a handler compares.
use bzr_live.Common.{
  ◌≡◌, refl, ◌∙◌, ap, Bool, true, false, not, ◌&&◌, ◌||◌, List, [], ◌∷◌, ◌++◌, All, arith,
  Bool-cases, inl, inr, ℤ, String, eq_iff, eq_ℤ_iff,
}
use bzr_live.Value.{Value, null, bool, int, float, str, ref, tuple, list, obj}
use bzr_live.Value.Equality.{eq_value, of_bool}
use bzr_live.Replay.Delta.{mem, without, delta}

tautology : (o d : Bool) → ((o && not (o && not d)) || (d && not o)) ≡ d
tautology o d = ground arith

absorbs : (d o : Bool) → ((d && not o) && o) ≡ false
absorbs d o = ground arith

excludes : (o d : Bool) → ((o && not d) && not o) ≡ false
excludes o d = ground arith

-- what a declared item is projected to: a name or an id
abbrev pub is_key : Value → Bool
is_key (str s) = true
is_key (int n) = true
is_key _ = false

-- a reply that counts in whole numbers
abbrev pub is_exact : Value → Bool
is_exact (float x) = false
is_exact _ = true

same_text :
    (s t : String)
    → eq_value (str s) (str t) ≡ true
    → (z : Value) → eq_value (str s) z ≡ eq_value (str t) z
unfolding eq_value
same_text s t h z = ap (λ u. eq_value (str u) z) ((eq_iff s t).0 h)

same_int :
    (m n : ℤ)
    → eq_value (int m) (int n) ≡ true
    → (z : Value) → eq_value (int m) z ≡ eq_value (int n) z
unfolding eq_value
same_int m n h z = ap (λ k. eq_value (int k) z) ((eq_ℤ_iff m n).0 h)

-- `True` and `1` compare alike
as_int : (b : Bool) (z : Value) → eq_value (int (of_bool b)) z ≡ eq_value (bool b) z
unfolding eq_value
as_int b null = refl
as_int b (bool c) = refl
as_int b (int n) = refl
as_int b (float x) = refl
as_int b (str s) = refl
as_int b (ref r) = refl
as_int b (tuple xs) = refl
as_int b (list xs) = refl
as_int b (obj fs) = refl

same_bool :
    (m : ℤ) (b : Bool)
    → eq_value (int m) (bool b) ≡ true
    → (z : Value) → eq_value (int m) z ≡ eq_value (bool b) z
unfolding eq_value
same_bool m b h z = ap (λ k. eq_value (int k) z) ((eq_ℤ_iff m (of_bool b)).0 h) ∙ as_int b z

-- what equals a name or an id compares as it does
key-same :
    (x y : Value)
    → is_key x ≡ true
    → is_exact y ≡ true
    → eq_value x y ≡ true
    → (z : Value) → eq_value x z ≡ eq_value y z
unfolding eq_value
key-same (str s) (str t) k e h z = same_text s t h z
key-same (int m) (int n) k e h z = same_int m n h z
key-same (int m) (bool b) k e h z = same_bool m b h z
key-same (str s) _ k e h z = cc
key-same (int m) _ k e h z = cc
key-same _ y k e h z = cc

mem-same :
    (x y : Value)
    → ((z : Value) → eq_value x z ≡ eq_value y z)
    → (ys : List Value) → mem eq_value x ys ≡ mem eq_value y ys
mem-same x y same [] = refl
mem-same x y same (z ∷ ys) = ground (arith, same z, mem-same x y same ys)

mem-append :
    (x : Value) (xs ys : List Value)
    → mem eq_value x (xs ++ ys) ≡ (mem eq_value x xs || mem eq_value x ys)
mem-append x [] ys = refl
mem-append x (y ∷ xs) ys = ground (arith, mem-append x xs ys)

mem-without :
    (x : Value) (xs ys : List Value)
    → is_key x ≡ true
    → All (λ y. is_exact y ≡ true) xs
    → mem eq_value x (without eq_value xs ys) ≡ (mem eq_value x xs && not (mem eq_value x ys))
unfolding without
mem-without x [] ys k e = refl
mem-without x (y ∷ xs) ys k (e, es) = elim (Bool-cases (eq_value x y)) [
  | inl same ↦
      ground (arith, same, mem-without x xs ys k es, mem-same x y (key-same x y k e same) ys)
  | inr differs ↦ ground (arith, differs, mem-without x xs ys k es)
]

-- For every name or id `x`, where neither list holds a float: the list that is left when the removals
-- of the delta are taken from what is observed and its additions put behind it has `x`, by Python's
-- `==`, exactly when the declared list has it. It is added only if it was not observed, and removed
-- only if it was.
pub delta_reaches :
    (declared observed : List Value) (x : Value)
    → All (λ y. is_exact y ≡ true) declared
    → All (λ y. is_exact y ≡ true) observed
    → is_key x ≡ true
    → let (add, remove) = delta eq_value declared observed in
      (mem eq_value x (without eq_value observed remove ++ add) ≡ mem eq_value x declared)
      × ((mem eq_value x add && mem eq_value x observed) ≡ false)
      × ((mem eq_value x remove && not (mem eq_value x observed)) ≡ false)
unfolding delta
delta_reaches declared observed x d o k =
    let gone = mem-without x observed (without eq_value observed declared) k o in
    let removed = mem-without x observed declared k o in
    let added = mem-without x declared observed k d in
    let joined =
      mem-append x (without eq_value observed (without eq_value observed declared))
        (without eq_value declared observed) in
    (
      rw (joined, gone, removed, added)
          (tautology (mem eq_value x observed) (mem eq_value x declared)),
      rw added (absorbs (mem eq_value x declared) (mem eq_value x observed)),
      rw removed (excludes (mem eq_value x observed) (mem eq_value x declared)),
    )
