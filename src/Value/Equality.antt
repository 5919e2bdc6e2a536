-- ===== src/Value/Equality.antt =====
-- Python's `==` on dynamic values: numbers compare across `bool`, `int` and `float`, mappings
-- without regard to order, and a tuple never equals a list.
use bzr_live.Common.{
  ℕ, zero, suc, ◌+◌, ◌*◌, ◌^◌, ℤ, pos, negsuc, eq_ℤ, ◌==◌, Bool, true, false, ◌&&◌, Option, none,
  some, ◌==ₛ◌, if◌then◌else◌,
}
use bzr_live.Value.{
  eq_ref, Float, finite, infinite, nan, Value, null, bool, int, float, str, ref, tuple, list, obj,
  Items, nil, cons, Fields, end, field, get,
}

abbrev pub of_bool : Bool → ℤ
of_bool b = if b then pos 1 else pos 0

-- m * k for a natural k
scale : ℤ → ℕ → ℤ
scale (pos m) k = pos (m * k)
scale (negsuc m) zero = pos 0
scale (negsuc m) (suc j) = negsuc (m * suc j + j)

-- `n == x` for an integer and a float
int_eq_float : ℤ → Float → Bool
unfolding scale
int_eq_float n (finite m (pos e)) = eq_ℤ n (scale m (2 ^ e))
int_eq_float n (finite m (negsuc e)) = eq_ℤ (scale n (2 ^ suc e)) m
int_eq_float n (infinite _) = false
int_eq_float n nan = false

float_eq : Float → Float → Bool
float_eq (finite m e) (finite m' e') = eq_ℤ m m' && eq_ℤ e e'
float_eq (infinite a) (infinite b) = if a then b else (if b then false else true)
float_eq _ _ = false

-- the cases of `==` with no container on the left
eq_scalar : Value → Value → Bool
unfolding int_eq_float float_eq
eq_scalar null null = true
eq_scalar (bool a) (bool b) = eq_ℤ (of_bool a) (of_bool b)
eq_scalar (bool a) (int n) = eq_ℤ (of_bool a) n
eq_scalar (bool a) (float x) = int_eq_float (of_bool a) x
eq_scalar (int n) (bool b) = eq_ℤ n (of_bool b)
eq_scalar (int m) (int n) = eq_ℤ m n
eq_scalar (int n) (float x) = int_eq_float n x
eq_scalar (float x) (bool b) = int_eq_float (of_bool b) x
eq_scalar (float x) (int n) = int_eq_float n x
eq_scalar (float x) (float y) = float_eq x y
eq_scalar (str s) (str t) = s ==ₛ t
eq_scalar (ref a) (ref b) = eq_ref a b
eq_scalar _ _ = false

unfoldable pub count_fields : Fields → ℕ
count_fields end = 0
count_fields (field _ _ fs) = suc (count_fields fs)

abbrev as_tuple : Value → Option Items
as_tuple (tuple xs) = some xs
as_tuple _ = none

abbrev as_list : Value → Option Items
as_list (list xs) = some xs
as_list _ = none

abbrev pub as_obj : Value → Option Fields
as_obj (obj fs) = some fs
as_obj _ = none

unfoldable mutual
  unfolding eq_scalar

  pub eq_value : Value → Value → Bool
  eq_value (tuple xs) w = elim (as_tuple w) [ none ↦ false | some ys ↦ eq_items xs ys ]
  eq_value (list xs) w = elim (as_list w) [ none ↦ false | some ys ↦ eq_items xs ys ]
  eq_value (obj fs) w = elim (as_obj w) [
    | none ↦ false
    | some gs ↦ count_fields fs == count_fields gs && within fs gs
  ]
  eq_value v w = eq_scalar v w

  pub eq_items : Items → Items → Bool
  eq_items nil nil = true
  eq_items (cons v xs) (cons w ys) = eq_value v w && eq_items xs ys
  eq_items _ _ = false

  -- every field of the first mapping is in the second, with an equal value
  pub within : Fields → Fields → Bool
  within end gs = true
  within (field k v fs) gs = elim (get k gs) [
    | none ↦ false
    | some w ↦ eq_value v w && within fs gs
  ]

-- `==` on two mappings
abbrev pub eq_fields : Fields → Fields → Bool
eq_fields fs gs = count_fields fs == count_fields gs && within fs gs
