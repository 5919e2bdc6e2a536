-- ===== src/Replay/Values.antt =====
-- What the handlers of replay/actions.py read: the parts of an event's postcondition, and the parts
-- of a reply. A part of another shape than the validation of the scenario lets through raises.
use Prim.Native.String.{◌++◌}
use mathlib.Core.List.{◌++◌ as ◌++ₗ◌}
use bzr_live.Common.{
  ℕ, suc, pos, negsuc, String, Bool, true, false, ◌&&◌, List, [], ◌∷◌, Option, none, some, any_of,
  all_of, Result, ok, err, key_error, type_error, ◌>>=◌, if◌then◌else◌,
}
use bzr_live.Value.{
  Reference, Value, null, bool, int, str, ref, tuple, list, obj, Items, nil, cons, Fields, end,
  field, get, has,
}
use bzr_live.Value.Equality.{eq_value}
use bzr_live.Journal.Record.{bzr}
use bzr_live.Provision.Client.{truthy}
use bzr_live.Replay.Context.{show_ℕ}
use bzr_live.Replay.Invocation.{Invocation}
use bzr_live.Scenario.{PlannedEvent}

unfoldable pub values_of : PlannedEvent → Result Fields
unfolding get
values_of event = elim (get "values" event.expected_postcondition) [
  | some (obj fs) ↦ ok fs
  | _ ↦ err (key_error "values")
]

unfoldable pub ref_at : Fields → String → Result Reference
unfolding get
ref_at fs key = elim (get key fs) [ some (ref r) ↦ ok r | _ ↦ err (key_error key) ]

unfoldable pub target_of : PlannedEvent → Result Reference
unfolding ref_at
target_of event = ref_at event.expected_postcondition "target"

unfoldable pub text_at : Fields → String → Result String
unfolding get
text_at fs key = elim (get key fs) [ some (str s) ↦ ok s | _ ↦ err (key_error key) ]

unfoldable pub bool_at : Fields → String → Result Bool
unfolding get
bool_at fs key = elim (get key fs) [ some (bool b) ↦ ok b | _ ↦ err (key_error key) ]

-- a reference or `None`; a missing key counts as `None` where the source uses `get`
unfoldable pub optional_ref_at : Fields → String → Result (Option Reference)
unfolding get
optional_ref_at fs key = elim (get key fs) [
  | some (ref r) ↦ ok (some r)
  | some null ↦ ok none
  | none ↦ ok none
  | _ ↦ err (key_error key)
]

refs : Items → Result (List Reference)
refs nil = ok []
refs (cons (ref r) xs) = do rs ← refs xs; ok (r ∷ rs)
refs (cons v xs) = err type_error

unfoldable pub refs_at : Fields → String → Result (List Reference)
unfolding get refs
refs_at fs key = elim (get key fs) [ some (tuple xs) ↦ refs xs | _ ↦ err (key_error key) ]

unfoldable pub to_list : Items → List Value
to_list nil = []
to_list (cons v xs) = v ∷ to_list xs

unfoldable pub of_list : List Value → Items
of_list [] = nil
of_list (v ∷ vs) = cons v (of_list vs)

keys_of : Fields → List Value
keys_of end = []
keys_of (field k v fs) = str k ∷ keys_of fs

chars_of : String → List Value
chars_of String.[] = []
chars_of (String.◌∷◌ c s) = str (String.◌∷◌ c "") ∷ chars_of s

-- the elements of `value or []`
unfoldable pub elements : Value → Result (List Value)
unfolding truthy to_list keys_of chars_of
elements (tuple xs) = ok (to_list xs)
elements (list xs) = ok (to_list xs)
elements (obj fs) = ok (keys_of fs)
elements (str s) = ok (chars_of s)
elements v = if truthy v then err type_error else ok []

-- `mapping.get(key)`, with `None` for a missing key
unfoldable pub get_or_null : String → Fields → Value
unfolding get
get_or_null key fs = elim (get key fs) [ none ↦ null | some v ↦ v ]

-- `item in values`
abbrev pub mem_value : Value → List Value → Bool
mem_value v vs = any_of (λ w. eq_value v w) vs

-- what a set may not hold
unhashable : Value → Bool
unhashable (list xs) = true
unhashable (obj fs) = true
unhashable v = false

-- `set(xs) == set(ys)`, where the observed `ys` may hold what no set does
unfoldable pub same_set : List Value → List Value → Result Bool
unfolding eq_value unhashable
same_set xs ys =
    if any_of unhashable ys
    then err type_error
    else ok (all_of (λ x. mem_value x ys) xs && all_of (λ y. mem_value y xs) ys)

-- `str(value)`, with a parameter for what holds other values
unfoldable pub show_value : (Value → String) → Value → String
unfolding show_ℕ
show_value other null = "None"
show_value other (bool b) = if b then "True" else "False"
show_value other (int (pos n)) = show_ℕ n
show_value other (int (negsuc n)) = "-" ++ show_ℕ (suc n)
show_value other (str s) = s
show_value other v = other v

-- `_bug_object` and `_attachment_object`: an object that carries an `id`
unfoldable pub object_with_id : Value → Option Fields
unfolding has
object_with_id (obj fs) = if has "id" fs then some fs else none
object_with_id v = none

-- `_usable_id`, with the id that it accepts
unfoldable pub usable_id : Value → Option ℕ
usable_id (int (pos (suc n))) = some (suc n)
usable_id v = none

abbrev pub key_env : String
key_env = "BZR_LIVE_API_KEY"

-- `_bzr`
unfoldable pub bzr_invocation : String → List String → List String → Invocation
bzr_invocation operation args positionals = record {
  metadata = record {
    mutation_boundary = bzr;
    operation = operation;
    arguments = args ++ₗ positionals;
    environment_names = key_env ∷ [];
  };
  args = args;
  positionals = positionals;
  rest_target = none;
}
