-- ===== src/Provision/Client.antt =====
-- provision/adapters.py: `BzrClient` and `assign_bug_custom_fields`. The bzr process and the REST
-- server are a parameter, `Fixture`: what they answer is read as JSON by the standard library.
use bzr_live.Common.{
  ℕ, ℤ, pos, eq_ℤ, String, Bool, true, false, List, [], ◌∷◌, Option, none, some, any_of, ◌&&◌,
  Result, ok, err, provision_error, ◌==ₛ◌, if◌then◌else◌,
}
use bzr_live.Value.{
  Float, finite, Value, null, bool, int, float, str, tuple, list, nil, obj, Fields, end, get,
}
use bzr_live.Exec.{Exec}

-- A finished bzr process: `reply` is its standard output as JSON, `silent` says that the output is
-- blank, and `api_code` is what `_api_error_code` finds in its standard error.
pub record Done : Type 0 where
  pub returncode : ℤ
  pub reply : Option Value
  pub silent : Bool
  pub api_code : Option ℤ

-- `none` for a reply that is no JSON, or for no reply
pub data RestReply : Type 0 where
  refused : RestReply
  answered : Option Value → RestReply

pub record BzrClient : Type 0 where
  pub api_key : String
  pub admin_email : String

-- The server behind both boundaries, in a state `W` that a call may change. `none` of `run` is a
-- bzr binary that cannot be started.
pub record Fixture (W : Type 0) : Type 0 where
  pub run : BzrClient → List String → List String → W → Option Done × W
  pub open_rest : String → ℕ → Fields → W → RestReply × W

-- `_NOT_FOUND_CODES` and `BUG_ABSENT_CODES`
abbrev pub not_found_codes : List ℤ
not_found_codes = pos 51 ∷ pos 105 ∷ pos 106 ∷ []

abbrev pub bug_absent_codes : List ℤ
bug_absent_codes = pos 100 ∷ pos 101 ∷ []

-- `_payload`: the `data` of an envelope, or the reply itself
unfoldable pub payload : Option Value → Result Value
unfolding get
payload none = err (provision_error "reply was not JSON")
payload (some (obj fs)) = elim (get "data" fs) [ none ↦ ok (obj fs) | some v ↦ ok v ]
payload (some v) = ok v

abbrev is_absent : Option ℤ → List ℤ → Bool
is_absent none codes = false
is_absent (some code) codes = any_of (eq_ℤ code) codes

-- what `read` makes of the process; `null` is Python's `None`, for an absent object
unfoldable pub read_result : List ℤ → Option Done → Result Value
unfolding payload
read_result absent none = err (provision_error "cannot run bzr binary")
read_result absent (some done) =
    if eq_ℤ done.returncode (pos 0)
    then payload done.reply
    else (if eq_ℤ done.returncode (pos 2)
        then ok null
        else (if eq_ℤ done.returncode (pos 4) && is_absent done.api_code absent
            then ok null
            else err (provision_error "bzr boundary failure")))

-- what `write` makes of the process
unfoldable pub write_result : Option Done → Result Value
unfolding payload
write_result none = err (provision_error "cannot run bzr binary")
write_result (some done) =
    if eq_ℤ done.returncode (pos 0)
    then (if done.silent then ok (obj end) else payload done.reply)
    else err (provision_error "bzr boundary failure")

abbrev float_is_zero : Float → Bool
float_is_zero (finite m e) = eq_ℤ m (pos 0)
float_is_zero _ = false

-- `bool(value)`
unfoldable pub truthy : Value → Bool
truthy null = false
truthy (bool b) = b
truthy (float x) = if float_is_zero x then false else true
truthy (int n) = if eq_ℤ n (pos 0) then false else true
truthy (str s) = if s ==ₛ "" then false else true
truthy (tuple nil) = false
truthy (list nil) = false
truthy (obj end) = false
truthy _ = true

-- `isinstance(payload, dict) and payload.get("error")`
rest_failed : Value → Bool
unfolding truthy get
rest_failed (obj fs) = elim (get "error" fs) [ none ↦ false | some v ↦ truthy v ]
rest_failed v = false

-- what `assign_bug_custom_fields` makes of the reply
unfoldable pub rest_result : RestReply → Result Value
unfolding rest_failed
rest_result refused = err (provision_error "REST custom-field assignment failed")
rest_result (answered none) = err (provision_error "REST custom-field reply was not JSON")
rest_result (answered (some v)) =
    if rest_failed v then err (provision_error "REST custom-field assignment failed") else ok v

module _ {W : Type 0} (fixture : Fixture W) where
  open fixture use {run, open_rest}

  -- `BzrClient.read`
  unfoldable pub read : BzrClient → List String → List String → List ℤ → Exec W Value
  unfolding read_result
  read client args positionals absent w =
      let (done, w') = run client args positionals w in (read_result absent done, w')

  -- `BzrClient.write`
  unfoldable pub write : BzrClient → List String → List String → Exec W Value
  unfolding write_result
  write client args positionals w =
      let (done, w') = run client args positionals w in (write_result done, w')

  -- `assign_bug_custom_fields`
  unfoldable pub assign_bug_custom_fields : String → ℕ → Fields → Exec W Value
  unfolding rest_result
  assign_bug_custom_fields key bug_id values w =
      let (reply, w') = open_rest key bug_id values w in (rest_result reply, w')
