-- ===== src/Journal/Secrets/Removal.antt =====
-- The loop of `_remove_secrets` ends, and leaves no secret.
use bzr_live.Common.{
  ℕ, zero, suc, ◌≤◌, ◌<◌, String, ◌≡◌, ◌≢◌, refl, sym, ap, ◌∙◌, ◌⊎◌, inl, inr, true, false, List,
  [], ◌∷◌, arith, ◌==ₛ◌, eq_iff, size, remove_all, contains, All, Bool-cases, remove_all_shrinks,
  remove_all_fixed, remove_all_absent,
}
use bzr_live.Journal.Secrets.{remove_once, remove_loop, remove_secrets}

-- The fuel of `remove_secrets` is one more than the length of its value, and each round that
-- changes the value shortens it.
size-remove_once : (v : String) (ss : List String) → size (remove_once v ss) ≤ size v
unfolding remove_once
size-remove_once v [] = omega arith
size-remove_once v (s ∷ ss) =
    ground (arith, size-remove_once (remove_all v s) ss, remove_all_shrinks v s)

remove_once_shrinks :
    (v : String) (ss : List String) → (remove_once v ss ≡ v) ⊎ (size (remove_once v ss) < size v)
unfolding remove_once
remove_once_shrinks v [] = inl refl
remove_once_shrinks v (s ∷ ss) = ground (
  arith,
  size-remove_once (remove_all v s) ss,
  remove_once_shrinks (remove_all v s) ss,
  remove_all_shrinks v s,
)

-- A round that changes nothing met no secret.
abbrev pub IsFree : String → List String → Type 0
IsFree v ss = All (λ s. contains s v ≡ false) ss

abbrev pub AllNonempty : List String → Type 0
AllNonempty ss = All (λ s. s ≢ "") ss

remove_once_fixed :
    (v : String) (ss : List String) → AllNonempty ss → remove_once v ss ≡ v → IsFree v ss
unfolding remove_once
remove_once_fixed v [] ne h = tt
remove_once_fixed v (s ∷ ss) ne h = elim (remove_all_shrinks v s) [
  | inl same ↦ (
    remove_all_fixed v s ne.0 same,
    remove_once_fixed v ss ne.1 (ap (λ w. remove_once w ss) (sym same) ∙ h),
  )
  | inr less ↦ absurd (omega (arith, size-remove_once (remove_all v s) ss, ap size h))
]

remove_once_free : (v : String) (ss : List String) → IsFree v ss → remove_once v ss ≡ v
unfolding remove_once
remove_once_free v [] free = refl
remove_once_free v (s ∷ ss) free =
    ap (λ w. remove_once w ss) (remove_all_absent v s free.0) ∙ remove_once_free v ss free.1

remove_loop-IsFree :
    (fuel : ℕ) (v : String) (ss : List String)
    → size v < fuel
    → AllNonempty ss
    → IsFree (remove_loop fuel v ss) ss
unfolding remove_loop
remove_loop-IsFree zero v ss enough ne = elim enough [ ]
remove_loop-IsFree (suc fuel) v ss enough ne = elim (Bool-cases (remove_once v ss ==ₛ v)) [
  | inl same ↦ rw same (remove_once_fixed v ss ne ((eq_iff _ _).0 same))
  | inr differs ↦ rw differs (
      remove_loop-IsFree fuel (remove_once v ss) ss
        (ground (arith, remove_once_shrinks v ss, eq_iff (remove_once v ss) v)) ne)
]

-- Every secret is gone from the result, so the fuel was enough.
pub remove_secrets-IsFree :
    (v : String) (ss : List String) → AllNonempty ss → IsFree (remove_secrets v ss) ss
unfolding remove_secrets
remove_secrets-IsFree v ss ne = remove_loop-IsFree (suc (size v)) v ss (omega arith) ne

-- A text with no secret in it is left alone.
pub remove_secrets_free : (v : String) (ss : List String) → IsFree v ss → remove_secrets v ss ≡ v
unfolding remove_secrets remove_loop
remove_secrets_free v ss free =
    let same : (remove_once v ss ==ₛ v) ≡ true = (eq_iff _ _).1 (remove_once_free v ss free) in
    rw same
