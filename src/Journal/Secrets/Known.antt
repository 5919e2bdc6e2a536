-- ===== src/Journal/Secrets/Known.antt =====
-- `_secret_list` keeps every secret that is not empty, and nothing else.
use bzr_live.Common.{
  String, ◌≡◌, ◌≢◌, refl, true, false, List, [], ◌∷◌, arith, eq_iff, contains, any_of, mem_text,
}
use bzr_live.Journal.Secrets.{insert_secret, secret_list, remove_secrets}
use bzr_live.Journal.Secrets.Removal.{IsFree, AllNonempty, remove_secrets-IsFree}

insert_secret-mem :
    (s t : String) (ts : List String)
    → mem_text s ts ≡ true
    → mem_text s (insert_secret t ts) ≡ true
unfolding insert_secret
insert_secret-mem s t [] h = cc
insert_secret-mem s t (u ∷ ts) h = ground (arith, insert_secret-mem s t ts)

insert_secret_self : (s : String) (ts : List String) → mem_text s (insert_secret s ts) ≡ true
unfolding insert_secret
insert_secret_self s [] = ground (arith, eq_iff s s)
insert_secret_self s (u ∷ ts) =
    ground (arith, eq_iff s s, eq_iff s u, eq_iff u s, insert_secret_self s ts)

secret_list-mem :
    (s : String) (known : List String)
    → s ≢ ""
    → mem_text s known ≡ true
    → mem_text s (secret_list known) ≡ true
unfolding secret_list
secret_list-mem s [] ne h = cc
secret_list-mem s (k ∷ known) ne h = ground (
  arith,
  eq_iff k s,
  eq_iff k "",
  insert_secret_self s (secret_list known),
  insert_secret-mem s k (secret_list known),
  secret_list-mem s known ne,
)

insert_secret-AllNonempty :
    (s : String) (ts : List String) → s ≢ "" → AllNonempty ts → AllNonempty (insert_secret s ts)
unfolding insert_secret
insert_secret-AllNonempty s [] ne h = (ne, tt)
insert_secret-AllNonempty s (u ∷ ts) ne h = ground (arith, insert_secret-AllNonempty s ts ne h.1)

pub secret_list-AllNonempty : (known : List String) → AllNonempty (secret_list known)
unfolding secret_list
secret_list-AllNonempty [] = tt
secret_list-AllNonempty (k ∷ known) = ground (
  arith,
  eq_iff k "",
  insert_secret-AllNonempty k (secret_list known),
  secret_list-AllNonempty known,
)

IsFree-mem :
    (s v : String) (ss : List String) → IsFree v ss → mem_text s ss ≡ true → contains s v ≡ false
IsFree-mem s v [] free h = cc
IsFree-mem s v (t ∷ ss) free h = ground (arith, eq_iff t s, IsFree-mem s v ss free.1)

-- No text that `_remove_secrets` returns contains a known secret that is not empty, whatever the
-- order in which the removals uncover new occurrences.
pub remove_secrets-contains :
    (value secret : String) (known : List String)
    → secret ≢ ""
    → mem_text secret known ≡ true
    → contains secret (remove_secrets value (secret_list known)) ≡ false
remove_secrets-contains value secret known ne h =
    IsFree-mem secret (remove_secrets value (secret_list known)) (secret_list known)
      (remove_secrets-IsFree value (secret_list known) (secret_list-AllNonempty known))
      (secret_list-mem secret known ne h)

pub IsFree-any :
    (v : String) (ss : List String) → IsFree v ss → any_of (λ s. contains s v) ss ≡ false
IsFree-any v [] free = refl
IsFree-any v (s ∷ ss) free = rw free.0 (IsFree-any v ss free.1)
