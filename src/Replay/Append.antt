-- ===== src/Replay/Append.antt =====
-- replay/actions.py: the markers by which an append is found again, and `_append_result`.
use Prim.Native.String.{◌++◌}
use bzr_live.Common.{
  ℕ, zero, suc, String, Bool, false, List, [], ◌∷◌, Option, none, some, Result, ok, err, type_error,
  replay_error, ◌>>=◌, contains, if◌then◌else◌, length,
}
use bzr_live.Value.{Value, null, str, tuple, list, obj, Items, nil, cons, Fields, has}
use bzr_live.Provision.Client.{truthy}
use bzr_live.Journal.Record.{advance, retry, stop}
use bzr_live.Replay.Invocation.{Reconciliation}
use bzr_live.Replay.Values.{to_list, mem_value, get_or_null, usable_id}

-- `render_marker`
unfoldable pub render_marker : String → String → String
render_marker text marker = text ++ ("\n\n[" ++ (marker ++ "]"))

abbrev pub marker_sentinel : String
marker_sentinel = "[bzr-live:"

-- `_reject_embedded_marker`
unfoldable pub reject_embedded_marker : String → Result (Unit {0})
unfolding contains
reject_embedded_marker text =
    if contains marker_sentinel text
    then err (replay_error "declared text contains the engine's marker token")
    else ok tt

-- `f"[{marker}]"`
unfoldable pub token : String → String
token marker = "[" ++ (marker ++ "]")

-- `token in (value or "")`
token_in : String → Value → Result Bool
unfolding contains to_list truthy has
token_in t (str s) = ok (contains t s)
token_in t (tuple xs) = ok (mem_value (str t) (to_list xs))
token_in t (list xs) = ok (mem_value (str t) (to_list xs))
token_in t (obj fs) = ok (has t fs)
token_in t v = if truthy v then err type_error else ok false

-- the entries that carry the marker
pub hits : Items → String → String → Result (List Fields)
unfolding token_in get_or_null
hits nil name t = ok []
hits (cons (obj fs) xs) name t = do
  found ← token_in t (get_or_null name fs)
  rest ← hits xs name t
  ok (if found then fs ∷ rest else rest)
hits (cons v xs) name t = hits xs name t

-- the count and the id that `_marker_count` returns
unfoldable pub count_of : List Fields → Option ℕ × Value
unfolding get_or_null
count_of (fs ∷ []) = (some 1, get_or_null "id" fs)
count_of found = (some (length found), null)

-- `_marker_count`; no entries are a reply that did not answer
unfoldable pub marker_count : Option Items → String → String → Result (Option ℕ × Value)
unfolding hits count_of token
marker_count none name marker = ok (none, null)
marker_count (some xs) name marker = do found ← hits xs name (token marker); ok (count_of found)

-- `_entries`
unfoldable pub entries : Value → Option Items
entries (list xs) = some xs
entries v = none

-- one matching entry whose id resolves a reference, when the id is usable
unfoldable pub with_id : String → Option ℕ → Value → Reconciliation
with_id key none output = record { next_action = stop; output = output; resolved_ids = [] }
with_id key (some n) output = record {
  next_action = advance;
  output = output;
  resolved_ids = (key, n) ∷ [];
}

unfoldable pub one_entry : Option String → Value → Value → Reconciliation
unfolding usable_id with_id
one_entry none entry_id output = record {
  next_action = advance;
  output = output;
  resolved_ids = [];
}
one_entry (some key) entry_id output = with_id key (usable_id entry_id) output

-- `_append_result`
unfoldable pub append_result : Option ℕ × Value → Value → Option String → Reconciliation
unfolding one_entry
append_result (none, entry_id) output id_key = record {
  next_action = stop;
  output = output;
  resolved_ids = [];
}
append_result (some zero, entry_id) output id_key = record {
  next_action = retry;
  output = output;
  resolved_ids = [];
}
append_result (some (suc zero), entry_id) output id_key = one_entry id_key entry_id output
append_result (some (suc (suc n)), entry_id) output id_key = record {
  next_action = stop;
  output = output;
  resolved_ids = [];
}
