-- ===== src/Loader/Events/Kept.antt =====
-- What freezing keeps of the expected postcondition of an event.
use bzr_live.Common.{String, some, ok, ◌>>=◌, >>=-eq-ok, ok-injective, ◌≡◌, sym, ap}
use bzr_live.Value.{Value, str, ref, obj, Fields, end, field, get}
use bzr_live.Value.Planned.{freeze_planned, freeze_fields}
use bzr_live.Loader.Create.{Payload}
use bzr_live.Loader.Events

-- a frozen mapping has a first field with the key of the first field
freeze_fields-field :
    (k : String) (v : Value) (fs : Fields) {gs : Fields}
    → freeze_fields (field k v fs) ≡ ok gs
    → (w : Value) × (rest : Fields) × (freeze_planned v ≡ ok w)
      × (freeze_fields fs ≡ ok rest)
      × (field k w rest ≡ gs)
unfolding freeze_fields
freeze_fields-field k v fs h =
    let (w, p, h') =
      >>=-eq-ok (freeze_planned v) (λ w. freeze_fields fs >>= λ rest. ok (field k w rest)) h in
    let (rest, q, h'') = >>=-eq-ok (freeze_fields fs) (λ rest. ok (field k w rest)) h' in
    (w, rest, p, q, ok-injective h'')

freeze_str : (s : String) {w : Value} → freeze_planned (str s) ≡ ok w → str s ≡ w
unfolding freeze_planned
freeze_str s h = ok-injective h

-- the action and the marker
pub postcondition-kept :
    (scenario_name name action : String) (made : Payload) {fs : Fields}
    → freeze_fields (Events.postcondition_of scenario_name name action made) ≡ ok fs
    → (get "action" fs ≡ some (str action))
      × (get "marker" fs ≡ some (str (Events.marker_of scenario_name name)))
unfolding Events.postcondition_of get
postcondition-kept scenario_name name action made h =
    let (a, rest₁, p, h₁, e) = freeze_fields-field "action" (str action) _ h in
    let (t, rest₂, _, h₂, e₁) = freeze_fields-field "target" (ref made.target) _ h₁ in
    let (v, rest₃, _, h₃, e₂) = freeze_fields-field "values" (obj made.values) _ h₂ in
    let (m, rest₄, q, _, e₃) =
      freeze_fields-field "marker" (str (Events.marker_of scenario_name name)) end h₃ in
    (
      rw (← e) (ap some (sym (freeze_str action p))),
      rw (← e, ← e₁, ← e₂, ← e₃)
          (ap some (sym (freeze_str (Events.marker_of scenario_name name) q))),
    )
