-- ===== src/Loader/Events/Rounds.antt =====
-- The rounds of `_validate_events`, one after another.
use Prim.Native.String.{◌++◌}
use text.Mathlib.TextLemmas.{append_cancel_left}
use bzr_live.Common.{
  true, refl, arith, sym, ◌∙◌, ap, map, ◌==ₛ◌, eq_iff, Bool-cases, inl, inr, String, false, ◌≡◌,
  List, [], ◌∷◌, some, ok, OnOk, OnOk-ok, OnOk-bind, mem_text,
}
use mathlib.Core.Path.{subst}
use bzr_live.Value.{Fields, str, get}
use bzr_live.Scenario.{Asset, PlannedResource, PlannedEvent}
use bzr_live.Journal.Record.{action_class_of}
use bzr_live.Loader.Events
use bzr_live.Loader.Events.{Progress}
use bzr_live.Loader.Events.Closed.{IsClosed, IsScoped, plan_event-IsRound}

-- An event has a name and a marker that no event before it has, the recovery class that the journal
-- asks of its action, and its action and its marker in the postcondition that it is journalled with.
abbrev pub IsNamed : List String → List String → List PlannedEvent → Type 0
IsNamed names markers [] = Unit {0}
IsNamed names markers (e ∷ es) =
    (mem_text e.name names ≡ false)
    × (mem_text e.reconciliation_marker markers ≡ false)
    × (action_class_of e.action ≡ some e.action_class)
    × (get "action" e.expected_postcondition ≡ some (str e.action))
    × (get "marker" e.expected_postcondition ≡ some (str e.reconciliation_marker))
    × IsNamed (e.name ∷ names) (e.reconciliation_marker ∷ markers) es

-- two names have two markers
marker_of-injective :
    (scenario_name m n : String)
    → Events.marker_of scenario_name m ≡ Events.marker_of scenario_name n
    → m ≡ n
unfolding Events.marker_of
marker_of-injective scenario_name m n h = append_cancel_left ":" m n (
    append_cancel_left scenario_name (":" ++ m) (":" ++ n) (
      append_cancel_left "bzr-live:" (scenario_name ++ (":" ++ m)) (scenario_name ++ (":" ++ n)) h))

eq_marker :
    (scenario_name m n : String)
    → (Events.marker_of scenario_name m ==ₛ Events.marker_of scenario_name n) ≡ (m ==ₛ n)
eq_marker scenario_name m n =
    let names = eq_iff m n in
    let markers = eq_iff (Events.marker_of scenario_name m) (Events.marker_of scenario_name n) in
    elim (Bool-cases (m ==ₛ n)) [
      | inl e ↦ markers.1 (ap (Events.marker_of scenario_name) (names.0 e)) ∙ sym e
      | inr e ↦
          elim (Bool-cases
            (Events.marker_of scenario_name m ==ₛ Events.marker_of scenario_name n)) [
              | inl e' ↦
                  let no : true ≡ false =
                    sym (names.1 (marker_of-injective scenario_name m n (markers.0 e'))) ∙ e in
                  cc
              | inr e' ↦ e' ∙ sym e
            ]
    ]

-- the markers of the names that are seen
abbrev markers_of : String → List String → List String
markers_of scenario_name names = map (Events.marker_of scenario_name) names

marker_of-mem :
    (scenario_name n : String) (names : List String)
    → mem_text (Events.marker_of scenario_name n) (markers_of scenario_name names)
      ≡ mem_text n names
marker_of-mem scenario_name n [] = refl
marker_of-mem scenario_name n (m ∷ names) =
    let same : (Events.marker_of scenario_name m ==ₛ Events.marker_of scenario_name n) ≡ (m ==ₛ n) =
      eq_marker scenario_name m n in
    ground (arith, same, marker_of-mem scenario_name n names)

module _ (server_alias : String → String) (resources : List PlannedResource) (assets : List Asset)
    (scenario_name : String) where
  -- what the loop has after some rounds
  pub data Reached (start : Progress) : Progress → Type 0 where
    at_start : Reached start start
    after_round :
        {p : Progress} (raw : Fields) (step : PlannedEvent × Progress)
        → Reached start p
        → Events.plan_event server_alias resources assets scenario_name raw p ≡ ok step
        → Reached start step.1

  pub Reached-IsScoped :
      (start p : Progress)
      → Reached start p
      → IsScoped start.available start.scopes
      → IsScoped p.available p.scopes
  Reached-IsScoped start p at_start h = h
  Reached-IsScoped start p (after_round {p = q} raw step r e) h =
      ((plan_event-IsRound server_alias resources assets scenario_name raw q).at e).scoped
        (Reached-IsScoped start q r h)

  pub plan_events-IsClosed :
      (raws : List Fields) (p : Progress)
      → OnOk
          (IsClosed p.available)
          (Events.plan_events server_alias resources assets scenario_name raws p)
  unfolding Events.plan_events
  plan_events-IsClosed [] p = OnOk-ok [] tt
  plan_events-IsClosed (raw ∷ raws) p =
      OnOk-bind (Events.plan_event server_alias resources assets scenario_name raw p) _ (λ step q.
        OnOk-bind (Events.plan_events server_alias resources assets scenario_name raws step.1) _
          (λ events q'.
            let round =
              (plan_event-IsRound server_alias resources assets scenario_name raw p).at q in
            let rest = (plan_events-IsClosed raws step.1).at q' in
            OnOk-ok (step.0 ∷ events)
              (round.closed, round.fresh, subst (λ a. IsClosed a events) round.registered rest)))

  pub plan_events-IsNamed :
      (raws : List Fields) (p : Progress)
      → OnOk
          (IsNamed p.names (markers_of scenario_name p.names))
          (Events.plan_events server_alias resources assets scenario_name raws p)
  unfolding Events.plan_events
  plan_events-IsNamed [] p = OnOk-ok [] tt
  plan_events-IsNamed (raw ∷ raws) p =
      OnOk-bind (Events.plan_event server_alias resources assets scenario_name raw p) _ (λ step q.
        OnOk-bind (Events.plan_events server_alias resources assets scenario_name raws step.1) _
          (λ events q'.
            let round =
              (plan_event-IsRound server_alias resources assets scenario_name raw p).at q in
            let rest =
              subst (λ names. IsNamed names (markers_of scenario_name names) events) round.named
                ((plan_events-IsNamed raws step.1).at q') in
            OnOk-ok (step.0 ∷ events) (
              round.new,
              ap (λ m. mem_text m (markers_of scenario_name p.names)) round.marked
                  ∙ (marker_of-mem scenario_name step.0.name p.names ∙ round.new),
              round.class,
              round.action_kept,
              round.marker_kept,
              subst
                  (λ m.
                    IsNamed (step.0.name ∷ p.names) (m ∷ markers_of scenario_name p.names) events)
                  (sym round.marked) rest,
            )))
