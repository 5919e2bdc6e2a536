-- ===== src/Loader/Events/Closed.antt =====
-- What an event refers to is declared or was created by an earlier event, and each bug that is
-- created has its scope.
use bzr_live.Common.{
  String, Bool, true, false, ◌≡◌, refl, sym, ◌∙◌, ap, List, [], ◌∷◌, Option, none, some, ◌==ₛ◌,
  eq_iff, arith, Result, ok, ◌>>=◌, OnOk, OnOk-ok, OnOk-bind, OnOk-then, OnOk-cases, &&-true,
  raise_if, raise_if-ok, or_raise-ok, or_raise, mem_text, invalid,
}
use mathlib.Core.Path.{subst}
use bzr_live.Value.{Reference, eq_ref, eq_ref_iff, Value, Fields, obj, str, get}
use bzr_live.Value.Planned.{freeze_fields}
use bzr_live.Scenario.{Asset, PlannedResource, PlannedEvent}
use bzr_live.Journal.Record.{action_class_of}
use bzr_live.Loader.Checks.{mem_ref, object_of, member, version_of, name_of}
use bzr_live.Loader.Resolve
use bzr_live.Loader.Resolve.{Scopes, resolve, extend_new}
use bzr_live.Loader.Resolve.Within.{within, within-extend_new, resolve-mem}
use bzr_live.Loader.Create.{Payload, create_payload}
use bzr_live.Loader.Create.Within.{IsCreation, create_payload-IsCreation}
use bzr_live.Loader.Actions.{
  update_payload, comment_payload, attach_payload, worktime_payload, custom_payload, flag_payload,
  attachment_payload,
}
use bzr_live.Loader.Actions.Within.{
  update_payload-within, comment_payload-within, attach_payload-IsCreation, worktime_payload-within,
  custom_payload-within, flag_payload-within, attachment_payload-within,
}
use bzr_live.Loader.Events
use bzr_live.Loader.Events.Kept.{postcondition-kept}
use bzr_live.Loader.Events.{Progress, created, add_created}

-- what an event creates is not there yet
abbrev pub IsFresh : Option Reference → List Reference → Type 0
IsFresh none available = Unit {0}
IsFresh (some r) available = mem_ref r available ≡ false

-- Each event refers to what is available before it, and creates something that is not.
abbrev pub IsClosed : List Reference → List PlannedEvent → Type 0
IsClosed available [] = Unit {0}
IsClosed available (e ∷ es) =
    (within available e.dependencies ≡ true)
    × IsFresh e.creates available
    × IsClosed (add_created e.creates available) es

-- each bug that is available has a scope
abbrev pub IsScoped : List Reference → Scopes → Type 0
IsScoped available scopes =
    (bug : Reference)
    → bug.kind ≡ "bug"
    → mem_ref bug available ≡ true
    → (scope : Reference × Reference) × (Resolve.bug_scope bug scopes ≡ ok scope)

bug_scope-head :
    (bug : Reference) (scope : Reference × Reference) (scopes : Scopes)
    → Resolve.bug_scope bug ((bug, scope) ∷ scopes) ≡ ok scope
unfolding Resolve.bug_scope
bug_scope-head bug scope scopes = rw ((eq_ref_iff bug bug).1 refl)

-- a bug that is registered has its scope, and the others keep theirs
IsScoped-bug :
    (available : List Reference) (scopes : Scopes) (r : Reference) (scope : Reference × Reference)
    → IsScoped available scopes
    → IsScoped (r ∷ available) ((r, scope) ∷ scopes)
unfolding Resolve.bug_scope
IsScoped-bug available scopes r scope h bug kind m = by_head (eq_ref r bug) refl
  where
    by_head :
        (b : Bool)
        → eq_ref r bug ≡ b
        → (s : Reference × Reference) × (Resolve.bug_scope bug ((r, scope) ∷ scopes) ≡ ok s)
    by_head true e = (scope, rw e)
    by_head false e =
        let known : mem_ref bug available ≡ true =
          ground (arith, m, e, eq_ref_iff r bug, eq_ref_iff bug r) in
        let (s, p) = h bug kind known in (s, rw e p)

kinds_differ : (a b : Reference) → a.kind ≡ "bug" → b.kind ≡ "attachment" → a ≡ b → false ≡ true
kinds_differ a b p q e =
    (eq_iff "bug" "attachment").1 (sym p ∙ (ap (λ (s : Reference). s.kind) e ∙ q))

-- what is no bug needs no scope
IsScoped-other :
    (available : List Reference) (scopes : Scopes) (r : Reference)
    → r.kind ≡ "attachment"
    → IsScoped available scopes
    → IsScoped (r ∷ available) scopes
IsScoped-other available scopes r other h bug kind m = by_head (eq_ref bug r) refl
  where
    by_head :
        (b : Bool)
        → eq_ref bug r ≡ b
        → (s : Reference × Reference) × (Resolve.bug_scope bug scopes ≡ ok s)
    by_head false e = h bug kind (ground (arith, m, e))
    by_head true e =
        let no : false ≡ true = kinds_differ bug r kind other ((eq_ref_iff bug r).0 e) in cc

module _ (server_alias : String → String) (resources : List PlannedResource)
    (assets : List Asset) where
  -- what the branches over the action come to
  record IsTaken (action : String) (p : Progress) (made : Payload × Scopes) : Type 0 where
    resolved : within p.available made.0.refs ≡ true
    fresh : IsFresh (created action made.0.target) p.available
    scoped :
        IsScoped p.available p.scopes
        → IsScoped (add_created (created action made.0.target) p.available) made.1

  -- an action that creates nothing
  IsTaken-set :
      (action : String) (p : Progress) (made : Payload)
      → created action made.target ≡ none
      → within p.available made.refs ≡ true
      → IsTaken action p (made, p.scopes)
  IsTaken-set action p made nothing h = record {
    resolved = h;
    fresh = subst (λ c. IsFresh c p.available) (sym nothing) tt;
    scoped = λ k. subst (λ c. IsScoped (add_created c p.available) p.scopes) (sym nothing) k;
  }

  IsTaken-create :
      (p : Progress) (made : Payload × (Reference × Reference))
      → IsCreation p.available resources made.0
      → IsTaken "bug.create" p (made.0, (made.0.target, made.1) ∷ p.scopes)
  IsTaken-create p made h = record {
    resolved = h.resolved;
    fresh = h.fresh;
    scoped = λ k. IsScoped-bug p.available p.scopes made.0.target made.1 k;
  }

  IsTaken-attach :
      (p : Progress) (made : Payload)
      → IsCreation p.available resources made
      → made.target.kind ≡ "attachment"
      → IsTaken "bug.attach" p (made, p.scopes)
  IsTaken-attach p made h kind = record {
    resolved = h.resolved;
    fresh = h.fresh;
    scoped = λ k. IsScoped-other p.available p.scopes made.target kind k;
  }

  abbrev is : String → String → Bool
  is action name = action ==ₛ name

  -- an action that creates nothing, by its name
  set_of :
      (action name : String) (p : Progress) (m : Result Payload)
      → ((t : Reference) → created name t ≡ none)
      → is action name ≡ true
      → OnOk (λ made. within p.available made.refs ≡ true) m
      → OnOk (IsTaken action p) (m >>= λ made. ok (made, p.scopes))
  set_of action name p m nothing e h = OnOk-bind m _ (λ made q.
      let same = (eq_iff action name).0 e in
      OnOk-ok (made, p.scopes)
        (IsTaken-set action p made (ap (λ a. created a made.target) same ∙ nothing made.target)
          (h.at q)))

  action_payload-IsTaken :
      (action : String) (value : Value) (p : Progress)
      → OnOk (IsTaken action p) (Events.action_payload server_alias resources assets action value p)
  unfolding Events.action_payload
  action_payload-IsTaken action value p =
      OnOk-cases (is action "bug.create")
        (λ e. OnOk-bind (create_payload p.available resources server_alias value) _ (λ made q.
          let h = (create_payload-IsCreation p.available resources server_alias value).at q in
          OnOk-ok _ (
            subst (λ a. IsTaken a p (made.0, (made.0.target, made.1) ∷ p.scopes))
              (sym ((eq_iff action "bug.create").0 e)) (IsTaken-create p made h.0))))
        (λ not_create.
          OnOk-cases (is action "bug.update")
            (λ e.
              set_of action "bug.update" p (update_payload p.available resources value p.scopes)
                (λ t. refl) e (update_payload-within p.available resources value p.scopes))
            (λ _.
              OnOk-cases (is action "bug.comment")
                (λ e.
                  set_of action "bug.comment" p (comment_payload p.available resources value)
                    (λ t. refl) e (comment_payload-within p.available resources value))
                (λ _.
                  OnOk-cases (is action "bug.attach")
                    (λ e. OnOk-bind (attach_payload p.available resources value assets) _ (λ made q.
                      let h = (attach_payload-IsCreation p.available resources value assets).at q in
                      OnOk-ok _ (
                        subst (λ a. IsTaken a p (made, p.scopes))
                          (sym ((eq_iff action "bug.attach").0 e))
                          (IsTaken-attach p made h.0 h.1))))
                    (λ not_attach.
                      OnOk-cases (is action "bug.worktime")
                        (λ e.
                          set_of action "bug.worktime" p
                            (worktime_payload p.available resources value) (λ t. refl) e
                            (worktime_payload-within p.available resources value))
                        (λ _.
                          OnOk-cases (is action "bug.custom-field-set")
                            (λ e.
                              set_of action "bug.custom-field-set" p
                                (custom_payload p.available resources value) (λ t. refl) e
                                (custom_payload-within p.available resources value))
                            (λ _.
                              OnOk-cases (is action "bug.flag")
                                (λ e.
                                  set_of action "bug.flag" p
                                    (flag_payload p.available resources value p.scopes) (λ t. refl)
                                    e (flag_payload-within p.available resources value p.scopes))
                                (λ _.
                                  OnOk-bind (attachment_payload p.available resources value) _
                                    (λ made q. OnOk-ok _ (
                                      IsTaken-set action p made (rw (not_create, not_attach)) (
                                        (attachment_payload-within p.available resources value).at
                                          q))))))))))

  -- what one round makes: its event is closed, and registers what it creates
  pub record IsRound (scenario_name : String) (p : Progress) (step : PlannedEvent × Progress)
      : Type 0 where
    pub closed : within p.available step.0.dependencies ≡ true
    pub fresh : IsFresh step.0.creates p.available
    pub registered : step.1.available ≡ add_created step.0.creates p.available
    pub scoped : IsScoped p.available p.scopes → IsScoped step.1.available step.1.scopes
    pub named : step.1.names ≡ step.0.name ∷ p.names
    pub new : mem_text step.0.name p.names ≡ false
    pub class : action_class_of step.0.action ≡ some step.0.action_class
    pub action_kept : get "action" step.0.expected_postcondition ≡ some (str step.0.action)
    pub marker_kept :
        get "marker" step.0.expected_postcondition ≡ some (str step.0.reconciliation_marker)
    pub marked : step.0.reconciliation_marker ≡ Events.marker_of scenario_name step.0.name

  abbrev event_keys : List String
  event_keys = "format_version" ∷ "name" ∷ "actor" ∷ "action" ∷ "payload" ∷ []

  pub plan_event-IsRound :
      (scenario_name : String) (raw : Fields) (p : Progress)
      → OnOk
          (IsRound scenario_name p)
          (Events.plan_event server_alias resources assets scenario_name raw p)
  unfolding Events.plan_event
  plan_event-IsRound scenario_name raw p =
      OnOk-bind (object_of (obj raw) event_keys event_keys) _ (λ fs _.
        OnOk-then (version_of (member "format_version" fs)) _ (λ _.
          OnOk-bind (name_of (member "name" fs)) _ (λ name _.
            OnOk-then (raise_if (mem_text name p.names) _) _ (λ unused.
              OnOk-bind (resolve (member "actor" fs) "actor" p.available) _ (λ actor acting.
                OnOk-bind (Events.action_of (member "action" fs)) _ (λ action _.
                  OnOk-bind
                    (Events.action_payload server_alias resources assets action
                      (member "payload" fs) p)
                    _
                    (λ made taken. OnOk-bind (freeze_fields made.0.payload) _ (λ payload _.
                      OnOk-bind
                        (freeze_fields (Events.postcondition_of scenario_name name action made.0)) _
                        (λ postcondition frozen.
                          OnOk-bind
                            (or_raise (action_class_of action) (invalid "unsupported action")) _
                            (λ class known.
                              let is_actor =
                                (resolve-mem p.available (member "actor" fs) "actor").at acting in
                              let kept =
                                postcondition-kept scenario_name name action made.0 frozen in
                              let t =
                                (action_payload-IsTaken action (member "payload" fs) p).at taken in
                              OnOk-ok _ (record {
                                closed =
                                    within-extend_new p.available [] (actor ∷ made.0.refs) refl
                                      (&&-true is_actor t.resolved);
                                fresh = t.fresh;
                                registered = refl;
                                scoped = t.scoped;
                                named = refl;
                                new = raise_if-ok (mem_text name p.names) _ unused;
                                class = or_raise-ok (action_class_of action) _ known;
                                action_kept = kept.0;
                                marker_kept = kept.1;
                                marked = refl;
                              })))))))))))
