-- ===== src/Replay/Appends/Judged.antt =====
-- What the reconciliation of an append concludes from the entries that the server lists.
use bzr_live.Common.{
  ℕ, String, false, List, [], ◌∷◌, Option, none, some, Result, ok, ◌>>=◌, ◌≡◌, refl, sym, ◌∙◌, ap,
  >>=-eq-ok, some-injective, ok-injective, ◌==ₛ◌, if◌then◌else◌, eq_iff, Bool-cases, inl, inr, ◌⊎◌,
}
use mathlib.Core.Path.{subst}
use bzr_live.Value.{Value, Reference, list, Items, Fields}
use bzr_live.Exec.{Exec, lift}
use bzr_live.Replay.Create.{created_name}
use bzr_live.Exec.Inversion.{bind-ok}
use bzr_live.Journal.Record.{advance, retry, stop}
use bzr_live.Scenario.{PlannedEvent}
use bzr_live.Replay.Append
use bzr_live.Replay.Appends
use bzr_live.Replay.Context
use bzr_live.Replay.Context.{Setup, Context, show_ℕ}
use bzr_live.Replay.Handlers
use bzr_live.Replay.Invocation.{Reconciliation}
use bzr_live.Replay.Values.{usable_id, get_or_null, values_of, target_of, ref_at}

-- the listing that shows an append, and the field of its entries that holds the marker
pub record Listing : Type 0 where
  pub args : List String
  pub field : String

abbrev comments : Listing
comments = record { args = "comment" ∷ "list" ∷ []; field = "text" }

abbrev attachments : Listing
attachments = record { args = "attachment" ∷ "list" ∷ []; field = "summary" }

-- the listing of each action that appends
abbrev pub listing_of : String → Option Listing
listing_of action =
    if action ==ₛ "bug.comment"
    then some comments
    else (if action ==ₛ "bug.worktime"
        then some comments
        else (if action ==ₛ "bug.attach" then some attachments else none))

-- the bug to which an event appends
abbrev pub bug_of : PlannedEvent → Result Reference
bug_of event =
    if event.action ==ₛ "bug.comment"
    then target_of event
    else (values_of event >>= λ values. ref_at values "bug")

module _ {W : Type 0} (setup : Setup W) where
  -- The server, asked in this state for the entries of the event's bug, lists these.
  abbrev pub Lists : PlannedEvent → Listing → Context W → Items → Type 0
  Lists event l c items =
      (bug : Reference) × (bug_id : ℕ) × (bug_of event ≡ ok bug)
      × ((Context.resolve setup bug c).0 ≡ ok bug_id)
      × ((Context.read_as setup event.actor l.args (show_ℕ bug_id ∷ []) [] c).0 ≡ ok (list items))

  -- One entry of the listing, and no second one, carries the marker of the event.
  abbrev pub IsThere : PlannedEvent → Listing → Context W → Type 0
  IsThere event l c =
      (items : Items) × (fs : Fields) × Lists event l c items
      × (Append.hits items l.field (Append.token event.reconciliation_marker) ≡ ok (fs ∷ []))

  -- No entry of the listing carries the marker of the event.
  abbrev pub IsMissing : PlannedEvent → Listing → Context W → Type 0
  IsMissing event l c =
      (items : Items) × Lists event l c items
      × (Append.hits items l.field (Append.token event.reconciliation_marker) ≡ ok [])

  -- the verdict, and what the listing then holds
  abbrev pub IsJudged : PlannedEvent → Listing → Context W → Reconciliation → Type 0
  IsJudged event l c result =
      ((result.next_action ≡ advance) × IsThere event l c)
      ⊎ ((result.next_action ≡ stop) ⊎ ((result.next_action ≡ retry) × IsMissing event l c))

  one_entry-IsJudged :
      (event : PlannedEvent) (l : Listing) (c : Context W) (key : Option String) (output : Value)
      (fs : Fields)
      → IsThere event l c
      → IsJudged event l c (Append.append_result (Append.count_of (fs ∷ [])) output key)
  unfolding Append.append_result Append.count_of Append.one_entry Append.with_id
  one_entry-IsJudged event l c none output fs h = inl (refl, h)
  one_entry-IsJudged event l c (some key) output fs h = by_id (usable_id (get_or_null "id" fs))
    where
      by_id : (o : Option ℕ) → IsJudged event l c (Append.with_id key o output)
      by_id none = inr (inl refl)
      by_id (some n) = inl (refl, h)

  count_of-IsJudged :
      (event : PlannedEvent) (l : Listing) (c : Context W) (key : Option String) (items : Items)
      (found : List Fields)
      → Lists event l c items
      → Append.hits items l.field (Append.token event.reconciliation_marker) ≡ ok found
      → IsJudged event l c (Append.append_result (Append.count_of found) (list items) key)
  unfolding Append.append_result Append.count_of
  count_of-IsJudged event l c key items [] h q = inr (inr (refl, (items, h, q)))
  count_of-IsJudged event l c key items (fs ∷ []) h q =
      one_entry-IsJudged event l c key (list items) fs (items, fs, h, q)
  count_of-IsJudged event l c key items (fs ∷ gs ∷ found) h q = inr (inl refl)

  -- the verdict on the reply, by whether it is a list
  append_result-IsJudged :
      (event : PlannedEvent) (l : Listing) (c : Context W) (key : Option String) (bug : Reference)
      (bug_id : ℕ)
      → bug_of event ≡ ok bug
      → (Context.resolve setup bug c).0 ≡ ok bug_id
      → (reply : Value) (count : Option ℕ × Value)
      → (Context.read_as setup event.actor l.args (show_ℕ bug_id ∷ []) [] c).0 ≡ ok reply
      → Append.marker_count (Append.entries reply) l.field event.reconciliation_marker ≡ ok count
      → IsJudged event l c (Append.append_result count reply key)
  unfolding Append.marker_count Append.entries Append.append_result
  append_result-IsJudged event l c key bug bug_id b i (list items) count r h =
      let (found, q, q') =
        >>=-eq-ok (Append.hits items l.field (Append.token event.reconciliation_marker))
          (λ found. ok (Append.count_of found)) h in
      subst (λ n. IsJudged event l c (Append.append_result n (list items) key)) (ok-injective q')
        (count_of-IsJudged event l c key items found (bug, bug_id, b, i, r) q)
  append_result-IsJudged event l c key bug bug_id b i reply count r h =
      inr (inl (ap (λ n. (Append.append_result n reply key).next_action) (sym (ok-injective h))))

  reconcile_append-IsJudged :
      (event : PlannedEvent) (l : Listing) (c : Context W) (key : Option String) (bug : Reference)
      (bug_id : ℕ) {result : Reconciliation}
      → bug_of event ≡ ok bug
      → (Context.resolve setup bug c).0 ≡ ok bug_id
      → (Appends.reconcile_append setup event bug_id l.args l.field key c).0 ≡ ok result
      → IsJudged event l c result
  unfolding Appends.reconcile_append
  reconcile_append-IsJudged event l c key bug bug_id b i h =
      let (reply, r, h') = bind-ok (Context.read_as setup event.actor l.args _ []) _ c h in
      let (count, m, q) =
        bind-ok
          (lift (Append.marker_count (Append.entries reply) l.field event.reconciliation_marker)) _
          _ h' in
      subst (IsJudged event l c) (ok-injective q)
        (append_result-IsJudged event l c key bug bug_id b i reply count r m)

  reconcile_comment-IsJudged :
      (event : PlannedEvent) (c : Context W) {result : Reconciliation}
      → event.action ≡ "bug.comment"
      → (Appends.reconcile_comment setup event c).0 ≡ ok result
      → IsJudged event comments c result
  unfolding Appends.reconcile_comment Context.resolve
  reconcile_comment-IsJudged event c is h =
      let (bug, b, h') = bind-ok (lift (target_of event)) _ c h in
      let (bug_id, i, q) = bind-ok (Context.resolve setup bug) _ c h' in
      reconcile_append-IsJudged event comments c none bug bug_id (rw is b) i q

  -- the two others read the bug from their values
  values_bug :
      (event : PlannedEvent) (values : Fields) (bug : Reference)
      → (event.action ==ₛ "bug.comment") ≡ false
      → values_of event ≡ ok values
      → ref_at values "bug" ≡ ok bug
      → bug_of event ≡ ok bug
  values_bug event values bug other v b = rw (other, v, b)

  reconcile_attach-IsJudged :
      (event : PlannedEvent) (c : Context W) {result : Reconciliation}
      → event.action ≡ "bug.attach"
      → (Appends.reconcile_attach setup event c).0 ≡ ok result
      → IsJudged event attachments c result
  unfolding Appends.reconcile_attach Context.resolve
  reconcile_attach-IsJudged event c is h =
      let (values, v, h₁) = bind-ok (lift (values_of event)) _ c h in
      let (bug, b, h₂) = bind-ok (lift (ref_at values "bug")) _ c h₁ in
      let (bug_id, i, h₃) = bind-ok (Context.resolve setup bug) _ c h₂ in
      let (key, _, q) = bind-ok (lift (Appends.attachment_key (created_name event))) _ c h₃ in
      reconcile_append-IsJudged event attachments c (some key) bug bug_id
        (values_bug event values bug (rw is) v b) i q

  reconcile_worktime-IsJudged :
      (event : PlannedEvent) (c : Context W) {result : Reconciliation}
      → event.action ≡ "bug.worktime"
      → (Appends.reconcile_worktime setup event c).0 ≡ ok result
      → IsJudged event comments c result
  unfolding Appends.reconcile_worktime Context.resolve
  reconcile_worktime-IsJudged event c is h =
      let (values, v, h₁) = bind-ok (lift (values_of event)) _ c h in
      let (bug, b, h₂) = bind-ok (lift (ref_at values "bug")) _ c h₁ in
      let (bug_id, i, q) = bind-ok (Context.resolve setup bug) _ c h₂ in
      reconcile_append-IsJudged event comments c none bug bug_id
        (values_bug event values bug (rw is) v b) i q

  reconcile_by-comment :
      (event : PlannedEvent)
      → event.action ≡ "bug.comment"
      → Handlers.reconcile setup event ≡ Appends.reconcile_comment setup event
  unfolding Handlers.reconcile
  reconcile_by-comment event is = rw is

  reconcile_by-worktime :
      (event : PlannedEvent)
      → event.action ≡ "bug.worktime"
      → Handlers.reconcile setup event ≡ Appends.reconcile_worktime setup event
  unfolding Handlers.reconcile
  reconcile_by-worktime event is = rw is

  reconcile_by-attach :
      (event : PlannedEvent)
      → event.action ≡ "bug.attach"
      → Handlers.reconcile setup event ≡ Appends.reconcile_attach setup event
  unfolding Handlers.reconcile
  reconcile_by-attach event is = rw is

  -- the listing of an action that is known
  IsJudged-by :
      (event : PlannedEvent) (l k : Listing) (c : Context W) (name : String)
      (result : Reconciliation)
      → listing_of event.action ≡ some l
      → event.action ≡ name
      → listing_of name ≡ some k
      → IsJudged event k c result
      → IsJudged event l c result
  IsJudged-by event l k c name result known is named j =
      subst (λ k. IsJudged event k c result)
        (some-injective (sym named ∙ (sym (ap listing_of is) ∙ known))) j

  reconciled_by :
      (event : PlannedEvent) (c : Context W) {m : Exec (Context W) Reconciliation}
      {result : Reconciliation}
      → (Handlers.reconcile setup event c).0 ≡ ok result
      → Handlers.reconcile setup event ≡ m
      → (m c).0 ≡ ok result
  reconciled_by event c h e = sym (ap (λ (m : Exec (Context W) Reconciliation). (m c).0) e) ∙ h

  -- The verdict on an append that may have reached the server, by what the server lists.
  pub reconcile-IsJudged :
      (event : PlannedEvent) (l : Listing) (c : Context W) (result : Reconciliation)
      → listing_of event.action ≡ some l
      → (Handlers.reconcile setup event c).0 ≡ ok result
      → IsJudged event l c result
  reconcile-IsJudged event l c result known h = elim (Bool-cases (event.action ==ₛ "bug.comment")) [
    | inl e ↦
        let is = (eq_iff event.action "bug.comment").0 e in
        IsJudged-by event l comments c "bug.comment" result known is refl (
          reconcile_comment-IsJudged event c is
            (reconciled_by event c h (reconcile_by-comment event is)))
    | inr no_comment ↦ elim (Bool-cases (event.action ==ₛ "bug.worktime")) [
      | inl e ↦
          let is = (eq_iff event.action "bug.worktime").0 e in
          IsJudged-by event l comments c "bug.worktime" result known is refl (
            reconcile_worktime-IsJudged event c is
              (reconciled_by event c h (reconcile_by-worktime event is)))
      | inr no_worktime ↦ elim (Bool-cases (event.action ==ₛ "bug.attach")) [
        | inl e ↦
            let is = (eq_iff event.action "bug.attach").0 e in
            IsJudged-by event l attachments c "bug.attach" result known is refl (
              reconcile_attach-IsJudged event c is
                (reconciled_by event c h (reconcile_by-attach event is)))
        | inr no_attach ↦
            let nothing : listing_of event.action ≡ none =
              rw (no_comment, no_worktime, no_attach) in
            let no : none ≡ some l = sym nothing ∙ known in cc
      ]
    ]
  ]
