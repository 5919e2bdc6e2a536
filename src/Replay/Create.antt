-- ===== src/Replay/Create.antt =====
-- replay/actions.py: `class BugCreateHandler`, `build`, `resolved_ids` and `reconcile`.
pub mod Quiet
use Prim.Native.String.{◌++◌}
use bzr_live.Common.{
  ℕ, pos, String, List, [], ◌∷◌, map, Option, none, some, Result, ok, err, replay_error, key_error,
}
use bzr_live.Value.{Reference, Value, null, int, str, list, Items, nil, cons, Fields, end, field}
use bzr_live.Exec.{Exec, pure, lift, ◌>>=◌, for_each}
use bzr_live.Journal.Record.{advance, retry, stop}
use bzr_live.Scenario.{PlannedEvent}
use bzr_live.Replay.Context.{Setup, Context, actor_email, resolve, read_bug, json_file}
use bzr_live.Replay.Invocation.{Invocation, Reconciliation}
use bzr_live.Replay.Values.{
  values_of, ref_at, text_at, optional_ref_at, refs_at, get_or_null, object_with_id, usable_id,
  bzr_invocation,
}

-- `event.creates.name`
unfoldable pub created_name : PlannedEvent → Result String
created_name event = elim event.creates [ some r ↦ ok r.name | none ↦ err (key_error "creates") ]

texts : List String → Items
texts [] = nil
texts (s ∷ ss) = cons (str s) (texts ss)

numbers : List ℕ → Items
numbers [] = nil
numbers (n ∷ ns) = cons (int (pos n)) (numbers ns)

-- `if collection: document[key] = collection`, before the fields that come later
unless_empty : String → Items → Fields → Fields
unless_empty key nil rest = rest
unless_empty key (cons v xs) rest = field key (list (cons v xs)) rest

-- `document[key] = value`, unless the value is `None`
unless_none : String → Option String → Fields → Fields
unless_none key none rest = rest
unless_none key (some s) rest = field key (str s) rest

-- `BugCreateHandler.resolved_ids`
unfoldable pub created_ids : PlannedEvent → Value → Result (List (String × ℕ))
unfolding object_with_id usable_id get_or_null created_name
created_ids event output = elim (object_with_id output) [
  | none ↦ err (replay_error "bzr bug create returned no bug id")
  | some bug ↦ elim (usable_id (get_or_null "id" bug)) [
    | none ↦ err (replay_error "bzr bug create returned no bug id")
    | some n ↦ elim (created_name event) [ ok name ↦ ok (("bug:" ++ name, n) ∷ []) | err e ↦ err e ]
  ]
]

-- what `reconcile` makes of the reply about the alias
unfoldable pub create_verdict : String → Value → Reconciliation
unfolding object_with_id usable_id get_or_null
create_verdict name null = record { next_action = retry; output = null; resolved_ids = [] }
create_verdict name payload = elim (object_with_id payload) [
  | none ↦ record { next_action = stop; output = payload; resolved_ids = [] }
  | some bug ↦ elim (usable_id (get_or_null "id" bug)) [
    | none ↦ record { next_action = stop; output = payload; resolved_ids = [] }
    | some n ↦ record {
      next_action = advance;
      output = payload;
      resolved_ids = ("bug:" ++ name, n) ∷ [];
    }
  ]
]

module _ {W : Type 0} (setup : Setup W) where
  optional_email : Option Reference → Exec (Context W) (Option String)
  unfolding ◌>>=◌
  optional_email none = pure none
  optional_email (some actor) = do email ← actor_email setup actor; pure (some email)

  -- `BugCreateHandler.build`
  unfoldable pub build_create : PlannedEvent → Exec (Context W) Invocation
  unfolding values_of ref_at text_at optional_ref_at refs_at optional_email texts numbers
      unless_empty unless_none bzr_invocation for_each ◌>>=◌
  build_create event = do
    values ← lift (values_of event)
    alias ← lift (text_at values "server_alias")
    product ← lift (ref_at values "product")
    component ← lift (ref_at values "component")
    summary ← lift (text_at values "summary")
    description ← lift (text_at values "description")
    version ← lift (ref_at values "version")
    milestone ← lift (optional_ref_at values "milestone")
    assignee_ref ← lift (optional_ref_at values "assignee")
    assignee ← optional_email assignee_ref
    cc_refs ← lift (refs_at values "cc")
    cc ← for_each (actor_email setup) cc_refs
    keywords ← lift (refs_at values "keywords")
    groups ← lift (refs_at values "groups")
    blocks_refs ← lift (refs_at values "blocks")
    blocks ← for_each (resolve setup) blocks_refs
    depends_refs ← lift (refs_at values "depends_on")
    depends ← for_each (resolve setup) depends_refs
    let optional =
        unless_none "target_milestone" (elim milestone [ none ↦ none | some r ↦ some r.name ])
          (unless_none "assignee" assignee (
            unless_empty "cc" (texts cc) (
              unless_empty "keywords" (texts (map (λ r. r.name) keywords)) (
                unless_empty "groups" (texts (map (λ r. r.name) groups)) (
                  unless_empty "blocks" (numbers blocks)
                    (unless_empty "depends_on" (numbers depends) end))))))
    let document = field "alias" (str alias) (
        field "product" (str product.name) (
          field "component" (str component.name) (
            field "summary" (str summary) (
              field "description" (str description)
                (field "version" (str version.name) optional)))))
    path ← json_file setup ("create-" ++ event.name) document
    pure (bzr_invocation "bug create" ("bug" ∷ "create" ∷ ("--from-json=" ++ path) ∷ []) [])

  -- `BugCreateHandler.reconcile`
  unfoldable pub reconcile_create : PlannedEvent → Exec (Context W) Reconciliation
  unfolding values_of text_at created_name create_verdict ◌>>=◌
  reconcile_create event = do
    values ← lift (values_of event)
    alias ← lift (text_at values "server_alias")
    payload ← read_bug setup event.actor (alias ∷ [])
    name ← lift (created_name event)
    pure (create_verdict name payload)
