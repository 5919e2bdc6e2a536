-- ===== src/Replay/Context/Quiet.antt =====
-- Which methods of replay/context.py send no mutation.
use bzr_live.Common.{
  ℕ, Bool, true, false, String, List, Option, none, some, Result, ok, err, ◌≡◌, refl, ℤ,
}
use bzr_live.Scenario.{Asset}
use bzr_live.Exec.{Exec}
use bzr_live.Exec.Keeps
use bzr_live.Exec.Keeps.{Keeps, keeps_rules}
use bzr_live.Value.{Reference, Fields}
use bzr_live.Replay.Context

-- `m` adds nothing to the log of the mutations.
abbrev pub Quiet : {W A : Type 0} → Exec (Context.Context W) A → Type 0
Quiet m = Keeps (λ c. c.sent) m

module _ {W : Type 0} (setup : Context.Setup W) where
  pub actor_email-Quiet : (actor : Reference) → Quiet (Context.actor_email setup actor)
  unfolding Context.actor_email
  actor_email-Quiet actor = search keeps_rules

  remember_key-sent :
      (name : String) (r : Result (Option String)) (c : Context.Context W)
      → (Context.remember_key setup name r c).1.sent ≡ c.sent
  unfolding Context.remember_key
  remember_key-sent name (err e) c = refl
  remember_key-sent name (ok none) c = refl
  remember_key-sent name (ok (some key)) c = refl

  key_or_ask-sent :
      (name : String) (o : Option String) (c : Context.Context W)
      → (Context.key_or_ask setup name o c).1.sent ≡ c.sent
  unfolding Context.key_or_ask
  key_or_ask-sent name (some key) c = refl
  key_or_ask-sent name none c = remember_key-sent name (setup.stored_key name) c

  pub actor_key-Quiet : (actor : Reference) → Quiet (Context.actor_key setup actor)
  unfolding Context.actor_key
  actor_key-Quiet actor = record {
    at = λ c. key_or_ask-sent actor.name (Context.lookup actor.name c.keys_seen) c;
  }

  pub client-Quiet : (actor : Reference) → Quiet (Context.client setup actor)
  unfolding Context.client
  client-Quiet actor = search (keeps_rules, actor_key-Quiet, actor_email-Quiet)

  pub on_world-Quiet : {A : Type 0} (m : Exec W A) → Quiet (Context.on_world setup m)
  unfolding Context.on_world
  on_world-Quiet m = record { at = λ c. refl }

  pub read_as-Quiet :
      (actor : Reference) (args positionals : List String) (absent : List ℤ)
      → Quiet (Context.read_as setup actor args positionals absent)
  unfolding Context.read_as
  read_as-Quiet actor args positionals absent = search (keeps_rules, client-Quiet, on_world-Quiet)

  pub read_bug-Quiet :
      (actor : Reference) (positionals : List String)
      → Quiet (Context.read_bug setup actor positionals)
  unfolding Context.read_bug
  read_bug-Quiet actor positionals = read_as-Quiet actor _ positionals _

  pub resolve-Quiet : (r : Reference) → Quiet (Context.resolve setup r)
  unfolding Context.resolve
  resolve-Quiet r = record { at = λ c. refl }

  pub adopt-Quiet : (ids : List (String × ℕ)) → Quiet (Context.adopt setup ids)
  unfolding Context.adopt
  adopt-Quiet ids = record { at = λ c. refl }

  next_file-Quiet : Quiet (Context.next_file setup)
  unfolding Context.next_file
  next_file-Quiet = record { at = λ c. refl }

  create_file-sent :
      (taken : Bool) (name : String) (content : Context.Content) (c : Context.Context W)
      → (Context.create_file setup taken name content c).1.sent ≡ c.sent
  unfolding Context.create_file
  create_file-sent true name content c = refl
  create_file-sent false name content c = refl

  write_private-Quiet :
      (name : String) (content : Context.Content) → Quiet (Context.write_private setup name content)
  unfolding Context.write_private
  write_private-Quiet name content = record { at = λ c. create_file-sent _ name content c }

  pub text_file-Quiet : (stem content : String) → Quiet (Context.text_file setup stem content)
  unfolding Context.text_file
  text_file-Quiet stem content = search (keeps_rules, next_file-Quiet, write_private-Quiet)

  pub json_file-Quiet :
      (stem : String) (document : Fields) → Quiet (Context.json_file setup stem document)
  unfolding Context.json_file
  json_file-Quiet stem document = search (keeps_rules, next_file-Quiet, write_private-Quiet)

  write_asset-Quiet : (asset : Asset) → Quiet (Context.write_asset setup asset)
  unfolding Context.write_asset
  write_asset-Quiet asset = search (keeps_rules, next_file-Quiet, write_private-Quiet)

  pub asset_file-Quiet : (name expected : String) → Quiet (Context.asset_file setup name expected)
  unfolding Context.asset_file
  asset_file-Quiet name expected = search (keeps_rules, write_asset-Quiet)

pub ruleset quiet_rules = (
  keeps_rules, client-Quiet, actor_email-Quiet, actor_key-Quiet, read_as-Quiet, read_bug-Quiet,
  resolve-Quiet, adopt-Quiet, text_file-Quiet, json_file-Quiet, asset_file-Quiet,
)
