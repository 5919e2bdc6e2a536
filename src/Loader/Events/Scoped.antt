-- ===== src/Loader/Events/Scoped.antt =====
-- `_bug_scope` finds the scope of each bug that an event may refer to.
use bzr_live.Common.{
  String, true, false, ◌≡◌, ◌≢◌, refl, sym, ◌∙◌, ap, List, [], ◌∷◌, map, eq_iff, Bool-cases, inl,
  inr, ok, All,
}
use bzr_live.Value.{Reference, eq_ref, eq_ref_iff, Value}
use bzr_live.Scenario.{Asset, PlannedResource}
use bzr_live.Loader.Checks.{mem_ref}
use bzr_live.Loader.Resolve
use bzr_live.Loader.Resource.Kind.{IsKnown, IsKnown-no_bug}
use bzr_live.Loader.Catalog
use bzr_live.Loader.Catalog.Known.{validate_resources-IsOrdered}
use bzr_live.Loader.Events.{Progress, declared, resource_ref, asset_ref}
use bzr_live.Loader.Events.Closed.{IsScoped}
use bzr_live.Loader.Events.Rounds.{Reached, Reached-IsScoped}

other_kind : (a b : Reference) → b.kind ≢ a.kind → eq_ref a b ≡ false
other_kind a b h = elim (Bool-cases (eq_ref a b)) [
  | inl e ↦ absurd (h (ap (λ (r : Reference). r.kind) (sym ((eq_ref_iff a b).0 e))))
  | inr e ↦ e
]

no_bug_asset :
    (assets : List Asset) (bug : Reference)
    → bug.kind ≡ "bug"
    → mem_ref bug (map asset_ref assets) ≡ false
no_bug_asset [] bug kind = refl
no_bug_asset (a ∷ rest) bug kind =
    let differs = λ (e : "asset" ≡ bug.kind). asset_no_bug (e ∙ kind) in
    rw (other_kind bug (asset_ref a) differs, no_bug_asset rest bug kind)
  where
    asset_no_bug : ◌≢◌ {A = String} "asset" "bug"
    asset_no_bug e = let no : false ≡ true = (eq_iff "asset" "bug").1 e in cc

no_bug_declared :
    (resources : List PlannedResource) (assets : List Asset) (bug : Reference)
    → All IsKnown resources
    → bug.kind ≡ "bug"
    → mem_ref bug (declared resources assets) ≡ false
no_bug_declared [] assets bug known kind = no_bug_asset assets bug kind
no_bug_declared (r ∷ rs) assets bug (here, rest) kind =
    let differs = λ (e : r.kind ≡ bug.kind). IsKnown-no_bug r here (e ∙ kind) in
    rw (other_kind bug (resource_ref r) differs, no_bug_declared rs assets bug rest kind)

-- `validate_events` starts from what is declared, with no scope.
abbrev pub start_of : List PlannedResource → List Asset → Progress
start_of resources assets = record {
  available = declared resources assets;
  scopes = [];
  names = [];
}

-- After any rounds over the resources of a document that was taken, a bug that is available has a
-- scope: `_bug_scope` does not raise.
pub bug_scope-total :
    (server_alias : String → String) (document : Value)
    (made : List PlannedResource × List PlannedResource) (assets : List Asset)
    (scenario_name : String) (p : Progress) (bug : Reference)
    → Catalog.validate_resources document ≡ ok made
    → Reached server_alias made.0 assets scenario_name (start_of made.0 assets) p
    → bug.kind ≡ "bug"
    → mem_ref bug p.available ≡ true
    → (scope : Reference × Reference) × (Resolve.bug_scope bug p.scopes ≡ ok scope)
bug_scope-total server_alias document made assets scenario_name p bug valid reached kind known =
    let kinds = ((validate_resources-IsOrdered document).at valid).0 in
    let start : IsScoped (declared made.0 assets) [] = λ b k m. absurd_bug b k m kinds in
    Reached-IsScoped server_alias made.0 assets scenario_name (start_of made.0 assets) p reached
      start bug kind known
  where
    absurd_bug :
        (b : Reference)
        → b.kind ≡ "bug"
        → mem_ref b (declared made.0 assets) ≡ true
        → All IsKnown made.0
        → (scope : Reference × Reference) × (Resolve.bug_scope b [] ≡ ok scope)
    absurd_bug b k m kinds =
        let no : false ≡ true = sym (no_bug_declared made.0 assets b kinds k) ∙ m in cc
