-- ===== src/Loader/Assets/Stored.antt =====
-- What `_validate_assets` takes.
use Prim.Native.String.{[], ◌∷◌}
use bzr_live.Common.{
  ℕ, String, true, false, ◌≡◌, List, [], ◌∷◌, map, ◌==ₛ◌, eq_iff, Result, ok, ok-injective,
  >>=-eq-ok, ◌>>=◌, mem_text, OnOk, OnOk-ok, OnOk-bind, OnOk-then, OnOk-err, raise_if, raise_if-ok,
  require, require-ok,
}
use mathlib.Core.Path.{subst}
use bzr_live.Value.{Value, null, bool, int, float, str, ref, tuple, list, obj, Items, nil, cons}
use bzr_live.Scenario.{Asset}
use bzr_live.Loader.Checks.{object_of, member, name_of, list_of}
use bzr_live.Loader.Assets

abbrev pub Apart : Asset → List Asset → Type 0
Apart a seen =
    (mem_text a.name (map (λ b. b.name) seen) ≡ false)
    × (mem_text a.path (map (λ b. b.path) seen) ≡ false)

module _ (sha256 : List ℕ → String) (read_asset : String → Result (List ℕ)) where
  -- the asset is below assets/, holds what is stored there, and has the hash of that
  pub record IsStored (a : Asset) : Type 0 where
    pub path : Assets.is_asset_path a.path ≡ true
    pub content : read_asset a.path ≡ ok a.content
    pub hashed : sha256 a.content ≡ a.sha256

  -- each asset is stored, under a name and a path of its own
  abbrev pub AreStored : List Asset → List Asset → Type 0
  AreStored seen [] = Unit {0}
  AreStored seen (a ∷ rest) = IsStored a × Apart a seen × AreStored (a ∷ seen) rest

  path_of-path : (v : Value) → OnOk (λ s. Assets.is_asset_path s ≡ true) (Assets.path_of v)
  unfolding Assets.path_of
  path_of-path (str s) =
      OnOk-then (require (Assets.is_asset_path s) _) _ (λ p. OnOk-ok s (require-ok _ _ p))
  path_of-path null = OnOk-err
  path_of-path (bool b) = OnOk-err
  path_of-path (int n) = OnOk-err
  path_of-path (float x) = OnOk-err
  path_of-path (ref r) = OnOk-err
  path_of-path (tuple xs) = OnOk-err
  path_of-path (list xs) = OnOk-err
  path_of-path (obj fs) = OnOk-err

  abbrev keys : List String
  keys = "name" ∷ "path" ∷ "sha256" ∷ []

  asset_of-IsStored :
      (v : Value) (seen : List Asset)
      → OnOk (λ a. IsStored a × Apart a seen) (Assets.asset_of sha256 read_asset v seen)
  unfolding Assets.asset_of
  asset_of-IsStored v seen = OnOk-bind (object_of v keys keys) _ (λ fs _.
      OnOk-bind (name_of (member "name" fs)) _ (λ name _.
        OnOk-bind (Assets.path_of (member "path" fs)) _ (λ path below.
          OnOk-bind (Assets.checksum_of (member "sha256" fs)) _ (λ checksum _.
            OnOk-then (raise_if (mem_text name (map (λ b. b.name) seen)) _) _ (λ new_name.
              OnOk-then (raise_if (mem_text path (map (λ b. b.path) seen)) _) _ (λ new_path.
                OnOk-bind (read_asset path) _ (λ content found.
                  OnOk-then (require (sha256 content ==ₛ checksum) _) _ (λ same. OnOk-ok _ (
                    record {
                      path = (path_of-path (member "path" fs)).at below;
                      content = found;
                      hashed = (eq_iff (sha256 content) checksum).0 (require-ok _ _ same);
                    },
                    (raise_if-ok _ _ new_name, raise_if-ok _ _ new_path),
                  )))))))))

  assets_loop-AreStored :
      (xs : Items) (seen : List Asset)
      → OnOk (AreStored seen) (Assets.assets_loop sha256 read_asset xs seen)
  unfolding Assets.assets_loop
  assets_loop-AreStored nil seen = OnOk-ok [] tt
  assets_loop-AreStored (cons v xs) seen =
      OnOk-bind (Assets.asset_of sha256 read_asset v seen) _ (λ a p.
        OnOk-bind (Assets.assets_loop sha256 read_asset xs (a ∷ seen)) _ (λ rest q.
          let (stored, apart) = (asset_of-IsStored v seen).at p in
          OnOk-ok (a ∷ rest) (stored, apart, (assets_loop-AreStored xs (a ∷ seen)).at q)))

  -- The assets that `_validate_assets` returns lie at canonical paths below assets/, hold the bytes
  -- that were read there, have the hash of these bytes, and have distinct names and distinct paths.
  pub validate_assets-AreStored :
      (value : Value) (made : List Asset × Items)
      → Assets.validate_assets sha256 read_asset value ≡ ok made
      → AreStored [] made.0
  unfolding Assets.validate_assets
  validate_assets-AreStored value made h =
      let (xs, _, taken) =
        >>=-eq-ok (list_of value)
          (λ xs. Assets.assets_loop sha256 read_asset xs [] >>= λ assets.
            ok (assets, Assets.table (Assets.sort_assets assets)))
          h in
      let (assets, p, q) =
        >>=-eq-ok (Assets.assets_loop sha256 read_asset xs [])
          (λ assets. ok (assets, Assets.table (Assets.sort_assets assets))) taken in
      let stored = (assets_loop-AreStored xs []).at p in
      subst (λ (m : List Asset × Items). AreStored [] m.0) (ok-injective q) stored
