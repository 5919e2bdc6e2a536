-- ===== src/Loader/Assets.antt =====
-- scenario/loader.py: `_validate_assets`. Reading a file below the scenario's directory and the
-- hash of its bytes are parameters.
pub mod Stored
pub mod Split
use bzr_live.Common.{
  ℕ, String, Bool, true, false, ◌&&◌, ◌||◌, not, List, [], ◌∷◌, map, Option, none, some, ◌==ₛ◌,
  ◌==◌, any_of, mem_text, is_lower, is_upper, count_char, Result, ok, err, invalid, ◌>>=◌, ◌>>◌,
  raise_if, require, if◌then◌else◌,
}
use Prim.Native.Char.{Char, code}
use Prim.Native.Nat.{Ordering}
use Prim.Native.String
use Prim.Native.String.{[], ◌∷◌}
use bzr_live.Value.{Value, str, obj, Items, nil, cons, Fields, end, field}
use bzr_live.Patterns.{is_sha256}
use bzr_live.Scenario.{Asset}
use bzr_live.Loader.Checks.{object_of, member, name_of, list_of}

-- put a character before the first part
before : Char → List String → List String
before c [] = (c ∷ String.[]) ∷ []
before c (part ∷ parts) = (c ∷ part) ∷ parts

-- `s.split(ch)` for one character, by its code
unfoldable pub split_all : ℕ → String → List String
unfolding before
split_all c String.[] = "" ∷ []
split_all c (d ∷ s) = let rest = split_all c s in if code d == c then "" ∷ rest else before d rest

-- `[A-Za-z]:` at the start
has_drive : String → Bool
has_drive (a ∷ b ∷ s) = (is_lower (code a) || is_upper (code a)) && code b == b':'
has_drive _ = false

-- the parts begin with `assets`, and there is another one
below_assets : List String → Bool
below_assets (first ∷ second ∷ parts) = first ==ₛ "assets"
below_assets _ = false

abbrev is_dots : String → Bool
is_dots part = mem_text part ("" ∷ "." ∷ ".." ∷ [])

-- A canonical path below assets/. One that starts with a slash has an empty first part.
unfoldable pub is_asset_path : String → Bool
unfolding split_all has_drive below_assets count_char
is_asset_path path =
    let parts = split_all b'/' path in
    count_char 0 path == 0
    && count_char b'\\' path == 0
    && not (has_drive path)
    && below_assets parts
    && not (any_of is_dots parts)

path_of : Value → Result String
unfolding is_asset_path
path_of (str s) = do require (is_asset_path s) "must be a canonical path below assets/"; ok s
path_of v = err (invalid "must be a canonical path below assets/")

checksum_of : Value → Result String
unfolding is_sha256
checksum_of (str s) = do require (is_sha256 s) "must be a lowercase SHA-256"; ok s
checksum_of v = err (invalid "must be a lowercase SHA-256")

-- by the path
insert_asset : Asset → List Asset → List Asset
insert_asset a [] = a ∷ []
insert_asset a (b ∷ bs) =
    let later : List Asset = b ∷ insert_asset a bs in
    elim (String.compare a.path b.path) [ Ordering.gt ↦ later | _ ↦ a ∷ b ∷ bs ]

-- `normalized.sort`
sort_assets : List Asset → List Asset
unfolding insert_asset
sort_assets [] = []
sort_assets (a ∷ rest) = insert_asset a (sort_assets rest)

-- an entry of the asset table
abbrev asset_entry : Asset → Value
asset_entry a =
    obj (field "name" (str a.name) (field "path" (str a.path) (field "sha256" (str a.sha256) end)))

table : List Asset → Items
table [] = nil
table (a ∷ rest) = cons (asset_entry a) (table rest)

module _ (sha256 : List ℕ → String) (read_asset : String → Result (List ℕ)) where
  -- one round of the loop of `_validate_assets`
  unfoldable pub asset_of : Value → List Asset → Result Asset
  unfolding object_of member name_of path_of checksum_of
  asset_of value seen = do
    fs ← object_of value ("name" ∷ "path" ∷ "sha256" ∷ []) ("name" ∷ "path" ∷ "sha256" ∷ [])
    name ← name_of (member "name" fs)
    path ← path_of (member "path" fs)
    checksum ← checksum_of (member "sha256" fs)
    raise_if (mem_text name (map (λ a. a.name) seen)) "duplicate asset name"
    raise_if (mem_text path (map (λ a. a.path) seen)) "duplicate asset path"
    content ← read_asset path
    require (sha256 content ==ₛ checksum) "does not match the asset bytes"
    ok (record { name = name; path = path; sha256 = checksum; content = content })

  -- the loop of `_validate_assets`, after the assets that were read
  unfoldable pub assets_loop : Items → List Asset → Result (List Asset)
  unfolding asset_of
  assets_loop nil seen = ok []
  assets_loop (cons value xs) seen = do
    a ← asset_of value seen
    rest ← assets_loop xs (a ∷ seen)
    ok (a ∷ rest)

  -- `_validate_assets`: the assets, and the table of them by their paths
  unfoldable pub validate_assets : Value → Result (List Asset × Items)
  unfolding list_of assets_loop sort_assets table
  validate_assets value = do
    xs ← list_of value
    assets ← assets_loop xs []
    ok (assets, table (sort_assets assets))
