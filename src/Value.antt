-- ===== src/Value.antt =====
-- scenario/model.py: references, and the dynamic values of planned data and of JSON. A Python
-- `dict` and its frozen `MappingProxyType` are both `obj`.
pub mod Equality
pub mod Planned
use Prim.Native.String.{◌++◌}
use bzr_live.Common.{
  ℕ, ℤ, String, ◌≡◌, ◌↔◌, Bool, true, false, ◌&&◌, Option, none, some, arith, ◌==ₛ◌, eq_iff,
  if◌then◌else◌,
}

pub record Reference : Type 0 where
  pub kind : String
  pub name : String

-- f"{ref.kind}:{ref.name}"
abbrev pub identity : Reference → String
identity r = r.kind ++ (":" ++ r.name)

abbrev pub eq_ref : Reference → Reference → Bool
eq_ref a b = a.kind ==ₛ b.kind && a.name ==ₛ b.name

pub eq_ref_iff : (a b : Reference) → (eq_ref a b ≡ true) ↔ (a ≡ b)
eq_ref_iff a b = ground (arith, eq_iff a.kind b.kind, eq_iff a.name b.name)

-- An IEEE number: `finite m e` is m * 2 ^ e with m odd, or both zero.
pub data Float : Type 0 where
  finite : ℤ → ℤ → Float
  infinite : Bool → Float
  nan : Float

mutual
  pub data Value : Type 0 where
    null : Value
    bool : Bool → Value
    int : ℤ → Value
    float : Float → Value
    str : String → Value
    ref : Reference → Value
    tuple : Items → Value
    list : Items → Value
    obj : Fields → Value

  pub data Items : Type 0 where
    nil : Items
    cons : Value → Items → Items

  pub data Fields : Type 0 where
    end : Fields
    field : String → Value → Fields → Fields

-- `mapping.get(key)`, with `none` for a missing key
unfoldable pub get : String → Fields → Option Value
get k end = none
get k (field j v fs) = let rest = get k fs in if j ==ₛ k then some v else rest

abbrev pub is_some {ℓ} : {A : Type ℓ} → Option A → Bool
is_some none = false
is_some (some _) = true

-- `key in mapping`
unfoldable pub has : String → Fields → Bool
unfolding get
has k fs = is_some (get k fs)
