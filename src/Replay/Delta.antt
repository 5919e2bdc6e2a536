-- ===== src/Replay/Delta.antt =====
-- replay/actions.py: `_delta`, for any test of equality between items.
pub mod Laws
use bzr_live.Common.{Bool, true, false, List, [], ◌∷◌, any_of, if◌then◌else◌}

module _ {ℓ} {A : Type ℓ} (eq : A → A → Bool) where
  -- `item in items`
  abbrev pub mem : A → List A → Bool
  mem x ys = any_of (eq x) ys

  -- the items of the first list that are not in the second
  unfoldable pub without : List A → List A → List A
  without [] ys = []
  without (x ∷ xs) ys = let rest = without xs ys in if mem x ys then rest else x ∷ rest

  -- `_delta`: what to add to `observed`, and what to remove from it, to reach `declared`
  unfoldable pub delta : List A → List A → List A × List A
  unfolding without
  delta declared observed = (without declared observed, without observed declared)
