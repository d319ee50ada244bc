-- ===== src/Prelude/Dicts.antt =====
-- Python's dict with its order of insertion, over a Boolean equality of keys.
use mathlib.Core.Path.{◌≡◌}
use mathlib.Core.Logic.{◌↔◌}
use mathlib.Core.Bool.{Bool, true, false}
use mathlib.Core.List.{List, [], ◌∷◌}
use mathlib.Core.Option.{Option, none, some}
use native.Mathlib.Omega.{arith}
use bazzite_tower.Prelude.Tests.{if◌then◌else◌}

abbrev pub Dict : Type 0 → Type 0 → Type 0
Dict K V = List (K × V)

module _ {K V : Type 0} (same : K → K → Bool) where
  -- `d.get(key)`
  abbrev pub find : K → Dict K V → Option V
  find k [] = none
  find k ((j, v) ∷ d) = if same j k then some v else find k d

  -- `d[key] = v`: a known key keeps its place, and a new one stands last.
  abbrev pub put : K → V → Dict K V → Dict K V
  put k v [] = (k, v) ∷ []
  put k v ((j, w) ∷ d) = let rest = put k v d in if same j k then (j, v) ∷ d else (j, w) ∷ rest

  module _ (same_iff : (a b : K) → (same a b ≡ true) ↔ (a ≡ b)) where
    pub find-put : (k : K) (v : V) (d : Dict K V) → find k (put k v d) ≡ some v
    find-put k v [] = ground (arith, same_iff k k)
    find-put k v ((j, w) ∷ d) = ground (arith, find-put k v d)

    pub find-put_other :
        (k j : K) (v : V) (d : Dict K V) → same k j ≡ false → find j (put k v d) ≡ find j d
    find-put_other k j v [] h = ground arith
    find-put_other k j v ((i, w) ∷ d) h =
        ground (arith, same_iff i k, same_iff i j, same_iff k j, find-put_other k j v d h)
