-- ===== src/Refresh/Version/Order.antt =====
-- The order of version tuples (ci/base-refresh.py compares them with Python's `<` and `>=`).
use bazzite_tower.Prelude.{◌≡◌, refl, ◌⊎◌, inl, inr, true, [], ◌∷◌, arith}
use bazzite_tower.Refresh.Version.{Version, at_least}

pub at_least_refl : (a : Version) → at_least a a ≡ true
unfolding at_least
at_least_refl [] = refl
at_least_refl (x ∷ a) = ground (arith, at_least_refl a)

pub at_least-total : (a b : Version) → (at_least a b ≡ true) ⊎ (at_least b a ≡ true)
unfolding at_least
at_least-total [] [] = inl refl
at_least-total [] (y ∷ b) = inr refl
at_least-total (x ∷ a) [] = inl refl
at_least-total (x ∷ a) (y ∷ b) = ground (arith, at_least-total a b)

pub at_least_trans :
    (a b c : Version) → at_least a b ≡ true → at_least b c ≡ true → at_least a c ≡ true
unfolding at_least
at_least_trans [] [] c h k = k
at_least_trans [] (y ∷ b) c h k = cc
at_least_trans (x ∷ a) b [] h k = refl
at_least_trans (x ∷ a) [] (z ∷ c) h k = cc
at_least_trans (x ∷ a) (y ∷ b) (z ∷ c) h k = ground (arith, at_least_trans a b c)

pub at_least_antisymm : (a b : Version) → at_least a b ≡ true → at_least b a ≡ true → a ≡ b
unfolding at_least
at_least_antisymm [] [] h k = refl
at_least_antisymm [] (y ∷ b) h k = cc
at_least_antisymm (x ∷ a) [] h k = cc
at_least_antisymm (x ∷ a) (y ∷ b) h k = ground (arith, at_least_antisymm a b)
