-- ===== src/Prelude/Sort.antt =====
-- `sorted`: the items in order. A stable sort, by insertion; what it returns does not depend on the
-- order of the items.
use mathlib.Core.Path.{◌≡◌, refl, ◌∙◌, subst}
use mathlib.Core.Logic.{inl, inr}
use mathlib.Core.Bool.{Bool, true}
use mathlib.Core.List.{List, [], ◌∷◌, Permᴰ}
use mathlib.Core.List.Permᴰ
use native.Mathlib.Omega.{arith}
use bazzite_tower.Prelude.Tests.{if◌then◌else◌, Bool-cases}
use bazzite_tower.Prelude.Lists.{All}
use bazzite_tower.Prelude.Order.{Ordered}

module _ {A : Type 0} (before : A → A → Bool) where
  -- In front of the first item that is not smaller.
  abbrev pub insert_by : A → List A → List A
  insert_by x [] = x ∷ []
  insert_by x (y ∷ ys) = let rest = insert_by x ys in if before x y then x ∷ y ∷ ys else y ∷ rest

  abbrev pub sorted_by : List A → List A
  sorted_by [] = []
  sorted_by (x ∷ xs) = insert_by x (sorted_by xs)

  insert_by-Perm : (x : A) (ys : List A) → Permᴰ (x ∷ ys) (insert_by x ys)
  insert_by-Perm x [] = Permᴰ.refl (x ∷ [])
  insert_by-Perm x (y ∷ ys) = elim (Bool-cases (before x y)) [
    | inl e ↦ rw e (Permᴰ.refl (x ∷ y ∷ ys))
    | inr e ↦ rw e (Permᴰ.trans (Permᴰ.swap refl refl) (Permᴰ.cons refl (insert_by-Perm x ys)))
  ]

  pub sorted_by-Perm : (xs : List A) → Permᴰ xs (sorted_by xs)
  sorted_by-Perm [] = Permᴰ.nil
  sorted_by-Perm (x ∷ xs) =
      Permᴰ.trans (Permᴰ.cons refl (sorted_by-Perm xs)) (insert_by-Perm x (sorted_by xs))

module _ {A : Type 0} ⦃o : Ordered A⦄ where
  abbrev pub insert : A → List A → List A
  insert x ys = insert_by o.before x ys

  abbrev pub sorted : List A → List A
  sorted xs = sorted_by o.before xs

  abbrev pub IsSorted : List A → Type 0
  IsSorted [] = Unit
  IsSorted (x ∷ xs) = All (λ y. o.before x y ≡ true) xs × IsSorted xs

  -- The order of two insertions does not count.
  insert_comm : (x y : A) (zs : List A) → insert x (insert y zs) ≡ insert y (insert x zs)
  insert_comm x y [] = ground (arith, o.total x y, o.antisymm x y)
  insert_comm x y (z ∷ zs) = ground (
    arith,
    o.total x y,
    o.antisymm x y,
    o.trans x y z,
    o.trans y x z,
    o.total x z,
    o.total y z,
    insert_comm x y zs,
  )

  pub sorted-eq_of_Perm : {xs ys : List A} → Permᴰ xs ys → sorted xs ≡ sorted ys
  sorted-eq_of_Perm Permᴰ.nil = refl
  sorted-eq_of_Perm (Permᴰ.cons {a} {b} e p) = cc (sorted-eq_of_Perm p)
  sorted-eq_of_Perm (Permᴰ.swap {a} {b} {l} e f) = insert_comm a b (sorted l) ∙ cc
  sorted-eq_of_Perm (Permᴰ.trans p q) = sorted-eq_of_Perm p ∙ sorted-eq_of_Perm q

  pub All-Perm {ℓ} : (P : A → Type ℓ) {xs ys : List A} → Permᴰ xs ys → All P xs → All P ys
  All-Perm P Permᴰ.nil h = tt
  All-Perm P (Permᴰ.cons e p) (h, hs) = (subst P e h, All-Perm P p hs)
  All-Perm P (Permᴰ.swap e f) (h, (k, hs)) = (subst P f k, (subst P e h, hs))
  All-Perm P (Permᴰ.trans p q) h = All-Perm P q (All-Perm P p h)

  All-map {ℓ κ} :
      {P : A → Type ℓ} {Q : A → Type κ}
      → ((x : A) → P x → Q x)
      → (xs : List A) → All P xs
      → All Q xs
  All-map f [] h = tt
  All-map f (x ∷ xs) (h, hs) = (f x h, All-map f xs hs)

  insert-IsSorted : (x : A) (ys : List A) → IsSorted ys → IsSorted (insert x ys)
  insert-IsSorted x [] h = (tt, tt)
  insert-IsSorted x (y ∷ ys) (h, hs) = elim (Bool-cases (o.before x y)) [
    | inl e ↦ rw e ((e, All-map (λ z. o.trans x y z e) ys h), (h, hs))
    | inr e ↦
        let yx : o.before y x ≡ true = elim (o.total x y) [ inl f ↦ cc | inr f ↦ f ] in
        rw e (
          All-Perm (λ z. o.before y z ≡ true) (insert_by-Perm o.before x ys) (yx, h),
          insert-IsSorted x ys hs,
        )
  ]

  pub sorted-IsSorted : (xs : List A) → IsSorted (sorted xs)
  sorted-IsSorted [] = tt
  sorted-IsSorted (x ∷ xs) = insert-IsSorted x (sorted xs) (sorted-IsSorted xs)
