-- ===== src/Prelude/Order.antt =====
-- Linear orders that are computed, on numbers, lists, texts and what maps into them one to one.
use Prim.Native.Nat.{ℕ}
use Prim.Native.String.{String}
use text.Mathlib.TextEquality.{Char-path}
use mathlib.Core.Path.{◌≡◌, refl, ap}
use mathlib.Core.Logic.{◌⊎◌, inl, inr}
use mathlib.Core.Bool.{Bool, true, false}
use mathlib.Core.List.{List, [], ◌∷◌}
use native.Mathlib.Omega.{arith}
use bazzite_tower.Prelude.Tests.{leb, if◌then◌else◌}
use bazzite_tower.Prelude.Lists.{get_or, drop}
use bazzite_tower.Prelude.Text.{codes}

-- `a <= b`, with the laws of a linear order.
pub record Ordered (A : Type 0) : Type 0 where
  pub before : A → A → Bool
  pub total : (a b : A) → (before a b ≡ true) ⊎ (before b a ≡ true)
  pub trans : (a b c : A) → before a b ≡ true → before b c ≡ true → before a c ≡ true
  pub antisymm : (a b : A) → before a b ≡ true → before b a ≡ true → a ≡ b

pub before_refl : {A : Type 0} (o : Ordered A) (a : A) → o.before a a ≡ true
before_refl o a = elim (o.total a a) [ inl h ↦ h | inr h ↦ h ]

pub leb_total : (a b : ℕ) → (leb a b ≡ true) ⊎ (leb b a ≡ true)
leb_total a b = ground arith

pub leb_trans : (a b c : ℕ) → leb a b ≡ true → leb b c ≡ true → leb a c ≡ true
leb_trans a b c h k = ground arith

pub leb_antisymm : (a b : ℕ) → leb a b ≡ true → leb b a ≡ true → a ≡ b
leb_antisymm a b h k = ground arith

instance abbrev pub number_order : Ordered ℕ
number_order = record {
  before = leb;
  total = leb_total;
  trans = leb_trans;
  antisymm = leb_antisymm;
}

module _ {A : Type 0} ⦃o : Ordered A⦄ where
  -- Python's order of tuples and texts: the first difference decides, a proper prefix is smaller.
  abbrev pub lex_before : List A → List A → Bool
  lex_before [] ys = true
  lex_before (x ∷ xs) [] = false
  lex_before (x ∷ xs) (y ∷ ys) =
      let rest = lex_before xs ys in
      if o.before x y then (if o.before y x then rest else true) else false

  pub lex_total : (xs ys : List A) → (lex_before xs ys ≡ true) ⊎ (lex_before ys xs ≡ true)
  lex_total [] ys = inl refl
  lex_total (x ∷ xs) [] = inr refl
  lex_total (x ∷ xs) (y ∷ ys) = ground (arith, o.total x y, lex_total xs ys)

  pub lex_antisymm : (xs ys : List A) → lex_before xs ys ≡ true → lex_before ys xs ≡ true → xs ≡ ys
  lex_antisymm [] [] h k = refl
  lex_antisymm [] (y ∷ ys) h k = cc
  lex_antisymm (x ∷ xs) [] h k = cc
  lex_antisymm (x ∷ xs) (y ∷ ys) h k = ground (arith, o.antisymm x y, lex_antisymm xs ys)

  pub lex_trans :
      (xs ys zs : List A)
      → lex_before xs ys ≡ true
      → lex_before ys zs ≡ true
      → lex_before xs zs ≡ true
  lex_trans [] ys zs h k = refl
  lex_trans (x ∷ xs) [] zs h k = cc
  lex_trans (x ∷ xs) (y ∷ ys) [] h k = cc
  lex_trans (x ∷ xs) (y ∷ ys) (z ∷ zs) h k =
      ground (arith, o.trans x y z, o.trans y z x, o.trans z x y, lex_trans xs ys zs)

  instance abbrev pub lex_order : Ordered (List A)
  lex_order = record {
    before = lex_before;
    total = lex_total;
    trans = lex_trans;
    antisymm = lex_antisymm;
  }

-- The order of what a key tells apart.
abbrev pub order_by :
    {A K : Type 0} (o : Ordered K) (key : A → K) → ((a b : A) → key a ≡ key b → a ≡ b) → Ordered A
order_by o key apart = record {
  before = λ a b. o.before (key a) (key b);
  total = λ a b. o.total (key a) (key b);
  trans = λ a b c. o.trans (key a) (key b) (key c);
  antisymm = λ a b h k. apart a b (o.antisymm (key a) (key b) h k);
}

pub codes_injective : (s t : String) → codes s ≡ codes t → s ≡ t
codes_injective String.[] String.[] e = refl
codes_injective String.[] (String.◌∷◌ d t) e = cc
codes_injective (String.◌∷◌ c s) String.[] e = cc
codes_injective (String.◌∷◌ c s) (String.◌∷◌ d t) e =
    let first : c ≡ d = Char-path c d (ap (λ l. get_or l 0 0) e) in
    let others : s ≡ t = codes_injective s t (ap (drop 1) e) in cc

instance abbrev pub text_order : Ordered String
text_order = order_by lex_order codes codes_injective
