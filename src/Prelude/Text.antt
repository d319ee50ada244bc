-- ===== src/Prelude/Text.antt =====
-- Texts: the native `String` where whole texts are compared, its code points where they are read.
use Prim.Native.Nat.{ℕ}
use Prim.Native.Char.{code}
use Prim.Native.String.{String}
use mathlib.Core.Path.{◌≡◌, refl}
use mathlib.Core.Logic.{◌↔◌}
use mathlib.Core.Bool.{Bool, true, false, ◌&&◌, ◌||◌}
use mathlib.Core.List.{List, [], ◌∷◌, ◌++◌}
use mathlib.Core.Option.{Option, none, some}
use native.Mathlib.Omega.{arith}
use text.Mathlib.Text.{◌==◌ as text_beq}
use text.Mathlib.TextEquality.{eq_iff}
use bazzite_tower.Prelude.Tests.{leb, ◌==◌, if◌then◌else◌}

infix 50 ◌=s=◌
-- `==` on texts.
abbrev pub ◌=s=◌ : String → String → Bool
s =s= t = text_beq s t

pub =s=_iff : (s t : String) → ((s =s= t) ≡ true) ↔ (s ≡ t)
=s=_iff s t = eq_iff s t

-- The code points of a text. `String` has its own `[]` and `∷`.
abbrev pub codes : String → List ℕ
codes String.[] = []
codes (String.◌∷◌ c s) = code c ∷ codes s

-- `x in (a, b, ...)` for texts.
abbrev pub member : String → List String → Bool
member s [] = false
member s (t ∷ ts) = (s =s= t) || member s ts

-- `[0-9]`
abbrev pub is_digit : ℕ → Bool
is_digit c = leb b'0' c && leb c b'9'

-- The text behind a prefix.
unfoldable pub strip_prefix : List ℕ → List ℕ → Option (List ℕ)
strip_prefix [] cs = some cs
strip_prefix (p ∷ ps) [] = none
strip_prefix (p ∷ ps) (c ∷ cs) = let rest = strip_prefix ps cs in if p == c then rest else none

pub strip_prefix-append : (t rest : List ℕ) → strip_prefix t (t ++ rest) ≡ some rest
unfolding strip_prefix
strip_prefix-append [] rest = refl
strip_prefix-append (c ∷ t) rest = ground (arith, strip_prefix-append t rest)

pub strip_prefix_parts : (t cs rest : List ℕ) → strip_prefix t cs ≡ some rest → cs ≡ t ++ rest
unfolding strip_prefix
strip_prefix_parts [] cs rest h = ground arith
strip_prefix_parts (c ∷ t) [] rest h = cc
strip_prefix_parts (c ∷ t) (d ∷ cs) rest h = ground (arith, strip_prefix_parts t cs rest)

-- Two texts of code points are the same.
unfoldable pub same_codes : List ℕ → List ℕ → Bool
same_codes [] [] = true
same_codes (a ∷ xs) (b ∷ ys) = (a == b) && same_codes xs ys
same_codes _ _ = false

pub same_codes_eq : (xs ys : List ℕ) → same_codes xs ys ≡ true → xs ≡ ys
unfolding same_codes
same_codes_eq [] [] h = refl
same_codes_eq [] (b ∷ ys) h = cc
same_codes_eq (a ∷ xs) [] h = cc
same_codes_eq (a ∷ xs) (b ∷ ys) h = ground (arith, same_codes_eq xs ys)

pub same_codes_self : (xs : List ℕ) → same_codes xs xs ≡ true
unfolding same_codes
same_codes_self [] = refl
same_codes_self (a ∷ xs) = ground (arith, same_codes_self xs)

-- What `str.strip` takes away.
abbrev pub is_white : ℕ → Bool
is_white c =
    (leb 9 c && leb c 13)
    || ((leb 28 c && leb c 32)
        || ((c == 133)
            || ((c == 160)
                || ((c == 5760)
                    || ((leb 8192 c && leb c 8202)
                        || ((c == 8232)
                            || ((c == 8233) || ((c == 8239) || ((c == 8287) || (c == 12288))))))))))

abbrev pub lstrip : List ℕ → List ℕ
lstrip [] = []
lstrip (c ∷ cs) = let rest = lstrip cs in if is_white c then rest else c ∷ cs

abbrev pub with_front : ℕ → List ℕ → List ℕ
with_front c [] = if is_white c then [] else c ∷ []
with_front c (d ∷ ds) = c ∷ d ∷ ds

abbrev pub rstrip : List ℕ → List ℕ
rstrip [] = []
rstrip (c ∷ cs) = with_front c (rstrip cs)

-- `text.strip()`
abbrev pub strip : List ℕ → List ℕ
strip cs = rstrip (lstrip cs)
