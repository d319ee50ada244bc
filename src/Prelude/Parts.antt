-- ===== src/Prelude/Parts.antt =====
-- Texts that are put together from parts and taken apart again.
use Prim.Native.Nat.{ℕ}
use Prim.Native.Char.{Char, code}
use Prim.Native.String.{String, ◌++◌ as ◌<>◌}
use Prim.Native.String.append
use mathlib.Core.Path.{◌≡◌, refl, ap, ◌∙◌}
use mathlib.Core.Bool.{Bool, true, false, ◌&&◌, not}
use mathlib.Core.List.{[], ◌∷◌}
use native.Mathlib.Omega.{arith}
use bazzite_tower.Prelude.Tests.{◌==◌}
use bazzite_tower.Prelude.Lines.{split_on, is_break, split_lines}

-- No character of the text is one of those.
abbrev pub is_free : (ℕ → Bool) → String → Bool
is_free bad String.[] = true
is_free bad (String.◌∷◌ c s) = not (bad (code c)) && is_free bad s

pub nil_append : (t : String) → String.[] <> t ≡ t
nil_append t = λ i. append.nil t i

pub cons_append : (c : Char) (s t : String) → String.◌∷◌ c s <> t ≡ String.◌∷◌ c (s <> t)
cons_append c s t = λ i. append.cons c s t i

pub is_free-append :
    (bad : ℕ → Bool) (s t : String)
    → is_free bad s ≡ true
    → is_free bad t ≡ true
    → is_free bad (s <> t) ≡ true
is_free-append bad String.[] t h k = ap (is_free bad) (nil_append t) ∙ k
is_free-append bad (String.◌∷◌ c s) t h k =
    let rest = is_free-append bad s t in ap (is_free bad) (cons_append c s t) ∙ ground arith

pub split_on-one :
    (sep : ℕ) (s : String) → is_free (λ c. c == sep) s ≡ true → split_on sep s ≡ s ∷ []
unfolding split_on
split_on-one sep String.[] h = refl
split_on-one sep (String.◌∷◌ c s) h =
    let rest : split_on sep s ≡ s ∷ [] = split_on-one sep s (ground arith) in
    let differ : (code c == sep) ≡ false = ground arith in rw (differ, rest) refl

pub split_on-append :
    (sep : ℕ) (s : String) (c : Char) (t : String)
    → is_free (λ c. c == sep) s ≡ true
    → code c ≡ sep
    → split_on sep (s <> String.◌∷◌ c t) ≡ s ∷ split_on sep t
unfolding split_on
split_on-append sep String.[] c t h e =
    let same : (code c == sep) ≡ true = ground arith in
    ap (split_on sep) (nil_append (String.◌∷◌ c t)) ∙ rw same refl
split_on-append sep (String.◌∷◌ d s) c t h e =
    let rest : split_on sep (s <> String.◌∷◌ c t) ≡ s ∷ split_on sep t =
      split_on-append sep s c t (ground arith) e in
    let differ : (code d == sep) ≡ false = ground arith in
    ap (split_on sep) (cons_append d s (String.◌∷◌ c t)) ∙ rw (differ, rest) refl

pub split_lines-append :
    (s : String) (c : Char) (t : String)
    → is_free is_break s ≡ true
    → code c ≡ 10
    → split_lines (s <> String.◌∷◌ c t) ≡ s ∷ split_lines t
unfolding split_lines
split_lines-append String.[] c t h e =
    let feed : is_break (code c) ≡ true = ground arith in
    let no_return : (code c == 13) ≡ false = ground arith in
    ap split_lines (nil_append (String.◌∷◌ c t)) ∙ rw (feed, no_return) refl
split_lines-append (String.◌∷◌ d s) c t h e =
    let rest : split_lines (s <> String.◌∷◌ c t) ≡ s ∷ split_lines t =
      split_lines-append s c t (ground arith) e in
    let differ : is_break (code d) ≡ false = ground arith in
    ap split_lines (cons_append d s (String.◌∷◌ c t)) ∙ rw (differ, rest) refl
