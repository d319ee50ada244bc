-- ===== src/Prelude/Lines.antt =====
-- Texts split into lines and fields, and parts of texts.
use Prim.Native.Nat.{ℕ, zero, suc}
use Prim.Native.Char.{Char, code}
use Prim.Native.String.{String, ◌++◌ as ◌<>◌}
use mathlib.Core.Bool.{Bool, true, false, ◌&&◌, ◌||◌}
use mathlib.Core.List.{List, [], ◌∷◌}
use mathlib.Core.Option.{none, some}
use bazzite_tower.Prelude.Tests.{leb, ◌==◌, if◌then◌else◌}
use bazzite_tower.Prelude.Text.{codes, strip_prefix, same_codes, strip, is_white}

-- A character in front of the first text.
abbrev pub attach : Char → List String → List String
attach c [] = String.◌∷◌ c String.[] ∷ []
attach c (s ∷ ss) = String.◌∷◌ c s ∷ ss

-- `text.split(sep)` of one character
unfoldable pub split_on : ℕ → String → List String
split_on sep String.[] = String.[] ∷ []
split_on sep (String.◌∷◌ c s) =
    let rest = split_on sep s in if code c == sep then String.[] ∷ rest else attach c rest

-- Where `str.splitlines` ends a line.
abbrev pub is_break : ℕ → Bool
is_break c =
    (leb 10 c && leb c 13)
    || ((leb 28 c && leb c 30) || ((c == 133) || ((c == 8232) || (c == 8233))))

-- A carriage return in front of a line feed ends no line of its own.
abbrev pub is_feed_next : String → Bool
is_feed_next String.[] = false
is_feed_next (String.◌∷◌ c s) = code c == 10

-- `text.splitlines()`
unfoldable pub split_lines : String → List String
split_lines String.[] = []
split_lines (String.◌∷◌ c s) =
    let rest = split_lines s in
    if is_break (code c)
    then (if (code c == 13) && is_feed_next s then rest else String.[] ∷ rest)
    else attach c rest

-- `sep.join(texts)`
abbrev pub join : String → List String → String
join sep [] = String.[]
join sep (s ∷ []) = s
join sep (s ∷ t ∷ ts) = s <> (sep <> join sep (t ∷ ts))

-- `text[:n]`
abbrev pub text_take : ℕ → String → String
text_take zero s = String.[]
text_take (suc n) String.[] = String.[]
text_take (suc n) (String.◌∷◌ c s) = String.◌∷◌ c (text_take n s)

-- `text[n:]`
abbrev pub text_drop : ℕ → String → String
text_drop zero s = s
text_drop (suc n) String.[] = String.[]
text_drop (suc n) (String.◌∷◌ c s) = text_drop n s

abbrev pub text_length : String → ℕ
text_length String.[] = 0
text_length (String.◌∷◌ c s) = suc (text_length s)

abbrev pub is_blank : String → Bool
is_blank String.[] = true
is_blank (String.◌∷◌ c s) = false

abbrev pub is_prefix_of : List ℕ → List ℕ → Bool
is_prefix_of ps cs = elim (strip_prefix ps cs) [ none ↦ false | some rest ↦ true ]

-- `text.startswith(prefix)`
abbrev pub starts_with : String → String → Bool
starts_with prefix s = is_prefix_of (codes prefix) (codes s)

abbrev pub holds_codes : List ℕ → List ℕ → Bool
holds_codes ps [] = is_prefix_of ps []
holds_codes ps (c ∷ cs) = is_prefix_of ps (c ∷ cs) || holds_codes ps cs

-- `part in text`
abbrev pub holds_text : String → String → Bool
holds_text part s = holds_codes (codes part) (codes s)

-- `text == text.strip()`
abbrev pub is_stripped : String → Bool
is_stripped s = same_codes (codes s) (strip (codes s))

abbrev pub text_lstrip : String → String
text_lstrip String.[] = String.[]
text_lstrip (String.◌∷◌ c s) =
    let rest = text_lstrip s in if is_white (code c) then rest else String.◌∷◌ c s

abbrev pub text_front : Char → String → String
text_front c String.[] = if is_white (code c) then String.[] else String.◌∷◌ c String.[]
text_front c (String.◌∷◌ d s) = String.◌∷◌ c (String.◌∷◌ d s)

abbrev pub text_rstrip : String → String
text_rstrip String.[] = String.[]
text_rstrip (String.◌∷◌ c s) = text_front c (text_rstrip s)

-- `text.strip()`
abbrev pub text_strip : String → String
text_strip s = text_rstrip (text_lstrip s)

-- `text.partition(sep)` of one character, without the separator
abbrev pub partition : ℕ → String → String × String
partition sep String.[] = (String.[], String.[])
partition sep (String.◌∷◌ c s) =
    let (front, back) = partition sep s in
    if code c == sep then (String.[], s) else (String.◌∷◌ c front, back)
