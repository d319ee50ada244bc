-- ===== src/Refresh/Version.antt =====
-- ci/base-refresh.py, `base_version` and `kernel_version`: versions are tuples of numbers,
-- compared as Python compares tuples.
pub mod Order
use bazzite_tower.Prelude.{
  ℕ, ◌+◌, ◌*◌, ◌-◌, ◌≡◌, refl, Bool, true, false, ◌&&◌, ◌||◌, not, Option, none, some, List, [],
  ◌∷◌, String, arith, ltb, leb, ◌==◌, if◌then◌else◌, codes, strip_prefix, is_digit, Result, ok, err,
  length, value_error,
}

-- A tuple of numbers.
abbrev pub Version : Type 0
Version = List ℕ

-- The longest run of digits, and what follows it.
pub span_digits : List ℕ → List ℕ × List ℕ
span_digits [] = ([], [])
span_digits (c ∷ cs) =
    let (run, rest) = span_digits cs in if is_digit c then (c ∷ run, rest) else ([], c ∷ cs)

-- `int` of a run of digits, from the value of the digits before it.
pub decimal : ℕ → List ℕ → ℕ
decimal acc [] = acc
decimal acc (c ∷ cs) = decimal (acc * 10 + (c - b'0')) cs

-- The digits that `int` reads at most; of a longer run it raises a ValueError as well.
abbrev pub int_limit : ℕ
int_limit = 4300

-- A run of digits of a length that the pattern allows, with its value. No pattern has a digit
-- behind a run, so the longest run is the only one that can match.
pub group : (ℕ → Bool) → List ℕ → Option (ℕ × List ℕ)
unfolding span_digits decimal
group allowed cs =
    let (run, rest) = span_digits cs in
    if allowed (length run) && leb (length run) int_limit then some (decimal 0 run, rest) else none

-- A pattern is a sequence of groups and literal texts; all of the text has to match.
pub data Piece : Type 0 where
  digits : (ℕ → Bool) → Piece
  text : List ℕ → Piece

pub fullmatch : List Piece → List ℕ → Option Version
unfolding group strip_prefix
fullmatch [] [] = some []
fullmatch [] (c ∷ cs) = none
fullmatch (digits allowed ∷ ps) cs = elim (group allowed cs) [
  | none ↦ none
  | some (n, rest) ↦ elim (fullmatch ps rest) [ none ↦ none | some ns ↦ some (n ∷ ns) ]
]
fullmatch (text t ∷ ps) cs = elim (strip_prefix t cs) [
  | none ↦ none
  | some rest ↦ fullmatch ps rest
]

-- `[0-9]+`
abbrev pub one_or_more : Piece
one_or_more = digits (λ n. leb 1 n)

-- `[0-9]{2}\.[0-9]{8}`
abbrev pub base_pattern : List Piece
base_pattern = digits (λ n. n == 2) ∷ text (codes ".") ∷ digits (λ n. n == 8) ∷ []

-- `([0-9]+)\.([0-9]+)\.([0-9]+)-ogc([0-9]+)\.([0-9]+)\.fc([0-9]+)`
abbrev pub kernel_pattern : List Piece
kernel_pattern =
    one_or_more
    ∷ text (codes ".")
    ∷ one_or_more
    ∷ text (codes ".")
    ∷ one_or_more
    ∷ text (codes "-ogc")
    ∷ one_or_more
    ∷ text (codes ".")
    ∷ one_or_more
    ∷ text (codes ".fc")
    ∷ one_or_more
    ∷ []

abbrev pub or_invalid : String → Option Version → Result Version
or_invalid message none = err (value_error message)
or_invalid message (some v) = ok v

unfoldable pub base_version : String → Result Version
unfolding fullmatch
base_version value = or_invalid "invalid Bazzite version" (fullmatch base_pattern (codes value))

unfoldable pub kernel_version : String → Result Version
unfolding fullmatch
kernel_version value =
    or_invalid "invalid/unreviewed kernel version" (fullmatch kernel_pattern (codes value))

-- `a < b` of tuples: the first difference decides, and a proper prefix is smaller.
pub less : Version → Version → Bool
less [] [] = false
less [] (b ∷ s) = true
less (a ∷ r) [] = false
less (a ∷ r) (b ∷ s) = ltb a b || ((a == b) && less r s)

-- `a >= b`
unfoldable pub at_least : Version → Version → Bool
unfolding less
at_least a b = not (less a b)
