-- ===== src/Tests.antt =====
-- Concrete inputs for the theorems: a codec that can be run, in place of `json` and `hashlib` (documents
-- as codes for a stack machine), and under it the systems and the theorems at them.
pub mod Fixture
mod Examples
mod Reports
mod Inventories
mod Manifests
mod Publications
mod Policies
mod Refreshes
mod Gates
mod Attestations
mod Daemons
mod Bridges
mod Reboots
mod Images
mod Contracts
mod Accounts
use Prim.Native.Nat.{compare, Ordering}
use Prim.Native.Char.{Char, char, code, IsScalar}
use Prim.Native.String.append
use text.Mathlib.TextEquality.{Char-path}
use bazzite_tower.Prelude.{
  ℕ, zero, suc, ◌+◌, String, ◌≡◌, refl, sym, ap, ◌∙◌, Bool, true, false, Option, none, some, List,
  [], ◌∷◌, ◌++◌, ◌==◌, if◌then◌else◌, Json, null, bool, num, whole, real, str, arr, obj, Items, nil,
  cons, Fields, end, field, codes, arith, same_codes,
}

-- A cell of the machine's stack.
data Cell : Type 0 where
  value : Json → Cell
  items : Items → Cell
  fields : Fields → Cell

abbrev IsLess : Ordering → Type 0
IsLess Ordering.lt = Unit
IsLess Ordering.eq = ⊥
IsLess Ordering.gt = ⊥

abbrev AreLess : Ordering → Ordering → Type 0
AreLess Ordering.lt o = IsLess o
AreLess Ordering.eq _ = ⊥
AreLess Ordering.gt _ = ⊥

abbrev Scalar : Ordering → Ordering → Ordering → Type 0
Scalar Ordering.lt _ _ = Unit
Scalar Ordering.eq o p = AreLess o p
Scalar Ordering.gt o p = AreLess o p

unfoldable less_text : (n : ℕ) (p q : Ordering) → (AreLess p q → IsScalar n) → String → String
less_text n Ordering.lt Ordering.lt k s = String.◌∷◌ (char n (k tt)) s
less_text n _ _ k s = s

-- The character of a code in front of a text; a code that is no character is left out.
unfoldable char_text : (n : ℕ) (o p q : Ordering) → (Scalar o p q → IsScalar n) → String → String
unfolding less_text
char_text n Ordering.lt p q k s = String.◌∷◌ (char n (k tt)) s
char_text n Ordering.eq p q k s = less_text n p q k s
char_text n Ordering.gt p q k s = less_text n p q k s

unfoldable text_of : List ℕ → String
unfolding char_text
text_of [] = String.[]
text_of (n ∷ ns) =
    char_text n (compare n 55296) (compare 57343 n) (compare n 1114112) (λ x. x) (text_of ns)

less_text-scalar :
    (n : ℕ) (p q : Ordering) (k : AreLess p q → IsScalar n) (x : AreLess p q) (c : IsScalar n)
    (s : String)
    → less_text n p q k s ≡ String.◌∷◌ (char n c) s
unfolding less_text
less_text-scalar n Ordering.lt Ordering.lt k x c s =
    ap (λ d. String.◌∷◌ d s) (Char-path (char n (k tt)) (char n c) refl)
less_text-scalar n Ordering.lt Ordering.eq k x c s = absurd x
less_text-scalar n Ordering.lt Ordering.gt k x c s = absurd x
less_text-scalar n Ordering.eq q k x c s = absurd x
less_text-scalar n Ordering.gt q k x c s = absurd x

char_text-Scalar :
    (n : ℕ) (o p q : Ordering) (k : Scalar o p q → IsScalar n) (x : Scalar o p q) (c : IsScalar n)
    (s : String)
    → char_text n o p q k s ≡ String.◌∷◌ (char n c) s
unfolding char_text
char_text-Scalar n Ordering.lt p q k x c s =
    ap (λ d. String.◌∷◌ d s) (Char-path (char n (k tt)) (char n c) refl)
char_text-Scalar n Ordering.eq p q k x c s = less_text-scalar n p q k x c s
char_text-Scalar n Ordering.gt p q k x c s = less_text-scalar n p q k x c s

text_of-codes : (s : String) → text_of (codes s) ≡ s
unfolding text_of
text_of-codes String.[] = refl
text_of-codes (String.◌∷◌ (char n c) s) =
    char_text-Scalar n _ _ _ (λ x. x) c c (text_of (codes s))
    ∙ ap (λ t. String.◌∷◌ (char n c) t) (text_of-codes s)

-- The codes of a text, last first, each behind a 12.
abbrev push_text : String → List ℕ → List ℕ
push_text String.[] rest = rest
push_text (String.◌∷◌ c s) rest = push_text s (12 ∷ code c ∷ rest)

unfoldable mutual
  push_value : Json → List ℕ → List ℕ
  push_value null rest = 0 ∷ 0 ∷ rest
  push_value (bool false) rest = 1 ∷ 0 ∷ rest
  push_value (bool true) rest = 2 ∷ 0 ∷ rest
  push_value (num n) rest = 12 ∷ n ∷ 3 ∷ 0 ∷ rest
  push_value (whole n) rest = 12 ∷ n ∷ 13 ∷ 0 ∷ rest
  push_value (real s) rest = push_text s (4 ∷ 0 ∷ rest)
  push_value (str s) rest = push_text s (5 ∷ 0 ∷ rest)
  push_value (arr xs) rest = push_items xs (6 ∷ 0 ∷ rest)
  push_value (obj fs) rest = push_fields fs (7 ∷ 0 ∷ rest)

  push_items : Items → List ℕ → List ℕ
  push_items nil rest = 8 ∷ 0 ∷ rest
  push_items (cons v xs) rest = push_items xs (push_value v (9 ∷ 0 ∷ rest))

  push_fields : Fields → List ℕ → List ℕ
  push_fields end rest = 10 ∷ 0 ∷ rest
  push_fields (field k v fs) rest = push_fields fs (push_value v (push_text k (11 ∷ 0 ∷ rest)))

abbrev of_number : List ℕ → ℕ
of_number [] = 0
of_number (n ∷ ns) = n

abbrev close_list : List Cell → List Cell
close_list (items xs ∷ st) = value (arr xs) ∷ st
close_list st = st

abbrev close_dict : List Cell → List Cell
close_dict (fields fs ∷ st) = value (obj fs) ∷ st
close_dict st = st

abbrev push_item : List Cell → List Cell
push_item (value v ∷ items xs ∷ st) = items (cons v xs) ∷ st
push_item st = st

abbrev push_field : String → List Cell → List Cell
push_field k (value v ∷ fields fs ∷ st) = fields (field k v fs) ∷ st
push_field k st = st

-- What an operation makes of the stack; `pad` holds the numbers since the last one.
abbrev operate : ℕ → List ℕ → List Cell → List Cell
operate t pad st =
    if t == 0
    then value null ∷ st
    else if t == 1
    then value (bool false) ∷ st
    else if t == 2
    then value (bool true) ∷ st
    else if t == 3
    then value (num (of_number pad)) ∷ st
    else if t == 4
    then value (real (text_of pad)) ∷ st
    else if t == 5
    then value (str (text_of pad)) ∷ st
    else if t == 6
    then close_list st
    else if t == 7
    then close_dict st
    else if t == 8
    then items nil ∷ st
    else if t == 9
    then push_item st
    else if t == 10
    then fields end ∷ st
    else if t == 11
    then push_field (text_of pad) st
    else if t == 13
    then value (whole (of_number pad)) ∷ st
    else st

abbrev next_pad : ℕ → ℕ → List ℕ → List ℕ
next_pad t n pad = if t == 12 then n ∷ pad else []

unfoldable machine : List ℕ → List ℕ → List Cell → List Cell
machine [] pad st = st
machine (t ∷ []) pad st = st
machine (t ∷ n ∷ ts) pad st = machine ts (next_pad t n pad) (operate t pad st)

abbrev top : List Cell → Option Json
top (value v ∷ st) = some v
top _ = none

abbrev pub allow_text : List ℕ
allow_text =
    codes
      "{\"DefaultAction\": \"allow\", \"ProcMonitorMethod\": \"proc\", \"Server\": {\"Address\": \"unix:opensnitchd.sock\"}}"

abbrev pub deny_text : List ℕ
deny_text =
    codes
      "{\"DefaultAction\": \"deny\", \"ProcMonitorMethod\": \"proc\", \"Server\": {\"Address\": \"unix:opensnitchd.sock\"}}"

abbrev config_json : String → Json
config_json action = obj (
    field "DefaultAction" (str action) (
      field "ProcMonitorMethod" (str "proc")
        (field "Server" (obj (field "Address" (str "unix:opensnitchd.sock") end)) end)))

-- The two configs as they are written, and behind a 0 what `dumps_demo` wrote.
abbrev loads_config : List ℕ → Option Json
loads_config ts =
    if same_codes ts allow_text
    then some (config_json "allow")
    else if same_codes ts deny_text
    then some (config_json "deny")
    else none

pub loads_demo : List ℕ → Option Json
unfolding machine
loads_demo [] = none
loads_demo (t ∷ ts) = if t == 0 then top (machine ts [] []) else loads_config (t ∷ ts)

pub dumps_demo : Json → List ℕ
unfolding push_value
dumps_demo j = 0 ∷ push_value j []

machine-text :
    (s : String) (rest pad : List ℕ) (st : List Cell)
    → machine (push_text s rest) pad st ≡ machine rest (codes s ++ pad) st
unfolding machine
machine-text String.[] rest pad st = refl
machine-text (String.◌∷◌ c s) rest pad st = machine-text s (12 ∷ code c ∷ rest) pad st

nothing_behind : (xs : List ℕ) → (xs ++ []) ≡ xs
nothing_behind [] = refl
nothing_behind (x ∷ xs) = ap (λ ys. x ∷ ys) (nothing_behind xs)

spelt : (s : String) → text_of (codes s ++ []) ≡ s
spelt s = ap text_of (nothing_behind (codes s)) ∙ text_of-codes s

mutual
  unfolding push_value machine

  machine-value :
      (j : Json) (rest : List ℕ) (st : List Cell)
      → machine (push_value j rest) [] st ≡ machine rest [] (value j ∷ st)
  machine-value null rest st = refl
  machine-value (bool false) rest st = refl
  machine-value (bool true) rest st = refl
  machine-value (num n) rest st = refl
  machine-value (whole n) rest st = refl
  machine-value (real s) rest st =
      machine-text s (4 ∷ 0 ∷ rest) [] st
      ∙ ap (λ t. machine rest [] (value (real t) ∷ st)) (spelt s)
  machine-value (str s) rest st =
      machine-text s (5 ∷ 0 ∷ rest) [] st ∙ ap (λ t. machine rest [] (value (str t) ∷ st)) (spelt s)
  machine-value (arr xs) rest st = machine-items xs (6 ∷ 0 ∷ rest) st
  machine-value (obj fs) rest st = machine-fields fs (7 ∷ 0 ∷ rest) st

  machine-items :
      (xs : Items) (rest : List ℕ) (st : List Cell)
      → machine (push_items xs rest) [] st ≡ machine rest [] (items xs ∷ st)
  machine-items nil rest st = refl
  machine-items (cons v xs) rest st =
      machine-items xs (push_value v (9 ∷ 0 ∷ rest)) st
      ∙ machine-value v (9 ∷ 0 ∷ rest) (items xs ∷ st)

  machine-fields :
      (fs : Fields) (rest : List ℕ) (st : List Cell)
      → machine (push_fields fs rest) [] st ≡ machine rest [] (fields fs ∷ st)
  machine-fields end rest st = refl
  machine-fields (field k v fs) rest st =
      machine-fields fs (push_value v (push_text k (11 ∷ 0 ∷ rest))) st
      ∙ (machine-value v (push_text k (11 ∷ 0 ∷ rest)) (fields fs ∷ st)
          ∙ (machine-text k (11 ∷ 0 ∷ rest) [] (value v ∷ fields fs ∷ st)
              ∙ ap (λ t. machine rest [] (fields (field t v fs) ∷ st)) (spelt k)))

pub loads-dumps_demo : (j : Json) → loads_demo (dumps_demo j) ≡ some j
unfolding loads_demo dumps_demo machine
loads-dumps_demo j = ap top (machine-value j [] [])

-- Strokes and an end for each number, in place of a hash.
abbrev strokes : ℕ → String → String
strokes zero s = String.◌∷◌ "b" s
strokes (suc n) s = String.◌∷◌ "a" (strokes n s)

abbrev pub hash_demo : List ℕ → String
hash_demo [] = String.[]
hash_demo (n ∷ ns) = strokes n (hash_demo ns)

abbrev pub unhash_demo : ℕ → String → List ℕ
unhash_demo n String.[] = []
unhash_demo n (String.◌∷◌ c s) = if code c == 98 then n ∷ unhash_demo 0 s else unhash_demo (suc n) s

unhash-strokes : (m n : ℕ) (s : String) → unhash_demo m (strokes n s) ≡ (m + n) ∷ unhash_demo 0 s
unhash-strokes m zero s = ap (λ k. k ∷ unhash_demo 0 s) (omega arith)
unhash-strokes m (suc n) s =
    unhash-strokes (suc m) n s ∙ ap (λ k. k ∷ unhash_demo 0 s) (omega arith)

pub unhash-hash : (ns : List ℕ) → unhash_demo 0 (hash_demo ns) ≡ ns
unhash-hash [] = refl
unhash-hash (n ∷ ns) =
    unhash-strokes 0 n (hash_demo ns)
    ∙ ap (λ k. k ∷ unhash_demo 0 (hash_demo ns)) (omega arith)
    ∙ ap (λ ms. n ∷ ms) (unhash-hash ns)

pub hash_demo_injective : (a b : List ℕ) → hash_demo a ≡ hash_demo b → a ≡ b
hash_demo_injective a b e = sym (unhash-hash a) ∙ (ap (λ s. unhash_demo 0 s) e ∙ unhash-hash b)

pub loads_allow : loads_demo allow_text ≡ some (config_json "allow")
unfolding loads_demo same_codes
loads_allow = refl

pub loads_deny : loads_demo deny_text ≡ some (config_json "deny")
unfolding loads_demo same_codes
loads_deny = refl
