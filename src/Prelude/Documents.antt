-- ===== src/Prelude/Documents.antt =====
-- JSON documents as `json.loads` returns them: a dict has each key once.
use Prim.Native.Nat.{ℕ}
use Prim.Native.String.{String}
use mathlib.Core.Path.{◌≡◌, refl, ◌∙◌}
use mathlib.Core.Logic.{inl, inr}
use mathlib.Core.Bool.{Bool, true, false, ◌&&◌, not}
use mathlib.Core.Option.{Option, none, some}
use mathlib.Core.List.{List, [], ◌∷◌}
use native.Mathlib.Omega.{arith}
use bazzite_tower.Prelude.Errors.{Result, ok, err, key_error, type_error}
use bazzite_tower.Prelude.Lists.{length, all}
use bazzite_tower.Prelude.Tests.{◌==◌, if◌then◌else◌, Bool-cases, Option-cases, &&-eq-true}
use bazzite_tower.Prelude.Lines.{is_blank}
use bazzite_tower.Prelude.Text.{◌=s=◌, =s=_iff, member}

mutual
  pub data Json : Type 0 where
    null : Json
    bool : Bool → Json
    -- An int that is not negative, and a float that equals a natural number.
    num : ℕ → Json
    whole : ℕ → Json
    -- Any other number.
    real : String → Json
    str : String → Json
    arr : Items → Json
    obj : Fields → Json

  pub data Items : Type 0 where
    nil : Items
    cons : Json → Items → Items

  pub data Fields : Type 0 where
    end : Fields
    field : String → Json → Fields → Fields

-- `d.get(key)`
abbrev pub get_field : String → Fields → Option Json
get_field k end = none
get_field k (field j v fs) = if j =s= k then some v else get_field k fs

-- `d[key] = v`
abbrev pub set_field : String → Json → Fields → Fields
set_field k v end = field k v end
set_field k v (field j w fs) = if j =s= k then field j v fs else field j w (set_field k v fs)

abbrev pub keys : Fields → List String
keys end = []
keys (field k v fs) = k ∷ keys fs

-- `d[key]`
abbrev pub or_key_error : String → Option Json → Result Json
or_key_error k none = err (key_error k)
or_key_error k (some v) = ok v

abbrev pub item : String → Fields → Result Json
item k fs = or_key_error k (get_field k fs)

-- The dict that an operation on keys needs.
abbrev pub as_dict : Json → Result Fields
as_dict (obj fs) = ok fs
as_dict _ = err (type_error "not a dict")

-- The text that a string operation needs.
abbrev pub as_text : Json → Result String
as_text (str s) = ok s
as_text _ = err (type_error "not a str")

-- `set(d) == {...}`
abbrev pub same_keys : List String → Fields → Bool
same_keys names fs = (length names == length (keys fs)) && all (λ k. member k names) (keys fs)

abbrev pub to_number : Bool → ℕ
to_number true = 1
to_number false = 0

abbrev pub same_bool : Bool → Bool → Bool
same_bool true b = b
same_bool false true = false
same_bool false false = true

-- Python's `==`: `True` is 1, and the order of a dict's keys does not count.
unfoldable mutual
  pub json_eq : Json → Json → Bool
  json_eq null null = true
  json_eq (bool a) (bool b) = same_bool a b
  json_eq (bool a) (num n) = to_number a == n
  json_eq (num n) (bool b) = n == to_number b
  json_eq (bool a) (whole n) = to_number a == n
  json_eq (num n) (num m) = n == m
  json_eq (num n) (whole m) = n == m
  json_eq (whole n) (bool b) = n == to_number b
  json_eq (whole n) (num m) = n == m
  json_eq (whole n) (whole m) = n == m
  json_eq (real s) (real t) = s =s= t
  json_eq (str s) (str t) = s =s= t
  json_eq (arr xs) (arr ys) = items_eq xs ys
  json_eq (obj fs) (obj gs) = (length (keys fs) == length (keys gs)) && fields_within fs gs
  json_eq _ _ = false

  pub items_eq : Items → Items → Bool
  items_eq nil nil = true
  items_eq (cons x xs) (cons y ys) = json_eq x y && items_eq xs ys
  items_eq _ _ = false

  pub fields_within : Fields → Fields → Bool
  fields_within end gs = true
  fields_within (field k v fs) gs = elim (get_field k gs) [
    | none ↦ false
    | some w ↦ json_eq v w && fields_within fs gs
  ]

-- `value == "..."`, `value == n`
abbrev pub is_str : String → Json → Bool
is_str s v = elim v [ str t ↦ s =s= t | _ ↦ false ]

abbrev pub is_num : ℕ → Json → Bool
is_num n v = elim v [ num m ↦ n == m | whole m ↦ n == m | bool b ↦ n == to_number b | _ ↦ false ]

-- A comparison with `d.get(key)`, which is `None` for a missing key.
abbrev pub get_is : (Json → Bool) → String → Fields → Bool
get_is test k fs = elim (get_field k fs) [ none ↦ false | some v ↦ test v ]

pub is_str-eq : (s : String) (v : Json) → is_str s v ≡ true → v ≡ str s
is_str-eq s (str t) h = ground (arith, =s=_iff s t)
is_str-eq s _ h = cc

fields_within-field :
    (j : String) (u : Json) (fs gs : Fields)
    → fields_within (field j u fs) gs ≡ true
    → (w : Json) × (get_field j gs ≡ some w) × (json_eq u w ≡ true) × (fields_within fs gs ≡ true)
unfolding fields_within
fields_within-field j u fs gs h = elim (Option-cases (get_field j gs)) [
  | inl a ↦ cc (rw (a, fields_within) at h)
  | inr (w, a) ↦
      let both = &&-eq-true (json_eq u w) (fields_within fs gs) (rw (a, fields_within) at h) in
      (w, a, both.0, both.1)
]

-- A field of a dict is found in every dict that equals it, with an equal value.
pub fields_within-get :
    (fs gs : Fields) (k : String) (v : Json)
    → fields_within fs gs ≡ true
    → get_field k fs ≡ some v
    → (w : Json) × (get_field k gs ≡ some w) × (json_eq v w ≡ true)
fields_within-get end gs k v h e = cc
fields_within-get (field j u fs) gs k v h e =
    let (w, a, q, rest) = fields_within-field j u fs gs h in
    elim (Bool-cases (j =s= k)) [
      | inl same ↦ (w, ground (arith, =s=_iff j k), ground arith)
      | inr differ ↦ fields_within-get fs gs k v rest (ground arith)
    ]

pub json_eq-str : (s : String) (w : Json) → json_eq (str s) w ≡ true → w ≡ str s
unfolding json_eq
json_eq-str s (str t) h = ground (arith, =s=_iff s t)
json_eq-str s _ h = cc

pub get_field-set_field :
    (k j : String) (v : Json) (fs : Fields)
    → get_field j (set_field k v fs) ≡ (if k =s= j then some v else get_field j fs)
get_field-set_field k j v end = refl
get_field-set_field k j v (field i w fs) =
    ground (arith, =s=_iff k j, =s=_iff i k, =s=_iff i j, get_field-set_field k j v fs)

pub item_found : (k : String) (fs : Fields) (v : Json) → item k fs ≡ ok v → get_field k fs ≡ some v
item_found k fs v h = elim (Option-cases (get_field k fs)) [
  | inl e ↦ cc (rw e at h)
  | inr (w, e) ↦ e ∙ cc (rw e at h)
]

pub as_dict_obj : (v : Json) (fs : Fields) → as_dict v ≡ ok fs → v ≡ obj fs
as_dict_obj (obj gs) fs h = cc
as_dict_obj _ fs h = cc

-- What `if value:` finds, of a value or a missing one.
abbrev pub is_truthy : Option Json → Bool
is_truthy none = false
is_truthy (some null) = false
is_truthy (some (bool b)) = b
is_truthy (some (num n)) = not (n == 0)
is_truthy (some (whole n)) = not (n == 0)
is_truthy (some (real s)) = true
is_truthy (some (str s)) = not (is_blank s)
is_truthy (some (arr nil)) = false
is_truthy (some (arr (cons v vs))) = true
is_truthy (some (obj end)) = false
is_truthy (some (obj (field k v fs))) = true
