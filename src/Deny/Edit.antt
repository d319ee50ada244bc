-- ===== src/Deny/Edit.antt =====
-- system_files/usr/libexec/bazzite-tower-snitchwatch-deny, `current_action` and `set_action`: the
-- one key of the firewall's config that the helper reads and edits, in place.
pub mod Outcome
pub mod Spot
use bazzite_tower.Prelude.{
  ℕ, zero, suc, ◌+◌, String, ◌≡◌, refl, Bool, true, false, ◌&&◌, ◌||◌, Option, none, some, List, [],
  ◌∷◌, ◌++◌, leb, ◌==◌, ◌=s=◌, if◌then◌else◌, codes, strip_prefix, length, Json, str, obj,
  get_field, set_field, json_eq, as_dict, Result, ok, err, refusal, value_error, ◌>>=◌, ◌>>◌,
}
use bazzite_tower.Deny.System.{Host}

-- A value of DefaultAction.
pub data Action : Type 0 where
  allow deny other : Action

abbrev pub name_of : Action → String
name_of allow = "allow"
name_of deny = "deny"
name_of other = "other"

abbrev pub is_allow : Action → Bool
is_allow allow = true
is_allow _ = false

abbrev pub is_deny : Action → Bool
is_deny deny = true
is_deny _ = false

abbrev pub action_of_text : String → Action
action_of_text s = if s =s= "allow" then allow else if s =s= "deny" then deny else other

-- The action that a decoded config names; what is not a dict has none.
abbrev pub action_of : Json → Action
action_of (obj fs) = elim (get_field "DefaultAction" fs) [
  | some (str s) ↦ action_of_text s
  | _ ↦ other
]
action_of _ = other

-- KEY
abbrev pub key : List ℕ
key = codes "\"DefaultAction\""

abbrev pub quote : List ℕ
quote = b'"' ∷ []

-- `\s` of a bytes pattern
abbrev pub is_space : ℕ → Bool
is_space c = (c == 32) || (leb 9 c && leb c 13)

pub span_space : List ℕ → List ℕ × List ℕ
span_space [] = ([], [])
span_space (c ∷ cs) =
    let (run, rest) = span_space cs in if is_space c then (c ∷ run, rest) else ([], c ∷ cs)

-- What ACTION matched: group 1, group 2 and the text behind group 3.
pub record Match : Type 0 where
  pub head : List ℕ
  pub old : List ℕ
  pub behind : List ℕ

-- Group 2 and group 3, behind group 1.
match_value : List ℕ → List ℕ → List ℕ → Option Match
match_value head value cs = elim (strip_prefix (value ++ quote) cs) [
  | none ↦ none
  | some rest ↦ some (record { head = head; old = value; behind = rest })
]

or_else : Option Match → Option Match → Option Match
or_else none o = o
or_else (some m) o = some m

-- `"DefaultAction"\s*:\s*"(allow|deny)"` at the front of a text.
pub match_action : List ℕ → Option Match
unfolding span_space match_value or_else
match_action cs = elim (strip_prefix key cs) [
  | none ↦ none
  | some r1 ↦
      let (w1, r2) = span_space r1 in
      elim (strip_prefix (codes ":") r2) [
        | none ↦ none
        | some r3 ↦
            let (w2, r4) = span_space r3 in
            elim (strip_prefix quote r4) [
              | none ↦ none
              | some r5 ↦
                  let head = key ++ (w1 ++ (codes ":" ++ (w2 ++ quote))) in
                  or_else (match_value head (codes "allow") r5) (match_value head (codes "deny") r5)
            ]
      ]
]

-- `data.count(KEY)`: from the left, without overlap. The fuel is the text's length; each round
-- takes a byte at least.
pub count_key : ℕ → List ℕ → ℕ
count_key zero cs = 0
count_key (suc f) [] = 0
count_key (suc f) (c ∷ cs) = elim (strip_prefix key (c ∷ cs)) [
  | none ↦ count_key f cs
  | some rest ↦ suc (count_key f rest)
]

-- `len(ACTION.findall(data))`
pub count_action : ℕ → List ℕ → ℕ
unfolding match_action
count_action zero cs = 0
count_action (suc f) [] = 0
count_action (suc f) (c ∷ cs) = elim (match_action (c ∷ cs)) [
  | none ↦ count_action f cs
  | some m ↦ suc (count_action f m.behind)
]

-- `ACTION.sub(...)`: every match keeps its groups 1 and 3.
pub substitute : ℕ → List ℕ → List ℕ → List ℕ
unfolding match_action
substitute zero value cs = cs
substitute (suc f) value [] = []
substitute (suc f) value (c ∷ cs) = elim (match_action (c ∷ cs)) [
  | none ↦ c ∷ substitute f value cs
  | some m ↦ m.head ++ (value ++ (quote ++ substitute f value m.behind))
]

module _ ⦃host : Host⦄ where
  -- `json.loads(data)`
  pub load_json : List ℕ → Result Json
  load_json bytes = elim (host.loads bytes) [ none ↦ err (value_error "not JSON") | some j ↦ ok j ]

  -- The document of a text that `json.loads` reads.
  pub load_json-loads :
      (bytes : List ℕ) (j : Json) → host.loads bytes ≡ some j → load_json bytes ≡ ok j
  unfolding load_json
  load_json-loads bytes j h = rw (h, load_json) refl

  -- What is not JSON has no known action.
  unfoldable pub current_action : List ℕ → Action
  current_action bytes = elim (host.loads bytes) [ none ↦ other | some j ↦ action_of j ]

  pub refuse_unless : Bool → String → Result (Unit {0})
  refuse_unless true message = ok tt
  refuse_unless false message = err (refusal message)

  -- The comparison of the documents before and behind the edit.
  pub checked_edit : Action → List ℕ → Json → Json → Result (List ℕ)
  unfolding refuse_unless
  checked_edit value result before after = do
    fields ← as_dict before
    refuse_unless (json_eq (obj (set_field "DefaultAction" (str (name_of value)) fields)) after)
        "DefaultAction edit would change more than that key"
    ok result

  pub redecoded_edit : Action → List ℕ → Json → Result (List ℕ)
  unfolding load_json checked_edit
  redecoded_edit value result before = do
    after ← load_json result
    checked_edit value result before after

  pub edit_one : List ℕ → Action → Result (List ℕ)
  unfolding load_json redecoded_edit substitute
  edit_one bytes value = do
    before ← load_json bytes
    redecoded_edit value (substitute (length bytes) (codes (name_of value)) bytes) before

  unfoldable pub set_action : List ℕ → Action → Result (List ℕ)
  unfolding refuse_unless count_key count_action edit_one
  set_action bytes value = do
    refuse_unless
        ((count_key (length bytes) bytes == 1) && (count_action (length bytes) bytes == 1))
        "cannot edit DefaultAction: key is absent, ambiguous or not an allow/deny string"
    edit_one bytes value
