-- ===== src/Refresh/Policy/Reviewed.antt =====
-- What an accepted policy is known to hold.
use bazzite_tower.Prelude.{
  ℕ, ◌≤◌, ◌⊎◌, inl, inr, String, ◌≡◌, refl, ap, ◌∙◌, subst, Bool, true, false, ◌&&◌, &&-eq-true,
  Bool-cases, arith, leb, is_digit, ◌==◌, ==_iff, ◌=s=◌, List, ◌∷◌, [], All, all, length, codes,
  Option, none, some, Json, str, obj, Fields, end, field, get_field, item, as_dict, as_dict_obj,
  is_str-eq, require-eq-ok, get_is, is_str, is_num, json_eq, same_keys, Result, ok, require, ◌>>◌,
  >>=-eq-ok,
}
use bazzite_tower.Refresh.Policy.{
  Dates, is_hex, is_hex_text, hex_value, hex_values, base_version_of, kernel_version_of,
  policy_keys, reviewed_profiles, reviewed_bootstrap, parse_created, policy,
}

-- A value of the policy with which a check succeeds.
pub record Passes {A : Type 0} (check : Json → Result A) (key : String) (p : Fields) : Type 0 where
  pub value : Json
  pub result : A
  pub found : item key p ≡ ok value
  pub passes : check value ≡ ok result

-- A hexadecimal digit in lower case.
abbrev pub IsHexDigit : ℕ → Type 0
IsHexDigit c = ((48 ≤ c) × (c ≤ 57)) ⊎ ((97 ≤ c) × (c ≤ 102))

-- The text of a hash: so many hexadecimal digits.
pub record IsHash (size : ℕ) (v : Json) : Type 0 where
  pub text : String
  pub is_text : v ≡ str text
  pub has_length : length (codes text) ≡ size
  pub has_digits : All IsHexDigit (codes text)

-- The value under the key is such a text.
abbrev pub HashAt : ℕ → String → Fields → Type 0
HashAt size key p = (v : Json) × (item key p ≡ ok v) × IsHash size v

-- Every value of the dict under the key is a commit's or a tree's hash, and it has exactly these keys.
pub record IsSource (key : String) (names : List String) (p : Fields) : Type 0 where
  pub source : Fields
  pub is_source : item key p ≡ ok (obj source)
  pub has_names : same_keys names source ≡ true
  pub all_hashes : (name : String) (v : Json) → get_field name source ≡ some v → IsHash 40 v

pub record Reviewed ⦃dates : Dates⦄ (decoded : Json) (p : Fields) : Type 0 where
  pub is_decoded : as_dict decoded ≡ ok p
  pub keys_known : same_keys policy_keys p ≡ true
  pub schema : get_is (is_num 1) "schemaVersion" p ≡ true
  pub repository : get_field "repository" p ≡ some (str "bearyjd/bazzite-tower")
  pub main_ref : get_field "ref" p ≡ some (str "refs/heads/main")
  pub destination : get_field "destination" p ≡ some (str "ghcr.io/bearyjd/bazzite-tower")
  pub upstream : get_field "upstream" p ≡ some (str "ghcr.io/ublue-os/bazzite-nvidia-open")
  pub upstream_tag : get_field "upstreamTag" p ≡ some (str "stable")
  pub profiles : get_is (json_eq reviewed_profiles) "profiles" p ≡ true
  pub bootstrap : get_is (json_eq reviewed_bootstrap) "bootstrap" p ≡ true
  pub commit : HashAt 40 "sourceCommit" p
  pub tree : HashAt 40 "sourceTree" p
  pub native : IsSource "nativeSource" ("commit" ∷ "tree" ∷ "submoduleCommit" ∷ []) p
  pub daemon : IsSource "daemonSource" ("commit" ∷ "tree" ∷ []) p
  pub patch : HashAt 64 "daemonPatchSha256" p
  pub base_floor : Passes base_version_of "minimumBaseVersion" p
  pub kernel_floor : Passes kernel_version_of "minimumKernel" p
  -- The time is written as it is parsed and printed again.
  pub created : Json
  pub created_text : String
  pub is_created : item "sourceCreated" p ≡ ok created
  pub parses : parse_created created ≡ ok created_text
  pub as_printed : created ≡ str created_text

require_of : (b : Bool) (message : String) (u : Unit {0}) → require b message ≡ ok u → b ≡ true
require_of true message u h = refl
require_of false message u h = cc

hex_digit : (c : ℕ) → is_hex c ≡ true → IsHexDigit c
hex_digit c h = elim (Bool-cases (leb 97 c && leb c 102)) [
  | inl letter ↦
      let (low, high) = &&-eq-true (leb 97 c) (leb c 102) letter in inr (ground arith, ground arith)
  | inr other ↦ let digit : is_digit c ≡ true = ground arith in inl (ground arith, ground arith)
]

hex_digits : (cs : List ℕ) → all is_hex cs ≡ true → All IsHexDigit cs
hex_digits [] h = tt
hex_digits (c ∷ cs) h =
    let (first, rest) = &&-eq-true (is_hex c) (all is_hex cs) h in
    (hex_digit c first, hex_digits cs rest)

hex_value-IsHash : (size : ℕ) (v : Json) (u : Unit {0}) → hex_value size v ≡ ok u → IsHash size v
hex_value-IsHash size (str s) u h =
    let good = require_of (is_hex_text size (codes s)) _ u h in
    let (size_met, digits) = &&-eq-true (length (codes s) == size) (all is_hex (codes s)) good in
    record {
      text = s;
      is_text = refl;
      has_length = (==_iff (length (codes s)) size).0 size_met;
      has_digits = hex_digits (codes s) digits;
    }
hex_value-IsHash size _ u h = cc

hex_values-IsHash :
    (fs : Fields) (u : Unit {0}) (name : String) (v : Json)
    → hex_values fs ≡ ok u
    → get_field name fs ≡ some v
    → IsHash 40 v
hex_values-IsHash end u name v h found = cc
hex_values-IsHash (field k w fs) u name v h found =
    let (u1, first, rest) = >>=-eq-ok (hex_value 40 w) _ h in
    elim (Bool-cases (k =s= name)) [
      | inl same ↦
          let here : w ≡ v = ground arith in subst (IsHash 40) here (hex_value-IsHash 40 w u1 first)
      | inr differ ↦ hex_values-IsHash fs u name v rest (rw differ at found)
    ]

text_at :
    (text : String) (o : Option Json)
    → ◌≡◌ {A = Bool} (elim o [ none ↦ false | some v ↦ is_str text v ]) true
    → o ≡ some (str text)
text_at text none h = cc
text_at text (some v) h = ap some (is_str-eq text v h)

printed_same :
    (text : String) (created : Json) (p q : Fields)
    → (require (is_str text created) "invalid source timestamp" >> ok p) ≡ ok q
    → created ≡ str text
printed_same text created p q h =
    let (same, rest) = require-eq-ok (is_str text created) _ (ok p) h in is_str-eq text created same

returned : (b : Bool) (message : String) (p q : Fields) → (require b message >> ok p) ≡ ok q → p ≡ q
returned true message p q h = cc
returned false message p q h = cc

-- A policy that is accepted is the decoded document: it has exactly the known keys, schema 1, the
-- reviewed repository, ref, destination, upstream, tag, profiles and bootstrap exception, hashes of the
-- right length in hexadecimal digits as the identities of its three sources and of the daemon's patch,
-- floors that parse, and a time that is written as it is parsed and printed again.
pub policy-Reviewed :
    ⦃dates : Dates⦄ → (decoded : Json) (p : Fields) → policy decoded ≡ ok p → Reviewed decoded p
unfolding policy
policy-Reviewed decoded p h =
    let (v, e1, h1) = >>=-eq-ok (as_dict decoded) _ h in
    let (u2, e2, h2) =
      >>=-eq-ok (require (same_keys policy_keys v && get_is (is_num 1) "schemaVersion" v) _) _ h1 in
    let (u3, e3, h3) =
      >>=-eq-ok
        (require
          (get_is (is_str "bearyjd/bazzite-tower") "repository" v
            && get_is (is_str "refs/heads/main") "ref" v)
          _)
        _ h2 in
    let (u4, e4, h4) =
      >>=-eq-ok
        (require
          (get_is (is_str "ghcr.io/bearyjd/bazzite-tower") "destination" v
            && (get_is (is_str "ghcr.io/ublue-os/bazzite-nvidia-open") "upstream" v
                && get_is (is_str "stable") "upstreamTag" v))
          _)
        _ h3 in
    let (commit, e5, h5) = >>=-eq-ok (item "sourceCommit" v) _ h4 in
    let (u6, e6, h6) = >>=-eq-ok (hex_value 40 commit) _ h5 in
    let (tree, e7, h7) = >>=-eq-ok (item "sourceTree" v) _ h6 in
    let (u8, e8, h8) = >>=-eq-ok (hex_value 40 tree) _ h7 in
    let (u9, e9, h9) =
      >>=-eq-ok (require (get_is (json_eq reviewed_profiles) "profiles" v) _) _ h8 in
    let (u10, e10, h10) =
      >>=-eq-ok (require (get_is (json_eq reviewed_bootstrap) "bootstrap" v) _) _ h9 in
    let (nv, e11, h11) = >>=-eq-ok (item "nativeSource" v) _ h10 in
    let (n, e12, h12) = >>=-eq-ok (as_dict nv) _ h11 in
    let (dv, e13, h13) = >>=-eq-ok (item "daemonSource" v) _ h12 in
    let (d, e14, h14) = >>=-eq-ok (as_dict dv) _ h13 in
    let (u15, e15, h15) =
      >>=-eq-ok
        (require
          (same_keys ("commit" ∷ "tree" ∷ "submoduleCommit" ∷ []) n
            && same_keys ("commit" ∷ "tree" ∷ []) d)
          _)
        _ h14 in
    let (u16, e16, h16) = >>=-eq-ok (hex_values n) _ h15 in
    let (u17, e17, h17) = >>=-eq-ok (hex_values d) _ h16 in
    let (patch, e18, h18) = >>=-eq-ok (item "daemonPatchSha256" v) _ h17 in
    let (u19, e19, h19) = >>=-eq-ok (hex_value 64 patch) _ h18 in
    let (base, e20, h20) = >>=-eq-ok (item "minimumBaseVersion" v) _ h19 in
    let (base_floor, e21, h21) = >>=-eq-ok (base_version_of base) _ h20 in
    let (kernel, e22, h22) = >>=-eq-ok (item "minimumKernel" v) _ h21 in
    let (kernel_floor, e23, h23) = >>=-eq-ok (kernel_version_of kernel) _ h22 in
    let (created, e24, h24) = >>=-eq-ok (item "sourceCreated" v) _ h23 in
    let (text, e25, h25) =
      >>=-eq-ok (parse_created created)
        (λ text. require (is_str text created) "invalid source timestamp" >> ok v) h24 in
    let same : v ≡ p = returned (is_str text created) "invalid source timestamp" v p h25 in
    let (keys_ok, schema) =
      &&-eq-true (same_keys policy_keys v) (get_is (is_num 1) "schemaVersion" v) (
        require_of (same_keys policy_keys v && get_is (is_num 1) "schemaVersion" v)
          "invalid refresh policy schema" u2 e2) in
    let (repository, main_ref) = &&-eq-true _ _ (require_of _ _ u3 e3) in
    let (destination, upstreams) = &&-eq-true _ _ (require_of _ _ u4 e4) in
    let (upstream, upstream_tag) = &&-eq-true _ _ upstreams in
    let (native_keys, daemon_keys) = &&-eq-true _ _ (require_of _ _ u15 e15) in
    rw (← same) (record {
      is_decoded = e1;
      keys_known = keys_ok;
      schema = schema;
      repository = text_at _ (get_field "repository" v) repository;
      main_ref = text_at _ (get_field "ref" v) main_ref;
      destination = text_at _ (get_field "destination" v) destination;
      upstream = text_at _ (get_field "upstream" v) upstream;
      upstream_tag = text_at _ (get_field "upstreamTag" v) upstream_tag;
      native = record {
        source = n;
        is_source = e11 ∙ ap ok (as_dict_obj nv n e12);
        has_names = native_keys;
        all_hashes = λ name w. hex_values-IsHash n u16 name w e16;
      };
      daemon = record {
        source = d;
        is_source = e13 ∙ ap ok (as_dict_obj dv d e14);
        has_names = daemon_keys;
        all_hashes = λ name w. hex_values-IsHash d u17 name w e17;
      };
      profiles = require_of _ _ u9 e9;
      bootstrap = require_of _ _ u10 e10;
      commit = (commit, e5, hex_value-IsHash 40 commit u6 e6);
      tree = (tree, e7, hex_value-IsHash 40 tree u8 e8);
      patch = (patch, e18, hex_value-IsHash 64 patch u19 e19);
      base_floor = record { value = base; result = base_floor; found = e20; passes = e21 };
      kernel_floor = record { value = kernel; result = kernel_floor; found = e22; passes = e23 };
      created = created;
      created_text = text;
      is_created = e24;
      parses = e25;
      as_printed = printed_same text created v p h25;
    })
