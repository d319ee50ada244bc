-- ===== src/Refresh/Policy.antt =====
-- ci/base-refresh.py `policy`, with `hex_value` of ci/r13-publication.py and `parse_created` of
-- ci/rpm-inventory-spdx.py: the checks of the reviewed refresh policy.
pub mod Reviewed
use bazzite_tower.Prelude.{
  ℕ, String, Bool, true, false, ◌&&◌, ◌||◌, Option, none, some, List, [], ◌∷◌, ◌++◌, leb, ◌==◌,
  if◌then◌else◌, codes, is_digit, length, all, Json, null, bool, str, arr, obj, Items, nil, cons,
  Fields, end, field, item, as_dict, same_keys, json_eq, get_is, is_str, is_num, Result, ok, err,
  value_error, type_error, require, ◌>>=◌, ◌>>◌,
}
use bazzite_tower.Refresh.Version.{Version, base_version, kernel_version}

-- `[0-9a-f]`
abbrev pub is_hex : ℕ → Bool
is_hex c = is_digit c || (leb 97 c && leb c 102)

abbrev pub is_hex_text : ℕ → List ℕ → Bool
is_hex_text size cs = (length cs == size) && all is_hex cs

-- `pub.hex_value(value, size)`
abbrev pub hex_value : ℕ → Json → Result (Unit {0})
hex_value size (str s) = require (is_hex_text size (codes s)) "invalid hash"
hex_value size _ = err (value_error "invalid hash")

-- `for identity in d.values(): pub.hex_value(identity, 40)`
abbrev pub hex_values : Fields → Result (Unit {0})
hex_values end = ok tt
hex_values (field k v fs) = hex_value 40 v >> hex_values fs

-- `value.replace("Z", "+00:00")`
abbrev pub with_offset : List ℕ → List ℕ
with_offset [] = []
with_offset (c ∷ cs) = (if c == 90 then codes "+00:00" else c ∷ []) ++ with_offset cs

-- What `datetime.fromisoformat` returns: whether there is a time zone, and the text of the time in
-- UTC in the format of seconds and a final Z.
pub record Date : Type 0 where
  pub has_zone : Bool
  pub utc_text : String

pub record Dates : Type 0 where
  -- No value where it raises.
  pub fromisoformat : List ℕ → Option Date

abbrev pub base_version_of : Json → Result Version
base_version_of (str s) = base_version s
base_version_of _ = err (value_error "invalid Bazzite version")

-- A pattern is matched against texts only.
abbrev pub kernel_version_of : Json → Result Version
kernel_version_of (str s) = kernel_version s
kernel_version_of _ = err (type_error "expected string or bytes-like object")

abbrev pub policy_keys : List String
policy_keys =
    "schemaVersion" ∷ "repository" ∷ "ref" ∷ "destination" ∷ "upstream" ∷ "upstreamTag"
    ∷ "minimumBaseVersion" ∷ "minimumKernel" ∷ "sourceCommit" ∷ "sourceTree" ∷ "sourceCreated"
    ∷ "profiles" ∷ "bootstrap" ∷ "nativeSource" ∷ "daemonSource" ∷ "daemonPatchSha256" ∷ []

abbrev pub profile : String → Items → Json
profile tag channels = obj (field "imageTag" (str tag) (field "channels" (arr channels) end))

abbrev pub reviewed_profiles : Json
reviewed_profiles = obj (
    field "legacy" (profile "latest" (cons (str "stable") (cons (str "latest") nil)))
      (field "system" (profile "snitchwatch-system" (cons (str "snitchwatch-system") nil)) end))

abbrev pub reviewed_bootstrap : Json
reviewed_bootstrap = obj (
    field "legacy"
      (obj (
        field "allowMissing" (bool true) (
          field "digest" null (
            field "runNumber" (str "2") (
              field "failedRunId" (str "40062419690")
                (field "failedHead" (str "d8407c60f74ceafbcbc2e333198c9fd23ce4e260") end))))))
      (field "system"
        (obj (
          field "allowMissing" (bool false) (
            field "digest"
              (str "sha256:3f9a0d238e69917a33a23710a53963e70b64526cc8e44f9d24787944dcca1f27") end)))
        end))

module _ ⦃dates : Dates⦄ where
  abbrev pub dated : Option Date → Result String
  dated none = err (value_error "invalid --created timestamp")
  dated (some d) =
      if d.has_zone
      then ok d.utc_text
      else err (value_error "--created timestamp must include a timezone")

  abbrev pub parse_created : Json → Result String
  parse_created (str s) = dated (dates.fromisoformat (with_offset (codes s)))
  parse_created _ = err (type_error "no attribute replace")

  -- `policy`, of the decoded document. Where `set(value)` is taken of what is no dict, a TypeError
  -- stands for whichever error is raised.
  unfoldable pub policy : Json → Result Fields
  policy decoded = do
    value ← as_dict decoded
    require (same_keys policy_keys value && get_is (is_num 1) "schemaVersion" value)
        "invalid refresh policy schema"
    require
        (get_is (is_str "bearyjd/bazzite-tower") "repository" value
          && get_is (is_str "refs/heads/main") "ref" value)
        "policy repository/ref substitution"
    require
        (get_is (is_str "ghcr.io/bearyjd/bazzite-tower") "destination" value
          && (get_is (is_str "ghcr.io/ublue-os/bazzite-nvidia-open") "upstream" value
              && get_is (is_str "stable") "upstreamTag" value))
        "policy destination/upstream substitution"
    commit ← item "sourceCommit" value
    hex_value 40 commit
    tree ← item "sourceTree" value
    hex_value 40 tree
    require (get_is (json_eq reviewed_profiles) "profiles" value)
        "policy profile/channel substitution"
    require (get_is (json_eq reviewed_bootstrap) "bootstrap" value) "unreviewed bootstrap exception"
    native_value ← item "nativeSource" value
    native ← as_dict native_value
    daemon_value ← item "daemonSource" value
    daemon ← as_dict daemon_value
    require
        (same_keys ("commit" ∷ "tree" ∷ "submoduleCommit" ∷ []) native
          && same_keys ("commit" ∷ "tree" ∷ []) daemon)
        "invalid native source policy"
    hex_values native
    hex_values daemon
    patch ← item "daemonPatchSha256" value
    hex_value 64 patch
    floor ← item "minimumBaseVersion" value
    _ ← base_version_of floor
    kernel ← item "minimumKernel" value
    _ ← kernel_version_of kernel
    created ← item "sourceCreated" value
    text ← parse_created created
    require (is_str text created) "invalid source timestamp"
    ok value
