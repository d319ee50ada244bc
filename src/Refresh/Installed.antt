-- ===== src/Refresh/Installed.antt =====
-- ci/base-refresh.py: what is installed in an image, the collection of artifacts, and the validation that
-- also loads the image.
use bazzite_tower.Prelude.{
  String, ◌<>◌, Bool, true, false, ◌&&◌, List, [], ◌∷◌, leb, if◌then◌else◌, ◌=s=◌, Json, str, obj,
  Fields, end, field, item, as_dict, json_eq, is_str, Result, ok, require, ◌>>=◌, ◌>>◌,
}
use bazzite_tower.Refresh.Policy.{Dates}
use bazzite_tower.Refresh.Evidence.{policy_path, active_policy}
use bazzite_tower.Refresh.Validate.{policy_of, rows_or_error, check_inventory, validate}
use bazzite_tower.Publication.{
  World, Node, mebibytes_16, dict, is_plain, decode, read_json, file_sha,
}
use bazzite_tower.Publication.Candidate.{joined, item_at}
use bazzite_tower.Spdx.{Library, Row, same_row, parse_inventory}

-- `==` on lists of rows
abbrev pub same_rows : List Row → List Row → Bool
same_rows [] [] = true
same_rows (r ∷ rs) (s ∷ ss) = same_row r s && same_rows rs ss
same_rows _ _ = false

-- What podman has of an image: the files of a container that is created of it, its digest once it is
-- loaded, and what rpm lists in it.
pub record Images : Type 0 where
  pub copied : String → String → Result Node
  pub digest_of : String → Result String
  pub listed_rpms : String → Result String

-- The name of a trust file, its reviewed path and its staged location.
abbrev pub staged_files : List (String × String × String)
staged_files =
    ("cosign.pub", "cosign.pub", "/usr/share/bazzite-tower/containers/bazzite-tower-cosign.pub")
    ∷ (
      "policy.json", "system_files/usr/share/bazzite-tower/containers/policy.json",
      "/usr/share/bazzite-tower/containers/policy.json",
    )
    ∷ (
      "bazzite-tower.yaml",
      "system_files/usr/share/bazzite-tower/containers/registries.d/bazzite-tower.yaml",
      "/usr/share/bazzite-tower/containers/registries.d/bazzite-tower.yaml",
    )
    ∷ []

abbrev pub active_files : List (String × String)
active_files =
    ("cosign.pub", "/etc/pki/containers/bazzite-tower-cosign.pub")
    ∷ ("bazzite-tower.yaml", "/etc/containers/registries.d/bazzite-tower.yaml")
    ∷ []

module _ ⦃world : World⦄ ⦃images : Images⦄ where
  -- `pub.file_sha(path)` of a copied file
  abbrev pub node_sha : Node → Result String
  node_sha n = require (is_plain n) "invalid artifact file" >> ok (world.sha n.bytes)

  -- `pub.read(path)` of a copied file
  abbrev pub read_node : Node → Result Node
  read_node n = require (is_plain n && leb n.size mebibytes_16) "invalid data file" >> ok n

  abbrev pub copied_sha : String → String → Result String
  copied_sha image location = do n ← images.copied image location; node_sha n

  unfoldable pub staged_trust : String → String → List (String × String × String) → Result Fields
  unfolding file_sha
  staged_trust image root [] = ok end
  staged_trust image root ((name, original, location) ∷ rest) = do
    hash ← copied_sha image location
    reviewed ← file_sha (joined root original)
    require (hash =s= reviewed) "staged trust policy/key substitution"
    others ← staged_trust image root rest
    ok (field name (str hash) others)

  unfoldable pub check_active_files : String → Fields → List (String × String) → Result (Unit {0})
  check_active_files image trust [] = ok tt
  check_active_files image trust ((name, location) ∷ rest) = do
    hash ← copied_sha image location
    expected ← item name trust
    require (is_str hash expected) "active trust file substitution"
    check_active_files image trust rest

  -- The manifest of an installed binary, which has the binary's path and hash.
  unfoldable pub native_manifest : String → String → String → Result Json
  unfolding decode
  native_manifest image kind binary = do
    n ← images.copied image ("/usr/share/snitchwatch/system-" <> (kind <> "-manifest.json"))
    plain ← read_node n
    manifest ← decode plain.size plain.bytes
    copy ← images.copied image binary
    path ← item_at ("binary" ∷ "path" ∷ []) manifest
    hash ← node_sha copy
    expected ← item_at ("binary" ∷ "sha256" ∷ []) manifest
    require (is_str binary path && is_str hash expected) "installed native binary/manifest mismatch"
    ok manifest

  abbrev pub native_fields : String → String → Result Fields
  native_fields image expected =
      if expected =s= "system"
      then (do
        bridge ← native_manifest image "bridge" "/usr/bin/snitchwatch-bridge-cli"
        daemon ← native_manifest image "daemon" "/usr/bin/opensnitchd"
        ok (dict (("bridge", bridge) ∷ ("daemon", daemon) ∷ [])))
      else ok end

  unfoldable pub installed_profile : String → String → String → Result Fields
  unfolding staged_trust check_active_files decode active_policy native_manifest
  installed_profile image expected root = do
    profile ← images.copied image "/usr/share/bazzite-tower/snitchwatch-bridge-profile"
    require (profile.bytes =s= (expected <> "\n")) "installed bridge profile mismatch"
    trust ← staged_trust image root staged_files
    check_active_files image trust active_files
    policy_copy ← images.copied image "/etc/containers/policy.json"
    raw ← read_node policy_copy
    requested ← read_json (joined root policy_path)
    current ← decode raw.size raw.bytes
    active_policy requested current
    native ← native_fields image expected
    ok (
        field "profile" (str expected) (
          field "trust" (obj trust) (
            field "activePolicy" (str raw.bytes)
              (field "activePolicySha256" (str (world.sha raw.bytes)) native))))

  -- `actual_inventory`
  unfoldable pub actual_inventory : ⦃library : Library⦄ → String → Result (List Row)
  unfolding parse_inventory
  actual_inventory image = do text ← images.listed_rpms image; rows_or_error (parse_inventory text)

  -- The branch `if execute:`, of the image that is loaded.
  unfoldable pub check_loaded :
      ⦃library : Library⦄ → String → String → Fields → Fields → List Row → Result (Unit {0})
  unfolding installed_profile actual_inventory json_eq
  check_loaded root profile whole installed records = do
    let image = "localhost/bazzite-refresh-validation:" <> profile
    digest ← images.digest_of image
    expected ← item_at ("image" ∷ "manifestDigest" ∷ []) (obj whole)
    require (is_str digest expected) "loaded image identity mismatch"
    actual ← installed_profile image profile root
    require (json_eq (obj actual) (obj installed))
        "actual installed profile/trust/native source mismatch"
    found ← actual_inventory image
    require (same_rows found records) "actual installed RPM inventory mismatch"

  -- `validate` with execute=True: the documents are those that the checks before have read.
  unfoldable pub validate_loaded :
      ⦃dates : Dates⦄ ⦃library : Library⦄
      → String
      → String
      → String
      → String
      → String
      → Result (Fields × Fields)
  unfolding validate policy_of check_inventory decode check_loaded
  validate_loaded root data_root profile base version = do
    outcome ← validate root data_root profile base version
    p ← policy_of root
    records ← check_inventory data_root p
    installed_value ← read_json (joined data_root "installed.json")
    installed ← as_dict installed_value
    check_loaded root profile (outcome.0) installed records
    ok outcome
