-- ===== src/Refresh/Validate.antt =====
-- ci/base-refresh.py: the artifacts of a refresh, checked again without running anything of them.
pub mod Sound
use bazzite_tower.Prelude.{
  ℕ, String, ◌<>◌, Bool, true, false, ◌&&◌, not, Option, none, some, List, [], ◌∷◌, leb,
  if◌then◌else◌, ◌=s=◌, is_blank, Json, null, num, str, arr, obj, Items, nil, cons, Fields, end,
  field, get_field, set_field, item, as_dict, as_text, same_keys, json_eq, get_is, is_str, any,
  Result, ok, err, value_error, require, text_drop, text_strip, split_lines, ◌>>=◌, ◌>>◌,
}
use bazzite_tower.Refresh.Policy.{Dates, hex_value, policy}
use bazzite_tower.Refresh.Previous.{destination, predicate, listed}
use bazzite_tower.Refresh.Evidence.{
  trust_paths, policy_path, inventory_kernel, active_policy, environ_item, evidence,
}
use bazzite_tower.Publication.{World, Node, dict, decode, read, read_json, file_sha}
use bazzite_tower.Publication.Image.{image_identity}
use bazzite_tower.Publication.Candidate.{same_names, joined, item_at, check_sizes, hashes_of}
use bazzite_tower.Spdx.{Library, Row, Inventory, rows, parse_inventory, make_document}

-- FILES, and `sorted(FILES)`
abbrev pub refresh_files : List String
refresh_files =
    "image.oci.tar" ∷ "rpms.tsv" ∷ "sbom.json" ∷ "build-provenance.json" ∷ "installed.json" ∷ []

abbrev pub sorted_files : List String
sorted_files =
    "build-provenance.json" ∷ "image.oci.tar" ∷ "installed.json" ∷ "rpms.tsv" ∷ "sbom.json" ∷ []

abbrev pub installed_keys : String → List String
installed_keys profile =
    if profile =s= "system"
    then "profile" ∷ "trust" ∷ "activePolicy" ∷ "activePolicySha256" ∷ "bridge" ∷ "daemon" ∷ []
    else "profile" ∷ "trust" ∷ "activePolicy" ∷ "activePolicySha256" ∷ []

abbrev pub rows_or_error : Inventory → Result (List Row)
rows_or_error (rows rs) = ok rs
rows_or_error _ = err (value_error "invalid RPM inventory")

module _ ⦃world : World⦄ ⦃dates : Dates⦄ where
  -- `policy(root)`
  unfoldable pub policy_of : String → Result Fields
  unfolding decode read policy
  policy_of root = do
    document ← read_json (joined root ".github/base-refresh-policy.json")
    policy document

  abbrev pub trust_hashes : String → List (String × String) → Result Fields
  trust_hashes root [] = ok end
  trust_hashes root ((name, path) ∷ rest) = do
    hash ← file_sha (joined root path)
    others ← trust_hashes root rest
    ok (field name (str hash) others)

  abbrev pub same_trust : String → String → Json → Json → Result Bool
  same_trust root profile found trust =
      if is_str profile found
      then (do hashes ← trust_hashes root trust_paths; ok (json_eq trust (obj hashes)))
      else ok false

  -- A manifest of an installed binary, under the policy's source.
  unfoldable pub check_manifest : Fields → Json → String → String → Result (Unit {0})
  check_manifest p manifest source binary = do
    profile ← item_at ("profile" ∷ []) manifest
    found ← item_at ("source" ∷ []) manifest
    expected ← item source p
    require (is_str "system" profile && json_eq found expected)
        "installed native source substitution"
    path ← item_at ("binary" ∷ "path" ∷ []) manifest
    require (is_str binary path) "installed native binary path substitution"
    hash ← item_at ("binary" ∷ "sha256" ∷ []) manifest
    hex_value 64 hash

  unfoldable pub check_native : Fields → Fields → Result (Unit {0})
  unfolding check_manifest
  check_native p installed = do
    bridge ← item "bridge" installed
    check_manifest p bridge "nativeSource" "/usr/bin/snitchwatch-bridge-cli"
    daemon ← item "daemon" installed
    check_manifest p daemon "daemonSource" "/usr/bin/opensnitchd"
    patch ← item_at ("patch" ∷ "sha256" ∷ []) daemon
    expected ← item "daemonPatchSha256" p
    require (json_eq patch expected) "installed daemon patch substitution"

  -- The text of the active policy that was installed.
  unfoldable pub check_active : String → Fields → Result (Unit {0})
  unfolding decode read active_policy
  check_active root installed = do
    text_value ← item "activePolicy" installed
    text ← as_text text_value
    hash ← item "activePolicySha256" installed
    require (is_str (world.sha text) hash) "active installed policy hash mismatch"
    requested ← read_json (joined root policy_path)
    current ← decode (world.utf8_size text) text
    active_policy requested current

  unfoldable pub check_installed : String → Fields → String → Fields → Result (Unit {0})
  unfolding check_active check_native
  check_installed root p profile installed = do
    found ← item "profile" installed
    trust ← item "trust" installed
    same ← same_trust root profile found trust
    require same "installed profile/trust mismatch"
    require (same_keys (installed_keys profile) installed) "invalid installed evidence inventory"
    check_active root installed
    if profile =s= "system" then check_native p installed else ok tt

  -- The inventory, behind its SPDX document.
  unfoldable pub check_inventory : ⦃library : Library⦄ → String → Fields → Result (List Row)
  unfolding decode read parse_inventory make_document json_eq
  check_inventory data_root p = do
    records ← rows_or_error (parse_inventory (world.node (joined data_root "rpms.tsv")).bytes)
    sbom ← read_json (joined data_root "sbom.json")
    created_value ← item "sourceCreated" p
    created ← as_text created_value
    require (json_eq sbom (make_document records created)) "RPM/SPDX substitution"
    ok records

  -- The evidence that the artifacts give, without the hash of the installed files.
  unfoldable pub proof_of : String → Fields → String → String → String → List Row → Result Fields
  unfolding image_identity file_sha inventory_kernel evidence
  proof_of data_root p profile base version records = do
    image ← image_identity (world.archive (joined data_root "image.oci.tar"))
    sbom_hash ← file_sha (joined data_root "sbom.json")
    kernel ← inventory_kernel records
    evidence p profile base version image sbom_hash kernel

  -- The hash of the installed files is added, and the whole compared with the provenance.
  unfoldable pub check_proof : String → Fields → Result Fields
  unfolding file_sha decode read json_eq
  check_proof data_root proof = do
    installed_hash ← file_sha (joined data_root "installed.json")
    let whole = set_field "installedSha256" (str installed_hash) proof
    provenance ← read_json (joined data_root "build-provenance.json")
    require (json_eq provenance (obj whole)) "base/source/profile/provenance substitution"
    ok whole

  -- `validate` with execute=False
  unfoldable pub validate :
      ⦃library : Library⦄ → String → String → String → String → String → Result (Fields × Fields)
  unfolding policy_of check_inventory proof_of check_installed check_proof file_sha decode read
  validate root data_root profile base version = do
    p ← policy_of root
    require (same_names (world.listing data_root) refresh_files) "unexpected artifact inventory"
    check_sizes data_root (world.listing data_root)
    records ← check_inventory data_root p
    proof ← proof_of data_root p profile base version records
    installed_value ← read_json (joined data_root "installed.json")
    installed ← as_dict installed_value
    check_installed root p profile installed
    whole ← check_proof data_root proof
    hashes ← hashes_of data_root sorted_files
    ok (whole, hashes)

  unfoldable pub revalidate :
      ⦃library : Library⦄ → String → String → String → String → String → Result Fields
  unfolding validate decode json_eq
  revalidate root data_root profile base version = do
    outcome ← validate root data_root profile base version
    let (proof, hashes) = outcome
    text ← environ_item "VALIDATED_HASHES"
    expected ← decode (world.utf8_size text) text
    require (json_eq (obj hashes) expected) "validated artifact bytes changed"
    digest ← item_at ("image" ∷ "manifestDigest" ∷ []) (obj proof)
    validated ← environ_item "VALIDATED_DIGEST"
    require (is_str validated digest) "validated digest changed"
    ok proof

  unfoldable pub fresh : String → String → Result (Unit {0})
  unfolding policy_of read
  fresh root current = do
    _ ← policy_of root
    reviewed ← read (joined root ".github/base-refresh-policy.json")
    now ← read current
    require (reviewed.bytes =s= now.bytes) "stale main policy: pointers must not move"
