-- ===== src/Publication/Candidate.antt =====
-- ci/r13-publication.py: the source and the artifacts of a candidate, and the gate's modes.
pub mod Bytes
use bazzite_tower.Prelude.{
  ℕ, String, Bool, true, false, ◌&&◌, ◌||◌, not, Option, none, some, List, [], ◌∷◌, leb, ◌==◌,
  if◌then◌else◌, ◌=s=◌, length, all, member, is_blank, ◌<>◌, Json, null, bool, num, str, arr, obj,
  Items, nil, cons, Fields, end, field, get_field, item, is_truthy, keys, as_dict, as_text,
  same_keys, json_eq, get_is, is_str, is_num, Result, ok, err, require, ◌>>=◌, ◌>>◌,
}
use bazzite_tower.Refresh.Policy.{hex_value}
use bazzite_tower.Publication.{
  World, repository, candidate_repository, candidate_ref, candidate_workflow, dict, decode,
  is_plain, read_json, file_sha, candidate_approval, context,
}
use bazzite_tower.Publication.Image.{image_identity}
use bazzite_tower.Publication.Outputs.{output}

-- FILES
abbrev pub artifact_files : List String
artifact_files =
    "image.oci.tar" ∷ "candidate.json" ∷ "sbom.json" ∷ "build-provenance.json"
    ∷ "bridge-manifest.json" ∷ "daemon-manifest.json" ∷ "cosign.pub" ∷ "policy.json"
    ∷ "bazzite-tower.yaml" ∷ []

-- FILES - {'candidate.json'}
abbrev pub hashed_files : List String
hashed_files =
    "image.oci.tar" ∷ "sbom.json" ∷ "build-provenance.json" ∷ "bridge-manifest.json"
    ∷ "daemon-manifest.json" ∷ "cosign.pub" ∷ "policy.json" ∷ "bazzite-tower.yaml" ∷ []

abbrev pub trust_files : List (String × String)
trust_files =
    ("cosign.pub", "cosign.pub")
    ∷ ("policy.json", "system_files/usr/share/bazzite-tower/containers/policy.json")
    ∷ (
      "bazzite-tower.yaml",
      "system_files/usr/share/bazzite-tower/containers/registries.d/bazzite-tower.yaml",
    )
    ∷ []

-- Equality of two sets of names.
abbrev pub same_names : List String → List String → Bool
same_names names others = all (λ n. member n others) names && all (λ n. member n names) others

abbrev pub joined : String → String → String
joined directory name = directory <> ("/" <> name)

-- `value[key][key]...`
abbrev pub item_at : List String → Json → Result Json
item_at [] v = ok v
item_at (k ∷ ks) v = do fs ← as_dict v; w ← item k fs; item_at ks w

abbrev pub candidate_keys : List String
candidate_keys =
    "schemaVersion" ∷ "repository" ∷ "ref" ∷ "workflow" ∷ "runId" ∷ "runAttempt" ∷ "identities"
    ∷ "image" ∷ "files" ∷ []

module _ ⦃world : World⦄ where
  -- `pins[key] == ids[key]` for the keys
  abbrev pub same_pins : List String → Fields → Fields → Result (Unit {0})
  same_pins [] pins ids = ok tt
  same_pins (k ∷ ks) pins ids = do
    pin ← item k pins
    id ← item k ids
    require (json_eq pin id) "source pin mismatch"
    same_pins ks pins ids

  abbrev pub check_pin : String → String → Fields → Result (Unit {0})
  check_pin path key ids = do
    hash ← file_sha path
    expected ← item key ids
    require (is_str hash expected) "pins hash mismatch"

  -- `git(...) == ids[key]`
  abbrev pub git_is : String → List String → String → Fields → Result Bool
  git_is root arguments key ids = do
    answer ← world.git root arguments
    expected ← item key ids
    ok (is_str answer expected)

  unfoldable pub verify_source : String → Fields → Result (Unit {0})
  unfolding file_sha decode
  verify_source root ids = do
    at_commit ← git_is root ("rev-parse" ∷ "HEAD" ∷ []) "towerCommit" ids
    at_tree ←
        (if at_commit
          then git_is root ("rev-parse" ∷ "HEAD^{tree}" ∷ []) "towerTree" ids
          else ok false)
    require at_tree "tower source mismatch"
    status ← world.git root ("status" ∷ "--porcelain" ∷ "--untracked-files=all" ∷ [])
    require (is_blank status) "dirty tower source"
    workflow ← file_sha (joined root candidate_workflow)
    expected ← item "workflowSha256" ids
    require (is_str workflow expected) "workflow bytes changed"
    document ← read_json (joined root "build_files/firewall/snitchwatch-system-pins.json")
    pins ← as_dict document
    same_pins ("sourceCommit" ∷ "sourceTree" ∷ "submoduleCommit" ∷ []) pins ids
    check_pin (joined root "build_files/firewall/snitchwatch-system-pins.json") "bridgePinsSha256"
        ids
    check_pin (joined root "build_files/firewall/snitchwatch-system-daemon-pins.json")
        "daemonPinsSha256" ids

  abbrev pub size_limit : String → ℕ
  size_limit name = if name =s= "image.oci.tar" then 42949672960 else 16777216

  abbrev pub check_sizes : String → List String → Result (Unit {0})
  check_sizes data_root [] = ok tt
  check_sizes data_root (name ∷ names) =
      require
        (is_plain (world.node (joined data_root name))
          && leb (world.node (joined data_root name)).size (size_limit name))
        "invalid/oversized artifact"
      >> check_sizes data_root names

  -- The names and the sizes of the artifacts.
  unfoldable pub check_artifacts : String → Result (Unit {0})
  check_artifacts data_root =
      require (same_names (world.listing data_root) artifact_files) "unexpected artifact inventory"
      >> check_sizes data_root (world.listing data_root)

  -- The candidate's document, up to its image.
  unfoldable pub check_candidate : String → Fields → ℕ → Result Fields
  unfolding decode
  check_candidate data_root ids run_id = do
    document ← read_json (joined data_root "candidate.json")
    candidate ← as_dict document
    require (same_keys candidate_keys candidate) "invalid candidate metadata"
    require
        (get_is (is_num 1) "schemaVersion" candidate
          && (get_is (is_str candidate_repository) "repository" candidate
              && (get_is (is_str candidate_ref) "ref" candidate
                  && get_is (is_str candidate_workflow) "workflow" candidate)))
        "candidate target/ref substitution"
    require
        (get_is (is_num run_id) "runId" candidate
          && (get_is (is_num 1) "runAttempt" candidate
              && get_is (json_eq (obj ids)) "identities" candidate))
        "candidate CI/source identity mismatch"
    ok candidate

  abbrev pub check_image_of : String → Fields → Result (Unit {0})
  check_image_of data_root candidate = do
    image ← image_identity (world.archive (joined data_root "image.oci.tar"))
    require (get_is (json_eq image) "image" candidate)
        "candidate manifest/index/platform substitution"

  -- `for name, expected in candidate['files'].items()`
  unfoldable pub check_hashes : String → Fields → Result (Unit {0})
  unfolding file_sha
  check_hashes data_root end = ok tt
  check_hashes data_root (field name expected files) = do
    hex_value 64 expected
    hash ← file_sha (joined data_root name)
    require (is_str hash expected) "artifact hash mismatch"
    check_hashes data_root files

  unfoldable pub check_files : String → Fields → Result Fields
  unfolding check_hashes
  check_files data_root candidate = do
    document ← item "files" candidate
    files ← as_dict document
    require (same_keys hashed_files files) "invalid candidate file hashes"
    check_hashes data_root files
    ok files

  unfoldable pub check_trust : String → String → List (String × String) → Result (Unit {0})
  unfolding file_sha
  check_trust root data_root [] = ok tt
  check_trust root data_root ((name, source) ∷ rest) = do
    hash ← file_sha (joined data_root name)
    trusted ← file_sha (joined root source)
    require (hash =s= trusted) "trust policy/key substitution"
    check_trust root data_root rest

  -- The manifests of the installed binaries.
  unfoldable pub check_manifests : String → Fields → Result (Unit {0})
  unfolding decode
  check_manifests data_root ids = do
    bridge ← read_json (joined data_root "bridge-manifest.json")
    daemon ← read_json (joined data_root "daemon-manifest.json")
    bridge_profile ← item_at ("profile" ∷ []) bridge
    daemon_profile ← item_at ("profile" ∷ []) daemon
    require (json_eq bridge_profile daemon_profile && is_str "system" daemon_profile)
        "wrong installed profile"
    bridge_source ← item_at ("source" ∷ []) bridge
    commit ← item "sourceCommit" ids
    tree ← item "sourceTree" ids
    submodule ← item "submoduleCommit" ids
    require
        (json_eq bridge_source
          (obj (dict (("commit", commit) ∷ ("tree", tree) ∷ ("submoduleCommit", submodule) ∷ []))))
        "bridge source mismatch"
    bridge_path ← item_at ("binary" ∷ "path" ∷ []) bridge
    daemon_path ← item_at ("binary" ∷ "path" ∷ []) daemon
    require
        (is_str "/usr/bin/snitchwatch-bridge-cli" bridge_path
          && is_str "/usr/bin/opensnitchd" daemon_path)
        "installed binary path substitution"
    daemon_commit ← item_at ("source" ∷ "commit" ∷ []) daemon
    require (json_eq daemon_commit submodule) "daemon/submodule mismatch"
    bridge_hash ← item_at ("binary" ∷ "sha256" ∷ []) bridge
    hex_value 64 bridge_hash
    daemon_hash ← item_at ("binary" ∷ "sha256" ∷ []) daemon
    hex_value 64 daemon_hash

  unfoldable pub check_sbom : String → Result (Unit {0})
  unfolding decode
  check_sbom data_root = do
    document ← read_json (joined data_root "sbom.json")
    sbom ← as_dict document
    require (get_is (is_str "SPDX-2.3") "spdxVersion" sbom && is_truthy (get_field "packages" sbom))
        "invalid RPM inventory"

  -- What the provenance has to be.
  abbrev pub provenance_of : Fields → ℕ → Json → Json → Json → Json → Json
  provenance_of ids run_id image sbom bridge daemon = obj (
      dict (
        ("schemaVersion", num 1)
        ∷ ("kind", str "candidate-build")
        ∷ ("repository", str repository)
        ∷ ("workflow", str candidate_workflow)
        ∷ ("ref", str candidate_ref)
        ∷ ("runId", num run_id)
        ∷ ("runAttempt", num 1)
        ∷ ("identities", obj ids)
        ∷ ("image", image)
        ∷ ("sbomSha256", sbom)
        ∷ ("bridgeManifestSha256", bridge)
        ∷ ("daemonManifestSha256", daemon)
        ∷ []))

  unfoldable pub check_provenance : String → Fields → ℕ → Fields → Fields → Result (Unit {0})
  unfolding decode
  check_provenance data_root ids run_id candidate files = do
    provenance ← read_json (joined data_root "build-provenance.json")
    image ← item "image" candidate
    sbom ← item "sbom.json" files
    bridge ← item "bridge-manifest.json" files
    daemon ← item "daemon-manifest.json" files
    require (json_eq provenance (provenance_of ids run_id image sbom bridge daemon))
        "build provenance substitution"

  unfoldable pub validate_candidate : String → String → String → ℕ → Result Fields
  unfolding candidate_approval check_artifacts check_candidate image_identity check_files
      check_trust check_manifests check_sbom check_provenance
  validate_candidate root data_root head run_id = do
    ids ← candidate_approval root head
    check_artifacts data_root
    candidate ← check_candidate data_root ids run_id
    check_image_of data_root candidate
    files ← check_files data_root candidate
    check_trust root data_root trust_files
    check_manifests data_root ids
    check_sbom data_root
    check_provenance data_root ids run_id candidate files
    ok candidate

  -- `{p.name: file_sha(p) for p in args.data.iterdir()}`
  abbrev pub hashes_of : String → List String → Result Fields
  hashes_of data_root [] = ok end
  hashes_of data_root (name ∷ names) = do
    hash ← file_sha (joined data_root name)
    rest ← hashes_of data_root names
    ok (field name (str hash) rest)

  abbrev pub environ_or_empty : Option String → String
  environ_or_empty none = ""
  environ_or_empty (some text) = text

  abbrev pub environ_get : String → String
  environ_get name = environ_or_empty (world.environ name)

-- `args.mode`
pub data Mode : Type 0 where
  approval source candidate : Mode

module _ ⦃world : World⦄ where
  abbrev pub candidate_outputs : String → String → Fields → Result Fields
  candidate_outputs data_root head value = do
    digest_value ← item_at ("image" ∷ "manifestDigest" ∷ []) (obj value)
    hashes ← hashes_of data_root (world.listing data_root)
    ok (
        dict (
          ("digest", digest_value)
          ∷ ("hashes", obj hashes)
          ∷ ("head", str head)
          ∷ ("run_id", str (environ_get "GITHUB_RUN_ID"))
          ∷ []))

  abbrev pub in_mode : Mode → String → String → String → String → Result (List String)
  in_mode approval control source_root data_root head = do
    _ ← candidate_approval control head
    ok []
  in_mode source control source_root data_root head = do
    ids ← candidate_approval control head
    verify_source source_root ids
    ok []
  in_mode candidate control source_root data_root head = do
    run_id ← world.to_int (environ_get "GITHUB_RUN_ID")
    value ← validate_candidate control data_root head run_id
    outputs ← candidate_outputs data_root head value
    output outputs

  -- The lines that `main` writes to GITHUB_OUTPUT.
  unfoldable pub main : Mode → String → String → String → Result (List String)
  unfolding context candidate_approval verify_source validate_candidate output
  main mode control source_root data_root =
      let head = environ_get "R13_CANDIDATE_HEAD" in
      context head (environ_get "GITHUB_REF") (environ_get "GITHUB_WORKFLOW_REF")
        (environ_get "R13_CONTROL_HEAD")
      >> in_mode mode control source_root data_root head
