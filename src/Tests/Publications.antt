-- ===== src/Tests/Publications.antt =====
-- The theorems on the publication gates in a world with a candidate that is accepted.
use bazzite_tower.Prelude.{
  ℕ, ◌<>◌, ◌≡◌, refl, String, true, false, Option, none, some, List, [], ◌∷◌, All, if◌then◌else◌,
  ◌=s=◌, is_free, split_on, Json, null, num, str, arr, obj, nil, cons, Fields, end, field, ok,
  strip_prefix, json_eq,
}
use bazzite_tower.Publication.{
  World, Member, repository, candidate_repository, candidate_ref, candidate_workflow, is_unique,
  dict, digest, decode, read, file_sha, identity, hashed_json, receipt, authority,
  candidate_approval,
}
use bazzite_tower.Publication.Approved.{Approved, candidate_approval-Approved}
use bazzite_tower.Publication.Image.{
  image_of, add_member, inventory, blob, check_blob, check_blobs, index_descriptor,
  described_manifest, select, check_image, image_identity,
}
use bazzite_tower.Publication.Image.Bound.{Verified, image_identity-Verified}
use bazzite_tower.Publication.Outputs.{ends_line, lines_of, output, output-lines_of}
use bazzite_tower.Publication.Candidate.{
  artifact_files, check_artifacts, check_candidate, check_hashes, check_files, check_trust,
  check_manifests, check_sbom, check_provenance, validate_candidate,
}
use bazzite_tower.Publication.Candidate.Bytes.{Accepted, validate_candidate-Accepted}

abbrev head : String
head = "dddddddddddddddddddddddddddddddddddddddd"

-- The hashes of the manifest, of the config and of anything else.
abbrev pub manifest_hash : String
manifest_hash = "aaaaaaaaaaaaaaaaaaaaaaaaaaaaaaaaaaaaaaaaaaaaaaaaaaaaaaaaaaaaaaaa"

abbrev config_hash : String
config_hash = "bbbbbbbbbbbbbbbbbbbbbbbbbbbbbbbbbbbbbbbbbbbbbbbbbbbbbbbbbbbbbbbb"

abbrev pub other_hash : String
other_hash = "cccccccccccccccccccccccccccccccccccccccccccccccccccccccccccccccc"

abbrev described : String → Json
described hash = obj (dict (("digest", str ("sha256:" <> hash)) ∷ ("size", num 1) ∷ []))

abbrev ids : Fields
ids = dict (
    ("towerCommit", str head)
    ∷ ("towerTree", str head)
    ∷ ("sourceCommit", str head)
    ∷ ("sourceTree", str head)
    ∷ ("submoduleCommit", str head)
    ∷ ("bridgePinsSha256", str other_hash)
    ∷ ("daemonPinsSha256", str other_hash)
    ∷ ("workflowSha256", str other_hash)
    ∷ [])

abbrev pub image : Json
image = image_of "sha256:aaaaaaaaaaaaaaaaaaaaaaaaaaaaaaaaaaaaaaaaaaaaaaaaaaaaaaaaaaaaaaaa"

abbrev demo_files : Fields
demo_files = dict (
    ("image.oci.tar", str other_hash)
    ∷ ("sbom.json", str other_hash)
    ∷ ("build-provenance.json", str other_hash)
    ∷ ("bridge-manifest.json", str other_hash)
    ∷ ("daemon-manifest.json", str other_hash)
    ∷ ("cosign.pub", str other_hash)
    ∷ ("policy.json", str other_hash)
    ∷ ("bazzite-tower.yaml", str other_hash)
    ∷ [])

abbrev demo_candidate : Fields
demo_candidate = dict (
    ("schemaVersion", num 1)
    ∷ ("repository", str candidate_repository)
    ∷ ("ref", str candidate_ref)
    ∷ ("workflow", str candidate_workflow)
    ∷ ("runId", num 7)
    ∷ ("runAttempt", num 1)
    ∷ ("identities", obj ids)
    ∷ ("image", image)
    ∷ ("files", obj demo_files)
    ∷ [])

abbrev demo_receipt : Fields
demo_receipt = dict (
    ("schemaVersion", num 1)
    ∷ ("kind", str "independent-workflow-review")
    ∷ ("packetSha256", str other_hash)
    ∷ ("identities", obj ids)
    ∷ ("reviewer", str "reviewer-1")
    ∷ ("evidenceSha256", str other_hash)
    ∷ ("verdict", str "PASS")
    ∷ [])

abbrev binary : String → Json
binary path = obj (dict (("path", str path) ∷ ("sha256", str other_hash) ∷ []))

abbrev source_document : Json
source_document =
    obj (dict (("commit", str head) ∷ ("tree", str head) ∷ ("submoduleCommit", str head) ∷ []))

abbrev pub find_document : String → List (String × Json) → Option Json
find_document text [] = none
find_document text ((key, v) ∷ table) = if text =s= key then some v else find_document text table

-- What the files hold, each under its path.
abbrev pub documents : List (String × Json)
documents =
    (
      "control/.github/r13/authority.json",
      obj (
          dict (
            ("schemaVersion", num 1)
            ∷ (
              "candidate",
              obj (dict (("identities", obj ids) ∷ ("reviewReceiptSha256", str other_hash) ∷ [])),
            )
            ∷ ("accepted", null)
            ∷ [])),
    )
    ∷ ("receipt\n", obj demo_receipt)
    ∷ ("data/candidate.json", obj demo_candidate)
    ∷ (
      "data/bridge-manifest.json",
      obj (
          dict (
            ("profile", str "system")
            ∷ ("source", source_document)
            ∷ ("binary", binary "/usr/bin/snitchwatch-bridge-cli")
            ∷ [])),
    )
    ∷ (
      "data/daemon-manifest.json",
      obj (
          dict (
            ("profile", str "system")
            ∷ ("source", source_document)
            ∷ ("binary", binary "/usr/bin/opensnitchd")
            ∷ [])),
    )
    ∷ (
      "data/sbom.json",
      obj (dict (("spdxVersion", str "SPDX-2.3") ∷ ("packages", arr (cons (str "bash") nil)) ∷ [])),
    )
    ∷ ("layout", obj (dict (("imageLayoutVersion", str "1.0.0") ∷ [])))
    ∷ (
      "index",
      obj (
          dict (
            ("schemaVersion", num 2)
            ∷ ("manifests", arr (cons (described manifest_hash) nil))
            ∷ [])),
    )
    ∷ (
      "m",
      obj (
          dict (
            ("mediaType", str "application/vnd.oci.image.manifest.v1+json")
            ∷ ("config", described config_hash)
            ∷ ("layers", arr (cons (described other_hash) nil))
            ∷ [])),
    )
    ∷ ("c", obj (dict (("architecture", str "amd64") ∷ ("os", str "linux") ∷ [])))
    ∷ []

abbrev file_of : String → ℕ → String → Member
file_of name size bytes = record {
  name = name;
  is_directory = false;
  is_file = true;
  size = size;
  bytes = bytes;
}

abbrev pub demo_archive : List Member
demo_archive =
    file_of "./oci-layout" 6 "layout"
    ∷ file_of "index.json" 5 "index"
    ∷ file_of "blobs/sha256/aaaaaaaaaaaaaaaaaaaaaaaaaaaaaaaaaaaaaaaaaaaaaaaaaaaaaaaaaaaaaaaa" 1 "m"
    ∷ file_of "blobs/sha256/bbbbbbbbbbbbbbbbbbbbbbbbbbbbbbbbbbbbbbbbbbbbbbbbbbbbbbbbbbbbbbbb" 1 "c"
    ∷ file_of "blobs/sha256/cccccccccccccccccccccccccccccccccccccccccccccccccccccccccccccccc" 1 "l"
    ∷ []

abbrev pub sha_of : String → String
sha_of bytes =
    if bytes =s= "m" then manifest_hash else if bytes =s= "c" then config_hash else other_hash

abbrev provenance : Json
provenance = obj (
    dict (
      ("schemaVersion", num 1)
      ∷ ("kind", str "candidate-build")
      ∷ ("repository", str repository)
      ∷ ("workflow", str candidate_workflow)
      ∷ ("ref", str candidate_ref)
      ∷ ("runId", num 7)
      ∷ ("runAttempt", num 1)
      ∷ ("identities", obj ids)
      ∷ ("image", image)
      ∷ ("sbomSha256", str other_hash)
      ∷ ("bridgeManifestSha256", str other_hash)
      ∷ ("daemonManifestSha256", str other_hash)
      ∷ []))

instance abbrev demo_world : World
demo_world = record {
  node = λ path. record {
    is_link = false;
    is_file = true;
    size = 100;
    bytes =
        if path
          =s= "control/.github/r13/receipts/cccccccccccccccccccccccccccccccccccccccccccccccccccccccccccccccc.json"
        then "receipt\n"
        else path;
  };
  listing = λ path. artifact_files;
  archive = λ path. demo_archive;
  environ = λ name. none;
  git = λ root arguments. ok head;
  loads = λ text. find_document text (("data/build-provenance.json", provenance) ∷ documents);
  utf8_size = λ text. 100;
  dumps = λ v. "receipt";
  sha = sha_of;
  to_int = λ text. ok 7;
}

approval_of_demo : candidate_approval "control" head ≡ ok ids
unfolding candidate_approval authority read decode is_unique identity receipt hashed_json json_eq
    strip_prefix
approval_of_demo = refl

candidate_approval-Approved_example : Approved "control" head ids
candidate_approval-Approved_example =
    candidate_approval-Approved "control" head ids approval_of_demo

image_of_demo : image_identity demo_archive ≡ ok image
unfolding image_identity inventory add_member select index_descriptor described_manifest blob digest
    decode is_unique check_image check_blobs check_blob json_eq strip_prefix split_on
image_of_demo = refl

image_identity-Verified_example : Verified demo_archive image
image_identity-Verified_example = image_identity-Verified demo_archive image image_of_demo

candidate_of_demo : validate_candidate "control" "data" head 7 ≡ ok demo_candidate
unfolding validate_candidate candidate_approval authority read decode is_unique identity receipt
    hashed_json json_eq strip_prefix check_artifacts check_candidate image_identity inventory
    add_member select index_descriptor described_manifest blob digest check_image check_blobs
    check_blob split_on check_files check_hashes file_sha check_trust check_manifests check_sbom
    check_provenance
candidate_of_demo = refl

validate_candidate-Accepted_example : Accepted "control" "data" head 7 demo_candidate
validate_candidate-Accepted_example =
    validate_candidate-Accepted "control" "data" head 7 demo_candidate candidate_of_demo

abbrev demo_outputs : Fields
demo_outputs = field "digest" (str "sha256:00") (field "run_id" (str "7") end)

outputs_of_demo : output demo_outputs ≡ ok ("digest=sha256:00" ∷ "run_id=7" ∷ [])
unfolding output
outputs_of_demo = refl

output-lines_of_example :
    (("digest=sha256:00" ∷ "run_id=7" ∷ []) ≡ lines_of demo_outputs)
    × All (λ line. is_free ends_line line ≡ true) ("digest=sha256:00" ∷ "run_id=7" ∷ [])
output-lines_of_example =
    output-lines_of demo_outputs ("digest=sha256:00" ∷ "run_id=7" ∷ []) outputs_of_demo
