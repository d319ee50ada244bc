-- ===== src/Tests/Refreshes.antt =====
-- The theorems on validated artifacts of a refresh, in a world with artifacts that are accepted.
use bazzite_tower.Prelude.{
  ◌≡◌, refl, String, true, false, Option, some, List, [], ◌∷◌, if◌then◌else◌, ◌=s=◌, split_on,
  split_lines, Json, num, str, arr, obj, nil, cons, Fields, ok, strip_prefix, json_eq, same_codes,
}
use bazzite_tower.Refresh.Version.{base_version, kernel_version, at_least}
use bazzite_tower.Refresh.Policy.{policy}
use bazzite_tower.Refresh.Previous.{workflow}
use bazzite_tower.Refresh.Evidence.{
  destination_text, reject, signed_by, inventory_kernel, immutable_base, active_policy,
  environ_item, check_floors, evidence_document, evidence,
}
use bazzite_tower.Refresh.Validate.{
  policy_of, check_active, check_installed, check_inventory, proof_of, check_proof, refresh_files,
  validate, revalidate,
}
use bazzite_tower.Refresh.Validate.Sound.{Validated, revalidate-Validated}
use bazzite_tower.Publication.{World, Node, dict, is_unique, digest, decode, read, file_sha}
use bazzite_tower.Publication.Image.{
  add_member, inventory, blob, check_blob, check_blobs, index_descriptor, described_manifest,
  select, check_image, image_identity,
}
use bazzite_tower.Publication.Candidate.{item_at}
use bazzite_tower.Spdx.{
  Row, Library, parse_inventory, read_rows, package_id, package_of, packages, relationship,
  relationships, make_document,
}
use bazzite_tower.Refresh.Installed.{
  Images, staged_trust, check_active_files, native_manifest, installed_profile, actual_inventory,
  check_loaded, validate_loaded,
}
use bazzite_tower.Tests.Policies.{demo_sha, demo_dates, whole_policy}
use bazzite_tower.Tests.Publications.{
  other_hash, image, demo_archive, sha_of, find_document, documents,
}

instance abbrev demo_library : Library
demo_library = record { sha256 = λ text. other_hash; is_decimal = λ text. true }

abbrev kernel_row : Row
kernel_row = record {
  name = "kernel-core";
  epoch = "0";
  version = "7.2.9";
  release = "ogc3.1.fc44";
  arch = "x86_64";
}

abbrev base_image : String
base_image =
    "ghcr.io/ublue-os/bazzite-nvidia-open@sha256:aaaaaaaaaaaaaaaaaaaaaaaaaaaaaaaaaaaaaaaaaaaaaaaaaaaaaaaaaaaaaaaa"

abbrev signed_policy : Json
signed_policy = obj (
    dict (
      ("default", reject)
      ∷ (
        "transports",
        obj (
            dict (
              (
                "docker",
                obj (
                    dict (
                      (destination_text, signed_by "/etc/pki/containers/bazzite-tower-cosign.pub")
                      ∷ [])),
              )
              ∷ [])),
      )
      ∷ []))

abbrev demo_trust : Json
demo_trust = obj (
    dict (
      ("cosign.pub", str other_hash)
      ∷ ("policy.json", str other_hash)
      ∷ ("bazzite-tower.yaml", str other_hash)
      ∷ []))

abbrev demo_installed : Json
demo_installed = obj (
    dict (
      ("profile", str "legacy")
      ∷ ("trust", demo_trust)
      ∷ ("activePolicy", str "active")
      ∷ ("activePolicySha256", str other_hash)
      ∷ []))

abbrev demo_proof : Fields
demo_proof = dict (
    ("schemaVersion", num 1)
    ∷ ("kind", str "accepted-source-base-refresh")
    ∷ ("repository", str "bearyjd/bazzite-tower")
    ∷ ("workflow", workflow)
    ∷ ("ref", str "refs/heads/main")
    ∷ ("controlCommit", str demo_sha)
    ∷ ("runId", num 7)
    ∷ ("runAttempt", num 7)
    ∷ ("policySha256", str other_hash)
    ∷ ("sourceCommit", str demo_sha)
    ∷ ("sourceTree", str demo_sha)
    ∷ ("profile", str "legacy")
    ∷ ("imageTag", str "latest")
    ∷ ("channels", arr (cons (str "stable") (cons (str "latest") nil)))
    ∷ ("baseImage", str base_image)
    ∷ ("baseVersion", str "44.20261024")
    ∷ ("kernel", str "7.2.9-ogc3.1.fc44")
    ∷ ("image", image)
    ∷ ("sbomSha256", str other_hash)
    ∷ ("installedSha256", str other_hash)
    ∷ [])

abbrev demo_hashes : Fields
demo_hashes = dict (
    ("build-provenance.json", str other_hash)
    ∷ ("image.oci.tar", str other_hash)
    ∷ ("installed.json", str other_hash)
    ∷ ("rpms.tsv", str other_hash)
    ∷ ("sbom.json", str other_hash)
    ∷ [])

-- What `make_document` gives for the kernel's row.
abbrev demo_sbom : Json
demo_sbom = obj (
    dict (
      ("spdxVersion", str "SPDX-2.3")
      ∷ ("dataLicense", str "CC0-1.0")
      ∷ ("SPDXID", str "SPDXRef-DOCUMENT")
      ∷ ("name", str "bazzite-tower installed RPM inventory")
      ∷ (
        "documentNamespace",
        str
            "https://spdx.org/spdxdocs/bazzite-tower-rpm-inventory-cccccccccccccccccccccccccccccccccccccccccccccccccccccccccccccccc",
      )
      ∷ (
        "creationInfo",
        obj (
            dict (
              ("created", str "2026-11-07T01:33:27Z")
              ∷ ("creators", arr (cons (str "Tool: bazzite-tower-rpm-inventory-spdx-1.0.0") nil))
              ∷ [])),
      )
      ∷ (
        "packages",
        arr (
            cons
              (obj (
                dict (
                  ("SPDXID", str "SPDXRef-RPM-cccccccccccccccc")
                  ∷ ("name", str "kernel-core")
                  ∷ ("versionInfo", str "0:7.2.9-ogc3.1.fc44.x86_64")
                  ∷ ("downloadLocation", str "NOASSERTION")
                  ∷ ("filesAnalyzed", Json.bool false)
                  ∷ ("licenseConcluded", str "NOASSERTION")
                  ∷ ("licenseDeclared", str "NOASSERTION")
                  ∷ ("copyrightText", str "NOASSERTION")
                  ∷ [])))
              nil),
      )
      ∷ (
        "relationships",
        arr (
            cons
              (obj (
                dict (
                  ("spdxElementId", str "SPDXRef-DOCUMENT")
                  ∷ ("relationshipType", str "DESCRIBES")
                  ∷ ("relatedSpdxElement", str "SPDXRef-RPM-cccccccccccccccc")
                  ∷ [])))
              nil),
      )
      ∷ []))

abbrev refresh_documents : List (String × Json)
refresh_documents =
    ("control/.github/base-refresh-policy.json", obj whole_policy)
    ∷ ("control/system_files/usr/share/bazzite-tower/containers/policy.json", signed_policy)
    ∷ ("active", signed_policy)
    ∷ ("data/installed.json", demo_installed)
    ∷ ("data/build-provenance.json", obj demo_proof)
    ∷ ("hashes", obj demo_hashes)
    ∷ ("data/sbom.json", demo_sbom)
    ∷ documents

abbrev demo_environ : String → Option String
demo_environ name =
    if name =s= "VALIDATED_HASHES"
    then some "hashes"
    else if name =s= "VALIDATED_DIGEST"
    then some "sha256:aaaaaaaaaaaaaaaaaaaaaaaaaaaaaaaaaaaaaaaaaaaaaaaaaaaaaaaaaaaaaaaa"
    else if name =s= "GITHUB_SHA"
    then some demo_sha
    else if name =s= "CONTROL"
    then some "control"
    else some "7"

instance abbrev demo_world : World
demo_world = record {
  node = λ path. record {
    is_link = false;
    is_file = true;
    size = 100;
    bytes =
        if path =s= "data/rpms.tsv" then "kernel-core\t0\t7.2.9\togc3.1.fc44\tx86_64\n" else path;
  };
  listing = λ path. refresh_files;
  archive = λ path. demo_archive;
  environ = demo_environ;
  git = λ root arguments. ok demo_sha;
  loads = λ text. find_document text refresh_documents;
  utf8_size = λ text. 100;
  dumps = λ v. "document";
  sha = sha_of;
  to_int = λ text. ok 7;
}

validated :
    validate "control" "data" "legacy" base_image "44.20261024" ≡ ok (demo_proof, demo_hashes)
unfolding validate policy_of decode read is_unique policy base_version kernel_version
    check_inventory parse_inventory read_rows split_lines split_on make_document packages package_of
    package_id relationships relationship proof_of image_identity inventory add_member select
    index_descriptor described_manifest blob digest check_image check_blobs check_blob
    inventory_kernel evidence check_floors immutable_base evidence_document file_sha check_installed
    check_active active_policy check_proof json_eq strip_prefix same_codes at_least
validated = refl

revalidated : revalidate "control" "data" "legacy" base_image "44.20261024" ≡ ok demo_proof
unfolding revalidate json_eq decode is_unique
revalidated = rw validated refl

revalidate-Validated_example :
    (hashes : Fields) × (expected : Json) × (text : String) × Validated "control" "data" "legacy"
      base_image "44.20261024" demo_proof hashes
    × (environ_item "VALIDATED_HASHES" ≡ ok text)
    × (decode (demo_world.utf8_size text) text ≡ ok expected)
    × (json_eq (obj hashes) expected ≡ true)
    × ((digest : String) × (environ_item "VALIDATED_DIGEST" ≡ ok digest)
        × (item_at ("image" ∷ "manifestDigest" ∷ []) (obj demo_proof) ≡ ok (str digest)))
revalidate-Validated_example =
    revalidate-Validated "control" "data" "legacy" base_image "44.20261024" demo_proof revalidated

abbrev node_of : String → Node
node_of text = record { is_link = false; is_file = true; size = 100; bytes = text }

instance abbrev demo_images : Images
demo_images = record {
  copied = λ image location. ok (
      node_of (
        if location =s= "/usr/share/bazzite-tower/snitchwatch-bridge-profile"
        then "legacy\n"
        else if location =s= "/etc/containers/policy.json"
        then "active"
        else location));
  digest_of = λ image. ok "sha256:aaaaaaaaaaaaaaaaaaaaaaaaaaaaaaaaaaaaaaaaaaaaaaaaaaaaaaaaaaaaaaaa";
  listed_rpms = λ image. ok "kernel-core\t0\t7.2.9\togc3.1.fc44\tx86_64\n";
}

loaded :
    validate_loaded "control" "data" "legacy" base_image "44.20261024"
    ≡ ok (demo_proof, demo_hashes)
unfolding validate_loaded policy_of decode read is_unique policy base_version kernel_version
    at_least check_inventory parse_inventory read_rows split_lines split_on make_document packages
    package_of package_id relationships relationship file_sha active_policy json_eq strip_prefix
    same_codes check_loaded installed_profile staged_trust check_active_files native_manifest
    actual_inventory
loaded = rw validated refl
