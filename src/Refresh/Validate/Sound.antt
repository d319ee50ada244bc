-- ===== src/Refresh/Validate/Sound.antt =====
-- What stands behind validated artifacts.
use bazzite_tower.Prelude.{
  String, ◌≡◌, refl, ap, subst, ◌∙◌, true, List, [], ◌∷◌, All, Bool-cases, inl, inr, arith, some,
  ◌=s=◌, =s=_iff, member, get_field, Json, str, obj, Fields, field, set_field, as_dict, json_eq,
  is_str, is_str-eq, ok, require-eq-ok, ok_injective, >>=-eq-ok,
}
use bazzite_tower.Refresh.Policy.{Dates}
use bazzite_tower.Refresh.Evidence.{kernels, inventory_kernel, environ_item}
use bazzite_tower.Refresh.Evidence.Floors.{Grounded, Names, evidence-Grounded, only_kernel}
use bazzite_tower.Refresh.Validate.{
  refresh_files, sorted_files, policy_of, check_inventory, proof_of, check_installed, check_proof,
  validate, revalidate,
}
use bazzite_tower.Publication.{World, decode, read_json, file_sha}
use bazzite_tower.Publication.Image.{image_identity}
use bazzite_tower.Publication.Image.Bound.{Verified, image_identity-Verified}
use bazzite_tower.Publication.Candidate.{same_names, joined, item_at, check_sizes, hashes_of}
use bazzite_tower.Publication.Candidate.Bytes.{HasHash, AllHashed, file_sha-HasHash}
use bazzite_tower.Spdx.{Library, Row}

module _ ⦃world : World⦄ ⦃dates : Dates⦄ where
  hashes_of-AllHashed :
      (data_root : String) (names : List String) (hashes : Fields)
      → hashes_of data_root names ≡ ok hashes
      → AllHashed data_root hashes
  hashes_of-AllHashed data_root [] hashes h = subst (AllHashed data_root) (ok_injective h) tt
  hashes_of-AllHashed data_root (name ∷ names) hashes h =
      let (hash, e1, h1) = >>=-eq-ok (file_sha (joined data_root name)) _ h in
      let (rest, e2, h2) =
        >>=-eq-ok (hashes_of data_root names) (λ others. ok (field name (str hash) others)) h1 in
      subst (AllHashed data_root) (ok_injective h2) (
        (hash, refl, file_sha-HasHash (joined data_root name) hash e1),
        hashes_of-AllHashed data_root names rest e2,
      )

  -- A hash is kept of every one of the names.
  hashes_of-get :
      (data_root : String) (names : List String) (hashes : Fields) (name : String)
      → hashes_of data_root names ≡ ok hashes
      → member name names ≡ true
      → (hash : String) × (get_field name hashes ≡ some (str hash))
        × HasHash (joined data_root name) hash
  hashes_of-get data_root [] hashes name h known = cc
  hashes_of-get data_root (n ∷ names) hashes name h known =
      let (hash, e1, h1) = >>=-eq-ok (file_sha (joined data_root n)) _ h in
      let (rest, e2, h2) =
        >>=-eq-ok (hashes_of data_root names) (λ others. ok (field n (str hash) others)) h1 in
      subst
        (λ fs.
          (found : String) × (get_field name fs ≡ some (str found))
          × HasHash (joined data_root name) found)
        (ok_injective h2)
        (elim (Bool-cases (n =s= name)) [
          | inl same ↦
              let named : n ≡ name = (=s=_iff n name).0 same in
              (
                hash,
                ground arith,
                subst (λ m. HasHash (joined data_root m) hash) named
                    (file_sha-HasHash (joined data_root n) hash e1),
              )
          | inr differ ↦
              let known_behind : member name names ≡ true = ground (arith, =s=_iff name n) in
              let (found, is_found, has) =
                hashes_of-get data_root names rest name e2 known_behind in
              (found, ground arith, has)
        ])

  -- The five artifacts, each with its hash under its name.
  abbrev pub AllArtifacts : String → Fields → Type 0
  AllArtifacts data_root hashes =
      All
        (λ name.
          (hash : String) × (get_field name hashes ≡ some (str hash))
          × HasHash (joined data_root name) hash)
        refresh_files

  hashes_of-AllArtifacts :
      (data_root : String) (hashes : Fields)
      → hashes_of data_root sorted_files ≡ ok hashes
      → AllArtifacts data_root hashes
  hashes_of-AllArtifacts data_root hashes h = (
    hashes_of-get data_root sorted_files hashes "image.oci.tar" h refl,
    (
      hashes_of-get data_root sorted_files hashes "rpms.tsv" h refl,
      (
        hashes_of-get data_root sorted_files hashes "sbom.json" h refl,
        (
          hashes_of-get data_root sorted_files hashes "build-provenance.json" h refl,
          (hashes_of-get data_root sorted_files hashes "installed.json" h refl, tt),
        ),
      ),
    ),
  )

  -- A proof of the artifacts: one kernel in the inventory, a verified image, the hash of the SPDX
  -- document, and a base of the policy.
  pub record Proven (data_root : String) (p : Fields) (profile base version : String)
      (records : List Row) (proof : Fields) : Type 0 where
    pub image : Json
    pub sbom_hash : String
    pub kernel : String
    pub verified : Verified (world.archive (joined data_root "image.oci.tar")) image
    pub sbom : HasHash (joined data_root "sbom.json") sbom_hash
    pub only : kernels records ≡ kernel ∷ []
    pub grounded : Grounded p profile base version kernel
    pub names : Names proof profile base version image sbom_hash kernel

  proof_of-Proven :
      (data_root : String) (p : Fields) (profile base version : String) (records : List Row)
      (proof : Fields)
      → proof_of data_root p profile base version records ≡ ok proof
      → Proven data_root p profile base version records proof
  unfolding proof_of inventory_kernel
  proof_of-Proven data_root p profile base version records proof h =
      let (image, e1, h1) =
        >>=-eq-ok (image_identity (world.archive (joined data_root "image.oci.tar"))) _ h in
      let (sbom_hash, e2, h2) = >>=-eq-ok (file_sha (joined data_root "sbom.json")) _ h1 in
      let (kernel, e3, h3) = >>=-eq-ok (inventory_kernel records) _ h2 in
      let (grounded, names) =
        evidence-Grounded p profile base version image sbom_hash kernel proof h3 in
      record {
        image = image;
        sbom_hash = sbom_hash;
        kernel = kernel;
        verified =
            image_identity-Verified (world.archive (joined data_root "image.oci.tar")) image e1;
        sbom = file_sha-HasHash (joined data_root "sbom.json") sbom_hash e2;
        only = only_kernel (kernels records) kernel e3;
        grounded = grounded;
        names = names;
      }

  -- The hash of installed.json beside a proof's other fields, and a provenance that equals all of them.
  pub record Completed (data_root : String) (proof whole : Fields) : Type 0 where
    pub hash : String
    pub provenance : Json
    pub installed : HasHash (joined data_root "installed.json") hash
    pub is_whole : whole ≡ set_field "installedSha256" (str hash) proof
    pub is_provenance : read_json (joined data_root "build-provenance.json") ≡ ok provenance
    pub same : json_eq provenance (obj whole) ≡ true

  check_proof-Completed :
      (data_root : String) (proof whole : Fields)
      → check_proof data_root proof ≡ ok whole
      → Completed data_root proof whole
  unfolding check_proof
  check_proof-Completed data_root proof whole h =
      let (hash, e1, h1) = >>=-eq-ok (file_sha (joined data_root "installed.json")) _ h in
      let (provenance, e2, h2) =
        >>=-eq-ok (read_json (joined data_root "build-provenance.json")) _ h1 in
      let added = set_field "installedSha256" (str hash) proof in
      let (e3, h3) = require-eq-ok (json_eq provenance (obj added)) _ (ok added) h2 in
      subst (Completed data_root proof) (ok_injective h3) (record {
        hash = hash;
        provenance = provenance;
        installed = file_sha-HasHash (joined data_root "installed.json") hash e1;
        is_whole = refl;
        is_provenance = e2;
        same = e3;
      })

  module _ ⦃library : Library⦄ where
    -- The policy, the inventory behind its SPDX document, the proof, and the hashes of the artifacts.
    pub record Validated (root data_root profile base version : String) (whole hashes : Fields)
        : Type 0 where
      pub reviewed : Fields
      pub records : List Row
      pub proof : Fields
      pub is_reviewed : policy_of root ≡ ok reviewed
      pub artifacts : same_names (world.listing data_root) refresh_files ≡ true
      pub inventory : check_inventory data_root reviewed ≡ ok records
      pub proven : Proven data_root reviewed profile base version records proof
      pub completed : Completed data_root proof whole
      pub hashed : AllHashed data_root hashes
      pub all_artifacts : AllArtifacts data_root hashes

    pub validate-Validated :
        (root data_root profile base version : String) (whole hashes : Fields)
        → validate root data_root profile base version ≡ ok (whole, hashes)
        → Validated root data_root profile base version whole hashes
    unfolding validate
    validate-Validated root data_root profile base version whole hashes h =
        let (p, e1, h1) = >>=-eq-ok (policy_of root) _ h in
        let (e2, h2) = require-eq-ok (same_names (world.listing data_root) refresh_files) _ _ h1 in
        let (u3, e3, h3) = >>=-eq-ok (check_sizes data_root (world.listing data_root)) _ h2 in
        let (records, e4, h4) = >>=-eq-ok (check_inventory data_root p) _ h3 in
        let (proof, e5, h5) = >>=-eq-ok (proof_of data_root p profile base version records) _ h4 in
        let (installed_value, e6, h6) =
          >>=-eq-ok (read_json (joined data_root "installed.json")) _ h5 in
        let (installed, e7, h7) = >>=-eq-ok (as_dict installed_value) _ h6 in
        let (u8, e8, h8) = >>=-eq-ok (check_installed root p profile installed) _ h7 in
        let (complete, e9, h9) = >>=-eq-ok (check_proof data_root proof) _ h8 in
        let (found, e10, h10) =
          >>=-eq-ok (hashes_of data_root sorted_files) (λ hs. ok (complete, hs)) h9 in
        let same = ok_injective h10 in
        record {
          reviewed = p;
          records = records;
          proof = proof;
          is_reviewed = e1;
          artifacts = e2;
          inventory = e4;
          proven = proof_of-Proven data_root p profile base version records proof e5;
          completed =
              subst (Completed data_root proof) (ap (λ x. x.0) same)
                (check_proof-Completed data_root proof complete e9);
          all_artifacts =
              subst (AllArtifacts data_root) (ap (λ x. x.1) same)
                (hashes_of-AllArtifacts data_root found e10);
          hashed =
              subst (AllHashed data_root) (ap (λ x. x.1) same)
                (hashes_of-AllHashed data_root sorted_files found e10);
        }

    -- What is validated again before it is published is validated, with a hash of each of the five artifacts,
    -- and has the hashes and the image digest that the first validation handed on.
    pub revalidate-Validated :
        (root data_root profile base version : String) (whole : Fields)
        → revalidate root data_root profile base version ≡ ok whole
        → (hashes : Fields) × (expected : Json) × (text : String) × Validated root data_root profile
            base version whole hashes
          × (environ_item "VALIDATED_HASHES" ≡ ok text)
          × (decode (world.utf8_size text) text ≡ ok expected)
          × (json_eq (obj hashes) expected ≡ true)
          × ((digest : String) × (environ_item "VALIDATED_DIGEST" ≡ ok digest)
              × (item_at ("image" ∷ "manifestDigest" ∷ []) (obj whole) ≡ ok (str digest)))
    unfolding revalidate
    revalidate-Validated root data_root profile base version whole h =
        let ((proof, hashes), e1, h1) =
          >>=-eq-ok (validate root data_root profile base version) _ h in
        let (text, e2, h2) = >>=-eq-ok (environ_item "VALIDATED_HASHES") _ h1 in
        let (expected, e3, h3) = >>=-eq-ok (decode (world.utf8_size text) text) _ h2 in
        let (e4, h4) = require-eq-ok (json_eq (obj hashes) expected) _ _ h3 in
        let (found, e5, h5) =
          >>=-eq-ok (item_at ("image" ∷ "manifestDigest" ∷ []) (obj proof)) _ h4 in
        let (digest, e6, h6) = >>=-eq-ok (environ_item "VALIDATED_DIGEST") _ h5 in
        let (e7, h7) = require-eq-ok (is_str digest found) _ (ok proof) h6 in
        let same = ok_injective h7 in
        (
          hashes,
          expected,
          text,
          subst (λ q. Validated root data_root profile base version q hashes) same
              (validate-Validated root data_root profile base version proof hashes e1),
          e2,
          e3,
          e4,
          (
            digest,
            e6,
            subst (λ q. item_at ("image" ∷ "manifestDigest" ∷ []) (obj q) ≡ ok (str digest)) same
                (e5 ∙ ap ok (is_str-eq digest found e7)),
          ),
        )
