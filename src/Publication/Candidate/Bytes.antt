-- ===== src/Publication/Candidate/Bytes.antt =====
-- What an accepted candidate is known to be.
use bazzite_tower.Prelude.{
  ℕ, String, ◌≡◌, ap, ◌∙◌, as_dict_obj, subst, true, ◌&&◌, List, [], ◌∷◌, ◌=s=◌, =s=_iff, arith,
  &&-eq-true, Json, str, obj, Fields, end, field, item, as_dict, same_keys, json_eq, get_is, is_str,
  is_num, is_str-eq, ok, require-eq-ok, require_holds, ok_injective, >>=-eq-ok,
}
use bazzite_tower.Refresh.Policy.{hex_value}
use bazzite_tower.Publication.{
  World, is_plain, read_json, file_sha, candidate_repository, candidate_ref, candidate_workflow,
  candidate_approval,
}
use bazzite_tower.Publication.Approved.{Approved, candidate_approval-Approved}
use bazzite_tower.Publication.Image.{image_identity}
use bazzite_tower.Publication.Image.Bound.{Verified, image_identity-Verified}
use bazzite_tower.Publication.Candidate.{
  artifact_files, hashed_files, trust_files, same_names, joined, candidate_keys, check_sizes,
  check_artifacts, check_candidate, check_image_of, check_hashes, check_files, check_trust,
  check_manifests, check_sbom, check_provenance, validate_candidate,
}

module _ ⦃world : World⦄ where
  -- The hash of a plain file.
  abbrev pub HasHash : String → String → Type 0
  HasHash path hash =
      (is_plain (world.node path) ≡ true) × (world.sha (world.node path).bytes ≡ hash)

  pub file_sha-HasHash : (path hash : String) → file_sha path ≡ ok hash → HasHash path hash
  unfolding file_sha
  file_sha-HasHash path hash h =
      let (plain, rest) = require-eq-ok (is_plain (world.node path)) _ _ h in
      (plain, ok_injective rest)

  -- Each name has the hash of a file beside it.
  abbrev pub AllHashed : String → Fields → Type 0
  AllHashed data_root end = Unit
  AllHashed data_root (field name expected files) =
      ((hash : String) × (expected ≡ str hash) × HasHash (joined data_root name) hash)
      × AllHashed data_root files

  check_hashes-AllHashed :
      (data_root : String) (files : Fields) (u : Unit {0})
      → check_hashes data_root files ≡ ok u
      → AllHashed data_root files
  unfolding check_hashes
  check_hashes-AllHashed data_root end u h = tt
  check_hashes-AllHashed data_root (field name expected files) u h =
      let (v, e1, h1) = >>=-eq-ok (hex_value 64 expected) _ h in
      let (hash, e2, h2) = >>=-eq-ok (file_sha (joined data_root name)) _ h1 in
      let (e3, h3) = require-eq-ok (is_str hash expected) _ (check_hashes data_root files) h2 in
      (
        (hash, is_str-eq hash expected e3, file_sha-HasHash (joined data_root name) hash e2),
        check_hashes-AllHashed data_root files u h3,
      )

  -- Each trust file is plain and has the hash of the reviewed one.
  abbrev pub AllTrusted : String → String → List (String × String) → Type 0
  AllTrusted root data_root [] = Unit
  AllTrusted root data_root ((name, source) ∷ rest) =
      ((hash : String) × HasHash (joined data_root name) hash × HasHash (joined root source) hash)
      × AllTrusted root data_root rest

  check_trust-AllTrusted :
      (root data_root : String) (names : List (String × String)) (u : Unit {0})
      → check_trust root data_root names ≡ ok u
      → AllTrusted root data_root names
  unfolding check_trust
  check_trust-AllTrusted root data_root [] u h = tt
  check_trust-AllTrusted root data_root ((name, source) ∷ rest) u h =
      let (hash, e1, h1) = >>=-eq-ok (file_sha (joined data_root name)) _ h in
      let (trusted, e2, h2) = >>=-eq-ok (file_sha (joined root source)) _ h1 in
      let (e3, h3) = require-eq-ok (hash =s= trusted) _ (check_trust root data_root rest) h2 in
      let same : trusted ≡ hash = ground (arith, =s=_iff hash trusted) in
      (
        (
          hash,
          file_sha-HasHash (joined data_root name) hash e1,
          subst (HasHash (joined root source)) same
              (file_sha-HasHash (joined root source) trusted e2),
        ),
        check_trust-AllTrusted root data_root rest u h3,
      )

  pub record Accepted (root data_root head : String) (run_id : ℕ) (candidate : Fields)
      : Type 0 where
    pub ids : Fields
    pub image : Json
    pub files : Fields
    pub approved : Approved root head ids
    pub artifacts : same_names (world.listing data_root) artifact_files ≡ true
    pub in_run : get_is (is_num run_id) "runId" candidate ≡ true
    pub for_identities : get_is (json_eq (obj ids)) "identities" candidate ≡ true
    pub verified : Verified (world.archive (joined data_root "image.oci.tar")) image
    pub has_image : get_is (json_eq image) "image" candidate ≡ true
    pub are_files : item "files" candidate ≡ ok (obj files)
    pub has_files : same_keys hashed_files files ≡ true
    pub hashed : AllHashed data_root files
    pub trusted : AllTrusted root data_root trust_files

  -- The parts of the candidate's document that are compared.
  candidate_parts :
      (data_root : String) (ids : Fields) (run_id : ℕ) (candidate : Fields)
      → check_candidate data_root ids run_id ≡ ok candidate
      → (get_is (is_num run_id) "runId" candidate ≡ true)
        × (get_is (json_eq (obj ids)) "identities" candidate ≡ true)
  unfolding check_candidate
  candidate_parts data_root ids run_id candidate h =
      let (document, e1, h1) = >>=-eq-ok (read_json (joined data_root "candidate.json")) _ h in
      let (c, e2, h2) = >>=-eq-ok (as_dict document) _ h1 in
      let (e3, h3) = require-eq-ok (same_keys candidate_keys c) _ _ h2 in
      let (e4, h4) =
        require-eq-ok
          (get_is (is_num 1) "schemaVersion" c
            && (get_is (is_str candidate_repository) "repository" c
                && (get_is (is_str candidate_ref) "ref" c
                    && get_is (is_str candidate_workflow) "workflow" c)))
          _ _ h3 in
      let (e5, h5) =
        require-eq-ok
          (get_is (is_num run_id) "runId" c
            && (get_is (is_num 1) "runAttempt" c && get_is (json_eq (obj ids)) "identities" c))
          _ (ok c) h4 in
      let (run, rest) = &&-eq-true _ _ e5 in
      let (attempt, same) = &&-eq-true _ _ rest in
      subst
        (λ x.
          (get_is (is_num run_id) "runId" x ≡ true)
          × (get_is (json_eq (obj ids)) "identities" x ≡ true))
        (ok_injective h5) (run, same)

  files_parts :
      (data_root : String) (candidate files : Fields)
      → check_files data_root candidate ≡ ok files
      → (item "files" candidate ≡ ok (obj files))
        × ((same_keys hashed_files files ≡ true) × AllHashed data_root files)
  unfolding check_files
  files_parts data_root candidate files h =
      let (document, e1, h1) = >>=-eq-ok (item "files" candidate) _ h in
      let (fs, e2, h2) = >>=-eq-ok (as_dict document) _ h1 in
      let (e3, h3) = require-eq-ok (same_keys hashed_files fs) _ _ h2 in
      let (u, e4, h4) = >>=-eq-ok (check_hashes data_root fs) (λ _. ok fs) h3 in
      subst
        (λ x.
          (item "files" candidate ≡ ok (obj x))
          × ((same_keys hashed_files x ≡ true) × AllHashed data_root x))
        (ok_injective h4)
        (e1 ∙ ap ok (as_dict_obj document fs e2), (e3, check_hashes-AllHashed data_root fs u e4))

  -- An accepted candidate has an approval of its head, exactly the known artifacts, and the identities and
  -- the run that it names; its image is verified, every file but its own document is plain and has the
  -- hash that the document gives it, and the trust files have the hashes of the reviewed ones.
  pub validate_candidate-Accepted :
      (root data_root head : String) (run_id : ℕ) (candidate : Fields)
      → validate_candidate root data_root head run_id ≡ ok candidate
      → Accepted root data_root head run_id candidate
  unfolding validate_candidate check_artifacts
  validate_candidate-Accepted root data_root head run_id candidate h =
      let (ids, e1, h1) = >>=-eq-ok (candidate_approval root head) _ h in
      let (u2, e2, h2) = >>=-eq-ok (check_artifacts data_root) _ h1 in
      let (c, e3, h3) = >>=-eq-ok (check_candidate data_root ids run_id) _ h2 in
      let (u4, e4, h4) = >>=-eq-ok (check_image_of data_root c) _ h3 in
      let (files, e5, h5) = >>=-eq-ok (check_files data_root c) _ h4 in
      let (u6, e6, h6) = >>=-eq-ok (check_trust root data_root trust_files) _ h5 in
      let (u7, e7, h7) = >>=-eq-ok (check_manifests data_root ids) _ h6 in
      let (u8, e8, h8) = >>=-eq-ok (check_sbom data_root) _ h7 in
      let (u9, e9, h9) = >>=-eq-ok (check_provenance data_root ids run_id c files) (λ _. ok c) h8 in
      let (image, i1, i2) =
        >>=-eq-ok (image_identity (world.archive (joined data_root "image.oci.tar"))) _ e4 in
      let (run, same) = candidate_parts data_root ids run_id c e3 in
      let (are_files, (has_files, hashed)) = files_parts data_root c files e5 in
      let (artifacts, sizes) =
        require-eq-ok (same_names (world.listing data_root) artifact_files) _
          (check_sizes data_root (world.listing data_root)) e2 in
      subst (Accepted root data_root head run_id) (ok_injective h9) (record {
        are_files = are_files;
        ids = ids;
        image = image;
        files = files;
        approved = candidate_approval-Approved root head ids e1;
        artifacts = artifacts;
        in_run = run;
        for_identities = same;
        verified =
            image_identity-Verified (world.archive (joined data_root "image.oci.tar")) image i1;
        has_image = require_holds _ _ u4 i2;
        has_files = has_files;
        hashed = hashed;
        trusted = check_trust-AllTrusted root data_root trust_files u6 e6;
      })
