-- ===== src/Tests/Attestations.antt =====
-- The theorem on attestations in a world with two of them.
use bazzite_tower.Prelude.{
  ◌≡◌, refl, String, true, false, none, List, [], ◌∷◌, Json, str, obj, arr, nil, cons, ok, json_eq,
  split_lines, as_text,
}
use bazzite_tower.Refresh.Baseline.{subject_of}
use bazzite_tower.Refresh.Attested.{
  Payloads, predicate_text, attested_files, any_attests, envelopes_of, envelopes, attestations_of,
  attestations,
}
use bazzite_tower.Refresh.Attested.Bound.{AllStated, attestations-AllStated}
use bazzite_tower.Publication.{World, dict, is_unique, decode, read}
use bazzite_tower.Tests.Publications.{find_document}

abbrev demo_document : String → Json
demo_document name = obj (dict (("name", str name) ∷ []))

abbrev envelope : String → Json
envelope name = obj (dict (("payload", str name) ∷ []))

abbrev statement : String → String → Json
statement kind name = obj (
    dict (
      ("predicateType", str kind)
      ∷ ("predicate", demo_document name)
      ∷ ("subject", arr (cons (subject_of "00") nil))
      ∷ []))

abbrev demo_documents : List (String × Json)
demo_documents =
    ("data/sbom.json", demo_document "sbom")
    ∷ ("data/build-provenance.json", demo_document "provenance")
    ∷ ("verified/sbom.json", arr (cons (envelope "other") (cons (envelope "signed sbom") nil)))
    ∷ ("verified/provenance.json", envelope "signed provenance")
    ∷ ("other", statement "other" "sbom")
    ∷ ("signed sbom", statement "https://spdx.dev/Document" "sbom")
    ∷ ("signed provenance", statement predicate_text "provenance")
    ∷ []

instance abbrev demo_world : World
demo_world = record {
  node = λ path. record { is_link = false; is_file = true; size = 20; bytes = path };
  listing = λ path. [];
  archive = λ path. [];
  environ = λ name. none;
  git = λ root arguments. ok "";
  loads = λ text. find_document text demo_documents;
  utf8_size = λ text. 20;
  dumps = λ v. "document";
  sha = λ text. "00";
  to_int = λ text. ok 7;
}

instance abbrev demo_payloads : Payloads
demo_payloads = record { b64decode = as_text }

attested : attestations "data" "verified" "sha256:00" ≡ ok tt
unfolding attestations attestations_of read decode is_unique envelopes envelopes_of split_lines
    any_attests json_eq
attested = refl

attestations-AllStated_example : AllStated attested_files "data" "verified" "sha256:00"
attestations-AllStated_example = attestations-AllStated "data" "verified" "sha256:00" attested
