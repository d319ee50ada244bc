-- ===== src/Refresh/Attested/Bound.antt =====
-- What accepted attestations say of the artifacts.
use bazzite_tower.Prelude.{
  String, ◌<>◌, ◌≡◌, subst, ◌⊎◌, inl, inr, true, ◌&&◌, &&-eq-true, Bool-cases, List, [], ◌∷◌,
  text_drop, Json, str, obj, Fields, get_field, as_dict, as_dict_obj, ok, require-eq-ok,
  ok_injective, >>=-eq-ok,
}
use bazzite_tower.Refresh.Previous.{has}
use bazzite_tower.Refresh.Baseline.{bound_to, subjects_of}
use bazzite_tower.Refresh.Attested.{
  Payloads, attests, any_attests, attested_files, envelopes, attestations_of, attestations,
}
use bazzite_tower.Publication.{World, read_json}
use bazzite_tower.Publication.Candidate.{joined}

-- A statement of the kind with the predicate, about the destination with the hash.
pub record States (kind : String) (expected : Json) (sha : String) (v : Json) : Type 0 where
  pub fields : Fields
  pub subjects : List Json
  pub is_fields : v ≡ obj fields
  pub has_kind : has "predicateType" (str kind) fields ≡ true
  pub has_predicate : has "predicate" expected fields ≡ true
  pub has_subjects : subjects_of (get_field "subject" fields) ≡ ok subjects
  pub bound : bound_to sha subjects ≡ true

-- One of the values does.
abbrev pub Among : (Json → Type 0) → List Json → Type 0
Among P [] = ⊥
Among P (v ∷ vs) = P v ⊎ Among P vs

attests-States :
    (kind : String) (expected : Json) (sha : String) (v : Json) (fs : Fields)
    → as_dict v ≡ ok fs
    → attests kind expected sha fs ≡ ok true
    → States kind expected sha v
attests-States kind expected sha v fs d h =
    elim (Bool-cases (has "predicateType" (str kind) fs && has "predicate" expected fs)) [
      | inr e ↦ cc (ok_injective (rw e at h))
      | inl e ↦
          let (k, p) = &&-eq-true _ _ e in
          let (subjects, f, g) =
            >>=-eq-ok (subjects_of (get_field "subject" fs)) (λ ss. ok (bound_to sha ss))
              (rw e at h) in
          record {
            fields = fs;
            subjects = subjects;
            is_fields = as_dict_obj v fs d;
            has_kind = k;
            has_predicate = p;
            has_subjects = f;
            bound = ok_injective g;
          }
    ]

any_attests-Among :
    (kind : String) (expected : Json) (sha : String) (vs : List Json)
    → any_attests kind expected sha vs ≡ ok true
    → Among (States kind expected sha) vs
unfolding any_attests
any_attests-Among kind expected sha [] h = cc (ok_injective h)
any_attests-Among kind expected sha (v ∷ vs) h =
    let (fs, e1, h1) = >>=-eq-ok (as_dict v) _ h in
    let (here, e2, h2) = >>=-eq-ok (attests kind expected sha fs) _ h1 in
    elim (Bool-cases here) [
      | inl e ↦ inl (
          attests-States kind expected sha v fs e1
            (subst (λ b. attests kind expected sha fs ≡ ok b) e e2))
      | inr e ↦ inr (any_attests-Among kind expected sha vs (rw e at h2))
    ]

module _ ⦃world : World⦄ ⦃payloads : Payloads⦄ where
  -- For each file a signed statement with its document as the predicate, about the image.
  abbrev pub AllStated : List (String × String × String) → String → String → String → Type 0
  AllStated [] data_root verified digest = Unit
  AllStated ((name, kind, file) ∷ rest) data_root verified digest =
      ((document : Json) × (found : List Json) × (read_json (joined data_root file) ≡ ok document)
        × (envelopes (joined verified (name <> ".json")) ≡ ok found)
        × Among (States kind document (text_drop 7 digest)) found)
      × AllStated rest data_root verified digest

  attestations_of-AllStated :
      (names : List (String × String × String)) (data_root verified digest : String) (u : Unit {0})
      → attestations_of names data_root verified digest ≡ ok u
      → AllStated names data_root verified digest
  unfolding attestations_of
  attestations_of-AllStated [] data_root verified digest u h = tt
  attestations_of-AllStated ((name, kind, file) ∷ rest) data_root verified digest u h =
      let (document, e1, h1) = >>=-eq-ok (read_json (joined data_root file)) _ h in
      let (found, e2, h2) = >>=-eq-ok (envelopes (joined verified (name <> ".json"))) _ h1 in
      let (holds, e3, h3) = >>=-eq-ok (any_attests kind document (text_drop 7 digest) found) _ h2 in
      let (e4, h4) = require-eq-ok holds _ (attestations_of rest data_root verified digest) h3 in
      (
        (
          document,
          found,
          e1,
          e2,
          any_attests-Among kind document (text_drop 7 digest) found
              (subst (λ b. any_attests kind document (text_drop 7 digest) found ≡ ok b) e4 e3),
        ),
        attestations_of-AllStated rest data_root verified digest u h4,
      )

  -- Accepted attestations have, for the SPDX document and for the provenance, a verified statement of the right
  -- kind with exactly this document as its predicate and the destination with the image's digest among
  -- its subjects.
  pub attestations-AllStated :
      (data_root verified digest : String)
      → attestations data_root verified digest ≡ ok tt
      → AllStated attested_files data_root verified digest
  unfolding attestations
  attestations-AllStated data_root verified digest h =
      attestations_of-AllStated attested_files data_root verified digest tt h
