-- ===== src/Refresh/Evidence/Floors.antt =====
-- What evidence says of the image that it is about.
use bazzite_tower.Prelude.{
  String, ◌<>◌, ◌≡◌, refl, ap, ◌∙◌, as_dict_obj, obj, subst, true, some, List, [], ◌∷◌, member,
  starts_with, partition, Json, str, Fields, get_field, item, keys, as_dict, as_text, Result, ok,
  require-eq-ok, ok_injective, >>=-eq-ok,
}
use bazzite_tower.Refresh.Version.{Version, base_version, kernel_version, at_least}
use bazzite_tower.Refresh.Policy.{base_version_of, kernel_version_of}
use bazzite_tower.Publication.{World, digest, file_sha}
use bazzite_tower.Publication.Candidate.{joined}
use bazzite_tower.Refresh.Evidence.{
  only_one, immutable_base, environ_item, check_floors, evidence_document, evidence,
}

-- A version of the policy, and a parsed one that is not below it.
pub record NotBelow (parse : Json → Result Version) (key : String) (p : Fields)
    (found : Result Version) : Type 0 where
  pub floor_text : Json
  pub floor : Version
  pub version : Version
  pub has_floor : item key p ≡ ok floor_text
  pub is_floor : parse floor_text ≡ ok floor
  pub is_version : found ≡ ok version
  pub not_below : at_least version floor ≡ true

-- The policy knows the profile, the base is a digest of its upstream, and neither version is below.
pub record Grounded (p : Fields) (profile base version kernel : String) : Type 0 where
  pub profiles : Fields
  pub are_profiles : item "profiles" p ≡ ok (obj profiles)
  pub upstream : String
  pub is_upstream : item "upstream" p ≡ ok (str upstream)
  pub known : member profile (keys profiles) ≡ true
  pub from_upstream : starts_with (upstream <> "@sha256:") base ≡ true
  pub pinned : (value : String) × (digest (str ((partition 64 base).1)) ≡ ok value)
  pub base_floor : NotBelow base_version_of "minimumBaseVersion" p (base_version version)
  pub kernel_floor : NotBelow kernel_version_of "minimumKernel" p (kernel_version kernel)

-- The fields in which a proof names the image.
abbrev pub Names : Fields → String → String → String → Json → String → String → Type 0
Names proof profile base version image sbom_hash kernel =
    (get_field "profile" proof ≡ some (str profile))
    × (get_field "baseImage" proof ≡ some (str base))
    × (get_field "baseVersion" proof ≡ some (str version))
    × (get_field "image" proof ≡ some image)
    × (get_field "sbomSha256" proof ≡ some (str sbom_hash))
    × (get_field "kernel" proof ≡ some (str kernel))

text_of : (v : Json) (s : String) → as_text v ≡ ok s → v ≡ str s
text_of (str t) s h = ap str (ok_injective h)
text_of _ s h = cc

from_upstream_of :
    (base : String) (p : Fields) (value : String)
    → immutable_base base p ≡ ok value
    → (upstream : String) × (item "upstream" p ≡ ok (str upstream))
      × (starts_with (upstream <> "@sha256:") base ≡ true)
      × ((found : String) × (digest (str ((partition 64 base).1)) ≡ ok found))
unfolding immutable_base
from_upstream_of base p value h =
    let (v, e1, h1) = >>=-eq-ok (item "upstream" p) _ h in
    let (upstream, e2, h2) = >>=-eq-ok (as_text v) _ h1 in
    let (e3, h3) = require-eq-ok (starts_with (upstream <> "@sha256:") base) _ _ h2 in
    let (found, e4, h4) = >>=-eq-ok (digest (str ((partition 64 base).1))) (λ _. ok base) h3 in
    (upstream, e1 ∙ ap ok (text_of v upstream e2), e3, (found, e4))

module _ ⦃world : World⦄ where
  check_floors-Grounded :
      (p : Fields) (profile base version kernel : String) (fs : Fields)
      → check_floors p profile base version kernel ≡ ok fs
      → Grounded p profile base version kernel
  unfolding check_floors
  check_floors-Grounded p profile base version kernel fs h =
      let (v1, e1, h1) = >>=-eq-ok (item "profiles" p) _ h in
      let (profiles, e2, h2) = >>=-eq-ok (as_dict v1) _ h1 in
      let (e3, h3) = require-eq-ok (member profile (keys profiles)) _ _ h2 in
      let (value, e4, h4) = >>=-eq-ok (immutable_base base p) _ h3 in
      let (v5, e5, h5) = >>=-eq-ok (base_version version) _ h4 in
      let (t6, e6, h6) = >>=-eq-ok (item "minimumBaseVersion" p) _ h5 in
      let (f7, e7, h7) = >>=-eq-ok (base_version_of t6) _ h6 in
      let (e8, h8) = require-eq-ok (at_least v5 f7) _ _ h7 in
      let (v9, e9, h9) = >>=-eq-ok (kernel_version kernel) _ h8 in
      let (t10, e10, h10) = >>=-eq-ok (item "minimumKernel" p) _ h9 in
      let (f11, e11, h11) = >>=-eq-ok (kernel_version_of t10) _ h10 in
      let (e12, h12) = require-eq-ok (at_least v9 f11) _ _ h11 in
      let (upstream, named, from, pinned) = from_upstream_of base p value e4 in
      record {
        profiles = profiles;
        are_profiles = e1 ∙ ap ok (as_dict_obj v1 profiles e2);
        upstream = upstream;
        is_upstream = named;
        known = e3;
        from_upstream = from;
        pinned = pinned;
        base_floor = record {
          floor_text = t6;
          floor = f7;
          version = v5;
          has_floor = e6;
          is_floor = e7;
          is_version = e5;
          not_below = e8;
        };
        kernel_floor = record {
          floor_text = t10;
          floor = f11;
          version = v9;
          has_floor = e10;
          is_floor = e11;
          is_version = e9;
          not_below = e12;
        };
      }

  document-Names :
      (p : Fields) (profile base version : String) (image : Json) (sbom_hash kernel : String)
      (fs proof : Fields)
      → evidence_document p profile base version image sbom_hash kernel fs ≡ ok proof
      → Names proof profile base version image sbom_hash kernel
  unfolding evidence_document
  document-Names p profile base version image sbom_hash kernel fs proof h =
      let (repository, e1, h1) = >>=-eq-ok (item "repository" p) _ h in
      let (ref, e2, h2) = >>=-eq-ok (item "ref" p) _ h1 in
      let (commit, e3, h3) = >>=-eq-ok (environ_item "GITHUB_SHA") _ h2 in
      let (run_text, e4, h4) = >>=-eq-ok (environ_item "GITHUB_RUN_ID") _ h3 in
      let (run_id, e5, h5) = >>=-eq-ok (world.to_int run_text) _ h4 in
      let (attempt_text, e6, h6) = >>=-eq-ok (environ_item "GITHUB_RUN_ATTEMPT") _ h5 in
      let (attempt, e7, h7) = >>=-eq-ok (world.to_int attempt_text) _ h6 in
      let (control, e8, h8) = >>=-eq-ok (environ_item "CONTROL") _ h7 in
      let (policy_hash, e9, h9) =
        >>=-eq-ok (file_sha (joined control ".github/base-refresh-policy.json")) _ h8 in
      let (commit_value, e10, h10) = >>=-eq-ok (item "sourceCommit" p) _ h9 in
      let (tree_value, e11, h11) = >>=-eq-ok (item "sourceTree" p) _ h10 in
      let (tag, e12, h12) = >>=-eq-ok (item "imageTag" fs) _ h11 in
      let (channels, e13, h13) = >>=-eq-ok (item "channels" fs) _ h12 in
      subst (λ q. Names q profile base version image sbom_hash kernel) (ok_injective h13)
        (refl, refl, refl, refl, refl, refl)

  pub evidence-Grounded :
      (p : Fields) (profile base version : String) (image : Json) (sbom_hash kernel : String)
      (proof : Fields)
      → evidence p profile base version image sbom_hash kernel ≡ ok proof
      → Grounded p profile base version kernel
        × Names proof profile base version image sbom_hash kernel
  unfolding evidence
  evidence-Grounded p profile base version image sbom_hash kernel proof h =
      let (fs, e1, h1) = >>=-eq-ok (check_floors p profile base version kernel) _ h in
      (
        check_floors-Grounded p profile base version kernel fs e1,
        document-Names p profile base version image sbom_hash kernel fs proof h1,
      )

pub only_kernel :
    (found : List String) (kernel : String) → only_one found ≡ ok kernel → found ≡ kernel ∷ []
only_kernel [] kernel h = cc
only_kernel (k ∷ []) kernel h = cc
only_kernel (k ∷ l ∷ ks) kernel h = cc
