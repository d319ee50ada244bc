-- ===== src/Refresh/Baseline.antt =====
-- ci/base-refresh.py `baseline`: a refresh is published only above what the channel's signed image was
-- built from.
pub mod Sound
use bazzite_tower.Prelude.{
  ℕ, String, ◌<>◌, Bool, true, false, ◌&&◌, ◌||◌, Option, none, some, List, [], ◌∷◌, ltb, leb, ◌==◌,
  ◌=s=◌, if◌then◌else◌, codes, is_digit, length, any, all, is_empty, Json, null, bool, num, str,
  arr, obj, Items, nil, cons, Fields, end, field, get_field, item, as_dict, as_text, to_number,
  json_eq, Result, ok, err, value_error, type_error, require, subprocess_error, ◌>>=◌, ◌>>◌,
}
use bazzite_tower.Refresh.Version.{Version, decimal, at_least}
use bazzite_tower.Refresh.Policy.{base_version_of, kernel_version_of}
use bazzite_tower.Refresh.Previous.{
  or_null, get_or_null, has, and_then, same_item, workflow, destination, predicate, same_identity,
  not_below, monotonic, monotonic_all, int_of, listed, as_list, as_dicts, counts, is_legacy,
  is_system, filtered, bootstrap_failure,
}

-- What skopeo, cosign, the API and the environment answer.
pub record Registry : Type 0 where
  -- `skopeo inspect` failed, and its error output names an unknown manifest.
  pub missing : Bool
  pub manifest_unknown : Bool
  pub run_number : Option String
  pub run_attempt : Option String
  pub failed_run : Json
  pub failed_jobs : Json
  -- `pub.sha` of the manifest that the channel has
  pub manifest_sha : String
  -- `cosign verify` accepts the image's signature, and what `envelopes` reads of its attestations
  pub signed : Bool
  pub envelopes : Result (List Json)

abbrev pub text_is : String → Option String → Bool
text_is s none = false
text_is s (some t) = s =s= t

-- `{'name': DEST, 'digest': {'sha256': ...}}`
abbrev pub subject_of : String → Json
subject_of sha =
    obj (field "name" destination (field "digest" (obj (field "sha256" (str sha) end)) end))

abbrev pub bound_to : String → List Json → Bool
bound_to sha subjects = any (λ s. json_eq s (subject_of sha)) subjects

-- What the loop over the subjects sees; the keys of a dict and the characters of a text are texts.
abbrev pub subjects_of : Option Json → Result (List Json)
subjects_of none = ok []
subjects_of (some (arr xs)) = ok (listed xs)
subjects_of (some (obj fs)) = ok []
subjects_of (some (str s)) = ok []
subjects_of (some _) = err (type_error "not iterable")

abbrev pub bound_predicate : String → Fields → Result (Option Json)
bound_predicate sha envelope = do
  subjects ← subjects_of (get_field "subject" envelope)
  if bound_to sha subjects then (do value ← item "predicate" envelope; ok (some value)) else ok none

-- The predicate of an envelope that names the destination and its digest.
unfoldable pub selected : String → Fields → Result (Option Json)
unfolding json_eq
selected sha envelope =
    if has "predicateType" predicate envelope then bound_predicate sha envelope else ok none

abbrev pub with_selected : Option Json → List Json → List Json
with_selected none vs = vs
with_selected (some v) vs = v ∷ vs

unfoldable pub predicates : String → List Json → Result (List Json)
unfolding selected
predicates sha [] = ok []
predicates sha (v ∷ vs) = do
  envelope ← as_dict v
  here ← selected sha envelope
  rest ← predicates sha vs
  ok (with_selected here rest)

abbrev pub profile_bootstrap : Fields → String → Result Fields
profile_bootstrap p profile = do
  bootstrap_value ← item "bootstrap" p
  bootstrap ← as_dict bootstrap_value
  value ← item profile bootstrap
  as_dict value

-- The reviewed recovery of a tag that was never published.
unfoldable pub recover_missing : Fields → Fields → Registry → Result (Unit {0})
unfolding bootstrap_failure json_eq
recover_missing p reviewed registry = do
  allowed ← item "allowMissing" reviewed
  legacy ← profile_bootstrap p "legacy"
  number_value ← item "runNumber" legacy
  number ← as_text number_value
  require
      (json_eq allowed (bool true)
        && (text_is number registry.run_number
            && (text_is "1" registry.run_attempt && registry.manifest_unknown)))
      "cannot establish signed channel baseline; reviewed missing-tag recovery requires workflow run2 and first attempt"
  bootstrap_failure p registry.failed_run registry.failed_jobs

unfoldable pub against_signed : Fields → Fields → Registry → Result (Unit {0})
unfolding predicates monotonic
against_signed p proof registry = do
  envelopes ← registry.envelopes
  values ← predicates registry.manifest_sha envelopes
  if is_empty values
      then err (value_error "no destination-bound signed refresh baseline")
      else monotonic_all p proof values

-- `current_digest`
abbrev pub digest_text : Registry → Json
digest_text registry = str ("sha256:" <> registry.manifest_sha)

-- Behind the check of the image's signature.
unfoldable pub against_image : Fields → Fields → Fields → Registry → Result (Unit {0})
unfolding against_signed json_eq
against_image p proof reviewed registry = do
  digest ← item "digest" reviewed
  if json_eq (digest_text registry) digest then ok tt else against_signed p proof registry

-- `baseline`, behind `policy` and the reading of the proof.
unfoldable pub baseline : Fields → Fields → String → Registry → Result (Unit {0})
unfolding recover_missing against_image
baseline p proof profile registry = do
  reviewed ← profile_bootstrap p profile
  if registry.missing
      then recover_missing p reviewed registry
      else if registry.signed
      then against_image p proof reviewed registry
      else err (subprocess_error "cosign verify failed")
