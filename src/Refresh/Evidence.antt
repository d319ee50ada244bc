-- ===== src/Refresh/Evidence.antt =====
-- ci/base-refresh.py: the run it accepts, the evidence of an image, its kernel and its active policy.
pub mod Floors
use bazzite_tower.Prelude.{
  ℕ, String, ◌<>◌, Bool, true, false, ◌&&◌, ◌||◌, not, Option, none, some, List, [], ◌∷◌, any, all,
  leb, ◌==◌, if◌then◌else◌, ◌=s=◌, codes, is_digit, is_empty, is_blank, member, starts_with,
  text_drop, text_take, text_length, partition, split_lines, Json, null, num, str, arr, obj, Items,
  nil, cons, Fields, end, field, get_field, item, keys, as_dict, as_text, json_eq, get_is, Result,
  ok, err, value_error, key_error, type_error, require, ◌>>=◌, ◌>>◌,
}
use bazzite_tower.Refresh.Version.{Version, base_version, kernel_version, at_least}
use bazzite_tower.Refresh.Policy.{
  Dates, hex_value, base_version_of, kernel_version_of, parse_created, policy,
}
use bazzite_tower.Refresh.Previous.{workflow, destination, listed}
use bazzite_tower.Publication.{World, dict, digest, decode, read, read_json, file_sha}
use bazzite_tower.Publication.Candidate.{joined, item_at}
use bazzite_tower.Spdx.{Row}

-- `[1-9][0-9]*`
abbrev pub is_run_digits : List ℕ → Bool
is_run_digits [] = false
is_run_digits (c ∷ cs) = (leb 49 c && leb c 57) && all is_digit cs

-- TRUST, with the name that each file has among the artifacts
abbrev pub trust_paths : List (String × String)
trust_paths =
    ("cosign.pub", "cosign.pub")
    ∷ ("policy.json", "system_files/usr/share/bazzite-tower/containers/policy.json")
    ∷ (
      "bazzite-tower.yaml",
      "system_files/usr/share/bazzite-tower/containers/registries.d/bazzite-tower.yaml",
    )
    ∷ []

abbrev pub policy_path : String
policy_path = "system_files/usr/share/bazzite-tower/containers/policy.json"

abbrev pub destination_text : String
destination_text = "ghcr.io/bearyjd/bazzite-tower"

-- The versions of the kernel's packages.
abbrev pub kernels : List Row → List String
kernels [] = []
kernels (r ∷ rs) =
    let rest = kernels rs in
    if (r.name =s= "kernel-core") && ((r.epoch =s= "0") && (r.arch =s= "x86_64"))
    then (r.version <> ("-" <> r.release)) ∷ rest
    else rest

abbrev pub only_one : List String → Result String
only_one (kernel ∷ []) = ok kernel
only_one _ = err (value_error "one installed x86_64 kernel required")

unfoldable pub inventory_kernel : List Row → Result String
inventory_kernel records = only_one (kernels records)

-- `immutable_base`
unfoldable pub immutable_base : String → Fields → Result String
unfolding digest
immutable_base value p = do
  upstream_value ← item "upstream" p
  upstream ← as_text upstream_value
  require (starts_with (upstream <> "@sha256:") value) "mutable/wrong upstream base"
  _ ← digest (str ((partition 64 value).1))
  ok value

-- `[{'type': 'reject'}]`
abbrev pub reject : Json
reject = arr (cons (obj (dict (("type", str "reject") ∷ []))) nil)

-- The rule for the repository, with a key.
abbrev pub signed_by : String → Json
signed_by key = arr (
    cons
      (obj (
        dict (
          ("type", str "sigstoreSigned")
          ∷ ("keyPath", str key)
          ∷ ("signedIdentity", obj (dict (("type", str "matchRepository") ∷ [])))
          ∷ [])))
      nil)

abbrev pub or_empty : Option Json → Json
or_empty none = obj end
or_empty (some v) = v

-- A scope that is more specific than the repository.
abbrev pub overrides : String → Bool
overrides scope =
    starts_with destination_text scope
    && (not (scope =s= destination_text)
        && member (text_take 1 (text_drop (text_length destination_text) scope))
            (":" ∷ "@" ∷ "/" ∷ []))

-- `active_policy`, of the two documents
unfoldable pub active_policy : Json → Json → Result (Unit {0})
unfolding json_eq
active_policy requested current = do
  requested_fields ← as_dict requested
  current_fields ← as_dict current
  requested_default ← item "default" requested_fields
  require
      (get_is (json_eq requested_default) "default" current_fields
        && json_eq requested_default reject)
      "active policy global default substitution"
  transports ← as_dict (or_empty (get_field "transports" current_fields))
  docker ← as_dict (or_empty (get_field "docker" transports))
  requested_rule ← item_at ("transports" ∷ "docker" ∷ destination_text ∷ []) requested
  require
      (get_is (json_eq requested_rule) destination_text docker
        && json_eq requested_rule (signed_by "/etc/pki/containers/bazzite-tower-cosign.pub"))
      "active policy repository identity substitution"
  require (not (any overrides (keys docker))) "active policy more-specific repository override"

module _ ⦃world : World⦄ where
  -- `os.environ[name]`
  abbrev pub environ_item : String → Result String
  environ_item name = elim (world.environ name) [
    | none ↦ err (key_error name)
    | some text ↦ ok text
  ]

  abbrev pub environ_is : String → String → Bool
  environ_is text name = elim (world.environ name) [ none ↦ false | some t ↦ t =s= text ]

  abbrev pub is_run_identity : String → Bool
  is_run_identity name = elim (world.environ name) [
    | none ↦ false
    | some text ↦ is_run_digits (codes text)
  ]

  abbrev pub check_run_identities : List String → Result (Unit {0})
  check_run_identities [] = ok tt
  check_run_identities (name ∷ names) =
      require (is_run_identity name) "invalid run identity" >> check_run_identities names

  unfoldable pub context : Result (Unit {0})
  context = do
    repository ← environ_item "GITHUB_REPOSITORY"
    ref ← (if repository =s= "bearyjd/bazzite-tower" then environ_item "GITHUB_REF" else ok "")
    require (ref =s= "refs/heads/main") "main-only refresh"
    event ← environ_item "GITHUB_EVENT_NAME"
    require ((event =s= "schedule") || (event =s= "workflow_dispatch")) "unexpected refresh event"
    commit ← environ_item "GITHUB_SHA"
    hex_value 40 (str commit)
    require
        (environ_is "bearyjd/bazzite-tower/.github/workflows/base-refresh.yml@refs/heads/main"
          "GITHUB_WORKFLOW_REF")
        "unexpected refresh workflow identity"
    check_run_identities ("GITHUB_RUN_ID" ∷ "GITHUB_RUN_NUMBER" ∷ "GITHUB_RUN_ATTEMPT" ∷ [])

  -- The checks of `evidence`: the profile, the base and the floors of the policy.
  unfoldable pub check_floors : Fields → String → String → String → String → Result Fields
  unfolding immutable_base
  check_floors p profile base version kernel = do
    profiles_value ← item "profiles" p
    profiles ← as_dict profiles_value
    require (member profile (keys profiles)) "wrong profile"
    _ ← immutable_base base p
    found_version ← base_version version
    base_text ← item "minimumBaseVersion" p
    base_floor ← base_version_of base_text
    require (at_least found_version base_floor) "Bazzite downgrade below accepted floor"
    found_kernel ← kernel_version kernel
    kernel_text ← item "minimumKernel" p
    kernel_floor ← kernel_version_of kernel_text
    require (at_least found_kernel kernel_floor) "kernel downgrade below accepted floor"
    profile_value ← item profile profiles
    as_dict profile_value

  -- The document of `evidence`.
  unfoldable pub evidence_document :
      Fields → String → String → String → Json → String → String → Fields → Result Fields
  unfolding file_sha
  evidence_document p profile base version image sbom_hash kernel profile_fields = do
    repository ← item "repository" p
    ref ← item "ref" p
    commit ← environ_item "GITHUB_SHA"
    run_text ← environ_item "GITHUB_RUN_ID"
    run_id ← world.to_int run_text
    attempt_text ← environ_item "GITHUB_RUN_ATTEMPT"
    attempt ← world.to_int attempt_text
    control ← environ_item "CONTROL"
    policy_hash ← file_sha (joined control ".github/base-refresh-policy.json")
    source_commit ← item "sourceCommit" p
    source_tree ← item "sourceTree" p
    tag ← item "imageTag" profile_fields
    channels ← item "channels" profile_fields
    ok (
        dict (
          ("schemaVersion", num 1)
          ∷ ("kind", str "accepted-source-base-refresh")
          ∷ ("repository", repository)
          ∷ ("workflow", workflow)
          ∷ ("ref", ref)
          ∷ ("controlCommit", str commit)
          ∷ ("runId", num run_id)
          ∷ ("runAttempt", num attempt)
          ∷ ("policySha256", str policy_hash)
          ∷ ("sourceCommit", source_commit)
          ∷ ("sourceTree", source_tree)
          ∷ ("profile", str profile)
          ∷ ("imageTag", tag)
          ∷ ("channels", channels)
          ∷ ("baseImage", str base)
          ∷ ("baseVersion", str version)
          ∷ ("kernel", str kernel)
          ∷ ("image", image)
          ∷ ("sbomSha256", str sbom_hash)
          ∷ []))

  unfoldable pub evidence :
      Fields → String → String → String → Json → String → String → Result Fields
  unfolding check_floors evidence_document
  evidence p profile base version image sbom_hash kernel = do
    profile_fields ← check_floors p profile base version kernel
    evidence_document p profile base version image sbom_hash kernel profile_fields
