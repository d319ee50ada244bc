-- ===== src/Refresh/Baseline/Sound.antt =====
-- What an accepted baseline establishes.
use bazzite_tower.Prelude.{
  ℕ, obj, ◌||◌, none, some, num, end, any, length, get_field, String, ◌≡◌, true, false, List, All,
  is_empty, Json, Fields, item, bool, str, as_dict, Result, ok, json_eq,
}
use bazzite_tower.Refresh.Version.{Version, at_least}
use bazzite_tower.Refresh.Policy.{base_version_of, kernel_version_of}
use bazzite_tower.Refresh.Previous.{
  get_or_null, has, int_of, as_list, as_dicts, counts, is_legacy, filtered,
}
use bazzite_tower.Refresh.Baseline.{Registry, text_is, predicates, profile_bootstrap, digest_text}

-- The proof's version under a key is at least that of a signed predicate.
pub record NotBelow (parse : Json → Result Version) (key : String) (proof previous : Fields)
    : Type 0 where
  pub text : Json
  pub version : Version
  pub floor_text : Json
  pub floor : Version
  pub item_ok : item key proof ≡ ok text
  pub version_ok : parse text ≡ ok version
  pub floor_item : item key previous ≡ ok floor_text
  pub floor_ok : parse floor_text ≡ ok floor
  pub kept : at_least version floor ≡ true

-- The document has this value under the key.
abbrev pub Has : String → Json → Fields → Type 0
Has key v fs = has key v fs ≡ true

-- The predicate is of a base refresh of this repository, workflow and ref, and of the proof's profile.
pub record SameIdentity (p proof previous : Fields) : Type 0 where
  pub repository : Json
  pub ref : Json
  pub profile : Json
  pub is_repository : item "repository" p ≡ ok repository
  pub is_ref : item "ref" p ≡ ok ref
  pub is_profile : item "profile" proof ≡ ok profile
  pub of_refresh : Has "kind" (str "accepted-source-base-refresh") previous
  pub same_repository : Has "repository" repository previous
  pub same_workflow : Has "workflow" (str ".github/workflows/base-refresh.yml") previous
  pub same_ref : Has "ref" ref previous
  pub same_profile : Has "profile" profile previous

pub record Above (p proof : Fields) (value : Json) : Type 0 where
  pub previous : Fields
  pub is_previous : as_dict value ≡ ok previous
  pub identity : SameIdentity p proof previous
  pub base : NotBelow base_version_of "baseVersion" proof previous
  pub kernel : NotBelow kernel_version_of "kernel" proof previous

-- The record of the failed first run: this workflow's, dispatched on main at the reviewed head of the
-- reviewed repository, and completed with a failure at its first attempt.
pub record FailedRun (p recovery previous : Fields) : Type 0 where
  pub run_id : Json
  pub id : ℕ
  pub head : Json
  pub repository : Json
  pub owner : Fields
  pub is_run_id : item "failedRunId" recovery ≡ ok run_id
  pub is_id : int_of run_id ≡ ok id
  pub is_head : item "failedHead" recovery ≡ ok head
  pub is_repository : item "repository" p ≡ ok repository
  pub is_owner :
      (elim (get_field "repository" previous) [ none ↦ ok end | some v ↦ as_dict v ]) ≡ ok owner
  pub same_id : Has "id" (num id) previous
  pub same_head : Has "head_sha" head previous
  pub same_path : Has "path" (str ".github/workflows/base-refresh.yml") previous
  pub dispatched : Has "event" (str "workflow_dispatch") previous
  pub on_main : Has "head_branch" (str "main") previous
  pub first_run : Has "run_number" (num 1) previous
  pub first_attempt : Has "run_attempt" (num 1) previous
  pub completed : Has "status" (str "completed") previous
  pub failed : Has "conclusion" (str "failure") previous
  pub same_owner : Has "full_name" repository owner

-- The jobs of that run: as many as the reply counts, all completed, and two of them publishers, one of each
-- profile, which were skipped.
pub record SkippedJobs (packet : Fields) : Type 0 where
  pub values : List Json
  pub jobs : List Fields
  pub are_values : as_list (get_field "jobs" packet) ≡ ok values
  pub are_jobs : as_dicts values ≡ ok jobs
  pub counted : counts (length jobs) (get_or_null "total_count" packet) ≡ true
  pub all_completed : All (Has "status" (str "completed")) jobs
  pub publishers : List Fields
  pub are_publishers :
      publishers
      ≡ filtered
          (λ job. has "name" (str "publish-legacy") job || has "name" (str "publish-system") job)
          jobs
  pub two : length publishers ≡ 2
  pub one_legacy : any (λ job. has "name" (str "publish-legacy") job) publishers ≡ true
  pub one_system : any (λ job. has "name" (str "publish-system") job) publishers ≡ true
  pub all_skipped : All (Has "conclusion" (str "skipped")) publishers

pub record FirstFailed (p : Fields) (run jobs_reply : Json) : Type 0 where
  pub bootstrap : Fields
  pub recovery : Fields
  pub previous : Fields
  pub packet : Fields
  pub is_bootstrap : item "bootstrap" p ≡ ok (obj bootstrap)
  pub is_recovery : item "legacy" bootstrap ≡ ok (obj recovery)
  pub is_run : run ≡ obj previous
  pub is_reply : jobs_reply ≡ obj packet
  pub failed_run : FailedRun p recovery previous
  pub skipped_jobs : SkippedJobs packet

-- The first publication of a channel: the tag is missing, the run is the one that the policy numbers in its
-- first attempt, and the API's record of the failed first run and of its jobs is the reviewed one.
pub record Recovered (p reviewed : Fields) (registry : Registry) : Type 0 where
  pub allowed : Json
  pub is_allowed : item "allowMissing" reviewed ≡ ok allowed
  pub allowing : json_eq allowed (bool true) ≡ true
  pub unknown : registry.manifest_unknown ≡ true
  -- The run number that the policy names for the first publication of the legacy profile.
  pub legacy : Fields
  pub is_legacy : profile_bootstrap p "legacy" ≡ ok legacy
  pub second_run : String
  pub is_second : item "runNumber" legacy ≡ ok (str second_run)
  pub run : text_is second_run registry.run_number ≡ true
  pub first_attempt : text_is "1" registry.run_attempt ≡ true
  pub evidence : FirstFailed p registry.failed_run registry.failed_jobs

-- The reasons to accept.
pub data Justified (p proof : Fields) (profile : String) (registry : Registry) : Type 0 where
  recovered :
      (reviewed : Fields)
      → profile_bootstrap p profile ≡ ok reviewed
      → registry.missing ≡ true
      → Recovered p reviewed registry
      → Justified p proof profile registry
  -- The signed image is the one release that the policy names.
  pinned :
      (reviewed : Fields) (digest : Json)
      → profile_bootstrap p profile ≡ ok reviewed
      → registry.signed ≡ true
      → item "digest" reviewed ≡ ok digest
      → json_eq (digest_text registry) digest ≡ true
      → Justified p proof profile registry
  above :
      (envelopes values : List Json)
      → registry.signed ≡ true
      → registry.envelopes ≡ ok envelopes
      → predicates registry.manifest_sha envelopes ≡ ok values
      → is_empty values ≡ false
      → All (Above p proof) values
      → Justified p proof profile registry
