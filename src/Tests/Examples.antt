-- ===== src/Tests/Examples.antt =====
-- The theorems at concrete inputs, and runs of the code.
use bazzite_tower.Prelude.{
  ℕ, zero, suc, ◌≡◌, ◌↔◌, refl, Json, false, null, obj, arr, cons, nil, ◌&&◌, not, true, false,
  some, List, [], ◌∷◌, arith, codes, str, Fields, end, field, Result, ok, same_codes, strip_prefix,
  json_eq,
}
use bazzite_tower.Deny.System.{System, config, state, marker}
use bazzite_tower.Deny.Record.{metadata_json}
use bazzite_tower.Deny.Report.{with_blocker, config_findings}
use bazzite_tower.Deny.Run.{
  Fault, fine, fail, crash, late, at_system, catch, pure, require, ask, lift, raise, change,
  finally, ◌>>=◌,
}
use bazzite_tower.Deny.Run.Triple.{Ends}
use bazzite_tower.Deny.Edit.{deny, is_deny, current_action, set_action}
use bazzite_tower.Deny.Edit.Outcome.{current_action-set_action}
use bazzite_tower.Deny.Edit.Spot.{OneSpot, set_action-OneSpot}
use bazzite_tower.Deny.Main.{wait_for_lock, on, off, revert, main, recover_bad_state}
use bazzite_tower.Deny.Main.Lock.{Waited, TimedOut, wait_for_lock-Waited, wait_for_lock-TimedOut}
use bazzite_tower.Deny.Commands.{turn_off}
use bazzite_tower.Deny.Safety.Views.{action_at, is_covered, Safe, NotDeny}
use bazzite_tower.Deny.Safety.Off.{Cleared}
use bazzite_tower.Deny.Safety.World.{
  after_run, booted, run, reboot, here, then, main-Safe, Reach-is_covered, turn_off-Cleared,
  recover_bad_state-NotDeny,
}
use bazzite_tower.Refresh.Version.{base_version, kernel_version, at_least}
use bazzite_tower.Refresh.Bump.{text, no_changes, blast_reason, judge_policy, automerge}
use bazzite_tower.Refresh.Bump.Exact.{Mergeable, automerge_exact}
use bazzite_tower.Refresh.Bump.Chain.{start, bump, NotOlder, Chain-NotOlder}
use bazzite_tower.Refresh.Policy.{policy, reviewed_bootstrap}
use bazzite_tower.Refresh.Policy.Reviewed.{Reviewed, policy-Reviewed}
use bazzite_tower.Refresh.Previous.{workflow, predicate}
use bazzite_tower.Refresh.Baseline.{subject_of, Registry}
use bazzite_tower.Tests.{allow_text, deny_text, loads_demo, dumps_demo, text_of, machine}
use bazzite_tower.Tests.Policies.{demo_dates, whole_policy}
use bazzite_tower.Tests.Fixture.{demo_host, demo_host-IsLawful, before_trial, before_trial-Safe}

-- A trial of five minutes that loses the power at its twelfth call, and the boot behind it.
abbrev cut_short : List Fault
cut_short = fine ∷ fine ∷ fine ∷ fine ∷ fine ∷ fine ∷ fine ∷ fine ∷ fine ∷ fine ∷ fine ∷ crash ∷ []

abbrev after_cut : System
after_cut = after_run (on 5) cut_short before_trial

abbrev after_boot : System
after_boot = after_run (revert true) [] (booted (some "next") true after_cut)

Reach-is_covered_example :
    is_covered (after_boot.disk config) (after_boot.disk state) (after_boot.disk marker) ≡ true
Reach-is_covered_example =
    Reach-is_covered demo_host-IsLawful before_trial-Safe
      (then (then here (run (on 5) cut_short)) (reboot (some "next") true []))

main-Safe_example : Safe after_cut
main-Safe_example = main-Safe demo_host-IsLawful (on 5) cut_short before_trial before_trial-Safe

turn_off-Cleared_example :
    let r = turn_off false (at_system before_trial (fine ∷ late ∷ [])) in
    Ends (λ _. Cleared) Safe r.0 r.1.sys
turn_off-Cleared_example = turn_off-Cleared false (fine ∷ late ∷ []) before_trial before_trial-Safe

recover_bad_state-NotDeny_example :
    let r = recover_bad_state (at_system before_trial []) in Ends (λ _. NotDeny) Safe r.0 r.1.sys
recover_bad_state-NotDeny_example = recover_bad_state-NotDeny [] before_trial before_trial-Safe

-- Another writer holds the lock for three polls.
abbrev held_thrice : System
held_thrice = record before_trial { held = 3 }

wait_for_lock-Waited_example :
    Waited (at_system held_thrice []) (wait_for_lock 31000000 301 (at_system held_thrice []))
wait_for_lock-Waited_example =
    wait_for_lock-Waited 31000000 301 (at_system held_thrice []) (omega arith) (omega arith)

wait_for_lock-TimedOut_example :
    TimedOut 1150000 (at_system held_thrice []) (wait_for_lock 1150000 3 (at_system held_thrice []))
wait_for_lock-TimedOut_example =
    wait_for_lock-TimedOut 1150000 3 (at_system held_thrice []) (omega arith) (omega arith)
      (omega arith)

set_action_of_allow : set_action allow_text deny ≡ ok deny_text
unfolding set_action loads_demo same_codes strip_prefix json_eq
set_action_of_allow = refl

current_action-set_action_example : current_action deny_text ≡ deny
current_action-set_action_example =
    current_action-set_action allow_text deny deny_text refl set_action_of_allow

set_action-OneSpot_example : OneSpot allow_text (codes "deny") deny_text
set_action-OneSpot_example = set_action-OneSpot allow_text deny deny_text set_action_of_allow

abbrev floors : Result Fields
floors = ok (
    field "minimumBaseVersion" (str "44.20261023")
      (field "minimumKernel" (str "7.2.9-ogc3.1.fc44") end))

automerge_of_newer :
    automerge floors "44.20261023" "7.2.9-ogc3.1.fc44" "44.20261101" "7.2.10-ogc1.1.fc44"
      (text no_changes)
    ≡ true
unfolding automerge base_version kernel_version at_least judge_policy blast_reason
automerge_of_newer = refl

automerge_exact_example :
    (automerge floors "44.20261023" "7.2.9-ogc3.1.fc44" "44.20261101" "7.2.10-ogc1.1.fc44"
        (text no_changes)
      ≡ true)
    ↔ Mergeable floors "44.20261023" "7.2.9-ogc3.1.fc44" "44.20261101" "7.2.10-ogc1.1.fc44"
        (text no_changes)
automerge_exact_example =
    automerge_exact floors "44.20261023" "7.2.9-ogc3.1.fc44" "44.20261101" "7.2.10-ogc1.1.fc44"
      (text no_changes)

base_of_start : base_version "44.20261023" ≡ ok (44 ∷ 20261023 ∷ [])
unfolding base_version
base_of_start = refl

kernel_of_start : kernel_version "7.2.9-ogc3.1.fc44" ≡ ok (7 ∷ 2 ∷ 9 ∷ 3 ∷ 1 ∷ 44 ∷ [])
unfolding kernel_version
kernel_of_start = refl

Chain-NotOlder_example :
    NotOlder (44 ∷ 20261023 ∷ []) (7 ∷ 2 ∷ 9 ∷ 3 ∷ 1 ∷ 44 ∷ []) "44.20261101" "7.2.10-ogc1.1.fc44"
Chain-NotOlder_example =
    Chain-NotOlder base_of_start kernel_of_start
      (bump start floors (text no_changes) automerge_of_newer)

-- The trial that nothing disturbs denies.
on_denies : is_deny (action_at ((after_run (on 5) [] before_trial).disk config)) ≡ true
unfolding main loads_demo current_action catch pure require ask lift raise change finally
    with_blocker config_findings same_codes ◌>>=◌ strip_prefix json_eq dumps_demo metadata_json
    text_of machine
on_denies = refl

abbrev demo_policy : Fields
demo_policy =
    field "repository" (str "bearyjd/bazzite-tower")
      (field "ref" (str "refs/heads/main") (field "bootstrap" reviewed_bootstrap end))

abbrev demo_proof : Fields
demo_proof =
    field "profile" (str "legacy")
      (field "baseVersion" (str "44.20261101") (field "kernel" (str "7.2.10-ogc1.1.fc44") end))

abbrev demo_previous : Fields
demo_previous = field "kind" (str "accepted-source-base-refresh") (
    field "repository" (str "bearyjd/bazzite-tower") (
      field "workflow" workflow (
        field "ref" (str "refs/heads/main") (
          field "profile" (str "legacy") (
            field "baseVersion" (str "44.20261023")
              (field "kernel" (str "7.2.9-ogc3.1.fc44") end))))))

abbrev demo_envelope : Json
demo_envelope = obj (
    field "predicateType" predicate (
      field "subject" (arr (cons (subject_of "5a") nil))
        (field "predicate" (obj demo_previous) end)))

abbrev demo_registry : Registry
demo_registry = record {
  missing = false;
  manifest_unknown = false;
  run_number = some "7";
  run_attempt = some "1";
  failed_run = null;
  failed_jobs = null;
  manifest_sha = "5a";
  signed = true;
  envelopes = ok (demo_envelope ∷ []);
}

-- A trial and its end leave the config as it was.
off_restores :
    ((after_run off [] (after_run (on 5) [] before_trial)).disk config) ≡ before_trial.disk config
unfolding main loads_demo current_action catch pure require ask lift raise change finally
    with_blocker config_findings same_codes ◌>>=◌ strip_prefix json_eq dumps_demo metadata_json
    text_of machine
off_restores = refl

abbrev fines : ℕ → List Fault → List Fault
fines zero fs = fs
fines (suc n) fs = fine ∷ fines n fs

-- Two calls fail, the second in the restore: the config still denies, and the timer was stopped.
abbrev unrestored : System
unrestored = after_run (on 5) (fines 25 (fail ∷ fail ∷ [])) before_trial

unrestored_without_timer :
    (is_deny (action_at (unrestored.disk config)) && not unrestored.timer) ≡ true
unfolding main loads_demo current_action catch pure require ask lift raise change finally
    with_blocker config_findings same_codes ◌>>=◌ strip_prefix json_eq dumps_demo metadata_json
    text_of machine
unrestored_without_timer = refl

policy_of_whole : policy (obj whole_policy) ≡ ok whole_policy
unfolding policy json_eq base_version kernel_version
policy_of_whole = refl

policy-Reviewed_example : Reviewed (obj whole_policy) whole_policy
policy-Reviewed_example = policy-Reviewed (obj whole_policy) whole_policy policy_of_whole
