-- ===== src/Tests/Reboots.antt =====
-- The boot guard behind a power loss in the middle of a trial.
use bazzite_tower.Prelude.{
  ◌≡◌, refl, ap, ◌∙◌, true, some, [], ok, same_codes, strip_prefix, json_eq, Fields, obj,
}
use bazzite_tower.Deny.System.{System, config, state}
use bazzite_tower.Deny.Run.{
  done, at_system, pure, raise, ask, lift, change, catch, finally, require, ◌>>=◌,
}
use bazzite_tower.Deny.Edit.{allow, current_action, set_action}
use bazzite_tower.Deny.Files.{Metadata, replacement, root_with}
use bazzite_tower.Deny.Record.{parsed_state, metadata_json, backup_metadata}
use bazzite_tower.Deny.Report.{with_blocker, config_findings}
use bazzite_tower.Deny.Trial.{trial_state}
use bazzite_tower.Deny.Main.{on, main, boot_guard}
use bazzite_tower.Deny.Safety.Views.{Safe}
use bazzite_tower.Deny.Safety.Off.{Cleared}
use bazzite_tower.Deny.Safety.World.{after_run, booted, main-Safe}
use bazzite_tower.Deny.Safety.Recovery.{Interrupted}
use bazzite_tower.Deny.Safety.Reboot.{boot_guard-Cleared}
use bazzite_tower.Tests.{
  allow_text, deny_text, loads_demo, dumps_demo, loads-dumps_demo, text_of, machine,
}
use bazzite_tower.Tests.Fixture.{demo_host, demo_host-IsLawful, before_trial, before_trial-Safe}

-- The trial denies; then the power is lost, and the machine boots.
abbrev cut_off : System
cut_off = booted (some "next") true (after_run (on 5) [] before_trial)

abbrev config_metadata : Metadata
config_metadata = record { uid = 0; gid = 0; mode = 420; xattrs = [] }

abbrev recorded : Fields
recorded = trial_state "trial" 1000000 5 allow_text config_metadata deny_text (some "boot")

has_state : cut_off.disk state ≡ some (replacement (root_with 384) (dumps_demo (obj recorded)))
unfolding main loads_demo current_action catch pure require ask lift raise change finally
    with_blocker config_findings same_codes ◌>>=◌ strip_prefix json_eq dumps_demo metadata_json
    text_of machine
has_state = refl

has_config : cut_off.disk config ≡ some (replacement config_metadata deny_text)
unfolding main loads_demo current_action catch pure require ask lift raise change finally
    with_blocker config_findings same_codes ◌>>=◌ strip_prefix json_eq dumps_demo metadata_json
    text_of machine
has_config = refl

accepts_recorded : parsed_state (loads_demo (dumps_demo (obj recorded))) ≡ ok (some recorded)
accepts_recorded = ap parsed_state (loads-dumps_demo (obj recorded)) ∙ refl

edits_back : set_action deny_text allow ≡ ok allow_text
unfolding set_action loads_demo same_codes strip_prefix json_eq
edits_back = refl

reads_metadata : backup_metadata recorded ≡ ok config_metadata
unfolding backup_metadata metadata_json
reads_metadata = refl

cut_off-Interrupted : Interrupted cut_off
unfolding main loads_demo current_action catch pure require ask lift raise change finally
    with_blocker config_findings same_codes ◌>>=◌ strip_prefix json_eq dumps_demo metadata_json
    text_of machine
cut_off-Interrupted = record {
  trial = recorded;
  state_node = replacement (root_with 384) (dumps_demo (obj recorded));
  live = replacement config_metadata deny_text;
  metadata = config_metadata;
  edited = allow_text;
  is_state = has_state;
  is_private = refl;
  is_parsed = accepts_recorded;
  is_pending = refl;
  other_boot = refl;
  is_config = has_config;
  is_root = refl;
  has_metadata = reads_metadata;
  can_edit = edits_back;
  is_free = refl;
}

cut_off-Safe : Safe cut_off
cut_off-Safe = main-Safe demo_host-IsLawful (on 5) [] before_trial before_trial-Safe

boot_guard-Cleared_example :
    (t : System) × (boot_guard (at_system cut_off []) ≡ (done tt, at_system t [])) × Cleared t
boot_guard-Cleared_example = boot_guard-Cleared cut_off cut_off-Interrupted cut_off-Safe
