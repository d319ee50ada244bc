-- ===== src/Firewall/System/Verified.antt =====
-- What an accepted verification of the system bridge says of the tree.
use bazzite_tower.Prelude.{
  String, ◌≡◌, ap, sym, ◌∙◌, Bool, true, All, member, Fields, keys, ok, >>=-eq-ok,
}
use bazzite_tower.Firewall.Tree.{Tree, get_dict, load_dict}
use bazzite_tower.Firewall.Inventory.{equal_keys-known}
use bazzite_tower.Firewall.System.Names.{
  manifest_path, pins_path, expected_pins, os_update_rule, os_update_digest, dns_rule, dns_digest,
  source_files, required,
}
use bazzite_tower.Firewall.System.Reading.{Inputs, read_inputs, read_files}
use bazzite_tower.Firewall.System.Activation.{
  refuse_persistent_scanner_activation, refuse_enabled_endpoint_events, refuse_logger_snippet,
}
use bazzite_tower.Firewall.System.Verify.{check_bridge, check_scanners, verify}
use bazzite_tower.Firewall.System.Intact.{
  IsPlain, IsIntact, read_inputs-Opened, read_files-Read, file_IsIntact,
}
use bazzite_tower.Firewall.System.Quiet.{>>-ok, IsQuiet, refusals, refusals-IsQuiet}
use bazzite_tower.Firewall.System.Bridged.{
  IsCopy, IsRule, HasConfig, check_bridge-Bridged, check_config-HasConfig, tower_rules-IsRule,
}

module _ ⦃tree : Tree⦄ where
  pub record Verified (image_tree : Bool) : Type 0 where
    pub pins : Fields
    pub files : Fields
    pub pins_bytes : String
    pub pins_plain : IsPlain pins_path 420 pins_bytes
    pub pins_reviewed : tree.sha pins_bytes ≡ expected_pins
    pub is_pins : load_dict pins_bytes ≡ ok pins
    -- The inventory is the one of the installed manifest.
    pub manifest_bytes : String
    pub manifest : Fields
    pub manifest_plain : IsPlain manifest_path 420 manifest_bytes
    pub is_manifest : load_dict manifest_bytes ≡ ok manifest
    pub are_files : get_dict "files" manifest ≡ ok files
    pub all_intact : (name : String) → member name required ≡ true → IsIntact files name
    pub no_others : (name : String) → member name (keys files) ≡ true → member name required ≡ true
    pub all_copies : All (IsCopy files pins) source_files
    pub os_update : IsRule os_update_rule os_update_digest
    pub resolver : IsRule dns_rule dns_digest
    pub has_config : HasConfig
    pub is_masked : tree.readlink "usr/lib/systemd/user/snitchwatch-bridge.service" ≡ ok "/dev/null"
    pub quiet : IsQuiet image_tree

  verify-steps :
      (image_tree : Bool) (printed : Fields)
      → verify image_tree ≡ ok printed
      → (opened : Inputs) × (inputs : Inputs) × (read_inputs ≡ ok opened)
        × (read_files opened ≡ ok inputs)
        × (check_bridge inputs ≡ ok tt)
        × (refusals image_tree ≡ ok tt)
  unfolding verify
  verify-steps image_tree printed h =
      let (opened, e1, h1) = >>=-eq-ok read_inputs _ h in
      let (inputs, e2, h2) = >>=-eq-ok (read_files opened) _ h1 in
      let (u3, e3, h3) = >>=-eq-ok (check_bridge inputs) _ h2 in
      let (u4, e4, h4) = >>=-eq-ok (check_scanners inputs) _ h3 in
      let (u5, e5, h5) = >>=-eq-ok refuse_persistent_scanner_activation _ h4 in
      let (u6, e6, h6) = >>=-eq-ok (refuse_enabled_endpoint_events image_tree) _ h5 in
      let (u7, e7, h7) = >>=-eq-ok (refuse_logger_snippet image_tree) _ h6 in
      (
        opened,
        inputs,
        e1,
        e2,
        e3,
        >>-ok refuse_persistent_scanner_activation _ e5 (
            >>-ok (refuse_enabled_endpoint_events image_tree) (refuse_logger_snippet image_tree) e6
              e7),
      )

  -- An accepted verification, whatever the tree: the pins are reviewed, exactly the required files are
  -- in the inventory of the installed manifest and each is in the tree as it says, the files of the overlay are the pinned ones
  -- and the rules of the tower the reviewed ones, the config allows by default and is otherwise the
  -- legacy one with another address, the legacy user unit is masked, and nothing activates the scanner
  -- but the session's file.
  pub verify-Verified :
      (image_tree : Bool) (printed : Fields) → verify image_tree ≡ ok printed → Verified image_tree
  verify-Verified image_tree printed h =
      let (opened, inputs, e1, e2, e3, e4) = verify-steps image_tree printed h in
      let start = read_inputs-Opened opened e1 in
      let got = read_files-Read opened inputs e2 in
      let bridged = check_bridge-Bridged inputs tt e3 in
      let (os_update, resolver) = tower_rules-IsRule opened inputs got bridged.rules in
      record {
        pins = inputs.pins;
        files = inputs.files;
        pins_bytes = start.pins_bytes;
        pins_plain = start.pins_plain;
        pins_reviewed = start.pins_reviewed;
        is_pins = start.is_pins ∙ ap ok (sym got.same_pins);
        manifest_bytes = start.manifest_bytes;
        manifest = opened.manifest;
        manifest_plain = start.manifest_plain;
        is_manifest = start.is_manifest;
        are_files = got.are_files;
        all_intact = file_IsIntact opened inputs got;
        no_others = λ name. equal_keys-known required inputs.files name got.known;
        all_copies = bridged.all_copies;
        os_update = os_update;
        resolver = resolver;
        has_config = check_config-HasConfig opened inputs got bridged.configured;
        is_masked = bridged.is_masked;
        quiet = (refusals-IsQuiet image_tree).0 e4;
      }
