-- ===== src/Firewall/Daemon/Reviewed.antt =====
-- What an accepted verification of the daemon says of the tree.
use bazzite_tower.Prelude.{
  String, ◌≡◌, Bool, true, false, ◌&&◌, some, member, Json, str, Fields, keys, get_field, json_eq,
  ok,
}
use bazzite_tower.Firewall.Tree.{Tree, get_eq, get_dict, is_elf64, load_dict}
use bazzite_tower.Firewall.Daemon.Names.{
  manifest_path, pins_path, candidate_path, provenance_path, expected_pins, required, mode_of,
}
use bazzite_tower.Firewall.Daemon.Intact.{IsPlain, IsIntact, IsInstalled}
use bazzite_tower.Firewall.Daemon.Checks.{pinned_checks}

module _ ⦃tree : Tree⦄ where
  -- The pins are those of the reviewed digest, the inventory has exactly the required files, each in
  -- the tree as it says, the pinned hashes are those of the inventory, the candidate is the one that
  -- two builds made, and it is installed unless only its stage is verified.
  pub record Reviewed (stage_only : Bool) : Type 0 where
    pub pins : Fields
    pub files : Fields
    pub checks : Fields
    pub provenance : Fields
    pub pins_bytes : String
    pub candidate : String
    pub not_live : (stage_only && tree.is_live) ≡ false
    pub pins_plain : IsPlain pins_path 420 pins_bytes
    pub pins_reviewed : tree.sha pins_bytes ≡ expected_pins
    pub is_pins : load_dict pins_bytes ≡ ok pins
    -- The inventory is the one of the installed manifest.
    pub manifest_bytes : String
    pub manifest : Fields
    pub manifest_plain : IsPlain manifest_path 420 manifest_bytes
    pub is_manifest : load_dict manifest_bytes ≡ ok manifest
    pub are_files : get_dict "files" manifest ≡ ok files
    pub all_intact : (name : String) → member name required ≡ true → IsIntact files name
    pub no_others : (name : String) → member name (keys files) ≡ true → member name required ≡ true
    pub are_checks : pinned_checks pins ≡ ok checks
    pub all_pinned :
        (name : String) (expected : Json)
        → get_field name checks ≡ some expected
        → (hash : Json) × (get_field name files ≡ some hash) × (json_eq hash expected ≡ true)
    pub candidate_plain : IsPlain candidate_path 493 candidate
    pub candidate_elf : is_elf64 candidate ≡ true
    -- The record of the build is the document in the tree.
    pub provenance_bytes : String
    pub provenance_plain : IsPlain provenance_path (mode_of provenance_path) provenance_bytes
    pub is_provenance : load_dict provenance_bytes ≡ ok provenance
    pub first_build : get_eq "firstBinarySha256" (str (tree.sha candidate)) provenance ≡ true
    pub second_build : get_eq "secondBinarySha256" (str (tree.sha candidate)) provenance ≡ true
    pub is_installed : stage_only ≡ false → IsInstalled candidate
