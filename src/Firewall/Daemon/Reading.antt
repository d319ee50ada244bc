-- ===== src/Firewall/Daemon/Reading.antt =====
-- build_files/firewall/snitchwatch-system-daemon-verify.py: what it reads, and the inventory.
use Prim.Native.String.{◌++◌ as ◌<>◌}
use bazzite_tower.Prelude.{
  ℕ, String, Bool, ◌&&◌, not, [], ◌∷◌, ◌==◌, ◌=s=◌, member, starts_with, str, obj, Fields, end,
  item, keys, get_is, is_num, is_str, Result, ok, require, ◌>>=◌, ◌>>◌,
}
use bazzite_tower.Publication.{dict}
use bazzite_tower.Firewall.Tree.{
  Tree, parts_of, get_eq, get_dict, equal_keys, Contents, read_inventory, has_link, relative,
  load_dict,
}
use bazzite_tower.Firewall.Daemon.Names.{
  manifest_path, pins_path, patch_path, expected_pins, required, mode_of,
}

module _ ⦃tree : Tree⦄ where
  -- `read_file`
  unfoldable pub read_file : String → ℕ → Result String
  read_file name mode = do
    require (starts_with "/usr/" name && not (member ".." (parts_of name)))
        "invalid daemon immutable path"
    require (not (has_link name)) ("symlink in daemon immutable path: " <> name)
    info ← tree.stat (relative name)
    require (info.is_regular && (info.mode == mode)) ("incorrect daemon file type/mode: " <> name)
    tree.read_bytes (relative name)

  -- What the checks have in common: the documents and the bytes of the files.
  pub record Inputs : Type 0 where
    pub manifest : Fields
    pub pins : Fields
    pub files : Fields
    pub contents : Contents

  unfoldable pub read_inputs : Bool → Result Inputs
  read_inputs stage_only = do
    require (not (stage_only && tree.is_live)) "stage-only is forbidden for the production root"
    manifest_bytes ← read_file manifest_path 420
    manifest ← load_dict manifest_bytes
    pins_bytes ← read_file pins_path 420
    require (tree.sha pins_bytes =s= expected_pins) "daemon pins differ from reviewed image inputs"
    pins ← load_dict pins_bytes
    require
        (get_is (is_num 1) "schemaVersion" manifest && get_is (is_str "system") "profile" manifest)
        "unsupported daemon manifest schema/profile"
    ok (record { manifest = manifest; pins = pins; files = end; contents = [] })

  unfoldable pub source_of : Fields → Result Fields
  source_of pins = do
    commit ← item "sourceCommit" pins
    source_tree ← item "sourceTree" pins
    ok (dict (("commit", commit) ∷ ("tree", source_tree) ∷ []))

  abbrev pub file_mismatch : String → String
  file_mismatch name = "daemon immutable hash mismatch: " <> name

  unfoldable pub check_files : Fields → Result Contents
  unfolding read_inventory
  check_files files =
      read_inventory (λ name. read_file name (mode_of name)) tree.sha
        "invalid daemon immutable digest" file_mismatch files

  unfoldable pub read_files : Inputs → Fields → Result Inputs
  read_files inputs source = do
    require (get_eq "source" (obj source) inputs.manifest) "daemon source/patch identity mismatch"
    patch ← item "patchSha256" inputs.pins
    require
        (get_eq "patch" (obj (dict (("path", str patch_path) ∷ ("sha256", patch) ∷ [])))
          inputs.manifest)
        "daemon source/patch identity mismatch"
    files ← get_dict "files" inputs.manifest
    require (equal_keys required (keys files)) "incomplete or unexpected daemon immutable inventory"
    contents ← check_files files
    ok (record inputs { files = files; contents = contents })
