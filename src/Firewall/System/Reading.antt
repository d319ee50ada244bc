-- ===== src/Firewall/System/Reading.antt =====
-- build_files/firewall/snitchwatch-system-verify.py: the files that it reads.
use Prim.Native.String.{◌++◌ as ◌<>◌}
use bazzite_tower.Prelude.{
  ℕ, String, ◌&&◌, ◌||◌, not, none, some, List, [], ◌∷◌, ◌==◌, if◌then◌else◌, ◌=s=◌, codes, member,
  starts_with, Fields, end, get_field, item, keys, as_text, get_is, is_num, is_str, Result, ok, err,
  value_error, file_not_found, require, ◌>>=◌, ◌>>◌,
}
use bazzite_tower.Refresh.Policy.{is_hex_text}
use bazzite_tower.Firewall.Tree.{
  Stat, Tree, parts_of, get_eq, get_dict, equal_keys, Contents, read_inventory, has_link, relative,
  load_dict,
}
use bazzite_tower.Firewall.System.Names.{
  manifest_path, pins_path, expected_pins, fetch_rule, os_update_rule, dns_rule, reserved_rules,
  required, mode_of,
}

-- `describe`
abbrev pub describe : String → String
describe name =
    if name =s= fetch_rule
    then name
      <> " (the shipped, image-pinned Snitchwatch opensnitchd rule; it is reserved: restore it, do not edit or delete it)"
    else if name =s= os_update_rule
    then name
      <> " (the shipped, image-pinned tower OS-update opensnitchd rule; it is reserved: restore it, do not edit or delete it)"
    else if name =s= dns_rule
    then name
      <> " (the shipped, image-pinned tower resolver DNS opensnitchd rule; it is reserved: restore it, do not edit or delete it)"
    else name

-- `except FileNotFoundError`
abbrev pub or_missing : String → Result Stat → Result Stat
or_missing name (err file_not_found) =
    err (value_error ("missing immutable file: " <> describe name))
or_missing name (err raised) = err raised
or_missing name (ok info) = ok info

-- The documents and the bytes of the files.
pub record Inputs : Type 0 where
  pub manifest : Fields
  pub pins : Fields
  pub source : Fields
  pub files : Fields
  pub contents : Contents

-- The source identity is that of the pins.
unfoldable pub check_source : Fields → Fields → Result (Unit {0})
check_source source pins = do
  commit ← item "sourceCommit" pins
  require (get_eq "commit" commit source) "source identity differs from build pins"
  submodule ← item "submoduleCommit" pins
  require (get_eq "submoduleCommit" submodule source) "source identity differs from build pins"
  source_tree ← item "sourceTree" pins
  require (get_eq "tree" source_tree source) "source identity differs from build pins"

-- `d.get(key, '')`, of which a text is needed
abbrev pub get_text : String → Fields → Result String
get_text k fs = elim (get_field k fs) [ none ↦ ok "" | some v ↦ as_text v ]

-- `for key in ('commit', 'submoduleCommit', 'tree')`
unfoldable pub check_identities : List String → Fields → Result (Unit {0})
check_identities [] source = ok tt
check_identities (k ∷ ks) source = do
  identity ← get_text k source
  require (is_hex_text 40 (codes identity)) "invalid source identity"
  check_identities ks source

module _ ⦃tree : Tree⦄ where
  -- `read_file`
  unfoldable pub read_file : String → ℕ → Result String
  read_file name mode = do
    require
        ((starts_with "/usr/" name || member name reserved_rules)
          && not (member ".." (parts_of name)))
        "invalid immutable file path"
    require (not (has_link name)) ("symlink in immutable file path: " <> describe name)
    info ← or_missing name (tree.stat (relative name))
    require (info.is_regular && (info.mode == mode)) ("incorrect file type/mode: " <> describe name)
    require (not tree.is_live || ((info.uid == 0) && (info.gid == 0)))
        ("immutable file is not root-owned: " <> describe name)
    tree.read_bytes (relative name)

  unfoldable pub read_inputs : Result Inputs
  unfolding check_source check_identities
  read_inputs = do
    manifest_bytes ← read_file manifest_path 420
    manifest ← load_dict manifest_bytes
    pins_bytes ← read_file pins_path 420
    require (tree.sha pins_bytes =s= expected_pins)
        "build pins differ from reviewed integration inputs"
    pins ← load_dict pins_bytes
    require
        (get_is (is_num 1) "schemaVersion" manifest && get_is (is_str "system") "profile" manifest)
        "unsupported system manifest schema/profile"
    source ← get_dict "source" manifest
    check_source source pins
    check_identities ("commit" ∷ "submoduleCommit" ∷ "tree" ∷ []) source
    ok (record { manifest = manifest; pins = pins; source = source; files = end; contents = [] })

  abbrev pub file_mismatch : String → String
  file_mismatch name = "immutable file hash mismatch: " <> describe name

  unfoldable pub check_files : Fields → Result Contents
  unfolding read_inventory
  check_files files =
      read_inventory (λ name. read_file name (mode_of name)) tree.sha
        "invalid immutable file digest" file_mismatch files

  unfoldable pub read_files : Inputs → Result Inputs
  unfolding check_files
  read_files inputs = do
    files ← get_dict "files" inputs.manifest
    require (equal_keys required (keys files)) "incomplete or unexpected immutable file inventory"
    contents ← check_files files
    ok (record inputs { files = files; contents = contents })
