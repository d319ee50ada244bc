-- ===== src/Firewall/System/Bridge.antt =====
-- build_files/firewall/snitchwatch-system-verify.py `verify`: the checks of the bridge and its config.
use Prim.Native.String.{◌++◌ as ◌<>◌}
use bazzite_tower.Prelude.{
  String, Bool, true, false, ◌&&◌, not, none, some, List, [], ◌∷◌, if◌then◌else◌, ◌=s=◌, member,
  holds_text, Json, str, arr, obj, Items, nil, cons, Fields, end, get_field, set_field, item, keys,
  as_dict, json_eq, Result, ok, err, type_error, require, ◌>>=◌, ◌>>◌,
}
use bazzite_tower.Publication.{dict}
use bazzite_tower.Publication.Candidate.{item_at}
use bazzite_tower.Firewall.Tree.{Tree, get_eq, get_dict, Contents, content, is_elf64, load_dict}
use bazzite_tower.Firewall.System.Names.{
  binary_path, profile_path, config_path, legacy_config_path, tower_rules, source_files,
  scanner_binaries,
}
use bazzite_tower.Firewall.System.Reading.{describe, Inputs}

-- A text of a list
abbrev pub holds_item : String → Items → Bool
holds_item key nil = false
holds_item key (cons (str s) vs) = let rest = holds_item key vs in if s =s= key then true else rest
holds_item key (cons _ vs) = holds_item key vs

-- `key in value`
abbrev pub holds_key : String → Json → Result Bool
holds_key key (obj fs) = ok (member key (keys fs))
holds_key key (arr vs) = ok (holds_item key vs)
holds_key key (str s) = ok (holds_text key s)
holds_key key _ = err (type_error "argument is not iterable")

-- `d.get('Server', {})`
abbrev pub server_of : Fields → Json
server_of config = elim (get_field "Server" config) [ none ↦ obj end | some v ↦ v ]

-- Every file of the overlay is the pinned one.
unfoldable pub check_sources : Fields → Fields → List (String × String) → Result (Unit {0})
check_sources files pins [] = ok tt
check_sources files pins ((name, original) ∷ rest) = do
  hash ← item name files
  pinned ← item_at ("sourceFiles" ∷ original ∷ []) (obj pins)
  require (json_eq hash pinned) ("system overlay differs from pinned source: " <> describe name)
  check_sources files pins rest

unfoldable pub check_tower_rules : Fields → List (String × String) → Result (Unit {0})
check_tower_rules files [] = ok tt
check_tower_rules files ((name, expected) ∷ rest) = do
  hash ← item name files
  require (json_eq hash (str expected))
      ("tower rule differs from the reviewed digest: " <> describe name)
  check_tower_rules files rest

-- The legacy config with the address and the default action of the system bridge.
unfoldable pub expected_config : Fields → Result Fields
expected_config legacy = do
  server_value ← item "Server" legacy
  server ← as_dict server_value
  ok (
      set_field "DefaultAction" (str "allow") (
        set_field "Server" (obj (set_field "Address" (str "unix:opensnitchd.sock") server)) legacy))

module _ ⦃tree : Tree⦄ where
  -- `for name in (CONFIG, LEGACY_CONFIG)`
  unfoldable pub check_loggers : Contents → List String → Result (Unit {0})
  check_loggers contents [] = ok tt
  check_loggers contents (name ∷ names) = do
    bytes ← content name contents
    config ← load_dict bytes
    has_loggers ← holds_key "Loggers" (server_of config)
    require (not has_loggers) (
        "default daemon config must not have a Loggers entry (endpoint events are operator opt-in): "
        <> name)
    check_loggers contents names

  unfoldable pub check_elves : Contents → List String → Result (Unit {0})
  check_elves contents [] = ok tt
  check_elves contents (name ∷ names) = do
    bytes ← content name contents
    require (is_elf64 bytes) "native scanner is not a little-endian ELF64 executable"
    check_elves contents names

  unfoldable pub check_native : Inputs → Result (Unit {0})
  unfolding check_elves
  check_native inputs = do
    hash ← item binary_path inputs.files
    version ← item "bridgeVersion" inputs.pins
    require
        (get_eq "binary"
          (obj (dict (("path", str binary_path) ∷ ("sha256", hash) ∷ ("version", version) ∷ [])))
          inputs.manifest)
        "binary identity differs from immutable inventory"
    bytes ← content binary_path inputs.contents
    require (is_elf64 bytes) "native bridge is not a little-endian ELF64 executable"
    check_elves inputs.contents scanner_binaries
    profile ← content profile_path inputs.contents
    require (profile =s= "system\n") "incorrect bridge profile marker"

  -- The legacy user unit is masked; `readlink` returns the text of the normalised path.
  unfoldable pub check_mask : Inputs → Result (Unit {0})
  check_mask inputs = do
    require
        (get_eq "symlinks"
          (obj (dict (("/usr/lib/systemd/user/snitchwatch-bridge.service", str "/dev/null") ∷ [])))
          inputs.manifest)
        "incorrect legacy user-unit mask inventory"
    target ← tree.readlink "usr/lib/systemd/user/snitchwatch-bridge.service"
    require (target =s= "/dev/null") "legacy user unit is not image-masked"

  unfoldable pub check_overlay : Inputs → Result (Unit {0})
  unfolding check_sources check_tower_rules
  check_overlay inputs = do
    check_sources inputs.files inputs.pins source_files
    check_tower_rules inputs.files tower_rules
    hash ← item legacy_config_path inputs.files
    legacy ← item "legacyConfigSha256" inputs.pins
    require (json_eq hash legacy)
        "legacy image-intent reference differs from pinned migration baseline"

  unfoldable pub check_config : Contents → Result (Unit {0})
  unfolding expected_config
  check_config contents = do
    bytes ← content config_path contents
    config ← load_dict bytes
    legacy_bytes ← content legacy_config_path contents
    legacy ← load_dict legacy_bytes
    expected ← expected_config legacy
    require (json_eq (obj config) (obj expected))
        "system candidate must retain the allow/proc defaults and change only the daemon address"
    server ← get_dict "Server" config
    require
        (get_eq "DefaultAction" (str "allow") config
          && (get_eq "ProcMonitorMethod" (str "proc") config
              && get_eq "Address" (str "unix:opensnitchd.sock") server))
        "incorrect system candidate policy/transport"
