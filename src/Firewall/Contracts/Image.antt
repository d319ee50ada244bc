-- ===== src/Firewall/Contracts/Image.antt =====
-- system_files/usr/libexec/bazzite-tower-snitchwatch-common.py: `immutable` and `immutable_daemon`.
use Prim.Native.String.{◌++◌ as ◌<>◌}
use bazzite_tower.Prelude.{
  String, Bool, true, ◌&&◌, ◌||◌, not, Option, some, List, [], ◌∷◌, if◌then◌else◌, ◌=s=◌, codes,
  all, member, join, starts_with, text_strip, Json, str, obj, Fields, end, field, get_field, item,
  keys, as_dict, json_eq, is_truthy, get_is, is_num, is_str, Result, ok, err, refusal, type_error,
  ◌>>=◌, ◌>>◌,
}
use bazzite_tower.Refresh.Policy.{is_hex_text}
use bazzite_tower.Firewall.Tree.{parts_of, parents, value_of, get_dict}
use bazzite_tower.Firewall.System.Names.{
  manifest_path, pins_path, profile_path, binary_path, legacy_config_path, config_path, fetch_rule,
  os_update_rule, dns_rule, reserved_rules,
}
use bazzite_tower.Firewall.System.Reading.{get_text}
use bazzite_tower.Firewall.System.Activation.{front_parts}
use bazzite_tower.Firewall.System.Artifact.{is_bool}
use bazzite_tower.Firewall.Contracts.Installed.{
  Context, bridge_version, daemon_path, daemon_manifest, daemon_candidate, daemon_patch,
  daemon_dropin, demand, load_document, check_owned, check_digest,
}

-- RESERVED_RULES
abbrev pub rule_words : String → String
rule_words name =
    if name =s= fetch_rule
    then "Snitchwatch fetch rule"
    else if name =s= os_update_rule
    then "tower OS-update rule"
    else "tower resolver DNS rule"

-- `mandatory` of `immutable`
abbrev pub mandatory : List String
mandatory =
    binary_path ∷ config_path ∷ legacy_config_path ∷ pins_path ∷ fetch_rule ∷ os_update_rule
    ∷ dns_rule ∷ "/usr/lib/sysusers.d/snitchwatch.conf" ∷ "/usr/lib/tmpfiles.d/snitchwatch.conf"
    ∷ daemon_dropin ∷ "/usr/lib/systemd/system/snitchwatch-system-bridge.service"
    ∷ "/usr/lib/systemd/system/snitchwatch-system-bridge-grpc.socket"
    ∷ "/usr/lib/systemd/system/snitchwatch-system-bridge-gui.socket" ∷ []

-- `value or ""`, of which a text is needed
abbrev pub or_empty : Json → Result String
or_empty (str s) = ok s
or_empty v = if is_truthy (some v) then err (type_error "expected string") else ok ""

-- `d.get(key) == e.get(key)`
abbrev pub same_value : String → Fields → String → Fields → Bool
same_value k d j e = json_eq (value_of k d) (value_of j e)

-- The parents of a path but the root, the nearest one first.
abbrev pub nearest_first : List (List String) → List String → List String
nearest_first [] found = found
nearest_first (q ∷ qs) found = nearest_first qs (("/" <> join "/" q) ∷ found)

abbrev pub parents_of : String → List String
parents_of name = nearest_first (parents (front_parts (parts_of name))) []

-- `files`, of which a dict with the mandatory names is needed
abbrev pub assets_of : Option Json → Result Fields
assets_of (some (obj fs)) =
    demand (all (λ name. member name (keys fs)) mandatory)
      "system manifest lacks required installed assets"
    >> ok fs
assets_of _ = err (refusal "system manifest lacks required installed assets")

abbrev pub installed_assets : Fields → Result Fields
installed_assets manifest = assets_of (get_field "files" manifest)

module _ ⦃context : Context⦄ where
  unfoldable pub no_links : List String → String → Result (Unit {0})
  no_links [] message = ok tt
  no_links (path ∷ paths) message = do
    info ← context.stat path
    demand (not info.is_symlink) message
    no_links paths message

  -- A file of the manifest is the installed one.
  unfoldable pub check_asset : String → Json → Result (Unit {0})
  unfolding no_links check_owned check_digest
  check_asset name v = do
    demand
        ((starts_with "/usr/" name || member name reserved_rules)
          && not (member ".." (parts_of name)))
        "unsafe system manifest entry"
    expected ← or_empty v
    demand (is_hex_text 64 (codes expected)) "unsafe system manifest entry"
    no_links (if member name reserved_rules then parents_of name else [])
        ("symlink in the path of the shipped " <> rule_words name)
    check_owned name ("mutable/non-root installed asset: " <> name)
    check_digest name expected ("installed asset hash mismatch: " <> name)

  unfoldable pub check_assets : Fields → Result (Unit {0})
  check_assets end = ok tt
  check_assets (field name v fs) = check_asset name v >> check_assets fs

  -- A file of the patched daemon.
  unfoldable pub check_artifact_file : String → Json → Result (Unit {0})
  unfolding check_owned check_digest
  check_artifact_file name v = do
    expected ← or_empty v
    demand (is_hex_text 64 (codes expected)) "missing patched daemon artifact identity"
    check_owned name ("mutable/non-root patched daemon artifact: " <> name)
    check_digest name expected ("patched daemon artifact hash mismatch: " <> name)

  -- The answer of the daemon's verifier is about this manifest.
  unfoldable pub check_proof : Fields → Fields → Fields → Fields → Result (Unit {0})
  check_proof proof source binary patch = do
    commit ← item "commit" source
    patch_hash ← item "sha256" patch
    hash ← item "sha256" binary
    demand
        (get_is (is_str "system") "profile" proof
          && (json_eq commit (value_of "sourceCommit" proof)
              && (json_eq patch_hash (value_of "patchSha256" proof)
                  && (get_is (is_str daemon_path) "binaryPath" proof
                      && (json_eq hash (value_of "binarySha256" proof)
                          && is_bool true (value_of "installedBinaryChecked" proof))))))
        "daemon verifier did not establish installed patched binary identity"

  unfoldable pub check_daemon_paths : Fields → Fields → Result (Unit {0})
  check_daemon_paths binary patch = do
    demand
        (get_is (is_str daemon_path) "path" binary
          && (get_is (is_str daemon_candidate) "candidatePath" binary
              && get_is (is_str "1.8.0") "version" binary))
        "patched daemon binary path/version drift"
    demand (get_is (is_str daemon_patch) "path" patch) "patched daemon repair patch path drift"

  unfoldable pub check_artifacts : Fields → Fields → Result (Unit {0})
  unfolding check_artifact_file
  check_artifacts binary patch = do
    check_artifact_file daemon_path (value_of "sha256" binary)
    check_artifact_file daemon_candidate (value_of "sha256" binary)
    check_artifact_file daemon_patch (value_of "sha256" patch)

  -- The manifest of the daemon, with what its verifier printed.
  unfoldable pub daemon_documents : Fields → Result (Fields × Fields)
  daemon_documents pins = do
    printed ← context.command ("python3" ∷ "/usr/libexec/snitchwatch/verify-system-daemon.py" ∷ [])
    proof_value ← context.loads printed
    check_owned daemon_manifest "daemon manifest must be a root-owned non-writable regular file"
    manifest ← load_document daemon_manifest
    demand
        (get_is (is_num 1) "schemaVersion" manifest && get_is (is_str "system") "profile" manifest)
        "invalid patched daemon manifest profile/schema"
    source ← get_dict "source" manifest
    demand (same_value "commit" source "submoduleCommit" pins)
        "patched daemon upstream differs from reviewed bridge submodule"
    proof ← as_dict proof_value
    ok (proof, manifest)

  -- `immutable_daemon`
  unfoldable pub immutable_daemon : Fields → Result Fields
  unfolding daemon_documents check_daemon_paths check_artifacts check_proof check_owned
  immutable_daemon pins = do
    (proof, manifest) ← daemon_documents pins
    source ← get_dict "source" manifest
    binary ← get_dict "binary" manifest
    patch ← get_dict "patch" manifest
    check_daemon_paths binary patch
    check_artifacts binary patch
    check_proof proof source binary patch
    version ← context.command (daemon_path ∷ "-version" ∷ [])
    demand (text_strip version =s= "1.8.0") "installed patched daemon version drift"
    ok manifest

  -- The source that the manifest and the pins name.
  unfoldable pub check_provenance : Fields → Fields → Fields → Result (Unit {0})
  check_provenance manifest source pins = do
    demand
        (same_value "commit" source "sourceCommit" pins
          && same_value "submoduleCommit" source "submoduleCommit" pins)
        "unexpected source provenance"
    commit ← get_text "commit" source
    demand (is_hex_text 40 (codes commit)) "unexpected source provenance"
    submodule ← get_text "submoduleCommit" source
    demand (is_hex_text 40 (codes submodule)) "unexpected source provenance"
    binary ← get_dict "binary" manifest
    demand (get_is (is_str binary_path) "path" binary) "unexpected manifest executable path"

  unfoldable pub check_bridge_binary : Fields → Fields → Fields → Result (Unit {0})
  check_bridge_binary manifest files pins = do
    binary_value ← item "binary" manifest
    binary ← as_dict binary_value
    hash ← item binary_path files
    demand (json_eq hash (value_of "sha256" binary))
        "binary provenance disagrees with installed asset hash"
    demand
        (get_is (is_str bridge_version) "version" binary
          && get_is (is_str bridge_version) "bridgeVersion" pins)
        ("manifest/pins must declare bridge version " <> bridge_version)

  unfoldable pub check_gui_profile : Fields → Fields → Result (Unit {0})
  check_gui_profile manifest source = do
    gui ← get_dict "flatpak" manifest
    demand
        (get_is (is_str "org.snitchwatch.Snitchwatch") "appId" gui
          && (get_is (is_str "system") "profile" gui
              && same_value "sourceCommit" gui "commit" source))
        "missing system GUI profile provenance"
    hash ← get_text "manifestSha256" gui
    demand (is_hex_text 64 (codes hash)) "missing system GUI profile provenance"

  -- The manifest and the pins, behind the checks of the profile and of the verifier.
  unfoldable pub opened_manifest : Result (Fields × Fields)
  unfolding check_owned
  opened_manifest = do
    profile ← context.read profile_path
    demand (text_strip profile =s= "system") "image profile is not system"
    _ ← context.command ("python3" ∷ "/usr/libexec/snitchwatch/verify-system-manifest.py" ∷ [])
    check_owned manifest_path "system manifest must be a root-owned, non-writable regular file"
    manifest ← load_document manifest_path
    demand
        (get_is (is_num 1) "schemaVersion" manifest && get_is (is_str "system") "profile" manifest)
        "invalid system manifest schema/profile"
    pins ← load_document pins_path
    ok (manifest, pins)

  unfoldable pub check_version : Result (Unit {0})
  check_version = do
    printed ← context.command (binary_path ∷ "--version" ∷ [])
    demand (text_strip printed =s= ("snitchwatch-bridge-cli " <> bridge_version)) (
        "installed bridge version must be "
        <> (bridge_version <> (" (got: " <> (text_strip printed <> ")"))))

  -- `immutable`
  unfoldable pub immutable : Result Fields
  unfolding opened_manifest check_provenance check_assets check_asset check_bridge_binary
      check_gui_profile check_version immutable_daemon
  immutable = do
    (manifest, pins) ← opened_manifest
    source ← get_dict "source" manifest
    check_provenance manifest source pins
    files ← installed_assets manifest
    check_assets files
    check_bridge_binary manifest files pins
    check_gui_profile manifest source
    check_version
    _ ← immutable_daemon pins
    ok manifest
