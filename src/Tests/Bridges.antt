-- ===== src/Tests/Bridges.antt =====
-- The theorems on the verification of the system bridge in a tree that holds it.
use bazzite_tower.Prelude.{
  ◌≡◌, refl, String, true, false, List, [], ◌∷◌, ◌++◌, ◌=s=◌, member, if◌then◌else◌, Json, bool,
  num, str, arr, obj, nil, cons, Fields, set_field, ok, json_eq, ◌↔◌, split_lines, split_on,
  strip_prefix, same_codes,
}
use bazzite_tower.Publication.{dict}
use bazzite_tower.Firewall.Tree.{Tree, read_inventory}
use bazzite_tower.Firewall.System.Names.{
  pins_path, expected_pins, binary_path, os_update_rule, os_update_digest, dns_rule, dns_digest,
  source_files, scanner_sources, scanner_evidence, scanner_licenses, required,
}
use bazzite_tower.Firewall.System.Reading.{
  check_source, check_identities, read_file, read_inputs, check_files, read_files,
}
use bazzite_tower.Firewall.System.Activation.{
  check_activation, check_activations, check_activation_dirs, check_names, check_name_dirs,
}
use bazzite_tower.Firewall.System.Bridge.{
  check_sources, check_tower_rules, expected_config, check_loggers, check_elves, check_native,
  check_mask, check_overlay, check_config,
}
use bazzite_tower.Firewall.System.Artifact.{
  by_path, check_originals, has_toolchain, check_build, check_artifact_source, check_artifact,
  check_provenance,
}
use bazzite_tower.Firewall.System.Scanner.{
  hashes_below, binary_hashes, build_command, check_inputs, check_no_others, check_scanner_build,
  check_scanner, check_scanner_inputs, check_closure,
}
use bazzite_tower.Firewall.System.Verify.{check_gui, check_bridge, check_scanners, verify}
use bazzite_tower.Firewall.System.Quiet.{IsQuiet, refusals, refusals-IsQuiet}
use bazzite_tower.Firewall.System.Verified.{Verified, verify-Verified}
use bazzite_tower.Tests.Publications.{find_document}
use bazzite_tower.Tests.Daemons.{some_hash, elf_bytes, all_hashed, find_text, or_itself, or_invalid}

abbrev commit : String
commit = "cccccccccccccccccccccccccccccccccccccccc"

abbrev demo_bytes : List (String × String)
demo_bytes =
    ("usr/share/snitchwatch/system-bridge-manifest.json", "manifest")
    ∷ ("usr/share/snitchwatch/build-pins.json", "pins")
    ∷ ("usr/bin/snitchwatch-bridge-cli", elf_bytes)
    ∷ ("usr/libexec/snitchwatch-scanner-privileged", elf_bytes)
    ∷ ("usr/libexec/snitchwatch-scanner-broker", elf_bytes)
    ∷ ("usr/share/bazzite-tower/snitchwatch-bridge-profile", "system\n")
    ∷ ("usr/share/bazzite-tower/opensnitchd-system-bridge-config.json", "config")
    ∷ ("usr/share/bazzite-tower/opensnitchd-default-config.json", "legacy")
    ∷ ("usr/share/snitchwatch/schema1-artifact-MANIFEST.json", "artifact")
    ∷ ("usr/share/snitchwatch/native-build-provenance.json", "provenance")
    ∷ ("usr/share/snitchwatch/scanner/provenance.json", "scanner")
    ∷ ("usr/share/snitchwatch/scanner/source-inputs.json", "inputs")
    ∷ ("usr/share/snitchwatch/scanner/dependency-closure.json", "closure")
    ∷ ("etc/opensnitchd/rules/000-snitchwatch-tower-os-update.json", "os update")
    ∷ ("etc/opensnitchd/rules/000-snitchwatch-tower-resolved-dns.json", "dns")
    ∷ []

abbrev originals : List (String × String) → List String
originals [] = []
originals ((name, original) ∷ rest) = original ∷ originals rest

abbrev demo_pins : Json
demo_pins = obj (
    dict (
      ("sourceCommit", str commit)
      ∷ ("submoduleCommit", str commit)
      ∷ ("sourceTree", str commit)
      ∷ ("bridgeVersion", str "0.3")
      ∷ ("legacyConfigSha256", str some_hash)
      ∷ ("builderImage", str "fedora")
      ∷ ("rustVersion", str "1.90")
      ∷ ("protocVersion", str "29")
      ∷ ("flatpakRuntimeRef", str "runtime")
      ∷ ("flatpakFinishArgs", arr nil)
      ∷ (
        "sourceFiles",
        obj (
            all_hashed (
              "Cargo.toml"
                ∷ "Cargo.lock"
                ∷ "packaging/flatpak/org.snitchwatch.Snitchwatch.system.yml"
                ∷ originals source_files
              ++ scanner_sources)),
      )
      ∷ []))

abbrev demo_files : Fields
demo_files = set_field pins_path (str expected_pins) (
    set_field os_update_rule (str os_update_digest)
      (set_field dns_rule (str dns_digest) (all_hashed required)))

abbrev demo_manifest : Json
demo_manifest = obj (
    dict (
      ("schemaVersion", num 1)
      ∷ ("profile", str "system")
      ∷ (
        "source",
        obj (
            dict (
              ("commit", str commit)
              ∷ ("submoduleCommit", str commit)
              ∷ ("tree", str commit)
              ∷ [])),
      )
      ∷ ("files", obj demo_files)
      ∷ (
        "binary",
        obj (
            dict (
              ("path", str binary_path) ∷ ("sha256", str some_hash) ∷ ("version", str "0.3") ∷ [])),
      )
      ∷ (
        "symlinks",
        obj (dict (("/usr/lib/systemd/user/snitchwatch-bridge.service", str "/dev/null") ∷ [])),
      )
      ∷ (
        "flatpak",
        obj (
            dict (
              ("appId", str "org.snitchwatch.Snitchwatch")
              ∷ ("profile", str "system")
              ∷ ("runtimeRef", str "runtime")
              ∷ ("sourceCommit", str commit)
              ∷ ("manifestSha256", str some_hash)
              ∷ ("finishArgs", arr nil)
              ∷ [])),
      )
      ∷ []))

abbrev config_of : String → String → Json
config_of action address = obj (
    dict (
      ("Server", obj (dict (("Address", str address) ∷ [])))
      ∷ ("DefaultAction", str action)
      ∷ ("ProcMonitorMethod", str "proc")
      ∷ []))

abbrev original_entry : String → Json
original_entry path = obj (dict (("path", str path) ∷ ("sha256", str some_hash) ∷ []))

abbrev demo_artifact : Json
demo_artifact = obj (
    dict (
      ("version", str "0.3")
      ∷ ("schema_version", num 1)
      ∷ ("source", obj (dict (("git_commit", str commit) ∷ ("dirty", bool false) ∷ [])))
      ∷ ("upstream", obj (dict (("opensnitch_commit", str commit) ∷ [])))
      ∷ (
        "build",
        obj (
            dict (
              ("builder_image", str "fedora")
              ∷ ("rustc_vv", str "rustc 1.90 (abc)")
              ∷ ("protoc_version", str "libprotoc 29")
              ∷ [])),
      )
      ∷ (
        "files",
        arr (
            cons (original_entry "usr/bin/snitchwatch-bridge-cli") (
              cons (original_entry "usr/share/licenses/snitchwatch-bridge/LICENSE") (
                cons (original_entry "usr/share/licenses/snitchwatch-bridge/LICENSE.opensnitch") (
                  cons
                    (original_entry "usr/share/licenses/snitchwatch-bridge/THIRD-PARTY-LICENSES.md")
                    nil)))),
      )
      ∷ []))

abbrev demo_provenance : Json
demo_provenance = obj (
    dict (
      ("sourceCommit", str commit)
      ∷ ("submoduleCommit", str commit)
      ∷ ("sourceTree", str commit)
      ∷ ("reproducible", bool true)
      ∷ ("rpmInventorySha256", str some_hash)
      ∷ []))

abbrev demo_scanner : Json
demo_scanner = obj (
    dict (
      ("schemaVersion", num 1)
      ∷ ("sourceCommit", str commit)
      ∷ ("sourceTree", str commit)
      ∷ ("builderImage", str "fedora")
      ∷ ("cargoLockSha256", str some_hash)
      ∷ ("cargoTomlSha256", str some_hash)
      ∷ ("rustcVv", str "rustc 1.90 (abc)")
      ∷ ("reproducible", bool true)
      ∷ ("testsPassed", bool true)
      ∷ ("rpmInventorySha256", str some_hash)
      ∷ ("buildCommand", build_command)
      ∷ (
        "binaries",
        obj (all_hashed ("snitchwatch-scanner-privileged" ∷ "snitchwatch-scanner-broker" ∷ [])),
      )
      ∷ ("evidence", obj (all_hashed (scanner_evidence ++ scanner_licenses)))
      ∷ []))

abbrev demo_closure : Json
demo_closure = obj (
    dict (
      ("snitchwatch-scanner-privileged", arr (cons (str "libc") nil))
      ∷ ("snitchwatch-scanner-broker", arr (cons (str "libc") nil))
      ∷ []))

abbrev demo_documents : List (String × Json)
demo_documents =
    ("manifest", demo_manifest)
    ∷ ("pins", demo_pins)
    ∷ ("config", config_of "allow" "unix:opensnitchd.sock")
    ∷ ("legacy", config_of "deny" "unix:///tmp/osui.sock")
    ∷ ("artifact", demo_artifact)
    ∷ ("provenance", demo_provenance)
    ∷ ("scanner", demo_scanner)
    ∷ ("inputs", obj (all_hashed ("Cargo.toml" ∷ "Cargo.lock" ∷ scanner_sources)))
    ∷ ("closure", demo_closure)
    ∷ []

abbrev executables : List String
executables =
    "usr/bin/snitchwatch-bridge-cli" ∷ "usr/libexec/snitchwatch/verify-system-manifest.py"
    ∷ "usr/libexec/snitchwatch-scanner-privileged" ∷ "usr/libexec/snitchwatch-scanner-broker" ∷ []

-- Two unit trees: one with a unit of another program, one with the session's activation.
abbrev found_paths : String → List (List String)
found_paths directory =
    if directory =s= "usr/share/dbus-1/services"
    then ("org.snitchwatch.Scanner.service" ∷ []) ∷ []
    else if directory =s= "usr/lib/systemd/system"
    then ("sshd.service" ∷ []) ∷ []
    else []

instance abbrev demo_tree : Tree
demo_tree = record {
  is_live = true;
  is_symlink = λ path. false;
  stat = λ path. ok (record {
    is_regular = true;
    mode = if member path executables then 493 else 420;
    uid = 0;
    gid = 0;
  });
  read_bytes = λ path. or_itself path (find_text path demo_bytes);
  is_dir = λ path. true;
  is_file = λ path. true;
  below = found_paths;
  readlink = λ path. ok "/dev/null";
  loads = λ bytes. or_invalid (find_document bytes demo_documents);
  sha = λ bytes.
      if bytes =s= "pins"
      then expected_pins
      else if bytes =s= "os update"
      then os_update_digest
      else if bytes =s= "dns"
      then dns_digest
      else some_hash;
  decoded = λ bytes. ok bytes;
  encoded = λ text. text;
  lower = λ text. text;
}

quiet : refusals true ≡ ok tt
unfolding check_activation_dirs check_activations check_activation check_name_dirs check_names
    strip_prefix same_codes
quiet = refl

refusals-IsQuiet_example : (refusals true ≡ ok tt) ↔ IsQuiet true
refusals-IsQuiet_example = refusals-IsQuiet true

abbrev printed : Fields
printed = dict (
    ("profile", str "system")
    ∷ ("sourceCommit", str commit)
    ∷ ("binarySha256", str some_hash)
    ∷ ("verifiedFiles", num 41)
    ∷ [])

verified : verify false ≡ ok printed
unfolding verify read_inputs check_source check_identities read_files check_files read_inventory
    read_file check_bridge check_loggers check_native check_elves check_mask check_overlay
    check_sources check_tower_rules check_config expected_config check_artifact
    check_artifact_source check_build has_toolchain by_path check_originals check_provenance
    check_scanners binary_hashes check_scanner check_scanner_build hashes_below check_scanner_inputs
    check_inputs check_no_others check_closure check_activation_dirs check_activations
    check_activation check_name_dirs check_names check_gui json_eq split_lines split_on strip_prefix
    same_codes
verified = refl

verify-Verified_example : Verified false
verify-Verified_example = verify-Verified false printed verified
