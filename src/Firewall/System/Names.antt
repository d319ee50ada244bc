-- ===== src/Firewall/System/Names.antt =====
-- build_files/firewall/snitchwatch-system-verify.py: its paths, digests and modes.
use bazzite_tower.Prelude.{ℕ, String, ◌<>◌, List, [], ◌∷◌, ◌++◌, map, if◌then◌else◌, member}

abbrev pub manifest_path : String
manifest_path = "/usr/share/snitchwatch/system-bridge-manifest.json"

abbrev pub pins_path : String
pins_path = "/usr/share/snitchwatch/build-pins.json"

abbrev pub expected_pins : String
expected_pins = "0058f0f6f5130fbb6e08033c9b0b9c1d2f0f25f29f4a813fdf2d2f0d3fc0d2b0"

abbrev pub binary_path : String
binary_path = "/usr/bin/snitchwatch-bridge-cli"

abbrev pub profile_path : String
profile_path = "/usr/share/bazzite-tower/snitchwatch-bridge-profile"

abbrev pub config_path : String
config_path = "/usr/share/bazzite-tower/opensnitchd-system-bridge-config.json"

abbrev pub legacy_config_path : String
legacy_config_path = "/usr/share/bazzite-tower/opensnitchd-default-config.json"

abbrev pub dropin_path : String
dropin_path = "/usr/lib/systemd/system/opensnitch.service.d/snitchwatch-system-bridge.conf"

abbrev pub fetch_rule : String
fetch_rule = "/etc/opensnitchd/rules/000-snitchwatch-bridge-fetch.json"

abbrev pub os_update_rule : String
os_update_rule = "/etc/opensnitchd/rules/000-snitchwatch-tower-os-update.json"

abbrev pub os_update_digest : String
os_update_digest = "9bd06784270af7316380b3cabe42059450b64d755fc997e64a5c0c8d317c4a42"

abbrev pub dns_rule : String
dns_rule = "/etc/opensnitchd/rules/000-snitchwatch-tower-resolved-dns.json"

abbrev pub dns_digest : String
dns_digest = "8f80789e093fd98f0b2b642268477b1e68d59006e4eb1d518acfecb7e95eaa29"

abbrev pub events_root : String
events_root = "/usr/share/snitchwatch/endpoint-events/"

abbrev pub events_name : String
events_name = "snitchwatch-endpoint-events"

abbrev pub events_logger : String
events_logger = "opensnitchd-logger"

abbrev pub scanner_root : String
scanner_root = "/usr/share/snitchwatch/scanner/"

abbrev pub scanner_license_root : String
scanner_license_root = "/usr/share/licenses/snitchwatch-scanner/"

abbrev pub session_activation : String
session_activation = "usr/share/dbus-1/services/org.snitchwatch.Scanner.service"

abbrev pub verifier_path : String
verifier_path = "/usr/libexec/snitchwatch/verify-system-manifest.py"

abbrev pub license_root : String
license_root = "/usr/share/licenses/snitchwatch-bridge/"

abbrev pub native_provenance_path : String
native_provenance_path = "/usr/share/snitchwatch/native-build-provenance.json"

abbrev pub native_rpms_path : String
native_rpms_path = "/usr/share/snitchwatch/native-rpm-inventory.txt"

abbrev pub artifact_path : String
artifact_path = "/usr/share/snitchwatch/schema1-artifact-MANIFEST.json"

abbrev pub tower_rules : List (String × String)
tower_rules = (os_update_rule, os_update_digest) ∷ (dns_rule, dns_digest) ∷ []

abbrev pub reserved_rules : List String
reserved_rules = fetch_rule ∷ os_update_rule ∷ dns_rule ∷ []

abbrev pub events_files : List String
events_files =
    "snitchwatch-endpoint-events.conf" ∷ "snitchwatch-endpoint-events.nft"
    ∷ "snitchwatch-endpoint-events.service" ∷ "snitchwatch-endpoint-events-nft.service" ∷ []

-- SOURCE_FILES
abbrev pub source_files : List (String × String)
source_files =
    ((
      "/usr/share/dbus-1/services/org.snitchwatch.Scanner.service",
      "packaging/scanner/org.snitchwatch.Scanner.service",
    )
      ∷ (
        "/usr/share/polkit-1/actions/org.snitchwatch.scanner.policy",
        "packaging/polkit/org.snitchwatch.scanner.policy",
      )
      ∷ (
        "/usr/lib/tmpfiles.d/snitchwatch-scanner.conf",
        "packaging/scanner/snitchwatch-scanner.conf",
      )
      ∷ (
        "/usr/lib/systemd/system/snitchwatch-system-bridge.service",
        "packaging/system/snitchwatch-system-bridge.service",
      )
      ∷ (
        "/usr/lib/systemd/system/snitchwatch-system-bridge-grpc.socket",
        "packaging/system/snitchwatch-system-bridge-grpc.socket",
      )
      ∷ (
        "/usr/lib/systemd/system/snitchwatch-system-bridge-gui.socket",
        "packaging/system/snitchwatch-system-bridge-gui.socket",
      )
      ∷ ("/usr/lib/tmpfiles.d/snitchwatch.conf", "packaging/system/snitchwatch.conf")
      ∷ ("/usr/lib/sysusers.d/snitchwatch.conf", "packaging/system/snitchwatch.conf.sysusers")
      ∷ (dropin_path, "packaging/system/opensnitch-snitchwatch-system-bridge.conf")
      ∷ (
        fetch_rule,
        "packaging/bluebuild/files/system/etc/opensnitchd/rules/000-snitchwatch-bridge-fetch.json",
      )
      ∷ [])
    ++ map (λ name. (events_root <> name, "packaging/endpoint-events/" <> name)) events_files

abbrev pub events_image_dirs : List String
events_image_dirs = "usr/lib/systemd/system" ∷ "usr/lib/systemd/user" ∷ []

abbrev pub events_logger_dirs_live : List String
events_logger_dirs_live = "usr/share/snitchwatch" ∷ "usr/share/bazzite-tower" ∷ []

abbrev pub events_etc_dirs : List String
events_etc_dirs = "etc/systemd/system" ∷ "etc/systemd/user" ∷ "etc/xdg/systemd/user" ∷ []

abbrev pub events_logger_dirs : List String
events_logger_dirs = "etc/opensnitchd" ∷ events_logger_dirs_live

abbrev pub licenses : List String
licenses = "LICENSE" ∷ "LICENSE.opensnitch" ∷ "THIRD-PARTY-LICENSES.md" ∷ []

abbrev pub scanner_binaries : List String
scanner_binaries =
    "/usr/libexec/snitchwatch-scanner-privileged" ∷ "/usr/libexec/snitchwatch-scanner-broker" ∷ []

abbrev pub scanner_crate_dirs : List String
scanner_crate_dirs = "crates/scanner-privileged/" ∷ "crates/scanner-broker/" ∷ []

-- SCANNER_SOURCE_ALLOWLIST
abbrev pub scanner_sources : List String
scanner_sources =
    "crates/scanner-broker/Cargo.toml" ∷ "crates/scanner-broker/src/lib.rs"
    ∷ "crates/scanner-broker/src/main.rs" ∷ "crates/scanner-privileged/Cargo.toml"
    ∷ "crates/scanner-privileged/src/checks/kargs.rs"
    ∷ "crates/scanner-privileged/src/checks/lockdown.rs"
    ∷ "crates/scanner-privileged/src/checks/mod.rs"
    ∷ "crates/scanner-privileged/src/checks/modules.rs"
    ∷ "crates/scanner-privileged/src/checks/rootkit.rs" ∷ "crates/scanner-privileged/src/command.rs"
    ∷ "crates/scanner-privileged/src/error.rs" ∷ "crates/scanner-privileged/src/facts.rs"
    ∷ "crates/scanner-privileged/src/lib.rs" ∷ "crates/scanner-privileged/src/main.rs"
    ∷ "crates/scanner-privileged/src/model.rs" ∷ "crates/scanner-privileged/src/scan.rs"
    ∷ "crates/scanner-privileged/src/store.rs" ∷ "crates/scanner-privileged/tests/end_to_end.rs"
    ∷ []

abbrev pub activation_names : List String
activation_names = "snitchwatch-scanner-privileged" ∷ "snitchwatch-scanner-broker" ∷ []

abbrev pub activation_dirs : List String
activation_dirs =
    "usr/lib/systemd/system" ∷ "usr/lib/systemd/user" ∷ "etc/systemd/system" ∷ "etc/systemd/user"
    ∷ "etc/xdg/systemd/user" ∷ "usr/share/dbus-1/system-services" ∷ "etc/dbus-1/system-services"
    ∷ "usr/share/dbus-1/services" ∷ "etc/dbus-1/services" ∷ []

abbrev pub unit_suffixes : List String
unit_suffixes = ".service" ∷ ".timer" ∷ ".socket" ∷ ".path" ∷ []

abbrev pub wants_suffixes : List String
wants_suffixes = ".wants" ∷ ".requires" ∷ []

abbrev pub scanner_evidence : List String
scanner_evidence =
    "source-inputs.json" ∷ "dependency-closure.json" ∷ "build.log" ∷ "repro.log" ∷ "test.log"
    ∷ "snitchwatch-scanner-privileged.ldd" ∷ "snitchwatch-scanner-broker.ldd" ∷ []

abbrev pub scanner_licenses : List String
scanner_licenses = "LICENSE" ∷ "THIRD-PARTY-LICENSES.md" ∷ []

abbrev pub receipts : List String
receipts =
    pins_path ∷ native_provenance_path ∷ native_rpms_path ∷ artifact_path
    ∷ "/usr/share/snitchwatch/schema1-artifact-SHA256SUMS" ∷ []

abbrev pub first_names : List (String × String) → List String
first_names [] = []
first_names ((name, original) ∷ rest) = name ∷ first_names rest

-- REQUIRED
abbrev pub required : List String
required =
    first_names source_files
    ++ receipts
    ++ (binary_path ∷ profile_path ∷ config_path ∷ legacy_config_path ∷ os_update_rule ∷ dns_rule
        ∷ verifier_path ∷ [])
    ++ map (λ name. license_root <> name) licenses
    ++ scanner_binaries
    ++ map (λ name. scanner_root <> name) ("provenance.json" ∷ scanner_evidence)
    ++ map (λ name. scanner_license_root <> name) scanner_licenses

-- 0o755 for what can be run, 0o644 for any other file
abbrev pub mode_of : String → ℕ
mode_of name = if member name (binary_path ∷ verifier_path ∷ scanner_binaries) then 493 else 420
