-- ===== src/Firewall/Daemon/Names.antt =====
-- build_files/firewall/snitchwatch-system-daemon-verify.py: its paths, digests and modes.
use bazzite_tower.Prelude.{ℕ, String, List, [], ◌∷◌, if◌then◌else◌, member}

abbrev pub manifest_path : String
manifest_path = "/usr/share/snitchwatch/system-daemon-manifest.json"

abbrev pub pins_path : String
pins_path = "/usr/share/snitchwatch/daemon/build-pins.json"

abbrev pub patch_path : String
patch_path = "/usr/share/snitchwatch/daemon/opensnitch-shutdown-repair.patch"

abbrev pub candidate_path : String
candidate_path = "/usr/share/snitchwatch/daemon/opensnitchd"

abbrev pub binary_path : String
binary_path = "/usr/bin/opensnitchd"

abbrev pub verifier_path : String
verifier_path = "/usr/libexec/snitchwatch/verify-system-daemon.py"

abbrev pub expected_pins : String
expected_pins = "6a3804e550902a183b3e13ba5bd7d4c5de3ef98dae806fc07ed9afaa944b367b"

abbrev pub provenance_path : String
provenance_path = "/usr/share/snitchwatch/daemon/native-build-provenance.json"

abbrev pub rpms_path : String
rpms_path = "/usr/share/snitchwatch/daemon/rpm-inventory.txt"

abbrev pub build_info_path : String
build_info_path = "/usr/share/snitchwatch/daemon/go-build-info.txt"

abbrev pub proto_path : String
proto_path = "/usr/share/snitchwatch/daemon/source/ui.proto"

abbrev pub license_path : String
license_path = "/usr/share/licenses/snitchwatch-opensnitchd/LICENSE"

abbrev pub third_party_path : String
third_party_path = "/usr/share/licenses/snitchwatch-opensnitchd/THIRD-PARTY-LICENSES.md"

-- REQUIRED
abbrev pub required : List String
required =
    pins_path ∷ patch_path ∷ candidate_path ∷ verifier_path ∷ provenance_path ∷ rpms_path
    ∷ build_info_path ∷ "/usr/share/snitchwatch/daemon/generated/ui.pb.go"
    ∷ "/usr/share/snitchwatch/daemon/generated/ui_grpc.pb.go"
    ∷ "/usr/share/snitchwatch/daemon/source/go.mod" ∷ "/usr/share/snitchwatch/daemon/source/go.sum"
    ∷ proto_path ∷ license_path ∷ third_party_path ∷ []

-- 0o755 for the candidate and the verifier, 0o644 for any other file
abbrev pub mode_of : String → ℕ
mode_of name = if member name (candidate_path ∷ verifier_path ∷ []) then 493 else 420
