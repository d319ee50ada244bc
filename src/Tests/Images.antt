-- ===== src/Tests/Images.antt =====
-- The theorem on the checks of an installed image, on a host that has one.
use bazzite_tower.Prelude.{
  ◌≡◌, refl, String, true, false, List, [], ◌∷◌, ◌=s=◌, if◌then◌else◌, Json, bool, num, str, obj,
  Fields, ok, json_eq, split_on, strip_prefix, same_codes,
}
use bazzite_tower.Publication.{dict}
use bazzite_tower.Firewall.System.Names.{binary_path}
use bazzite_tower.Firewall.Contracts.Installed.{
  Context, daemon_path, daemon_candidate, daemon_patch, check_owned, check_digest,
}
use bazzite_tower.Firewall.Contracts.Image.{
  mandatory, no_links, check_asset, check_assets, check_artifact_file, check_proof,
  check_daemon_paths, check_artifacts, daemon_documents, immutable_daemon, check_provenance,
  check_bridge_binary, check_gui_profile, opened_manifest, check_version, immutable,
}
use bazzite_tower.Firewall.Contracts.Trusted.{Trusted, immutable-Trusted}
use bazzite_tower.Tests.Publications.{find_document}
use bazzite_tower.Tests.Daemons.{some_hash, all_hashed, or_invalid}

abbrev commit : String
commit = "cccccccccccccccccccccccccccccccccccccccc"

abbrev demo_manifest : Fields
demo_manifest = dict (
    ("schemaVersion", num 1)
    ∷ ("profile", str "system")
    ∷ ("source", obj (dict (("commit", str commit) ∷ ("submoduleCommit", str commit) ∷ [])))
    ∷ (
      "binary",
      obj (
          dict (
            ("path", str binary_path) ∷ ("sha256", str some_hash) ∷ ("version", str "0.1.1") ∷ [])),
    )
    ∷ ("files", obj (all_hashed mandatory))
    ∷ (
      "flatpak",
      obj (
          dict (
            ("appId", str "org.snitchwatch.Snitchwatch")
            ∷ ("profile", str "system")
            ∷ ("sourceCommit", str commit)
            ∷ ("manifestSha256", str some_hash)
            ∷ [])),
    )
    ∷ [])

abbrev demo_pins : Json
demo_pins = obj (
    dict (
      ("sourceCommit", str commit)
      ∷ ("submoduleCommit", str commit)
      ∷ ("bridgeVersion", str "0.1.1")
      ∷ []))

abbrev demo_daemon : Json
demo_daemon = obj (
    dict (
      ("schemaVersion", num 1)
      ∷ ("profile", str "system")
      ∷ ("source", obj (dict (("commit", str commit) ∷ [])))
      ∷ (
        "binary",
        obj (
            dict (
              ("path", str daemon_path)
              ∷ ("candidatePath", str daemon_candidate)
              ∷ ("sha256", str some_hash)
              ∷ ("version", str "1.8.0")
              ∷ [])),
      )
      ∷ ("patch", obj (dict (("path", str daemon_patch) ∷ ("sha256", str some_hash) ∷ [])))
      ∷ []))

abbrev demo_proof : Json
demo_proof = obj (
    dict (
      ("profile", str "system")
      ∷ ("sourceCommit", str commit)
      ∷ ("patchSha256", str some_hash)
      ∷ ("binaryPath", str daemon_path)
      ∷ ("binarySha256", str some_hash)
      ∷ ("installedBinaryChecked", bool true)
      ∷ []))

abbrev demo_documents : List (String × Json)
demo_documents =
    ("/usr/share/snitchwatch/system-bridge-manifest.json", obj demo_manifest)
    ∷ ("/usr/share/snitchwatch/build-pins.json", demo_pins)
    ∷ ("/usr/share/snitchwatch/system-daemon-manifest.json", demo_daemon)
    ∷ ("proof", demo_proof)
    ∷ []

abbrev answers : String → String
answers program =
    if program =s= daemon_path
    then "1.8.0\n"
    else if program =s= binary_path
    then "snitchwatch-bridge-cli 0.1.1\n"
    else "proof"

abbrev first_word : List String → String
first_word [] = ""
first_word (word ∷ words) = word

instance abbrev demo_context : Context
demo_context = record {
  stat =
      λ path. ok (record { is_regular = true; is_symlink = false; mode = 420; uid = 0; gid = 0 });
  read = λ path.
      if path =s= "/usr/share/bazzite-tower/snitchwatch-bridge-profile"
      then ok "system\n"
      else ok path;
  command = λ argv. ok (answers (first_word argv));
  is_canonical = λ path. true;
  loads = λ bytes. or_invalid (find_document bytes demo_documents);
  sha = λ bytes. some_hash;
  to_int = λ text. ok 1000;
}

accepted : immutable ≡ ok demo_manifest
unfolding immutable opened_manifest check_provenance check_assets check_asset no_links check_owned
    check_digest check_bridge_binary check_gui_profile check_version immutable_daemon
    daemon_documents check_daemon_paths check_artifacts check_artifact_file check_proof json_eq
    split_on strip_prefix same_codes
accepted = refl

immutable-Trusted_example : Trusted demo_manifest
immutable-Trusted_example = immutable-Trusted demo_manifest accepted
