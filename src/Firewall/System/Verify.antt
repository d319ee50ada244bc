-- ===== src/Firewall/System/Verify.antt =====
-- build_files/firewall/snitchwatch-system-verify.py `verify`: the whole verification.
use bazzite_tower.Prelude.{
  ℕ, Bool, [], ◌∷◌, length, num, str, obj, Fields, end, item, keys, Result, ok, err, require, ◌>>=◌,
  ◌>>◌,
}
use bazzite_tower.Publication.{dict}
use bazzite_tower.Publication.Candidate.{item_at}
use bazzite_tower.Firewall.Tree.{Tree, get_eq, value_of}
use bazzite_tower.Firewall.System.Names.{
  binary_path, config_path, legacy_config_path, scanner_binaries,
}
use bazzite_tower.Firewall.System.Reading.{Inputs, read_inputs, read_files}
use bazzite_tower.Firewall.System.Activation.{
  refuse_persistent_scanner_activation, refuse_enabled_endpoint_events, refuse_logger_snippet,
}
use bazzite_tower.Firewall.System.Bridge.{
  check_loggers, check_native, check_mask, check_overlay, check_config,
}
use bazzite_tower.Firewall.System.Artifact.{check_artifact, check_provenance}
use bazzite_tower.Firewall.System.Scanner.{
  binary_hashes, check_scanner, check_scanner_inputs, check_closure,
}

module _ ⦃tree : Tree⦄ where
  unfoldable pub check_gui : Inputs → Result (Unit {0})
  check_gui inputs = do
    runtime ← item "flatpakRuntimeRef" inputs.pins
    commit ← item "sourceCommit" inputs.pins
    hash ←
        item_at ("sourceFiles" ∷ "packaging/flatpak/org.snitchwatch.Snitchwatch.system.yml" ∷ [])
          (obj inputs.pins)
    arguments ← item "flatpakFinishArgs" inputs.pins
    require
        (get_eq "flatpak"
          (obj (
            dict (
              ("appId", str "org.snitchwatch.Snitchwatch")
              ∷ ("profile", str "system")
              ∷ ("runtimeRef", runtime)
              ∷ ("sourceCommit", commit)
              ∷ ("manifestSha256", hash)
              ∷ ("finishArgs", arguments)
              ∷ [])))
          inputs.manifest)
        "incorrect expected GUI system profile"

  -- The checks of the files of the bridge, up to its provenance.
  unfoldable pub check_bridge : Inputs → Result (Unit {0})
  unfolding check_loggers check_native check_mask check_overlay check_config check_artifact
      check_provenance
  check_bridge inputs = do
    check_loggers inputs.contents (config_path ∷ legacy_config_path ∷ [])
    check_native inputs
    check_mask inputs
    check_overlay inputs
    check_config inputs.contents
    check_artifact inputs
    check_provenance inputs

  unfoldable pub check_scanners : Inputs → Result (Unit {0})
  unfolding binary_hashes check_scanner check_scanner_inputs check_closure
  check_scanners inputs = do
    binaries ← binary_hashes inputs.files scanner_binaries end
    check_scanner inputs binaries
    check_scanner_inputs inputs
    check_closure inputs binaries

  -- `verify`
  unfoldable pub verify : Bool → Result Fields
  unfolding read_inputs read_files check_bridge check_scanners check_gui
  verify image_tree = do
    opened ← read_inputs
    inputs ← read_files opened
    check_bridge inputs
    check_scanners inputs
    refuse_persistent_scanner_activation
    refuse_enabled_endpoint_events image_tree
    refuse_logger_snippet image_tree
    check_gui inputs
    hash ← item binary_path inputs.files
    ok (
        dict (
          ("profile", str "system")
          ∷ ("sourceCommit", value_of "commit" inputs.source)
          ∷ ("binarySha256", hash)
          ∷ ("verifiedFiles", num (length (keys inputs.files)))
          ∷ []))

  -- `main`: the exit code
  abbrev pub main : Bool → ℕ
  main image_tree = elim (verify image_tree) [ ok printed ↦ 0 | err raised ↦ 1 ]
