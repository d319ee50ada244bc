-- ===== src/Firewall/Daemon/Checks.antt =====
-- build_files/firewall/snitchwatch-system-daemon-verify.py: the checks of the binary, the pins and the
-- provenance.
use Prim.Native.String.{◌++◌ as ◌<>◌}
use bazzite_tower.Prelude.{
  String, Bool, true, ◌&&◌, List, [], ◌∷◌, if◌then◌else◌, Json, bool, str, obj, Fields, end, field,
  item, as_dict, json_eq, set_field, Result, ok, require, ◌>>=◌, ◌>>◌,
}
use bazzite_tower.Publication.{dict}
use bazzite_tower.Firewall.Tree.{Tree, base_name, get_eq, content, is_elf64, load_dict}
use bazzite_tower.Firewall.Daemon.Names.{
  patch_path, candidate_path, binary_path, provenance_path, rpms_path, proto_path, license_path,
}
use bazzite_tower.Firewall.Daemon.Reading.{read_file, Inputs}

-- `checks.update({prefix + Path(name).name: value for name, value in d.items()})`
abbrev pub add_named : String → (String → String) → Fields → Fields → Fields
add_named prefix rename end checks = checks
add_named prefix rename (field name value fs) checks =
    add_named prefix rename fs (set_field (prefix <> rename name) value checks)

-- `for name, expected in checks.items()`
unfoldable pub check_pinned : Fields → Fields → Result (Unit {0})
check_pinned files end = ok tt
check_pinned files (field name expected rest) = do
  hash ← item name files
  require (json_eq hash expected)
      ("daemon source/module/protocol/license differs from pin: " <> name)
  check_pinned files rest

-- `provenance.get(key) == value` for all items
abbrev pub has_all : Fields → List (String × Json) → Bool
has_all provenance [] = true
has_all provenance ((k, v) ∷ rest) = get_eq k v provenance && has_all provenance rest

module _ ⦃tree : Tree⦄ where
  -- The candidate is an ELF file, the one of the manifest, and installed.
  unfoldable pub check_binary : Bool → Inputs → Result (Unit {0})
  check_binary stage_only inputs = do
    hash ← item candidate_path inputs.files
    version ← item "daemonVersion" inputs.pins
    require
        (get_eq "binary"
          (obj (
            dict (
              ("path", str binary_path)
              ∷ ("candidatePath", str candidate_path)
              ∷ ("sha256", hash)
              ∷ ("version", version)
              ∷ [])))
          inputs.manifest)
        "daemon binary identity mismatch"
    candidate ← content candidate_path inputs.contents
    require (is_elf64 candidate) "native daemon is not little-endian ELF64"
    if stage_only then ok tt else (do
      installed ← read_file binary_path 493
      require (json_eq (str (tree.sha installed)) hash)
          "installed daemon differs from reviewed native candidate")

  -- The hashes that the pins have of the files.
  unfoldable pub pinned_checks : Fields → Result Fields
  pinned_checks pins = do
    patch ← item "patchSha256" pins
    proto ← item "protoSourceSha256" pins
    license ← item "licenseSha256" pins
    locks_value ← item "moduleLocks" pins
    locks ← as_dict locks_value
    generated_value ← item "generatedFiles" pins
    generated ← as_dict generated_value
    ok (
        add_named "/usr/share/snitchwatch/daemon/generated/" (λ name. name) generated
          (add_named "/usr/share/snitchwatch/daemon/source/" base_name locks
            (dict ((patch_path, patch) ∷ (proto_path, proto) ∷ (license_path, license) ∷ []))))

  unfoldable pub tool_provenance : Fields → Result (List (String × Json))
  tool_provenance pins = do
    patched ← item "patchedFiles" pins
    builder ← item "builderImage" pins
    go_version ← item "goVersion" pins
    build_command ← item "buildCommand" pins
    generated ← item "generatedFiles" pins
    tools ← item "tools" pins
    version ← item "daemonVersion" pins
    ok (
        ("patchedFiles", patched)
        ∷ ("builderImage", builder)
        ∷ ("goVersion", go_version)
        ∷ ("buildCommand", build_command)
        ∷ ("generatedFiles", generated)
        ∷ ("tools", tools)
        ∷ ("actualVersionOutput", version)
        ∷ [])

  unfoldable pub expected_provenance : Inputs → Fields → Result (List (String × Json))
  unfolding tool_provenance
  expected_provenance inputs source = do
    commit ← item "commit" source
    source_tree ← item "tree" source
    patch ← item "patchSha256" inputs.pins
    hash ← item candidate_path inputs.files
    rpms ← item rpms_path inputs.files
    tools ← tool_provenance inputs.pins
    ok (
        ("sourceCommit", commit)
        ∷ ("sourceTree", source_tree)
        ∷ ("patchSha256", patch)
        ∷ ("reproducible", bool true)
        ∷ ("firstBinarySha256", hash)
        ∷ ("secondBinarySha256", hash)
        ∷ ("rpmInventorySha256", rpms)
        ∷ tools)

  unfoldable pub read_provenance : Inputs → Fields → Result Fields
  read_provenance inputs source = do
    bytes ← content provenance_path inputs.contents
    provenance ← load_dict bytes
    expected ← expected_provenance inputs source
    require (has_all provenance expected) "daemon build/reproduction provenance differs from pins"
    ok provenance
