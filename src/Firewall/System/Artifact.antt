-- ===== src/Firewall/System/Artifact.antt =====
-- build_files/firewall/snitchwatch-system-verify.py `verify`: the native artifact of the bridge and its
-- provenance.
use Prim.Native.String.{◌++◌ as ◌<>◌}
use bazzite_tower.Prelude.{
  String, Bool, true, false, ◌&&◌, not, none, some, List, [], ◌∷◌, map, if◌then◌else◌, starts_with,
  Json, bool, num, str, arr, obj, Items, nil, cons, Fields, end, get_field, set_field, item,
  as_dict, as_text, Result, ok, err, type_error, require, ◌>>=◌, ◌>>◌,
}
use bazzite_tower.Firewall.Tree.{
  Tree, get_eq, value_of, get_dict, content, without_slashes, load_dict,
}
use bazzite_tower.Firewall.System.Names.{
  binary_path, licenses, license_root, native_provenance_path, native_rpms_path, artifact_path,
}
use bazzite_tower.Firewall.System.Reading.{get_text, Inputs}

-- `value is True` and `value is False`
abbrev pub is_bool : Bool → Json → Bool
is_bool b (bool c) = if b then c else not c
is_bool b _ = false

-- `{entry['path']: entry for entry in ...}`: only the paths that are texts are looked up.
unfoldable pub by_path : Items → Fields → Result Fields
by_path nil found = ok found
by_path (cons v entries) found = do
  entry ← as_dict v
  path ← item "path" entry
  elim path [
    | str s ↦ by_path entries (set_field s (obj entry) found)
    | arr vs ↦ err (type_error "unhashable type: 'list'")
    | obj fs ↦ err (type_error "unhashable type: 'dict'")
    | _ ↦ by_path entries found
  ]

-- `d.get(key, [])`, of which a list is needed
abbrev pub get_items : String → Fields → Result Items
get_items k fs = elim (get_field k fs) [
  | none ↦ ok nil
  | some (arr vs) ↦ ok vs
  | some _ ↦ err (type_error "not a list")
]

-- The binary and the licenses are those of the artifact.
unfoldable pub check_originals : Fields → Fields → List String → Result (Unit {0})
check_originals files originals [] = ok tt
check_originals files originals (name ∷ names) = do
  original ← get_dict (without_slashes name) originals
  hash ← item name files
  require (get_eq "sha256" hash original) "installed binary/license differs from original artifact"
  check_originals files originals names

module _ ⦃tree : Tree⦄ where
  -- `text.startswith('rustc ' + pins['rustVersion'] + ' ')` of `d.get(key, '')`
  unfoldable pub has_toolchain : String → Fields → Fields → Result Bool
  has_toolchain key build pins = do
    text ← get_text key build
    rust_value ← item "rustVersion" pins
    rust ← as_text rust_value
    ok (starts_with ("rustc " <> (rust <> " ")) text)

  unfoldable pub check_build : Fields → Fields → Result (Unit {0})
  unfolding has_toolchain
  check_build artifact pins = do
    build ← get_dict "build" artifact
    builder ← item "builderImage" pins
    require (get_eq "builder_image" builder build)
        "native artifact toolchain differs from build pins"
    same_rust ← has_toolchain "rustc_vv" build pins
    require same_rust "native artifact toolchain differs from build pins"
    protoc_value ← item "protocVersion" pins
    protoc ← as_text protoc_value
    require (get_eq "protoc_version" (str ("libprotoc " <> protoc)) build)
        "native artifact toolchain differs from build pins"

  unfoldable pub check_artifact_source : Fields → Fields → Result (Unit {0})
  check_artifact_source artifact pins = do
    version ← item "bridgeVersion" pins
    require (get_eq "version" version artifact)
        "native artifact bridge version differs from required version"
    require (get_eq "schema_version" (num 1) artifact) "incorrect original native artifact identity"
    source ← get_dict "source" artifact
    commit ← item "sourceCommit" pins
    require (get_eq "git_commit" commit source && is_bool false (value_of "dirty" source))
        "incorrect original native artifact identity"
    upstream ← get_dict "upstream" artifact
    submodule ← item "submoduleCommit" pins
    require (get_eq "opensnitch_commit" submodule upstream) "incorrect native artifact submodule"

  unfoldable pub check_artifact : Inputs → Result (Unit {0})
  unfolding check_artifact_source check_build by_path check_originals
  check_artifact inputs = do
    bytes ← content artifact_path inputs.contents
    artifact ← load_dict bytes
    check_artifact_source artifact inputs.pins
    check_build artifact inputs.pins
    entries ← get_items "files" artifact
    originals ← by_path entries end
    check_originals inputs.files originals
        (binary_path ∷ map (λ name. license_root <> name) licenses)

  unfoldable pub check_provenance : Inputs → Result (Unit {0})
  check_provenance inputs = do
    bytes ← content native_provenance_path inputs.contents
    provenance ← load_dict bytes
    require
        (get_eq "sourceCommit" (value_of "commit" inputs.source) provenance
          && (get_eq "submoduleCommit" (value_of "submoduleCommit" inputs.source) provenance
              && (get_eq "sourceTree" (value_of "tree" inputs.source) provenance
                  && is_bool true (value_of "reproducible" provenance))))
        "native build/repro provenance mismatch"
    rpms ← item native_rpms_path inputs.files
    require (get_eq "rpmInventorySha256" rpms provenance) "native RPM inventory mismatch"
