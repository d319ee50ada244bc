-- ===== src/Firewall/Daemon/Verify.antt =====
-- build_files/firewall/snitchwatch-system-daemon-verify.py: the checks of the build information and the
-- licenses, and the whole verification.
use Prim.Native.String.{◌++◌ as ◌<>◌}
use bazzite_tower.Prelude.{
  ℕ, String, Bool, ◌&&◌, not, none, some, List, [], ◌∷◌, if◌then◌else◌, ◌=s=◌, length, partition,
  split_lines, get_elem?, starts_with, holds_text, Json, bool, num, str, arr, Items, nil, cons,
  Fields, end, get_field, item, keys, as_dict, as_text, set_field, is_truthy, Result, ok, err,
  type_error, require, ◌>>=◌, ◌>>◌,
}
use bazzite_tower.Publication.{dict}
use bazzite_tower.Firewall.Tree.{Tree, words, get_eq, content}
use bazzite_tower.Firewall.Daemon.Names.{
  candidate_path, binary_path, build_info_path, third_party_path,
}
use bazzite_tower.Firewall.Daemon.Reading.{
  read_file, Inputs, read_inputs, source_of, check_files, read_files,
}
use bazzite_tower.Firewall.Daemon.Checks.{
  check_pinned, check_binary, pinned_checks, expected_provenance, read_provenance,
}

abbrev pub nth_text : ℕ → List String → Result String
nth_text n texts = elim (get_elem? texts n) [
  | none ↦ err (type_error "list index out of range")
  | some s ↦ ok s
]

-- The flag of a line of the build information.
unfoldable pub flag_of : List String → Fields → Result Fields
flag_of (first ∷ second ∷ more) flags = ok (
    if (first =s= "build") && holds_text "=" second
    then (let (k, v) = partition 61 second in set_field k (str v) flags)
    else flags)
flag_of (first ∷ []) flags =
    if first =s= "build" then err (type_error "list index out of range") else ok flags
flag_of [] flags = ok flags

unfoldable pub flags_of : List String → Fields → Result Fields
flags_of [] flags = ok flags
flags_of (line ∷ lines) flags = do next ← flag_of (words line) flags; flags_of lines next

module _ ⦃tree : Tree⦄ where
  -- The Go toolchain and the flags of the build information.
  unfoldable pub check_build_info : Inputs → Fields → Result (Unit {0})
  unfolding flags_of flag_of
  check_build_info inputs source = do
    bytes ← content build_info_path inputs.contents
    info ← tree.decoded bytes
    version_value ← item "goVersion" inputs.pins
    version ← as_text version_value
    toolchain ← nth_text 2 (words version)
    first_line ← nth_text 0 (split_lines info)
    require (holds_text toolchain first_line) "daemon Go build-info toolchain mismatch"
    flags ← flags_of (split_lines info) end
    commit ← item "commit" source
    require
        (get_eq "-trimpath" (str "true") flags
          && (get_eq "vcs.revision" commit flags && get_eq "vcs.modified" (str "true") flags))
        "daemon build-info lacks pinned upstream+reviewed patch provenance"

  -- A linked module has licenses, and its checksum stands in the text of the licenses.
  unfoldable pub check_modules : String → Items → Result (Unit {0})
  check_modules third_party nil = ok tt
  check_modules third_party (cons v modules) = do
    linked ← as_dict v
    require (is_truthy (get_field "licenses" linked))
        "daemon linked module license provenance mismatch"
    sum_value ← item "sum" linked
    sum ← as_text sum_value
    require (holds_text (tree.encoded ("Module checksum: `" <> (sum <> "`"))) third_party)
        "daemon linked module license provenance mismatch"
    check_modules third_party modules

  -- What `for module in modules` runs over, of modules that are not empty.
  abbrev pub linked_modules : Json → Result Items
  linked_modules (arr modules) = ok modules
  linked_modules _ = err (type_error "modules are not a list")

  unfoldable pub check_licenses : Inputs → Fields → Result (Unit {0})
  unfolding check_modules
  check_licenses inputs provenance = do
    require (is_truthy (get_field "linkedModules" provenance))
        "daemon linked module licenses missing"
    third_party ← content third_party_path inputs.contents
    require (starts_with "# Linked Go module licenses\n" third_party)
        "daemon linked module licenses missing"
    modules_value ← item "linkedModules" provenance
    modules ← linked_modules modules_value
    check_modules third_party modules

  abbrev pub report : Bool → Inputs → Fields → Result Fields
  report stage_only inputs source = do
    commit ← item "commit" source
    patch ← item "patchSha256" inputs.pins
    hash ← item candidate_path inputs.files
    ok (
        dict (
          ("profile", str "system")
          ∷ ("sourceCommit", commit)
          ∷ ("patchSha256", patch)
          ∷ ("binaryPath", str binary_path)
          ∷ ("binarySha256", hash)
          ∷ ("verifiedFiles", num (length (keys inputs.files)))
          ∷ ("installedBinaryChecked", bool (not stage_only))
          ∷ []))

  -- `verify`
  unfoldable pub verify : Bool → Result Fields
  unfolding read_inputs source_of read_files check_files check_binary pinned_checks check_pinned
      read_provenance expected_provenance check_build_info check_licenses read_file
  verify stage_only = do
    opened ← read_inputs stage_only
    source ← source_of opened.pins
    inputs ← read_files opened source
    check_binary stage_only inputs
    checks ← pinned_checks inputs.pins
    check_pinned inputs.files checks
    provenance ← read_provenance inputs source
    check_build_info inputs source
    check_licenses inputs provenance
    report stage_only inputs source

  -- `main`: the exit code
  abbrev pub main : Bool → ℕ
  main stage_only = elim (verify stage_only) [ ok printed ↦ 0 | err raised ↦ 1 ]
