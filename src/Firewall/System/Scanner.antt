-- ===== src/Firewall/System/Scanner.antt =====
-- build_files/firewall/snitchwatch-system-verify.py `verify`: the checks of the scanner's build.
use Prim.Native.String.{◌++◌ as ◌<>◌}
use bazzite_tower.Prelude.{
  String, Bool, true, false, ◌&&◌, ◌||◌, not, List, [], ◌∷◌, if◌then◌else◌, any, member, sorted,
  text_order, starts_with, Json, num, str, arr, obj, Items, nil, cons, Fields, end, field,
  set_field, item, keys, as_dict, Result, ok, require, ◌>>=◌, ◌>>◌,
}
use bazzite_tower.Publication.Candidate.{item_at}
use bazzite_tower.Firewall.Tree.{Tree, base_name, get_eq, value_of, equal_keys, content, load_dict}
use bazzite_tower.Firewall.System.Names.{
  scanner_root, scanner_license_root, scanner_crate_dirs, scanner_sources, scanner_evidence,
  scanner_licenses, native_rpms_path,
}
use bazzite_tower.Firewall.System.Reading.{Inputs}
use bazzite_tower.Firewall.System.Artifact.{is_bool, has_toolchain}

-- `{name: files[prefix + name] for name in names}`, added to a dict
unfoldable pub hashes_below : Fields → String → List String → Fields → Result Fields
hashes_below files prefix [] found = ok found
hashes_below files prefix (name ∷ names) found = do
  hash ← item (prefix <> name) files
  hashes_below files prefix names (set_field name hash found)

-- `{Path(name).name: files[name] for name in SCANNER_BINARIES}`
unfoldable pub binary_hashes : Fields → List String → Fields → Result Fields
binary_hashes files [] found = ok found
binary_hashes files (name ∷ names) found = do
  hash ← item name files
  binary_hashes files names (set_field (base_name name) hash found)

abbrev pub text_items : List String → Items
text_items [] = nil
text_items (s ∷ ss) = cons (str s) (text_items ss)

abbrev pub build_command : Json
build_command = arr (
    text_items (
      "cargo" ∷ "build" ∷ "--release" ∷ "--locked" ∷ "--offline" ∷ "-p" ∷ "scanner-privileged"
      ∷ "-p" ∷ "scanner-broker" ∷ []))

-- `name.startswith(SCANNER_CRATE_DIRS)`
abbrev pub in_crates : String → Bool
in_crates name = any (λ directory. starts_with directory name) scanner_crate_dirs

abbrev pub only_crates : List String → List String
only_crates [] = []
only_crates (name ∷ names) =
    let rest = only_crates names in if in_crates name then name ∷ rest else rest

-- `for name, expected in expected_inputs.items()`
unfoldable pub check_inputs : Fields → Fields → List String → Result (Unit {0})
check_inputs inputs pinned [] = ok tt
check_inputs inputs pinned (name ∷ names) = do
  expected ← item name pinned
  require (get_eq name expected inputs) "scanner source input differs from pinned upstream"
  check_inputs inputs pinned names

abbrev pub is_unexpected : String → Bool
is_unexpected name =
    (in_crates name && not (member name scanner_sources))
    || (starts_with ".cargo/" name || starts_with "rust-toolchain" (base_name name))

-- `for name in inputs`
unfoldable pub check_no_others : List String → Result (Unit {0})
check_no_others [] = ok tt
check_no_others (name ∷ names) =
    require (not (is_unexpected name)) ("unexpected scanner source input: " <> name)
    >> check_no_others names

-- `isinstance(value, list) and value` for all values
abbrev pub all_listed : Fields → Bool
all_listed end = true
all_listed (field k (arr (cons v vs)) fs) = all_listed fs
all_listed (field k _ fs) = false

module _ ⦃tree : Tree⦄ where
  unfoldable pub check_scanner_build : Inputs → Fields → Result (Unit {0})
  unfolding has_toolchain
  check_scanner_build inputs scanner = do
    builder ← item "builderImage" inputs.pins
    require
        (get_eq "schemaVersion" (num 1) scanner
          && (get_eq "sourceCommit" (value_of "commit" inputs.source) scanner
              && (get_eq "sourceTree" (value_of "tree" inputs.source) scanner
                  && get_eq "builderImage" builder scanner)))
        "scanner build/source/test provenance mismatch"
    lock ← item_at ("sourceFiles" ∷ "Cargo.lock" ∷ []) (obj inputs.pins)
    require (get_eq "cargoLockSha256" lock scanner) "scanner build/source/test provenance mismatch"
    toml ← item_at ("sourceFiles" ∷ "Cargo.toml" ∷ []) (obj inputs.pins)
    require (get_eq "cargoTomlSha256" toml scanner) "scanner build/source/test provenance mismatch"
    same_rust ← has_toolchain "rustcVv" scanner inputs.pins
    rpms ← item native_rpms_path inputs.files
    require
        (same_rust
          && (is_bool true (value_of "reproducible" scanner)
              && (is_bool true (value_of "testsPassed" scanner)
                  && get_eq "rpmInventorySha256" rpms scanner)))
        "scanner build/source/test provenance mismatch"
    require (get_eq "buildCommand" build_command scanner) "unexpected scanner build command"

  unfoldable pub check_scanner : Inputs → Fields → Result (Unit {0})
  unfolding check_scanner_build binary_hashes hashes_below
  check_scanner inputs binaries = do
    bytes ← content (scanner_root <> "provenance.json") inputs.contents
    scanner ← load_dict bytes
    check_scanner_build inputs scanner
    require (get_eq "binaries" (obj binaries) scanner)
        "scanner executable differs from build provenance"
    first ← hashes_below inputs.files scanner_root scanner_evidence end
    evidence ← hashes_below inputs.files scanner_license_root scanner_licenses first
    require (get_eq "evidence" (obj evidence) scanner)
        "scanner evidence differs from build provenance"

  -- The inputs of the build are exactly the pinned ones of the crates, and no build configuration.
  unfoldable pub check_scanner_inputs : Inputs → Result (Unit {0})
  unfolding check_inputs check_no_others
  check_scanner_inputs inputs = do
    bytes ← content (scanner_root <> "source-inputs.json") inputs.contents
    found ← load_dict bytes
    pinned_value ← item "sourceFiles" inputs.pins
    pinned ← as_dict pinned_value
    require (equal_keys scanner_sources (only_crates (keys pinned)))
        "scanner source pins differ from the built-file allowlist"
    check_inputs found pinned ("Cargo.toml" ∷ "Cargo.lock" ∷ sorted (only_crates (keys pinned)))
    check_no_others (keys found)

  unfoldable pub check_closure : Inputs → Fields → Result (Unit {0})
  check_closure inputs binaries = do
    bytes ← content (scanner_root <> "dependency-closure.json") inputs.contents
    closure ← load_dict bytes
    require (equal_keys (keys binaries) (keys closure) && all_listed closure)
        "incomplete scanner dependency closure"
