-- ===== src/Tests/Daemons.antt =====
-- The theorem on the verification of the daemon in a tree that holds it.
use bazzite_tower.Prelude.{
  String, true, false, Option, none, some, List, [], ◌∷◌, ◌=s=◌, member, if◌then◌else◌, Json, bool,
  num, str, arr, obj, nil, cons, Fields, end, field, set_field, ok, err, Result, value_error,
  file_not_found,
}
use bazzite_tower.Publication.{dict}
use bazzite_tower.Firewall.Tree.{Tree}
use bazzite_tower.Firewall.Daemon.Names.{
  pins_path, patch_path, candidate_path, binary_path, expected_pins, required,
}
use bazzite_tower.Firewall.Daemon.Reviewed.{Reviewed}
use bazzite_tower.Tests.Publications.{find_document}

abbrev pub some_hash : String
some_hash = "aaaaaaaaaaaaaaaaaaaaaaaaaaaaaaaaaaaaaaaaaaaaaaaaaaaaaaaaaaaaaaaa"

abbrev pub elf_bytes : String
elf_bytes = "\u{7f}ELF\u{2}\u{1}..."

abbrev pub all_hashed : List String → Fields
all_hashed [] = end
all_hashed (name ∷ names) = field name (str some_hash) (all_hashed names)

abbrev demo_files : Fields
demo_files = set_field pins_path (str expected_pins) (all_hashed required)

abbrev pub find_text : String → List (String × String) → Option String
find_text k [] = none
find_text k ((j, v) ∷ rest) = if j =s= k then some v else find_text k rest

abbrev pub or_itself : String → Option String → Result String
or_itself name none = ok name
or_itself name (some bytes) = ok bytes

abbrev pub or_invalid : Option Json → Result Json
or_invalid none = err (value_error "invalid JSON")
or_invalid (some v) = ok v

abbrev demo_bytes : List (String × String)
demo_bytes =
    ("usr/share/snitchwatch/system-daemon-manifest.json", "manifest")
    ∷ ("usr/share/snitchwatch/daemon/build-pins.json", "pins")
    ∷ ("usr/share/snitchwatch/daemon/opensnitchd", elf_bytes)
    ∷ ("usr/bin/opensnitchd", elf_bytes)
    ∷ ("usr/share/snitchwatch/daemon/native-build-provenance.json", "provenance")
    ∷ (
      "usr/share/snitchwatch/daemon/go-build-info.txt",
      "opensnitchd: go1.25\n\tbuild\t-trimpath=true\n\tbuild\tvcs.revision=c0\n\tbuild\tvcs.modified=true\n",
    )
    ∷ (
      "usr/share/licenses/snitchwatch-opensnitchd/THIRD-PARTY-LICENSES.md",
      "# Linked Go module licenses\nModule checksum: `h1:aa`\n",
    )
    ∷ []

abbrev demo_manifest : Json
demo_manifest = obj (
    dict (
      ("schemaVersion", num 1)
      ∷ ("profile", str "system")
      ∷ ("source", obj (dict (("commit", str "c0") ∷ ("tree", str "t0") ∷ [])))
      ∷ ("patch", obj (dict (("path", str patch_path) ∷ ("sha256", str some_hash) ∷ [])))
      ∷ ("files", obj demo_files)
      ∷ (
        "binary",
        obj (
            dict (
              ("path", str binary_path)
              ∷ ("candidatePath", str candidate_path)
              ∷ ("sha256", str some_hash)
              ∷ ("version", str "1.8")
              ∷ [])),
      )
      ∷ []))

abbrev demo_pins : Json
demo_pins = obj (
    dict (
      ("sourceCommit", str "c0")
      ∷ ("sourceTree", str "t0")
      ∷ ("patchSha256", str some_hash)
      ∷ ("daemonVersion", str "1.8")
      ∷ ("protoSourceSha256", str some_hash)
      ∷ ("licenseSha256", str some_hash)
      ∷ (
        "moduleLocks",
        obj (dict (("daemon/go.mod", str some_hash) ∷ ("daemon/go.sum", str some_hash) ∷ [])),
      )
      ∷ ("generatedFiles", obj (dict (("ui.pb.go", str some_hash) ∷ [])))
      ∷ ("patchedFiles", arr nil)
      ∷ ("builderImage", str "fedora")
      ∷ ("goVersion", str "go version go1.25 linux/amd64")
      ∷ ("buildCommand", str "go build")
      ∷ ("tools", arr nil)
      ∷ []))

abbrev demo_provenance : Json
demo_provenance = obj (
    dict (
      ("sourceCommit", str "c0")
      ∷ ("sourceTree", str "t0")
      ∷ ("patchSha256", str some_hash)
      ∷ ("patchedFiles", arr nil)
      ∷ ("builderImage", str "fedora")
      ∷ ("goVersion", str "go version go1.25 linux/amd64")
      ∷ ("buildCommand", str "go build")
      ∷ ("reproducible", bool true)
      ∷ ("firstBinarySha256", str some_hash)
      ∷ ("secondBinarySha256", str some_hash)
      ∷ ("rpmInventorySha256", str some_hash)
      ∷ ("generatedFiles", obj (dict (("ui.pb.go", str some_hash) ∷ [])))
      ∷ ("tools", arr nil)
      ∷ ("actualVersionOutput", str "1.8")
      ∷ (
        "linkedModules",
        arr (cons (obj (dict (("licenses", str "MIT") ∷ ("sum", str "h1:aa") ∷ []))) nil),
      )
      ∷ []))

abbrev demo_documents : List (String × Json)
demo_documents =
    ("manifest", demo_manifest) ∷ ("pins", demo_pins) ∷ ("provenance", demo_provenance) ∷ []

abbrev executables : List String
executables =
    "usr/share/snitchwatch/daemon/opensnitchd" ∷ "usr/bin/opensnitchd"
    ∷ "usr/libexec/snitchwatch/verify-system-daemon.py" ∷ []

instance abbrev demo_tree : Tree
demo_tree = record {
  is_live = true;
  is_symlink = λ path. false;
  stat = λ path. ok (record {
    is_regular = true;
    mode = if member path executables then 493 else 420;
    uid = 0;
    gid = 0;
  });
  read_bytes = λ path. or_itself path (find_text path demo_bytes);
  is_dir = λ path. false;
  is_file = λ path. true;
  below = λ path. [];
  readlink = λ path. err file_not_found;
  loads = λ bytes. or_invalid (find_document bytes demo_documents);
  sha = λ bytes. if bytes =s= "pins" then expected_pins else some_hash;
  decoded = λ bytes. ok bytes;
  encoded = λ text. text;
  lower = λ text. text;
}

abbrev printed : Fields
printed = dict (
    ("profile", str "system")
    ∷ ("sourceCommit", str "c0")
    ∷ ("patchSha256", str some_hash)
    ∷ ("binaryPath", str binary_path)
    ∷ ("binarySha256", str some_hash)
    ∷ ("verifiedFiles", num 14)
    ∷ ("installedBinaryChecked", bool true)
    ∷ [])
