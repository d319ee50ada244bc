-- ===== src/Diff.antt =====
-- ci/base-diff.py: which packages of the base image that matter here have changed.
pub mod Quiet
use Prim.Native.String.{◌++◌ as ◌<>◌}
use bazzite_tower.Prelude.{
  ℕ, String, Bool, true, false, ◌&&◌, ◌||◌, not, Option, none, some, List, [], ◌∷◌, ◌++◌, any,
  is_empty, if◌then◌else◌, ◌=s=◌, member, Dict, find, put, text_order, sorted, starts_with, join,
  is_blank, text_strip, partition, Result, ok, err, value_error,
}

-- BLAST_RADIUS, on names without a line feed: `name.*`, and whole names
abbrev pub families : List String
families =
    "qemu" ∷ "libvirt" ∷ "swtpm" ∷ "NetworkManager" ∷ "polkit" ∷ "systemd" ∷ "kernel" ∷ "docker-ce"
    ∷ "containerd" ∷ "moby" ∷ []

abbrev pub single_names : List String
single_names =
    "edk2-ovmf" ∷ "virt-install" ∷ "virt-manager" ∷ "virt-viewer" ∷ "iwd" ∷ "wpa_supplicant"
    ∷ "bootc" ∷ []

unfoldable pub is_blast : String → Bool
is_blast name = any (λ family. starts_with family name) families || member name single_names

abbrev pub Manifest : Type 0
Manifest = Dict String String

abbrev pub with_line : String → Manifest → Manifest
with_line line out =
    if is_blank line then out else (let (name, evr) = partition 32 line in put ◌=s=◌ name evr out)

unfoldable pub load_lines : List String → Manifest → Manifest
load_lines [] out = out
load_lines (line ∷ lines) out = load_lines lines (with_line (text_strip line) out)

-- `load`, of the lines of a file, none where there is no file
unfoldable pub load : Option (List String) → Option Manifest
unfolding load_lines
load none = none
load (some lines) = some (load_lines lines [])

pub record Changes : Type 0 where
  pub changed : List (String × String × String)
  pub added : List (String × String)
  pub removed : List (String × String)

abbrev pub no_change : Changes
no_change = record { changed = []; added = []; removed = [] }

-- A version that is not the empty text; `o` and `n` are tested as Booleans.
abbrev pub version : Option String → Option String
version none = none
version (some evr) = if is_blank evr then none else some evr

-- The three branches, of the versions that count.
abbrev pub note_change : String → Option String → Option String → Changes → Changes
note_change name none none c = c
note_change name none (some n) c = record c { added = (name, n) ∷ c.added }
note_change name (some o) none c = record c { removed = (name, o) ∷ c.removed }
note_change name (some o) (some n) c =
    if o =s= n then c else record c { changed = (name, o, n) ∷ c.changed }

-- The loop, in front of what the names behind add.
unfoldable pub classify : Manifest → Manifest → List String → Changes
unfolding is_blast
classify old new [] = no_change
classify old new (name ∷ names) =
    let rest = classify old new names in
    if is_blast name
    then note_change name (version (find ◌=s=◌ name old)) (version (find ◌=s=◌ name new)) rest
    else rest

abbrev pub names_of : Manifest → List String
names_of [] = []
names_of ((name, _) ∷ d) = name ∷ names_of d

-- The names that only the new manifest has.
abbrev pub new_names : List String → Manifest → List String
new_names known [] = []
new_names known ((name, _) ∷ d) =
    let rest = new_names known d in if member name known then rest else name ∷ rest

-- `sorted(set(old) | set(new))`
abbrev pub all_names : Manifest → Manifest → List String
all_names old new = sorted (names_of old ++ new_names (names_of old) new)

abbrev pub changed_lines : List (String × String × String) → List String
changed_lines [] = []
changed_lines ((n, o, x) ∷ cs) = ("- `" <> (n <> ("` " <> (o <> (" → " <> x))))) ∷ changed_lines cs

abbrev pub added_lines : List (String × String) → List String
added_lines [] = []
added_lines ((n, x) ∷ cs) = ("- `" <> (n <> ("` " <> x))) ∷ added_lines cs

abbrev pub removed_lines : List (String × String) → List String
removed_lines [] = []
removed_lines ((n, o) ∷ cs) = ("- `" <> (n <> ("` (was " <> (o <> ")")))) ∷ removed_lines cs

-- A section in front of the others, where it has lines.
abbrev pub with_section : String → List String → List String → List String
with_section title [] others = others
with_section title (l ∷ ls) others = (title <> join "\n" (l ∷ ls)) ∷ others

abbrev pub sections : Changes → List String
sections c = with_section "**Changed**\n" (changed_lines c.changed) (
    with_section "**Added**\n" (added_lines c.added)
      (with_section "**Removed**\n" (removed_lines c.removed) []))

abbrev pub report_of : List String → String
report_of [] = "_No blast-radius package changes._"
report_of (s ∷ ss) = join "\n\n" (s ∷ ss)

abbrev pub some_change : Changes → Bool
some_change c = not (is_empty c.changed) || (not (is_empty c.added) || not (is_empty c.removed))

-- What `main` prints and writes to GITHUB_OUTPUT.
pub record Output : Type 0 where
  pub first_run : Bool
  pub has_changes : Bool
  pub report : String
  -- The standard output, without the line feed at its end.
  pub printed : String

abbrev pub old_or_empty : Option Manifest → Manifest
old_or_empty none = []
old_or_empty (some d) = d

abbrev pub is_first : Option Manifest → Bool
is_first none = true
is_first (some d) = false

-- What is printed of the report.
abbrev pub with_heading : Bool → String → String
with_heading true report = "First run — recording baseline.\n" <> report
with_heading false report = report

unfoldable pub compare_manifests : Option Manifest → Manifest → Output
unfolding classify
compare_manifests old new =
    let c = classify (old_or_empty old) new (all_names (old_or_empty old) new) in
    record {
      first_run = is_first old;
      has_changes = some_change c && not (is_first old);
      report = report_of (sections c);
      printed = with_heading (is_first old) (report_of (sections c));
    }

abbrev pub with_new : Option Manifest → Option Manifest → Result Output
with_new old none = err (value_error "new manifest not found")
with_new old (some new) = ok (compare_manifests old new)

-- `main`; the exit for a missing new manifest is an error.
unfoldable pub main : Option (List String) → Option (List String) → Result Output
unfolding load compare_manifests
main old new = with_new (load old) (load new)
