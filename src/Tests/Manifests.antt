-- ===== src/Tests/Manifests.antt =====
-- The theorems on the manifests of the base image at concrete ones.
use bazzite_tower.Prelude.{
  ◌≡◌, ◌↔◌, refl, String, true, false, none, some, [], ◌∷◌, codes, ok, strip_prefix,
}
use bazzite_tower.Diff.{
  Manifest, is_blast, classify, load_lines, load, compare_manifests, old_or_empty, is_first, main,
}
use bazzite_tower.Diff.Quiet.{Same, blast_reason-compare_manifests, compare_manifests-has_changes}
use bazzite_tower.Refresh.Bump.{text, blast_reason}

abbrev old_manifest : Manifest
old_manifest = ("bash", "5.3-1.x86_64") ∷ ("kernel", "7.0.8-1.x86_64") ∷ []

abbrev new_manifest : Manifest
new_manifest =
    ("bash", "5.3-2.x86_64") ∷ ("kernel", "7.0.9-1.x86_64") ∷ ("iwd", "3.0-1.x86_64") ∷ []

run_of_main :
    main
      (some ("bash 5.3-1.x86_64 " ∷ "kernel 7.0.8-1.x86_64" ∷ []))
      (some ("bash 5.3-2.x86_64" ∷ "" ∷ "kernel 7.0.9-1.x86_64" ∷ "iwd 3.0-1.x86_64" ∷ []))
    ≡ ok (record {
      first_run = false;
      has_changes = true;
      report =
          "**Changed**\n- `kernel` 7.0.8-1.x86_64 → 7.0.9-1.x86_64\n\n**Added**\n- `iwd` 3.0-1.x86_64";
      printed =
          "**Changed**\n- `kernel` 7.0.8-1.x86_64 → 7.0.9-1.x86_64\n\n**Added**\n- `iwd` 3.0-1.x86_64";
    })
unfolding main load load_lines compare_manifests classify is_blast strip_prefix
run_of_main = refl

blast_reason-compare_manifests_example :
    (blast_reason (text (codes (compare_manifests (some old_manifest) new_manifest).printed))
      ≡ none)
    ↔ (is_first (some old_manifest) ≡ false)
      × ((name : String) → Same (old_or_empty (some old_manifest)) new_manifest name)
blast_reason-compare_manifests_example =
    blast_reason-compare_manifests (some old_manifest) new_manifest

compare_manifests-has_changes_example :
    ((compare_manifests (some old_manifest) new_manifest).has_changes ≡ false)
    ↔ ((name : String) → Same old_manifest new_manifest name)
compare_manifests-has_changes_example = compare_manifests-has_changes old_manifest new_manifest
