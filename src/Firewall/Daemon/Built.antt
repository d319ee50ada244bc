-- ===== src/Firewall/Daemon/Built.antt =====
-- What the checks of the pins, the binary and the build of the daemon say.
use bazzite_tower.Prelude.{
  String, ◌≡◌, ap, sym, subst, ◌∙◌, Bool, true, false, Bool-cases, &&-eq-true, some, List, [], ◌∷◌,
  ◌++◌, inl, inr, arith, ◌=s=◌, =s=_iff, if◌then◌else◌, Json, bool, str, Fields, end, field, item,
  get_field, item_found, json_eq, ok, require, require-eq-ok, require_holds, ok_injective,
  >>=-eq-ok, ◌>>=◌,
}
use bazzite_tower.Firewall.Tree.{Tree, get_eq, content, is_elf64, load_dict}
use bazzite_tower.Firewall.Inventory.{item-get_field}
use bazzite_tower.Firewall.Daemon.Names.{candidate_path, binary_path, provenance_path, rpms_path}
use bazzite_tower.Firewall.Daemon.Reading.{read_file, Inputs}
use bazzite_tower.Firewall.Daemon.Intact.{IsPlain, read_file-IsPlain}
use bazzite_tower.Firewall.Daemon.Checks.{
  check_pinned, has_all, check_binary, tool_provenance, expected_provenance, read_provenance,
}

-- Every pinned hash is the one of the inventory.
pub check_pinned-get :
    (files checks : Fields) (u : Unit {0}) (name : String) (expected : Json)
    → check_pinned files checks ≡ ok u
    → get_field name checks ≡ some expected
    → (hash : Json) × (get_field name files ≡ some hash) × (json_eq hash expected ≡ true)
unfolding check_pinned
check_pinned-get files end u name expected h found = cc
check_pinned-get files (field j v checks) u name expected h found =
    let (hash, e1, h1) = >>=-eq-ok (item j files) _ h in
    let (e2, h2) = require-eq-ok (json_eq hash v) _ _ h1 in
    elim (Bool-cases (j =s= name)) [
      | inl same ↦
          let named : j ≡ name = (=s=_iff j name).0 same in
          let first : v ≡ expected = ground arith in
          (
            hash,
            subst (λ n. get_field n files ≡ some hash) named (item_found j files hash e1),
            subst (λ x. json_eq hash x ≡ true) first e2,
          )
      | inr differ ↦ check_pinned-get files checks u name expected h2 (rw differ at found)
    ]

module _ ⦃tree : Tree⦄ where
  -- What the check of the binary adds.
  pub record Candidate (stage_only : Bool) (inputs : Inputs) (bytes : String) : Type 0 where
    pub is_kept : content candidate_path inputs.contents ≡ ok bytes
    pub is_elf : is_elf64 bytes ≡ true
    pub is_installed :
        (hash : Json)
        → get_field candidate_path inputs.files ≡ some hash
        → stage_only ≡ false
        → (installed : String) × IsPlain binary_path 493 installed
          × (json_eq (str (tree.sha installed)) hash ≡ true)

  pub check_installed-eq-ok :
      (stage_only : Bool) (hash : Json) (u : Unit {0})
      → (if stage_only
          then ok tt
          else (read_file binary_path 493 >>= λ installed.
              require
                (json_eq (str (tree.sha installed)) hash)
                "installed daemon differs from reviewed native candidate"))
        ≡ ok u
      → stage_only ≡ false
      → (installed : String) × IsPlain binary_path 493 installed
        × (json_eq (str (tree.sha installed)) hash ≡ true)
  check_installed-eq-ok true hash u h live = cc
  check_installed-eq-ok false hash u h live =
      let (installed, e, h1) = >>=-eq-ok (read_file binary_path 493) _ h in
      (installed, read_file-IsPlain binary_path 493 installed e, require_holds _ _ u h1)

  pub check_binary-Candidate :
      (stage_only : Bool) (inputs : Inputs) (u : Unit {0})
      → check_binary stage_only inputs ≡ ok u
      → (bytes : String) × Candidate stage_only inputs bytes
  unfolding check_binary
  check_binary-Candidate stage_only inputs u h =
      let (hash, e1, h1) = >>=-eq-ok (item candidate_path inputs.files) _ h in
      let (version, e2, h2) = >>=-eq-ok (item "daemonVersion" inputs.pins) _ h1 in
      let (e3, h3) = require-eq-ok _ _ _ h2 in
      let (bytes, e4, h4) = >>=-eq-ok (content candidate_path inputs.contents) _ h3 in
      let (e5, h5) = require-eq-ok (is_elf64 bytes) _ _ h4 in
      (
        bytes,
        record {
          is_kept = e4;
          is_elf = e5;
          is_installed = λ other found live.
              let same : hash ≡ other =
                item-get_field candidate_path inputs.files hash other e1 found in
              check_installed-eq-ok stage_only other u
                (subst
                  (λ x.
                    (if stage_only
                      then ok tt
                      else (read_file binary_path 493 >>= λ installed.
                          require (json_eq (str (tree.sha installed)) x)
                            "installed daemon differs from reviewed native candidate"))
                    ≡ ok u)
                  same h5)
                live;
        },
      )

  -- The expected provenance begins with those items.
  abbrev pub provenance_items : (commit source_tree patch hash rpms : Json) → List (String × Json)
  provenance_items commit source_tree patch hash rpms =
      ("sourceCommit", commit)
      ∷ ("sourceTree", source_tree)
      ∷ ("patchSha256", patch)
      ∷ ("reproducible", bool true)
      ∷ ("firstBinarySha256", hash)
      ∷ ("secondBinarySha256", hash)
      ∷ ("rpmInventorySha256", rpms)
      ∷ []

  pub has_all-builds :
      (provenance : Fields) (commit source_tree patch hash rpms : Json)
      (tools : List (String × Json))
      → has_all provenance (provenance_items commit source_tree patch hash rpms ++ tools) ≡ true
      → (get_eq "firstBinarySha256" hash provenance ≡ true)
        × (get_eq "secondBinarySha256" hash provenance ≡ true)
  has_all-builds provenance commit source_tree patch hash rpms tools h =
      let (_, r1) = &&-eq-true (get_eq "sourceCommit" commit provenance) _ h in
      let (_, r2) = &&-eq-true (get_eq "sourceTree" source_tree provenance) _ r1 in
      let (_, r3) = &&-eq-true (get_eq "patchSha256" patch provenance) _ r2 in
      let (_, r4) = &&-eq-true (get_eq "reproducible" (bool true) provenance) _ r3 in
      let (first, r5) = &&-eq-true (get_eq "firstBinarySha256" hash provenance) _ r4 in
      let (second, _) = &&-eq-true (get_eq "secondBinarySha256" hash provenance) _ r5 in
      (first, second)

  pub expected_provenance-has_all :
      (inputs : Inputs) (source provenance : Fields) (expected : List (String × Json)) (hash : Json)
      → expected_provenance inputs source ≡ ok expected
      → get_field candidate_path inputs.files ≡ some hash
      → has_all provenance expected ≡ true
      → (get_eq "firstBinarySha256" hash provenance ≡ true)
        × (get_eq "secondBinarySha256" hash provenance ≡ true)
  unfolding expected_provenance
  expected_provenance-has_all inputs source provenance expected hash h found every =
      let (commit, f1, g1) = >>=-eq-ok (item "commit" source) _ h in
      let (source_tree, f2, g2) = >>=-eq-ok (item "tree" source) _ g1 in
      let (patch, f3, g3) = >>=-eq-ok (item "patchSha256" inputs.pins) _ g2 in
      let (made, f4, g4) = >>=-eq-ok (item candidate_path inputs.files) _ g3 in
      let (rpms, f5, g5) = >>=-eq-ok (item rpms_path inputs.files) _ g4 in
      let (tools, f6, g6) =
        >>=-eq-ok (tool_provenance inputs.pins)
          (λ ts. ok (provenance_items commit source_tree patch made rpms ++ ts)) g5 in
      let same : made ≡ hash = item-get_field candidate_path inputs.files made hash f4 found in
      has_all-builds provenance commit source_tree patch hash rpms tools (
        subst
          (λ x.
            has_all provenance (provenance_items commit source_tree patch x rpms ++ tools) ≡ true)
          same (subst (λ l. has_all provenance l ≡ true) (sym (ok_injective g6)) every))

  -- The provenance names the candidate as what both builds made.
  pub read_provenance-builds :
      (inputs : Inputs) (source provenance : Fields) (hash : Json)
      → read_provenance inputs source ≡ ok provenance
      → get_field candidate_path inputs.files ≡ some hash
      → ((bytes : String) × (content provenance_path inputs.contents ≡ ok bytes)
          × (load_dict bytes ≡ ok provenance))
        × ((get_eq "firstBinarySha256" hash provenance ≡ true)
            × (get_eq "secondBinarySha256" hash provenance ≡ true))
  unfolding read_provenance
  read_provenance-builds inputs source provenance hash h found =
      let (bytes, e1, h1) = >>=-eq-ok (content provenance_path inputs.contents) _ h in
      let (document, e2, h2) = >>=-eq-ok (load_dict bytes) _ h1 in
      let (expected, e3, h3) = >>=-eq-ok (expected_provenance inputs source) _ h2 in
      let (e4, h4) = require-eq-ok (has_all document expected) _ (ok document) h3 in
      (
        (bytes, e1, e2 ∙ ap ok (ok_injective h4)),
        expected_provenance-has_all inputs source provenance expected hash e3 found
            (subst (λ d. has_all d expected ≡ true) (ok_injective h4) e4),
      )
