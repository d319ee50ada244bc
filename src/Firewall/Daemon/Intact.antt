-- ===== src/Firewall/Daemon/Intact.antt =====
-- The files that the verification of the daemon reads, as they are in the tree.
use bazzite_tower.Prelude.{
  ℕ, String, ◌≡◌, refl, ap, ◌∙◌, subst, Bool, true, false, ◌&&◌, not, &&-eq-true, not-eq-true, some,
  ◌==◌, ==_iff, ◌=s=◌, =s=_iff, member, starts_with, Json, str, obj, Fields, item, keys, get_field,
  ok, require-eq-ok, ok_injective, >>=-eq-ok,
}
use bazzite_tower.Firewall.Tree.{
  Stat, Tree, parts_of, get_eq, get_dict, equal_keys, has_link, relative, load_dict,
}
use bazzite_tower.Firewall.Inventory.{Matches, read_inventory-required}
use bazzite_tower.Firewall.Daemon.Names.{
  manifest_path, pins_path, binary_path, expected_pins, required, mode_of,
}
use bazzite_tower.Firewall.Daemon.Reading.{
  read_file, Inputs, read_inputs, file_mismatch, check_files, read_files,
}

module _ ⦃tree : Tree⦄ where
  -- A regular file below /usr with this mode and these bytes, on a path without links.
  pub record IsPlain (name : String) (mode : ℕ) (bytes : String) : Type 0 where
    pub in_usr : starts_with "/usr/" name ≡ true
    pub no_parent : member ".." (parts_of name) ≡ false
    pub no_link : has_link name ≡ false
    pub info : Stat
    pub is_stat : tree.stat (relative name) ≡ ok info
    pub is_regular : info.is_regular ≡ true
    pub has_mode : info.mode ≡ mode
    pub has_bytes : tree.read_bytes (relative name) ≡ ok bytes

  pub read_file-IsPlain :
      (name : String) (mode : ℕ) (bytes : String)
      → read_file name mode ≡ ok bytes
      → IsPlain name mode bytes
  unfolding read_file
  read_file-IsPlain name mode bytes h =
      let (e1, h1) =
        require-eq-ok (starts_with "/usr/" name && not (member ".." (parts_of name))) _ _ h in
      let (e2, h2) = require-eq-ok (not (has_link name)) _ _ h1 in
      let (info, e3, h3) = >>=-eq-ok (tree.stat (relative name)) _ h2 in
      let (e4, h4) = require-eq-ok (info.is_regular && (info.mode == mode)) _ _ h3 in
      let (in_usr, no_parent) =
        &&-eq-true (starts_with "/usr/" name) (not (member ".." (parts_of name))) e1 in
      let (regular, same_mode) = &&-eq-true (info.is_regular) (info.mode == mode) e4 in
      record {
        in_usr = in_usr;
        no_parent = not-eq-true (member ".." (parts_of name)) no_parent;
        no_link = not-eq-true (has_link name) e2;
        info = info;
        is_stat = e3;
        is_regular = regular;
        has_mode = (==_iff (info.mode) mode).0 same_mode;
        has_bytes = h4;
      }

  -- A file of the inventory as it is in the tree.
  pub record IsIntact (files : Fields) (name : String) : Type 0 where
    pub bytes : String
    pub is_plain : IsPlain name (mode_of name) bytes
    pub has_digest : get_field name files ≡ some (str (tree.sha bytes))

  -- What the daemon that runs has in common with the candidate.
  pub record IsInstalled (candidate : String) : Type 0 where
    pub bytes : String
    pub is_plain : IsPlain binary_path 493 bytes
    pub same_digest : tree.sha bytes ≡ tree.sha candidate

  -- What the first documents say.
  pub record Opened (stage_only : Bool) (inputs : Inputs) : Type 0 where
    pub pins_bytes : String
    pub not_live : (stage_only && tree.is_live) ≡ false
    pub pins_plain : IsPlain pins_path 420 pins_bytes
    pub pins_reviewed : tree.sha pins_bytes ≡ expected_pins
    pub is_pins : load_dict pins_bytes ≡ ok inputs.pins
    pub manifest_bytes : String
    pub manifest_plain : IsPlain manifest_path 420 manifest_bytes
    pub is_manifest : load_dict manifest_bytes ≡ ok inputs.manifest

  pub read_inputs-Opened :
      (stage_only : Bool) (inputs : Inputs)
      → read_inputs stage_only ≡ ok inputs
      → Opened stage_only inputs
  unfolding read_inputs
  read_inputs-Opened stage_only inputs h =
      let (e1, h1) = require-eq-ok (not (stage_only && tree.is_live)) _ _ h in
      let (manifest_bytes, e2, h2) = >>=-eq-ok (read_file _ 420) _ h1 in
      let (manifest, e3, h3) = >>=-eq-ok (load_dict manifest_bytes) _ h2 in
      let (pins_bytes, e4, h4) = >>=-eq-ok (read_file pins_path 420) _ h3 in
      let (e5, h5) = require-eq-ok (tree.sha pins_bytes =s= expected_pins) _ _ h4 in
      let (pins, e6, h6) = >>=-eq-ok (load_dict pins_bytes) _ h5 in
      let (e7, h7) = require-eq-ok _ _ _ h6 in
      let same = ok_injective h7 in
      record {
        pins_bytes = pins_bytes;
        not_live = not-eq-true (stage_only && tree.is_live) e1;
        pins_plain = read_file-IsPlain pins_path 420 pins_bytes e4;
        pins_reviewed = (=s=_iff (tree.sha pins_bytes) expected_pins).0 e5;
        is_pins = e6 ∙ ap ok (ap (λ (i : Inputs). i.pins) same);
        manifest_bytes = manifest_bytes;
        manifest_plain = read_file-IsPlain manifest_path 420 manifest_bytes e2;
        is_manifest = e3 ∙ ap ok (ap (λ (i : Inputs). i.manifest) same);
      }

  -- What is read of the files.
  pub record Read (opened inputs : Inputs) : Type 0 where
    pub same_pins : inputs.pins ≡ opened.pins
    pub are_files : get_dict "files" opened.manifest ≡ ok inputs.files
    pub known : equal_keys required (keys inputs.files) ≡ true
    pub are_read : check_files inputs.files ≡ ok inputs.contents

  pub read_files-Read :
      (opened : Inputs) (source : Fields) (inputs : Inputs)
      → read_files opened source ≡ ok inputs
      → Read opened inputs
  unfolding read_files
  read_files-Read opened source inputs h =
      let (e1, h1) = require-eq-ok (get_eq "source" (obj source) opened.manifest) _ _ h in
      let (patch, e2, h2) = >>=-eq-ok (item "patchSha256" opened.pins) _ h1 in
      let (e3, h3) = require-eq-ok _ _ _ h2 in
      let (files, e4, h4) = >>=-eq-ok (get_dict "files" opened.manifest) _ h3 in
      let (e5, h5) = require-eq-ok (equal_keys required (keys files)) _ _ h4 in
      let (contents, e6, h6) =
        >>=-eq-ok (check_files files) (λ c. ok (record opened { files = files; contents = c }))
          h5 in
      subst (λ (i : Inputs). Read opened i) (ok_injective h6)
        (record { same_pins = refl; are_files = e4; known = e5; are_read = e6 })

  module _ (opened inputs : Inputs) (got : Read opened inputs) where
    pub file_Matches :
        (name : String)
        → member name required ≡ true
        → (v : Json) × (get_field name inputs.files ≡ some v)
          × Matches (λ n. read_file n (mode_of n)) tree.sha inputs.contents name v
    unfolding check_files
    file_Matches =
        read_inventory-required (λ n. read_file n (mode_of n)) tree.sha
          "invalid daemon immutable digest" file_mismatch required inputs.files inputs.contents
          got.known got.are_read

    pub file_IsIntact : (name : String) → member name required ≡ true → IsIntact (inputs.files) name
    file_IsIntact name known =
        let (v, found, m) = file_Matches name known in
        record {
          bytes = m.bytes;
          is_plain = read_file-IsPlain name (mode_of name) (m.bytes) (m.is_read);
          has_digest = found ∙ ap some (m.has_digest);
        }
