-- ===== src/Firewall/System/Intact.antt =====
-- The files that the verification of the system bridge reads, as they are in the tree.
use bazzite_tower.Prelude.{
  ℕ, String, ◌≡◌, refl, ap, ◌∙◌, subst, Bool, true, false, ◌&&◌, ◌||◌, not, &&-eq-true, not-eq-true,
  some, [], ◌∷◌, arith, ◌==◌, ==_iff, ◌=s=◌, =s=_iff, member, starts_with, Json, str, Fields, keys,
  get_field, file_not_found, Result, ok, err, require-eq-ok, ok_injective, >>=-eq-ok,
}
use bazzite_tower.Firewall.Tree.{
  Stat, Tree, parts_of, get_dict, equal_keys, has_link, relative, load_dict,
}
use bazzite_tower.Firewall.Inventory.{Matches, read_inventory-required}
use bazzite_tower.Firewall.System.Names.{
  pins_path, manifest_path, expected_pins, reserved_rules, required, mode_of,
}
use bazzite_tower.Firewall.System.Reading.{
  or_missing, Inputs, check_source, check_identities, read_file, read_inputs, file_mismatch,
  check_files, read_files,
}

or_missing-eq-ok :
    (name : String) (r : Result Stat) (info : Stat) → or_missing name r ≡ ok info → r ≡ ok info
or_missing-eq-ok name (ok i) info h = h
or_missing-eq-ok name (err file_not_found) info h = cc
or_missing-eq-ok name (err _) info h = cc

root_owned :
    (live root_user root_group : Bool)
    → (not live || (root_user && root_group)) ≡ true
    → live ≡ true
    → (root_user ≡ true) × (root_group ≡ true)
root_owned live root_user root_group h is_live = (ground arith, ground arith)

module _ ⦃tree : Tree⦄ where
  -- A regular file below /usr, or a reserved rule, with this mode and these bytes, on a path without
  -- links; on the production root it is root's.
  pub record IsPlain (name : String) (mode : ℕ) (bytes : String) : Type 0 where
    pub is_known : (starts_with "/usr/" name || member name reserved_rules) ≡ true
    pub no_parent : member ".." (parts_of name) ≡ false
    pub no_link : has_link name ≡ false
    pub info : Stat
    pub is_stat : tree.stat (relative name) ≡ ok info
    pub is_regular : info.is_regular ≡ true
    pub has_mode : info.mode ≡ mode
    pub is_owned : tree.is_live ≡ true → (info.uid ≡ 0) × (info.gid ≡ 0)
    pub has_bytes : tree.read_bytes (relative name) ≡ ok bytes

  pub read_file-IsPlain :
      (name : String) (mode : ℕ) (bytes : String)
      → read_file name mode ≡ ok bytes
      → IsPlain name mode bytes
  unfolding read_file
  read_file-IsPlain name mode bytes h =
      let (e1, h1) =
        require-eq-ok
          ((starts_with "/usr/" name || member name reserved_rules)
            && not (member ".." (parts_of name)))
          _ _ h in
      let (e2, h2) = require-eq-ok (not (has_link name)) _ _ h1 in
      let (info, e3, h3) = >>=-eq-ok (or_missing name (tree.stat (relative name))) _ h2 in
      let (e4, h4) = require-eq-ok (info.is_regular && (info.mode == mode)) _ _ h3 in
      let (e5, h5) =
        require-eq-ok (not tree.is_live || ((info.uid == 0) && (info.gid == 0))) _ _ h4 in
      let (known, no_parent) =
        &&-eq-true (starts_with "/usr/" name || member name reserved_rules)
          (not (member ".." (parts_of name))) e1 in
      let (regular, same_mode) = &&-eq-true info.is_regular (info.mode == mode) e4 in
      record {
        is_known = known;
        no_parent = not-eq-true (member ".." (parts_of name)) no_parent;
        no_link = not-eq-true (has_link name) e2;
        info = info;
        is_stat = or_missing-eq-ok name (tree.stat (relative name)) info e3;
        is_regular = regular;
        has_mode = (==_iff info.mode mode).0 same_mode;
        is_owned = λ live.
            let (user, group) = root_owned tree.is_live (info.uid == 0) (info.gid == 0) e5 live in
            ((==_iff info.uid 0).0 user, (==_iff info.gid 0).0 group);
        has_bytes = h5;
      }

  -- A file of the inventory as it is in the tree.
  pub record IsIntact (files : Fields) (name : String) : Type 0 where
    pub bytes : String
    pub is_plain : IsPlain name (mode_of name) bytes
    pub has_digest : get_field name files ≡ some (str (tree.sha bytes))

  -- The pins that are read are the reviewed ones.
  pub record Opened (inputs : Inputs) : Type 0 where
    pub pins_bytes : String
    pub pins_plain : IsPlain pins_path 420 pins_bytes
    pub pins_reviewed : tree.sha pins_bytes ≡ expected_pins
    pub is_pins : load_dict pins_bytes ≡ ok inputs.pins
    pub manifest_bytes : String
    pub manifest_plain : IsPlain manifest_path 420 manifest_bytes
    pub is_manifest : load_dict manifest_bytes ≡ ok inputs.manifest

  pub read_inputs-Opened : (inputs : Inputs) → read_inputs ≡ ok inputs → Opened inputs
  unfolding read_inputs
  read_inputs-Opened inputs h =
      let (manifest_bytes, e1, h1) = >>=-eq-ok (read_file manifest_path 420) _ h in
      let (manifest, e2, h2) = >>=-eq-ok (load_dict manifest_bytes) _ h1 in
      let (pins_bytes, e3, h3) = >>=-eq-ok (read_file pins_path 420) _ h2 in
      let (e4, h4) = require-eq-ok (tree.sha pins_bytes =s= expected_pins) _ _ h3 in
      let (pins, e5, h5) = >>=-eq-ok (load_dict pins_bytes) _ h4 in
      let (e6, h6) = require-eq-ok _ _ _ h5 in
      let (source, e7, h7) = >>=-eq-ok (get_dict "source" manifest) _ h6 in
      let (u8, e8, h8) = >>=-eq-ok (check_source source pins) _ h7 in
      let (u9, e9, h9) =
        >>=-eq-ok (check_identities ("commit" ∷ "submoduleCommit" ∷ "tree" ∷ []) source) _ h8 in
      record {
        pins_bytes = pins_bytes;
        pins_plain = read_file-IsPlain pins_path 420 pins_bytes e3;
        pins_reviewed = (=s=_iff (tree.sha pins_bytes) expected_pins).0 e4;
        is_pins = e5 ∙ ap ok (ap (λ (i : Inputs). i.pins) (ok_injective h9));
        manifest_bytes = manifest_bytes;
        manifest_plain = read_file-IsPlain manifest_path 420 manifest_bytes e1;
        is_manifest = e2 ∙ ap ok (ap (λ (i : Inputs). i.manifest) (ok_injective h9));
      }

  -- What is read of the files.
  pub record Read (opened inputs : Inputs) : Type 0 where
    pub same_pins : inputs.pins ≡ opened.pins
    pub are_files : get_dict "files" opened.manifest ≡ ok inputs.files
    pub known : equal_keys required (keys inputs.files) ≡ true
    pub are_read : check_files inputs.files ≡ ok inputs.contents

  pub read_files-Read :
      (opened inputs : Inputs) → read_files opened ≡ ok inputs → Read opened inputs
  unfolding read_files
  read_files-Read opened inputs h =
      let (files, e1, h1) = >>=-eq-ok (get_dict "files" opened.manifest) _ h in
      let (e2, h2) = require-eq-ok (equal_keys required (keys files)) _ _ h1 in
      let (contents, e3, h3) =
        >>=-eq-ok (check_files files) (λ c. ok (record opened { files = files; contents = c }))
          h2 in
      subst (λ (i : Inputs). Read opened i) (ok_injective h3)
        (record { same_pins = refl; are_files = e1; known = e2; are_read = e3 })

  module _ (opened inputs : Inputs) (got : Read opened inputs) where
    pub file_Matches :
        (name : String)
        → member name required ≡ true
        → (v : Json) × (get_field name inputs.files ≡ some v)
          × Matches (λ n. read_file n (mode_of n)) tree.sha inputs.contents name v
    unfolding check_files
    file_Matches =
        read_inventory-required (λ n. read_file n (mode_of n)) tree.sha
          "invalid immutable file digest" file_mismatch required inputs.files inputs.contents
          got.known got.are_read

    pub file_IsIntact : (name : String) → member name required ≡ true → IsIntact inputs.files name
    file_IsIntact name known =
        let (v, found, m) = file_Matches name known in
        record {
          bytes = m.bytes;
          is_plain = read_file-IsPlain name (mode_of name) m.bytes m.is_read;
          has_digest = found ∙ ap some m.has_digest;
        }
