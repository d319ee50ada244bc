-- ===== src/Firewall/System/Bridged.antt =====
-- What the checks of the bridge's files say.
use bazzite_tower.Prelude.{
  String, ◌≡◌, refl, ap, sym, ◌∙◌, subst, true, &&-eq-true, none, some, List, [], ◌∷◌, All, ◌=s=◌,
  =s=_iff, member, Json, str, obj, Fields, get_field, item, item_found, json_eq, json_eq-str, ok,
  require-eq-ok, require_holds, ok_injective, >>=-eq-ok,
}
use bazzite_tower.Publication.Candidate.{item_at}
use bazzite_tower.Firewall.Tree.{Tree, get_eq, get_dict, content, load_dict}
use bazzite_tower.Firewall.Inventory.{str_injective}
use bazzite_tower.Firewall.System.Names.{
  config_path, legacy_config_path, os_update_rule, os_update_digest, dns_rule, dns_digest,
  tower_rules, source_files, required, mode_of,
}
use bazzite_tower.Firewall.System.Reading.{Inputs}
use bazzite_tower.Firewall.System.Bridge.{
  check_sources, check_tower_rules, expected_config, check_loggers, check_native, check_mask,
  check_overlay, check_config,
}
use bazzite_tower.Firewall.System.Verify.{check_bridge}
use bazzite_tower.Firewall.System.Intact.{IsPlain, read_file-IsPlain, Read, file_Matches}

some_same {ℓ} : {A : Type ℓ} {a b : A} → some a ≡ some b → a ≡ b
some_same {a = a} same = ap (λ o. elim o [ none ↦ a | some x ↦ x ]) same

-- A file of the inventory has the hash of the upstream file that it is a copy of.
abbrev pub IsCopy : Fields → Fields → String × String → Type 0
IsCopy files pins (name, original) =
    (hash : Json) × (pinned : Json) × (get_field name files ≡ some hash)
    × (item_at ("sourceFiles" ∷ original ∷ []) (obj pins) ≡ ok pinned)
    × (json_eq hash pinned ≡ true)

pub check_sources-IsCopy :
    (files pins : Fields) (names : List (String × String)) (u : Unit {0})
    → check_sources files pins names ≡ ok u
    → All (IsCopy files pins) names
unfolding check_sources
check_sources-IsCopy files pins [] u h = tt
check_sources-IsCopy files pins ((name, original) ∷ rest) u h =
    let (hash, e1, h1) = >>=-eq-ok (item name files) _ h in
    let (pinned, e2, h2) = >>=-eq-ok (item_at ("sourceFiles" ∷ original ∷ []) (obj pins)) _ h1 in
    let (e3, h3) = require-eq-ok (json_eq hash pinned) _ _ h2 in
    (
      (hash, pinned, item_found name files hash e1, e2, e3),
      check_sources-IsCopy files pins rest u h3,
    )

pub check_tower_rules-get :
    (files : Fields) (rules : List (String × String)) (u : Unit {0})
    → check_tower_rules files rules ≡ ok u
    → All
        (λ x.
          (hash : Json) × (get_field (x.0) files ≡ some hash) × (json_eq hash (str (x.1)) ≡ true))
        rules
unfolding check_tower_rules
check_tower_rules-get files [] u h = tt
check_tower_rules-get files ((name, expected) ∷ rest) u h =
    let (hash, e1, h1) = >>=-eq-ok (item name files) _ h in
    let (e2, h2) = require-eq-ok (json_eq hash (str expected)) _ _ h1 in
    ((hash, item_found name files hash e1, e2), check_tower_rules-get files rest u h2)

module _ ⦃tree : Tree⦄ where
  -- A rule of the tower is in the tree with its reviewed digest.
  pub record IsRule (name digest : String) : Type 0 where
    pub bytes : String
    pub is_plain : IsPlain name 420 bytes
    pub is_reviewed : tree.sha bytes ≡ digest

  -- The config of the tree is the legacy one with the address and the action of the system bridge,
  -- and its default action is allow.
  pub record HasConfig : Type 0 where
    pub config_bytes : String
    pub legacy_bytes : String
    pub config : Fields
    pub legacy : Fields
    pub expected : Fields
    pub config_plain : IsPlain config_path 420 config_bytes
    pub legacy_plain : IsPlain legacy_config_path 420 legacy_bytes
    pub is_config : load_dict config_bytes ≡ ok config
    pub is_legacy : load_dict legacy_bytes ≡ ok legacy
    pub is_expected : expected_config legacy ≡ ok expected
    pub same_config : json_eq (obj config) (obj expected) ≡ true
    pub allows : get_eq "DefaultAction" (str "allow") config ≡ true

  -- What the checks of the bridge's files say.
  pub record Bridged (inputs : Inputs) : Type 0 where
    pub is_masked : tree.readlink "usr/lib/systemd/user/snitchwatch-bridge.service" ≡ ok "/dev/null"
    pub all_copies : All (IsCopy inputs.files inputs.pins) source_files
    pub rules : check_tower_rules inputs.files tower_rules ≡ ok tt
    pub configured : check_config inputs.contents ≡ ok tt

  pub check_mask-masked :
      (inputs : Inputs) (u : Unit {0})
      → check_mask inputs ≡ ok u
      → tree.readlink "usr/lib/systemd/user/snitchwatch-bridge.service" ≡ ok "/dev/null"
  unfolding check_mask
  check_mask-masked inputs u h =
      let (e1, h1) = require-eq-ok _ _ _ h in
      let (target, e2, h2) =
        >>=-eq-ok (tree.readlink "usr/lib/systemd/user/snitchwatch-bridge.service") _ h1 in
      let same = require_holds (target =s= "/dev/null") _ u h2 in
      e2 ∙ ap ok ((=s=_iff target "/dev/null").0 same)

  pub check_overlay-parts :
      (inputs : Inputs) (u : Unit {0})
      → check_overlay inputs ≡ ok u
      → All (IsCopy inputs.files inputs.pins) source_files
        × (check_tower_rules inputs.files tower_rules ≡ ok tt)
  unfolding check_overlay
  check_overlay-parts inputs u h =
      let (u1, e1, h1) = >>=-eq-ok (check_sources inputs.files inputs.pins source_files) _ h in
      let (u2, e2, h2) = >>=-eq-ok (check_tower_rules inputs.files tower_rules) _ h1 in
      (check_sources-IsCopy inputs.files inputs.pins source_files u1 e1, e2)

  pub check_bridge-Bridged :
      (inputs : Inputs) (u : Unit {0}) → check_bridge inputs ≡ ok u → Bridged inputs
  unfolding check_bridge
  check_bridge-Bridged inputs u h =
      let (u1, e1, h1) =
        >>=-eq-ok (check_loggers inputs.contents (config_path ∷ legacy_config_path ∷ [])) _ h in
      let (u2, e2, h2) = >>=-eq-ok (check_native inputs) _ h1 in
      let (u3, e3, h3) = >>=-eq-ok (check_mask inputs) _ h2 in
      let (u4, e4, h4) = >>=-eq-ok (check_overlay inputs) _ h3 in
      let (u5, e5, h5) = >>=-eq-ok (check_config inputs.contents) _ h4 in
      let (copies, rules) = check_overlay-parts inputs u4 e4 in
      record {
        is_masked = check_mask-masked inputs u3 e3;
        all_copies = copies;
        rules = rules;
        configured = e5;
      }

  module _ (opened inputs : Inputs) (got : Read opened inputs) where
    -- What is kept of a required file is what is in the tree.
    pub content-IsPlain :
        (name bytes : String)
        → member name required ≡ true
        → content name inputs.contents ≡ ok bytes
        → IsPlain name (mode_of name) bytes
    content-IsPlain name bytes known kept =
        let (v, found, m) = file_Matches opened inputs got name known in
        read_file-IsPlain name (mode_of name) bytes
          (m.is_read ∙ ap ok (ok_injective (sym m.is_kept ∙ kept)))

    pub check_config-HasConfig : check_config inputs.contents ≡ ok tt → HasConfig
    unfolding check_config
    check_config-HasConfig h =
        let (bytes, e1, h1) = >>=-eq-ok (content config_path inputs.contents) _ h in
        let (config, e2, h2) = >>=-eq-ok (load_dict bytes) _ h1 in
        let (legacy_bytes, e3, h3) = >>=-eq-ok (content legacy_config_path inputs.contents) _ h2 in
        let (legacy, e4, h4) = >>=-eq-ok (load_dict legacy_bytes) _ h3 in
        let (expected, e5, h5) = >>=-eq-ok (expected_config legacy) _ h4 in
        let (e6, h6) = require-eq-ok (json_eq (obj config) (obj expected)) _ _ h5 in
        let (server, e7, h7) = >>=-eq-ok (get_dict "Server" config) _ h6 in
        let e8 = require_holds _ _ tt h7 in
        record {
          config_bytes = bytes;
          legacy_bytes = legacy_bytes;
          config = config;
          legacy = legacy;
          expected = expected;
          config_plain = content-IsPlain config_path bytes refl e1;
          legacy_plain = content-IsPlain legacy_config_path legacy_bytes refl e3;
          is_config = e2;
          is_legacy = e4;
          is_expected = e5;
          same_config = e6;
          allows = (&&-eq-true (get_eq "DefaultAction" (str "allow") config) _ e8).0;
        }

    pub kept_IsRule :
        (name digest : String) (hash : Json)
        → member name required ≡ true
        → mode_of name ≡ 420
        → get_field name inputs.files ≡ some hash
        → json_eq hash (str digest) ≡ true
        → IsRule name digest
    kept_IsRule name digest hash known mode found same =
        let (v, e, m) = file_Matches opened inputs got name known in
        let kept : hash ≡ str (tree.sha m.bytes) = some_same (sym found ∙ e) ∙ m.has_digest in
        let reviewed : json_eq (str (tree.sha m.bytes)) (str digest) ≡ true =
          subst (λ x. json_eq x (str digest) ≡ true) kept same in
        record {
          bytes = m.bytes;
          is_plain =
              subst (λ n. IsPlain name n m.bytes) mode
                (read_file-IsPlain name (mode_of name) m.bytes m.is_read);
          is_reviewed = sym (str_injective (json_eq-str _ _ reviewed));
        }

    pub tower_rules-IsRule :
        check_tower_rules inputs.files tower_rules ≡ ok tt
        → IsRule os_update_rule os_update_digest × IsRule dns_rule dns_digest
    tower_rules-IsRule h =
        let (first, (second, _)) = check_tower_rules-get inputs.files tower_rules tt h in
        let (os_hash, os_found, os_same) = first in
        let (dns_hash, dns_found, dns_same) = second in
        (
          kept_IsRule os_update_rule os_update_digest os_hash refl refl os_found os_same,
          kept_IsRule dns_rule dns_digest dns_hash refl refl dns_found dns_same,
        )
