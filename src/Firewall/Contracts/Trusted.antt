-- ===== src/Firewall/Contracts/Trusted.antt =====
-- What the checks of the installed image say of its files.
use Prim.Native.String.{◌++◌ as ◌<>◌}
use Prim.Native.Nat.{bit_and}
use bazzite_tower.Prelude.{
  String, ◌≡◌, refl, ap, sym, ◌∙◌, subst, Bool, true, false, not, Bool-cases, not-eq-true,
  &&-eq-true, Option, some, List, [], ◌∷◌, All, ◌||◌, ◌==◌, ==_iff, starts_with, as_dict, arith,
  inl, inr, if◌then◌else◌, ◌=s=◌, =s=_iff, codes, all, member, Json, null, bool, num, whole, real,
  str, arr, obj, Fields, end, field, get_field, keys, is_truthy, Result, ok, err, type_error,
  ok_injective, >>=-eq-ok, ◌>>◌,
}
use bazzite_tower.Refresh.Policy.{is_hex_text}
use bazzite_tower.Firewall.Tree.{parts_of, value_of, get_dict}
use bazzite_tower.Firewall.Inventory.{all-member, member-keys}
use bazzite_tower.Firewall.System.Names.{reserved_rules}
use bazzite_tower.Firewall.Contracts.Installed.{
  Info, Context, demand, is_owned, load_document, daemon_manifest, daemon_path, daemon_candidate,
  daemon_patch, check_owned, check_digest,
}
use bazzite_tower.Firewall.Contracts.Image.{
  rule_words, mandatory, or_empty, parents_of, assets_of, installed_assets, no_links, check_asset,
  check_assets, check_artifact_file, check_artifacts, check_daemon_paths, daemon_documents,
  check_proof, immutable_daemon, check_provenance, check_bridge_binary, check_gui_profile,
  opened_manifest, check_version, immutable,
}

pub demand-eq-ok {ℓ} :
    {W : Type ℓ} (holds : Bool) (message : String) (after : Result W) {w : W}
    → (demand holds message >> after) ≡ ok w
    → (holds ≡ true) × (after ≡ ok w)
demand-eq-ok true message after returns = (refl, returns)
demand-eq-ok false message after returns = cc

demand_holds :
    (holds : Bool) (message : String) (u : Unit {0}) → demand holds message ≡ ok u → holds ≡ true
demand_holds true message u returns = refl
demand_holds false message u returns = cc

-- An empty text is no digest.
no_digest :
    (held : Bool) (hash : String) (v w : Json)
    → (if held then err (type_error "expected string") else ok "") ≡ ok hash
    → is_hex_text 64 (codes hash) ≡ true
    → v ≡ w
no_digest true hash v w h digits = cc
no_digest false hash v w h digits =
    let none_left : is_hex_text 64 (codes "") ≡ true =
      subst (λ t. is_hex_text 64 (codes t) ≡ true) (sym (ok_injective h)) digits in
    cc

or_empty-digest :
    (v : Json) (hash : String)
    → or_empty v ≡ ok hash
    → is_hex_text 64 (codes hash) ≡ true
    → v ≡ str hash
or_empty-digest (str s) hash h digits = ap str (ok_injective h)
or_empty-digest null hash h digits = no_digest false hash null (str hash) h digits
or_empty-digest (bool b) hash h digits = no_digest b hash (bool b) (str hash) h digits
or_empty-digest (num n) hash h digits =
    no_digest (is_truthy (some (num n))) hash (num n) (str hash) h digits
or_empty-digest (whole n) hash h digits =
    no_digest (is_truthy (some (whole n))) hash (whole n) (str hash) h digits
or_empty-digest (real s) hash h digits = no_digest true hash (real s) (str hash) h digits
or_empty-digest (arr vs) hash h digits =
    no_digest (is_truthy (some (arr vs))) hash (arr vs) (str hash) h digits
or_empty-digest (obj fs) hash h digits =
    no_digest (is_truthy (some (obj fs))) hash (obj fs) (str hash) h digits

owned_parts :
    (info : Info)
    → is_owned info ≡ true
    → (info.is_regular ≡ true) × (info.uid ≡ 0) × (bit_and info.mode 0o022 ≡ 0)
owned_parts info h =
    let (regular, rest) = &&-eq-true info.is_regular _ h in
    let (root, closed) = &&-eq-true (info.uid == 0) (bit_and info.mode 0o022 == 0) rest in
    (regular, (==_iff info.uid 0).0 root, (==_iff (bit_and info.mode 0o022) 0).0 closed)

module _ ⦃context : Context⦄ where
  -- A root-owned regular file that only root can write, with this digest.
  pub record IsOwned (name : String) (v : Json) : Type 0 where
    pub info : Info
    pub bytes : String
    pub is_stat : context.stat name ≡ ok info
    pub is_regular : info.is_regular ≡ true
    pub of_root : info.uid ≡ 0
    pub no_other_writes : bit_and info.mode 0o022 ≡ 0
    pub has_bytes : context.read name ≡ ok bytes
    pub has_digest : v ≡ str (context.sha bytes)

  -- A directory on the way to a file is no link.
  abbrev pub NoLink : String → Type 0
  NoLink path = (info : Info) × (context.stat path ≡ ok info) × (info.is_symlink ≡ false)

  no_links-NoLink :
      (paths : List String) (message : String) (u : Unit {0})
      → no_links paths message ≡ ok u
      → All NoLink paths
  unfolding no_links
  no_links-NoLink [] message u h = tt
  no_links-NoLink (path ∷ paths) message u h =
      let (info, e1, h1) = >>=-eq-ok (context.stat path) _ h in
      let (e2, h2) = demand-eq-ok (not info.is_symlink) _ _ h1 in
      ((info, e1, not-eq-true info.is_symlink e2), no_links-NoLink paths message u h2)

  check_digest-IsOwned :
      (name hash first second : String) (v : Json) (u : Unit {0})
      → v ≡ str hash
      → (check_owned name first >> check_digest name hash second) ≡ ok u
      → IsOwned name v
  unfolding check_owned check_digest
  check_digest-IsOwned name hash first second v u same h =
      let (u1, e1, h1) = >>=-eq-ok (check_owned name first) _ h in
      let (info, e2, h2) = >>=-eq-ok (context.stat name) _ e1 in
      let (bytes, e3, h3) = >>=-eq-ok (context.read name) _ h1 in
      let digest = demand_holds (context.sha bytes =s= hash) second u h3 in
      record {
        info = info;
        bytes = bytes;
        is_stat = e2;
        is_regular = (owned_parts info (demand_holds (is_owned info) first u1 h2)).0;
        of_root = (owned_parts info (demand_holds (is_owned info) first u1 h2)).1;
        no_other_writes = (owned_parts info (demand_holds (is_owned info) first u1 h2)).2;
        has_bytes = e3;
        has_digest = same ∙ ap str (sym ((=s=_iff (context.sha bytes) hash).0 digest));
      }

  -- An asset of the manifest: it lies in /usr or is one of the reserved rules, which are on a path without links.
  pub record IsAsset (name : String) (v : Json) : Type 0 where
    pub is_owned_file : IsOwned name v
    pub is_known : (starts_with "/usr/" name || member name reserved_rules) ≡ true
    pub no_parent : member ".." (parts_of name) ≡ false
    pub unlinked : member name reserved_rules ≡ true → All NoLink (parents_of name)

  check_asset-IsAsset :
      (name : String) (v : Json) (u : Unit {0}) → check_asset name v ≡ ok u → IsAsset name v
  unfolding check_asset
  check_asset-IsAsset name v u h =
      let (e1, h1) = demand-eq-ok _ _ _ h in
      let (expected, e2, h2) = >>=-eq-ok (or_empty v) _ h1 in
      let (e3, h3) = demand-eq-ok (is_hex_text 64 (codes expected)) _ _ h2 in
      let (u4, e4, h4) =
        >>=-eq-ok (no_links (if member name reserved_rules then parents_of name else []) _) _ h3 in
      let (known, no_parent) = &&-eq-true _ (not (member ".." (parts_of name))) e1 in
      record {
        is_owned_file =
            check_digest-IsOwned name expected _ _ v u (or_empty-digest v expected e2 e3) h4;
        is_known = known;
        no_parent = not-eq-true (member ".." (parts_of name)) no_parent;
        unlinked = λ reserved. no_links-NoLink (parents_of name) _ u4 (
            subst
              (λ b.
                no_links (if b then parents_of name else [])
                  ("symlink in the path of the shipped " <> rule_words name)
                ≡ ok u4)
              reserved e4);
      }

  check_assets-get :
      (files : Fields) (u : Unit {0}) (name : String) (v : Json)
      → check_assets files ≡ ok u
      → get_field name files ≡ some v
      → IsAsset name v
  unfolding check_assets
  check_assets-get end u name v h found = cc
  check_assets-get (field j w files) u name v h found =
      let (u1, e1, h1) = >>=-eq-ok (check_asset j w) _ h in
      elim (Bool-cases (j =s= name)) [
        | inl same ↦
            let first : w ≡ v = ground arith in
            subst (λ x. IsAsset name x) first
              (subst (λ n. IsAsset n w) ((=s=_iff j name).0 same) (check_asset-IsAsset j w u1 e1))
        | inr differ ↦ check_assets-get files u name v h1 (rw differ at found)
      ]

  check_artifact_file-IsOwned :
      (name : String) (v : Json) (u : Unit {0}) → check_artifact_file name v ≡ ok u → IsOwned name v
  unfolding check_artifact_file
  check_artifact_file-IsOwned name v u h =
      let (expected, e1, h1) = >>=-eq-ok (or_empty v) _ h in
      let (e2, h2) = demand-eq-ok (is_hex_text 64 (codes expected)) _ _ h1 in
      check_digest-IsOwned name expected _ _ v u (or_empty-digest v expected e1 e2) h2

  -- The installed daemon and the candidate have the digest of the binary in the daemon's manifest, and the
  -- patch has the digest of the patch there.
  pub record IsPatched (binary patch_entry : Fields) : Type 0 where
    pub hash : Json
    pub patch_hash : Json
    pub is_hash : hash ≡ value_of "sha256" binary
    pub is_patch_hash : patch_hash ≡ value_of "sha256" patch_entry
    pub daemon : IsOwned daemon_path hash
    pub candidate : IsOwned daemon_candidate hash
    pub patch : IsOwned daemon_patch patch_hash

  check_artifacts-IsPatched :
      (binary patch : Fields) (u : Unit {0})
      → check_artifacts binary patch ≡ ok u
      → IsPatched binary patch
  unfolding check_artifacts
  check_artifacts-IsPatched binary patch u h =
      let (u1, e1, h1) =
        >>=-eq-ok (check_artifact_file daemon_path (value_of "sha256" binary)) _ h in
      let (u2, e2, h2) =
        >>=-eq-ok (check_artifact_file daemon_candidate (value_of "sha256" binary)) _ h1 in
      record {
        is_hash = refl;
        is_patch_hash = refl;
        hash = value_of "sha256" binary;
        patch_hash = value_of "sha256" patch;
        daemon = check_artifact_file-IsOwned daemon_path _ u1 e1;
        candidate = check_artifact_file-IsOwned daemon_candidate _ u2 e2;
        patch = check_artifact_file-IsOwned daemon_patch _ u h2;
      }

  -- What the daemon's manifest, which the check returns, says of the files.
  pub record DaemonPatched (manifest : Fields) : Type 0 where
    pub binary : Fields
    pub patch : Fields
    pub is_manifest : load_document daemon_manifest ≡ ok manifest
    pub is_binary : get_dict "binary" manifest ≡ ok binary
    pub is_patch : get_dict "patch" manifest ≡ ok patch
    pub patched : IsPatched binary patch

  daemon_documents-manifest :
      (pins : Fields) (documents : Fields × Fields)
      → daemon_documents pins ≡ ok documents
      → load_document daemon_manifest ≡ ok (documents.1)
  unfolding daemon_documents
  daemon_documents-manifest pins documents h =
      let (printed, e1, h1) = >>=-eq-ok (context.command _) _ h in
      let (proof_value, e2, h2) = >>=-eq-ok (context.loads printed) _ h1 in
      let (u3, e3, h3) = >>=-eq-ok (check_owned daemon_manifest _) _ h2 in
      let (manifest, e4, h4) = >>=-eq-ok (load_document daemon_manifest) _ h3 in
      let (e5, h5) = demand-eq-ok _ _ _ h4 in
      let (source, e6, h6) = >>=-eq-ok (get_dict "source" manifest) _ h5 in
      let (e7, h7) = demand-eq-ok _ _ _ h6 in
      let (proof, e8, h8) = >>=-eq-ok (as_dict proof_value) (λ p. ok (p, manifest)) h7 in
      e4 ∙ ap (λ x. ok (x.1)) (ok_injective h8)

  immutable_daemon-IsPatched :
      (pins manifest : Fields) → immutable_daemon pins ≡ ok manifest → DaemonPatched manifest
  unfolding immutable_daemon
  immutable_daemon-IsPatched pins manifest h =
      let (documents, e1, h1) = >>=-eq-ok (daemon_documents pins) _ h in
      let (source, e2, h2) = >>=-eq-ok (get_dict "source" (documents.1)) _ h1 in
      let (binary, e3, h3) = >>=-eq-ok (get_dict "binary" (documents.1)) _ h2 in
      let (patch, e4, h4) = >>=-eq-ok (get_dict "patch" (documents.1)) _ h3 in
      let (u5, e5, h5) = >>=-eq-ok (check_daemon_paths binary patch) _ h4 in
      let (u6, e6, h6) = >>=-eq-ok (check_artifacts binary patch) _ h5 in
      let (u7, e7, h7) = >>=-eq-ok (check_proof (documents.0) source binary patch) _ h6 in
      let (version, e8, h8) = >>=-eq-ok (context.command (daemon_path ∷ "-version" ∷ [])) _ h7 in
      let (e9, h9) = demand-eq-ok _ _ (ok (documents.1)) h8 in
      subst DaemonPatched (ok_injective h9) (record {
        binary = binary;
        patch = patch;
        is_manifest = daemon_documents-manifest pins documents e1;
        is_binary = e3;
        is_patch = e4;
        patched = check_artifacts-IsPatched binary patch u6 e6;
      })

  assets_of-mandatory :
      (o : Option Json) (files : Fields)
      → assets_of o ≡ ok files
      → (name : String) → member name mandatory ≡ true
      → (v : Json) × (get_field name files ≡ some v)
  assets_of-mandatory (some (obj fs)) files h name known =
      let (every, same) = demand-eq-ok (all (λ n. member n (keys fs)) mandatory) _ (ok fs) h in
      subst (λ d. (v : Json) × (get_field name d ≡ some v)) (ok_injective same)
        (member-keys name fs (all-member (λ n. member n (keys fs)) mandatory name every known))
  assets_of-mandatory _ files h name known = cc

  -- Every file of the manifest is the installed one, the mandatory names are among them, and the
  -- installed daemon is the patched candidate.
  pub record Trusted (manifest : Fields) : Type 0 where
    pub files : Fields
    pub are_files : installed_assets manifest ≡ ok files
    pub all_assets : (name : String) (v : Json) → get_field name files ≡ some v → IsAsset name v
    pub all_mandatory :
        (name : String)
        → member name mandatory ≡ true
        → (v : Json) × (get_field name files ≡ some v)
    pub daemon : Fields
    pub daemon_patched : DaemonPatched daemon

  -- Where `immutable` returns, every file that the returned manifest names is a regular file of root that
  -- only root can write and has the digest of the manifest, lies in /usr or is one of the three reserved
  -- rules, which are on a path without links, the mandatory names are among them, and the installed daemon,
  -- the candidate and the patch have the digests of the daemon's manifest.
  pub immutable-Trusted : (manifest : Fields) → immutable ≡ ok manifest → Trusted manifest
  unfolding immutable
  immutable-Trusted manifest h =
      let (documents, e1, h1) = >>=-eq-ok opened_manifest _ h in
      let (source, e2, h2) = >>=-eq-ok (get_dict "source" (documents.0)) _ h1 in
      let (u3, e3, h3) = >>=-eq-ok (check_provenance (documents.0) source (documents.1)) _ h2 in
      let (files, e4, h4) = >>=-eq-ok (installed_assets (documents.0)) _ h3 in
      let (u5, e5, h5) = >>=-eq-ok (check_assets files) _ h4 in
      let (u6, e6, h6) = >>=-eq-ok (check_bridge_binary (documents.0) files (documents.1)) _ h5 in
      let (u7, e7, h7) = >>=-eq-ok (check_gui_profile (documents.0) source) _ h6 in
      let (u8, e8, h8) = >>=-eq-ok check_version _ h7 in
      let (daemon, e9, h9) =
        >>=-eq-ok (immutable_daemon (documents.1)) (λ d. ok (documents.0)) h8 in
      subst Trusted (ok_injective h9) (record {
        files = files;
        are_files = e4;
        all_assets = λ name v. check_assets-get files u5 name v e5;
        all_mandatory = assets_of-mandatory (get_field "files" (documents.0)) files e4;
        daemon = daemon;
        daemon_patched = immutable_daemon-IsPatched (documents.1) daemon e9;
      })
