-- ===== src/Publication/Image/Bound.antt =====
-- What the identity of an archive says of its entries.
use Prim.Native.String.{◌++◌ as ◌<>◌}
use bazzite_tower.Prelude.{
  ℕ, ◌+◌, ◌==◌, ==_iff, Bool, false, if◌then◌else◌, json_eq, is_str-eq, String, ◌≡◌, sym, ap, subst,
  ◌∙◌, true, ◌&&◌, Option, none, some, List, [], ◌=s=◌, =s=_iff, arith, &&-eq-true, find, Json, str,
  arr, obj, Items, nil, cons, Fields, get_field, item, as_dict, get_is, is_str, is_num, item_found,
  as_dict_obj, leb, starts_with, text_drop, require_holds, ok_injective, ok, require-eq-ok,
  >>=-eq-ok,
}
use bazzite_tower.Refresh.Policy.{hex_value}
use bazzite_tower.Publication.{World, Member, digest, decode}
use bazzite_tower.Publication.Image.{
  Members, items_length, length_of, first_of, or_default, layout, inventory, member_or_error,
  as_list, blob_path, is_media_type, image_of, has_digest, is_metadata, blob, is_sized, check_blob,
  check_blobs, index_descriptor, described_manifest, select, check_image, image_identity,
}

member_found :
    (name : String) (o : Option Member) (m : Member) → member_or_error name o ≡ ok m → o ≡ some m
member_found name none m h = cc
member_found name (some n) m h = cc

as_list_arr : (v : Json) (xs : Items) → as_list v ≡ ok xs → v ≡ arr xs
as_list_arr (arr ys) xs h = cc
as_list_arr _ xs h = cc

list_found :
    (k : String) (fs : Fields) (v : Json) (xs : Items)
    → item k fs ≡ ok v
    → as_list v ≡ ok xs
    → get_field k fs ≡ some (arr xs)
list_found k fs v xs h e = item_found k fs v h ∙ ap some (as_list_arr v xs e)

get_is_text :
    (key text : String) (fs : Fields)
    → get_is (is_str text) key fs ≡ true
    → get_field key fs ≡ some (str text)
get_is_text key text fs h = text_in text (get_field key fs) h
  where
    text_in :
        (text : String) (o : Option Json)
        → (elim o [ none ↦ false | some v ↦ is_str text v ]) ≡ true
        → o ≡ some (str text)
    text_in text none h = cc
    text_in text (some v) h = ap some (is_str-eq text v h)

digest_str : (v : Json) (hash : String) → digest v ≡ ok hash → v ≡ str hash
unfolding digest
digest_str (str s) hash h =
    let (e1, h1) = require-eq-ok (starts_with "sha256:" s) _ _ h in
    let (u, e2, h2) = >>=-eq-ok (hex_value 64 (str (text_drop 7 s))) (λ _. ok s) h1 in cc h2
digest_str _ hash h = cc

module _ ⦃world : World⦄ where
  -- The entry with this hash is a file, and its bytes have the hash.
  pub record Held (members : Members) (hash : String) : Type 0 where
    pub entry : Member
    pub found : find ◌=s=◌ (blob_path hash) members ≡ some entry
    pub is_file : entry.is_file ≡ true
    pub hashed : "sha256:" <> world.sha entry.bytes ≡ hash

  -- A descriptor of such an entry.
  pub record Described (members : Members) (v : Json) : Type 0 where
    pub fields : Fields
    pub hash : String
    pub is_fields : v ≡ obj fields
    pub has_hash : get_field "digest" fields ≡ some (str hash)
    pub held : Held members hash

  abbrev pub AllDescribed : Members → Items → Type 0
  AllDescribed members nil = Unit
  AllDescribed members (cons v vs) = Described members v × AllDescribed members vs

  sized_file :
      (size : Json) (o : Option Member) (m : Member)
      → is_sized size o ≡ true
      → o ≡ some m
      → m.is_file ≡ true
  sized_file size none m h e = cc
  sized_file size (some n) m h e =
      let file = (&&-eq-true (n.is_file) (is_num n.size size) h).0 in
      let same : n ≡ m = cc in ap (λ x. x.is_file) (sym same) ∙ file

  check_blob-Described :
      (members : Members) (v : Json) (u : Unit {0})
      → check_blob members v ≡ ok u
      → Described members v
  unfolding check_blob
  check_blob-Described members v u h =
      let (fs, e1, h1) = >>=-eq-ok (as_dict v) _ h in
      let (hash, e2, h2) = >>=-eq-ok (item "digest" fs) _ h1 in
      let (value, e3, h3) = >>=-eq-ok (digest hash) _ h2 in
      let (size, e4, h4) = >>=-eq-ok (item "size" fs) _ h3 in
      let (e5, h5) = require-eq-ok (is_sized size (find ◌=s=◌ (blob_path value) members)) _ _ h4 in
      let (m, e6, h6) =
        >>=-eq-ok (member_or_error (blob_path value) (find ◌=s=◌ (blob_path value) members)) _ h5 in
      let hashed = require_holds (("sha256:" <> world.sha m.bytes) =s= value) _ u h6 in
      let found = member_found (blob_path value) (find ◌=s=◌ (blob_path value) members) m e6 in
      record {
        fields = fs;
        hash = value;
        is_fields = as_dict_obj v fs e1;
        has_hash = item_found "digest" fs hash e2 ∙ ap some (digest_str hash value e3);
        held = record {
          entry = m;
          found = found;
          is_file = sized_file size (find ◌=s=◌ (blob_path value) members) m e5 found;
          hashed = ground (arith, =s=_iff ("sha256:" <> world.sha m.bytes) value);
        };
      }

  check_blobs-AllDescribed :
      (members : Members) (vs : Items) (u : Unit {0})
      → check_blobs members vs ≡ ok u
      → AllDescribed members vs
  unfolding check_blobs
  check_blobs-AllDescribed members nil u h = tt
  check_blobs-AllDescribed members (cons v vs) u h =
      let (w, e, rest) = >>=-eq-ok (check_blob members v) (λ _. check_blobs members vs) h in
      (check_blob-Described members v w e, check_blobs-AllDescribed members vs u rest)

  metadata_file :
      (o : Option Member) (m : Member) → is_metadata o ≡ true → o ≡ some m → m.is_file ≡ true
  metadata_file none m h e = cc
  metadata_file (some n) m h e =
      let file = (&&-eq-true (n.is_file) (leb n.size 16777216) h).0 in
      let same : n ≡ m = cc in ap (λ x. x.is_file) (sym same) ∙ file

  -- A blob that is read under its hash, and what it decodes to.
  blob-Held :
      (members : Members) (hash : String) (v : Json)
      → blob members (blob_path hash) (some hash) ≡ ok v
      → (held : Held members hash) × (decode held.entry.size held.entry.bytes ≡ ok v)
  unfolding blob
  blob-Held members hash v h =
      let (e1, h1) = require-eq-ok (is_metadata (find ◌=s=◌ (blob_path hash) members)) _ _ h in
      let (m, e2, h2) =
        >>=-eq-ok (member_or_error (blob_path hash) (find ◌=s=◌ (blob_path hash) members)) _ h1 in
      let (e3, h3) = require-eq-ok (has_digest (some hash) m.bytes) _ _ h2 in
      let found = member_found (blob_path hash) (find ◌=s=◌ (blob_path hash) members) m e2 in
      (
        record {
          entry = m;
          found = found;
          is_file = metadata_file (find ◌=s=◌ (blob_path hash) members) m e1 found;
          hashed = ground (arith, =s=_iff ("sha256:" <> world.sha m.bytes) hash);
        },
        h3,
      )

  -- The index of the archive has one descriptor, with the digest and the size of the entry.
  pub record IsSelected (members : Members) (selected : String) : Type 0 where
    pub index : Fields
    pub descriptor : Fields
    pub size : Json
    pub entry : Member
    pub is_index : blob members "index.json" none ≡ ok (obj index)
    pub one_manifest : get_field "manifests" index ≡ some (arr (cons (obj descriptor) nil))
    pub has_digest : get_field "digest" descriptor ≡ some (str selected)
    pub has_size : get_field "size" descriptor ≡ some size
    pub is_entry : find ◌=s=◌ (blob_path selected) members ≡ some entry
    pub same_size : is_num entry.size size ≡ true

  -- A blob with the digest is the config of the one platform.
  pub record OnPlatform (members : Members) (config : Json) : Type 0 where
    pub descriptor : Fields
    pub hash : String
    pub document : Fields
    pub is_descriptor : config ≡ obj descriptor
    pub has_hash : get_field "digest" descriptor ≡ some (str hash)
    pub is_document : blob members (blob_path hash) (some hash) ≡ ok (obj document)
    pub architecture : get_field "architecture" document ≡ some (str "amd64")
    pub system : get_field "os" document ≡ some (str "linux")

  one_first :
      (v first : Json) (n : ℕ)
      → length_of v ≡ ok n
      → (n == 1) ≡ true
      → first_of v ≡ ok first
      → v ≡ arr (cons first nil)
  one_first (arr nil) first n h one f = cc
  one_first (arr (cons w nil)) first n h one f = ap (λ x. arr (cons x nil)) (ok_injective f)
  one_first (arr (cons w (cons x xs))) first n h one f =
      let counted : 1 + (1 + items_length xs) ≡ n = ok_injective h in
      let single : n ≡ 1 = (==_iff n 1).0 one in absurd (omega arith)
  one_first (obj fs) first n h one f = cc
  one_first (str s) first n h one f = cc
  one_first _ first n h one f = cc

  default_found :
      (o : Option Json) (first : Json)
      → or_default (arr nil) o ≡ arr (cons first nil)
      → o ≡ some (arr (cons first nil))
  default_found none first h = cc
  default_found (some v) first h = ap some h

  no_schema :
      (schema : Bool) (v : Json) (n : ℕ)
      → (if schema then length_of v else ok 0) ≡ ok n
      → (n == 1) ≡ true
      → length_of v ≡ ok n
  no_schema true v n h one = h
  no_schema false v n h one =
      let zero_count : 0 ≡ n = ok_injective h in
      let single : n ≡ 1 = (==_iff n 1).0 one in absurd (omega arith)

  select-IsSelected :
      (members : Members) (selected : String) (document : Json)
      → select members ≡ ok (selected, document)
      → IsSelected members selected
  unfolding select index_descriptor described_manifest
  select-IsSelected members selected document h =
      let (first, e0, h0) = >>=-eq-ok (index_descriptor members) _ h in
      let (layout_document, e1, h1) = >>=-eq-ok (blob members "oci-layout" none) _ e0 in
      let (e2, h2) = require-eq-ok (json_eq layout_document layout) _ _ h1 in
      let (index_document, e3, h3) = >>=-eq-ok (blob members "index.json" none) _ h2 in
      let (index, e4, h4) = >>=-eq-ok (as_dict index_document) _ h3 in
      let manifests = or_default (arr nil) (get_field "manifests" index) in
      let schema = get_is (is_num 2) "schemaVersion" index in
      let (count, e5, h5) = >>=-eq-ok (if schema then length_of manifests else ok 0) _ h4 in
      let (e6, h6) = require-eq-ok (count == 1) _ (first_of manifests) h5 in
      let (descriptor, e7, h7) = >>=-eq-ok (as_dict first) _ h0 in
      let (digest_value, e8, h8) = >>=-eq-ok (item "digest" descriptor) _ h7 in
      let (hash, e9, h9) = >>=-eq-ok (digest digest_value) _ h8 in
      let (m, e10, h10) =
        >>=-eq-ok (member_or_error (blob_path hash) (find ◌=s=◌ (blob_path hash) members)) _ h9 in
      let (size, e11, h11) = >>=-eq-ok (item "size" descriptor) _ h10 in
      let (e12, h12) = require-eq-ok (is_num m.size size) _ _ h11 in
      let (manifest, e13, h13) =
        >>=-eq-ok (blob members (blob_path hash) (some hash)) (λ d. ok (hash, d)) h12 in
      let one = one_first manifests first count (no_schema schema manifests count e5 e6) e6 h6 in
      let found = default_found (get_field "manifests" index) first one in
      subst (IsSelected members) (ap (λ x. x.0) (ok_injective h13)) (record {
        index = index;
        descriptor = descriptor;
        size = size;
        entry = m;
        is_index = e3 ∙ ap ok (as_dict_obj index_document index e4);
        one_manifest = found ∙ ap (λ v. some (arr (cons v nil))) (as_dict_obj first descriptor e7);
        has_digest =
            item_found "digest" descriptor digest_value e8
            ∙ ap some (digest_str digest_value hash e9);
        has_size = item_found "size" descriptor size e11;
        is_entry = member_found (blob_path hash) (find ◌=s=◌ (blob_path hash) members) m e10;
        same_size = e12;
      })

  -- What stands behind an image's identity: the entries of the archive, and the manifest among them.
  pub record Verified (archive : List Member) (image : Json) : Type 0 where
    pub members : Members
    pub selected : String
    pub manifest : Fields
    pub config : Json
    pub layers : Items
    pub is_inventory : inventory archive [] ≡ ok members
    pub is_image : image ≡ image_of selected
    pub is_selected : IsSelected members selected
    pub held : Held members selected
    pub is_manifest : decode held.entry.size held.entry.bytes ≡ ok (obj manifest)
    pub single : get_is is_media_type "mediaType" manifest ≡ true
    pub has_config : get_field "config" manifest ≡ some config
    pub has_layers : get_field "layers" manifest ≡ some (arr layers)
    pub on_platform : OnPlatform members config
    pub described : AllDescribed members (cons config layers)

  described_manifest-Held :
      (members : Members) (document : Json) (hash : String) (manifest : Json)
      → described_manifest members document ≡ ok (hash, manifest)
      → (held : Held members hash) × (decode held.entry.size held.entry.bytes ≡ ok manifest)
  unfolding described_manifest
  described_manifest-Held members first hash manifest h =
      let (descriptor, e8, h8) = >>=-eq-ok (as_dict first) _ h in
      let (digest_value, e9, h9) = >>=-eq-ok (item "digest" descriptor) _ h8 in
      let (selected, e10, h10) = >>=-eq-ok (digest digest_value) _ h9 in
      let (m, e11, h11) =
        >>=-eq-ok (member_or_error (blob_path selected) (find ◌=s=◌ (blob_path selected) members)) _
          h10 in
      let (size, e12, h12) = >>=-eq-ok (item "size" descriptor) _ h11 in
      let (e13, h13) = require-eq-ok (is_num m.size size) _ _ h12 in
      let (document, e14, h14) =
        >>=-eq-ok (blob members (blob_path selected) (some selected)) (λ d. ok (selected, d)) h13 in
      let same : selected ≡ hash = cc h14 in
      let also : document ≡ manifest = cc h14 in
      subst (λ k. (held : Held members k) × (decode held.entry.size held.entry.bytes ≡ ok manifest))
        same (blob-Held members selected manifest (e14 ∙ ap ok also))

  -- The identity of an archive is that of the only manifest that its index lists, with the size that the index
  -- gives it and the bytes that have its hash; its config names the platform linux/amd64, and the config and every layer that the manifest names are files of the archive with the hash
  -- that the manifest gives them.
  pub image_identity-Verified :
      (archive : List Member) (image : Json)
      → image_identity archive ≡ ok image
      → Verified archive image
  unfolding image_identity select check_image
  image_identity-Verified archive image h =
      let (members, e1, h1) = >>=-eq-ok (inventory archive []) _ h in
      let ((selected, document), e2, h2) = >>=-eq-ok (select members) _ h1 in
      let (descriptor, d2, s2) =
        >>=-eq-ok (index_descriptor members) (described_manifest members) e2 in
      let (u, e3, h3) = >>=-eq-ok (check_image members document) (λ _. ok (image_of selected)) h2 in
      let (manifest, e4, h4) = >>=-eq-ok (as_dict document) _ e3 in
      let (e5, h5) = require-eq-ok (get_is is_media_type "mediaType" manifest) _ _ h4 in
      let (config, e6, h6) = >>=-eq-ok (item "config" manifest) _ h5 in
      let (config_fields, e7, h7) = >>=-eq-ok (as_dict config) _ h6 in
      let (config_hash, e8, h8) = >>=-eq-ok (item "digest" config_fields) _ h7 in
      let (config_digest, e9, h9) = >>=-eq-ok (digest config_hash) _ h8 in
      let (config_document, e10, h10) =
        >>=-eq-ok (blob members (blob_path config_digest) (some config_digest)) _ h9 in
      let (config_value, e11, h11) = >>=-eq-ok (as_dict config_document) _ h10 in
      let (e12, h12) =
        require-eq-ok
          (get_is (is_str "amd64") "architecture" config_value
            && get_is (is_str "linux") "os" config_value)
          _ _ h11 in
      let (layers_document, e13, h13) = >>=-eq-ok (item "layers" manifest) _ h12 in
      let (layers, e14, h14) = >>=-eq-ok (as_list layers_document) _ h13 in
      let (held, decoded) = described_manifest-Held members descriptor selected document s2 in
      record {
        members = members;
        selected = selected;
        manifest = manifest;
        config = config;
        layers = layers;
        is_inventory = e1;
        is_image = sym (ok_injective h3);
        is_selected = select-IsSelected members selected document e2;
        held = held;
        is_manifest = decoded ∙ ap ok (as_dict_obj document manifest e4);
        single = e5;
        on_platform =
            let (amd64, linux) = &&-eq-true _ _ e12 in
            record {
              descriptor = config_fields;
              hash = config_digest;
              document = config_value;
              is_descriptor = as_dict_obj config config_fields e7;
              has_hash =
                  item_found "digest" config_fields config_hash e8
                  ∙ ap some (digest_str config_hash config_digest e9);
              is_document = e10 ∙ ap ok (as_dict_obj config_document config_value e11);
              architecture = get_is_text "architecture" "amd64" config_value amd64;
              system = get_is_text "os" "linux" config_value linux;
            };
        has_config = item_found "config" manifest config e6;
        has_layers = list_found "layers" manifest layers_document layers e13 e14;
        described = check_blobs-AllDescribed members (cons config layers) u h14;
      }
