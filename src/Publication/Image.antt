-- ===== src/Publication/Image.antt =====
-- ci/r13-publication.py, `image_identity`: the image in an OCI archive.
pub mod Bound
use Prim.Native.String.{◌++◌ as ◌<>◌}
use bazzite_tower.Prelude.{
  ℕ, ◌+◌, String, Bool, true, false, ◌&&◌, ◌||◌, not, Option, none, some, List, [], ◌∷◌, leb, ◌==◌,
  if◌then◌else◌, ◌=s=◌, codes, length, member, is_blank, split_on, starts_with, text_drop, Dict,
  find, put, Json, null, num, str, arr, obj, Items, nil, cons, Fields, end, field, get_field, item,
  json_eq, as_dict, get_is, is_str, is_num, Result, ok, err, value_error, key_error, type_error,
  require, ◌>>=◌, ◌>>◌,
}
use bazzite_tower.Refresh.Policy.{is_hex_text}
use bazzite_tower.Publication.{World, Member, mebibytes_16, dict, digest, decode}

abbrev pub Members : Type 0
Members = Dict String Member

-- `name.removeprefix('./')`
abbrev pub plain_name : String → String
plain_name name = if starts_with "./" name then text_drop 2 name else name

abbrev pub root_names : List String
root_names = "" ∷ "." ∷ []

abbrev pub fixed_names : List String
fixed_names = "index.json" ∷ "oci-layout" ∷ "blobs" ∷ "blobs/sha256" ∷ []

-- `blobs/sha256/[0-9a-f]{64}`
abbrev pub is_blob_name : String → Bool
is_blob_name name = starts_with "blobs/sha256/" name && is_hex_text 64 (codes (text_drop 13 name))

abbrev pub is_known : Option Member → Bool
is_known none = false
is_known (some m) = true

-- The checks of one entry, and the inventory with it.
unfoldable pub add_member : Member → Members → Result Members
add_member m members =
    let name = plain_name m.name in
    if member name root_names
    then require m.is_directory "unsafe OCI root entry" >> ok members
    else (require
          (not (is_known (find ◌=s=◌ name members))
            && (not (starts_with "/" name) && not (member ".." (split_on 47 name))))
          "unsafe/duplicate OCI entry"
        >> (require (m.is_directory || m.is_file) "OCI link/special entry"
            >> (require (member name fixed_names || is_blob_name name) "unexpected OCI entry"
                >> (require (leb (length (put ◌=s=◌ name m members)) 10000)
                      "oversized OCI inventory"
                    >> ok (put ◌=s=◌ name m members)))))

unfoldable pub inventory : List Member → Members → Result Members
unfolding add_member
inventory [] members = ok members
inventory (m ∷ ms) members = do next ← add_member m members; inventory ms next

abbrev pub member_or_error : String → Option Member → Result Member
member_or_error name none = err (key_error name)
member_or_error name (some m) = ok m

-- `len(value)`
abbrev pub items_length : Items → ℕ
items_length nil = 0
items_length (cons v vs) = 1 + items_length vs

abbrev pub fields_length : Fields → ℕ
fields_length end = 0
fields_length (field k v fs) = 1 + fields_length fs

abbrev pub length_of : Json → Result ℕ
length_of (arr xs) = ok (items_length xs)
length_of (obj fs) = ok (fields_length fs)
length_of (str s) = ok (length (codes s))
length_of _ = err (type_error "object has no len()")

-- `value[0]`, where a dict has no such key and a character of a text is no descriptor
abbrev pub first_of : Json → Result Json
first_of (arr (cons v vs)) = ok v
first_of (obj fs) = err (key_error "0")
first_of _ = err (type_error "string indices must be integers")

abbrev pub or_default : Json → Option Json → Json
or_default d none = d
or_default d (some v) = v

abbrev pub as_list : Json → Result Items
as_list (arr xs) = ok xs
as_list _ = err (type_error "can only concatenate list")

abbrev pub blob_path : String → String
blob_path sha = "blobs/sha256/" <> text_drop 7 sha

abbrev pub media_types : List String
media_types =
    "application/vnd.oci.image.manifest.v1+json"
    ∷ "application/vnd.docker.distribution.manifest.v2+json" ∷ []

abbrev pub is_media_type : Json → Bool
is_media_type (str s) = member s media_types
is_media_type _ = false

abbrev pub layout : Json
layout = obj (dict (("imageLayoutVersion", str "1.0.0") ∷ []))

abbrev pub image_of : String → Json
image_of selected = obj (
    dict (
      ("manifestDigest", str selected)
      ∷ ("indexDigest", null)
      ∷ ("platformDigest", str selected)
      ∷ ("platform", str "linux/amd64")
      ∷ []))

module _ ⦃world : World⦄ where
  abbrev pub has_digest : Option String → String → Bool
  has_digest none bytes = true
  has_digest (some expected) bytes = ("sha256:" <> world.sha bytes) =s= expected

  abbrev pub is_metadata : Option Member → Bool
  is_metadata none = false
  is_metadata (some m) = m.is_file && leb m.size 16777216

  -- `blob`
  unfoldable pub blob : Members → String → Option String → Result Json
  unfolding decode
  blob members name expected = do
    require (is_metadata (find ◌=s=◌ name members)) "invalid OCI metadata"
    m ← member_or_error name (find ◌=s=◌ name members)
    require (has_digest expected m.bytes) "OCI metadata hash mismatch"
    decode m.size m.bytes

  abbrev pub is_sized : Json → Option Member → Bool
  is_sized size none = false
  is_sized size (some m) = m.is_file && is_num m.size size

  -- A config or a layer: its entry, with its size and its hash.
  unfoldable pub check_blob : Members → Json → Result (Unit {0})
  unfolding digest
  check_blob members document = do
    descriptor ← as_dict document
    hash ← item "digest" descriptor
    value ← digest hash
    size ← item "size" descriptor
    require (is_sized size (find ◌=s=◌ (blob_path value) members)) "missing OCI blob"
    m ← member_or_error (blob_path value) (find ◌=s=◌ (blob_path value) members)
    require (("sha256:" <> world.sha m.bytes) =s= value) "OCI blob hash mismatch"

  unfoldable pub check_blobs : Members → Items → Result (Unit {0})
  unfolding check_blob
  check_blobs members nil = ok tt
  check_blobs members (cons v vs) = check_blob members v >> check_blobs members vs

  -- The one descriptor of the index.
  unfoldable pub index_descriptor : Members → Result Json
  unfolding blob
  index_descriptor members = do
    layout_document ← blob members "oci-layout" none
    require (json_eq layout_document layout) "invalid OCI layout"
    index_document ← blob members "index.json" none
    index ← as_dict index_document
    let manifests = or_default (arr nil) (get_field "manifests" index)
    count ← (if get_is (is_num 2) "schemaVersion" index then length_of manifests else ok 0)
    require (count == 1) "one immutable image required"
    first_of manifests

  -- The digest of a descriptor, and its manifest.
  unfoldable pub described_manifest : Members → Json → Result (String × Json)
  unfolding blob digest
  described_manifest members document = do
    descriptor ← as_dict document
    hash ← item "digest" descriptor
    selected ← digest hash
    m ← member_or_error (blob_path selected) (find ◌=s=◌ (blob_path selected) members)
    size ← item "size" descriptor
    require (is_num m.size size) "OCI descriptor size mismatch"
    manifest ← blob members (blob_path selected) (some selected)
    ok (selected, manifest)

  unfoldable pub select : Members → Result (String × Json)
  unfolding index_descriptor described_manifest
  select members = do descriptor ← index_descriptor members; described_manifest members descriptor

  -- The config and the layers of the manifest.
  unfoldable pub check_image : Members → Json → Result (Unit {0})
  unfolding blob digest check_blobs
  check_image members document = do
    manifest ← as_dict document
    require (get_is is_media_type "mediaType" manifest) "multi-platform index HOLD"
    config_document ← item "config" manifest
    config_fields ← as_dict config_document
    config_hash ← item "digest" config_fields
    config_digest ← digest config_hash
    config ← blob members (blob_path config_digest) (some config_digest)
    config_value ← as_dict config
    require
        (get_is (is_str "amd64") "architecture" config_value
          && get_is (is_str "linux") "os" config_value)
        "wrong platform"
    layers_document ← item "layers" manifest
    layers ← as_list layers_document
    check_blobs members (cons config_document layers)

  unfoldable pub image_identity : List Member → Result Json
  unfolding inventory select check_image
  image_identity archive = do
    members ← inventory archive []
    selection ← select members
    check_image members (selection.1)
    ok (image_of (selection.0))
