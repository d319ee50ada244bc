-- ===== src/Publication.antt =====
-- ci/r13-publication.py: the documents that the publication gates trust, and what a gate approves.
pub mod Image
pub mod Candidate
pub mod Outputs
pub mod Approved
use Prim.Native.String.{◌++◌ as ◌<>◌}
use bazzite_tower.Prelude.{
  ℕ, ◌*◌, String, Bool, true, false, ◌&&◌, ◌||◌, not, Option, none, some, List, [], ◌∷◌, leb, ◌==◌,
  if◌then◌else◌, ◌=s=◌, codes, is_digit, length, all, member, text_drop, starts_with, Json, null,
  bool, num, whole, real, str, arr, obj, Items, nil, cons, Fields, end, field, item, keys, as_dict,
  as_text, same_keys, json_eq, get_is, is_str, is_num, Result, ok, err, value_error, require, ◌>>=◌,
  ◌>>◌,
}
use bazzite_tower.Refresh.Policy.{hex_value}

-- A path: what `is_symlink` and `is_file` say, the size and the bytes.
pub record Node : Type 0 where
  pub is_link : Bool
  pub is_file : Bool
  pub size : ℕ
  pub bytes : String

-- An entry of an archive.
pub record Member : Type 0 where
  pub name : String
  pub is_directory : Bool
  pub is_file : Bool
  pub size : ℕ
  pub bytes : String

-- The files, the environment and git; `json.loads` before the hook for pairs, with no value where it
-- raises; the number of bytes of a text in UTF-8; `json.dumps` with sorted keys and no spaces; sha256 in hexadecimal digits; `int`.
pub record World : Type 0 where
  pub node : String → Node
  pub listing : String → List String
  pub archive : String → List Member
  pub environ : String → Option String
  pub git : String → List String → Result String
  pub loads : String → Option Json
  pub utf8_size : String → ℕ
  pub dumps : Json → String
  pub sha : String → String
  pub to_int : String → Result ℕ

abbrev pub repository : String
repository = "bearyjd/bazzite-tower"

abbrev pub candidate_repository : String
candidate_repository = "ghcr.io/bearyjd/bazzite-tower-r13-candidate"

abbrev pub candidate_ref : String
candidate_ref = "refs/heads/ci/r13-candidate-hold-promotion"

abbrev pub candidate_workflow : String
candidate_workflow = ".github/workflows/r13-candidate.yml"

abbrev pub mebibytes_16 : ℕ
mebibytes_16 = 16777216

-- `pairs`, at every dict of a document
unfoldable mutual
  pub is_unique : Json → Bool
  is_unique (arr xs) = items_unique xs
  is_unique (obj fs) = fields_unique fs
  is_unique _ = true

  pub items_unique : Items → Bool
  items_unique nil = true
  items_unique (cons x xs) = is_unique x && items_unique xs

  pub fields_unique : Fields → Bool
  fields_unique end = true
  fields_unique (field k v fs) = not (member k (keys fs)) && (is_unique v && fields_unique fs)

abbrev pub dict : List (String × Json) → Fields
dict [] = end
dict ((k, v) ∷ d) = field k v (dict d)

-- `digest`
unfoldable pub digest : Json → Result String
digest (str s) = do
  require (starts_with "sha256:" s) "invalid image digest"
  hex_value 64 (str (text_drop 7 s))
  ok s
digest _ = err (value_error "invalid image digest")

-- `[A-Za-z0-9_.:/-]`
abbrev pub is_reviewer_char : ℕ → Bool
is_reviewer_char c =
    (leb 65 c && leb c 90)
    || ((leb 97 c && leb c 122)
        || (is_digit c || ((c == 95) || ((c == 46) || ((c == 58) || ((c == 47) || (c == 45)))))))

abbrev pub is_reviewer : Json → Bool
is_reviewer (str s) =
    let cs = codes s in leb 1 (length cs) && (leb (length cs) 160 && all is_reviewer_char cs)
is_reviewer _ = false

-- `for key in keys: hex_value(value[key], size)`
abbrev pub hex_items : ℕ → List String → Fields → Result (Unit {0})
hex_items size [] value = ok tt
hex_items size (k ∷ ks) value = do v ← item k value; hex_value size v; hex_items size ks value

abbrev pub git_keys : List String
git_keys = "towerCommit" ∷ "towerTree" ∷ "sourceCommit" ∷ "sourceTree" ∷ "submoduleCommit" ∷ []

abbrev pub hash_keys : List String
hash_keys = "bridgePinsSha256" ∷ "daemonPinsSha256" ∷ "workflowSha256" ∷ []

abbrev pub identity_keys : List String
identity_keys =
    "towerCommit" ∷ "towerTree" ∷ "sourceCommit" ∷ "sourceTree" ∷ "submoduleCommit"
    ∷ "bridgePinsSha256" ∷ "daemonPinsSha256" ∷ "workflowSha256" ∷ []

-- `identity`
unfoldable pub identity : Fields → Result (Unit {0})
identity value = do
  require (same_keys identity_keys value) "invalid source identity fields"
  hex_items 40 git_keys value
  hex_items 64 hash_keys value

abbrev pub receipt_keys : List String
receipt_keys =
    "schemaVersion" ∷ "kind" ∷ "packetSha256" ∷ "identities" ∷ "reviewer" ∷ "evidenceSha256"
    ∷ "verdict" ∷ []

module _ ⦃world : World⦄ where
  abbrev pub canonical : Json → String
  canonical value = world.dumps value <> "\n"

  abbrev pub unique_only : Option Json → Result Json
  unique_only none = err (value_error "invalid JSON")
  unique_only (some v) = if is_unique v then ok v else err (value_error "duplicate JSON field")

  -- The size is the number of bytes of a node or of an archive's entry.
  unfoldable pub decode : ℕ → String → Result Json
  unfolding is_unique
  decode size bytes =
      require (leb size mebibytes_16) "oversized JSON" >> unique_only (world.loads bytes)

  abbrev pub is_plain : Node → Bool
  is_plain n = not n.is_link && n.is_file

  unfoldable pub read : String → Result Node
  read path =
      require (is_plain (world.node path) && leb (world.node path).size mebibytes_16)
        "invalid data file"
      >> ok (world.node path)

  -- `decode(read(path))`
  abbrev pub read_json : String → Result Json
  read_json path = do n ← read path; decode n.size n.bytes

  unfoldable pub file_sha : String → Result String
  file_sha path =
      require (is_plain (world.node path)) "invalid artifact file"
      >> ok (world.sha (world.node path).bytes)

  unfoldable pub hashed_json : String → String → Json → Result Json
  unfolding read decode
  hashed_json root category value = do
    hex_value 64 value
    hash ← as_text value
    data_node ← read (root <> ("/.github/r13/" <> (category <> ("/" <> (hash <> ".json")))))
    require (world.sha data_node.bytes =s= hash) "trusted receipt/packet hash mismatch"
    result ← decode data_node.size data_node.bytes
    require (data_node.bytes =s= canonical result) "noncanonical trusted packet/receipt"
    ok result

  unfoldable pub receipt : String → Json → String → String → Fields → Result Fields
  unfolding hashed_json
  receipt root value kind packet_hash identities = do
    document ← hashed_json root "receipts" value
    r ← as_dict document
    require (same_keys receipt_keys r) "invalid receipt fields"
    require
        (get_is (is_num 1) "schemaVersion" r
          && (get_is (is_str kind) "kind" r && get_is (is_str "PASS") "verdict" r))
        "receipt refused"
    require
        (get_is (is_str packet_hash) "packetSha256" r
          && get_is (json_eq (obj identities)) "identities" r)
        "stale or substituted receipt"
    require (get_is is_reviewer "reviewer" r) "missing trusted reviewer"
    evidence ← item "evidenceSha256" r
    hex_value 64 evidence
    ok r

  unfoldable pub authority : String → Result Fields
  unfolding read decode
  authority root = do
    document ← read_json (root <> "/.github/r13/authority.json")
    value ← as_dict document
    require (same_keys ("schemaVersion" ∷ "candidate" ∷ "accepted" ∷ []) value)
        "invalid authority fields"
    require (get_is (is_num 1) "schemaVersion" value) "invalid authority version"
    ok value

  abbrev pub approved_keys : List String
  approved_keys = "identities" ∷ "reviewReceiptSha256" ∷ []

  -- `isinstance(approved, dict) and set(approved) == {...}`
  abbrev pub as_approved : Json → Result Fields
  as_approved (obj fs) =
      require (same_keys approved_keys fs) "candidate HOLD: no reviewed authority" >> ok fs
  as_approved _ = err (value_error "candidate HOLD: no reviewed authority")

  unfoldable pub candidate_approval : String → String → Result Fields
  unfolding authority identity receipt
  candidate_approval root head = do
    hex_value 40 (str head)
    value ← authority root
    candidate ← item "candidate" value
    approved ← as_approved candidate
    document ← item "identities" approved
    ids ← as_dict document
    identity ids
    require (get_is (is_str head) "towerCommit" ids) "unreviewed candidate head"
    review ← item "reviewReceiptSha256" approved
    _ ← receipt root review "independent-workflow-review" (world.sha (canonical (obj ids))) ids
    ok ids

  -- `os.environ.get(name) == text`
  abbrev pub environ_is : String → String → Bool
  environ_is name text = elim (world.environ name) [ none ↦ false | some t ↦ t =s= text ]

  unfoldable pub context : String → String → String → String → Result (Unit {0})
  context head ref workflow control_head = do
    hex_value 40 (str control_head)
    hex_value 40 (str head)
    require (environ_is "GITHUB_REPOSITORY" repository) "wrong repository"
    require
        (environ_is "GITHUB_EVENT_NAME" "push"
          || environ_is "GITHUB_EVENT_NAME" "workflow_dispatch")
        "reviewed candidate push/manual dispatch required"
    require (environ_is "GITHUB_SHA" head) "unreviewed workflow head"
    require
        ((ref =s= candidate_ref)
          && (workflow =s= (repository <> ("/" <> (candidate_workflow <> ("@" <> candidate_ref))))))
        "wrong workflow/ref"
    require (environ_is "GITHUB_RUN_ATTEMPT" "1") "rerun needs fresh review/identity"
