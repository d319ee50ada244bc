-- ===== src/Publication/Approved.antt =====
-- What stands behind an approval of a candidate, and behind a document under its hash.
use bazzite_tower.Prelude.{
  String, ◌<>◌, ◌≡◌, ap, subst, ◌∙◌, inl, inr, Bool-cases, true, ◌&&◌, Option, none, some, ◌=s=◌,
  =s=_iff, arith, leb, &&-eq-true, Json, null, str, obj, as_dict_obj, Fields, item, as_dict,
  as_text, same_keys, json_eq, get_is, is_str, is_num, ok, require-eq-ok, ok_injective, >>=-eq-ok,
}
use bazzite_tower.Refresh.Policy.{hex_value}
use bazzite_tower.Publication.{
  World, Node, mebibytes_16, is_unique, is_reviewer, identity_keys, identity, canonical,
  unique_only, decode, is_plain, read, hashed_json, receipt_keys, receipt, authority, approved_keys,
  as_approved, candidate_approval,
}

module _ ⦃world : World⦄ where
  -- A document without a repeated field that `json.loads` has of the bytes.
  unique_value :
      (o : Option Json) (v : Json) → unique_only o ≡ ok v → (o ≡ some v) × (is_unique v ≡ true)
  unique_value none v h = cc
  unique_value (some w) v h = elim (Bool-cases (is_unique w)) [
    | inl e ↦
        let same : w ≡ v = ok_injective (rw e at h) in
        (ap some same, subst (λ x. is_unique x ≡ true) same e)
    | inr e ↦ cc (rw e at h)
  ]

  -- The file of the category that is named by the hash is plain, has the hash, and its bytes are those of a
  -- document in its canonical form.
  pub record Trusted (root category : String) (hash document : Json) : Type 0 where
    pub text : String
    pub is_text : as_text hash ≡ ok text
    pub node : Node
    pub is_node :
        world.node (root <> ("/.github/r13/" <> (category <> ("/" <> (text <> ".json"))))) ≡ node
    pub plain : is_plain node ≡ true
    pub hashed : world.sha node.bytes ≡ text
    pub loaded : world.loads node.bytes ≡ some document
    pub unique : is_unique document ≡ true
    pub is_canonical : node.bytes ≡ canonical document

  read_plain :
      (path : String) (n : Node) → read path ≡ ok n → (world.node path ≡ n) × (is_plain n ≡ true)
  unfolding read
  read_plain path n h =
      let (e, rest) =
        require-eq-ok (is_plain (world.node path) && leb (world.node path).size mebibytes_16) _ _
          h in
      (ok_injective rest, subst (λ x. is_plain x ≡ true) (ok_injective rest) ((&&-eq-true _ _ e).0))

  pub hashed_json-Trusted :
      (root category : String) (hash document : Json)
      → hashed_json root category hash ≡ ok document
      → Trusted root category hash document
  unfolding hashed_json decode
  hashed_json-Trusted root category hash document h =
      let (u, e1, h1) = >>=-eq-ok (hex_value 64 hash) _ h in
      let (text, e2, h2) = >>=-eq-ok (as_text hash) _ h1 in
      let (node, e3, h3) =
        >>=-eq-ok (read (root <> ("/.github/r13/" <> (category <> ("/" <> (text <> ".json")))))) _
          h2 in
      let (e4, h4) = require-eq-ok (world.sha node.bytes =s= text) _ _ h3 in
      let (result, e5, h5) = >>=-eq-ok (decode node.size node.bytes) _ h4 in
      let (e6, h6) = require-eq-ok (node.bytes =s= canonical result) _ (ok result) h5 in
      let (e7, h7) =
        require-eq-ok (leb node.size mebibytes_16) _ (unique_only (world.loads node.bytes)) e5 in
      let (loaded, unique) = unique_value (world.loads node.bytes) result h7 in
      let written : node.bytes ≡ canonical result =
        ground (arith, =s=_iff node.bytes (canonical result)) in
      subst (Trusted root category hash) (ok_injective h6) (record {
        text = text;
        is_text = e2;
        node = node;
        is_node = (read_plain _ node e3).0;
        plain = (read_plain _ node e3).1;
        hashed = ground (arith, =s=_iff (world.sha node.bytes) text);
        loaded = loaded;
        unique = unique;
        is_canonical = written;
      })

  -- A trusted document that is a receipt of the kind for the packet and the identities.
  pub record Reviewed (root : String) (hash : Json) (kind packet_hash : String)
      (identities : Fields) : Type 0 where
    pub review : Fields
    pub trusted : Trusted root "receipts" hash (obj review)
    pub has_keys : same_keys receipt_keys review ≡ true
    pub has_kind : get_is (is_str kind) "kind" review ≡ true
    pub passed : get_is (is_str "PASS") "verdict" review ≡ true
    pub for_packet : get_is (is_str packet_hash) "packetSha256" review ≡ true
    pub for_identities : get_is (json_eq (obj identities)) "identities" review ≡ true
    pub by_reviewer : get_is is_reviewer "reviewer" review ≡ true

  receipt-Reviewed :
      (root : String) (hash : Json) (kind packet_hash : String) (identities r : Fields)
      → receipt root hash kind packet_hash identities ≡ ok r
      → Reviewed root hash kind packet_hash identities
  unfolding receipt
  receipt-Reviewed root hash kind packet_hash identities r h =
      let (document, e1, h1) = >>=-eq-ok (hashed_json root "receipts" hash) _ h in
      let (fs, e2, h2) = >>=-eq-ok (as_dict document) _ h1 in
      let (e3, h3) = require-eq-ok (same_keys receipt_keys fs) _ _ h2 in
      let (e4, h4) =
        require-eq-ok
          (get_is (is_num 1) "schemaVersion" fs
            && (get_is (is_str kind) "kind" fs && get_is (is_str "PASS") "verdict" fs))
          _ _ h3 in
      let (e5, h5) =
        require-eq-ok
          (get_is (is_str packet_hash) "packetSha256" fs
            && get_is (json_eq (obj identities)) "identities" fs)
          _ _ h4 in
      let (e6, h6) = require-eq-ok (get_is is_reviewer "reviewer" fs) _ _ h5 in
      let (schema, kind_and_verdict) = &&-eq-true _ _ e4 in
      let (kind_holds, verdict) = &&-eq-true _ _ kind_and_verdict in
      let (packet, same) = &&-eq-true _ _ e5 in
      record {
        review = fs;
        trusted =
            subst (Trusted root "receipts" hash) (as_dict_obj document fs e2)
              (hashed_json-Trusted root "receipts" hash document e1);
        has_keys = e3;
        has_kind = kind_holds;
        passed = verdict;
        for_packet = packet;
        for_identities = same;
        by_reviewer = e6;
      }

  -- What the reviewed authority and a trusted receipt say of a candidate.
  pub record Approved (root head : String) (ids : Fields) : Type 0 where
    pub recorded : Fields
    pub approved : Fields
    pub hash : Json
    pub is_recorded : authority root ≡ ok recorded
    pub is_candidate : item "candidate" recorded ≡ ok (obj approved)
    pub has_identities : item "identities" approved ≡ ok (obj ids)
    pub has_receipt : item "reviewReceiptSha256" approved ≡ ok hash
    pub has_keys : same_keys identity_keys ids ≡ true
    pub at_head : get_is (is_str head) "towerCommit" ids ≡ true
    pub reviewed :
        Reviewed root hash "independent-workflow-review" (world.sha (canonical (obj ids))) ids

  approved_obj : (v : Json) (fs : Fields) → as_approved v ≡ ok fs → v ≡ obj fs
  approved_obj (obj gs) fs h =
      ap obj (ok_injective ((require-eq-ok (same_keys approved_keys gs) _ (ok gs) h).1))
  approved_obj null fs h = cc
  approved_obj _ fs h = cc

  -- An approval names the identities that the authority records for the head; a plain file under the
  -- recorded hash, canonical and without repeated fields, is a receipt of a passed independent review by a
  -- named reviewer for exactly these identities and the hash of their packet.
  pub candidate_approval-Approved :
      (root head : String) (ids : Fields)
      → candidate_approval root head ≡ ok ids
      → Approved root head ids
  unfolding candidate_approval identity
  candidate_approval-Approved root head ids h =
      let (u0, e0, h0) = >>=-eq-ok (hex_value 40 (str head)) _ h in
      let (value, e1, h1) = >>=-eq-ok (authority root) _ h0 in
      let (candidate, e2, h2) = >>=-eq-ok (item "candidate" value) _ h1 in
      let (approved, e3, h3) = >>=-eq-ok (as_approved candidate) _ h2 in
      let (document, e4, h4) = >>=-eq-ok (item "identities" approved) _ h3 in
      let (gs, e5, h5) = >>=-eq-ok (as_dict document) _ h4 in
      let (u6, e6, h6) = >>=-eq-ok (identity gs) _ h5 in
      let (e7, h7) = require-eq-ok (get_is (is_str head) "towerCommit" gs) _ _ h6 in
      let (hash, e8, h8) = >>=-eq-ok (item "reviewReceiptSha256" approved) _ h7 in
      let (r, e9, h9) =
        >>=-eq-ok
          (receipt root hash "independent-workflow-review" (world.sha (canonical (obj gs))) gs)
          (λ _. ok gs) h8 in
      let (keys_known, rest) = require-eq-ok (same_keys identity_keys gs) _ _ e6 in
      subst (Approved root head) (ok_injective h9) (record {
        recorded = value;
        approved = approved;
        hash = hash;
        is_recorded = e1;
        is_candidate = e2 ∙ ap ok (approved_obj candidate approved e3);
        has_identities = e4 ∙ ap ok (as_dict_obj document gs e5);
        has_receipt = e8;
        has_keys = keys_known;
        at_head = e7;
        reviewed =
            receipt-Reviewed root hash "independent-workflow-review"
              (world.sha (canonical (obj gs))) gs r e9;
      })
