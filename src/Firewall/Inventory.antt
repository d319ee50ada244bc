-- ===== src/Firewall/Inventory.antt =====
-- The inventories that the verifiers of build_files/firewall read: what a run over one says of its files.
use bazzite_tower.Prelude.{
  String, ◌≡◌, refl, ap, sym, ◌∙◌, subst, Bool, true, Bool-cases, &&-eq-true, some, List, [], ◌∷◌,
  inl, inr, arith, ◌=s=◌, =s=_iff, codes, all, member, Json, str, Fields, end, field, get_field,
  keys, item, or_key_error, Result, ok, require-eq-ok, ok_injective, >>=-eq-ok,
}
use bazzite_tower.Refresh.Policy.{is_hex_text}
use bazzite_tower.Firewall.Tree.{equal_keys, as_digest, Contents, content, read_inventory}

pub all-member :
    (p : String → Bool) (names : List String) (k : String)
    → all p names ≡ true
    → member k names ≡ true
    → p k ≡ true
all-member p [] k every found = cc
all-member p (n ∷ names) k every found =
    let both = &&-eq-true (p n) (all p names) every in
    elim (Bool-cases (k =s= n)) [
      | inl same ↦ subst (λ m. p m ≡ true) (sym ((=s=_iff k n).0 same)) (both.0)
      | inr differ ↦ all-member p names k (both.1) (rw differ at found)
    ]

pub member-keys :
    (k : String) (fs : Fields) → member k (keys fs) ≡ true → (v : Json) × (get_field k fs ≡ some v)
member-keys k end found = cc
member-keys k (field j v fs) found = elim (Bool-cases (k =s= j)) [
  | inl same ↦ (v, ground (arith, =s=_iff k j, =s=_iff j k))
  | inr differ ↦
      let (w, e) = member-keys k fs (rw differ at found) in
      (w, ground (arith, =s=_iff k j, =s=_iff j k))
]

pub item-get_field :
    (k : String) (fs : Fields) (v w : Json) → item k fs ≡ ok v → get_field k fs ≡ some w → v ≡ w
item-get_field k fs v w h found = ok_injective (sym h ∙ ap (or_key_error k) found)

-- A dict with those keys has a value at each of them.
pub equal_keys-found :
    (names : List String) (fs : Fields) (k : String)
    → equal_keys names (keys fs) ≡ true
    → member k names ≡ true
    → (v : Json) × (get_field k fs ≡ some v)
equal_keys-found names fs k same known =
    let both =
      &&-eq-true (all (λ j. member j (keys fs)) names) (all (λ j. member j names) (keys fs)) same in
    member-keys k fs (all-member (λ j. member j (keys fs)) names k (both.0) known)

pub equal_keys-known :
    (names : List String) (fs : Fields) (k : String)
    → equal_keys names (keys fs) ≡ true
    → member k (keys fs) ≡ true
    → member k names ≡ true
equal_keys-known names fs k same found =
    let both =
      &&-eq-true (all (λ j. member j (keys fs)) names) (all (λ j. member j names) (keys fs)) same in
    all-member (λ j. member j names) (keys fs) k (both.1) found

pub str_injective : {s t : String} → str s ≡ str t → s ≡ t
str_injective {s} same = ap (λ v. elim v [ str x ↦ x | _ ↦ s ]) same

pub as_digest_text :
    (message : String) (v : Json) (hash : String) → as_digest message v ≡ ok hash → v ≡ str hash
as_digest_text message (str s) hash h =
    let (_, same) = require-eq-ok (is_hex_text 64 (codes s)) message (ok s) h in
    ap str (ok_injective same)
as_digest_text message _ hash h = cc

module _ (read : String → Result String) (sha : String → String) where
  -- The file of a name: read, with the digest of the inventory, and kept.
  pub record Matches (contents : Contents) (name : String) (v : Json) : Type 0 where
    pub bytes : String
    pub is_read : read name ≡ ok bytes
    pub has_digest : v ≡ str (sha bytes)
    pub is_kept : content name contents ≡ ok bytes

  -- Where a run over an inventory returns, each file of it is read with the digest it has there.
  pub read_inventory-Matches :
      (invalid : String) (mismatch : String → String) (files : Fields) (contents : Contents)
      → read_inventory read sha invalid mismatch files ≡ ok contents
      → (name : String) (v : Json) → get_field name files ≡ some v
      → Matches contents name v
  unfolding read_inventory
  read_inventory-Matches invalid mismatch end contents h name v found = cc
  read_inventory-Matches invalid mismatch (field j w files) contents h name v found =
      let (hash, e1, h1) = >>=-eq-ok (as_digest invalid w) _ h in
      let (bytes, e2, h2) = >>=-eq-ok (read j) _ h1 in
      let (e3, h3) = require-eq-ok (sha bytes =s= hash) _ _ h2 in
      let (rest, e4, h4) =
        >>=-eq-ok (read_inventory read sha invalid mismatch files) (λ r. ok ((j, bytes) ∷ r)) h3 in
      subst (λ c. Matches c name v) (ok_injective h4)
        (elim (Bool-cases (j =s= name)) [
          | inl same ↦ record {
            bytes = bytes;
            is_read = subst (λ n. read n ≡ ok bytes) ((=s=_iff j name).0 same) e2;
            has_digest =
                let first : w ≡ v = ground arith in
                sym first
                ∙ as_digest_text invalid w hash e1
                ∙ ap str (sym ((=s=_iff (sha bytes) hash).0 e3));
            is_kept = rw same refl;
          }
          | inr differ ↦
              let other =
                read_inventory-Matches invalid mismatch files rest e4 name v (rw differ at found) in
              record {
                bytes = other.bytes;
                is_read = other.is_read;
                has_digest = other.has_digest;
                is_kept = rw differ other.is_kept;
              }
        ])

  -- The same for every name of an inventory that has exactly those names.
  pub read_inventory-required :
      (invalid : String) (mismatch : String → String) (names : List String) (files : Fields)
      (contents : Contents)
      → equal_keys names (keys files) ≡ true
      → read_inventory read sha invalid mismatch files ≡ ok contents
      → (name : String) → member name names ≡ true
      → (v : Json) × (get_field name files ≡ some v) × Matches contents name v
  read_inventory-required invalid mismatch names files contents same h name known =
      let (v, found) = equal_keys-found names files name same known in
      (v, found, read_inventory-Matches invalid mismatch files contents h name v found)
