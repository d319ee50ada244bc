-- ===== src/Deny/Safety/Recovery.antt =====
-- Restoring allow without faults, of a trial that a power loss cut short.
use bazzite_tower.Prelude.{
  ℕ, ◌<>◌, String, ◌≡◌, refl, sym, subst, inl, inr, Bool, true, false, Bool-cases, Option, none,
  some, List, ◌==◌, if◌then◌else◌, same_codes, same_codes_self, Fields, Error, ok, refusal,
}
use bazzite_tower.Deny.System.{Node, Place, config, state, backup, marker, write, System, Host}
use bazzite_tower.Deny.Run.{M, pure, raise, ask, lift, change, ◌>>=◌, require}
use bazzite_tower.Deny.Run.Returns.{
  Returns, bind_Returns, catch-Returns, lift-Returns, then_Returns, else_Returns, ask-Returns,
  require-Returns, change-Returns, require-Raises, bind_Raises, bind_Raises_after, catch-Raises,
}
use bazzite_tower.Deny.Edit.{allow, is_allow, current_action, set_action}
use bazzite_tower.Deny.Files.{
  is_root_file, call_error, lookup, is_some, present, found, stat, read_bytes, Metadata,
  metadata_at, replacement, unchanged_since, publish, unlink, private_bytes, read_config,
}
use bazzite_tower.Deny.Record.{parsed_state, has_pending, backup_metadata}
use bazzite_tower.Deny.Trial.{
  Method, already_allow, from_backup, key_edit, is_refusal, unlink_present, discard, read_backup,
  backup_of, hashes_match, edit_key, restore_backup, restore_with, restore_allow,
}
use bazzite_tower.Deny.Main.{same_boot}

pub pure-Returns : {A : Type 0} (s : System) (a : A) → Returns (pure a) s a s
unfolding pure
pure-Returns s a = refl

-- The files of calls that meet no fault.
module _ (p : Place) (s : System) where
  pub present-Returns : (o : Option Node) → s.disk p ≡ o → Returns (present p) s (is_some o) s
  unfolding present lookup pure
  present-Returns o e =
      bind_Returns (ask (refusal "cannot inspect") (λ t. t.disk p)) (λ n. pure (is_some n)) s o s
        (is_some o) s (ask-Returns (refusal "cannot inspect") (λ t. t.disk p) s o e) refl

  module _ (n : Node) (e : s.disk p ≡ some n) where
    stat_Returns : Returns (stat p) s n s
    unfolding stat
    stat_Returns =
        bind_Returns (ask call_error (λ t. t.disk p)) (λ o. lift (found o)) s (some n) s n s
          (ask-Returns call_error (λ t. t.disk p) s (some n) e)
          (lift-Returns (found (some n)) s n refl)

    pub read_bytes_Returns : Returns (read_bytes p) s n.bytes s
    unfolding read_bytes pure
    read_bytes_Returns = bind_Returns (stat p) (λ m. pure m.bytes) s n s n.bytes s stat_Returns refl

    pub private_bytes-Returns :
        (what : String) → is_root_file 0o077 n ≡ true → Returns (private_bytes p what) s n.bytes s
    unfolding private_bytes
    private_bytes-Returns what root = bind_Returns (stat p) _ s n s n.bytes s stat_Returns (
        bind_Returns
          (require (is_root_file 0o077 n)
            (what <> " must be a root-owned regular file with mode 0600"))
          (λ _. read_bytes p) s tt s n.bytes s (require-Returns (is_root_file 0o077 n) _ s root)
          read_bytes_Returns)

  -- A path is gone behind `unlink_present`.
  unlink_present-Returns : (t : System) × Returns (unlink_present p) s tt t
  unfolding unlink_present unlink
  unlink_present-Returns = elim (Bool-cases (is_some (s.disk p))) [
    | inl there ↦ (
      record s { disk = write p none s.disk },
      bind_Returns (present p) _ s _ s tt _ (present-Returns _ refl) (
          then_Returns (is_some (s.disk p)) (unlink p) (pure tt) s tt _ there
            (change-Returns call_error (λ _ t. record t { disk = write p none t.disk }) s)),
    )
    | inr absent ↦ (
      s,
      bind_Returns (present p) _ s _ s tt s (present-Returns _ refl) (
          else_Returns (is_some (s.disk p)) (unlink p) (pure tt) s tt s absent (pure-Returns s tt)),
    )
  ]

-- The metadata of a file.
abbrev pub metadata_of_node : Node → Metadata
metadata_of_node n = record { uid = n.uid; gid = n.gid; mode = n.mode; xattrs = n.xattrs }

pub discard-Returns : (s : System) → (t : System) × Returns discard s tt t
unfolding discard
discard-Returns s =
    let (t, first) = unlink_present-Returns marker s in
    let (u, second) = unlink_present-Returns state t in
    let (v, third) = unlink_present-Returns backup u in
    (
      v,
      bind_Returns (unlink_present marker) _ s tt t tt v first
          (bind_Returns (unlink_present state) _ t tt u tt v second third),
    )

module _ (s : System) (n : Node) (e : s.disk config ≡ some n) where
  pub read_config-Returns :
      is_root_file 0o022 n ≡ true → Returns read_config s (n.bytes, metadata_of_node n) s
  unfolding read_config metadata_at pure
  read_config-Returns root =
      bind_Returns (metadata_at config) _ s (metadata_of_node n) s (n.bytes, metadata_of_node n) s
        (bind_Returns (stat config) _ s n s (metadata_of_node n) s (stat_Returns config s n e) (
          bind_Returns (require (is_root_file 0o022 n) _) _ s tt s (metadata_of_node n) s
            (require-Returns (is_root_file 0o022 n) _ s root)
            (bind_Returns (ask call_error (λ t. n.xattrs)) _ s n.xattrs s (metadata_of_node n) s
              (ask-Returns call_error (λ t. n.xattrs) s n.xattrs refl) refl)))
        (bind_Returns (read_bytes config) _ s n.bytes s (n.bytes, metadata_of_node n) s
          (read_bytes_Returns config s n e) refl)

  -- The config is still what was read, so it is replaced.
  publish-Returns :
      (bytes : List ℕ) (m : Metadata)
      → Returns
          (publish config bytes m (some n.bytes))
          s
          tt
          (record s { disk = write config (some (replacement m bytes)) s.disk })
  unfolding publish unchanged_since
  publish-Returns bytes m =
      let t = record s { disk = write config (some (replacement m bytes)) s.disk } in
      bind_Returns (ask call_error (λ u. tt)) _ s tt s tt t (ask-Returns call_error _ s tt refl) (
        bind_Returns (unchanged_since config (some n.bytes)) _ s tt s tt t
          (bind_Returns (read_bytes config) _ s n.bytes s tt s (read_bytes_Returns config s n e)
            (require-Returns (same_codes n.bytes n.bytes) _ s (same_codes_self n.bytes)))
          (bind_Returns (change call_error _) _ s tt t tt t (change-Returns call_error _ s)
            (ask-Returns call_error _ t tt refl)))

-- The backup as it is read: one that is not private counts as none.
abbrev readable : Option Node → Option (List ℕ)
readable none = none
readable (some n) = if is_root_file 0o077 n then some n.bytes else none

abbrev no_backup : Error → M (Option (List ℕ))
no_backup e = if is_refusal e then pure none else raise e

module _ ⦃host : Host⦄ where
  read_backup-Returns :
      (s : System) (n : Node) → s.disk backup ≡ some n → Returns read_backup s (readable (some n)) s
  unfolding read_backup private_bytes
  read_backup-Returns s n e = elim (Bool-cases (is_root_file 0o077 n)) [
    | inl root ↦
        subst (λ (b : Bool). Returns read_backup s (if b then some n.bytes else none) s) (sym root)
          (catch-Returns (private_bytes backup "deny backup" >>= λ bytes. pure (some bytes))
            no_backup s (some n.bytes) s
            (bind_Returns (private_bytes backup "deny backup") _ s n.bytes s (some n.bytes) s
              (private_bytes-Returns backup s n e "deny backup" root)
              (pure-Returns s (some n.bytes))))
    | inr public ↦
        subst (λ (b : Bool). Returns read_backup s (if b then some n.bytes else none) s)
          (sym public)
          (catch-Raises (private_bytes backup "deny backup" >>= λ bytes. pure (some bytes))
            no_backup s (refusal "deny backup must be a root-owned regular file with mode 0600")
            none s
            (bind_Raises (private_bytes backup "deny backup") _ s _ (
              bind_Raises_after (stat backup) _ s n _ (stat_Returns backup s n e) (
                bind_Raises (require (is_root_file 0o077 n) _) _ s _
                  (require-Raises (is_root_file 0o077 n) _ s public))))
            (pure-Returns s none))
  ]

  backup_of-Returns :
      (fs : Fields) (s : System) (o : Option Node)
      → s.disk backup ≡ o
      → Returns (backup_of (some fs)) s (readable o) s
  unfolding backup_of
  backup_of-Returns fs s none e =
      bind_Returns (present backup) _ s false s none s (present-Returns backup s none e)
        (pure-Returns s none)
  backup_of-Returns fs s (some n) e =
      bind_Returns (present backup) _ s true s (readable (some n)) s
        (present-Returns backup s (some n) e) (read_backup-Returns s n e)

  -- A trial that a power loss cut short: an accepted state of another boot with a pending trial, and
  -- a config that can be edited; no other helper has the lock.
  pub record Interrupted (s : System) : Type 0 where
    pub trial : Fields
    pub state_node : Node
    pub live : Node
    pub metadata : Metadata
    pub edited : List ℕ
    pub is_state : s.disk state ≡ some state_node
    pub is_private : is_root_file 0o077 state_node ≡ true
    pub is_parsed : parsed_state (host.loads state_node.bytes) ≡ ok (some trial)
    pub is_pending : has_pending (some trial) ≡ true
    pub other_boot : same_boot s.boot_id trial ≡ false
    pub is_config : s.disk config ≡ some live
    pub is_root : is_root_file 0o022 live ≡ true
    pub has_metadata : backup_metadata trial ≡ ok metadata
    pub can_edit : set_action live.bytes allow ≡ ok edited
    pub is_free : (s.held == 0) ≡ true

  module _ (s : System) (i : Interrupted s) where
    edit_key-Returns :
        (t : System) × Returns (edit_key i.live.bytes (metadata_of_node i.live)) s key_edit t
    unfolding edit_key
    edit_key-Returns =
        let m = metadata_of_node i.live in
        let t = record s { disk = write config (some (replacement m i.edited)) s.disk } in
        (
          t,
          bind_Returns (lift (set_action i.live.bytes allow)) _ s i.edited s key_edit t
              (lift-Returns (set_action i.live.bytes allow) s i.edited i.can_edit)
              (bind_Returns (publish config i.edited m (some i.live.bytes)) _ s tt t key_edit t
                (publish-Returns s i.live i.is_config i.edited m) (pure-Returns t key_edit)),
        )

    restore_backup-Returns :
        (bytes : List ℕ)
        → (t : System) × Returns (restore_backup i.trial bytes i.live.bytes) s from_backup t
    unfolding restore_backup
    restore_backup-Returns bytes =
        let t = record s { disk = write config (some (replacement i.metadata bytes)) s.disk } in
        (
          t,
          bind_Returns (lift (backup_metadata i.trial)) _ s i.metadata s from_backup t
              (lift-Returns (backup_metadata i.trial) s i.metadata i.has_metadata)
              (bind_Returns (publish config bytes i.metadata (some i.live.bytes)) _ s tt t
                from_backup t (publish-Returns s i.live i.is_config bytes i.metadata)
                (pure-Returns t from_backup)),
        )

    restore_with-Returns :
        (b : Option (List ℕ))
        → (method : Method) × (t : System) × Returns
            (restore_with (some i.trial) b i.live.bytes (metadata_of_node i.live))
            s
            method
            t
    unfolding restore_with
    restore_with-Returns none = (key_edit, edit_key-Returns.0, edit_key-Returns.1)
    restore_with-Returns (some bytes) =
        let live = i.live.bytes in
        let edit = edit_key live (metadata_of_node i.live) in
        let whole = restore_backup i.trial bytes live in
        let (t, r) = restore_backup-Returns bytes in
        let (u, q) = edit_key-Returns in
        elim (Bool-cases (hashes_match i.trial bytes live)) [
          | inl same ↦ (
            from_backup,
            t,
            then_Returns (hashes_match i.trial bytes live) whole edit s from_backup t same r,
          )
          | inr differ ↦ (
            key_edit,
            u,
            else_Returns (hashes_match i.trial bytes live) whole edit s key_edit u differ q,
          )
        ]

    pub restore_allow-Returns :
        (method : Method) × (t : System) × Returns (restore_allow (some i.trial)) s method t
    unfolding restore_allow
    restore_allow-Returns =
        let live = i.live.bytes in
        let m = metadata_of_node i.live in
        let b = readable (s.disk backup) in
        let rest = backup_of (some i.trial) >>= λ c. restore_with (some i.trial) c live m in
        let (method, t, r) = restore_with-Returns b in
        let opened = read_config-Returns s i.live i.is_config i.is_root in
        elim (Bool-cases (is_allow (current_action live))) [
          | inl allowed ↦ (
            already_allow,
            s,
            bind_Returns read_config _ s (live, m) s already_allow s opened
                (then_Returns (is_allow (current_action live)) (pure already_allow) rest s
                  already_allow s allowed (pure-Returns s already_allow)),
          )
          | inr denied ↦ (
            method,
            t,
            bind_Returns read_config _ s (live, m) s method t opened
                (else_Returns (is_allow (current_action live)) (pure already_allow) rest s method t
                  denied
                  (bind_Returns (backup_of (some i.trial)) _ s b s method t
                    (backup_of-Returns i.trial s (s.disk backup) refl) r)),
          )
        ]
