-- ===== src/Deny/Contract/Decides.antt =====
-- What the readiness checks accept of a live config, without faults: allow, or a confirmed deny.
use bazzite_tower.Prelude.{
  String, ◌≡◌, refl, ◌∙◌, Bool, true, false, Bool-cases, inl, inr, Option, none, some, [],
  if◌then◌else◌, obj, Fields, get_is, is_str, Error, ok, refusal, as_dict,
}
use bazzite_tower.Deny.System.{Node, Place, config, state, marker, System, Host}
use bazzite_tower.Deny.Run.{at_system, M, pure, lift, catch, require, ◌>>=◌}
use bazzite_tower.Deny.Run.Returns.{
  Returns, Raises, bind_step, bind_Returns, bind_Raises, bind_Raises_after, catch-Returns,
  lift-Returns, ask-Returns, require-Returns, require-Raises,
}
use bazzite_tower.Deny.Edit.{load_json}
use bazzite_tower.Deny.Files.{is_root_file, present, lookup, read_bytes}
use bazzite_tower.Deny.State.{
  dict_of, marker_ok, confirms, regular_root_json, state_confirms, with_marker, deny_opt_in,
}
use bazzite_tower.Deny.Safety.Recovery.{pure-Returns, present-Returns, read_bytes_Returns}
use bazzite_tower.Deny.Contract.{
  denies, deny_drift, allow_drift, proc_drift, address_drift, check_action, config_contract,
}
use bazzite_tower.Firewall.Tree.{get_dict}

module _ ⦃host : Host⦄ where
  -- The document of a root-owned regular file that only root can write.
  abbrev pub document_at : Option Node → Option Fields
  document_at none = none
  document_at (some n) = if is_root_file 0o022 n then dict_of (host.loads n.bytes) else none

  -- A state file, where there is one, is that of the confirmed trial.
  abbrev pub is_settled : Fields → Option Node → Bool
  is_settled m none = true
  is_settled m (some n) = confirms m (document_at (some n))

  abbrev pub is_marked : Option Fields → Option Node → Bool
  is_marked none st = false
  is_marked (some m) st = if marker_ok m then is_settled m st else false

  -- The marker of a confirmed trial, and no state of another or a pending one.
  abbrev pub is_opted : Option Node → Option Node → Bool
  is_opted mark st = is_marked (document_at mark) st

  regular_root_json-Returns :
      (p : Place) (s : System) (o : Option Node)
      → s.disk p ≡ o
      → Returns (regular_root_json p) s (document_at o) s
  unfolding regular_root_json lookup pure
  regular_root_json-Returns p s none e =
      bind_Returns (lookup p) _ s none s none s
        (ask-Returns (refusal "cannot inspect") (λ t. t.disk p) s none e) (pure-Returns s none)
  regular_root_json-Returns p s (some n) e =
      let opened : Returns
          (catch (read_bytes p >>= λ b. pure (dict_of (host.loads b))) (λ _. pure none)) s
          (dict_of (host.loads n.bytes)) s =
        catch-Returns (read_bytes p >>= λ b. pure (dict_of (host.loads b))) (λ _. pure none) s
          (dict_of (host.loads n.bytes)) s
          (bind_Returns (read_bytes p) _ s n.bytes s (dict_of (host.loads n.bytes)) s
            (read_bytes_Returns p s n e) (pure-Returns s (dict_of (host.loads n.bytes)))) in
      bind_Returns (lookup p) _ s (some n) s (document_at (some n)) s
        (ask-Returns (refusal "cannot inspect") (λ t. t.disk p) s (some n) e)
        (elim (Bool-cases (is_root_file 0o022 n)) [
          | inl root ↦ rw root opened
          | inr public ↦ rw public refl
        ])

  state_confirms-Returns :
      (m : Fields) (s : System) (o : Option Node)
      → s.disk state ≡ o
      → Returns (state_confirms m) s (is_settled m o) s
  unfolding state_confirms
  state_confirms-Returns m s none e =
      bind_Returns (present state) _ s false s true s (present-Returns state s none e)
        (pure-Returns s true)
  state_confirms-Returns m s (some n) e =
      let answer = confirms m (document_at (some n)) in
      bind_Returns (present state) _ s true s answer s (present-Returns state s (some n) e) (
        bind_Returns (regular_root_json state) _ s (document_at (some n)) s answer s
          (regular_root_json-Returns state s (some n) e) (pure-Returns s answer))

  with_marker-Returns :
      (o : Option Fields) (s : System) → Returns (with_marker o) s (is_marked o (s.disk state)) s
  unfolding with_marker
  with_marker-Returns none s = pure-Returns s false
  with_marker-Returns (some m) s = elim (Bool-cases (marker_ok m)) [
    | inl good ↦ rw good (state_confirms-Returns m s (s.disk state) refl)
    | inr bad ↦ rw bad (pure-Returns s false)
  ]

  deny_opt_in-Returns :
      (s : System) → Returns deny_opt_in s (is_opted (s.disk marker) (s.disk state)) s
  unfolding deny_opt_in
  deny_opt_in-Returns s =
      bind_Returns (regular_root_json marker) _ s (document_at (s.disk marker)) s
        (is_opted (s.disk marker) (s.disk state)) s
        (regular_root_json-Returns marker s (s.disk marker) refl)
        (with_marker-Returns (document_at (s.disk marker)) s)

  -- The config allows, or denies with the opt-in.
  abbrev pub is_accepted : Fields → System → Bool
  is_accepted fs s =
      if denies fs
      then is_opted (s.disk marker) (s.disk state)
      else get_is (is_str "allow") "DefaultAction" fs

  check_action-Returns :
      (fs : Fields) (s : System) → is_accepted fs s ≡ true → Returns (check_action fs) s tt s
  unfolding check_action
  check_action-Returns fs s good = elim (Bool-cases (denies fs)) [
    | inl deny ↦ rw deny (
        bind_Returns deny_opt_in _ s (is_opted (s.disk marker) (s.disk state)) s tt s
          (deny_opt_in-Returns s)
          (require-Returns (is_opted (s.disk marker) (s.disk state)) deny_drift s
            (rw deny at good)))
    | inr other ↦ rw other (
        require-Returns (get_is (is_str "allow") "DefaultAction" fs) allow_drift s
          (rw other at good))
  ]

  check_action-Raises :
      (fs : Fields) (s : System)
      → is_accepted fs s ≡ false
      → (e : Error) × Raises (check_action fs) s e
  unfolding check_action
  check_action-Raises fs s bad = elim (Bool-cases (denies fs)) [
    | inl deny ↦ (
      refusal deny_drift,
      rw deny (
          bind_Raises_after deny_opt_in _ s (is_opted (s.disk marker) (s.disk state))
            (refusal deny_drift) (deny_opt_in-Returns s)
            (require-Raises (is_opted (s.disk marker) (s.disk state)) deny_drift s
              (rw deny at bad))),
    )
    | inr other ↦ (
      refusal allow_drift,
      rw other (
          require-Raises (get_is (is_str "allow") "DefaultAction" fs) allow_drift s
            (rw other at bad)),
    )
  ]

  -- A config that is read, at this address and with proc.
  pub record IsLive (address : String) (s : System) (fs : Fields) : Type 0 where
    pub node : Node
    pub server : Fields
    pub is_config : s.disk config ≡ some node
    pub is_document : load_json node.bytes ≡ ok (obj fs)
    pub is_server : get_dict "Server" fs ≡ ok server
    pub same_address : get_is (is_str address) "Address" server ≡ true

  module _ (address : String) (s : System) (fs : Fields) (live : IsLive address s fs) where
    -- What the check still has to do behind the address.
    abbrev rest : M Fields
    rest = check_action fs >>= λ _.
        require (get_is (is_str "proc") "ProcMonitorMethod" fs) proc_drift >>= λ _. pure fs

    -- Up to the address all checks return.
    config_contract-rest : config_contract address (at_system s []) ≡ rest (at_system s [])
    unfolding config_contract
    config_contract-rest =
        bind_step (read_bytes config) _ s live.node.bytes s
          (read_bytes_Returns config s live.node live.is_config)
        ∙ bind_step (lift (load_json live.node.bytes)) _ s (obj fs) s
            (lift-Returns (load_json live.node.bytes) s (obj fs) live.is_document)
        ∙ bind_step (lift (as_dict (obj fs))) _ s fs s (lift-Returns (as_dict (obj fs)) s fs refl)
        ∙ bind_step (lift (get_dict "Server" fs)) _ s live.server s
            (lift-Returns (get_dict "Server" fs) s live.server live.is_server)
        ∙ bind_step (require (get_is (is_str address) "Address" live.server) address_drift)
            (λ _. rest) s tt s
            (require-Returns (get_is (is_str address) "Address" live.server) address_drift s
              live.same_address)

    -- Without faults the readiness check of a config with this address and with proc returns it if it
    -- allows, or denies beside the marker of a confirmed trial and no state file but one of that trial
    -- that is not pending; otherwise it raises.
    pub config_contract-decides :
        get_is (is_str "proc") "ProcMonitorMethod" fs ≡ true
        → (is_accepted fs s ≡ true → Returns (config_contract address) s fs s)
          × (is_accepted fs s ≡ false → (e : Error) × Raises (config_contract address) s e)
    config_contract-decides proc = (
      λ good.
          config_contract-rest
          ∙ bind_Returns (check_action fs) _ s tt s fs s (check_action-Returns fs s good) (
              bind_Returns (require (get_is (is_str "proc") "ProcMonitorMethod" fs) proc_drift) _ s
                tt s fs s
                (require-Returns (get_is (is_str "proc") "ProcMonitorMethod" fs) proc_drift s proc)
                (pure-Returns s fs)),
      λ bad.
          let (e, raises) = check_action-Raises fs s bad in
          (e, config_contract-rest ∙ bind_Raises (check_action fs) _ s e raises),
    )
