-- ===== src/Deny/Report.antt =====
-- system_files/usr/libexec/bazzite-tower-snitchwatch-deny: what stands against a trial (`inspect`),
-- the report of `status` and the snapshot that the GUI reads.
use bazzite_tower.Prelude.{
  ℕ, String, ◌<>◌, Bool, true, false, ◌&&◌, not, Option, none, some, List, [], ◌∷◌, ◌++◌, ltb, ◌==◌,
  ◌=s=◌, if◌then◌else◌, Json, str, obj, Fields, get_field, get_is, is_str, Result, ok, err,
  error_text, type_error,
}
use bazzite_tower.Deny.System.{Node, bridge_socket, Host}
use bazzite_tower.Deny.Run.{M, pure, lift, catch, ◌>>=◌}
use bazzite_tower.Deny.Files.{is_socket, lookup, read_config, service_active, utcnow}
use bazzite_tower.Deny.Record.{is_pending, expires_at}
use bazzite_tower.Deny.Edit.{Action, allow, deny, other, current_action}

pub data Profile : Type 0 where
  unknown system legacy : Profile

pub record Findings : Type 0 where
  pub profile : Profile
  pub action : Action
  pub blockers : List String

abbrev unreadable : String → String
unreadable reason = "config is not the expected root-owned file: " <> reason

abbrev action_blocker : Action → List String
action_blocker allow = []
action_blocker deny = "current DefaultAction is deny; opt-in requires allow" ∷ []
action_blocker other = "current DefaultAction is not allow/deny; opt-in requires allow" ∷ []

abbrev monitor_blocker : Fields → List String
monitor_blocker fs =
    if get_is (is_str "proc") "ProcMonitorMethod" fs
    then []
    else "ProcMonitorMethod is not proc; opt-in requires proc" ∷ []

abbrev socket_safe : Option Node → Bool
socket_safe none = false
socket_safe (some n) = is_socket n.kind && ((n.uid == 0) && (n.mode == 0o600))

unfoldable pub with_blocker : Bool → String → Findings → Findings
with_blocker true b f = record f { blockers = f.blockers ++ (b ∷ []) }
with_blocker false b f = f

abbrev pub pending_blocker : Bool → String
pending_blocker true =
    "an expired deny trial is still pending (its revert did not complete); run: ujust snitchwatch-deny off"
pending_blocker false = "a deny trial is already pending; confirm or off first"

abbrev pub confirmed_blocker : String
confirmed_blocker = "deny is already confirmed; run off first"

module _ ⦃host : Host⦄ where
  -- `json.loads(data).get("Server", {}).get("Address")`
  abbrev pub address_of : Fields → Result (Option Json)
  address_of fs = elim (get_field "Server" fs) [
    | none ↦ ok none
    | some (obj server) ↦ ok (get_field "Address" server)
    | some _ ↦ err (type_error "Server has no attribute 'get'")
  ]

  abbrev pub unknown_address : Option Json → Profile × List String
  unknown_address a = (
    unknown,
    ("unknown profile: Server.Address is "
          <> host.repr a
          <> "; only unix:opensnitchd.sock is supported")
        ∷ [],
  )

  abbrev pub profile_of : Option Json → Profile × List String
  profile_of (some (str a)) =
      if a =s= "unix:opensnitchd.sock"
      then (system, [])
      else if a =s= "127.0.0.1:50051"
      then (
        legacy,
        "legacy TCP profile (127.0.0.1:50051) is squat-able (issue #35); move to the system profile first"
            ∷ [],
      )
      else unknown_address (some (str a))
  profile_of a = unknown_address a

  abbrev pub of_address : Action → Fields → Result (Option Json) → Findings
  of_address action fs (err e) = record {
    profile = unknown;
    action = action;
    blockers = unreadable (error_text e) ∷ [];
  }
  of_address action fs (ok a) =
      let (profile, blockers) = profile_of a in
      record {
        profile = profile;
        action = action;
        blockers = blockers ++ (action_blocker action ++ monitor_blocker fs);
      }

  -- The body of the `try`, behind `read_config`.
  abbrev pub of_document : Action → Option Json → Findings
  of_document action (some (obj fs)) = of_address action fs (address_of fs)
  of_document action _ = record {
    profile = unknown;
    action = action;
    blockers = unreadable "not a JSON dict" ∷ [];
  }

  unfoldable pub config_findings : List ℕ → Findings
  unfolding current_action
  config_findings bytes = of_document (current_action bytes) (host.loads bytes)

  unfoldable pub inspect : M Findings
  unfolding read_config lookup service_active
  inspect = do
    f ←
        catch (do (bytes, _) ← read_config; pure (config_findings bytes))
          (λ e. pure (record {
            profile = unknown;
            action = other;
            blockers = unreadable (error_text e) ∷ [];
          }))
    active ← service_active
    info ← lookup bridge_socket
    pure (
        with_blocker (not (socket_safe info))
          "root-only bridge socket /run/snitchwatch/opensnitchd.sock is missing or unsafe"
          (with_blocker (not active) "opensnitch.service is not active" f))

  -- `utcnow() > parse_stamp(state["expiresAt"])` for a pending state
  abbrev expired_at : ℕ → Option Fields → Result Bool
  expired_at now none = ok false
  expired_at now (some fs) = elim (is_pending fs) [
    | false ↦ ok false
    | true ↦ elim (expires_at fs) [ ok t ↦ ok (ltb t now) | err e ↦ err e ]
  ]

  unfoldable pub is_expired : Option Fields → M Bool
  unfolding utcnow expires_at
  is_expired st = do now ← utcnow; lift (expired_at now st)
