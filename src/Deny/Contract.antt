-- ===== src/Deny/Contract.antt =====
-- system_files/usr/libexec/bazzite-tower-snitchwatch-common.py `config_contract`: the live config that
-- the readiness checks accept, beside the files of the deny helper.
pub mod Decides
pub mod Accepts
use bazzite_tower.Prelude.{
  String, Bool, ◌<>◌, some, none, if◌then◌else◌, Json, obj, Fields, end, get_field, as_dict, get_is,
  is_str,
}
use bazzite_tower.Deny.System.{config, Host}
use bazzite_tower.Deny.Run.{M, pure, lift, ◌>>=◌, ◌>>◌, require}
use bazzite_tower.Deny.Edit.{load_json}
use bazzite_tower.Deny.Files.{read_bytes}
use bazzite_tower.Deny.State.{deny_opt_in}
use bazzite_tower.Firewall.Tree.{get_dict}

abbrev pub denies : Fields → Bool
denies fs = get_is (is_str "deny") "DefaultAction" fs

abbrev pub deny_drift : String
deny_drift =
    "DefaultAction drift: deny is accepted only with a confirmed operator opt-in marker and no pending deny trial"

abbrev pub allow_drift : String
allow_drift =
    "DefaultAction drift: system readiness requires allow; deny is an explicit local opt-in"

abbrev pub address_drift : String
address_drift = "live /etc Server.Address drift; use the explicit migration helper"

abbrev pub proc_drift : String
proc_drift = "ProcMonitorMethod drift: system profile requires proc"

module _ ⦃host : Host⦄ where
  unfoldable pub check_action : Fields → M (Unit {0})
  unfolding deny_opt_in
  check_action fs =
      if denies fs
      then (do opted ← deny_opt_in; require opted deny_drift)
      else require (get_is (is_str "allow") "DefaultAction" fs) allow_drift

  unfoldable pub config_contract : String → M Fields
  unfolding read_bytes check_action
  config_contract address = do
    bytes ← read_bytes config
    document ← lift (load_json bytes)
    fs ← lift (as_dict document)
    server ← lift (get_dict "Server" fs)
    require (get_is (is_str address) "Address" server) address_drift
    check_action fs
    require (get_is (is_str "proc") "ProcMonitorMethod" fs) proc_drift
    pure fs
