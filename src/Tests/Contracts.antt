-- ===== src/Tests/Contracts.antt =====
-- The theorem on the readiness of a live config, on a config that denies with no marker.
use bazzite_tower.Prelude.{◌≡◌, refl, some, [], str, obj, Fields, end, field, ok, Error}
use bazzite_tower.Deny.System.{Node, regular, config, write, System}
use bazzite_tower.Deny.Run.Returns.{Returns, Raises}
use bazzite_tower.Deny.Edit.{load_json, load_json-loads}
use bazzite_tower.Deny.Contract.{config_contract}
use bazzite_tower.Deny.Contract.Decides.{IsLive}
use bazzite_tower.Deny.Contract.Accepts.{Accepts, config_contract-Accepts}
use bazzite_tower.Tests.{dumps_demo, loads-dumps_demo}
use bazzite_tower.Tests.Fixture.{demo_host, before_trial}

abbrev server : Fields
server = field "Address" (str "unix:opensnitchd.sock") end

abbrev denying : Fields
denying =
    field "Server" (obj server)
      (field "DefaultAction" (str "deny") (field "ProcMonitorMethod" (str "proc") end))

abbrev config_node : Node
config_node = record {
  kind = regular;
  uid = 0;
  gid = 0;
  mode = 420;
  xattrs = [];
  bytes = dumps_demo (obj denying);
}

abbrev unconfirmed : System
unconfirmed = record before_trial { disk = write config (some config_node) before_trial.disk }

decoded : load_json (dumps_demo (obj denying)) ≡ ok (obj denying)
decoded = load_json-loads (dumps_demo (obj denying)) (obj denying) (loads-dumps_demo (obj denying))

denying-IsLive : IsLive "unix:opensnitchd.sock" unconfirmed denying
denying-IsLive = record {
  node = config_node;
  server = server;
  is_config = refl;
  is_document = decoded;
  is_server = refl;
  same_address = refl;
}

config_contract-Accepts_example :
    (Accepts denying unconfirmed
      → Returns (config_contract "unix:opensnitchd.sock") unconfirmed denying unconfirmed)
    × (¬ Accepts denying unconfirmed
        → (e : Error) × Raises (config_contract "unix:opensnitchd.sock") unconfirmed e)
config_contract-Accepts_example =
    config_contract-Accepts "unix:opensnitchd.sock" unconfirmed denying denying-IsLive refl
