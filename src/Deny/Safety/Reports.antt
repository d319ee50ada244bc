-- ===== src/Deny/Safety/Reports.antt =====
-- `inspect`, the opt-in test and the report only read, and the snapshot writes one path.
use bazzite_tower.Prelude.{Option, none, some, Fields}
use bazzite_tower.Deny.System.{System, Node, Place, snapshot, Host}
use bazzite_tower.Deny.Run.Triple.{Keeps}
use bazzite_tower.Deny.Run.Keeps.{keeps_rules, forget-Keeps, if_Keeps, bind-Keeps, pure-Keeps}
use bazzite_tower.Deny.Files.{lookup, present, stat, read_bytes, read_config}
use bazzite_tower.Deny.State.{load_state, regular_root_json, with_marker, deny_opt_in}
use bazzite_tower.Deny.Report.{inspect, is_expired}
use bazzite_tower.Deny.Snapshot.{build_report, publish_snapshot}
use bazzite_tower.Deny.Safety.Calls.{
  present_lem, stat_lem, read_bytes_lem, read_config_lem, service_active_lem,
}
use bazzite_tower.Deny.Safety.Private.{load_state_lem}
use bazzite_tower.Deny.Safety.Writes.{
  put, publish-Keeps, boot_id-Keeps, utcnow-Keeps, geteuid-Keeps,
}

module _ (P : System → Type 0) where
  pub lookup-Keeps : (p : Place) → Keeps P (lookup p)
  unfolding lookup
  lookup-Keeps p = search keeps_rules

  pub present-Keeps : (p : Place) → Keeps P (present p)
  present-Keeps p = forget-Keeps P _ (present_lem P p) (λ a s h. h.0)

  pub stat-Keeps : (p : Place) → Keeps P (stat p)
  stat-Keeps p = forget-Keeps P _ (stat_lem P p) (λ a s h. h.0)

  pub read_bytes-Keeps : (p : Place) → Keeps P (read_bytes p)
  read_bytes-Keeps p = forget-Keeps P _ (read_bytes_lem P p) (λ a s h. h.0)

  pub read_config-Keeps : Keeps P read_config
  read_config-Keeps = forget-Keeps P _ (read_config_lem P) (λ a s h. h.0)

pub ruleset read_rules = (
  keeps_rules, lookup-Keeps, present-Keeps, stat-Keeps, read_bytes-Keeps, read_config-Keeps,
  service_active_lem, boot_id-Keeps, utcnow-Keeps, geteuid-Keeps,
)

module _ ⦃host : Host⦄ (P : System → Type 0) where
  pub load_state-Keeps : Keeps P load_state
  load_state-Keeps = forget-Keeps P _ (load_state_lem P) (λ a s h. h.0)

  pub inspect-Keeps : Keeps P inspect
  unfolding inspect
  inspect-Keeps = search read_rules depth 7

  pub is_expired-Keeps : (st : Option Fields) → Keeps P (is_expired st)
  unfolding is_expired
  is_expired-Keeps st = search read_rules

  pub regular_root_json-Keeps : (p : Place) → Keeps P (regular_root_json p)
  unfolding regular_root_json
  regular_root_json-Keeps p = search read_rules depth 7

  with_marker-Keeps : (m : Option Fields) → Keeps P (with_marker m)
  unfolding with_marker
  with_marker-Keeps none = search read_rules
  with_marker-Keeps (some m) = search (read_rules, regular_root_json-Keeps) depth 8

  pub deny_opt_in-Keeps : Keeps P deny_opt_in
  unfolding deny_opt_in
  deny_opt_in-Keeps = search (read_rules, regular_root_json-Keeps, with_marker-Keeps)

pub ruleset report_rules =
    (read_rules, load_state-Keeps, inspect-Keeps, is_expired-Keeps, deny_opt_in-Keeps)

module _ ⦃host : Host⦄ (P : System → Type 0) where
  pub build_report-Keeps : Keeps P build_report
  unfolding build_report
  build_report-Keeps = search report_rules depth 8

  pub publish_snapshot-Keeps :
      ((n : Option Node) (s : System) → P s → P (put snapshot n s)) → Keeps P publish_snapshot
  unfolding publish_snapshot
  publish_snapshot-Keeps k = search (report_rules, build_report-Keeps, publish-Keeps) depth 12
