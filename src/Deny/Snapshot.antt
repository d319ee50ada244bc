-- ===== src/Deny/Snapshot.antt =====
-- system_files/usr/libexec/bazzite-tower-snitchwatch-deny, `build_report`, `write_snapshot` and
-- `publish_snapshot`: the report of `status --json`, and its copy for the GUI.
use Prim.Native.Nat.{bit_and}
use bazzite_tower.Prelude.{
  String, Bool, ◌&&◌, Option, none, some, List, [], ◌∷◌, ◌==◌, if◌then◌else◌, is_empty, Json, null,
  bool, num, str, arr, obj, Items, nil, cons, Fields, end, field, item, Result, ok,
}
use bazzite_tower.Deny.System.{snapshot_dir, snapshot, Host}
use bazzite_tower.Deny.Run.{M, pure, lift, catch, ◌>>=◌, ◌>>◌, require}
use bazzite_tower.Deny.Files.{is_directory, stat, root_with, publish, boot_id, utcnow, geteuid}
use bazzite_tower.Deny.Record.{has_pending, stamp}
use bazzite_tower.Deny.State.{load_state, deny_opt_in}
use bazzite_tower.Deny.Edit.{name_of}
use bazzite_tower.Deny.Report.{
  Profile, unknown, system, legacy, Findings, with_blocker, inspect, is_expired, pending_blocker,
  confirmed_blocker,
}

abbrev profile_name : Profile → String
profile_name unknown = "unknown"
profile_name system = "system"
profile_name legacy = "legacy"

abbrev texts : List String → Items
texts [] = nil
texts (s ∷ ss) = cons (str s) (texts ss)

abbrev or_null : Option Json → Json
or_null none = null
or_null (some j) = j

-- `state["expiresAt"] if pending else None`
abbrev expires_field : Option Fields → Result Json
expires_field none = ok null
expires_field (some fs) = if has_pending (some fs) then item "expiresAt" fs else ok null

-- The dict of the report, with the fields that stand behind it.
abbrev report_fields : Findings → Bool → Bool → Json → Bool → Fields → Fields
report_fields f opt_in pending expires expired more = field "schema" (num 1) (
    field "profile" (str (profile_name f.profile)) (
      field "defaultAction" (str (name_of f.action)) (
        field "optIn" (bool opt_in) (
          field "pending" (bool pending) (
            field "expiresAt" expires (
              field "canEnable" (bool (is_empty f.blockers)) (
                field "blockers" (arr (texts f.blockers))
                  (field "expired" (bool expired) more))))))))

abbrev pub text_or_null : Option String → Json
text_or_null none = null
text_or_null (some s) = str s

module _ ⦃host : Host⦄ where
  -- The report, as a function of the fields that stand behind its own.
  unfoldable pub build_report : M (Fields → Fields)
  build_report = do
    found_now ← inspect
    st ← load_state
    let pending = has_pending st
    expired ← is_expired st
    opt_in ← deny_opt_in
    expires ← lift (expires_field st)
    let f =
        with_blocker opt_in confirmed_blocker
          (with_blocker pending (pending_blocker expired) found_now)
    pure (report_fields f opt_in pending expires expired)

  unfoldable pub write_snapshot : M (Unit {0})
  unfolding build_report stat geteuid publish
  write_snapshot = do
    info ← stat snapshot_dir
    euid ← geteuid
    require (is_directory info.kind && ((info.uid == euid) && (bit_and info.mode 0o022 == 0)))
        "/run/snitchwatch must be a root-owned, non-writable directory"
    report ← build_report
    now ← utcnow
    boot ← boot_id
    let fields =
        report (field "updatedAt" (str (stamp now)) (field "bootId" (text_or_null boot) end))
    publish snapshot (host.dumps (obj fields)) (root_with 0o644) none

  -- Best effort: a failure is only reported.
  unfoldable pub publish_snapshot : M (Unit {0})
  unfolding write_snapshot
  publish_snapshot = catch write_snapshot (λ _. pure tt)
