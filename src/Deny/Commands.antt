-- ===== src/Deny/Commands.antt =====
-- system_files/usr/libexec/bazzite-tower-snitchwatch-deny: `confirm`, `off`, the boot guard, the
-- policy lock and the command line.
use bazzite_tower.Prelude.{
  ℕ, ◌<>◌, Bool, true, false, ◌&&◌, not, Option, none, some, leb, if◌then◌else◌, Json, bool, num,
  str, obj, Fields, end, field, set_field, item, error_text, refusal,
}
use bazzite_tower.Deny.System.{marker, Host}
use bazzite_tower.Deny.Run.{M, pure, raise, lift, catch, finally, ◌>>=◌, ◌>>◌, require}
use bazzite_tower.Deny.Edit.{is_allow, is_deny, current_action}
use bazzite_tower.Deny.Files.{
  root_with, present, publish, read_config, service_active, stop_timer, restart_daemon, utcnow,
}
use bazzite_tower.Deny.Record.{stamp, has_pending, is_pending, expires_at}
use bazzite_tower.Deny.State.{load_state, save_state}
use bazzite_tower.Deny.Snapshot.{publish_snapshot}
use bazzite_tower.Deny.Trial.{Method, was_allow, method_text, restore_allow, discard}

-- The text of a failed restart behind a restore.
unfoldable pub restart_or_refuse : Method → M (Unit {0})
unfolding restart_daemon
restart_or_refuse method = catch restart_daemon (λ e. raise (
    refusal (
      "DefaultAction restored to allow ("
      <> (method_text method <> (") but restarting opensnitch.service failed: " <> error_text e)))))

module _ ⦃host : Host⦄ where
  unfoldable pub revert : Option Fields → Bool → M (Unit {0})
  unfolding restore_allow discard stop_timer restart_or_refuse
  revert st boot = do
    method ← restore_allow st
    discard
    stop_timer
    if not boot && not (was_allow method) then restart_or_refuse method else pure tt

  -- `bool(state) or ctx.present(MARKER)`
  unfoldable pub has_leftovers : Option Fields → M Bool
  unfolding present
  has_leftovers (some fs) = pure true
  has_leftovers none = present marker

  unfoldable pub turn_off : Bool → M (Unit {0})
  unfolding load_state read_config has_leftovers current_action revert publish_snapshot
  turn_off boot = do
    st ← load_state
    (live, _) ← read_config
    leftovers ← has_leftovers st
    if not leftovers && is_allow (current_action live)
        then pure tt
        else finally (revert st boot) (if boot then pure tt else publish_snapshot)

  unfoldable pub marker_json : Json → ℕ → Json
  marker_json id now =
      obj (field "schema" (num 1) (field "confirmedAt" (str (stamp now)) (field "id" id end)))

  unfoldable pub confirmed : Fields → ℕ → Fields
  confirmed fs now = set_field "confirmedAt" (str (stamp now)) (set_field "pending" (bool false) fs)

  unfoldable pub confirm_live : Fields → M (Unit {0})
  unfolding read_config current_action service_active utcnow marker_json publish save_state
      confirmed stop_timer publish_snapshot
  confirm_live fs = do
    (live, _) ← read_config
    require (is_deny (current_action live)) "live DefaultAction is not deny; cannot confirm"
    active ← service_active
    require active "opensnitch.service is not active; cannot confirm"
    now ← utcnow
    id ← lift (item "id" fs)
    publish marker (host.dumps (marker_json id now)) (root_with 0o644) none
    save_state (confirmed fs now)
    finally stop_timer publish_snapshot

  unfoldable pub confirm_pending : Fields → M (Unit {0})
  unfolding utcnow expires_at turn_off confirm_live
  confirm_pending fs = do
    now ← utcnow
    deadline ← lift (expires_at fs)
    if leb deadline now
        then (do
          turn_off false
          raise (refusal "deny trial expired before confirm; it was reverted to allow"))
        else confirm_live fs

  unfoldable pub confirm_state : Option Fields → M (Unit {0})
  unfolding confirm_pending
  confirm_state none = raise (refusal "no pending deny trial to confirm")
  confirm_state (some fs) =
      if is_pending fs
      then confirm_pending fs
      else raise (refusal "no pending deny trial to confirm")

  unfoldable pub confirm : M (Unit {0})
  unfolding load_state confirm_state
  confirm = do st ← load_state; confirm_state st

  unfoldable pub revert_if_pending : Bool → M (Unit {0})
  unfolding load_state turn_off
  revert_if_pending boot = do st ← load_state; if has_pending st then turn_off boot else pure tt
