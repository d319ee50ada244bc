-- ===== src/Deny/Trial.antt =====
-- system_files/usr/libexec/bazzite-tower-snitchwatch-deny: restoring allow, and the commands `on`,
-- `confirm` and `off`.
use bazzite_tower.Prelude.{
  ℕ, ◌+◌, ◌*◌, String, ◌<>◌, Bool, true, false, ◌&&◌, not, Option, none, some, List, [], ◌∷◌,
  is_empty, if◌then◌else◌, bool, num, str, Fields, end, field, get_is, is_str, Error, error_text,
  refusal, busy,
}
use bazzite_tower.Deny.System.{Place, config, state, backup, marker, Host}
use bazzite_tower.Deny.Run.{M, pure, raise, lift, catch, ◌>>=◌, ◌>>◌, require}
use bazzite_tower.Deny.Edit.{allow, deny, is_allow, current_action, set_action}
use bazzite_tower.Deny.Files.{
  Metadata, root_with, present, publish, unlink, private_bytes, make_state_dir, read_config,
  service_active, stop_timer, restart_daemon, start_timer, boot_id, utcnow, random_id,
}
use bazzite_tower.Deny.Record.{second, stamp, has_pending, metadata_json, backup_metadata}
use bazzite_tower.Deny.State.{load_state, save_state, deny_opt_in}
use bazzite_tower.Deny.Report.{
  with_blocker, inspect, is_expired, pending_blocker, confirmed_blocker,
}
use bazzite_tower.Deny.Snapshot.{publish_snapshot, text_or_null}

-- How DefaultAction=allow was restored.
pub data Method : Type 0 where
  already_allow from_backup key_edit : Method

abbrev pub was_allow : Method → Bool
was_allow already_allow = true
was_allow _ = false

abbrev pub method_text : Method → String
method_text already_allow = "already-allow"
method_text from_backup = "backup"
method_text key_edit = "key-edit"

abbrev pub is_refusal : Error → Bool
is_refusal (refusal m) = true
is_refusal busy = true
is_refusal _ = false

-- Removes each of the paths that is there.
unfoldable pub unlink_present : Place → M (Unit {0})
unfolding present unlink
unlink_present p = do here ← present p; if here then unlink p else pure tt

unfoldable pub discard : M (Unit {0})
unfolding unlink_present
discard = do unlink_present marker; unlink_present state; unlink_present backup

abbrev pub joined : List String → String
joined [] = ""
joined (s ∷ []) = s
joined (s ∷ t ∷ ss) = s <> ("; " <> joined (t ∷ ss))

unfoldable pub note_of_restart : M String
unfolding restart_daemon
note_of_restart =
    catch (do restart_daemon; pure "")
      (λ e. pure ("; restart after restore failed: " <> error_text e))

module _ ⦃host : Host⦄ where
  -- The backup, if it can be read safely; only a Refusal counts as no backup.
  unfoldable pub read_backup : M (Option (List ℕ))
  unfolding private_bytes
  read_backup =
      catch (do bytes ← private_bytes backup "deny backup"; pure (some bytes))
        (λ e. if is_refusal e then pure none else raise e)

  unfoldable pub backup_of : Option Fields → M (Option (List ℕ))
  unfolding present read_backup
  backup_of none = pure none
  backup_of (some fs) = do here ← present backup; if here then read_backup else pure none

  -- The hashes that the state recorded are those of the backup and of the live config.
  abbrev pub hashes_match : Fields → List ℕ → List ℕ → Bool
  hashes_match fs bytes live =
      get_is (is_str (host.sha256 bytes)) "backupSha256" fs
      && get_is (is_str (host.sha256 live)) "denySha256" fs

  -- Flips only the key.
  unfoldable pub edit_key : List ℕ → Metadata → M Method
  unfolding set_action publish
  edit_key live metadata = do
    edited ← lift (set_action live allow)
    publish config edited metadata (some live)
    pure key_edit

  unfoldable pub restore_backup : Fields → List ℕ → List ℕ → M Method
  unfolding backup_metadata publish
  restore_backup fs bytes live = do
    metadata ← lift (backup_metadata fs)
    publish config bytes metadata (some live)
    pure from_backup

  unfoldable pub restore_with : Option Fields → Option (List ℕ) → List ℕ → Metadata → M Method
  unfolding edit_key restore_backup
  restore_with (some fs) (some bytes) live metadata =
      if hashes_match fs bytes live then restore_backup fs bytes live else edit_key live metadata
  restore_with _ _ live metadata = edit_key live metadata

  unfoldable pub restore_allow : Option Fields → M Method
  unfolding read_config current_action backup_of restore_with
  restore_allow st = do
    (live, metadata) ← read_config
    if is_allow (current_action live)
        then pure already_allow
        else (do b ← backup_of st; restore_with st b live metadata)

  -- The state file of a new trial.
  abbrev pub trial_state : String → ℕ → ℕ → List ℕ → Metadata → List ℕ → Option String → Fields
  trial_state id now minutes bytes metadata denied boot = field "schema" (num 1) (
      field "id" (str id) (
        field "pending" (bool true) (
          field "createdAt" (str (stamp now)) (
            field "minutes" (num minutes) (
              field "expiresAt" (str (stamp (now + minutes * (60 * second)))) (
                field "backupSha256" (str (host.sha256 bytes)) (
                  field "backupMetadata" (metadata_json metadata) (
                    field "denySha256" (str (host.sha256 denied))
                      (field "bootId" (text_or_null boot) end)))))))))

  -- Restores and discards; tells whether the daemon may run on another config, and a note.
  unfoldable pub undo : Fields → M (Bool × String)
  unfolding restore_allow discard
  undo fs =
      catch
        (do
          method ← restore_allow (some fs)
          discard
          pure (
            not (was_allow method),
            "DefaultAction restored to allow (" <> (method_text method <> ")"),
          ))
        (λ e. pure (
          true,
          "RESTORE FAILED ("
              <> (error_text e <> "); trial left pending so the timer/boot guard retries"),
        ))

  -- The handler of `turn_on`, which ends in a Refusal. `invoked`: a timer may exist.
  unfoldable pub roll_back : Fields → Bool → Error → M (Unit {0})
  unfolding undo note_of_restart publish_snapshot
  roll_back fs invoked cause = do
    (changed, note) ← undo fs
    if invoked then catch stop_timer (λ _. pure tt) else pure tt
    more ← if changed then note_of_restart else pure ""
    publish_snapshot
    raise (
        refusal (
          "deny trial failed and was rolled back: "
          <> (error_text cause <> ("; " <> (note <> more)))))

  -- The `try` body of `turn_on` before `invoked` is set, and behind it.
  unfoldable pub prepare : List ℕ → Fields → M (Unit {0})
  unfolding make_state_dir publish save_state
  prepare bytes fs = do make_state_dir; publish backup bytes (root_with 0o600) none; save_state fs

  unfoldable pub switch : List ℕ → List ℕ → Metadata → M (Unit {0})
  unfolding start_timer publish restart_daemon service_active
  switch bytes denied metadata = do
    start_timer
    publish config denied metadata (some bytes)
    restart_daemon
    active ← service_active
    require active "opensnitch.service is not active after restart"

  unfoldable pub start_trial : List ℕ → List ℕ → Metadata → Fields → M (Unit {0})
  unfolding prepare switch roll_back publish_snapshot
  start_trial bytes denied metadata fs = do
    catch (prepare bytes fs) (roll_back fs false)
    catch (switch bytes denied metadata) (roll_back fs true)
    publish_snapshot

  -- `blockers`, with those that the state and the marker add
  unfoldable pub trial_blockers : M (List String)
  unfolding inspect load_state is_expired deny_opt_in
  trial_blockers = do
    f ← inspect
    st ← load_state
    expired ← is_expired st
    opt_in ← deny_opt_in
    pure
        (with_blocker opt_in confirmed_blocker
          (with_blocker (has_pending st) (pending_blocker expired) f)).blockers

  unfoldable pub turn_on : ℕ → M (Unit {0})
  unfolding trial_blockers read_config set_action boot_id utcnow random_id start_trial
  turn_on minutes = do
    blockers ← trial_blockers
    require (is_empty blockers) ("cannot enable deny: " <> joined blockers)
    (bytes, metadata) ← read_config
    denied ← lift (set_action bytes deny)
    now ← utcnow
    id ← random_id
    boot ← boot_id
    start_trial bytes denied metadata (trial_state id now minutes bytes metadata denied boot)
