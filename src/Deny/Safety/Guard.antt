-- ===== src/Deny/Safety/Guard.antt =====
-- The boot guard, the policy lock and the command line keep the invariant.
use bazzite_tower.Prelude.{
  ℕ, leb, Bool, true, false, Option, none, some, Fields, Error, zero, suc, ◌==◌, file_not_found,
  refusal, busy, key_error, value_error, type_error, os_error, subprocess_error,
}
use bazzite_tower.Deny.System.{Place, System, Host, IsLawful, marker}
use bazzite_tower.Deny.Run.{M, ◌>>=◌}
use bazzite_tower.Deny.Run.Triple.{Triple, Keeps, Triple-bind, Triple-change, Triple-weaken}
use bazzite_tower.Deny.Run.Keeps.{
  keeps_rules, bind-Keeps, if_Keeps, pure-Keeps, raise-Keeps, ask-Keeps, catch-Keeps, require-Keeps,
}
use bazzite_tower.Deny.Files.{unlink, stop_timer, call_error}
use bazzite_tower.Deny.Record.{has_pending}
use bazzite_tower.Deny.Snapshot.{write_snapshot}
use bazzite_tower.Deny.Commands.{revert_if_pending}
use bazzite_tower.Deny.Main.{
  holders, clock, sleep, timed_out, unfinished, wait_for_lock, try_lock, policy_lock, is_load_error,
  is_expected, lexists, move_aside, protect_aside, recover_bad_state, should_revert,
  guard_should_revert, probe, guarded_revert, second_look, first_look, boot_guard, publish_failed,
  publish_status, Command, status, publish_snapshot, confirm_trial, off, on, revert, perform, main,
}
use bazzite_tower.Deny.Safety.Views.{Safe, NotDeny, NotDeny-Safe}
use bazzite_tower.Deny.Safety.Writes.{
  unlink-Keeps, stop_timer-Keeps, publish-Keeps, boot_id-Keeps, geteuid-Keeps,
}
use bazzite_tower.Deny.Safety.Reports.{report_rules, load_state-Keeps, build_report-Keeps}
use bazzite_tower.Deny.Safety.Off.{NotDeny-IsOfFiles, Triple-end, restore_lem}
use bazzite_tower.Deny.Safety.On.{turn_on_lem}
use bazzite_tower.Deny.Safety.Confirm.{off-Keeps, confirm_lem}

-- What the lock's wait changes: the clock, and how long another writer holds the lock.
pub record IsOfDisk (P : System → Type 0) : Type 0 where
  pub on_wait : (held now : ℕ) (s : System) → P s → P (record s { held = held; now = now })

module _ (P : System → Type 0) (f : IsOfDisk P) where
  holders-Keeps : Keeps P holders
  unfolding holders
  holders-Keeps = record { at = λ r h. (pure-Keeps P r.sys.held).at r h }

  sleep-Keeps : Keeps P sleep
  unfolding sleep
  sleep-Keeps = record { at = λ r h. (pure-Keeps P tt).at _ (f.on_wait _ _ r.sys h) }

  poll-Keeps :
      (b : Bool) (m k : M (Unit {0}))
      → Keeps P m
      → Keeps P k
      → Keeps P (elim b [ true ↦ m | false ↦ k ])
  poll-Keeps true m k x y = x
  poll-Keeps false m k x y = y

  clock-Keeps : Keeps P clock
  unfolding clock
  clock-Keeps = record { at = λ r h. (pure-Keeps P r.sys.now).at r h }

  wait_for_lock-Keeps : (deadline fuel : ℕ) → Keeps P (wait_for_lock deadline fuel)
  unfolding wait_for_lock
  wait_for_lock-Keeps deadline zero = raise-Keeps P unfinished
  wait_for_lock-Keeps deadline (suc fuel) = bind-Keeps P _ _ holders-Keeps (λ n.
      poll-Keeps (n == 0) _ _ (pure-Keeps P tt) (
        bind-Keeps P _ _ clock-Keeps (λ now.
          poll-Keeps (leb deadline now) _ _ (raise-Keeps P timed_out)
            (bind-Keeps P _ _ sleep-Keeps (λ _. wait_for_lock-Keeps deadline fuel)))))

  policy_lock-Keeps : (wait : Bool) → Keeps P (policy_lock wait)
  unfolding policy_lock try_lock
  policy_lock-Keeps wait =
      search (keeps_rules, holders-Keeps, clock-Keeps, wait_for_lock-Keeps) depth 10

lexists-Keeps : (P : System → Type 0) (p : Place) → Keeps P (lexists p)
unfolding lexists
lexists-Keeps P p = search keeps_rules

module _ ⦃host : Host⦄ where
  Safe-IsOfDisk : IsOfDisk Safe
  Safe-IsOfDisk = record { on_wait = λ held now s h. h }

  lock-Keeps : (wait : Bool) → Keeps Safe (policy_lock wait)
  lock-Keeps wait = policy_lock-Keeps Safe Safe-IsOfDisk wait

  move_aside-Keeps : Keeps NotDeny move_aside
  unfolding move_aside
  move_aside-Keeps =
      Triple-change _ _ (λ x s h. record { not_deny = h.not_deny; backed = tt }) (λ s h. h)
        (λ s h. record { not_deny = h.not_deny; backed = tt })

  protect_aside-Keeps : Keeps NotDeny protect_aside
  unfolding protect_aside
  protect_aside-Keeps =
      bind-Keeps NotDeny _ _ (ask-Keeps NotDeny call_error (λ s. tt))
        (λ _. Triple-change _ _ (λ x s h. h) (λ s h. h) (λ s h. h))

  unlink_marker-Keeps : Keeps NotDeny (unlink marker)
  unlink_marker-Keeps = unlink-Keeps NotDeny marker (λ n s h. h)

  timer-Keeps : Keeps NotDeny stop_timer
  timer-Keeps = stop_timer-Keeps NotDeny NotDeny-IsOfFiles

  -- The quarantine of a bad state leaves a config that does not deny.
  pub recover_bad_state_lem : Triple Safe recover_bad_state (λ _. NotDeny) Safe
  unfolding recover_bad_state
  recover_bad_state_lem = Triple-bind _ _ (restore_lem none tt) (λ _. Triple-end _ NotDeny-Safe (
      search
        (
          keeps_rules, lexists-Keeps, move_aside-Keeps, protect_aside-Keeps, unlink_marker-Keeps,
          timer-Keeps,
        )
        depth 12))

  recover-Keeps : Keeps Safe recover_bad_state
  recover-Keeps =
      Triple-weaken _ (λ s h. h) (λ a s h. NotDeny-Safe s h) (λ s h. h) recover_bad_state_lem

  revert_if_pending-Keeps : (boot : Bool) → Keeps Safe (revert_if_pending boot)
  unfolding revert_if_pending
  revert_if_pending-Keeps boot =
      bind-Keeps Safe _ _ (load_state-Keeps Safe)
        (λ st. if_Keeps Safe (has_pending st) _ _ (off-Keeps boot) (pure-Keeps Safe tt))

  should_revert-Keeps : (st : Option Fields) → Keeps Safe (should_revert st)
  unfolding should_revert
  should_revert-Keeps none = pure-Keeps Safe false
  should_revert-Keeps (some fs) =
      if_Keeps Safe (has_pending (some fs)) _ _
        (bind-Keeps Safe _ _ (boot_id-Keeps Safe) (λ b. pure-Keeps Safe _)) (pure-Keeps Safe false)

  guard_should_revert-Keeps : Keeps Safe guard_should_revert
  unfolding guard_should_revert
  guard_should_revert-Keeps =
      bind-Keeps Safe _ _ (load_state-Keeps Safe) (λ st. should_revert-Keeps st)

  probe-Keeps : Keeps Safe probe
  unfolding probe
  probe-Keeps =
      catch-Keeps Safe _ _ (bind-Keeps Safe _ _ (load_state-Keeps Safe) (λ _. pure-Keeps Safe none))
        (λ e. if_Keeps Safe (is_load_error e) _ _ (pure-Keeps Safe (some e)) (raise-Keeps Safe e))

  guarded_revert-Keeps : Keeps Safe guarded_revert
  unfolding guarded_revert
  guarded_revert-Keeps =
      bind-Keeps Safe _ _ guard_should_revert-Keeps
        (λ go. if_Keeps Safe go _ _ (revert_if_pending-Keeps true) (pure-Keeps Safe tt))

  second_look-Keeps : (e : Option Error) → Keeps Safe (second_look e)
  unfolding second_look
  second_look-Keeps none = guarded_revert-Keeps
  second_look-Keeps (some file_not_found) = pure-Keeps Safe tt
  second_look-Keeps (some (refusal m)) = recover-Keeps
  second_look-Keeps (some busy) = recover-Keeps
  second_look-Keeps (some (value_error m)) = recover-Keeps
  second_look-Keeps (some (key_error m)) = recover-Keeps
  second_look-Keeps (some (type_error m)) = recover-Keeps
  second_look-Keeps (some (os_error m)) = recover-Keeps
  second_look-Keeps (some (subprocess_error m)) = recover-Keeps

  look_again-Keeps : Keeps Safe (policy_lock true >>= λ _. probe >>= second_look)
  look_again-Keeps =
      bind-Keeps Safe _ _ (lock-Keeps true)
        (λ _. bind-Keeps Safe _ _ probe-Keeps (λ again. second_look-Keeps again))

  first_look-Keeps : (e : Option Error) → Keeps Safe (first_look e)
  unfolding first_look
  first_look-Keeps none = bind-Keeps Safe _ _ guard_should_revert-Keeps (λ go.
      if_Keeps Safe go _ _
        (bind-Keeps Safe _ _ (lock-Keeps true) (λ _. revert_if_pending-Keeps true))
        (pure-Keeps Safe tt))
  first_look-Keeps (some file_not_found) = pure-Keeps Safe tt
  first_look-Keeps (some (refusal m)) = look_again-Keeps
  first_look-Keeps (some busy) = look_again-Keeps
  first_look-Keeps (some (value_error m)) = look_again-Keeps
  first_look-Keeps (some (key_error m)) = look_again-Keeps
  first_look-Keeps (some (type_error m)) = look_again-Keeps
  first_look-Keeps (some (os_error m)) = look_again-Keeps
  first_look-Keeps (some (subprocess_error m)) = look_again-Keeps

  pub boot_guard-Keeps : Keeps Safe boot_guard
  unfolding boot_guard
  boot_guard-Keeps = bind-Keeps Safe _ _ probe-Keeps (λ r. first_look-Keeps r)

  publish_failed-Keeps : (e : Error) → Keeps Safe (publish_failed e)
  publish_failed-Keeps busy = pure-Keeps Safe tt
  publish_failed-Keeps (refusal m) = raise-Keeps Safe _
  publish_failed-Keeps (value_error m) = raise-Keeps Safe _
  publish_failed-Keeps (key_error m) = raise-Keeps Safe _
  publish_failed-Keeps (type_error m) = raise-Keeps Safe _
  publish_failed-Keeps file_not_found = raise-Keeps Safe _
  publish_failed-Keeps (os_error m) = raise-Keeps Safe _
  publish_failed-Keeps (subprocess_error m) = raise-Keeps Safe _

  write_snapshot-Keeps : Keeps Safe write_snapshot
  unfolding write_snapshot
  write_snapshot-Keeps = search (report_rules, build_report-Keeps, publish-Keeps) depth 12

  publish_status-Keeps : Keeps Safe publish_status
  unfolding publish_status
  publish_status-Keeps =
      catch-Keeps Safe _ publish_failed
        (bind-Keeps Safe _ _ (lock-Keeps false) (λ _. write_snapshot-Keeps)) publish_failed-Keeps

  module _ (law : IsLawful host) where
    perform-Keeps : (c : Command) → Keeps Safe (perform c)
    unfolding perform
    perform-Keeps status = bind-Keeps Safe _ _ (build_report-Keeps Safe) (λ _. pure-Keeps Safe tt)
    perform-Keeps publish_snapshot = publish_status-Keeps
    perform-Keeps confirm_trial = bind-Keeps Safe _ _ (lock-Keeps false) (λ _. confirm_lem law)
    perform-Keeps off = bind-Keeps Safe _ _ (lock-Keeps true) (λ _. off-Keeps false)
    perform-Keeps (on minutes) =
        bind-Keeps Safe _ _ (lock-Keeps false) (λ _. turn_on_lem law minutes)
    perform-Keeps (revert true) = boot_guard-Keeps
    perform-Keeps (revert false) =
        bind-Keeps Safe _ _ (lock-Keeps true) (λ _. revert_if_pending-Keeps false)

    pub main_lem : (c : Command) → Triple Safe (main c) (λ _. Safe) Safe
    unfolding main
    main_lem c =
        catch-Keeps Safe _ _
          (bind-Keeps Safe _ _ (geteuid-Keeps Safe) (λ uid.
            bind-Keeps Safe _ _ (require-Keeps Safe (uid == 0) _)
              (λ _. bind-Keeps Safe _ _ (perform-Keeps c) (λ _. pure-Keeps Safe 0))))
          (λ e. if_Keeps Safe (is_expected e) _ _ (pure-Keeps Safe 1) (raise-Keeps Safe e))
