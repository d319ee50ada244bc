-- ===== src/Deny/Main.antt =====
-- system_files/usr/libexec/bazzite-tower-snitchwatch-deny: the boot guard, the policy lock and the
-- command line.
pub mod Lock
use bazzite_tower.Prelude.{
  ℕ, zero, suc, ◌+◌, ◌-◌, String, ◌<>◌, Bool, true, false, ◌&&◌, ◌||◌, not, Option, none, some,
  List, [], ◌∷◌, ◌++◌, leb, ◌==◌, ◌=s=◌, if◌then◌else◌, Json, str, Fields, get_field, Error, Result,
  ok, err, error_text, refusal, busy, value_error, key_error, type_error, os_error, file_not_found,
  subprocess_error,
}
use bazzite_tower.Deny.System.{Node, Place, config, state, marker, write, System, Host}
use bazzite_tower.Deny.Run.{Run, M, pure, raise, ask, lift, change, catch, ◌>>=◌, ◌>>◌, require}
use bazzite_tower.Deny.Files.{is_regular, is_some, unlink, stop_timer, boot_id, call_error, geteuid}
use bazzite_tower.Deny.Record.{has_pending}
use bazzite_tower.Deny.State.{load_state}
use bazzite_tower.Deny.Snapshot.{build_report, write_snapshot}
use bazzite_tower.Deny.Trial.{is_refusal, restore_allow, turn_on}
use bazzite_tower.Deny.Commands.{turn_off, confirm, revert_if_pending}

-- LOCK_TIMEOUT and LOCK_POLL, in microseconds
abbrev pub lock_timeout : ℕ
lock_timeout = 30000000

abbrev pub lock_poll : ℕ
lock_poll = 100000

-- LOCK_TIMEOUT over LOCK_POLL
abbrev pub polls : ℕ
polls = 300

unfoldable pub holders : M ℕ
holders r = pure r.sys.held r

-- `time.monotonic()`; only its differences count.
unfoldable pub clock : M ℕ
clock r = pure r.sys.now r

-- One sleep of LOCK_POLL seconds, in which another holder comes a poll nearer to its end.
unfoldable pub sleep : M (Unit {0})
sleep r =
    pure tt (record r { sys = record r.sys { held = r.sys.held - 1; now = r.sys.now + lock_poll } })

abbrev pub timed_out : Error
timed_out =
    refusal
      "timed out after 30.0s waiting for the policy lock; nothing was changed and any pending trial is kept; retry: /usr/libexec/bazzite-tower-snitchwatch-deny revert-if-pending"

-- The rounds of the loop are used up, which the source has no error for.
abbrev pub unfinished : Error
unfinished = os_error "unfinished"

-- The loop of `policy_lock` until the deadline; the fuel is the number of its rounds.
unfoldable pub wait_for_lock : ℕ → ℕ → M (Unit {0})
unfolding holders clock sleep
wait_for_lock deadline zero = raise unfinished
wait_for_lock deadline (suc f) = do
  n ← holders
  elim (n == 0) [
    | true ↦ pure tt
    | false ↦ do
      now ← clock
      elim (leb deadline now) [
        | true ↦ raise timed_out
        | false ↦ do sleep; wait_for_lock deadline f
      ]
  ]

unfoldable pub try_lock : M (Unit {0})
unfolding holders
try_lock = do n ← holders; if n == 0 then pure tt else raise busy

-- `with policy_lock(ctx, wait)`; the lock file's own checks are the first call.
unfoldable pub policy_lock : Bool → M (Unit {0})
unfolding clock wait_for_lock try_lock
policy_lock wait = do
  ask (refusal "unsafe policy lock file") (λ s. tt)
  now ← clock
  if wait then wait_for_lock (now + lock_timeout) (suc polls) else try_lock

-- `except (common.Refusal, OSError, ValueError, KeyError)`
abbrev pub is_load_error : Error → Bool
is_load_error (type_error m) = false
is_load_error (subprocess_error m) = false
is_load_error _ = true

-- With `subprocess.TimeoutExpired`, which is the only error of `subprocess` here.
abbrev pub is_expected : Error → Bool
is_expected (type_error m) = false
is_expected _ = true

-- `os.path.lexists`, which is false where the path cannot be read
unfoldable pub lexists : Place → M Bool
lexists p = catch (ask call_error (λ s. is_some (s.disk p))) (λ _. pure false)

abbrev pub pushed : Option Node → List Node → List Node
pushed none ns = ns
pushed (some n) ns = n ∷ ns

-- `unique_aside` takes a name that no file has, so a move aside overwrites nothing.
unfoldable pub move_aside : M (Unit {0})
move_aside =
    change call_error
      (λ _ s. record s { disk = write state none s.disk; asides = pushed (s.disk state) s.asides })

abbrev pub made_private : List Node → List Node
made_private [] = []
made_private (n ∷ ns) = (if is_regular n.kind then record n { mode = 0o600 } else n) ∷ ns

unfoldable pub protect_aside : M (Unit {0})
protect_aside = do
  ask call_error (λ s. tt)
  change call_error (λ _ s. record s { asides = made_private s.asides })

module _ ⦃host : Host⦄ where
  -- Quarantines the state and drops the marker, behind a forced allow.
  unfoldable pub recover_bad_state : M (Unit {0})
  unfolding restore_allow lexists move_aside protect_aside unlink stop_timer
  recover_bad_state = do
    restore_allow none
    bad ← lexists state
    if bad then (do move_aside; protect_aside) else pure tt
    marked ← lexists marker
    if marked then unlink marker else pure tt
    catch stop_timer (λ e. if is_refusal e then pure tt else raise e)

  abbrev pub same_boot : Option String → Fields → Bool
  same_boot none fs = false
  same_boot (some b) fs = elim (get_field "bootId" fs) [ some (str t) ↦ t =s= b | _ ↦ false ]

  unfoldable pub should_revert : Option Fields → M Bool
  unfolding boot_id
  should_revert none = pure false
  should_revert (some fs) =
      if has_pending (some fs) then (do b ← boot_id; pure (not (same_boot b fs))) else pure false

  unfoldable pub guard_should_revert : M Bool
  unfolding load_state should_revert
  guard_should_revert = do st ← load_state; should_revert st

  -- The error of a read of the state that the guard acts on, if it raised one.
  unfoldable pub probe : M (Option Error)
  unfolding load_state
  probe = catch (do load_state; pure none) (λ e. if is_load_error e then pure (some e) else raise e)

  unfoldable pub guarded_revert : M (Unit {0})
  unfolding guard_should_revert revert_if_pending
  guarded_revert = do go ← guard_should_revert; if go then revert_if_pending true else pure tt

  -- What follows the second read, under the lock.
  unfoldable pub second_look : Option Error → M (Unit {0})
  unfolding guarded_revert recover_bad_state
  second_look none = guarded_revert
  second_look (some file_not_found) = pure tt
  second_look (some e) = recover_bad_state

  unfoldable pub first_look : Option Error → M (Unit {0})
  unfolding guard_should_revert policy_lock revert_if_pending probe second_look
  first_look none = do
    go ← guard_should_revert
    if go then (do policy_lock true; revert_if_pending true) else pure tt
  first_look (some file_not_found) = pure tt
  first_look (some e) = do policy_lock true; again ← probe; second_look again

  unfoldable pub boot_guard : M (Unit {0})
  unfolding probe first_look
  boot_guard = do r ← probe; first_look r

  abbrev pub publish_failed : Error → M (Unit {0})
  publish_failed busy = pure tt
  publish_failed e =
      raise (refusal ("could not publish the deny status snapshot: " <> error_text e))

  unfoldable pub publish_status : M (Unit {0})
  unfolding policy_lock write_snapshot
  publish_status = catch (do policy_lock false; write_snapshot) publish_failed

-- `minutes_argument`, of a text that `int` accepts.
unfoldable pub minutes_argument : ℕ → Result ℕ
minutes_argument n =
    if leb 1 n && leb n 60 then ok n else err (value_error "minutes must be between 1 and 60")

pub data Command : Type 0 where
  status publish_snapshot confirm_trial off : Command
  -- `on --revert-after MINUTES`
  on : ℕ → Command
  -- `revert-if-pending`, with `--boot` or without
  revert : Bool → Command

module _ ⦃host : Host⦄ where
  unfoldable pub perform : Command → M (Unit {0})
  unfolding build_report publish_status boot_guard policy_lock turn_on confirm turn_off
      revert_if_pending
  perform status = do build_report; pure tt
  perform publish_snapshot = publish_status
  perform (revert true) = boot_guard
  perform (revert false) = do policy_lock true; revert_if_pending false
  perform (on minutes) = do policy_lock false; turn_on minutes
  perform confirm_trial = do policy_lock false; confirm
  perform off = do policy_lock true; turn_off false

  -- `main`, behind the argument parser; what is caught ends in status 1.
  unfoldable pub main : Command → M ℕ
  unfolding perform minutes_argument geteuid
  main c =
      catch
        (do
          uid ← geteuid
          require (uid == 0)
              "explicit root operator invocation required (sudo); helper never escalates itself"
          perform c
          pure 0)
        (λ e. if is_expected e then pure 1 else raise e)
