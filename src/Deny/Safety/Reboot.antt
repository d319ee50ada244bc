-- ===== src/Deny/Safety/Reboot.antt =====
-- The boot guard without faults takes back a trial that a power loss cut short.
use bazzite_tower.Prelude.{
  ℕ, suc, ◌+◌, ◌≡◌, refl, ap, subst, ◌∙◌, true, false, not, none, some, [], ◌==◌, refusal,
}
use bazzite_tower.Deny.System.{state, System, Host}
use bazzite_tower.Deny.Run.{Outcome, done, Run, at_system, pure, ask, change, ◌>>=◌}
use bazzite_tower.Deny.Run.Triple.{Ends}
use bazzite_tower.Deny.Run.Returns.{
  Returns, bind_Returns, catch-Returns, finally-Returns, lift-Returns, then_Returns, ask-Returns,
  change-Returns,
}
use bazzite_tower.Deny.Files.{
  present, private_bytes, read_config, stop_timer, stop_failed, stop_expired, boot_id, call_error,
}
use bazzite_tower.Deny.Record.{parsed_state, has_pending}
use bazzite_tower.Deny.State.{load_state}
use bazzite_tower.Deny.Trial.{restore_allow, discard}
use bazzite_tower.Deny.Commands.{has_leftovers, revert, turn_off, revert_if_pending}
use bazzite_tower.Deny.Main.{
  clock, lock_timeout, wait_for_lock, polls, policy_lock, should_revert, guard_should_revert, probe,
  first_look, boot_guard,
}
use bazzite_tower.Deny.Main.Lock.{at_free}
use bazzite_tower.Deny.Safety.Views.{Safe}
use bazzite_tower.Deny.Safety.Off.{Cleared, turn_off_lem}
use bazzite_tower.Deny.Safety.Recovery.{
  pure-Returns, present-Returns, private_bytes-Returns, discard-Returns, metadata_of_node,
  read_config-Returns, Interrupted, restore_allow-Returns,
}

free_wait :
    (deadline fuel : ℕ) (s : System)
    → (s.held == 0) ≡ true
    → Returns (wait_for_lock deadline (suc fuel)) s tt s
unfolding pure
free_wait deadline fuel s free =
    at_free deadline fuel (at_system s []) (λ x. x ≡ (done tt, at_system s [])) free refl

stop_timer-Returns : (s : System) → Returns stop_timer s tt (record s { timer = false })
unfolding stop_timer
stop_timer-Returns s =
    bind_Returns (ask stop_expired (λ t. tt)) _ s tt s tt _ (ask-Returns stop_expired _ s tt refl) (
      bind_Returns (change stop_failed _) _ s tt (record s { timer = false }) tt _
        (change-Returns stop_failed _ s)
        (ask-Returns stop_expired _ (record s { timer = false }) tt refl))

free_lock : (s : System) → (s.held == 0) ≡ true → Returns (policy_lock true) s tt s
unfolding policy_lock clock pure ◌>>=◌
free_lock s free =
    bind_Returns (ask (refusal "unsafe policy lock file") (λ t. tt)) _ s tt s tt s
      (ask-Returns (refusal "unsafe policy lock file") _ s tt refl)
      (free_wait (s.now + lock_timeout) polls s free)

module _ ⦃host : Host⦄ (s : System) (i : Interrupted s) where
  load_state-Returns : Returns load_state s (some i.trial) s
  unfolding load_state
  load_state-Returns =
      bind_Returns (present state) _ s true s (some i.trial) s
        (present-Returns state s (some i.state_node) i.is_state)
        (bind_Returns (private_bytes state "deny state") _ s i.state_node.bytes s (some i.trial) s
          (private_bytes-Returns state s i.state_node i.is_state "deny state" i.is_private)
          (lift-Returns (parsed_state (host.loads i.state_node.bytes)) s (some i.trial)
            i.is_parsed))

  revert-Returns : (t : System) × Returns (revert (some i.trial) true) s tt t
  unfolding revert
  revert-Returns =
      let (method, t, restored) = restore_allow-Returns s i in
      let (u, cleared) = discard-Returns t in
      (
        record u { timer = false },
        bind_Returns (restore_allow (some i.trial)) _ s method t tt _ restored (
            bind_Returns discard _ t tt u tt _ cleared (
              bind_Returns stop_timer _ u tt _ tt _ (stop_timer-Returns u)
                (pure-Returns (record u { timer = false }) tt))),
      )

  turn_off-Returns : (t : System) × Returns (turn_off true) s tt t
  unfolding turn_off has_leftovers
  turn_off-Returns =
      let (t, reverted) = revert-Returns in
      (
        t,
        bind_Returns load_state _ s (some i.trial) s tt t load_state-Returns (
            bind_Returns read_config _ s (i.live.bytes, metadata_of_node i.live) s tt t
              (read_config-Returns s i.live i.is_config i.is_root)
              (bind_Returns (has_leftovers (some i.trial)) _ s true s tt t (pure-Returns s true)
                (finally-Returns (revert (some i.trial) true) s tt t reverted))),
      )

  revert_if_pending-turn_off :
      (t : System) → Returns (turn_off true) s tt t → Returns (revert_if_pending true) s tt t
  unfolding revert_if_pending
  revert_if_pending-turn_off t off =
      bind_Returns load_state _ s (some i.trial) s tt t load_state-Returns (
        then_Returns (has_pending (some i.trial)) (turn_off true) (pure tt) s tt t i.is_pending off)

  guard_Returns : Returns guard_should_revert s true s
  unfolding guard_should_revert should_revert boot_id
  guard_Returns = bind_Returns load_state _ s (some i.trial) s true s load_state-Returns (
      then_Returns (has_pending (some i.trial)) _ (pure false) s true s i.is_pending (
        bind_Returns boot_id _ s s.boot_id s true s
          (catch-Returns (ask call_error (λ t. t.boot_id)) _ s s.boot_id s
            (ask-Returns call_error (λ t. t.boot_id) s s.boot_id refl))
          (ap (λ b. pure (not b) (at_system s [])) i.other_boot ∙ pure-Returns s true)))

  boot_guard-turn_off : (t : System) → Returns (turn_off true) s tt t → Returns boot_guard s tt t
  unfolding boot_guard probe first_look
  boot_guard-turn_off t off =
      bind_Returns probe _ s none s tt t
        (catch-Returns (load_state >>= λ st. pure none) _ s none s (
          bind_Returns load_state _ s (some i.trial) s none s load_state-Returns
            (pure-Returns s none)))
        (bind_Returns guard_should_revert _ s true s tt t guard_Returns (
          bind_Returns (policy_lock true) _ s tt s tt t (free_lock s i.is_free)
            (revert_if_pending-turn_off t off)))

  Ends-done :
      (t : System) (x : Outcome (Unit {0}) × Run)
      → x ≡ (done tt, at_system t [])
      → Ends (λ _. Cleared) Safe x.0 x.1.sys
      → Cleared t
  Ends-done t x e h =
      subst (λ (y : Outcome (Unit {0}) × Run). Ends (λ _. Cleared) Safe y.0 y.1.sys) e h

  -- After a power loss in the middle of a trial, if the state file is accepted, the config can be edited
  -- and no other helper has the lock, a boot guard whose calls all succeed returns, and then the config
  -- does not deny and no state file and no marker is left.
  pub boot_guard-Cleared :
      Safe s → (t : System) × (boot_guard (at_system s []) ≡ (done tt, at_system t [])) × Cleared t
  boot_guard-Cleared safe =
      let (t, off) = turn_off-Returns in
      (
        t,
        boot_guard-turn_off t off,
        Ends-done t (turn_off true (at_system s [])) off
            ((turn_off_lem true).at (at_system s []) safe),
      )
