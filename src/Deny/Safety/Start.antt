-- ===== src/Deny/Safety/Start.antt =====
-- The steps of a trial's start: prepared with allow, switched under the pending state, and undone.
use bazzite_tower.Prelude.{
  ℕ, num, bool, get_field, ◌≡◌, refl, Bool, true, false, not, ◌||◌, none, some, List, Fields, obj,
  Error, arith,
}
use bazzite_tower.Deny.System.{Node, System, Host, IsLawful, config, state, backup}
use bazzite_tower.Deny.Run.Triple.{
  Triple, Keeps, Triple-pure, Triple-raise, Triple-bind, Triple-weaken, Triple-catch,
}
use bazzite_tower.Deny.Run.Keeps.{if_Keeps, pure-Keeps, bind-Keeps, catch-Keeps, require-Keeps}
use bazzite_tower.Deny.Edit.{allow, is_deny, current_action}
use bazzite_tower.Deny.Files.{Metadata, replacement, root_with}
use bazzite_tower.Deny.Record.{has_pending}
use bazzite_tower.Deny.State.{save_state}
use bazzite_tower.Deny.Trial.{undo, roll_back, prepare, switch, start_trial, note_of_restart}
use bazzite_tower.Deny.Safety.Saved.{saved-BackedBy, saved_pending}
use bazzite_tower.Deny.Safety.Views.{action_at, recorded_at, BackedBy, Safe}
use bazzite_tower.Deny.Safety.Calls.{service_active_lem}
use bazzite_tower.Deny.Safety.Writes.{
  put, publish_lem, publish-Keeps, make_state_dir-Keeps, IsOfFiles, stop_timer-Keeps,
  start_timer-Keeps, restart_daemon-Keeps,
}
use bazzite_tower.Deny.Safety.Reports.{publish_snapshot-Keeps}
use bazzite_tower.Deny.Safety.Off.{
  Safe-IsOfFiles, Cleared-Safe, restore_lem, discard_lem, Triple-end,
}

or_pending : (a b c : Bool) → b ≡ true → (not a || (b || c)) ≡ true
or_pending a b c h = ground arith

module _ ⦃host : Host⦄ where
  -- The state file records a pending trial.
  abbrev pub Armed : System → Type 0
  Armed s = Safe s × (has_pending (recorded_at (s.disk state)) ≡ true)

  Armed-IsOfFiles : IsOfFiles Armed
  Armed-IsOfFiles = record {
    on_timer = λ b s h. h;
    on_daemon = λ a l s h. h;
    on_snapshot = λ n s h. h;
  }

  -- Before the switch the config allows.
  abbrev pub Allowed : System → Type 0
  Allowed s = Safe s × (action_at (s.disk config) ≡ allow)

  Armed-config : (n : Node) (s : System) → Armed s → Armed (put config (some n) s)
  Armed-config n s (h, p) = (
    record { covered = or_pending (is_deny (current_action n.bytes)) _ _ p; backed = h.backed },
    p,
  )

  undo-Keeps : (fs : Fields) → BackedBy (some fs) → Keeps Safe (undo fs)
  unfolding undo
  undo-Keeps fs back =
      catch-Keeps Safe _ _
        (Triple-bind _ _ (restore_lem (some fs) back)
          (λ method. Triple-bind _ _ discard_lem (λ _. Triple-pure _ (λ s h. Cleared-Safe s h))))
        (λ e. pure-Keeps Safe _)

  note-Keeps : Keeps Safe note_of_restart
  unfolding note_of_restart
  note-Keeps =
      catch-Keeps Safe _ _
        (bind-Keeps Safe _ _ (restart_daemon-Keeps Safe Safe-IsOfFiles) (λ x. pure-Keeps Safe ""))
        (λ e. pure-Keeps Safe _)

  -- The handler keeps the invariant, and never returns.
  roll_back_lem :
      (Q : Unit {0} → System → Type 0) (fs : Fields) (invoked : Bool) (e : Error)
      → BackedBy (some fs)
      → Triple Safe (roll_back fs invoked e) Q Safe
  unfolding roll_back
  roll_back_lem Q fs invoked e back =
      Triple-bind {Q = λ _. Safe} _ _ (undo-Keeps fs back) (λ (changed, note).
        Triple-bind {Q = λ _. Safe} _ _
          (if_Keeps Safe invoked _ _
            (catch-Keeps Safe _ _ (stop_timer-Keeps Safe Safe-IsOfFiles) (λ x. pure-Keeps Safe tt))
            (pure-Keeps Safe tt))
          (λ _.
            Triple-bind {Q = λ _. Safe} _ _
              (if_Keeps Safe changed _ _ note-Keeps (pure-Keeps Safe ""))
              (λ more.
                Triple-bind {Q = λ _. Safe} _ _ (publish_snapshot-Keeps Safe (λ n s h. h))
                  (λ _. Triple-raise _ (λ s h. h)))))

  switch_lem :
      (bytes denied : List ℕ) (m : Metadata) → Triple Armed (switch bytes denied m) (λ _. Safe) Safe
  unfolding switch
  switch_lem bytes denied m =
      Triple-weaken {E = Armed} {Q = λ _. Armed} _ (λ s h. h) (λ a s h. h.0) (λ s h. h.0)
        (bind-Keeps Armed _ _ (start_timer-Keeps Armed Armed-IsOfFiles) (λ _.
          bind-Keeps Armed _ _
            (publish_lem Armed Armed (λ _. Armed) config denied m (some bytes)
              (λ s h. Armed-config _ s h) (λ s h. h) (λ s h. Armed-config _ s h))
            (λ _. bind-Keeps Armed _ _ (restart_daemon-Keeps Armed Armed-IsOfFiles) (λ _.
              bind-Keeps Armed _ _ (service_active_lem Armed)
                (λ active. require-Keeps Armed active _)))))

  module _ (law : IsLawful host) where
    save_lem :
        (fs : Fields)
        → BackedBy (some fs)
        → get_field "schema" fs ≡ some (num 1)
        → get_field "pending" fs ≡ some (bool true)
        → Triple Allowed (save_state fs) (λ _. Armed) Safe
    unfolding save_state
    save_lem fs back r p =
        let after : (s : System)
            → Allowed s
            → Armed (put state (some (replacement (root_with 0o600) (host.dumps (obj fs)))) s) =
          λ s h. (
            record { covered = rw (h.1) refl; backed = saved-BackedBy law fs back },
            saved_pending law fs r p,
          ) in
        publish_lem Allowed Safe (λ _. Armed) state _ _ none after (λ s h. h.0)
          (λ s h. (after s h).0)

    prepare_lem :
        (bytes : List ℕ) (fs : Fields)
        → BackedBy (some fs)
        → get_field "schema" fs ≡ some (num 1)
        → get_field "pending" fs ≡ some (bool true)
        → Triple Allowed (prepare bytes fs) (λ _. Armed) Safe
    unfolding prepare
    prepare_lem bytes fs back r p =
        Triple-bind {Q = λ _. Allowed} _ _
          (Triple-end _ (λ s h. h.0) (make_state_dir-Keeps Allowed (λ n s h. h)))
          (λ _.
            Triple-bind {Q = λ _. Allowed} _ _
              (Triple-end _ (λ s h. h.0) (publish-Keeps Allowed backup _ _ none (λ n s h. h)))
              (λ _. save_lem fs back r p))

    -- From a config that allows, a start that is cut short anywhere keeps the invariant.
    pub start_trial_lem :
        (bytes denied : List ℕ) (m : Metadata) (fs : Fields)
        → BackedBy (some fs)
        → get_field "schema" fs ≡ some (num 1)
        → get_field "pending" fs ≡ some (bool true)
        → Triple Allowed (start_trial bytes denied m fs) (λ _. Safe) Safe
    unfolding start_trial
    start_trial_lem bytes denied m fs back r p =
        Triple-bind {Q = λ _. Armed} _ _
          (Triple-catch Safe _ _ (prepare_lem bytes fs back r p)
            (λ e. roll_back_lem (λ _. Armed) fs false e back) (λ s h. h))
          (λ _.
            Triple-bind {Q = λ _. Safe} _ _
              (Triple-catch Safe _ _ (switch_lem bytes denied m)
                (λ e. roll_back_lem (λ _. Safe) fs true e back) (λ s h. h))
              (λ _. publish_snapshot-Keeps Safe (λ n s h. h)))
