-- ===== src/Deny/Safety/Off.antt =====
-- `off` and its relatives: whatever befalls them they keep the invariant, and where they return
-- the config does not deny and no record of a trial is left.
use bazzite_tower.Prelude.{
  ℕ, ◌≡◌, refl, ◌∙◌, Bool, true, false, ◌&&◌, not, Option, none, some, List, Fields, subst,
}
use bazzite_tower.Deny.System.{Node, Place, System, Host, config, state, backup, marker}
use bazzite_tower.Deny.Run.{M}
use bazzite_tower.Deny.Run.Triple.{
  Triple, Keeps, Triple-pure, Triple-bind, Triple-if, Triple-weaken, Triple-fact, Triple-finally,
  Triple-and, Triple-change,
}
use bazzite_tower.Deny.Run.Keeps.{keeps_rules, if_Keeps, pure-Keeps}
use bazzite_tower.Deny.Edit.{is_allow, is_deny, current_action}
use bazzite_tower.Deny.Files.{unlink, is_some}
use bazzite_tower.Deny.State.{load_state}
use bazzite_tower.Deny.Trial.{restore_allow, unlink_present, discard, Method}
use bazzite_tower.Deny.Commands.{restart_or_refuse, has_leftovers, revert, turn_off}
use bazzite_tower.Deny.Safety.Views.{action_at, recorded_at, BackedBy, Safe, NotDeny, NotDeny-Safe}
use bazzite_tower.Deny.Safety.Calls.{present_lem, read_config_lem}
use bazzite_tower.Deny.Safety.Private.{load_state_lem, load_state-is_some}
use bazzite_tower.Deny.Safety.Writes.{put, IsOfFiles, stop_timer-Keeps, restart_daemon-Keeps}
use bazzite_tower.Deny.Safety.Reports.{publish_snapshot-Keeps}
use bazzite_tower.Deny.Safety.Restore.{is_deny_of_is_allow, restore_allow_lem}

module _ ⦃host : Host⦄ where
  pub Safe-IsOfFiles : IsOfFiles Safe
  Safe-IsOfFiles = record {
    on_timer = λ b s h. h;
    on_daemon = λ a l s h. h;
    on_snapshot = λ n s h. h;
  }

  pub NotDeny-IsOfFiles : IsOfFiles NotDeny
  NotDeny-IsOfFiles = record {
    on_timer = λ b s h. h;
    on_daemon = λ a l s h. h;
    on_snapshot = λ n s h. h;
  }

  -- No denying config, no state file and no marker.
  pub record IsCleared (c st m : Option Node) : Type 0 where
    pub not_deny : is_deny (action_at c) ≡ false
    pub no_state : is_some st ≡ false
    pub no_marker : is_some m ≡ false

  abbrev pub Cleared : System → Type 0
  Cleared s = IsCleared (s.disk config) (s.disk state) (s.disk marker)

  pub Cleared-IsOfFiles : IsOfFiles Cleared
  Cleared-IsOfFiles = record {
    on_timer = λ b s h. h;
    on_daemon = λ a l s h. h;
    on_snapshot = λ n s h. h;
  }

  BackedBy-none : (o : Option Node) → is_some o ≡ false → BackedBy (recorded_at o)
  BackedBy-none none e = tt
  BackedBy-none (some n) e = cc

  pub Cleared-Safe : (s : System) → Cleared s → Safe s
  Cleared-Safe s h = record {
    covered = rw h.not_deny refl;
    backed = BackedBy-none (s.disk state) h.no_state;
  }

  unlink_present_lem :
      (P Q E : System → Type 0) (p : Place)
      → ((s : System) → P s → Q (put p none s))
      → ((s : System) → P s → is_some (s.disk p) ≡ false → Q s)
      → ((s : System) → P s → E s)
      → ((s : System) → Q s → E s)
      → Triple P (unlink_present p) (λ _. Q) E
  unfolding unlink_present unlink
  unlink_present_lem P Q E p k l w v =
      Triple-bind _ _ (Triple-weaken _ (λ s h. h) (λ a s h. h) w (present_lem P p)) (λ here.
        Triple-if here _ _
          (λ _. Triple-change _ _ (λ x s h. k s h.0) (λ s h. w s h.0) (λ s h. v _ (k s h.0)))
          (λ gone. Triple-pure _ (λ s (h, e). l s h (e ∙ gone))))

  -- Without the marker, and the config does not deny.
  abbrev Unmarked : System → Type 0
  Unmarked s = NotDeny s × (is_some (s.disk marker) ≡ false)

  pub discard_lem : Triple NotDeny discard (λ _. Cleared) Safe
  unfolding discard
  discard_lem =
      Triple-bind {Q = λ _. Unmarked} _ _
        (unlink_present_lem NotDeny Unmarked Safe marker (λ s h. (h, refl)) (λ s h e. (h, e))
          NotDeny-Safe (λ s h. NotDeny-Safe s h.0))
        (λ _.
          Triple-bind {Q = λ _. Cleared} _ _
            (unlink_present_lem Unmarked Cleared Safe state
              (λ s h. record { not_deny = h.0.not_deny; no_state = refl; no_marker = h.1 })
              (λ s h e. record { not_deny = h.0.not_deny; no_state = e; no_marker = h.1 })
              (λ s h. NotDeny-Safe s h.0) Cleared-Safe)
            (λ _.
              unlink_present_lem Cleared Cleared Safe backup (λ s h. h) (λ s h e. h) Cleared-Safe
                Cleared-Safe))

  -- A denial that is replaced leaves the invariant.
  pub Safe-config :
      (n : Node) (s : System)
      → is_deny (current_action n.bytes) ≡ false
      → Safe s
      → Safe (put config (some n) s)
  Safe-config n s e h = record { covered = rw e refl; backed = h.backed }

  pub restore_lem :
      (st : Option Fields) → BackedBy st → Triple Safe (restore_allow st) (λ _. NotDeny) Safe
  restore_lem st back =
      Triple-weaken _ (λ s h. h) (λ a s (h, e). record { not_deny = e; backed = h.backed })
        (λ s h. h) (restore_allow_lem Safe Safe-config st back)

  restart_or_refuse-Keeps :
      (P : System → Type 0) → IsOfFiles P → (m : Method) → Keeps P (restart_or_refuse m)
  unfolding restart_or_refuse
  restart_or_refuse-Keeps P f m = search (keeps_rules, restart_daemon-Keeps P f)

  pub Triple-end :
      {A : Type 0} {P E : System → Type 0} (m : M A)
      → ((s : System) → P s → E s)
      → Keeps P m
      → Triple P m (λ _. P) E
  Triple-end m w t = Triple-weaken m (λ s h. h) (λ a s h. h) w t

  pub revert_lem :
      (st : Option Fields) (boot : Bool)
      → BackedBy st
      → Triple Safe (revert st boot) (λ _. Cleared) Safe
  unfolding revert
  revert_lem st boot back = Triple-bind _ _ (restore_lem st back) (λ method.
      Triple-bind _ _ discard_lem (λ _.
        Triple-bind _ _ (Triple-end _ Cleared-Safe (stop_timer-Keeps Cleared Cleared-IsOfFiles))
          (λ _.
            Triple-end _ Cleared-Safe
              (search (keeps_rules, restart_or_refuse-Keeps Cleared Cleared-IsOfFiles)))))

  has_leftovers_lem :
      (P : System → Type 0) (st : Option Fields)
      → Triple
          (λ s. P s × (is_some (s.disk state) ≡ is_some st))
          (has_leftovers st)
          (λ b s.
            P s
            × (b ≡ false → (is_some (s.disk state) ≡ false) × (is_some (s.disk marker) ≡ false)))
          P
  unfolding has_leftovers
  has_leftovers_lem P (some fs) = Triple-pure true (λ s (h, e). (h, λ f. cc))
  has_leftovers_lem P none =
      Triple-weaken _ (λ s h. h) (λ b s ((h, e), m). (h, λ f. (e, m ∙ f))) (λ s h. h.0)
        (present_lem (λ s. P s × (is_some (s.disk state) ≡ false)) marker)

  -- The state that was read, with what the file was.
  pub load_lem :
      Triple Safe load_state
        (λ st s. (Safe s × (is_some (s.disk state) ≡ is_some st)) × BackedBy st)
        Safe
  load_lem =
      Triple-weaken _ (λ s h. h) (λ st s ((h, e), (_, p)). ((h, p), subst BackedBy e h.backed))
        (λ s h. h) (Triple-and Safe _ _ _ (load_state_lem Safe) (load_state-is_some Safe))

  -- The action that was read is that of the config file.
  abbrev Read : Option Fields → List ℕ → System → Type 0
  Read st live s =
      (Safe s × (current_action live ≡ action_at (s.disk config)))
      × (is_some (s.disk state) ≡ is_some st)

  action_of_read :
      (o : Option Node) (n : Node) (live : List ℕ)
      → o ≡ some n
      → n.bytes ≡ live
      → current_action live ≡ action_at o
  action_of_read o n live e w = rw (e, w)

  Cleared-nothing :
      (s : System) (live : List ℕ) (leftovers : Bool)
      → current_action live ≡ action_at (s.disk config)
      → (leftovers ≡ false → (is_some (s.disk state) ≡ false) × (is_some (s.disk marker) ≡ false))
      → (not leftovers && is_allow (current_action live)) ≡ true
      → Cleared s
  Cleared-nothing s live true e f h = cc
  Cleared-nothing s live false e f h = record {
    not_deny = rw (← e) (is_deny_of_is_allow (current_action live) h);
    no_state = (f refl).0;
    no_marker = (f refl).1;
  }

  -- Whatever befalls `turn_off`, the invariant stays; where it returns nothing is left to revert.
  pub turn_off_lem : (boot : Bool) → Triple Safe (turn_off boot) (λ _. Cleared) Safe
  unfolding turn_off
  turn_off_lem boot = Triple-bind _ _ load_lem (λ st. Triple-fact _ (λ back.
      Triple-bind {Q = λ r. Read st r.0} _ _
        (Triple-weaken _ (λ s h. h)
          (λ r s ((h, p), n, e, w). ((h, action_of_read (s.disk config) n r.0 e w), p)) (λ s h. h.0)
          (read_config_lem (λ s. Safe s × (is_some (s.disk state) ≡ is_some st))))
        (λ (live, _).
          Triple-bind _ _
            (Triple-weaken _ (λ s h. h) (λ b s h. h) (λ s h. h.0)
              (has_leftovers_lem (λ s. Safe s × (current_action live ≡ action_at (s.disk config)))
                st))
            (λ leftovers.
              Triple-if (not leftovers && is_allow (current_action live)) _ _
                (λ t. Triple-pure tt (λ s ((h, e), f). Cleared-nothing s live leftovers e f t))
                (λ _.
                  Triple-weaken _ (λ s h. h.0.0) (λ a s h. h) (λ s h. h)
                    (Triple-finally (λ _. Cleared) Safe _ Safe _ _ (revert_lem st boot back)
                      (λ _. Triple-end _ Cleared-Safe (
                        if_Keeps Cleared boot _ _ (pure-Keeps Cleared tt)
                          (publish_snapshot-Keeps Cleared (λ n s h. h))))
                      (if_Keeps Safe boot _ _ (pure-Keeps Safe tt)
                        (publish_snapshot-Keeps Safe (λ n s h. h)))
                      (λ s h. h)))))))
