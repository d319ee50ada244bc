-- ===== src/Deny/Safety/World.antt =====
-- Everything that befalls the machine between two runs of the helper, as a step relation.
use bazzite_tower.Prelude.{ℕ, ◌+◌, String, ◌≡◌, Bool, true, false, Option, List}
use bazzite_tower.Deny.System.{System, Host, IsLawful, config, state, marker}
use bazzite_tower.Deny.Run.{Fault, Outcome, done, raised, killed, at_system}
use bazzite_tower.Deny.Run.Triple.{Ends}
use bazzite_tower.Deny.Commands.{turn_off}
use bazzite_tower.Deny.Main.{Command, revert, recover_bad_state, main}
use bazzite_tower.Deny.Safety.Views.{is_covered, Safe, NotDeny}
use bazzite_tower.Deny.Safety.Off.{Cleared, turn_off_lem}
use bazzite_tower.Deny.Safety.Guard.{recover_bad_state_lem, main_lem}

module _ ⦃host : Host⦄ where
  -- The system in which a run of the helper ends, also where it is killed.
  abbrev pub after_run : Command → List Fault → System → System
  after_run c fs s = (main c (at_system s fs)).1.sys

  -- The timer is spent when it runs `revert-if-pending`.
  abbrev pub spent : System → System
  spent s = record s { timer = false }

  -- A boot forgets the transient timer and has an id of its own; the files stay.
  abbrev pub booted : Option String → Bool → System → System
  booted b up s = record s { timer = false; active = up; boot_id = b; held = 0 }

  pub data Step (s : System) : System → Type 0 where
    -- Someone runs the helper, under any faults.
    run : (c : Command) (fs : List Fault) → Step s (after_run c fs s)
    -- The armed timer fires.
    fire : (fs : List Fault) → s.timer ≡ true → Step s (after_run (revert false) fs (spent s))
    -- Time goes by; the daemon may start or stop, and the id that comes next is another.
    wait :
        (t held : ℕ) (up : Bool) (id : String)
        → Step s (record s { now = s.now + t; held = held; active = up; next_id = id })
    -- The power is lost, and the machine boots; the guard unit runs the helper.
    reboot :
        (b : Option String) (up : Bool) (fs : List Fault)
        → Step s (after_run (revert true) fs (booted b up s))
    -- The power is lost, and the guard unit does not run.
    boot_only : (b : Option String) (up : Bool) → Step s (booted b up s)

  pub data Reach (s : System) : System → Type 0 where
    here : Reach s s
    then : {t u : System} → Reach s t → Step t u → Reach s u

  Ends-in : {A : Type 0} (o : Outcome A) (s : System) → Ends (λ _. Safe) Safe o s → Safe s
  Ends-in (done a) s h = h
  Ends-in (raised e) s h = h
  Ends-in killed s h = h

  -- Under a lawful host every command keeps the invariant: whatever its calls meet, and wherever it
  -- returns, raises or is killed, the files that it leaves satisfy `Safe` if those it found did.
  pub main-Safe :
      IsLawful host
      → (c : Command) (fs : List Fault) (s : System) → Safe s
      → Safe (after_run c fs s)
  main-Safe law c fs s h =
      let r = main c (at_system s fs) in
      Ends-in r.0 r.1.sys ((main_lem law c).at (at_system s fs) h)

  Step-Safe : IsLawful host → {s t : System} → Step s t → Safe s → Safe t
  Step-Safe law {s} (run c fs) h = main-Safe law c fs s h
  Step-Safe law {s} (fire fs e) h = main-Safe law (revert false) fs (spent s) h
  Step-Safe law {s} (wait t held up id) h = h
  Step-Safe law {s} (reboot b up fs) h = main-Safe law (revert true) fs (booted b up s) h
  Step-Safe law {s} (boot_only b up) h = h

  Reach-Safe : IsLawful host → {s t : System} → Reach s t → Safe s → Safe t
  Reach-Safe law here h = h
  Reach-Safe law (then r x) h = Step-Safe law x (Reach-Safe law r h)

  -- Under a lawful host, from a system with the invariant, through any sequence of commands that
  -- fail or are killed at any call, firing timers, waits and reboots: the config does not deny, or
  -- an accepted state file records a pending trial, or the marker of a confirmed trial is there.
  pub Reach-is_covered :
      IsLawful host
      → {s t : System} → Safe s
      → Reach s t
      → is_covered (t.disk config) (t.disk state) (t.disk marker) ≡ true
  Reach-is_covered law h r = (Reach-Safe law r h).covered

  -- From a system with the invariant, under any faults: where `turn_off` returns, the config does
  -- not deny and neither a state file nor a marker is left; where it raises or is killed, the
  -- invariant holds.
  pub turn_off-Cleared :
      (boot : Bool) (fs : List Fault) (s : System)
      → Safe s
      → let r = turn_off boot (at_system s fs) in Ends (λ _. Cleared) Safe r.0 r.1.sys
  turn_off-Cleared boot fs s h = (turn_off_lem boot).at (at_system s fs) h

  -- From a system with the invariant, under any faults: where the quarantine of a bad state returns,
  -- the config does not deny; where it raises or is killed, the invariant holds.
  pub recover_bad_state-NotDeny :
      (fs : List Fault) (s : System)
      → Safe s
      → let r = recover_bad_state (at_system s fs) in Ends (λ _. NotDeny) Safe r.0 r.1.sys
  recover_bad_state-NotDeny fs s h = recover_bad_state_lem.at (at_system s fs) h
