-- ===== src/Deny/Safety/Views.antt =====
-- What the files say: the action of the config, and the state that `load_state` accepts.
use bazzite_tower.Prelude.{
  ℕ, ◌≡◌, Bool, true, false, ◌||◌, not, Option, none, some, List, if◌then◌else◌, Fields, Result, ok,
  err, get_is, is_str, refl,
}
use bazzite_tower.Deny.System.{Node, config, state, marker, System, Host}
use bazzite_tower.Deny.Edit.{Action, allow, other, is_deny, current_action}
use bazzite_tower.Deny.Files.{is_root_file, is_some}
use bazzite_tower.Deny.Record.{parsed_state, has_pending}

module _ ⦃host : Host⦄ where
  -- The action of a config file; a file that is not there has none.
  abbrev pub action_at : Option Node → Action
  action_at none = other
  action_at (some n) = current_action n.bytes

  abbrev pub accepted_state : Result (Option Fields) → Option Fields
  accepted_state (ok st) = st
  accepted_state (err e) = none

  -- The state of a file that `load_state` accepts.
  abbrev pub recorded_at : Option Node → Option Fields
  recorded_at none = none
  recorded_at (some n) =
      if is_root_file 0o077 n then accepted_state (parsed_state (host.loads n.bytes)) else none

  -- Config, state file and marker: not deny, or a pending trial, or a marker.
  abbrev pub is_covered : Option Node → Option Node → Option Node → Bool
  is_covered c st m = not (is_deny (action_at c)) || (has_pending (recorded_at st) || is_some m)

  -- Every text with the hash of the state's backup allows.
  abbrev pub BackedBy : Option Fields → Type 0
  BackedBy none = Unit
  BackedBy (some fs) =
      (bytes : List ℕ)
      → get_is (is_str (host.sha256 bytes)) "backupSha256" fs ≡ true
      → current_action bytes ≡ allow

  pub record Guarded (c st m : Option Node) : Type 0 where
    pub covered : is_covered c st m ≡ true
    pub backed : BackedBy (recorded_at st)

  -- The invariant, of the system's three files.
  abbrev pub Safe : System → Type 0
  Safe s = Guarded (s.disk config) (s.disk state) (s.disk marker)

  -- The live config does not deny, and the state's backup allows.
  pub record Released (c st : Option Node) : Type 0 where
    pub not_deny : is_deny (action_at c) ≡ false
    pub backed : BackedBy (recorded_at st)

  abbrev pub NotDeny : System → Type 0
  NotDeny s = Released (s.disk config) (s.disk state)

  pub NotDeny-Safe : (s : System) → NotDeny s → Safe s
  NotDeny-Safe s h = record { covered = rw h.not_deny refl; backed = h.backed }
