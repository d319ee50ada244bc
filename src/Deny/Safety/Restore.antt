-- ===== src/Deny/Safety/Restore.antt =====
-- `restore_allow` leaves a config that does not deny, whatever befalls its calls.
use bazzite_tower.Prelude.{ℕ, ◌≡◌, refl, true, false, Option, none, some, List, Fields, &&-eq-true}
use bazzite_tower.Deny.System.{Node, Place, System, Host, config}
use bazzite_tower.Deny.Run.{pure, ◌>>=◌}
use bazzite_tower.Deny.Run.Triple.{
  Triple, Keeps, Triple-pure, Triple-lift, Triple-bind, Triple-if, Triple-weaken, Triple-fact,
}
use bazzite_tower.Deny.Run.Keeps.{forget-Keeps}
use bazzite_tower.Deny.Edit.{Action, allow, deny, other, is_allow, is_deny, current_action}
use bazzite_tower.Deny.Edit.Outcome.{current_action-set_action}
use bazzite_tower.Deny.Files.{Metadata, replacement, publish, private_bytes}
use bazzite_tower.Deny.Trial.{
  Method, read_backup, backup_of, hashes_match, edit_key, restore_backup, restore_with,
  restore_allow,
}
use bazzite_tower.Deny.Safety.Views.{action_at, BackedBy}
use bazzite_tower.Deny.Safety.Calls.{read_config_lem}
use bazzite_tower.Deny.Safety.Private.{private_bytes_lem}
use bazzite_tower.Deny.Safety.Writes.{put, publish_lem}
use bazzite_tower.Deny.Safety.Reports.{read_rules}

abbrev pub Undenied : ⦃host : Host⦄ → System → Type 0
Undenied s = is_deny (action_at (s.disk config)) ≡ false

pub is_deny_of_allow : (a : Action) → a ≡ allow → is_deny a ≡ false
is_deny_of_allow a e = rw e refl

pub is_deny_of_is_allow : (a : Action) → is_allow a ≡ true → is_deny a ≡ false
is_deny_of_is_allow allow e = refl
is_deny_of_is_allow deny e = cc
is_deny_of_is_allow other e = refl

-- P survives a config that does not deny.
module _ ⦃host : Host⦄ (P : System → Type 0)
    (k : (n : Node) (s : System)
      → is_deny (current_action n.bytes) ≡ false
      → P s
      → P (put config (some n) s)) where
  private_bytes-Keeps : (p : Place) (what : _) → Keeps P (private_bytes p what)
  private_bytes-Keeps p what = forget-Keeps P _ (private_bytes_lem P p what) (λ a s h. h.0)

  replace_config :
      (bytes : List ℕ) (m : Metadata) (live : List ℕ) (r : Method)
      → current_action bytes ≡ allow
      → Triple P (publish config bytes m (some live) >>= λ _. pure r) (λ _ s. P s × Undenied s) P
  replace_config bytes m live r e =
      let safe = is_deny_of_allow (current_action bytes) e in
      Triple-bind {Q = λ _ s. P s × Undenied s} _ _
        (publish_lem P P (λ _ s. P s × Undenied s) config bytes m (some live)
          (λ s h. (k (replacement m bytes) s safe h, safe)) (λ s h. h)
          (λ s h. k (replacement m bytes) s safe h))
        (λ _. Triple-pure r (λ s h. h))

  edit_key_lem :
      (live : List ℕ) (m : Metadata) → Triple P (edit_key live m) (λ _ s. P s × Undenied s) P
  unfolding edit_key
  edit_key_lem live m =
      Triple-bind {Q = λ b s. P s × (current_action b ≡ allow)} _ _
        (Triple-lift _ (λ b e s h. (h, current_action-set_action live allow b refl e)) (λ s h. h))
        (λ b. Triple-fact _ (λ e. replace_config b m live _ e))

  restore_backup_lem :
      (fs : Fields) (bytes live : List ℕ)
      → current_action bytes ≡ allow
      → Triple P (restore_backup fs bytes live) (λ _ s. P s × Undenied s) P
  unfolding restore_backup
  restore_backup_lem fs bytes live e =
      Triple-bind {Q = λ _ s. P s} _ _ (Triple-lift _ (λ a e s h. h) (λ s h. h))
        (λ m. replace_config bytes m live _ e)

  restore_with_lem :
      (st : Option Fields) (b : Option (List ℕ)) (live : List ℕ) (m : Metadata)
      → BackedBy st
      → Triple P (restore_with st b live m) (λ _ s. P s × Undenied s) P
  unfolding restore_with
  restore_with_lem none b live m back = edit_key_lem live m
  restore_with_lem (some fs) none live m back = edit_key_lem live m
  restore_with_lem (some fs) (some bytes) live m back =
      Triple-if (hashes_match fs bytes live) _ _
        (λ e. restore_backup_lem fs bytes live (back bytes (&&-eq-true _ _ e).0))
        (λ _. edit_key_lem live m)

  backup_of-Keeps : (st : Option Fields) → Keeps P (backup_of st)
  unfolding backup_of read_backup
  backup_of-Keeps none = search read_rules
  backup_of-Keeps (some fs) = search (read_rules, private_bytes-Keeps) depth 8

  -- Where `restore_allow` returns, the config does not deny.
  pub restore_allow_lem :
      (st : Option Fields) → BackedBy st → Triple P (restore_allow st) (λ _ s. P s × Undenied s) P
  unfolding restore_allow
  restore_allow_lem st back = Triple-bind _ _ (read_config_lem P) (λ (live, m).
      Triple-if (is_allow (current_action live)) _ _
        (λ e.
          Triple-pure _
            (λ s (h, n, d, w). (h, rw (d, w) (is_deny_of_is_allow (current_action live) e))))
        (λ _.
          Triple-bind _ _
            (Triple-weaken _ (λ s h. h.0) (λ a s h. h) (λ s h. h) (backup_of-Keeps st))
            (λ b. restore_with_lem st b live m back)))
