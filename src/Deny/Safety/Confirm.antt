-- ===== src/Deny/Safety/Confirm.antt =====
-- `confirm`: the marker stands before the state stops being pending.
use bazzite_tower.Prelude.{
  ℕ, ◌≡◌, refl, sym, ap, ◌∙◌, Bool, true, false, not, ◌||◌, Option, none, some, Json, Fields, obj,
  bool, get_field, set_field, is_str, get_field-set_field, leb, Error, refusal, arith,
}
use bazzite_tower.Deny.System.{Node, System, Host, IsLawful, state, marker}
use bazzite_tower.Deny.Run.{◌>>=◌, finally}
use bazzite_tower.Deny.Run.Triple.{Triple, Keeps, Triple-bind, Triple-weaken, Triple-fact}
use bazzite_tower.Deny.Run.Keeps.{
  bind-Keeps, if_Keeps, raise-Keeps, lift-Keeps, require-Keeps, finally-Keeps,
}
use bazzite_tower.Deny.Edit.{is_deny, current_action}
use bazzite_tower.Deny.Files.{replacement, root_with, is_some, publish, stop_timer}
use bazzite_tower.Deny.Record.{is_pending}
use bazzite_tower.Deny.Snapshot.{publish_snapshot}
use bazzite_tower.Deny.State.{save_state}
use bazzite_tower.Deny.Commands.{
  marker_json, confirmed, confirm_live, confirm_pending, confirm_state, confirm, turn_off,
}
use bazzite_tower.Deny.Safety.Views.{BackedBy, Safe}
use bazzite_tower.Deny.Safety.Saved.{saved-BackedBy}
use bazzite_tower.Deny.Safety.Calls.{service_active_lem}
use bazzite_tower.Deny.Safety.Writes.{put, publish_lem, stop_timer-Keeps, utcnow-Keeps}
use bazzite_tower.Deny.Safety.Reports.{publish_snapshot-Keeps, read_config-Keeps}
use bazzite_tower.Deny.Safety.Off.{Safe-IsOfFiles, Cleared-Safe, load_lem, turn_off_lem}

or_marked : (a b c : Bool) → c ≡ true → (not a || (b || c)) ≡ true
or_marked a b c h = ground arith

get_is_of :
    (test : Json → Bool) (o p : Option Json)
    → o ≡ p
    → ◌≡◌ {A = Bool}
        (elim o [ none ↦ false | some v ↦ test v ])
        (elim p [ none ↦ false | some v ↦ test v ])
get_is_of test o p e =
    ap (λ (q : Option Json). let b : Bool = elim q [ none ↦ false | some v ↦ test v ] in b) e

module _ ⦃host : Host⦄ where
  -- There is a marker.
  abbrev Marked : System → Type 0
  Marked s = Safe s × (is_some (s.disk marker) ≡ true)

  confirmed-BackedBy :
      (fs : Fields) (now : ℕ) → BackedBy (some fs) → BackedBy (some (confirmed fs now))
  unfolding confirmed
  confirmed-BackedBy fs now back bytes h =
      let same : get_field "backupSha256" (confirmed fs now) ≡ get_field "backupSha256" fs =
        get_field-set_field "confirmedAt" "backupSha256" _ (set_field "pending" (bool false) fs)
        ∙ get_field-set_field "pending" "backupSha256" (bool false) fs in
      back bytes (sym (get_is_of (is_str (host.sha256 bytes)) _ _ same) ∙ h)

  pub off-Keeps : (boot : Bool) → Keeps Safe (turn_off boot)
  off-Keeps boot =
      Triple-weaken _ (λ s h. h) (λ a s h. Cleared-Safe s h) (λ s h. h) (turn_off_lem boot)

  abbrev expired : Error
  expired = refusal "deny trial expired before confirm; it was reverted to allow"

  module _ (law : IsLawful host) where
    save_confirmed :
        (fs : Fields) (now : ℕ)
        → BackedBy (some fs)
        → Triple Marked (save_state (confirmed fs now)) (λ _. Safe) Safe
    unfolding save_state
    save_confirmed fs now back =
        let after : (s : System)
            → Marked s
            → Safe (
                put state
                  (some (replacement (root_with 0o600) (host.dumps (obj (confirmed fs now))))) s) =
          λ s h. record {
            covered = or_marked _ _ _ h.1;
            backed = saved-BackedBy law _ (confirmed-BackedBy fs now back);
          } in
        publish_lem Marked Safe (λ _. Safe) state _ _ none after (λ s h. h.0) after

    confirm_live_lem :
        (fs : Fields) → BackedBy (some fs) → Triple Safe (confirm_live fs) (λ _. Safe) Safe
    unfolding confirm_live
    confirm_live_lem fs back = bind-Keeps Safe _ _ (read_config-Keeps Safe) (λ (live, _).
        bind-Keeps Safe _ _ (require-Keeps Safe (is_deny (current_action live)) _) (λ _.
          bind-Keeps Safe _ _ (service_active_lem Safe) (λ active.
            bind-Keeps Safe _ _ (require-Keeps Safe active _) (λ _.
              bind-Keeps Safe _ _ (utcnow-Keeps Safe)
                (λ now. bind-Keeps Safe _ _ (lift-Keeps Safe _) (λ id. mark id now))))))
      where
        marks : (n : Node) (s : System) → Safe s → Marked (put marker (some n) s)
        marks n s h = (record { covered = or_marked _ _ _ refl; backed = h.backed }, refl)

        mark :
            (id : Json) (now : ℕ)
            → Triple Safe
                (publish marker (host.dumps (marker_json id now)) (root_with 0o644) none >>= λ _.
                  save_state (confirmed fs now) >>= λ _. finally stop_timer publish_snapshot)
                (λ _. Safe)
                Safe
        mark id now =
            Triple-bind {Q = λ _. Marked} _ _
              (publish_lem Safe Safe (λ _. Marked) marker _ _ none (λ s h. marks _ s h) (λ s h. h)
                (λ s h. (marks _ s h).0))
              (λ _. Triple-bind {Q = λ _. Safe} _ _ (save_confirmed fs now back) (λ _.
                finally-Keeps Safe _ _ (stop_timer-Keeps Safe Safe-IsOfFiles)
                  (publish_snapshot-Keeps Safe (λ n s h. h))))

    confirm_pending_lem :
        (fs : Fields) → BackedBy (some fs) → Triple Safe (confirm_pending fs) (λ _. Safe) Safe
    unfolding confirm_pending
    confirm_pending_lem fs back = bind-Keeps Safe _ _ (utcnow-Keeps Safe) (λ now.
        bind-Keeps Safe _ _ (lift-Keeps Safe _) (λ deadline.
          if_Keeps Safe (leb deadline now) _ _
            (bind-Keeps Safe _ _ (off-Keeps false) (λ _. raise-Keeps Safe expired))
            (confirm_live_lem fs back)))

    confirm_state_lem :
        (st : Option Fields) → BackedBy st → Triple Safe (confirm_state st) (λ _. Safe) Safe
    unfolding confirm_state
    confirm_state_lem none back = raise-Keeps Safe _
    confirm_state_lem (some fs) back =
        if_Keeps Safe (is_pending fs) _ _ (confirm_pending_lem fs back) (raise-Keeps Safe _)

    -- Wherever `confirm` is cut short, the invariant stays.
    pub confirm_lem : Triple Safe confirm (λ _. Safe) Safe
    unfolding confirm
    confirm_lem = Triple-bind _ _ load_lem (λ st.
        Triple-weaken _ (λ s h. (h.0.0, h.1)) (λ a s h. h) (λ s h. h)
          (Triple-fact _ (λ back. confirm_state_lem st back)))
