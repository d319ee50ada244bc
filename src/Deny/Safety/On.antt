-- ===== src/Deny/Safety/On.antt =====
-- `on`: whatever befalls it, a config that denies stands under the pending state of the trial.
use bazzite_tower.Prelude.{
  ℕ, String, ◌≡◌, refl, Bool, true, false, Option, some, List, [], ◌∷◌, ◌++◌, =s=_iff, is_empty,
  Json, obj, Fields, Result, ok, err,
}
use bazzite_tower.Deny.System.{System, Host, IsLawful, config}
use bazzite_tower.Deny.Run.Triple.{
  Triple, Triple-pure, Triple-require, Triple-lift, Triple-bind, Triple-weaken, Triple-fact,
  Triple-catch,
}
use bazzite_tower.Deny.Edit.{Action, allow, deny, other, current_action}
use bazzite_tower.Deny.Files.{Metadata}
use bazzite_tower.Deny.Report.{
  Findings, of_document, address_of, profile_of, of_address, config_findings, with_blocker, inspect,
}
use bazzite_tower.Deny.Trial.{trial_state, trial_blockers, turn_on}
use bazzite_tower.Deny.Safety.Views.{action_at, BackedBy, Safe}
use bazzite_tower.Deny.Safety.Calls.{read_config_lem, service_active_lem}
use bazzite_tower.Deny.Safety.Writes.{utcnow-Keeps, random_id-Keeps, boot_id-Keeps}
use bazzite_tower.Deny.Safety.Reports.{
  load_state-Keeps, is_expired-Keeps, deny_opt_in-Keeps, lookup-Keeps,
}
use bazzite_tower.Deny.Safety.Start.{Allowed, start_trial_lem}
use bazzite_tower.Deny.Safety.Off.{Triple-end}

is_empty-append : (xs ys : List String) → is_empty (xs ++ ys) ≡ true → is_empty xs ≡ true
is_empty-append [] ys h = refl
is_empty-append (x ∷ xs) ys h = h

is_empty-append_right : (xs ys : List String) → is_empty (xs ++ ys) ≡ true → is_empty ys ≡ true
is_empty-append_right [] ys h = h
is_empty-append_right (x ∷ xs) ys h = cc

is_empty-with_blocker :
    (b : Bool) (m : String) (f : Findings)
    → is_empty (with_blocker b m f).blockers ≡ true
    → is_empty f.blockers ≡ true
unfolding with_blocker
is_empty-with_blocker true m f h = is_empty-append f.blockers _ h
is_empty-with_blocker false m f h = h

module _ ⦃host : Host⦄ where
  of_address-allow :
      (action : Action) (fs : Fields) (a : Result (Option Json))
      → is_empty (of_address action fs a).blockers ≡ true
      → action ≡ allow
  of_address-allow action fs (err e) h = cc
  of_address-allow allow fs (ok a) h = refl
  of_address-allow deny fs (ok a) h = cc (is_empty-append_right (profile_of a).1 _ h)
  of_address-allow other fs (ok a) h = cc (is_empty-append_right (profile_of a).1 _ h)

  of_document-allow :
      (action : Action) (j : Option Json)
      → is_empty (of_document action j).blockers ≡ true
      → action ≡ allow
  of_document-allow action (some (obj fs)) h = of_address-allow action fs (address_of fs) h
  of_document-allow action _ h = cc

  config_findings-allow :
      (bytes : List ℕ)
      → is_empty (config_findings bytes).blockers ≡ true
      → current_action bytes ≡ allow
  unfolding config_findings
  config_findings-allow bytes h = of_document-allow (current_action bytes) (host.loads bytes) h

  -- A report of no blocker: the config allows.
  abbrev Vouches : List String → System → Type 0
  Vouches blockers s = is_empty blockers ≡ true → action_at (s.disk config) ≡ allow

  inspect_lem : (P : System → Type 0) → Triple P inspect (λ f s. P s × Vouches f.blockers s) P
  unfolding inspect
  inspect_lem P =
      Triple-bind {Q = λ f s. P s × Vouches f.blockers s} _ _
        (Triple-catch P _ _
          (Triple-bind _ _ (read_config_lem P) (λ r. Triple-pure _ (λ s (h, n, e, w).
            (h, λ none_found. rw (e, w) (config_findings-allow r.0 none_found)))))
          (λ e. Triple-pure _ (λ s h. (h, λ none_found. cc))) (λ s h. h))
        (λ f.
          Triple-bind _ _
            (Triple-end _ (λ s h. h.0) (service_active_lem (λ s. P s × Vouches f.blockers s)))
            (λ active.
              Triple-bind _ _
                (Triple-end _ (λ s h. h.0) (lookup-Keeps (λ s. P s × Vouches f.blockers s) _))
                (λ info. Triple-pure _ (λ s (h, v). (
                  h,
                  λ none_found.
                      v (is_empty-with_blocker _ _ f (is_empty-with_blocker _ _ _ none_found)),
                )))))

  trial_blockers_lem : (P : System → Type 0) → Triple P trial_blockers (λ b s. P s × Vouches b s) P
  unfolding trial_blockers
  trial_blockers_lem P = Triple-bind _ _ (inspect_lem P) (λ f.
      Triple-bind _ _
        (Triple-end _ (λ s h. h.0) (load_state-Keeps (λ s. P s × Vouches f.blockers s)))
        (λ st.
          Triple-bind _ _
            (Triple-end _ (λ s h. h.0) (is_expired-Keeps (λ s. P s × Vouches f.blockers s) st))
            (λ expired.
              Triple-bind _ _
                (Triple-end _ (λ s h. h.0) (deny_opt_in-Keeps (λ s. P s × Vouches f.blockers s)))
                (λ opt_in. Triple-pure _ (λ s (h, v). (
                  h,
                  λ none_found.
                      v (is_empty-with_blocker _ _ f (is_empty-with_blocker _ _ _ none_found)),
                ))))))

  -- The state of a new trial names the hash of a config that allows.
  trial_state-BackedBy :
      IsLawful host
      → (id : String) (now minutes : ℕ) (bytes : List ℕ) (m : Metadata) (denied : List ℕ)
        (boot : Option String)
      → current_action bytes ≡ allow
      → BackedBy (some (trial_state id now minutes bytes m denied boot))
  trial_state-BackedBy law id now minutes bytes m denied boot e other_bytes h =
      let same = law.sha256_injective other_bytes bytes ((=s=_iff _ _).0 h) in rw same e

  -- Wherever `turn_on` is cut short, and whatever its calls meet, the invariant stays.
  pub turn_on_lem : IsLawful host → (minutes : ℕ) → Triple Safe (turn_on minutes) (λ _. Safe) Safe
  unfolding turn_on
  turn_on_lem law minutes = Triple-bind _ _ (trial_blockers_lem Safe) (λ blockers.
      Triple-bind {Q = λ _. Allowed} _ _ (Triple-require _ _ (λ s e (h, v). (h, v e)) (λ s h. h.0))
        (λ _.
          Triple-bind {Q = λ r s. Allowed s × (current_action r.0 ≡ allow)} _ _
            (Triple-weaken _ (λ s h. h)
              (λ r s ((h, a), n, e, w). ((h, a), rw (e, action_at, w) at a)) (λ s h. h.0)
              (read_config_lem Allowed))
            (λ (bytes, m). Triple-fact _ (λ allows.
              Triple-bind {Q = λ _. Allowed} _ _ (Triple-lift _ (λ a e s h. h) (λ s h. h.0))
                (λ denied.
                  Triple-bind {Q = λ _. Allowed} _ _
                    (Triple-end _ (λ s h. h.0) (utcnow-Keeps Allowed))
                    (λ now.
                      Triple-bind {Q = λ _. Allowed} _ _
                        (Triple-end _ (λ s h. h.0) (random_id-Keeps Allowed))
                        (λ id.
                          Triple-bind {Q = λ _. Allowed} _ _
                            (Triple-end _ (λ s h. h.0) (boot_id-Keeps Allowed))
                            (λ boot.
                              start_trial_lem law bytes denied m _
                                (trial_state-BackedBy law id now minutes bytes m denied boot allows)
                                refl refl))))))))
