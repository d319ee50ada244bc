-- ===== src/Gate/Verdict.antt =====
-- When the gate passes.
use bazzite_tower.Prelude.{
  ℕ, zero, suc, String, ◌<>◌, ◌≡◌, ◌↔◌, refl, sym, ap, ◌∙◌, inl, inr, Bool, true, false, ◌&&◌, ◌||◌,
  not, Option, none, some, List, [], ◌∷◌, all, any, is_empty, ◌=s=◌, Dict, arith, Bool-cases,
  Result, ok, err, error_text, ◌>>=◌,
}
use bazzite_tower.Gate.{
  Status, pass, fail, blocked, Code, exited, signaled, Process, not_started, timed_out, ended,
  Source, Input, missing, single, folder, Check, checks, inputs, adaptations, copy, copy_input,
  copy_all, adapt_all, snapshot, execute, Entry, World, is_pass, is_fail, is_blocked, missing_tools,
  reason_of, attempt, first_error, Copies, Records, run_checks, of_snapshot, isolated, or_isolated,
  offline_of, exit_of, run,
}

abbrev pub returned {ℓ} : {V : Type ℓ} → Result V → Bool
returned (ok v) = true
returned (err error) = false

-- An exit code of zero, and no time-out or signal.
abbrev pub succeeded : Process → Bool
succeeded (ended (exited zero) log) = true
succeeded _ = false

-- A source is copied: it is no link and no private key.
abbrev pub is_clean : Source → Bool
is_clean s = not s.is_link && (s.is_directory || not (s.name =s= "cosign.key"))

abbrev pub is_clean_input : Input → Bool
is_clean_input missing = false
is_clean_input (single s) = is_clean s
is_clean_input (folder ss) = all is_clean ss

execute_pass : (process : Process) → is_pass ((execute process).0) ≡ succeeded process
unfolding execute
execute_pass (not_started message) = refl
execute_pass (timed_out text) = refl
execute_pass (ended (exited zero) text) = refl
execute_pass (ended (exited (suc n)) text) = refl
execute_pass (ended (signaled n) text) = refl

none_missing :
    (which : String → Bool) (tools : List String)
    → is_empty (missing_tools which tools) ≡ all which tools
none_missing which [] = refl
none_missing which (tool ∷ tools) = elim (Bool-cases (which tool)) [
  | inl e ↦ rw e (none_missing which tools)
  | inr e ↦ rw e refl
]

module _ (digest : List ℕ → String) where
  copy_clean :
      (ss : List Source) (acc : Copies × Records) → returned (copy digest ss acc) ≡ all is_clean ss
  unfolding copy
  copy_clean [] acc = refl
  copy_clean (s ∷ ss) (copies, records) = elim (Bool-cases s.is_link) [
    | inl link ↦ rw link refl
    | inr no_link ↦ elim (Bool-cases s.is_directory) [
      | inl directory ↦ rw (no_link, directory) (copy_clean ss (copies, records))
      | inr file ↦ elim (Bool-cases (s.name =s= "cosign.key")) [
        | inl key ↦ rw (no_link, file, key) refl
        | inr no_key ↦ rw (no_link, file, no_key) (copy_clean ss _)
      ]
    ]
  ]

  copy_input_clean :
      (i : Input) (acc : Copies × Records) → returned (copy_input digest i acc) ≡ is_clean_input i
  copy_input_clean missing acc = refl
  copy_input_clean (single s) acc = copy_clean (s ∷ []) acc ∙ ground arith
  copy_input_clean (folder ss) acc = copy_clean ss acc

  copy_step :
      (here : Result (Copies × Records)) (clean : Bool)
      (after : Copies × Records → Result (Copies × Records)) (rest : Bool)
      → returned here ≡ clean
      → ((acc : Copies × Records) → returned (after acc) ≡ rest)
      → returned (here >>= after) ≡ (clean && rest)
  copy_step (ok copied) clean after rest h k = k copied ∙ rw (sym h) refl
  copy_step (err error) clean after rest h k = rw (sym h) refl

  copy_all_clean :
      (tree : String → Input) (names : List String) (acc : Copies × Records)
      → returned (copy_all digest tree names acc) ≡ all (λ name. is_clean_input (tree name)) names
  unfolding copy_all
  copy_all_clean tree [] acc = refl
  copy_all_clean tree (name ∷ names) acc =
      copy_step (copy_input digest (tree name) acc) (is_clean_input (tree name))
        (copy_all digest tree names) (all (λ n. is_clean_input (tree n)) names)
        (copy_input_clean (tree name) acc) (copy_all_clean tree names)

  -- What is left to do of a snapshot behind its copies.
  abbrev pub adapts : Result (Copies × Records) → Bool
  adapts (err error) = false
  adapts (ok (copies, records)) = returned (adapt_all digest adaptations copies)

  -- The result of a snapshot, of what it copied and what it adapted.
  abbrev joined :
      Copies × Records
      → Copies × Dict String String
      → Result (Copies × Records × Dict String String)
  joined copied adapted = ok (adapted.0, copied.1, adapted.1)

  joined_last :
      (copied : Copies × Records) (r : Result (Copies × Dict String String))
      → returned (r >>= joined copied) ≡ returned r
  joined_last copied (ok v) = refl
  joined_last copied (err error) = refl

  abbrev adapted_of : Copies × Records → Result (Copies × Records × Dict String String)
  adapted_of copied = adapt_all digest adaptations (copied.0) >>= joined copied

  behind_copies :
      (taken : Result (Copies × Records))
      → returned (taken >>= adapted_of) ≡ (returned taken && adapts taken)
  behind_copies (err error) = refl
  behind_copies (ok (copies, records)) =
      joined_last (copies, records) (adapt_all digest adaptations copies)

  snapshot_clean :
      (tree : String → Input)
      → returned (snapshot digest tree) ≡ (
          all (λ name. is_clean_input (tree name)) inputs
          && adapts (copy_all digest tree inputs ([], [])))
  unfolding snapshot
  snapshot_clean tree =
      behind_copies (copy_all digest tree inputs ([], []))
      ∙ ap (λ b. b && adapts (copy_all digest tree inputs ([], [])))
          (copy_all_clean tree inputs ([], []))

pass_of : (s : Status) → (not (is_fail s) && not (is_blocked s)) ≡ is_pass s
pass_of pass = refl
pass_of fail = refl
pass_of blocked = refl

none_else :
    (es : List Entry)
    → (not (any (λ e. is_fail e.status) es) && not (any (λ e. is_blocked e.status) es))
      ≡ all (λ e. is_pass e.status) es
none_else [] = refl
none_else (e ∷ es) = ground (arith, pass_of e.status, none_else es)

exit_zero : (s : Status) → (exit_of s ≡ 0) ↔ (is_pass s ≡ true)
exit_zero pass = (λ h. refl, λ h. refl)
exit_zero fail = (λ h. ground arith, λ h. cc)
exit_zero blocked = (λ h. ground arith, λ h. cc)

module _ ⦃world : World⦄ where
  offline_pass : (es : List Entry) → is_pass (offline_of es) ≡ all (λ e. is_pass e.status) es
  offline_pass es = elim (Bool-cases (any (λ e. is_fail e.status) es)) [
    | inl f ↦ rw f (let e = none_else es in ground arith)
    | inr f ↦ elim (Bool-cases (any (λ e. is_blocked e.status) es)) [
      | inl b ↦ rw (f, b) (let e = none_else es in ground arith)
      | inr b ↦ rw (f, b) (let e = none_else es in ground arith)
    ]
  ]

  -- The tools of the check are there, and its process ends with the exit code 0.
  abbrev pub succeeds : Check → Bool
  succeeds c =
      all world.which c.dependencies
      && succeeded (world.process ("unshare" ∷ "--user" ∷ "--map-root-user" ∷ "--net" ∷ c.command))

  attempt_pass : (c : Check) → is_pass ((attempt (reason_of none c) c).0) ≡ succeeds c
  attempt_pass c =
      let process =
        world.process ("unshare" ∷ "--user" ∷ "--map-root-user" ∷ "--net" ∷ c.command) in
      let known = none_missing world.which c.dependencies in
      elim (Bool-cases (is_empty (missing_tools world.which c.dependencies))) [
        | inl e ↦ rw (e, sym known ∙ e) (execute_pass process)
        | inr e ↦ rw (e, sym known ∙ e) refl
      ]

  run_checks_pass :
      (cs : List Check) → all (λ e. is_pass e.status) (run_checks none cs) ≡ all succeeds cs
  unfolding run_checks
  run_checks_pass [] = refl
  run_checks_pass (c ∷ cs) = λ i. attempt_pass c i && run_checks_pass cs i

  -- Every input is there and is copied, the copies are adapted, a network namespace can be made, and every
  -- check succeeds.
  abbrev pub is_ready : Bool
  is_ready =
      (all (λ name. is_clean_input (world.tree name)) inputs
        && adapts world.digest (copy_all world.digest world.tree inputs ([], [])))
      && (succeeded world.isolation && all succeeds checks)

  -- Where there is a reason, the first check is blocked.
  blocked_all :
      (reason : String) → all (λ e. is_pass e.status) (run_checks (some reason) checks) ≡ false
  unfolding run_checks
  blocked_all reason = refl

  open_pass :
      (result : Status × Option Code × String)
      → all (λ e. is_pass e.status) (run_checks (isolated result) checks)
        ≡ (is_pass (result.0) && all succeeds checks)
  open_pass (pass, code, log) = run_checks_pass checks
  open_pass (fail, code, log) = blocked_all ("network isolation unavailable: " <> first_error log)
  open_pass (blocked, code, log) =
      blocked_all ("network isolation unavailable: " <> first_error log)

  results_pass :
      (taken : Result (Copies × Records × Dict String String))
      → all (λ e. is_pass e.status) (run_checks (or_isolated ((of_snapshot taken).1)) checks)
        ≡ (returned taken && (is_pass ((execute world.isolation).0) && all succeeds checks))
  results_pass (err error) = blocked_all (error_text error)
  results_pass (ok (copies, records, adapted)) = open_pass (execute world.isolation)

  run_pass : is_pass (run.offline) ≡ is_ready
  unfolding run
  run_pass =
      let taken = snapshot world.digest world.tree in
      offline_pass (run_checks (or_isolated ((of_snapshot taken).1)) checks)
      ∙ results_pass taken
      ∙ (λ i.
          snapshot_clean world.digest world.tree i
          && (execute_pass world.isolation i && all succeeds checks))

  run_exit : run.exit_code ≡ exit_of run.offline
  unfolding run
  run_exit = refl

  -- The gate exits with 0 exactly where every input is there, holds no link and no private key, its copies
  -- are adapted, a network namespace can be made, and every check has its tools and a process that
  -- ends with the exit code 0.
  pub run-is_ready : (run.exit_code ≡ 0) ↔ (is_ready ≡ true)
  run-is_ready =
      let zero_iff = exit_zero run.offline in
      (λ h. sym run_pass ∙ zero_iff.0 (sym run_exit ∙ h), λ h. run_exit ∙ zero_iff.1 (run_pass ∙ h))
