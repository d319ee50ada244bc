-- ===== src/Deny/Main/Lock.antt =====
-- The wait for the policy lock ends: with the lock, or with the refusal of a timeout.
use bazzite_tower.Prelude.{
  ℕ, zero, suc, ◌+◌, ◌-◌, ◌*◌, ◌≤◌, ◌<◌, ◌≡◌, refl, sym, subst, ◌∙◌, inl, inr, Bool, true, false,
  leb, arith, ◌==◌, ◌⊎◌, Bool-cases,
}
use bazzite_tower.Deny.Run.{Run, Outcome, done, raised, M, pure, raise, ◌>>=◌}
use bazzite_tower.Deny.Main.{holders, clock, lock_poll, sleep, wait_for_lock, timed_out}

-- The lock is taken: the sleeps took their time, and no file changed.
pub record Waited (r : Run) (x : Outcome (Unit {0}) × Run) : Type 0 where
  pub outcome : x.0 ≡ done tt
  pub held : x.1.sys.held ≡ 0
  pub now : x.1.sys.now ≡ r.sys.now + r.sys.held * lock_poll
  pub disk : x.1.sys.disk ≡ r.sys.disk

-- The refusal: at the deadline or less than a poll behind it, another writer holds the lock, and no
-- file changed.
pub record TimedOut (deadline : ℕ) (r : Run) (x : Outcome (Unit {0}) × Run) : Type 0 where
  pub outcome : x.0 ≡ raised timed_out
  pub reached : deadline ≤ x.1.sys.now
  pub at_once : x.1.sys.now < deadline + lock_poll
  pub still_held : ¬ (x.1.sys.held ≡ 0)
  pub disk : x.1.sys.disk ≡ r.sys.disk

abbrev slept : Run → Run
slept r = record r { sys = record r.sys { held = r.sys.held - 1; now = r.sys.now + lock_poll } }

is_zero : (n : ℕ) → (((n == 0) ≡ true) × (n ≡ 0)) ⊎ (((n == 0) ≡ false) × ¬ (n ≡ 0))
is_zero zero = inl (refl, refl)
is_zero (suc n) = inr (ground arith, λ e. omega arith)

-- What a round does where the lock is held.
abbrev poll : ℕ → ℕ → Bool → M (Unit {0})
poll deadline fuel b = elim b [
  | true ↦ raise timed_out
  | false ↦ sleep >>= λ _. wait_for_lock deadline fuel
]

abbrev round : ℕ → ℕ → Bool → M (Unit {0})
round deadline fuel b = elim b [
  | true ↦ pure tt
  | false ↦ clock >>= λ now. poll deadline fuel (leb deadline now)
]

at_round :
    (deadline fuel : ℕ) (r : Run) (P : Outcome (Unit {0}) × Run → Type 0) (b : Bool)
    → (r.sys.held == 0) ≡ b
    → P (round deadline fuel b r)
    → P (wait_for_lock deadline (suc fuel) r)
unfolding wait_for_lock holders pure ◌>>=◌
at_round deadline fuel r P b e p = subst (λ (c : Bool). P (round deadline fuel c r)) (sym e) p

pub at_free :
    (deadline fuel : ℕ) (r : Run) (P : Outcome (Unit {0}) × Run → Type 0)
    → (r.sys.held == 0) ≡ true
    → P (pure tt r)
    → P (wait_for_lock deadline (suc fuel) r)
at_free deadline fuel r P e p = at_round deadline fuel r P true e p

at_held :
    (deadline fuel : ℕ) (r : Run) (P : Outcome (Unit {0}) × Run → Type 0) (b : Bool)
    → (r.sys.held == 0) ≡ false
    → leb deadline r.sys.now ≡ b
    → P (poll deadline fuel b r)
    → P (wait_for_lock deadline (suc fuel) r)
unfolding clock pure ◌>>=◌
at_held deadline fuel r P b e late p =
    at_round deadline fuel r P false e
      (subst (λ (c : Bool). P (poll deadline fuel c r)) (sym late) p)

-- If the rounds reach the deadline, as those of `policy_lock` do, and the lock is free at a poll that is
-- reached before the deadline has passed, the wait returns with the lock, after one sleep for each
-- poll that found it held, and no file has changed.
pub wait_for_lock-Waited :
    (deadline fuel : ℕ) (r : Run)
    → deadline + lock_poll ≤ r.sys.now + fuel * lock_poll
    → r.sys.now + r.sys.held * lock_poll < deadline + lock_poll
    → Waited r (wait_for_lock deadline fuel r)
unfolding sleep pure ◌>>=◌
wait_for_lock-Waited deadline zero r enough free = absurd (omega arith)
wait_for_lock-Waited deadline (suc fuel) r enough free = elim (is_zero r.sys.held) [
  | inl (e, z) ↦
      at_free deadline fuel r (Waited r) e
        (record { outcome = refl; held = z; now = omega arith; disk = refl })
  | inr (e, n) ↦
      let w = wait_for_lock-Waited deadline fuel (slept r) (omega arith) (omega arith) in
      at_held deadline fuel r (Waited r) false e (ground arith)
        (record { outcome = w.outcome; held = w.held; now = w.now ∙ omega arith; disk = w.disk })
]

-- If another writer holds the lock until a poll at or behind the deadline, the wait ends with the refusal
-- of the first poll that finds the deadline passed, and no file has changed.
pub wait_for_lock-TimedOut :
    (deadline fuel : ℕ) (r : Run)
    → deadline + lock_poll ≤ r.sys.now + fuel * lock_poll
    → r.sys.now < deadline + lock_poll
    → deadline + lock_poll ≤ r.sys.now + r.sys.held * lock_poll
    → TimedOut deadline r (wait_for_lock deadline fuel r)
unfolding sleep pure raise ◌>>=◌
wait_for_lock-TimedOut deadline zero r enough early held = absurd (omega arith)
wait_for_lock-TimedOut deadline (suc fuel) r enough early held = elim (is_zero r.sys.held) [
  | inl (e, z) ↦ absurd (omega arith)
  | inr (e, n) ↦ elim (Bool-cases (leb deadline r.sys.now)) [
    | inl late ↦ at_held deadline fuel r (TimedOut deadline r) true e late (record {
      outcome = refl;
      reached = ground arith;
      at_once = early;
      still_held = n;
      disk = refl;
    })
    | inr in_time ↦
        let before : r.sys.now < deadline = ground arith in
        let w =
          wait_for_lock-TimedOut deadline fuel (slept r) (omega arith) (omega arith)
            (omega arith) in
        at_held deadline fuel r (TimedOut deadline r) false e in_time (record {
          outcome = w.outcome;
          reached = w.reached;
          at_once = w.at_once;
          still_held = w.still_held;
          disk = w.disk;
        })
  ]
]
