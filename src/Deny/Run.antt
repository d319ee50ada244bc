-- ===== src/Deny/Run.antt =====
-- How the helper runs: a call of the system may succeed, raise before or after its effect, or be
-- the last that the process makes. A schedule of such events is part of the state.
pub mod Triple
pub mod Keeps
pub mod Returns
use bazzite_tower.Prelude.{
  String, ◌≡◌, Bool, true, false, Option, none, some, List, [], ◌∷◌, Error, Result, ok, err,
  refusal, if◌then◌else◌,
}
use bazzite_tower.Deny.System.{System}

-- What befalls the next system call. `dead`: the call returns, and a service that it started
-- is not active.
pub data Fault : Type 0 where
  fine fail late crash dead : Fault

pub data Outcome {ℓ} (A : Type ℓ) : Type ℓ where
  done : A → Outcome A
  raised : Error → Outcome A
  -- The process was killed, or the power was lost.
  killed : Outcome A

pub record Run : Type 0 where
  pub sys : System
  -- What the coming calls meet; past its end all are fine.
  pub faults : List Fault

abbrev pub M : Type 0 → Type 0
M A = Run → Outcome A × Run

abbrev pub at_system : System → List Fault → Run
at_system s fs = record { sys = s; faults = fs }

module _ {A : Type 0} where
  unfoldable pub pure : A → M A
  pure a r = (done a, r)

  unfoldable pub raise : Error → M A
  raise e r = (raised e, r)

  abbrev pub ask_at : Fault → Error → (System → A) → System → Outcome A
  ask_at fail e g s = raised e
  ask_at late e g s = raised e
  ask_at crash e g s = killed
  ask_at _ e g s = done (g s)

  abbrev pub ask_run : List Fault → Error → (System → A) → System → Outcome A × Run
  ask_run [] e g s = (done (g s), at_system s [])
  ask_run (x ∷ xs) e g s = (ask_at x e g s, at_system s xs)

  -- A call that only reads.
  unfoldable pub ask : Error → (System → A) → M A
  ask e g r = ask_run r.faults e g r.sys

  -- A pure step that may raise.
  unfoldable pub lift : Result A → M A
  lift (ok a) r = (done a, r)
  lift (err e) r = (raised e, r)

abbrev pub change_at :
    Fault → Error → (Fault → System → System) → System → Outcome (Unit {0}) × System
change_at fail e f s = (raised e, s)
change_at late e f s = (raised e, f late s)
change_at crash e f s = (killed, s)
change_at x e f s = (done tt, f x s)

abbrev pub change_run :
    List Fault → Error → (Fault → System → System) → System → Outcome (Unit {0}) × Run
change_run [] e f s = (done tt, at_system (f fine s) [])
change_run (x ∷ xs) e f s = let (o, s') = change_at x e f s in (o, at_system s' xs)

-- A call that changes the system; what it does may depend on what befalls it.
unfoldable pub change : Error → (Fault → System → System) → M (Unit {0})
change e f r = change_run r.faults e f r.sys

module _ {A B : Type 0} where
  abbrev pub continue : Outcome A → (A → M B) → M B
  continue (done a) f r = f a r
  continue (raised e) f r = (raised e, r)
  continue killed f r = (killed, r)

  infixl 5 ◌>>=◌ ◌>>◌
  unfoldable pub ◌>>=◌ : M A → (A → M B) → M B
  ◌>>=◌ m f r = let (o, r') = m r in continue o f r'

  abbrev pub ◌>>◌ : M A → M B → M B
  m >> k = m >>= λ _. k

module _ {A : Type 0} where
  abbrev pub handle : Outcome A → (Error → M A) → M A
  handle (done a) h r = (done a, r)
  handle (raised e) h r = h e r
  handle killed h r = (killed, r)

  -- `try: m` with `except: h`
  unfoldable pub catch : M A → (Error → M A) → M A
  catch m h r = let (o, r') = m r in handle o h r'

  abbrev pub conclude : Outcome A → M (Unit {0}) → M A
  conclude (done a) m r = (m >>= λ _. pure a) r
  conclude (raised e) m r = (m >>= λ _. raise e) r
  conclude killed m r = (killed, r)

  -- `try: m` with `finally: k`
  unfoldable pub finally : M A → M (Unit {0}) → M A
  finally m k r = let (o, r') = m r in conclude o k r'

-- `common.require(condition, message)`
unfoldable pub require : Bool → String → M (Unit {0})
require true message = pure tt
require false message = raise (refusal message)
