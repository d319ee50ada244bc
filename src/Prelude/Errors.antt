-- ===== src/Prelude/Errors.antt =====
-- What the programs raise, and pure code that may raise.
use Prim.Native.String.{String}
use mathlib.Core.Path.{◌≡◌, refl, ap}
use mathlib.Core.Bool.{Bool, true, false}

-- The exception classes that the programs raise or catch, with the message.
pub data Error : Type 0 where
  -- `common.Refusal`, a RuntimeError
  refusal : String → Error
  -- The Refusal of a busy policy lock, whose attribute `busy` is set.
  busy : Error
  value_error : String → Error
  key_error : String → Error
  type_error : String → Error
  os_error : String → Error
  file_not_found : Error
  -- `subprocess.TimeoutExpired` and `CalledProcessError`
  subprocess_error : String → Error

-- `str(error)`
abbrev pub error_text : Error → String
error_text (refusal m) = m
error_text busy = "another snitchwatch policy writer holds the lock; retry when it finishes"
error_text (value_error m) = m
error_text (key_error m) = m
error_text (type_error m) = m
error_text (os_error m) = m
error_text file_not_found = "No such file or directory"
error_text (subprocess_error m) = m

-- The value of a computation, or what it raised.
pub data Result {ℓ} (V : Type ℓ) : Type ℓ where
  ok : V → Result V
  err : Error → Result V

module _ {ℓ κ} {V : Type ℓ} {W : Type κ} where
  infixl 5 ◌>>=◌
  -- The next statement runs on the value; what was raised is passed on.
  abbrev pub ◌>>=◌ : Result V → (V → Result W) → Result W
  x >>= next = elim x [ ok v ↦ next v | err raised ↦ err raised ]

  -- Where a statement and the next one both return, the first had a value.
  pub >>=-eq-ok :
      (x : Result V) (next : V → Result W) {w : W}
      → (x >>= next) ≡ ok w
      → (v : V) × (x ≡ ok v) × (next v ≡ ok w)
  >>=-eq-ok (err raised) next returns = cc
  >>=-eq-ok (ok v) next returns = (v, refl, returns)

module _ {ℓ} {W : Type ℓ} where
  infixl 5 ◌>>◌
  abbrev pub ◌>>◌ : Result (Unit {0}) → Result W → Result W
  check >> after = check >>= λ _. after

-- `require(condition, message)` of the control scripts, which raises ValueError.
abbrev pub require : Bool → String → Result (Unit {0})
require true message = ok tt
require false message = err (value_error message)

-- Where a check and what follows return, the check holds.
pub require-eq-ok {ℓ} :
    {W : Type ℓ} (holds : Bool) (message : String) (after : Result W) {w : W}
    → (require holds message >> after) ≡ ok w
    → (holds ≡ true) × (after ≡ ok w)
require-eq-ok true message after returns = (refl, returns)
require-eq-ok false message after returns = cc

pub require_holds :
    (holds : Bool) (message : String) (u : Unit {0}) → require holds message ≡ ok u → holds ≡ true
require_holds true message u returns = refl
require_holds false message u returns = cc

pub ok_injective {ℓ} : {V : Type ℓ} {v w : V} → ok v ≡ ok w → v ≡ w
ok_injective {v = v} same = ap (λ r. elim r [ ok x ↦ x | err raised ↦ v ]) same
