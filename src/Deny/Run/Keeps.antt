-- ===== src/Deny/Run/Keeps.antt =====
-- What every action that is built from keeping actions keeps; rules for `search`.
use bazzite_tower.Prelude.{String, Bool, Error, Result, if◌then◌else◌}
use bazzite_tower.Deny.System.{System}
use bazzite_tower.Deny.Run.{M, pure, raise, ask, lift, ◌>>=◌, catch, finally, require}
use bazzite_tower.Deny.Run.Triple.{
  Triple, Keeps, Triple-pure, Triple-raise, Triple-ask, Triple-lift, Triple-require, Triple-bind,
  Triple-catch, Triple-if, Triple-weaken, Triple-finally,
}

module _ {A : Type 0} (P : System → Type 0) where
  pub pure-Keeps : (a : A) → Keeps P (pure a)
  pure-Keeps a = Triple-pure a (λ s h. h)

  pub raise-Keeps : (e : Error) → Keeps P (raise {A = A} e)
  raise-Keeps e = Triple-raise e (λ s h. h)

  pub ask-Keeps : (e : Error) (g : System → A) → Keeps P (ask e g)
  ask-Keeps e g = Triple-ask e g (λ s h. h) (λ s h. h)

  pub lift-Keeps : (x : Result A) → Keeps P (lift x)
  lift-Keeps x = Triple-lift x (λ a e s h. h) (λ s h. h)

  pub if_Keeps : (b : Bool) (m n : M A) → Keeps P m → Keeps P n → Keeps P (if b then m else n)
  if_Keeps b m n x y = Triple-if b m n (λ _. x) (λ _. y)

  pub catch-Keeps :
      (m : M A) (h : Error → M A) → Keeps P m → ((e : Error) → Keeps P (h e)) → Keeps P (catch m h)
  catch-Keeps m h x y = Triple-catch P m h x y (λ s k. k)

  pub finally-Keeps : (m : M A) (k : M (Unit {0})) → Keeps P m → Keeps P k → Keeps P (finally m k)
  finally-Keeps m k x y = Triple-finally (λ _ s. P s) P (λ _ s. P s) P m k x (λ _. y) y (λ s h. h)

  -- A read whose result a rule describes.
  pub forget-Keeps :
      {R : A → System → Type 0} (m : M A)
      → Triple P m R P
      → ((a : A) (s : System) → R a s → P s)
      → Keeps P m
  forget-Keeps m t k = Triple-weaken m (λ s h. h) k (λ s h. h) t

module _ {A B : Type 0} (P : System → Type 0) where
  pub bind-Keeps :
      (m : M A) (f : A → M B) → Keeps P m → ((a : A) → Keeps P (f a)) → Keeps P (m >>= f)
  bind-Keeps m f h k = Triple-bind m f h k

pub require-Keeps :
    (P : System → Type 0) (b : Bool) (message : String) → Keeps P (require b message)
require-Keeps P b message = Triple-require b message (λ s e h. h) (λ s h. h)

pub ruleset keeps_rules = (
  pure-Keeps, raise-Keeps, ask-Keeps, lift-Keeps, if_Keeps, catch-Keeps, finally-Keeps, bind-Keeps,
  require-Keeps,
)
