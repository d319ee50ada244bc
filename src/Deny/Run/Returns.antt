-- ===== src/Deny/Run/Returns.antt =====
-- Runs that meet no fault: what they return, and the system that they leave.
use bazzite_tower.Prelude.{
  String, ◌≡◌, refl, ap, ◌∙◌, Bool, true, false, [], Error, Result, ok, refusal, if◌then◌else◌,
}
use bazzite_tower.Deny.System.{System}
use bazzite_tower.Deny.Run.{
  Fault, fine, done, raised, at_system, M, pure, raise, ask, lift, change, continue, ◌>>=◌, handle,
  catch, conclude, finally, require,
}

-- Without faults the run from `s` returns `a` and leaves `t`.
abbrev pub Returns : {A : Type 0} → M A → System → A → System → Type 0
Returns m s a t = m (at_system s []) ≡ (done a, at_system t [])

module _ {A B : Type 0} where
  -- What is left of a run behind its first part.
  pub bind_step :
      (m : M A) (f : A → M B) (s : System) (a : A) (t : System)
      → Returns m s a t
      → (m >>= f) (at_system s []) ≡ f a (at_system t [])
  unfolding ◌>>=◌
  bind_step m f s a t first = ap (λ x. continue (x.0) f (x.1)) first

  pub bind_Returns :
      (m : M A) (f : A → M B) (s : System) (a : A) (t : System) (b : B) (u : System)
      → Returns m s a t
      → Returns (f a) t b u
      → Returns (m >>= f) s b u
  unfolding ◌>>=◌
  bind_Returns m f s a t b u first second = ap (λ x. continue (x.0) f (x.1)) first ∙ second

module _ {A : Type 0} where
  pub catch-Returns :
      (m : M A) (h : Error → M A) (s : System) (a : A) (t : System)
      → Returns m s a t
      → Returns (catch m h) s a t
  unfolding catch
  catch-Returns m h s a t first = ap (λ x. handle (x.0) h (x.1)) first

  pub finally-Returns :
      (m : M A) (s : System) (a : A) (t : System)
      → Returns m s a t
      → Returns (finally m (pure tt)) s a t
  unfolding finally pure ◌>>=◌
  finally-Returns m s a t first = ap (λ x. conclude (x.0) (pure tt) (x.1)) first

  pub lift-Returns : (r : Result A) (s : System) (a : A) → r ≡ ok a → Returns (lift r) s a s
  unfolding lift
  lift-Returns r s a h = ap (λ q. lift q (at_system s [])) h

  pub then_Returns :
      (b : Bool) (m k : M A) (s : System) (a : A) (t : System)
      → b ≡ true
      → Returns m s a t
      → Returns (if b then m else k) s a t
  then_Returns b m k s a t h first = rw h first

  pub else_Returns :
      (b : Bool) (m k : M A) (s : System) (a : A) (t : System)
      → b ≡ false
      → Returns k s a t
      → Returns (if b then m else k) s a t
  else_Returns b m k s a t h first = rw h first

  pub ask-Returns :
      (e : Error) (g : System → A) (s : System) (a : A) → g s ≡ a → Returns (ask e g) s a s
  unfolding ask
  ask-Returns e g s a h = ap (λ x. (done x, at_system s [])) h

pub require-Returns :
    (b : Bool) (message : String) (s : System) → b ≡ true → Returns (require b message) s tt s
unfolding require pure
require-Returns b message s h = ap (λ c. require c message (at_system s [])) h

pub change-Returns :
    (e : Error) (f : Fault → System → System) (s : System) → Returns (change e f) s tt (f fine s)
unfolding change
change-Returns e f s = refl

-- Without faults the run from `s` raises `e` there.
abbrev pub Raises : {A : Type 0} → M A → System → Error → Type 0
Raises m s e = m (at_system s []) ≡ (raised e, at_system s [])

pub require-Raises :
    (b : Bool) (message : String) (s : System)
    → b ≡ false
    → Raises (require b message) s (refusal message)
unfolding require raise
require-Raises b message s h = ap (λ c. require c message (at_system s [])) h

module _ {A B : Type 0} where
  pub bind_Raises :
      (m : M A) (f : A → M B) (s : System) (e : Error) → Raises m s e → Raises (m >>= f) s e
  unfolding ◌>>=◌
  bind_Raises m f s e first = ap (λ x. continue (x.0) f (x.1)) first

  -- The second part raises.
  pub bind_Raises_after :
      (m : M A) (f : A → M B) (s : System) (a : A) (e : Error)
      → Returns m s a s
      → Raises (f a) s e
      → Raises (m >>= f) s e
  unfolding ◌>>=◌
  bind_Raises_after m f s a e first second = ap (λ x. continue (x.0) f (x.1)) first ∙ second

module _ {A : Type 0} where
  pub catch-Raises :
      (m : M A) (h : Error → M A) (s : System) (e : Error) (a : A) (t : System)
      → Raises m s e
      → Returns (h e) s a t
      → Returns (catch m h) s a t
  unfolding catch
  catch-Raises m h s e a t first second = ap (λ x. handle (x.0) h (x.1)) first ∙ second
