-- ===== src/Deny/Run/Triple.antt =====
-- Statements about a run under every schedule of faults: from a system with P it returns in a
-- system with Q, and where it raises or is killed it leaves a system with E.
use bazzite_tower.Prelude.{
  String, ◌≡◌, refl, Bool, true, false, List, [], ◌∷◌, Error, Result, ok, err, if◌then◌else◌,
}
use bazzite_tower.Deny.System.{System}
use bazzite_tower.Deny.Run.{
  Fault, fine, fail, late, crash, dead, Outcome, done, raised, killed, Run, M, pure, raise, ask_run,
  ask, lift, change_run, change, continue, ◌>>=◌, handle, catch, conclude, finally, require,
}

abbrev pub Ends :
    {A : Type 0} → (A → System → Type 0) → (System → Type 0) → Outcome A → System → Type 0
Ends Q E (done a) s = Q a s
Ends Q E (raised e) s = E s
Ends Q E killed s = E s

pub record Triple {A : Type 0} (P : System → Type 0) (m : M A) (Q : A → System → Type 0)
    (E : System → Type 0) : Type 0 where
  pub at : (r : Run) → P r.sys → Ends Q E (m r).0 (m r).1.sys

-- `m` keeps P, however it ends.
abbrev pub Keeps : {A : Type 0} → (System → Type 0) → M A → Type 0
Keeps P m = Triple P m (λ _ s. P s) P

module _ {A : Type 0} (Q : A → System → Type 0) (E : System → Type 0) where
  ask-Ends :
      (e : Error) (g : System → A) (xs : List Fault) (s : System)
      → Q (g s) s
      → E s
      → let r = ask_run xs e g s in Ends Q E r.0 r.1.sys
  ask-Ends e g [] s q h = q
  ask-Ends e g (fine ∷ xs) s q h = q
  ask-Ends e g (fail ∷ xs) s q h = h
  ask-Ends e g (late ∷ xs) s q h = h
  ask-Ends e g (crash ∷ xs) s q h = h
  ask-Ends e g (dead ∷ xs) s q h = q

  handle-Ends :
      (D : System → Type 0) (h : Error → M A)
      → ((e : Error) → Triple D (h e) Q E)
      → ((s : System) → D s → E s)
      → (o : Outcome A) (r : Run) → Ends Q D o r.sys
      → let x = handle o h r in Ends Q E x.0 x.1.sys
  handle-Ends D h k w (done a) r p = p
  handle-Ends D h k w (raised e) r p = (k e).at r p
  handle-Ends D h k w killed r p = w r.sys p

  Ends-weaken :
      (Q' : A → System → Type 0) (E' : System → Type 0)
      → ((a : A) (s : System) → Q a s → Q' a s)
      → ((s : System) → E s → E' s)
      → (o : Outcome A) (s : System) → Ends Q E o s
      → Ends Q' E' o s
  Ends-weaken Q' E' q w (done a) s h = q a s h
  Ends-weaken Q' E' q w (raised e) s h = w s h
  Ends-weaken Q' E' q w killed s h = w s h

module _ (Q : Unit {0} → System → Type 0) (E : System → Type 0) where
  change-Ends :
      (e : Error) (f : Fault → System → System) (xs : List Fault) (s : System)
      → ((x : Fault) → Q tt (f x s))
      → E s
      → E (f late s)
      → let r = change_run xs e f s in Ends Q E r.0 r.1.sys
  change-Ends e f [] s q h k = q fine
  change-Ends e f (fine ∷ xs) s q h k = q fine
  change-Ends e f (fail ∷ xs) s q h k = h
  change-Ends e f (late ∷ xs) s q h k = k
  change-Ends e f (crash ∷ xs) s q h k = h
  change-Ends e f (dead ∷ xs) s q h k = q dead

module _ {A B : Type 0} (Q : A → System → Type 0) (E : System → Type 0) where
  continue-Ends :
      (R : B → System → Type 0) (f : A → M B)
      → ((a : A) → Triple (Q a) (f a) R E)
      → (o : Outcome A) (r : Run) → Ends Q E o r.sys
      → let x = continue o f r in Ends R E x.0 x.1.sys
  continue-Ends R f k (done a) r h = (k a).at r h
  continue-Ends R f k (raised e) r h = h
  continue-Ends R f k killed r h = h

module _ {A : Type 0} {P : System → Type 0} {Q : A → System → Type 0} {E : System → Type 0} where
  pub Triple-pure : (a : A) → ((s : System) → P s → Q a s) → Triple P (pure a) Q E
  unfolding pure
  Triple-pure a k = record { at = λ r h. k r.sys h }

  pub Triple-raise : (e : Error) → ((s : System) → P s → E s) → Triple P (raise e) Q E
  unfolding raise
  Triple-raise e k = record { at = λ r h. k r.sys h }

  pub Triple-ask :
      (e : Error) (g : System → A)
      → ((s : System) → P s → Q (g s) s)
      → ((s : System) → P s → E s)
      → Triple P (ask e g) Q E
  unfolding ask
  Triple-ask e g q k = record {
    at = λ r h. ask-Ends Q E e g r.faults r.sys (q r.sys h) (k r.sys h);
  }

  pub Triple-lift :
      (x : Result A)
      → ((a : A) → x ≡ ok a → (s : System) → P s → Q a s)
      → ((s : System) → P s → E s)
      → Triple P (lift x) Q E
  unfolding lift
  Triple-lift (ok a) q k = record { at = λ r h. q a refl r.sys h }
  Triple-lift (err e) q k = record { at = λ r h. k r.sys h }

module _ {P : System → Type 0} {Q : Unit {0} → System → Type 0} {E : System → Type 0} where
  pub Triple-change :
      (e : Error) (f : Fault → System → System)
      → ((x : Fault) (s : System) → P s → Q tt (f x s))
      → ((s : System) → P s → E s)
      → ((s : System) → P s → E (f late s))
      → Triple P (change e f) Q E
  unfolding change
  Triple-change e f q k l = record {
    at = λ r h. change-Ends Q E e f r.faults r.sys (λ x. q x r.sys h) (k r.sys h) (l r.sys h);
  }

  pub Triple-require :
      (b : Bool) (message : String)
      → ((s : System) → b ≡ true → P s → Q tt s)
      → ((s : System) → P s → E s)
      → Triple P (require b message) Q E
  unfolding require pure raise
  Triple-require true message q k = record { at = λ r h. q r.sys refl h }
  Triple-require false message q k = record { at = λ r h. k r.sys h }

module _ {A B : Type 0} {P : System → Type 0} {E : System → Type 0} where
  pub Triple-bind :
      {Q : A → System → Type 0} {R : B → System → Type 0} (m : M A) (f : A → M B)
      → Triple P m Q E
      → ((a : A) → Triple (Q a) (f a) R E)
      → Triple P (m >>= f) R E
  unfolding ◌>>=◌
  Triple-bind {Q} {R} m f h k = record {
    at = λ r p. continue-Ends Q E R f k (m r).0 (m r).1 (h.at r p);
  }

module _ {A : Type 0} {P E : System → Type 0} {Q : A → System → Type 0} where
  pub Triple-catch :
      (D : System → Type 0) (m : M A) (h : Error → M A)
      → Triple P m Q D
      → ((e : Error) → Triple D (h e) Q E)
      → ((s : System) → D s → E s)
      → Triple P (catch m h) Q E
  unfolding catch
  Triple-catch D m h t k w = record {
    at = λ r p. handle-Ends Q E D h k w (m r).0 (m r).1 (t.at r p);
  }

  pub Triple-if :
      (b : Bool) (m n : M A)
      → (b ≡ true → Triple P m Q E)
      → (b ≡ false → Triple P n Q E)
      → Triple P (if b then m else n) Q E
  Triple-if true m n x y = x refl
  Triple-if false m n x y = y refl

  -- The rule of consequence.
  pub Triple-weaken :
      {P' : System → Type 0} {Q' : A → System → Type 0} {E' : System → Type 0} (m : M A)
      → ((s : System) → P' s → P s)
      → ((a : A) (s : System) → Q a s → Q' a s)
      → ((s : System) → E s → E' s)
      → Triple P m Q E
      → Triple P' m Q' E'
  Triple-weaken {Q'} {E'} m p q w t = record {
    at = λ r h. Ends-weaken Q E Q' E' q w (m r).0 (m r).1.sys (t.at r (p r.sys h));
  }

module _ {A : Type 0} (Q : A → System → Type 0) (E : System → Type 0) where
  conclude-Ends :
      (B : A → System → Type 0) (D : System → Type 0) (k : M (Unit {0}))
      → ((a : A) → Triple (B a) k (λ _ s. Q a s) E)
      → Triple D k (λ _ s. E s) E
      → ((s : System) → D s → E s)
      → (o : Outcome A) (r : Run) → Ends B D o r.sys
      → let x = conclude o k r in Ends Q E x.0 x.1.sys
  conclude-Ends B D k q e w (done a) r h =
      (Triple-bind k (λ _. pure a) (q a) (λ _. Triple-pure a (λ s g. g))).at r h
  conclude-Ends B D k q e w (raised x) r h =
      (Triple-bind {R = Q} k (λ _. raise x) e (λ _. Triple-raise x (λ s g. g))).at r h
  conclude-Ends B D k q e w killed r h = w r.sys h

  pub Triple-finally :
      {P : System → Type 0} (B : A → System → Type 0) (D : System → Type 0) (m : M A)
      (k : M (Unit {0}))
      → Triple P m B D
      → ((a : A) → Triple (B a) k (λ _ s. Q a s) E)
      → Triple D k (λ _ s. E s) E
      → ((s : System) → D s → E s)
      → Triple P (finally m k) Q E
  unfolding finally
  Triple-finally B D m k t q e w = record {
    at = λ r h. conclude-Ends B D k q e w (m r).0 (m r).1 (t.at r h);
  }

-- A fact beside P that does not depend on the system.
pub Triple-fact :
    {A : Type 0} {F : Type 0} {P : System → Type 0} {Q : A → System → Type 0} {E : System → Type 0}
    (m : M A)
    → (F → Triple P m Q E)
    → Triple (λ s. P s × F) m Q E
Triple-fact m k = record { at = λ r (h, f). (k f).at r h }

module _ {A : Type 0} (E : System → Type 0) (Q R : A → System → Type 0) where
  Ends-and :
      (o : Outcome A) (s : System) → Ends Q E o s → Ends R E o s → Ends (λ a t. Q a t × R a t) E o s
  Ends-and (done a) s h k = (h, k)
  Ends-and (raised e) s h k = h
  Ends-and killed s h k = h

  pub Triple-and :
      {P : System → Type 0} (m : M A)
      → Triple P m Q E
      → Triple P m R E
      → Triple P m (λ a s. Q a s × R a s) E
  Triple-and m t u = record { at = λ r h. Ends-and (m r).0 (m r).1.sys (t.at r h) (u.at r h) }
