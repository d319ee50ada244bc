-- ===== src/Deny/Safety/Writes.antt =====
-- The helper's writes as statements about runs: `publish` replaces one path or leaves it.
use bazzite_tower.Prelude.{ℕ, Bool, true, false, Option, none, some, List}
use bazzite_tower.Deny.System.{Node, Place, snapshot, state_dir, write, System}
use bazzite_tower.Deny.Run.Triple.{
  Triple, Keeps, Triple-pure, Triple-ask, Triple-change, Triple-require, Triple-bind, Triple-catch,
  Triple-weaken,
}
use bazzite_tower.Deny.Run.Keeps.{bind-Keeps, ask-Keeps}
use bazzite_tower.Deny.Files.{
  Metadata, publish, replacement, unlink, make_state_dir, stop_timer, restart_daemon, start_timer,
  boot_id, utcnow, geteuid, random_id,
}
use bazzite_tower.Deny.Safety.Calls.{stat_lem, read_bytes_lem}

-- The system with one path replaced or removed.
abbrev pub put : Place → Option Node → System → System
put p n s = record s { disk = write p n s.disk }

module _ (P E : System → Type 0) where
  -- What a `publish` leaves, whether it returns, raises or is cut short, given what holds of the
  -- path replaced and of the path untouched.
  pub publish_lem :
      (Q : Unit {0} → System → Type 0) (p : Place) (bytes : List ℕ) (m : Metadata)
      (expected : Option (List ℕ))
      → ((s : System) → P s → Q tt (put p (some (replacement m bytes)) s))
      → ((s : System) → P s → E s)
      → ((s : System) → P s → E (put p (some (replacement m bytes)) s))
      → Triple P (publish p bytes m expected) Q E
  unfolding publish
  publish_lem Q p bytes m none q k l =
      Triple-bind {Q = λ _ s. P s} _ _ (Triple-ask _ _ (λ s h. h) k) (λ _.
        Triple-bind {Q = λ _ s. P s} _ _ (Triple-pure _ (λ s h. h)) (λ _.
          Triple-bind {Q = λ _ s. Q tt s × E s} _ _
            (Triple-change _ _ (λ x s h. (q s h, l s h)) k l)
            (λ _. Triple-ask _ _ (λ s h. h.0) (λ s h. h.1))))
  publish_lem Q p bytes m (some expected) q k l =
      Triple-bind {Q = λ _ s. P s} _ _ (Triple-ask _ _ (λ s h. h) k) (λ _.
        Triple-bind {Q = λ _ s. P s} _ _
          (Triple-bind _ _ (Triple-weaken _ (λ s h. h) (λ b s h. h) k (read_bytes_lem P p))
            (λ live. Triple-require _ _ (λ s e h. h.0) (λ s h. k s h.0)))
          (λ _.
            Triple-bind {Q = λ _ s. Q tt s × E s} _ _
              (Triple-change _ _ (λ x s h. (q s h, l s h)) k l)
              (λ _. Triple-ask _ _ (λ s h. h.0) (λ s h. h.1))))

module _ (P : System → Type 0) where
  -- A predicate that a write keeps is kept by the calls that make it.
  pub publish-Keeps :
      (p : Place) (bytes : List ℕ) (m : Metadata) (expected : Option (List ℕ))
      → ((n : Option Node) (s : System) → P s → P (put p n s))
      → Keeps P (publish p bytes m expected)
  publish-Keeps p bytes m expected k =
      publish_lem P P (λ _ s. P s) p bytes m expected (k _) (λ s h. h) (k _)

  pub unlink-Keeps :
      (p : Place) → ((n : Option Node) (s : System) → P s → P (put p n s)) → Keeps P (unlink p)
  unfolding unlink
  unlink-Keeps p k = Triple-change _ _ (λ x s h. k none s h) (λ s h. h) (λ s h. k none s h)

  pub make_state_dir-Keeps :
      ((n : Option Node) (s : System) → P s → P (put state_dir n s)) → Keeps P make_state_dir
  unfolding make_state_dir
  make_state_dir-Keeps k =
      Triple-bind {Q = λ _ s. P s} _ _
        (Triple-change _ _ (λ x s h. k _ s h) (λ s h. h) (λ s h. k _ s h))
        (λ _.
          Triple-bind _ _ (stat_lem P state_dir)
            (λ n. Triple-require _ _ (λ s e h. h.0) (λ s h. h.0)))

  pub boot_id-Keeps : Keeps P boot_id
  unfolding boot_id
  boot_id-Keeps =
      Triple-catch P _ _ (Triple-ask _ _ (λ s h. h) (λ s h. h)) (λ e. Triple-pure _ (λ s h. h))
        (λ s h. h)

module _ (P : System → Type 0) where
  pub utcnow-Keeps : Keeps P utcnow
  unfolding utcnow
  utcnow-Keeps = record {
    at = λ r h. (Triple-pure {P = P} {Q = λ _ s. P s} {E = P} r.sys.now (λ s g. g)).at r h;
  }

  pub geteuid-Keeps : Keeps P geteuid
  unfolding geteuid
  geteuid-Keeps = record {
    at = λ r h. (Triple-pure {P = P} {Q = λ _ s. P s} {E = P} r.sys.euid (λ s g. g)).at r h;
  }

  pub random_id-Keeps : Keeps P random_id
  unfolding random_id
  random_id-Keeps = record {
    at = λ r h. (Triple-pure {P = P} {Q = λ _ s. P s} {E = P} r.sys.next_id (λ s g. g)).at r h;
  }

-- What a predicate may say of a system: nothing of the timer and the daemon.
pub record IsOfFiles (P : System → Type 0) : Type 0 where
  pub on_timer : (b : Bool) (s : System) → P s → P (record s { timer = b })
  pub on_daemon :
      (a : Bool) (l : Option (List ℕ)) (s : System) → P s → P (record s { active = a; loaded = l })
  pub on_snapshot : (n : Option Node) (s : System) → P s → P (put snapshot n s)

module _ (P : System → Type 0) (f : IsOfFiles P) where
  pub stop_timer-Keeps : Keeps P stop_timer
  unfolding stop_timer
  stop_timer-Keeps = bind-Keeps P _ _ (ask-Keeps P _ _) (λ _.
      bind-Keeps P _ _
        (Triple-change _ _ (λ x s h. f.on_timer false s h) (λ s h. h) (λ s h. f.on_timer false s h))
        (λ _. ask-Keeps P _ _))

  pub start_timer-Keeps : Keeps P start_timer
  unfolding start_timer
  start_timer-Keeps =
      Triple-change _ _ (λ x s h. f.on_timer true s h) (λ s h. h) (λ s h. f.on_timer true s h)

  pub restart_daemon-Keeps : Keeps P restart_daemon
  unfolding restart_daemon
  restart_daemon-Keeps =
      Triple-change _ _ (λ x s h. f.on_daemon _ _ s h) (λ s h. h) (λ s h. f.on_daemon _ _ s h)
