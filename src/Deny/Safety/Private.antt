-- ===== src/Deny/Safety/Private.antt =====
-- `private_bytes` and `load_state` as statements about runs.
use bazzite_tower.Prelude.{
  ℕ, String, ◌≡◌, refl, sym, ◌∙◌, true, false, Option, none, some, List, Json, Fields, ok, arith,
  ap, some-injective,
}
use bazzite_tower.Deny.System.{Node, Place, state, System, Host}
use bazzite_tower.Deny.Run.Triple.{
  Triple, Triple-pure, Triple-lift, Triple-require, Triple-bind, Triple-if, Triple-weaken,
}
use bazzite_tower.Deny.Files.{is_root_file, is_some, read_bytes, private_bytes}
use bazzite_tower.Deny.Record.{parsed_state}
use bazzite_tower.Deny.State.{load_state}
use bazzite_tower.Deny.Safety.Views.{recorded_at}
use bazzite_tower.Deny.Safety.Calls.{present_lem, stat_lem, read_bytes_lem}

module _ (P : System → Type 0) where
  -- The bytes that `private_bytes` returns are those of a root-only file.
  pub private_bytes_lem :
      (p : Place) (what : String)
      → Triple P
          (private_bytes p what)
          (λ b s.
            P s × (n : Node) × (s.disk p ≡ some n) × (is_root_file 0o077 n ≡ true) × (n.bytes ≡ b))
          P
  unfolding private_bytes
  private_bytes_lem p what = Triple-bind _ _ (stat_lem P p) (λ n.
      Triple-bind {Q = λ _ s. P s × (s.disk p ≡ some n) × (is_root_file 0o077 n ≡ true)} _ _
        (Triple-require _ _ (λ s r (h, e). (h, e, r)) (λ s h. h.0))
        (λ _.
          Triple-weaken {E' = P} (read_bytes p) (λ s h. h)
            (λ b s ((h, e, r), m, d, w).
              (h, n, e, r, ap (λ (k : Node). k.bytes) (some-injective n m (sym e ∙ d)) ∙ w))
            (λ s h. h.0)
            (read_bytes_lem (λ s. P s × (s.disk p ≡ some n) × (is_root_file 0o077 n ≡ true)) p)))

not_some : (o : Option Node) → is_some o ≡ false → o ≡ none
not_some none e = refl
not_some (some n) e = cc

module _ ⦃host : Host⦄ where
  recorded_of_bytes :
      (o : Option Node) (n : Node) (b : List ℕ) (st : Option Fields)
      → o ≡ some n
      → is_root_file 0o077 n ≡ true
      → n.bytes ≡ b
      → parsed_state (host.loads b) ≡ ok st
      → recorded_at o ≡ st
  recorded_of_bytes o n b st e r w p = rw (e, r, w, p)

module _ ⦃host : Host⦄ (P : System → Type 0) where
  -- `load_state` returns the state that the file records.
  pub load_state_lem : Triple P load_state (λ st s. P s × (recorded_at (s.disk state) ≡ st)) P
  unfolding load_state
  load_state_lem = Triple-bind _ _ (present_lem P state) (λ here.
      Triple-if here _ _
        (λ _.
          Triple-bind _ _
            (Triple-weaken _ (λ s h. h.0) (λ b s h. h) (λ s h. h)
              (private_bytes_lem P state "deny state"))
            (λ b.
              Triple-lift _ (λ st p s (h, n, e, r, w). (h, recorded_of_bytes _ n b st e r w p))
                (λ s h. h.0)))
        (λ gone. Triple-pure _ (λ s (h, e). (h, rw (not_some (s.disk state) (e ∙ gone)) refl))))

is_some_of_parsed :
    (j : Option Json) (st : Option Fields) → parsed_state j ≡ ok st → is_some st ≡ true
is_some_of_parsed j st h = ground arith

module _ ⦃host : Host⦄ (P : System → Type 0) where
  -- It returns a state exactly if there is a state file.
  pub load_state-is_some :
      Triple P load_state (λ st s. P s × (is_some (s.disk state) ≡ is_some st)) P
  unfolding load_state
  load_state-is_some = Triple-bind _ _ (present_lem P state) (λ here.
      Triple-if here _ _
        (λ t.
          Triple-bind {Q = λ _ s. P s × (is_some (s.disk state) ≡ here)} _ _
            (Triple-weaken _ (λ s h. h) (λ b s h. h.0) (λ s h. h.0)
              (private_bytes_lem (λ s. P s × (is_some (s.disk state) ≡ here)) state "deny state"))
            (λ b.
              Triple-lift _
                (λ st p s (h, e). (h, e ∙ (t ∙ sym (is_some_of_parsed (host.loads b) st p))))
                (λ s h. h.0)))
        (λ gone. Triple-pure _ (λ s (h, e). (h, e ∙ gone))))
