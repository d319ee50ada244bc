-- ===== src/Deny/Safety/Calls.antt =====
-- The helper's calls as statements about runs: what each reads, and which files each replaces.
use bazzite_tower.Prelude.{◌≡◌, refl, some, arith}
use bazzite_tower.Deny.System.{Node, Place, config, System}
use bazzite_tower.Deny.Run.Triple.{
  Triple, Keeps, Triple-pure, Triple-ask, Triple-lift, Triple-require, Triple-bind,
}
use bazzite_tower.Deny.Files.{
  found, is_some, present, stat, read_bytes, metadata_at, read_config, service_active,
}

module _ (P : System → Type 0) where
  pub present_lem : (p : Place) → Triple P (present p) (λ b s. P s × (is_some (s.disk p) ≡ b)) P
  unfolding present
  present_lem p =
      Triple-bind {Q = λ o s. P s × (s.disk p ≡ o)} _ _
        (Triple-ask _ _ (λ s h. (h, refl)) (λ s h. h)) (λ o. Triple-pure _ (λ s (h, e). (h, rw e)))

  pub stat_lem : (p : Place) → Triple P (stat p) (λ n s. P s × (s.disk p ≡ some n)) P
  unfolding stat
  stat_lem p =
      Triple-bind {Q = λ o s. P s × (s.disk p ≡ o)} _ _
        (Triple-ask _ _ (λ s h. (h, refl)) (λ s h. h))
        (λ o. Triple-lift (found o) (λ n e s (h, d). (h, ground arith)) (λ s h. h.0))

  pub read_bytes_lem :
      (p : Place)
      → Triple P (read_bytes p) (λ b s. P s × (n : Node) × (s.disk p ≡ some n) × (n.bytes ≡ b)) P
  unfolding read_bytes
  read_bytes_lem p = Triple-bind _ _ (stat_lem p) (λ n. Triple-pure _ (λ s (h, e). (h, n, e, refl)))

  pub metadata_at_lem : (p : Place) → Keeps P (metadata_at p)
  unfolding metadata_at
  metadata_at_lem p = Triple-bind _ _ (stat_lem p) (λ n.
      Triple-bind {Q = λ _ s. P s} _ _ (Triple-require _ _ (λ s e h. h.0) (λ s h. h.0)) (λ _.
        Triple-bind {Q = λ _ s. P s} _ _ (Triple-ask _ _ (λ s h. h) (λ s h. h))
          (λ x. Triple-pure _ (λ s h. h))))

  -- The bytes that `read_config` returns are those of the config file.
  pub read_config_lem :
      Triple P read_config (λ r s. P s × (n : Node) × (s.disk config ≡ some n) × (n.bytes ≡ r.0)) P
  unfolding read_config
  read_config_lem =
      Triple-bind {Q = λ _ s. P s} _ _ (metadata_at_lem config)
        (λ m. Triple-bind _ _ (read_bytes_lem config) (λ b. Triple-pure _ (λ s h. h)))

  pub service_active_lem : Keeps P service_active
  unfolding service_active
  service_active_lem = Triple-ask _ _ (λ s h. h) (λ s h. h)
