-- ===== src/Firewall/Contracts/Separated.antt =====
-- What the check of the accounts says of them.
use bazzite_tower.Prelude.{
  ℕ, String, ◌≡◌, ap, ◌∙◌, subst, Bool, true, false, ◌&&◌, not, Bool-cases, &&-eq-true, inl, inr,
  List, [], ◌∷◌, arith, get_or, ◌==◌, ==_iff, ◌=s=◌, =s=_iff, member, ok, ok_injective, >>=-eq-ok,
}
use bazzite_tower.Firewall.Contracts.Installed.{Context}
use bazzite_tower.Firewall.Contracts.Units.{account, same_group, account_ids}
use bazzite_tower.Firewall.Contracts.Trusted.{demand-eq-ok}

module _ ⦃context : Context⦄ where
  -- The numbers are those of the entries of the bridge's account and of the two groups: the account is not root's, belongs to its group, which is neither root's nor that of
  -- the user interface, and has a home of its own and no login.
  pub record IsSeparated (uid gid ui_gid : ℕ) : Type 0 where
    pub passwd : List String
    pub is_passwd : account ("getent" ∷ "passwd" ∷ "snitchwatch" ∷ []) ≡ ok passwd
    pub is_uid : context.to_int (get_or passwd 2 "") ≡ ok uid
    pub group : List String
    pub is_group : account ("getent" ∷ "group" ∷ "snitchwatch" ∷ []) ≡ ok group
    pub is_gid : context.to_int (get_or group 2 "") ≡ ok gid
    pub ui : List String
    pub is_ui : account ("getent" ∷ "group" ∷ "snitchwatch-ui" ∷ []) ≡ ok ui
    pub is_ui_gid : context.to_int (get_or ui 2 "") ≡ ok ui_gid
    pub own_group : context.to_int (get_or passwd 3 "") ≡ ok gid
    pub not_root : (uid == 0) ≡ false
    pub not_root_group : (gid == 0) ≡ false
    pub not_root_ui : (ui_gid == 0) ≡ false
    pub other_group : (gid == ui_gid) ≡ false
    pub has_home : get_or passwd 5 "" ≡ "/var/lib/snitchwatch"
    pub no_login :
        member (get_or passwd 6 "") ("/usr/sbin/nologin" ∷ "/sbin/nologin" ∷ "/bin/false" ∷ [])
        ≡ true

  all_differ :
      (a b c d : Bool)
      → (not a && (not b && (not c && not d))) ≡ true
      → (a ≡ false) × (b ≡ false) × (c ≡ false) × (d ≡ false)
  all_differ a b c d h = (ground arith, ground arith, ground arith, ground arith)

  same_group-true :
      (passwd : List String) (gid ui_gid uid : ℕ)
      → same_group passwd gid ui_gid uid ≡ ok true
      → (not (uid == 0) && (not (gid == 0) && (not (ui_gid == 0) && not (gid == ui_gid))) ≡ true)
        × (context.to_int (get_or passwd 3 "") ≡ ok gid)
  same_group-true passwd gid ui_gid uid h =
      let apart =
        not (uid == 0) && (not (gid == 0) && (not (ui_gid == 0) && not (gid == ui_gid))) in
      elim (Bool-cases apart) [
        | inl good ↦
            let (own, e, h1) =
              >>=-eq-ok (context.to_int (get_or passwd 3 "")) (λ own. ok (own == gid))
                (rw good at h) in
            (good, e ∙ ap ok ((==_iff own gid).0 (ok_injective h1)))
        | inr bad ↦ cc (rw bad at h)
      ]

  -- Accepted accounts are separated: the account of the bridge is not root's, its group is its own and
  -- neither root's nor the group that the system names snitchwatch-ui, its home is private, and it cannot log in.
  pub account_ids-IsSeparated :
      (uid gid ui_gid : ℕ) (members : String)
      → account_ids ≡ ok (uid, gid, ui_gid, members)
      → IsSeparated uid gid ui_gid
  unfolding account_ids
  account_ids-IsSeparated uid gid ui_gid members h =
      let (passwd, e1, h1) = >>=-eq-ok (account ("getent" ∷ "passwd" ∷ "snitchwatch" ∷ [])) _ h in
      let (group, e2, h2) = >>=-eq-ok (account ("getent" ∷ "group" ∷ "snitchwatch" ∷ [])) _ h1 in
      let (ui, e3, h3) = >>=-eq-ok (account ("getent" ∷ "group" ∷ "snitchwatch-ui" ∷ [])) _ h2 in
      let (e4, h4) = demand-eq-ok _ _ _ h3 in
      let (u, e5, h5) = >>=-eq-ok (context.to_int (get_or passwd 2 "")) _ h4 in
      let (g, e6, h6) = >>=-eq-ok (context.to_int (get_or group 2 "")) _ h5 in
      let (v, e7, h7) = >>=-eq-ok (context.to_int (get_or ui 2 "")) _ h6 in
      let (own, e8, h8) = >>=-eq-ok (same_group passwd g v u) _ h7 in
      let (e9, h9) = demand-eq-ok own _ _ h8 in
      let (e10, h10) = demand-eq-ok _ _ (ok (u, g, v, get_or ui 3 "")) h9 in
      let same = ok_injective h10 in
      let (apart, own_group) = same_group-true passwd g v u (e8 ∙ ap ok e9) in
      let (r1, r2, r3, r4) = all_differ (u == 0) (g == 0) (v == 0) (g == v) apart in
      let (home, login) = &&-eq-true (get_or passwd 5 "" =s= "/var/lib/snitchwatch") _ e10 in
      let found : IsSeparated u g v = record {
        passwd = passwd;
        is_passwd = e1;
        is_uid = e5;
        group = group;
        is_group = e2;
        is_gid = e6;
        ui = ui;
        is_ui = e3;
        is_ui_gid = e7;
        own_group = own_group;
        not_root = r1;
        not_root_group = r2;
        not_root_ui = r3;
        other_group = r4;
        has_home = (=s=_iff (get_or passwd 5 "") "/var/lib/snitchwatch").0 home;
        no_login = login;
      } in
      subst (λ (x : ℕ × ℕ × ℕ × String). IsSeparated x.0 x.1 x.2) same found
