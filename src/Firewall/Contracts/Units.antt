-- ===== src/Firewall/Contracts/Units.antt =====
-- system_files/usr/libexec/bazzite-tower-snitchwatch-common.py: the accounts and the unit of the daemon.
use Prim.Native.String.{◌++◌ as ◌<>◌}
use bazzite_tower.Prelude.{
  ℕ, String, Bool, true, false, ◌&&◌, not, List, [], ◌∷◌, ◌==◌, if◌then◌else◌, ◌=s=◌, length,
  get_or, all, member, split_on, text_strip, Fields, item, as_text, is_str, Result, ok, ◌>>=◌, ◌>>◌,
}
use bazzite_tower.Firewall.Tree.{words}
use bazzite_tower.Firewall.Contracts.Installed.{
  Context, daemon_unit, daemon_dropin, vendor_dropin, vendor_dropin_digest, deny_guard_dropin,
  deny_guard_digest, demand, is_owned, check_digest,
}

-- `len(names) == len(set(names))`
abbrev pub is_distinct : List String → Bool
is_distinct [] = true
is_distinct (s ∷ ss) = let rest = is_distinct ss in not (member s ss) && rest

abbrev pub is_known_dropin : String → Bool
is_known_dropin s = member s (daemon_dropin ∷ vendor_dropin ∷ deny_guard_dropin ∷ [])

module _ ⦃context : Context⦄ where
  -- The fields of a line of getent.
  abbrev pub account : List String → Result (List String)
  account argv = do printed ← context.command argv; ok (split_on 58 (text_strip printed))

  -- `and` reads the group of the account only where the ids differ as they should.
  abbrev pub same_group : List String → ℕ → ℕ → ℕ → Result Bool
  same_group passwd gid ui_gid uid =
      if not (uid == 0) && (not (gid == 0) && (not (ui_gid == 0) && not (gid == ui_gid)))
      then (do own ← context.to_int (get_or passwd 3 ""); ok (own == gid))
      else ok false

  -- `account_ids`
  unfoldable pub account_ids : Result (ℕ × ℕ × ℕ × String)
  account_ids = do
    passwd ← account ("getent" ∷ "passwd" ∷ "snitchwatch" ∷ [])
    group ← account ("getent" ∷ "group" ∷ "snitchwatch" ∷ [])
    ui ← account ("getent" ∷ "group" ∷ "snitchwatch-ui" ∷ [])
    demand ((length passwd == 7) && ((length group == 4) && (length ui == 4)))
        "named bridge/UI accounts unavailable"
    uid ← context.to_int (get_or passwd 2 "")
    gid ← context.to_int (get_or group 2 "")
    ui_gid ← context.to_int (get_or ui 2 "")
    own_gid ← same_group passwd gid ui_gid uid
    demand own_gid "invalid bridge/UI account separation"
    demand
        ((get_or passwd 5 "" =s= "/var/lib/snitchwatch")
          && member (get_or passwd 6 "")
              ("/usr/sbin/nologin" ∷ "/sbin/nologin" ∷ "/bin/false" ∷ []))
        "bridge account must be non-login with private state home"
    ok (uid, gid, ui_gid, get_or ui 3 "")

  -- `loaded_current`
  unfoldable pub loaded_current : String → Fields → Result (Unit {0})
  loaded_current unit props = do
    value ← item "NeedDaemonReload" props
    demand (is_str "no" value) (
        unit
        <> " changed on disk since systemd loaded it; review it, then run systemctl daemon-reload")

  -- `vendor_dropin_contract`
  unfoldable pub vendor_dropin_contract : String → Result (Unit {0})
  unfolding check_digest
  vendor_dropin_contract value = do
    demand (member value ("" ∷ vendor_dropin ∷ [])) "effective bridge property drift: DropInPaths"
    if value =s= "" then ok tt else (do
      demand (context.is_canonical vendor_dropin)
          "vendor drop-in must be canonical without symlinks"
      info ← context.stat vendor_dropin
      demand (is_owned info && (info.gid == 0))
          "vendor drop-in must be root-owned immutable regular file"
      check_digest vendor_dropin vendor_dropin_digest "vendor drop-in byte identity drift")

  abbrev pub check_guard_dropin : Result (Unit {0})
  check_guard_dropin = do
    info ← context.stat deny_guard_dropin
    demand (is_owned info)
        "deny-guard drop-in must be the root-owned immutable image file (byte identity drift)"
    check_digest deny_guard_dropin deny_guard_digest
        "deny-guard drop-in must be the root-owned immutable image file (byte identity drift)"

  -- `daemon_unit_contract`
  unfoldable pub daemon_unit_contract : Fields → Result (Unit {0})
  unfolding vendor_dropin_contract check_digest
  daemon_unit_contract props = do
    listed_value ← item "DropInPaths" props
    listed ← as_text listed_value
    fragment_value ← item "FragmentPath" props
    fragment ← as_text fragment_value
    demand
        ((fragment =s= daemon_unit)
          && (member daemon_dropin (words listed)
              && (is_distinct (words listed) && all is_known_dropin (words listed))))
        ("OpenSnitch effective unit file/drop-in drift: " <> (fragment <> (" + " <> listed)))
    (if member vendor_dropin (words listed) then vendor_dropin_contract vendor_dropin else ok tt)
    (if member deny_guard_dropin (words listed) then check_guard_dropin else ok tt)
