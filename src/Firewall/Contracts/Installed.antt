-- ===== src/Firewall/Contracts/Installed.antt =====
-- system_files/usr/libexec/bazzite-tower-snitchwatch-common.py: what it reads of the installed image.
use Prim.Native.Nat.{bit_and}
use bazzite_tower.Prelude.{
  ℕ, String, Bool, true, false, ◌&&◌, List, ◌==◌, ◌=s=◌, Json, Fields, as_dict, Result, ok, err,
  refusal, ◌>>=◌,
}

-- What `lstat` says of a path.
pub record Info : Type 0 where
  pub is_regular : Bool
  pub is_symlink : Bool
  pub mode : ℕ
  pub uid : ℕ
  pub gid : ℕ

-- The host below the root of the context: `ctx.stat`, the bytes of a file, `ctx.command(argv).stdout`,
-- which raises a Refusal where the command fails, whether a path resolves to itself; json.loads,
-- sha256 in hexadecimal digits, and int.
pub record Context : Type 0 where
  pub stat : String → Result Info
  pub read : String → Result String
  pub command : List String → Result String
  pub is_canonical : String → Bool
  pub loads : String → Result Json
  pub sha : String → String
  pub to_int : String → Result ℕ

abbrev pub bridge_version : String
bridge_version = "0.1.1"

abbrev pub daemon_path : String
daemon_path = "/usr/bin/opensnitchd"

abbrev pub daemon_manifest : String
daemon_manifest = "/usr/share/snitchwatch/system-daemon-manifest.json"

abbrev pub daemon_candidate : String
daemon_candidate = "/usr/share/snitchwatch/daemon/opensnitchd"

abbrev pub daemon_patch : String
daemon_patch = "/usr/share/snitchwatch/daemon/opensnitch-shutdown-repair.patch"

abbrev pub daemon_unit : String
daemon_unit = "/usr/lib/systemd/system/opensnitch.service"

abbrev pub daemon_dropin : String
daemon_dropin = "/usr/lib/systemd/system/opensnitch.service.d/snitchwatch-system-bridge.conf"

abbrev pub vendor_dropin : String
vendor_dropin = "/usr/lib/systemd/system/service.d/10-timeout-abort.conf"

abbrev pub vendor_dropin_digest : String
vendor_dropin_digest = "ae6b234f92bc22f1201a7572b59b454c9809f33c80d13f361b9674e1801acc37"

abbrev pub deny_guard_dropin : String
deny_guard_dropin =
    "/usr/lib/systemd/system/opensnitch.service.d/bazzite-tower-snitchwatch-deny-guard.conf"

abbrev pub deny_guard_digest : String
deny_guard_digest = "b46aa696d4d8da32c2b510425eb04df03a4b19e243fdf8e6cf9158b80c5d2d43"

-- `require`
abbrev pub demand : Bool → String → Result (Unit {0})
demand true message = ok tt
demand false message = err (refusal message)

-- A root-owned regular file that only its owner can write.
abbrev pub is_owned : Info → Bool
is_owned info = info.is_regular && ((info.uid == 0) && (bit_and info.mode 0o022 == 0))

module _ ⦃context : Context⦄ where
  abbrev pub load_document : String → Result Fields
  load_document path = do bytes ← context.read path; v ← context.loads bytes; as_dict v

  unfoldable pub check_owned : String → String → Result (Unit {0})
  check_owned name message = do info ← context.stat name; demand (is_owned info) message

  -- `digest(ctx.path(name)) == expected`
  unfoldable pub check_digest : String → String → String → Result (Unit {0})
  check_digest name expected message = do
    bytes ← context.read name
    demand (context.sha bytes =s= expected) message
