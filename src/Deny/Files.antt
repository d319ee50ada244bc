-- ===== src/Deny/Files.antt =====
-- system_files/usr/libexec/bazzite-tower-snitchwatch-deny and -common.py: reading and replacing the
-- files of a trial, and the calls of systemd.
use Prim.Native.Nat.{bit_and}
use bazzite_tower.Prelude.{
  ℕ, ◌<>◌, String, Bool, true, false, ◌&&◌, Option, none, some, List, [], ◌==◌, same_codes, Error,
  Result, ok, err, refusal, os_error, file_not_found, subprocess_error,
}
use bazzite_tower.Deny.System.{
  Kind, regular, directory, socket, Node, Place, config, state_dir, write,
}
use bazzite_tower.Deny.Run.{Fault, dead, M, pure, ask, lift, change, ◌>>=◌, ◌>>◌, catch, require}

abbrev pub is_regular : Kind → Bool
is_regular regular = true
is_regular _ = false

abbrev pub is_directory : Kind → Bool
is_directory directory = true
is_directory _ = false

abbrev pub is_socket : Kind → Bool
is_socket socket = true
is_socket _ = false

-- A root-owned regular file with none of the permission bits of the mask.
abbrev pub is_root_file : ℕ → Node → Bool
is_root_file mask n = is_regular n.kind && ((n.uid == 0) && (bit_and n.mode mask == 0))

abbrev pub call_error : Error
call_error = os_error "call failed"

-- `Context.lookup`: `None` only for a path that is absent.
unfoldable pub lookup : Place → M (Option Node)
lookup p = ask (refusal "cannot inspect") (λ s. s.disk p)

abbrev pub is_some {ℓ} : {A : Type ℓ} → Option A → Bool
is_some none = false
is_some (some a) = true

unfoldable pub present : Place → M Bool
unfolding lookup
present p = do o ← lookup p; pure (is_some o)

abbrev pub found : Option Node → Result Node
found none = err file_not_found
found (some n) = ok n

-- `Context.stat`, and `read_bytes`
unfoldable pub stat : Place → M Node
stat p = do o ← ask call_error (λ s. s.disk p); lift (found o)

unfoldable pub read_bytes : Place → M (List ℕ)
unfolding stat
read_bytes p = do n ← stat p; pure n.bytes

-- The metadata that a replacement is given back.
pub record Metadata : Type 0 where
  pub uid : ℕ
  pub gid : ℕ
  pub mode : ℕ
  pub xattrs : List (String × String)

unfoldable pub metadata_at : Place → M Metadata
unfolding stat
metadata_at p = do
  n ← stat p
  require (is_root_file 0o022 n) "live config must be a root-owned, non-writable regular file"
  xattrs ← ask call_error (λ s. n.xattrs)
  pure (record { uid = n.uid; gid = n.gid; mode = n.mode; xattrs = xattrs })

-- Who owns a replacement: given metadata, or root with a mode.
abbrev pub root_with : ℕ → Metadata
root_with mode = record { uid = 0; gid = 0; mode = mode; xattrs = [] }

abbrev pub replacement : Metadata → List ℕ → Node
replacement m bytes = record {
  kind = regular;
  uid = m.uid;
  gid = m.gid;
  mode = m.mode;
  xattrs = m.xattrs;
  bytes = bytes;
}

unfoldable pub unchanged_since : Place → Option (List ℕ) → M (Unit {0})
unfolding read_bytes
unchanged_since p none = pure tt
unchanged_since p (some expected) = do
  live ← read_bytes p
  require (same_codes live expected) "config changed since it was read; nothing overwritten"

-- Writing the temporary file changes no path that is named here; `os.replace` does.
unfoldable pub publish : Place → List ℕ → Metadata → Option (List ℕ) → M (Unit {0})
unfolding unchanged_since
publish p bytes metadata expected = do
  ask call_error (λ s. tt)
  unchanged_since p expected
  change call_error (λ _ s. record s { disk = write p (some (replacement metadata bytes)) s.disk })
  ask call_error (λ s. tt)

unfoldable pub unlink : Place → M (Unit {0})
unlink p = change call_error (λ _ s. record s { disk = write p none s.disk })

unfoldable pub private_bytes : Place → String → M (List ℕ)
unfolding read_bytes
private_bytes p what = do
  n ← stat p
  require (is_root_file 0o077 n) (what <> " must be a root-owned regular file with mode 0600")
  read_bytes p

-- `mkdir` and `chmod`, and then the check of what is there.
abbrev made_directory : Option Node → Node
made_directory none = record {
  kind = directory;
  uid = 0;
  gid = 0;
  mode = 0o700;
  xattrs = [];
  bytes = [];
}
made_directory (some n) = record n { mode = 0o700 }

unfoldable pub make_state_dir : M (Unit {0})
unfolding stat
make_state_dir = do
  change call_error
      (λ _ s. record s { disk = write state_dir (some (made_directory (s.disk state_dir))) s.disk })
  n ← stat state_dir
  require (is_directory n.kind && ((n.uid == 0) && (n.mode == 0o700)))
      "deny state directory must be a root-owned mode0700 directory"

unfoldable pub read_config : M (List ℕ × Metadata)
unfolding metadata_at read_bytes
read_config = do metadata ← metadata_at config; bytes ← read_bytes config; pure (bytes, metadata)

unfoldable pub service_active : M Bool
service_active = ask (subprocess_error "systemctl is-active") (λ s. s.active)

abbrev pub stop_failed : Error
stop_failed = refusal "command failed: systemctl stop"

-- `subprocess.TimeoutExpired`, which is not a refusal.
abbrev pub stop_expired : Error
stop_expired = subprocess_error "systemctl stop timed out after 20 seconds"

-- The time may run out before the command has its effect, or after it.
unfoldable pub stop_timer : M (Unit {0})
stop_timer = do
  ask stop_expired (λ s. tt)
  change stop_failed (λ _ s. record s { timer = false })
  ask stop_expired (λ s. tt)

abbrev live_bytes : Option Node → Option (List ℕ)
live_bytes none = none
live_bytes (some n) = some n.bytes

abbrev runs_on : Fault → Bool
runs_on dead = false
runs_on _ = true

-- The daemon reads the config when it starts.
unfoldable pub restart_daemon : M (Unit {0})
restart_daemon =
    change (refusal "command failed: systemctl restart")
      (λ x s. record s { active = runs_on x; loaded = live_bytes (s.disk config) })

-- The timer's command is `revert-if-pending`.
unfoldable pub start_timer : M (Unit {0})
start_timer = change (refusal "command failed: systemd-run") (λ _ s. record s { timer = true })

unfoldable pub boot_id : M (Option String)
boot_id = catch (ask call_error (λ s. s.boot_id)) (λ _. pure none)

unfoldable pub utcnow : M ℕ
utcnow r = pure r.sys.now r

-- `os.geteuid()` and `uuid.uuid4().hex`
unfoldable pub geteuid : M ℕ
geteuid r = pure r.sys.euid r

unfoldable pub random_id : M String
random_id r = pure r.sys.next_id r
