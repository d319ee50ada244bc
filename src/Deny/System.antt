-- ===== src/Deny/System.antt =====
-- What the deny helper acts on: the files that it names, the firewall daemon, the revert timer,
-- the clock, and the libraries that it calls (a record of their functions).
use bazzite_tower.Prelude.{
  ℕ, String, ◌≡◌, ◌↔◌, Bool, true, false, Option, some, List, ◌==◌, if◌then◌else◌, Json, arr, obj,
  Fields, get_field,
}

-- The type of a file, as `stat.S_ISREG` and its like tell it.
pub data Kind : Type 0 where
  regular directory socket symlink : Kind

-- What one path holds: its stat fields, its extended attributes and its bytes.
pub record Node : Type 0 where
  pub kind : Kind
  pub uid : ℕ
  pub gid : ℕ
  -- `stat.S_IMODE`
  pub mode : ℕ
  pub xattrs : List (String × String)
  pub bytes : List ℕ

-- common.CONFIG, STATE, BACKUP, MARKER, SOCKET, SNAPSHOT_DIR, SNAPSHOT and STATE_DIR.
pub data Place : Type 0 where
  config state backup marker bridge_socket snapshot_dir snapshot state_dir : Place

abbrev pub code_of : Place → ℕ
code_of config = 0
code_of state = 1
code_of backup = 2
code_of marker = 3
code_of bridge_socket = 4
code_of snapshot_dir = 5
code_of snapshot = 6
code_of state_dir = 7

-- The paths that the helper names; a path with no node does not exist.
abbrev pub Disk : Type 0
Disk = Place → Option Node

abbrev pub write : Place → Option Node → Disk → Disk
write p n d q = if code_of p == code_of q then n else d q

pub record System : Type 0 where
  pub disk : Disk
  -- Bad state files that were moved aside.
  pub asides : List Node
  -- The transient revert timer exists.
  pub timer : Bool
  -- opensnitch.service is active, and the config bytes that it read when it last started.
  pub active : Bool
  pub loaded : Option (List ℕ)
  -- The wall clock in microseconds, the boot's id, the next random id and the caller's uid.
  pub now : ℕ
  pub boot_id : Option String
  pub next_id : String
  pub euid : ℕ
  -- How many more polls find the policy lock held by another writer.
  pub held : ℕ

-- The standard library's codecs and formats, which the helper only calls.
pub record Host : Type 0 where
  -- `json.loads`, with no value where it raises, and `json.dumps`
  pub loads : List ℕ → Option Json
  pub dumps : Json → List ℕ
  -- `hashlib.sha256(data).hexdigest()`
  pub sha256 : List ℕ → String
  -- `strftime` and `strptime` with TIME_FORMAT, in seconds
  pub format_time : ℕ → String
  pub parse_time : String → Option ℕ
  -- `repr`, and `str` of a number
  pub repr : Option Json → String
  pub decimal_text : ℕ → String
  -- `base64.b64encode` and `b64decode` of an attribute's value
  pub encoded : String → String
  pub decoded : String → Option String

abbrev pub is_scalar : Json → Bool
is_scalar (arr vs) = false
is_scalar (obj fs) = false
is_scalar _ = true

-- Two dicts have the same values under the same keys, but for lists and dicts, whatever the order.
abbrev pub SameScalars : Fields → Fields → Type 0
SameScalars fs gs =
    (key : String) (v : Json)
    → is_scalar v ≡ true
    → (get_field key gs ≡ some v) ↔ (get_field key fs ≡ some v)

-- The documented behaviour that the theorems use. `json.dumps` may write the keys of a dict in another
-- order than they have, as it does with `sort_keys`.
pub record IsLawful (host : Host) : Type 0 where
  pub loads-dumps :
      (fs : Fields)
      → (gs : Fields) × (host.loads (host.dumps (obj fs)) ≡ some (obj gs)) × SameScalars fs gs
  pub parse-format : (t : ℕ) → host.parse_time (host.format_time t) ≡ some t
  pub decoded-encoded : (s : String) → host.decoded (host.encoded s) ≡ some s
  -- No two texts with one hash are met.
  pub sha256_injective : (a b : List ℕ) → host.sha256 a ≡ host.sha256 b → a ≡ b
