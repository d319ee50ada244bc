-- ===== src/Deny/State.antt =====
-- system_files/usr/libexec/bazzite-tower-snitchwatch-deny, `load_state` and `save_state`, and
-- -common.py's `regular_root_json` and `deny_opt_in`.
use bazzite_tower.Prelude.{
  Bool, true, false, ◌&&◌, not, Option, none, some, ◌=s=◌, if◌then◌else◌, Json, bool, str, obj,
  Fields, get_field, get_is, is_num,
}
use bazzite_tower.Deny.System.{Node, Place, state, marker, Host}
use bazzite_tower.Deny.Run.{M, pure, lift, catch, ◌>>=◌}
use bazzite_tower.Deny.Files.{
  root_with, lookup, present, private_bytes, publish, is_root_file, read_bytes,
}
use bazzite_tower.Deny.Record.{parsed_state}

-- A dict, of what a path holds that is not text for `json.loads`.
abbrev pub dict_of : Option Json → Option Fields
dict_of (some (obj fs)) = some fs
dict_of _ = none

abbrev pub is_text : Json → Bool
is_text (str s) = true
is_text _ = false

-- `marker.get("schema") == 1`, and the two texts that the marker must have.
abbrev pub marker_ok : Fields → Bool
marker_ok fs =
    get_is (is_num 1) "schema" fs && (get_is is_text "confirmedAt" fs && get_is is_text "id" fs)

abbrev pub same_text : Option Json → Option Json → Bool
same_text (some (str s)) (some (str t)) = s =s= t
same_text _ _ = false

abbrev pub is_false : Option Json → Bool
is_false (some (bool b)) = not b
is_false _ = false

-- The state that a confirmed marker may stand beside.
abbrev pub confirms : Fields → Option Fields → Bool
confirms m none = false
confirms m (some fs) =
    is_false (get_field "pending" fs) && same_text (get_field "id" fs) (get_field "id" m)

module _ ⦃host : Host⦄ where
  unfoldable pub load_state : M (Option Fields)
  unfolding present private_bytes
  load_state = do
    here ← present state
    if here
        then (do bytes ← private_bytes state "deny state"; lift (parsed_state (host.loads bytes)))
        else pure none

  unfoldable pub save_state : Fields → M (Unit {0})
  unfolding publish
  save_state fs = publish state (host.dumps (obj fs)) (root_with 0o600) none

  abbrev pub is_candidate : Option Node → Bool
  is_candidate none = false
  is_candidate (some n) = is_root_file 0o022 n

  -- A read that raises OSError counts as no document.
  unfoldable pub regular_root_json : Place → M (Option Fields)
  unfolding lookup read_bytes
  regular_root_json p = do
    n ← lookup p
    if is_candidate n
        then catch (do b ← read_bytes p; pure (dict_of (host.loads b))) (λ _. pure none)
        else pure none

  unfoldable pub state_confirms : Fields → M Bool
  unfolding present regular_root_json
  state_confirms m = do
    here ← present state
    if here then (do fs ← regular_root_json state; pure (confirms m fs)) else pure true

  unfoldable pub with_marker : Option Fields → M Bool
  unfolding state_confirms
  with_marker none = pure false
  with_marker (some m) = if marker_ok m then state_confirms m else pure false

  unfoldable pub deny_opt_in : M Bool
  unfolding with_marker
  deny_opt_in = do m ← regular_root_json marker; with_marker m
