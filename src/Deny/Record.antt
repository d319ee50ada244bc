-- ===== src/Deny/Record.antt =====
-- system_files/usr/libexec/bazzite-tower-snitchwatch-deny: the state file of a trial, and its times.
use bazzite_tower.Prelude.{
  ℕ, ◌*◌, ◌/◌, String, Bool, true, false, ◌&&◌, Option, none, some, List, [], ◌∷◌, if◌then◌else◌,
  Json, bool, num, str, obj, Fields, end, field, get_field, get_is, is_num, item, as_dict, as_text,
  Result, ok, err, refusal, value_error, type_error, ◌>>=◌,
}
use bazzite_tower.Deny.System.{Host}
use bazzite_tower.Deny.Files.{Metadata}

abbrev pub second : ℕ
second = 1000000

-- The dict of a state file whose schema is accepted.
abbrev pub is_bool : Json → Bool
is_bool (bool b) = true
is_bool _ = false

abbrev pub schema_ok : Fields → Bool
schema_ok fs = get_is (is_num 1) "schema" fs && get_is is_bool "pending" fs

abbrev pub accepted : Json → Option Fields
accepted (obj fs) = if schema_ok fs then some fs else none
accepted _ = none

abbrev pub or_refused : Option Fields → Result (Option Fields)
or_refused none = err (refusal "unexpected deny state schema")
or_refused (some fs) = ok (some fs)

abbrev pub parsed_state : Option Json → Result (Option Fields)
parsed_state none = err (refusal "deny state is not valid JSON")
parsed_state (some j) = or_refused (accepted j)

-- `state["pending"]`
abbrev pub is_pending : Fields → Bool
is_pending fs = elim (get_field "pending" fs) [ some (bool b) ↦ b | _ ↦ false ]

-- `state and state["pending"]`
abbrev pub has_pending : Option Fields → Bool
has_pending none = false
has_pending (some fs) = is_pending fs

abbrev encoded_xattrs : (String → String) → List (String × String) → Fields
encoded_xattrs encoded [] = end
encoded_xattrs encoded ((k, v) ∷ xs) = field k (str (encoded v)) (encoded_xattrs encoded xs)

abbrev decoded_text : Option String → Result String
decoded_text none = err (value_error "invalid base64")
decoded_text (some s) = ok s

abbrev as_number : Json → Result ℕ
as_number (num n) = ok n
as_number _ = err (type_error "not an int")

decoded_xattrs : (String → Option String) → Fields → Result (List (String × String))
decoded_xattrs decoded end = ok []
decoded_xattrs decoded (field k v fs) = do
  text ← as_text v
  value ← decoded_text (decoded text)
  rest ← decoded_xattrs decoded fs
  ok ((k, value) ∷ rest)

module _ ⦃host : Host⦄ where
  -- `stamp` and `parse_stamp`; a stamp has whole seconds.
  abbrev pub stamp : ℕ → String
  stamp moment = host.format_time (moment / second)

  abbrev or_bad_time : Option ℕ → Result ℕ
  or_bad_time none = err (value_error "time data does not match format")
  or_bad_time (some t) = ok (t * second)

  abbrev pub parse_stamp : String → Result ℕ
  parse_stamp text = or_bad_time (host.parse_time text)

  -- `parse_stamp(state["expiresAt"])`
  unfoldable pub expires_at : Fields → Result ℕ
  expires_at fs = do v ← item "expiresAt" fs; text ← as_text v; parse_stamp text

  -- The metadata as `metadata_at` returns it, and as `publish` reads it.
  unfoldable pub metadata_json : Metadata → Json
  metadata_json m = obj (
      field "uid" (num m.uid) (
        field "gid" (num m.gid) (
          field "mode" (num m.mode)
            (field "xattrs" (obj (encoded_xattrs host.encoded m.xattrs)) end))))

  unfoldable pub metadata_of : Json → Result Metadata
  unfolding decoded_xattrs
  metadata_of j = do
    fs ← as_dict j
    uid ← item "uid" fs >>= as_number
    gid ← item "gid" fs >>= as_number
    mode ← item "mode" fs >>= as_number
    encoded ← item "xattrs" fs >>= as_dict
    xattrs ← decoded_xattrs host.decoded encoded
    ok (record { uid = uid; gid = gid; mode = mode; xattrs = xattrs })

  -- `state["backupMetadata"]`, as `publish` reads it
  unfoldable pub backup_metadata : Fields → Result Metadata
  unfolding metadata_of
  backup_metadata fs = item "backupMetadata" fs >>= metadata_of
