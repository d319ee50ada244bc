-- ===== src/Firewall/System/Activation.antt =====
-- build_files/firewall/snitchwatch-system-verify.py: what must not be in the unit trees.
use Prim.Native.String.{◌++◌ as ◌<>◌}
use bazzite_tower.Prelude.{
  String, Bool, ◌&&◌, ◌||◌, not, List, [], ◌∷◌, ◌++◌, if◌then◌else◌, ◌=s=◌, any, starts_with,
  holds_text, join, Result, ok, require, ◌>>=◌, ◌>>◌,
}
use bazzite_tower.Firewall.Tree.{Tree, last_part, ends_with}
use bazzite_tower.Firewall.System.Names.{
  events_name, events_logger, session_activation, events_image_dirs, events_logger_dirs_live,
  events_etc_dirs, events_logger_dirs, activation_names, activation_dirs, unit_suffixes,
  wants_suffixes,
}

-- `parts[:-1]`
abbrev pub front_parts : List String → List String
front_parts [] = []
front_parts (p ∷ []) = []
front_parts (p ∷ q ∷ ps) = p ∷ front_parts (q ∷ ps)

-- `text.endswith((...))`
abbrev pub ends_with_any : List String → String → Bool
ends_with_any suffixes s = any (λ suffix. ends_with suffix s) suffixes

-- `path.relative_to(root).as_posix()`
abbrev pub below_root : String → List String → String
below_root directory parts = directory <> ("/" <> join "/" parts)

module _ ⦃tree : Tree⦄ where
  abbrev pub lower_name : List String → String
  lower_name parts = tree.lower (last_part parts)

  -- `nameable`, of a path below a directory
  abbrev pub is_nameable : String → List String → Bool
  is_nameable path parts =
      ends_with_any (unit_suffixes ++ wants_suffixes) (lower_name parts)
      || (tree.is_symlink path
          || any (λ part. ends_with_any wants_suffixes (tree.lower part)) (front_parts parts))

  abbrev pub is_scanner_name : String → Bool
  is_scanner_name name = holds_text "scanner" name || starts_with "dbus-org.snitchwatch." name

  -- The session activation, a file that is no link.
  abbrev pub is_session_file : String → Bool
  is_session_file path =
      (path =s= session_activation) && (tree.is_file path && not (tree.is_symlink path))

  abbrev pub names_scanner : String → Bool
  names_scanner bytes = any (λ value. holds_text (tree.encoded value) bytes) activation_names

  abbrev pub check_bytes : String → Result (Unit {0})
  check_bytes path = do
    bytes ← tree.read_bytes path
    require (not (names_scanner bytes)) ("unexpected persistent scanner activation: " <> path)

  unfoldable pub check_activation : String → List String → Result (Unit {0})
  check_activation directory parts =
      let path = below_root directory parts in
      if is_session_file path
      then ok tt
      else (require (not (is_nameable path parts && is_scanner_name (lower_name parts)))
            ("unexpected persistent scanner activation: " <> path)
          >> (if tree.is_symlink path || not (tree.is_file path) then ok tt else check_bytes path))

  unfoldable pub check_activations : String → List (List String) → Result (Unit {0})
  unfolding check_activation
  check_activations directory [] = ok tt
  check_activations directory (parts ∷ rest) =
      check_activation directory parts >> check_activations directory rest

  -- What `sorted(base.rglob('*'))` runs over, nothing where there is no directory.
  abbrev pub found_below : String → List (List String)
  found_below directory = if tree.is_dir directory then tree.below directory else []

  unfoldable pub check_activation_dirs : List String → Result (Unit {0})
  unfolding check_activations
  check_activation_dirs [] = ok tt
  check_activation_dirs (directory ∷ rest) =
      check_activations directory (found_below directory) >> check_activation_dirs rest

  -- `refuse_persistent_scanner_activation`
  abbrev pub refuse_persistent_scanner_activation : Result (Unit {0})
  refuse_persistent_scanner_activation = check_activation_dirs activation_dirs

  -- No name of a path holds the word.
  unfoldable pub check_names : String → String → String → List (List String) → Result (Unit {0})
  check_names word message directory [] = ok tt
  check_names word message directory (parts ∷ rest) =
      require (not (holds_text word (lower_name parts))) (message <> below_root directory parts)
      >> check_names word message directory rest

  unfoldable pub check_name_dirs : String → String → List String → Result (Unit {0})
  unfolding check_names
  check_name_dirs word message [] = ok tt
  check_name_dirs word message (directory ∷ rest) =
      check_names word message directory (found_below directory)
      >> check_name_dirs word message rest

  abbrev pub events_dirs : Bool → List String
  events_dirs image_tree = events_image_dirs ++ (if image_tree then events_etc_dirs else [])

  -- `refuse_enabled_endpoint_events`
  abbrev pub refuse_enabled_endpoint_events : Bool → Result (Unit {0})
  refuse_enabled_endpoint_events image_tree =
      check_name_dirs events_name
        "endpoint-events unit must not be installed or enabled in the image: "
        (events_dirs image_tree)

  abbrev pub logger_dirs : Bool → List String
  logger_dirs image_tree = if image_tree then events_logger_dirs else events_logger_dirs_live

  -- `refuse_logger_snippet`
  abbrev pub refuse_logger_snippet : Bool → Result (Unit {0})
  refuse_logger_snippet image_tree =
      check_name_dirs events_logger "opensnitchd logger snippet must not be shipped: "
        (logger_dirs image_tree)
