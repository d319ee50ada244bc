-- ===== src/Firewall/System/Quiet.antt =====
-- The refusals of what must not be in the unit trees accept exactly the trees that are described here.
use bazzite_tower.Prelude.{
  String, ◌≡◌, ◌⊎◌, refl, sym, subst, any, starts_with, &&-eq-true, =s=_iff, ap, ◌↔◌, inl, inr, ◌∙◌,
  Bool, true, false, ◌&&◌, ◌||◌, not, Bool-cases, not-eq-true, List, [], ◌∷◌, All, arith,
  holds_text, Result, ok, require, require-eq-ok, require_holds, >>=-eq-ok, ◌>>◌,
}
use bazzite_tower.Firewall.Tree.{Tree, ends_with}
use bazzite_tower.Firewall.System.Names.{events_name, events_logger, activation_dirs}
use bazzite_tower.Firewall.System.Activation.{
  below_root, front_parts, lower_name, is_nameable, is_scanner_name, is_session_file, names_scanner,
  check_bytes, check_activation, check_activations, found_below, check_activation_dirs,
  refuse_persistent_scanner_activation, check_names, check_name_dirs, events_dirs,
  refuse_enabled_endpoint_events, logger_dirs, refuse_logger_snippet,
}

require-true : (b : Bool) (message : String) → b ≡ true → require b message ≡ ok tt
require-true b message h = ap (λ c. require c message) h

pub >>-ok : (x y : Result (Unit {0})) → x ≡ ok tt → y ≡ ok tt → (x >> y) ≡ ok tt
>>-ok x y first second = ap (λ r. r >> y) first ∙ second

-- The unit and bus directories in which something could activate the scanner.
abbrev pub searched : List String
searched =
    "usr/lib/systemd/system" ∷ "usr/lib/systemd/user" ∷ "etc/systemd/system" ∷ "etc/systemd/user"
    ∷ "etc/xdg/systemd/user" ∷ "usr/share/dbus-1/system-services" ∷ "etc/dbus-1/system-services"
    ∷ "usr/share/dbus-1/services" ∷ "etc/dbus-1/services" ∷ []

-- The directories of the image in which no endpoint-event unit may stand, and those without a logger
-- snippet; of a live system the files in /etc belong to the operator.
abbrev pub event_dirs : Bool → List String
event_dirs true =
    "usr/lib/systemd/system" ∷ "usr/lib/systemd/user" ∷ "etc/systemd/system" ∷ "etc/systemd/user"
    ∷ "etc/xdg/systemd/user" ∷ []
event_dirs false = "usr/lib/systemd/system" ∷ "usr/lib/systemd/user" ∷ []

abbrev pub snippet_dirs : Bool → List String
snippet_dirs true = "etc/opensnitchd" ∷ "usr/share/snitchwatch" ∷ "usr/share/bazzite-tower" ∷ []
snippet_dirs false = "usr/share/snitchwatch" ∷ "usr/share/bazzite-tower" ∷ []

-- The endings of units, and of the directories that enable them.
abbrev pub unit_endings : List String
unit_endings = ".service" ∷ ".timer" ∷ ".socket" ∷ ".path" ∷ ".wants" ∷ ".requires" ∷ []

abbrev pub enabling_endings : List String
enabling_endings = ".wants" ∷ ".requires" ∷ []

abbrev pub has_ending : List String → String → Bool
has_ending endings name = any (λ ending. ends_with ending name) endings

module _ ⦃tree : Tree⦄ where
  -- A unit, a link or a path below an enabling directory, with a name of the scanner.
  abbrev pub is_scanner_unit : String → List String → Bool
  is_scanner_unit directory parts =
      (has_ending unit_endings (lower_name parts)
        || (tree.is_symlink (below_root directory parts)
            || any (λ part. has_ending enabling_endings (tree.lower part)) (front_parts parts)))
      && (holds_text "scanner" (lower_name parts)
          || starts_with "dbus-org.snitchwatch." (lower_name parts))

  -- A path that activates no scanner: the session's own file, or a path that does not name a unit of
  -- the scanner and, where it is a file, does not hold the name of a scanner binary.
  pub data IsInert (directory : String) (parts : List String) : Type 0 where
    session :
        below_root directory parts ≡ "usr/share/dbus-1/services/org.snitchwatch.Scanner.service"
        → tree.is_file (below_root directory parts) ≡ true
        → tree.is_symlink (below_root directory parts) ≡ false
        → IsInert directory parts
    link :
        is_scanner_unit directory parts ≡ false
        → tree.is_symlink (below_root directory parts) ≡ true
        → IsInert directory parts
    no_file :
        is_scanner_unit directory parts ≡ false
        → tree.is_file (below_root directory parts) ≡ false
        → IsInert directory parts
    other_file :
        is_scanner_unit directory parts ≡ false
        → (bytes : String) → tree.read_bytes (below_root directory parts) ≡ ok bytes
        → holds_text (tree.encoded "snitchwatch-scanner-privileged") bytes ≡ false
        → holds_text (tree.encoded "snitchwatch-scanner-broker") bytes ≡ false
        → IsInert directory parts

  two_absent : (a b : Bool) → (a || (b || false)) ≡ false → (a ≡ false) × (b ≡ false)
  two_absent a b h = (ground arith, ground arith)

  two_none : (a b : Bool) → a ≡ false → b ≡ false → (a || (b || false)) ≡ false
  two_none a b e f = ground arith

  not_opened : (a b : Bool) → (a || not b) ≡ true → (a ≡ true) ⊎ (b ≡ false)
  not_opened true b h = inl refl
  not_opened false b h = inr (not-eq-true b h)

  is_session :
      (path : String)
      → path ≡ "usr/share/dbus-1/services/org.snitchwatch.Scanner.service"
      → tree.is_file path ≡ true
      → tree.is_symlink path ≡ false
      → is_session_file path ≡ true
  is_session path named file no_link =
      rw (file, no_link)
        (ground
          (arith, =s=_iff path "usr/share/dbus-1/services/org.snitchwatch.Scanner.service", named))

  module _ (directory : String) (parts : List String) where
    check_bytes-IsInert :
        is_scanner_unit directory parts ≡ false
        → check_bytes (below_root directory parts) ≡ ok tt
        → IsInert directory parts
    check_bytes-IsInert named h =
        let (bytes, e, h1) =
          >>=-eq-ok (tree.read_bytes (below_root directory parts))
            (λ b. require (not (names_scanner b)) _) h in
        let (privileged, broker) =
          two_absent (holds_text (tree.encoded "snitchwatch-scanner-privileged") bytes)
            (holds_text (tree.encoded "snitchwatch-scanner-broker") bytes)
            (not-eq-true (names_scanner bytes)
              (require_holds (not (names_scanner bytes)) _ tt h1)) in
        other_file named bytes e privileged broker

    check_activation-IsInert : check_activation directory parts ≡ ok tt → IsInert directory parts
    unfolding check_activation
    check_activation-IsInert h =
        let path = below_root directory parts in
        let bad = is_nameable path parts && is_scanner_name (lower_name parts) in
        let unread = tree.is_symlink path || not (tree.is_file path) in
        elim (Bool-cases (is_session_file path)) [
          | inl own ↦
              let (named, rest) = &&-eq-true _ _ own in
              let (file, no_link) = &&-eq-true (tree.is_file path) _ rest in
              session ((=s=_iff path _).0 named) file (not-eq-true (tree.is_symlink path) no_link)
          | inr foreign ↦
              let (named, h1) = require-eq-ok (not bad) _ _ (rw foreign at h) in
              elim (Bool-cases unread) [
                | inl skipped ↦
                    elim (not_opened (tree.is_symlink path) (tree.is_file path) skipped) [
                      | inl linked ↦ link (not-eq-true bad named) linked
                      | inr absent ↦ no_file (not-eq-true bad named) absent
                    ]
                | inr opened ↦ check_bytes-IsInert (not-eq-true bad named) (rw opened at h1)
              ]
        ]

    -- A path that names no unit of the scanner, behind the test of the session's file.
    skipped_path :
        is_scanner_unit directory parts ≡ false
        → (tree.is_symlink (below_root directory parts)
            || not (tree.is_file (below_root directory parts)))
          ≡ true
        → check_activation directory parts ≡ ok tt
    unfolding check_activation
    skipped_path named skipped = elim (Bool-cases (is_session_file (below_root directory parts))) [
      | inl own ↦ rw own refl
      | inr foreign ↦ rw (foreign, named, skipped) refl
    ]

    IsInert-check_activation : IsInert directory parts → check_activation directory parts ≡ ok tt
    unfolding check_activation
    IsInert-check_activation (session named file no_link) =
        rw (is_session (below_root directory parts) named file no_link) refl
    IsInert-check_activation (link named linked) = skipped_path named (rw linked refl)
    IsInert-check_activation (no_file named absent) = skipped_path named (ground arith)
    IsInert-check_activation (other_file named bytes e privileged broker) =
        let quiet : names_scanner bytes ≡ false = two_none _ _ privileged broker in
        elim (Bool-cases (is_session_file (below_root directory parts))) [
          | inl own ↦ rw own refl
          | inr foreign ↦ rw (foreign, named) (ground (arith, e, quiet))
        ]

  -- The same of all paths below the directories.
  abbrev pub AllInert : List String → Type 0
  AllInert directories = All (λ d. All (IsInert d) (found_below d)) directories

  check_activations_iff :
      (directory : String) (found : List (List String))
      → (check_activations directory found ≡ ok tt) ↔ All (IsInert directory) found
  unfolding check_activations
  check_activations_iff directory [] = (λ h. tt, λ h. refl)
  check_activations_iff directory (parts ∷ rest) =
      let (there, back) = check_activations_iff directory rest in
      (
        λ h.
            let (u, first, others) = >>=-eq-ok (check_activation directory parts) _ h in
            (check_activation-IsInert directory parts first, there others),
        λ h.
            >>-ok (check_activation directory parts) (check_activations directory rest)
              (IsInert-check_activation directory parts (h.0)) (back (h.1)),
      )

  check_activation_dirs_iff :
      (directories : List String)
      → (check_activation_dirs directories ≡ ok tt) ↔ AllInert directories
  unfolding check_activation_dirs
  check_activation_dirs_iff [] = (λ h. tt, λ h. refl)
  check_activation_dirs_iff (d ∷ ds) =
      let (there, back) = check_activation_dirs_iff ds in
      let (inside, outside) = check_activations_iff d (found_below d) in
      (
        λ h.
            let (u, first, others) = >>=-eq-ok (check_activations d (found_below d)) _ h in
            (inside first, there others),
        λ h.
            >>-ok (check_activations d (found_below d)) (check_activation_dirs ds) (outside (h.0))
              (back (h.1)),
      )

  -- No path below the directories has the word in the lower case of its name.
  abbrev pub Nameless : String → List String → Type 0
  Nameless word directories =
      All (λ d. All (λ parts. holds_text word (lower_name parts) ≡ false) (found_below d))
        directories

  check_names_iff :
      (word message directory : String) (found : List (List String))
      → (check_names word message directory found ≡ ok tt)
        ↔ All (λ parts. holds_text word (lower_name parts) ≡ false) found
  unfolding check_names
  check_names_iff word message directory [] = (λ h. tt, λ h. refl)
  check_names_iff word message directory (parts ∷ rest) =
      let (there, back) = check_names_iff word message directory rest in
      let held = holds_text word (lower_name parts) in
      (
        λ h.
            let (first, others) = require-eq-ok (not held) _ _ h in
            (not-eq-true held first, there others),
        λ h.
            >>-ok _ (check_names word message directory rest)
              (require-true (not held) _ (ap not (h.0))) (back (h.1)),
      )

  check_name_dirs_iff :
      (word message : String) (directories : List String)
      → (check_name_dirs word message directories ≡ ok tt) ↔ Nameless word directories
  unfolding check_name_dirs
  check_name_dirs_iff word message [] = (λ h. tt, λ h. refl)
  check_name_dirs_iff word message (d ∷ ds) =
      let (there, back) = check_name_dirs_iff word message ds in
      let (inside, outside) = check_names_iff word message d (found_below d) in
      (
        λ h.
            let (u, first, others) = >>=-eq-ok (check_names word message d (found_below d)) _ h in
            (inside first, there others),
        λ h.
            >>-ok (check_names word message d (found_below d)) (check_name_dirs word message ds)
              (outside (h.0)) (back (h.1)),
      )

  -- Nothing but the session's file activates the scanner, the endpoint events are not installed or
  -- enabled, and no logger snippet is shipped.
  pub record IsQuiet (image_tree : Bool) : Type 0 where
    pub inert : AllInert searched
    pub no_events : Nameless "snitchwatch-endpoint-events" (event_dirs image_tree)
    pub no_logger : Nameless "opensnitchd-logger" (snippet_dirs image_tree)

  same_events : (image_tree : Bool) → events_dirs image_tree ≡ event_dirs image_tree
  same_events true = refl
  same_events false = refl

  same_snippets : (image_tree : Bool) → logger_dirs image_tree ≡ snippet_dirs image_tree
  same_snippets true = refl
  same_snippets false = refl

  abbrev pub refusals : Bool → Result (Unit {0})
  refusals image_tree =
      refuse_persistent_scanner_activation
      >> (refuse_enabled_endpoint_events image_tree >> refuse_logger_snippet image_tree)

  -- The three refusals, one after the other, return exactly where in the nine unit and bus directories every
  -- path is inert (the session's own file, which is no link, or a path that neither names a unit of the
  -- scanner nor, where it is a file, holds the name of one of its two binaries), and no name in the
  -- directories for units and snippets holds that of the endpoint-event units or of the logger snippet.
  pub refusals-IsQuiet : (image_tree : Bool) → (refusals image_tree ≡ ok tt) ↔ IsQuiet image_tree
  refusals-IsQuiet image_tree =
      let (inert, inert_back) = check_activation_dirs_iff activation_dirs in
      let (events, events_back) =
        check_name_dirs_iff events_name
          "endpoint-events unit must not be installed or enabled in the image: "
          (events_dirs image_tree) in
      let (logger, logger_back) =
        check_name_dirs_iff events_logger "opensnitchd logger snippet must not be shipped: "
          (logger_dirs image_tree) in
      (
        λ h.
            let (u1, e1, h1) = >>=-eq-ok refuse_persistent_scanner_activation _ h in
            let (u2, e2, h2) = >>=-eq-ok (refuse_enabled_endpoint_events image_tree) _ h1 in
            record {
              inert = inert e1;
              no_events = subst (Nameless events_name) (same_events image_tree) (events e2);
              no_logger = subst (Nameless events_logger) (same_snippets image_tree) (logger h2);
            },
        λ q. >>-ok refuse_persistent_scanner_activation _ (inert_back q.inert) (
            >>-ok (refuse_enabled_endpoint_events image_tree) (refuse_logger_snippet image_tree)
              (events_back
                (subst (Nameless events_name) (sym (same_events image_tree)) q.no_events))
              (logger_back
                (subst (Nameless events_logger) (sym (same_snippets image_tree)) q.no_logger))),
      )
