-- ===== src/Lib.antt =====
-- Verification of the control programs of bazzite-tower: the helper that puts the firewall into a
-- trial of its deny mode, the checks that decide on a new base image, the inventory of its packages,
-- the gates of a publication, and the report on the tokens that agents use.
--
-- The deny helper (system_files/usr/libexec/bazzite-tower-snitchwatch-deny, with the functions that it
-- calls of bazzite-tower-snitchwatch-common.py):
--   Deny/System    the files that the helper names, the daemon, the timer, the clock; the codecs and
--                  formats of Python's library are the record Host, what is used of them is IsLawful
--   Deny/Run       runs: state passing with errors, and a schedule of faults. A system call succeeds,
--                  raises before its effect (fail) or behind it (late), or is the one in which the process
--                  is killed, before its effect (crash; a kill behind it is one in the next call); a
--                  restart may return and leave the daemon inactive (dead)
--   Deny/Edit      current_action and set_action, with the regular expression of the key
--   Deny/Files     metadata_at, publish, private_bytes, state_dir, read_config, the calls of systemd
--   Deny/Record    the state file's document; Deny/State load_state, save_state, deny_opt_in
--   Deny/Report    inspect, is_expired; Deny/Snapshot build_report, write_snapshot, publish_snapshot
--   Deny/Trial     restore_allow, discard, turn_on; Deny/Commands turn_off, confirm, revert_if_pending
--   Deny/Contract  config_contract, the readiness check of the live config
--   Deny/Main      policy_lock, the boot guard with its quarantine, publish_status, main
-- Deny/Run/Triple has the rules for statements about runs, Deny/Safety applies them to every function:
-- Views has the invariant Safe (a config that denies has a pending trial in an accepted state file, or
-- a marker; every text with the hash of the recorded backup allows), World the step relation of
-- commands, timers, waits and reboots. Deny/Run/Returns has rules for runs without faults, which Recovery and Reboot
-- apply to the boot guard. What json.dumps writes is read back with the same scalars under the same keys,
-- in any order; Saved shows that this is enough for a state.
--
-- A publish is a replacement of one path that happens or does not (a temporary file and os.replace); the
-- temporary file is not modelled. The wait for the policy lock compares the clock with its deadline, 30
-- seconds ahead, and is recursion on the number of its rounds, 301 with a sleep of a tenth of a second between
-- two; Main/Lock shows of any deadline that these rounds reach it. The counts and the
-- substitution of the pattern recurse on the length of the text. Two helpers do not interleave, as the
-- lock makes them wait for each other. Signal handlers, the argument parser and printed texts are not
-- modelled.
--
-- The base image (ci/base-refresh.py, ci/base-bump-guard.py), where an error stands for any exception of its
-- kind and a document that is read where it is not a dict raises a TypeError:
--   Refresh/Version  base_version, kernel_version and the order of tuples. A number of more than 4300
--                    digits is refused, as `int` does, with the ValueError of the pattern
--   Refresh/Policy   policy, with hex_value of ci/r13-publication.py and parse_created of
--                    ci/rpm-inventory-spdx.py; datetime.fromisoformat is the record Dates
--   Refresh/Previous monotonic and bootstrap_failure
--   Refresh/Baseline baseline; the answers of skopeo, cosign, the API and the environment are the record
--                    Registry, with the envelopes decoded and the manifest hashed
--   Refresh/Evidence the run's context, immutable_base, evidence, inventory_kernel and active_policy
--   Refresh/Validate validate of artifacts that are not executed (execute=False), revalidate and fresh, over the
--                    World of Publication
--   Refresh/Attested source, envelopes and attestations; base64 is the record Payloads
--   Refresh/Installed  installed_profile, actual_inventory and validate with execute=True, over the record Images of
--                    what podman has of an image, with a run in Tests; its temporary containers are not modelled
--   Refresh/Bump     the decision on a bump; the reason line is a constructor without the values shown
--   Diff             ci/base-diff.py, whose report the bump guard reads: Diff/Quiet puts both together.
--                    BLAST_RADIUS is matched on names without a line feed
--   Spdx             parse_inventory, package_id and make_document of ci/rpm-inventory-spdx.py; sha256 and
--                    isdecimal are the record Spdx.Library, and the errors are constructors
--
-- The publication gates (ci/r13-publication.py), over a World of plain files, archives, the environment and git,
-- with the JSON library before its hook, sha256 and int. A document is decoded with the check of `pairs` at
-- every dict; bytes are texts with the size of their node:
--   Publication            the documents of the authority and its receipts, identity, candidate_approval, context
--   Publication/Image      image_identity: the entries of an archive, its manifest, config and layers
--   Publication/Candidate  verify_source, validate_candidate and the modes of main
--   Publication/Outputs    output; what is written before a refused line is not modelled
--
-- The offline gate (scripts/snitchwatch-gate.py):
--   Gate             snapshot with the adaptation of two scripts, execute, first_error and run, over a World of tools,
--                    processes and the files at the paths of INPUTS. Cleanup, the environment of the commands and the directory
--                    of the evidence are not modelled
--
-- The read-only verifiers of an image tree (build_files/firewall/snitchwatch-system-daemon-verify.py and
-- build_files/firewall/snitchwatch-system-verify.py), over a Tree of links, modes, owners and bytes, with the
-- JSON library, sha256, UTF-8 and the sorted paths below a directory. Bytes are texts of characters below 256; a
-- document that is not a dict is refused where it is read, where the code fails at its first `.get`:
--   Firewall/Tree          the tree, and what both verifiers do with paths, texts and documents
--   Firewall/Inventory     what the run over an inventory says of its files
--   Firewall/Daemon/Names, Reading, Checks, Verify  the verification of the daemon; Intact, Built and Reviewed its
--                          consequences
--   Firewall/System/Names, Reading, Bridge, Artifact, Scanner, Activation, Verify  the verification of the bridge;
--                          Intact, Bridged, Quiet and Verified its consequences
--   Firewall/Contracts     what the privileged tools check of the installed image before they act, in
--                          system_files/usr/libexec/bazzite-tower-snitchwatch-common.py, over a Context of the
--                          host and its commands: Installed and Image (immutable, immutable_daemon), Units
--                          (account_ids, the unit of the daemon and its drop-ins), Trusted and Separated their
--                          consequences. `int` of an account is a natural number
--
-- The token report (scripts/agent-token-report.py):
--   Tokens/Values    Usage, Sample, the values read of JSON, and the records of a log; json.loads,
--                    date.fromisoformat, str and a percentage that is no whole number are the record
--                    Tokens.Values.Library. A log is its parts of the path, the lines that are read and whether it is
--                    read to its end
--   Tokens/Claude    claude: messages under their ids, tool results; Tokens/Codex codex: deltas of counters,
--                    rate limits
--   Tokens/Summary   summarize and report; the cost index is kept in twentieths and the share of large
--                    contexts as a fraction, where the program computes floats
--   Tokens/Text      text_report; the formats of numbers and texts are the record Formats
--
-- Prelude/Sort has `sorted`, a stable sort that does not depend on the order of the items; Prelude/Order
-- the orders of Python's texts and tuples; Prelude/Dicts dicts in their order of insertion.
--
-- Tests has a codec that is computed, a lawful host under it, and runs and theorems at concrete inputs.
-- Not modelled: argument parsers, the collection of a refresh and of a candidate, the host policy that
-- `trust` writes, the pins of snitchwatch (ci/repin-snitchwatch.py), the tools of
-- build_files/firewall that build and stage what is verified, the checks of the bridge's units and of the
-- Flatpaks, the migration helper, shell scripts and workflows.
pub mod Prelude
pub mod Refresh
pub mod Deny
pub mod Tokens
pub mod Spdx
pub mod Diff
pub mod Firewall
pub mod Publication
pub mod Gate
pub mod Tests
