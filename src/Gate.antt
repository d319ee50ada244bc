-- ===== src/Gate.antt =====
-- scripts/snitchwatch-gate.py: the offline checks, run on a copy of their inputs.
pub mod Verdict
use bazzite_tower.Prelude.{
  ℕ, zero, suc, ◌-◌, ◌+◌, String, ◌<>◌, Bool, true, false, ◌&&◌, ◌||◌, not, Option, none, some,
  List, [], ◌∷◌, ◌++◌, any, is_empty, length, ◌==◌, if◌then◌else◌, ◌=s=◌, codes, is_prefix_of,
  holds_codes, holds_text, Dict, find, put, join, split_lines, text_take, text_strip, is_blank,
  Result, ok, err, Error, value_error, file_not_found, error_text, ◌>>=◌, ◌>>◌, require,
}

-- PASS, FAIL and BLOCKED
pub data Status : Type 0 where
  pass fail blocked : Status

-- `process.wait()`: an exit code, or the signal that ended the process
pub data Code : Type 0 where
  exited : ℕ → Code
  signaled : ℕ → Code

-- What becomes of a command, with what it writes.
pub data Process : Type 0 where
  not_started : String → Process
  timed_out : String → Process
  ended : Code → String → Process

-- A path of an input: its name relative to the root and its last part.
pub record Source : Type 0 where
  pub relative : String
  pub name : String
  pub is_link : Bool
  pub is_directory : Bool
  pub bytes : List ℕ
  pub mode : ℕ

-- What stands at a path of the repository; of a directory, `sorted(source.rglob('*'))`.
pub data Input : Type 0 where
  missing : Input
  single : Source → Input
  folder : List Source → Input

pub record Check : Type 0 where
  pub name : String
  pub command : List String
  pub dependencies : List String

-- CHECKS
abbrev pub checks : List Check
checks =
    record {
      name = "toolchain";
      command = "bash" ∷ "tests/test-snitchwatch-toolchain.sh" ∷ [];
      dependencies =
          "bash" ∷ "python3" ∷ "sha256sum" ∷ "mktemp" ∷ "cp" ∷ "cat" ∷ "chmod" ∷ "mkdir" ∷ "rm"
          ∷ "basename" ∷ "dirname" ∷ "sed" ∷ "grep" ∷ "cut" ∷ "stat" ∷ "tail" ∷ "timeout" ∷ "env"
          ∷ [];
    }
    ∷ record {
      name = "image-build";
      command = "python3" ∷ "tests/test-snitchwatch-image-build.py" ∷ [];
      dependencies = "bash" ∷ "python3" ∷ "cat" ∷ "mkdir" ∷ "touch" ∷ [];
    }
    ∷ record {
      name = "daemon-image-build";
      command = "python3" ∷ "tests/test-snitchwatch-image-build-daemon.py" ∷ [];
      dependencies = "python3" ∷ "git" ∷ [];
    }
    ∷ record {
      name = "system-fixtures";
      command = "bash" ∷ "tests/test-snitchwatch-system.sh" ∷ [];
      dependencies = "bash" ∷ "python3" ∷ [];
    }
    ∷ record {
      name = "supply-chain";
      command = "bash" ∷ "tests/check-supply-chain.sh" ∷ [];
      dependencies = "bash" ∷ "python3" ∷ "jq" ∷ [];
    }
    ∷ []

-- INPUTS
abbrev pub inputs : List String
inputs =
    "Justfile" ∷ "Containerfile" ∷ "cosign.pub" ∷ ".github/workflows/build.yml"
    ∷ "build_files/firewall" ∷ "build_files/build.d/15-signature-policy.sh"
    ∷ "build_files/build.d/95-firewall.sh" ∷ "system_files" ∷ "scripts/install-signature-policy.sh"
    ∷ "scripts/snitchwatch-gate.py" ∷ "tests/test-snitchwatch-image-build-fixtures"
    ∷ "tests/fixtures/r13-installed-branch-metadata.json"
    ∷ "tests/fixtures/flatpak-installed-metadata" ∷ "tests/test-snitchwatch-system.py"
    ∷ "tests/test-snitchwatch-gate.py" ∷ "tests/test-snitchwatch-toolchain.sh"
    ∷ "tests/test-snitchwatch-image-build.py" ∷ "tests/test-snitchwatch-image-build-daemon.py"
    ∷ "tests/test-snitchwatch-system.sh" ∷ "tests/check-supply-chain.sh" ∷ []

-- ADAPTATIONS
abbrev pub adaptations : List (String × List (String × ℕ))
adaptations =
    ("tests/test-snitchwatch-toolchain.sh", ("T", 1) ∷ ("T/work", 2) ∷ [])
    ∷ ("build_files/firewall/snitchwatch-system-toolchain.sh", ("tmp", 1) ∷ [])
    ∷ []

-- `text.count(old)`, with what is left of an occurrence
abbrev pub count_from : List ℕ → ℕ → List ℕ → ℕ
count_from old skip [] = 0
count_from old (suc skip) (c ∷ cs) = count_from old skip cs
count_from old zero (c ∷ cs) =
    let next = count_from old zero cs in
    let behind = count_from old (length old - 1) cs in
    if is_prefix_of old (c ∷ cs) then 1 + behind else next

-- `text.replace(old, new)`
abbrev pub replace_from : List ℕ → List ℕ → ℕ → List ℕ → List ℕ
replace_from old new skip [] = []
replace_from old new (suc skip) (c ∷ cs) = replace_from old new skip cs
replace_from old new zero (c ∷ cs) =
    let next = replace_from old new zero cs in
    let behind = replace_from old new (length old - 1) cs in
    if is_prefix_of old (c ∷ cs) then new ++ behind else c ∷ next

-- `$T/work`, and `$` in front of any other variable
abbrev pub expression_of : String → String
expression_of variable = "$" <> variable

abbrev pub removal : String → List ℕ
removal variable = codes ("rm -rf -- \"" <> (expression_of variable <> "\""))

abbrev pub cleanup_call : String → List ℕ
cleanup_call variable =
    codes ("python3 \"$SNITCHWATCH_GATE_CLEANUP\" --cleanup \"" <> (expression_of variable <> "\""))

unfoldable pub adapt : List (String × ℕ) → List ℕ → Result (List ℕ)
adapt [] text = ok text
adapt ((variable, count) ∷ rest) text = do
  require (count_from (removal variable) 0 text == count) "cleanup contract changed"
  adapt rest (replace_from (removal variable) (cleanup_call variable) 0 text)

abbrev pub or_missing : Option (List ℕ) → Result (List ℕ)
or_missing none = err file_not_found
or_missing (some bytes) = ok bytes

-- The copies, and the records of `inputs.json`.
abbrev pub Copies : Type 0
Copies = Dict String (List ℕ)

abbrev pub Records : Type 0
Records = Dict String (String × ℕ)

module _ (digest : List ℕ → String) where
  unfoldable pub copy : List Source → Copies × Records → Result (Copies × Records)
  copy [] acc = ok acc
  copy (s ∷ ss) (copies, records) =
      if s.is_link
      then err (value_error "symlink input refused")
      else if s.is_directory
      then copy ss (copies, records)
      else if s.name =s= "cosign.key"
      then err (value_error "private key input refused")
      else copy ss (
        put ◌=s=◌ s.relative s.bytes copies,
        put ◌=s=◌ s.relative (digest s.bytes, s.mode) records,
      )

  -- `path.read_bytes()` of a path that is not there raises.
  abbrev pub copy_input : Input → Copies × Records → Result (Copies × Records)
  copy_input missing acc = err file_not_found
  copy_input (single s) acc = copy (s ∷ []) acc
  copy_input (folder ss) acc = copy ss acc

  -- The loop over INPUTS.
  unfoldable pub copy_all :
      (String → Input) → List String → Copies × Records → Result (Copies × Records)
  unfolding copy
  copy_all tree [] acc = ok acc
  copy_all tree (name ∷ names) acc = do
    copied ← copy_input (tree name) acc
    copy_all tree names copied

  unfoldable pub adapt_all :
      List (String × List (String × ℕ)) → Copies → Result (Copies × Dict String String)
  unfolding adapt
  adapt_all [] copies = ok (copies, [])
  adapt_all ((name, replacements) ∷ rest) copies = do
    text ← or_missing (find ◌=s=◌ name copies)
    adapted ← adapt replacements text
    require (not (holds_codes (codes "rm -rf") adapted)) "unadapted recursive cleanup"
    others ← adapt_all rest (put ◌=s=◌ name adapted copies)
    ok (others.0, (name, digest adapted) ∷ others.1)

  -- `snapshot`, of what stands at the paths of the repository
  unfoldable pub snapshot : (String → Input) → Result (Copies × Records × Dict String String)
  unfolding copy_all adapt_all
  snapshot tree = do
    copied ← copy_all tree inputs ([], [])
    adapted ← adapt_all adaptations (copied.0)
    ok (adapted.0, copied.1, adapted.1)

-- `execute`: the status, the exit code and the log
unfoldable pub execute : Process → Status × Option Code × String
execute (not_started message) = (blocked, none, message)
execute (timed_out text) = (blocked, none, text <> "\nBLOCKED: check timed out\n")
execute (ended (exited zero) text) = (pass, some (exited zero), text)
execute (ended code text) = (fail, some code, text)

abbrev pub error_words : List String
error_words = "error" ∷ "fail" ∷ "blocked" ∷ "traceback" ∷ "assert" ∷ []

-- A result of the summary.
pub record Entry : Type 0 where
  pub name : String
  pub status : Status
  pub exit_code : Option Code
  pub command : List String
  pub log : String
  pub first_error : Option String

-- The tools, the processes, the repository's files, the hash, what `inputs.json` hashes to, and `str.lower`.
pub record World : Type 0 where
  pub which : String → Bool
  pub process : List String → Process
  pub isolation : Process
  pub tree : String → Input
  pub digest : List ℕ → String
  pub manifest_digest : Records → Dict String String → String
  pub lower : String → String

abbrev pub is_pass : Status → Bool
is_pass pass = true
is_pass _ = false

abbrev pub is_fail : Status → Bool
is_fail fail = true
is_fail _ = false

abbrev pub is_blocked : Status → Bool
is_blocked blocked = true
is_blocked _ = false

abbrev pub first_line : List String → String
first_line [] = "no diagnostic output"
first_line (line ∷ lines) =
    let rest = first_line lines in if is_blank (text_strip line) then rest else text_take 240 line

abbrev pub missing_tools : (String → Bool) → List String → List String
missing_tools which [] = []
missing_tools which (tool ∷ tools) =
    let rest = missing_tools which tools in if which tool then rest else tool ∷ rest

module _ ⦃world : World⦄ where
  abbrev pub first_match : List String → Option String
  first_match [] = none
  first_match (line ∷ lines) =
      let rest = first_match lines in
      if any (λ word. holds_text word (world.lower line)) error_words
      then some (text_take 240 line)
      else rest

  abbrev pub or_first : Option String → List String → String
  or_first none lines = first_line lines
  or_first (some line) lines = line

  unfoldable pub first_error : String → String
  unfolding split_lines
  first_error log = or_first (first_match (split_lines log)) (split_lines log)

  abbrev pub entry : Check → Status × Option Code × String → Entry
  entry c (status, code, log) = record {
    name = c.name;
    status = status;
    exit_code = code;
    command = c.command;
    log = log;
    first_error = if is_pass status then none else some (first_error log);
  }

  -- `blocked or (missing tools)`
  abbrev pub reason_of : Option String → Check → Option String
  reason_of (some reason) c = some reason
  reason_of none c =
      let missing = missing_tools world.which c.dependencies in
      if is_empty missing then none else some ("missing tools: " <> join ", " missing)

  abbrev pub attempt : Option String → Check → Status × Option Code × String
  attempt (some reason) c = (blocked, none, "BLOCKED: " <> (reason <> "\n"))
  attempt none c =
      execute (world.process ("unshare" ∷ "--user" ∷ "--map-root-user" ∷ "--net" ∷ c.command))

  unfoldable pub run_checks : Option String → List Check → List Entry
  unfolding execute first_error
  run_checks reason [] = []
  run_checks reason (c ∷ cs) = entry c (attempt (reason_of reason c) c) ∷ run_checks reason cs

  -- The hash of the inputs, and what blocks all checks.
  abbrev pub of_snapshot :
      Result (Copies × Records × Dict String String) → Option String × Option String
  of_snapshot (err error) = (none, some (error_text error))
  of_snapshot (ok (copies, records, adapted)) = (some (world.manifest_digest records adapted), none)

  abbrev pub isolated : Status × Option Code × String → Option String
  isolated (pass, _, log) = none
  isolated (_, _, log) = some ("network isolation unavailable: " <> first_error log)

  abbrev pub or_isolated : Option String → Option String
  or_isolated (some reason) = some reason
  or_isolated none = isolated (execute world.isolation)

  abbrev pub offline_of : List Entry → Status
  offline_of entries =
      if any (λ e. is_fail e.status) entries
      then fail
      else if any (λ e. is_blocked e.status) entries
      then blocked
      else pass

-- The summary that is saved, and the exit code.
pub record Summary : Type 0 where
  pub inputs_sha256 : Option String
  pub results : List Entry
  pub offline : Status
  pub exit_code : ℕ

abbrev pub exit_of : Status → ℕ
exit_of pass = 0
exit_of fail = 1
exit_of blocked = 2

module _ ⦃world : World⦄ where
  unfoldable pub run : Summary
  unfolding snapshot execute first_error run_checks
  run =
      let (inputs_hash, refused) = of_snapshot (snapshot world.digest world.tree) in
      let results = run_checks (or_isolated refused) checks in
      record {
        inputs_sha256 = inputs_hash;
        results = results;
        offline = offline_of results;
        exit_code = exit_of (offline_of results);
      }
