-- ===== src/Refresh/Previous.antt =====
-- ci/base-refresh.py `monotonic` and `bootstrap_failure`: the proof against a signed predicate, and the
-- evidence of the reviewed recovery.
use bazzite_tower.Prelude.{
  ℕ, String, Bool, true, false, ◌&&◌, ◌||◌, Option, none, some, List, [], ◌∷◌, ltb, leb, ◌==◌,
  if◌then◌else◌, codes, is_digit, length, any, all, Json, null, bool, num, str, arr, Items, nil,
  cons, Fields, end, get_field, item, as_dict, to_number, json_eq, Result, ok, err, value_error,
  type_error, require, ◌>>=◌, ◌>>◌,
}
use bazzite_tower.Refresh.Version.{Version, decimal, int_limit, at_least}
use bazzite_tower.Refresh.Policy.{base_version_of, kernel_version_of}

abbrev pub or_null : Option Json → Json
or_null none = null
or_null (some v) = v

-- `d.get(key)`, which is `None` for a missing key
abbrev pub get_or_null : String → Fields → Json
get_or_null key fs = or_null (get_field key fs)

-- `previous.get(key) == v`
abbrev pub has : String → Json → Fields → Bool
has key v previous = json_eq (get_or_null key previous) v

-- `a and b`, of which b may raise and is computed only if a holds
abbrev pub and_then : Bool → Result Bool → Result Bool
and_then true b = b
and_then false b = ok false

-- `previous.get(key) == d[key]`
abbrev pub same_item : String → Fields → Fields → Result Bool
same_item key d previous = do v ← item key d; ok (has key v previous)

-- WORKFLOW, DEST and PREDICATE
abbrev pub workflow : Json
workflow = str ".github/workflows/base-refresh.yml"

abbrev pub destination : Json
destination = str "ghcr.io/bearyjd/bazzite-tower"

abbrev pub predicate : Json
predicate = str "https://github.com/bearyjd/bazzite-tower/attestations/base-refresh/v1"

-- The first test of `monotonic`.
unfoldable pub same_identity : Fields → Fields → Fields → Result Bool
unfolding json_eq
same_identity p proof previous =
    and_then (has "kind" (str "accepted-source-base-refresh") previous) (do
      repository ← same_item "repository" p previous
      and_then (repository && has "workflow" workflow previous)
          (do ref ← same_item "ref" p previous; and_then ref (same_item "profile" proof previous)))

-- `parse(proof[key]) >= parse(previous[key])`
unfoldable pub not_below : (Json → Result Version) → String → Fields → Fields → Result Bool
not_below parse key proof previous = do
  text ← item key proof
  version ← parse text
  floor_text ← item key previous
  floor ← parse floor_text
  ok (at_least version floor)

unfoldable pub monotonic : Fields → Fields → Json → Result (Unit {0})
unfolding same_identity not_below
monotonic p proof value = do
  previous ← as_dict value
  same ← same_identity p proof previous
  require same "previous refresh provenance identity mismatch"
  base ← not_below base_version_of "baseVersion" proof previous
  require base "Bazzite downgrade below signed channel baseline"
  kernel ← not_below kernel_version_of "kernel" proof previous
  require kernel "kernel downgrade below signed channel baseline"

-- The loop over the signed predicates.
abbrev pub monotonic_all : Fields → Fields → List Json → Result (Unit {0})
monotonic_all p proof [] = ok tt
monotonic_all p proof (v ∷ vs) = monotonic p proof v >> monotonic_all p proof vs

-- `int` of a text; the policy fixes the one that it is called with, so that only digits are read.
abbrev pub int_of : Json → Result ℕ
int_of (str s) =
    if all is_digit (codes s) && (leb 1 (length (codes s)) && leb (length (codes s)) int_limit)
    then ok (decimal 0 (codes s))
    else err (value_error "invalid literal for int()")
int_of _ = err (type_error "not a text")

-- A list of documents, and what `d.get(key, [])` returns where a list is needed.
abbrev pub listed : Items → List Json
listed nil = []
listed (cons v vs) = v ∷ listed vs

abbrev pub as_list : Option Json → Result (List Json)
as_list none = ok []
as_list (some (arr xs)) = ok (listed xs)
as_list (some _) = err (type_error "not a list")

abbrev pub as_dicts : List Json → Result (List Fields)
as_dicts [] = ok []
as_dicts (v ∷ vs) = do fs ← as_dict v; rest ← as_dicts vs; ok (fs ∷ rest)

-- `isinstance(v, int)` with `0 < v <= 100` and `v == n`
abbrev pub counts : ℕ → Json → Bool
counts n (num k) = ltb 0 k && (leb k 100 && (n == k))
counts n (bool b) = ltb 0 (to_number b) && (n == to_number b)
counts n _ = false

abbrev pub is_legacy : Fields → Bool
is_legacy job = has "name" (str "publish-legacy") job

abbrev pub is_system : Fields → Bool
is_system job = has "name" (str "publish-system") job

abbrev pub filtered : (Fields → Bool) → List Fields → List Fields
filtered test [] = []
filtered test (x ∷ xs) = let rest = filtered test xs in if test x then x ∷ rest else rest

-- The checks of the failed run.
unfoldable pub check_failed_run : Fields → Fields → Json → Fields → Result (Unit {0})
unfolding json_eq
check_failed_run p recovery run_id previous = do
  id ← int_of run_id
  head ← item "failedHead" recovery
  repository ← item "repository" p
  owner ← (elim (get_field "repository" previous) [ none ↦ ok end | some v ↦ as_dict v ])
  require
      (has "id" (num id) previous
        && (has "head_sha" head previous
            && (has "path" workflow previous
                && (has "event" (str "workflow_dispatch") previous
                    && (has "head_branch" (str "main") previous
                        && (has "run_number" (num 1) previous
                            && (has "run_attempt" (num 1) previous
                                && (has "status" (str "completed") previous
                                    && (has "conclusion" (str "failure") previous
                                        && has "full_name" repository owner)))))))))
      "bootstrap recovery failed-run identity/status mismatch"

-- The checks of its jobs.
unfoldable pub check_jobs : Json → Result (Unit {0})
unfolding json_eq
check_jobs jobs_reply = do
  packet ← as_dict jobs_reply
  values ← as_list (get_field "jobs" packet)
  jobs ← as_dicts values
  require
      (counts (length jobs) (get_or_null "total_count" packet)
        && all (λ job. has "status" (str "completed") job) jobs)
      "bootstrap recovery incomplete job evidence"
  let publishers = filtered (λ job. is_legacy job || is_system job) jobs
  require
      ((length publishers == 2)
        && ((any is_legacy publishers && any is_system publishers)
            && all (λ job. has "conclusion" (str "skipped") job) publishers))
      "bootstrap recovery publication was not conclusively skipped"

-- `bootstrap_failure`, of the two decoded replies of the API: the failed run and its jobs.
unfoldable pub bootstrap_failure : Fields → Json → Json → Result (Unit {0})
unfolding check_failed_run check_jobs
bootstrap_failure p run jobs_reply = do
  bootstrap_value ← item "bootstrap" p
  bootstrap ← as_dict bootstrap_value
  legacy ← item "legacy" bootstrap
  recovery ← as_dict legacy
  run_id ← item "failedRunId" recovery
  previous ← as_dict run
  check_failed_run p recovery run_id previous
  check_jobs jobs_reply
