-- ===== src/Refresh/Bump.antt =====
-- ci/base-bump-guard.py: whether a base bump may merge without review. It fails closed.
pub mod Exact
pub mod Chain
use bazzite_tower.Prelude.{
  strip, ℕ, ◌-◌, String, Bool, true, false, ◌&&◌, ◌||◌, not, Option, none, some, List, [], ◌∷◌,
  ◌++◌, leb, ◌==◌, if◌then◌else◌, codes, same_codes, get_elem?, is_empty, Json, Fields, item,
  Result, ok, err, value_error, ◌>>=◌,
}
use bazzite_tower.Refresh.Version.{Version, base_version, kernel_version, at_least}
use bazzite_tower.Refresh.Policy.{base_version_of, kernel_version_of}

-- The file that `--blast-report` names, as it is read.
pub data Report : Type 0 where
  no_path unreadable : Report
  text : List ℕ → Report

-- NO_CHANGES
abbrev pub no_changes : List ℕ
no_changes = codes "_No blast-radius package changes._"

-- The reason line, without the values that the texts show.
pub data Reason : Type 0 where
  fedora_changed kernel_downgrade version_downgrade below_base below_kernel not_computed
        packages_changed accepted :
      Reason

unfoldable pub report_reason : List ℕ → Option Reason
unfolding same_codes
report_reason stripped =
    if is_empty stripped
    then some not_computed
    else if same_codes stripped no_changes
    then none
    else some packages_changed

unfoldable pub blast_reason : Report → Option Reason
unfolding report_reason
blast_reason no_path = some not_computed
blast_reason unreadable = some not_computed
blast_reason (text cs) = report_reason (strip cs)

abbrev pub or_index_error : Option ℕ → Result ℕ
or_index_error none = err (value_error "tuple index out of range")
or_index_error (some n) = ok n

-- `v[i]`
abbrev pub at_index : ℕ → Version → Result ℕ
at_index i v = or_index_error (get_elem? v i)

abbrev pub judge_blast : Option Reason → Result (Bool × Reason)
judge_blast none = ok (true, accepted)
judge_blast (some reason) = ok (false, reason)

abbrev pub judge_kernel : Version → Version → Report → Result (Bool × Reason)
judge_kernel new_k floor report =
    if at_least new_k floor then judge_blast (blast_reason report) else ok (false, below_kernel)

-- The floors of the policy, and the report.
unfoldable pub judge_policy : Version → Version → Fields → Report → Result (Bool × Reason)
judge_policy new_v new_k p report = do
  base ← item "minimumBaseVersion" p
  base_floor ← base_version_of base
  if at_least new_v base_floor
      then (do
        kernel ← item "minimumKernel" p
        kernel_floor ← kernel_version_of kernel
        judge_kernel new_k kernel_floor report)
      else ok (false, below_base)

unfoldable pub judge :
    Version → Version → Version → Version → Result Fields → Report → Result (Bool × Reason)
judge cur_v new_v cur_k new_k policy report = do
  cur_fedora ← at_index 5 cur_k
  new_fedora ← at_index 5 new_k
  cur_major ← at_index 0 cur_v
  new_major ← at_index 0 new_v
  if not (cur_fedora == new_fedora) || not (cur_major == new_major)
      then ok (false, fedora_changed)
      else if not (at_least new_k cur_k)
      then ok (false, kernel_downgrade)
      else if not (at_least new_v cur_v)
      then ok (false, version_downgrade)
      else (do p ← policy; judge_policy new_v new_k p report)

-- `decide`; `policy` is what `refresh.policy(root)` returns or raises.
unfoldable pub decide :
    Result Fields → String → String → String → String → Report → Result (Bool × Reason)
unfolding judge
decide policy cur_version cur_kernel new_version new_kernel report = do
  cur_v ← base_version cur_version
  new_v ← base_version new_version
  cur_k ← kernel_version cur_kernel
  new_k ← kernel_version new_kernel
  judge cur_v new_v cur_k new_k policy report

-- `main`'s `automerge=`, where any error is a `false`
abbrev pub merges : Result (Bool × Reason) → Bool
merges (ok (b, reason)) = b
merges (err e) = false

unfoldable pub automerge : Result Fields → String → String → String → String → Report → Bool
unfolding decide
automerge policy cur_version cur_kernel new_version new_kernel report =
    merges (decide policy cur_version cur_kernel new_version new_kernel report)
