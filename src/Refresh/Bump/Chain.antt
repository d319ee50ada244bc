-- ===== src/Refresh/Bump/Chain.antt =====
-- Bumps that merge without review, one behind the other.
use bazzite_tower.Prelude.{String, ◌≡◌, refl, sym, ap, ◌∙◌, true, Fields, Result, ok, err}
use bazzite_tower.Refresh.Version.{Version, base_version, kernel_version, at_least}
use bazzite_tower.Refresh.Version.Order.{at_least_refl, at_least_trans}
use bazzite_tower.Refresh.Bump.{Report, at_index, automerge}
use bazzite_tower.Refresh.Bump.Exact.{Mergeable, automerge_exact}

-- The base's version and kernel before and behind any number of automatic merges, each with the
-- policy and the report of its day.
pub data Chain (version kernel : String) : String → String → Type 0 where
  start : Chain version kernel version kernel
  bump :
      {v k w l : String}
      → Chain version kernel v k
      → (policy : Result Fields) (report : Report) → automerge policy v k w l report ≡ true
      → Chain version kernel w l

-- What a chain keeps, from the tuples of its start.
pub record NotOlder (a b : Version) (w l : String) : Type 0 where
  pub version : Version
  pub kernel : Version
  pub version_ok : base_version w ≡ ok version
  pub kernel_ok : kernel_version l ≡ ok kernel
  pub version_kept : at_least version a ≡ true
  pub kernel_kept : at_least kernel b ≡ true
  pub fedora_same : at_index 5 kernel ≡ at_index 5 b
  pub major_same : at_index 0 version ≡ at_index 0 a

same_ok : {A : Type 0} (r : Result A) (a b : A) → r ≡ ok a → r ≡ ok b → a ≡ b
same_ok (ok c) a b h k = cc
same_ok (err e) a b h k = cc

bump-NotOlder :
    (a b : Version) (policy : Result Fields) (v k w l : String) (report : Report)
    → NotOlder a b v k
    → Mergeable policy v k w l report
    → NotOlder a b w l
bump-NotOlder a b policy v k w l report n m =
    let same_v : m.cur_v ≡ n.version = same_ok (base_version v) _ _ m.cur_version_ok n.version_ok in
    let same_k : m.cur_k ≡ n.kernel = same_ok (kernel_version k) _ _ m.cur_kernel_ok n.kernel_ok in
    let older_v : at_least m.new_v n.version ≡ true = rw (← same_v) m.version_kept in
    let older_k : at_least m.new_k n.kernel ≡ true = rw (← same_k) m.kernel_kept in
    record {
      version = m.new_v;
      kernel = m.new_k;
      version_ok = m.new_version_ok;
      kernel_ok = m.new_kernel_ok;
      version_kept = at_least_trans m.new_v n.version a older_v n.version_kept;
      kernel_kept = at_least_trans m.new_k n.kernel b older_k n.kernel_kept;
      fedora_same = m.new_fedora ∙ (sym m.cur_fedora ∙ (ap (at_index 5) same_k ∙ n.fedora_same));
      major_same = m.new_major ∙ (sym m.cur_major ∙ (ap (at_index 0) same_v ∙ n.major_same));
    }

-- Behind any chain of automatic merges from texts that parse, the base's version and kernel parse,
-- neither is older than at the start, and the Fedora number and the major number are those of the
-- start.
pub Chain-NotOlder :
    {version kernel w l : String} {a b : Version}
    → base_version version ≡ ok a
    → kernel_version kernel ≡ ok b
    → Chain version kernel w l
    → NotOlder a b w l
Chain-NotOlder {a} {b} e f start = record {
  version = a;
  kernel = b;
  version_ok = e;
  kernel_ok = f;
  version_kept = at_least_refl a;
  kernel_kept = at_least_refl b;
  fedora_same = refl;
  major_same = refl;
}
Chain-NotOlder {a} {b} e f (bump {v} {k} {w} {l} c policy report m) =
    bump-NotOlder a b policy v k w l report (Chain-NotOlder e f c)
      ((automerge_exact policy v k w l report).0 m)
