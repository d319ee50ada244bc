-- ===== src/Refresh/Bump/Exact.antt =====
-- When a base bump merges without review, exactly.
use bazzite_tower.Prelude.{
  strip, ℕ, String, ◌≡◌, refl, sym, ap, ◌∙◌, ◌↔◌, inl, inr, Bool, true, false, ◌||◌, not, Option,
  none, some, List, arith, ◌==◌, ==_iff, Bool-cases, is_empty, same_codes, same_codes_eq, Json,
  Fields, item, Result, ok, err, >>=-eq-ok, if◌then◌else◌,
}
use bazzite_tower.Refresh.Version.{Version, base_version, kernel_version, at_least}
use bazzite_tower.Refresh.Policy.{base_version_of, kernel_version_of}
use bazzite_tower.Refresh.Bump.{
  Report, no_path, unreadable, text, no_changes, Reason, accepted, report_reason, blast_reason,
  at_index, judge_blast, judge_policy, judge, decide, merges, automerge,
}

-- What the reviewed floors and the report ask of the new base.
pub record MeetsPolicy (new_v new_k : Version) (p : Fields) (report : Report) : Type 0 where
  pub base : Json
  pub base_floor : Version
  pub kernel : Json
  pub kernel_floor : Version
  pub text_of_report : List ℕ
  pub base_item : item "minimumBaseVersion" p ≡ ok base
  pub base_ok : base_version_of base ≡ ok base_floor
  pub base_met : at_least new_v base_floor ≡ true
  pub kernel_item : item "minimumKernel" p ≡ ok kernel
  pub kernel_ok : kernel_version_of kernel ≡ ok kernel_floor
  pub kernel_met : at_least new_k kernel_floor ≡ true
  pub report_read : report ≡ text text_of_report
  pub report_empty : strip text_of_report ≡ no_changes

pub record Mergeable (policy : Result Fields)
    (cur_version cur_kernel new_version new_kernel : String) (report : Report) : Type 0 where
  pub cur_v : Version
  pub new_v : Version
  pub cur_k : Version
  pub new_k : Version
  pub fedora : ℕ
  pub major : ℕ
  pub p : Fields
  pub cur_version_ok : base_version cur_version ≡ ok cur_v
  pub new_version_ok : base_version new_version ≡ ok new_v
  pub cur_kernel_ok : kernel_version cur_kernel ≡ ok cur_k
  pub new_kernel_ok : kernel_version new_kernel ≡ ok new_k
  pub cur_fedora : at_index 5 cur_k ≡ ok fedora
  pub new_fedora : at_index 5 new_k ≡ ok fedora
  pub cur_major : at_index 0 cur_v ≡ ok major
  pub new_major : at_index 0 new_v ≡ ok major
  pub kernel_kept : at_least new_k cur_k ≡ true
  pub version_kept : at_least new_v cur_v ≡ true
  pub policy_ok : policy ≡ ok p
  pub meets : MeetsPolicy new_v new_k p report

report_reason-none : (cs : List ℕ) → report_reason cs ≡ none → cs ≡ no_changes
unfolding report_reason
report_reason-none cs h = elim (Bool-cases (is_empty cs)) [
  | inl e ↦ cc (rw e at h)
  | inr e ↦ elim (Bool-cases (same_codes cs no_changes)) [
    | inl s ↦ same_codes_eq cs no_changes s
    | inr s ↦ cc (rw (e, s) at h)
  ]
]

blast_reason-none :
    (report : Report)
    → blast_reason report ≡ none
    → (cs : List ℕ) × (report ≡ text cs) × (strip cs ≡ no_changes)
unfolding blast_reason
blast_reason-none no_path h = cc
blast_reason-none unreadable h = cc
blast_reason-none (text cs) h = (cs, refl, report_reason-none (strip cs) h)

merges_ok : (x : Result (Bool × Reason)) → merges x ≡ true → (r : Reason) × (x ≡ ok (true, r))
merges_ok (ok (true, r)) h = (r, refl)
merges_ok (ok (false, r)) h = cc
merges_ok (err e) h = cc

judge_blast_ok : (o : Option Reason) (r : Reason) → judge_blast o ≡ ok (true, r) → o ≡ none
judge_blast_ok none r h = refl
judge_blast_ok (some s) r h = cc

-- A test that leads on when it holds, and one that leads on when it fails.
passed :
    (b : Bool) (s r : Reason) (x : Result (Bool × Reason))
    → (if b then x else ok (false, s)) ≡ ok (true, r)
    → (b ≡ true) × (x ≡ ok (true, r))
passed true s r x h = (refl, h)
passed false s r x h = cc

not_stopped :
    (b : Bool) (s r : Reason) (x : Result (Bool × Reason))
    → (if b then ok (false, s) else x) ≡ ok (true, r)
    → (b ≡ false) × (x ≡ ok (true, r))
not_stopped true s r x h = cc
not_stopped false s r x h = (refl, h)

judge_policy_ok :
    (new_v new_k : Version) (p : Fields) (report : Report) (r : Reason)
    → judge_policy new_v new_k p report ≡ ok (true, r)
    → MeetsPolicy new_v new_k p report
unfolding judge_policy
judge_policy_ok new_v new_k p report r h =
    let (base, e1, h1) = >>=-eq-ok (item "minimumBaseVersion" p) _ h in
    let (base_floor, e2, h2) = >>=-eq-ok (base_version_of base) _ h1 in
    let (e3, h3) = passed (at_least new_v base_floor) _ r _ h2 in
    let (kernel, e4, h4) = >>=-eq-ok (item "minimumKernel" p) _ h3 in
    let (kernel_floor, e5, h5) = >>=-eq-ok (kernel_version_of kernel) _ h4 in
    let (e6, h6) = passed (at_least new_k kernel_floor) _ r _ h5 in
    let (cs, e7, e8) = blast_reason-none report (judge_blast_ok (blast_reason report) r h6) in
    record {
      base = base;
      base_floor = base_floor;
      kernel = kernel;
      kernel_floor = kernel_floor;
      text_of_report = cs;
      base_item = e1;
      base_ok = e2;
      base_met = e3;
      kernel_item = e4;
      kernel_ok = e5;
      kernel_met = e6;
      report_read = e7;
      report_empty = e8;
    }

same_parts : (a b c d : ℕ) → (not (a == b) || not (c == d)) ≡ false → (a ≡ b) × (c ≡ d)
same_parts a b c d h = ground arith

of_not : (b : Bool) → not b ≡ false → b ≡ true
of_not true h = refl
of_not false h = cc

decide_ok :
    (policy : Result Fields) (cv ck nv nk : String) (report : Report) (r : Reason)
    → decide policy cv ck nv nk report ≡ ok (true, r)
    → Mergeable policy cv ck nv nk report
unfolding decide judge
decide_ok policy cv ck nv nk report r h =
    let (cur_v, e1, h1) = >>=-eq-ok (base_version cv) _ h in
    let (new_v, e2, h2) = >>=-eq-ok (base_version nv) _ h1 in
    let (cur_k, e3, h3) = >>=-eq-ok (kernel_version ck) _ h2 in
    let (new_k, e4, h4) = >>=-eq-ok (kernel_version nk) _ h3 in
    let (a, e5, h5) = >>=-eq-ok (at_index 5 cur_k) _ h4 in
    let (b, e6, h6) = >>=-eq-ok (at_index 5 new_k) _ h5 in
    let (c, e7, h7) = >>=-eq-ok (at_index 0 cur_v) _ h6 in
    let (d, e8, h8) = >>=-eq-ok (at_index 0 new_v) _ h7 in
    let (same, h9) = not_stopped (not (a == b) || not (c == d)) _ r _ h8 in
    let (kernel, h10) = not_stopped (not (at_least new_k cur_k)) _ r _ h9 in
    let (version, h11) = not_stopped (not (at_least new_v cur_v)) _ r _ h10 in
    let (p, e9, h12) = >>=-eq-ok policy _ h11 in
    let (ab, cd) = same_parts a b c d same in
    record {
      cur_v = cur_v;
      new_v = new_v;
      cur_k = cur_k;
      new_k = new_k;
      fedora = a;
      major = c;
      p = p;
      cur_version_ok = e1;
      new_version_ok = e2;
      cur_kernel_ok = e3;
      new_kernel_ok = e4;
      cur_fedora = e5;
      new_fedora = e6 ∙ ap ok (sym ab);
      cur_major = e7;
      new_major = e8 ∙ ap ok (sym cd);
      kernel_kept = of_not _ kernel;
      version_kept = of_not _ version;
      policy_ok = e9;
      meets = judge_policy_ok new_v new_k p report r h12;
    }

judge_policy_of :
    (new_v new_k : Version) (p : Fields) (report : Report)
    → MeetsPolicy new_v new_k p report
    → judge_policy new_v new_k p report ≡ ok (true, accepted)
unfolding judge_policy blast_reason report_reason same_codes
judge_policy_of new_v new_k p report m =
    rw
      (
        m.base_item, m.base_ok, m.base_met, m.kernel_item, m.kernel_ok, m.kernel_met, m.report_read,
        m.report_empty,
      )
      refl

decide_of :
    (policy : Result Fields) (cv ck nv nk : String) (report : Report)
    → Mergeable policy cv ck nv nk report
    → decide policy cv ck nv nk report ≡ ok (true, accepted)
unfolding decide judge
decide_of policy cv ck nv nk report m =
    rw
      (
        m.cur_version_ok,
        m.new_version_ok,
        m.cur_kernel_ok,
        m.new_kernel_ok,
        m.cur_fedora,
        m.new_fedora,
        m.cur_major,
        m.new_major,
        (==_iff m.fedora m.fedora).1 refl,
        (==_iff m.major m.major).1 refl,
        m.kernel_kept,
        m.version_kept,
        m.policy_ok,
      )
      (judge_policy_of m.new_v m.new_k m.p report m.meets)

-- The guard answers `automerge=true` exactly if the four version texts parse, the Fedora numbers
-- and the major numbers are the same, neither the kernel nor the base is older, the policy is
-- accepted and its two floors are met, and the report was read and, stripped, is the line that says
-- that no watched package changed.
pub automerge_exact :
    (policy : Result Fields) (cur_version cur_kernel new_version new_kernel : String)
    (report : Report)
    → (automerge policy cur_version cur_kernel new_version new_kernel report ≡ true)
      ↔ Mergeable policy cur_version cur_kernel new_version new_kernel report
unfolding automerge
automerge_exact policy cv ck nv nk report = (
  λ h.
      let (r, e) = merges_ok (decide policy cv ck nv nk report) h in
      decide_ok policy cv ck nv nk report r e,
  λ m. ap merges (decide_of policy cv ck nv nk report m),
)
