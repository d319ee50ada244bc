-- ===== src/Tokens/Summary/Sums.antt =====
-- What the groups of a summary hold.
use mathlib.Core.List.{Permᴰ}
use bazzite_tower.Prelude.{
  ℕ, ◌+◌, String, ◌≡◌, refl, sym, ap, ◌∙◌, inl, inr, Bool, false, Option, none, some, List, [], ◌∷◌,
  arith, Bool-cases, Option-cases, if◌then◌else◌, ◌=s=◌, =s=_iff, find, put, find-put,
  find-put_other, sorted_by, sorted_by-Perm,
}
use bazzite_tower.Tokens.Values.{Usage, no_usage, add_usage, Sample}
use bazzite_tower.Tokens.Summary.{
  Values, Group, Groups, no_groups, usage_or_none, add_to, group_sample, group_samples, key_before,
  rows_of, summarize,
}

usage_eq :
    (a b : Usage)
    → a.input ≡ b.input
    → a.cache_write ≡ b.cache_write
    → a.cache_read ≡ b.cache_read
    → a.output ≡ b.output
    → a.reasoning ≡ b.reasoning
    → a.total ≡ b.total
    → a.turns ≡ b.turns
    → a.large_context_turns ≡ b.large_context_turns
    → a ≡ b
usage_eq a b p q r s t u v w = λ i. record {
  input = p i;
  cache_write = q i;
  cache_read = r i;
  output = s i;
  reasoning = t i;
  total = u i;
  turns = v i;
  large_context_turns = w i;
}

add_assoc : (m n k : ℕ) → m + n + k ≡ m + (n + k)
add_assoc m n k = omega arith

add_usage_assoc : (a b c : Usage) → add_usage (add_usage a b) c ≡ add_usage a (add_usage b c)
add_usage_assoc a b c =
    usage_eq (add_usage (add_usage a b) c) (add_usage a (add_usage b c)) (omega arith) (omega arith)
      (omega arith) (omega arith) (omega arith) (omega arith) (omega arith) (omega arith)

add_usage_comm : (a b : Usage) → add_usage a b ≡ add_usage b a
add_usage_comm a b =
    usage_eq (add_usage a b) (add_usage b a) (omega arith) (omega arith) (omega arith) (omega arith)
      (omega arith) (omega arith) (omega arith) (omega arith)

add_no_usage : (a : Usage) → add_usage a no_usage ≡ a
add_no_usage a =
    usage_eq (add_usage a no_usage) a (omega arith) (omega arith) (omega arith) (omega arith)
      (omega arith) (omega arith) (omega arith) (omega arith)

add_right_comm : (a b c : Usage) → add_usage (add_usage a b) c ≡ add_usage (add_usage a c) b
add_right_comm a b c =
    add_usage_assoc a b c ∙ ap (add_usage a) (add_usage_comm b c) ∙ sym (add_usage_assoc a c b)

abbrev pub sum_group : Group → Usage
sum_group [] = no_usage
sum_group ((key, u) ∷ g) = add_usage u (sum_group g)

sum_group-put :
    (key : String) (v u : Usage) (g : Group)
    → v ≡ add_usage (usage_or_none (find ◌=s=◌ key g)) u
    → sum_group (put ◌=s=◌ key v g) ≡ add_usage (sum_group g) u
sum_group-put key v u [] h = add_no_usage v ∙ h
sum_group-put key v u ((j, w) ∷ g) h = elim (Bool-cases (j =s= key)) [
  | inl e ↦
      let known : v ≡ add_usage w u = rw e at h in
      rw e (ap (λ t. add_usage t (sum_group g)) known ∙ add_right_comm w u (sum_group g))
  | inr e ↦
      let rest = sum_group-put key v u g (rw e at h) in
      rw e (ap (add_usage w) rest ∙ sym (add_usage_assoc w (sum_group g) u))
]

sum_group-add_to :
    (key : String) (u : Usage) (g : Group) → sum_group (add_to key u g) ≡ add_usage (sum_group g) u
unfolding add_to
sum_group-add_to key u g =
    sum_group-put key (add_usage (usage_or_none (find ◌=s=◌ key g)) u) u g refl

abbrev Balanced : Groups → Type 0
Balanced g =
    (sum_group g.by_day ≡ g.total)
    × (sum_group g.by_project ≡ g.total)
    × (sum_group g.by_kind ≡ g.total)
    × (sum_group g.by_model ≡ g.total)

sum_group-step :
    (key : String) (u total : Usage) (g : Group)
    → sum_group g ≡ total
    → sum_group (add_to key u g) ≡ add_usage total u
sum_group-step key u total g h = sum_group-add_to key u g ∙ ap (λ t. add_usage t u) h

group_sample-Balanced : (s : Sample) (g : Groups) → Balanced g → Balanced (group_sample s g)
group_sample-Balanced s g (d, p, k, m) = (
  sum_group-step s.day s.usage g.total g.by_day d,
  sum_group-step s.project s.usage g.total g.by_project p,
  sum_group-step s.kind s.usage g.total g.by_kind k,
  sum_group-step s.model s.usage g.total g.by_model m,
)

group_samples-Balanced :
    (ss : List Sample) (g : Groups) → Balanced g → Balanced (group_samples ss g)
unfolding group_samples
group_samples-Balanced [] g h = h
group_samples-Balanced (s ∷ ss) g h =
    group_samples-Balanced ss (group_sample s g) (group_sample-Balanced s g h)

sum_group-eq_of_Perm : {g h : Group} → Permᴰ g h → sum_group g ≡ sum_group h
sum_group-eq_of_Perm Permᴰ.nil = refl
sum_group-eq_of_Perm (Permᴰ.cons {a} {b} e p) = λ i. add_usage ((e i).1) (sum_group-eq_of_Perm p i)
sum_group-eq_of_Perm (Permᴰ.swap {a} {b} {a'} {b'} {l} e f) =
    sym (add_usage_assoc (a.1) (b.1) (sum_group l))
    ∙ ap (λ u. add_usage u (sum_group l)) (add_usage_comm (a.1) (b.1))
    ∙ add_usage_assoc (b.1) (a.1) (sum_group l)
    ∙ (λ i. add_usage ((f i).1) (add_usage ((e i).1) (sum_group l)))
sum_group-eq_of_Perm (Permᴰ.trans p q) = sum_group-eq_of_Perm p ∙ sum_group-eq_of_Perm q

abbrev pub sum_rows : List (String × Values) → Usage
sum_rows [] = no_usage
sum_rows ((key, v) ∷ rows) = add_usage v.usage (sum_rows rows)

sum_rows-rows_of : (weighted : Bool) (g : Group) → sum_rows (rows_of weighted g) ≡ sum_group g
sum_rows-rows_of weighted [] = refl
sum_rows-rows_of weighted ((key, u) ∷ g) = ap (add_usage u) (sum_rows-rows_of weighted g)

rows_sum :
    (weighted : Bool) (g : Group)
    → sum_rows (rows_of weighted (sorted_by key_before g)) ≡ sum_group g
rows_sum weighted g =
    sum_rows-rows_of weighted (sorted_by key_before g)
    ∙ sym (sum_group-eq_of_Perm (sorted_by-Perm key_before g))

-- The rows of every dimension of a summary add up to its total.
pub summarize-rows_total :
    (weighted : Bool) (samples : List Sample)
    → (sum_rows (summarize weighted samples).by_day ≡ (summarize weighted samples).total.usage)
      × (sum_rows (summarize weighted samples).by_project
          ≡ (summarize weighted samples).total.usage)
      × (sum_rows (summarize weighted samples).by_kind ≡ (summarize weighted samples).total.usage)
      × (sum_rows (summarize weighted samples).by_model ≡ (summarize weighted samples).total.usage)
unfolding summarize
summarize-rows_total weighted samples =
    let g = group_samples samples no_groups in
    let (d, p, k, m) = group_samples-Balanced samples no_groups (refl, refl, refl, refl) in
    (
      rows_sum weighted g.by_day ∙ d,
      rows_sum weighted g.by_project ∙ p,
      rows_sum weighted g.by_kind ∙ k,
      rows_sum weighted g.by_model ∙ m,
    )

-- The usage of the samples with a key, where there are any.
abbrev pub usage_of_key : (Sample → String) → String → List Sample → Option Usage
usage_of_key dimension key [] = none
usage_of_key dimension key (s ∷ ss) =
    let rest = usage_of_key dimension key ss in
    if dimension s =s= key then some (add_usage s.usage (usage_or_none rest)) else rest

abbrev group_by : (Sample → String) → List Sample → Group → Group
group_by dimension [] g = g
group_by dimension (s ∷ ss) g = group_by dimension ss (add_to (dimension s) s.usage g)

group_samples_apart :
    (ss : List Sample) (g : Groups)
    → ((group_samples ss g).by_day ≡ group_by (λ s. s.day) ss g.by_day)
      × ((group_samples ss g).by_project ≡ group_by (λ s. s.project) ss g.by_project)
      × ((group_samples ss g).by_kind ≡ group_by (λ s. s.kind) ss g.by_kind)
      × ((group_samples ss g).by_model ≡ group_by (λ s. s.model) ss g.by_model)
unfolding group_samples
group_samples_apart [] g = (refl, refl, refl, refl)
group_samples_apart (s ∷ ss) g = group_samples_apart ss (group_sample s g)

abbrev joined : Option Usage → Option Usage → Option Usage
joined none u = u
joined (some v) u = some (add_usage v (usage_or_none u))

find-add_to :
    (key : String) (u : Usage) (g : Group)
    → find ◌=s=◌ key (add_to key u g) ≡ some (add_usage (usage_or_none (find ◌=s=◌ key g)) u)
unfolding add_to
find-add_to key u g = find-put ◌=s=◌ =s=_iff key (add_usage (usage_or_none (find ◌=s=◌ key g)) u) g

find-add_to_other :
    (key other : String) (u : Usage) (g : Group)
    → (other =s= key) ≡ false
    → find ◌=s=◌ key (add_to other u g) ≡ find ◌=s=◌ key g
unfolding add_to
find-add_to_other key other u g h =
    find-put_other ◌=s=◌ =s=_iff other key (add_usage (usage_or_none (find ◌=s=◌ other g)) u) g h

joined_step :
    (o : Option Usage) (u : Usage) (rest : Option Usage)
    → joined (some (add_usage (usage_or_none o) u)) rest
      ≡ joined o (some (add_usage u (usage_or_none rest)))
joined_step none u rest =
    ap (λ v. some (add_usage v (usage_or_none rest))) (add_usage_comm no_usage u ∙ add_no_usage u)
joined_step (some v) u rest = ap some (add_usage_assoc v u (usage_or_none rest))

group_by-find :
    (dimension : Sample → String) (key : String) (ss : List Sample) (g : Group)
    → find ◌=s=◌ key (group_by dimension ss g)
      ≡ joined (find ◌=s=◌ key g) (usage_of_key dimension key ss)
group_by-find dimension key [] g = elim (Option-cases (find ◌=s=◌ key g)) [
  | inl e ↦ rw e refl
  | inr (u, e) ↦ rw e (ap some (sym (add_no_usage u)))
]
group_by-find dimension key (s ∷ ss) g =
    let rest = group_by-find dimension key ss (add_to (dimension s) s.usage g) in
    elim (Bool-cases (dimension s =s= key)) [
      | inl e ↦
          let same : dimension s ≡ key = ground (arith, =s=_iff (dimension s) key) in
          let found =
            ap (λ k. find ◌=s=◌ key (add_to k s.usage g)) same ∙ find-add_to key s.usage g in
          rw e (
            rest
            ∙ ap (λ o. joined o (usage_of_key dimension key ss)) found
            ∙ joined_step (find ◌=s=◌ key g) s.usage (usage_of_key dimension key ss))
      | inr e ↦ rw e (
          rest
          ∙ ap (λ o. joined o (usage_of_key dimension key ss))
              (find-add_to_other key (dimension s) s.usage g e))
    ]

-- After all samples, the group of a dimension holds for a key what the samples with the key add up to,
-- and no key that no sample has.
pub group_samples-find :
    (samples : List Sample) (key : String)
    → (find ◌=s=◌ key (group_samples samples no_groups).by_day
        ≡ usage_of_key (λ s. s.day) key samples)
      × (find ◌=s=◌ key (group_samples samples no_groups).by_project
          ≡ usage_of_key (λ s. s.project) key samples)
      × (find ◌=s=◌ key (group_samples samples no_groups).by_kind
          ≡ usage_of_key (λ s. s.kind) key samples)
      × (find ◌=s=◌ key (group_samples samples no_groups).by_model
          ≡ usage_of_key (λ s. s.model) key samples)
group_samples-find samples key =
    let (d, p, k, m) = group_samples_apart samples no_groups in
    (
      ap (find ◌=s=◌ key) d ∙ group_by-find (λ s. s.day) key samples [],
      ap (find ◌=s=◌ key) p ∙ group_by-find (λ s. s.project) key samples [],
      ap (find ◌=s=◌ key) k ∙ group_by-find (λ s. s.kind) key samples [],
      ap (find ◌=s=◌ key) m ∙ group_by-find (λ s. s.model) key samples [],
    )
