-- ===== src/Diff/Quiet.antt =====
-- When the diff reports nothing, and that the bump guard then accepts it.
use mathlib.Core.List.Permᴰ
use Prim.Native.String.{◌++◌ as ◌<>◌}
use bazzite_tower.Prelude.{
  ℕ, String, ◌≡◌, ◌≢◌, ◌↔◌, refl, sym, ap, subst, ◌∙◌, inl, inr, true, false, ◌&&◌, ◌||◌, Option,
  none, some, List, [], ◌∷◌, ◌++◌, All, is_empty, if◌then◌else◌, ◌=s=◌, =s=_iff, member, arith,
  Bool-cases, find, text_order, sorted_by-Perm, All-Perm, join, cons_append, codes, same_codes,
  rstrip, with_front,
}
use bazzite_tower.Diff.{
  is_blast, Manifest, Changes, no_change, version, note_change, classify, names_of, new_names,
  all_names, changed_lines, added_lines, removed_lines, with_section, sections, report_of,
  some_change, old_or_empty, is_first, with_heading, compare_manifests,
}
use bazzite_tower.Refresh.Bump.{text, blast_reason, report_reason}

-- What a manifest has of a name, where it is not the empty text.
abbrev pub version_in : Manifest → String → Option String
version_in d name = version (find ◌=s=◌ name d)

-- The same of a name that matters; of any other name nothing.
abbrev pub blast_version : Manifest → String → Option String
blast_version d name = if is_blast name then version_in d name else none

abbrev pub Same : Manifest → Manifest → String → Type 0
Same old new name = blast_version old name ≡ blast_version new name

text_same : (s t : String) → (s =s= t) ≡ true → s ≡ t
text_same s t h = ground (arith, =s=_iff s t)

note_change_quiet :
    (name : String) (o n : Option String) (c : Changes)
    → some_change (note_change name o n c) ≡ false
    → (o ≡ n) × (some_change c ≡ false)
note_change_quiet name none none c h = (refl, h)
note_change_quiet name none (some n) c h = ground arith
note_change_quiet name (some o) none c h = ground arith
note_change_quiet name (some o) (some n) c h = elim (Bool-cases (o =s= n)) [
  | inl e ↦ (ap some (text_same o n e), rw e at h)
  | inr e ↦ cc (rw e at h)
]

note_change_same :
    (name : String) (o n : Option String) (c : Changes) → o ≡ n → note_change name o n c ≡ c
note_change_same name none none c h = refl
note_change_same name none (some n) c h = cc
note_change_same name (some o) none c h = cc
note_change_same name (some o) (some n) c h = ground (arith, =s=_iff o n)

classify_quiet :
    (old new : Manifest) (names : List String)
    → some_change (classify old new names) ≡ false
    → All (Same old new) names
unfolding classify
classify_quiet old new [] h = tt
classify_quiet old new (name ∷ names) h = elim (Bool-cases (is_blast name)) [
  | inl e ↦
      let step =
        note_change_quiet name (version_in old name) (version_in new name) (classify old new names)
          (rw e at h) in
      (rw e (step.0), classify_quiet old new names (step.1))
  | inr e ↦ (rw e refl, classify_quiet old new names (rw e at h))
]

classify-Same :
    (old new : Manifest) (names : List String)
    → All (Same old new) names
    → classify old new names ≡ no_change
unfolding classify
classify-Same old new [] h = refl
classify-Same old new (name ∷ names) (same, rest) = elim (Bool-cases (is_blast name)) [
  | inl e ↦ rw e (
      note_change_same name (version_in old name) (version_in new name) (classify old new names)
        (rw e at same)
      ∙ classify-Same old new names rest)
  | inr e ↦ rw e (classify-Same old new names rest)
]

find-none :
    (name : String) (d : Manifest) → member name (names_of d) ≡ false → find ◌=s=◌ name d ≡ none
find-none name [] h = refl
find-none name ((k, v) ∷ d) h =
    let rest = find-none name d in ground (arith, =s=_iff name k, =s=_iff k name)

member-new_names :
    (name : String) (known : List String) (d : Manifest)
    → member name known ≡ false
    → member name (new_names known d) ≡ member name (names_of d)
member-new_names name known [] h = refl
member-new_names name known ((k, v) ∷ d) h =
    let rest = member-new_names name known d h in
    elim (Bool-cases (name =s= k)) [
      | inl e ↦
          let unknown : member k known ≡ false =
            subst (λ x. member x known ≡ false) (text_same name k e) h in
          rw (e, unknown) (rw e refl)
      | inr e ↦ elim (Bool-cases (member k known)) [
        | inl f ↦ rw (e, f) rest
        | inr f ↦ rw (e, f) (rw e rest)
      ]
    ]

member-append :
    (name : String) (xs ys : List String)
    → member name (xs ++ ys) ≡ (member name xs || member name ys)
member-append name [] ys = refl
member-append name (x ∷ xs) ys = ground (arith, member-append name xs ys)

All-member :
    (P : String → Type 0) (name : String) (names : List String)
    → All P names
    → member name names ≡ true
    → P name
All-member P name [] hs h = cc
All-member P name (x ∷ xs) (p, ps) h = elim (Bool-cases (name =s= x)) [
  | inl e ↦ subst P (sym (text_same name x e)) p
  | inr e ↦ All-member P name xs ps (rw e at h)
]

All-every : (P : String → Type 0) → ((name : String) → P name) → (names : List String) → All P names
All-every P f [] = tt
All-every P f (x ∷ xs) = (f x, All-every P f xs)

-- A name that no manifest has counts as well.
Same-everywhere :
    (old new : Manifest)
    → All (Same old new) (all_names old new)
    → (name : String) → Same old new name
Same-everywhere old new hs name =
    let unsorted =
      All-Perm (Same old new)
        (Permᴰ.symm
          (sorted_by-Perm text_order.before (names_of old ++ new_names (names_of old) new)))
        hs in
    let both = member-append name (names_of old) (new_names (names_of old) new) in
    elim (Bool-cases (member name (names_of old))) [
      | inl e ↦
          All-member (Same old new) name (names_of old ++ new_names (names_of old) new) unsorted
            (both ∙ rw e refl)
      | inr e ↦ elim (Bool-cases (member name (names_of new))) [
        | inl f ↦
            All-member (Same old new) name (names_of old ++ new_names (names_of old) new) unsorted
              (both ∙ rw e (member-new_names name (names_of old) new e ∙ f))
        | inr f ↦
            ap (λ o. if is_blast name then version o else none)
              (find-none name old e ∙ sym (find-none name new f))
      ]
    ]

-- A text that begins with an asterisk.
abbrev Starred : String → Type 0
Starred s = (rest : String) × (s ≡ String.◌∷◌ "*" rest)

star-append : (s t : String) → Starred s → Starred (s <> t)
star-append s t (rest, e) = (rest <> t, ap (λ x. x <> t) e ∙ cons_append "*" rest t)

star-join : (s : String) (ss : List String) → Starred s → Starred (join "\n\n" (s ∷ ss))
star-join s [] h = h
star-join s (t ∷ ts) h = star-append s ("\n\n" <> join "\n\n" (t ∷ ts)) h

star_report :
    (title : String) (lines : List String) (others : List String)
    → Starred title
    → is_empty lines ≡ false
    → Starred (report_of (with_section title lines others))
star_report title [] others h k = cc
star_report title (l ∷ ls) others h k =
    star-join (title <> join "\n" (l ∷ ls)) others (star-append title (join "\n" (l ∷ ls)) h)

abbrev lists :
    List (String × String × String) → List (String × String) → List (String × String) → Changes
lists changed added removed = record { changed = changed; added = added; removed = removed }

star_lists :
    (changed : List (String × String × String)) (added removed : List (String × String))
    → some_change (lists changed added removed) ≡ true
    → Starred (report_of (sections (lists changed added removed)))
star_lists ((n, o, x) ∷ cs) added removed h =
    star_report "**Changed**\n" (changed_lines ((n, o, x) ∷ cs))
      (with_section "**Added**\n" (added_lines added)
        (with_section "**Removed**\n" (removed_lines removed) []))
      ("*Changed**\n", refl) refl
star_lists [] ((n, x) ∷ cs) removed h =
    star_report "**Added**\n" (added_lines ((n, x) ∷ cs))
      (with_section "**Removed**\n" (removed_lines removed) []) ("*Added**\n", refl) refl
star_lists [] [] ((n, o) ∷ cs) h =
    star_report "**Removed**\n" (removed_lines ((n, o) ∷ cs)) [] ("*Removed**\n", refl) refl
star_lists [] [] [] h = cc

star_changes : (c : Changes) → some_change c ≡ true → Starred (report_of (sections c))
star_changes c h = star_lists c.changed c.added c.removed h

front_refused : (cs : List ℕ) → report_reason (with_front 42 cs) ≢ none
unfolding report_reason same_codes
front_refused [] h = cc
front_refused (d ∷ ds) h = cc

star_refused : (s : String) → Starred s → blast_reason (text (codes s)) ≢ none
unfolding blast_reason
star_refused s (rest, e) =
    subst (λ t. blast_reason (text (codes t)) ≢ none) (sym e) (front_refused (rstrip (codes rest)))

initial_refused : (cs : List ℕ) → report_reason (with_front 70 cs) ≢ none
unfolding report_reason same_codes
initial_refused [] h = cc
initial_refused (d ∷ ds) h = cc

-- What is printed of a first run.
first_refused : (report : String) → blast_reason (text (codes (with_heading true report))) ≢ none
unfolding blast_reason
first_refused report =
    subst (λ t. blast_reason (text (codes t)) ≢ none)
      (sym (cons_append "F" "irst run — recording baseline.\n" report))
      (initial_refused (rstrip (codes ("irst run — recording baseline.\n" <> report))))

quiet_accepted : blast_reason (text (codes (report_of (sections no_change)))) ≡ none
unfolding blast_reason report_reason same_codes
quiet_accepted = refl

quiet-Same :
    (old new : Manifest)
    → some_change (classify old new (all_names old new)) ≡ false
    → (name : String) → Same old new name
quiet-Same old new h = Same-everywhere old new (classify_quiet old new (all_names old new) h)

Same-quiet :
    (old new : Manifest)
    → ((name : String) → Same old new name)
    → classify old new (all_names old new) ≡ no_change
Same-quiet old new same =
    classify-Same old new (all_names old new) (All-every (Same old new) same (all_names old new))

-- The bump guard goes on with what is printed of two manifests exactly where there is an old one and every
-- name that matters has the same version in both, or none in both; an empty version counts as none.
pub blast_reason-compare_manifests :
    (old : Option Manifest) (new : Manifest)
    → (blast_reason (text (codes (compare_manifests old new).printed)) ≡ none)
      ↔ (is_first old ≡ false) × ((name : String) → Same (old_or_empty old) new name)
unfolding compare_manifests
blast_reason-compare_manifests none new =
    let c = classify [] new (all_names [] new) in
    ((λ accepted. absurd (first_refused (report_of (sections c)) accepted)), λ (first, same). cc)
blast_reason-compare_manifests (some old) new =
    let c = classify old new (all_names old new) in
    (
      (λ accepted. elim (Bool-cases (some_change c)) [
        | inl e ↦ absurd (star_refused (report_of (sections c)) (star_changes c e) accepted)
        | inr e ↦ (refl, quiet-Same old new e)
      ]),
      λ (has_old, same).
          ap (λ d. blast_reason (text (codes (report_of (sections d))))) (Same-quiet old new same)
          ∙ quiet_accepted,
    )

-- Where there is an old manifest, the output says that nothing has changed exactly where every name that
-- matters has the same version in both, or none in both.
pub compare_manifests-has_changes :
    (old new : Manifest)
    → ((compare_manifests (some old) new).has_changes ≡ false)
      ↔ ((name : String) → Same old new name)
unfolding compare_manifests
compare_manifests-has_changes old new = (
  λ h. quiet-Same old new (ground arith),
  λ same. ap (λ d. some_change d && true) (Same-quiet old new same),
)
