-- ===== src/Tokens/Claude/Best.antt =====
-- What is counted of a message: the largest of the numbers that its records have, and nothing of how
-- often or in which order the records stand in the logs.
use mathlib.Core.List.{Permᴰ}
use mathlib.Core.List.Permᴰ
use bazzite_tower.Prelude.{
  subst, obj, any, get_field, sorted_by-Perm, ℕ, suc, max, ◌+◌, String, ◌≡◌, refl, sym, ap, ◌∙◌,
  Json, inl, inr, ◌&&◌, Option, none, some, List, [], ◌∷◌, ◌++◌, arith, Bool-cases, ◌=s=◌, =s=_iff,
  Fields, find, find-put, find-put_other, if◌then◌else◌, sorted_by,
}
use bazzite_tower.Tokens.Values.{
  Sample, Library, Errors, Log, records, is_text_of, list_of, add_errors,
}
use bazzite_tower.Tokens.Claude.{
  Numbers, numbers_of, larger, Entry, Messages, merged, note, note_option, State, result_part,
  result_parts, add_result, entry_of, claude_record, claude_records, is_selected, claude_log,
  ResultKey, same_key, is_included, source_of, message_of, claude_state, initial, claude_logs,
  log_before, is_assistant,
}

-- The largest numbers of the entries of a message, if it has any.
abbrev pub best_with : Numbers → Option Numbers → Option Numbers
best_with n none = some n
best_with n (some m) = some (larger n m)

abbrev pub best_from : String → Option Numbers → List Entry → Option Numbers
best_from mid b [] = b
best_from mid b (e ∷ es) =
    let rest = best_from mid (best_with e.numbers b) es in
    let other = best_from mid b es in if e.mid =s= mid then rest else other

abbrev pub numbers_at : String → Messages → Option Numbers
numbers_at mid messages = elim (find ◌=s=◌ mid messages) [
  | none ↦ none
  | some s ↦ some (numbers_of s.usage)
]

abbrev pub note_all : List Entry → Messages → Messages
note_all [] messages = messages
note_all (e ∷ es) messages = note_all es (note e messages)

numbers_of_found : Option Sample → Option Numbers
numbers_of_found o = elim o [ none ↦ none | some s ↦ some (numbers_of s.usage) ]

abbrev with_entry : Option Entry → List Entry → List Entry
with_entry none es = es
with_entry (some e) es = e ∷ es

merged_numbers :
    (e : Entry) (o : Option Sample)
    → some (numbers_of (merged e o).usage) ≡ best_with e.numbers (numbers_of_found o)
unfolding numbers_of_found
merged_numbers e none = refl
merged_numbers e (some s) = refl

numbers_at-note_same :
    (e : Entry) (messages : Messages)
    → numbers_at e.mid (note e messages) ≡ best_with e.numbers (numbers_at e.mid messages)
unfolding note numbers_of_found
numbers_at-note_same e messages =
    ap numbers_of_found
      (find-put ◌=s=◌ =s=_iff e.mid (merged e (find ◌=s=◌ e.mid messages)) messages)
    ∙ merged_numbers e (find ◌=s=◌ e.mid messages)

numbers_at-note :
    (mid : String) (e : Entry) (messages : Messages)
    → numbers_at mid (note e messages) ≡ (
        if e.mid =s= mid
        then best_with e.numbers (numbers_at mid messages)
        else numbers_at mid messages)
unfolding note numbers_of_found
numbers_at-note mid e messages = elim (Bool-cases (e.mid =s= mid)) [
  | inl h ↦ rw h (
      subst (λ m. numbers_at m (note e messages) ≡ best_with e.numbers (numbers_at m messages))
        ((=s=_iff e.mid mid).0 h) (numbers_at-note_same e messages))
  | inr h ↦ rw h (
      ap numbers_of_found
        (find-put_other ◌=s=◌ =s=_iff e.mid mid (merged e (find ◌=s=◌ e.mid messages)) messages h))
]

numbers_at-note_all :
    (mid : String) (es : List Entry) (messages : Messages)
    → numbers_at mid (note_all es messages) ≡ best_from mid (numbers_at mid messages) es
numbers_at-note_all mid [] messages = refl
numbers_at-note_all mid (e ∷ es) messages = elim (Bool-cases (e.mid =s= mid)) [
  | inl h ↦
      numbers_at-note_all mid es (note e messages) ∙ rw (numbers_at-note mid e messages, h) refl
  | inr h ↦
      numbers_at-note_all mid es (note e messages) ∙ rw (numbers_at-note mid e messages, h) refl
]

larger_comm : (a b : Numbers) → larger a b ≡ larger b a
larger_comm a b =
    let p : max a.input b.input ≡ max b.input a.input = omega arith in
    let q : max a.cache_write b.cache_write ≡ max b.cache_write a.cache_write = omega arith in
    let r : max a.cache_read b.cache_read ≡ max b.cache_read a.cache_read = omega arith in
    let s : max a.output b.output ≡ max b.output a.output = omega arith in
    λ i. record { input = p i; cache_write = q i; cache_read = r i; output = s i }

larger_left_comm : (a b c : Numbers) → larger a (larger b c) ≡ larger b (larger a c)
larger_left_comm a b c =
    let p : max a.input (max b.input c.input) ≡ max b.input (max a.input c.input) = omega arith in
    let q : max a.cache_write (max b.cache_write c.cache_write)
        ≡ max b.cache_write (max a.cache_write c.cache_write) =
      omega arith in
    let r : max a.cache_read (max b.cache_read c.cache_read)
        ≡ max b.cache_read (max a.cache_read c.cache_read) =
      omega arith in
    let s : max a.output (max b.output c.output) ≡ max b.output (max a.output c.output) =
      omega arith in
    λ i. record { input = p i; cache_write = q i; cache_read = r i; output = s i }

best_with_comm :
    (a b : Numbers) (o : Option Numbers) → best_with a (best_with b o) ≡ best_with b (best_with a o)
best_with_comm a b none = ap some (larger_comm a b)
best_with_comm a b (some c) = ap some (larger_left_comm a b c)

best_from-cons :
    (mid : String) (e : Entry) (es fs : List Entry)
    → ((o : Option Numbers) → best_from mid o es ≡ best_from mid o fs)
    → (o : Option Numbers) → best_from mid o (e ∷ es) ≡ best_from mid o (e ∷ fs)
best_from-cons mid e es fs h o = elim (Bool-cases (e.mid =s= mid)) [
  | inl t ↦ rw t (h (best_with e.numbers o))
  | inr t ↦ rw t (h o)
]

best_from_swap :
    (mid : String) (a b : Entry) (l : List Entry) (o : Option Numbers)
    → best_from mid o (a ∷ b ∷ l) ≡ best_from mid o (b ∷ a ∷ l)
best_from_swap mid a b l o = elim (Bool-cases (a.mid =s= mid)) [
  | inl s ↦ elim (Bool-cases (b.mid =s= mid)) [
    | inl t ↦ rw (s, t) (ap (λ q. best_from mid q l) (best_with_comm b.numbers a.numbers o))
    | inr t ↦ rw (s, t) refl
  ]
  | inr s ↦ rw s refl
]

-- The order of the entries does not count.
pub best_from-eq_of_Perm :
    (mid : String) {es fs : List Entry}
    → Permᴰ es fs
    → (o : Option Numbers) → best_from mid o es ≡ best_from mid o fs
best_from-eq_of_Perm mid Permᴰ.nil o = refl
best_from-eq_of_Perm mid (Permᴰ.cons {a} {b} {l₁ = es} {l₂ = fs} e p) o =
    best_from-cons mid a es fs (best_from-eq_of_Perm mid p) o ∙ ap (λ x. best_from mid o (x ∷ fs)) e
best_from-eq_of_Perm mid (Permᴰ.swap {a} {b} {a' = c} {b' = d} {l} e f) o =
    best_from_swap mid a b l o
    ∙ (ap (λ x. best_from mid o (x ∷ a ∷ l)) f ∙ ap (λ x. best_from mid o (c ∷ x ∷ l)) e)
best_from-eq_of_Perm mid (Permᴰ.trans p q) o =
    best_from-eq_of_Perm mid p o ∙ best_from-eq_of_Perm mid q o

module _ {A : Type 0} where
  eq-Perm : {xs ys : List A} → xs ≡ ys → Permᴰ xs ys
  eq-Perm {xs} e = subst (λ zs. Permᴰ xs zs) e (Permᴰ.refl xs)

  append_swap : (xs ys zs : List A) → Permᴰ (xs ++ (ys ++ zs)) (ys ++ (xs ++ zs))
  append_swap [] ys zs = Permᴰ.refl (ys ++ zs)
  append_swap (x ∷ xs) ys zs =
      Permᴰ.trans (Permᴰ.cons refl (append_swap xs ys zs))
        (Permᴰ.symm (Permᴰ.middle x ys (xs ++ zs)))

module _ ⦃library : Library⦄ (since filter : String) where
  -- The entries of the assistant records of a log, and of all logs that the filter takes.
  abbrev pub entries_of : Log → List Fields → List Entry
  entries_of log [] = []
  entries_of log (fs ∷ rs) =
      let rest = entries_of log rs in
      if is_assistant since log fs then with_entry (entry_of since log fs) rest else rest

  abbrev pub entries_in : Log → List Entry
  entries_in log = if is_selected filter log then entries_of log (records log).0 else []

  abbrev pub all_entries : List Log → List Entry
  all_entries [] = []
  all_entries (log ∷ logs) = entries_in log ++ all_entries logs

  add_result-messages :
      (key : ResultKey) (part : Fields) (st : State)
      → (add_result key part st).messages ≡ st.messages
  unfolding add_result
  add_result-messages key part st = elim (Bool-cases (any (same_key key) st.seen)) [
    | inl e ↦ rw e refl
    | inr e ↦ rw e refl
  ]

  result_part-messages :
      (source : String) (index : ℕ) (v : Json) (st : State)
      → (result_part source index v st).messages ≡ st.messages
  result_part-messages source index (obj part) st =
      elim (Bool-cases (is_text_of (get_field "type" part) "tool_result")) [
        | inl e ↦ rw e (add_result-messages _ part st)
        | inr e ↦ rw e refl
      ]
  result_part-messages source index _ st = refl

  result_parts-messages :
      (source : String) (index : ℕ) (vs : List Json) (st : State)
      → (result_parts source index vs st).messages ≡ st.messages
  result_parts-messages source index [] st = refl
  result_parts-messages source index (v ∷ vs) st =
      result_parts-messages source (suc index) vs (result_part source index v st)
      ∙ result_part-messages source index v st

  claude_record-messages :
      (log : Log) (fs : Fields) (st : State)
      → (claude_record since log fs st).messages ≡ (
          if is_assistant since log fs
          then note_option (entry_of since log fs) st.messages
          else st.messages)
  unfolding claude_record
  claude_record-messages log fs st = elim (Bool-cases (is_assistant since log fs)) [
    | inl e ↦ rw e refl
    | inr e ↦
        elim (Bool-cases (is_text_of (get_field "type" fs) "user" && is_included since log fs)) [
          | inl u ↦
              rw (e, u)
                (result_parts-messages (source_of since log fs) 0
                  (list_of (get_field "content" (message_of since log fs))) st)
          | inr u ↦ rw (e, u) refl
        ]
  ]

  note_all-with_entry :
      (o : Option Entry) (es : List Entry) (messages : Messages)
      → note_all (with_entry o es) messages ≡ note_all es (note_option o messages)
  note_all-with_entry none es messages = refl
  note_all-with_entry (some e) es messages = refl

  note_all-append :
      (es fs : List Entry) (messages : Messages)
      → note_all (es ++ fs) messages ≡ note_all fs (note_all es messages)
  note_all-append [] fs messages = refl
  note_all-append (e ∷ es) fs messages = note_all-append es fs (note e messages)

  claude_records-messages :
      (log : Log) (rs : List Fields) (st : State)
      → (claude_records since log rs st).messages ≡ note_all (entries_of log rs) st.messages
  unfolding claude_records
  claude_records-messages log [] st = refl
  claude_records-messages log (fs ∷ rs) st =
      claude_records-messages log rs (claude_record since log fs st)
      ∙ (ap (note_all (entries_of log rs)) (claude_record-messages log fs st)
          ∙ elim (Bool-cases (is_assistant since log fs)) [
            | inl e ↦
                rw e (
                  sym (note_all-with_entry (entry_of since log fs) (entries_of log rs) st.messages))
            | inr e ↦ rw e refl
          ])

  claude_logs-messages :
      (logs : List Log) (st : State) (files : ℕ) (errors : Errors)
      → (claude_logs since filter logs (st, files, errors)).0.messages
        ≡ note_all (all_entries logs) st.messages
  unfolding claude_logs
  claude_logs-messages [] st files errors = refl
  claude_logs-messages (log ∷ logs) st files errors = elim (Bool-cases (is_selected filter log)) [
    | inl e ↦
        rw (e, claude_logs)
          (claude_logs-messages logs (claude_log since filter log st) (files + 1)
              (add_errors errors (records log).1)
            ∙ (ap (note_all (all_entries logs))
                  (claude_records-messages log (records log).0 (record st { names = [] }))
                ∙ sym (
                    note_all-append (entries_of log (records log).0) (all_entries logs)
                      st.messages)))
    | inr e ↦ rw (e, claude_logs) (claude_logs-messages logs st files errors)
  ]

  all_entries-Perm : {ls ms : List Log} → Permᴰ ls ms → Permᴰ (all_entries ls) (all_entries ms)
  all_entries-Perm Permᴰ.nil = Permᴰ.nil
  all_entries-Perm (Permᴰ.cons {b} {l₁ = ls} {l₂ = ms} e p) =
      Permᴰ.trans (eq-Perm (ap (λ x. entries_in x ++ all_entries ls) e))
        (Permᴰ.append_left (entries_in b) (all_entries-Perm p))
  all_entries-Perm (Permᴰ.swap {a} {b} {a' = c} {b' = d} {l} e f) =
      Permᴰ.trans (append_swap (entries_in a) (entries_in b) (all_entries l)) (
        eq-Perm (
          ap (λ x. entries_in x ++ (entries_in a ++ all_entries l)) f
          ∙ ap (λ x. entries_in c ++ (entries_in x ++ all_entries l)) e))
  all_entries-Perm (Permᴰ.trans p q) = Permᴰ.trans (all_entries-Perm p) (all_entries-Perm q)

  -- The numbers that the run has of a message are the largest, each for itself, that the counted
  -- records of the selected logs have of it; none if there is no such record. The run sorts the logs, and
  -- the largest are those of the logs as they are given.
  pub claude-best :
      (logs : List Log) (errors : Errors) (mid : String)
      → numbers_at mid (claude_state since filter logs errors).0.messages
        ≡ best_from mid none (all_entries logs)
  claude-best logs errors mid =
      ap (numbers_at mid) (claude_logs-messages (sorted_by log_before logs) initial 0 errors)
      ∙ (numbers_at-note_all mid (all_entries (sorted_by log_before logs)) []
          ∙ best_from-eq_of_Perm mid
              (all_entries-Perm (Permᴰ.symm (sorted_by-Perm log_before logs))) none)
