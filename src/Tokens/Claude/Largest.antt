-- ===== src/Tokens/Claude/Largest.antt =====
-- The numbers of a message are the largest of its records, against a description that names no order.
use bazzite_tower.Prelude.{
  ℕ, String, ◌≡◌, ◌≤◌, refl, sym, subst, ◌∙◌, inl, inr, ◌⊎◌, max, arith, Bool-cases, false, Option,
  none, some, List, [], ◌∷◌, All, ◌=s=◌, =s=_iff, if◌then◌else◌,
}
use bazzite_tower.Tokens.Values.{Library, Errors, Log}
use bazzite_tower.Tokens.Claude.{Numbers, larger, Entry, claude_state}
use bazzite_tower.Tokens.Claude.Best.{best_from, numbers_at, all_entries, claude-best}

-- An entry of the message has the number.
abbrev pub Reaches : String → (Numbers → ℕ) → ℕ → List Entry → Type 0
Reaches mid f n [] = ⊥
Reaches mid f n (e ∷ es) = ((e.mid ≡ mid) × (f e.numbers ≡ n)) ⊎ Reaches mid f n es

-- The largest number of the entries of the message: no entry has a larger one, and one has it.
pub record IsPeak (mid : String) (f : Numbers → ℕ) (es : List Entry) (n : ℕ) : Type 0 where
  pub bound : All (λ e. e.mid ≡ mid → f e.numbers ≤ n) es
  pub reached : Reaches mid f n es

-- Each of the four numbers is the largest of its kind; without numbers there is no entry of the message.
abbrev pub Largest : String → List Entry → Option Numbers → Type 0
Largest mid es none = All (λ e. ¬ (e.mid ≡ mid)) es
Largest mid es (some n) =
    IsPeak mid (λ m. m.input) es n.input
    × IsPeak mid (λ m. m.cache_write) es n.cache_write
    × IsPeak mid (λ m. m.cache_read) es n.cache_read
    × IsPeak mid (λ m. m.output) es n.output

-- The largest numbers of a start and of the entries.
grown : String → Numbers → List Entry → Numbers
grown mid m [] = m
grown mid m (e ∷ es) =
    let more = grown mid (larger e.numbers m) es in
    let same = grown mid m es in if e.mid =s= mid then more else same

best_from-grown :
    (mid : String) (m : Numbers) (es : List Entry)
    → best_from mid (some m) es ≡ some (grown mid m es)
unfolding grown
best_from-grown mid m [] = refl
best_from-grown mid m (e ∷ es) = elim (Bool-cases (e.mid =s= mid)) [
  | inl t ↦ rw t (best_from-grown mid (larger e.numbers m) es)
  | inr t ↦ rw t (best_from-grown mid m es)
]

different : (s t : String) → (s =s= t) ≡ false → ¬ (s ≡ t)
different s t h e = let same = (=s=_iff s t).1 e in cc

-- What the growth by the entries does to one of the numbers.
pub record Grows (mid : String) (f : Numbers → ℕ) (m : Numbers) (es : List Entry) (n : ℕ)
    : Type 0 where
  pub at_least : f m ≤ n
  pub bound : All (λ e. e.mid ≡ mid → f e.numbers ≤ n) es
  pub reached : (f m ≡ n) ⊎ Reaches mid f n es

module _ (mid : String) (f : Numbers → ℕ)
    (g : (a b : Numbers) → f (larger a b) ≡ max (f a) (f b)) where
  max_reached : (a b n : ℕ) → max a b ≡ n → ((b ≡ n) ⊎ (a ≡ n))
  max_reached a b n h = ground arith

  grown-Grows : (m : Numbers) (es : List Entry) → Grows mid f m es (f (grown mid m es))
  unfolding grown
  grown-Grows m [] = record { at_least = omega arith; bound = tt; reached = inl refl }
  grown-Grows m (e ∷ es) = elim (Bool-cases (e.mid =s= mid)) [
    | inl t ↦
        let r = grown-Grows (larger e.numbers m) es in
        let n = f (grown mid (larger e.numbers m) es) in
        let low : max (f e.numbers) (f m) ≤ n = subst (λ k. k ≤ n) (g e.numbers m) r.at_least in
        rw t (record {
          at_least = omega arith;
          bound = (λ named. omega arith, r.bound);
          reached = elim r.reached [
            | inr later ↦ inr (inr later)
            | inl start ↦ elim (max_reached (f e.numbers) (f m) n (sym (g e.numbers m) ∙ start)) [
              | inl kept ↦ inl kept
              | inr here ↦ inr (inl ((=s=_iff e.mid mid).0 t, here))
            ]
          ];
        })
    | inr t ↦
        let r = grown-Grows m es in
        rw t (record {
          at_least = r.at_least;
          bound = (λ named. absurd (different e.mid mid t named), r.bound);
          reached = elim r.reached [ inl start ↦ inl start | inr later ↦ inr (inr later) ];
        })
  ]

  -- The growth from the first entry of the message.
  first-IsPeak :
      (e : Entry) (es : List Entry)
      → e.mid ≡ mid
      → IsPeak mid f (e ∷ es) (f (grown mid e.numbers es))
  first-IsPeak e es named =
      let r = grown-Grows e.numbers es in
      record {
        bound = (λ same. r.at_least, r.bound);
        reached = elim r.reached [ inl start ↦ inl (named, start) | inr later ↦ inr later ];
      }

  later-IsPeak :
      (e : Entry) (es : List Entry) (n : ℕ)
      → ¬ (e.mid ≡ mid)
      → IsPeak mid f es n
      → IsPeak mid f (e ∷ es) n
  later-IsPeak e es n other p = record {
    bound = (λ same. absurd (other same), p.bound);
    reached = inr p.reached;
  }

later_Largest :
    (mid : String) (e : Entry) (es : List Entry) (o : Option Numbers)
    → ¬ (e.mid ≡ mid)
    → Largest mid es o
    → Largest mid (e ∷ es) o
later_Largest mid e es none other h = (other, h)
later_Largest mid e es (some n) other (p, q, r, s) = (
  later-IsPeak mid (λ m. m.input) (λ a b. refl) e es n.input other p,
  later-IsPeak mid (λ m. m.cache_write) (λ a b. refl) e es n.cache_write other q,
  later-IsPeak mid (λ m. m.cache_read) (λ a b. refl) e es n.cache_read other r,
  later-IsPeak mid (λ m. m.output) (λ a b. refl) e es n.output other s,
)

best_from-Largest : (mid : String) (es : List Entry) → Largest mid es (best_from mid none es)
best_from-Largest mid [] = tt
best_from-Largest mid (e ∷ es) = elim (Bool-cases (e.mid =s= mid)) [
  | inl t ↦
      let named = (=s=_iff e.mid mid).0 t in
      rw t (
        subst (λ o. Largest mid (e ∷ es) o) (sym (best_from-grown mid e.numbers es))
          (
            first-IsPeak mid (λ m. m.input) (λ a b. refl) e es named,
            first-IsPeak mid (λ m. m.cache_write) (λ a b. refl) e es named,
            first-IsPeak mid (λ m. m.cache_read) (λ a b. refl) e es named,
            first-IsPeak mid (λ m. m.output) (λ a b. refl) e es named,
          ))
  | inr t ↦ rw t (
      later_Largest mid e es (best_from mid none es) (different e.mid mid t)
        (best_from-Largest mid es))
]

-- Of a message the run has the four numbers that are each the largest among the counted records that the
-- selected logs have of it: no such record has a larger one, and one of them has it. It has none if
-- there is no such record.
pub claude-Largest :
    ⦃library : Library⦄
    → (since filter : String) (logs : List Log) (errors : Errors) (mid : String)
    → Largest mid
        (all_entries since filter logs)
        (numbers_at mid (claude_state since filter logs errors).0.messages)
claude-Largest since filter logs errors mid =
    subst (λ o. Largest mid (all_entries since filter logs) o)
      (sym (claude-best since filter logs errors mid))
      (best_from-Largest mid (all_entries since filter logs))
