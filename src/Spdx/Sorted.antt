-- ===== src/Spdx/Sorted.antt =====
-- What an accepted inventory is, and that it does not depend on the order of the lines.
use mathlib.Core.List.{Permᴰ}
use mathlib.Core.List.Permᴰ
use bazzite_tower.Prelude.{
  ℕ, suc, String, ◌≡◌, ◌≢◌, refl, sym, ap, subst, ◌∙◌, ◌↔◌, ◌⊎◌, inl, inr, true, false, ◌&&◌, ◌||◌,
  not, Option, none, some, List, [], ◌∷◌, all, is_empty, if◌then◌else◌, =s=_iff, arith, Bool-cases,
  sorted, sorted_by-Perm, sorted-IsSorted, IsSorted, sorted-eq_of_Perm, split_on, split_lines,
}
use bazzite_tower.Spdx.{
  Row, Inventory, rows, invalid_row, invalid_epoch, empty, duplicate, Library, is_field, same_row,
  holds_row, is_distinct, with_row, read_row, read_rows, checked, parse_inventory, row_order,
}

pub same_row_iff : (a b : Row) → (same_row a b ≡ true) ↔ (a ≡ b)
same_row_iff a b = ground (
  arith,
  =s=_iff a.name b.name,
  =s=_iff a.epoch b.epoch,
  =s=_iff a.version b.version,
  =s=_iff a.release b.release,
  =s=_iff a.arch b.arch,
)

holds_row-eq_of_Perm : (r : Row) {xs ys : List Row} → Permᴰ xs ys → holds_row r xs ≡ holds_row r ys
holds_row-eq_of_Perm r Permᴰ.nil = refl
holds_row-eq_of_Perm r (Permᴰ.cons e p) = λ i. same_row r (e i) || holds_row-eq_of_Perm r p i
holds_row-eq_of_Perm r (Permᴰ.swap {a} {b} {l} e f) = ground arith
holds_row-eq_of_Perm r (Permᴰ.trans p q) = holds_row-eq_of_Perm r p ∙ holds_row-eq_of_Perm r q

same_row_comm : (a b : Row) → same_row a b ≡ same_row b a
same_row_comm a b = ground (arith, same_row_iff a b, same_row_iff b a)

is_distinct-eq_of_Perm : {xs ys : List Row} → Permᴰ xs ys → is_distinct xs ≡ is_distinct ys
is_distinct-eq_of_Perm Permᴰ.nil = refl
is_distinct-eq_of_Perm (Permᴰ.cons {a} {b} {l₁ = xs} {l₂ = ys} e p) =
    (λ i. not (holds_row (e i) xs) && is_distinct-eq_of_Perm p i)
    ∙ ap (λ h. not h && is_distinct ys) (holds_row-eq_of_Perm b p)
is_distinct-eq_of_Perm (Permᴰ.swap {a} {b} {l = l} e f) =
    let swapped : is_distinct (a ∷ b ∷ l) ≡ is_distinct (b ∷ a ∷ l) =
      ground (arith, same_row_comm a b) in
    swapped ∙ (λ i. is_distinct (f i ∷ e i ∷ l))
is_distinct-eq_of_Perm (Permᴰ.trans p q) = is_distinct-eq_of_Perm p ∙ is_distinct-eq_of_Perm q

abbrev pub in_front : Option Row → Option (List Row) → Option (List Row)
in_front none rest = none
in_front (some r) none = none
in_front (some r) (some rs) = some (r ∷ rs)

in_front-some :
    (o : Option Row) (rest : Option (List Row)) (rs : List Row)
    → in_front o rest ≡ some rs
    → (r : Row) × (qs : List Row) × (o ≡ some r) × (rest ≡ some qs) × (rs ≡ r ∷ qs)
in_front-some none rest rs h = cc
in_front-some (some r) none rs h = cc
in_front-some (some r) (some qs) rs h = (r, qs, refl, refl, cc)

module _ ⦃library : Library⦄ where
  -- The row that the fields of a line are, where they are one.
  unfoldable pub row_of : List String → Option Row
  row_of (name ∷ epoch ∷ version ∷ release ∷ arch ∷ []) =
      if all is_field (name ∷ epoch ∷ version ∷ release ∷ arch ∷ []) && library.is_decimal epoch
      then some
          (record { name = name; epoch = epoch; version = version; release = release; arch = arch })
      else none
  row_of _ = none

  read_row-cases :
      (n : ℕ) (texts : List String) (rest : Inventory)
      → ((r : Row) × (row_of texts ≡ some r) × (read_row n texts rest ≡ with_row r rest))
        ⊎ ((row_of texts ≡ none) × ((rs : List Row) → read_row n texts rest ≢ rows rs))
  unfolding row_of
  read_row-cases n [] rest = inr (refl, λ rs q. cc)
  read_row-cases n (a ∷ []) rest = inr (refl, λ rs q. cc)
  read_row-cases n (a ∷ b ∷ []) rest = inr (refl, λ rs q. cc)
  read_row-cases n (a ∷ b ∷ c ∷ []) rest = inr (refl, λ rs q. cc)
  read_row-cases n (a ∷ b ∷ c ∷ d ∷ []) rest = inr (refl, λ rs q. cc)
  read_row-cases n (a ∷ b ∷ c ∷ d ∷ e ∷ f ∷ gs) rest = inr (refl, λ rs q. cc)
  read_row-cases n (a ∷ b ∷ c ∷ d ∷ e ∷ []) rest =
      elim (Bool-cases (all is_field (a ∷ b ∷ c ∷ d ∷ e ∷ []))) [
        | inl x ↦ elim (Bool-cases (library.is_decimal b)) [
          | inl y ↦ inl (
            record { name = a; epoch = b; version = c; release = d; arch = e },
            rw (x, y) refl,
            rw (x, y) refl,
          )
          | inr y ↦ inr (rw (x, y) refl, λ rs q. cc (rw (x, y) at q))
        ]
        | inr x ↦ inr (rw x refl, λ rs q. cc (rw x at q))
      ]

  -- The rows of the lines, where each line has one.
  abbrev pub rows_of : List String → Option (List Row)
  rows_of [] = some []
  rows_of (line ∷ lines) = in_front (row_of (split_on 9 line)) (rows_of lines)

  with_row_rows :
      (r : Row) (rest : Inventory) (rs : List Row)
      → with_row r rest ≡ rows rs
      → (qs : List Row) × (rest ≡ rows qs) × (rs ≡ r ∷ qs)
  with_row_rows r (rows qs) rs h = (qs, refl, cc)
  with_row_rows r (invalid_row n) rs h = cc
  with_row_rows r (invalid_epoch n) rs h = cc
  with_row_rows r empty rs h = cc
  with_row_rows r duplicate rs h = cc

  read_rows_sound :
      (n : ℕ) (lines : List String) (rs : List Row)
      → read_rows n lines ≡ rows rs
      → rows_of lines ≡ some rs
  unfolding read_rows
  read_rows_sound n [] rs h = cc
  read_rows_sound n (line ∷ lines) rs h =
      elim (read_row-cases n (split_on 9 line) (read_rows (suc n) lines)) [
        | inl (r, e, q) ↦
            let (qs, f, g) = with_row_rows r (read_rows (suc n) lines) rs (sym q ∙ h) in
            let rest = read_rows_sound (suc n) lines qs f in
            (λ i. in_front (e i) (rest i)) ∙ ap some (sym g)
        | inr (e, never) ↦ absurd (never rs h)
      ]

  read_rows_complete :
      (n : ℕ) (lines : List String) (rs : List Row)
      → rows_of lines ≡ some rs
      → read_rows n lines ≡ rows rs
  unfolding read_rows
  read_rows_complete n [] rs h = cc
  read_rows_complete n (line ∷ lines) rs h =
      let (r, qs, e, f, g) = in_front-some (row_of (split_on 9 line)) (rows_of lines) rs h in
      let rest = read_rows_complete (suc n) lines qs f in
      elim (read_row-cases n (split_on 9 line) (read_rows (suc n) lines)) [
        | inl (s, d, q) ↦
            let same : s ≡ r = cc in q ∙ (λ i. with_row (same i) (rest i)) ∙ ap rows (sym g)
        | inr (d, never) ↦ cc
      ]

  rows_of-Perm :
      {xs ys : List String}
      → Permᴰ xs ys
      → (rs : List Row) → rows_of xs ≡ some rs
      → (qs : List Row) × (rows_of ys ≡ some qs) × Permᴰ rs qs
  rows_of-Perm Permᴰ.nil rs h = (rs, h, Permᴰ.refl rs)
  rows_of-Perm (Permᴰ.cons {a} {b} {l₁ = xs} {l₂ = ys} e p) rs h =
      let (r, qs, f, g, k) = in_front-some (row_of (split_on 9 a)) (rows_of xs) rs h in
      let (ps, u, v) = rows_of-Perm p qs g in
      (
        r ∷ ps,
        (λ i. in_front (row_of (split_on 9 (sym e i))) (u i)) ∙ ap (λ o. in_front o (some ps)) f,
        subst (λ l. Permᴰ l (r ∷ ps)) (sym k) (Permᴰ.cons refl v),
      )
  rows_of-Perm (Permᴰ.swap {a} {b} {l = l} e f) rs h =
      let (r, qs, u, v, k) = in_front-some (row_of (split_on 9 a)) (rows_of (b ∷ l)) rs h in
      let (s, ps, x, y, m) = in_front-some (row_of (split_on 9 b)) (rows_of l) qs v in
      (
        s ∷ r ∷ ps,
        (λ i.
              in_front (row_of (split_on 9 (sym f i)))
                (in_front (row_of (split_on 9 (sym e i))) (y i)))
            ∙ (λ i. in_front (x i) (in_front (u i) (some ps))),
        subst (λ z. Permᴰ z (s ∷ r ∷ ps)) (sym (k ∙ ap (λ z. r ∷ z) m)) (Permᴰ.swap refl refl),
      )
  rows_of-Perm (Permᴰ.trans p q) rs h =
      let (qs, k, m) = rows_of-Perm p rs h in
      let (ps, u, v) = rows_of-Perm q qs k in (ps, u, Permᴰ.trans m v)

  checked_rows :
      (inventory : Inventory) (rs : List Row)
      → checked inventory ≡ rows rs
      → (q : Row) × (qs : List Row) × (inventory ≡ rows (q ∷ qs))
        × (is_distinct (q ∷ qs) ≡ true)
        × (rs ≡ sorted (q ∷ qs))
  checked_rows (rows []) rs h = cc
  checked_rows (rows (q ∷ qs)) rs h = elim (Bool-cases (is_distinct (q ∷ qs))) [
    | inl e ↦ (q, qs, refl, e, cc (rw e at h))
    | inr e ↦ cc (rw e at h)
  ]
  checked_rows (invalid_row n) rs h = cc
  checked_rows (invalid_epoch n) rs h = cc
  checked_rows empty rs h = cc
  checked_rows duplicate rs h = cc

  -- A list without the row q is no other order of one with it.
  checked_some :
      (q : Row) (qs ps : List Row)
      → Permᴰ (q ∷ qs) ps
      → is_distinct (q ∷ qs) ≡ true
      → checked (rows ps) ≡ rows (sorted (q ∷ qs))
  checked_some q qs [] p h =
      let none_there = holds_row-eq_of_Perm q p in
      let there : same_row q q ≡ true = ground (arith, same_row_iff q q) in ground arith
  checked_some q qs (s ∷ ps) p h =
      let e : is_distinct (s ∷ ps) ≡ true = sym (is_distinct-eq_of_Perm p) ∙ h in
      rw e (ap rows (sym (sorted-eq_of_Perm p)))

  -- An accepted inventory is in ascending order and has no row twice; its rows are those of the lines,
  -- each of which has one, and there is at least one.
  pub parse_inventory-Accepted :
      (text : String) (rs : List Row)
      → parse_inventory text ≡ rows rs
      → IsSorted rs
        × (is_distinct rs ≡ true)
        × ((qs : List Row) × (rows_of (split_lines text) ≡ some qs)
            × Permᴰ qs rs
            × (is_empty qs ≡ false))
  unfolding parse_inventory
  parse_inventory-Accepted text rs h =
      let (q, qs, e, d, g) = checked_rows (read_rows 1 (split_lines text)) rs h in
      let p = sorted_by-Perm row_order.before (q ∷ qs) in
      subst
        (λ l.
          IsSorted l
          × (is_distinct l ≡ true)
          × ((ps : List Row) × (rows_of (split_lines text) ≡ some ps)
              × Permᴰ ps l
              × (is_empty ps ≡ false)))
        (sym g)
        (
          sorted-IsSorted (q ∷ qs),
          sym (is_distinct-eq_of_Perm p) ∙ d,
          (q ∷ qs, read_rows_sound 1 (split_lines text) (q ∷ qs) e, p, refl),
        )

  -- Texts with the same lines in another order have the same inventory, where one of them is accepted.
  pub parse_inventory-any_order :
      (a b : String) (rs : List Row)
      → Permᴰ (split_lines a) (split_lines b)
      → parse_inventory a ≡ rows rs
      → parse_inventory b ≡ rows rs
  unfolding parse_inventory
  parse_inventory-any_order a b rs p h =
      let (q, qs, e, d, g) = checked_rows (read_rows 1 (split_lines a)) rs h in
      let (ps, u, m) = rows_of-Perm p (q ∷ qs) (read_rows_sound 1 (split_lines a) (q ∷ qs) e) in
      let other = read_rows_complete 1 (split_lines b) ps u in
      ap checked other ∙ checked_some q qs ps m d ∙ ap rows (sym g)

  -- What is read of lines that have rows, none of them twice.
  pub parse_inventory-of_rows :
      (text : String) (q : Row) (qs : List Row)
      → rows_of (split_lines text) ≡ some (q ∷ qs)
      → is_distinct (q ∷ qs) ≡ true
      → parse_inventory text ≡ rows (sorted (q ∷ qs))
  unfolding parse_inventory
  parse_inventory-of_rows text q qs h d =
      ap checked (read_rows_complete 1 (split_lines text) (q ∷ qs) h) ∙ rw d refl
