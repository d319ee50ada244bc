-- ===== src/Spdx/Printed.antt =====
-- Inventories written out and read again.
use Prim.Native.String.{◌++◌ as ◌<>◌}
use bazzite_tower.Prelude.{
  ℕ, String, ◌≡◌, refl, ap, ◌∙◌, Bool, true, ◌&&◌, some, List, [], ◌∷◌, all, ◌==◌, arith, sorted,
  split_on, split_lines, join, is_break, is_free, is_free-append, split_on-one, split_on-append,
  split_lines-append, nil_append, cons_append, &&-eq-true,
}
use bazzite_tower.Spdx.{
  Row, texts_of, rows, Library, is_field, is_distinct, row_order, parse_inventory,
}
use bazzite_tower.Spdx.Sorted.{row_of, rows_of, in_front, parse_inventory-of_rows}

abbrev pub is_tab : ℕ → Bool
is_tab c = c == 9

-- A field that can stand between tabs on a line.
abbrev pub is_clean : String → Bool
is_clean text = is_field text && (is_free is_tab text && is_free is_break text)

-- A line for each row, its fields between tabs.
abbrev pub printed : List Row → String
printed [] = String.[]
printed (r ∷ rs) = join "\t" (texts_of r) <> String.◌∷◌ "\n" (printed rs)

tab_first : (s : String) → "\t" <> s ≡ String.◌∷◌ "\t" s
tab_first s = cons_append "\t" String.[] s ∙ ap (String.◌∷◌ "\t") (nil_append s)

split_on-join :
    (t : String) (ts : List String)
    → all (is_free is_tab) (t ∷ ts) ≡ true
    → split_on 9 (join "\t" (t ∷ ts)) ≡ t ∷ ts
split_on-join t [] h = split_on-one 9 t (ground arith)
split_on-join t (u ∷ us) h =
    let rest = split_on-join u us (ground arith) in
    ap (λ s. split_on 9 (t <> s)) (tab_first (join "\t" (u ∷ us)))
    ∙ split_on-append 9 t "\t" (join "\t" (u ∷ us)) (ground arith) refl
    ∙ ap (λ l. t ∷ l) rest

is_free-join :
    (ts : List String) → all (is_free is_break) ts ≡ true → is_free is_break (join "\t" ts) ≡ true
is_free-join [] h = refl
is_free-join (t ∷ []) h = ground arith
is_free-join (t ∷ u ∷ us) h =
    let rest = is_free-join (u ∷ us) (ground arith) in
    is_free-append is_break t ("\t" <> join "\t" (u ∷ us)) (ground arith)
      (is_free-append is_break "\t" (join "\t" (u ∷ us)) refl rest)

clean_parts :
    (ts : List String)
    → all is_clean ts ≡ true
    → (all is_field ts ≡ true)
      × (all (is_free is_tab) ts ≡ true)
      × (all (is_free is_break) ts ≡ true)
clean_parts [] h = (refl, refl, refl)
clean_parts (t ∷ ts) h =
    let (now, rest) = &&-eq-true (is_clean t) (all is_clean ts) h in
    let (f, g, k) = clean_parts ts rest in
    let (a, bc) = &&-eq-true (is_field t) (is_free is_tab t && is_free is_break t) now in
    let (b, c) = &&-eq-true (is_free is_tab t) (is_free is_break t) bc in (rw a f, rw b g, rw c k)

module _ ⦃library : Library⦄ where
  -- What can be written on a line so that it is read as the row.
  abbrev pub is_printable : Row → Bool
  is_printable r = all is_clean (texts_of r) && library.is_decimal r.epoch

  row_of-line :
      (r : Row) → is_printable r ≡ true → row_of (split_on 9 (join "\t" (texts_of r))) ≡ some r
  unfolding row_of
  row_of-line r h =
      let (clean, number) = &&-eq-true (all is_clean (texts_of r)) (library.is_decimal r.epoch) h in
      let (fields, tabs, breaks) = clean_parts (texts_of r) clean in
      ap row_of (split_on-join r.name (r.epoch ∷ r.version ∷ r.release ∷ r.arch ∷ []) tabs)
      ∙ rw (fields, number) refl

  rows_of-printed :
      (rs : List Row) → all is_printable rs ≡ true → rows_of (split_lines (printed rs)) ≡ some rs
  unfolding split_lines
  rows_of-printed [] h = refl
  rows_of-printed (r ∷ rs) h =
      let (now, rest) = &&-eq-true (is_printable r) (all is_printable rs) h in
      let (clean, number) =
        &&-eq-true (all is_clean (texts_of r)) (library.is_decimal r.epoch) now in
      let (fields, tabs, breaks) = clean_parts (texts_of r) clean in
      ap rows_of (
        split_lines-append (join "\t" (texts_of r)) "\n" (printed rs)
          (is_free-join (texts_of r) breaks) refl)
      ∙ (λ i. in_front (row_of-line r now i) (rows_of-printed rs rest i))

  -- Rows of clean fields with a decimal epoch, at least one and none twice, are read back from the
  -- lines that they are printed on, in ascending order.
  pub parse_inventory-printed :
      (q : Row) (qs : List Row)
      → all is_printable (q ∷ qs) ≡ true
      → is_distinct (q ∷ qs) ≡ true
      → parse_inventory (printed (q ∷ qs)) ≡ rows (sorted (q ∷ qs))
  parse_inventory-printed q qs h d =
      parse_inventory-of_rows (printed (q ∷ qs)) q qs (rows_of-printed (q ∷ qs) h) d
