-- ===== src/Publication/Outputs.antt =====
-- ci/r13-publication.py, `output`: the values that a step hands on, a line for each.
use Prim.Native.String.{◌++◌ as ◌<>◌}
use bazzite_tower.Prelude.{
  ℕ, String, ◌≡◌, refl, ap, Bool, true, false, ◌&&◌, ◌||◌, List, [], ◌∷◌, All, leb, ◌==◌, arith,
  codes, is_digit, all, is_free, is_free-append, Json, str, Fields, end, field, Result, ok, require,
  require-eq-ok, ok_injective, ◌>>=◌, ◌>>◌, >>=-eq-ok, subst,
}
use bazzite_tower.Publication.{World}

abbrev pub is_lower : ℕ → Bool
is_lower c = (leb 97 c && leb c 122) || (c == 95)

abbrev pub is_name_rest : String → Bool
is_name_rest s = all (λ c. is_lower c || is_digit c) (codes s)

-- `[a-z_][a-z0-9_]*`
abbrev pub is_output_name : String → Bool
is_output_name String.[] = false
is_output_name (String.◌∷◌ c s) = all is_lower (codes (String.◌∷◌ c String.[])) && is_name_rest s

-- A line feed or a carriage return
abbrev pub ends_line : ℕ → Bool
ends_line c = (c == 10) || (c == 13)

module _ ⦃world : World⦄ where
  abbrev pub output_text : Json → String
  output_text (str s) = s
  output_text v = world.dumps v

  -- The lines, each without the line feed behind it.
  unfoldable pub output : Fields → Result (List String)
  output end = ok []
  output (field key value fs) = do
    require (is_output_name key) "invalid output name"
    require (is_free ends_line (output_text value)) "output injection"
    lines ← output fs
    ok ((key <> ("=" <> output_text value)) ∷ lines)

  lower_free : (s : String) → is_name_rest s ≡ true → is_free ends_line s ≡ true
  lower_free String.[] h = refl
  lower_free (String.◌∷◌ c s) h = ground (arith, lower_free s)

  name_free : (key : String) → is_output_name key ≡ true → is_free ends_line key ≡ true
  name_free String.[] h = cc
  name_free (String.◌∷◌ c s) h = ground (arith, lower_free s)

  abbrev pub lines_of : Fields → List String
  lines_of end = []
  lines_of (field key value fs) = (key <> ("=" <> output_text value)) ∷ lines_of fs

  -- What is written is a line for each value, under its name, and no line holds another one: there is no
  -- line feed and no carriage return in any of them.
  pub output-lines_of :
      (fs : Fields) (lines : List String)
      → output fs ≡ ok lines
      → (lines ≡ lines_of fs) × All (λ line. is_free ends_line line ≡ true) lines
  unfolding output
  output-lines_of end lines h =
      subst (λ l. (l ≡ []) × All (λ line. is_free ends_line line ≡ true) l) (ok_injective h)
        (refl, tt)
  output-lines_of (field key value fs) lines h =
      let (e1, h1) = require-eq-ok (is_output_name key) _ _ h in
      let (e2, h2) = require-eq-ok (is_free ends_line (output_text value)) _ _ h1 in
      let (rest, e3, h3) =
        >>=-eq-ok (output fs) (λ ls. ok ((key <> ("=" <> output_text value)) ∷ ls)) h2 in
      let (same, free) = output-lines_of fs rest e3 in
      let line =
        is_free-append ends_line key ("=" <> output_text value) (name_free key e1)
          (is_free-append ends_line "=" (output_text value) refl e2) in
      subst
        (λ l. (l ≡ lines_of (field key value fs)) × All (λ line. is_free ends_line line ≡ true) l)
        (ok_injective h3) (ap (λ l. (key <> ("=" <> output_text value)) ∷ l) same, (line, free))
