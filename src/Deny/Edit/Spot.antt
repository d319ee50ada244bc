-- ===== src/Deny/Edit/Spot.antt =====
-- Where `set_action` edits: the bytes of one value, and no others.
use bazzite_tower.Prelude.{
  ℕ, zero, suc, ◌≡◌, refl, sym, ap, ◌∙◌, inl, inr, ◌⊎◌, Option, none, some, Option-cases, List, [],
  ◌∷◌, ◌++◌, All, true, arith, codes, strip_prefix, strip_prefix_parts, Bool-cases, ok, length,
}
use bazzite_tower.Deny.System.{Host}
use bazzite_tower.Deny.Edit.{
  Action, name_of, key, quote, is_space, span_space, Match, match_value, or_else, match_action,
  count_action, substitute, set_action,
}
use bazzite_tower.Deny.Edit.Outcome.{set_action-Accepted}

assoc : (xs ys zs : List ℕ) → xs ++ (ys ++ zs) ≡ (xs ++ ys) ++ zs
assoc [] ys zs = refl
assoc (x ∷ xs) ys zs = ap (λ l. x ∷ l) (assoc xs ys zs)

span_space_parts : (cs : List ℕ) → cs ≡ (span_space cs).0 ++ (span_space cs).1
unfolding span_space
span_space_parts [] = refl
span_space_parts (c ∷ cs) = elim (Bool-cases (is_space c)) [
  | inl e ↦ rw e (ap (λ l. c ∷ l) (span_space_parts cs))
  | inr e ↦ rw e refl
]

-- What a text is that a match stands in front of.
abbrev IsAt : List ℕ → Match → Type 0
IsAt cs m = cs ≡ m.head ++ (m.old ++ (quote ++ m.behind))

abbrev match_of : List ℕ → List ℕ → List ℕ → Match
match_of head value rest = record { head = head; old = value; behind = rest }

match_value_parts :
    (head value cs : List ℕ) (m : Match)
    → match_value head value cs ≡ some m
    → (head ≡ m.head) × (cs ≡ m.old ++ (quote ++ m.behind))
unfolding match_value
match_value_parts head value cs m h = elim (Option-cases (strip_prefix (value ++ quote) cs)) [
  | inl e ↦ cc (rw (e, match_value) at h)
  | inr (rest, e) ↦
      let same : some (match_of head value rest) ≡ some m = rw (e, match_value) at h in
      let parts : cs ≡ value ++ (quote ++ rest) =
        strip_prefix_parts (value ++ quote) cs rest e ∙ sym (assoc value quote rest) in
      let found : match_of head value rest ≡ m = cc same in
      (
        ap (λ (n : Match). n.head) found,
        parts ∙ ap (λ (n : Match). n.old ++ (quote ++ n.behind)) found,
      )
]

or_else_parts :
    (o p : Option Match) (m : Match) → or_else o p ≡ some m → (o ≡ some m) ⊎ (p ≡ some m)
unfolding or_else
or_else_parts none p m h = inr h
or_else_parts (some n) p m h = inl h

-- One of the two values behind a head.
either_value :
    (head cs : List ℕ) (m : Match)
    → or_else (match_value head (codes "allow") cs) (match_value head (codes "deny") cs) ≡ some m
    → (head ≡ m.head) × (cs ≡ m.old ++ (quote ++ m.behind))
either_value head cs m h =
    elim (or_else_parts (match_value head (codes "allow") cs) (match_value head (codes "deny") cs) m
      h) [
        | inl e ↦ match_value_parts head (codes "allow") cs m e
        | inr e ↦ match_value_parts head (codes "deny") cs m e
      ]

join_head :
    (a b c d e f : List ℕ) → a ++ (b ++ (c ++ (d ++ (e ++ f)))) ≡ (a ++ (b ++ (c ++ (d ++ e)))) ++ f
join_head a b c d e f =
    ap (λ l. a ++ (b ++ (c ++ l))) (assoc d e f)
    ∙ (ap (λ l. a ++ (b ++ l)) (assoc c (d ++ e) f)
        ∙ (ap (λ l. a ++ l) (assoc b (c ++ (d ++ e)) f) ∙ assoc a (b ++ (c ++ (d ++ e))) f))

match_action_parts : (cs : List ℕ) (m : Match) → match_action cs ≡ some m → IsAt cs m
unfolding match_action
match_action_parts cs m h = elim (Option-cases (strip_prefix key cs)) [
  | inl e ↦ cc (rw (e, match_action) at h)
  | inr (r1, e1) ↦ elim (Option-cases (strip_prefix (codes ":") (span_space r1).1)) [
    | inl e ↦ cc (rw (e1, e, match_action) at h)
    | inr (r3, e3) ↦ elim (Option-cases (strip_prefix quote (span_space r3).1)) [
      | inl e ↦ cc (rw (e1, e3, e, match_action) at h)
      | inr (r5, e5) ↦
          let w1 = (span_space r1).0 in
          let w2 = (span_space r3).0 in
          let head = key ++ (w1 ++ (codes ":" ++ (w2 ++ quote))) in
          let (at_head, behind) = either_value head r5 m (rw (e1, e3, e5, match_action) at h) in
          let p3 : r3 ≡ w2 ++ (quote ++ r5) =
            span_space_parts r3 ∙ ap (λ l. w2 ++ l) (strip_prefix_parts quote _ r5 e5) in
          let p1 : r1 ≡ w1 ++ (codes ":" ++ r3) =
            span_space_parts r1 ∙ ap (λ l. w1 ++ l) (strip_prefix_parts (codes ":") _ r3 e3) in
          strip_prefix_parts key cs r1 e1
          ∙ (ap (λ l. key ++ l) p1
              ∙ (ap (λ l. key ++ (w1 ++ (codes ":" ++ l))) p3
                  ∙ (join_head key w1 (codes ":") w2 quote r5
                      ∙ (ap (λ l. l ++ r5) at_head ∙ ap (λ l. m.head ++ l) behind))))
    ]
  ]
]

-- The head is the key, a colon and a quote, with nothing but white space between them.
pub record IsHead (head : List ℕ) : Type 0 where
  pub left : List ℕ
  pub right : List ℕ
  pub left_blank : All (λ c. is_space c ≡ true) left
  pub right_blank : All (λ c. is_space c ≡ true) right
  pub parts : head ≡ codes "\"DefaultAction\"" ++ (left ++ (codes ":" ++ (right ++ codes "\"")))

-- What a match is: such a head, and one of the two values.
pub record IsMatch (m : Match) : Type 0 where
  pub is_head : IsHead m.head
  pub is_value : (m.old ≡ codes "allow") ⊎ (m.old ≡ codes "deny")

blank_run : (cs : List ℕ) → All (λ c. is_space c ≡ true) (span_space cs).0
unfolding span_space
blank_run [] = tt
blank_run (c ∷ cs) = elim (Bool-cases (is_space c)) [
  | inl e ↦ rw e (e, blank_run cs)
  | inr e ↦ rw e tt
]

match_value_old :
    (head value cs : List ℕ) (m : Match) → match_value head value cs ≡ some m → m.old ≡ value
unfolding match_value
match_value_old head value cs m h = elim (Option-cases (strip_prefix (value ++ quote) cs)) [
  | inl e ↦ cc (rw (e, match_value) at h)
  | inr (rest, e) ↦
      let same : some (match_of head value rest) ≡ some m = rw (e, match_value) at h in
      let found : match_of head value rest ≡ m = cc same in sym (ap (λ (n : Match). n.old) found)
]

old_value :
    (head cs : List ℕ) (m : Match)
    → or_else (match_value head (codes "allow") cs) (match_value head (codes "deny") cs) ≡ some m
    → (m.old ≡ codes "allow") ⊎ (m.old ≡ codes "deny")
old_value head cs m h =
    elim (or_else_parts (match_value head (codes "allow") cs) (match_value head (codes "deny") cs) m
      h) [
        | inl e ↦ inl (match_value_old head (codes "allow") cs m e)
        | inr e ↦ inr (match_value_old head (codes "deny") cs m e)
      ]

match_action-IsMatch : (cs : List ℕ) (m : Match) → match_action cs ≡ some m → IsMatch m
unfolding match_action
match_action-IsMatch cs m h = elim (Option-cases (strip_prefix key cs)) [
  | inl e ↦ cc (rw (e, match_action) at h)
  | inr (r1, e1) ↦ elim (Option-cases (strip_prefix (codes ":") (span_space r1).1)) [
    | inl e ↦ cc (rw (e1, e, match_action) at h)
    | inr (r3, e3) ↦ elim (Option-cases (strip_prefix quote (span_space r3).1)) [
      | inl e ↦ cc (rw (e1, e3, e, match_action) at h)
      | inr (r5, e5) ↦
          let w1 = (span_space r1).0 in
          let w2 = (span_space r3).0 in
          let head = key ++ (w1 ++ (codes ":" ++ (w2 ++ quote))) in
          let found = rw (e1, e3, e5, match_action) at h in
          record {
            is_head = record {
              left = w1;
              right = w2;
              left_blank = blank_run r1;
              right_blank = blank_run r3;
              parts = sym ((either_value head r5 m found).0);
            };
            is_value = old_value head r5 m found;
          }
    ]
  ]
]

substitute_nowhere :
    (f : ℕ) (value cs : List ℕ) → count_action f cs ≡ 0 → substitute f value cs ≡ cs
unfolding count_action substitute
substitute_nowhere zero value cs h = refl
substitute_nowhere (suc f) value [] h = refl
substitute_nowhere (suc f) value (c ∷ cs) h = elim (Option-cases (match_action (c ∷ cs))) [
  | inl e ↦
      rw (e, substitute)
        (ap (λ l. c ∷ l) (substitute_nowhere f value cs (rw (e, count_action) at h)))
  | inr (m, e) ↦
      let none_is_some : suc (count_action f m.behind) ≡ 0 = rw (e, count_action) at h in
      absurd (omega arith)
]

-- The one match of a text, and what the substitution makes of the text.
pub record OneSpot (cs value result : List ℕ) : Type 0 where
  pub before : List ℕ
  pub spot : Match
  pub is_match : IsMatch spot
  pub was : cs ≡ before ++ (spot.head ++ (spot.old ++ (quote ++ spot.behind)))
  pub becomes : result ≡ before ++ (spot.head ++ (value ++ (quote ++ spot.behind)))

substitute_once :
    (f : ℕ) (value cs : List ℕ) → count_action f cs ≡ 1 → OneSpot cs value (substitute f value cs)
unfolding count_action substitute
substitute_once zero value cs h = absurd (omega arith)
substitute_once (suc f) value [] h = absurd (omega arith)
substitute_once (suc f) value (c ∷ cs) h = elim (Option-cases (match_action (c ∷ cs))) [
  | inl e ↦
      let r = substitute_once f value cs (rw (e, count_action) at h) in
      record {
        before = c ∷ r.before;
        spot = r.spot;
        is_match = r.is_match;
        was = ap (λ l. c ∷ l) r.was;
        becomes = rw (e, substitute) (ap (λ l. c ∷ l) r.becomes);
      }
  | inr (m, e) ↦
      let one : suc (count_action f m.behind) ≡ 1 = rw (e, count_action) at h in
      let no_more : count_action f m.behind ≡ 0 = omega arith in
      record {
        before = [];
        spot = m;
        is_match = match_action-IsMatch (c ∷ cs) m e;
        was = match_action_parts (c ∷ cs) m e;
        becomes =
            rw (e, substitute)
              (ap (λ l. m.head ++ (value ++ (quote ++ l)))
                (substitute_nowhere f value m.behind no_more));
      }
]

module _ ⦃host : Host⦄ where
  -- An edit that is accepted replaces the bytes of one value, allow or deny, between a head (the key, a colon
  -- and a quote, with nothing but white space between them) and its closing quote, and leaves all
  -- bytes around it.
  pub set_action-OneSpot :
      (bytes : List ℕ) (value : Action) (result : List ℕ)
      → set_action bytes value ≡ ok result
      → OneSpot bytes (codes (name_of value)) result
  set_action-OneSpot bytes value result h =
      let a = set_action-Accepted bytes value result h in
      let r = substitute_once (length bytes) (codes (name_of value)) bytes a.one_action in
      record {
        before = r.before;
        spot = r.spot;
        is_match = r.is_match;
        was = r.was;
        becomes = a.edited ∙ r.becomes;
      }
