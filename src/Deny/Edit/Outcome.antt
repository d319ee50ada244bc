-- ===== src/Deny/Edit/Outcome.antt =====
-- What an edit of DefaultAction that is accepted has checked, and the action that it leaves.
use bazzite_tower.Prelude.{
  ℕ, String, ◌≡◌, refl, Bool, true, false, ◌&&◌, some, List, ◌==◌, codes, arith, length, Json, str,
  obj, Fields, get_field, set_field, get_field-set_field, json_eq, fields_within, fields_within-get,
  json_eq-str, as_dict, ok, >>=-eq-ok, &&-eq-true, keys, ==_iff, ap, ◌∙◌,
}
use bazzite_tower.Deny.System.{Host}
use bazzite_tower.Deny.Edit.{
  Action, name_of, action_of_text, action_of, current_action, count_key, count_action, substitute,
  load_json, refuse_unless, checked_edit, redecoded_edit, edit_one, set_action,
}

refuse_unless_ok :
    ⦃host : Host⦄ (b : Bool) (m : String) (u : Unit {0}) → refuse_unless b m ≡ ok u → b ≡ true
unfolding refuse_unless
refuse_unless_ok true m u h = refl
refuse_unless_ok false m u h = cc

as_dict_ok : (j : Json) (fs : Fields) → as_dict j ≡ ok fs → j ≡ obj fs
as_dict_ok (obj gs) fs h = ground arith
as_dict_ok _ fs h = cc

json_eq-obj :
    (fs : Fields) (j : Json)
    → json_eq (obj fs) j ≡ true
    → (gs : Fields) × (j ≡ obj gs) × (fields_within fs gs ≡ true)
unfolding json_eq
json_eq-obj fs (obj gs) h =
    (gs, refl, (&&-eq-true (length (keys fs) == length (keys gs)) (fields_within fs gs) h).1)
json_eq-obj fs _ h = cc

module _ ⦃host : Host⦄ where
  load_json_ok : (bytes : List ℕ) (j : Json) → load_json bytes ≡ ok j → host.loads bytes ≡ some j
  unfolding load_json
  load_json_ok bytes j h = ground arith

  -- What an accepted edit has checked, with the documents before and behind it.
  pub record Accepted (bytes : List ℕ) (value : Action) (result : List ℕ) : Type 0 where
    pub before : Fields
    pub after : Fields
    pub one_key : count_key (length bytes) bytes ≡ 1
    pub one_action : count_action (length bytes) bytes ≡ 1
    pub edited : result ≡ substitute (length bytes) (codes (name_of value)) bytes
    pub decoded : host.loads bytes ≡ some (obj before)
    pub redecoded : host.loads result ≡ some (obj after)
    pub only_key :
        fields_within (set_field "DefaultAction" (str (name_of value)) before) after ≡ true

  checked_edit_ok :
      (value : Action) (edited : List ℕ) (before after : Json) (result : List ℕ)
      → checked_edit value edited before after ≡ ok result
      → (fs gs : Fields) × (before ≡ obj fs)
        × (after ≡ obj gs)
        × (fields_within (set_field "DefaultAction" (str (name_of value)) fs) gs ≡ true)
        × (result ≡ edited)
  unfolding checked_edit
  checked_edit_ok value edited (obj fs) after result h =
      let (u, same, last) =
        >>=-eq-ok
          (refuse_unless (json_eq (obj (set_field "DefaultAction" (str (name_of value)) fs)) after)
            _)
          (λ _. ok edited) h in
      let (gs, e, within) = json_eq-obj _ after (refuse_unless_ok _ _ u same) in
      (fs, gs, refl, e, within, cc)
  checked_edit_ok value edited _ after result h = cc

  pub set_action-Accepted :
      (bytes : List ℕ) (value : Action) (result : List ℕ)
      → set_action bytes value ≡ ok result
      → Accepted bytes value result
  unfolding set_action
  set_action-Accepted bytes value result h =
      let edited = substitute (length bytes) (codes (name_of value)) bytes in
      let (u, tests, h1) =
        >>=-eq-ok
          (refuse_unless
            ((count_key (length bytes) bytes == 1) && (count_action (length bytes) bytes == 1)) _)
          (λ _. edit_one bytes value) h in
      let counts = &&-eq-true _ _ (refuse_unless_ok _ _ u tests) in
      let (before, d, h2) = >>=-eq-ok (load_json bytes) (redecoded_edit value edited) h1 in
      let (after, r, h3) = >>=-eq-ok (load_json edited) (checked_edit value edited before) h2 in
      let (fs, gs, e, f, within, same) = checked_edit_ok value edited before after result h3 in
      record {
        before = fs;
        after = gs;
        one_key = (==_iff _ _).0 counts.0;
        one_action = (==_iff _ _).0 counts.1;
        edited = same;
        decoded = load_json_ok bytes before d ∙ ap some e;
        redecoded = ap host.loads same ∙ (load_json_ok edited after r ∙ ap some f);
        only_key = within;
      }

  action_of_field :
      (fs : Fields) (value : Action)
      → action_of_text (name_of value) ≡ value
      → get_field "DefaultAction" fs ≡ some (str (name_of value))
      → action_of (obj fs) ≡ value
  action_of_field fs value p e = rw (e, action_of) p

  -- The edited config has the action that was asked for.
  pub current_action-set_action :
      (bytes : List ℕ) (value : Action) (result : List ℕ)
      → action_of_text (name_of value) ≡ value
      → set_action bytes value ≡ ok result
      → current_action result ≡ value
  unfolding current_action
  current_action-set_action bytes value result p h =
      let a = set_action-Accepted bytes value result h in
      let (w, e, same) =
        fields_within-get (set_field "DefaultAction" (str (name_of value)) a.before) a.after
          "DefaultAction" (str (name_of value)) a.only_key (rw get_field-set_field refl) in
      rw (a.redecoded, current_action)
        (action_of_field a.after value p (e ∙ ap some (json_eq-str (name_of value) w same)))
