-- ===== src/Deny/Safety/Saved.antt =====
-- A state that is saved is read back with the values that count.
use bazzite_tower.Prelude.{
  ◌≡◌, refl, ap, Bool, true, false, Option, none, some, Json, bool, num, str, obj, Fields, String,
  get_field, is_str, is_num, is_str-eq, ◌&&◌, sym, subst, if◌then◌else◌, =s=_iff,
}
use bazzite_tower.Deny.System.{Host, SameScalars, IsLawful}
use bazzite_tower.Deny.Files.{replacement, root_with}
use bazzite_tower.Deny.Record.{or_refused, is_bool, schema_ok, is_pending, has_pending}
use bazzite_tower.Deny.Safety.Views.{accepted_state, recorded_at, BackedBy}

is_str-same : (s : String) → is_str s (str s) ≡ true
is_str-same s = (=s=_iff s s).1 refl

text_found :
    (text : String) (o : Option Json)
    → ◌≡◌ {A = Bool} (elim o [ none ↦ false | some v ↦ is_str text v ]) true
    → o ≡ some (str text)
text_found text none h = cc
text_found text (some v) h = ap some (is_str-eq text v h)

module _ ⦃host : Host⦄ (fs gs : Fields) (same : SameScalars fs gs) where
  reordered-BackedBy : BackedBy (some fs) → BackedBy (some gs)
  reordered-BackedBy back bytes h =
      let hash = host.sha256 bytes in
      let found = text_found hash (get_field "backupSha256" gs) h in
      let before = (same "backupSha256" (str hash) refl).0 found in
      back bytes (
        subst
          (λ (o : Option Json).
            ◌≡◌ {A = Bool} (elim o [ none ↦ false | some v ↦ is_str hash v ]) true)
          (sym before) (is_str-same hash))

accepted-BackedBy :
    ⦃host : Host⦄
    → (b : Bool) (fs : Fields) → BackedBy (some fs)
    → BackedBy (accepted_state (or_refused (if b then some fs else none)))
accepted-BackedBy true fs back = back
accepted-BackedBy false fs back = tt

schema_known :
    (schema pending : Option Json)
    → schema ≡ some (num 1)
    → pending ≡ some (bool true)
    → ◌≡◌ {A = Bool}
        (elim schema [ none ↦ false | some v ↦ is_num 1 v ]
          && elim pending [ none ↦ false | some v ↦ is_bool v ])
        true
schema_known schema pending e f =
    subst
      (λ (o : Option Json).
        ◌≡◌ {A = Bool}
          (elim o [ none ↦ false | some v ↦ is_num 1 v ]
            && elim pending [ none ↦ false | some v ↦ is_bool v ])
          true)
      (sym e)
      (subst
        (λ (o : Option Json).
          ◌≡◌ {A = Bool} (true && elim o [ none ↦ false | some v ↦ is_bool v ]) true)
        (sym f) refl)

accepted_pending :
    ⦃host : Host⦄
    → (b : Bool) (fs : Fields) → b ≡ true
    → is_pending fs ≡ true
    → has_pending (accepted_state (or_refused (if b then some fs else none))) ≡ true
accepted_pending true fs e p = p
accepted_pending false fs e p = cc

module _ ⦃host : Host⦄ (law : IsLawful host) (fs : Fields) where
  -- The bytes of the file that `save_state` writes.
  abbrev pub saved : Option Fields
  saved = recorded_at (some (replacement (root_with 0o600) (host.dumps (obj fs))))

  pub saved-BackedBy : BackedBy (some fs) → BackedBy saved
  saved-BackedBy back =
      let (gs, read, same) = law.loads-dumps fs in
      rw read (accepted-BackedBy (schema_ok gs) gs (reordered-BackedBy fs gs same back))

  -- A state of the schema that is pending is read back as one.
  pub saved_pending :
      get_field "schema" fs ≡ some (num 1)
      → get_field "pending" fs ≡ some (bool true)
      → has_pending saved ≡ true
  saved_pending schema pending =
      let (gs, read, same) = law.loads-dumps fs in
      let first = (same "schema" (num 1) refl).1 schema in
      let second = (same "pending" (bool true) refl).1 pending in
      rw read (
        accepted_pending (schema_ok gs) gs
          (schema_known (get_field "schema" gs) (get_field "pending" gs) first second)
          (rw (second, is_pending) refl))
