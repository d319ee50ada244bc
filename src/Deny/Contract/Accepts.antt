-- ===== src/Deny/Contract/Accepts.antt =====
-- The readiness check of a live config against a description of the files that it accepts.
use Prim.Native.Nat.{bit_and}
use bazzite_tower.Prelude.{
  String, ◌≡◌, refl, ap, sym, subst, Bool, true, false, ◌&&◌, Bool-cases, &&-eq-true, ◌==◌, ==_iff,
  =s=_iff, inl, inr, ◌⊎◌, Option, none, some, Option-cases, Json, bool, str, obj, Fields, get_field,
  get_is, is_str, is_str-eq, is_num, arith, Error, not-eq-true,
}
use bazzite_tower.Deny.System.{Node, state, marker, System, Host}
use bazzite_tower.Deny.Files.{is_regular, is_root_file}
use bazzite_tower.Deny.Run.Returns.{Returns, Raises}
use bazzite_tower.Deny.State.{dict_of, is_text, is_false, same_text, marker_ok, confirms}
use bazzite_tower.Deny.Contract.{denies, config_contract}
use bazzite_tower.Deny.Contract.Decides.{
  document_at, is_settled, is_marked, is_opted, is_accepted, IsLive, config_contract-decides,
}

text_in :
    (o : Option Json)
    → ◌≡◌ {A = Bool} (elim o [ none ↦ false | some v ↦ is_text v ]) true
    → (s : String) × (o ≡ some (str s))
text_in none h = cc
text_in (some (str s)) h = (s, refl)
text_in (some _) h = cc

same_text_in : (o : Option Json) (s : String) → same_text o (some (str s)) ≡ true → o ≡ some (str s)
same_text_in none s h = cc
same_text_in (some (str t)) s h = ap (λ x. some (str x)) ((=s=_iff t s).0 h)
same_text_in (some _) s h = cc

false_in : (o : Option Json) → is_false o ≡ true → o ≡ some (bool false)
false_in none h = cc
false_in (some (bool b)) h = ap (λ x. some (bool x)) (not-eq-true b h)
false_in (some _) h = cc

dict_found : (o : Option Json) (m : Fields) → dict_of o ≡ some m → o ≡ some (obj m)
dict_found none m h = cc
dict_found (some (obj fs)) m h = cc
dict_found (some _) m h = cc

text_is_in :
    (text : String) (o : Option Json)
    → ◌≡◌ {A = Bool} (elim o [ none ↦ false | some v ↦ is_str text v ]) true
    → o ≡ some (str text)
text_is_in text none h = cc
text_is_in text (some v) h = ap some (is_str-eq text v h)

-- A regular file of root that only root can write.
pub record IsRootFile (n : Node) : Type 0 where
  pub regular_file : is_regular n.kind ≡ true
  pub of_root : n.uid ≡ 0
  pub no_other_writes : bit_and n.mode 0o022 ≡ 0

is_root_file-IsRootFile : (n : Node) → is_root_file 0o022 n ≡ true → IsRootFile n
is_root_file-IsRootFile n h =
    let (kind, rest) = &&-eq-true (is_regular n.kind) _ h in
    let (owner, closed) = &&-eq-true (n.uid == 0) (bit_and n.mode 0o022 == 0) rest in
    record {
      regular_file = kind;
      of_root = (==_iff n.uid 0).0 owner;
      no_other_writes = (==_iff (bit_and n.mode 0o022) 0).0 closed;
    }

all_three : (a b c : Bool) → a ≡ true → b ≡ true → c ≡ true → (a && (b && c)) ≡ true
all_three a b c e f g = ground arith

IsRootFile-is_root_file : (n : Node) → IsRootFile n → is_root_file 0o022 n ≡ true
IsRootFile-is_root_file n r =
    all_three (is_regular n.kind) (n.uid == 0) (bit_and n.mode 0o022 == 0) r.regular_file
      ((==_iff n.uid 0).1 r.of_root) ((==_iff (bit_and n.mode 0o022) 0).1 r.no_other_writes)

module _ ⦃host : Host⦄ where
  -- Such a file, with a dict for its document.
  pub record Holds (n : Node) (fs : Fields) : Type 0 where
    pub root_file : IsRootFile n
    pub is_document : host.loads n.bytes ≡ some (obj fs)

  document_at-Holds : (n : Node) (fs : Fields) → document_at (some n) ≡ some fs → Holds n fs
  document_at-Holds n fs h = elim (Bool-cases (is_root_file 0o022 n)) [
    | inl root ↦ record {
      root_file = is_root_file-IsRootFile n root;
      is_document = dict_found (host.loads n.bytes) fs (rw root at h);
    }
    | inr other ↦ cc (rw other at h)
  ]

  Holds-document_at : (n : Node) (fs : Fields) → Holds n fs → document_at (some n) ≡ some fs
  Holds-document_at n fs h = rw (IsRootFile-is_root_file n h.root_file) (rw h.is_document refl)

  -- The marker of a confirmed trial with this id.
  pub record IsMarker (id : String) (n : Node) : Type 0 where
    pub fields : Fields
    pub moment : String
    pub holds : Holds n fields
    pub schema : get_is (is_num 1) "schema" fields ≡ true
    pub confirmed : get_field "confirmedAt" fields ≡ some (str moment)
    pub has_id : get_field "id" fields ≡ some (str id)

  -- The state of the trial with this id, which is not pending.
  pub record IsSettled (id : String) (n : Node) : Type 0 where
    pub fields : Fields
    pub holds : Holds n fields
    pub not_pending : get_field "pending" fields ≡ some (bool false)
    pub has_id : get_field "id" fields ≡ some (str id)

  -- There is such a marker, and a state file, if there is one, is that of its trial.
  pub record OptedIn (s : System) : Type 0 where
    pub id : String
    pub node : Node
    pub is_node : s.disk marker ≡ some node
    pub is_marker : IsMarker id node
    pub settled : (n : Node) → s.disk state ≡ some n → IsSettled id n

  -- The config allows, or it denies and the operator has opted in.
  abbrev pub Accepts : Fields → System → Type 0
  Accepts fs s =
      (get_field "DefaultAction" fs ≡ some (str "allow"))
      ⊎ ((get_field "DefaultAction" fs ≡ some (str "deny")) × OptedIn s)

  confirms-IsSettled :
      (m : Fields) (id : String) (n : Node)
      → get_field "id" m ≡ some (str id)
      → is_settled m (some n) ≡ true
      → IsSettled id n
  confirms-IsSettled m id n has h = elim (Option-cases (document_at (some n))) [
    | inl e ↦ cc (subst (λ o. confirms m o ≡ true) e h)
    | inr (fs, e) ↦
        let good : confirms m (some fs) ≡ true = subst (λ o. confirms m o ≡ true) e h in
        let (pending, same) = &&-eq-true (is_false (get_field "pending" fs)) _ good in
        record {
          fields = fs;
          holds = document_at-Holds n fs e;
          not_pending = false_in (get_field "pending" fs) pending;
          has_id =
              same_text_in (get_field "id" fs) id
                (subst (λ o. same_text (get_field "id" fs) o ≡ true) has same);
        }
  ]

  IsSettled-confirms :
      (m : Fields) (id : String) (n : Node)
      → get_field "id" m ≡ some (str id)
      → IsSettled id n
      → is_settled m (some n) ≡ true
  IsSettled-confirms m id n has t =
      subst (λ o. confirms m o ≡ true) (sym (Holds-document_at n t.fields t.holds))
        (rw (t.not_pending, t.has_id, has, confirms) ((=s=_iff id id).1 refl))

  marked-IsSettled :
      (m : Fields) (id : String) (st : Option Node)
      → get_field "id" m ≡ some (str id)
      → is_settled m st ≡ true
      → (n : Node) → st ≡ some n
      → IsSettled id n
  marked-IsSettled m id none has h n e = cc
  marked-IsSettled m id (some k) has h n e =
      confirms-IsSettled m id n has (subst (λ o. is_settled m o ≡ true) e h)

  settled_back :
      (m : Fields) (id : String) (st : Option Node)
      → get_field "id" m ≡ some (str id)
      → ((n : Node) → st ≡ some n → IsSettled id n)
      → is_settled m st ≡ true
  settled_back m id none has t = refl
  settled_back m id (some n) has t = IsSettled-confirms m id n has (t n refl)

  is_marked-parts :
      (m : Fields) (st : Option Node)
      → is_marked (some m) st ≡ true
      → (marker_ok m ≡ true) × (is_settled m st ≡ true)
  is_marked-parts m st h = elim (Bool-cases (marker_ok m)) [
    | inl good ↦ (good, rw good at h)
    | inr bad ↦ cc (rw bad at h)
  ]

  opted_of :
      (s : System) (mark : Option Node)
      → s.disk marker ≡ mark
      → is_opted mark (s.disk state) ≡ true
      → OptedIn s
  opted_of s none at h = cc
  opted_of s (some n) at h = elim (Option-cases (document_at (some n))) [
    | inl e ↦ cc (subst (λ o. is_marked o (s.disk state) ≡ true) e h)
    | inr (m, e) ↦
        let (good, settled) =
          is_marked-parts m (s.disk state) (subst (λ o. is_marked o (s.disk state) ≡ true) e h) in
        let (schema, rest) = &&-eq-true (get_is (is_num 1) "schema" m) _ good in
        let (confirmed, named) =
          &&-eq-true (get_is is_text "confirmedAt" m) (get_is is_text "id" m) rest in
        let (moment, has_moment) = text_in (get_field "confirmedAt" m) confirmed in
        let (id, has_id) = text_in (get_field "id" m) named in
        record {
          id = id;
          node = n;
          is_node = at;
          is_marker = record {
            fields = m;
            moment = moment;
            holds = document_at-Holds n m e;
            schema = schema;
            confirmed = has_moment;
            has_id = has_id;
          };
          settled = marked-IsSettled m id (s.disk state) has_id settled;
        }
  ]

  OptedIn-is_opted : (s : System) → OptedIn s → is_opted (s.disk marker) (s.disk state) ≡ true
  OptedIn-is_opted s o =
      let k = o.is_marker in
      let texts : (get_is is_text "confirmedAt" k.fields ≡ true)
          × (get_is is_text "id" k.fields ≡ true) =
        (rw (k.confirmed, get_is) refl, rw (k.has_id, get_is) refl) in
      let good : marker_ok k.fields ≡ true =
        all_three (get_is (is_num 1) "schema" k.fields) (get_is is_text "confirmedAt" k.fields)
          (get_is is_text "id" k.fields) k.schema (texts.0) (texts.1) in
      subst (λ m. is_opted m (s.disk state) ≡ true) (sym o.is_node)
        (subst (λ d. is_marked d (s.disk state) ≡ true)
          (sym (Holds-document_at o.node k.fields k.holds))
          (rw good (settled_back k.fields o.id (s.disk state) k.has_id o.settled)))

  accepted-Accepts : (fs : Fields) (s : System) → is_accepted fs s ≡ true → Accepts fs s
  accepted-Accepts fs s h = elim (Bool-cases (denies fs)) [
    | inl deny ↦ inr (
      text_is_in "deny" (get_field "DefaultAction" fs) deny,
      opted_of s (s.disk marker) refl (rw deny at h),
    )
    | inr other ↦ inl (text_is_in "allow" (get_field "DefaultAction" fs) (rw other at h))
  ]

  Accepts-accepted : (fs : Fields) (s : System) → Accepts fs s → is_accepted fs s ≡ true
  Accepts-accepted fs s (inl allows) = rw (allows, get_is) refl
  Accepts-accepted fs s (inr (deny, opted)) = rw (deny, get_is) (OptedIn-is_opted s opted)

  -- Without faults the readiness check of a config with this address and with proc returns it if it allows,
  -- or if it denies, root's marker names a confirmed trial, and a state file, if there is one, is root's,
  -- has the marker's id and is not pending; otherwise it raises.
  pub config_contract-Accepts :
      (address : String) (s : System) (fs : Fields)
      → IsLive address s fs
      → get_is (is_str "proc") "ProcMonitorMethod" fs ≡ true
      → (Accepts fs s → Returns (config_contract address) s fs s)
        × (¬ Accepts fs s → (e : Error) × Raises (config_contract address) s e)
  config_contract-Accepts address s fs live proc =
      let (returns, raises) = config_contract-decides address s fs live proc in
      (
        λ good. returns (Accepts-accepted fs s good),
        λ bad. elim (Bool-cases (is_accepted fs s)) [
          | inl t ↦ absurd (bad (accepted-Accepts fs s t))
          | inr f ↦ raises f
        ],
      )
