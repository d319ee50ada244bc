-- ===== src/Tokens/Codex/Peaks.antt =====
-- What is reported of a session's counters adds up to what they reached.
use bazzite_tower.Prelude.{
  ℕ, ◌+◌, ◌-◌, ◌≤◌, String, ◌≡◌, refl, ap, ◌∙◌, ◌⊎◌, inl, inr, Bool, true, false, ◌&&◌, not, List,
  [], ◌∷◌, ◌++◌, All, arith, Bool-cases, ltb, if◌then◌else◌, Fields, holds_text, text_order,
  get_field, strip_prefix,
}
use bazzite_tower.Tokens.Values.{Sample, Library, is_text_of, has_day}
use bazzite_tower.Tokens.Claude.{is_nothing}
use bazzite_tower.Tokens.Codex.{
  Counters, counters_of, delta, is_some_use, Rates, Session, opened, describe, total_of,
  is_token_count, read_rates, day_at, is_counted, sample_of, add_sample, read_total, read_count,
  codex_record, codex_records,
}

abbrev pub total_in : List Sample → ℕ
total_in [] = 0
total_in (s ∷ ss) = s.usage.total + total_in ss

-- The totals that a log's token counts have.
abbrev pub readings : List Fields → List ℕ
readings [] = []
readings (fs ∷ rs) =
    let rest = readings rs in
    if is_token_count fs
    then (if is_nothing (total_of fs) then rest else (counters_of (total_of fs)).total ∷ rest)
    else rest

-- The sum of the readings that stand in front of a fall, and of the last one.
abbrev pub peaks : ℕ → List ℕ → ℕ
peaks p [] = p
peaks p (c ∷ cs) = let rest = peaks c cs in if ltb c p then p + rest else rest

total_in-append : (ss ts : List Sample) → total_in (ss ++ ts) ≡ total_in ss + total_in ts
total_in-append [] ts = omega arith
total_in-append (s ∷ ss) ts = omega (arith, total_in-append ss ts)

describe_samples : (fs : Fields) (st : Session) → (describe fs st).samples ≡ st.samples
unfolding describe
describe_samples fs st = elim (Bool-cases (is_text_of (get_field "type" fs) "session_meta")) [
  | inl e ↦ rw e refl
  | inr e ↦ elim (Bool-cases (is_text_of (get_field "type" fs) "turn_context")) [
    | inl f ↦ rw (e, f) refl
    | inr f ↦ rw (e, f) refl
  ]
]

describe_previous : (fs : Fields) (st : Session) → (describe fs st).previous ≡ st.previous
unfolding describe
describe_previous fs st = elim (Bool-cases (is_text_of (get_field "type" fs) "session_meta")) [
  | inl e ↦ rw e refl
  | inr e ↦ elim (Bool-cases (is_text_of (get_field "type" fs) "turn_context")) [
    | inl f ↦ rw (e, f) refl
    | inr f ↦ rw (e, f) refl
  ]
]

-- How much a step from p to c adds.
abbrev rise : ℕ → ℕ → ℕ
rise c p = if ltb c p then c else c - p

delta_total : (c p : Counters) → (delta c p).total ≡ rise c.total p.total
unfolding delta
delta_total c p = elim (Bool-cases (ltb c.total p.total)) [ inl e ↦ rw e refl | inr e ↦ rw e refl ]

unused_total : (d : Counters) → is_some_use d ≡ false → d.total ≡ 0
unused_total d h = ground arith

module _ ⦃library : Library⦄ where
  add_sample_total :
      (counted : Bool) (fs : Fields) (d : Counters) (st : Session)
      → total_in (add_sample counted fs d st).samples
        ≡ total_in st.samples + (if counted then d.total else 0)
  add_sample_total false fs d st = omega arith
  add_sample_total true fs d st = elim (Bool-cases (is_some_use d)) [
    | inl e ↦ rw e (total_in-append st.samples (sample_of fs d st ∷ []) ∙ omega arith)
    | inr e ↦ rw e (let z = unused_total d e in omega arith)
  ]

  -- What a token count adds where it has a total, whether it is counted or not.
  read_total_step :
      (counted : Bool) (fs : Fields) (st : Session)
      → is_nothing (total_of fs) ≡ false
      → ((read_total counted fs st).previous ≡ counters_of (total_of fs))
        × (total_in (read_total counted fs st).samples
            ≡ total_in st.samples
              + (if counted then rise (counters_of (total_of fs)).total st.previous.total else 0))
  unfolding read_total
  read_total_step counted fs st h =
      let now = counters_of (total_of fs) in
      let added = add_sample_total counted fs (delta now st.previous) st in
      let step = delta_total now st.previous in rw h (refl, added ∙ rw step refl)

  read_total_nothing :
      (counted : Bool) (fs : Fields) (st : Session)
      → is_nothing (total_of fs) ≡ true
      → read_total counted fs st ≡ st
  unfolding read_total
  read_total_nothing counted fs st h = rw h refl

  read_count_step :
      (since filter : String) (fs : Fields) (st : Session)
      → is_nothing (total_of fs) ≡ false
      → ((read_count since filter fs st).previous ≡ counters_of (total_of fs))
        × (total_in (read_count since filter fs st).samples
            ≡ total_in st.samples
              + (if is_counted since filter fs st.project
                  then rise (counters_of (total_of fs)).total st.previous.total
                  else 0))
  unfolding read_count
  read_count_step since filter fs st h = elim (Bool-cases (is_counted since filter fs st.project)) [
    | inl e ↦ rw e (read_total_step true fs (read_rates fs st) h)
    | inr e ↦ rw e (read_total_step false fs st h)
  ]

  read_count_nothing :
      (since filter : String) (fs : Fields) (st : Session)
      → is_nothing (total_of fs) ≡ true
      → ((read_count since filter fs st).previous ≡ st.previous)
        × ((read_count since filter fs st).samples ≡ st.samples)
  unfolding read_count
  read_count_nothing since filter fs st h =
      elim (Bool-cases (is_counted since filter fs st.project)) [
        | inl e ↦
            let same = read_total_nothing true fs (read_rates fs st) h in
            rw e (ap (λ s. s.previous) same, ap (λ s. s.samples) same)
        | inr e ↦
            let same = read_total_nothing false fs st h in
            rw e (ap (λ s. s.previous) same, ap (λ s. s.samples) same)
      ]

  -- A record that is no token count, or that has no total, changes neither the counters nor the samples.
  codex_record_idle :
      (since filter : String) (fs : Fields) (st : Session)
      → (is_token_count fs ≡ false) ⊎ (is_nothing (total_of fs) ≡ true)
      → ((codex_record since filter fs st).previous ≡ st.previous)
        × ((codex_record since filter fs st).samples ≡ st.samples)
  unfolding codex_record
  codex_record_idle since filter fs st idle = elim (Bool-cases (is_token_count fs)) [
    | inr e ↦ rw e (describe_previous fs st, describe_samples fs st)
    | inl e ↦ elim idle [
      | inl f ↦ cc
      | inr n ↦
          let (p, q) = read_count_nothing since filter fs (describe fs st) n in
          rw e (p ∙ describe_previous fs st, q ∙ describe_samples fs st)
    ]
  ]

  codex_record_step :
      (since filter : String) (fs : Fields) (st : Session)
      → is_token_count fs ≡ true
      → is_nothing (total_of fs) ≡ false
      → ((codex_record since filter fs st).previous ≡ counters_of (total_of fs))
        × (total_in (codex_record since filter fs st).samples
            ≡ total_in st.samples
              + (if is_counted since filter fs (describe fs st).project
                  then rise (counters_of (total_of fs)).total st.previous.total
                  else 0))
  unfolding codex_record
  codex_record_step since filter fs st e n =
      let (p, q) = read_count_step since filter fs (describe fs st) n in
      let a = describe_previous fs st in let b = describe_samples fs st in rw e (p, q ∙ cc)

  -- What a record adds that is not counted.
  abbrev pub lost : String → String → Fields → Session → ℕ
  lost since filter fs st =
      if is_token_count fs && not (is_nothing (total_of fs))
      then (if is_counted since filter fs (describe fs st).project
          then 0
          else rise (counters_of (total_of fs)).total st.previous.total)
      else 0

  record_balance :
      (since filter : String) (fs : Fields) (rs : List Fields) (st : Session)
      → total_in (codex_record since filter fs st).samples
          + peaks (codex_record since filter fs st).previous.total (readings rs)
          + st.previous.total
          + lost since filter fs st
        ≡ total_in st.samples
          + peaks st.previous.total (readings (fs ∷ rs))
          + (codex_record since filter fs st).previous.total
  record_balance since filter fs rs st =
      let idle = codex_record_idle since filter fs st in
      let step = codex_record_step since filter fs st in
      elim (Bool-cases (is_token_count fs)) [
        | inr e ↦
            let (p, q) = idle (inl e) in
            let r = ap (λ c. c.total) p in let t = ap total_in q in rw (e, p, q) (omega arith)
        | inl e ↦ elim (Bool-cases (is_nothing (total_of fs))) [
          | inl n ↦ let (p, q) = idle (inr n) in rw (e, n, p, q) (omega arith)
          | inr n ↦ let (p, q) = step e n in rw (e, n, p, q) (ground arith)
        ]
      ]

  records_below :
      (since filter : String) (rs : List Fields) (st : Session)
      → total_in (codex_records since filter rs st).samples + st.previous.total
        ≤ total_in st.samples + peaks st.previous.total (readings rs)
  unfolding codex_records
  records_below since filter [] st = omega arith
  records_below since filter (fs ∷ rs) st =
      let rest = records_below since filter rs (codex_record since filter fs st) in
      omega (arith, rest, record_balance since filter fs rs st)

  -- What the samples of a log add is at most the sum of its peaks: the total that each counter had
  -- reached before it fell, and the last one.
  pub codex_records-peaks_bound :
      (since filter : String) (rs : List Fields) (samples : List Sample) (rates : Rates)
      → total_in (codex_records since filter rs (opened samples rates)).samples
        ≤ total_in samples + peaks 0 (readings rs)
  codex_records-peaks_bound since filter rs samples rates =
      let below = records_below since filter rs (opened samples rates) in omega (arith, below)

  -- The day of every record is one to count.
  abbrev pub AllDays : String → List Fields → Type 0
  AllDays since rs =
      All (λ fs. (has_day (day_at fs) && text_order.before since (day_at fs)) ≡ true) rs

  blank_in : (s : String) → holds_text String.[] s ≡ true
  unfolding strip_prefix
  blank_in String.[] = refl
  blank_in (String.◌∷◌ c s) = refl

  day_counted :
      (since : String) (fs : Fields) (project : String)
      → (has_day (day_at fs) && text_order.before since (day_at fs)) ≡ true
      → is_counted since String.[] fs project ≡ true
  unfolding is_counted
  day_counted since fs project h = let b = blank_in project in ground arith

  nothing_lost :
      (since filter : String) (fs : Fields) (st : Session)
      → is_counted since filter fs (describe fs st).project ≡ true
      → lost since filter fs st ≡ 0
  nothing_lost since filter fs st h =
      elim (Bool-cases (is_token_count fs && not (is_nothing (total_of fs)))) [
        | inl e ↦ rw (e, h) refl
        | inr e ↦ rw e refl
      ]

  records_reach :
      (since : String) (rs : List Fields) (st : Session)
      → AllDays since rs
      → total_in (codex_records since String.[] rs st).samples + st.previous.total
        ≡ total_in st.samples + peaks st.previous.total (readings rs)
  unfolding codex_records
  records_reach since [] st days = omega arith
  records_reach since (fs ∷ rs) st (day, days) =
      let rest = records_reach since rs (codex_record since String.[] fs st) days in
      let counted = day_counted since fs (describe fs st).project day in
      let balance = record_balance since String.[] fs rs st in
      omega (arith, rest, balance, nothing_lost since String.[] fs st counted)

  -- Without a project filter, where the day of every record is one to count, the samples of a log add
  -- exactly the sum of its peaks.
  pub codex_records-peaks :
      (since : String) (rs : List Fields) (samples : List Sample) (rates : Rates)
      → AllDays since rs
      → total_in (codex_records since String.[] rs (opened samples rates)).samples
        ≡ total_in samples + peaks 0 (readings rs)
  codex_records-peaks since rs samples rates days =
      let reach = records_reach since rs (opened samples rates) days in omega (arith, reach)
