-- ===== src/Tokens/Codex.antt =====
-- scripts/agent-token-report.py, `codex`: the deltas of counters that add up within a session, and the
-- latest rate limits.
pub mod Peaks
use bazzite_tower.Prelude.{
  ℕ, ◌+◌, ◌-◌, String, Bool, true, false, ◌&&◌, ◌||◌, not, Option, none, some, List, [], ◌∷◌, ◌++◌,
  ◌==◌, ltb, leb, if◌then◌else◌, ◌=s=◌, Json, num, whole, real, obj, Fields, end, field, get_field,
  Dict, find, put, holds_text, text_order, lex_order, sorted_by, str,
}
use bazzite_tower.Tokens.Values.{
  Usage, Sample, Library, count, mapping, label, is_text_of, Errors, Log, day_of, records,
  add_errors, has_day,
}
use bazzite_tower.Tokens.Claude.{log_before, is_nothing}

-- The counters of `keys`.
pub record Counters : Type 0 where
  pub input : ℕ
  pub cached : ℕ
  pub output : ℕ
  pub reasoning : ℕ
  pub total : ℕ

abbrev pub no_counters : Counters
no_counters = record { input = 0; cached = 0; output = 0; reasoning = 0; total = 0 }

abbrev pub counters_of : Fields → Counters
counters_of total = record {
  input = count (get_field "input_tokens" total);
  cached = count (get_field "cached_input_tokens" total);
  output = count (get_field "output_tokens" total);
  reasoning = count (get_field "reasoning_output_tokens" total);
  total = count (get_field "total_tokens" total);
}

abbrev pub since_counters : Counters → Counters → Counters
since_counters current previous = record {
  input = current.input - previous.input;
  cached = current.cached - previous.cached;
  output = current.output - previous.output;
  reasoning = current.reasoning - previous.reasoning;
  total = current.total - previous.total;
}

-- `delta`: a counter that fell has been reset.
unfoldable pub delta : Counters → Counters → Counters
delta current previous =
    if ltb current.total previous.total then current else since_counters current previous

-- `any(delta)`
abbrev pub is_some_use : Counters → Bool
is_some_use d = not (
    (d.input == 0)
    && ((d.cached == 0) && ((d.output == 0) && ((d.reasoning == 0) && (d.total == 0)))))

pub record Rate : Type 0 where
  pub used_percent : Json
  pub timestamp : String

-- `(limit_id, window)`
abbrev pub RateKey : Type 0
RateKey = String × String

abbrev pub same_rate : RateKey → RateKey → Bool
same_rate (a, b) (c, d) = (a =s= c) && (b =s= d)

abbrev pub Rates : Type 0
Rates = Dict RateKey Rate

pub record Session : Type 0 where
  pub project : String
  pub kind : String
  pub model : String
  pub previous : Counters
  pub is_selected : Bool
  pub samples : List Sample
  pub rates : Rates

abbrev pub has_key : String → Option Json → Bool
has_key key (some (obj fs)) = elim (get_field key fs) [ none ↦ false | some v ↦ true ]
has_key key _ = false

abbrev pub payload_of : Fields → Fields
payload_of fs = mapping (get_field "payload" fs)

-- `session_meta` and `turn_context` records
unfoldable pub describe : Fields → Session → Session
describe fs st =
    if is_text_of (get_field "type" fs) "session_meta"
    then record st {
      project = label (get_field "cwd" (payload_of fs));
      kind = if has_key "subagent" (get_field "source" (payload_of fs)) then "subagent" else "main";
    }
    else if is_text_of (get_field "type" fs) "turn_context"
    then record st { model = label (get_field "model" (payload_of fs)) }
    else st

-- `not key in rates or timestamp > rates[key]["timestamp"]`
abbrev pub is_newer : String → Option Rate → Bool
is_newer timestamp none = true
is_newer timestamp (some r) = not (text_order.before timestamp r.timestamp)

abbrev pub with_rate : RateKey → Rate → Rates → Rates
with_rate key r rates =
    if is_newer r.timestamp (find same_rate key rates) then put same_rate key r rates else rates

abbrev pub info_of : Fields → Fields
info_of fs = mapping (get_field "info" (payload_of fs))

abbrev pub total_of : Fields → Fields
total_of fs = mapping (get_field "total_token_usage" (info_of fs))

abbrev pub is_token_count : Fields → Bool
is_token_count fs = is_text_of (get_field "type" (payload_of fs)) "token_count"

abbrev pub usage_of_delta : Counters → ℕ → Usage
usage_of_delta d context = record {
  input = d.input;
  cache_write = 0;
  cache_read = d.cached;
  output = d.output;
  reasoning = d.reasoning;
  total = d.total;
  turns = 1;
  large_context_turns = if leb 400000 context then 1 else 0;
}

module _ ⦃library : Library⦄ where
  abbrev pub is_in_percent : Json → Bool
  is_in_percent (num n) = leb n 100
  is_in_percent (whole n) = leb n 100
  is_in_percent (real s) = library.is_percent s
  is_in_percent _ = false

  abbrev pub read_limit : String → String → String → Option Json → Rates → Rates
  read_limit limit_id window timestamp none rates = rates
  read_limit limit_id window timestamp (some percent) rates =
      if is_in_percent percent
      then with_rate (limit_id, window) (record { used_percent = percent; timestamp = timestamp })
          rates
      else rates

  abbrev pub read_window : Fields → String → String → Rates → Rates
  read_window limits timestamp window rates =
      read_limit (label (get_field "limit_id" limits)) window timestamp
        (get_field "used_percent" (mapping (get_field window limits))) rates

  abbrev pub read_rates : Fields → Session → Session
  read_rates fs st =
      let limits = mapping (get_field "rate_limits" (payload_of fs)) in
      let timestamp = label (get_field "timestamp" fs) in
      record st {
        is_selected = true;
        rates =
            read_window limits timestamp "secondary"
              (read_window limits timestamp "primary" st.rates);
      }

  -- `day_of(timestamp)`, of the label
  abbrev pub day_at : Fields → String
  day_at fs = day_of (some (str (label (get_field "timestamp" fs))))

  unfoldable pub is_counted : String → String → Fields → String → Bool
  is_counted since filter fs project =
      has_day (day_at fs) && (text_order.before since (day_at fs) && holds_text filter project)

  abbrev pub sample_of : Fields → Counters → Session → Sample
  sample_of fs d st = record {
    day = day_at fs;
    project = st.project;
    kind = st.kind;
    model = st.model;
    usage =
        usage_of_delta d
          (count (get_field "input_tokens" (mapping (get_field "last_token_usage" (info_of fs)))));
  }

  abbrev pub add_sample : Bool → Fields → Counters → Session → Session
  add_sample counted fs d st =
      if counted && is_some_use d
      then record st { samples = st.samples ++ (sample_of fs d st ∷ []) }
      else st

  -- A token count, behind its rate limits.
  unfoldable pub read_total : Bool → Fields → Session → Session
  unfolding delta
  read_total counted fs st =
      if is_nothing (total_of fs)
      then st
      else (let current = counters_of (total_of fs) in
          record (add_sample counted fs (delta current st.previous) st) { previous = current })

  unfoldable pub read_count : String → String → Fields → Session → Session
  unfolding is_counted read_total
  read_count since filter fs st =
      let counted = is_counted since filter fs st.project in
      read_total counted fs (if counted then read_rates fs st else st)

  unfoldable pub codex_record : String → String → Fields → Session → Session
  unfolding describe read_count
  codex_record since filter fs st =
      if is_token_count fs then read_count since filter fs (describe fs st) else describe fs st

  unfoldable pub codex_records : String → String → List Fields → Session → Session
  unfolding codex_record
  codex_records since filter [] st = st
  codex_records since filter (fs ∷ rs) st =
      codex_records since filter rs (codex_record since filter fs st)

  -- What a log starts with; samples and rates are those of the logs before it.
  abbrev pub opened : List Sample → Rates → Session
  opened samples rates = record {
    project = "unknown";
    kind = "main";
    model = "unknown";
    previous = no_counters;
    is_selected = false;
    samples = samples;
    rates = rates;
  }

  unfoldable pub codex_logs :
      String
      → String
      → List Log
      → List Sample × Rates × ℕ × Errors
      → List Sample × Rates × ℕ × Errors
  unfolding records codex_records
  codex_logs since filter [] acc = acc
  codex_logs since filter (log ∷ logs) (samples, rates, files, errors) =
      let (rs, found) = records log in
      let st = codex_records since filter rs (opened samples rates) in
      codex_logs since filter logs (
        st.samples,
        st.rates,
        (if st.is_selected then files + 1 else files),
        add_errors errors found,
      )

  abbrev pub rate_before : RateKey × Rate → RateKey × Rate → Bool
  rate_before ((a, v), _) ((b, w), _) = lex_order.before (a ∷ v ∷ []) (b ∷ w ∷ [])

  unfoldable pub codex : String → String → List Log → Errors → List Sample × Rates × ℕ × Errors
  unfolding codex_logs
  codex since filter logs errors =
      let (samples, rates, files, found) =
        codex_logs since filter (sorted_by log_before logs) ([], [], 0, errors) in
      (samples, sorted_by rate_before rates, files, found)
