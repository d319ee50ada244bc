-- ===== src/Tokens/Claude.antt =====
-- scripts/agent-token-report.py, `claude`: the messages of the logs, each counted once, and the
-- volume of tool results.
pub mod Best
pub mod Largest
use bazzite_tower.Prelude.{
  ℕ, suc, ◌+◌, max, String, Bool, true, false, ◌&&◌, ◌||◌, not, Option, none, some, List, [], ◌∷◌,
  ◌++◌, ◌==◌, ltb, leb, if◌then◌else◌, ◌=s=◌, member, get_or, is_empty, any, Json, null, bool, num,
  whole, real, str, arr, obj, nil, cons, Fields, end, field, get_field, is_truthy, keys, Dict, find,
  put, is_blank, join, holds_text, text_order, lex_order, sorted_by, Ordered,
}
use bazzite_tower.Tokens.Values.{
  Usage, Sample, Library, count, mapping, label, list_of, is_text_of, content_chars, Errors, Log,
  day_of, records, add_errors, has_day,
}

-- `numbers`
pub record Numbers : Type 0 where
  pub input : ℕ
  pub cache_write : ℕ
  pub cache_read : ℕ
  pub output : ℕ

abbrev pub numbers_of_dict : Fields → Numbers
numbers_of_dict usage = record {
  input = count (get_field "input_tokens" usage);
  cache_write = count (get_field "cache_creation_input_tokens" usage);
  cache_read = count (get_field "cache_read_input_tokens" usage);
  output = count (get_field "output_tokens" usage);
}

abbrev pub numbers_of : Usage → Numbers
numbers_of u = record {
  input = u.input;
  cache_write = u.cache_write;
  cache_read = u.cache_read;
  output = u.output;
}

abbrev pub larger : Numbers → Numbers → Numbers
larger a b = record {
  input = max a.input b.input;
  cache_write = max a.cache_write b.cache_write;
  cache_read = max a.cache_read b.cache_read;
  output = max a.output b.output;
}

-- `current`
abbrev pub usage_of : Numbers → Usage
usage_of n = record {
  input = n.input;
  cache_write = n.cache_write;
  cache_read = n.cache_read;
  output = n.output;
  reasoning = 0;
  total = n.input + n.cache_write + n.cache_read + n.output;
  turns = 1;
  large_context_turns = if leb 400000 (n.input + n.cache_write + n.cache_read) then 1 else 0;
}

-- An assistant record that counts.
pub record Entry : Type 0 where
  pub mid : String
  pub day : String
  pub project : String
  pub kind : String
  pub model : String
  pub numbers : Numbers

abbrev pub Messages : Type 0
Messages = Dict String Sample

abbrev pub merged : Entry → Option Sample → Sample
merged e none = record {
  day = e.day;
  project = e.project;
  kind = e.kind;
  model = e.model;
  usage = usage_of e.numbers;
}
merged e (some previous) = record previous {
  usage = usage_of (larger e.numbers (numbers_of previous.usage));
}

-- `messages[mid] = ...`
unfoldable pub note : Entry → Messages → Messages
note e messages = put ◌=s=◌ e.mid (merged e (find ◌=s=◌ e.mid messages)) messages

abbrev pub note_option : Option Entry → Messages → Messages
note_option none messages = messages
note_option (some e) messages = note e messages

-- The key of a tool result: its record, its tool use, and its place in the record.
abbrev pub ResultKey : Type 0
ResultKey = String × String × ℕ

abbrev pub same_key : ResultKey → ResultKey → Bool
same_key (a, b, i) (c, d, j) = (a =s= c) && ((b =s= d) && (i == j))

pub record State : Type 0 where
  pub messages : Messages
  -- Of the log that is read: the tool of each tool use.
  pub names : Dict String String
  -- Of each tool, how many results and how many characters.
  pub tools : Dict String (ℕ × ℕ)
  pub seen : List ResultKey

abbrev pub name_part : Json → Dict String String → Dict String String
name_part (obj part) names =
    if is_text_of (get_field "type" part) "tool_use"
    then put ◌=s=◌ (label (get_field "id" part)) (label (get_field "name" part)) names
    else names
name_part _ names = names

abbrev pub name_parts : List Json → Dict String String → Dict String String
name_parts [] names = names
name_parts (v ∷ vs) names = name_parts vs (name_part v names)

abbrev pub text_or : String → Option String → String
text_or s none = s
text_or s (some t) = t

abbrev pub pair_or_zero : Option (ℕ × ℕ) → ℕ × ℕ
pair_or_zero none = (0, 0)
pair_or_zero (some p) = p

abbrev pub with_result : String → ℕ → Dict String (ℕ × ℕ) → Dict String (ℕ × ℕ)
with_result name chars tools =
    let (calls, old) = pair_or_zero (find ◌=s=◌ name tools) in
    put ◌=s=◌ name (calls + 1, old + chars) tools

-- A tool result, if its key is new.
unfoldable pub add_result : ResultKey → Fields → State → State
add_result key part st =
    if any (same_key key) st.seen
    then st
    else (let name =
          text_or "unknown" (find ◌=s=◌ (label (get_field "tool_use_id" part)) st.names) in
        record st {
          seen = key ∷ st.seen;
          tools = with_result name (content_chars (get_field "content" part)) st.tools;
        })

abbrev pub result_part : String → ℕ → Json → State → State
result_part source index (obj part) st =
    if is_text_of (get_field "type" part) "tool_result"
    then add_result (source, label (get_field "tool_use_id" part), index) part st
    else st
result_part source index _ st = st

abbrev pub result_parts : String → ℕ → List Json → State → State
result_parts source index [] st = st
result_parts source index (v ∷ vs) st =
    result_parts source (suc index) vs (result_part source index v st)

-- `isinstance(mid, str) and mid`
abbrev pub id_text : Option Json → Option String
id_text (some (str s)) = if is_blank s then none else some s
id_text _ = none

abbrev pub is_nothing : Fields → Bool
is_nothing end = true
is_nothing (field k v fs) = false

module _ ⦃library : Library⦄ (since : String) (log : Log) where
  abbrev pub project_of : String
  project_of = get_or log.parts 0 ""

  abbrev pub kind_of : String
  kind_of = if member "subagents" log.parts then "subagent" else "main"

  -- `str(path)`, below the root
  abbrev pub path_text : String
  path_text = join "/" log.parts

  abbrev pub is_included : Fields → Bool
  is_included fs =
      let day = day_of (get_field "timestamp" fs) in has_day day && text_order.before since day

  abbrev pub message_of : Fields → Fields
  message_of fs = mapping (get_field "message" fs)

  abbrev pub entry_with : Fields → Option String → Option Entry
  entry_with fs none = none
  entry_with fs (some mid) = some (record {
    mid = mid;
    day = day_of (get_field "timestamp" fs);
    project = project_of;
    kind = kind_of;
    model = label (get_field "model" (message_of fs));
    numbers = numbers_of_dict (mapping (get_field "usage" (message_of fs)));
  })

  -- The entry of an assistant record.
  unfoldable pub entry_of : Fields → Option Entry
  entry_of fs =
      if is_included fs && not (is_nothing (mapping (get_field "usage" (message_of fs))))
      then entry_with fs (id_text (get_field "id" (message_of fs)))
      else none

  abbrev pub source_of : Fields → String
  source_of fs = if is_truthy (get_field "uuid" fs) then label (get_field "uuid" fs) else path_text

  abbrev pub is_assistant : Fields → Bool
  is_assistant fs = is_text_of (get_field "type" fs) "assistant"

  -- One record.
  unfoldable pub claude_record : Fields → State → State
  unfolding note entry_of add_result
  claude_record fs st =
      let content = list_of (get_field "content" (message_of fs)) in
      if is_assistant fs
      then record st {
        names = name_parts content st.names;
        messages = note_option (entry_of fs) st.messages;
      }
      else if is_text_of (get_field "type" fs) "user" && is_included fs
      then result_parts (source_of fs) 0 content st
      else st

  unfoldable pub claude_records : List Fields → State → State
  unfolding claude_record
  claude_records [] st = st
  claude_records (fs ∷ rs) st = claude_records rs (claude_record fs st)

abbrev pub is_selected : String → Log → Bool
is_selected filter log = holds_text filter (get_or log.parts 0 "")

abbrev pub no_errors : Errors
no_errors = record { malformed_records = 0; unreadable_files = 0 }

module _ ⦃library : Library⦄ (since filter : String) where
  abbrev pub claude_log : Log → State → State
  claude_log log st = claude_records since log (records log).0 (record st { names = [] })

  -- The loop over the paths.
  unfoldable pub claude_logs : List Log → State × ℕ × Errors → State × ℕ × Errors
  unfolding records claude_records
  claude_logs [] (st, files, errors) = (st, files, errors)
  claude_logs (log ∷ logs) (st, files, errors) = claude_logs logs (
      if is_selected filter log
      then (claude_log log st, files + 1, add_errors errors (records log).1)
      else (st, files, errors))

-- By volume, the largest first, then by name.
abbrev pub tool_before : String × (ℕ × ℕ) → String × (ℕ × ℕ) → Bool
tool_before (a, (_, m)) (b, (_, n)) = ltb n m || ((m == n) && text_order.before a b)

-- `sorted` of paths, by their parts
abbrev pub log_before : Log → Log → Bool
log_before a b = lex_order.before a.parts b.parts

abbrev pub initial : State
initial = record { messages = []; names = []; tools = []; seen = [] }

abbrev pub sample_values : Messages → List Sample
sample_values [] = []
sample_values ((mid, s) ∷ d) = s ∷ sample_values d

module _ ⦃library : Library⦄ (since filter : String) where
  abbrev pub claude_state : List Log → Errors → State × ℕ × Errors
  claude_state logs errors =
      claude_logs since filter (sorted_by log_before logs) (initial, 0, errors)

  -- The samples, the rows of the tools, the number of logs, and the errors.
  unfoldable pub claude : List Log → Errors → List Sample × Dict String (ℕ × ℕ) × ℕ × Errors
  unfolding claude_logs
  claude logs errors =
      let (st, files, found) = claude_state logs errors in
      (sample_values st.messages, sorted_by tool_before st.tools, files, found)
