-- ===== src/Tokens/Values.antt =====
-- scripts/agent-token-report.py: the values that are read and added up, and the records of a log.
use bazzite_tower.Prelude.{
  ℕ, suc, ◌+◌, String, Bool, false, not, Option, none, some, List, [], ◌∷◌, if◌then◌else◌, ◌=s=◌,
  Json, null, num, str, arr, obj, Items, nil, cons, Fields, end, get_field, text_take, text_length,
  is_blank,
}

-- `Usage`; `index`, a weighted sum of floats, is computed of it.
pub record Usage : Type 0 where
  pub input : ℕ
  pub cache_write : ℕ
  pub cache_read : ℕ
  pub output : ℕ
  pub reasoning : ℕ
  pub total : ℕ
  pub turns : ℕ
  pub large_context_turns : ℕ

-- `Usage()`
abbrev pub no_usage : Usage
no_usage = record {
  input = 0;
  cache_write = 0;
  cache_read = 0;
  output = 0;
  reasoning = 0;
  total = 0;
  turns = 0;
  large_context_turns = 0;
}

-- `Usage.__add__`
abbrev pub add_usage : Usage → Usage → Usage
add_usage a b = record {
  input = a.input + b.input;
  cache_write = a.cache_write + b.cache_write;
  cache_read = a.cache_read + b.cache_read;
  output = a.output + b.output;
  reasoning = a.reasoning + b.reasoning;
  total = a.total + b.total;
  turns = a.turns + b.turns;
  large_context_turns = a.large_context_turns + b.large_context_turns;
}

pub record Sample : Type 0 where
  pub day : String
  pub project : String
  pub kind : String
  pub model : String
  pub usage : Usage

-- `json.loads` of a line, with no value where it raises; `date.fromisoformat(text).isoformat()`, with no
-- value where it raises; `str` of what is no text; whether a number of any other text is finite and
-- from 0 to 100.
pub record Library : Type 0 where
  pub loads : String → Option Json
  pub iso_date : String → Option String
  pub shown : Json → String
  pub is_percent : String → Bool

-- `count`; a float and a Boolean are no counts.
abbrev pub count : Option Json → ℕ
count (some (num n)) = n
count _ = 0

abbrev pub mapping : Option Json → Fields
mapping (some (obj fs)) = fs
mapping _ = end

abbrev pub or_unknown : String → String
or_unknown s = if is_blank s then "unknown" else s

abbrev pub label : Option Json → String
label (some (str s)) = or_unknown s
label _ = "unknown"

-- `isinstance(value, list)`, else nothing to loop over
abbrev pub listed : Items → List Json
listed nil = []
listed (cons v vs) = v ∷ listed vs

abbrev pub list_of : Option Json → List Json
list_of (some (arr xs)) = listed xs
list_of _ = []

-- `d.get(key) == text`
abbrev pub is_text_of : Option Json → String → Bool
is_text_of (some (str s)) t = s =s= t
is_text_of _ t = false

abbrev pub text_chars : Option Json → ℕ
text_chars (some (str s)) = text_length s
text_chars _ = 0

abbrev pub part_chars : Json → ℕ
part_chars (obj fs) = text_chars (get_field "text" fs)
part_chars _ = 0

abbrev pub parts_chars : Items → ℕ
parts_chars nil = 0
parts_chars (cons v vs) = part_chars v + parts_chars vs

abbrev pub content_chars : Option Json → ℕ
content_chars (some (str s)) = text_length s
content_chars (some (arr xs)) = parts_chars xs
content_chars _ = 0

-- `errors`
pub record Errors : Type 0 where
  pub malformed_records : ℕ
  pub unreadable_files : ℕ

-- A log: the directories and the name below the root, the lines that are read, and whether the file
-- is read to its end.
pub record Log : Type 0 where
  pub parts : List String
  pub lines : List String
  pub is_readable : Bool

module _ ⦃library : Library⦄ where
  abbrev pub shown_value : Option Json → String
  shown_value (some (str s)) = s
  shown_value (some v) = library.shown v
  shown_value none = library.shown null

  abbrev pub or_empty : Option String → String
  or_empty none = String.[]
  or_empty (some s) = s

  -- `day_of`
  abbrev pub day_of : Option Json → String
  day_of value = or_empty (library.iso_date (text_take 10 (shown_value value)))

  abbrev pub dict_of_line : String → Option Fields
  dict_of_line line = elim (library.loads line) [ some (obj fs) ↦ some fs | _ ↦ none ]

  abbrev pub with_record : Option Fields → List Fields × ℕ → List Fields × ℕ
  with_record none (rs, n) = (rs, suc n)
  with_record (some fs) (rs, n) = (fs ∷ rs, n)

  -- The records of the lines, and how many lines hold none.
  abbrev pub read_lines : List String → List Fields × ℕ
  read_lines [] = ([], 0)
  read_lines (line ∷ lines) = with_record (dict_of_line line) (read_lines lines)

  -- `records`, of a log that is read to its end by who calls it
  unfoldable pub records : Log → List Fields × Errors
  records log =
      let (rs, n) = read_lines log.lines in
      (rs, record { malformed_records = n; unreadable_files = if log.is_readable then 0 else 1 })

abbrev pub add_errors : Errors → Errors → Errors
add_errors a b = record {
  malformed_records = a.malformed_records + b.malformed_records;
  unreadable_files = a.unreadable_files + b.unreadable_files;
}

-- `bool(day and day >= since)` needs a day.
abbrev pub has_day : String → Bool
has_day day = not (is_blank day)
