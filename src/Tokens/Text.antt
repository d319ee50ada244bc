-- ===== src/Tokens/Text.antt =====
-- scripts/agent-token-report.py, `text_report`: the report in lines.
use bazzite_tower.Prelude.{
  ℕ, String, ◌<>◌, Bool, ◌&&◌, ◌||◌, Option, none, some, List, [], ◌∷◌, ◌++◌, length, take, ltb,
  ◌==◌, if◌then◌else◌, is_blank, join, Json, text_order, Dict, sorted_by,
}
use bazzite_tower.Tokens.Codex.{Rates}
use bazzite_tower.Tokens.Summary.{Values, Summary, Report}

-- How numbers and texts are formatted: `json.dumps` of a text, an int, a fraction with one digit and with
-- none behind the point, and a percentage as it was read.
pub record Formats : Type 0 where
  pub quoted : String → String
  pub decimal : ℕ → String
  pub one_digit : ℕ × ℕ → String
  pub no_digit : ℕ × ℕ → String
  pub percentage : Json → String

abbrev pub notes : String
notes =
    "Claude index weights 1/1.25/0.1/5; relative index, not dollars. Codex input includes cached input; reasoning is part of output. Tool tokens approximate chars/4."

-- The larger total first, then the smaller name.
abbrev pub row_before : String × Values → String × Values → Bool
row_before (a, v) (b, w) =
    ltb w.usage.total v.usage.total || ((v.usage.total == w.usage.total) && text_order.before a b)

abbrev pub or_all : String → String
or_all filter = if is_blank filter then "all" else filter

module _ ⦃formats : Formats⦄ where
  abbrev pub row_texts : List (String × Values) → List String
  row_texts [] = []
  row_texts ((key, v) ∷ rows) =
      (formats.quoted key <> ("=" <> formats.decimal v.usage.total)) ∷ row_texts rows

  abbrev pub dimension_line : String → List (String × Values) → String
  dimension_line dimension rows =
      "  by "
      <> (dimension
          <> (" (top 3/"
              <> (formats.decimal (length rows)
                  <> ("): " <> join "; " (row_texts (take 3 (sorted_by row_before rows)))))))

  abbrev pub index_text : Option ℕ → String
  index_text none = ""
  index_text (some twentieths) = " index=" <> formats.one_digit (twentieths, 20)

  abbrev pub total_line : String → ℕ → Values → String
  total_line provider files v = join "" (
      provider
      ∷ ": files="
      ∷ formats.decimal files
      ∷ " turns="
      ∷ formats.decimal v.usage.turns
      ∷ " input="
      ∷ formats.decimal v.usage.input
      ∷ " write="
      ∷ formats.decimal v.usage.cache_write
      ∷ " cached="
      ∷ formats.decimal v.usage.cache_read
      ∷ " output="
      ∷ formats.decimal v.usage.output
      ∷ " total="
      ∷ formats.decimal v.usage.total
      ∷ index_text v.cost_index
      ∷ [])

  abbrev pub section_lines : String → ℕ → Summary → List String
  section_lines provider files s =
      total_line provider files s.total
      ∷ ("  >=400k context: "
          <> (formats.decimal s.total.usage.large_context_turns
              <> (" (" <> (formats.one_digit s.total.share <> "%)"))))
      ∷ dimension_line "day" s.by_day
      ∷ dimension_line "project" s.by_project
      ∷ dimension_line "kind" s.by_kind
      ∷ dimension_line "model" s.by_model
      ∷ []

  abbrev pub tool_lines : Dict String (ℕ × ℕ) → List String
  tool_lines [] = []
  tool_lines ((tool, (calls, chars)) ∷ tools) =
      join "" (
        "  "
        ∷ formats.quoted tool
        ∷ ": calls="
        ∷ formats.decimal calls
        ∷ " chars="
        ∷ formats.decimal chars
        ∷ " ~tokens="
        ∷ formats.no_digit (chars, 4)
        ∷ [])
      ∷ tool_lines tools

  abbrev pub rate_lines : Rates → List String
  rate_lines [] = []
  rate_lines (((limit_id, window), rate) ∷ rates) =
      join "" (
        "  "
        ∷ formats.quoted limit_id
        ∷ "/"
        ∷ window
        ∷ ": "
        ∷ formats.percentage rate.used_percent
        ∷ "% at "
        ∷ formats.quoted rate.timestamp
        ∷ [])
      ∷ rate_lines rates

  unfoldable pub text_report : Report → String
  text_report data_of = join "\n" (
      (("Agent token report since "
          <> (data_of.since
              <> (" (project filter: " <> (formats.quoted (or_all data_of.project_filter) <> ")"))))
        ∷ notes
        ∷ [])
      ++ (section_lines "claude" data_of.claude.files data_of.claude.summary
          ++ (section_lines "codex" data_of.codex.files data_of.codex.summary
              ++ (("Claude tool_result volume (top 8; chars and approximate tokens):"
                    ∷ tool_lines (take 8 data_of.claude.tools))
                  ++ (("Codex latest rate_limits.used_percent (top 8 windows):"
                        ∷ rate_lines (take 8 data_of.codex.rates))
                      ++ (("Skipped: malformed="
                            <> (formats.decimal data_of.errors.malformed_records
                                <> (" unreadable_files="
                                    <> formats.decimal data_of.errors.unreadable_files)))
                          ∷ []))))))
