-- ===== src/Tests/Reports.antt =====
-- The theorems on the token report at concrete logs.
use bazzite_tower.Prelude.{
  ℕ, ◌+◌, ◌≤◌, ◌≡◌, refl, String, true, none, some, List, [], ◌∷◌, if◌then◌else◌, ◌=s=◌, num, obj,
  str, Fields, end, field, find,
}
use bazzite_tower.Tokens.Values.{Usage, no_usage, Sample, Library, Log}
use bazzite_tower.Tokens.Claude.{no_errors, claude_state}
use bazzite_tower.Tokens.Claude.Best.{numbers_at, all_entries}
use bazzite_tower.Tokens.Claude.Largest.{Largest, claude-Largest}
use bazzite_tower.Tokens.Codex.{opened, codex_records}
use bazzite_tower.Tokens.Codex.Peaks.{
  total_in, readings, peaks, codex_records-peaks_bound, codex_records-peaks,
}
use bazzite_tower.Tokens.Summary.{no_groups, group_samples, summarize}
use bazzite_tower.Tokens.Summary.Sums.{
  sum_rows, usage_of_key, summarize-rows_total, group_samples-find,
}

-- An answer of a model that used so many tokens.
abbrev answer : String → ℕ → ℕ → Fields
answer mid input output = field "type" (str "assistant") (
    field "timestamp" (str "2026-10-23T08:00:00Z") (
      field "message"
        (obj (
          field "id" (str mid) (
            field "model" (str "opus") (
              field "usage"
                (obj (field "input_tokens" (num input) (field "output_tokens" (num output) end)))
                end))))
        end))

-- A token count that has reached so many tokens.
abbrev reading : ℕ → Fields
reading total = field "timestamp" (str "2026-10-23T08:00:00Z") (
    field "payload"
      (obj (
        field "type" (str "token_count") (
          field "info"
            (obj (field "total_token_usage" (obj (field "total_tokens" (num total) end)) end))
            end)))
      end)

instance abbrev demo_library : Library
demo_library = record {
  loads = λ line.
      if line =s= "a"
      then some (obj (answer "m1" 10 1))
      else if line =s= "b"
      then some (obj (answer "m1" 10 7))
      else if line =s= "c"
      then some (obj (answer "m2" 3 2))
      else none;
  iso_date = λ text. if text =s= "2026-10-23" then some text else none;
  shown = λ v. "None";
  is_percent = λ s. s =s= "12.5";
}

abbrev demo_logs : List Log
demo_logs =
    record { parts = "tower" ∷ "two.jsonl" ∷ []; lines = "b" ∷ "c" ∷ []; is_readable = true }
    ∷ record { parts = "tower" ∷ "one.jsonl" ∷ []; lines = "a" ∷ "{" ∷ []; is_readable = true }
    ∷ []

claude-Largest_example :
    Largest "m1"
      (all_entries "2026-10-01" "tow" demo_logs)
      (numbers_at "m1" (claude_state "2026-10-01" "tow" demo_logs no_errors).0.messages)
claude-Largest_example = claude-Largest "2026-10-01" "tow" demo_logs no_errors "m1"

abbrev demo_session : List Fields
demo_session = reading 100 ∷ reading 250 ∷ reading 40 ∷ reading 60 ∷ []

codex_records-peaks_bound_example :
    total_in (codex_records "2026-10-24" String.[] demo_session (opened [] [])).samples
    ≤ total_in [] + peaks 0 (readings demo_session)
codex_records-peaks_bound_example =
    codex_records-peaks_bound "2026-10-24" String.[] demo_session [] []

codex_records-peaks_example :
    total_in (codex_records "2026-10-01" String.[] demo_session (opened [] [])).samples
    ≡ total_in [] + peaks 0 (readings demo_session)
codex_records-peaks_example =
    codex_records-peaks "2026-10-01" demo_session [] [] (refl, (refl, (refl, (refl, tt))))

peaks_of_demo_session : peaks 0 (readings demo_session) ≡ 310
peaks_of_demo_session = refl

abbrev used : ℕ → Usage
used n = record no_usage { input = n; total = n; turns = 1 }

abbrev demo_samples : List Sample
demo_samples =
    record { day = "2026-10-23"; project = "tower"; kind = "main"; model = "opus"; usage = used 5 }
    ∷ record {
      day = "2026-10-24";
      project = "tower";
      kind = "subagent";
      model = "haiku";
      usage = used 7;
    }
    ∷ []

summarize-rows_total_example :
    (sum_rows (summarize true demo_samples).by_day ≡ (summarize true demo_samples).total.usage)
    × (sum_rows (summarize true demo_samples).by_project
        ≡ (summarize true demo_samples).total.usage)
    × (sum_rows (summarize true demo_samples).by_kind ≡ (summarize true demo_samples).total.usage)
    × (sum_rows (summarize true demo_samples).by_model ≡ (summarize true demo_samples).total.usage)
summarize-rows_total_example = summarize-rows_total true demo_samples

group_samples-find_example :
    (find ◌=s=◌ "tower" (group_samples demo_samples no_groups).by_day
      ≡ usage_of_key (λ s. s.day) "tower" demo_samples)
    × (find ◌=s=◌ "tower" (group_samples demo_samples no_groups).by_project
        ≡ usage_of_key (λ s. s.project) "tower" demo_samples)
    × (find ◌=s=◌ "tower" (group_samples demo_samples no_groups).by_kind
        ≡ usage_of_key (λ s. s.kind) "tower" demo_samples)
    × (find ◌=s=◌ "tower" (group_samples demo_samples no_groups).by_model
        ≡ usage_of_key (λ s. s.model) "tower" demo_samples)
group_samples-find_example = group_samples-find demo_samples "tower"
