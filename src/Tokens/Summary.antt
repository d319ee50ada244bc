-- ===== src/Tokens/Summary.antt =====
-- scripts/agent-token-report.py, `summarize` and `report`: the samples added up, in all and by day,
-- project, kind and model. A float is kept as the fraction that it stands for.
pub mod Sums
use bazzite_tower.Prelude.{
  ℕ, ◌+◌, ◌*◌, String, Bool, true, false, Option, none, some, List, [], ◌∷◌, ◌==◌, if◌then◌else◌,
  ◌=s=◌, Dict, find, put, text_order, sorted_by,
}
use bazzite_tower.Tokens.Values.{Usage, no_usage, add_usage, Sample, Library, Errors, Log}
use bazzite_tower.Tokens.Claude.{no_errors, claude}
use bazzite_tower.Tokens.Codex.{Rates, codex}

-- `Usage.index`, in twentieths: the weights are 1, 1.25, 0.1 and 5.
abbrev pub index : Usage → ℕ
index u = 20 * u.input + 25 * u.cache_write + 2 * u.cache_read + 100 * u.output

-- `values`, with the share of large contexts as a fraction
pub record Values : Type 0 where
  pub usage : Usage
  pub cost_index : Option ℕ
  pub share : ℕ × ℕ

abbrev pub values : Bool → Usage → Values
values weighted u = record {
  usage = u;
  cost_index = if weighted then some (index u) else none;
  share = if u.turns == 0 then (0, 1) else (100 * u.large_context_turns, u.turns);
}

abbrev pub Group : Type 0
Group = Dict String Usage

-- `total` and `groups`
pub record Groups : Type 0 where
  pub total : Usage
  pub by_day : Group
  pub by_project : Group
  pub by_kind : Group
  pub by_model : Group

abbrev pub no_groups : Groups
no_groups = record { total = no_usage; by_day = []; by_project = []; by_kind = []; by_model = [] }

-- `group.get(key, Usage())`
abbrev pub usage_or_none : Option Usage → Usage
usage_or_none none = no_usage
usage_or_none (some u) = u

unfoldable pub add_to : String → Usage → Group → Group
add_to key u g = put ◌=s=◌ key (add_usage (usage_or_none (find ◌=s=◌ key g)) u) g

abbrev pub group_sample : Sample → Groups → Groups
group_sample s g = record {
  total = add_usage g.total s.usage;
  by_day = add_to s.day s.usage g.by_day;
  by_project = add_to s.project s.usage g.by_project;
  by_kind = add_to s.kind s.usage g.by_kind;
  by_model = add_to s.model s.usage g.by_model;
}

unfoldable pub group_samples : List Sample → Groups → Groups
unfolding add_to
group_samples [] g = g
group_samples (s ∷ ss) g = group_samples ss (group_sample s g)

abbrev pub key_before : String × Usage → String × Usage → Bool
key_before (a, _) (b, _) = text_order.before a b

-- `tuple({dimension: key, **values(usage)} for key, usage in group)`
abbrev pub rows_of : Bool → Group → List (String × Values)
rows_of weighted [] = []
rows_of weighted ((key, u) ∷ g) = (key, values weighted u) ∷ rows_of weighted g

pub record Summary : Type 0 where
  pub total : Values
  pub by_day : List (String × Values)
  pub by_project : List (String × Values)
  pub by_kind : List (String × Values)
  pub by_model : List (String × Values)

unfoldable pub summarize : Bool → List Sample → Summary
unfolding group_samples
summarize weighted samples =
    let g = group_samples samples no_groups in
    record {
      total = values weighted g.total;
      by_day = rows_of weighted (sorted_by key_before g.by_day);
      by_project = rows_of weighted (sorted_by key_before g.by_project);
      by_kind = rows_of weighted (sorted_by key_before g.by_kind);
      by_model = rows_of weighted (sorted_by key_before g.by_model);
    }

-- A section of the report.
pub record Claude : Type 0 where
  pub summary : Summary
  pub files : ℕ
  pub tools : Dict String (ℕ × ℕ)

pub record Codex : Type 0 where
  pub summary : Summary
  pub files : ℕ
  pub rates : Rates

-- `report`, without the fixed `notes`
pub record Report : Type 0 where
  pub since : String
  pub project_filter : String
  pub claude : Claude
  pub codex : Codex
  pub errors : Errors

module _ ⦃library : Library⦄ where
  unfoldable pub report : List Log → List Log → String → String → Report
  unfolding claude codex summarize
  report claude_logs codex_logs since project =
      let (claude_samples, tools, claude_files, found) =
        claude since project claude_logs no_errors in
      let (codex_samples, rates, codex_files, errors) = codex since project codex_logs found in
      record {
        since = since;
        project_filter = project;
        claude = record {
          summary = summarize true claude_samples;
          files = claude_files;
          tools = tools;
        };
        codex = record {
          summary = summarize false codex_samples;
          files = codex_files;
          rates = rates;
        };
        errors = errors;
      }
