-- ===== src/Tests/CliTests.antt =====
-- Statistics of four runs of two tasks, and the comparison of two snapshots.
use prehnite.Prelude.{
  Option, ℕ, ◌+◌, ◌≡◌, ◌≤◌, ◌↔◌, refl, List, [], ◌∷◌, ◌++◌, map, none, some, count, list_eq, nat_eq,
  string_eq, String, list_beq,
}
use prehnite.Prelude.Int.{pos, negsuc, ◌-ℤ◌}
use prehnite.Prelude.Dict.{lookup, keys}
use prehnite.Text.{Str, lit, str_ltb}
use prehnite.Text.Order.{sorted_set, insert_sorted}
use prehnite.Schemas.{Value, int, Payload}
use prehnite.Trajectory.{to_int, read_trajectory}
use prehnite.Cli.Summary.{Timestamp, RunSummary, empty_summary}
use prehnite.Cli.Stats.{Runs, group_id, Row, row_of, per_task_rows, overall_metrics, has_outcome}
use prehnite.Errors.{json_error}
use prehnite.Text.Lines.{strip, lstrip, rstrip, is_space, is_line_end, lines, records}
use prehnite.Cli.Stats.Command.{load_runs}
use prehnite.Cli.Stats.Top.{AreTop, top_failure_reasons-AreTop}
use prehnite.Cli.Stats.Command.{top_failure_reasons}
use prehnite.Cli.Stats.Printed.{load_runs-skip}
use prehnite.Tests.RunnerTests.{host}
use prehnite.Cli.Stats.Rows.{runs_of, per_task_rows_lem}
use prehnite.Cli.Stats.Totals.{sum_over, per_task_rows_total, overall_metrics_bounds}
use prehnite.Cli.Compare.{
  Diff, Snapshot, pass_rate_of, diff_task, diff_snapshots, compare_exit, compare_payload,
  regression, improvement, unchanged, new, dropped, status_of_delta,
}
use prehnite.Cli.Compare.Swap.{mirror_all, diff_snapshots-swap}
use prehnite.Cli.Compare.Exit.{IsLower, compare_exit-IsLower}
use prehnite.Cli.Compare.Tasks.{IdsAndSides, tasks_with, diff_snapshots-tasks}

abbrev run : String → String → ℕ → RunSummary
run task outcome commands = record empty_summary {
  task_id = some (lit task);
  outcome = lit outcome;
  agent_cmd_count = commands;
}

abbrev four_runs : Runs
four_runs = run "b" "passed" 3 ∷ run "a" "failed" 1 ∷ run "b" "error" 4 ∷ empty_summary ∷ []

per_task_rows_lem_example :
    per_task_rows four_runs
    ≡ map (λ tid. row_of tid (runs_of tid four_runs)) (sorted_set (map group_id four_runs))
per_task_rows_lem_example = per_task_rows_lem four_runs

per_task_rows_total_example :
    (sum_over (λ (r : Row). r.runs) (per_task_rows four_runs)
      ≡ (overall_metrics four_runs).total_runs)
    × (sum_over (λ (r : Row). r.passed) (per_task_rows four_runs)
        ≡ (overall_metrics four_runs).total_passed)
    × (sum_over (λ (r : Row). r.failed) (per_task_rows four_runs)
        ≡ count (has_outcome (lit "failed")) four_runs)
    × (sum_over (λ (r : Row). r.errored) (per_task_rows four_runs)
        ≡ count (has_outcome (lit "error")) four_runs)
per_task_rows_total_example = per_task_rows_total four_runs

overall_metrics_bounds_example :
    ((overall_metrics four_runs).pass_rate ≤ 100)
    × ((overall_metrics four_runs).thoughts_pct ≤ 100)
    × ((overall_metrics four_runs).egress_allowed + (overall_metrics four_runs).egress_denied
        ≡ (overall_metrics four_runs).total_egress)
overall_metrics_bounds_example = overall_metrics_bounds four_runs

abbrev rate : ℕ → Payload
rate n = ("pass_rate", int (pos n)) ∷ []

abbrev before : Snapshot
before = (lit "x", rate 100) ∷ (lit "y", rate 50) ∷ (lit "w", []) ∷ []

abbrev after : Snapshot
after = (lit "y", rate 75) ∷ (lit "x", rate 0) ∷ (lit "v", rate 10) ∷ []

abbrev diffs : List Diff
diffs =
    (record {
      task_id = lit "v";
      status = new;
      a = none;
      b = some (rate 10);
      delta_pass_rate = none;
    })
    ∷ (record {
      task_id = lit "w";
      status = dropped;
      a = some [];
      b = none;
      delta_pass_rate = none;
    })
    ∷ (record {
      task_id = lit "x";
      status = regression;
      a = some (rate 100);
      b = some (rate 0);
      delta_pass_rate = some (negsuc 99);
    })
    ∷ (record {
      task_id = lit "y";
      status = improvement;
      a = some (rate 50);
      b = some (rate 75);
      delta_pass_rate = some (pos 25);
    })
    ∷ []

diffs_lem : diff_snapshots before after ≡ some diffs
unfolding diff_snapshots diff_task sorted_set insert_sorted keys lookup pass_rate_of to_int
    status_of_delta ◌-ℤ◌ str_ltb list_beq
diffs_lem = refl

diff_snapshots-swap_example : diff_snapshots after before ≡ mirror_all (diff_snapshots before after)
diff_snapshots-swap_example = diff_snapshots-swap before after

compare_exit-IsLower_example :
    (compare_exit diffs ≡ 1) ↔ ((tid : Str) × IsLower (lookup tid before) (lookup tid after))
compare_exit-IsLower_example = compare_exit-IsLower before after diffs diffs_lem

diff_snapshots-tasks_example :
    (IdsAndSides before after (sorted_set (keys before ++ keys after)) diffs)
    × ((compare_payload diffs).regressions ≡ tasks_with regression diffs)
    × ((compare_payload diffs).improvements ≡ tasks_with improvement diffs)
    × ((compare_payload diffs).unchanged_tasks ≡ tasks_with unchanged diffs)
    × ((compare_payload diffs).new_tasks ≡ tasks_with new diffs)
    × ((compare_payload diffs).dropped_tasks ≡ tasks_with dropped diffs)
diff_snapshots-tasks_example = diff_snapshots-tasks before after diffs diffs_lem

top_failure_reasons-AreTop_example : AreTop four_runs 1 (top_failure_reasons four_runs 1)
top_failure_reasons-AreTop_example = top_failure_reasons-AreTop four_runs 1

abbrev show : Value → Str
show v = []

abbrev parse_ts : Str → Option Timestamp
parse_ts ts = none

-- One readable run, and one file that is no JSON.
abbrev good_file : Str
good_file = lit "{3}" ++ 10 ∷ []

abbrev bad_file : Str
bad_file = lit "{"

load_runs-skip_example :
    load_runs host.codec show parse_ts none (good_file ∷ bad_file ∷ [])
    ≡ load_runs host.codec show parse_ts none (good_file ∷ [])
unfolding read_trajectory records lines strip lstrip rstrip is_space is_line_end
load_runs-skip_example =
    load_runs-skip host.codec show parse_ts none (good_file ∷ []) [] bad_file json_error refl
