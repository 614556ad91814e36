-- ===== src/Cli/Stats/Command.antt =====
-- `_cmd_stats`: the trajectories that are read, the failure reasons, and what `--json` prints. A
-- directory is the contents of its `.jsonl` files, in order.
use prehnite.Prelude.{
  ℕ, ◌+◌, Bool, true, false, not, ◌&&◌, List, [], ◌∷◌, Option, none, some, ltb, take, ◌==◌, nat_eq,
  list_eq, if◌then◌else◌,
}
use prehnite.Prelude.Dict.{Dict, lookup, insert}
use prehnite.Text.{Str, lit}
use prehnite.Errors.{Result, ok, err}
use prehnite.Schemas.{Value, TrajectoryEvent}
use prehnite.Trajectory.{Codec, read_trajectory}
use prehnite.Cli.Summary.{Timestamp, RunSummary, summarize}
use prehnite.Cli.Stats.{Runs, Row, per_task_rows, Overall, overall_metrics, has_outcome}

-- `r.outcome != "passed" and r.reason`
unfoldable pub has_failed : RunSummary → Bool
has_failed r = not (has_outcome (lit "passed") r) && not (r.reason == [])

unfoldable pub number_of : Option ℕ → ℕ
number_of none = 0
number_of (some n) = n

-- `Counter(r.reason for r in runs if …)`
unfoldable pub reason_counts : Runs → Dict Str ℕ → Dict Str ℕ
unfolding number_of
reason_counts [] counts = counts
reason_counts (r ∷ rs) counts = reason_counts rs (
    if has_failed r
    then insert r.reason (number_of (lookup r.reason counts) + 1) counts
    else counts)

unfoldable pub insert_ranked : Str × ℕ → List (Str × ℕ) → List (Str × ℕ)
insert_ranked x [] = x ∷ []
insert_ranked x (y ∷ ys) =
    let rest = insert_ranked x ys in if ltb x.1 y.1 then y ∷ rest else x ∷ y ∷ ys

-- `c.most_common()`: by count, the highest first; equal counts in the order of their first run.
unfoldable pub ranked : List (Str × ℕ) → List (Str × ℕ)
ranked [] = []
ranked (x ∷ xs) = insert_ranked x (ranked xs)

-- `_top_failure_reasons`
unfoldable pub top_failure_reasons : Runs → ℕ → List (Str × ℕ)
top_failure_reasons runs n = take n (ranked (reason_counts runs []))

pub record StatsPayload : Type 0 where
  pub overall : Overall
  pub top_failure_reasons : List (Str × ℕ)
  pub by_task : List Row

-- What `_print_stats_json` prints.
unfoldable pub stats_payload : Runs → StatsPayload
stats_payload runs = record {
  overall = overall_metrics runs;
  top_failure_reasons = top_failure_reasons runs 5;
  by_task = per_task_rows runs;
}

abbrev pub empty_stats_payload : StatsPayload
empty_stats_payload = record {
  overall = record {
    total_runs = 0;
    total_passed = 0;
    pass_rate = 0;
    total_thoughts = 0;
    runs_with_thoughts = 0;
    thoughts_pct = 0;
    total_egress = 0;
    egress_allowed = 0;
    egress_denied = 0;
  };
  top_failure_reasons = [];
  by_task = [];
}

is_task : Str → Option Str → Bool
is_task name none = false
is_task name (some t) = t == name

-- `not (args.task and summary.task_id != args.task)`
unfoldable pub is_wanted : Option Str → RunSummary → Bool
unfolding is_task
is_wanted none s = true
is_wanted (some []) s = true
is_wanted (some (c ∷ name)) s = is_task (c ∷ name) s.task_id

-- How `_cmd_stats` ends: no such directory, a `ValueError` or `TypeError`, or what it prints.
pub data StatsOutcome : Type 0 where
  not_found raised : StatsOutcome
  printed : StatsPayload → StatsOutcome

module _ (codec : Codec) (show : Value → Str) (parse_ts : Str → Option Timestamp)
    (task : Option Str) where
  pub add_summary : Option RunSummary → Option Runs → Option Runs
  add_summary none rest = none
  add_summary (some s) none = none
  add_summary (some s) (some runs) = some (if is_wanted task s then s ∷ runs else runs)

  unfoldable pub add_file : Result (List TrajectoryEvent) → Option Runs → Option Runs
  add_file (err e) rest = rest
  add_file (ok events) rest = add_summary (summarize show parse_ts events) rest

  -- The loop over the files; a file that cannot be read is skipped.
  unfoldable pub load_runs : List Str → Option Runs
  unfolding add_file add_summary
  load_runs [] = some []
  load_runs (content ∷ contents) =
      let rest = load_runs contents in add_file (read_trajectory codec (some content)) rest

  unfoldable pub outcome_of : Option Runs → StatsOutcome
  outcome_of none = raised
  outcome_of (some []) = printed empty_stats_payload
  outcome_of (some (r ∷ rs)) = printed (stats_payload (r ∷ rs))

  -- `_cmd_stats` with `--json`; `none` is a path that is no directory.
  unfoldable pub cmd_stats : Option (List Str) → StatsOutcome
  unfolding outcome_of
  cmd_stats none = not_found
  cmd_stats (some []) = printed empty_stats_payload
  cmd_stats (some (f ∷ fs)) = outcome_of (load_runs (f ∷ fs))
