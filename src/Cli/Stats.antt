-- ===== src/Cli/Stats.antt =====
-- `prehnite stats`: one row per task, and the overall metrics. Medians are kept twice as large, which
-- makes them whole numbers, and are not rounded to one decimal.
pub mod Command
pub mod Reasons
pub mod Top
pub mod Printed
pub mod Rows
pub mod Totals
use prehnite.Prelude.{
  ℕ, zero, suc, ◌+◌, ◌-◌, ◌*◌, ◌/◌, ◌%◌, ◌<◌, Bool, true, false, not, ◌&&◌, ◌||◌, List, [], ◌∷◌,
  ◌++◌, Option, none, some, ltb, leb, length, count, filter, get_or, ◌==◌, nat_eq, string_eq,
  list_eq, if◌then◌else◌,
}
use prehnite.Prelude.Int.{ℤ, pos, negsuc, ◌+ℤ◌, ltb_ℤ}
use prehnite.Prelude.Dict.{Dict, lookup, insert, keys}
use prehnite.Text.{Str, lit}
use prehnite.Text.Order.{sorted_set}
use prehnite.Schemas.{
  Value, null, bool, int, str, array, object, Items, no_items, item, Fields, no_fields, field,
  Payload, EventType, run_started, setup_command, agent_command, agent_thought, egress_attempt,
  session_forked, session_reverted, verify_command, run_finished, TrajectoryEvent,
}
use prehnite.Server.Branch.{to_str}
use prehnite.Trajectory.{to_int}
use prehnite.Cli.Summary.{RunSummary}

abbrev pub Runs : Type 0
Runs = List RunSummary

-- `r.task_id or "(unknown)"`
unfoldable pub group_id : RunSummary → Str
group_id r = elim r.task_id [
  | none ↦ lit "(unknown)"
  | some s ↦ if s == [] then lit "(unknown)" else s
]

-- The list under a key that may be missing.
pub or_nil : Option Runs → Runs
or_nil none = []
or_nil (some rs) = rs

-- `by_task.setdefault(tid, []).append(r)`
append_to : Str → RunSummary → Dict Str Runs → Dict Str Runs
append_to tid r by_task = insert tid (or_nil (lookup tid by_task) ++ (r ∷ [])) by_task

unfoldable pub group : Runs → Dict Str Runs → Dict Str Runs
unfolding append_to or_nil
group [] by_task = by_task
group (r ∷ rs) by_task = group rs (append_to (group_id r) r by_task)

-- `r.outcome == name`
abbrev pub has_outcome : Str → RunSummary → Bool
has_outcome name r = r.outcome == name

unfoldable pub has_thought : RunSummary → Bool
has_thought r = ltb 0 r.thought_count

-- `(part * 100) // total if total else 0`
unfoldable pub percent : ℕ → ℕ → ℕ
percent part total = if total == 0 then 0 else part * 100 / total

-- `sorted(xs)` of numbers
insert_by {ℓ} : {A : Type ℓ} → (A → A → Bool) → A → List A → List A
insert_by less x [] = x ∷ []
insert_by less x (y ∷ ys) =
    let rest = insert_by less x ys in if less y x then y ∷ rest else x ∷ y ∷ ys

sort_by {ℓ} : {A : Type ℓ} → (A → A → Bool) → List A → List A
sort_by less [] = []
sort_by less (x ∷ xs) = insert_by less x (sort_by less xs)

-- Twice `statistics.median`, and 0 of nothing.
unfoldable pub median_twice {ℓ} : {A : Type ℓ} → A → (A → A → Bool) → (A → A → A) → List A → A
unfolding insert_by sort_by
median_twice zero' less add xs =
    let sorted = sort_by less xs in
    let n = length xs in
    let upper = get_or sorted (n / 2) zero' in
    if n % 2 == 1 then add upper upper else add (get_or sorted (n / 2 - 1) zero') upper

pub record Row : Type 0 where
  pub task_id : Str
  pub runs : ℕ
  pub passed : ℕ
  pub failed : ℕ
  pub errored : ℕ
  pub pass_rate : ℕ
  pub median_cmds_twice : ℕ
  pub median_duration_twice : ℤ
  pub thoughts_pct : ℕ

command_counts : Runs → List ℕ
command_counts [] = []
command_counts (r ∷ rs) = r.agent_cmd_count ∷ command_counts rs

-- `[r.duration_s for r in rs if r.duration_s is not None]`
durations : Runs → List ℤ
durations [] = []
durations (r ∷ rs) = elim r.duration_s [ none ↦ durations rs | some d ↦ d ∷ durations rs ]

unfoldable pub row_of : Str → Runs → Row
unfolding command_counts durations
row_of tid rs = record {
  task_id = tid;
  runs = length rs;
  passed = count (has_outcome (lit "passed")) rs;
  failed = count (has_outcome (lit "failed")) rs;
  errored = count (has_outcome (lit "error")) rs;
  pass_rate = percent (count (has_outcome (lit "passed")) rs) (length rs);
  median_cmds_twice = median_twice 0 ltb ◌+◌ (command_counts rs);
  median_duration_twice = median_twice (pos 0) ltb_ℤ ◌+ℤ◌ (durations rs);
  thoughts_pct = percent (count has_thought rs) (length rs);
}

-- `for tid in sorted(by_task): rs = by_task[tid]`; the keys are there.
rows_for : List Str → Dict Str Runs → List Row
rows_for [] by_task = []
rows_for (tid ∷ tids) by_task = row_of tid (or_nil (lookup tid by_task)) ∷ rows_for tids by_task

unfoldable pub per_task_rows : Runs → List Row
unfolding rows_for
per_task_rows runs = let by_task = group runs [] in rows_for (sorted_set (keys by_task)) by_task

pub record Overall : Type 0 where
  pub total_runs : ℕ
  pub total_passed : ℕ
  pub pass_rate : ℕ
  pub total_thoughts : ℕ
  pub runs_with_thoughts : ℕ
  pub thoughts_pct : ℕ
  pub total_egress : ℕ
  pub egress_allowed : ℕ
  pub egress_denied : ℕ

is_allowed : Str × ℤ × Bool → Bool
is_allowed (host, port, allowed) = allowed

sum_thoughts : Runs → ℕ
sum_thoughts [] = 0
sum_thoughts (r ∷ rs) = r.thought_count + sum_thoughts rs

sum_egress : Runs → ℕ
sum_egress [] = 0
sum_egress (r ∷ rs) = length r.egress + sum_egress rs

sum_allowed : Runs → ℕ
unfolding is_allowed
sum_allowed [] = 0
sum_allowed (r ∷ rs) = count is_allowed r.egress + sum_allowed rs

unfoldable pub overall_metrics : Runs → Overall
unfolding sum_thoughts sum_egress sum_allowed
overall_metrics runs = record {
  total_runs = length runs;
  total_passed = count (has_outcome (lit "passed")) runs;
  pass_rate = percent (count (has_outcome (lit "passed")) runs) (length runs);
  total_thoughts = sum_thoughts runs;
  runs_with_thoughts = count has_thought runs;
  thoughts_pct = percent (count has_thought runs) (length runs);
  total_egress = sum_egress runs;
  egress_allowed = sum_allowed runs;
  egress_denied = sum_egress runs - sum_allowed runs;
}
