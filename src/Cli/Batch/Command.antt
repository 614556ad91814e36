-- ===== src/Cli/Batch/Command.antt =====
-- `_cmd_batch`: the tasks, the loop, the exit code and the JSON summary without the wall clock.
use prehnite.Prelude.{
  ℕ, ◌+◌, List, [], ◌∷◌, ◌++◌, Option, none, some, length, filter, all, ◌==◌, nat_eq, list_eq,
  if◌then◌else◌,
}
use prehnite.Prelude.Int.{ℤ}
use prehnite.Prelude.Dict.{Dict, lookup, insert}
use prehnite.Text.{Str, lit}
use prehnite.Errors.{Result, ok, err}
use prehnite.Schemas.{Value, Task}
use prehnite.Trajectory.{Codec}
use prehnite.Server.Registry.{has_tag, has_difficulty}
use prehnite.Cli.Batch.{Machine, Spawned, BatchResult, replace, is_success, run_tasks}

abbrev pub mcp_tool_names : List Str
mcp_tool_names =
    lit "list_tasks"
    ∷ lit "describe_task"
    ∷ lit "start_task"
    ∷ lit "exec"
    ∷ lit "note"
    ∷ lit "read_trajectory"
    ∷ lit "fork"
    ∷ lit "revert"
    ∷ lit "finish_task"
    ∷ lit "abort_task"
    ∷ []

-- `",".join(f"mcp__prehnite__{name}" for name in names)`
unfoldable pub join_tools : List Str → Str
join_tools [] = []
join_tools (name ∷ []) = lit "mcp__prehnite__" ++ name
join_tools (name ∷ next ∷ names) =
    lit "mcp__prehnite__" ++ name ++ lit "," ++ join_tools (next ∷ names)

-- `if args.filter_tag:`; an empty text filters nothing.
unfoldable pub asked : Option Str → Option Str
asked (some []) = none
asked o = o

unfoldable pub selected : Option Str → Option Str → List Task → List Task
selected tag difficulty tasks =
    filter (has_difficulty (asked difficulty)) (filter (has_tag (asked tag)) tasks)

pub record BatchPayload : Type 0 where
  pub total_tasks : ℕ
  pub by_status : Dict Str ℕ
  pub failed_task_ids : List Str
  pub tasks : List BatchResult

unfoldable pub count_of : Option ℕ → ℕ
count_of none = 0
count_of (some n) = n

-- `Counter(r.status for r in results)`
unfoldable pub tally : List BatchResult → Dict Str ℕ → Dict Str ℕ
unfolding count_of
tally [] counts = counts
tally (r ∷ rs) counts = tally rs (insert r.status (count_of (lookup r.status counts) + 1) counts)

failed_ids : List BatchResult → List Str
failed_ids [] = []
failed_ids (r ∷ rs) =
    let rest = failed_ids rs in if r.status == lit "failed" then r.task_id ∷ rest else rest

-- `_batch_payload`
unfoldable pub batch_payload : List BatchResult → BatchPayload
unfolding failed_ids
batch_payload results = record {
  total_tasks = length results;
  by_status = tally results [];
  failed_task_ids = failed_ids results;
  tasks = results;
}

-- `0 if all(r.status in ("passed", _SKIPPED) for r in results) else 1`
unfoldable pub batch_exit : List BatchResult → ℕ
batch_exit results = if all (λ (r : BatchResult). is_success r.status) results then 0 else 1

module _ (codec : Codec) (show : Value → Str) (second : ℕ)
    (shell : Str → Machine → Spawned × Machine) where
  unfoldable pub batch_selected : Str → ℤ → List Task → Machine → ℕ × List BatchResult
  batch_selected agent window [] m = (0, [])
  batch_selected agent window (task ∷ tasks) m =
      let tmpl = replace (lit "{tools}") (join_tools mcp_tool_names) agent in
      let (results, m') = run_tasks codec show second shell tmpl window (task ∷ tasks) m in
      (batch_exit results, results)

  -- `_cmd_batch`: the exit code, and the results. What `discover_tasks` gave is `none` if there is no
  -- such directory.
  unfoldable pub cmd_batch :
      Option (Result (List Task))
      → Option Str
      → Option Str
      → Str
      → ℤ
      → Machine
      → ℕ × List BatchResult
  unfolding batch_selected
  cmd_batch none tag difficulty agent window m = (2, [])
  cmd_batch (some (err e)) tag difficulty agent window m = (2, [])
  cmd_batch (some (ok tasks)) tag difficulty agent window m =
      batch_selected agent window (selected tag difficulty tasks) m
