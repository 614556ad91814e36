-- ===== src/Tests/BatchTests.antt =====
-- A batch of one task that passed before and passes again.
use prehnite.Prelude.{
  ◌≡◌, ◌↔◌, ◌+◌, refl, [], ◌∷◌, ◌++◌, none, some, list_beq, list_eq, nat_eq, string_eq, filter, all,
  ℕ,
}
use prehnite.Prelude.Int.{pos}
use prehnite.Prelude.Dict.{lookup}
use prehnite.Text.{Str, lit}
use prehnite.Text.Lines.{strip, lstrip, rstrip, is_space, is_line_end, lines, records}
use prehnite.Errors.{ok}
use prehnite.Schemas.{Value}
use prehnite.Trajectory.{read_trajectory}
use prehnite.Server.Branch.{to_str}
use prehnite.Server.Registry.{has_tag, has_difficulty}
use prehnite.Cli.Batch.{
  TrajectoryFile, Machine, Spawned, exited, BatchResult, replace, replace_from, starts_with, newest,
  later, pick, is_new, latest_new_trajectory, last_result, last_event, finish_result, is_passed,
  is_success, outcome_from_trajectory, recent_of, recent_passed_trajectory, status_of_new,
  run_one_ended, run_one, run_or_skip, run_tasks,
}
use prehnite.Cli.Batch.Command.{
  cmd_batch, batch_selected, selected, asked, batch_exit, batch_payload, join_tools,
}
use prehnite.Cli.Batch.Newest.{IsNewest, latest_new_trajectory-IsNewest}
use prehnite.Cli.Batch.Justified.{AllShown, with_tools, cmd_batch-AllShown}
use prehnite.Cli.Batch.Payload.{counted_as, batch_exit-counted_as}
use prehnite.Tests.RunnerTests.{task, host}

abbrev show : Value → Str
show v = []

abbrev file_at : ℕ → TrajectoryFile
file_at mtime = record { path = lit "f"; mtime = mtime; content = lit "{3}" ++ 10 ∷ [] }

abbrev machine : Machine
machine = record { trajectories = (lit "t", file_at 10 ∷ []) ∷ []; now = 100; monotonic = 7 }

abbrev shell : Str → Machine → Spawned × Machine
shell cmd m = (
  exited,
  record m { trajectories = (lit "t", file_at 10 ∷ file_at 105 ∷ []) ∷ []; monotonic = 9 },
)

abbrev result : BatchResult
result = record {
  task_id = lit "t";
  status = lit "passed";
  duration = 2;
  trajectory = some (lit "f");
}

one_result :
    cmd_batch host.codec show 1 shell
      (some (ok (task ∷ [])))
      none
      none
      (lit "a {task_id}")
      (pos 0)
      machine
    ≡ (0, result ∷ [])
unfolding cmd_batch batch_selected selected asked has_tag has_difficulty filter run_tasks
    run_or_skip run_one run_one_ended recent_passed_trajectory latest_new_trajectory newest later
    pick is_new status_of_new outcome_from_trajectory last_result last_event finish_result
    batch_exit is_success all lookup read_trajectory records lines strip lstrip rstrip is_space
    is_line_end list_beq replace replace_from starts_with to_str join_tools is_passed recent_of
one_result = refl

substituted : replace (lit "{task_id}") (lit "t") (lit "a {task_id} b") ≡ lit "a t b"
unfolding replace replace_from starts_with
substituted = refl

cmd_batch-AllShown_example :
    AllShown host.codec show 1 shell
      (with_tools (lit "a"))
      (selected none none (task ∷ []))
      (cmd_batch host.codec show 1 shell
        (some (ok (task ∷ [])))
        none
        none
        (lit "a")
        (pos 0)
        machine).1
      machine
unfolding cmd_batch batch_selected selected asked has_tag has_difficulty filter run_tasks
    run_or_skip run_one run_one_ended recent_passed_trajectory latest_new_trajectory newest later
    pick is_new status_of_new outcome_from_trajectory last_result last_event finish_result
    batch_exit is_success all lookup read_trajectory records lines strip lstrip rstrip is_space
    is_line_end list_beq replace replace_from starts_with to_str join_tools is_passed recent_of
cmd_batch-AllShown_example =
    cmd_batch-AllShown host.codec show 1 shell (task ∷ []) none none (lit "a") (pos 0) machine refl

batch_exit-counted_as_example : (batch_exit (result ∷ []) ≡ 0) ↔ (
    counted_as (lit "passed") (result ∷ []) + counted_as (lit "skipped") (result ∷ [])
    ≡ (batch_payload (result ∷ [])).total_tasks)
batch_exit-counted_as_example = batch_exit-counted_as (result ∷ [])

latest_new_trajectory-IsNewest_example :
    IsNewest 1 5 (latest_new_trajectory 1 (lit "t") machine 5) (file_at 10 ∷ [])
unfolding latest_new_trajectory lookup list_beq
latest_new_trajectory-IsNewest_example = latest_new_trajectory-IsNewest 1 (lit "t") machine 5
