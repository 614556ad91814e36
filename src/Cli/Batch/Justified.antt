-- ===== src/Cli/Batch/Justified.antt =====
-- What an exit code of 0 means.
use prehnite.Prelude.{
  ℕ, zero, suc, sym, string_eq, ◌+◌, ◌≤◌, ◌⊎◌, ◌≡◌, refl, true, List, [], ◌∷◌, Option, none, some,
  arith, all, ltb, inl, inr, Bool-cases, nat_eq, list_eq, list_beq, list_beq_iff,
}
use prehnite.Prelude.Int.{ℤ, pos, negsuc}
use prehnite.Prelude.Dict.{lookup}
use prehnite.Text.{Str, lit}
use prehnite.Errors.{ok}
use prehnite.Schemas.{Value, null, bool, int, str, array, object, Task}
use prehnite.Trajectory.{Codec, read_trajectory}
use prehnite.Server.Branch.{to_str}
use prehnite.Cli.Batch.{
  TrajectoryFile, Machine, Spawned, exited, timed_out, not_started, BatchResult, newest, files_of,
  last_result, replace, latest_new_trajectory, is_passed, is_success, outcome_text,
  outcome_from_trajectory, recent_of, recent_passed_trajectory, status_of_new, run_one_ended,
  run_one, run_or_skip, run_tasks,
}
use prehnite.Cli.Batch.Success.{TellsSuccess, outcome-TellsSuccess}
use prehnite.Cli.Batch.Newest.{IsAmong, filter-IsAmong, newest-IsAmong}
use prehnite.Cli.Batch.Command.{
  batch_exit, batch_selected, cmd_batch, selected, join_tools, mcp_tool_names,
}

-- The agent's command with the names of the tools in it.
abbrev pub with_tools : Str → Str
with_tools agent = replace (lit "{tools}") (join_tools mcp_tool_names) agent

module _ (codec : Codec) (show : Value → Str) where
  -- How a task comes to its result, by the machine before and the machine after: it is skipped, or the
  -- shell runs its command and the file is what this run left, with the status that it says.
  abbrev pub IsReached :
      ℕ
      → (Str → Machine → Spawned × Machine)
      → Str
      → BatchResult
      → TrajectoryFile
      → Machine
      → Machine
      → Type 0
  IsReached second shell cmd r file m m' =
      ((r.status ≡ lit "skipped") × (m' ≡ m))
      ⊎ ((m' ≡ (shell cmd m).1)
          × (m.now ≤ file.mtime + second)
          × (r.status ≡ outcome_from_trajectory codec show file.content))

  module _ (second : ℕ) (shell : Str → Machine → Spawned × Machine) (tmpl : Str) where
    -- The result names one of the files that stand under the task's directory after it, and this file
    -- tells of success.
    pub record IsShown (task : Task) (r : BatchResult) (m m' : Machine) : Type 0 where
      pub file : TrajectoryFile
      pub same_task : r.task_id ≡ task.id
      pub listed : IsAmong file (files_of (lookup task.id m'.trajectories))
      pub named : r.trajectory ≡ some file.path
      pub reached : IsReached second shell (replace (lit "{task_id}") task.id tmpl) r file m m'
      pub succeeded : TellsSuccess codec show file.content

    -- One result for each task, in order, each shown by the machine that it leaves to the next.
    abbrev pub AllShown : List Task → List BatchResult → Machine → Type 0
    AllShown [] [] m = Unit
    AllShown [] (r ∷ rs) m = ⊥
    AllShown (task ∷ tasks) [] m = ⊥
    AllShown (task ∷ tasks) (r ∷ rs) m = (m' : Machine) × IsShown task r m m' × AllShown tasks rs m'

  passed_outcome :
      (v : Option (Option Value)) → is_passed v ≡ true → outcome_text show v ≡ lit "passed"
  unfolding is_passed outcome_text to_str
  passed_outcome none h = cc
  passed_outcome (some none) h = cc
  passed_outcome (some (some (str s))) h = (list_beq_iff s (lit "passed")).0 h
  passed_outcome (some (some null)) h = cc
  passed_outcome (some (some (bool b))) h = cc
  passed_outcome (some (some (int n))) h = cc
  passed_outcome (some (some (array vs))) h = cc
  passed_outcome (some (some (object fs))) h = cc

  -- A file of the task that tells of success, if there is one.
  abbrev HasPassed : List TrajectoryFile → Option TrajectoryFile → Type 0
  HasPassed fs none = Unit
  HasPassed fs (some f) =
      IsAmong f fs × (is_success (outcome_from_trajectory codec show f.content) ≡ true)

module _ (codec : Codec) (show : Value → Str) (second : ℕ) where
  recent_of-HasPassed :
      (window now : ℕ) (fs : List TrajectoryFile) (found : Option TrajectoryFile)
      → newest fs ≡ found
      → HasPassed codec show fs (recent_of codec show second window now found)
  unfolding recent_of outcome_from_trajectory is_success list_beq
  recent_of-HasPassed window now fs none e = tt
  recent_of-HasPassed window now fs (some f) e = elim (Bool-cases (ltb (f.mtime + window) now)) [
    | inl old ↦ simp old tt
    | inr young ↦
        simp young
          (elim (Bool-cases (is_passed (last_result (read_trajectory codec (some f.content))))) [
            | inl p ↦ simp p (
              newest-IsAmong fs f e,
              rw
                  (passed_outcome codec show (last_result (read_trajectory codec (some f.content)))
                    p)
                  refl,
            )
            | inr q ↦ simp q tt
          ])
  ]

  recent_passed_trajectory-HasPassed :
      (task_id : Str) (m : Machine) (window : ℤ)
      → HasPassed codec show
          (files_of (lookup task_id m.trajectories))
          (recent_passed_trajectory codec show second task_id m window)
  unfolding recent_passed_trajectory
  recent_passed_trajectory-HasPassed task_id m (negsuc n) = tt
  recent_passed_trajectory-HasPassed task_id m (pos zero) = tt
  recent_passed_trajectory-HasPassed task_id m (pos (suc n)) =
      recent_of-HasPassed (suc n) m.now (files_of (lookup task_id m.trajectories)) _ refl

  module _ (shell : Str → Machine → Spawned × Machine) where
    -- The run's own file, with the status that it tells.
    abbrev IsTelling : Str → ℕ → Machine → Str × Option Str → Type 0
    IsTelling task_id since m (status, traj) =
        (f : TrajectoryFile) × (traj ≡ some f.path)
        × (status ≡ outcome_from_trajectory codec show f.content)
        × IsAmong f (files_of (lookup task_id m.trajectories))
        × (since ≤ f.mtime + second)

    status_of_new-IsTelling :
        (task_id : Str) (since : ℕ) (m : Machine) (found : Option TrajectoryFile)
        → latest_new_trajectory second task_id m since ≡ found
        → is_success (status_of_new codec show second shell found).0 ≡ true
        → IsTelling task_id since m (status_of_new codec show second shell found)
    unfolding status_of_new is_success list_beq latest_new_trajectory
    status_of_new-IsTelling task_id since m none e h = cc
    status_of_new-IsTelling task_id since m (some f) e h =
        let (a, b) = filter-IsAmong second since f _ (newest-IsAmong _ f e) in (f, refl, refl, a, b)

    run_one_ended-IsTelling :
        (task_id : Str) (started_at : ℕ) (ended : Spawned × Machine)
        → is_success (run_one_ended codec show second shell task_id started_at ended).0 ≡ true
        → IsTelling task_id started_at ended.1
            (run_one_ended codec show second shell task_id started_at ended)
    unfolding run_one_ended is_success list_beq
    run_one_ended-IsTelling task_id started_at (exited, m) h =
        status_of_new-IsTelling task_id started_at m _ refl h
    run_one_ended-IsTelling task_id started_at (timed_out, m) h = cc
    run_one_ended-IsTelling task_id started_at (not_started, m) h = cc

    run_or_skip-IsShown :
        (tmpl : Str) (task : Task) (m : Machine) (recent : Option TrajectoryFile)
        → HasPassed codec show (files_of (lookup task.id m.trajectories)) recent
        → is_success (run_or_skip codec show second shell tmpl task m recent).0.status ≡ true
        → let (r, m') = run_or_skip codec show second shell tmpl task m recent in
          IsShown codec show second shell tmpl task r m m'
    unfolding run_or_skip run_one
    run_or_skip-IsShown tmpl task m (some f) p h = record {
      file = f;
      same_task = refl;
      listed = p.0;
      named = refl;
      reached = inl (refl, refl);
      succeeded = outcome-TellsSuccess codec show f.content p.1;
    }
    run_or_skip-IsShown tmpl task m none p h =
        let (f, n, s, a, t) = run_one_ended-IsTelling task.id m.now _ h in
        record {
          file = f;
          same_task = refl;
          listed = a;
          named = n;
          reached = inr (refl, t, s);
          succeeded = outcome-TellsSuccess codec show f.content (rw (sym s) h);
        }

    all_cons :
        (r : BatchResult) (rs : List BatchResult)
        → all (λ (r : BatchResult). is_success r.status) (r ∷ rs) ≡ true
        → (is_success r.status ≡ true) × (all (λ (r : BatchResult). is_success r.status) rs ≡ true)
    unfolding all
    all_cons r rs h = ground (arith, h)

    run_tasks-AllShown :
        (tmpl : Str) (window : ℤ) (tasks : List Task) (m : Machine)
        → all
            (λ (r : BatchResult). is_success r.status)
            (run_tasks codec show second shell tmpl window tasks m).0
          ≡ true
        → AllShown codec show second shell tmpl tasks
            (run_tasks codec show second shell tmpl window tasks m).0
            m
    unfolding run_tasks
    run_tasks-AllShown tmpl window [] m h = tt
    run_tasks-AllShown tmpl window (task ∷ tasks) m h =
        let recent = recent_passed_trajectory codec show second task.id m window in
        let (a, b) = all_cons _ _ h in
        let m' = (run_or_skip codec show second shell tmpl task m recent).1 in
        (
          m',
          run_or_skip-IsShown tmpl task m recent
              (recent_passed_trajectory-HasPassed task.id m window) a,
          run_tasks-AllShown tmpl window tasks m' b,
        )

    exit_all :
        (rs : List BatchResult)
        → batch_exit rs ≡ 0
        → all (λ (r : BatchResult). is_success r.status) rs ≡ true
    unfolding batch_exit
    exit_all rs h = ground (arith, h)

    batch_selected-AllShown :
        (agent : Str) (window : ℤ) (tasks : List Task) (m : Machine)
        → (batch_selected codec show second shell agent window tasks m).0 ≡ 0
        → AllShown codec show second shell
            (with_tools agent)
            tasks
            (batch_selected codec show second shell agent window tasks m).1
            m
    unfolding batch_selected
    batch_selected-AllShown agent window [] m h = tt
    batch_selected-AllShown agent window (task ∷ tasks) m h =
        run_tasks-AllShown _ window (task ∷ tasks) m (exit_all _ h)

    -- If `prehnite batch` exits with 0, then each task that it selected has one result, in order. Each
    -- result names one of the files that stand under the task's directory after it, and the last event
    -- of this file is a run_finished event that says "passed" or "skipped"; the task was skipped and
    -- the machine left as it was, or the shell ran the agent's command for it, and the file changed no
    -- earlier than a second before this run. So a run that timed out, left no trajectory or did not
    -- finish is never counted as success.
    pub cmd_batch-AllShown :
        (tasks : List Task) (tag difficulty : Option Str) (agent : Str) (window : ℤ) (m : Machine)
        → (cmd_batch codec show second shell (some (ok tasks)) tag difficulty agent window m).0 ≡ 0
        → AllShown codec show second shell
            (with_tools agent)
            (selected tag difficulty tasks)
            (cmd_batch codec show second shell (some (ok tasks)) tag difficulty agent window m).1
            m
    unfolding cmd_batch
    cmd_batch-AllShown tasks tag difficulty agent window m h =
        batch_selected-AllShown agent window (selected tag difficulty tasks) m h
