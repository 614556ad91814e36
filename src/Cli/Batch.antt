-- ===== src/Cli/Batch.antt =====
-- `prehnite batch`: one agent per task, one after the other. The shell is a parameter: a run of it
-- changes the trajectories and the clocks. Times are numbers of some tick, `second` of which make a
-- second; durations are not rounded.
pub mod Command
pub mod Newest
pub mod Success
pub mod Justified
pub mod Payload
use prehnite.Prelude.{
  ℕ, zero, suc, ◌+◌, ◌-◌, Bool, true, false, not, ◌&&◌, ◌||◌, List, [], ◌∷◌, ◌++◌, Option, none,
  some, ltb, leb, length, filter, map, ◌==◌, nat_eq, string_eq, list_eq, if◌then◌else◌,
}
use prehnite.Prelude.Int.{ℤ, pos, negsuc}
use prehnite.Prelude.Dict.{Dict, lookup, insert}
use prehnite.Text.{Str, lit}
use prehnite.Errors.{Error, Result, ok, err}
use prehnite.Schemas.{Value, str, Task, EventType, run_finished, TrajectoryEvent}
use prehnite.Trajectory.{Codec, read_trajectory}
use prehnite.Server.Branch.{to_str}
use prehnite.Server.Registry.{has_tag, has_difficulty}

-- One `.jsonl` file under a task's directory.
pub record TrajectoryFile : Type 0 where
  pub path : Str
  pub mtime : ℕ
  pub content : Str

-- The trajectories by task, in the order of `glob`, `time.time()` and `time.monotonic()`.
pub record Machine : Type 0 where
  pub trajectories : Dict Str (List TrajectoryFile)
  pub now : ℕ
  pub monotonic : ℕ

-- How `subprocess.run` ends.
pub data Spawned : Type 0 where
  exited timed_out not_started : Spawned

-- `_BatchResult`
pub record BatchResult : Type 0 where
  pub task_id : Str
  pub status : Str
  pub duration : ℕ
  pub trajectory : Option Str

unfoldable pub starts_with : Str → Str → Bool
starts_with [] s = true
starts_with (p ∷ ps) [] = false
starts_with (p ∷ ps) (c ∷ s) = p == c && starts_with ps s

-- `s.replace(old, new)`, the number of characters to skip given; `old` is not empty.
unfoldable pub replace_from : ℕ → Str → Str → Str → Str
replace_from k old new [] = []
replace_from (suc k) old new (c ∷ s) = replace_from k old new s
replace_from zero old new (c ∷ s) =
    let kept = replace_from 0 old new s in
    let skipped = replace_from (length old - 1) old new s in
    if starts_with old (c ∷ s) then new ++ skipped else c ∷ kept

unfoldable pub replace : Str → Str → Str → Str
replace old new s = replace_from 0 old new s

unfoldable pub pick : TrajectoryFile → TrajectoryFile → TrajectoryFile
pick f g = if ltb f.mtime g.mtime then g else f

-- The first of the files whose time of change is the latest.
unfoldable pub later : TrajectoryFile → List TrajectoryFile → TrajectoryFile
later f [] = f
later f (g ∷ gs) = later (pick f g) gs

unfoldable pub newest : List TrajectoryFile → Option TrajectoryFile
newest [] = none
newest (f ∷ fs) = some (later f fs)

-- `f.stat().st_mtime >= since_wallclock - 1.0`
unfoldable pub is_new : ℕ → ℕ → TrajectoryFile → Bool
is_new second since f = leb since (f.mtime + second)

pub files_of : Option (List TrajectoryFile) → List TrajectoryFile
files_of none = []
files_of (some fs) = fs

-- `_latest_new_trajectory`
unfoldable pub latest_new_trajectory : ℕ → Str → Machine → ℕ → Option TrajectoryFile
unfolding files_of
latest_new_trajectory second task_id m since =
    newest (filter (is_new second since) (files_of (lookup task_id m.trajectories)))

-- `events[-1]`
unfoldable pub last_event : List TrajectoryEvent → Option TrajectoryEvent
last_event [] = none
last_event (e ∷ []) = some e
last_event (e ∷ f ∷ es) = last_event (f ∷ es)

-- What the last event says, if it is the end of a run.
unfoldable pub finish_result : EventType → TrajectoryEvent → Option (Option Value)
finish_result run_finished e = some (lookup "result" e.payload)
finish_result _ e = none

unfoldable pub last_result : Result (List TrajectoryEvent) → Option (Option Value)
last_result (err e) = none
last_result (ok events) = elim (last_event events) [ none ↦ none | some e ↦ finish_result e.type e ]

-- `result == "passed"`
unfoldable pub is_passed : Option (Option Value) → Bool
is_passed (some (some (str s))) = s == lit "passed"
is_passed _ = false

unfoldable pub is_success : Str → Bool
is_success status = status == lit "passed" || status == lit "skipped"

-- `str(last.data.get("result", "incomplete"))`
pub outcome_text : (Value → Str) → Option (Option Value) → Str
outcome_text show none = lit "incomplete"
outcome_text show (some none) = lit "incomplete"
outcome_text show (some (some v)) = to_str show v

module _ (codec : Codec) (show : Value → Str) where
  -- `_outcome_from_trajectory`
  unfoldable pub outcome_from_trajectory : Str → Str
  unfolding outcome_text
  outcome_from_trajectory content =
      outcome_text show (last_result (read_trajectory codec (some content)))

module _ (codec : Codec) (show : Value → Str) (second : ℕ) where
  -- The newest file, if it is young enough and tells of a run that passed.
  unfoldable pub recent_of : ℕ → ℕ → Option TrajectoryFile → Option TrajectoryFile
  recent_of window now none = none
  recent_of window now (some f) =
      if ltb (f.mtime + window) now
      then none
      else if is_passed (last_result (read_trajectory codec (some f.content)))
      then some f
      else none

  -- `_recent_passed_trajectory`
  unfoldable pub recent_passed_trajectory : Str → Machine → ℤ → Option TrajectoryFile
  unfolding files_of
  recent_passed_trajectory task_id m (negsuc n) = none
  recent_passed_trajectory task_id m (pos zero) = none
  recent_passed_trajectory task_id m (pos (suc n)) =
      recent_of (suc n) m.now (newest (files_of (lookup task_id m.trajectories)))

  module _ (shell : Str → Machine → Spawned × Machine) where
    path_of : Option TrajectoryFile → Option Str
    path_of none = none
    path_of (some f) = some f.path

    unfoldable pub status_of_new : Option TrajectoryFile → Str × Option Str
    status_of_new none = (lit "no-trajectory", none)
    status_of_new (some f) = (outcome_from_trajectory codec show f.content, some f.path)

    unfoldable pub run_one_ended : Str → ℕ → Spawned × Machine → Str × Option Str
    unfolding path_of
    run_one_ended task_id started_at (exited, m) =
        status_of_new (latest_new_trajectory second task_id m started_at)
    run_one_ended task_id started_at (timed_out, m) =
        (lit "timeout", path_of (latest_new_trajectory second task_id m started_at))
    run_one_ended task_id started_at (not_started, m) = (lit "timeout", none)

    -- `_run_one`, and what it leaves.
    unfoldable pub run_one : Str → Str → Machine → (Str × Option Str) × Machine
    run_one agent_cmd task_id m =
        let ended = shell agent_cmd m in (run_one_ended task_id m.now ended, ended.1)

    -- The body of the loop behind the look for a recent pass.
    unfoldable pub run_or_skip :
        Str → Task → Machine → Option TrajectoryFile → BatchResult × Machine
    run_or_skip agent_tmpl task m (some recent) = (
      record {
        task_id = task.id;
        status = lit "skipped";
        duration = 0;
        trajectory = some recent.path;
      },
      m,
    )
    run_or_skip agent_tmpl task m none =
        let ((status, traj), m') =
          run_one (replace (lit "{task_id}") task.id agent_tmpl) task.id m in
        (
          record {
            task_id = task.id;
            status = status;
            duration = m'.monotonic - m.monotonic;
            trajectory = traj;
          },
          m',
        )

    unfoldable pub run_tasks : Str → ℤ → List Task → Machine → List BatchResult × Machine
    run_tasks agent_tmpl window [] m = ([], m)
    run_tasks agent_tmpl window (task ∷ tasks) m =
        let (r, m') = run_or_skip agent_tmpl task m (recent_passed_trajectory task.id m window) in
        let (rs, m'') = run_tasks agent_tmpl window tasks m' in (r ∷ rs, m'')
