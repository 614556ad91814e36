-- ===== src/Runner.antt =====
-- runner.py: `run` drives one task from the start of the sandbox to the sealed trajectory. An agent is
-- a tree: it stops, raises, or runs a command and goes on with what that returned or raised.
pub mod Kept
pub mod Phases
pub mod Readable
pub mod Sealed
pub mod Trace
pub mod Writes
use prehnite.Prelude.{
  ℕ, suc, ◌+◌, Bool, true, false, List, [], ◌∷◌, ◌++◌, Option, none, some, filter, not, ◌==◌, ◌||◌,
  nat_eq, list_eq, if◌then◌else◌,
}
use prehnite.Prelude.Int.{ℤ}
use prehnite.Prelude.Dict.{Dict}
use prehnite.Text.{Str, lit}
use prehnite.Text.Number.{str_int}
use prehnite.Errors.{Error, sandbox_error, value_error, Result, ok, err}
use prehnite.Schemas.{
  Value, str, Payload, Task, RunStatus, passed, failed, error, CommandResult, EventType,
  run_started, setup_command, agent_command, verify_command, run_finished, TrajectoryEvent,
}
use prehnite.Overflow.{OverflowDir}
use prehnite.Trajectory.{Disk, TrajectoryWriter, new_writer, open_writer, close}
use prehnite.Trajectory.Sessions.{Run, opened}
use prehnite.Sandbox.{Log, Sandbox, new_sandbox}
use prehnite.Session.{
  container_of, Host, World, Action, pure, throw, attempt, ◌>>=◌, ◌>>◌, is_zero, dump_network,
  finish_payload, optional_str, write_event, start_sandbox, exec_sandbox, stop_sandbox,
  exec_and_record,
}

-- `utcnow_iso().replace(":", "").replace("-", "")`
unfoldable pub stamp_of : Str → Str
stamp_of ts = filter (λ c. not (c == b':' || c == b'-')) ts

-- `trajectory_path`, with the reading of the clock given.
unfoldable pub trajectory_path : Task → Str → Str → Str
trajectory_path task root ts =
    root ++ lit "/trajectories/" ++ task.id ++ lit "/" ++ stamp_of ts ++ lit ".jsonl"

pub record RunResult : Type 0 where
  pub task_id : Str
  pub status : RunStatus
  pub reason : Str
  pub trajectory_path : Str
  pub container_id : Option Str

pub data Agent : Type 0 where
  done : Agent
  raises : Error → Agent
  command : Str → (Result CommandResult → Agent) → Agent

-- `_command_count` after a call of `exec` that may have raised.
unfoldable pub counted : {A : Type 0} → Result A → ℕ → ℕ
counted (ok a) n = n + 1
counted (err e) n = n

unfoldable pub setup_reason : Str → CommandResult → Str
setup_reason cmd result =
    lit "setup command failed (exit " ++ str_int result.exit_code ++ lit "): " ++ cmd

module _ (host : Host) where
  -- The setup loop: the reason of the first command that failed.
  unfoldable pub run_setup : List Str → Action (Option Str)
  run_setup [] = pure none
  run_setup (cmd ∷ cmds) = do
    result ← exec_and_record host setup_command cmd
    if is_zero result.exit_code then run_setup cmds else pure (some (setup_reason cmd result))

  -- `agent(ctx)`, and the count of the context.
  unfoldable pub run_agent : Agent → ℕ → Action ℕ
  run_agent done n = pure n
  run_agent (raises e) n = throw e
  run_agent (command cmd next) n = do
    r ← attempt (exec_and_record host agent_command cmd)
    run_agent (next r) (counted r n)

  unfoldable pub run_commands : List Str → ℕ → Action ℕ
  run_commands [] n = pure n
  run_commands (cmd ∷ cmds) n = do exec_and_record host agent_command cmd; run_commands cmds (n + 1)

  -- The agent phase: how many agent commands ran.
  unfoldable pub agent_phase : Option Agent → Option (List Str) → Action ℕ
  agent_phase (some agent) commands = run_agent agent 0
  agent_phase none (some commands) = run_commands commands 0
  agent_phase none none = pure 0

  -- The verify loop: the commands that failed.
  unfoldable pub run_verify : List Str → Action (List Str)
  run_verify [] = pure []
  run_verify (cmd ∷ cmds) = do
    result ← exec_and_record host verify_command cmd
    failures ← run_verify cmds
    pure (if is_zero result.exit_code then failures else cmd ∷ failures)

  unfoldable pub verdict : List Str → RunStatus
  verdict [] = passed
  verdict (cmd ∷ failures) = failed

  unfoldable pub verdict_reason : List Str → ℕ → Str
  verdict_reason [] count = lit "all verify checks passed"
  verdict_reason (cmd ∷ failures) count =
      if count == 0
      then lit "no agent activity (verify ran on untouched workspace)"
      else lit "verify failed: " ++ host.show_texts (cmd ∷ failures)

  module _ (task : Task) (path : Str) where
    -- The last event, and the result that says the same.
    unfoldable pub finish : RunStatus → Str → Str → Option Str → Action RunResult
    finish status event_reason reason cid = do
      write_event host run_finished (finish_payload status event_reason)
      pure (record {
        task_id = task.id;
        status = status;
        reason = reason;
        trajectory_path = path;
        container_id = cid;
      })

    unfoldable pub run_checks : Option Str → ℕ → Action RunResult
    run_checks cid count = do
      failures ← run_verify task.verify
      finish (verdict failures) (verdict_reason failures count) (verdict_reason failures count) cid

    unfoldable pub after_setup :
        Option Agent → Option (List Str) → Option Str → Option Str → Action RunResult
    after_setup agent commands cid (some reason) = finish error reason reason cid
    after_setup agent commands cid none = do
      count ← agent_phase agent commands
      run_checks cid count

    unfoldable pub started_payload : Option Str → Payload
    started_payload cid =
        ("task_id", str task.id)
        ∷ ("image", str task.image)
        ∷ ("container_id", optional_str cid)
        ∷ ("network", dump_network task.network)
        ∷ []

    unfoldable pub run_started_task : Option Agent → Option (List Str) → Action RunResult
    run_started_task agent commands = do
      cid ← container_of
      write_event host run_started (started_payload cid)
      reason ← run_setup task.setup
      after_setup agent commands cid reason

    -- `except SandboxError` round the start.
    unfoldable pub after_start :
        Option Agent → Option (List Str) → Result (Unit {0}) → Action RunResult
    after_start agent commands (ok u) = run_started_task agent commands
    after_start agent commands (err (sandbox_error m)) =
        finish error (lit "sandbox start: " ++ m) m none
    after_start agent commands (err e) = throw e

    unfoldable pub try_body : Option Agent → Option (List Str) → Action RunResult
    try_body agent commands = do r ← attempt (start_sandbox host); after_start agent commands r

    -- `except Exception`: the event, and the exception again.
    unfoldable pub handled : Result RunResult → Action RunResult
    handled (ok r) = pure r
    handled (err e) = do
      write_event host run_finished (finish_payload error (lit "unhandled: " ++ host.show_error e))
      throw e

    -- `finally`
    unfoldable pub sealed : Result RunResult × World → Result RunResult × World
    sealed (r, w) =
        let w' = stop_sandbox host w in
        (r, record w' { run = record w'.run { writer = close w'.run.writer } })

    unfoldable pub drive : Option Agent → Option (List Str) → Action RunResult
    drive agent commands w = sealed ((do r ← attempt (try_body agent commands); handled r) w)

-- What `run` leaves of the world if the trajectory cannot be opened.
pub data Ran : Type 0 where
  refused : Error → Ran
  ran : Result RunResult → World → Ran

module _ (host : Host) where
  unfoldable pub run_opened :
      Task → Str → Option Agent → Option (List Str) → Log → Result (TrajectoryWriter × Disk) → Ran
  run_opened task path agent commands log (err e) = refused e
  run_opened task path agent commands log (ok (writer, disk)) =
      let (r, w) = drive host task path agent commands (record {
        sandbox = new_sandbox task true;
        log = log;
        run = record { events = []; writer = writer; disk = disk };
      }) in
      ran r w

  -- `run`: the trajectory's path and what the disk holds there are given.
  unfoldable pub run : Task → Str → Option Agent → Option (List Str) → Disk → Log → Ran
  unfolding run_opened
  run task path (some agent) (some commands) disk log = refused value_error
  run task path (some agent) none disk log =
      run_opened task path (some agent) none log (open_writer host.codec (new_writer true) disk)
  run task path none commands disk log =
      run_opened task path none commands log (open_writer host.codec (new_writer true) disk)
