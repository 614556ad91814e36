-- ===== src/Server/Tools.antt =====
-- The tools of mcp_server.py, as steps on the sandbox and the writer of one session.

pub mod Calls
pub mod Count
pub mod Life
pub mod Recount
use prehnite.Prelude.{
  ℕ, suc, ◌+◌, Bool, true, false, List, [], ◌∷◌, ◌++◌, Option, none, some, ◌==◌, nat_eq, list_eq,
  if◌then◌else◌,
}
use prehnite.Text.{Str, lit}
use prehnite.Errors.{
  Error, runtime_error, sandbox_error, key_error, task_load_error, docker_error, validation_error,
  json_error, file_not_found, attribute_error, value_error, Result, ok, err,
}
use prehnite.Schemas.{
  Value, str, Payload, Task, RunStatus, error, EventType, run_started, agent_command, agent_thought,
  session_forked, session_reverted, run_finished, TrajectoryEvent,
}
use prehnite.Trajectory.{close}
use prehnite.Sandbox.Ops.{snapshot, revert}
use prehnite.Session.{
  container_of, Host, World, Action, pure, throw, attempt, ◌>>=◌, ◌>>◌, dump_result, finish_payload,
  optional_str, write_event, called, start_sandbox, exec_sandbox, stop_sandbox,
}
use prehnite.Runner.{
  RunResult, run_setup, run_verify, verdict, verdict_reason, started_payload, sealed, counted,
}

-- `writer.close()`
unfoldable pub close_writer : Action (Unit {0})
close_writer w = (ok tt, record w { run = record w.run { writer = close w.run.writer } })

unfoldable pub thought_payload : Str → Payload
thought_payload thought = ("thought", str thought) ∷ []

unfoldable pub fork_payload : Str → Option Str → Payload
fork_payload snap_id cid = ("snapshot_id", str snap_id) ∷ ("container_id", optional_str cid) ∷ []

unfoldable pub revert_payload : Str → Option Str → Str → Payload
revert_payload snap_id previous new =
    ("snapshot_id", str snap_id)
    ∷ ("previous_container_id", optional_str previous)
    ∷ ("new_container_id", str new)
    ∷ []

module _ (host : Host) where
  unfoldable pub stop_session : Action (Unit {0})
  stop_session w = (ok tt, stop_sandbox host w)

  -- What `exec` does to its session: the event's payload, capped as it was written.
  unfoldable pub exec_action : Str → Action Payload
  exec_action cmd = do
    result ← exec_sandbox host cmd
    event ← write_event host agent_command (dump_result result)
    pure event.payload

  unfoldable pub note_action : Str → Action (Unit {0})
  note_action thought = do write_event host agent_thought (thought_payload thought); pure tt

  -- `snap_id` is the fresh id that `snapshot` draws.
  unfoldable pub snapshot_sandbox : Str → Str → Action Str
  snapshot_sandbox session_id snap_id w =
      called host
        (snapshot host.docker snap_id ((lit "prehnite.session_id", session_id) ∷ []) w.sandbox
          w.log)
        w

  unfoldable pub fork_action : Str → Str → Action Str
  fork_action session_id snap_id = do
    id ← snapshot_sandbox session_id snap_id
    cid ← container_of
    write_event host session_forked (fork_payload id cid)
    pure id

  unfoldable pub revert_sandbox : Str → Action Str
  revert_sandbox snapshot_id w = called host (revert host.docker snapshot_id w.sandbox w.log) w

  unfoldable pub revert_action : Str → Action Str
  revert_action snapshot_id = do
    previous ← container_of
    new ← revert_sandbox snapshot_id
    write_event host session_reverted (revert_payload snapshot_id previous new)
    pure new

  module _ (task : Task) (path : Str) where
    -- Setup has passed, or the session ends here.
    unfoldable pub setup_done : Option Str → Action (Option Str)
    setup_done none = container_of
    setup_done (some reason) = do
      write_event host run_finished (finish_payload error reason)
      close_writer
      stop_session
      throw (runtime_error reason)

    unfoldable pub session_started : Result (Unit {0}) → Action (Option Str)
    session_started (ok u) = do
      cid ← container_of
      write_event host run_started (started_payload host task path cid)
      reason ← run_setup host task.setup
      setup_done reason
    session_started (err (sandbox_error m)) = do
      write_event host run_finished (finish_payload error (lit "sandbox start: " ++ m))
      close_writer
      throw (sandbox_error m)
    session_started (err e) = throw e

    -- `start_task` from the start of the sandbox up to the new session.
    unfoldable pub start_action : Action (Option Str)
    start_action = do r ← attempt (start_sandbox host); session_started r

    -- The `try` of `finish_task`.
    unfoldable pub finish_body : ℕ → Action RunResult
    finish_body count = do
      failures ← run_verify host task.verify
      write_event host run_finished
          (finish_payload (verdict host failures) (verdict_reason host failures count))
      cid ← container_of
      pure (record {
        task_id = task.id;
        status = verdict host failures;
        reason = verdict_reason host failures count;
        trajectory_path = path;
        container_id = cid;
      })

    unfoldable pub finish_action : ℕ → Action RunResult
    finish_action count w = sealed host task path (finish_body count w)

  unfoldable pub abort_action : Action (Unit {0})
  abort_action = do
    write_event host run_finished (finish_payload error (lit "aborted by agent"))
    stop_session
    close_writer
