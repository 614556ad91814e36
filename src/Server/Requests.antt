-- ===== src/Server/Requests.antt =====
-- The tools of mcp_server.py on the whole server.
pub mod Kept
pub mod Paired
pub mod Serving
use prehnite.Prelude.{
  ℕ, suc, ◌+◌, Bool, true, false, not, ◌&&◌, List, [], ◌∷◌, ◌++◌, Option, none, some, ◌==◌, nat_eq,
  list_eq, leb, filter, contains, map, if◌then◌else◌,
}
use prehnite.Prelude.Int.{ℤ, pos, negsuc}
use prehnite.Prelude.Dict.{Dict, lookup, insert, erase}
use prehnite.Text.{Str, lit}
use prehnite.Errors.{
  Error, runtime_error, sandbox_error, key_error, task_load_error, docker_error, validation_error,
  json_error, file_not_found, attribute_error, value_error, Result, ok, err,
}
use prehnite.Schemas.{Value, str, object, no_fields, field, Payload, Task, TrajectoryEvent}
use prehnite.Overflow.{OverflowDir}
use prehnite.Trajectory.{Codec, Disk, TrajectoryWriter, new_writer, open_writer, read_trajectory}
use prehnite.Sandbox.{Log, Sandbox, new_sandbox}
use prehnite.Session.{Host, World, Action, mode_value, optional_str}
use prehnite.Runner.{RunResult, trajectory_path, counted}
use prehnite.Server.Branch.{filter_branch}
use prehnite.Server.Tools.{
  exec_action, note_action, fork_action, revert_action, start_action, finish_action, abort_action,
}
use prehnite.Server.Registry.{
  Session, Server, Json, persist_session, delete_session_file, enter, leave, put_session,
  keep_session, unknown_session, find_task, since,
}

-- `sessions.pop(session_id, None)`
unfoldable pub pop_session : Str → Server → Server
pop_session session_id srv = record srv { sessions = erase session_id srv.sessions }

-- No `finally`: what raises leaves the session's file.
unfoldable pub delete_aborted : {A : Type 0} → Result A → Str → Server → Server
delete_aborted (err e) session_id srv = srv
delete_aborted (ok a) session_id srv = delete_session_file session_id srv

module _ (host : Host) (json : Json) where
  unfoldable pub exec_session : Str → Str → Option Session → Server → Result Payload × Server
  exec_session session_id cmd none srv = (err (unknown_session session_id), srv)
  exec_session session_id cmd (some sess) srv =
      let (r, w) = exec_action host cmd (enter sess srv) in
      (r, keep_session session_id sess (counted r sess.agent_command_count) w srv)

  unfoldable pub exec_tool : Str → Str → Server → Result Payload × Server
  exec_tool session_id cmd srv = exec_session session_id cmd (lookup session_id srv.sessions) srv

  unfoldable pub note_session : Str → Str → Option Session → Server → Result (Unit {0}) × Server
  note_session session_id thought none srv = (err (unknown_session session_id), srv)
  note_session session_id thought (some sess) srv =
      let (r, w) = note_action host thought (enter sess srv) in
      (r, keep_session session_id sess sess.agent_command_count w srv)

  unfoldable pub note : Str → Str → Server → Result (Unit {0}) × Server
  note session_id thought srv = note_session session_id thought (lookup session_id srv.sessions) srv

  -- `snap_id` is the fresh id that the sandbox draws.
  unfoldable pub fork_session : Str → Str → Option Session → Server → Result Str × Server
  fork_session session_id snap_id none srv = (err (unknown_session session_id), srv)
  fork_session session_id snap_id (some sess) srv =
      let (r, w) = fork_action host session_id snap_id (enter sess srv) in
      (r, keep_session session_id sess sess.agent_command_count w srv)

  unfoldable pub fork : Str → Str → Server → Result Str × Server
  fork session_id snap_id srv = fork_session session_id snap_id (lookup session_id srv.sessions) srv

  -- The descriptor is written again behind a revert that returned.
  unfoldable pub persist_reverted :
      {A : Type 0} → Result A → Str → Session → World → Str → Server → Server
  persist_reverted (err e) session_id sess w now srv = srv
  persist_reverted (ok a) session_id sess w now srv =
      persist_session json session_id (record sess { sandbox = w.sandbox }) now srv

  unfoldable pub revert_session : Str → Str → Str → Option Session → Server → Result Str × Server
  revert_session session_id snapshot_id now none srv = (err (unknown_session session_id), srv)
  revert_session session_id snapshot_id now (some sess) srv =
      let (r, w) = revert_action host snapshot_id (enter sess srv) in
      (
        r,
        persist_reverted r session_id sess w now
            (keep_session session_id sess sess.agent_command_count w srv),
      )

  unfoldable pub revert : Str → Str → Str → Server → Result Str × Server
  revert session_id snapshot_id now srv =
      revert_session session_id snapshot_id now (lookup session_id srv.sessions) srv

  read_events : Str → ℤ → Result (List TrajectoryEvent) → Result (List TrajectoryEvent)
  read_events branch since_seq (err e) = err e
  read_events branch since_seq (ok events) =
      ok (filter (since since_seq) (filter_branch json.show events branch))

  unfoldable pub read_session :
      Str → ℤ → Str → Option Session → Server → Result (List TrajectoryEvent)
  unfolding read_events
  read_session session_id since_seq branch none srv = err (unknown_session session_id)
  read_session session_id since_seq branch (some sess) srv =
      read_events branch since_seq
        (read_trajectory host.codec (lookup sess.trajectory_path srv.trajectories))

  -- The tool `read_trajectory`.
  unfoldable pub read_tool : Str → ℤ → Str → Server → Result (List TrajectoryEvent)
  read_tool session_id since_seq branch srv =
      read_session session_id since_seq branch (lookup session_id srv.sessions) srv

  unfoldable pub finish_session : Str → Option Session → Server → Result RunResult × Server
  finish_session session_id none srv = (err (unknown_session session_id), srv)
  finish_session session_id (some sess) srv =
      let (r, w) =
        finish_action host sess.task sess.trajectory_path sess.agent_command_count
          (enter sess srv) in
      (
        r,
        delete_session_file session_id (leave sess.trajectory_path w (pop_session session_id srv)),
      )

  unfoldable pub finish_task : Str → Server → Result RunResult × Server
  finish_task session_id srv = finish_session session_id (lookup session_id srv.sessions) srv

  unfoldable pub abort_session : Str → Option Session → Server → Result (Unit {0}) × Server
  abort_session session_id none srv = (err (unknown_session session_id), srv)
  abort_session session_id (some sess) srv =
      let (r, w) = abort_action host (enter sess srv) in
      (r, delete_aborted r session_id (leave sess.trajectory_path w (pop_session session_id srv)))

  unfoldable pub abort_task : Str → Server → Result (Unit {0}) × Server
  abort_task session_id srv = abort_session session_id (lookup session_id srv.sessions) srv

  -- Behind the setup: the session is there, and its descriptor.
  unfoldable pub register :
      {A : Type 0} → Result A → Task → Str → Str → Str → World → Server → Result Str × Server
  register (err e) task path session_id now w srv = (err e, srv)
  register (ok cid) task path session_id now w srv =
      let sess : Session = record {
        task = task;
        sandbox = w.sandbox;
        writer = w.run.writer;
        trajectory_path = path;
        agent_command_count = 0;
      } in
      (ok session_id, persist_session json session_id sess now (put_session session_id sess srv))

  unfoldable pub start_opened :
      Task → Str → Str → Str → Result (TrajectoryWriter × Disk) → Server → Result Str × Server
  start_opened task path session_id now (err e) srv = (err e, srv)
  start_opened task path session_id now (ok (writer, disk)) srv =
      let (r, w) = start_action host task path (record {
        sandbox = new_sandbox task true;
        log = srv.log;
        run = record { events = []; writer = writer; disk = disk };
      }) in
      register r task path session_id now w (leave path w srv)

  unfoldable pub start_found : Result Task → Str → Str → Str → Str → Server → Result Str × Server
  start_found (err e) root stamp session_id now srv = (err e, srv)
  start_found (ok task) root stamp session_id now srv =
      let path = trajectory_path task root stamp in
      start_opened task path session_id now
        (open_writer host.codec (new_writer true)
          (record { file = lookup path srv.trajectories; overflow = srv.overflow }))
        srv

  -- `start_task`: the root, two readings of the clock and the fresh session id are given.
  unfoldable pub start_task : Str → List Task → Str → Str → Str → Str → Server → Result Str × Server
  start_task task_id tasks root stamp session_id now srv =
      start_found (find_task task_id tasks) root stamp session_id now srv
