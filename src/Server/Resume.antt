-- ===== src/Server/Resume.antt =====
-- `_rehydrate_sessions`: the sessions that a new process takes up from the session files. A file that
-- cannot be read counts as one that is no JSON.
pub mod Restart
use prehnite.Prelude.{
  String, ℕ, Bool, true, false, List, [], ◌∷◌, ◌++◌, Option, none, some, ◌==◌, string_eq, nat_eq,
  list_eq, if◌then◌else◌,
}
use prehnite.Prelude.Dict.{Dict, lookup, insert, erase, keys}
use prehnite.Text.{Str, lit}
use prehnite.Text.Order.{sorted_set}
use prehnite.Errors.{
  Error, runtime_error, sandbox_error, key_error, task_load_error, docker_error, validation_error,
  json_error, file_not_found, attribute_error, value_error, type_error, Result, ok, err, ◌>>=◌,
}
use prehnite.Schemas.{Value, null, bool, int, str, array, object, Fields, no_fields, field, Task}
use prehnite.Trajectory.{Disk, TrajectoryWriter, new_writer, open_writer}
use prehnite.Sandbox.{Log, Sandbox, new_sandbox}
use prehnite.Sandbox.Start.{Outcome}
use prehnite.Sandbox.Ops.{attach}
use prehnite.Session.{Host}
use prehnite.Server.Branch.{to_str}
use prehnite.Server.Registry.{Session, Server, Json, put_file}
use prehnite.Server.Tools.Count.{count_agent_commands}

-- `payload.get(key)`; of two equal keys `json.loads` keeps the last.
unfoldable pub get_from : String → Fields → Option Value → Option Value
get_from key no_fields found = found
get_from key (field k v fs) found = get_from key fs (if k == key then some v else found)

unfoldable pub is_restricted : Option Value → Bool
is_restricted (some (str s)) = s == lit "restricted"
is_restricted _ = false

-- `f.unlink(missing_ok=True)`
unfoldable pub drop_file : Str → Server → Server
drop_file name srv = record srv { descriptors = erase name srv.descriptors }

-- `payload['container_id'][:12]` in the message at the end: a text or a list has slices.
unfoldable pub sliced : Value → Server → Result Server
sliced (str s) srv = ok srv
sliced (array items) srv = ok srv
sliced null srv = err type_error
sliced v srv = err type_error

module _ (host : Host) (json : Json) where
  unfoldable pub resume_opened :
      Str
      → Task
      → Str
      → Value
      → Sandbox
      → Log
      → Result (TrajectoryWriter × Disk)
      → Server
      → Result Server
  resume_opened sid task path cid sb log (err e) srv = err e
  resume_opened sid task path cid sb log (ok (writer, disk)) srv =
      let sess : Session = record {
        task = task;
        sandbox = sb;
        writer = writer;
        trajectory_path = path;
        agent_command_count = count_agent_commands host.codec disk.file;
      } in
      sliced cid (record srv {
        sessions = insert sid sess srv.sessions;
        trajectories = put_file path disk.file srv.trajectories;
        log = log;
      })

  unfoldable pub resume_attached :
      Str → Str → Task → Str → Value → Outcome (Unit {0}) → Server → Result Server
  resume_attached name sid task path cid (ok u, sb, log) srv =
      resume_opened sid task path cid sb log
        (open_writer host.codec (new_writer true)
          (record { file = lookup path srv.trajectories; overflow = srv.overflow }))
        srv
  resume_attached name sid task path cid (err (sandbox_error m), sb, log) srv =
      ok (drop_file name (record srv { log = log }))
  resume_attached name sid task path cid (err e, sb, log) srv = err e

  unfoldable pub resume_container : Str → Str → Task → Str → Option Value → Server → Result Server
  resume_container name sid task path none srv = err (key_error (lit "container_id"))
  resume_container name sid task path (some cid) srv =
      resume_attached name sid task path cid
        (attach host.docker (to_str json.show cid) (new_sandbox task false) srv.log) srv

  -- `Path(payload["trajectory_path"])`
  unfoldable pub resume_path : Str → Str → Task → Fields → Option Value → Server → Result Server
  resume_path name sid task fs none srv = err (key_error (lit "trajectory_path"))
  resume_path name sid task fs (some (str path)) srv =
      resume_container name sid task path (get_from "container_id" fs none) srv
  resume_path name sid task fs (some v) srv = err type_error

  unfoldable pub resume_validated : Str → Str → Fields → Option Task → Server → Result Server
  resume_validated name sid fs none srv = ok (drop_file name srv)
  resume_validated name sid fs (some task) srv =
      resume_path name sid task fs (get_from "trajectory_path" fs none) srv

  unfoldable pub resume_task : Str → Str → Fields → Option Value → Server → Result Server
  resume_task name sid fs none srv = ok (drop_file name srv)
  resume_task name sid fs (some task) srv =
      resume_validated name sid fs (json.validate_task task) srv

  -- `str(payload.get("session_id", ""))`
  unfoldable pub session_id_of : Option Value → Str
  session_id_of none = []
  session_id_of (some v) = to_str json.show v

  unfoldable pub resume_named : Str → Str → Fields → Server → Result Server
  resume_named name [] fs srv = ok (drop_file name srv)
  resume_named name (c ∷ sid) fs srv =
      if is_restricted (get_from "network_mode" fs none)
      then ok (drop_file name srv)
      else resume_task name (c ∷ sid) fs (get_from "task" fs none) srv

  -- One session file; `.get` of a payload that is no object is not caught.
  unfoldable pub resume_payload : Str → Option Value → Server → Result Server
  resume_payload name none srv = ok (drop_file name srv)
  resume_payload name (some (object fs)) srv =
      resume_named name (session_id_of (get_from "session_id" fs none)) fs srv
  resume_payload name (some v) srv = err attribute_error

  unfoldable pub resume_text : Str → Option Str → Server → Result Server
  resume_text name none srv = resume_payload name none srv
  resume_text name (some text) srv = resume_payload name (json.loads text) srv

  unfoldable pub resume_files : List Str → Server → Result Server
  resume_files [] srv = ok srv
  resume_files (name ∷ names) srv = do
    srv' ← resume_text name (lookup name srv.descriptors) srv
    resume_files names srv'

  -- `_rehydrate_sessions`, over what the last process left on disk.
  unfoldable pub rehydrate_sessions : Server → Result Server
  rehydrate_sessions srv =
      resume_files (sorted_set (keys srv.descriptors)) (record srv { sessions = [] })
