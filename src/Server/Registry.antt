-- ===== src/Server/Registry.antt =====
-- mcp_server.py: the sessions of one server process, their descriptors on disk, and the tools. The
-- clock, the fresh ids and JSON's texts are parameters.
use prehnite.Prelude.{
  ℕ, Bool, true, false, ◌&&◌, List, [], ◌∷◌, ◌++◌, Option, none, some, ◌==◌, nat_eq, list_eq, leb,
  filter, contains, if◌then◌else◌,
}
use prehnite.Prelude.Int.{ℤ, pos, negsuc}
use prehnite.Prelude.Dict.{Dict, lookup, insert, erase}
use prehnite.Text.{Str, lit}
use prehnite.Errors.{Error, key_error, Result, ok, err}
use prehnite.Schemas.{Value, str, object, no_fields, field, Task, TrajectoryEvent}
use prehnite.Overflow.{OverflowDir}
use prehnite.Trajectory.{TrajectoryWriter}
use prehnite.Sandbox.{Log, Sandbox}
use prehnite.Session.{World, mode_value, optional_str}

-- `_Session`
pub record Session : Type 0 where
  pub task : Task
  pub sandbox : Sandbox
  pub writer : TrajectoryWriter
  pub trajectory_path : Str
  pub agent_command_count : ℕ

-- The process and what it shares: its sessions, the texts of the session files and of the
-- trajectories, the overflow directory, and Docker.
pub record Server : Type 0 where
  pub sessions : Dict Str Session
  pub descriptors : Dict Str Str
  pub trajectories : Dict Str Str
  pub overflow : OverflowDir
  pub log : Log

-- pydantic and json, and `str` of a value that is no text.
pub record Json : Type 0 where
  pub dumps : Value → Str
  pub loads : Str → Option Value
  pub dump_task : Task → Value
  pub validate_task : Value → Option Task
  pub show : Value → Str

unfoldable pub session_file : Str → Str
session_file session_id = session_id ++ lit ".json"

unfoldable pub descriptor : Json → Str → Session → Str → Value
descriptor json session_id sess now = object (
    field "session_id" (str session_id) (
      field "task" (json.dump_task sess.task) (
        field "container_id" (optional_str sess.sandbox.container_id) (
          field "trajectory_path" (str sess.trajectory_path) (
            field "started_at_iso" (str now)
              (field "network_mode" (str (mode_value sess.task.network.mode)) no_fields))))))

-- `_persist_session`
unfoldable pub persist_session : Json → Str → Session → Str → Server → Server
persist_session json session_id sess now srv = record srv {
  descriptors =
      insert (session_file session_id) (json.dumps (descriptor json session_id sess now))
        srv.descriptors;
}

-- `_delete_session_file`
unfoldable pub delete_session_file : Str → Server → Server
delete_session_file session_id srv = record srv {
  descriptors = erase (session_file session_id) srv.descriptors;
}

unfoldable pub put_file : Str → Option Str → Dict Str Str → Dict Str Str
put_file path none files = files
put_file path (some content) files = insert path content files

-- What a session's step works on, and what it leaves to the server.
abbrev pub enter : Session → Server → World
enter sess srv = record {
  sandbox = sess.sandbox;
  log = srv.log;
  run = record {
    events = [];
    writer = sess.writer;
    disk = record { file = lookup sess.trajectory_path srv.trajectories; overflow = srv.overflow };
  };
}

abbrev pub leave : Str → World → Server → Server
leave path w srv = record srv {
  trajectories = put_file path w.run.disk.file srv.trajectories;
  overflow = w.run.disk.overflow;
  log = w.log;
}

unfoldable pub put_session : Str → Session → Server → Server
put_session session_id sess srv = record srv { sessions = insert session_id sess srv.sessions }

-- A step of a session that stays: what it changed in the session's object, and on disk.
unfoldable pub keep_session : Str → Session → ℕ → World → Server → Server
keep_session session_id sess count w srv =
    put_session session_id
      (record sess { sandbox = w.sandbox; writer = w.run.writer; agent_command_count = count })
      (leave sess.trajectory_path w srv)

pub unknown_session : Str → Error
unknown_session session_id = key_error (lit "unknown session_id: " ++ session_id)

-- `_find_task` in what `discover_tasks` gave.
unfoldable pub find_task : Str → List Task → Result Task
find_task task_id [] = err (key_error (lit "unknown task_id: " ++ task_id))
find_task task_id (task ∷ tasks) = if task.id == task_id then ok task else find_task task_id tasks

-- `list_tasks`, the tasks that it lists.
unfoldable pub has_tag : Option Str → Task → Bool
has_tag none task = true
has_tag (some tag) task = contains task.tags tag

same_difficulty : Str → Option Str → Bool
same_difficulty difficulty none = false
same_difficulty difficulty (some d) = d == difficulty

unfoldable pub has_difficulty : Option Str → Task → Bool
unfolding same_difficulty
has_difficulty none task = true
has_difficulty (some difficulty) task = same_difficulty difficulty task.difficulty

unfoldable pub list_tasks : Option Str → Option Str → List Task → List Task
list_tasks tag difficulty tasks =
    filter (λ task. has_tag tag task && has_difficulty difficulty task) tasks

-- `e.seq >= since_seq`
unfoldable pub since : ℤ → TrajectoryEvent → Bool
since (pos n) e = leb n e.seq
since (negsuc n) e = true
