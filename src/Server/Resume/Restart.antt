-- ===== src/Server/Resume/Restart.antt =====
-- A session goes on where it was: its descriptor, read again by a new process.
use prehnite.Prelude.{
  ℕ, ◌≡◌, refl, ◌≢◌, true, false, List, ◌∷◌, Option, none, some, string_eq, nat_eq, list_eq,
  list_beq,
}
use prehnite.Prelude.Dict.{lookup, insert}
use prehnite.Text.{Str}
use prehnite.Errors.{ok}
use prehnite.Schemas.{str, NetworkMode, restricted, full, Task}
use prehnite.Overflow.{OverflowDir}
use prehnite.Trajectory.{new_writer, open_writer}
use prehnite.Trajectory.File.{AllReadable}
use prehnite.Sandbox.{Log, Docker, container, connected, attached, Sandbox, new_sandbox}
use prehnite.Sandbox.Ops.{attach, connect_existing, get_container}
use prehnite.Session.{Host, World, mode_value, optional_str}
use prehnite.Server.Branch.{to_str}
use prehnite.Server.Registry.{Session, Server, Json, descriptor, put_file}
use prehnite.Trajectory.Sessions.Invariant.{open_writer-resumed}
use prehnite.Server.Tools.{start_action}
use prehnite.Server.Tools.Calls.{Call, perform_calls}
use prehnite.Server.Tools.Life.{new_session}
use prehnite.Server.Tools.Recount.{session_consistent, session_recount}
use prehnite.Server.Resume.{
  get_from, is_restricted, sliced, resume_opened, resume_attached, resume_container, resume_path,
  resume_validated, resume_task, resume_named, resume_payload, resume_text, session_id_of,
}

-- Docker answers, and still has the container.
pub record HasContainer (docker : Docker) (log : Log) (cid : Str) : Type 0 where
  pub answers : docker.from_env log ≡ none
  pub held : docker.get (connected ∷ log) cid ≡ container cid

-- JSON and pydantic give back this descriptor and its task.
pub record IsRecoverable (json : Json) (sid : Str) (sess : Session) (now : Str) : Type 0 where
  pub loaded :
      json.loads (json.dumps (descriptor json sid sess now)) ≡ some (descriptor json sid sess now)
  pub validated : json.validate_task (json.dump_task sess.task) ≡ some sess.task

-- A sandbox that was attached to the container.
abbrev pub attached_sandbox : Task → Str → Sandbox
attached_sandbox task cid = record (new_sandbox task false) {
  client = true;
  container_id = some cid;
}

attach-held :
    (docker : Docker) (task : Task) (cid : Str) (log : Log)
    → HasContainer docker log cid
    → attach docker cid (new_sandbox task false) log
      ≡ (ok tt, attached_sandbox task cid, attached cid ∷ connected ∷ log)
unfolding attach connect_existing get_container
attach-held docker task cid log h = rw h.answers (rw h.held refl)

mode_unrestricted :
    (m : NetworkMode) → m ≢ restricted → is_restricted (some (str (mode_value m))) ≡ false
unfolding is_restricted mode_value list_beq
mode_unrestricted NetworkMode.none h = refl
mode_unrestricted full h = refl
mode_unrestricted restricted h = absurd (h refl)

module _ (host : Host) (json : Json) (sess : Session) (cid now : Str) (c : ℕ) (s : Str) where
  resume_named_lem :
      (name : Str) (srv : Server)
      → sess.sandbox.container_id ≡ some cid
      → sess.task.network.mode ≢ restricted
      → json.validate_task (json.dump_task sess.task) ≡ some sess.task
      → HasContainer host.docker srv.log cid
      → resume_payload host json name (some (descriptor json (c ∷ s) sess now)) srv
        ≡ resume_opened host json
            (c ∷ s)
            sess.task
            sess.trajectory_path
            (str cid)
            (attached_sandbox sess.task cid)
            (attached cid ∷ connected ∷ srv.log)
            (open_writer host.codec (new_writer true) (record {
              file = lookup sess.trajectory_path srv.trajectories;
              overflow = srv.overflow;
            }))
            srv
  unfolding resume_payload descriptor get_from session_id_of to_str resume_named resume_task
      resume_validated resume_path resume_container resume_attached optional_str
  resume_named_lem name srv e m v h =
      rw (mode_unrestricted sess.task.network.mode m)
        (rw v (rw e (rw (attach-held host.docker sess.task cid srv.log h) refl)))

-- The session's object in the process that started it.
abbrev pub live_session : Task → Str → ℕ → World → Session
live_session task path n w = record {
  task = task;
  sandbox = w.sandbox;
  writer = w.run.writer;
  trajectory_path = path;
  agent_command_count = n;
}

-- What a new process makes of it: attached to the same container, writing on at the same number,
-- with the same count.
abbrev pub resumed_session : Task → Str → Str → ℕ → World → Session
resumed_session task path cid n w = record {
  task = task;
  sandbox = attached_sandbox task cid;
  writer = record (new_writer true) { fh = true; seq = w.run.writer.seq };
  trajectory_path = path;
  agent_command_count = n;
}

module _ (host : Host) (json : Json) (task : Task) (path : Str) (dir : OverflowDir)
    (log : Log) where
  -- A session that start_task has started on a new path, not in restricted mode, after any calls of
  -- exec, note, fork and revert, failing or not, while it has a container: a new process that reads
  -- the descriptor as it would be written then takes the session up under its id, attached to that
  -- container, with the same count of agent commands and a writer that goes on at the same number.
  -- (Assumed: JSON and pydantic give back the descriptor, its task and the events; Docker answers and
  -- has the container; the trajectory is on disk as the session left it.)
  pub restart_resumes :
      (calls : List Call) (started : Option Str) (n : ℕ) (w : World) (name cid now content : Str)
      (c : ℕ) (s : Str) (srv : Server)
      → (start_action host task path (new_session task dir log)).0 ≡ ok started
      → perform_calls host calls (0, (start_action host task path (new_session task dir log)).1)
        ≡ (n, w)
      → AllReadable host.codec w.run.events
      → w.run.disk.file ≡ some content
      → w.sandbox.container_id ≡ some cid
      → task.network.mode ≢ restricted
      → IsRecoverable json (c ∷ s) (live_session task path n w) now
      → lookup path srv.trajectories ≡ some content
      → HasContainer host.docker srv.log cid
      → resume_text host json name
          (some (json.dumps (descriptor json (c ∷ s) (live_session task path n w) now)))
          srv
        ≡ ok (record srv {
          sessions = insert (c ∷ s) (resumed_session task path cid n w) srv.sessions;
          trajectories = insert path content srv.trajectories;
          log = attached cid ∷ connected ∷ srv.log;
        })
  unfolding resume_text resume_opened sliced put_file
  restart_resumes calls started n w name cid now content c s srv e q a f k m r l h =
      let (x, o, y) = session_consistent host task path dir log calls started n w e q in
      let t = session_recount host task path dir log calls started n w e q a in
      let counted = rw f at t in
      let reopened = open_writer-resumed host.codec w.run content a x o.opened f srv.overflow in
      rw r.loaded (
        rw
          (resume_named_lem host json (live_session task path n w) cid now c s name srv k m
            r.validated h)
          (rw l (rw reopened (rw counted refl))))
