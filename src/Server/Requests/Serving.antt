-- ===== src/Server/Requests/Serving.antt =====
-- The server over any sequence of requests.
use prehnite.Prelude.{◌≡◌, refl, List, [], ◌∷◌, none, nat_eq, list_eq}
use prehnite.Prelude.Dict.{lookup}
use prehnite.Text.{Str}
use prehnite.Errors.{Result, ok, err}
use prehnite.Schemas.{Task, run_started}
use prehnite.Session.{Host, World}
use prehnite.Runner.Phases.{taken}
use prehnite.Runner.Writes.{write_event-IsOpen}
use prehnite.Server.Tools.Calls.{OnOk, start_action-OnOk}
use prehnite.Server.Registry.{Server, Json, persist_session, put_session, find_task}
use prehnite.Server.Requests.{
  exec_tool, note, fork, revert, finish_task, abort_task, register, start_opened, start_found,
  start_task,
}
use prehnite.Server.Requests.Paired.{insert-IsPaired}
use prehnite.Runner.{trajectory_path}
use prehnite.Trajectory.Sessions.Written.{open_writer-new}
use prehnite.Server.Requests.Kept.{
  IsServing, OpenWorld, OpenWorld-IsStable, insert-HasOpen, exec_session-IsServing,
  note_session-IsServing, fork_session-IsServing, revert_session-IsServing,
  finish_session-IsServing, abort_session-IsServing,
}

-- A call of a tool, with what it draws from the clock and the generator of ids.
pub data Request : Type 0 where
  start_request : (task_id : Str) (tasks : List Task) (root stamp session_id now : Str) → Request
  exec_request note_request fork_request : (session_id text : Str) → Request
  revert_request : (session_id snapshot_id now : Str) → Request
  finish_request abort_request : Str → Request

module _ (host : Host) (json : Json) where
  -- What a request leaves, whatever it answers.
  unfoldable pub serve : Request → Server → Server
  serve (start_request task_id tasks root stamp session_id now) srv =
      (start_task host json task_id tasks root stamp session_id now srv).1
  serve (exec_request session_id cmd) srv = (exec_tool host json session_id cmd srv).1
  serve (note_request session_id thought) srv = (note host json session_id thought srv).1
  serve (fork_request session_id snap_id) srv = (fork host json session_id snap_id srv).1
  serve (revert_request session_id snapshot_id now) srv =
      (revert host json session_id snapshot_id now srv).1
  serve (finish_request session_id) srv = (finish_task host json session_id srv).1
  serve (abort_request session_id) srv = (abort_task host json session_id srv).1

  unfoldable pub serve_all : List Request → Server → Server
  serve_all [] srv = srv
  serve_all (r ∷ rs) srv = serve_all rs (serve r srv)

-- A start is asked for on a path where no trajectory is yet.
abbrev pub IsFresh : Request → Server → Type 0
IsFresh (start_request task_id tasks root stamp session_id now) srv =
    (task : Task)
    → find_task task_id tasks ≡ ok task
    → lookup (trajectory_path task root stamp) srv.trajectories ≡ none
IsFresh r srv = Unit

module _ (host : Host) (json : Json) where
  abbrev pub AllFresh : List Request → Server → Type 0
  AllFresh [] srv = Unit
  AllFresh (r ∷ rs) srv = IsFresh r srv × AllFresh rs (serve host json r srv)

  register-IsServing :
      {A : Type 0} (o : Result A × World) (task : Task) (path sid now : Str) (srv : Server)
      → OnOk OpenWorld o
      → IsServing srv
      → IsServing (register host json o.0 task path sid now o.1 srv).1
  unfolding register persist_session put_session
  register-IsServing (ok a, w) task path sid now srv o (p, s) = (
    insert-IsPaired srv.sessions srv.descriptors p sid _ _,
    insert-HasOpen sid _ srv.sessions s o,
  )
  register-IsServing (err e, w) task path sid now srv o h = h

  start_found-IsServing :
      (found : Result Task) (root stamp sid now : Str) (srv : Server)
      → ((task : Task)
          → found ≡ ok task
          → lookup (trajectory_path task root stamp) srv.trajectories ≡ none)
      → IsServing srv
      → IsServing (start_found host json found root stamp sid now srv).1
  unfolding start_found start_opened
  start_found-IsServing (err e) root stamp sid now srv f h = h
  start_found-IsServing (ok task) root stamp sid now srv f h = rw (f task refl) (
      rw (open_writer-new host.codec srv.overflow) (
        register-IsServing _ task _ sid now _
          (start_action-OnOk host OpenWorld OpenWorld (OpenWorld-IsStable host (taken 0) refl)
            (OpenWorld-IsStable host (taken 1) refl)
            (λ payload w o. write_event-IsOpen host run_started payload w o) task
            (trajectory_path task root stamp) _
            (record { opened = refl; unclosed = refl; next = 0; numbered = refl }))
          h))

  serve-IsServing :
      (r : Request) (srv : Server)
      → IsFresh r srv
      → IsServing srv
      → IsServing (serve host json r srv)
  unfolding serve start_task exec_tool note fork revert finish_task abort_task
  serve-IsServing (start_request task_id tasks root stamp sid now) srv f h =
      start_found-IsServing (find_task task_id tasks) root stamp sid now srv f h
  serve-IsServing (exec_request sid cmd) srv f h =
      exec_session-IsServing host json sid cmd _ srv h refl
  serve-IsServing (note_request sid thought) srv f h =
      note_session-IsServing host json sid thought _ srv h refl
  serve-IsServing (fork_request sid snap_id) srv f h =
      fork_session-IsServing host json sid snap_id _ srv h refl
  serve-IsServing (revert_request sid snapshot_id now) srv f h =
      revert_session-IsServing host json sid snapshot_id now _ srv h refl
  serve-IsServing (finish_request sid) srv f h = finish_session-IsServing host json sid _ srv h
  serve-IsServing (abort_request sid) srv f h = abort_session-IsServing host json sid _ srv h refl

  -- Whatever tools are called on a server, in any order, failing or not, a session that is live has its
  -- descriptor on disk and no descriptor is left for a session that is not, and the writer of each
  -- session can write, if this was so before. (Assumed: a task is started on a path where no
  -- trajectory is yet.)
  pub serve_all-IsServing :
      (rs : List Request) (srv : Server)
      → AllFresh rs srv
      → IsServing srv
      → IsServing (serve_all host json rs srv)
  unfolding serve_all
  serve_all-IsServing [] srv f h = h
  serve_all-IsServing (r ∷ rs) srv (f, fs) h =
      serve_all-IsServing rs (serve host json r srv) fs (serve-IsServing r srv f h)
