-- ===== src/Sandbox/Ops.antt =====
-- The operations of a sandbox that is started: `snapshot`, `revert`, `attach`, `exec`.
use prehnite.Prelude.{
  ℕ, true, not, List, [], ◌∷◌, ◌++◌, Option, none, some, contains, nat_eq, list_eq, if◌then◌else◌,
}
use prehnite.Prelude.Int.{ℤ, pos}
use prehnite.Text.{Str, lit}
use prehnite.Text.Utf8.{Bytes, decode}
use prehnite.Schemas.{CommandResult}
use prehnite.Errors.{Result, ok, err}
use prehnite.Sandbox.{
  ContainerKwargs, connected, connect_failed, created, create_failed, started, start_failed,
  remove_called, committed, commit_failed, attached, attach_failed, executed, exec_failed, Log,
  Created, container, not_found, api_error, Executed, ran, exec_error, Docker, Sandbox,
  make_container_kwargs, image_of, snapshot_repo, snapshot_changes,
}
use prehnite.Sandbox.Start.{Outcome, left_behind, raise, discard_container, stop, start}

module _ (docker : Docker) where
  unfoldable pub commit_result : Str → List Str → Option Str → Sandbox → Log → Outcome Str
  commit_result tag changes none sb log = (
    ok tag,
    record sb { snapshot_ids = sb.snapshot_ids ++ (tag ∷ []) },
    committed snapshot_repo tag changes ∷ log,
  )
  commit_result tag changes (some e) sb log =
      raise (lit "docker commit failed: " ++ e) (sb, commit_failed snapshot_repo tag changes ∷ log)

  -- `snapshot`, with the fresh uuid given.
  unfoldable pub snapshot : Str → List (Str × Str) → Sandbox → Log → Outcome Str
  unfolding commit_result
  snapshot snap_id extra_labels sb log = elim sb.container_id [
    | none ↦ raise (lit "sandbox is not started") (sb, log)
    | some id ↦
        let changes = snapshot_changes extra_labels in
        if sb.client
        then commit_result snap_id changes (docker.commit log id snap_id changes) sb log
        else raise (lit "sandbox is not started") (sb, log)
  ]

  -- In `revert` the removal after a failed start is guarded.
  unfoldable pub restart_container : Str → Option Str → Sandbox → Log → Outcome Str
  restart_container id none sb log = (ok id, record sb { container_id = some id }, started id ∷ log)
  restart_container id (some message) sb log =
      raise (lit "revert: docker start failed: " ++ message)
        (sb, remove_called id ∷ start_failed id ∷ log)

  unfoldable pub recreate_container : ContainerKwargs → Created → Sandbox → Log → Outcome Str
  unfolding restart_container
  recreate_container kwargs (container id) sb log =
      let log' : Log = created kwargs id ∷ log in
      restart_container id (docker.start log' id) sb log'
  recreate_container kwargs (not_found message) sb log =
      raise (lit "revert: could not create container from " ++ kwargs.image ++ lit ": " ++ message)
        (sb, create_failed kwargs ∷ log)
  recreate_container kwargs (api_error message) sb log =
      raise (lit "revert: could not create container from " ++ kwargs.image ++ lit ": " ++ message)
        (sb, create_failed kwargs ∷ log)

  unfoldable pub recreate : Result ContainerKwargs → Sandbox → Log → Outcome Str
  unfolding recreate_container
  recreate (err e) sb log = (err e, sb, log)
  recreate (ok kwargs) sb log = recreate_container kwargs (docker.create log kwargs) sb log

  unfoldable pub revert : Str → Sandbox → Log → Outcome Str
  unfolding recreate
  revert snapshot_id sb log =
      let (sb', log') = discard_container sb log in
      if not (contains sb.snapshot_ids snapshot_id)
      then raise (lit "unknown snapshot id: " ++ snapshot_id) (sb, log)
      else if not sb.client
      then raise (lit "sandbox is not started") (sb, log)
      else recreate (make_container_kwargs (image_of snapshot_id) sb') sb' log'

  unfoldable pub get_container : Str → Created → Sandbox → Log → Outcome Unit
  get_container id (container id') sb log =
      (ok tt, record sb { container_id = some id' }, attached id' ∷ log)
  get_container id (not_found message) sb log =
      raise (lit "container " ++ id ++ lit " not found — cannot resume session")
        (sb, attach_failed id ∷ log)
  get_container id (api_error message) sb log =
      raise (lit "docker attach failed: " ++ message) (sb, attach_failed id ∷ log)

  unfoldable pub connect_existing : Str → Option Str → Sandbox → Log → Outcome Unit
  unfolding get_container
  connect_existing id (some e) sb log =
      raise (lit "could not reach Docker daemon: " ++ e) (sb, connect_failed ∷ log)
  connect_existing id none sb log =
      get_container id (docker.get (connected ∷ log) id) (record sb { client = true })
        (connected ∷ log)

  unfoldable pub attach : Str → Sandbox → Log → Outcome Unit
  unfolding connect_existing
  attach id sb log = elim sb.container_id [
    | some old ↦ raise (lit "sandbox already attached / started") (sb, log)
    | none ↦ connect_existing id (docker.from_env log) sb log
  ]

  -- `_decode` of a stream that may be missing.
  decode_stream : Option Bytes → Str
  decode_stream none = []
  decode_stream (some bytes) = decode bytes

  exit_code_of : Option ℤ → ℤ
  exit_code_of none = pos 0
  exit_code_of (some n) = n

  streams_of : Option (Option Bytes × Option Bytes) → Str × Str
  unfolding decode_stream
  streams_of none = ([], [])
  streams_of (some (stdout, stderr)) = (decode_stream stdout, decode_stream stderr)

  unfoldable pub exec_result : Str → Str → ℕ → Executed → Sandbox → Log → Outcome CommandResult
  unfolding exit_code_of streams_of
  exec_result id cmd effective (ran exit_code output duration_ms) sb log =
      let (stdout, stderr) = streams_of output in
      (
        ok (record {
          cmd = cmd;
          exit_code = exit_code_of exit_code;
          stdout = stdout;
          stderr = stderr;
          duration_ms = duration_ms;
        }),
        sb,
        executed id cmd effective ∷ log,
      )
  exec_result id cmd effective (exec_error message) sb log =
      raise (lit "exec failed: " ++ message) (sb, exec_failed id cmd effective ∷ log)

  -- `exec`, with the task's own time limit.
  unfoldable pub exec : Str → Sandbox → Log → Outcome CommandResult
  unfolding exec_result
  exec cmd sb log = elim sb.container_id [
    | none ↦ raise (lit "sandbox is not started") (sb, log)
    | some id ↦
        let effective = sb.task.exec_timeout_seconds in
        exec_result id cmd effective (docker.exec_run log id cmd effective) sb log
  ]

-- A call of one of the methods, and a sandbox after a sequence of calls.
pub data Op : Type 0 where
  start_op stop_op : Op
  snapshot_op : Str → List (Str × Str) → Op
  revert_op attach_op exec_op : Str → Op

module _ (docker : Docker) where
  unfoldable pub perform_op : Op → Sandbox → Log → Sandbox × Log
  perform_op start_op sb log = left_behind (start docker sb log)
  perform_op stop_op sb log = stop sb log
  perform_op (snapshot_op tag labels) sb log = left_behind (snapshot docker tag labels sb log)
  perform_op (revert_op tag) sb log = left_behind (revert docker tag sb log)
  perform_op (attach_op id) sb log = left_behind (attach docker id sb log)
  perform_op (exec_op cmd) sb log = left_behind (exec docker cmd sb log)

  unfoldable pub perform_ops : List Op → Sandbox → Log → Sandbox × Log
  perform_ops [] sb log = (sb, log)
  perform_ops (op ∷ ops) sb log = let (sb', log') = perform_op op sb log in perform_ops ops sb' log'
