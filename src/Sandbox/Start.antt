-- ===== src/Sandbox/Start.antt =====
-- `start` and `stop`. Each takes the sandbox and the log, and gives what it returns or
-- raises, the sandbox and the log it leaves behind.
use prehnite.Prelude.{
  true, false, List, [], ◌∷◌, ◌++◌, Option, none, some, nat_eq, list_eq, if◌then◌else◌,
}
use prehnite.Text.{Str, lit}
use prehnite.Text.Order.{sorted_set}
use prehnite.Schemas.{NetworkMode, restricted, full}
use prehnite.Errors.{Result, ok, err, sandbox_error, docker_error}
use prehnite.Egress.{default_allowlist}
use prehnite.Sandbox.{
  ContainerKwargs, connected, connect_failed, proxy_started, proxy_stopped, created, create_failed,
  started, start_failed, stop_called, remove_called, image_remove_called, client_closed, Log,
  Created, container, not_found, api_error, Docker, Sandbox, make_container_kwargs,
}

abbrev pub Outcome : Type 0 → Type 0
Outcome A = Result A × Sandbox × Log

-- `_teardown_proxy`
unfoldable pub teardown_proxy : Sandbox → Log → Sandbox × Log
teardown_proxy sb log = elim sb.proxy [
  | none ↦ (sb, log)
  | some port ↦ (record sb { proxy = none }, proxy_stopped ∷ log)
]

-- What an operation leaves behind, whatever it returns or raises.
abbrev pub left_behind : {A : Type 0} → Outcome A → Sandbox × Log
left_behind (r, sb, log) = (sb, log)

abbrev pub raise : {A : Type 0} → Str → Sandbox × Log → Outcome A
raise message (sb, log) = (err (sandbox_error message), sb, log)

-- `old.stop(timeout=2)` and `old.remove(force=True)`, their errors ignored.
unfoldable pub discard_container : Sandbox → Log → Sandbox × Log
discard_container sb log = elim sb.container_id [
  | none ↦ (sb, log)
  | some id ↦ (record sb { container_id = none }, remove_called id ∷ stop_called id ∷ log)
]

-- The loop of `delete_snapshots`.
unfoldable pub remove_images : List Str → Log → Log
remove_images [] log = log
remove_images (tag ∷ tags) log = remove_images tags (image_remove_called tag ∷ log)

unfoldable pub delete_snapshots : Sandbox → Log → Sandbox × Log
unfolding remove_images
delete_snapshots sb log =
    if sb.client
    then (record sb { snapshot_ids = [] }, remove_images sb.snapshot_ids log)
    else (sb, log)

unfoldable pub close_client : Sandbox → Log → Sandbox × Log
close_client sb log =
    if sb.client then (record sb { client = false }, client_closed ∷ log) else (sb, log)

unfoldable pub stop : Sandbox → Log → Sandbox × Log
unfolding close_client
stop sb log =
    let (sb1, log1) = discard_container sb log in
    let (sb2, log2) = delete_snapshots sb1 log1 in
    let (sb3, log3) = teardown_proxy sb2 log2 in close_client sb3 log3

module _ (docker : Docker) where
  -- `container.start()` in `start`; if that fails, a removal that is not guarded.
  unfoldable pub after_failed_start : Str → Str → Option Str → Sandbox → Log → Outcome Unit
  after_failed_start id message none sb log =
      raise (lit "docker start failed: " ++ message) (teardown_proxy sb (remove_called id ∷ log))
  after_failed_start id message (some e) sb log = (err (docker_error e), sb, remove_called id ∷ log)

  unfoldable pub start_container : Str → Option Str → Sandbox → Log → Outcome Unit
  unfolding after_failed_start
  start_container id none sb log = (ok tt, record sb { container_id = some id }, started id ∷ log)
  start_container id (some message) sb log =
      let log' : Log = start_failed id ∷ log in
      after_failed_start id message (docker.remove log' id) sb log'

  unfoldable pub create_container : ContainerKwargs → Created → Sandbox → Log → Outcome Unit
  unfolding start_container
  create_container kwargs (container id) sb log =
      let log' : Log = created kwargs id ∷ log in start_container id (docker.start log' id) sb log'
  create_container kwargs (not_found message) sb log =
      raise
        (lit "image '"
          ++ kwargs.image
          ++ lit "' not found locally — build it first (see docker/base.Dockerfile)")
        (teardown_proxy sb (create_failed kwargs ∷ log))
  create_container kwargs (api_error message) sb log =
      raise (lit "docker create failed: " ++ message)
        (teardown_proxy sb (create_failed kwargs ∷ log))

  unfoldable pub create : Result ContainerKwargs → Sandbox → Log → Outcome Unit
  unfolding create_container
  create (err e) sb log = (err e, sb, log)
  create (ok kwargs) sb log = create_container kwargs (docker.create log kwargs) sb log

  unfoldable pub create_from : Sandbox → Log → Outcome Unit
  unfolding create
  create_from sb log = create (make_container_kwargs sb.task.image sb) sb log

  unfoldable pub with_proxy : NetworkMode → Sandbox → Log → Outcome Unit
  unfolding create_from
  with_proxy NetworkMode.none sb log = create_from sb log
  with_proxy full sb log = create_from sb log
  with_proxy restricted sb log =
      let allowlist = sorted_set (default_allowlist ++ sb.task.network.extra_allow) in
      let port = docker.start_proxy log allowlist in
      if sb.has_callback
      then create_from (record sb { proxy = some port }) (proxy_started allowlist port ∷ log)
      else raise (lit "restricted network mode requires an egress_callback") (sb, log)

  unfoldable pub connect_client : Option Str → Sandbox → Log → Outcome Unit
  unfolding with_proxy
  connect_client (some e) sb log =
      raise (lit "could not reach Docker daemon: " ++ e) (sb, connect_failed ∷ log)
  connect_client none sb log =
      with_proxy sb.task.network.mode (record sb { client = true }) (connected ∷ log)

  unfoldable pub start : Sandbox → Log → Outcome Unit
  unfolding connect_client
  start sb log = elim sb.container_id [
    | some id ↦ (ok tt, sb, log)
    | none ↦ connect_client (docker.from_env log) sb log
  ]
