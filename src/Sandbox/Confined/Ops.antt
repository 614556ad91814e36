-- ===== src/Sandbox/Confined/Ops.antt =====
-- The network of containers, over any sequence of calls.
use prehnite.Prelude.{
  ℕ, refl, sym, ◌∙◌, ◌≡◌, Bool, true, false, not, List, [], ◌∷◌, Option, none, some, contains,
  nat_eq, list_eq, if◌then◌else◌,
}
use prehnite.Text.{Str}
use prehnite.Errors.{Result, ok, err}
use prehnite.Schemas.{NetworkMode, Task}
use prehnite.Sandbox.{
  ContainerKwargs, created, client_closed, Log, Created, container, not_found, api_error, Executed,
  ran, exec_error, Docker, Sandbox,
}
use prehnite.Sandbox.Start.{
  discard_container, left_behind, remove_images, delete_snapshots, close_client, stop,
}
use prehnite.Sandbox.Ops.{
  commit_result, snapshot, restart_container, recreate_container, recreate, revert, get_container,
  connect_existing, attach, exec_result, exec,
}
use prehnite.Sandbox.{new_sandbox}
use prehnite.Sandbox.Ops.{
  Op, start_op, stop_op, snapshot_op, revert_op, attach_op, exec_op, perform_op, perform_ops,
}
use prehnite.Sandbox.Confined.{
  AllConfined, running_port, IsConfined, Confines, Kwargs, make_container_kwargs-Kwargs,
  if-IsConfined, option-IsConfined, teardown_proxy-IsConfined, discard_container-IsConfined,
  start-IsConfined,
}

module _ (mode : NetworkMode) where
  remove_images-AllConfined :
      (tags : List Str) (log : Log)
      → AllConfined mode log
      → AllConfined mode (remove_images tags log)
  unfolding remove_images
  remove_images-AllConfined [] log h = h
  remove_images-AllConfined (tag ∷ tags) log h = remove_images-AllConfined tags _ h

  remove_images-running_port :
      (tags : List Str) (log : Log) → running_port (remove_images tags log) ≡ running_port log
  unfolding remove_images
  remove_images-running_port [] log = refl
  remove_images-running_port (tag ∷ tags) log = remove_images-running_port tags _

  delete_snapshots-IsConfined :
      (sb : Sandbox) (log : Log)
      → IsConfined mode (sb, log)
      → IsConfined mode (delete_snapshots sb log)
  unfolding delete_snapshots
  delete_snapshots-IsConfined sb log (m, p, a) = deleted sb.client
    where
      deleted :
          (b : Bool)
          → IsConfined mode (
              if b
              then (record sb { snapshot_ids = [] }, remove_images sb.snapshot_ids log)
              else (sb, log))
      deleted true = (
        m,
        p ∙ sym (remove_images-running_port sb.snapshot_ids log),
        remove_images-AllConfined sb.snapshot_ids log a,
      )
      deleted false = (m, p, a)

  close_client-IsConfined :
      (sb : Sandbox) (log : Log) → IsConfined mode (sb, log) → IsConfined mode (close_client sb log)
  unfolding close_client
  close_client-IsConfined sb log h = closed sb.client
    where
      closed :
          (b : Bool)
          → IsConfined mode
              (if b then (record sb { client = false }, client_closed ∷ log) else (sb, log))
      closed true = h
      closed false = h

  stop-IsConfined :
      (sb : Sandbox) (log : Log) → IsConfined mode (sb, log) → IsConfined mode (stop sb log)
  unfolding stop
  stop-IsConfined sb log h = close_client-IsConfined _ _ (
      teardown_proxy-IsConfined mode _ _
        (delete_snapshots-IsConfined _ _ (discard_container-IsConfined mode sb log h)))

  module _ (docker : Docker) where
    restart_container-IsConfined :
        (kwargs : ContainerKwargs) (id : Str) (o : Option Str) (sb : Sandbox) (log : Log)
        → Confines mode (running_port log) kwargs
        → IsConfined mode (sb, log)
        → IsConfined mode (left_behind (restart_container docker id o sb (created kwargs id ∷ log)))
    unfolding restart_container
    restart_container-IsConfined kwargs id none sb log c (m, p, a) = (m, p, (c, a))
    restart_container-IsConfined kwargs id (some message) sb log c (m, p, a) = (m, p, (c, a))

    recreate-IsConfined :
        (r : Result ContainerKwargs) (sb : Sandbox) (log : Log)
        → Kwargs mode (running_port log) r
        → IsConfined mode (sb, log)
        → IsConfined mode (left_behind (recreate docker r sb log))
    unfolding recreate
    recreate-IsConfined (err e) sb log k h = h
    recreate-IsConfined (ok kwargs) sb log k h = made (docker.create log kwargs)
      where
        made :
            (m : Created)
            → IsConfined mode (left_behind (recreate_container docker kwargs m sb log))
        made (not_found e) = unfold recreate_container in h
        made (api_error e) = unfold recreate_container in h
        made (container id) =
            unfold recreate_container in restart_container-IsConfined kwargs id _ sb log k h

    revert-IsConfined :
        (tag : Str) (sb : Sandbox) (log : Log)
        → IsConfined mode (sb, log)
        → IsConfined mode (left_behind (revert docker tag sb log))
    unfolding revert
    revert-IsConfined tag sb log h =
        let d = discard_container-IsConfined mode sb log h in
        if-IsConfined mode (not (contains sb.snapshot_ids tag)) _ _ h (
          if-IsConfined mode (not sb.client) _ _ h (
            recreate-IsConfined _ _ _
              (make_container_kwargs-Kwargs mode _ _ (discard_container sb log).1 d) d))

    commit_result-IsConfined :
        (tag : Str) (changes : List Str) (r : Option Str) (sb : Sandbox) (log : Log)
        → IsConfined mode (sb, log)
        → IsConfined mode (left_behind (commit_result docker tag changes r sb log))
    unfolding commit_result
    commit_result-IsConfined tag changes none sb log h = h
    commit_result-IsConfined tag changes (some e) sb log h = h

    snapshot-IsConfined :
        (tag : Str) (labels : List (Str × Str)) (sb : Sandbox) (log : Log)
        → IsConfined mode (sb, log)
        → IsConfined mode (left_behind (snapshot docker tag labels sb log))
    unfolding snapshot
    snapshot-IsConfined tag labels sb log h =
        option-IsConfined mode sb.container_id _ _ h
          λ id. if-IsConfined mode sb.client _ _ (commit_result-IsConfined tag _ _ sb log h) h

    get_container-IsConfined :
        (id : Str) (found : Created) (sb : Sandbox) (log : Log)
        → IsConfined mode (sb, log)
        → IsConfined mode (left_behind (get_container docker id found sb log))
    unfolding get_container
    get_container-IsConfined id (container id') sb log h = h
    get_container-IsConfined id (not_found m) sb log h = h
    get_container-IsConfined id (api_error m) sb log h = h

    connect_existing-IsConfined :
        (id : Str) (r : Option Str) (sb : Sandbox) (log : Log)
        → IsConfined mode (sb, log)
        → IsConfined mode (left_behind (connect_existing docker id r sb log))
    unfolding connect_existing
    connect_existing-IsConfined id (some m) sb log h = h
    connect_existing-IsConfined id none sb log h = get_container-IsConfined id _ _ _ h

    attach-IsConfined :
        (id : Str) (sb : Sandbox) (log : Log)
        → IsConfined mode (sb, log)
        → IsConfined mode (left_behind (attach docker id sb log))
    unfolding attach
    attach-IsConfined id sb log h =
        option-IsConfined mode sb.container_id _ _ (connect_existing-IsConfined id _ sb log h)
          λ i. h

    exec_result-IsConfined :
        (id cmd : Str) (limit : ℕ) (r : Executed) (sb : Sandbox) (log : Log)
        → IsConfined mode (sb, log)
        → IsConfined mode (left_behind (exec_result docker id cmd limit r sb log))
    unfolding exec_result
    exec_result-IsConfined id cmd limit (ran code output ms) sb log h = h
    exec_result-IsConfined id cmd limit (exec_error m) sb log h = h

    exec-IsConfined :
        (cmd : Str) (sb : Sandbox) (log : Log)
        → IsConfined mode (sb, log)
        → IsConfined mode (left_behind (exec docker cmd sb log))
    unfolding exec
    exec-IsConfined cmd sb log h =
        option-IsConfined mode sb.container_id _ _ h
          λ id. exec_result-IsConfined id cmd _ _ sb log h

    perform_op-IsConfined :
        (op : Op) (sb : Sandbox) (log : Log)
        → IsConfined mode (sb, log)
        → IsConfined mode (perform_op docker op sb log)
    unfolding perform_op
    perform_op-IsConfined start_op sb log h = start-IsConfined mode docker sb log h
    perform_op-IsConfined stop_op sb log h = stop-IsConfined sb log h
    perform_op-IsConfined (snapshot_op tag labels) sb log h =
        snapshot-IsConfined tag labels sb log h
    perform_op-IsConfined (revert_op tag) sb log h = revert-IsConfined tag sb log h
    perform_op-IsConfined (attach_op id) sb log h = attach-IsConfined id sb log h
    perform_op-IsConfined (exec_op cmd) sb log h = exec-IsConfined cmd sb log h

    perform_ops-IsConfined :
        (ops : List Op) (sb : Sandbox) (log : Log)
        → IsConfined mode (sb, log)
        → IsConfined mode (perform_ops docker ops sb log)
    unfolding perform_ops
    perform_ops-IsConfined [] sb log h = h
    perform_ops-IsConfined (op ∷ ops) sb log h =
        perform_ops-IsConfined ops _ _ (perform_op-IsConfined op sb log h)

-- Whatever Docker answers and whatever is called on a sandbox, in any order, errors and reverts to
-- snapshots included: every container that it creates has the network of its task's mode. In mode none
-- it has no network and an empty environment; in mode full the bridge and an empty environment; in
-- restricted mode the bridge, HTTP_PROXY, HTTPS_PROXY, http_proxy and https_proxy set to
-- http://host.docker.internal: and the port of the egress proxy that runs then, and this name as the
-- host's gateway.
pub sandbox-AllConfined :
    (docker : Docker) (ops : List Op) (task : Task) (has_callback : Bool)
    → AllConfined task.network.mode (perform_ops docker ops (new_sandbox task has_callback) []).1
sandbox-AllConfined docker ops task has_callback =
    (perform_ops-IsConfined task.network.mode docker ops (new_sandbox task has_callback) []
      (refl, refl, tt)).2
