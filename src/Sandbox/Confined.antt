-- ===== src/Sandbox/Confined.antt =====
-- The network of every container that a sandbox creates.
pub mod Ops
use mathlib.Core.Path.{subst}
use prehnite.Prelude.Dict.{Dict, lookup}
use prehnite.Text.Number.{str_nat}
use prehnite.Prelude.{
  list_beq, ℕ, ◌≡◌, refl, sym, ap, ◌∙◌, Bool, true, false, not, List, [], ◌∷◌, ◌++◌, Option, none,
  some, contains, nat_eq, list_eq, if◌then◌else◌,
}
use prehnite.Text.{Str, lit}
use prehnite.Errors.{Result, ok, err}
use prehnite.Schemas.{NetworkMode, restricted, full, Task}
use prehnite.Sandbox.{
  ContainerKwargs, connected, connect_failed, proxy_started, proxy_stopped, created, create_failed,
  started, start_failed, stop_called, remove_called, committed, commit_failed, image_remove_called,
  attached, attach_failed, executed, exec_failed, client_closed, Log, Created, container, not_found,
  api_error, Executed, ran, exec_error, Docker, Sandbox, make_container_kwargs, network_kwargs,
  with_network, proxy_environment, proxy_url, image_of,
}
use prehnite.Egress.{default_allowlist}
use prehnite.Text.Order.{sorted_set}
use prehnite.Sandbox.Start.{
  raise, Outcome, left_behind, teardown_proxy, discard_container, remove_images, delete_snapshots,
  close_client, stop, after_failed_start, start_container, create_container, create, create_from,
  with_proxy, connect_client, start,
}
use prehnite.Sandbox.Ops.{
  commit_result, snapshot, restart_container, recreate_container, recreate, revert, get_container,
  connect_existing, attach, exec_result, exec,
}

-- The port of the proxy that runs after these events, read off the log.
abbrev pub running_port : Log → Option ℕ
running_port [] = none
running_port (proxy_started hosts port ∷ log) = some port
running_port (proxy_stopped ∷ log) = none
running_port (e ∷ log) = running_port log

-- The four variables that send a client to the proxy that listens at this port of the host.
abbrev pub IsProxied : ℕ → Dict Str Str → Type 0
IsProxied port environment =
    let url = some (lit "http://host.docker.internal:" ++ str_nat port) in
    (lookup (lit "HTTP_PROXY") environment ≡ url)
    × (lookup (lit "HTTPS_PROXY") environment ≡ url)
    × (lookup (lit "http_proxy") environment ≡ url)
    × (lookup (lit "https_proxy") environment ≡ url)

-- Without network; with the proxy that runs as the way out; with all of the network.
abbrev pub Confines : NetworkMode → Option ℕ → ContainerKwargs → Type 0
Confines NetworkMode.none running kwargs =
    (kwargs.network_mode ≡ lit "none") × (kwargs.environment ≡ [])
Confines restricted running kwargs =
    (port : ℕ) × (running ≡ some port)
    × (kwargs.network_mode ≡ lit "bridge")
    × IsProxied port kwargs.environment
    × (lookup (lit "host.docker.internal") kwargs.extra_hosts ≡ some (lit "host-gateway"))
Confines full running kwargs = (kwargs.network_mode ≡ lit "bridge") × (kwargs.environment ≡ [])

-- Every container was created with the network of the mode and the proxy that ran then.
abbrev pub AllConfined : NetworkMode → Log → Type 0
AllConfined mode [] = Unit
AllConfined mode (created kwargs id ∷ log) =
    Confines mode (running_port log) kwargs × AllConfined mode log
AllConfined mode (e ∷ log) = AllConfined mode log

-- The sandbox has this mode and knows the proxy that runs, and every container so far was confined.
abbrev pub IsConfined : NetworkMode → Sandbox × Log → Type 0
IsConfined mode (sb, log) =
    (sb.task.network.mode ≡ mode) × (sb.proxy ≡ running_port log) × AllConfined mode log

module _ (mode : NetworkMode) where
  abbrev pub Kwargs : Option ℕ → Result ContainerKwargs → Type 0
  Kwargs running (ok kwargs) = Confines mode running kwargs
  Kwargs running (err e) = Unit

  network_kwargs-Kwargs :
      (m : NetworkMode) (port : Option ℕ) (image : Str) (sb : Sandbox)
      → m ≡ mode
      → Kwargs port (network_kwargs m port image sb)
  unfolding network_kwargs with_network proxy_environment proxy_url lookup list_beq
  network_kwargs-Kwargs NetworkMode.none port image sb e = rw (sym e) (refl, refl)
  network_kwargs-Kwargs full port image sb e = rw (sym e) (refl, refl)
  network_kwargs-Kwargs restricted none image sb e = tt
  network_kwargs-Kwargs restricted (some port) image sb e =
      rw (sym e) (port, refl, refl, (refl, refl, refl, refl), refl)

  pub make_container_kwargs-Kwargs :
      (image : Str) (sb : Sandbox) (log : Log)
      → IsConfined mode (sb, log)
      → Kwargs (running_port log) (make_container_kwargs image sb)
  unfolding make_container_kwargs
  make_container_kwargs-Kwargs image sb log (m, p, a) =
      subst (λ running. Kwargs running (make_container_kwargs image sb)) p
        (network_kwargs-Kwargs sb.task.network.mode sb.proxy image sb m)

  pub if-IsConfined :
      {A : Type 0} (b : Bool) (x y : Outcome A)
      → IsConfined mode (left_behind x)
      → IsConfined mode (left_behind y)
      → IsConfined mode (left_behind (if b then x else y))
  if-IsConfined true x y h k = h
  if-IsConfined false x y h k = k

  pub option-IsConfined :
      {A : Type 0} (o : Option Str) (x : Outcome A) (f : Str → Outcome A)
      → IsConfined mode (left_behind x)
      → ((id : Str) → IsConfined mode (left_behind (f id)))
      → IsConfined mode (left_behind (elim o [ none ↦ x | some id ↦ f id ]))
  option-IsConfined none x f h k = h
  option-IsConfined (some id) x f h k = k id

  pub teardown_proxy-IsConfined :
      (sb : Sandbox) (log : Log)
      → IsConfined mode (sb, log)
      → IsConfined mode (teardown_proxy sb log)
  unfolding teardown_proxy
  teardown_proxy-IsConfined sb log h = torn sb.proxy
    where
      torn :
          (p : Option ℕ)
          → IsConfined mode (elim p [
            | none ↦ (sb, log)
            | some port ↦ (record sb { proxy = none }, proxy_stopped ∷ log)
          ])
      torn none = h
      torn (some port) = let (m, p, a) = h in (m, refl, a)

  pub discard_container-IsConfined :
      (sb : Sandbox) (log : Log)
      → IsConfined mode (sb, log)
      → IsConfined mode (discard_container sb log)
  unfolding discard_container
  discard_container-IsConfined sb log h = discarded sb.container_id
    where
      discarded :
          (o : Option Str)
          → IsConfined mode (elim o [
            | none ↦ (sb, log)
            | some id ↦ (record sb { container_id = none }, remove_called id ∷ stop_called id ∷ log)
          ])
      discarded none = h
      discarded (some id) = h

  module _ (docker : Docker) where
    start_container-IsConfined :
        (kwargs : ContainerKwargs) (id : Str) (o : Option Str) (sb : Sandbox) (log : Log)
        → Confines mode (running_port log) kwargs
        → IsConfined mode (sb, log)
        → IsConfined mode (left_behind (start_container docker id o sb (created kwargs id ∷ log)))
    unfolding start_container
    start_container-IsConfined kwargs id none sb log c (m, p, a) = (m, p, (c, a))
    start_container-IsConfined kwargs id (some message) sb log c (m, p, a) =
        failed (docker.remove (start_failed id ∷ created kwargs id ∷ log) id)
      where
        failed :
            (r : Option Str)
            → IsConfined mode (
                left_behind (
                  after_failed_start docker id message r sb
                    (start_failed id ∷ created kwargs id ∷ log)))
        failed none = unfold after_failed_start in teardown_proxy-IsConfined sb _ (m, p, (c, a))
        failed (some e) = unfold after_failed_start in (m, p, (c, a))

    create-IsConfined :
        (r : Result ContainerKwargs) (sb : Sandbox) (log : Log)
        → Kwargs (running_port log) r
        → IsConfined mode (sb, log)
        → IsConfined mode (left_behind (create docker r sb log))
    unfolding create
    create-IsConfined (err e) sb log k h = h
    create-IsConfined (ok kwargs) sb log k h = made (docker.create log kwargs)
      where
        made :
            (m : Created) → IsConfined mode (left_behind (create_container docker kwargs m sb log))
        made (not_found e) = unfold create_container in teardown_proxy-IsConfined sb _ h
        made (api_error e) = unfold create_container in teardown_proxy-IsConfined sb _ h
        made (container id) =
            unfold create_container in start_container-IsConfined kwargs id _ sb log k h

    with_proxy-IsConfined :
        (m : NetworkMode) (sb : Sandbox) (log : Log)
        → IsConfined mode (sb, log)
        → IsConfined mode (left_behind (with_proxy docker m sb log))
    unfolding with_proxy create_from
    with_proxy-IsConfined NetworkMode.none sb log h =
        create-IsConfined _ sb log (make_container_kwargs-Kwargs _ sb log h) h
    with_proxy-IsConfined full sb log h =
        create-IsConfined _ sb log (make_container_kwargs-Kwargs _ sb log h) h
    with_proxy-IsConfined restricted sb log (m, p, a) =
        let allowlist = sorted_set (default_allowlist ++ sb.task.network.extra_allow) in
        let port = docker.start_proxy log allowlist in
        let sb' : Sandbox = record sb { proxy = some port } in
        let log' : Log = proxy_started allowlist port ∷ log in
        let h : IsConfined mode (sb', log') = (m, refl, a) in
        if-IsConfined sb.has_callback _
          (raise (lit "restricted network mode requires an egress_callback") (sb, log))
          (create-IsConfined _ sb' log' (make_container_kwargs-Kwargs _ sb' log' h) h) (m, p, a)

    connect_client-IsConfined :
        (r : Option Str) (sb : Sandbox) (log : Log)
        → IsConfined mode (sb, log)
        → IsConfined mode (left_behind (connect_client docker r sb log))
    unfolding connect_client
    connect_client-IsConfined (some m) sb log h = h
    connect_client-IsConfined none sb log h = with_proxy-IsConfined _ _ _ h

    pub start-IsConfined :
        (sb : Sandbox) (log : Log)
        → IsConfined mode (sb, log)
        → IsConfined mode (left_behind (start docker sb log))
    unfolding start
    start-IsConfined sb log h =
        option-IsConfined sb.container_id _ _ (connect_client-IsConfined _ sb log h) λ id. h
