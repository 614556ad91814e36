-- ===== src/Sandbox.antt =====
-- sandbox.py: what a sandbox asks of Docker and of the egress proxy. Docker is a parameter: its
-- answer to a call is any function of what happened before. Calls of the Docker SDK are taken to
-- raise nothing but `docker.errors`.
pub mod Start
pub mod Ops
pub mod Ledger
pub mod Confined
use prehnite.Prelude.{
  ℕ, zero, suc, Bool, true, false, List, [], ◌∷◌, ◌++◌, Option, none, some, ◌==◌, filter, not,
  nat_eq,
}
use prehnite.Prelude.Int.{ℤ}
use prehnite.Prelude.Dict.{Dict}
use prehnite.Text.{Str, lit}
use prehnite.Text.Number.{str_nat}
use prehnite.Text.Utf8.{Bytes}
use prehnite.Schemas.{NetworkMode, restricted, full, NetworkSpec, Task}
use prehnite.Errors.{Result, ok, err, sandbox_error}

-- `_make_container_kwargs`
pub record ContainerKwargs : Type 0 where
  pub image : Str
  pub command : List Str
  pub working_dir : Str
  pub detach : Bool
  pub tty : Bool
  pub mem_limit : Str
  pub pids_limit : ℕ
  pub auto_remove : Bool
  pub labels : Dict Str Str
  pub network_mode : Str
  pub extra_hosts : Dict Str Str
  pub environment : Dict Str Str

-- What happened, newest first. The removals are the calls; Docker may refuse them.
pub data Event : Type 0 where
  connected connect_failed : Event
  proxy_started : List Str → ℕ → Event
  proxy_stopped : Event
  created : ContainerKwargs → Str → Event
  create_failed : ContainerKwargs → Event
  started start_failed stop_called remove_called : Str → Event
  committed commit_failed : Str → Str → List Str → Event
  image_remove_called : Str → Event
  attached attach_failed : Str → Event
  executed exec_failed : Str → Str → ℕ → Event
  client_closed : Event

abbrev pub Log : Type 0
Log = List Event

-- A container, or an error with its text.
pub data Created : Type 0 where
  container : Str → Created
  not_found api_error : Str → Created

-- `exec_run`: the exit code, the two streams, and how long it took.
pub data Executed : Type 0 where
  ran : Option ℤ → Option (Option Bytes × Option Bytes) → ℕ → Executed
  exec_error : Str → Executed

-- The daemon, the SDK and the proxy; `none` is success where an error is a text.
pub record Docker : Type 0 where
  pub from_env : Log → Option Str
  pub start_proxy : Log → List Str → ℕ
  pub create : Log → ContainerKwargs → Created
  pub start : Log → Str → Option Str
  pub remove : Log → Str → Option Str
  pub commit : Log → Str → Str → List Str → Option Str
  pub get : Log → Str → Created
  pub exec_run : Log → Str → Str → ℕ → Executed

pub record Sandbox : Type 0 where
  pub task : Task
  pub has_callback : Bool
  pub client : Bool
  pub container_id : Option Str
  pub proxy : Option ℕ
  pub snapshot_ids : List Str

-- `__init__`
abbrev pub new_sandbox : Task → Bool → Sandbox
new_sandbox task has_callback = record {
  task = task;
  has_callback = has_callback;
  client = false;
  container_id = none;
  proxy = none;
  snapshot_ids = [];
}

pub proxy_environment : Str → Dict Str Str
proxy_environment proxy_url =
    (lit "HTTP_PROXY", proxy_url)
    ∷ (lit "HTTPS_PROXY", proxy_url)
    ∷ (lit "http_proxy", proxy_url)
    ∷ (lit "https_proxy", proxy_url)
    ∷ (lit "NO_PROXY", lit "localhost,127.0.0.1,::1")
    ∷ (lit "no_proxy", lit "localhost,127.0.0.1,::1")
    ∷ []

unfoldable pub proxy_url : ℕ → Str
proxy_url port = lit "http://host.docker.internal:" ++ str_nat port

with_network : Str → Sandbox → Str → Dict Str Str → Dict Str Str → ContainerKwargs
with_network image sb network_mode extra_hosts environment = record {
  image = image;
  command = lit "sleep" ∷ lit "infinity" ∷ [];
  working_dir = sb.task.workdir;
  detach = true;
  tty = false;
  mem_limit = lit "2g";
  pids_limit = 512;
  auto_remove = false;
  labels = (lit "prehnite", lit "true") ∷ (lit "prehnite.task_id", sb.task.id) ∷ [];
  network_mode = network_mode;
  extra_hosts = extra_hosts;
  environment = environment;
}

network_kwargs : NetworkMode → Option ℕ → Str → Sandbox → Result ContainerKwargs
unfolding proxy_environment with_network
network_kwargs NetworkMode.none port image sb = ok (with_network image sb (lit "none") [] [])
network_kwargs full port image sb = ok (with_network image sb (lit "bridge") [] [])
network_kwargs restricted none image sb =
    err (sandbox_error (lit "restricted mode requires the egress proxy to be running"))
network_kwargs restricted (some port) image sb = ok (
    with_network image sb (lit "bridge") ((lit "host.docker.internal", lit "host-gateway") ∷ [])
      (proxy_environment (proxy_url port)))

unfoldable pub make_container_kwargs : Str → Sandbox → Result ContainerKwargs
unfolding network_kwargs
make_container_kwargs image sb = network_kwargs sb.task.network.mode sb.proxy image sb

unfoldable pub snapshot_repo : Str
snapshot_repo = lit "prehnite-snapshot"

-- `f"{SNAPSHOT_REPO}:{snapshot_id}"`
unfoldable pub image_of : Str → Str
image_of snapshot_id = snapshot_repo ++ b':' ∷ snapshot_id

-- One LABEL line; double quotes are dropped from the value.
label_change : Str × Str → Str
label_change (k, v) = lit "LABEL " ++ k ++ lit "=\"" ++ filter (λ c. not (c == b'"')) v ++ lit "\""

label_changes : List (Str × Str) → List Str
unfolding label_change
label_changes [] = []
label_changes (kv ∷ kvs) = label_change kv ∷ label_changes kvs

unfoldable pub snapshot_changes : List (Str × Str) → List Str
unfolding label_changes
snapshot_changes extra_labels = lit "LABEL prehnite.snapshot=\"true\"" ∷ label_changes extra_labels
