-- ===== src/Tests/SandboxTests.antt =====
-- A sandbox that forks, reverts and loses its container, against a Docker that refuses to start
-- containers from a snapshot.
use prehnite.Prelude.{
  ◌≡◌, refl, true, List, [], ◌∷◌, Option, none, some, ◌==◌, list_beq, list_eq, nat_eq, length,
  contains, if◌then◌else◌,
}
use prehnite.Text.{Str, lit}
use prehnite.Schemas.{restricted, NetworkMode, Task}
use prehnite.Sandbox.{
  Log, container, not_found, ran, Docker, new_sandbox, created, make_container_kwargs, image_of,
  snapshot_repo,
}
use prehnite.Sandbox.Start.{
  discard_container, start, connect_client, with_proxy, create_from, create, create_container,
  start_container,
}
use prehnite.Sandbox.Ops.{
  Op, start_op, snapshot_op, revert_op, exec_op, perform_op, perform_ops, snapshot, revert, exec,
  commit_result, recreate, recreate_container, restart_container, exec_result,
}
use prehnite.Sandbox.Confined.{AllConfined}
use prehnite.Sandbox.Confined.Ops.{sandbox-AllConfined}
use prehnite.Sandbox.Ledger.{live_images}
use prehnite.Sandbox.Ledger.Released.{IsReleased, sandbox-IsReleased}

abbrev task : Task
task = record {
  id = lit "t";
  description = lit "a task";
  image = lit "base";
  network = record { mode = NetworkMode.none; extra_allow = [] };
  timeout_seconds = 600;
  exec_timeout_seconds = 60;
  workdir = lit "/workspace";
  setup = [];
  verify = [];
  tags = [];
  difficulty = none;
}

abbrev no_restart : Log → Str → Option Str
no_restart (created kwargs id ∷ log) id' =
    if kwargs.image == lit "base" then none else some (lit "no")
no_restart _ id = none

abbrev docker : Docker
docker = record {
  from_env = λ log. none;
  start_proxy = λ log hosts. 8080;
  create = λ log kwargs. container (length log ∷ []);
  start = no_restart;
  remove = λ log id. none;
  commit = λ log id tag changes. none;
  get = λ log id. not_found (lit "no such container");
  exec_run = λ log id cmd limit. ran none none 5;
}

abbrev ops : List Op
ops =
    start_op
    ∷ exec_op (lit "ls")
    ∷ snapshot_op (lit "s1") ((lit "prehnite.session_id", lit "x") ∷ [])
    ∷ revert_op (lit "s1")
    ∷ []

held : live_images (perform_ops docker ops (new_sandbox task true) []).1 ≡ lit "s1" ∷ []
unfolding perform_ops perform_op live_images start connect_client with_proxy create_from create
    create_container start_container make_container_kwargs exec exec_result snapshot commit_result
    revert recreate recreate_container restart_container contains list_beq discard_container
    image_of snapshot_repo
held = refl

sandbox-IsReleased_example : IsReleased (perform_ops docker ops (new_sandbox task true) [])
sandbox-IsReleased_example = sandbox-IsReleased docker ops task true

abbrev restricted_task : Task
restricted_task = record task { network = record { mode = restricted; extra_allow = [] } }

sandbox-AllConfined_example :
    AllConfined restricted (perform_ops docker ops (new_sandbox restricted_task true) []).1
sandbox-AllConfined_example = sandbox-AllConfined docker ops restricted_task true
