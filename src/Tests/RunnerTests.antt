-- ===== src/Tests/RunnerTests.antt =====
-- A run of one agent command and one verify command, on a Docker that answers everything.
use prehnite.Prelude.{
  ◌≡◌, refl, true, [], ◌∷◌, ◌++◌, Option, none, some, ◌==◌, list_eq, nat_eq, string_eq,
  if◌then◌else◌, ◌+◌, ◌-◌, ℕ,
}
use prehnite.Prelude.Int.{pos}
use prehnite.Prelude.Dict.{lookup, insert}
use prehnite.Text.{Str, lit}
use prehnite.Errors.{Result, ok, err}
use prehnite.Schemas.{
  Value, int, str, object, no_fields, field, NetworkMode, Task, TrajectoryEvent, run_started,
  agent_command, verify_command, run_finished, EventType, Payload,
}
use prehnite.Overflow.{cap_command_data, cap_stream}
use prehnite.Text.Utf8.{encode}
use prehnite.Trajectory.{Codec, is_capped, open_writer, write, read_trajectory, get_seq}
use prehnite.Trajectory.Sessions.{wrote, Numbered, begin}
use prehnite.Trajectory.File.{IsReadable}
use prehnite.Text.Lines.{strip, lstrip, rstrip, is_space, is_line_end}
use prehnite.Sandbox.{container, ran as executed, Docker, new_sandbox, make_container_kwargs}
use prehnite.Sandbox.Start.{
  start, stop, connect_client, with_proxy, create_from, create, create_container, start_container,
  discard_container,
}
use prehnite.Sandbox.Ops.{exec, exec_result}
use prehnite.Session.{
  container_of, Host, World, write_event, overhear, called, start_sandbox, exec_sandbox,
  stop_sandbox, exec_and_record, is_zero, dump_result, dump_network, status_value, finish_payload,
  optional_str, attempt,
}
use prehnite.Runner.{
  RunResult, Ran, refused, ran, run, run_opened, drive, run_setup, agent_phase, run_commands,
  run_verify, verdict, verdict_reason, finish, run_checks, after_setup, started_payload,
  run_started_task, after_start, try_body, handled, sealed,
}
use prehnite.Runner.Sealed.{RanSealed, run-RanSealed}
use prehnite.Runner.Readable.{run_readable}
use prehnite.Runner.Trace.{TellsOf, run-TellsOf}

abbrev pub task : Task
task = record {
  id = lit "t";
  description = lit "a task";
  image = lit "base";
  network = record { mode = NetworkMode.none; extra_allow = [] };
  timeout_seconds = 600;
  exec_timeout_seconds = 60;
  workdir = lit "/workspace";
  setup = [];
  verify = lit "v" ∷ [];
  tags = [];
  difficulty = none;
}

abbrev pub docker : Docker
docker = record {
  from_env = λ log. none;
  start_proxy = λ log hosts. 8080;
  create = λ log kwargs. container (lit "c");
  start = λ log id. none;
  remove = λ log id. none;
  commit = λ log id tag changes. none;
  get = λ log id. container id;
  exec_run = λ log id cmd limit. executed none none 5;
}

abbrev pub load : Str → Option Value
load (a ∷ c ∷ b ∷ s) = some (object (field "seq" (int (pos (c - 48))) no_fields))
load _ = none

abbrev command_data : Str → Payload
command_data cmd =
    ("cmd", str cmd)
    ∷ ("exit_code", int (pos 0))
    ∷ ("stdout", str [])
    ∷ ("stderr", str [])
    ∷ ("duration_ms", int (pos 5))
    ∷ []

abbrev pub event : ℕ → EventType → Payload → TrajectoryEvent
event seq type payload = record { seq = seq; ts = lit "now"; type = type; payload = payload }

abbrev pub ls_event : TrajectoryEvent
ls_event = event 1 agent_command (command_data (lit "ls"))

abbrev verify_event : TrajectoryEvent
verify_event = event 2 verify_command (command_data (lit "v"))

abbrev pub started_event : TrajectoryEvent
started_event = event 0 run_started (
    ("task_id", str (lit "t"))
    ∷ ("image", str (lit "base"))
    ∷ ("container_id", str (lit "c"))
    ∷ ("network", dump_network task.network)
    ∷ [])

abbrev finished_event : TrajectoryEvent
finished_event =
    event 3 run_finished
      (("result", str (lit "passed")) ∷ ("reason", str (lit "all verify checks passed")) ∷ [])

-- The event of the file with this seq.
abbrev nth : ℕ → TrajectoryEvent
nth n =
    if n == 0
    then started_event
    else if n == 1
    then ls_event
    else if n == 2
    then verify_event
    else finished_event

abbrev check : Value → Option TrajectoryEvent
check (object (field k (int (pos n)) no_fields)) = some (nth n)
check _ = none

abbrev pub codec : Codec
codec = record {
  dump = λ e. b'{' ∷ (48 + e.seq) ∷ b'}' ∷ [];
  loads = load;
  validate = check;
  sha256 = λ bytes. bytes;
}

abbrev pub host : Host
host = record {
  codec = codec;
  docker = docker;
  clock = λ log disk. lit "now";
  attempts = λ log disk. [];
  show_error = λ e. [];
  show_texts = λ ss. [];
}

abbrev passing_run : Ran
passing_run =
    run host task (lit "p") none (some (lit "ls" ∷ [])) (record { file = none; overflow = [] }) []

abbrev file_of : Ran → Option Str
file_of (refused e) = none
file_of (ran r w) = w.run.disk.file

abbrev world_of : Ran → World
world_of (refused e) = record { sandbox = new_sandbox task true; log = []; run = begin true [] }
world_of (ran r w) = w

abbrev result_of : Ran → Result RunResult
result_of (refused e) = err e
result_of (ran r w) = r

four_events :
    (world_of passing_run).run.events
    ≡ started_event ∷ ls_event ∷ verify_event ∷ finished_event ∷ []
unfolding run run_opened drive attempt run_setup agent_phase run_commands run_verify finish
    run_checks after_setup container_of started_payload run_started_task after_start try_body
    handled sealed write_event overhear called start_sandbox exec_sandbox stop_sandbox
    exec_and_record is_zero start stop connect_client with_proxy create_from create create_container
    start_container discard_container exec exec_result make_container_kwargs is_capped open_writer
    write wrote optional_str cap_command_data finish_payload lookup status_value verdict_reason
    dump_result verdict cap_stream encode insert
four_events = refl

four_lines :
    file_of passing_run
    ≡ some (lit "{0}" ++ 10 ∷ lit "{1}" ++ 10 ∷ lit "{2}" ++ 10 ∷ lit "{3}" ++ 10 ∷ [])
unfolding run run_opened drive attempt run_setup agent_phase run_commands run_verify finish
    run_checks after_setup container_of started_payload run_started_task after_start try_body
    handled sealed write_event overhear called start_sandbox exec_sandbox stop_sandbox
    exec_and_record is_zero start stop connect_client with_proxy create_from create create_container
    start_container discard_container exec exec_result make_container_kwargs is_capped open_writer
    write wrote optional_str cap_command_data finish_payload lookup status_value verdict_reason
    dump_result verdict cap_stream encode insert
four_lines = refl

run-RanSealed_example : RanSealed passing_run
run-RanSealed_example =
    run-RanSealed host task (lit "p") none (some (lit "ls" ∷ []))
      (record { file = none; overflow = [] })

run-TellsOf_example : TellsOf (result_of passing_run) (world_of passing_run).run.events
unfolding run run_opened drive attempt run_setup agent_phase run_commands run_verify finish
    run_checks after_setup container_of started_payload run_started_task after_start try_body
    handled sealed write_event overhear called start_sandbox exec_sandbox stop_sandbox
    exec_and_record is_zero start stop connect_client with_proxy create_from create create_container
    start_container discard_container exec exec_result make_container_kwargs is_capped open_writer
    write wrote optional_str cap_command_data finish_payload lookup status_value verdict_reason
    dump_result verdict cap_stream encode insert
run-TellsOf_example =
    run-TellsOf host task (lit "p") none (some (lit "ls" ∷ [])) [] [] (result_of passing_run)
      (world_of passing_run) refl

started-IsReadable : IsReadable codec started_event
unfolding strip lstrip rstrip is_space is_line_end get_seq
started-IsReadable = record {
  first = b'{';
  more = 48 ∷ b'}' ∷ [];
  fields = field "seq" (int (pos 0)) no_fields;
  shape = refl;
  one_line = (refl, (refl, (refl, tt)));
  trimmed = refl;
  loaded = refl;
  numbered = refl;
  valid = refl;
}

ls-IsReadable : IsReadable codec ls_event
unfolding strip lstrip rstrip is_space is_line_end get_seq
ls-IsReadable = record {
  first = b'{';
  more = 49 ∷ b'}' ∷ [];
  fields = field "seq" (int (pos 1)) no_fields;
  shape = refl;
  one_line = (refl, (refl, (refl, tt)));
  trimmed = refl;
  loaded = refl;
  numbered = refl;
  valid = refl;
}

verify-IsReadable : IsReadable codec verify_event
unfolding strip lstrip rstrip is_space is_line_end get_seq
verify-IsReadable = record {
  first = b'{';
  more = 50 ∷ b'}' ∷ [];
  fields = field "seq" (int (pos 2)) no_fields;
  shape = refl;
  one_line = (refl, (refl, (refl, tt)));
  trimmed = refl;
  loaded = refl;
  numbered = refl;
  valid = refl;
}

finished-IsReadable : IsReadable codec finished_event
unfolding strip lstrip rstrip is_space is_line_end get_seq
finished-IsReadable = record {
  first = b'{';
  more = 51 ∷ b'}' ∷ [];
  fields = field "seq" (int (pos 3)) no_fields;
  shape = refl;
  one_line = (refl, (refl, (refl, tt)));
  trimmed = refl;
  loaded = refl;
  numbered = refl;
  valid = refl;
}

run_readable_example :
    (read_trajectory codec (file_of passing_run) ≡ ok (world_of passing_run).run.events)
    × Numbered 0 (world_of passing_run).run.events
unfolding run run_opened drive attempt run_setup agent_phase run_commands run_verify finish
    run_checks after_setup container_of started_payload run_started_task after_start try_body
    handled sealed write_event overhear called start_sandbox exec_sandbox stop_sandbox
    exec_and_record is_zero start stop connect_client with_proxy create_from create create_container
    start_container discard_container exec exec_result make_container_kwargs is_capped open_writer
    write wrote optional_str cap_command_data finish_payload lookup status_value verdict_reason
    dump_result verdict cap_stream encode insert
run_readable_example =
    run_readable host task (lit "p") none (some (lit "ls" ∷ [])) [] [] (result_of passing_run)
      (world_of passing_run) refl
      (started-IsReadable, (ls-IsReadable, (verify-IsReadable, (finished-IsReadable, tt))))
