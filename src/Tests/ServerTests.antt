-- ===== src/Tests/ServerTests.antt =====
-- A session of one command and one note, and a server that takes it up again.
use prehnite.Prelude.{
  ◌≡◌, refl, List, [], ◌∷◌, ◌++◌, Option, none, some, ◌==◌, list_beq, list_eq, nat_eq, string_eq,
  if◌then◌else◌, ◌+◌, ℕ,
}
use prehnite.Prelude.Int.{pos}
use prehnite.Prelude.Dict.{lookup, insert}
use prehnite.Text.{Str, lit}
use prehnite.Text.Lines.{strip, lstrip, rstrip, is_space, is_line_end}
use prehnite.Text.Utf8.{encode}
use prehnite.Errors.{ok}
use prehnite.Schemas.{
  Value, null, int, str, object, no_fields, field, TrajectoryEvent, agent_thought,
}
use prehnite.Overflow.{cap_command_data, cap_stream}
use prehnite.Trajectory.{Codec, is_capped, write, get_seq}
use prehnite.Trajectory.Sessions.{wrote}
use prehnite.Trajectory.File.{IsReadable}
use prehnite.Sandbox.{connected, attached, make_container_kwargs}
use prehnite.Sandbox.Start.{
  start, connect_client, with_proxy, create_from, create, create_container, start_container,
}
use prehnite.Sandbox.Ops.{exec, exec_result}
use prehnite.Session.{
  mode_value, Host, World, attempt, container_of, write_event, overhear, called, start_sandbox,
  exec_sandbox, optional_str, dump_result,
}
use prehnite.Runner.{run_setup, started_payload, counted}
use prehnite.Server.Tools.{
  start_action, session_started, setup_done, exec_action, note_action, thought_payload,
  finish_action, abort_action,
}
use prehnite.Server.Tools.Calls.{Call, exec_call, note_call, perform_call, perform_calls}
use prehnite.Server.Tools.Count.{count_agent_commands}
use prehnite.Server.Tools.Recount.{session_recount}
use prehnite.Server.Tools.Life.{new_session, IsSettled, IsAborted, session-IsSettled}
use prehnite.Server.Registry.{Server, Json, descriptor}
use prehnite.Server.Requests.Kept.{IsServing}
use prehnite.Server.Requests.Serving.{
  Request, start_request, exec_request, finish_request, serve_all, serve_all-IsServing,
}
use prehnite.Server.Resume.{resume_text}
use prehnite.Server.Resume.Restart.{resumed_session, restart_resumes}
use prehnite.Tests.RunnerTests.{task, load, event, started_event, ls_event, host as running_host}

abbrev thought_event : TrajectoryEvent
thought_event = event 2 agent_thought (("thought", str (lit "hm")) ∷ [])

abbrev nth : ℕ → TrajectoryEvent
nth n = if n == 0 then started_event else if n == 1 then ls_event else thought_event

abbrev check : Value → Option TrajectoryEvent
check (object (field k (int (pos n)) no_fields)) = some (nth n)
check _ = none

abbrev codec : Codec
codec = record {
  dump = λ e. b'{' ∷ (48 + e.seq) ∷ b'}' ∷ [];
  loads = load;
  validate = check;
  sha256 = λ bytes. bytes;
}

abbrev host : Host
host = record running_host { codec = codec }

abbrev calls : List Call
calls = exec_call (lit "ls") ∷ note_call (lit "hm") ∷ []

abbrev started_world : World
started_world = (start_action host task (lit "p") (new_session task [] [])).1

abbrev world : World
world = (perform_calls host calls (0, started_world)).1

three_events : world.run.events ≡ started_event ∷ ls_event ∷ thought_event ∷ []
unfolding start_action attempt session_started setup_done container_of write_event overhear called
    start_sandbox exec_sandbox exec_action note_action start connect_client with_proxy create_from
    create create_container start_container exec exec_result make_container_kwargs run_setup
    is_capped write wrote optional_str cap_command_data lookup dump_result cap_stream encode insert
    started_payload thought_payload perform_calls perform_call counted
three_events = refl

session-IsSettled_example :
    IsSettled
      (finish_action host task (lit "p") (perform_calls host calls (0, started_world)).0 world)
    × IsAborted (abort_action host world)
unfolding start_action attempt session_started setup_done container_of write_event overhear called
    start_sandbox exec_sandbox exec_action note_action start connect_client with_proxy create_from
    create create_container start_container exec exec_result make_container_kwargs run_setup
    is_capped write wrote optional_str cap_command_data lookup dump_result cap_stream encode insert
    started_payload thought_payload perform_calls perform_call counted
session-IsSettled_example = session-IsSettled host task (lit "p") calls [] [] (some (lit "c")) refl

started-IsReadable : IsReadable codec started_event
unfolding strip lstrip rstrip is_space is_line_end get_seq
started-IsReadable = record {
  first = b'{';
  more = 48 ∷ b'}' ∷ [];
  fields = field "seq" (int (pos 0)) no_fields;
  shape = refl;
  one_line = (refl, (refl, (refl, tt)));
  trimmed = refl;
  loaded = refl;
  numbered = refl;
  valid = refl;
}

ls-IsReadable : IsReadable codec ls_event
unfolding strip lstrip rstrip is_space is_line_end get_seq
ls-IsReadable = record {
  first = b'{';
  more = 49 ∷ b'}' ∷ [];
  fields = field "seq" (int (pos 1)) no_fields;
  shape = refl;
  one_line = (refl, (refl, (refl, tt)));
  trimmed = refl;
  loaded = refl;
  numbered = refl;
  valid = refl;
}

thought-IsReadable : IsReadable codec thought_event
unfolding strip lstrip rstrip is_space is_line_end get_seq
thought-IsReadable = record {
  first = b'{';
  more = 50 ∷ b'}' ∷ [];
  fields = field "seq" (int (pos 2)) no_fields;
  shape = refl;
  one_line = (refl, (refl, (refl, tt)));
  trimmed = refl;
  loaded = refl;
  numbered = refl;
  valid = refl;
}

session_recount_example : count_agent_commands codec world.run.disk.file ≡ 1
unfolding start_action attempt session_started setup_done container_of write_event overhear called
    start_sandbox exec_sandbox exec_action note_action start connect_client with_proxy create_from
    create create_container start_container exec exec_result make_container_kwargs run_setup
    is_capped write wrote optional_str cap_command_data lookup dump_result cap_stream encode insert
    started_payload thought_payload perform_calls perform_call counted
session_recount_example =
    session_recount host task (lit "p") [] [] calls (some (lit "c")) 1 world refl refl
      (started-IsReadable, (ls-IsReadable, (thought-IsReadable, tt)))

abbrev stored : Value
stored = object (
    field "session_id" (str (lit "s")) (
      field "task" null (
        field "container_id" (str (lit "c")) (
          field "trajectory_path" (str (lit "p")) (
            field "started_at_iso" (str (lit "now"))
              (field "network_mode" (str (lit "none")) no_fields))))))

abbrev json : Json
json = record {
  dumps = λ v. lit "text";
  loads = λ s. some stored;
  dump_task = λ t. null;
  validate_task = λ v. some task;
  show = λ v. [];
}

abbrev text : Str
text = lit "{0}" ++ 10 ∷ lit "{1}" ++ 10 ∷ lit "{2}" ++ 10 ∷ []

-- A new process, with what the old one left on disk.
abbrev server : Server
server = record {
  sessions = [];
  descriptors = (lit "s.json", lit "text") ∷ [];
  trajectories = (lit "p", text) ∷ [];
  overflow = [];
  log = [];
}

restart_resumes_example :
    resume_text host json (lit "s.json") (some (lit "text")) server
    ≡ ok (record server {
      sessions = insert (lit "s") (resumed_session task (lit "p") (lit "c") 1 world) [];
      trajectories = insert (lit "p") text server.trajectories;
      log = attached (lit "c") ∷ connected ∷ [];
    })
unfolding start_action attempt session_started setup_done container_of write_event overhear called
    start_sandbox exec_sandbox exec_action note_action start connect_client with_proxy create_from
    create create_container start_container exec exec_result make_container_kwargs run_setup
    is_capped write wrote optional_str cap_command_data lookup dump_result cap_stream encode insert
    started_payload thought_payload perform_calls perform_call counted descriptor mode_value
    list_beq
restart_resumes_example =
    restart_resumes host json task (lit "p") [] [] calls (some (lit "c")) 1 world (lit "s.json")
      (lit "c") (lit "now") text b's' [] server refl refl
      (started-IsReadable, (ls-IsReadable, (thought-IsReadable, tt))) refl refl (λ e. cc)
      (record { loaded = refl; validated = refl }) refl (record { answers = refl; held = refl })

abbrev empty : Server
empty = record { sessions = []; descriptors = []; trajectories = []; overflow = []; log = [] }

abbrev requests : List Request
requests =
    start_request (lit "t") (task ∷ []) (lit "r") (lit "now") (lit "s") (lit "now")
    ∷ exec_request (lit "s") (lit "ls")
    ∷ finish_request (lit "s")
    ∷ []

serve_all-IsServing_example : IsServing (serve_all host json requests empty)
unfolding lookup
serve_all-IsServing_example =
    serve_all-IsServing host json requests empty ((λ t e. refl), (tt, (tt, tt)))
      ((λ sid. refl), λ sid. tt)
