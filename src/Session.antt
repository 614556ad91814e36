-- ===== src/Session.antt =====
-- What runner.py and mcp_server.py drive: a sandbox and the writer of its trajectory. A step is a
-- function of both that returns or raises, and leaves both behind. The clock, `repr` and the proxy's
-- threads are parameters: while the proxy runs, a call of the sandbox may find attempts reported,
-- which the callback writes to the trajectory.
use prehnite.Prelude.{Bool, false, List, [], ◌∷◌, Option, none, some, ◌==◌, nat_eq}
use prehnite.Prelude.Int.{ℤ, pos, negsuc}
use prehnite.Text.{Str, lit}
use prehnite.Errors.{Error, Result, ok, err}
use prehnite.Schemas.{
  Value, null, int, str, array, object, Items, no_items, item, no_fields, field, Payload,
  NetworkMode, restricted, full, NetworkSpec, RunStatus, passed, failed, error, CommandResult,
  EventType, egress_attempt, TrajectoryEvent,
}
use prehnite.Trajectory.{Codec, Disk, write}
use prehnite.Trajectory.Sessions.{Run, wrote}
use prehnite.Sandbox.{Log, Docker, Sandbox}
use prehnite.Sandbox.Start.{Outcome, start, stop}
use prehnite.Sandbox.Ops.{exec}

-- What the code runs on. `attempts` gives the payloads that the proxy reports up to a point.
pub record Host : Type 0 where
  pub codec : Codec
  pub docker : Docker
  pub clock : Log → Disk → Str
  pub attempts : Log → Disk → List Payload
  pub show_error : Error → Str
  pub show_texts : List Str → Str

-- A sandbox with Docker's log, and a trajectory: its writer, its file, and the events written.
pub record World : Type 0 where
  pub sandbox : Sandbox
  pub log : Log
  pub run : Run

abbrev pub Action {ℓ} : Type ℓ → Type ℓ
Action A = World → Result A × World

module _ {ℓ} {A : Type ℓ} where
  abbrev pub pure : A → Action A
  pure a w = (ok a, w)

  abbrev pub throw : Error → Action A
  throw e w = (err e, w)

  -- `try: … except Exception as e`, the exception as a value.
  unfoldable pub attempt : Action A → Action (Result A)
  attempt m w = let (r, w') = m w in (ok r, w')

  abbrev pub bound {κ} : {B : Type κ} → (A → Action B) → Result A × World → Result B × World
  bound f (ok a, w) = f a w
  bound f (err e, w) = (err e, w)

infixl 5 ◌>>=◌ ◌>>◌
abbrev pub ◌>>=◌ {ℓ κ} : {A : Type ℓ} {B : Type κ} → Action A → (A → Action B) → Action B
◌>>=◌ m f w = bound f (m w)

abbrev pub ◌>>◌ {ℓ κ} : {A : Type ℓ} {B : Type κ} → Action A → Action B → Action B
m >> k = m >>= λ a. k

-- `exit_code == 0`
unfoldable pub is_zero : ℤ → Bool
is_zero (pos n) = n == 0
is_zero (negsuc n) = false

-- `result.model_dump()`
unfoldable pub dump_result : CommandResult → Payload
dump_result r =
    ("cmd", str r.cmd)
    ∷ ("exit_code", int r.exit_code)
    ∷ ("stdout", str r.stdout)
    ∷ ("stderr", str r.stderr)
    ∷ ("duration_ms", int (pos r.duration_ms))
    ∷ []

unfoldable pub items_of : List Str → Items
items_of [] = no_items
items_of (s ∷ ss) = item (str s) (items_of ss)

unfoldable pub mode_value : NetworkMode → Str
mode_value NetworkMode.none = lit "none"
mode_value restricted = lit "restricted"
mode_value full = lit "full"

-- `network.model_dump(mode="json")`
unfoldable pub dump_network : NetworkSpec → Value
dump_network n = object (
    field "mode" (str (mode_value n.mode))
      (field "extra_allow" (array (items_of n.extra_allow)) no_fields))

-- `status.value`
unfoldable pub status_value : RunStatus → Str
status_value passed = lit "passed"
status_value failed = lit "failed"
status_value error = lit "error"

unfoldable pub finish_payload : RunStatus → Str → Payload
finish_payload status reason = ("result", str (status_value status)) ∷ ("reason", str reason) ∷ []

unfoldable pub optional_str : Option Str → Value
optional_str none = null
optional_str (some s) = str s

unfoldable pub container_of : Action (Option Str)
container_of w = (ok w.sandbox.container_id, w)

module _ (host : Host) where
  -- `writer.write(type, payload)`
  unfoldable pub write_event : EventType → Payload → Action TrajectoryEvent
  write_event type payload w =
      let ts = host.clock w.log w.run.disk in
      let o = write host.codec ts type payload w.run.writer w.run.disk in
      (o.0, record w { run = wrote host.codec o w.run.events })

  -- `_record_egress`, once for each attempt; an exception stays in the proxy's thread.
  unfoldable pub record_egress : List Payload → World → World
  record_egress [] w = w
  record_egress (p ∷ ps) w = record_egress ps (write_event egress_attempt p w).1

  -- The attempts that have come in, if the proxy runs.
  unfoldable pub overhear : World → World
  overhear w = elim w.sandbox.proxy [
    | none ↦ w
    | some port ↦ record_egress (host.attempts w.log w.run.disk) w
  ]

  unfoldable pub called : {A : Type 0} → Outcome A → World → Result A × World
  called (r, sb, log) w = (r, overhear (record w { sandbox = sb; log = log }))

  unfoldable pub start_sandbox : Action (Unit {0})
  start_sandbox w = called (start host.docker w.sandbox w.log) w

  unfoldable pub exec_sandbox : Str → Action CommandResult
  exec_sandbox cmd w = called (exec host.docker cmd w.sandbox w.log) w

  -- `sandbox.stop()`; the proxy is heard until it is stopped.
  unfoldable pub stop_sandbox : World → World
  stop_sandbox w =
      let w' = overhear w in
      let (sb, log) = stop w'.sandbox w'.log in record w' { sandbox = sb; log = log }

  -- `_exec_and_record`
  unfoldable pub exec_and_record : EventType → Str → Action CommandResult
  exec_and_record type cmd = do
    result ← exec_sandbox cmd
    write_event type (dump_result result)
    pure result
