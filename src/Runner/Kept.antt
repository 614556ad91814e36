-- ===== src/Runner/Kept.antt =====
-- What every write and every call of the sandbox keeps, a whole run keeps, whether it returns or
-- raises.
use prehnite.Prelude.{
  ℕ, ◌+◌, Bool, true, false, List, [], ◌∷◌, Option, none, some, ◌≡◌, if◌then◌else◌,
}
use prehnite.Text.{Str}
use prehnite.Errors.{Error, value_error, Result, ok, err}
use prehnite.Schemas.{
  Payload, Task, EventType, egress_attempt, setup_command, agent_command, verify_command,
}
use prehnite.Sandbox.{Log}
use prehnite.Sandbox.Start.{Outcome, start}
use prehnite.Sandbox.Ops.{exec}
use prehnite.Trajectory.{Disk, new_writer, open_writer}
use prehnite.Session.{
  Host, World, Action, attempt, bound, ◌>>=◌, write_event, record_egress, overhear, called,
  start_sandbox, exec_sandbox, exec_and_record, dump_result, is_zero,
}
use prehnite.Runner.{
  Agent, done, raises, command, run_setup, run_agent, run_commands, agent_phase, run_verify, Ran,
  refused, run_opened, run,
}

-- The world after a call of the sandbox, before anything is heard.
abbrev pub with_outcome : {A : Type 0} → Outcome A → World → World
with_outcome (r, sb, log) w = record w { sandbox = sb; log = log }

-- An invariant of the world that the elementary steps keep: the writes of some types of events,
-- egress attempts among them, and the calls of the sandbox.
pub record IsStable (host : Host) (types : EventType → Bool) (P : World → Type 0) : Type 0 where
  pub hears : types egress_attempt ≡ true
  pub on_write :
      (type : EventType) (payload : Payload) (w : World)
      → types type ≡ true
      → P w
      → P (write_event host type payload w).1
  pub on_start : (w : World) → P w → P (with_outcome (start host.docker w.sandbox w.log) w)
  pub on_exec :
      (cmd : Str) (w : World) → P w → P (with_outcome (exec host.docker cmd w.sandbox w.log) w)

pub IsStable-weaken :
    (host : Host) (types types' : EventType → Bool) (P : World → Type 0)
    → types' egress_attempt ≡ true
    → ((t : EventType) → types' t ≡ true → types t ≡ true)
    → IsStable host types P
    → IsStable host types' P
IsStable-weaken host types types' P e f s = record {
  hears = e;
  on_write = λ type payload w t h. s.on_write type payload w (f type t) h;
  on_start = s.on_start;
  on_exec = s.on_exec;
}

module _ (host : Host) (types : EventType → Bool) (P : World → Type 0)
    (stable : IsStable host types P) where
  abbrev pub Keeps : {A : Type 0} → Action A → Type 0
  Keeps m = (w : World) → P w → P (m w).1

  bound-Keeps :
      {A B : Type 0} (f : A → Action B) (o : Result A × World)
      → ((a : A) → Keeps (f a))
      → P o.1
      → P (bound f o).1
  bound-Keeps f (ok a, w) k h = k a w h
  bound-Keeps f (err e, w) k h = h

  pub bind-Keeps :
      {A B : Type 0} (m : Action A) (f : A → Action B)
      → Keeps m
      → ((a : A) → Keeps (f a))
      → Keeps (m >>= f)
  bind-Keeps m f h k w p = bound-Keeps f (m w) k (h w p)

  pub attempt-Keeps : {A : Type 0} (m : Action A) → Keeps m → Keeps (attempt m)
  unfolding attempt
  attempt-Keeps m h = h

  record_egress-Keeps : (ps : List Payload) (w : World) → P w → P (record_egress host ps w)
  unfolding record_egress
  record_egress-Keeps [] w h = h
  record_egress-Keeps (p ∷ ps) w h =
      record_egress-Keeps ps _ (stable.on_write egress_attempt p w stable.hears h)

  pub overhear-Keeps : (w : World) → P w → P (overhear host w)
  unfolding overhear
  overhear-Keeps w h = heard w.sandbox.proxy
    where
      heard :
          (port : Option ℕ)
          → P (elim port [
            | none ↦ w
            | some n ↦ record_egress host (host.attempts w.log w.run.disk) w
          ])
      heard none = h
      heard (some n) = record_egress-Keeps _ w h

  pub start_sandbox-Keeps : Keeps (start_sandbox host)
  unfolding start_sandbox called
  start_sandbox-Keeps w h = overhear-Keeps _ (stable.on_start w h)

  pub exec_sandbox-Keeps : (cmd : Str) → Keeps (exec_sandbox host cmd)
  unfolding exec_sandbox called
  exec_sandbox-Keeps cmd w h = overhear-Keeps _ (stable.on_exec cmd w h)

  pub exec_and_record-Keeps :
      (type : EventType) (cmd : Str) → types type ≡ true → Keeps (exec_and_record host type cmd)
  unfolding exec_and_record
  exec_and_record-Keeps type cmd t =
      bind-Keeps (exec_sandbox host cmd) _ (exec_sandbox-Keeps cmd) λ result.
        bind-Keeps (write_event host type (dump_result result)) _
          (λ w h. stable.on_write type (dump_result result) w t h) λ e w h. h

  if-Keeps :
      {A : Type 0} (b : Bool) (m k : Action A) → Keeps m → Keeps k → Keeps (if b then m else k)
  if-Keeps true m k hm hk = hm
  if-Keeps false m k hm hk = hk

  pub run_setup-Keeps : (cmds : List Str) → types setup_command ≡ true → Keeps (run_setup host cmds)
  unfolding run_setup
  run_setup-Keeps [] t = λ w h. h
  run_setup-Keeps (cmd ∷ cmds) t =
      bind-Keeps (exec_and_record host setup_command cmd) _
        (exec_and_record-Keeps setup_command cmd t)
        λ result. if-Keeps (is_zero result.exit_code) _ _ (run_setup-Keeps cmds t) λ w h. h

  run_agent-Keeps :
      (agent : Agent) (n : ℕ) → types agent_command ≡ true → Keeps (run_agent host agent n)
  unfolding run_agent
  run_agent-Keeps done n t = λ w h. h
  run_agent-Keeps (raises e) n t = λ w h. h
  run_agent-Keeps (command cmd next) n t =
      bind-Keeps (attempt (exec_and_record host agent_command cmd)) _
        (attempt-Keeps _ (exec_and_record-Keeps agent_command cmd t))
        λ r. run_agent-Keeps (next r) _ t

  run_commands-Keeps :
      (cmds : List Str) (n : ℕ) → types agent_command ≡ true → Keeps (run_commands host cmds n)
  unfolding run_commands
  run_commands-Keeps [] n t = λ w h. h
  run_commands-Keeps (cmd ∷ cmds) n t =
      bind-Keeps (exec_and_record host agent_command cmd) _
        (exec_and_record-Keeps agent_command cmd t) λ r. run_commands-Keeps cmds (n + 1) t

  pub agent_phase-Keeps :
      (agent : Option Agent) (cmds : Option (List Str))
      → types agent_command ≡ true
      → Keeps (agent_phase host agent cmds)
  unfolding agent_phase
  agent_phase-Keeps (some agent) cmds t = run_agent-Keeps agent 0 t
  agent_phase-Keeps none (some cmds) t = run_commands-Keeps cmds 0 t
  agent_phase-Keeps none none t = λ w h. h

  pub run_verify-Keeps :
      (cmds : List Str) → types verify_command ≡ true → Keeps (run_verify host cmds)
  unfolding run_verify
  run_verify-Keeps [] t = λ w h. h
  run_verify-Keeps (cmd ∷ cmds) t =
      bind-Keeps (exec_and_record host verify_command cmd) _
        (exec_and_record-Keeps verify_command cmd t)
        λ r. bind-Keeps (run_verify host cmds) _ (run_verify-Keeps cmds t) λ fs w h. h

-- What is refused, and what holds of a run behind its opening, holds of a run.
pub run_cases :
    (host : Host) (task : Task) (path : Str) (disk : Disk) (log : Log) (Q : Ran → Type 0)
    → ((e : Error) → Q (refused e))
    → ((agent : Option Agent) (cmds : Option (List Str))
        → Q (
            run_opened host task path agent cmds log
              (open_writer host.codec (new_writer true) disk)))
    → (agent : Option Agent) (cmds : Option (List Str)) → Q (run host task path agent cmds disk log)
unfolding run
run_cases host task path disk log Q h k (some agent) (some cmds) = h value_error
run_cases host task path disk log Q h k (some agent) none = k (some agent) none
run_cases host task path disk log Q h k none (some cmds) = k none (some cmds)
run_cases host task path disk log Q h k none none = k none none
