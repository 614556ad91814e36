-- ===== src/Runner/Trace.antt =====
-- What the trajectory of a run tells, and what the run returns.
use mathlib.Core.Path.{subst}
use prehnite.Prelude.{
  ℕ, ◌≤◌, ◌≡◌, refl, sym, true, List, ◌++◌, Option, none, some, arith, nat_eq, string_eq,
}
use prehnite.Text.{Str, lit}
use prehnite.Errors.{Error, sandbox_error, Result, ok, err}
use prehnite.Schemas.{str, run_started, run_finished, Task, RunStatus, error, TrajectoryEvent}
use prehnite.Overflow.{OverflowDir}
use prehnite.Trajectory.{new_writer, open_writer}
use prehnite.Trajectory.Sessions.Written.{open_writer-new}
use prehnite.Sandbox.{Log}
use prehnite.Session.{
  container_of, Host, World, Action, pure, throw, attempt, bound, write_event, start_sandbox,
  stop_sandbox, finish_payload, status_value,
}
use prehnite.Runner.{
  RunResult, Agent, run_setup, agent_phase, run_verify, finish, run_checks, after_setup,
  run_started_task, after_start, try_body, handled, sealed, drive, Ran, refused, ran, run_opened,
  run,
}
use prehnite.Runner.Kept.{
  run_cases, overhear-Keeps, start_sandbox-Keeps, run_setup-Keeps, agent_phase-Keeps,
  run_verify-Keeps,
}
use prehnite.Runner.Phases.{
  fresh, finished, phase_from, result_from, taken, IsWithin, step_start-fresh,
}
use prehnite.Runner.Writes.{
  phase_of, At, Ended, At-IsStable, Quiet-IsStable, Ended-IsStable, write_event-At, write_event-ok,
  finish_payload-Ended, At-weaken,
}

-- The result that the end of a run writes.
abbrev pub told : Result RunResult → Str
told (ok r) = status_value r.status
told (err e) = status_value error

-- A part of a run up to its end: it returns with the end told, or raises with the end to tell.
abbrev pub Done : Result RunResult × World → Type 0
Done (ok r, w) = Ended (some (str (told (ok r)))) w
Done (err e, w) = At 0 3 w

pub bound-Done :
    {A : Type 0} (lo hi : ℕ) (f : A → Action RunResult) (o : Result A × World)
    → hi ≤ 3
    → ((a : A) (w : World) → At lo hi w → Done (f a w))
    → At lo hi o.1
    → Done (bound f o)
bound-Done lo hi f (ok a, w) l k h = k a w h
bound-Done lo hi f (err e, w) l k h = At-weaken lo hi 0 3 w (omega arith) l h

returned-Done :
    {A : Type 0} (r : RunResult) (o : Result A × World) (a : A)
    → o.0 ≡ ok a
    → Ended (some (str (told (ok r)))) o.1
    → Done (bound (λ b. pure r) o)
returned-Done r (ok b, w) a e h = h
returned-Done r (err x, w) a e h = cc

abbrev pub IsTold : Result RunResult × World → Type 0
IsTold o = Ended (some (str (told o.0))) o.1

raised-IsTold :
    {A : Type 0} (e : Error) (o : Result A × World) (a : A)
    → o.0 ≡ ok a
    → Ended (some (str (status_value error))) o.1
    → IsTold (bound (λ b. throw e) o)
raised-IsTold e (ok b, w) a q h = h
raised-IsTold e (err x, w) a q h = cc

module _ (host : Host) (task : Task) (path : Str) where
  finish-Done :
      (status : RunStatus) (er reason : Str) (cid : Option Str) (w : World)
      → At 0 3 w
      → Done (finish host task path status er reason cid w)
  unfolding finish
  finish-Done status er reason cid w h =
      let (e, q) = write_event-ok host run_finished (finish_payload status er) w h.0 in
      returned-Done _ _ e q (finish_payload-Ended host status er w h)

  run_checks-Done :
      (cid : Option Str) (count : ℕ) (w : World)
      → At 1 2 w
      → Done (run_checks host task path cid count w)
  unfolding run_checks
  run_checks-Done cid count w h =
      bound-Done 1 3 _ (run_verify host task.verify w) (omega arith)
        (λ failures w h.
          finish-Done _ _ _ cid w (At-weaken 1 3 0 3 w (omega arith) (omega arith) h))
        (run_verify-Keeps host (taken 3) (At 1 3) (At-IsStable host 3) task.verify refl w
          (At-weaken 1 2 1 3 w (omega arith) (omega arith) h))

  after_setup-Done :
      (agent : Option Agent) (cmds : Option (List Str)) (cid reason : Option Str) (w : World)
      → At 1 1 w
      → Done (after_setup host task path agent cmds cid reason w)
  unfolding after_setup
  after_setup-Done agent cmds cid (some reason) w h =
      finish-Done _ _ _ cid w (At-weaken 1 1 0 3 w (omega arith) (omega arith) h)
  after_setup-Done agent cmds cid none w h =
      bound-Done 1 2 _ (agent_phase host agent cmds w) (omega arith)
        (λ count w h. run_checks-Done cid count w h)
        (agent_phase-Keeps host (taken 2) (At 1 2) (At-IsStable host 2) agent cmds refl w
          (At-weaken 1 1 1 2 w (omega arith) (omega arith) h))

  run_started_task-Done :
      (agent : Option Agent) (cmds : Option (List Str)) (w : World)
      → At 0 0 w
      → Done (run_started_task host task path agent cmds w)
  unfolding run_started_task container_of
  run_started_task-Done agent cmds w (o, h) =
      bound-Done 1 1 _ (write_event host run_started _ w) (omega arith)
        (λ e w' h'.
          bound-Done 1 1 _ (run_setup host task.setup w') (omega arith)
            (λ reason w h. after_setup-Done agent cmds _ reason w h)
            (run_setup-Keeps host (taken 1) (At 1 1) (At-IsStable host 1) task.setup refl w' h'))
        (write_event-At host 1 1 run_started _ w o
          (subst (IsWithin 1 1) (sym (step_start-fresh (phase_of w) h)) (omega arith, omega arith)))

  after_start-Done :
      (agent : Option Agent) (cmds : Option (List Str)) (r : Result (Unit {0})) (w : World)
      → At 0 0 w
      → Done (after_start host task path agent cmds r w)
  unfolding after_start
  after_start-Done agent cmds (ok u) w h = run_started_task-Done agent cmds w h
  after_start-Done agent cmds (err (sandbox_error m)) w h =
      finish-Done _ _ _ none w (At-weaken 0 0 0 3 w (omega arith) (omega arith) h)
  after_start-Done agent cmds (err e) w h = At-weaken 0 0 0 3 w (omega arith) (omega arith) h

  handled-IsTold : (o : Result RunResult × World) → Done o → IsTold (handled host task path o.0 o.1)
  unfolding handled
  handled-IsTold (ok r, w) h = h
  handled-IsTold (err e, w) h =
      let payload = finish_payload error (lit "unhandled: " ++ host.show_error e) in
      let (x, q) = write_event-ok host run_finished payload w h.0 in
      raised-IsTold e _ x q (finish_payload-Ended host error _ w h)

  try_body-Done :
      (agent : Option Agent) (cmds : Option (List Str)) (w : World)
      → At 0 0 w
      → Done (try_body host task path agent cmds w)
  unfolding try_body attempt
  try_body-Done agent cmds w h =
      after_start-Done agent cmds (start_sandbox host w).0 (start_sandbox host w).1
        (start_sandbox-Keeps host (taken 0) (At 0 0) (Quiet-IsStable host 0 0) w h)

-- The trajectory tells of one life of a session, and of the end that the run had.
abbrev pub TellsOf : Result RunResult → List TrajectoryEvent → Type 0
TellsOf r events =
    (phase_from fresh events ≡ finished) × (result_from none events ≡ some (str (told r)))

abbrev RanTold : Ran → Type 0
RanTold (refused e) = Unit
RanTold (ran r w) = TellsOf r w.run.events

pub sealed-TellsOf :
    (host : Host) (task : Task) (path : Str) (o : Result RunResult × World)
    → IsTold o
    → let o' = sealed host task path o in TellsOf o'.0 o'.1.run.events
unfolding sealed stop_sandbox
sealed-TellsOf host task path (r, w) h =
    let v = some (str (told r)) in
    let (o, p, q) = overhear-Keeps host (taken 0) (Ended v) (Ended-IsStable host v) w h in (p, q)

run_opened-RanTold :
    (host : Host) (task : Task) (path : Str) (agent : Option Agent) (cmds : Option (List Str))
    (dir : OverflowDir) (log : Log)
    → RanTold (
        run_opened host task path agent cmds log
          (open_writer host.codec (new_writer true) (record { file = none; overflow = dir })))
unfolding run_opened drive attempt phase_from
run_opened-RanTold host task path agent cmds dir log = rw (open_writer-new host.codec dir) (
    sealed-TellsOf host task path _ (
      handled-IsTold host task path _ (
        try_body-Done host task path agent cmds _ (
          record { opened = refl; unclosed = refl; next = 0; numbered = refl },
          (omega arith, omega arith),
        ))))

run-RanTold :
    (host : Host) (task : Task) (path : Str) (agent : Option Agent) (cmds : Option (List Str))
    (dir : OverflowDir) (log : Log)
    → RanTold (run host task path agent cmds (record { file = none; overflow = dir }) log)
run-RanTold host task path agent cmds dir log =
    run_cases host task path _ log RanTold (λ e. tt)
      (λ agent cmds. run_opened-RanTold host task path agent cmds dir log) agent cmds

-- Every run on a path that does not exist yet, returning or raising, leaves a trajectory that tells
-- of one life of a session, egress attempts aside: at most one start, then setup commands, then the
-- agent's commands, then verify commands, and exactly one run_finished event behind all of them. The
-- result in that event is the status that the run returns, or "error" if it raises.
pub run-TellsOf :
    (host : Host) (task : Task) (path : Str) (agent : Option Agent) (cmds : Option (List Str))
    (dir : OverflowDir) (log : Log) (r : Result RunResult) (w : World)
    → run host task path agent cmds (record { file = none; overflow = dir }) log ≡ ran r w
    → TellsOf r w.run.events
run-TellsOf host task path agent cmds dir log r w e =
    subst RanTold e (run-RanTold host task path agent cmds dir log)
