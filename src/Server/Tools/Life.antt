-- ===== src/Server/Tools/Life.antt =====
-- What the trajectory of a session tells, from start_task to finish_task or abort_task.
use mathlib.Core.Path.{subst}
use prehnite.Prelude.{ℕ, ◌≡◌, refl, sym, true, List, [], Option, none, some, arith}
use prehnite.Text.{Str, lit}
use prehnite.Errors.{Result, ok, err}
use prehnite.Schemas.{str, Task, RunStatus, error, run_started, run_finished}
use prehnite.Overflow.{OverflowDir}
use prehnite.Trajectory.{new_writer, close}
use prehnite.Sandbox.{Log, new_sandbox}
use prehnite.Session.{
  Host, World, bound, ◌>>◌, stop_sandbox, finish_payload, status_value, container_of,
}
use prehnite.Runner.{RunResult, run_verify, verdict, verdict_reason, sealed}
use prehnite.Runner.Kept.{overhear-Keeps, run_verify-Keeps}
use prehnite.Runner.Phases.{finished, phase_from, result_from, taken, IsWithin, step_start-fresh}
use prehnite.Runner.Writes.{
  phase_of, At, Ended, At-IsStable, Quiet-IsStable, Ended-IsStable, write_event-At, write_event-ok,
  finish_payload-Ended, At-weaken,
}
use prehnite.Runner.Trace.{told, Done, bound-Done, TellsOf}
use prehnite.Server.Tools.{
  start_action, finish_body, finish_action, abort_action, close_writer, stop_session,
}
use prehnite.Server.Tools.Calls.{Call, perform_calls, perform_calls-Keeps, OnOk, start_action-OnOk}

-- A session of a new path, its writer just opened.
abbrev pub new_session : Task → OverflowDir → Log → World
new_session task dir log = record {
  sandbox = new_sandbox task true;
  log = log;
  run = record {
    events = [];
    writer = record (new_writer true) { fh = true };
    disk = record { file = some []; overflow = dir };
  };
}

new_session-At : (task : Task) (dir : OverflowDir) (log : Log) → At 0 0 (new_session task dir log)
unfolding phase_from
new_session-At task dir log = (
  record { opened = refl; unclosed = refl; next = 0; numbered = refl },
  (omega arith, omega arith),
)

pub returned-OnOk :
    {A : Type 0} (P : World → Type 0) (o : Result A × World) (a : A) → o.0 ≡ ok a → OnOk P o → P o.1
returned-OnOk P (ok b, w) a e h = h
returned-OnOk P (err x, w) a e h = cc

module _ (host : Host) (task : Task) (path : Str) where
  -- The calls of a session that has started.
  calls-At :
      (calls : List Call) (dir : OverflowDir) (log : Log) (cid : Option Str)
      → (start_action host task path (new_session task dir log)).0 ≡ ok cid
      → At 1 2
          (perform_calls host calls
            (0, (start_action host task path (new_session task dir log)).1)).1
  calls-At calls dir log cid e =
      perform_calls-Keeps host (taken 2) (At 1 2) (At-IsStable host 2) (λ sb log w h. h) calls 0 _
        refl refl refl refl
        (At-weaken 1 1 1 2 (start_action host task path (new_session task dir log)).1 (omega arith)
          (omega arith)
          (returned-OnOk (At 1 1) _ cid e (
            start_action-OnOk host (At 0 0) (At 1 1) (Quiet-IsStable host 0 0) (At-IsStable host 1)
              (λ payload w (o, h). write_event-At host 1 1 run_started payload w o (
                subst (IsWithin 1 1) (sym (step_start-fresh (phase_of w) h))
                  (omega arith, omega arith)))
              task path _ (new_session-At task dir log))))

  -- The write of the last event, and what is returned behind it.
  written-Done :
      {A : Type 0} (f : World → RunResult) (status : RunStatus) (o : Result A × World) (a : A)
      → ((w : World) → (f w).status ≡ status)
      → o.0 ≡ ok a
      → Ended (some (str (status_value status))) o.1
      → Done (bound (λ b w. (ok (f w), w)) o)
  written-Done f status (ok b, w) a s e h = rw (s w) h
  written-Done f status (err x, w) a s e h = cc

  finish_body-Done : (count : ℕ) (w : World) → At 1 2 w → Done (finish_body host task path count w)
  unfolding finish_body container_of
  finish_body-Done count w h =
      bound-Done 1 3 _ (run_verify host task.verify w) (omega arith)
        (λ failures w h.
          let (x, q) =
            write_event-ok host run_finished
              (finish_payload (verdict host failures) (verdict_reason host failures count)) w h.0 in
          written-Done _ (verdict host failures) _ x (λ w. refl) q
            (finish_payload-Ended host _ _ w (At-weaken 1 3 0 3 w (omega arith) (omega arith) h)))
        (run_verify-Keeps host (taken 3) (At 1 3) (At-IsStable host 3) task.verify refl w
          (At-weaken 1 2 1 3 w (omega arith) (omega arith) h))

-- A call of finish_task that returns tells of its end; one that raises tells of none. In both cases
-- the trajectory is closed.
abbrev pub IsSettled : Result RunResult × World → Type 0
IsSettled (ok r, w) = TellsOf (ok r) w.run.events × (w.run.writer.closed ≡ true)
IsSettled (err e, w) = IsWithin 0 3 (phase_of w) × (w.run.writer.closed ≡ true)

abbrev pub IsAborted : Result (Unit {0}) × World → Type 0
IsAborted (r, w) =
    (r ≡ ok tt)
    × (phase_of w ≡ finished)
    × (result_from none w.run.events ≡ some (str (lit "error")))
    × (w.run.writer.closed ≡ true)

module _ (host : Host) (task : Task) (path : Str) where
  sealed-IsSettled : (o : Result RunResult × World) → Done o → IsSettled (sealed host task path o)
  unfolding sealed stop_sandbox close
  sealed-IsSettled (ok r, w) h =
      let v = some (str (told (ok r))) in
      let (o, p, q) = overhear-Keeps host (taken 0) (Ended v) (Ended-IsStable host v) w h in
      ((p, q), refl)
  sealed-IsSettled (err e, w) h =
      let (o, p) = overhear-Keeps host (taken 0) (At 0 3) (Quiet-IsStable host 0 3) w h in (p, refl)

  aborted_lem :
      {A : Type 0} (o : Result A × World) (a : A)
      → o.0 ≡ ok a
      → Ended (some (str (lit "error"))) o.1
      → IsAborted (bound (λ b. stop_session host >> close_writer) o)
  unfolding stop_session close_writer stop_sandbox close
  aborted_lem (ok b, w) a q h =
      let v = some (str (lit "error")) in
      let (o, p, r) = overhear-Keeps host (taken 0) (Ended v) (Ended-IsStable host v) w h in
      (refl, p, r, refl)
  aborted_lem (err x, w) a q h = cc

  abort_action-IsAborted : (w : World) → At 1 2 w → IsAborted (abort_action host w)
  unfolding abort_action status_value
  abort_action-IsAborted w h =
      let h' = At-weaken 1 2 0 3 w (omega arith) (omega arith) h in
      let (x, q) =
        write_event-ok host run_finished (finish_payload error (lit "aborted by agent")) w h.0 in
      aborted_lem _ x q (finish_payload-Ended host error (lit "aborted by agent") w h')

  -- A session that start_task has started on a path where no trajectory is yet, whatever calls of
  -- exec, note, fork and revert come then, failing or not: finish_task, if it returns, leaves a trajectory that tells of one life of a
  -- session, with the result it returns, and if it raises, one that tells of no end; abort_task always
  -- returns and leaves one that tells of the end "error". The trajectory is closed.
  pub session-IsSettled :
      (calls : List Call) (dir : OverflowDir) (log : Log) (cid : Option Str)
      → (start_action host task path (new_session task dir log)).0 ≡ ok cid
      → let s =
          perform_calls host calls
            (0, (start_action host task path (new_session task dir log)).1) in
        IsSettled (finish_action host task path s.0 s.1) × IsAborted (abort_action host s.1)
  unfolding finish_action
  session-IsSettled calls dir log cid e =
      let h = calls-At host task path calls dir log cid e in
      (sealed-IsSettled _ (finish_body-Done host task path _ _ h), abort_action-IsAborted _ h)
