-- ===== src/Runner/Sealed.antt =====
-- The phases of a run and its seal.
use prehnite.Prelude.{ℕ, ◌≡◌, refl, ap, ◌∙◌, Bool, true, false, List, [], Option, none, some, inr}
use prehnite.Text.{Str}
use prehnite.Errors.{sandbox_error, Result, ok, err}
use prehnite.Schemas.{EventType, Task, RunStatus, run_started, run_finished}
use prehnite.Sandbox.Ledger.{
  live_containers, live_images, option_list, IsAccounted, stop-IsAccounted,
}
use prehnite.Trajectory.{Disk, TrajectoryWriter, close}
use prehnite.Sandbox.Ledger.Kept.{start-IsAccounted}
use prehnite.Sandbox.Ledger.Released.{exec-IsAccounted}
use prehnite.Session.{
  container_of, Host, World, attempt, ◌>>=◌, write_event, start_sandbox, stop_sandbox,
  finish_payload,
}
use prehnite.Runner.{
  RunResult, Agent, run_setup, agent_phase, run_verify, finish, run_checks, after_setup,
  started_payload, run_started_task, after_start, try_body, handled, sealed, drive, Ran, refused,
  ran, run_opened, run,
}
use prehnite.Runner.Kept.{
  run_cases, IsStable, Keeps, bind-Keeps, attempt-Keeps, overhear-Keeps, start_sandbox-Keeps,
  run_setup-Keeps, agent_phase-Keeps, run_verify-Keeps,
}

-- Every type of event.
abbrev pub any_type : EventType → Bool
any_type type = true

module _ (host : Host) (P : World → Type 0) (stable : IsStable host any_type P) (task : Task)
    (path : Str) where
  finish-Keeps :
      (status : RunStatus) (er reason : Str) (cid : Option Str)
      → Keeps host any_type P stable (finish host task path status er reason cid)
  unfolding finish
  finish-Keeps status er reason cid =
      bind-Keeps host any_type P stable (write_event host run_finished (finish_payload status er)) _
        (λ w h. stable.on_write run_finished (finish_payload status er) w refl h) λ e w h. h

  run_checks-Keeps :
      (cid : Option Str) (count : ℕ)
      → Keeps host any_type P stable (run_checks host task path cid count)
  unfolding run_checks
  run_checks-Keeps cid count =
      bind-Keeps host any_type P stable (run_verify host task.verify) _
        (run_verify-Keeps host any_type P stable task.verify refl)
        λ failures. finish-Keeps _ _ _ cid

  after_setup-Keeps :
      (agent : Option Agent) (cmds : Option (List Str)) (cid reason : Option Str)
      → Keeps host any_type P stable (after_setup host task path agent cmds cid reason)
  unfolding after_setup
  after_setup-Keeps agent cmds cid (some reason) = finish-Keeps _ _ _ cid
  after_setup-Keeps agent cmds cid none =
      bind-Keeps host any_type P stable (agent_phase host agent cmds) _
        (agent_phase-Keeps host any_type P stable agent cmds refl)
        λ count. run_checks-Keeps cid count

  run_started_task-Keeps :
      (agent : Option Agent) (cmds : Option (List Str))
      → Keeps host any_type P stable (run_started_task host task path agent cmds)
  unfolding run_started_task container_of
  run_started_task-Keeps agent cmds w h =
      bind-Keeps host any_type P stable {B = RunResult}
        (write_event host run_started (started_payload host task path w.sandbox.container_id)) _
        (λ w h. stable.on_write run_started _ w refl h)
        (λ e.
          bind-Keeps host any_type P stable (run_setup host task.setup) _
            (run_setup-Keeps host any_type P stable task.setup refl)
            (λ reason. after_setup-Keeps agent cmds w.sandbox.container_id reason))
        w h

  after_start-Keeps :
      (agent : Option Agent) (cmds : Option (List Str)) (r : Result (Unit {0}))
      → Keeps host any_type P stable (after_start host task path agent cmds r)
  unfolding after_start
  after_start-Keeps agent cmds (ok u) = run_started_task-Keeps agent cmds
  after_start-Keeps agent cmds (err (sandbox_error m)) = finish-Keeps _ _ _ none
  after_start-Keeps agent cmds (err e) = λ w h. h

  handled-Keeps : (r : Result RunResult) → Keeps host any_type P stable (handled host task path r)
  unfolding handled
  handled-Keeps (ok r) = λ w h. h
  handled-Keeps (err e) =
      bind-Keeps host any_type P stable {B = RunResult} (write_event host run_finished _) _
        (λ w h. stable.on_write run_finished _ w refl h) λ x w h. h

  -- All of a run before its `finally`.
  pub unsealed-Keeps :
      (agent : Option Agent) (cmds : Option (List Str))
      → Keeps host any_type P stable
          (do r ← attempt (try_body host task path agent cmds); handled host task path r)
  unfolding try_body
  unsealed-Keeps agent cmds =
      bind-Keeps host any_type P stable (attempt (try_body host task path agent cmds)) _
        (attempt-Keeps host any_type P stable (try_body host task path agent cmds) (
          bind-Keeps host any_type P stable (attempt (start_sandbox host)) _
            (attempt-Keeps host any_type P stable (start_sandbox host)
              (start_sandbox-Keeps host any_type P stable))
            (after_start-Keeps agent cmds)))
        handled-Keeps

-- Nothing of the sandbox is left, and the trajectory is closed.
abbrev pub IsSealed : World → Type 0
IsSealed w =
    (w.sandbox.container_id ≡ none)
    × (live_containers w.log ≡ [])
    × (live_images w.log ≡ [])
    × (w.run.writer.fh ≡ false)
    × (w.run.writer.closed ≡ true)

abbrev WorldAccounted : World → Type 0
WorldAccounted w = IsAccounted (w.sandbox, w.log)

WorldAccounted-IsStable : (host : Host) → IsStable host any_type WorldAccounted
unfolding write_event
WorldAccounted-IsStable host = record {
  hears = refl;
  on_write = λ type payload w t h. h;
  on_start = λ w h. start-IsAccounted host.docker w.sandbox w.log h;
  on_exec = λ cmd w h. exec-IsAccounted host.docker cmd w.sandbox w.log h;
}

pub drive-IsSealed :
    (host : Host) (task : Task) (path : Str) (agent : Option Agent) (cmds : Option (List Str))
    → (w : World) → WorldAccounted w
    → IsSealed (drive host task path agent cmds w).1
unfolding drive sealed stop_sandbox close
drive-IsSealed host task path agent cmds w h =
    let stable = WorldAccounted-IsStable host in
    let u = unsealed-Keeps host WorldAccounted stable task path agent cmds w h in
    let o = overhear-Keeps host any_type WorldAccounted stable _ u in
    let ((c, i, k), n, s) = stop-IsAccounted _ _ o in (n, c ∙ ap option_list n, i ∙ s, refl, refl)

-- A run that got as far as its sandbox.
abbrev pub RanSealed : Ran → Type 0
RanSealed (refused e) = Unit
RanSealed (ran r w) = IsSealed w

run_opened-RanSealed :
    (host : Host) (task : Task) (path : Str) (agent : Option Agent) (cmds : Option (List Str))
    (o : Result (TrajectoryWriter × Disk))
    → RanSealed (run_opened host task path agent cmds [] o)
unfolding run_opened
run_opened-RanSealed host task path agent cmds (err e) = tt
run_opened-RanSealed host task path agent cmds (ok (writer, disk)) =
    drive-IsSealed host task path agent cmds _
      (unfold live_containers live_images in (refl, refl, inr refl))

-- However a run ends, returning or raising, whatever the agent does and Docker answers, and
-- whatever the proxy reports meanwhile: if its trajectory could be opened, then no container and no
-- snapshot image that it made is left whose removal was not asked for, and the trajectory is closed.
pub run-RanSealed :
    (host : Host) (task : Task) (path : Str) (agent : Option Agent) (cmds : Option (List Str))
    (disk : Disk)
    → RanSealed (run host task path agent cmds disk [])
run-RanSealed host task path agent cmds disk =
    run_cases host task path disk [] RanSealed (λ e. tt)
      (λ agent cmds. run_opened-RanSealed host task path agent cmds _) agent cmds
