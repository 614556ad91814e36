-- ===== src/Server/Tools/Recount.antt =====
-- The count that a restart recovers.
use mathlib.Core.Path.{subst}
use prehnite.Prelude.{ℕ, ◌≤◌, ◌≡◌, refl, List, Option, arith, nat_eq}
use prehnite.Text.{Str}
use prehnite.Errors.{ok}
use prehnite.Schemas.{Task, run_started}
use prehnite.Overflow.{OverflowDir}
use prehnite.Trajectory.File.{AllReadable}
use prehnite.Sandbox.{Log}
use prehnite.Session.{Host, World}
use prehnite.Runner.Kept.{IsStable, IsStable-weaken}
use prehnite.Runner.Phases.{taken}
use prehnite.Runner.Sealed.{any_type}
use prehnite.Runner.Readable.{
  WorldConsistent, WorldConsistent-IsStable, file_read, opened-IsConsistent,
}
use prehnite.Server.Tools.{start_action}
use prehnite.Server.Tools.Calls.{Call, perform_calls, OnOk, start_action-OnOk, perform_calls-Keeps}
use prehnite.Server.Tools.Life.{new_session, returned-OnOk}
use prehnite.Server.Tools.Count.{
  is_agent_command, count_events, count_agent_commands, count_agent_commands_lem, Tallied,
  Tallied-IsStable, taken-other, write_event-other, perform_calls-Tallied, other_type,
}

module _ (host : Host) (task : Task) (path : Str) (dir : OverflowDir) (log : Log) where
  quiet : (k : ℕ) → k ≤ 1 → IsStable host (taken k) (Tallied 0)
  quiet k l =
      IsStable-weaken host other_type (taken k) (Tallied 0) refl (λ t. taken-other k t l)
        (Tallied-IsStable host 0)

  steady : (k : ℕ) → IsStable host (taken k) (WorldConsistent host)
  steady k =
      IsStable-weaken host any_type (taken k) (WorldConsistent host) refl (λ t h. refl)
        (WorldConsistent-IsStable host)

  new_session-Tallied : Tallied 0 (new_session task dir log)
  unfolding count_events
  new_session-Tallied = (record { opened = refl; unclosed = refl; next = 0; numbered = refl }, refl)

  started-Tallied : OnOk (Tallied 0) (start_action host task path (new_session task dir log))
  unfolding is_agent_command
  started-Tallied =
      start_action-OnOk host (Tallied 0) (Tallied 0) (quiet 0 (omega arith)) (quiet 1 (omega arith))
        (λ payload w h. write_event-other host 0 run_started payload w refl h) task path _
        new_session-Tallied

  started-Consistent :
      OnOk (WorldConsistent host) (start_action host task path (new_session task dir log))
  started-Consistent =
      start_action-OnOk host (WorldConsistent host) (WorldConsistent host) (steady 0) (steady 1)
        (λ payload w h. (WorldConsistent-IsStable host).on_write run_started payload w refl h) task
        path _
        (
          opened-IsConsistent host.codec dir,
          record { opened = refl; unclosed = refl; next = 0; numbered = refl },
          tt,
        )

  -- The trajectory of a session that has started, after any calls.
  pub session_consistent :
      (calls : List Call) (cid : Option Str) (n : ℕ) (w : World)
      → (start_action host task path (new_session task dir log)).0 ≡ ok cid
      → perform_calls host calls (0, (start_action host task path (new_session task dir log)).1)
        ≡ (n, w)
      → WorldConsistent host w
  session_consistent calls cid n w e q =
      let s = (start_action host task path (new_session task dir log)).1 in
      subst (λ (x : ℕ × World). WorldConsistent host x.1) q
        (perform_calls-Keeps host any_type (WorldConsistent host) (WorldConsistent-IsStable host)
          (λ sb log w h. h) calls 0 s refl refl refl refl
          (returned-OnOk (WorldConsistent host) _ cid e started-Consistent))

  -- A session that start_task has started on a new path, whatever calls of exec, note, fork and revert
  -- come then, failing or not: what a restart counts in the trajectory's file is the session's own
  -- count of agent commands. (Assumed: the JSON of the events can be read back.)
  pub session_recount :
      (calls : List Call) (cid : Option Str) (n : ℕ) (w : World)
      → (start_action host task path (new_session task dir log)).0 ≡ ok cid
      → perform_calls host calls (0, (start_action host task path (new_session task dir log)).1)
        ≡ (n, w)
      → AllReadable host.codec w.run.events
      → count_agent_commands host.codec w.run.disk.file ≡ n
  session_recount calls cid n w e q a =
      let s = (start_action host task path (new_session task dir log)).1 in
      let t =
        perform_calls-Tallied host calls (0, s)
          (returned-OnOk (Tallied 0) _ cid e started-Tallied) in
      let (o, m) = subst (λ (x : ℕ × World). Tallied x.0 x.1) q t in
      let (k, p, f) = session_consistent calls cid n w e q in
      count_agent_commands_lem host.codec w.run.events w.run.disk.file n
        (file_read host w.run w.run.disk.file refl f a k) m
