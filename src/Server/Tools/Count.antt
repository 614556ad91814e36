-- ===== src/Server/Tools/Count.antt =====
-- `_count_agent_commands`: what a restart reads from the trajectory, and the session's own count.
use prehnite.Prelude.{
  ℕ, suc, ◌+◌, ◌≤◌, ◌≡◌, refl, ap, ◌∙◌, Bool, true, false, not, List, [], ◌∷◌, ◌++◌, Option, arith,
  if◌then◌else◌, nat_eq,
}
use prehnite.Text.{Str}
use prehnite.Errors.{Result, ok, err}
use prehnite.Schemas.{
  Payload, CommandResult, EventType, egress_attempt, run_started, setup_command, agent_command,
  agent_thought, session_forked, session_reverted, verify_command, run_finished, TrajectoryEvent,
}
use prehnite.Trajectory.{Codec, read_trajectory}
use prehnite.Trajectory.Sessions.Written.{IsOpen, write-IsWritten}
use prehnite.Session.{Host, World, pure, bound, ◌>>=◌, write_event, exec_sandbox, dump_result}
use prehnite.Runner.{counted}
use prehnite.Runner.Kept.{IsStable, exec_sandbox-Keeps}
use prehnite.Runner.Phases.{taken}
use prehnite.Server.Tools.{exec_action}
use prehnite.Server.Tools.Calls.{
  Call, exec_call, note_call, revert_call, fork_call, perform_call, perform_calls,
  note_action-Keeps, fork_action-Keeps, revert_action-Keeps,
}

unfoldable pub is_agent_command : EventType → Bool
is_agent_command agent_command = true
is_agent_command _ = false

-- `sum(1 for e in events if e.type == "agent_command")`
unfoldable pub count_events : List TrajectoryEvent → ℕ
count_events [] = 0
count_events (e ∷ es) =
    let rest = count_events es in if is_agent_command e.type then suc rest else rest

count_read : Result (List TrajectoryEvent) → ℕ
count_read (ok events) = count_events events
count_read (err e) = 0

unfoldable pub count_agent_commands : Codec → Option Str → ℕ
unfolding count_read
count_agent_commands codec file = count_read (read_trajectory codec file)

pub count_agent_commands_lem :
    (codec : Codec) (es : List TrajectoryEvent) (file : Option Str) (n : ℕ)
    → read_trajectory codec file ≡ ok es
    → count_events es ≡ n
    → count_agent_commands codec file ≡ n
unfolding count_agent_commands count_read
count_agent_commands_lem codec es file n r c = rw r c

count_events-append :
    (es : List TrajectoryEvent) (e : TrajectoryEvent)
    → count_events (es ++ e ∷ [])
      ≡ (if is_agent_command e.type then suc (count_events es) else count_events es)
unfolding count_events
count_events-append [] e = refl
count_events-append (f ∷ es) e = ground (arith, count_events-append es e)

count_events-command :
    (es : List TrajectoryEvent) (e : TrajectoryEvent)
    → e.type ≡ agent_command
    → count_events (es ++ e ∷ []) ≡ suc (count_events es)
unfolding is_agent_command
count_events-command es e h = rw (count_events-append es e) (rw h refl)

count_events-other :
    (es : List TrajectoryEvent) (e : TrajectoryEvent) (t : EventType)
    → e.type ≡ t
    → not (is_agent_command t) ≡ true
    → count_events (es ++ e ∷ []) ≡ count_events es
count_events-other es e t h n = rw (count_events-append es e) (rw h (ground arith))

-- Every type but the agent's commands.
abbrev pub other_type : EventType → Bool
other_type t = not (is_agent_command t)

pub taken-other : (k : ℕ) (t : EventType) → k ≤ 1 → taken k t ≡ true → other_type t ≡ true
unfolding is_agent_command
taken-other k agent_command l h = ground (arith, l, h)
taken-other k egress_attempt l h = refl
taken-other k setup_command l h = refl
taken-other k verify_command l h = refl
taken-other k agent_thought l h = refl
taken-other k session_forked l h = refl
taken-other k session_reverted l h = refl
taken-other k run_started l h = refl
taken-other k run_finished l h = refl

abbrev pub Tallied : ℕ → World → Type 0
Tallied n w = IsOpen w.run.writer × (count_events w.run.events ≡ n)

module _ (host : Host) where
  pub write_event-other :
      (n : ℕ) (t : EventType) (payload : Payload) (w : World)
      → other_type t ≡ true
      → Tallied n w
      → Tallied n (write_event host t payload w).1
  unfolding write_event
  write_event-other n t payload w k (o, c) =
      let x = write-IsWritten host.codec (host.clock w.log w.run.disk) t payload w.run o in
      (
        x.still_open,
        ap count_events x.appended ∙ count_events-other w.run.events x.event t x.typed k ∙ c,
      )

  pub Tallied-IsStable : (n : ℕ) → IsStable host other_type (Tallied n)
  unfolding is_agent_command
  Tallied-IsStable n = record {
    hears = refl;
    on_write = λ type payload w t h. write_event-other n type payload w t h;
    on_start = λ w h. h;
    on_exec = λ cmd w h. h;
  }

  written_lem :
      (n : ℕ) (o : Result TrajectoryEvent × World) (e : TrajectoryEvent)
      → o.0 ≡ ok e
      → Tallied (n + 1) o.1
      → let o' = bound (λ (f : TrajectoryEvent). pure f.payload) o in Tallied (counted o'.0 n) o'.1
  unfolding counted
  written_lem n (ok f, w) e q h = h
  written_lem n (err x, w) e q h = cc

  executed_lem :
      (n : ℕ) (o : Result CommandResult × World)
      → Tallied n o.1
      → let o' =
          bound
            (λ r. write_event host agent_command (dump_result r) >>= λ (f : TrajectoryEvent).
              pure f.payload)
            o in
        Tallied (counted o'.0 n) o'.1
  unfolding write_event
  executed_lem n (err x, w) h = unfold counted in h
  executed_lem n (ok r, w) (o, c) =
      let x =
        write-IsWritten host.codec (host.clock w.log w.run.disk) agent_command (dump_result r) w.run
          o in
      written_lem n _ x.event x.returned (
        x.still_open,
        ap count_events x.appended
            ∙ count_events-command w.run.events x.event x.typed
            ∙ omega (arith, c),
      )

  exec_action-Tallied :
      (n : ℕ) (cmd : Str) (w : World)
      → Tallied n w
      → let o = exec_action host cmd w in Tallied (counted o.0 n) o.1
  unfolding exec_action
  exec_action-Tallied n cmd w h =
      executed_lem n (exec_sandbox host cmd w)
        (exec_sandbox-Keeps host other_type (Tallied n) (Tallied-IsStable n) cmd w h)

  pub perform_calls-Tallied :
      (cs : List Call) (s : ℕ × World)
      → Tallied s.0 s.1
      → Tallied (perform_calls host cs s).0 (perform_calls host cs s).1
  unfolding perform_calls perform_call is_agent_command
  perform_calls-Tallied [] s h = h
  perform_calls-Tallied (exec_call cmd ∷ cs) (n, w) h =
      perform_calls-Tallied cs _ (exec_action-Tallied n cmd w h)
  perform_calls-Tallied (note_call t ∷ cs) (n, w) h =
      perform_calls-Tallied cs _
        (note_action-Keeps host other_type (Tallied n) (Tallied-IsStable n) t refl w h)
  perform_calls-Tallied (revert_call i ∷ cs) (n, w) h = perform_calls-Tallied cs _ (
      revert_action-Keeps host other_type (Tallied n) (Tallied-IsStable n) (λ sb log w h. h) i refl
        w h)
  perform_calls-Tallied (fork_call i j ∷ cs) (n, w) h = perform_calls-Tallied cs _ (
      fork_action-Keeps host other_type (Tallied n) (Tallied-IsStable n) (λ sb log w h. h) i j refl
        w h)
