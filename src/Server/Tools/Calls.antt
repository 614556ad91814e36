-- ===== src/Server/Tools/Calls.antt =====
-- The calls of an agent on one session, and what they keep.
use prehnite.Prelude.{ℕ, ◌≡◌, refl, Bool, true, List, [], ◌∷◌, Option, none, some}
use prehnite.Text.{Str}
use prehnite.Errors.{sandbox_error, Result, ok, err}
use prehnite.Schemas.{
  Payload, Task, EventType, run_started, agent_command, agent_thought, session_forked,
  session_reverted, run_finished, error,
}
use prehnite.Sandbox.{Sandbox, Log}
use prehnite.Sandbox.Start.{Outcome}
use prehnite.Session.{
  Host, World, Action, attempt, bound, ◌>>=◌, write_event, exec_sandbox, called, container_of,
  dump_result, finish_payload,
}
use prehnite.Runner.{counted, run_setup}
use prehnite.Runner.Kept.{
  IsStable, Keeps, bind-Keeps, exec_sandbox-Keeps, overhear-Keeps, start_sandbox-Keeps,
  run_setup-Keeps, with_outcome,
}
use prehnite.Runner.Phases.{taken}
use prehnite.Server.Tools.{
  close_writer, stop_session, exec_action, note_action, snapshot_sandbox, fork_action,
  revert_sandbox, revert_action, setup_done, session_started, start_action, thought_payload,
  fork_payload, revert_payload,
}

pub data Call : Type 0 where
  exec_call note_call revert_call : Str → Call
  fork_call : (session_id snap_id : Str) → Call

module _ (host : Host) where
  -- One call, with the session's count of agent commands.
  unfoldable pub perform_call : Call → ℕ × World → ℕ × World
  perform_call (exec_call cmd) (n, w) = let (r, w') = exec_action host cmd w in (counted r n, w')
  perform_call (note_call thought) (n, w) = (n, (note_action host thought w).1)
  perform_call (revert_call snapshot_id) (n, w) = (n, (revert_action host snapshot_id w).1)
  perform_call (fork_call session_id snap_id) (n, w) =
      (n, (fork_action host session_id snap_id w).1)

  unfoldable pub perform_calls : List Call → ℕ × World → ℕ × World
  perform_calls [] s = s
  perform_calls (c ∷ cs) s = perform_calls cs (perform_call c s)

-- What holds if the action returns.
abbrev pub OnOk : {A : Type 0} → (World → Type 0) → Result A × World → Type 0
OnOk P (ok a, w) = P w
OnOk P (err e, w) = Unit

module _ (host : Host) (types : EventType → Bool) (P : World → Type 0)
    (stable : IsStable host types P) where
  called-Keeps :
      {A : Type 0} (o : Outcome A) (w : World) → P (with_outcome o w) → P (called host o w).1
  unfolding called
  called-Keeps (r, sb, log) w h = overhear-Keeps host types P stable _ h

  write-Keeps :
      (type : EventType) (payload : Payload)
      → types type ≡ true
      → Keeps host types P stable (write_event host type payload)
  write-Keeps type payload t w h = stable.on_write type payload w t h

  pub exec_action-Keeps :
      (cmd : Str) → types agent_command ≡ true → Keeps host types P stable (exec_action host cmd)
  unfolding exec_action
  exec_action-Keeps cmd t =
      bind-Keeps host types P stable (exec_sandbox host cmd) _
        (exec_sandbox-Keeps host types P stable cmd)
        λ r.
          bind-Keeps host types P stable (write_event host agent_command (dump_result r)) _
            (write-Keeps agent_command _ t) λ e w h. h

  pub note_action-Keeps :
      (thought : Str)
      → types agent_thought ≡ true
      → Keeps host types P stable (note_action host thought)
  unfolding note_action
  note_action-Keeps thought t =
      bind-Keeps host types P stable (write_event host agent_thought (thought_payload thought)) _
        (write-Keeps agent_thought _ t) λ e w h. h

-- An invariant that does not look at the sandbox, the log apart.
module _ (host : Host) (types : EventType → Bool) (P : World → Type 0)
    (stable : IsStable host types P)
    (unmoved : (sb : Sandbox) (log : Log) (w : World)
      → P w
      → P (record w { sandbox = sb; log = log })) where
  pub fork_action-Keeps :
      (session_id snap_id : Str)
      → types session_forked ≡ true
      → Keeps host types P stable (fork_action host session_id snap_id)
  unfolding fork_action
  fork_action-Keeps session_id snap_id t =
      bind-Keeps host types P stable (snapshot_sandbox host session_id snap_id) _
        (λ w h. unfold snapshot_sandbox in called-Keeps host types P stable _ w (unmoved _ _ w h))
        λ id.
          bind-Keeps host types P stable {B = Str} container_of _ (λ w h. unfold container_of in h)
            λ cid.
              bind-Keeps host types P stable (write_event host session_forked (fork_payload id cid))
                _ (write-Keeps host types P stable session_forked _ t) λ e w h. h

  pub revert_action-Keeps :
      (snapshot_id : Str)
      → types session_reverted ≡ true
      → Keeps host types P stable (revert_action host snapshot_id)
  unfolding revert_action
  revert_action-Keeps snapshot_id t =
      bind-Keeps host types P stable {B = Str} container_of _ (λ w h. unfold container_of in h)
        λ previous.
          bind-Keeps host types P stable (revert_sandbox host snapshot_id) _
            (λ w h. unfold revert_sandbox in called-Keeps host types P stable _ w (unmoved _ _ w h))
            λ new.
              bind-Keeps host types P stable
                (write_event host session_reverted (revert_payload snapshot_id previous new)) _
                (write-Keeps host types P stable session_reverted _ t) λ e w h. h

  -- An invariant that all that the agent writes keeps.
  pub perform_calls-Keeps :
      (cs : List Call) (n : ℕ) (w : World)
      → types agent_command ≡ true
      → types agent_thought ≡ true
      → types session_forked ≡ true
      → types session_reverted ≡ true
      → P w
      → P (perform_calls host cs (n, w)).1
  unfolding perform_calls perform_call
  perform_calls-Keeps [] n w a t f r h = h
  perform_calls-Keeps (exec_call cmd ∷ cs) n w a t f r h =
      perform_calls-Keeps cs _ _ a t f r (exec_action-Keeps host types P stable cmd a w h)
  perform_calls-Keeps (note_call thought ∷ cs) n w a t f r h =
      perform_calls-Keeps cs n _ a t f r (note_action-Keeps host types P stable thought t w h)
  perform_calls-Keeps (revert_call s ∷ cs) n w a t f r h =
      perform_calls-Keeps cs n _ a t f r (revert_action-Keeps s r w h)
  perform_calls-Keeps (fork_call i s ∷ cs) n w a t f r h =
      perform_calls-Keeps cs n _ a t f r (fork_action-Keeps i s f w h)

-- A start that returns: P holds up to the first event, and Q from there.
module _ (host : Host) (P Q : World → Type 0) (before : IsStable host (taken 0) P)
    (after : IsStable host (taken 1) Q)
    (starts : (payload : Payload) (w : World) → P w → Q (write_event host run_started payload w).1)
    (task : Task) (path : Str) where
  bound-OnOk :
      {A B : Type 0} (R : World → Type 0) (f : A → Action B) (o : Result A × World)
      → R o.1
      → ((a : A) (w : World) → R w → OnOk Q (f a w))
      → OnOk Q (bound f o)
  bound-OnOk R f (ok a, w) h k = k a w h
  bound-OnOk R f (err e, w) h k = tt

  -- Whatever comes first, if the rest does not return.
  then-OnOk :
      {A B : Type 0} (m : Action A) (k : A → Action B)
      → ((a : A) (w : World) → OnOk Q (k a w))
      → (w : World) → OnOk Q ((m >>= k) w)
  then-OnOk m k h w = bound-OnOk (λ w. Unit) k (m w) tt λ a w u. h a w

  setup_done-OnOk :
      (reason : Option Str) (w : World) → Q w → OnOk Q (setup_done host task path reason w)
  unfolding setup_done container_of
  setup_done-OnOk none w h = h
  setup_done-OnOk (some reason) w h =
      then-OnOk {B = Option Str} (write_event host run_finished (finish_payload error reason)) _
        (λ e.
          then-OnOk {B = Option Str} close_writer _
            λ c. then-OnOk {B = Option Str} (stop_session host) _ λ t w. tt)
        w

  session_started-OnOk :
      (r : Result (Unit {0})) (w : World) → P w → OnOk Q (session_started host task path r w)
  unfolding session_started container_of
  session_started-OnOk (ok u) w h =
      bound-OnOk Q _ (write_event host run_started _ w) (starts _ w h) λ e w' h'.
        bound-OnOk Q _ (run_setup host task.setup w')
          (run_setup-Keeps host (taken 1) Q after task.setup refl w' h') setup_done-OnOk
  session_started-OnOk (err (sandbox_error m)) w h =
      then-OnOk {B = Option Str} (write_event host run_finished _) _
        (λ e. then-OnOk {B = Option Str} close_writer _ λ c w. tt) w
  session_started-OnOk (err e) w h = tt

  pub start_action-OnOk : (w : World) → P w → OnOk Q (start_action host task path w)
  unfolding start_action attempt
  start_action-OnOk w h = session_started-OnOk _ _ (start_sandbox-Keeps host (taken 0) P before w h)
