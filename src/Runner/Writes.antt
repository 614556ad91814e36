-- ===== src/Runner/Writes.antt =====
-- What one write does to the phase that the trajectory tells.
use mathlib.Core.Path.{subst}
use prehnite.Prelude.{ℕ, ◌≤◌, ◌≡◌, refl, sym, ap, ◌∙◌, true, Option, none, some, nat_eq, string_eq}
use prehnite.Prelude.Dict.{lookup}
use prehnite.Text.{Str}
use prehnite.Errors.{ok}
use prehnite.Schemas.{
  Value, str, EventType, run_finished, egress_attempt, Payload, RunStatus, TrajectoryEvent,
}
use prehnite.Trajectory.{is_capped}
use prehnite.Trajectory.Sessions.Written.{IsOpen, write-IsWritten}
use prehnite.Session.{Host, World, write_event, finish_payload, status_value}
use prehnite.Runner.Kept.{IsStable}
use prehnite.Runner.Phases.{
  Phase, fresh, finished, step, phase_from, result_from, phase_from-append, result_from-finish,
  result_from-egress, taken, taken-egress, IsWithin, IsWithin-weaken, step-IsWithin, step_finish,
}

abbrev pub phase_of : World → Phase
phase_of w = phase_from fresh w.run.events

-- The trajectory is open and tells a phase between these two.
abbrev pub At : ℕ → ℕ → World → Type 0
At lo hi w = IsOpen w.run.writer × IsWithin lo hi (phase_of w)

-- The trajectory is open and tells of an end with this result.
abbrev pub Ended : Option Value → World → Type 0
Ended v w = IsOpen w.run.writer × (phase_of w ≡ finished) × (result_from none w.run.events ≡ v)

module _ (host : Host) where
  write_event-phase :
      (type : EventType) (payload : Payload) (w : World)
      → IsOpen w.run.writer
      → phase_of (write_event host type payload w).1 ≡ step type (phase_of w)
  unfolding write_event
  write_event-phase type payload w o =
      let x = write-IsWritten host.codec (host.clock w.log w.run.disk) type payload w.run o in
      ap (phase_from fresh) x.appended
      ∙ phase_from-append fresh w.run.events x.event
      ∙ ap (λ t. step t (phase_of w)) x.typed

  pub write_event-IsOpen :
      (type : EventType) (payload : Payload) (w : World)
      → IsOpen w.run.writer
      → IsOpen (write_event host type payload w).1.run.writer
  unfolding write_event
  write_event-IsOpen type payload w o =
      (write-IsWritten host.codec (host.clock w.log w.run.disk) type payload w.run o).still_open

  pub write_event-At :
      (lo hi : ℕ) (type : EventType) (payload : Payload) (w : World)
      → IsOpen w.run.writer
      → IsWithin lo hi (step type (phase_of w))
      → At lo hi (write_event host type payload w).1
  write_event-At lo hi type payload w o h = (
    write_event-IsOpen type payload w o,
    subst (IsWithin lo hi) (sym (write_event-phase type payload w o)) h,
  )

  pub At-IsStable : (k : ℕ) → IsStable host (taken k) (At 1 k)
  At-IsStable k = record {
    hears = refl;
    on_write = λ type payload w t (o, h).
        write_event-At 1 k type payload w o (step-IsWithin k type (phase_of w) t h);
    on_start = λ w h. h;
    on_exec = λ cmd w h. h;
  }

  -- Of the types, an invariant that only egress attempts keep.
  egress_only :
      (P : World → Type 0)
      → ((payload : Payload) (w : World) → P w → P (write_event host egress_attempt payload w).1)
      → (type : EventType) (payload : Payload) (w : World) → taken 0 type ≡ true
      → P w
      → P (write_event host type payload w).1
  egress_only P f type payload w t h = rw (taken-egress type t) (f payload w h)

  pub Quiet-IsStable : (lo hi : ℕ) → IsStable host (taken 0) (At lo hi)
  unfolding step
  Quiet-IsStable lo hi = record {
    hears = refl;
    on_write =
        egress_only (At lo hi)
          λ payload w (o, h). write_event-At lo hi egress_attempt payload w o h;
    on_start = λ w h. h;
    on_exec = λ cmd w h. h;
  }

  Ended-egress :
      (v : Option Value) (payload : Payload) (w : World)
      → Ended v w
      → Ended v (write_event host egress_attempt payload w).1
  unfolding write_event step
  Ended-egress v payload w (o, p, r) =
      let x =
        write-IsWritten host.codec (host.clock w.log w.run.disk) egress_attempt payload w.run o in
      (
        x.still_open,
        unfold write_event in write_event-phase egress_attempt payload w o ∙ p,
        ap (result_from none) x.appended ∙ result_from-egress none w.run.events x.event x.typed ∙ r,
      )

  pub Ended-IsStable : (v : Option Value) → IsStable host (taken 0) (Ended v)
  Ended-IsStable v = record {
    hears = refl;
    on_write = egress_only (Ended v) (Ended-egress v);
    on_start = λ w h. h;
    on_exec = λ cmd w h. h;
  }

  pub write_event-ok :
      (type : EventType) (payload : Payload) (w : World)
      → IsOpen w.run.writer
      → (e : TrajectoryEvent) × ((write_event host type payload w).0 ≡ ok e)
  unfolding write_event
  write_event-ok type payload w o =
      let x = write-IsWritten host.codec (host.clock w.log w.run.disk) type payload w.run o in
      (x.event, x.returned)

  pub finish_payload-Ended :
      (status : RunStatus) (reason : Str) (w : World)
      → At 0 3 w
      → Ended
          (some (str (status_value status)))
          (write_event host run_finished (finish_payload status reason) w).1
  unfolding write_event finish_payload is_capped lookup
  finish_payload-Ended status reason w (o, h) =
      let payload = finish_payload status reason in
      let x =
        write-IsWritten host.codec (host.clock w.log w.run.disk) run_finished payload w.run o in
      (
        x.still_open,
        unfold write_event in
            write_event-phase run_finished payload w o ∙ step_finish (phase_of w) h,
        ap (result_from none) x.appended
            ∙ result_from-finish none w.run.events x.event x.typed
            ∙ ap (lookup "result") (x.kept refl),
      )

pub At-weaken : (lo hi lo' hi' : ℕ) (w : World) → lo' ≤ lo → hi ≤ hi' → At lo hi w → At lo' hi' w
At-weaken lo hi lo' hi' w l h (o, p) = (o, IsWithin-weaken lo hi lo' hi' (phase_of w) l h p)
