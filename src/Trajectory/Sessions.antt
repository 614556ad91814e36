-- ===== src/Trajectory/Sessions.antt =====
-- Any sequence of opens, writes, closes and restarts on one trajectory file. The writer's lock
-- makes each write one step, so the sequence may mix the writes of several threads.
pub mod Invariant
pub mod Written
use mathlib.Core.Path.{subst}
use prehnite.Prelude.{
  ℕ, zero, suc, ◌+◌, ◌≡◌, refl, sym, ap, ◌∙◌, Bool, true, false, not, List, [], ◌∷◌, ◌++◌,
  append_assoc, append-nil, Option, none, some, arith, length, inl, inr, ◌⊎◌, Bool-cases,
  if◌then◌else◌, length-append,
}
use prehnite.Prelude.Int.{ℤ, pos, negsuc}
use prehnite.Text.{Str}
use prehnite.Text.Lines.{newline}
use prehnite.Errors.{Result, ok, err, ◌>>=◌}
use prehnite.Schemas.{EventType, Payload, TrajectoryEvent}
use prehnite.Overflow.{OverflowDir}
use prehnite.Trajectory.{
  Codec, Disk, TrajectoryWriter, new_writer, open_writer, write, close, append_event,
  recover_next_seq, capped_payload, start_seq, touched, read_trajectory,
}
use prehnite.Trajectory.File.{
  AllReadable, AllReadable-append, text_of, text_of-append, last_of, recover_next_seq-text_of,
  IsReadable, read_trajectory-text_of,
}

pub data Op : Type 0 where
  opening : Op
  writing : Str → EventType → Payload → Op
  closing : Op
  -- the process is gone, and another makes a writer for the same path
  restart : Bool → Op

abbrev pub Run : Type 0
Run = record { events : List TrajectoryEvent; writer : TrajectoryWriter; disk : Disk }

abbrev pub Numbered : ℕ → List TrajectoryEvent → Type 0
Numbered n [] = Unit
Numbered n (e ∷ es) = (e.seq ≡ n) × Numbered (suc n) es

module _ (codec : Codec) where
  unfoldable pub opened : Result (TrajectoryWriter × Disk) → Run → Run
  opened (ok (w, disk)) r = record { events = r.events; writer = w; disk = disk }
  opened (err e) r = r

  unfoldable pub wrote :
      Result TrajectoryEvent × TrajectoryWriter × Disk → List TrajectoryEvent → Run
  wrote (ok e, w, disk) es = record { events = es ++ (e ∷ []); writer = w; disk = disk }
  wrote (err x, w, disk) es = record { events = es; writer = w; disk = disk }

  -- One operation; the events that were written so far are kept beside the state.
  unfoldable pub perform : Op → Run → Run
  unfolding opened wrote open_writer write close
  perform opening r = opened (open_writer codec r.writer r.disk) r
  perform (writing ts type payload) r = wrote (write codec ts type payload r.writer r.disk) r.events
  perform closing r = record { events = r.events; writer = close r.writer; disk = r.disk }
  perform (restart caps) r = record { events = r.events; writer = new_writer caps; disk = r.disk }

  unfoldable pub perform_all : List Op → Run → Run
  unfolding perform
  perform_all [] r = r
  perform_all (o ∷ ops) r = perform_all ops (perform o r)

-- A path that does not exist yet, with a new writer.
abbrev pub begin : Bool → OverflowDir → Run
begin caps dir = record {
  events = [];
  writer = new_writer caps;
  disk = record { file = none; overflow = dir };
}
