-- ===== src/Trajectory/Sessions/Written.antt =====
-- The writes of an open writer.
use prehnite.Prelude.{
  ℕ, suc, ◌≡◌, refl, true, false, [], ◌∷◌, ◌++◌, Option, none, some, Bool-cases, inl, inr,
}
use prehnite.Prelude.Int.{ℤ, pos, negsuc}
use prehnite.Text.{Str}
use prehnite.Errors.{Result, ok}
use prehnite.Schemas.{EventType, Payload, TrajectoryEvent}
use prehnite.Overflow.{OverflowDir}
use prehnite.Trajectory.{
  Codec, Disk, TrajectoryWriter, new_writer, open_writer, write, append_event, start_seq, touched,
  capped_payload, is_capped,
}
use prehnite.Trajectory.Sessions.{Run, wrote}

abbrev pub HasFile : Option Str → Type 0
HasFile none = ⊥
HasFile (some content) = Unit

pub record IsOpen (w : TrajectoryWriter) : Type 0 where
  pub opened : w.fh ≡ true
  pub unclosed : w.closed ≡ false
  pub next : ℕ
  pub numbered : w.seq ≡ pos next

-- What a write of this type leaves and returns.
pub record IsWritten (codec : Codec) (type : EventType) (payload : Payload) (r : Run)
    (o : Result TrajectoryEvent × TrajectoryWriter × Disk) : Type 0 where
  pub event : TrajectoryEvent
  pub returned : o.0 ≡ ok event
  pub typed : event.type ≡ type
  pub kept : is_capped type ≡ false → event.payload ≡ payload
  pub appended : (wrote codec o r.events).events ≡ r.events ++ event ∷ []
  pub still_open : IsOpen (wrote codec o r.events).writer
  pub on_disk : HasFile (wrote codec o r.events).disk.file

module _ (codec : Codec) (ts : Str) (type : EventType) (payload : Payload) (r : Run) where
  capped_payload_uncapped :
      is_capped type ≡ false
      → (capped_payload codec r.writer type payload r.disk.overflow).0 ≡ payload
  unfolding capped_payload
  capped_payload_uncapped u = elim (Bool-cases r.writer.caps) [
    | inl c ↦ simp c (simp u refl)
    | inr c ↦ simp c refl
  ]

  append_event-IsWritten :
      (seq : ℤ) (n : ℕ)
      → IsOpen r.writer
      → seq ≡ pos n
      → IsWritten codec type payload r (
          append_event codec seq ts type r.writer
            (capped_payload codec r.writer type payload r.disk.overflow)
            r.disk)
  unfolding append_event wrote
  append_event-IsWritten (pos m) n o e = record {
    event = _;
    returned = refl;
    typed = refl;
    kept = capped_payload_uncapped;
    appended = refl;
    still_open = record { opened = o.opened; unclosed = o.unclosed; next = suc m; numbered = refl };
    on_disk = tt;
  }
  append_event-IsWritten (negsuc m) n o e = cc

  pub write-IsWritten :
      IsOpen r.writer → IsWritten codec type payload r (write codec ts type payload r.writer r.disk)
  unfolding write
  write-IsWritten o =
      simp o.unclosed (simp o.opened (append_event-IsWritten r.writer.seq o.next o o.numbered))

-- A new writer on a path that does not exist yet.
pub open_writer-new :
    (codec : Codec) (dir : OverflowDir)
    → open_writer codec (new_writer true) (record { file = none; overflow = dir })
      ≡ ok (record (new_writer true) { fh = true }, record { file = some []; overflow = dir })
unfolding open_writer start_seq touched
open_writer-new codec dir = refl
