-- ===== src/Trajectory/File.antt =====
-- A trajectory file as the lines of its events: what the readers get back from it.
use prehnite.Prelude.{
  ℕ, suc, ◌≡◌, refl, sym, ap, ◌∙◌, List, [], ◌∷◌, ◌++◌, append_assoc, append-nil, map, some,
}
use prehnite.Prelude.Int.{pos, negsuc}
use prehnite.Text.{Str}
use prehnite.Text.Lines.{newline, records, OneLine, strip, records-append, records-nil}
use prehnite.Errors.{ok}
use prehnite.Schemas.{int, object, Fields, TrajectoryEvent}
use prehnite.Trajectory.{
  Codec, get_seq, to_int, recover_next_seq, last_record, read_trajectory, parse_record,
  parse_records, seq_after,
}

-- What the writer relies on for one event: its JSON is one line with no space at its ends, which
-- `json.loads` reads as an object with the event's seq, and which validates as the event.
pub record IsReadable (codec : Codec) (e : TrajectoryEvent) : Type 0 where
  pub first : ℕ
  pub more : Str
  pub fields : Fields
  pub shape : codec.dump e ≡ first ∷ more
  pub one_line : OneLine (first ∷ more)
  pub trimmed : strip (first ∷ more) ≡ first ∷ more
  pub loaded : codec.loads (first ∷ more) ≡ some (object fields)
  pub numbered : get_seq fields (int (negsuc 0)) ≡ int (pos e.seq)
  pub valid : codec.validate (object fields) ≡ some e

abbrev pub AllReadable : Codec → List TrajectoryEvent → Type 0
AllReadable codec [] = Unit
AllReadable codec (e ∷ es) = IsReadable codec e × AllReadable codec es

-- The text of a file with these events.
abbrev pub text_of : Codec → List TrajectoryEvent → Str
text_of codec [] = []
text_of codec (e ∷ es) = codec.dump e ++ newline ∷ text_of codec es

-- The last of the events, the first given apart.
abbrev pub last_of : TrajectoryEvent → List TrajectoryEvent → TrajectoryEvent
last_of e [] = e
last_of e (f ∷ fs) = last_of f fs

module _ (codec : Codec) where
  pub text_of-append :
      (es fs : List TrajectoryEvent)
      → text_of codec (es ++ fs) ≡ text_of codec es ++ text_of codec fs
  text_of-append [] fs = refl
  text_of-append (e ∷ es) fs =
      rw (text_of-append es fs)
        (sym (append_assoc (codec.dump e) (newline ∷ text_of codec es) (text_of codec fs)))

  pub AllReadable-append :
      (es fs : List TrajectoryEvent) → AllReadable codec (es ++ fs) → AllReadable codec es
  AllReadable-append [] fs h = tt
  AllReadable-append (e ∷ es) fs h = (h.0, AllReadable-append es fs h.1)

  -- One event's line in front of anything.
  records-line :
      (e : TrajectoryEvent) (rest : Str)
      → IsReadable codec e
      → records (codec.dump e ++ newline ∷ rest) ≡ codec.dump e ∷ records rest
  records-line e rest r = rw r.shape (records-append r.first r.more rest r.one_line r.trimmed)

  pub parse_record_lem :
      (e : TrajectoryEvent) → IsReadable codec e → parse_record codec (codec.dump e) ≡ ok e
  unfolding parse_record
  parse_record_lem e r = rw r.shape (rw (r.loaded, parse_record) (rw (r.valid, parse_record)))

  pub records-text_of :
      (es : List TrajectoryEvent) (rest : Str)
      → AllReadable codec es
      → records (text_of codec es ++ rest) ≡ map codec.dump es ++ records rest
  records-text_of [] rest h = refl
  records-text_of (e ∷ es) rest (r, h) =
      ap records (append_assoc (codec.dump e) (newline ∷ text_of codec es) rest)
      ∙ records-line e (text_of codec es ++ rest) r
      ∙ ap (λ (ls : List Str). codec.dump e ∷ ls) (records-text_of es rest h)

  parse_records-map :
      (es : List TrajectoryEvent)
      → AllReadable codec es
      → parse_records codec (map codec.dump es) ≡ ok es
  unfolding parse_records
  parse_records-map [] h = refl
  parse_records-map (e ∷ es) (r, h) = rw (parse_record_lem e r) (rw (parse_records-map es h))

  records_all :
      (es : List TrajectoryEvent)
      → AllReadable codec es
      → records (text_of codec es) ≡ map codec.dump es
  records_all es h =
      ap records (sym (append-nil (text_of codec es)))
      ∙ records-text_of es [] h
      ∙ ap (λ (ls : List Str). map codec.dump es ++ ls) records-nil
      ∙ append-nil (map codec.dump es)

  -- Reading a file back gives the events that its lines were made from.
  pub read_trajectory-text_of :
      (es : List TrajectoryEvent)
      → AllReadable codec es
      → read_trajectory codec (some (text_of codec es)) ≡ ok es
  unfolding read_trajectory
  read_trajectory-text_of es h = rw (records_all es h) (parse_records-map es h)

  last_record-map :
      (e : TrajectoryEvent) (es : List TrajectoryEvent)
      → last_record (codec.dump e) (map codec.dump es) ≡ codec.dump (last_of e es)
  unfolding last_record
  last_record-map e [] = refl
  last_record-map e (f ∷ fs) = last_record-map f fs

  last_of-IsReadable :
      (e : TrajectoryEvent) (es : List TrajectoryEvent)
      → IsReadable codec e
      → AllReadable codec es
      → IsReadable codec (last_of e es)
  last_of-IsReadable e [] r h = r
  last_of-IsReadable e (f ∷ fs) r (r', h) = last_of-IsReadable f fs r' h

  seq_after_lem :
      (e : TrajectoryEvent)
      → IsReadable codec e
      → seq_after codec (codec.loads (codec.dump e)) ≡ ok (pos (suc e.seq))
  unfolding seq_after to_int
  seq_after_lem e r = rw r.shape (rw r.loaded (rw r.numbered))

  -- A reopened file goes on after its last event.
  pub recover_next_seq-text_of :
      (e : TrajectoryEvent) (es : List TrajectoryEvent)
      → AllReadable codec (e ∷ es)
      → recover_next_seq codec (text_of codec (e ∷ es)) ≡ ok (pos (suc (last_of e es).seq))
  unfolding recover_next_seq
  recover_next_seq-text_of e es h =
      rw (records_all (e ∷ es) h)
        (rw (last_record-map e es) (seq_after_lem (last_of e es) (last_of-IsReadable e es h.0 h.1)))
