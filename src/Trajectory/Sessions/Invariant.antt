-- ===== src/Trajectory/Sessions/Invariant.antt =====
-- The events of a file that was written in sessions are read back, numbered from 0 without a gap.
use mathlib.Core.Path.{subst}
use prehnite.Prelude.{
  ℕ, suc, ◌+◌, ◌≡◌, refl, sym, ap, ◌∙◌, Bool, true, false, List, [], ◌∷◌, ◌++◌, append_assoc,
  append-nil, Option, none, some, arith, length, inl, inr, Bool-cases, length-append,
}
use prehnite.Prelude.Int.{ℤ, pos}
use prehnite.Text.{Str}
use prehnite.Text.Lines.{newline}
use prehnite.Errors.{Result, ok, err}
use prehnite.Schemas.{EventType, Payload, TrajectoryEvent}
use prehnite.Overflow.{OverflowDir}
use prehnite.Trajectory.{
  Codec, Disk, TrajectoryWriter, new_writer, open_writer, write, close, append_event,
  recover_next_seq, capped_payload, start_seq, touched, read_trajectory,
}
use prehnite.Trajectory.File.{
  AllReadable, AllReadable-append, text_of, text_of-append, last_of, recover_next_seq-text_of,
  IsReadable, read_trajectory-text_of,
}
use prehnite.Trajectory.Sessions.{
  Op, opening, writing, closing, restart, Run, Numbered, opened, wrote, perform, perform_all, begin,
}

-- The file holds the events; an open writer stands behind the last of them.
pub record IsConsistent (codec : Codec) (r : Run) : Type 0 where
  pub holds : touched r.disk.file ≡ text_of codec r.events
  pub numbered : Numbered 0 r.events
  pub behind : r.writer.fh ≡ true → r.writer.seq ≡ pos (length r.events)
  pub at_start : r.writer.fh ≡ false → r.events ≡ [] → r.writer.seq ≡ pos 0

Numbered-append :
    (n : ℕ) (es : List TrajectoryEvent) (e : TrajectoryEvent)
    → Numbered n es
    → e.seq ≡ n + length es
    → Numbered n (es ++ (e ∷ []))
Numbered-append n [] e h q = (omega arith, tt)
Numbered-append n (f ∷ es) e h q = (h.0, Numbered-append (suc n) es e h.1 (omega arith))

last_of-Numbered :
    (n : ℕ) (e : TrajectoryEvent) (es : List TrajectoryEvent)
    → Numbered n (e ∷ es)
    → suc (last_of e es).seq ≡ n + length (e ∷ es)
last_of-Numbered n e [] h = omega arith
last_of-Numbered n e (f ∷ fs) h = omega (arith, last_of-Numbered (suc n) f fs h.1)

module _ (codec : Codec) where
  pub begin-IsConsistent : (caps : Bool) (dir : OverflowDir) → IsConsistent codec (begin caps dir)
  begin-IsConsistent caps dir = record {
    holds = unfold touched in refl;
    numbered = tt;
    behind = λ e. cc;
    at_start = λ e f. refl;
  }

  text_of-ne-nil :
      (e : TrajectoryEvent) (es : List TrajectoryEvent)
      → IsReadable codec e
      → ¬ ([] ≡ text_of codec (e ∷ es))
  text_of-ne-nil e es r h = cc (rw r.shape at h)

  -- The seq that `open` finds, from a file with these events.
  start_seq_lem :
      (file : Option Str) (seq : ℤ) (es : List TrajectoryEvent)
      → touched file ≡ text_of codec es
      → AllReadable codec es
      → Numbered 0 es
      → (es ≡ [] → seq ≡ pos 0)
      → start_seq codec file seq ≡ ok (pos (length es))
  unfolding touched start_seq
  start_seq_lem none seq [] h r n z = ap ok (z refl)
  start_seq_lem none seq (e ∷ es) h r n z = absurd (text_of-ne-nil e es r.0 h)
  start_seq_lem (some []) seq [] h r n z = ap ok (z refl)
  start_seq_lem (some []) seq (e ∷ es) h r n z = absurd (text_of-ne-nil e es r.0 h)
  start_seq_lem (some (c ∷ s)) seq [] h r n z = cc
  start_seq_lem (some (c ∷ s)) seq (e ∷ es) h r n z =
      ap (recover_next_seq codec) h
      ∙ recover_next_seq-text_of codec e es r
      ∙ ap (λ (k : ℕ). ok (pos k)) (last_of-Numbered 0 e es n ∙ omega arith)

  touched-append :
      (file : Option Str) (es : List TrajectoryEvent) (e : TrajectoryEvent)
      → touched file ≡ text_of codec es
      → touched (some (touched file ++ (codec.dump e ++ newline ∷ [])))
        ≡ text_of codec (es ++ (e ∷ []))
  touched-append file es e h = rw h (unfold touched in sym (text_of-append codec es (e ∷ [])))

  append-IsConsistent :
      (n : ℕ) (ts : Str) (type : EventType) (r : Run) (p : Payload × OverflowDir)
      → IsConsistent codec r
      → r.writer.fh ≡ true
      → n ≡ length r.events
      → IsConsistent codec
          (wrote codec (append_event codec (pos n) ts type r.writer p r.disk) r.events)
  unfolding wrote append_event
  append-IsConsistent n ts type r p c o e = record {
    holds = touched-append r.disk.file r.events _ c.holds;
    numbered = Numbered-append 0 r.events _ c.numbered (omega arith);
    behind = λ f. ap pos (omega (arith, length-append {0} r.events));
    at_start = λ f. cc;
  }

  -- An open writer's next write.
  pub write-IsConsistent :
      (ts : Str) (type : EventType) (payload : Payload) (r : Run)
      → IsConsistent codec r
      → IsConsistent codec (wrote codec (write codec ts type payload r.writer r.disk) r.events)
  unfolding write
  write-IsConsistent ts type payload r c = elim (Bool-cases r.writer.closed) [
    | inl e ↦ simp e (unfold wrote in c)
    | inr e ↦ simp e (elim (Bool-cases r.writer.fh) [
      | inl o ↦ simp o (
          subst
            (λ q. IsConsistent codec (
              wrote codec
                (append_event codec q ts type r.writer
                  (capped_payload codec r.writer type payload r.disk.overflow) r.disk)
                r.events))
            (sym (c.behind o)) (append-IsConsistent (length r.events) ts type r _ c o refl))
      | inr o ↦ simp o (unfold wrote in c)
    ])
  ]

  pub open-IsConsistent :
      (r : Run)
      → AllReadable codec r.events
      → IsConsistent codec r
      → IsConsistent codec (opened codec (open_writer codec r.writer r.disk) r)
  unfolding open_writer
  open-IsConsistent r a c = elim (Bool-cases r.writer.fh) [
    | inl o ↦ simp o (unfold opened in c)
    | inr o ↦ simp o (
        rw (start_seq_lem r.disk.file r.writer.seq r.events c.holds a c.numbered (c.at_start o)) (
          unfold opened in
          record {
            holds = c.holds;
            numbered = c.numbered;
            behind = λ f. refl;
            at_start = λ f. cc;
          }))
  ]

  before_close : (r : Run) → IsConsistent codec r → r.events ≡ [] → r.writer.seq ≡ pos 0
  before_close r c z = elim (Bool-cases r.writer.fh) [
    | inl o ↦ c.behind o ∙ ap (λ (es : List TrajectoryEvent). pos (length es)) z
    | inr o ↦ c.at_start o z
  ]

  pub close-IsConsistent :
      (r : Run)
      → IsConsistent codec r
      → IsConsistent codec (record { events = r.events; writer = close r.writer; disk = r.disk })
  unfolding close
  close-IsConsistent r c = record {
    holds = c.holds;
    numbered = c.numbered;
    behind = λ f. cc;
    at_start = λ f z. before_close r c z;
  }

  perform-IsConsistent :
      (o : Op) (r : Run)
      → AllReadable codec r.events
      → IsConsistent codec r
      → IsConsistent codec (perform codec o r)
  unfolding perform
  perform-IsConsistent opening r a c = open-IsConsistent r a c
  perform-IsConsistent (writing ts type payload) r a c = write-IsConsistent ts type payload r c
  perform-IsConsistent closing r a c = close-IsConsistent r c
  perform-IsConsistent (restart caps) r a c = record {
    holds = c.holds;
    numbered = c.numbered;
    behind = λ f. cc;
    at_start = λ f z. refl;
  }

  added_by :
      (es : List TrajectoryEvent) (x : Result TrajectoryEvent × TrajectoryWriter × Disk)
      → (more : List TrajectoryEvent) × ((wrote codec x es).events ≡ es ++ more)
  unfolding wrote
  added_by es (ok e, w, disk) = (e ∷ [], refl)
  added_by es (err x, w, disk) = ([], sym (append-nil es))

  added_open :
      (r : Run) (x : Result (TrajectoryWriter × Disk)) → (opened codec x r).events ≡ r.events ++ []
  unfolding opened
  added_open r (ok (w, disk)) = sym (append-nil r.events)
  added_open r (err x) = sym (append-nil r.events)

  -- The events that one operation adds.
  added :
      (o : Op) (r : Run)
      → (more : List TrajectoryEvent) × ((perform codec o r).events ≡ r.events ++ more)
  unfolding perform
  added opening r = ([], added_open r (open_writer codec r.writer r.disk))
  added (writing ts type payload) r =
      added_by r.events (write codec ts type payload r.writer r.disk)
  added closing r = ([], sym (append-nil r.events))
  added (restart caps) r = ([], sym (append-nil r.events))

  added_all :
      (ops : List Op) (r : Run)
      → (more : List TrajectoryEvent) × ((perform_all codec ops r).events ≡ r.events ++ more)
  unfolding perform_all
  added_all [] r = ([], sym (append-nil r.events))
  added_all (o ∷ ops) r =
      let (more, p) = added o r in
      let (rest, q) = added_all ops (perform codec o r) in
      (
        more ++ rest,
        q ∙ ap (λ (es : List TrajectoryEvent). es ++ rest) p ∙ append_assoc r.events more rest,
      )

  perform_all-IsConsistent :
      (ops : List Op) (r : Run)
      → AllReadable codec (perform_all codec ops r).events
      → IsConsistent codec r
      → IsConsistent codec (perform_all codec ops r)
  unfolding perform_all
  perform_all-IsConsistent [] r a c = c
  perform_all-IsConsistent (o ∷ ops) r a c =
      let (more, p) = added_all (o ∷ ops) r in
      let before : AllReadable codec r.events =
        AllReadable-append codec r.events more (subst (AllReadable codec) p a) in
      perform_all-IsConsistent ops (perform codec o r) a (perform-IsConsistent o r before c)

  -- A new writer on the file of an open one takes up its number.
  pub open_writer-resumed :
      (r : Run) (content : Str)
      → AllReadable codec r.events
      → IsConsistent codec r
      → r.writer.fh ≡ true
      → r.disk.file ≡ some content
      → (dir : OverflowDir)
      → open_writer codec (new_writer true) (record { file = some content; overflow = dir })
        ≡ ok (
          record (new_writer true) { fh = true; seq = r.writer.seq },
          record { file = some content; overflow = dir },
        )
  unfolding open_writer touched
  open_writer-resumed r content a c o f dir =
      let t : touched (some content) ≡ text_of codec r.events = sym (ap touched f) ∙ c.holds in
      rw (start_seq_lem (some content) (pos 0) r.events t a c.numbered (λ z. refl))
        (rw (c.behind o) refl)

  pub consistent_read :
      (r : Run) (content : Str)
      → AllReadable codec r.events
      → IsConsistent codec r
      → r.disk.file ≡ some content
      → read_trajectory codec (some content) ≡ ok r.events
  unfolding touched
  consistent_read r content a c e =
      let t : content ≡ text_of codec r.events = sym (ap touched e) ∙ c.holds in
      rw t (read_trajectory-text_of codec r.events a)

  -- Whatever is opened, written, closed and restarted on a new path, in any order, the file reads
  -- back as exactly the events whose writes returned, in order, and their seqs are 0, 1, 2 and so
  -- on. (Assumed: the JSON of these events can be read back.)
  pub sessions_readable :
      (caps : Bool) (dir : OverflowDir) (ops : List Op) (content : Str)
      → AllReadable codec (perform_all codec ops (begin caps dir)).events
      → (perform_all codec ops (begin caps dir)).disk.file ≡ some content
      → (read_trajectory codec (some content) ≡ ok (perform_all codec ops (begin caps dir)).events)
        × Numbered 0 (perform_all codec ops (begin caps dir)).events
  sessions_readable caps dir ops content a e =
      let r = perform_all codec ops (begin caps dir) in
      let c = perform_all-IsConsistent ops (begin caps dir) a (begin-IsConsistent caps dir) in
      (consistent_read r content a c e, c.numbered)
