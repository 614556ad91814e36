-- ===== src/Trajectory/Torn.antt =====
-- A trajectory whose last line was torn: the process died inside a write.
use prehnite.Prelude.{ℕ, ◌≡◌, refl, ap, ◌∙◌, List, [], ◌∷◌, ◌++◌, map, none, some, false, true}
use prehnite.Prelude.Int.{ℤ, pos}
use prehnite.Text.{Str}
use prehnite.Text.Lines.{records, OneLine, strip, records_last}
use prehnite.Errors.{ok, err, json_error}
use prehnite.Schemas.{TrajectoryEvent}
use prehnite.Trajectory.{
  Codec, TrajectoryWriter, Disk, open_writer, touched, start_seq, last_record, recover_next_seq,
  seq_after, recover_from, read_trajectory, parse_record, parse_records,
}
use prehnite.Trajectory.File.{AllReadable, text_of, records-text_of, parse_record_lem}

-- What is left of a line that `json.loads` refuses.
pub record IsTorn (codec : Codec) (tail : Str) : Type 0 where
  pub first : ℕ
  pub more : Str
  pub shape : tail ≡ first ∷ more
  pub one_line : OneLine (first ∷ more)
  pub trimmed : strip (first ∷ more) ≡ first ∷ more
  pub refused : codec.loads (first ∷ more) ≡ none

module _ (codec : Codec) where
  last_record-append : (l : Str) (ls : List Str) (r : Str) → last_record l (ls ++ (r ∷ [])) ≡ r
  unfolding last_record
  last_record-append l [] r = refl
  last_record-append l (k ∷ ls) r = last_record-append k ls r

  recover_from-append :
      (ls : List Str) (r : Str)
      → recover_from codec (ls ++ (r ∷ [])) ≡ seq_after codec (codec.loads r)
  unfolding recover_from last_record
  recover_from-append [] r = refl
  recover_from-append (l ∷ ls) r =
      ap (λ k. seq_after codec (codec.loads k)) (last_record-append l ls r)

  parse_records-append :
      (es : List TrajectoryEvent) (r : Str)
      → AllReadable codec es
      → codec.loads r ≡ none
      → parse_records codec (map codec.dump es ++ (r ∷ [])) ≡ err json_error
  unfolding parse_records
  parse_records-append [] r h n = rw (n, parse_record)
  parse_records-append (e ∷ es) r h n =
      rw (parse_record_lem codec e h.0) (rw (parse_records-append es r h.1 n))

  records_torn :
      (es : List TrajectoryEvent) (tail : Str)
      → AllReadable codec es
      → IsTorn codec tail
      → records (text_of codec es ++ tail) ≡ map codec.dump es ++ (tail ∷ [])
  records_torn es tail h t = rw t.shape (
      records-text_of codec es (t.first ∷ t.more) h
      ∙ ap (λ ls. map codec.dump es ++ ls) (records_last t.first t.more t.one_line t.trimmed))

  start_seq-recover :
      (before tail : Str) (c : ℕ) (more : Str) (seq : ℤ)
      → tail ≡ c ∷ more
      → start_seq codec (some (before ++ tail)) seq ≡ recover_next_seq codec (before ++ tail)
  unfolding start_seq
  start_seq-recover [] tail c more seq h = rw h refl
  start_seq-recover (b ∷ before) tail c more seq h = refl

  -- What `open` and the reader make of a file with this text: `open` takes a closed writer to one
  -- that is open and numbers from 0, with the file as it is, and reading raises a JSON error.
  abbrev pub StartsAgain : TrajectoryWriter → Disk → Str → Type 0
  StartsAgain w disk text =
      (recover_next_seq codec text ≡ ok (pos 0))
      × (open_writer codec w (record disk { file = some text })
          ≡ ok (record w { seq = pos 0; fh = true }, record disk { file = some text }))
      × (read_trajectory codec (some text) ≡ err json_error)

  -- On a file of readable events, however many, and after them one more line that json.loads refuses
  -- (not empty, without a line break in it and without spaces at its ends), a closed writer's `open`
  -- starts again from seq 0 and keeps the file, and reading the file raises a JSON error.
  pub torn_reopen :
      (w : TrajectoryWriter) (disk : Disk) (es : List TrajectoryEvent) (tail : Str)
      → w.fh ≡ false
      → AllReadable codec es
      → IsTorn codec tail
      → StartsAgain w disk (text_of codec es ++ tail)
  unfolding recover_next_seq read_trajectory open_writer touched
  torn_reopen w disk es tail f h t =
      let n : codec.loads tail ≡ none = rw t.shape t.refused in
      let zero_seq : recover_next_seq codec (text_of codec es ++ tail) ≡ ok (pos 0) =
        rw (records_torn es tail h t)
          (recover_from-append (map codec.dump es) tail ∙ rw n (unfold seq_after in refl)) in
      let start = start_seq-recover (text_of codec es) tail t.first t.more w.seq t.shape in
      (
        zero_seq,
        rw f (rw start (rw zero_seq refl)),
        rw (records_torn es tail h t) (parse_records-append es tail h n),
      )
