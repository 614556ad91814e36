-- ===== src/Trajectory.antt =====
-- trajectory.py: the append-only writer of one trajectory file, and its readers. The file is its
-- text; JSON is a parameter: how pydantic dumps an event, how `json.loads` reads a line, and how
-- pydantic validates what was read.
pub mod File
pub mod Sessions
pub mod Torn
use prehnite.Prelude.{
  ℕ, zero, suc, Bool, true, false, not, ◌&&◌, List, [], ◌∷◌, ◌++◌, Option, none, some, leb, length,
  ◌==◌, string_eq, if◌then◌else◌,
}
use prehnite.Prelude.Int.{ℤ, pos, negsuc, succ_ℤ}
use prehnite.Prelude.Dict.{Dict, lookup}
use prehnite.Text.{Str, lit}
use prehnite.Text.Lines.{newline, records}
use prehnite.Text.Number.{parse_int}
use prehnite.Text.Utf8.{Bytes}
use prehnite.Errors.{
  Error, runtime_error, validation_error, json_error, file_not_found, attribute_error, Result, ok,
  err, ◌>>=◌,
}
use prehnite.Schemas.{
  Value, null, bool, int, str, array, object, Fields, no_fields, field, Payload, EventType,
  setup_command, agent_command, verify_command, run_started, TrajectoryEvent,
}
use prehnite.Overflow.{OverflowDir, cap_command_data, default_max_bytes}

-- The parts of pydantic, json and hashlib that the writer and the readers call.
pub record Codec : Type 0 where
  pub dump : TrajectoryEvent → Str
  pub loads : Str → Option Value
  pub validate : Value → Option TrajectoryEvent
  pub sha256 : Bytes → Str

-- What the methods see of the disk: the trajectory file, if it exists, and the overflow directory.
pub record Disk : Type 0 where
  pub file : Option Str
  pub overflow : OverflowDir

-- `fh` says whether the file handle is there; `caps` whether an overflow directory was given.
pub record TrajectoryWriter : Type 0 where
  pub fh : Bool
  pub seq : ℤ
  pub closed : Bool
  pub caps : Bool
  pub max_stream_bytes : ℕ

-- `TrajectoryWriter(path, overflow_dir=…)`
abbrev pub new_writer : Bool → TrajectoryWriter
new_writer caps = record {
  fh = false;
  seq = pos 0;
  closed = false;
  caps = caps;
  max_stream_bytes = default_max_bytes;
}

-- `event_type in _CAPPED_EVENT_TYPES`
unfoldable pub is_capped : EventType → Bool
is_capped setup_command = true
is_capped agent_command = true
is_capped verify_command = true
is_capped _ = false

-- `int(v)`; `none` is a `ValueError` or a `TypeError`.
unfoldable pub to_int : Value → Option ℤ
to_int (int n) = some n
to_int (bool b) = some (if b then pos 1 else pos 0)
to_int (str s) = parse_int s
to_int _ = none

-- `obj.get("seq", -1)`; of two equal keys `json.loads` keeps the last.
unfoldable pub get_seq : Fields → Value → Value
get_seq no_fields default = default
get_seq (field k v fs) default = get_seq fs (if k == "seq" then v else default)

last_record : Str → List Str → Str
last_record l [] = l
last_record l (r ∷ rs) = last_record r rs

next_of : Option ℤ → ℤ
next_of none = pos 0
next_of (some n) = succ_ℤ n

-- `path.open("a")` creates the file.
pub touched : Option Str → Str
touched none = []
touched (some s) = s

unfoldable pub close : TrajectoryWriter → TrajectoryWriter
close w = record w { fh = false; closed = true }

module _ (codec : Codec) where
  -- The two failures that are caught give 0; `.get` on anything but an object is not caught.
  seq_after : Option Value → Result ℤ
  unfolding next_of
  seq_after none = ok (pos 0)
  seq_after (some (object fs)) = ok (next_of (to_int (get_seq fs (int (negsuc 0)))))
  seq_after (some null) = err attribute_error
  seq_after (some v) = err attribute_error

  recover_from : List Str → Result ℤ
  unfolding seq_after last_record
  recover_from [] = ok (pos 0)
  recover_from (l ∷ ls) = seq_after (codec.loads (last_record l ls))

  unfoldable pub recover_next_seq : Str → Result ℤ
  unfolding recover_from
  recover_next_seq content = recover_from (records content)

  -- The seq that `open` starts from: recovered if the file is there and not empty.
  start_seq : Option Str → ℤ → Result ℤ
  start_seq none seq = ok seq
  start_seq (some []) seq = ok seq
  start_seq (some (c ∷ s)) seq = recover_next_seq (c ∷ s)

  unfoldable pub open_writer : TrajectoryWriter → Disk → Result (TrajectoryWriter × Disk)
  unfolding start_seq touched
  open_writer w disk = if w.fh then ok (w, disk) else do
    seq ← start_seq disk.file w.seq
    ok (record w { seq = seq; fh = true }, record disk { file = some (touched disk.file) })

  -- The cap, before the event is built.
  capped_payload : TrajectoryWriter → EventType → Payload → OverflowDir → Payload × OverflowDir
  capped_payload w type payload dir =
      if w.caps && is_capped type
      then cap_command_data codec.sha256 w.max_stream_bytes payload dir
      else (payload, dir)

  -- `TrajectoryEvent(seq=self._seq, …)` refuses a negative seq; then the line is appended.
  append_event :
      ℤ
      → Str
      → EventType
      → TrajectoryWriter
      → Payload × OverflowDir
      → Disk
      → Result TrajectoryEvent × TrajectoryWriter × Disk
  append_event (negsuc n) ts type w (payload, dir) disk =
      (err validation_error, w, record disk { overflow = dir })
  append_event (pos n) ts type w (payload, dir) disk =
      let event : TrajectoryEvent = record { seq = n; ts = ts; type = type; payload = payload } in
      (
        ok event,
        record w { seq = pos (suc n) },
        record disk {
          file = some (touched disk.file ++ (codec.dump event ++ newline ∷ []));
          overflow = dir;
        },
      )

  -- `write`, the clock's reading `ts` given. What an error leaves behind comes beside it.
  unfoldable pub write :
      Str
      → EventType
      → Payload
      → TrajectoryWriter
      → Disk
      → Result TrajectoryEvent × TrajectoryWriter × Disk
  unfolding append_event capped_payload touched
  write ts type payload w disk =
      if w.closed
      then (err (runtime_error (lit "trajectory writer is closed")), w, disk)
      else if not w.fh
      then (err (runtime_error (lit "trajectory writer is not open")), w, disk)
      else append_event w.seq ts type w (capped_payload w type payload disk.overflow) disk

  -- `TrajectoryEvent.model_validate(json.loads(line))` for each line
  pub parse_record : Str → Result TrajectoryEvent
  parse_record line = elim (codec.loads line) [
    | none ↦ err json_error
    | some v ↦ elim (codec.validate v) [ none ↦ err validation_error | some e ↦ ok e ]
  ]

  parse_records : List Str → Result (List TrajectoryEvent)
  unfolding parse_record
  parse_records [] = ok []
  parse_records (l ∷ ls) = do e ← parse_record l; es ← parse_records ls; ok (e ∷ es)

  unfoldable pub read_trajectory : Option Str → Result (List TrajectoryEvent)
  unfolding parse_records
  read_trajectory none = err file_not_found
  read_trajectory (some content) = parse_records (records content)
