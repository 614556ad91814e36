-- ===== src/Tests/TrajectoryTests.antt =====
-- A session on a small codec: the line of an event is its seq between braces.
use prehnite.Prelude.{ℕ, ◌+◌, ◌-◌, ◌≡◌, refl, List, [], ◌∷◌, ◌++◌, true, false, Option, none, some}
use prehnite.Prelude.Int.{pos}
use prehnite.Text.{Str, lit}
use prehnite.Text.Lines.{strip, lstrip, rstrip, is_space, is_line_end, lines, records}
use prehnite.Errors.{ok}
use prehnite.Schemas.{Value, int, object, no_fields, field, TrajectoryEvent, run_started}
use prehnite.Trajectory.{
  new_writer, Codec, is_capped, get_seq, to_int, read_trajectory, recover_next_seq,
}
use prehnite.Trajectory.File.{IsReadable, text_of}
use prehnite.Trajectory.Sessions.{
  Op, opening, writing, closing, restart, perform_all, begin, Numbered,
}
use prehnite.Trajectory.Sessions.Invariant.{sessions_readable}
use prehnite.Trajectory.Torn.{IsTorn, StartsAgain, torn_reopen}

abbrev event_at : ℕ → TrajectoryEvent
event_at n = record { seq = n; ts = lit "now"; type = run_started; payload = [] }

abbrev load : Str → Option Value
load (a ∷ c ∷ b ∷ s) = some (object (field "seq" (int (pos (c - 48))) no_fields))
load _ = none

abbrev check_seq : Value → Option TrajectoryEvent
check_seq (int (pos n)) = some (event_at n)
check_seq _ = none

abbrev check_object : Value → Option TrajectoryEvent
check_object (object (field k v no_fields)) = check_seq v
check_object _ = none

abbrev codec : Codec
codec = record {
  dump = λ e. b'{' ∷ (48 + e.seq) ∷ b'}' ∷ [];
  loads = load;
  validate = check_object;
  sha256 = λ bytes. bytes;
}

first-IsReadable : IsReadable codec (event_at 0)
unfolding strip lstrip rstrip is_space is_line_end get_seq
first-IsReadable = record {
  first = b'{';
  more = 48 ∷ b'}' ∷ [];
  fields = field "seq" (int (pos 0)) no_fields;
  shape = refl;
  one_line = (refl, (refl, (refl, tt)));
  trimmed = refl;
  loaded = refl;
  numbered = refl;
  valid = refl;
}

second-IsReadable : IsReadable codec (event_at 1)
unfolding strip lstrip rstrip is_space is_line_end get_seq
second-IsReadable = record {
  first = b'{';
  more = 49 ∷ b'}' ∷ [];
  fields = field "seq" (int (pos 1)) no_fields;
  shape = refl;
  one_line = (refl, (refl, (refl, tt)));
  trimmed = refl;
  loaded = refl;
  numbered = refl;
  valid = refl;
}

abbrev session : List Op
session =
    writing (lit "early") run_started []
    ∷ opening
    ∷ writing (lit "now") run_started []
    ∷ restart true
    ∷ opening
    ∷ writing (lit "now") run_started []
    ∷ closing
    ∷ writing (lit "late") run_started []
    ∷ []

two_events : (perform_all codec session (begin false [])).events ≡ event_at 0 ∷ event_at 1 ∷ []
unfolding perform_all recover_next_seq records lines strip lstrip rstrip is_space is_line_end
    get_seq to_int is_capped
two_events = refl

sessions_readable_example :
    (read_trajectory codec (some (text_of codec (event_at 0 ∷ event_at 1 ∷ [])))
      ≡ ok (perform_all codec session (begin false [])).events)
    × Numbered 0 (perform_all codec session (begin false [])).events
unfolding perform_all recover_next_seq records lines strip lstrip rstrip is_space is_line_end
    get_seq to_int is_capped
sessions_readable_example =
    sessions_readable codec false [] session (text_of codec (event_at 0 ∷ event_at 1 ∷ []))
      (first-IsReadable, (second-IsReadable, tt)) refl

tail-IsTorn : IsTorn codec (lit "{1")
unfolding strip lstrip rstrip is_space is_line_end
tail-IsTorn = record {
  first = b'{';
  more = 49 ∷ [];
  shape = refl;
  one_line = (refl, (refl, tt));
  trimmed = refl;
  refused = refl;
}

torn_reopen_example :
    StartsAgain codec
      (new_writer false)
      (record { file = none; overflow = [] })
      (text_of codec (event_at 0 ∷ []) ++ lit "{1")
torn_reopen_example =
    torn_reopen codec (new_writer false) (record { file = none; overflow = [] }) (event_at 0 ∷ [])
      (lit "{1") refl (first-IsReadable, tt) tail-IsTorn
