-- ===== src/Server/Branch.antt =====
-- `_filter_branch` of mcp_server.py. `str(v)` of a value that is no text is a parameter.
pub mod Lookups
pub mod Kept
use prehnite.Prelude.{
  ℕ, suc, ◌+◌, Bool, true, false, not, ◌&&◌, ◌||◌, List, [], ◌∷◌, Option, none, some, ltb, leb,
  filter, any, ◌==◌, nat_eq, string_eq, list_eq, if◌then◌else◌,
}
use prehnite.Prelude.Dict.{Dict, lookup, insert, values, has_key}
use prehnite.Text.{Str, lit}
use prehnite.Schemas.{
  Value, null, bool, int, str, array, object, Payload, EventType, session_forked, session_reverted,
  run_started, TrajectoryEvent,
}

abbrev pub Events : Type 0
Events = List TrajectoryEvent

unfoldable pub is_forked : EventType → Bool
is_forked session_forked = true
is_forked _ = false

unfoldable pub is_reverted : EventType → Bool
is_reverted session_reverted = true
is_reverted _ = false

module _ (show : Value → Str) where
  -- `str(v)`
  unfoldable pub to_str : Value → Str
  to_str (str s) = s
  to_str null = show null
  to_str v = show v

  to_str_or_empty : Option Value → Str
  unfolding to_str
  to_str_or_empty none = []
  to_str_or_empty (some v) = to_str v

  -- `str(e.data.get("snapshot_id", ""))`
  unfoldable pub snapshot_of : TrajectoryEvent → Str
  unfolding to_str_or_empty
  snapshot_of e = to_str_or_empty (lookup "snapshot_id" e.payload)

  note_fork : Str → TrajectoryEvent → Dict Str ℕ → Dict Str ℕ
  note_fork [] e forks = forks
  note_fork (c ∷ s) e forks = insert (c ∷ s) e.seq forks

  -- The first loop: snapshot id to the seq of its session_forked event.
  unfoldable pub fork_seqs : Events → Dict Str ℕ → Dict Str ℕ
  unfolding note_fork
  fork_seqs [] forks = forks
  fork_seqs (e ∷ es) forks =
      fork_seqs es (if is_forked e.type then note_fork (snapshot_of e) e forks else forks)

  note_revert : Str → TrajectoryEvent → Option ℕ → Dict Str (ℕ × ℕ) → Dict Str (ℕ × ℕ)
  note_revert s e none ranges = ranges
  note_revert s e (some f) ranges = insert s (f, e.seq) ranges

  -- The second loop: the discarded range of each snapshot that was reverted to.
  unfoldable pub discarded_ranges : Events → Dict Str ℕ → Dict Str (ℕ × ℕ) → Dict Str (ℕ × ℕ)
  unfolding note_revert
  discarded_ranges [] forks ranges = ranges
  discarded_ranges (e ∷ es) forks ranges = discarded_ranges es forks (
      if is_reverted e.type
      then note_revert (snapshot_of e) e (lookup (snapshot_of e) forks) ranges
      else ranges)

  -- `seq in range(f_seq + 1, r_seq)`
  unfoldable pub inside : ℕ → ℕ × ℕ → Bool
  inside seq (f_seq, r_seq) = leb (f_seq + 1) seq && ltb seq r_seq

  -- `f_seq < e.seq < r_seq`
  strictly_inside : ℕ → ℕ × ℕ → Bool
  strictly_inside seq (f_seq, r_seq) = ltb f_seq seq && ltb seq r_seq

  current_events : Events → Dict Str (ℕ × ℕ) → Events
  unfolding inside
  current_events events ranges = filter (λ e. not (any (inside e.seq) (values ranges))) events

  branch_events : Option (ℕ × ℕ) → Option ℕ → Events → Events
  unfolding strictly_inside
  branch_events (some range) fork events = filter (λ e. strictly_inside e.seq range) events
  branch_events none (some f_seq) events = filter (λ e. ltb f_seq e.seq) events
  branch_events none none events = []

  unfoldable pub filter_branch : Events → Str → Events
  unfolding current_events branch_events
  filter_branch [] branch = []
  filter_branch (e ∷ es) branch =
      let events : Events = e ∷ es in
      let forks = fork_seqs events [] in
      let ranges = discarded_ranges events forks [] in
      if branch == lit "all"
      then events
      else if branch == lit "current"
      then current_events events ranges
      else branch_events (lookup branch ranges) (lookup branch forks) events
