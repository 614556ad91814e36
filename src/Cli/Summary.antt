-- ===== src/Cli/Summary.antt =====
-- `_summarize` of cli.py: one trajectory collapses to one summary. The clock format is a parameter:
-- `parse_ts` reads a timestamp as a number of seconds, with or without an offset from UTC.
use prehnite.Prelude.{
  ℕ, ◌+◌, Bool, true, false, not, List, [], ◌∷◌, ◌++◌, Option, none, some, ◌==◌, nat_eq, string_eq,
  list_eq, if◌then◌else◌,
}
use prehnite.Prelude.Int.{ℤ, pos, negsuc, ◌-ℤ◌}
use prehnite.Prelude.Dict.{lookup}
use prehnite.Text.{Str, lit}
use prehnite.Schemas.{
  Value, null, bool, int, str, array, object, no_items, item, no_fields, field, EventType,
  run_started, agent_command, agent_thought, egress_attempt, run_finished, TrajectoryEvent,
}
use prehnite.Server.Branch.{to_str}
use prehnite.Trajectory.{to_int}

-- A `datetime`: `aware` says whether it has an offset from UTC; `at` counts seconds.
pub record Timestamp : Type 0 where
  pub aware : Bool
  pub at : ℤ

-- `_RunSummary`
pub record RunSummary : Type 0 where
  pub task_id : Option Str
  pub outcome : Str
  pub reason : Str
  pub egress : List (Str × ℤ × Bool)
  pub agent_cmd_count : ℕ
  pub thought_count : ℕ
  pub start_ts : Option Str
  pub end_ts : Option Str
  pub duration_s : Option ℤ

abbrev pub empty_summary : RunSummary
empty_summary = record {
  task_id = none;
  outcome = lit "incomplete";
  reason = [];
  egress = [];
  agent_cmd_count = 0;
  thought_count = 0;
  start_ts = none;
  end_ts = none;
  duration_s = none;
}

-- `isinstance(tid, str)`
if_str : Option Value → Option Str → Option Str
if_str (some (str s)) old = some s
if_str _ old = old

-- `bool(v)`
unfoldable pub truth : Option Value → Bool
truth none = false
truth (some null) = false
truth (some (bool b)) = b
truth (some (int (pos n))) = not (n == 0)
truth (some (int (negsuc n))) = true
truth (some (str s)) = not (s == [])
truth (some (array no_items)) = false
truth (some (array (item v vs))) = true
truth (some (object no_fields)) = false
truth (some (object (field k v fs))) = true

-- `int(v) if isinstance(v, (int, float, str)) else 0`; `none` is a `ValueError`
port_of : Option Value → Option ℤ
port_of none = some (pos 0)
port_of (some (int n)) = to_int (int n)
port_of (some (bool b)) = to_int (bool b)
port_of (some (str s)) = to_int (str s)
port_of (some _) = some (pos 0)

module _ (show : Value → Str) (parse_ts : Str → Option Timestamp) where
  str_or : Str → Option Value → Str
  str_or default none = default
  str_or default (some v) = to_str show v

  add_egress : Str → Option ℤ → Bool → RunSummary → Option RunSummary
  add_egress host none allowed s = none
  add_egress host (some port) allowed s =
      some (record s { egress = s.egress ++ ((host, port, allowed) ∷ []) })

  -- The body of the loop of `_summarize`; `none` is a `ValueError`.
  summarize_event : EventType → TrajectoryEvent → RunSummary → Option RunSummary
  unfolding if_str truth port_of str_or add_egress
  summarize_event run_started e s =
      some
        (record s { task_id = if_str (lookup "task_id" e.payload) s.task_id; start_ts = some e.ts })
  summarize_event agent_command e s = some (record s { agent_cmd_count = s.agent_cmd_count + 1 })
  summarize_event agent_thought e s = some (record s { thought_count = s.thought_count + 1 })
  summarize_event egress_attempt e s =
      add_egress (str_or [] (lookup "host" e.payload)) (port_of (lookup "port" e.payload))
        (truth (lookup "allowed" e.payload)) s
  summarize_event run_finished e s = some (record s {
    outcome = str_or (lit "incomplete") (lookup "result" e.payload);
    reason = str_or [] (lookup "reason" e.payload);
    end_ts = some e.ts;
  })
  summarize_event _ e s = some s

  summarize_events : List TrajectoryEvent → RunSummary → Option RunSummary
  summarize_events [] s = some s
  summarize_events (e ∷ es) s = elim (summarize_event e.type e s) [
    | none ↦ none
    | some s' ↦ summarize_events es s'
  ]

  -- `b - a` raises a `TypeError` if only one of the two has an offset.
  minus : Timestamp → Timestamp → Option ℤ
  minus b a =
      if b.aware
      then (if a.aware then some (b.at -ℤ a.at) else none)
      else if a.aware
      then none
      else some (b.at -ℤ a.at)

  parsed : Option Str → Option Timestamp
  parsed none = none
  parsed (some ts) = parse_ts ts

  timed : RunSummary → Option ℤ → Option RunSummary
  timed s none = none
  timed s (some d) = some (record s { duration_s = some d })

  duration_between : RunSummary → Option Timestamp → Option Timestamp → Option RunSummary
  unfolding minus timed
  duration_between s (some b) (some a) = timed s (minus b a)
  duration_between s none a = some s
  duration_between s (some b) none = some s

  with_duration : Option RunSummary → Option RunSummary
  unfolding duration_between parsed
  with_duration none = none
  with_duration (some s) = duration_between s (parsed s.end_ts) (parsed s.start_ts)

  unfoldable pub summarize : List TrajectoryEvent → Option RunSummary
  unfolding summarize_event summarize_events with_duration
  summarize events = with_duration (summarize_events events empty_summary)
