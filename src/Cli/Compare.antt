-- ===== src/Cli/Compare.antt =====
-- `prehnite compare`: `_diff_snapshots`, `_compare_payload` and the exit code of `_cmd_compare`. A
-- row of a snapshot is the payload it was read from; `none` is an exception of `int()`.
pub mod Swap
pub mod Exit
pub mod Tasks
use prehnite.Prelude.{
  ℕ, ◌+◌, Bool, true, false, List, [], ◌∷◌, ◌++◌, Option, none, some, any, ◌==◌, string_eq, nat_eq,
  list_eq, if◌then◌else◌,
}
use prehnite.Prelude.Int.{ℤ, pos, negsuc, ◌-ℤ◌, ltb_ℤ}
use prehnite.Prelude.Dict.{Dict, lookup, insert, keys}
use prehnite.Text.{Str}
use prehnite.Text.Order.{sorted_set}
use prehnite.Schemas.{Payload}
use prehnite.Trajectory.{to_int}

-- One of `_DIFF_STATUSES`.
pub data DiffStatus : Type 0 where
  regression improvement unchanged new dropped : DiffStatus

pub record Diff : Type 0 where
  pub task_id : Str
  pub status : DiffStatus
  pub a : Option Payload
  pub b : Option Payload
  pub delta_pass_rate : Option ℤ

abbrev pub Snapshot : Type 0
Snapshot = Dict Str Payload

-- `int(row.get("pass_rate", 0))`
unfoldable pub pass_rate_of : Payload → Option ℤ
pass_rate_of row = elim (lookup "pass_rate" row) [ none ↦ some (pos 0) | some v ↦ to_int v ]

unfoldable pub status_of_delta : ℤ → DiffStatus
status_of_delta delta =
    if ltb_ℤ delta (pos 0)
    then regression
    else if ltb_ℤ (pos 0) delta
    then improvement
    else unchanged

diff_rates : Str → Payload → Payload → Option ℤ → Option ℤ → Option Diff
diff_rates tid a_row b_row (some rate_a) (some rate_b) =
    let delta = rate_b -ℤ rate_a in
    some (record {
      task_id = tid;
      status = status_of_delta delta;
      a = some a_row;
      b = some b_row;
      delta_pass_rate = some delta;
    })
diff_rates tid a_row b_row none rate_b = none
diff_rates tid a_row b_row (some rate_a) none = none

-- The body of the loop; without rows the assertion fails.
unfoldable pub diff_task : Str → Option Payload → Option Payload → Option Diff
unfolding diff_rates
diff_task tid none (some b_row) =
    some (record { task_id = tid; status = new; a = none; b = some b_row; delta_pass_rate = none })
diff_task tid (some a_row) none =
    some
      (record { task_id = tid; status = dropped; a = some a_row; b = none; delta_pass_rate = none })
diff_task tid (some a_row) (some b_row) =
    diff_rates tid a_row b_row (pass_rate_of a_row) (pass_rate_of b_row)
diff_task tid none none = none

pub cons_diff : Option Diff → Option (List Diff) → Option (List Diff)
cons_diff (some d) (some ds) = some (d ∷ ds)
cons_diff none ds = none
cons_diff (some d) none = none

diff_tasks : Snapshot → Snapshot → List Str → Option (List Diff)
unfolding cons_diff
diff_tasks a b [] = some []
diff_tasks a b (tid ∷ tids) =
    cons_diff (diff_task tid (lookup tid a) (lookup tid b)) (diff_tasks a b tids)

unfoldable pub diff_snapshots : Snapshot → Snapshot → Option (List Diff)
unfolding diff_tasks
diff_snapshots a b = diff_tasks a b (sorted_set (keys a ++ keys b))

unfoldable pub is_regression : Diff → Bool
is_regression d = elim d.status [
  | regression ↦ true
  | improvement ↦ false
  | unchanged ↦ false
  | new ↦ false
  | dropped ↦ false
]

-- The exit code of `_cmd_compare` once the snapshots are loaded.
unfoldable pub compare_exit : List Diff → ℕ
compare_exit diffs = if any is_regression diffs then 1 else 0

-- The buckets of `_compare_payload`: the task ids under each status.
pub record Buckets : Type 0 where
  pub regressions : List Str
  pub improvements : List Str
  pub unchanged_tasks : List Str
  pub new_tasks : List Str
  pub dropped_tasks : List Str

abbrev pub empty_buckets : Buckets
empty_buckets = record {
  regressions = [];
  improvements = [];
  unchanged_tasks = [];
  new_tasks = [];
  dropped_tasks = [];
}

-- `bucket[status].append(task_id)`
append_bucket : DiffStatus → Str → Buckets → Buckets
append_bucket regression tid p = record p { regressions = p.regressions ++ (tid ∷ []) }
append_bucket improvement tid p = record p { improvements = p.improvements ++ (tid ∷ []) }
append_bucket unchanged tid p = record p { unchanged_tasks = p.unchanged_tasks ++ (tid ∷ []) }
append_bucket new tid p = record p { new_tasks = p.new_tasks ++ (tid ∷ []) }
append_bucket dropped tid p = record p { dropped_tasks = p.dropped_tasks ++ (tid ∷ []) }

fill_buckets : List Diff → Buckets → Buckets
unfolding append_bucket
fill_buckets [] p = p
fill_buckets (d ∷ ds) p = fill_buckets ds (append_bucket d.status d.task_id p)

unfoldable pub compare_payload : List Diff → Buckets
unfolding fill_buckets
compare_payload diffs = fill_buckets diffs empty_buckets
