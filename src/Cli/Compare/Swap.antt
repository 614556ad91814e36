-- ===== src/Cli/Compare/Swap.antt =====
-- Comparing B with A is comparing A with B, mirrored.
use prehnite.Prelude.{
  ◌≡◌, refl, ap, ◌∙◌, List, [], ◌∷◌, map, Option, none, some, arith, list_eq, nat_eq,
}
use mathlib.Core.Path.{ap₂}
use prehnite.Prelude.Int.{ℤ, pos, negsuc, ◌-ℤ◌}
use prehnite.Prelude.Dict.{lookup, keys}
use prehnite.Text.{Str}
use prehnite.Text.Order.{sorted_set-append_comm}
use prehnite.Schemas.{Payload}
use prehnite.Cli.Compare.{
  DiffStatus, regression, improvement, unchanged, new, dropped, Diff, Snapshot, status_of_delta,
  diff_rates, diff_task, cons_diff, diff_tasks, diff_snapshots,
}

abbrev pub negate : ℤ → ℤ
negate n = pos 0 -ℤ n

abbrev pub mirror_status : DiffStatus → DiffStatus
mirror_status regression = improvement
mirror_status improvement = regression
mirror_status unchanged = unchanged
mirror_status new = dropped
mirror_status dropped = new

abbrev map_option {ℓ κ} : {A : Type ℓ} {B : Type κ} → (A → B) → Option A → Option B
map_option f none = none
map_option f (some x) = some (f x)

-- The rows change sides, the difference changes its sign, and the status follows.
unfoldable pub mirror : Diff → Diff
mirror d = record {
  task_id = d.task_id;
  status = mirror_status d.status;
  a = d.b;
  b = d.a;
  delta_pass_rate = map_option negate d.delta_pass_rate;
}

unfoldable pub mirror_all : Option (List Diff) → Option (List Diff)
mirror_all ds = map_option (map mirror) ds

minus-swap : (m n : ℤ) → m -ℤ n ≡ negate (n -ℤ m)
unfolding ◌-ℤ◌
minus-swap (pos a) (pos b) = ground arith
minus-swap (pos a) (negsuc b) = ground arith
minus-swap (negsuc a) (pos b) = ground arith
minus-swap (negsuc a) (negsuc b) = ground arith

status_of_delta-swap :
    (m n : ℤ) → status_of_delta (m -ℤ n) ≡ mirror_status (status_of_delta (n -ℤ m))
unfolding ◌-ℤ◌ status_of_delta
status_of_delta-swap (pos a) (pos b) = ground arith
status_of_delta-swap (pos a) (negsuc b) = ground arith
status_of_delta-swap (negsuc a) (pos b) = ground arith
status_of_delta-swap (negsuc a) (negsuc b) = ground arith

diff_rates-swap :
    (tid : Str) (a b : Payload) (m n : Option ℤ)
    → diff_rates tid b a n m ≡ map_option mirror (diff_rates tid a b m n)
unfolding diff_rates mirror
diff_rates-swap tid a b none none = refl
diff_rates-swap tid a b none (some n) = refl
diff_rates-swap tid a b (some m) none = refl
diff_rates-swap tid a b (some m) (some n) = rw (status_of_delta-swap m n) (rw (minus-swap m n) refl)

diff_task-swap :
    (tid : Str) (o p : Option Payload) → diff_task tid p o ≡ map_option mirror (diff_task tid o p)
unfolding diff_task mirror
diff_task-swap tid none none = refl
diff_task-swap tid none (some b) = refl
diff_task-swap tid (some a) none = refl
diff_task-swap tid (some a) (some b) = diff_rates-swap tid a b _ _

cons_diff-mirror :
    (d : Option Diff) (ds : Option (List Diff))
    → cons_diff (map_option mirror d) (mirror_all ds) ≡ mirror_all (cons_diff d ds)
unfolding cons_diff mirror_all
cons_diff-mirror none none = refl
cons_diff-mirror none (some ds) = refl
cons_diff-mirror (some d) none = refl
cons_diff-mirror (some d) (some ds) = refl

diff_tasks-swap :
    (a b : Snapshot) (tids : List Str) → diff_tasks b a tids ≡ mirror_all (diff_tasks a b tids)
unfolding diff_tasks
diff_tasks-swap a b [] = unfold mirror_all in refl
diff_tasks-swap a b (tid ∷ tids) =
    ap₂ cons_diff (diff_task-swap tid (lookup tid a) (lookup tid b)) (diff_tasks-swap a b tids)
    ∙ cons_diff-mirror _ _

-- Comparing the snapshots the other way round gives the mirrored differences: the same tasks in
-- the same order, regressions and improvements exchanged, new and dropped tasks exchanged, the
-- differences negated; and it raises in the same cases.
pub diff_snapshots-swap : (a b : Snapshot) → diff_snapshots b a ≡ mirror_all (diff_snapshots a b)
unfolding diff_snapshots
diff_snapshots-swap a b =
    ap (diff_tasks b a) (sorted_set-append_comm (keys b) (keys a)) ∙ diff_tasks-swap a b _
