-- ===== src/Cli/Compare/Tasks.antt =====
-- The buckets of `_compare_payload` and the tasks of `_diff_snapshots`.
use prehnite.Prelude.{
  ◌≡◌, refl, sym, ◌∙◌, Bool, true, false, List, [], ◌∷◌, ◌++◌, append_assoc, append-nil, map,
  Option, none, some, arith, filter, list_eq, nat_eq,
}
use mathlib.Core.Path.{ap₂}
use prehnite.Prelude.Int.{ℤ}
use prehnite.Prelude.Dict.{lookup, keys}
use prehnite.Text.{Str}
use prehnite.Text.Order.{sorted_set}
use prehnite.Schemas.{Payload}
use prehnite.Cli.Compare.{
  DiffStatus, regression, improvement, unchanged, new, dropped, Diff, Snapshot, diff_rates,
  diff_task, diff_tasks, diff_snapshots, Buckets, empty_buckets, append_bucket, fill_buckets,
  compare_payload,
}
use prehnite.Cli.Compare.Exit.{cons_diff-some}

abbrev pub status_beq : DiffStatus → DiffStatus → Bool
status_beq regression regression = true
status_beq improvement improvement = true
status_beq unchanged unchanged = true
status_beq new new = true
status_beq dropped dropped = true
status_beq _ s = false

-- The tasks whose difference has the status, in order.
unfoldable pub tasks_with : DiffStatus → List Diff → List Str
tasks_with s ds = map (λ (d : Diff). d.task_id) (filter (λ (d : Diff). status_beq d.status s) ds)

-- Each bucket holds what it held and the tasks of its status.
abbrev Filled : Buckets → List Diff → Buckets → Type 0
Filled p ds q =
    (q.regressions ≡ p.regressions ++ tasks_with regression ds)
    × (q.improvements ≡ p.improvements ++ tasks_with improvement ds)
    × (q.unchanged_tasks ≡ p.unchanged_tasks ++ tasks_with unchanged ds)
    × (q.new_tasks ≡ p.new_tasks ++ tasks_with new ds)
    × (q.dropped_tasks ≡ p.dropped_tasks ++ tasks_with dropped ds)

status_beq_refl : (s : DiffStatus) → status_beq s s ≡ true
status_beq_refl regression = refl
status_beq_refl improvement = refl
status_beq_refl unchanged = refl
status_beq_refl new = refl
status_beq_refl dropped = refl

module _ (ds : List Diff) where
  keep :
      (t : DiffStatus) (d : Diff) (p q : List Str)
      → d.status ≡ t
      → q ≡ (p ++ (d.task_id ∷ [])) ++ tasks_with t ds
      → q ≡ p ++ tasks_with t (d ∷ ds)
  unfolding tasks_with filter
  keep t d p q e h = h ∙ append_assoc p _ _ ∙ rw e (rw (status_beq_refl t) refl)

  skip :
      (t s : DiffStatus) (d : Diff) (p q : List Str)
      → d.status ≡ s
      → status_beq s t ≡ false
      → q ≡ p ++ tasks_with t ds
      → q ≡ p ++ tasks_with t (d ∷ ds)
  unfolding tasks_with filter
  skip t s d p q e f h = h ∙ rw e (rw f refl)

step-Filled :
    (s : DiffStatus) (d : Diff) (ds : List Diff) (p q : Buckets)
    → d.status ≡ s
    → Filled (append_bucket s d.task_id p) ds q
    → Filled p (d ∷ ds) q
unfolding append_bucket
step-Filled regression d ds p q e (r, i, u, n, x) = (
  keep ds regression d _ _ e r,
  skip ds improvement regression d _ _ e refl i,
  skip ds unchanged regression d _ _ e refl u,
  skip ds new regression d _ _ e refl n,
  skip ds dropped regression d _ _ e refl x,
)
step-Filled improvement d ds p q e (r, i, u, n, x) = (
  skip ds regression improvement d _ _ e refl r,
  keep ds improvement d _ _ e i,
  skip ds unchanged improvement d _ _ e refl u,
  skip ds new improvement d _ _ e refl n,
  skip ds dropped improvement d _ _ e refl x,
)
step-Filled unchanged d ds p q e (r, i, u, n, x) = (
  skip ds regression unchanged d _ _ e refl r,
  skip ds improvement unchanged d _ _ e refl i,
  keep ds unchanged d _ _ e u,
  skip ds new unchanged d _ _ e refl n,
  skip ds dropped unchanged d _ _ e refl x,
)
step-Filled new d ds p q e (r, i, u, n, x) = (
  skip ds regression new d _ _ e refl r,
  skip ds improvement new d _ _ e refl i,
  skip ds unchanged new d _ _ e refl u,
  keep ds new d _ _ e n,
  skip ds dropped new d _ _ e refl x,
)
step-Filled dropped d ds p q e (r, i, u, n, x) = (
  skip ds regression dropped d _ _ e refl r,
  skip ds improvement dropped d _ _ e refl i,
  skip ds unchanged dropped d _ _ e refl u,
  skip ds new dropped d _ _ e refl n,
  keep ds dropped d _ _ e x,
)

fill_buckets-Filled : (ds : List Diff) (p : Buckets) → Filled p ds (fill_buckets ds p)
unfolding fill_buckets
fill_buckets-Filled [] p =
    unfold tasks_with filter in
    (
      sym (append-nil _),
      sym (append-nil _),
      sym (append-nil _),
      sym (append-nil _),
      sym (append-nil _),
    )
fill_buckets-Filled (d ∷ ds) p =
    step-Filled d.status d ds p _ refl (fill_buckets-Filled ds (append_bucket d.status d.task_id p))

-- Which sides a task of the comparison stands on, by its status.
abbrev pub HasSides : Snapshot → Snapshot → Diff → Type 0
HasSides a b d = (d.a ≡ lookup d.task_id a) × (d.b ≡ lookup d.task_id b)

abbrev pub AllSides : Snapshot → Snapshot → List Diff → Type 0
AllSides a b [] = Unit
AllSides a b (d ∷ ds) = HasSides a b d × AllSides a b ds

diff_rates-sides :
    (tid : Str) (a b : Payload) (m n : Option ℤ) (d : Diff)
    → diff_rates tid a b m n ≡ some d
    → (d.task_id ≡ tid) × (d.a ≡ some a) × (d.b ≡ some b)
unfolding diff_rates
diff_rates-sides tid a b none n d h = cc
diff_rates-sides tid a b (some m) none d h = cc
diff_rates-sides tid a b (some m) (some n) d h = (cc, cc, cc)

diff_task-sides :
    (tid : Str) (o p : Option Payload) (d : Diff)
    → diff_task tid o p ≡ some d
    → (d.task_id ≡ tid) × (d.a ≡ o) × (d.b ≡ p)
unfolding diff_task
diff_task-sides tid none none d h = cc
diff_task-sides tid none (some b) d h = (cc, cc, cc)
diff_task-sides tid (some a) none d h = (cc, cc, cc)
diff_task-sides tid (some a) (some b) d h = diff_rates-sides tid a b _ _ d h

abbrev pub IdsAndSides : Snapshot → Snapshot → List Str → List Diff → Type 0
IdsAndSides a b tids ds = (map (λ (d : Diff). d.task_id) ds ≡ tids) × AllSides a b ds

diff_tasks-sides :
    (a b : Snapshot) (tids : List Str) (ds : List Diff)
    → diff_tasks a b tids ≡ some ds
    → IdsAndSides a b tids ds
unfolding diff_tasks
diff_tasks-sides a b [] [] h = (refl, tt)
diff_tasks-sides a b [] (d ∷ ds) h = absurd (ground arith)
diff_tasks-sides a b (tid ∷ tids) ds h =
    let (d, ds', p, q, e) = cons_diff-some _ _ ds h in
    let (i, o, r) = diff_task-sides tid _ _ d p in
    let (is', all) = diff_tasks-sides a b tids ds' q in
    rw e (ap₂ ◌∷◌ i is', ((rw i o, rw i r), all))

-- The comparison has one entry for each task of the two snapshots, in ascending order of the
-- ids, with the rows the snapshots hold; and each bucket of the payload lists, in that order,
-- the tasks with its status.
pub diff_snapshots-tasks :
    (a b : Snapshot) (ds : List Diff)
    → diff_snapshots a b ≡ some ds
    → (IdsAndSides a b (sorted_set (keys a ++ keys b)) ds)
      × ((compare_payload ds).regressions ≡ tasks_with regression ds)
      × ((compare_payload ds).improvements ≡ tasks_with improvement ds)
      × ((compare_payload ds).unchanged_tasks ≡ tasks_with unchanged ds)
      × ((compare_payload ds).new_tasks ≡ tasks_with new ds)
      × ((compare_payload ds).dropped_tasks ≡ tasks_with dropped ds)
unfolding diff_snapshots compare_payload
diff_snapshots-tasks a b ds h =
    let f = fill_buckets-Filled ds empty_buckets in
    (diff_tasks-sides a b _ ds h, f.0, f.1, f.2, f.3, f.4)
