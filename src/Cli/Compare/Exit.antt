-- ===== src/Cli/Compare/Exit.antt =====
-- When `_cmd_compare` exits with 1.
use prehnite.Prelude.{
  ◌≡◌, ◌↔◌, refl, sym, ◌∙◌, true, List, [], ◌∷◌, ◌++◌, Option, none, some, arith, any, contains,
  ◌==◌, list_eq, nat_eq, list_beq_iff, Bool-cases, inl, inr,
}
use prehnite.Prelude.Int.{ℤ, pos, negsuc, ◌-ℤ◌, ltb_ℤ}
use prehnite.Prelude.Dict.{lookup, keys}
use prehnite.Text.{Str}
use prehnite.Text.Order.{contains-sorted_set}
use prehnite.Schemas.{Payload}
use prehnite.Cli.Compare.{
  Diff, Snapshot, pass_rate_of, status_of_delta, diff_rates, diff_task, cons_diff, diff_tasks,
  diff_snapshots, is_regression, compare_exit,
}

-- Two rows of one task, the second with the lower pass rate.
abbrev pub IsLower : Option Payload → Option Payload → Type 0
IsLower o p =
    (row_a : Payload) × (row_b : Payload) × (rate_a : ℤ) × (rate_b : ℤ) × (o ≡ some row_a)
    × (p ≡ some row_b)
    × (pass_rate_of row_a ≡ some rate_a)
    × (pass_rate_of row_b ≡ some rate_b)
    × (ltb_ℤ rate_b rate_a ≡ true)

status_of_delta-regression :
    (tid : Str) (a b : Payload) (m n : ℤ)
    → is_regression (record {
      task_id = tid;
      status = status_of_delta (n -ℤ m);
      a = some a;
      b = some b;
      delta_pass_rate = some (n -ℤ m);
    })
      ≡ ltb_ℤ n m
unfolding is_regression status_of_delta ◌-ℤ◌
status_of_delta-regression tid a b (pos m) (pos n) = ground arith
status_of_delta-regression tid a b (pos m) (negsuc n) = ground arith
status_of_delta-regression tid a b (negsuc m) (pos n) = ground arith
status_of_delta-regression tid a b (negsuc m) (negsuc n) = ground arith

diff_rates-IsLower :
    (tid : Str) (a b : Payload) (m n : Option ℤ) (d : Diff)
    → diff_rates tid a b m n ≡ some d
    → pass_rate_of a ≡ m
    → pass_rate_of b ≡ n
    → is_regression d ≡ true
    → IsLower (some a) (some b)
unfolding diff_rates
diff_rates-IsLower tid a b none n d h x y r = cc
diff_rates-IsLower tid a b (some m) none d h x y r = cc
diff_rates-IsLower tid a b (some m) (some n) d h x y r =
    let e = status_of_delta-regression tid a b m n in (a, b, m, n, refl, refl, x, y, cc)

-- If the difference of a task says regression, the task's pass rate is lower in B.
diff_task-IsLower :
    (tid : Str) (o p : Option Payload) (d : Diff)
    → diff_task tid o p ≡ some d
    → is_regression d ≡ true
    → IsLower o p
unfolding diff_task
diff_task-IsLower tid none none d h r = cc
diff_task-IsLower tid none (some b) d h r = absurd (unfold is_regression in ground arith)
diff_task-IsLower tid (some a) none d h r = absurd (unfold is_regression in ground arith)
diff_task-IsLower tid (some a) (some b) d h r = diff_rates-IsLower tid a b _ _ d h refl refl r

diff_rates-is_regression :
    (tid : Str) (a b : Payload) (m n : ℤ) (d : Diff)
    → diff_rates tid a b (some m) (some n) ≡ some d
    → ltb_ℤ n m ≡ true
    → is_regression d ≡ true
unfolding diff_rates
diff_rates-is_regression tid a b m n d h l = let e = status_of_delta-regression tid a b m n in cc

diff_task-diff_rates :
    (tid : Str) (o p : Option Payload) (l : IsLower o p)
    → diff_task tid o p ≡ diff_rates tid l.0 l.1 (some l.2) (some l.3)
unfolding diff_task
diff_task-diff_rates tid o p (a, b, m, n, i, j, x, y, l) = rw i (rw j (rw x (rw y refl)))

-- And the other way round.
diff_task-is_regression :
    (tid : Str) (o p : Option Payload) (d : Diff)
    → diff_task tid o p ≡ some d
    → IsLower o p
    → is_regression d ≡ true
diff_task-is_regression tid o p d h (a, b, m, n, i, j, x, y, l) =
    diff_rates-is_regression tid a b m n d
      (sym (diff_task-diff_rates tid o p (a, b, m, n, i, j, x, y, l)) ∙ h) l

pub cons_diff-some :
    (o : Option Diff) (os : Option (List Diff)) (ds : List Diff)
    → cons_diff o os ≡ some ds
    → (d : Diff) × (ds' : List Diff) × (o ≡ some d) × (os ≡ some ds') × (ds ≡ d ∷ ds')
unfolding cons_diff
cons_diff-some none os ds h = cc
cons_diff-some (some d) none ds h = cc
cons_diff-some (some d) (some ds') ds h = (d, ds', refl, refl, cc)

any-is_regression-IsLower :
    (a b : Snapshot) (tids : List Str) (ds : List Diff)
    → diff_tasks a b tids ≡ some ds
    → any is_regression ds ≡ true
    → (tid : Str) × IsLower (lookup tid a) (lookup tid b)
unfolding diff_tasks any
any-is_regression-IsLower a b [] ds h r = absurd (ground arith)
any-is_regression-IsLower a b (tid ∷ tids) ds h r =
    let (d, ds', p, q, e) = cons_diff-some _ _ ds h in
    let r' = rw e at r in
    elim (Bool-cases (is_regression d)) [
      | inl t ↦ (tid, diff_task-IsLower tid _ _ d p t)
      | inr f ↦ any-is_regression-IsLower a b tids ds' q (rw f at r')
    ]

IsLower-any-is_regression :
    (a b : Snapshot) (tids : List Str) (ds : List Diff) (tid : Str)
    → diff_tasks a b tids ≡ some ds
    → contains tids tid ≡ true
    → IsLower (lookup tid a) (lookup tid b)
    → any is_regression ds ≡ true
unfolding diff_tasks any contains
IsLower-any-is_regression a b [] ds tid h c l = cc
IsLower-any-is_regression a b (t ∷ tids) ds tid h c l =
    let (d, ds', p, q, e) = cons_diff-some _ _ ds h in
    elim (Bool-cases (t == tid)) [
      | inl y ↦
          let z : t ≡ tid = (list_beq_iff t tid).0 y in
          let r = diff_task-is_regression t _ _ d p (rw z l) in rw e (rw r refl)
      | inr n ↦
          let r = IsLower-any-is_regression a b tids ds' tid q (rw n at c) l in
          rw e (ground (arith, r))
    ]

contains-keys :
    (tid : Str) (d : Snapshot) (row : Payload)
    → lookup tid d ≡ some row
    → contains (keys d) tid ≡ true
unfolding lookup keys contains
contains-keys tid [] row h = cc
contains-keys tid ((k, v) ∷ d) row h = ground (arith, contains-keys tid d row)

contains-append : (a : Str) (xs ys : List Str) → contains xs a ≡ true → contains (xs ++ ys) a ≡ true
unfolding contains
contains-append a [] ys h = cc
contains-append a (x ∷ xs) ys h = ground (arith, contains-append a xs ys)

-- Once the differences are computed, the command exits with 1 if and only if some task stands in
-- both snapshots with a lower pass rate in B.
pub compare_exit-IsLower :
    (a b : Snapshot) (ds : List Diff)
    → diff_snapshots a b ≡ some ds
    → (compare_exit ds ≡ 1) ↔ ((tid : Str) × IsLower (lookup tid a) (lookup tid b))
unfolding diff_snapshots compare_exit
compare_exit-IsLower a b ds h = (
  λ r. any-is_regression-IsLower a b _ ds h (ground arith),
  λ (tid, l).
      let (row, _, _, _, i, _, _, _, _) = l in
      let c = contains-append tid (keys a) (keys b) (contains-keys tid a row i) in
      let r = IsLower-any-is_regression a b _ ds tid h (contains-sorted_set tid _ ∙ c) l in
      rw r refl,
)
