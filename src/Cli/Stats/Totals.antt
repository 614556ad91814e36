-- ===== src/Cli/Stats/Totals.antt =====
-- The columns of the rows add up to the overall metrics, and the percentages are percentages.
use mathlib.Core.Path.{ap₂, fun_ext}
use prehnite.Prelude.{
  ℕ, suc, ◌+◌, ◌≤◌, ◌≡◌, refl, sym, ap, ◌∙◌, Bool, true, false, List, [], ◌∷◌, map, arith, length,
  count, count-le-length, filter, contains, ◌==◌, nat_eq, list_eq, list_beq_iff, beq_refl, inl, inr,
  Bool-cases, if◌then◌else◌, nat_beq,
}
use native.Mathlib.Nat.{div-le_of_le-mul}
use prehnite.Text.{Str, lit}
use prehnite.Text.Order.{
  sorted_set, sorted_set-IsAscending, contains-sorted_set, IsAscending, not-contains_above,
}
use prehnite.Cli.Summary.{RunSummary}
use prehnite.Cli.Stats.{
  Runs, group_id, Row, row_of, per_task_rows, percent, overall_metrics, sum_allowed, sum_egress,
  is_allowed, has_outcome, has_thought,
}
use prehnite.Cli.Stats.Rows.{runs_of, per_task_rows_lem}

abbrev pub sum_over {ℓ} : {A : Type ℓ} → (A → ℕ) → List A → ℕ
sum_over f [] = 0
sum_over f (x ∷ xs) = f x + sum_over f xs

sum_over-map {ℓ κ} :
    {A : Type ℓ} {B : Type κ} (f : B → ℕ) (g : A → B) (xs : List A)
    → sum_over f (map g xs) ≡ sum_over (λ x. f (g x)) xs
sum_over-map f g [] = refl
sum_over-map f g (x ∷ xs) = ap (λ n. f (g x) + n) (sum_over-map f g xs)

sum_over-zero :
    (a : Str) (xs : List Str) (n : ℕ)
    → contains xs a ≡ false
    → sum_over (λ x. if a == x then n else 0) xs ≡ 0
unfolding contains
sum_over-zero a [] n h = refl
sum_over-zero a (x ∷ xs) n h =
    ground (arith, list_beq_iff a x, list_beq_iff x a, sum_over-zero a xs n)

-- Of an ascending list that has `a`, one element is `a`.
sum_over-one :
    (a : Str) (xs : List Str) (n : ℕ)
    → IsAscending xs
    → contains xs a ≡ true
    → sum_over (λ x. if a == x then n else 0) xs ≡ n
unfolding contains
sum_over-one a [] n h c = cc
sum_over-one a (x ∷ xs) n (b, h) c = elim (Bool-cases (a == x)) [
  | inl t ↦
      let q : a ≡ x = (list_beq_iff a x).0 t in
      let z : sum_over (λ y. if a == y then n else 0) xs ≡ 0 =
        sum_over-zero a xs n (rw q (not-contains_above x xs b)) in
      rw t (omega (arith, z))
  | inr f ↦ rw f (ground (arith, list_beq_iff a x, list_beq_iff x a, sum_over-one a xs n h))
]

sum_over-add {ℓ} :
    {A : Type ℓ} (f g : A → ℕ) (xs : List A)
    → sum_over (λ x. f x + g x) xs ≡ sum_over f xs + sum_over g xs
sum_over-add f g [] = omega arith
sum_over-add f g (x ∷ xs) = omega (arith, sum_over-add f g xs)

contains-cons_self : (a : Str) (xs : List Str) → contains (a ∷ xs) a ≡ true
unfolding contains
contains-cons_self a xs = rw (beq_refl a)

contains-cons : (a b : Str) (xs : List Str) → contains xs a ≡ true → contains (b ∷ xs) a ≡ true
unfolding contains
contains-cons a b xs h = ground arith

module _ (p : RunSummary → Bool) where
  -- How many runs of a task pass the test, one run more.
  count-runs_of-cons :
      (tid : Str) (r : RunSummary) (rs : Runs)
      → count p (runs_of tid (r ∷ rs))
        ≡ (if group_id r == tid then (if p r then 1 else 0) else 0) + count p (runs_of tid rs)
  unfolding count runs_of filter
  count-runs_of-cons tid r rs = ground arith

  count-cons : (r : RunSummary) (rs : Runs) → (if p r then 1 else 0) + count p rs ≡ count p (r ∷ rs)
  unfolding count
  count-cons r rs = ground arith

  sum_over-nil : (tids : List Str) → sum_over (λ tid. count p (runs_of tid [])) tids ≡ count p []
  unfolding count runs_of filter
  sum_over-nil [] = refl
  sum_over-nil (t ∷ ts) = omega (arith, sum_over-nil ts)

  -- Over ascending ids that cover the runs, the counts add up.
  sum_over-count :
      (tids : List Str) (runs : Runs)
      → IsAscending tids
      → ((tid : Str) → contains (map group_id runs) tid ≡ true → contains tids tid ≡ true)
      → sum_over (λ tid. count p (runs_of tid runs)) tids ≡ count p runs
  sum_over-count tids [] h c = sum_over-nil tids
  sum_over-count tids (r ∷ rs) h c =
      let n : ℕ = if p r then 1 else 0 in
      ap (λ f. sum_over f tids) (fun_ext λ tid. count-runs_of-cons tid r rs)
      ∙ sum_over-add (λ tid. if group_id r == tid then n else 0) (λ tid. count p (runs_of tid rs))
          tids
      ∙ ap₂ ◌+◌
          (sum_over-one (group_id r) tids n h (c (group_id r) (contains-cons_self (group_id r) _)))
          (sum_over-count tids rs h λ tid m. c tid (contains-cons tid (group_id r) _ m))
      ∙ count-cons r rs

count-true : (rs : Runs) → count (λ r. true) rs ≡ length rs
unfolding count
count-true [] = refl
count-true (r ∷ rs) = ap suc (count-true rs)

-- A column of the rows that counts the runs passing a test adds up to the count over all runs.
column :
    (p : RunSummary → Bool) (runs : Runs)
    → sum_over (λ tid. count p (runs_of tid runs)) (sorted_set (map group_id runs)) ≡ count p runs
column p runs =
    sum_over-count p (sorted_set (map group_id runs)) runs (sorted_set-IsAscending _)
      λ tid m. contains-sorted_set tid (map group_id runs) ∙ m

-- The sums of a column, over the rows and over the ids.
over_rows :
    (f : Row → ℕ) (runs : Runs)
    → sum_over f (per_task_rows runs)
      ≡ sum_over (λ tid. f (row_of tid (runs_of tid runs))) (sorted_set (map group_id runs))
over_rows f runs =
    ap (sum_over f) (per_task_rows_lem runs) ∙ sum_over-map f _ (sorted_set (map group_id runs))

-- The rows' runs, passes, failures and errors add up to those of all the runs: every run is in
-- exactly one row.
pub per_task_rows_total :
    (runs : Runs)
    → (sum_over (λ (r : Row). r.runs) (per_task_rows runs) ≡ (overall_metrics runs).total_runs)
      × (sum_over (λ (r : Row). r.passed) (per_task_rows runs)
          ≡ (overall_metrics runs).total_passed)
      × (sum_over (λ (r : Row). r.failed) (per_task_rows runs)
          ≡ count (has_outcome (lit "failed")) runs)
      × (sum_over (λ (r : Row). r.errored) (per_task_rows runs)
          ≡ count (has_outcome (lit "error")) runs)
unfolding overall_metrics row_of
per_task_rows_total runs = (
  over_rows (λ r. r.runs) runs
      ∙ ap (λ f. sum_over f (sorted_set (map group_id runs)))
          (fun_ext λ tid. sym (count-true (runs_of tid runs)))
      ∙ column (λ r. true) runs
      ∙ count-true runs,
  over_rows (λ r. r.passed) runs ∙ column (has_outcome (lit "passed")) runs,
  over_rows (λ r. r.failed) runs ∙ column (has_outcome (lit "failed")) runs,
  over_rows (λ r. r.errored) runs ∙ column (has_outcome (lit "error")) runs,
)

percent-le : (part total : ℕ) → part ≤ total → percent part total ≤ 100
unfolding percent
percent-le part total h = elim (Bool-cases (nat_beq total 0)) [
  | inl t ↦ rw t (omega arith)
  | inr f ↦ rw f (div-le_of_le-mul total (omega arith))
]

allowed-le : (runs : Runs) → sum_allowed runs ≤ sum_egress runs
unfolding sum_allowed sum_egress
allowed-le [] = omega arith
allowed-le (r ∷ rs) = omega (arith, count-le-length is_allowed r.egress, allowed-le rs)

-- The percentages are at most 100, and allowed and denied attempts make up all the attempts.
pub overall_metrics_bounds :
    (runs : Runs)
    → ((overall_metrics runs).pass_rate ≤ 100)
      × ((overall_metrics runs).thoughts_pct ≤ 100)
      × ((overall_metrics runs).egress_allowed + (overall_metrics runs).egress_denied
          ≡ (overall_metrics runs).total_egress)
unfolding overall_metrics
overall_metrics_bounds runs = (
  percent-le _ _ (count-le-length (has_outcome (lit "passed")) runs),
  percent-le _ _ (count-le-length has_thought runs),
  omega (arith, allowed-le runs),
)
