-- ===== src/Cli/Stats/Rows.antt =====
-- The rows of `_per_task_rows`, said without the grouping dictionary.
use mathlib.Core.Path.{ap₂, fun_ext}
use prehnite.Prelude.{
  ◌≡◌, refl, sym, ap, ◌∙◌, ◌||◌, List, [], ◌∷◌, ◌++◌, append-nil, append_assoc, map, arith, filter,
  contains, ◌==◌, nat_eq, list_eq, list_beq_iff, inl, inr, Bool-cases,
}
use prehnite.Prelude.Dict.{Dict, lookup, insert, keys, lookup-insert}
use prehnite.Text.{Str}
use prehnite.Text.Order.{sorted_set, sorted_set-IsAscending, contains-sorted_set, IsAscending-ext}
use prehnite.Cli.Summary.{RunSummary}
use prehnite.Cli.Stats.{Runs, group_id, append_to, or_nil, group, row_of, rows_for, per_task_rows}

-- The runs of one task, in the order of their files.
unfoldable pub runs_of : Str → Runs → Runs
runs_of tid runs = filter (λ r. group_id r == tid) runs

or_nil-append_to :
    (tid : Str) (r : RunSummary) (rs : Runs) (by_task : Dict Str Runs)
    → or_nil (lookup tid (append_to (group_id r) r by_task)) ++ runs_of tid rs
      ≡ or_nil (lookup tid by_task) ++ runs_of tid (r ∷ rs)
unfolding runs_of filter append_to
or_nil-append_to tid r rs by_task = elim (Bool-cases (group_id r == tid)) [
  | inl t ↦
      let q : group_id r ≡ tid = (list_beq_iff (group_id r) tid).0 t in
      rw lookup-insert (
        rw t (
          unfold or_nil in
          rw q (
            append_assoc (or_nil (lookup tid by_task)) (r ∷ [])
              (filter (λ x. group_id x == tid) rs))))
  | inr f ↦ rw lookup-insert (rw f refl)
]

lookup-group :
    (tid : Str) (runs : Runs) (by_task : Dict Str Runs)
    → or_nil (lookup tid (group runs by_task)) ≡ or_nil (lookup tid by_task) ++ runs_of tid runs
unfolding group
lookup-group tid [] by_task = unfold filter runs_of in sym (append-nil _)
lookup-group tid (r ∷ rs) by_task =
    lookup-group tid rs (append_to (group_id r) r by_task) ∙ or_nil-append_to tid r rs by_task

contains-keys-insert :
    {V : Type 0} (k a : Str) (v : V) (d : Dict Str V)
    → contains (keys (insert k v d)) a ≡ (contains (keys d) a || k == a)
unfolding contains keys insert
contains-keys-insert k a v [] = ground arith
contains-keys-insert k a v ((j, w) ∷ d) =
    ground
      (arith, contains-keys-insert k a v d, list_beq_iff j k, list_beq_iff k a, list_beq_iff j a)

contains-keys-group :
    (a : Str) (runs : Runs) (by_task : Dict Str Runs)
    → contains (keys (group runs by_task)) a
      ≡ (contains (keys by_task) a || contains (map group_id runs) a)
unfolding group append_to contains
contains-keys-group a [] by_task = ground arith
contains-keys-group a (r ∷ rs) by_task =
    contains-keys-group a rs _ ∙ rw contains-keys-insert (ground arith)

rows_for-map :
    (tids : List Str) (by_task : Dict Str Runs)
    → rows_for tids by_task ≡ map (λ tid. row_of tid (or_nil (lookup tid by_task))) tids
unfolding rows_for
rows_for-map [] by_task = refl
rows_for-map (tid ∷ tids) by_task =
    ap (λ rows. row_of tid (or_nil (lookup tid by_task)) ∷ rows) (rows_for-map tids by_task)

lookup-group_nil :
    (tid : Str) (runs : Runs) → or_nil (lookup tid (group runs [])) ≡ runs_of tid runs
unfolding lookup or_nil
lookup-group_nil tid runs = lookup-group tid runs []

contains-keys-group_nil :
    (a : Str) (runs : Runs)
    → contains (sorted_set (keys (group runs []))) a ≡ contains (sorted_set (map group_id runs)) a
unfolding keys contains
contains-keys-group_nil a runs =
    contains-sorted_set a (keys (group runs []))
    ∙ contains-keys-group a runs []
    ∙ sym (contains-sorted_set a (map group_id runs))

-- There is one row for each task id among the runs, in ascending order, and it is the row of
-- exactly the runs with that id, in their order.
pub per_task_rows_lem :
    (runs : Runs)
    → per_task_rows runs
      ≡ map (λ tid. row_of tid (runs_of tid runs)) (sorted_set (map group_id runs))
unfolding per_task_rows
per_task_rows_lem runs =
    rows_for-map (sorted_set (keys (group runs []))) (group runs [])
    ∙ ap₂ map (fun_ext λ tid. ap (row_of tid) (lookup-group_nil tid runs)) (
        IsAscending-ext _ _ (sorted_set-IsAscending _) (sorted_set-IsAscending _)
          (λ a. contains-keys-group_nil a runs))
