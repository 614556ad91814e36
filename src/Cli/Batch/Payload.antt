-- ===== src/Cli/Batch/Payload.antt =====
-- The exit code against the counts that the JSON summary gives.
use prehnite.Prelude.{
  ℕ, suc, ◌+◌, ◌≡◌, refl, sym, ◌∙◌, ◌↔◌, Bool, true, List, [], ◌∷◌, arith, all, count, length,
  count-le-length, inl, inr, Bool-cases, ◌==◌, nat_eq, list_eq, list_beq, list_beq_iff,
  if◌then◌else◌,
}
use prehnite.Prelude.Dict.{Dict, lookup, insert, lookup-insert}
use prehnite.Text.{Str, lit}
use prehnite.Cli.Batch.{BatchResult, is_success}
use prehnite.Cli.Batch.Command.{count_of, tally, batch_payload, batch_exit}

-- `r.status == name`
abbrev has_status : Str → BatchResult → Bool
has_status name r = r.status == name

tally-lookup :
    (k : Str) (rs : List BatchResult) (counts : Dict Str ℕ)
    → count_of (lookup k (tally rs counts)) ≡ count_of (lookup k counts) + count (has_status k) rs
unfolding tally count
tally-lookup k [] counts = omega arith
tally-lookup k (r ∷ rs) counts =
    tally-lookup k rs (insert r.status (count_of (lookup r.status counts) + 1) counts)
    ∙ rw (lookup-insert r.status k (count_of (lookup r.status counts) + 1) counts)
        (elim (Bool-cases (r.status == k)) [
          | inl t ↦ simp t (unfold count_of in rw ((list_beq_iff r.status k).0 t) (omega arith))
          | inr f ↦ simp f (omega arith)
        ])

all-count :
    (p : BatchResult → Bool) (rs : List BatchResult) → (all p rs ≡ true) ↔ (count p rs ≡ length rs)
unfolding all count
all-count p [] = (λ h. refl, λ h. refl)
all-count p (r ∷ rs) = ground (arith, all-count p rs, count-le-length p rs)

success_one :
    (s : Str) (a b c : ℕ)
    → a ≡ b + c
    → (if is_success s then suc a else a)
      ≡ (if s == lit "passed" then suc b else b) + (if s == lit "skipped" then suc c else c)
unfolding is_success
success_one s a b c h = elim (Bool-cases (s == lit "passed")) [
  | inl t ↦ rw ((list_beq_iff s (lit "passed")).0 t) (unfold list_beq in omega (arith, h))
  | inr f ↦ simp f (elim (Bool-cases (s == lit "skipped")) [
    | inl u ↦ simp u (omega (arith, h))
    | inr g ↦ simp g (omega (arith, h))
  ])
]

count-success :
    (rs : List BatchResult)
    → count (λ (r : BatchResult). is_success r.status) rs
      ≡ count (has_status (lit "passed")) rs + count (has_status (lit "skipped")) rs
unfolding count
count-success [] = refl
count-success (r ∷ rs) = success_one r.status _ _ _ (count-success rs)

-- `by_status.get(name, 0)`
abbrev pub counted_as : Str → List BatchResult → ℕ
counted_as name results = count_of (lookup name (batch_payload results).by_status)

counted_as_lem :
    (name : Str) (rs : List BatchResult) → counted_as name rs ≡ count (has_status name) rs
unfolding batch_payload lookup count_of
counted_as_lem name rs = omega (arith, tally-lookup name rs [])

-- `prehnite batch` exits with 0 exactly if the counts that its summary gives for "passed" and
-- "skipped" add up to its number of tasks.
pub batch_exit-counted_as :
    (results : List BatchResult)
    → (batch_exit results ≡ 0) ↔ (
        counted_as (lit "passed") results + counted_as (lit "skipped") results
        ≡ (batch_payload results).total_tasks)
unfolding batch_exit
batch_exit-counted_as results = rw (counted_as_lem (lit "passed") results) (
    rw (counted_as_lem (lit "skipped") results) (
      unfold batch_payload in
      rw (sym (count-success results))
        (ground (arith, all-count (λ (r : BatchResult). is_success r.status) results))))
