-- ===== src/Cli/Stats/Reasons.antt =====
-- The failure reasons: the counter, and the order of the ranking.
use prehnite.Prelude.{
  ℕ, ap, not, beq_refl, Option, none, some, ◌<◌, if◌then◌else◌, ◌+◌, ◌≤◌, ◌≡◌, refl, ◌∙◌, Bool,
  ◌&&◌, List, [], ◌∷◌, arith, ltb, ltb→lt, count, inl, inr, Bool-cases, ◌==◌, nat_eq, list_eq,
  list_beq_iff,
}
use prehnite.Prelude.Dict.{Dict, lookup, insert, lookup-insert, NodupKeys, insert-NodupKeys}
use prehnite.Text.{Str, lit}
use prehnite.Cli.Summary.{RunSummary}
use prehnite.Cli.Stats.{Runs}
use prehnite.Cli.Stats.Command.{has_failed, number_of, reason_counts, insert_ranked, ranked}

-- The run did not pass, and says this reason, which is not empty.
abbrev pub fails_for : Str → RunSummary → Bool
fails_for reason r = not (r.outcome == lit "passed") && not (reason == []) && r.reason == reason

fails_for-has_failed :
    (reason : Str) (r : RunSummary) → fails_for reason r ≡ (has_failed r && r.reason == reason)
unfolding has_failed
fails_for-has_failed reason r = elim (Bool-cases (r.reason == reason)) [
  | inl e ↦ rw ((list_beq_iff r.reason reason).0 e) (ground (arith, beq_refl reason))
  | inr n ↦ ground (arith, n)
]

reason_counts-lookup :
    (k : Str) (rs : Runs) (counts : Dict Str ℕ)
    → number_of (lookup k (reason_counts rs counts))
      ≡ number_of (lookup k counts) + count (fails_for k) rs
unfolding reason_counts count
reason_counts-lookup k [] counts = omega arith
reason_counts-lookup k (r ∷ rs) counts = elim (Bool-cases (has_failed r)) [
  | inl t ↦
      simp (t, fails_for-has_failed)
        (reason_counts-lookup k rs (insert r.reason (number_of (lookup r.reason counts) + 1) counts)
          ∙ rw (lookup-insert r.reason k (number_of (lookup r.reason counts) + 1) counts)
              (elim (Bool-cases (r.reason == k)) [
                | inl e ↦
                    simp e (unfold number_of in rw ((list_beq_iff r.reason k).0 e) (omega arith))
                | inr f ↦ simp f (omega arith)
              ]))
  | inr f ↦ simp (f, fails_for-has_failed) (reason_counts-lookup k rs counts)
]

pub reason_counts_from_nil :
    (k : Str) (rs : Runs) → number_of (lookup k (reason_counts rs [])) ≡ count (fails_for k) rs
unfolding lookup number_of
reason_counts_from_nil k rs = omega (arith, reason_counts-lookup k rs [])

-- No later entry has a higher count.
abbrev pub IsBelow : ℕ → List (Str × ℕ) → Type 0
IsBelow n [] = Unit
IsBelow n (x ∷ xs) = (x.1 ≤ n) × IsBelow n xs

abbrev pub IsDescending : List (Str × ℕ) → Type 0
IsDescending [] = Unit
IsDescending (x ∷ xs) = IsBelow x.1 xs × IsDescending xs

IsBelow-weaken : (m n : ℕ) (xs : List (Str × ℕ)) → m ≤ n → IsBelow m xs → IsBelow n xs
IsBelow-weaken m n [] l h = tt
IsBelow-weaken m n (x ∷ xs) l (a, h) = (omega (arith, a, l), IsBelow-weaken m n xs l h)

insert_ranked-IsBelow :
    (n : ℕ) (x : Str × ℕ) (ys : List (Str × ℕ))
    → x.1 ≤ n
    → IsBelow n ys
    → IsBelow n (insert_ranked x ys)
unfolding insert_ranked
insert_ranked-IsBelow n x [] l h = (l, tt)
insert_ranked-IsBelow n x (y ∷ ys) l (a, h) = elim (Bool-cases (ltb x.1 y.1)) [
  | inl t ↦ simp t (a, insert_ranked-IsBelow n x ys l h)
  | inr f ↦ simp f (l, (a, h))
]

insert_ranked-IsDescending :
    (x : Str × ℕ) (ys : List (Str × ℕ)) → IsDescending ys → IsDescending (insert_ranked x ys)
unfolding insert_ranked
insert_ranked-IsDescending x [] h = (tt, tt)
insert_ranked-IsDescending x (y ∷ ys) (a, h) = elim (Bool-cases (ltb x.1 y.1)) [
  | inl t ↦ simp t (
    insert_ranked-IsBelow y.1 x ys (omega (arith, ltb→lt _ _ t)) a,
    insert_ranked-IsDescending x ys h,
  )
  | inr f ↦
      let l : y.1 ≤ x.1 = ground (arith, f) in simp f ((l, IsBelow-weaken y.1 x.1 ys l a), (a, h))
]

pub ranked-IsDescending : (xs : List (Str × ℕ)) → IsDescending (ranked xs)
unfolding ranked
ranked-IsDescending [] = tt
ranked-IsDescending (x ∷ xs) = insert_ranked-IsDescending x (ranked xs) (ranked-IsDescending xs)

pub reason_counts-NodupKeys :
    (rs : Runs) (counts : Dict Str ℕ) → NodupKeys counts → NodupKeys (reason_counts rs counts)
unfolding reason_counts
reason_counts-NodupKeys [] counts h = h
reason_counts-NodupKeys (r ∷ rs) counts h = elim (Bool-cases (has_failed r)) [
  | inl t ↦ simp t (reason_counts-NodupKeys rs _ (insert-NodupKeys r.reason _ counts h))
  | inr f ↦ simp f (reason_counts-NodupKeys rs counts h)
]

abbrev pub IsPositive : Option ℕ → Type 0
IsPositive none = Unit
IsPositive (some n) = 0 < n

pub reason_counts-IsPositive :
    (k : Str) (rs : Runs) (counts : Dict Str ℕ)
    → IsPositive (lookup k counts)
    → IsPositive (lookup k (reason_counts rs counts))
unfolding reason_counts
reason_counts-IsPositive k [] counts h = h
reason_counts-IsPositive k (r ∷ rs) counts h = elim (Bool-cases (has_failed r)) [
  | inl t ↦ simp t (
      reason_counts-IsPositive k rs _ (
        rw (lookup-insert r.reason k (number_of (lookup r.reason counts) + 1) counts)
          (elim (Bool-cases (r.reason == k)) [ inl e ↦ rw e (omega arith) | inr n ↦ rw n h ])))
  | inr f ↦ simp f (reason_counts-IsPositive k rs counts h)
]

insert_ranked-lookup :
    (k j : Str) (v : ℕ) (ys : List (Str × ℕ))
    → lookup j ys ≡ none
    → lookup k (insert_ranked (j, v) ys) ≡ (if j == k then some v else lookup k ys)
unfolding insert_ranked lookup
insert_ranked-lookup k j v [] h = refl
insert_ranked-lookup k j v ((i, w) ∷ ys) h =
    ground
      (arith, list_beq_iff i j, list_beq_iff i k, list_beq_iff j k, insert_ranked-lookup k j v ys)

insert_ranked-NodupKeys :
    (j : Str) (v : ℕ) (ys : List (Str × ℕ))
    → lookup j ys ≡ none
    → NodupKeys ys
    → NodupKeys (insert_ranked (j, v) ys)
unfolding insert_ranked lookup
insert_ranked-NodupKeys j v [] h n = (refl, tt)
insert_ranked-NodupKeys j v ((i, w) ∷ ys) h (f, n) = ground (
  arith,
  list_beq_iff i j,
  list_beq_iff j i,
  insert_ranked-lookup i j v ys,
  insert_ranked-NodupKeys j v ys,
)

pub ranked-lookup :
    (k : Str) (xs : List (Str × ℕ)) → NodupKeys xs → lookup k (ranked xs) ≡ lookup k xs
unfolding ranked lookup
ranked-lookup k [] n = refl
ranked-lookup k ((j, v) ∷ xs) (f, n) =
    insert_ranked-lookup k j v (ranked xs) (ranked-lookup j xs n ∙ f)
    ∙ ap (λ o. if j == k then some v else o) (ranked-lookup k xs n)

pub ranked-NodupKeys : (xs : List (Str × ℕ)) → NodupKeys xs → NodupKeys (ranked xs)
unfolding ranked
ranked-NodupKeys [] n = tt
ranked-NodupKeys ((j, v) ∷ xs) (f, n) =
    insert_ranked-NodupKeys j v (ranked xs) (ranked-lookup j xs n ∙ f) (ranked-NodupKeys xs n)
