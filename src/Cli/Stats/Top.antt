-- ===== src/Cli/Stats/Top.antt =====
-- `_top_failure_reasons`, against the runs.
use mathlib.Core.Path.{subst}
use prehnite.Prelude.{
  ℕ, zero, suc, ◌≤◌, ◌<◌, ◌≡◌, ◌⊎◌, refl, sym, ap, ◌∙◌, List, [], ◌∷◌, Option, none, some, arith,
  count, length, take, inl, inr, Bool-cases, ◌==◌, nat_eq, list_eq,
}
use prehnite.Prelude.Dict.{lookup, NodupKeys}
use prehnite.Text.{Str}
use prehnite.Cli.Stats.{Runs}
use prehnite.Cli.Stats.Command.{number_of, reason_counts, ranked, top_failure_reasons}
use prehnite.Cli.Stats.Reasons.{
  fails_for, IsBelow, IsDescending, IsPositive, reason_counts_from_nil, reason_counts-NodupKeys,
  reason_counts-IsPositive, ranked-lookup, ranked-NodupKeys, ranked-IsDescending,
}

-- Every entry counts at least this many.
abbrev pub AllFrom : ℕ → List (Str × ℕ) → Type 0
AllFrom n [] = Unit
AllFrom n (x ∷ xs) = (n ≤ x.1) × AllFrom n xs

-- What a reason of this many runs has in a list of the top n: its number, or no place, because it has
-- no runs or because the list is full of reasons with at least as many.
abbrev pub HasPlace : ℕ → ℕ → List (Str × ℕ) → Option ℕ → Type 0
HasPlace runs n top (some v) = (v ≡ runs) × (0 < v)
HasPlace runs n top none = (runs ≡ 0) ⊎ ((length top ≡ n) × AllFrom runs top)

abbrev pub AreTop : Runs → ℕ → List (Str × ℕ) → Type 0
AreTop runs n top =
    (length top ≤ n)
    × NodupKeys top
    × IsDescending top
    × ((reason : Str) → HasPlace (count (fails_for reason) runs) n top (lookup reason top))

take-IsBelow : (m n : ℕ) (xs : List (Str × ℕ)) → IsBelow m xs → IsBelow m (take n xs)
take-IsBelow m zero xs h = tt
take-IsBelow m (suc n) [] h = tt
take-IsBelow m (suc n) (x ∷ xs) (a, h) = (a, take-IsBelow m n xs h)

take-IsDescending : (n : ℕ) (xs : List (Str × ℕ)) → IsDescending xs → IsDescending (take n xs)
take-IsDescending zero xs h = tt
take-IsDescending (suc n) [] h = tt
take-IsDescending (suc n) (x ∷ xs) (b, h) = (take-IsBelow x.1 n xs b, take-IsDescending n xs h)

take-fresh :
    (k : Str) (n : ℕ) (xs : List (Str × ℕ)) → lookup k xs ≡ none → lookup k (take n xs) ≡ none
unfolding lookup
take-fresh k zero xs h = refl
take-fresh k (suc n) [] h = refl
take-fresh k (suc n) ((j, v) ∷ xs) h = ground (arith, take-fresh k n xs)

take-NodupKeys : (n : ℕ) (xs : List (Str × ℕ)) → NodupKeys xs → NodupKeys (take n xs)
take-NodupKeys zero xs h = tt
take-NodupKeys (suc n) [] h = tt
take-NodupKeys (suc n) ((j, v) ∷ xs) (f, h) = (take-fresh j n xs f, take-NodupKeys n xs h)

-- A reason's number in the whole ranking, and its place in the first n.
abbrev IsKept : Option ℕ → ℕ → List (Str × ℕ) → Option ℕ → Type 0
IsKept whole n top (some v) = whole ≡ some v
IsKept none n top none = Unit
IsKept (some c) n top none = (length top ≡ n) × AllFrom c top

IsBelow-bound :
    (k : Str) (m : ℕ) (xs : List (Str × ℕ)) (c : ℕ) → IsBelow m xs → lookup k xs ≡ some c → c ≤ m
unfolding lookup
IsBelow-bound k m [] c h = λ e. cc
IsBelow-bound k m ((j, v) ∷ xs) c (a, h) = elim (Bool-cases (j == k)) [
  | inl t ↦ rw t (λ e. let q : v ≡ c = cc in omega (arith, a, q))
  | inr f ↦ rw f (λ e. IsBelow-bound k m xs c h e)
]

IsKept-cons :
    (whole : Option ℕ) (n : ℕ) (top : List (Str × ℕ)) (kept : Option ℕ) (x : Str × ℕ)
    → ((c : ℕ) → whole ≡ some c → c ≤ x.1)
    → IsKept whole n top kept
    → IsKept whole (suc n) (x ∷ top) kept
IsKept-cons whole n top (some v) x b h = h
IsKept-cons none n top none x b h = tt
IsKept-cons (some c) n top none x b (l, h) = (omega (arith, l), (b c refl, h))

take-IsKept :
    (k : Str) (n : ℕ) (xs : List (Str × ℕ))
    → IsDescending xs
    → IsKept (lookup k xs) n (take n xs) (lookup k (take n xs))
unfolding lookup
take-IsKept k zero xs d = at_zero (lookup k xs)
  where
    at_zero : (o : Option ℕ) → IsKept o 0 [] none
    at_zero none = tt
    at_zero (some c) = (refl, tt)
take-IsKept k (suc n) [] d = tt
take-IsKept k (suc n) ((j, v) ∷ xs) (b, d) = elim (Bool-cases (j == k)) [
  | inl t ↦ rw t refl
  | inr f ↦ rw f (
      IsKept-cons (lookup k xs) n (take n xs) (lookup k (take n xs)) (j, v)
        (λ c e. IsBelow-bound k v xs c b e) (take-IsKept k n xs d))
]

IsKept-HasPlace :
    (whole : Option ℕ) (runs n : ℕ) (top : List (Str × ℕ)) (kept : Option ℕ)
    → number_of whole ≡ runs
    → IsPositive whole
    → IsKept whole n top kept
    → HasPlace runs n top kept
unfolding number_of
IsKept-HasPlace none runs n top (some v) e p h = cc
IsKept-HasPlace (some c) runs n top (some v) e p h =
    let q : c ≡ v = cc in (omega (arith, q, e), omega (arith, q, p))
IsKept-HasPlace none runs n top none e p h = inl (sym e)
IsKept-HasPlace (some c) runs n top none e p (l, h) = inr (l, subst (λ r. AllFrom r top) e h)

length-take-le : (n : ℕ) (xs : List (Str × ℕ)) → length (take n xs) ≤ n
length-take-le zero xs = omega arith
length-take-le (suc n) [] = omega arith
length-take-le (suc n) (x ∷ xs) = omega (arith, length-take-le n xs)

-- The top failure reasons, of which there are at most n and no two of one text, stand with the
-- number of runs that did not pass and say this reason, in the order of these numbers, the
-- highest first; a reason that is left out is no such run's, or the list is full and each of its
-- reasons has at least as many runs.
pub top_failure_reasons-AreTop : (runs : Runs) (n : ℕ) → AreTop runs n (top_failure_reasons runs n)
unfolding top_failure_reasons
top_failure_reasons-AreTop runs n =
    let counts = reason_counts runs [] in
    let nodup = reason_counts-NodupKeys runs [] tt in
    let descending = ranked-IsDescending counts in
    (
      length-take-le n (ranked counts),
      take-NodupKeys n (ranked counts) (ranked-NodupKeys counts nodup),
      take-IsDescending n (ranked counts) descending,
      λ reason.
          IsKept-HasPlace (lookup reason (ranked counts)) _ n _ _
            (ap number_of (ranked-lookup reason counts nodup) ∙ reason_counts_from_nil reason runs)
            (rw (ranked-lookup reason counts nodup)
              (reason_counts-IsPositive reason runs [] (unfold lookup in tt)))
            (take-IsKept reason n (ranked counts) descending),
    )
