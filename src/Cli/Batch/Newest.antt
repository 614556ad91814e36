-- ===== src/Cli/Batch/Newest.antt =====
-- The trajectory that a run of an agent left.
use mathlib.Core.Path.{subst}
use prehnite.Prelude.{
  nat_eq, list_eq, ℕ, ◌≤◌, ◌≡◌, refl, ◌∙◌, List, [], ◌∷◌, Option, none, some, ltb, leb, leb→le,
  arith, filter, ◌<◌, ◌+◌, ap, Bool-cases, inl, inr, ◌⊎◌, ltb→lt,
}
use prehnite.Prelude.Dict.{lookup}
use prehnite.Text.{Str}
use prehnite.Cli.Batch.{
  TrajectoryFile, Machine, pick, later, newest, is_new, files_of, latest_new_trajectory,
}

-- One of the files.
abbrev pub IsAmong : TrajectoryFile → List TrajectoryFile → Type 0
IsAmong f [] = ⊥
IsAmong f (g ∷ gs) = (f ≡ g) ⊎ IsAmong f gs

-- No file among these changed later.
abbrev pub IsLatest : TrajectoryFile → List TrajectoryFile → Type 0
IsLatest f [] = Unit
IsLatest f (g ∷ gs) = (g.mtime ≤ f.mtime) × IsLatest f gs

pick-le : (f g : TrajectoryFile) → (f.mtime ≤ (pick f g).mtime) × (g.mtime ≤ (pick f g).mtime)
unfolding pick
pick-le f g = elim (Bool-cases (ltb f.mtime g.mtime)) [
  | inl t ↦ simp t (omega (arith, ltb→lt _ _ t), omega arith)
  | inr e ↦ simp e (omega arith, ground (arith, e))
]

pick-cases : (f g : TrajectoryFile) → (pick f g ≡ f) ⊎ (pick f g ≡ g)
unfolding pick
pick-cases f g = elim (Bool-cases (ltb f.mtime g.mtime)) [
  | inl t ↦ inr (simp t refl)
  | inr e ↦ inl (simp e refl)
]

later-IsLatest :
    (f : TrajectoryFile) (gs : List TrajectoryFile)
    → (f.mtime ≤ (later f gs).mtime) × IsLatest (later f gs) gs
unfolding later
later-IsLatest f [] = (omega arith, tt)
later-IsLatest f (g ∷ gs) =
    let (a, b) = later-IsLatest (pick f g) gs in
    let (p, q) = pick-le f g in (omega (arith, a, p), (omega (arith, a, q), b))

later-IsAmong : (f : TrajectoryFile) (gs : List TrajectoryFile) → IsAmong (later f gs) (f ∷ gs)
unfolding later
later-IsAmong f [] = inl refl
later-IsAmong f (g ∷ gs) = elim (later-IsAmong (pick f g) gs) [
  | inl e ↦ elim (pick-cases f g) [ inl p ↦ inl (e ∙ p) | inr q ↦ inr (inl (e ∙ q)) ]
  | inr m ↦ inr (inr m)
]

pub newest-IsAmong :
    (fs : List TrajectoryFile) (f : TrajectoryFile) → newest fs ≡ some f → IsAmong f fs
unfolding newest
newest-IsAmong [] f h = cc
newest-IsAmong (g ∷ gs) f h =
    let e : later g gs ≡ f = cc in subst (λ k. IsAmong k (g ∷ gs)) e (later-IsAmong g gs)

module _ (second since : ℕ) where
  -- All of these files changed more than a second before.
  abbrev pub AllOld : List TrajectoryFile → Type 0
  AllOld [] = Unit
  AllOld (g ∷ gs) = (g.mtime + second < since) × AllOld gs

  -- What a run that started then can have left of these files: the one that changed last, if that was
  -- no more than a second before the start.
  abbrev pub IsNewest : Option TrajectoryFile → List TrajectoryFile → Type 0
  IsNewest none fs = AllOld fs
  IsNewest (some f) fs = IsAmong f fs × (since ≤ f.mtime + second) × IsLatest f fs

  filter-AllOld : (gs : List TrajectoryFile) → filter (is_new second since) gs ≡ [] → AllOld gs
  unfolding filter is_new
  filter-AllOld [] = λ h. tt
  filter-AllOld (g ∷ gs) = elim (Bool-cases (leb since (g.mtime + second))) [
    | inl t ↦ simp t (λ h. cc)
    | inr e ↦ simp e (λ h. (ground (arith, e), filter-AllOld gs h))
  ]

  pub filter-IsAmong :
      (f : TrajectoryFile) (gs : List TrajectoryFile)
      → IsAmong f (filter (is_new second since) gs)
      → IsAmong f gs × (since ≤ f.mtime + second)
  unfolding filter is_new
  filter-IsAmong f [] = λ h. absurd h
  filter-IsAmong f (g ∷ gs) = elim (Bool-cases (leb since (g.mtime + second))) [
    | inl t ↦ simp t (λ h. elim h [
      | inl e ↦ (inl e, rw (ap (λ (k : TrajectoryFile). k.mtime) e) (leb→le _ _ t))
      | inr m ↦ let (a, b) = filter-IsAmong f gs m in (inr a, b)
    ])
    | inr e ↦ simp e (λ h. let (a, b) = filter-IsAmong f gs h in (inr a, b))
  ]

  filter-IsLatest :
      (f : TrajectoryFile) (gs : List TrajectoryFile)
      → since ≤ f.mtime + second
      → IsLatest f (filter (is_new second since) gs)
      → IsLatest f gs
  unfolding filter is_new
  filter-IsLatest f [] l = λ h. tt
  filter-IsLatest f (g ∷ gs) l = elim (Bool-cases (leb since (g.mtime + second))) [
    | inl t ↦ simp t (λ h. (h.0, filter-IsLatest f gs l h.1))
    | inr e ↦ simp e (λ h. (ground (arith, e, l), filter-IsLatest f gs l h))
  ]

  newest-IsNewest :
      (gs fs : List TrajectoryFile) → filter (is_new second since) gs ≡ fs → IsNewest (newest fs) gs
  unfolding newest
  newest-IsNewest gs [] h = filter-AllOld gs h
  newest-IsNewest gs (f ∷ fs) h =
      let (a, b) = later-IsLatest f fs in
      let (m, n) = filter-IsAmong (later f fs) gs (rw h (later-IsAmong f fs)) in
      (m, n, filter-IsLatest (later f fs) gs n (rw h (a, b)))

-- A run's trajectory is one of the task's files, one that changed no earlier than a second before the
-- run started, and no file of the task changed later; there is none only if every file of the task
-- changed more than a second before the run started.
pub latest_new_trajectory-IsNewest :
    (second : ℕ) (task_id : Str) (m : Machine) (since : ℕ)
    → IsNewest second since
        (latest_new_trajectory second task_id m since)
        (files_of (lookup task_id m.trajectories))
unfolding latest_new_trajectory
latest_new_trajectory-IsNewest second task_id m since = newest-IsNewest second since _ _ refl
