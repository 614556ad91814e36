-- ===== src/Server/Branch/Lookups.antt =====
-- The two dictionaries of `_filter_branch`, read as the last fork and the last revert of each id.
use prehnite.Prelude.{
  ℕ, ◌≡◌, refl, ap, ◌∙◌, Bool, false, not, ◌&&◌, [], ◌∷◌, Option, none, some, arith, ◌==◌, nat_eq,
  list_eq, list_beq_iff, inl, inr, Bool-cases, beq_refl, if◌then◌else◌,
}
use prehnite.Prelude.Dict.{Dict, lookup, lookup-insert, NodupKeys, insert-NodupKeys}
use prehnite.Text.{Str}
use prehnite.Schemas.{Value, TrajectoryEvent}
use prehnite.Server.Branch.{
  Events, is_forked, is_reverted, snapshot_of, note_fork, fork_seqs, note_revert, discarded_ranges,
}

module _ (show : Value → Str) where
  is_fork_of : Str → TrajectoryEvent → Bool
  is_fork_of s e = is_forked e.type && snapshot_of show e == s && not (s == [])

  is_revert_to : Str → TrajectoryEvent → Bool
  is_revert_to s e = is_reverted e.type && snapshot_of show e == s

  -- The seq of the last event that forked the snapshot, if any; else `old`.
  pub last_fork : Str → Events → Option ℕ → Option ℕ
  unfolding is_fork_of
  last_fork s [] old = old
  last_fork s (e ∷ es) old = last_fork s es (if is_fork_of s e then some e.seq else old)

  -- The seq of the last event that reverted to the snapshot.
  pub last_revert : Str → Events → Option ℕ → Option ℕ
  unfolding is_revert_to
  last_revert s [] old = old
  last_revert s (e ∷ es) old = last_revert s es (if is_revert_to s e then some e.seq else old)

  lookup-note_fork :
      (s t : Str) (e : TrajectoryEvent) (forks : Dict Str ℕ)
      → lookup s (note_fork show t e forks)
        ≡ (if t == s && not (s == []) then some e.seq else lookup s forks)
  unfolding note_fork
  lookup-note_fork s [] e forks = ground (arith, list_beq_iff [] s, list_beq_iff s [])
  lookup-note_fork s (c ∷ t) e forks =
      ground (arith, lookup-insert (c ∷ t) s e.seq forks, list_beq_iff (c ∷ t) s, list_beq_iff s [])

  pub lookup-fork_seqs :
      (s : Str) (es : Events) (forks : Dict Str ℕ)
      → lookup s (fork_seqs show es forks) ≡ last_fork s es (lookup s forks)
  unfolding fork_seqs last_fork
  lookup-fork_seqs s [] forks = refl
  lookup-fork_seqs s (e ∷ es) forks = elim (Bool-cases (is_forked e.type)) [
    | inl y ↦ rw y (
        lookup-fork_seqs s es _
        ∙ ap (last_fork s es) (lookup-note_fork s (snapshot_of show e) e forks))
    | inr n ↦ rw n (lookup-fork_seqs s es forks)
  ]

  -- A discarded range: from the fork to the revert.
  unfoldable pub pair_of : Option ℕ → Option ℕ → Option (ℕ × ℕ)
  pair_of none o = none
  pair_of (some f) none = none
  pair_of (some f) (some r) = some (f, r)

  lookup-note_revert :
      (s t : Str) (e : TrajectoryEvent) (forks : Dict Str ℕ) (ranges : Dict Str (ℕ × ℕ))
      (o : Option ℕ)
      → lookup s ranges ≡ pair_of (lookup s forks) o
      → lookup s (note_revert show t e (lookup t forks) ranges)
        ≡ pair_of (lookup s forks) (if t == s then some e.seq else o)
  unfolding note_revert pair_of
  lookup-note_revert s t e forks ranges o h = elim (Bool-cases (t == s)) [
    | inl y ↦
        let q : t ≡ s = (list_beq_iff t s).0 y in rw q (rw (beq_refl s) (same (lookup s forks) h))
    | inr n ↦ rw n (other n (lookup t forks))
  ]
    where
      same :
          (f : Option ℕ)
          → lookup s ranges ≡ pair_of f o
          → lookup s (note_revert show s e f ranges) ≡ pair_of f (some e.seq)
      same none k = k
      same (some f) k = rw lookup-insert (rw (beq_refl s))

      other :
          (t == s) ≡ false
          → (f : Option ℕ) → lookup s (note_revert show t e f ranges) ≡ pair_of (lookup s forks) o
      other n none = h
      other n (some f) = rw lookup-insert (rw n h)

  pub lookup-discarded_ranges :
      (s : Str) (es : Events) (forks : Dict Str ℕ) (ranges : Dict Str (ℕ × ℕ)) (o : Option ℕ)
      → lookup s ranges ≡ pair_of (lookup s forks) o
      → lookup s (discarded_ranges show es forks ranges)
        ≡ pair_of (lookup s forks) (last_revert s es o)
  unfolding discarded_ranges last_revert
  lookup-discarded_ranges s [] forks ranges o h = h
  lookup-discarded_ranges s (e ∷ es) forks ranges o h = elim (Bool-cases (is_reverted e.type)) [
    | inl y ↦ rw y (
        lookup-discarded_ranges s es forks _ _
          (lookup-note_revert s (snapshot_of show e) e forks ranges o h))
    | inr n ↦ rw n (lookup-discarded_ranges s es forks ranges o h)
  ]

  pub discarded_ranges-NodupKeys :
      (es : Events) (forks : Dict Str ℕ) (ranges : Dict Str (ℕ × ℕ))
      → NodupKeys ranges
      → NodupKeys (discarded_ranges show es forks ranges)
  unfolding discarded_ranges
  discarded_ranges-NodupKeys [] forks ranges h = h
  discarded_ranges-NodupKeys (e ∷ es) forks ranges h = elim (Bool-cases (is_reverted e.type)) [
    | inl y ↦
        rw y (discarded_ranges-NodupKeys es forks _ (keep (lookup (snapshot_of show e) forks)))
    | inr n ↦ rw n (discarded_ranges-NodupKeys es forks ranges h)
  ]
    where
      keep : (f : Option ℕ) → NodupKeys (note_revert show (snapshot_of show e) e f ranges)
      keep none = unfold note_revert in h
      keep (some f) =
          unfold note_revert in insert-NodupKeys (snapshot_of show e) (f, e.seq) ranges h
