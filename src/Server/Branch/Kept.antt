-- ===== src/Server/Branch/Kept.antt =====
-- What `_filter_branch` keeps, said by the last fork and the last revert of each snapshot.
use prehnite.Prelude.{
  ℕ, ◌<◌, ◌≡◌, refl, sym, ap, ◌∙◌, ◌≢◌, ◌↔◌, Bool, true, false, not, ◌&&◌, [], ◌∷◌, Option, none,
  some, arith, ltb, filter, any, nat_eq, list_eq, beq_false, list_beq,
}
use prehnite.Prelude.Dict.{Dict, lookup, values, any-values, any-values_of_lookup}
use prehnite.Text.{Str, lit}
use prehnite.Schemas.{Value, TrajectoryEvent}
use prehnite.Server.Branch.{
  Events, fork_seqs, discarded_ranges, inside, branch_events, filter_branch,
}
use prehnite.Server.Branch.Lookups.{
  last_fork, last_revert, pair_of, lookup-fork_seqs, lookup-discarded_ranges,
  discarded_ranges-NodupKeys,
}

module _ (show : Value → Str) where
  -- The event at `seq` lies strictly between the last fork of some snapshot and its last revert.
  pub record IsDiscarded (events : Events) (seq : ℕ) : Type 0 where
    pub snapshot : Str
    pub from : ℕ
    pub to : ℕ
    pub forked : last_fork show snapshot events none ≡ some from
    pub reverted : last_revert show snapshot events none ≡ some to
    pub after : from < seq
    pub before : seq < to

pair_of_none : (show : Value → Str) (o : Option ℕ) → none ≡ pair_of show o none
unfolding pair_of
pair_of_none show none = refl
pair_of_none show (some f) = refl

pair_of-eq-some :
    (show : Value → Str) (o p : Option ℕ) (a b : ℕ)
    → pair_of show o p ≡ some (a, b)
    → (o ≡ some a) × (p ≡ some b)
unfolding pair_of
pair_of-eq-some show none p a b h = cc
pair_of-eq-some show (some f) none a b h = cc
pair_of-eq-some show (some f) (some r) a b h = ground arith

current_by :
    (show : Value → Str) (es : Events)
    → filter_branch show es (lit "current")
      ≡ filter
          (λ e.
            not (
              any
                (inside show e.seq)
                (values (discarded_ranges show es (fork_seqs show es []) []))))
          es
unfolding filter_branch filter list_beq
current_by show [] = refl
current_by show (e ∷ es) = refl

module _ (show : Value → Str) (events : Events) where
  abbrev forks_of : Dict Str ℕ
  forks_of = fork_seqs show events []

  abbrev ranges_of : Dict Str (ℕ × ℕ)
  ranges_of = discarded_ranges show events forks_of []

  lookup-ranges_of :
      (s : Str)
      → lookup s ranges_of
        ≡ pair_of show (last_fork show s events none) (last_revert show s events none)
  unfolding lookup
  lookup-ranges_of s =
      lookup-discarded_ranges show s events forks_of [] none (pair_of_none show (lookup s forks_of))
      ∙ ap (λ f. pair_of show f (last_revert show s events none))
          (lookup-fork_seqs show s events [])

  range-IsDiscarded :
      (seq : ℕ) → any (inside show seq) (values ranges_of) ≡ true → IsDiscarded show events seq
  unfolding inside
  range-IsDiscarded seq a =
      let (s, (f, r), l, t) =
        any-values (inside show seq) ranges_of
          (discarded_ranges-NodupKeys show events forks_of [] tt) a in
      let (p, q) = pair_of-eq-some show _ _ f r (sym (lookup-ranges_of s) ∙ l) in
      record {
        snapshot = s;
        from = f;
        to = r;
        forked = p;
        reverted = q;
        after = ground arith;
        before = ground arith;
      }

  range_of_discarded :
      (seq : ℕ) → IsDiscarded show events seq → any (inside show seq) (values ranges_of) ≡ true
  unfolding inside pair_of
  range_of_discarded seq d =
      any-values_of_lookup (inside show seq) ranges_of d.snapshot (d.from, d.to)
        (lookup-ranges_of d.snapshot ∙ rw d.forked (rw d.reverted)) (ground arith)

  current_lem :
      filter_branch show events (lit "current")
      ≡ filter (λ e. not (any (inside show e.seq) (values ranges_of))) events
  current_lem = current_by show events

  -- "current" keeps, in order, exactly the events that lie in no discarded range: an event is
  -- dropped if and only if it stands strictly between the last fork of some snapshot and the last
  -- revert to it.
  pub filter_branch-current :
      (kept : TrajectoryEvent → Bool) × (filter_branch show events (lit "current")
        ≡ filter kept events)
      × ((e : TrajectoryEvent) → (kept e ≡ false) ↔ IsDiscarded show events e.seq)
  filter_branch-current = (
    λ e. not (any (inside show e.seq) (values ranges_of)),
    current_lem,
    λ e. (λ h. range-IsDiscarded e.seq (ground arith), λ d. rw (range_of_discarded e.seq d)),
  )

-- A snapshot's branch, said by its last fork and its last revert.
abbrev pub branch_of : Option ℕ → Option ℕ → Events → Events
branch_of none o events = []
branch_of (some f) none events = filter (λ e. ltb f e.seq) events
branch_of (some f) (some r) events = filter (λ e. ltb f e.seq && ltb e.seq r) events

branch_events-pair_of :
    (show : Value → Str) (o p : Option ℕ) (es : Events)
    → branch_events show (pair_of show o p) o es ≡ branch_of o p es
unfolding branch_events pair_of
branch_events-pair_of show none p es = refl
branch_events-pair_of show (some f) none es = refl
branch_events-pair_of show (some f) (some r) es = refl

branch_of-nil : (o p : Option ℕ) → branch_of o p [] ≡ []
unfolding filter
branch_of-nil none p = refl
branch_of-nil (some f) none = refl
branch_of-nil (some f) (some r) = refl

-- For a snapshot id (any text but "all" and "current"): nothing if no event forked it; the events
-- after its last fork if none reverted to it; else those strictly between the last fork and the
-- last revert.
pub filter_branch-snapshot :
    (show : Value → Str) (events : Events) (s : Str)
    → s ≢ lit "all"
    → s ≢ lit "current"
    → filter_branch show events s
      ≡ branch_of (last_fork show s events none) (last_revert show s events none) events
unfolding filter_branch lookup
filter_branch-snapshot show [] s a c = sym (branch_of-nil _ _)
filter_branch-snapshot show (e ∷ es) s a c =
    let events : Events = e ∷ es in
    rw (beq_false s (lit "all") a) (
      rw (beq_false s (lit "current") c) (
        rw (lookup-ranges_of show events s)
          (rw (lookup-fork_seqs show s events []) (branch_events-pair_of show _ _ events))))
