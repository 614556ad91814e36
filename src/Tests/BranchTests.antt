-- ===== src/Tests/BranchTests.antt =====
-- Trajectories with forks and reverts.
use prehnite.Prelude.{ℕ, ◌≡◌, refl, [], ◌∷◌, none, filter, any, list_beq, ◌↔◌, Bool, false}
use prehnite.Prelude.Dict.{lookup, insert, values}
use prehnite.Text.{Str, lit}
use prehnite.Schemas.{Value, str, TrajectoryEvent, agent_command, session_forked, session_reverted}
use prehnite.Server.Branch.{
  Events, filter_branch, is_forked, is_reverted, snapshot_of, fork_seqs, discarded_ranges, inside,
}
use prehnite.Server.Branch.Lookups.{last_fork, last_revert}
use prehnite.Server.Branch.Kept.{
  IsDiscarded, branch_of, filter_branch-current, filter_branch-snapshot,
}

abbrev show : Value → Str
show v = []

abbrev command : ℕ → TrajectoryEvent
command n = record { seq = n; ts = []; type = agent_command; payload = [] }

abbrev fork_at : ℕ → Str → TrajectoryEvent
fork_at n s = record {
  seq = n;
  ts = [];
  type = session_forked;
  payload = ("snapshot_id", str s) ∷ [];
}

abbrev revert_at : ℕ → Str → TrajectoryEvent
revert_at n s = record {
  seq = n;
  ts = [];
  type = session_reverted;
  payload = ("snapshot_id", str s) ∷ [];
}

-- A is forked, B is forked inside it, and both are reverted to.
abbrev nested : Events
nested =
    fork_at 0 (lit "A")
    ∷ command 1
    ∷ fork_at 2 (lit "B")
    ∷ command 3
    ∷ revert_at 4 (lit "A")
    ∷ command 5
    ∷ []

nested_current :
    filter_branch show nested (lit "current")
    ≡ fork_at 0 (lit "A") ∷ revert_at 4 (lit "A") ∷ command 5 ∷ []
unfolding filter_branch fork_seqs discarded_ranges inside is_forked is_reverted snapshot_of filter
    any values lookup insert list_beq
nested_current = refl

filter_branch-current_example :
    (kept : TrajectoryEvent → Bool) × (filter_branch show nested (lit "current")
      ≡ filter kept nested)
    × ((e : TrajectoryEvent) → (kept e ≡ false) ↔ IsDiscarded show nested e.seq)
filter_branch-current_example = filter_branch-current show nested

filter_branch-snapshot_example :
    filter_branch show nested (lit "B")
    ≡ branch_of
        (last_fork show (lit "B") nested none)
        (last_revert show (lit "B") nested none)
        nested
filter_branch-snapshot_example = filter_branch-snapshot show nested (lit "B") (λ e. cc) (λ e. cc)
