-- ===== src/Cli/Stats/Printed.antt =====
-- The files that `prehnite stats` skips.
use prehnite.Prelude.{◌≡◌, refl, ap, List, [], ◌∷◌, ◌++◌, Option, some}
use prehnite.Text.{Str}
use prehnite.Errors.{Error, err}
use prehnite.Schemas.{Value}
use prehnite.Trajectory.{Codec, read_trajectory}
use prehnite.Cli.Summary.{Timestamp}
use prehnite.Cli.Stats.Command.{load_runs, add_file}

module _ (codec : Codec) (show : Value → Str) (parse_ts : Str → Option Timestamp)
    (task : Option Str) where
  -- A file that cannot be read, wherever it stands among the others, changes nothing of the runs that
  -- are summarized.
  pub load_runs-skip :
      (before after : List Str) (content : Str) (e : Error)
      → read_trajectory codec (some content) ≡ err e
      → load_runs codec show parse_ts task (before ++ content ∷ after)
        ≡ load_runs codec show parse_ts task (before ++ after)
  unfolding load_runs add_file
  load_runs-skip [] after content e h = rw h refl
  load_runs-skip (b ∷ before) after content e h =
      ap (add_file codec show parse_ts task (read_trajectory codec (some b)))
        (load_runs-skip before after content e h)
