-- ===== src/Runner/Readable.antt =====
-- The trajectory of a run, read again.
use mathlib.Core.Path.{subst}
use prehnite.Prelude.{[], ◌≡◌, refl, true, List, Option, none, some}
use prehnite.Text.{Str}
use prehnite.Errors.{Result, ok}
use prehnite.Schemas.{Task}
use prehnite.Overflow.{OverflowDir}
use prehnite.Trajectory.{Codec, new_writer, open_writer, close, read_trajectory}
use prehnite.Trajectory.File.{AllReadable}
use prehnite.Trajectory.Sessions.{Run, Numbered, opened}
use prehnite.Trajectory.Sessions.Invariant.{
  IsConsistent, write-IsConsistent, open-IsConsistent, close-IsConsistent, consistent_read,
  begin-IsConsistent,
}
use prehnite.Trajectory.Sessions.Written.{HasFile, IsOpen, write-IsWritten, open_writer-new}
use prehnite.Sandbox.{Log}
use prehnite.Session.{Host, World, write_event, stop_sandbox}
use prehnite.Runner.{Agent, RunResult, drive, sealed, Ran, refused, ran, run_opened, run}
use prehnite.Runner.Kept.{run_cases, IsStable, overhear-Keeps}
use prehnite.Runner.Sealed.{any_type, unsealed-Keeps}

abbrev pub WorldConsistent : Host → World → Type 0
WorldConsistent host w =
    IsConsistent host.codec w.run × IsOpen w.run.writer × HasFile w.run.disk.file

pub WorldConsistent-IsStable : (host : Host) → IsStable host any_type (WorldConsistent host)
unfolding write_event
WorldConsistent-IsStable host = record {
  hears = refl;
  on_write = λ type payload w t (c, o, h).
      let x = write-IsWritten host.codec _ type payload w.run o in
      (write-IsConsistent host.codec _ type payload w.run c, x.still_open, x.on_disk);
  on_start = λ w h. h;
  on_exec = λ cmd w h. h;
}

drive-WorldConsistent :
    (host : Host) (task : Task) (path : Str) (agent : Option Agent) (cmds : Option (List Str))
    (w : World)
    → WorldConsistent host w
    → IsConsistent host.codec (drive host task path agent cmds w).1.run
      × HasFile (drive host task path agent cmds w).1.run.disk.file
unfolding drive sealed stop_sandbox close
drive-WorldConsistent host task path agent cmds w h =
    let stable = WorldConsistent-IsStable host in
    let u = unsealed-Keeps host (WorldConsistent host) stable task path agent cmds w h in
    let (c, o, f) = overhear-Keeps host any_type (WorldConsistent host) stable _ u in
    (unfold close in close-IsConsistent host.codec _ c, f)

abbrev RanConsistent : Host → Ran → Type 0
RanConsistent host (refused e) = Unit
RanConsistent host (ran r w) = IsConsistent host.codec w.run × HasFile w.run.disk.file

-- A new path, its writer just opened.
pub opened-IsConsistent :
    (codec : Codec) (dir : OverflowDir)
    → IsConsistent codec (record {
      events = [];
      writer = record (new_writer true) { fh = true };
      disk = record { file = some []; overflow = dir };
    })
opened-IsConsistent codec dir =
    let c = open-IsConsistent codec _ tt (begin-IsConsistent codec true dir) in
    unfold opened in rw (open_writer-new codec dir) at c

run_opened-RanConsistent :
    (host : Host) (task : Task) (path : Str) (agent : Option Agent) (cmds : Option (List Str))
    (dir : OverflowDir) (log : Log)
    → RanConsistent host (
        run_opened host task path agent cmds log
          (open_writer host.codec (new_writer true) (record { file = none; overflow = dir })))
unfolding run_opened
run_opened-RanConsistent host task path agent cmds dir log = rw (open_writer-new host.codec dir) (
    drive-WorldConsistent host task path agent cmds _ (
      opened-IsConsistent host.codec dir,
      record { opened = refl; unclosed = refl; next = 0; numbered = refl },
      tt,
    ))

run-RanConsistent :
    (host : Host) (task : Task) (path : Str) (agent : Option Agent) (cmds : Option (List Str))
    (dir : OverflowDir) (log : Log)
    → RanConsistent host
        (run host task path agent cmds (record { file = none; overflow = dir }) log)
run-RanConsistent host task path agent cmds dir log =
    run_cases host task path _ log (RanConsistent host) (λ e. tt)
      (λ agent cmds. run_opened-RanConsistent host task path agent cmds dir log) agent cmds

pub file_read :
    (host : Host) (run : Run) (file : Option Str)
    → run.disk.file ≡ file
    → HasFile file
    → AllReadable host.codec run.events
    → IsConsistent host.codec run
    → read_trajectory host.codec file ≡ ok run.events
file_read host run none e h a c = absurd h
file_read host run (some content) e h a c = consistent_read host.codec run content a c e

-- A run on a path that does not exist yet leaves a file that reads back as exactly the events whose
-- writes returned, in order, and their seqs are 0, 1, 2 and so on: however the run ended, and
-- whatever the proxy reported between its writes. (Assumed: the JSON of these events can be read
-- back.)
pub run_readable :
    (host : Host) (task : Task) (path : Str) (agent : Option Agent) (cmds : Option (List Str))
    (dir : OverflowDir) (log : Log) (r : Result RunResult) (w : World)
    → run host task path agent cmds (record { file = none; overflow = dir }) log ≡ ran r w
    → AllReadable host.codec w.run.events
    → (read_trajectory host.codec w.run.disk.file ≡ ok w.run.events) × Numbered 0 w.run.events
run_readable host task path agent cmds dir log r w e a =
    let (c, h) =
      subst (RanConsistent host) e (run-RanConsistent host task path agent cmds dir log) in
    (file_read host w.run w.run.disk.file refl h a c, c.numbered)
