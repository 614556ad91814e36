-- ===== src/Lib.antt =====
-- Prehnite: agents work on coding tasks inside containers, and every action is written to a
-- trajectory file. This library models the Python package src/prehnite and proves what its parts
-- promise.
--
-- Shared:
--   Prelude        the libraries' names, Boolean tests, lists, integers, equality, dictionaries
--   Text           `str` as a list of code points; Text.Utf8 the UTF-8 codec, Text.Lines the reading
--                  of lines, Text.Number `int(s)`, Text.Order and Text.Paths the orders of `str`
--                  and of `Path`
--   Errors         the exceptions, and results that may be one
--   Schemas        src/prehnite/schemas.py: events, tasks, command results, JSON values
-- Parts of the program:
--   Overflow       src/prehnite/overflow.py: `cap_stream` and `cap_command_data` over a directory
--                  that is a dictionary from names to contents
--   Trajectory     src/prehnite/trajectory.py: the writer (`open`, `write`, `close`, and the recovery
--                  of the sequence number) and `read_trajectory`, over the text of the file
--   Server.Branch  `_filter_branch` of src/prehnite/mcp_server.py
--   Server.Tools   what each tool of src/prehnite/mcp_server.py does to the sandbox and the writer of
--                  its session; Server.Registry the server's state (sessions, session files,
--                  trajectories, overflow directory, Docker's log), Server.Requests the tools on it,
--                  Server.Resume `_rehydrate_sessions`
--   Session        what the runner and the tools drive: a sandbox with Docker's log, and a writer with
--                  its file; a step returns or raises, and the proxy's callback may write attempts
--                  at each call of the sandbox
--   Runner         src/prehnite/runner.py: `run` and `RunContext`; the agent is a tree of the commands
--                  that it runs. Runner.Phases is the automaton that reads a trajectory as the life
--                  of a session
--   Egress         src/prehnite/egress_proxy.py: the allowlist, and one connection of the proxy's
--                  handler, whose effects on the world are a list
--   Sandbox        src/prehnite/sandbox.py: the methods of `Sandbox` (Sandbox.Start, Sandbox.Ops) over
--                  a log of what was asked of Docker; a sandbox in restricted mode starts the proxy
--                  of Egress with its allowlist. Sandbox.Ledger holds the account of what is live,
--                  Sandbox.Confined the network of the containers
--   Loader         src/prehnite/tasks/loader.py: `load_task` and `discover_tasks` over the paths
--                  under a root
--   Cli            src/prehnite/cli.py: Cli.Summary one trajectory as one run, from the events that
--                  Trajectory reads; Cli.Stats what `prehnite stats --json` prints;
--                  Cli.Compare the differences of two snapshots and the exit code; Cli.Reap what
--                  `prehnite reap` removes, from Docker's listings and the session files; Cli.Batch
--                  `prehnite batch` over a shell that changes the trajectories and the clocks
--
-- Not modelled: JSON and pydantic (the record `Codec` is a parameter, with what is used of it as
-- hypotheses), SHA-256 (a function parameter), `str(v)` of a value that is no text (a function
-- parameter), JSON numbers with a fraction, file system errors and partial writes of overflow files, and the
-- `UnicodeEncodeError` of `cap_stream` on a lone surrogate (a theorem about the text that is kept
-- asks for a text of Unicode scalar values).
-- Docker and its SDK (an answer to each call that may depend on all that happened before), the
-- sockets (a list of what `recv` gives, and a function for the connection upstream) and the parsing of
-- timestamps are parameters, and so are the clocks, fresh ids and `repr`. Interleavings inside a call
-- of the sandbox are modelled as attempts heard at its end; two requests of the server do not overlap,
-- and the proxy of one session is not heard during another's request. The run and inspect commands,
-- argument parsing and printed tables are not modelled.
-- The loops are recursions on lists and on the byte index; only `str_nat` takes fuel, one more than
-- the number, which has at most as many digits.
pub mod Prelude
pub mod Text
pub mod Errors
pub mod Schemas
pub mod Overflow
pub mod Trajectory
pub mod Server
pub mod Cli
pub mod Egress
pub mod Sandbox
pub mod Loader
pub mod Session
pub mod Runner
mod Tests
