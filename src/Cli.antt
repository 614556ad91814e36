-- ===== src/Cli.antt =====
-- cli.py: what the subcommands compute. Printing and argument parsing are left out.
pub mod Summary
pub mod Stats
pub mod Compare
pub mod Reap
pub mod Batch
