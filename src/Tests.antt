-- ===== src/Tests.antt =====
-- Runs on small inputs, and the theorems at concrete inputs.
mod OverflowTests
mod TrajectoryTests
mod CliTests
mod BranchTests
mod EgressTests
mod SandboxTests
mod ReapTests
mod LoaderTests
mod RunnerTests
mod ServerTests
mod BatchTests
