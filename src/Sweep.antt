-- ===== src/Sweep.antt =====
-- The sweep runners: every RTL configuration is simulated or linted, and the exit status is the
-- verdict on all of them.
pub mod Coverage
pub mod Manifest
pub mod Simulate
pub mod Lint
pub mod Aclint
pub mod Plic
pub mod PlicSweep
