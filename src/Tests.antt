-- ===== src/Tests.antt =====
-- Tests and examples of the theorems at concrete inputs.
pub mod Filelists
pub mod Configurations
pub mod Reports
pub mod Loading
pub mod Constants
pub mod Suggesting
pub mod Page
