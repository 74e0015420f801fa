-- ===== src/Points.antt =====
-- The report on the databases of the code coverage.
pub mod Database
pub mod Locations
pub mod Scope
