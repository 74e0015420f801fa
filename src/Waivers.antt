-- ===== src/Waivers.antt =====
-- sim/rtl_sim/bin/cov_waive.py (the same code in every IP): waivers exclude coverage points that
-- cannot be reached. They are matched against points, checked against the database, and suggested
-- for the uncovered points of a line.
pub mod Glob
pub mod Fold
pub mod Match
pub mod Lint
pub mod Anchor
pub mod Suggest
pub mod Json
pub mod Load
