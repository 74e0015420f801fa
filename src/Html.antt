-- ===== src/Html.antt =====
-- The page on the databases of the code coverage.
pub mod Read
pub mod Views
pub mod Pages
