-- ===== src/Vcd.antt =====
-- The table of signals sampled at the edges of a clock in a window of a VCD file.
pub mod Names
pub mod Header
pub mod Sample
pub mod Table
