-- ===== src/Filelist.antt =====
-- ahb_interconnect/sim/rtl_sim/bin/flatten_filelist.py (one copy in every IP): a Verilog `-f`
-- filelist is expanded, its duplicates are dropped, and it is written for a simulator (raw), for
-- Design Compiler (tcl) or for Quartus (qsf).
pub mod Line
pub mod Flatten
pub mod Dedup
pub mod Relative
pub mod Emit
