-- ===== src/Params.antt =====
-- sim/rtl_sim/bin/gen_rtl_params.py (one copy in every IP) and the parameter tables rtl_configs.py:
-- one table of RTL configurations, translated to the Tcl that the Synopsys flows read.
pub mod Select
pub mod Write
pub mod Tables
