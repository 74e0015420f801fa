-- ===== src/Lib.antt =====
-- A model of the Python programs of the Arvern IP repository: the scripts that prepare the RTL of
-- each IP for the tools, run the sweeps and judge their results. Every IP carries its own copy of a
-- script, in `<ip>/sim/rtl_sim/bin/`; the copies are alike, and the files below name the one that is
-- modelled.
--
-- The parts and how they interact. A filelist is flattened to the one list that simulators, lint and
-- synthesis read. A table of RTL configurations gives the parameters of an elaboration, which a
-- script writes for the synthesis, and which the lint sweep passes to Verilator. The simulation sweep
-- runs every test of every configuration, and its verdict joins the status of the runs with the
-- functional-coverage gate on their logs. The report on code coverage merges the databases of the
-- runs and takes out the points that the waivers cover; a page shows the same points line by line.
-- The waivers are loaded from a file that people write, and in part computed: a bit that elaboration
-- shows to be constant in every configuration of the sweep is waived. A table of signals is sampled
-- from a wave.
--
--   Prelude    lists, equality, dictionaries, text, decimal numbers and sorting.
--   Filelist   ahb_interconnect/sim/rtl_sim/bin/flatten_filelist.py. Line: the kinds of lines;
--              Flatten: `process_filelist`; Dedup: `dedup_lines`; Relative: `relativize_lines`;
--              Emit: `emit_raw`, `emit_tcl`, `emit_qsf` and `main`.
--   Params     ahb_aclint/sim/rtl_sim/bin/gen_rtl_params.py. Select: `normalise` and `resolve`;
--              Write: `write_params`, with Tcl's reading of its file in the child Settings;
--              Tables: the `rtl_configs.py` of all eight IPs.
--   Sweep      ahb_aclint/sim/rtl_sim/bin. Coverage: coverage.py; Simulate: run_sweep.py; Lint:
--              run_lint_sweep.py; Manifest: check_core_manifest.py; Aclint and Plic: sim_configs.py
--              of ahb_aclint and ahb_plic; PlicSweep: run_sweep.py of ahb_plic.
--   Waivers    ahb_aclint/sim/rtl_sim/bin/cov_waive.py. Glob: the patterns of `fnmatch` as the
--              waivers use them; Fold: `_combine_bits` and the globs of `suggest_entries`; Match:
--              `Waivers.match` and `stale`; Lint: `lint`; Anchor: `_src_anchor`; Suggest:
--              `suggest_entries` and `records_from_report`, whose entries go through the loader and
--              the match in its child Loaded; Json: the values of an entry; Load:
--              `_add_dict`, with `_load_md` in its child Markdown and `_load_txt` in Lines.
--   Points     ahb_aclint/sim/rtl_sim/bin/cov_report.py. Database: `parse`; Locations: the
--              accumulation, the waivers, the cells and the uncovered locations of `main`. Scope:
--              cov_scope.py of the same directory.
--   Vcd        ahb_interconnect/sim/rtl_sim/bin/vcd_window.py. Names: the table of names and the
--              choice of signals; Header: `VCD.parse_header` on tokens, and `bin_to_hex`; Sample:
--              `VCD.sample`; Table: `read_gtkw` and the layout of the table.
--   Html       ahb_aclint/sim/rtl_sim/bin/cov_html.py. Read: `parse`; Views: the two views of `build`
--              and the waivers of `main`; Pages: the annotated files and the totals of `build`.
--   Const      ahb_aclint/sim/rtl_sim/bin. `split_top` of cov_const.py; Rtlil: `_ysig_bits` and
--              `_rtlil_consts`; Closure: the loop over the aliases in it; Bits: `_Bits` and
--              `_intersect`; Merge: `yosys_constants`; Section: the generated section of the waiver
--              file in `main`; Configs: `coverage_configs` and
--              `_read` of cov_const_cfg.py, with the settings of ahb_aclint and ahb_plic.
--   Tests      examples of the theorems.
--
-- State is passed explicitly: the visited filelists and the warnings (`Marks`), the set of lines
-- already kept, the hits of the waivers, the dictionaries of the report, the values of a wave.
-- Errors are values: an exception or an exit is a constructor of the result.
--
-- Bounds and fuel. The walk over nested filelists takes fuel, one unit for each nested list; more
-- than the number of existing files plus one is enough, since no list is entered twice. All else is
-- structural recursion, but for the walk of cov_scope.py, which has no guard against circular
-- includes and takes fuel as well, as does `_read` of cov_const_cfg.py. The loop over the aliases takes
-- fuel, one unit a round; one more than there are aliases is enough, since each round but the last
-- adds a driven bit. Numbers are unbounded, as in Python.
--
-- What is read off the outside is a parameter: the file system (`Disk`), the compiler, the simulator
-- and the random seeds (`Tools`), Verilator, the source lines and the regular expressions of waivers
-- (`search`, and `compiles` for whether one is well formed), the JSON parser (`loads`) and `str` of a
-- JSON list, object or number (`repr`). The numbers of a JSON entry are natural numbers.
-- The file of a waiver is kept as its text.
-- The coverage gate reads the logs of the runs; the summary that stands beside them is left out, since
-- it names a bin only where a configuration or a test is called after the marker of the gate.
-- The items of RTLIL stand apart by blanks.
-- Text is a list of code points. Digits and letters are those of ASCII, counts are unsigned
-- decimals, the text of a log is that after the translation of line ends, and the bounds of a wave's
-- window are whole picoseconds.
--
-- Not modelled: command lines and the writing of files, `check_fresh` of cov_waive.py, which
-- compares the times of files; the text parser of cov_const.py that stands in for Yosys, its calls
-- of Yosys (`_yosys_one`) and, of its `main`, all but the generated section; the tables of
-- cov_const_cfg.py in the IPs other than ahb_aclint and ahb_plic; the template of cov_html.py and
-- the suggestions and messages of its `main`; the split of a wave's header into tokens and the
-- printing of its times; cov_vlfix.py, render.py and extract_worst_path.py, which wrap tools or
-- draw; and the RTL, the testbenches and the shell and Tcl scripts.
pub mod Prelude
pub mod Filelist
pub mod Params
pub mod Sweep
pub mod Waivers
pub mod Html
pub mod Points
pub mod Vcd
pub mod Const
mod Tests
