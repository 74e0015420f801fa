-- ===== src/Tests/Filelists.antt =====
-- Examples of the theorems on filelists.
use arvern_ips.Prelude.{
  ◌+◌, ◌≡◌, refl, ◌≢◌, List, [], ◌∷◌, arith, length, keep_if, nat_eq, list_beq, list_eq, pair_eq,
  contains, IsDistinct, Text, codes, starts_with, split_on, join, true, if◌then◌else◌, Bool-cases,
  inl, inr, eqb,
}
use arvern_ips.Filelist.Flatten.{
  Disk, file_lines, not_found, Marks, Outcome, exhausted, process_filelist,
}
use arvern_ips.Filelist.Flatten.Termination.{IsFinite, process_filelist_terminates}
use arvern_ips.Filelist.Dedup.{is_passthrough, dedup_lines, dedup_loop}
use arvern_ips.Filelist.Dedup.Laws.{keyed, firsts, dedup_lines_lem, dedup_lines-firsts}
use arvern_ips.Filelist.Relative.{
  parts, common, rel_parts, relpath, rel, relativize_line, relativize_lines,
}
use arvern_ips.Filelist.Relative.RoundTrip.{ResolvesNormal, AreMoved, relativize_lines-AreMoved}
use arvern_ips.Filelist.Emit.{tcl_lists, qsf_rows, is_file_row, n_files}
use arvern_ips.Filelist.Emit.Agreement.{values, is_search_row, tcl_lists-qsf_rows}

abbrev files : List Text
files = codes "/a.f" ∷ []

-- A disk with one list, which includes itself and names a source file twice.
abbrev disk : Disk
disk = record {
  resolve = λ p. codes "/a.f";
  exists = contains files;
  read = λ p. file_lines (codes "-f a.f" ∷ codes "/a.f // the top" ∷ codes "+define+A" ∷ []);
}

abbrev start : Marks
start = record { processed = []; warnings = [] }

abbrev lines : List Text
lines = codes "/x.v" ∷ codes "+incdir+/i" ∷ codes "/y.v" ∷ codes "/x.v" ∷ codes "+define+A=1" ∷ []

disk-IsFinite : IsFinite disk files
disk-IsFinite = record { resolve-resolve = λ p. refl; exists-contains = λ p h. h }

process_filelist_terminates_example : process_filelist disk 5 (codes "a.f") start ≢ exhausted
process_filelist_terminates_example =
    process_filelist_terminates disk files disk-IsFinite 5 (codes "a.f") start (omega arith)

abbrev flat : List Text
flat = codes "/a.f" ∷ codes "+define+A" ∷ []

abbrev visited : Marks
visited = record { processed = codes "/a.f" ∷ []; warnings = [] }

dedup_lines_lem_example :
    ((a : Text) → contains (dedup_lines lines) a ≡ contains lines a)
    × IsDistinct (keep_if keyed (dedup_lines lines))
    × (keep_if is_passthrough (dedup_lines lines) ≡ keep_if is_passthrough lines)
    × (length (dedup_lines lines) + (dedup_loop [] lines).1 ≡ length lines)
dedup_lines_lem_example = dedup_lines_lem lines

dedup_lines-firsts_example : dedup_lines lines ≡ firsts [] lines
dedup_lines-firsts_example = dedup_lines-firsts lines

-- A disk that resolves its run directory to itself and all else to one file.
abbrev work : Disk
work = record {
  resolve = λ p. if eqb p (codes "/w/sim") then codes "/w/sim" else codes "/w/rtl/a.v";
  exists = λ p. true;
  read = λ p. not_found;
}

work-ResolvesNormal : ResolvesNormal work
unfolding parts split_on list_beq
work-ResolvesNormal p = elim (Bool-cases (eqb p (codes "/w/sim"))) [
  | inl same ↦ rw same (refl, refl, (refl, refl, tt))
  | inr other ↦ rw other (refl, refl, (refl, refl, (refl, refl, tt)))
]

abbrev absolute : List Text
absolute =
    codes "/w/rtl/a.v" ∷ codes "+incdir+/w/rtl" ∷ codes "+define+A" ∷ codes "./sim_top.v" ∷ []

relativize_lines-AreMoved_example :
    AreMoved work (codes "/w/sim") absolute (relativize_lines work absolute (codes "/w/sim"))
relativize_lines-AreMoved_example =
    relativize_lines-AreMoved work work-ResolvesNormal absolute (codes "/w/sim")

relative_line : relativize_line work (codes "/w/sim") (codes "/w/rtl/a.v") ≡ codes "../rtl/a.v"
unfolding relativize_line rel relpath rel_parts parts split_on join common list_beq starts_with
relative_line = refl

tcl_lists-qsf_rows_example :
    ((tcl_lists lines).0 ≡ values (keep_if is_file_row (qsf_rows lines)))
    × ((tcl_lists lines).1 ≡ values (keep_if is_search_row (qsf_rows lines)))
    × (length (tcl_lists lines).0 ≡ n_files (qsf_rows lines))
tcl_lists-qsf_rows_example = tcl_lists-qsf_rows lines
