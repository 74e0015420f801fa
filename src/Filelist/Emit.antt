-- ===== src/Filelist/Emit.antt =====
-- `emit_raw`, `emit_tcl`, `emit_qsf` and `main`: the lines written to the output file. A line of
-- the file is a text; what `Path(src).resolve()` prints is the parameter `shown`.
pub mod Agreement
use arvern_ips.Prelude.{
  ℕ, zero, suc, ◌+◌, ◌-◌, ◌*◌, ◌/◌, ◌%◌, ◌≤◌, ◌<◌, max, min, ◌≡◌, refl, sym, ap, ◌∙◌, ◌≢◌, ◌↔◌, ◌⊎◌,
  inl, inr, Bool, true, false, not, ◌&&◌, ◌||◌, Option, none, some, List, [], ◌∷◌, ◌++◌, map,
  append-nil, append_assoc, arith, ltb, leb, ◌==◌, if◌then◌else◌, ltb→lt, lt→ltb, leb→le, ==_iff,
  Bool-cases, Option-cases, Bool-ext, and-eq-true, or-eq-true, length, get_elem?, get_or, take,
  drop, replicate, keep_if, any, all, is_nil, length-append, List-cases, drop-append,
  keep_if-append, length-keep_if-le, any-append, Eq, eqb, nat_eq, list_beq, list_beq_iff, list_eq,
  pair_beq, pair_beq_iff, pair_eq, eqb_refl, eqb_sym, contains, contains-append, IsDistinct,
  contains-keep_if, unseen, unseen-cons-le, unseen-cons-lt, Text, codes, is_space, lstrip, rstrip,
  strip, starts_with, starts_with-append, ends_with, has_part, before, split_on, join, rpartition,
  basename,
}
use arvern_ips.Prelude.Dict.{
  Dict, keys, lookup, insert, has_key, set_default, lookup-insert, has_key-insert, has_key-lookup,
  contains-keys, insert-IsDistinct,
}
use arvern_ips.Prelude.Decimal.{
  is_digit, is_number, int, show, int-show, show_injective, is_number-show,
}
use arvern_ips.Prelude.Sorting.{
  text_le, text_le_total, text_le_trans, insert_sorted, sort, IsSorted, length-insert_sorted,
  length-sort, all-sort, sort-IsSorted, contains-insert_sorted, contains-sort,
}
use arvern_ips.Filelist.Line.{incdir_mark}
use arvern_ips.Filelist.Flatten.{
  Disk, Marks, Outcome, done, raised, exhausted, ◌>>=◌, process_filelist,
}
use arvern_ips.Filelist.Dedup.{dedup_lines}
use arvern_ips.Filelist.Relative.{relativize_lines}

unfoldable pub emit_raw : Text → List Text → List Text
emit_raw shown lines =
    codes "//========================================================="
    ∷ codes "// AUTO-GENERATED FLATTENED FILELIST  (do not edit)"
    ∷ (codes "// Source: " ++ shown)
    ∷ (codes "// Entries: " ++ show (length lines))
    ∷ codes "//========================================================="
    ∷ []
    ∷ lines

-- The two lists of `emit_tcl`: the source files and the include directories.
unfoldable pub tcl_lists : List Text → List Text × List Text
tcl_lists [] = ([], [])
tcl_lists (ln ∷ lines) =
    let (files, incdirs) = tcl_lists lines in
    if starts_with ln incdir_mark
    then (files, drop 8 ln ∷ incdirs)
    else if starts_with ln (codes "+") || starts_with ln (codes "-")
    then (files, incdirs)
    else if starts_with ln (codes "./")
    then (files, incdirs)
    else (ln ∷ files, incdirs)

unfoldable pub emit_list : Text → List Text → List Text
emit_list name [] = (codes "set " ++ (name ++ codes " [list]")) ∷ []
emit_list name (it ∷ items) =
    (codes "set " ++ (name ++ codes " [list \\"))
    ∷ (map (λ (x : Text). codes "    " ++ (x ++ codes " \\")) (it ∷ items) ++ (codes "]" ∷ []))

unfoldable pub emit_tcl : Text → List Text → List Text
emit_tcl shown lines =
    let (files, incdirs) = tcl_lists lines in
    codes "#========================================================="
    ∷ codes "# AUTO-GENERATED RTL FILELIST  (do not edit)"
    ∷ (codes "# Source : " ++ shown)
    ∷ (codes "# Files  : " ++ show (length files))
    ∷ (codes "# Incdirs: " ++ show (length incdirs))
    ∷ codes "#========================================================="
    ∷ []
    ∷ (emit_list (codes "RTL_SOURCE_FILES") files ++ ([] ∷ emit_list (codes "RTL_INCDIRS") incdirs))

-- `str.lower` on ASCII letters.
unfoldable pub lower : ℕ → ℕ
lower c = if leb b'A' c && leb c b'Z' then c + 32 else c

-- `Path(ln).suffix.lower()`: from the last dot of the file name, if it is neither its first nor its
-- last character.
unfoldable pub suffix : Text → Text
suffix path = elim (rpartition b'.' (basename path)) [
  | none ↦ []
  | some (stem, ext) ↦ if is_nil stem || is_nil ext then [] else map lower (b'.' ∷ ext)
]

-- The first components of the rows of `emit_qsf`.
pub data Assignment : Type 0 where
  verilog_macro search_path systemverilog_file vhdl_file verilog_file : Assignment

unfoldable pub assignment_name : Assignment → Text
assignment_name verilog_macro = codes "VERILOG_MACRO"
assignment_name search_path = codes "SEARCH_PATH"
assignment_name systemverilog_file = codes "SYSTEMVERILOG_FILE"
assignment_name vhdl_file = codes "VHDL_FILE"
assignment_name verilog_file = codes "VERILOG_FILE"

unfoldable pub file_kind : Text → Assignment
file_kind ln =
    let ext = suffix ln in
    if eqb ext (codes ".sv")
    then systemverilog_file
    else if eqb ext (codes ".vhd") || eqb ext (codes ".vhdl")
    then vhdl_file
    else verilog_file

-- `_macro`: a blank definition gives no row.
unfoldable pub macro_row : Text → List (Assignment × Text)
macro_row text =
    let body = strip text in
    if is_nil body then [] else (verilog_macro, b'"' ∷ (body ++ codes "\"")) ∷ []

-- The rows that one line of the list adds.
unfoldable pub qsf_row : Text → List (Assignment × Text)
qsf_row ln =
    if starts_with ln incdir_mark
    then (search_path, drop 8 ln) ∷ []
    else if starts_with ln (codes "+define+")
    then macro_row (drop 8 ln)
    else if starts_with ln (codes "-D")
    then macro_row (drop 2 ln)
    else if starts_with ln (codes "+") || starts_with ln (codes "-")
    then []
    else if starts_with ln (codes "./")
    then []
    else (file_kind ln, ln) ∷ []

unfoldable pub qsf_rows : List Text → List (Assignment × Text)
qsf_rows [] = []
qsf_rows (ln ∷ lines) = qsf_row ln ++ qsf_rows lines

-- `n.endswith("_FILE")`
unfoldable pub is_file_row : Assignment × Text → Bool
is_file_row (name, val) = ends_with (assignment_name name) (codes "_FILE")

unfoldable pub n_files : List (Assignment × Text) → ℕ
n_files rows = length (keep_if is_file_row rows)

-- `f"{name:<18}"`
unfoldable pub pad_right : ℕ → Text → Text
pad_right width s = s ++ replicate (width - length s) b' '

unfoldable pub emit_qsf : Text → List Text → List Text
emit_qsf shown lines =
    let rows = qsf_rows lines in
    codes "#========================================================="
    ∷ codes "# AUTO-GENERATED QUARTUS SOURCE ASSIGNMENTS  (do not edit)"
    ∷ codes "# Source this file from your project .qsf:  source <this_file>"
    ∷ (codes "# Source : " ++ shown)
    ∷ (codes "# Files  : " ++ show (n_files rows))
    ∷ codes "#========================================================="
    ∷ []
    ∷ map
        (λ (row : Assignment × Text).
          codes "set_global_assignment -name "
          ++ (pad_right 18 (assignment_name row.0) ++ (b' ' ∷ row.1)))
        rows

pub data Format : Type 0 where
  raw tcl qsf : Format

unfoldable pub emit : Format → Text → List Text → List Text
emit raw = emit_raw
emit tcl = emit_tcl
emit qsf = emit_qsf

-- `main`, up to the write of the file: the lines that are written.
unfoldable pub flatten_main : Disk → ℕ → Format → Option Text → Text → Outcome (List Text)
flatten_main disk fuel format relative_to input = do
  (out, m) ← process_filelist disk fuel input (record { processed = []; warnings = [] })
  let lines = dedup_lines out
  let final : List Text = elim relative_to [
    | none ↦ lines
    | some dir ↦ if is_nil dir then lines else relativize_lines disk lines dir
  ]
  done (emit format (disk.resolve input) final)
