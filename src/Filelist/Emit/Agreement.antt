-- ===== src/Filelist/Emit/Agreement.antt =====
-- The Tcl and the Quartus outputs list the same files and include directories.
use arvern_ips.Prelude.{
  ℕ, suc, ◌≡◌, refl, ap, ◌∙◌, inl, inr, Bool, true, false, ◌||◌, List, [], ◌∷◌, ◌++◌, map, arith,
  Bool-cases, length, drop, keep_if, is_nil, keep_if-append, eqb, nat_eq, list_eq, pair_eq, Text,
  codes, strip, starts_with, ends_with,
}
use arvern_ips.Filelist.Emit.{
  tcl_lists, Assignment, search_path, assignment_name, file_kind, suffix, macro_row, qsf_row,
  qsf_rows, is_file_row, n_files,
}

abbrev pub is_search_row : Assignment × Text → Bool
is_search_row (search_path, val) = true
is_search_row _ = false

-- The second components.
abbrev pub values : List (Assignment × Text) → List Text
values = map (λ (row : Assignment × Text). row.1)

is_file_row-file_kind :
    (ln val : Text)
    → (is_file_row (file_kind ln, val) ≡ true) × (is_search_row (file_kind ln, val) ≡ false)
unfolding file_kind is_file_row assignment_name ends_with starts_with
is_file_row-file_kind ln val = elim (Bool-cases (eqb (suffix ln) (codes ".sv"))) [
  | inl a ↦ rw a (refl, refl)
  | inr a ↦
      rw a (elim (Bool-cases (eqb (suffix ln) (codes ".vhd") || eqb (suffix ln) (codes ".vhdl"))) [
        | inl b ↦ rw b (refl, refl)
        | inr b ↦ rw b (refl, refl)
      ])
]

-- What a macro adds is no file and no search path.
macro_row-others :
    (s : Text)
    → (keep_if is_file_row (macro_row s) ≡ []) × (keep_if is_search_row (macro_row s) ≡ [])
unfolding macro_row is_file_row assignment_name ends_with starts_with
macro_row-others s = elim (Bool-cases (is_nil (strip s))) [
  | inl blank ↦ rw blank (refl, refl)
  | inr filled ↦ rw filled (refl, refl)
]

search_row-files : (v : Text) → is_file_row (search_path, v) ≡ false
unfolding is_file_row assignment_name ends_with starts_with
search_row-files v = refl

-- What one line adds to the rows is what it adds to the two lists.
starts_with_first :
    (s : Text) (c : ℕ) (rest : Text)
    → starts_with s (c ∷ rest) ≡ true
    → starts_with s (c ∷ []) ≡ true
unfolding starts_with
starts_with_first [] c rest h = h
starts_with_first (d ∷ s) c rest h = ground arith

row_agreement :
    (ln : Text) (lines : List Text)
    → ((tcl_lists (ln ∷ lines)).0
        ≡ values (keep_if is_file_row (qsf_row ln)) ++ (tcl_lists lines).0)
      × ((tcl_lists (ln ∷ lines)).1
          ≡ values (keep_if is_search_row (qsf_row ln)) ++ (tcl_lists lines).1)
unfolding tcl_lists qsf_row
row_agreement ln lines = ground (
  arith,
  is_file_row-file_kind ln ln,
  macro_row-others (drop 8 ln),
  macro_row-others (drop 2 ln),
  search_row-files (drop 8 ln),
  starts_with_first ln b'+' (codes "define+"),
  starts_with_first ln b'-' (codes "D"),
)

values-append : (xs ys : List (Assignment × Text)) → values (xs ++ ys) ≡ values xs ++ values ys
values-append [] ys = refl
values-append (x ∷ xs) ys = ap (◌∷◌ x.1) (values-append xs ys)

length-values : (xs : List (Assignment × Text)) → length (values xs) ≡ length xs
length-values [] = refl
length-values (x ∷ xs) = ap suc (length-values xs)

tcl_lists-qsf_rows_lists :
    (lines : List Text)
    → ((tcl_lists lines).0 ≡ values (keep_if is_file_row (qsf_rows lines)))
      × ((tcl_lists lines).1 ≡ values (keep_if is_search_row (qsf_rows lines)))
unfolding qsf_rows
tcl_lists-qsf_rows_lists [] = unfold tcl_lists in (refl, refl)
tcl_lists-qsf_rows_lists (ln ∷ lines) =
    let (files, dirs) = tcl_lists-qsf_rows_lists lines in
    let (row_files, row_dirs) = row_agreement ln lines in
    (
      rw (keep_if-append, values-append, ← files) row_files,
      rw (keep_if-append, values-append, ← dirs) row_dirs,
    )

-- Of any list of lines, the files that `emit_tcl` lists are those of `emit_qsf`, in the same order,
-- and so are the include directories; the file count in the header of the Quartus output is the
-- length of the Tcl list.
pub tcl_lists-qsf_rows :
    (lines : List Text)
    → ((tcl_lists lines).0 ≡ values (keep_if is_file_row (qsf_rows lines)))
      × ((tcl_lists lines).1 ≡ values (keep_if is_search_row (qsf_rows lines)))
      × (length (tcl_lists lines).0 ≡ n_files (qsf_rows lines))
unfolding n_files
tcl_lists-qsf_rows lines =
    let (files, dirs) = tcl_lists-qsf_rows_lists lines in
    (files, dirs, ap length files ∙ length-values _)
