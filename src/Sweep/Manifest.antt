-- ===== src/Sweep/Manifest.antt =====
-- ahb_aclint/sim/rtl_sim/bin/check_core_manifest.py. A file is its lines, and the parameter `disk`
-- says which files there are.
pub mod Agreement
use arvern_ips.Prelude.{
  ℕ, zero, suc, ◌+◌, ◌-◌, ◌*◌, ◌/◌, ◌%◌, ◌≤◌, ◌<◌, max, min, ◌≡◌, refl, sym, ap, ◌∙◌, ◌≢◌, ◌↔◌, ◌⊎◌,
  inl, inr, Bool, true, false, not, ◌&&◌, ◌||◌, Option, none, some, List, [], ◌∷◌, ◌++◌, map,
  append-nil, append_assoc, arith, ltb, leb, ◌==◌, if◌then◌else◌, ltb→lt, lt→ltb, leb→le, ==_iff,
  Bool-cases, Option-cases, Bool-ext, and-eq-true, or-eq-true, length, get_elem?, get_or, take,
  drop, replicate, keep_if, any, all, is_nil, length-append, List-cases, drop-append,
  keep_if-append, length-keep_if-le, any-append, Eq, eqb, nat_eq, list_beq, list_beq_iff, list_eq,
  pair_beq, pair_beq_iff, pair_eq, eqb_refl, eqb_sym, contains, contains-append, IsDistinct,
  contains-keep_if, unseen, unseen-cons-le, unseen-cons-lt, Text, codes, is_space, lstrip, rstrip,
  strip, starts_with, starts_with-append, ends_with, has_part, before, split_on, join, rpartition,
  basename,
}
use arvern_ips.Prelude.Dict.{
  Dict, keys, lookup, insert, has_key, set_default, lookup-insert, has_key-insert, has_key-lookup,
  contains-keys, insert-IsDistinct,
}
use arvern_ips.Prelude.Decimal.{
  is_digit, is_number, int, show, int-show, show_injective, is_number-show,
}
use arvern_ips.Prelude.Sorting.{
  text_le, text_le_total, text_le_trans, insert_sorted, sort, IsSorted, length-insert_sorted,
  length-sort, all-sort, sort-IsSorted, contains-insert_sorted, contains-sort,
}
use arvern_ips.Sweep.Coverage.{words}

-- The file that one line of a filelist names, if any.
unfoldable pub filelist_entry : Text → Option Text
filelist_entry raw =
    let line = strip (before (codes "//") raw) in
    if is_nil line || (starts_with line (codes "-f") || starts_with line (codes "+"))
    then none
    else some (basename line)

unfoldable pub filelist_rtl : List Text → List Text
filelist_rtl [] = []
filelist_rtl (raw ∷ lines) = elim (filelist_entry raw) [
  | none ↦ filelist_rtl lines
  | some f ↦ f ∷ filelist_rtl lines
]

-- `re.match(r'-\s+(\S+)', s)`, and the group.
unfoldable pub list_item : Text → Option Text
list_item [] = none
list_item (_ ∷ []) = none
list_item (dash ∷ gap ∷ s) = elim (words s) [
  | [] ↦ none
  | w ∷ ws ↦ if dash == b'-' && is_space gap then some w else none
]

-- `in_rtl` and `in_files`
pub record Scan : Type 0 where
  pub in_rtl : Bool
  pub in_files : Bool

-- One round of the loop: the new state, and the file that the line names.
unfoldable pub scan_item : Scan → Text → Scan × Option Text
scan_item st s =
    if st.in_rtl && eqb s (codes "files:")
    then (record st { in_files = true }, none)
    else if st.in_rtl && st.in_files
    then elim (list_item s) [
      | some f ↦ (st, some (basename f))
      | none ↦ (record st { in_files = false }, none)
    ]
    else (st, none)

unfoldable pub scan_line : Scan → Text → Scan × Option Text
scan_line st raw =
    let line = rstrip (before (codes "#") raw) in
    let indent = length line - length (lstrip line) in
    let s = strip line in
    if is_nil s
    then (st, none)
    else if eqb s (codes "rtl:") && indent == 2
    then (record { in_rtl = true; in_files = false }, none)
    else scan_item (record st { in_rtl = st.in_rtl && not (leb indent 2) }) s

unfoldable pub scan_lines : Scan → List Text → List Text
scan_lines st [] = []
scan_lines st (raw ∷ lines) =
    let (next, found) = scan_line st raw in
    let rest = scan_lines next lines in elim found [ none ↦ rest | some f ↦ f ∷ rest ]

unfoldable pub core_rtl : List Text → List Text
core_rtl = scan_lines (record { in_rtl = false; in_files = false })

unfoldable pub without : List Text → List Text → List Text
without xs ys = keep_if (λ f. not (contains ys f)) xs

-- The comparison of the two files: the exit status and what is printed.
unfoldable pub compare : Text → List Text → List Text → ℕ × List Text
compare ip want have =
    let missing = without want have in
    let extra = without have want in
    let said = λ (t : Text). codes "check_core_manifest: " ++ (ip ++ (codes ".core " ++ t)) in
    if is_nil missing && is_nil extra
    then (
      0,
      said (codes "matches rtl/verilog/filelist.f (" ++ (show (length want) ++ codes " files)"))
          ∷ [],
    )
    else (
      1,
      map (λ (f : Text). said (codes "lists " ++ (f ++ codes ", which is not in filelist.f"))) extra
          ++ map (λ (f : Text). said (codes "is missing " ++ f)) missing,
    )

unfoldable pub not_found : Text → ℕ × List Text
not_found p = (1, (codes "check_core_manifest: " ++ (p ++ codes " not found")) ∷ [])

unfoldable pub core_path : Text → Text
core_path ip_dir = ip_dir ++ (b'/' ∷ (basename ip_dir ++ codes ".core"))

unfoldable pub flist_path : Text → Text
flist_path ip_dir = ip_dir ++ codes "/rtl/verilog/filelist.f"

-- What the two files hold, if they are there, decides the exit status and what is printed.
unfoldable pub verdict : Text → Option (List Text) → Option (List Text) → ℕ × List Text
verdict ip_dir none flist = not_found (core_path ip_dir)
verdict ip_dir (some core) none = not_found (flist_path ip_dir)
verdict ip_dir (some core) (some flist) =
    compare (basename ip_dir) (filelist_rtl flist) (core_rtl core)

-- `main` at the absolute directory of an IP.
unfoldable pub manifest_main : (Text → Option (List Text)) → Text → ℕ × List Text
manifest_main disk ip_dir = verdict ip_dir (disk (core_path ip_dir)) (disk (flist_path ip_dir))
