-- ===== src/Filelist/Line.antt =====
-- The line forms of a filelist: the guards of the loop in `process_filelist`, in their order.
use arvern_ips.Prelude.{
  ◌||◌, if◌then◌else◌, drop, is_nil, nat_eq, list_eq, pair_eq, Text, codes, strip, starts_with,
  has_part, before,
}

abbrev pub incdir_mark : Text
incdir_mark = codes "+incdir+"

-- What one line of a filelist asks for. A nested list and an include directory carry their path.
pub data Line : Type 0 where
  skipped : Line
  nested : Text → Line
  incdir : Text → Line
  directive : Text → Line
  run_local : Text → Line
  source : Text → Line

-- The branches below the comment handling.
unfoldable pub kind_of : Text → Line
kind_of s =
    if starts_with s (codes "-f ")
    then nested (strip (drop 3 s))
    else if starts_with s incdir_mark
    then incdir (drop 8 s)
    else if starts_with s (codes "+") || starts_with s (codes "-")
    then directive s
    else if starts_with s (codes "./")
    then run_local s
    else source s

-- Strip the line, skip blanks and comments, cut an inline `//` comment, and classify the rest.
unfoldable pub classify : Text → Line
classify raw =
    let s = strip raw in
    let cut = if has_part s (codes "//") then strip (before (codes "//") s) else s in
    if is_nil s || starts_with s (codes "//") || starts_with s (codes "#")
    then skipped
    else if is_nil cut
    then skipped
    else kind_of cut
