-- ===== src/Vcd/Table.antt =====
-- ahb_interconnect/sim/rtl_sim/bin/vcd_window.py: `read_gtkw`, and the labels, widths and rows of
-- the table that `main` prints.
use arvern_ips.Vcd.Header.{bin_to_hex}
use arvern_ips.Vcd.Sample.{value}
use arvern_ips.Prelude.{
  ℕ, ◌-◌, max, Bool, false, not, ◌&&◌, ◌||◌, Option, none, some, List, [], ◌∷◌, ◌++◌, map, ltb, leb,
  ◌==◌, if◌then◌else◌, length, take, drop, replicate, keep_if, any, all, is_nil, eqb, nat_eq,
  list_eq, pair_eq, contains, Text, codes, strip, starts_with, join, rpartition,
}
use arvern_ips.Prelude.Dict.{Dict}
use arvern_ips.Prelude.Decimal.{is_digit, is_number}

-- `\w` on ASCII, or one of `./:$`.
unfoldable pub is_name_char : ℕ → Bool
is_name_char c =
    is_digit c
    || (leb b'A' c && leb c b'Z')
    || (leb b'a' c && leb c b'z')
    || contains (codes "_./:$") c

unfoldable pub is_name : Text → Bool
is_name s = not (is_nil s) && all is_name_char s

-- `\d+:\d+\]`
unfoldable pub is_range : Text → Bool
is_range s = elim (rpartition b':' s) [
  | none ↦ false
  | some (hi, rest) ↦
      is_number hi
      && (is_number (take (length rest - 1) rest) && eqb (drop (length rest - 1) rest) (codes "]"))
]

-- The name that matches, without its range.
unfoldable pub matched_name : Text → Option Text
matched_name s = if is_name s then some s else elim (rpartition b'[' s) [
  | none ↦ none
  | some (name, range) ↦ if is_name name && is_range range then some name else none
]

-- The signal that one line of a .gtkw file names.
unfoldable pub gtkw_signal : Text → Option Text
gtkw_signal raw =
    let s = strip raw in
    if is_nil s || (any (λ c. starts_with s (c ∷ [])) (codes "@[*#") || eqb s (codes "-"))
    then none
    else elim (matched_name s) [
      | none ↦ none
      | some name ↦ if contains name b'.' then some name else none
    ]

unfoldable pub read_gtkw : List Text → List Text → List Text
read_gtkw seen [] = []
read_gtkw seen (raw ∷ lines) =
    let skipped = read_gtkw seen lines in
    elim (gtkw_signal raw) [
      | none ↦ skipped
      | some name ↦
          let more = read_gtkw (name ∷ seen) lines in
          if contains seen name then skipped else name ∷ more
    ]

-- `s.rsplit('.', 1)[-1]`
unfoldable pub short_name : Text → Text
short_name s = elim (rpartition b'.' s) [ none ↦ s | some (scope, name) ↦ name ]

-- The last component where it is unique, else the whole name.
unfoldable pub labels : List Text → List Text
labels signals =
    let short = map short_name signals in
    map
      (λ (full : Text).
        if ltb 1 (length (keep_if (λ s. eqb s (short_name full)) short))
        then full
        else short_name full)
      signals

-- `col_w[i]` is raised to the length of the cell.
unfoldable pub widen : List ℕ → List Text → List ℕ
widen [] cells = []
widen (w ∷ ws) [] = w ∷ ws
widen (w ∷ ws) (c ∷ cells) = max w (length c) ∷ widen ws cells

unfoldable pub col_widths : List ℕ → List (List Text) → List ℕ
col_widths ws [] = ws
col_widths ws (row ∷ rows) = col_widths (widen ws row) rows

unfoldable pub padded : List ℕ → List Text → List Text
padded [] cells = []
padded (w ∷ ws) [] = []
padded (w ∷ ws) (c ∷ cells) = (c ++ replicate (w - length c) b' ') ∷ padded ws cells

-- `fmt_row`
unfoldable pub fmt_row : List ℕ → List Text → Text
fmt_row ws cells = join (codes "  ") (padded ws cells)

unfoldable pub table_lines : List Text → List (List Text) → List Text
table_lines cols rows =
    let ws = col_widths (map (λ (c : Text). length c) cols) rows in
    fmt_row ws cols
    ∷ join (codes "  ") (map (λ (w : ℕ). replicate w b'-') ws)
    ∷ map (fmt_row ws) rows

-- The cells of the signals of a row: a bit as it is, a vector in hexadecimal.
unfoldable pub value_cells : Dict Text Text → List (Text × ℕ) → List Text
value_cells snap [] = []
value_cells snap ((s, w) ∷ signals) =
    let v = value snap s in (if w == 1 then v else bin_to_hex v w) ∷ value_cells snap signals
