-- ===== src/Const/Section.antt =====
-- ahb_aclint/sim/rtl_sim/bin/cov_const.py: the generated section of the waiver file, in `main`. The
-- entries come as the lines of JSON that stand for them.
pub mod Between
pub mod Rewrite
use arvern_ips.Prelude.{
  ℕ, zero, suc, ◌+◌, ◌-◌, ◌*◌, ◌/◌, ◌%◌, ◌≤◌, ◌<◌, max, min, ◌≡◌, refl, sym, ap, ◌∙◌, ◌≢◌, ◌↔◌, ◌⊎◌,
  inl, inr, Bool, true, false, not, ◌&&◌, ◌||◌, Option, none, some, List, [], ◌∷◌, ◌++◌, map,
  append-nil, append_assoc, arith, ltb, leb, ◌==◌, if◌then◌else◌, ltb→lt, lt→ltb, leb→le, ==_iff,
  Bool-cases, Option-cases, some_injective, Bool-ext, and-eq-true, or-eq-true, length, get_elem?,
  get_or, take, drop, replicate, keep_if, any, all, is_nil, length-append, List-cases, drop-append,
  keep_if-append, length-keep_if-le, any-append, Eq, eqb, nat_eq, list_beq, list_beq_iff, list_eq,
  pair_beq, pair_beq_iff, pair_eq, eqb_refl, eqb_sym, contains, contains-append, IsDistinct,
  contains-keep_if, unseen, unseen-cons-le, unseen-cons-lt, Text, codes, is_space, lstrip, rstrip,
  strip, starts_with, starts_with-append, ends_with, has_part, before, split_on, join, rpartition,
  basename,
}
use arvern_ips.Waivers.Anchor.{is_word}
use arvern_ips.Prelude.Dict.{
  Dict, keys, lookup, insert, has_key, set_default, lookup-insert, has_key-insert, has_key-lookup,
  contains-keys, insert-IsDistinct,
}
use arvern_ips.Prelude.Decimal.{
  is_digit, is_number, int, show, int-show, show_injective, is_number-show,
}
use arvern_ips.Prelude.Sorting.{
  text_le, text_le_total, text_le_trans, insert_sorted, sort, IsSorted, length-insert_sorted,
  length-sort, all-sort, sort-IsSorted, contains-insert_sorted, contains-sort,
}

abbrev pub begin_mark : Text
begin_mark = codes "<!-- BEGIN generated by cov_const.py: do not edit by hand -->"

abbrev pub end_mark : Text
end_mark = codes "<!-- END generated by cov_const.py -->"

abbrev pub newline : ℕ
newline = 10

-- What stands between the markers.
unfoldable pub body : List Text → Text
body entries = join (newline ∷ []) (
    []
    ∷ codes "## Constant by construction (generated)"
    ∷ []
    ∷ codes "Bits tied to a constant in every coverage configuration (Yosys elaboration),"
    ∷ codes "or, without Yosys, sized literals or parameters in their only continuous driver."
    ∷ (codes "Regenerate with `../bin/cov_const.py cov/dats --write` after an RTL change; "
        ++ codes "`--lint` flags any that went stale.")
    ∷ []
    ∷ codes "```json"
    ∷ codes "["
    ∷ join (codes "," ++ (newline ∷ [])) entries
    ∷ codes "]"
    ∷ codes "```"
    ∷ []
    ∷ [])

-- `'\n'.join(block)`
unfoldable pub block_of : List Text → Text
block_of entries = begin_mark ++ (newline ∷ (body entries ++ (newline ∷ end_mark)))

-- `txt.rstrip('\n')`
unfoldable pub rstrip_newlines : Text → Text
rstrip_newlines [] = []
rstrip_newlines (c ∷ s) =
    let rest = rstrip_newlines s in if is_nil rest && c == newline then [] else c ∷ rest

-- The number of characters in front of the first occurrence.
unfoldable pub find : Text → Text → Option ℕ
find mark [] = none
find mark (c ∷ s) =
    let later : Option ℕ = elim (find mark s) [ none ↦ none | some n ↦ some (suc n) ] in
    if starts_with (c ∷ s) mark then some 0 else later

-- The length of a match of `first.*?last` here, behind its first character; neither mark is empty.
unfoldable pub match_rest : Text → Text → Text → Option ℕ
match_rest first last s =
    if starts_with s first
    then elim (find last (drop (length first) s)) [
      | none ↦ none
      | some n ↦ some ((length first + (n + length last)) - 1)
    ]
    else none

-- `re.sub` of that pattern by a text. The number counts the characters of a match that are left.
unfoldable pub replace_between : Text → Text → Text → ℕ → Text → Text
replace_between first last by skip [] = []
replace_between first last by (suc skip) (c ∷ s) = replace_between first last by skip s
replace_between first last by zero (c ∷ s) = elim (match_rest first last (c ∷ s)) [
  | none ↦ c ∷ replace_between first last by 0 s
  | some n ↦ by ++ replace_between first last by n s
]

-- An escape of a replacement text; none is an error of `re`. A digit or a `g`, which refer to
-- groups, count as errors: JSON never writes them behind a backslash.
unfoldable pub escape : ℕ → Option Text
escape c =
    if c == b'n'
    then some (10 ∷ [])
    else if c == b't'
    then some (9 ∷ [])
    else if c == b'r'
    then some (13 ∷ [])
    else if c == b'f'
    then some (12 ∷ [])
    else if c == b'b'
    then some (8 ∷ [])
    else if c == b'a'
    then some (7 ∷ [])
    else if c == b'v'
    then some (11 ∷ [])
    else if c == 92
    then some (92 ∷ [])
    else if is_word c && not (c == b'_')
    then none
    else some (92 ∷ c ∷ [])

-- What `re.sub` makes of its replacement text. The test tells whether a backslash stands in front.
unfoldable pub expand : Bool → Text → Option Text
expand false [] = some []
expand true [] = none
expand false (c ∷ s) =
    let escaped = expand true s in
    let plain : Option Text = elim (expand false s) [ none ↦ none | some t ↦ some (c ∷ t) ] in
    if c == 92 then escaped else plain
expand true (c ∷ s) = elim (escape c) [
  | none ↦ none
  | some e ↦ elim (expand false s) [ none ↦ none | some t ↦ some (e ++ t) ]
]

-- The part of the file that people write.
unfoldable pub manual_part : Text → Text
manual_part = replace_between begin_mark end_mark [] 0

-- The new text of the file; none is an exception.
unfoldable pub write_section : List Text → Text → Option Text
write_section entries txt =
    if has_part txt begin_mark
    then elim (expand false (block_of entries)) [
      | none ↦ none
      | some by ↦ some (replace_between begin_mark end_mark by 0 txt)
    ]
    else some (rstrip_newlines txt ++ (newline ∷ newline ∷ (block_of entries ++ (newline ∷ []))))
