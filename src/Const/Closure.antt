-- ===== src/Const/Closure.antt =====
-- ahb_aclint/sim/rtl_sim/bin/cov_const.py: the loop at the end of `_rtlil_consts`, which carries
-- constants along the connections of wires. The dict of sets `const` is the list of its members.
pub mod Least
use arvern_ips.Prelude.{
  ℕ, zero, suc, ◌+◌, ◌-◌, ◌*◌, ◌/◌, ◌%◌, ◌≤◌, ◌<◌, max, min, ◌≡◌, refl, sym, ap, ◌∙◌, ◌≢◌, ◌↔◌, ◌⊎◌,
  inl, inr, Bool, true, false, not, ◌&&◌, ◌||◌, Option, none, some, List, [], ◌∷◌, ◌++◌, map,
  append-nil, append_assoc, arith, ltb, leb, ◌==◌, if◌then◌else◌, ltb→lt, lt→ltb, leb→le, ==_iff,
  Bool-cases, Option-cases, Bool-ext, and-eq-true, or-eq-true, length, get_elem?, get_or, take,
  drop, replicate, keep_if, any, all, is_nil, length-append, List-cases, drop-append,
  keep_if-append, length-keep_if-le, any-append, Eq, eqb, nat_eq, list_beq, list_beq_iff, list_eq,
  pair_beq, pair_beq_iff, pair_eq, eqb_refl, eqb_sym, contains, contains-append, IsDistinct,
  contains-keep_if, unseen, unseen-cons-le, unseen-cons-lt, Text, codes, is_space, lstrip, rstrip,
  strip, starts_with, starts_with-append, ends_with, has_part, before, split_on, join, rpartition,
  basename,
}
use arvern_ips.Prelude.Dict.{
  Dict, keys, lookup, insert, has_key, set_default, lookup-insert, has_key-insert, has_key-lookup,
  contains-keys, insert-IsDistinct,
}
use arvern_ips.Prelude.Decimal.{
  is_digit, is_number, int, show, int-show, show_injective, is_number-show,
}
use arvern_ips.Prelude.Sorting.{
  text_le, text_le_total, text_le_trans, insert_sorted, sort, IsSorted, length-insert_sorted,
  length-sort, all-sort, sort-IsSorted, contains-insert_sorted, contains-sort,
}

-- A wire and the index of a bit.
abbrev pub Bit : Type 0
Bit = Text × ℕ

-- The inner loop, and whether it changed anything. A pair is a bit and the bit that drives it.
unfoldable pub round : List (Bit × Bit) → List Bit → List Bit × Bool
round [] const = (const, false)
round ((lb, rb) ∷ alias) const =
    let added = round alias (lb ∷ const) in
    let kept = round alias const in
    if contains const rb && not (contains const lb) then (added.0, true) else kept

-- `while changed`. None is a loop that ran out of fuel.
unfoldable pub close : ℕ → List (Bit × Bit) → List Bit → Option (List Bit)
close zero alias const = none
close (suc fuel) alias const =
    let (next, changed) = round alias const in
    let more = close fuel alias next in if changed then more else some next
