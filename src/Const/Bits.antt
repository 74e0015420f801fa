-- ===== src/Const/Bits.antt =====
-- ahb_aclint/sim/rtl_sim/bin/cov_const.py: `_Bits` and `_intersect`.
pub mod Common
use arvern_ips.Prelude.{
  ℕ, zero, suc, ◌+◌, ◌-◌, ◌*◌, ◌/◌, ◌%◌, ◌≤◌, ◌<◌, max, min, ◌≡◌, refl, sym, ap, ◌∙◌, ◌≢◌, ◌↔◌, ◌⊎◌,
  inl, inr, Bool, true, false, not, ◌&&◌, ◌||◌, Option, none, some, List, [], ◌∷◌, ◌++◌, map,
  append-nil, append_assoc, arith, ltb, leb, ◌==◌, if◌then◌else◌, ltb→lt, lt→ltb, leb→le, ==_iff,
  Bool-cases, Option-cases, Bool-ext, and-eq-true, or-eq-true, length, get_elem?, get_or, take,
  drop, replicate, keep_if, any, all, is_nil, length-append, List-cases, drop-append,
  keep_if-append, length-keep_if-le, any-append, Eq, eqb, nat_eq, list_beq, list_beq_iff, list_eq,
  pair_beq, pair_beq_iff, pair_eq, eqb_refl, eqb_sym, contains, contains-append, IsDistinct,
  contains-keep_if, unseen, unseen-cons-le, unseen-cons-lt, Text, codes, is_space, lstrip, rstrip,
  strip, starts_with, starts_with-append, ends_with, has_part, before, split_on, join, rpartition,
  basename,
}
use arvern_ips.Prelude.Dict.{
  Dict, keys, lookup, insert, has_key, set_default, lookup-insert, has_key-insert, has_key-lookup,
  contains-keys, insert-IsDistinct,
}
use arvern_ips.Prelude.Decimal.{
  is_digit, is_number, int, show, int-show, show_injective, is_number-show,
}
use arvern_ips.Prelude.Sorting.{
  text_le, text_le_total, text_le_trans, insert_sorted, sort, IsSorted, length-insert_sorted,
  length-sort, all-sort, sort-IsSorted, contains-insert_sorted, contains-sort,
}

-- The constant bits of a wire, and its bits from `lo` to below `hi`.
pub record BitSet : Type 0 where
  pub bits : List ℕ
  pub lo : ℕ
  pub hi : ℕ

unfoldable pub range : ℕ → ℕ → List ℕ
range lo zero = []
range lo (suc n) = lo ∷ range (suc lo) n

unfoldable pub in_span : BitSet → ℕ → Bool
in_span b i = leb b.lo i && ltb i b.hi

-- `set().union(*(range(*b.span) for b in sets))`
unfoldable pub every : List BitSet → List ℕ
every [] = []
every (b ∷ sets) = range b.lo (b.hi - b.lo) ++ every sets

-- `b | (every - set(range(*b.span)))`
unfoldable pub widened : List ℕ → BitSet → List ℕ
widened all_bits b = b.bits ++ keep_if (λ i. not (in_span b i)) all_bits

unfoldable pub lowest : ℕ → List BitSet → ℕ
lowest m [] = m
lowest m (b ∷ sets) = lowest (min m b.lo) sets

unfoldable pub highest : ℕ → List BitSet → ℕ
highest m [] = m
highest m (b ∷ sets) = highest (max m b.hi) sets

-- None where there is no set: an exception.
unfoldable pub intersect : List BitSet → Option BitSet
intersect [] = none
intersect (b ∷ sets) =
    let all_bits = every (b ∷ sets) in
    some (record {
      bits = keep_if (λ i. all (λ t. contains (widened all_bits t) i) sets) (widened all_bits b);
      lo = lowest b.lo sets;
      hi = highest b.hi sets;
    })
