-- ===== src/Const/Merge.antt =====
-- ahb_aclint/sim/rtl_sim/bin/cov_const.py: `yosys_constants`, from the bit sets of each elaboration. What
-- stands under two keys in turn, a module and a signal, stands under their pair.
pub mod Sound
use arvern_ips.Prelude.{
  ℕ, zero, suc, ◌+◌, ◌-◌, ◌*◌, ◌/◌, ◌%◌, ◌≤◌, ◌<◌, max, min, ◌≡◌, refl, sym, ap, ◌∙◌, ◌≢◌, ◌↔◌, ◌⊎◌,
  inl, inr, Bool, true, false, not, ◌&&◌, ◌||◌, Option, none, some, List, [], ◌∷◌, ◌++◌, map,
  append-nil, append_assoc, arith, ltb, leb, ◌==◌, if◌then◌else◌, ltb→lt, lt→ltb, leb→le, ==_iff,
  Bool-cases, Option-cases, Bool-ext, and-eq-true, or-eq-true, length, get_elem?, get_or, take,
  drop, replicate, keep_if, any, all, is_nil, length-append, List-cases, drop-append,
  keep_if-append, length-keep_if-le, any-append, Eq, eqb, nat_eq, list_beq, list_beq_iff, list_eq,
  pair_beq, pair_beq_iff, pair_eq, eqb_refl, eqb_sym, contains, contains-append, IsDistinct,
  contains-keep_if, unseen, unseen-cons-le, unseen-cons-lt, Text, codes, is_space, lstrip, rstrip,
  strip, starts_with, starts_with-append, ends_with, has_part, before, split_on, join, rpartition,
  basename,
}
use arvern_ips.Prelude.Dict.{
  Dict, keys, lookup, insert, has_key, set_default, lookup-insert, has_key-insert, has_key-lookup,
  contains-keys, insert-IsDistinct,
}
use arvern_ips.Prelude.Decimal.{
  is_digit, is_number, int, show, int-show, show_injective, is_number-show,
}
use arvern_ips.Prelude.Sorting.{
  text_le, text_le_total, text_le_trans, insert_sorted, sort, IsSorted, length-insert_sorted,
  length-sort, all-sort, sort-IsSorted, contains-insert_sorted, contains-sort,
}
use arvern_ips.Const.Bits.{BitSet, intersect}

-- What one elaboration gives: each module with the sets of its signals, one for an instance.
abbrev pub Elaboration : Type 0
Elaboration = List (Text × List (Text × List BitSet))

abbrev pub Name : Type 0
Name = Text × Text

-- `genblk\d+`
unfoldable pub is_genblk : Text → Bool
is_genblk s = starts_with s (codes "genblk") && is_number (drop 6 s)

unfoldable pub drop_genblks : List Text → List Text
drop_genblks [] = []
drop_genblks (s ∷ []) = s ∷ []
drop_genblks (s ∷ t ∷ rest) =
    let kept = drop_genblks (t ∷ rest) in if is_genblk s then kept else s ∷ kept

-- `re.sub(r'(^|\.)(?:genblk\d+\.)+', r'\1', sig)`: the scopes of that name are left out.
unfoldable pub unscoped : Text → Text
unscoped sig = join (codes ".") (drop_genblks (split_on b'.' sig))

unfoldable pub named_sets : Text → List (Text × List BitSet) → List (Name × List BitSet)
named_sets mod_name [] = []
named_sets mod_name ((sig, sets) ∷ sigs) =
    ((mod_name, unscoped sig), sets) ∷ named_sets mod_name sigs

-- The signals in the order in which the loops meet them.
unfoldable pub signals : Elaboration → List (Name × List BitSet)
signals [] = []
signals ((mod_name, sigs) ∷ mods) = named_sets mod_name sigs ++ signals mods

-- `nvar[mod]`: the elaborations that build the module.
unfoldable pub n_variants : Text → Elaboration → ℕ
n_variants mod_name [] = 0
n_variants mod_name ((m, sigs) ∷ mods) =
    (if eqb m mod_name then 1 else 0) + n_variants mod_name mods

-- `per[mod][sig].append`
unfoldable pub append_set : Name → BitSet → Dict Name (List BitSet) → Dict Name (List BitSet)
append_set k b per = elim (lookup k per) [
  | none ↦ insert k (b ∷ []) per
  | some bs ↦ insert k (bs ++ (b ∷ [])) per
]

-- None where a signal has no set: an exception.
unfoldable pub collect :
    Dict Name (List BitSet) → List (Name × List BitSet) → Option (Dict Name (List BitSet))
collect per [] = some per
collect per ((k, sets) ∷ sigs) = elim (intersect sets) [
  | none ↦ none
  | some b ↦ collect (append_set k b per) sigs
]

-- Present in every configuration, or in a generate scope or an array.
unfoldable pub is_judged : Elaboration → Name → List BitSet → Bool
is_judged mods (m, sig) sets =
    length sets == n_variants m mods || (has_part sig (codes ".") || has_part sig (codes "["))

-- `c`, if there is one.
unfoldable pub judged : Elaboration → Name → List BitSet → Option BitSet
judged mods k sets =
    if is_judged mods k sets
    then elim (intersect sets) [ none ↦ none | some c ↦ if is_nil c.bits then none else some c ]
    else none

-- `out`; the keys of `per` differ, so each entry is new.
unfoldable pub out_of : Elaboration → Dict Name (List BitSet) → Dict Name BitSet
out_of mods [] = []
out_of mods ((k, sets) ∷ per) = elim (judged mods k sets) [
  | none ↦ out_of mods per
  | some c ↦ (k, c) ∷ out_of mods per
]

unfoldable pub constants_of : Elaboration → Option (Dict Name BitSet)
constants_of mods = elim (collect [] (signals mods)) [
  | none ↦ none
  | some per ↦ some (out_of mods per)
]

unfoldable pub all_modules : List Elaboration → Elaboration
all_modules [] = []
all_modules (mods ∷ rest) = mods ++ all_modules rest

-- `yosys_constants`, of the elaborations of all configurations.
unfoldable pub yosys_constants : List Elaboration → Option (Dict Name BitSet)
yosys_constants elaborations = constants_of (all_modules elaborations)
