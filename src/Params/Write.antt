-- ===== src/Params/Write.antt =====
-- gen_rtl_params.py: `write_params`, as the lines of the Tcl file.
pub mod Reset
pub mod Settings
pub mod Elaborate
use arvern_ips.Prelude.{
  ℕ, zero, suc, ◌+◌, ◌-◌, ◌*◌, ◌/◌, ◌%◌, ◌≤◌, ◌<◌, max, min, ◌≡◌, refl, sym, ap, ◌∙◌, ◌≢◌, ◌↔◌, ◌⊎◌,
  inl, inr, Bool, true, false, not, ◌&&◌, ◌||◌, Option, none, some, List, [], ◌∷◌, ◌++◌, map,
  append-nil, append_assoc, arith, ltb, leb, ◌==◌, if◌then◌else◌, ltb→lt, lt→ltb, leb→le, ==_iff,
  Bool-cases, Option-cases, Bool-ext, and-eq-true, or-eq-true, length, get_elem?, get_or, take,
  drop, replicate, keep_if, any, all, is_nil, length-append, List-cases, drop-append,
  keep_if-append, length-keep_if-le, any-append, Eq, eqb, nat_eq, list_beq, list_beq_iff, list_eq,
  pair_beq, pair_beq_iff, pair_eq, eqb_refl, eqb_sym, contains, contains-append, IsDistinct,
  contains-keep_if, unseen, unseen-cons-le, unseen-cons-lt, Text, codes, is_space, lstrip, rstrip,
  strip, starts_with, starts_with-append, ends_with, has_part, before, split_on, join, rpartition,
  basename,
}
use arvern_ips.Prelude.Dict.{
  Dict, keys, lookup, insert, has_key, set_default, lookup-insert, has_key-insert, has_key-lookup,
  contains-keys, insert-IsDistinct,
}
use arvern_ips.Prelude.Decimal.{
  is_digit, is_number, int, show, int-show, show_injective, is_number-show,
}
use arvern_ips.Prelude.Sorting.{
  text_le, text_le_total, text_le_trans, insert_sorted, sort, IsSorted, length-insert_sorted,
  length-sort, all-sort, sort-IsSorted, contains-insert_sorted, contains-sort,
}
use arvern_ips.Params.Select.{Value, number, word, ParamDict, Config}

unfoldable pub show_value : Value → Text
show_value (number n) = show n
show_value (word t) = t

abbrev pub arst_en : Text
arst_en = codes "ARST_EN"

abbrev pub async_rst_en : Text
async_rst_en = codes "ASYNC_RST_EN"

-- The parameters in force: `--with-sync-reset` clears the reset parameter, in the spelling in use.
unfoldable pub effective : ParamDict → Bool → ParamDict
effective params force_sync_reset =
    let key = if has_key arst_en params then arst_en else async_rst_en in
    if force_sync_reset then insert key (number 0) params else params

-- `sorted(eff.items())`: the keys of a dict differ, so the values are never compared.
unfoldable pub sorted_items : ParamDict → List (Text × Value)
sorted_items = sort (λ (p : Text × Value) (q : Text × Value). text_le p.0 q.0)

unfoldable pub param_line : Text × Value → Text
param_line (k, v) = codes "set RTL_PARAM_" ++ (k ++ (b' ' ∷ show_value v))

unfoldable pub assignment : Text × Value → Text
assignment (k, v) = k ++ (b'=' ∷ show_value v)

-- `if "ARST_EN" in eff and "ASYNC_RST_EN" not in eff`
unfoldable pub alias_lines : ParamDict → List Text
alias_lines eff = elim (lookup arst_en eff) [
  | none ↦ []
  | some v ↦
      if has_key async_rst_en eff
      then []
      else (codes "set RTL_PARAM_ASYNC_RST_EN " ++ show_value v) ∷ []
]

unfoldable pub elaborate_lines : ParamDict → List Text
elaborate_lines eff =
    if is_nil eff
    then codes "# RTL defaults -- no -parameters override" ∷ codes "set ELABORATE_PARAMS \"\"" ∷ []
    else (codes "set ELABORATE_PARAMS \"-parameters \\\""
        ++ (join (codes ",") (map assignment (sorted_items eff)) ++ codes "\\\"\""))
      ∷ []

unfoldable pub write_params : Config → Bool → List Text
write_params c force_sync_reset =
    let eff = effective c.params force_sync_reset in
    let rule = b'#' ∷ replicate 76 b'-' in
    rule
    ∷ codes "# AUTO-GENERATED -- do not edit. Source: sim/rtl_sim/bin/rtl_configs.py"
    ∷ (codes "# Config: " ++ (c.label ++ (codes "  (top: " ++ (c.top ++ codes ")"))))
    ∷ rule
    ∷ []
    ∷ (codes "set RTL_CONFIG_LABEL \"" ++ (c.label ++ codes "\""))
    ∷ (codes "set RTL_TOP \"" ++ (c.top ++ codes "\""))
    ∷ (map param_line (sorted_items eff) ++ (alias_lines eff ++ elaborate_lines eff))
