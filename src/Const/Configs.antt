-- ===== src/Const/Configs.antt =====
-- ahb_aclint and ahb_plic, sim/rtl_sim/bin/cov_const_cfg.py: `_read` and `coverage_configs`. The file
-- system and `os.path.normpath` are parameters; the recursion takes fuel.
pub mod Distinct
use arvern_ips.Prelude.{
  ℕ, zero, suc, ◌+◌, ◌-◌, ◌*◌, ◌/◌, ◌%◌, ◌≤◌, ◌<◌, max, min, ◌≡◌, refl, sym, ap, ◌∙◌, ◌≢◌, ◌↔◌, ◌⊎◌,
  inl, inr, Bool, true, false, not, ◌&&◌, ◌||◌, Option, none, some, List, [], ◌∷◌, ◌++◌, map,
  append-nil, append_assoc, arith, ltb, leb, ◌==◌, if◌then◌else◌, ltb→lt, lt→ltb, leb→le, ==_iff,
  Bool-cases, Option-cases, Bool-ext, and-eq-true, or-eq-true, length, get_elem?, get_or, take,
  drop, replicate, keep_if, any, all, is_nil, length-append, List-cases, drop-append,
  keep_if-append, length-keep_if-le, any-append, Eq, eqb, nat_eq, list_beq, list_beq_iff, list_eq,
  pair_beq, pair_beq_iff, pair_eq, eqb_refl, eqb_sym, contains, contains-append, IsDistinct,
  contains-keep_if, unseen, unseen-cons-le, unseen-cons-lt, Text, codes, is_space, lstrip, rstrip,
  strip, starts_with, starts_with-append, ends_with, has_part, before, split_on, join, rpartition,
  basename,
}
use arvern_ips.Prelude.Dict.{
  Dict, keys, lookup, insert, has_key, set_default, lookup-insert, has_key-insert, has_key-lookup,
  contains-keys, insert-IsDistinct,
}
use arvern_ips.Prelude.Decimal.{
  is_digit, is_number, int, show, int-show, show_injective, is_number-show,
}
use arvern_ips.Prelude.Sorting.{
  text_le, text_le_total, text_le_trans, insert_sorted, sort, IsSorted, length-insert_sorted,
  length-sort, all-sort, sort-IsSorted, contains-insert_sorted, contains-sort,
}
use arvern_ips.Params.Select.{Value, number, word, ParamDict}
use arvern_ips.Params.Tables.{setting}
use arvern_ips.Params.Write.{sorted_items}
use arvern_ips.Sweep.Simulate.{SimConfig}
use arvern_ips.Filelist.Flatten.{join_path, parent, Outcome, done, raised, exhausted}

unfoldable pub value_beq : Value → Value → Bool
value_beq (number a) (number b) = a == b
value_beq (word s) (word t) = eqb s t
value_beq _ _ = false

pub value_beq_iff : (a b : Value) → (value_beq a b ≡ true) ↔ (a ≡ b)
unfolding value_beq
value_beq_iff (number a) (number b) = ground arith
value_beq_iff (word s) (word t) = ground (arith, list_beq_iff s t)
value_beq_iff (number a) (word t) = ground arith
value_beq_iff (word s) (number b) = ground arith

instance abbrev pub value_eq : Eq Value
value_eq = record { beq = value_beq; beq_iff = value_beq_iff }

-- The parameters, with the defines of a simulation that set one of them.
unfoldable pub applied : Text → ParamDict → ParamDict → ParamDict
applied prefix p [] = p
applied prefix p ((k, v) ∷ defines) =
    let name = drop (length prefix) k in
    applied prefix (if starts_with k prefix && has_key name p then insert name v p else p) defines

-- `key`: the parameters of a simulation, sorted.
unfoldable pub key_of : ParamDict → Text → SimConfig → ParamDict
key_of bench prefix c = sorted_items (applied prefix bench c.defines)

unfoldable pub configs_from :
    ParamDict → Text → List ParamDict → List SimConfig → List (Text × ParamDict)
configs_from bench prefix seen [] = []
configs_from bench prefix seen (c ∷ cs) =
    let key = key_of bench prefix c in
    let again = contains seen key in
    let rest = configs_from bench prefix (if again then seen else key ∷ seen) cs in
    if again then rest else (c.label, applied prefix bench c.defines) ∷ rest

-- `coverage_configs`
unfoldable pub coverage_configs : ParamDict → Text → List SimConfig → List (Text × ParamDict)
coverage_configs bench prefix cs = configs_from bench prefix [] cs

-- `_BENCH` of ahb_aclint.
abbrev pub aclint_bench : ParamDict
aclint_bench =
    setting "NUM_HARTS" 1
    ∷ setting "SU_MODE_EN" 1
    ∷ setting "PRIV_CHECK_EN" 1
    ∷ setting "LF_SYNC_EN" 0
    ∷ setting "ASYNC_RST_EN" 1
    ∷ []

-- `_BENCH` of ahb_plic.
abbrev pub plic_bench : ParamDict
plic_bench =
    setting "NUM_SOURCES" 31
    ∷ setting "NUM_HARTS" 1
    ∷ setting "SU_MODE_EN" 1
    ∷ setting "PRIO_BITS" 3
    ∷ setting "PRIV_CHECK_EN" 1
    ∷ setting "ASYNC_RST_EN" 1
    ∷ []

module _ (read : Text → Option (List Text)) (normpath : Text → Text) where
  module _ (read_in : Text → Outcome (List Text)) (base : Text) where
    unfoldable pub read_entry : Text → Outcome (List Text)
    read_entry l =
        if is_nil l || (starts_with l (codes "//") || starts_with l (codes "+"))
        then done []
        else if starts_with l (codes "-f")
        then read_in (normpath (join_path base (strip (drop 2 l))))
        else if starts_with l (codes "-")
        then done []
        else done (normpath (join_path base l) ∷ [])

    unfoldable pub read_entries : List Text → List Text → Outcome (List Text)
    read_entries out [] = done out
    read_entries out (raw ∷ lines) = elim (read_entry (strip raw)) [
      | done more ↦ read_entries (out ++ more) lines
      | raised ↦ raised
      | exhausted ↦ exhausted
    ]

  -- `_read`
  unfoldable pub read_filelist : ℕ → Text → Outcome (List Text)
  read_filelist zero flist = exhausted
  read_filelist (suc fuel) flist = elim (read flist) [
    | none ↦ raised
    | some lines ↦ read_entries (read_filelist fuel) (parent flist) [] lines
  ]
