-- ===== src/Params/Select.antt =====
-- gen_rtl_params.py: `normalise` and `resolve`. A `sys.exit` is an error value.
pub mod Lookup
use arvern_ips.Prelude.{
  ℕ, zero, suc, ◌+◌, ◌-◌, ◌*◌, ◌/◌, ◌%◌, ◌≤◌, ◌<◌, max, min, ◌≡◌, refl, sym, ap, ◌∙◌, ◌≢◌, ◌↔◌, ◌⊎◌,
  inl, inr, Bool, true, false, not, ◌&&◌, ◌||◌, Option, none, some, List, [], ◌∷◌, ◌++◌, map,
  append-nil, append_assoc, arith, ltb, leb, ◌==◌, if◌then◌else◌, ltb→lt, lt→ltb, leb→le, ==_iff,
  Bool-cases, Option-cases, Bool-ext, and-eq-true, or-eq-true, length, get_elem?, get_or, take,
  drop, replicate, keep_if, any, all, is_nil, length-append, List-cases, drop-append,
  keep_if-append, length-keep_if-le, any-append, Eq, eqb, nat_eq, list_beq, list_beq_iff, list_eq,
  pair_beq, pair_beq_iff, pair_eq, eqb_refl, eqb_sym, contains, contains-append, IsDistinct,
  contains-keep_if, unseen, unseen-cons-le, unseen-cons-lt, Text, codes, is_space, lstrip, rstrip,
  strip, starts_with, starts_with-append, ends_with, has_part, before, split_on, join, rpartition,
  basename,
}
use arvern_ips.Prelude.Dict.{
  Dict, keys, lookup, insert, has_key, set_default, lookup-insert, has_key-insert, has_key-lookup,
  contains-keys, insert-IsDistinct,
}
use arvern_ips.Prelude.Decimal.{
  is_digit, is_number, int, show, int-show, show_injective, is_number-show,
}
use arvern_ips.Prelude.Sorting.{
  text_le, text_le_total, text_le_trans, insert_sorted, sort, IsSorted, length-insert_sorted,
  length-sort, all-sort, sort-IsSorted, contains-insert_sorted, contains-sort,
}

-- A parameter's value in a table: a number, or a text such as `12'h080`.
pub data Value : Type 0 where
  number : ℕ → Value
  word : Text → Value

abbrev pub ParamDict : Type 0
ParamDict = Dict Text Value

-- One configuration: its label, its top module and the parameters it overrides.
pub record Config : Type 0 where
  pub label : Text
  pub top : Text
  pub params : ParamDict

-- An entry of `CONFIGS`, in either shape; a tuple of another length is malformed.
pub data Entry : Type 0 where
  pair : Text → ParamDict → Entry
  triple : Text → Text → ParamDict → Entry
  malformed : Entry

pub data Error : Type 0 where
  no_top_module : Error
  malformed_entry : Error
  no_configs : Error
  out_of_range : ℕ → ℕ → Error
  unknown_config : Text → List Text → Error

pub data Result {ℓ} (A : Type ℓ) : Type ℓ where
  ok : A → Result A
  err : Error → Result A

infixl 5 ◌>>=◌
abbrev pub ◌>>=◌ {ℓ κ} : {A : Type ℓ} {B : Type κ} → Result A → (A → Result B) → Result B
ok a >>= f = f a
err e >>= f = err e

unfoldable pub normalise : Option Text → Entry → Result Config
normalise top_module (triple label top params) =
    ok (record { label = label; top = top; params = params })
normalise none (pair label params) = err no_top_module
normalise (some top) (pair label params) = ok (record { label = label; top = top; params = params })
normalise top_module malformed = err malformed_entry

-- `ENTRIES = [normalise(e) for e in CONFIGS]`
unfoldable pub normalise_all : Option Text → List Entry → Result (List Config)
normalise_all top_module [] = ok []
normalise_all top_module (e ∷ es) = do
  c ← normalise top_module e
  cs ← normalise_all top_module es
  ok (c ∷ cs)

unfoldable pub find_label : Text → List Config → Option Config
find_label sel [] = none
find_label sel (e ∷ es) = if eqb e.label sel then some e else find_label sel es

abbrev pub labels : List Config → List Text
labels = map (λ (c : Config). c.label)

-- `ENTRIES[i]`
abbrev pub entry_at : List Config → ℕ → Error → Result Config
entry_at entries i e = elim (get_elem? entries i) [ some c ↦ ok c | none ↦ err e ]

-- A 1-based index, a label, or the first entry.
unfoldable pub resolve : List Config → Option Text → Result Config
resolve entries none = entry_at entries 0 no_configs
resolve entries (some sel) =
    let i = int sel in
    let n = length entries in
    if is_number sel
    then (if leb 1 i && leb i n
        then entry_at entries (i - 1) (out_of_range i n)
        else err (out_of_range i n))
    else elim (find_label sel entries) [
      | some c ↦ ok c
      | none ↦ err (unknown_config sel (labels entries))
    ]
