-- ===== src/Vcd/Sample.antt =====
-- ahb_interconnect/sim/rtl_sim/bin/vcd_window.py: `VCD.sample`. The bounds of the window are whole
-- picoseconds.
pub mod Window
use arvern_ips.Prelude.{
  ℕ, zero, suc, ◌+◌, ◌-◌, ◌*◌, ◌/◌, ◌%◌, ◌≤◌, ◌<◌, max, min, ◌≡◌, refl, sym, ap, ◌∙◌, ◌≢◌, ◌↔◌, ◌⊎◌,
  inl, inr, Bool, true, false, not, ◌&&◌, ◌||◌, Option, none, some, List, [], ◌∷◌, ◌++◌, map,
  append-nil, append_assoc, arith, ltb, leb, ◌==◌, if◌then◌else◌, ltb→lt, lt→ltb, leb→le, ==_iff,
  Bool-cases, Option-cases, Bool-ext, and-eq-true, or-eq-true, length, get_elem?, get_or, take,
  drop, replicate, keep_if, any, all, is_nil, length-append, List-cases, drop-append,
  keep_if-append, length-keep_if-le, any-append, Eq, eqb, nat_eq, list_beq, list_beq_iff, list_eq,
  pair_beq, pair_beq_iff, pair_eq, eqb_refl, eqb_sym, contains, contains-append, IsDistinct,
  contains-keep_if, unseen, unseen-cons-le, unseen-cons-lt, Text, codes, is_space, lstrip, rstrip,
  strip, starts_with, starts_with-append, ends_with, has_part, before, split_on, join, rpartition,
  basename,
}
use arvern_ips.Prelude.Dict.{
  Dict, keys, lookup, insert, has_key, set_default, lookup-insert, has_key-insert, has_key-lookup,
  contains-keys, insert-IsDistinct,
}
use arvern_ips.Prelude.Decimal.{
  is_digit, is_number, int, show, int-show, show_injective, is_number-show,
}
use arvern_ips.Prelude.Sorting.{
  text_le, text_le_total, text_le_trans, insert_sorted, sort, IsSorted, length-insert_sorted,
  length-sort, all-sort, sort-IsSorted, contains-insert_sorted, contains-sort,
}

-- A row: the time in picoseconds and the value of each signal.
abbrev pub Row : Type 0
Row = ℕ × Dict Text Text

-- `cur`, `prev_clk` and `cur_t_units`
pub record State : Type 0 where
  pub cur : Dict Text Text
  pub prev_clk : Text
  pub cur_t_units : ℕ

pub data Edge : Type 0 where
  posedge negedge : Edge

-- `want`
unfoldable pub want : Edge → Text × Text
want posedge = (codes "0", codes "1")
want negedge = (codes "1", codes "0")

-- `cur.get(i, 'x')`
unfoldable pub value : Dict Text Text → Text → Text
value cur i = elim (lookup i cur) [ none ↦ codes "x" | some v ↦ v ]

unfoldable pub snapshot : Dict Text Text → Dict Text Text → Dict Text Text
snapshot cur [] = []
snapshot cur ((s, i) ∷ sig_ids) = (s, value cur i) ∷ snapshot cur sig_ids

-- `line[1:].split(' ', 1)`, where there is a space.
unfoldable pub split_space : Text → Option (Text × Text)
split_space [] = none
split_space (c ∷ s) =
    let later = split_space s in
    if c == b' ' then some ([], s) else elim later [ none ↦ none | some (a, b) ↦ some (c ∷ a, b) ]

unfoldable pub lower : ℕ → ℕ
lower c = if leb b'A' c && leb c b'Z' then c + 32 else c

-- A line that sets a value.
unfoldable pub set_value : Dict Text Text → ℕ → Text → Dict Text Text
set_value cur c rest =
    if contains (codes "01xzXZ") c
    then insert rest (lower c ∷ []) cur
    else if contains (codes "bBrR") c
    then elim (split_space rest) [ none ↦ cur | some (bits, i) ↦ insert i bits cur ]
    else cur

module _ (sig_ids : Dict Text Text) (clk_id : Text) (ts_ps t_from_ps t_to_ps : ℕ)
    (edge : Edge) where
  -- The clock has the edge that is asked for, at a time in the window.
  unfoldable pub at_edge : State → Bool
  at_edge st =
      eqb st.prev_clk (want edge).0
      && (eqb (value st.cur clk_id) (want edge).1
          && (leb t_from_ps (st.cur_t_units * ts_ps) && leb (st.cur_t_units * ts_ps) t_to_ps))

  unfoldable pub flush : State → State × List Row
  flush st =
      let next = record st { prev_clk = value st.cur clk_id } in
      if at_edge st
      then (next, (st.cur_t_units * ts_ps, snapshot st.cur sig_ids) ∷ [])
      else (next, [])

  -- `cur_t_units > t_to_units`
  unfoldable pub is_after : ℕ → Bool
  is_after t_units = if ts_ps == 0 then ltb t_to_ps t_units else ltb t_to_ps (t_units * ts_ps)

  -- The lines from a state on: the rows, or none where a time is not a number.
  unfoldable pub sample_lines : State → List Text → Option (List Row)
  sample_lines st [] = some (flush st).1
  sample_lines st ([] ∷ lines) = sample_lines st lines
  sample_lines st ((c ∷ rest) ∷ lines) =
      let (flushed, rows) = flush st in
      let later = record flushed { cur_t_units = int rest } in
      let same = sample_lines (record st { cur = set_value st.cur c rest }) lines in
      let more = sample_lines later lines in
      if not (c == b'#')
      then same
      else if not (is_number rest)
      then none
      else if is_after (int rest)
      then some (rows ++ (flush later).1)
      else elim more [ none ↦ none | some rows' ↦ some (rows ++ rows') ]

  unfoldable pub sample : List Text → Option (List Row)
  sample = sample_lines (record { cur = []; prev_clk = codes "x"; cur_t_units = 0 })
