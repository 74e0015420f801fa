-- ===== src/Vcd/Sample/Window.antt =====
-- The rows of a table stand in the window.
use arvern_ips.Prelude.{
  ℕ, ◌*◌, ◌≤◌, ◌≡◌, refl, ap, inl, inr, Bool, true, false, not, Option, none, some, List, [], ◌∷◌,
  ◌++◌, arith, leb, ◌==◌, if◌then◌else◌, leb→le, Bool-cases, nat_eq, list_eq, pair_eq, Text, codes,
}
use arvern_ips.Prelude.Dict.{Dict, keys}
use arvern_ips.Prelude.Decimal.{is_number, int}
use mathlib.Core.Path.{subst}
use arvern_ips.Vcd.Sample.{
  Row, State, Edge, snapshot, set_value, at_edge, flush, is_after, sample_lines, sample,
}

module _ (sig_ids : Dict Text Text) (clk_id : Text) (ts_ps t_from_ps t_to_ps : ℕ)
    (edge : Edge) where
  -- The time of the row is in the window, and the row has a value for every signal, in their order.
  abbrev pub IsRow : Row → Type 0
  IsRow (t, snap) = (t_from_ps ≤ t) × (t ≤ t_to_ps) × (keys snap ≡ keys sig_ids)

  abbrev pub AreRows : List Row → Type 0
  AreRows [] = Unit
  AreRows (r ∷ rows) = IsRow r × AreRows rows

  AreRows-append : (xs ys : List Row) → AreRows xs → AreRows ys → AreRows (xs ++ ys)
  AreRows-append [] ys hx hy = hy
  AreRows-append (x ∷ xs) ys (h, hx) hy = (h, AreRows-append xs ys hx hy)

  keys-snapshot : (cur sig_ids : Dict Text Text) → keys (snapshot cur sig_ids) ≡ keys sig_ids
  unfolding keys snapshot
  keys-snapshot cur [] = refl
  keys-snapshot cur ((s, i) ∷ ids) = ap (λ k. s ∷ k) (keys-snapshot cur ids)

  at_edge-inside :
      (st : State)
      → at_edge sig_ids clk_id ts_ps t_from_ps t_to_ps edge st ≡ true
      → (t_from_ps ≤ st.cur_t_units * ts_ps) × (st.cur_t_units * ts_ps ≤ t_to_ps)
  unfolding at_edge
  at_edge-inside st e =
      let lo : leb t_from_ps (st.cur_t_units * ts_ps) ≡ true = ground (arith, e) in
      let hi : leb (st.cur_t_units * ts_ps) t_to_ps ≡ true = ground (arith, e) in
      (leb→le _ _ lo, leb→le _ _ hi)

  flush-AreRows : (st : State) → AreRows (flush sig_ids clk_id ts_ps t_from_ps t_to_ps edge st).1
  unfolding flush
  flush-AreRows st = elim (Bool-cases (at_edge sig_ids clk_id ts_ps t_from_ps t_to_ps edge st)) [
    | inl e ↦
        let inside = at_edge-inside st e in
        rw e ((inside.0, inside.1, keys-snapshot st.cur sig_ids), tt)
    | inr e ↦ rw e tt
  ]

  abbrev OnRows : Option (List Row) → Type 0
  OnRows none = Unit
  OnRows (some rows) = AreRows rows

  OnRows-prepend :
      (xs : List Row) (o : Option (List Row))
      → AreRows xs
      → OnRows o
      → OnRows (elim o [ none ↦ none | some rows ↦ some (xs ++ rows) ])
  OnRows-prepend xs none hx h = tt
  OnRows-prepend xs (some rows) hx h = AreRows-append xs rows hx h

  OnRows-if :
      (t : Bool) (x y : Option (List Row)) → OnRows x → OnRows y → OnRows (if t then x else y)
  OnRows-if true x y hx hy = hx
  OnRows-if false x y hx hy = hy

  sample_lines-OnRows :
      (st : State) (lines : List Text)
      → OnRows (sample_lines sig_ids clk_id ts_ps t_from_ps t_to_ps edge st lines)
  unfolding sample_lines
  sample_lines-OnRows st [] = flush-AreRows st
  sample_lines-OnRows st ([] ∷ lines) = sample_lines-OnRows st lines
  sample_lines-OnRows st ((c ∷ rest) ∷ lines) =
      let flushed = flush sig_ids clk_id ts_ps t_from_ps t_to_ps edge st in
      let later = record flushed.0 { cur_t_units = int rest } in
      OnRows-if (not (c == b'#')) _ _
        (sample_lines-OnRows (record st { cur = set_value st.cur c rest }) lines)
        (OnRows-if (not (is_number rest)) _ _ tt (
          OnRows-if (is_after sig_ids clk_id ts_ps t_from_ps t_to_ps edge (int rest)) _ _
            (AreRows-append flushed.1 _ (flush-AreRows st) (flush-AreRows later))
            (OnRows-prepend flushed.1 _ (flush-AreRows st) (sample_lines-OnRows later lines))))

-- When the sampling gives a table, which it does not where a time mark is no number, every row has
-- its time in the window, and a value for every chosen signal, in their order.
pub sample-AreRows :
    (sig_ids : Dict Text Text) (clk_id : Text) (ts_ps t_from_ps t_to_ps : ℕ) (edge : Edge)
    (lines : List Text) (rows : List Row)
    → sample sig_ids clk_id ts_ps t_from_ps t_to_ps edge lines ≡ some rows
    → AreRows sig_ids clk_id ts_ps t_from_ps t_to_ps edge rows
unfolding sample
sample-AreRows sig_ids clk_id ts_ps t_from_ps t_to_ps edge lines rows h =
    subst (OnRows sig_ids clk_id ts_ps t_from_ps t_to_ps edge) h (
      sample_lines-OnRows sig_ids clk_id ts_ps t_from_ps t_to_ps edge
        (record { cur = []; prev_clk = codes "x"; cur_t_units = 0 }) lines)
