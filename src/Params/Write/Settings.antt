-- ===== src/Params/Write/Settings.antt =====
-- The generated file as Tcl reads it: of several `set` lines for one variable the last one counts.
use arvern_ips.Prelude.{
  ◌≡◌, refl, sym, ap, ◌∙◌, inl, inr, Bool, true, false, not, ◌&&◌, Option, none, some, List, [],
  ◌∷◌, ◌++◌, map, append_assoc, arith, if◌then◌else◌, Bool-cases, Option-cases, length, drop, all,
  drop-append, ℕ, eqb, nat_eq, list_beq, list_beq_iff, list_eq, pair_eq, contains, IsDistinct, Text,
  codes, starts_with,
}
use arvern_ips.Prelude.Dict.{keys, lookup, has_key, has_key-lookup, contains-keys}
use arvern_ips.Prelude.Sorting.{text_le, insert_sorted, sort}
use arvern_ips.Params.Select.{Value, ParamDict, Config}
use arvern_ips.Params.Write.{
  show_value, arst_en, async_rst_en, effective, sorted_items, param_line, alias_lines,
  elaborate_lines, write_params,
}

-- What the line sets the variable to, if it sets it.
unfoldable pub set_value : Text → Text → Option Text
set_value name line =
    let start = codes "set " ++ (name ++ codes " ") in
    if starts_with line start then some (drop (length start) line) else none

abbrev pub or_else : Option Text → Option Text → Option Text
or_else (some t) o = some t
or_else none o = o

-- The variable after the file was read.
unfoldable pub tcl_value : Text → List Text → Option Text
unfolding set_value
tcl_value name [] = none
tcl_value name (line ∷ lines) = or_else (tcl_value name lines) (set_value name line)

-- The variable of a parameter.
abbrev pub rtl_param : Text → Text
rtl_param k = codes "RTL_PARAM_" ++ k

-- A name has no blank and no `=`.
abbrev pub is_name : Text → Bool
is_name k = not (contains k b' ') && not (contains k b'=')

abbrev pub show_all : Option Value → Option Text
show_all none = none
show_all (some v) = some (show_value v)

pub or_else-none : (o : Option Text) → or_else o none ≡ o
or_else-none none = refl
or_else-none (some t) = refl

pub tcl_value-append :
    (name : Text) (xs ys : List Text)
    → tcl_value name (xs ++ ys) ≡ or_else (tcl_value name ys) (tcl_value name xs)
unfolding tcl_value
tcl_value-append name [] ys = sym (or_else-none _)
tcl_value-append name (x ∷ xs) ys = elim (Option-cases (tcl_value name ys)) [
  | inl e ↦ ground (arith, e, tcl_value-append name xs ys)
  | inr (t, e) ↦ ground (arith, e, tcl_value-append name xs ys)
]

starts_with-sep :
    (sep : ℕ) (j k r : Text)
    → contains j sep ≡ false
    → contains k sep ≡ false
    → starts_with (j ++ (sep ∷ r)) (k ++ (sep ∷ [])) ≡ eqb j k
unfolding starts_with contains list_beq
starts_with-sep sep [] [] r h g = ground arith
starts_with-sep sep [] (c ∷ k) r h g = ground arith
starts_with-sep sep (d ∷ j) [] r h g = ground arith
starts_with-sep sep (d ∷ j) (c ∷ k) r h g = ground (arith, starts_with-sep sep j k r)

drop-sep : (sep : ℕ) (k r : Text) → drop (length (k ++ (sep ∷ []))) (k ++ (sep ∷ r)) ≡ r
drop-sep sep k r =
    ap (drop (length (k ++ (sep ∷ [])))) (sym (append_assoc k (sep ∷ []) r))
    ∙ drop-append (k ++ (sep ∷ [])) r

set_value-param_line :
    (k j : Text) (v : Value)
    → is_name k ≡ true
    → is_name j ≡ true
    → set_value (rtl_param k) (param_line (j, v)) ≡ (if eqb j k then some (show_value v) else none)
unfolding set_value param_line starts_with
set_value-param_line k j v h g =
    let start = starts_with-sep b' ' j k (show_value v) (ground arith) (ground arith) in
    elim (Bool-cases (eqb j k)) [
      | inl same ↦
          let e : j ≡ k = (list_beq_iff j k).0 same in
          rw (start, same) (rw e (ap some (drop-sep b' ' k (show_value v))))
      | inr other ↦ rw (start, other)
    ]

abbrev Pair : Type 0
Pair = Text × Value

module _ (le : Pair → Pair → Bool) (k : Text) (named : is_name k ≡ true) where
  tcl_value-insert_sorted :
      (j : Text) (v : Value) (xs : List Pair)
      → is_name j ≡ true
      → (eqb j k ≡ true → tcl_value (rtl_param k) (map param_line xs) ≡ none)
      → tcl_value (rtl_param k) (map param_line (insert_sorted le (j, v) xs))
        ≡ (if eqb j k then some (show_value v) else tcl_value (rtl_param k) (map param_line xs))
  unfolding tcl_value insert_sorted
  tcl_value-insert_sorted j v [] g h = set_value-param_line k j v named g
  tcl_value-insert_sorted j v (y ∷ ys) g h = ground (
    arith,
    set_value-param_line k j v named g,
    tcl_value-insert_sorted j v ys g,
    or_else-none (tcl_value (rtl_param k) (map param_line (y ∷ ys))),
  )

  tcl_value-sort :
      (d : ParamDict)
      → IsDistinct (keys d)
      → all (λ (q : Pair). is_name q.0) d ≡ true
      → tcl_value (rtl_param k) (map param_line (sort le d)) ≡ show_all (lookup k d)
  unfolding tcl_value sort keys lookup
  tcl_value-sort [] g h = refl
  tcl_value-sort ((j, v) ∷ d) g h =
      let ih = tcl_value-sort d g.1 (ground (arith, h)) in
      let missing : has_key j d ≡ false = sym (contains-keys j d) ∙ g.0 in
      let unset : eqb j k ≡ true → tcl_value (rtl_param k) (map param_line (sort le d)) ≡ none =
        λ same.
          ih
          ∙ ap show_all (
              ap (λ i. lookup i d) (sym ((list_beq_iff j k).0 same))
              ∙ has_key-lookup j d missing) in
      ground (arith, tcl_value-insert_sorted j v (sort le d) (ground (arith, h)) unset, ih)

-- What stands behind the parameters: the other name of the reset.
tcl_value-alias_lines :
    (k : Text) (eff : ParamDict)
    → is_name k ≡ true
    → tcl_value (rtl_param k) (alias_lines eff) ≡ (
        if eqb async_rst_en k && not (has_key async_rst_en eff)
        then show_all (lookup arst_en eff)
        else none)
unfolding tcl_value alias_lines contains
tcl_value-alias_lines k eff h = elim (Option-cases (lookup arst_en eff)) [
  | inl e ↦ rw e (ground arith)
  | inr (v, e) ↦
      let line : set_value (rtl_param k) (codes "set RTL_PARAM_ASYNC_RST_EN " ++ show_value v)
          ≡ (if eqb async_rst_en k then some (show_value v) else none) =
        unfold param_line in set_value-param_line k async_rst_en v h refl in
      rw e (ground (arith, line))
]

tcl_value-elaborate_lines :
    (k : Text) (eff : ParamDict) → tcl_value (rtl_param k) (elaborate_lines eff) ≡ none
unfolding tcl_value set_value elaborate_lines starts_with
tcl_value-elaborate_lines k [] = refl
tcl_value-elaborate_lines k (q ∷ eff) = refl

module _ (c : Config) (force : Bool) (k : Text) (named : is_name k ≡ true) where
  abbrev eff : ParamDict
  eff = effective c.params force

  module _ (distinct : IsDistinct (keys eff))
      (names : all (λ (q : Pair). is_name q.0) eff ≡ true) where
    tcl_value_body :
        tcl_value
          (rtl_param k)
          (map param_line (sorted_items eff) ++ (alias_lines eff ++ elaborate_lines eff))
        ≡ (if eqb async_rst_en k && not (has_key async_rst_en eff)
            then show_all (lookup arst_en eff)
            else show_all (lookup k eff))
    unfolding sorted_items
    tcl_value_body =
        let le : Pair → Pair → Bool = λ p q. text_le p.0 q.0 in
        let own = tcl_value-sort le k named eff distinct names in
        let rest = alias_lines eff ++ elaborate_lines eff in
        let tail : tcl_value (rtl_param k) rest ≡ tcl_value (rtl_param k) (alias_lines eff) =
          tcl_value-append (rtl_param k) (alias_lines eff) (elaborate_lines eff)
          ∙ rw (tcl_value-elaborate_lines k eff) in
        let missing = has_key-lookup async_rst_en eff in
        ground (
          arith,
          own,
          tail,
          missing,
          list_beq_iff async_rst_en k,
          or_else-none (show_all (lookup arst_en eff)),
          tcl_value-alias_lines k eff named,
          tcl_value-append (rtl_param k) (map param_line (sort le eff)) rest,
        )

    -- A parameter in the whole file.
    pub tcl_value-write_params : tcl_value (rtl_param k) (write_params c force) ≡ (
        if eqb async_rst_en k && not (has_key async_rst_en eff)
        then show_all (lookup arst_en eff)
        else show_all (lookup k eff))
    unfolding write_params tcl_value set_value starts_with
    tcl_value-write_params = simp (or_else-none) tcl_value_body
