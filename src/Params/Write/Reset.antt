-- ===== src/Params/Write/Reset.antt =====
-- What the generated Tcl sets: the parameters of the configuration, and the reset style.
use arvern_ips.Prelude.{
  ◌≡◌, refl, ◌≢◌, inl, inr, Bool, true, false, not, ◌&&◌, none, some, [], ◌∷◌, arith, if◌then◌else◌,
  Bool-cases, all, eqb, nat_eq, list_beq_iff, list_eq, pair_eq, eqb_refl, eqb_sym, list_beq,
  contains, IsDistinct, Text, codes,
}
use arvern_ips.Prelude.Dict.{
  keys, lookup, insert, has_key, lookup-insert, has_key-insert, has_key-lookup, insert-IsDistinct,
}
use arvern_ips.Prelude.Decimal.{show}
use arvern_ips.Params.Select.{Value, number, ParamDict, Config}
use arvern_ips.Params.Write.{show_value, arst_en, async_rst_en, effective, write_params}
use arvern_ips.Params.Write.Settings.{
  is_name, rtl_param, show_all, tcl_value, tcl_value-write_params,
}

-- A dict of parameters: no key twice, and no blank or `=` in a key.
pub record IsParamDict (params : ParamDict) : Type 0 where
  pub distinct : IsDistinct (keys params)
  pub named : all (λ (q : Text × Value). is_name q.0) params ≡ true

insert-named :
    (k : Text) (v : Value) (d : ParamDict)
    → is_name k ≡ true
    → all (λ (q : Text × Value). is_name q.0) d ≡ true
    → all (λ (q : Text × Value). is_name q.0) (insert k v d) ≡ true
unfolding insert
insert-named k v [] h g = ground arith
insert-named k v ((j, w) ∷ d) h g = ground (arith, insert-named k v d)

pub effective-IsParamDict :
    (params : ParamDict) (force : Bool) → IsParamDict params → IsParamDict (effective params force)
unfolding effective contains
effective-IsParamDict params false p = p
effective-IsParamDict params true p = elim (Bool-cases (has_key arst_en params)) [
  | inl old ↦ rw old (record {
    distinct = insert-IsDistinct arst_en _ params p.distinct;
    named = insert-named arst_en _ params refl p.named;
  })
  | inr new ↦ rw new (record {
    distinct = insert-IsDistinct async_rst_en _ params p.distinct;
    named = insert-named async_rst_en _ params refl p.named;
  })
]

spellings_differ : eqb arst_en async_rst_en ≡ false
unfolding list_beq
spellings_differ = refl

module _ (c : Config) (p : IsParamDict c.params) where
  -- A parameter in the file, with the flag or without it.
  pub tcl_value-effective :
      (force : Bool) (k : Text)
      → is_name k ≡ true
      → tcl_value (rtl_param k) (write_params c force) ≡ (
          if eqb async_rst_en k && not (has_key async_rst_en (effective c.params force))
          then show_all (lookup arst_en (effective c.params force))
          else show_all (lookup k (effective c.params force)))
  tcl_value-effective force k h =
      let q = effective-IsParamDict c.params force p in
      tcl_value-write_params c force k h q.distinct q.named

  -- Where the keys of the configuration are distinct and without blanks and `=`: without
  -- `--with-sync-reset`, Tcl reads from the file each parameter of the configuration with its value
  -- and no other one, but that `ASYNC_RST_EN` has the value of `ARST_EN` where only that is set.
  pub write_params-tcl_value :
      (k : Text)
      → is_name k ≡ true
      → tcl_value (rtl_param k) (write_params c false)
        ≡ show_all (
            if eqb k (codes "ASYNC_RST_EN") && not (has_key (codes "ASYNC_RST_EN") c.params)
            then lookup (codes "ARST_EN") c.params
            else lookup k c.params)
  unfolding effective
  write_params-tcl_value k h =
      let whole = tcl_value-effective false k h in
      ground (arith, whole, list_beq_iff k async_rst_en, list_beq_iff async_rst_en k)

  effective-other :
      (k : Text)
      → k ≢ arst_en
      → k ≢ async_rst_en
      → lookup k (effective c.params true) ≡ lookup k c.params
  unfolding effective
  effective-other k h g = elim (Bool-cases (has_key arst_en c.params)) [
    | inl old ↦ rw (old, lookup-insert) (ground (arith, list_beq_iff arst_en k))
    | inr new ↦ rw (new, lookup-insert) (ground (arith, list_beq_iff async_rst_en k))
  ]

  tcl_value-other :
      (k : Text)
      → is_name k ≡ true
      → k ≢ arst_en
      → k ≢ async_rst_en
      → tcl_value (rtl_param k) (write_params c true)
        ≡ tcl_value (rtl_param k) (write_params c false)
  tcl_value-other k n h g =
      let on = tcl_value-effective true k n in
      let off = tcl_value-effective false k n in
      let same = effective-other k h g in
      unfold effective in ground (arith, on, off, same, list_beq_iff async_rst_en k)

  sync-async :
      (has_key arst_en c.params && has_key async_rst_en c.params) ≡ false
      → tcl_value (rtl_param async_rst_en) (write_params c true) ≡ some (codes "0")
  unfolding contains effective show show_value
  sync-async h =
      let whole = tcl_value-effective true async_rst_en refl in
      elim (Bool-cases (has_key arst_en c.params)) [
        | inl old ↦
            let there = lookup-insert arst_en arst_en (number 0) c.params in
            let other = has_key-insert arst_en async_rst_en (number 0) c.params in
            ground (
              arith,
              whole,
              there,
              other,
              eqb_refl arst_en,
              eqb_refl async_rst_en,
              spellings_differ,
            )
        | inr new ↦
            let there = lookup-insert async_rst_en async_rst_en (number 0) c.params in
            let here = has_key-insert async_rst_en async_rst_en (number 0) c.params in
            ground (arith, whole, there, here, eqb_refl async_rst_en)
      ]

  sync-arst :
      tcl_value (rtl_param arst_en) (write_params c true)
      ≡ (if has_key arst_en c.params then some (codes "0") else none)
  unfolding contains effective show show_value
  sync-arst =
      let whole = tcl_value-effective true arst_en refl in
      elim (Bool-cases (has_key arst_en c.params)) [
        | inl old ↦
            let there = lookup-insert arst_en arst_en (number 0) c.params in
            ground (
              arith,
              whole,
              there,
              eqb_refl arst_en,
              spellings_differ,
              eqb_sym arst_en async_rst_en,
            )
        | inr new ↦
            let other = lookup-insert async_rst_en arst_en (number 0) c.params in
            ground (
              arith,
              whole,
              other,
              spellings_differ,
              eqb_sym arst_en async_rst_en,
              has_key-lookup arst_en c.params,
            )
      ]

  -- Where the keys of the configuration are distinct and without blanks and `=`, and do not have both
  -- spellings of the reset parameter: with `--with-sync-reset`, Tcl reads `ASYNC_RST_EN` as 0 from
  -- the file, whichever spelling the configuration uses, and `ARST_EN` as 0 where the configuration
  -- sets it and as unset where it does not; every other parameter it reads as from the file written
  -- without the flag.
  pub write_params_sync :
      (k : Text)
      → (has_key (codes "ARST_EN") c.params && has_key (codes "ASYNC_RST_EN") c.params) ≡ false
      → is_name k ≡ true
      → k ≢ codes "ARST_EN"
      → k ≢ codes "ASYNC_RST_EN"
      → (tcl_value (codes "RTL_PARAM_ASYNC_RST_EN") (write_params c true) ≡ some (codes "0"))
        × (tcl_value (codes "RTL_PARAM_ARST_EN") (write_params c true)
            ≡ (if has_key (codes "ARST_EN") c.params then some (codes "0") else none))
        × (tcl_value (rtl_param k) (write_params c true)
            ≡ tcl_value (rtl_param k) (write_params c false))
  write_params_sync k h n arst async = (sync-async h, sync-arst, tcl_value-other k n arst async)
