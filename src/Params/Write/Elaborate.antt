-- ===== src/Params/Write/Elaborate.antt =====
-- The `-parameters` argument of the elaboration agrees with the parameters that the file sets.
use arvern_ips.Prelude.{
  ℕ, ◌≡◌, refl, ◌∙◌, sym, ap, inl, inr, ◌≢◌, Bool, true, false, ◌&&◌, ◌||◌, Option, none, some,
  List, [], ◌∷◌, ◌++◌, map, arith, if◌then◌else◌, Bool-cases, any, all, is_nil, eqb, nat_eq,
  list_beq, list_beq_iff, list_eq, pair_eq, contains, IsDistinct, Text, codes, starts_with, join,
}
use arvern_ips.Prelude.Dict.{keys, lookup, has_key, has_key-lookup, contains-keys}
use arvern_ips.Prelude.Sorting.{insert_sorted, sort, text_le}
use arvern_ips.Params.Select.{Value, ParamDict, Config}
use arvern_ips.Params.Write.{
  show_value, async_rst_en, effective, sorted_items, param_line, assignment, alias_lines,
  elaborate_lines, write_params,
}
use arvern_ips.Params.Write.Settings.{
  is_name, rtl_param, show_all, set_value, tcl_value, or_else-none, tcl_value-append,
}
use arvern_ips.Params.Write.Reset.{IsParamDict, effective-IsParamDict, tcl_value-effective}

contains-map {ℓ} :
    {A : Type ℓ} (f : A → Text) (xs : List A) (t : Text)
    → contains (map f xs) t ≡ any (λ x. eqb (f x) t) xs
unfolding contains
contains-map f [] t = refl
contains-map f (x ∷ xs) t = ground (arith, contains-map f xs t)

module _ {ℓ} {A : Type ℓ} (le : A → A → Bool) (p : A → Bool) where
  any-insert_sorted : (x : A) (xs : List A) → any p (insert_sorted le x xs) ≡ (p x || any p xs)
  unfolding insert_sorted
  any-insert_sorted x [] = refl
  any-insert_sorted x (y ∷ ys) = ground (arith, any-insert_sorted x ys)

  any-sort : (xs : List A) → any p (sort le xs) ≡ any p xs
  unfolding sort
  any-sort [] = refl
  any-sort (x ∷ xs) = ground (arith, any-insert_sorted x (sort le xs), any-sort xs)

eqb-sep :
    (sep : ℕ) (j k v t : Text)
    → contains j sep ≡ false
    → contains k sep ≡ false
    → eqb (j ++ (sep ∷ v)) (k ++ (sep ∷ t)) ≡ (eqb j k && eqb v t)
unfolding contains list_beq
eqb-sep sep [] [] v t h g = ground arith
eqb-sep sep [] (c ∷ k) v t h g = ground arith
eqb-sep sep (d ∷ j) [] v t h g = ground arith
eqb-sep sep (d ∷ j) (c ∷ k) v t h g = ground (arith, eqb-sep sep j k v t)

-- The variable is set, and to this text.
abbrev pub holds : Option Text → Text → Bool
holds none t = false
holds (some s) t = eqb s t

any-assignment :
    (k t : Text) (d : ParamDict)
    → is_name k ≡ true
    → IsDistinct (keys d)
    → all (λ (q : Text × Value). is_name q.0) d ≡ true
    → any (λ q. eqb (assignment q) (k ++ (b'=' ∷ t))) d ≡ holds (show_all (lookup k d)) t
unfolding assignment keys lookup
any-assignment k t [] n g h = refl
any-assignment k t ((j, v) ∷ d) n g h =
    let ih = any-assignment k t d n g.1 (ground (arith, h)) in
    let missing : has_key j d ≡ false = sym (contains-keys j d) ∙ g.0 in
    let gone : eqb j k ≡ true → lookup k d ≡ none =
      λ same. ap (λ i. lookup i d) (sym ((list_beq_iff j k).0 same)) ∙ has_key-lookup j d missing in
    ground
      (arith, ih, gone, eqb-sep b'=' j k (show_value v) t (ground (arith, h)) (ground (arith, n)))

abbrev pub elaborate_params : Text
elaborate_params = codes "ELABORATE_PARAMS"

-- What Tcl finds behind `set ELABORATE_PARAMS` for these assignments.
abbrev pub quoted : List Text → Text
quoted args =
    if is_nil args
    then codes "\"\""
    else codes "\"-parameters \\\"" ++ (join (codes ",") args ++ codes "\\\"\"")

-- What is joined for the elaboration.
abbrev pub arguments : ParamDict → List Text
arguments eff = map assignment (sorted_items eff)

is_nil-sort :
    (le : Text × Value → Text × Value → Bool) (d : ParamDict) → is_nil (sort le d) ≡ is_nil d
unfolding sort insert_sorted
is_nil-sort le [] = refl
is_nil-sort le (q ∷ d) = elim (sort le d) as (λ s. is_nil (insert_sorted le q s) ≡ false) [
  | [] ↦ refl
  | r ∷ s ↦ ground arith
]

is_nil-map : (d : ParamDict) → is_nil (map assignment d) ≡ is_nil d
is_nil-map [] = refl
is_nil-map (q ∷ d) = refl

value-elaborate_lines :
    (eff : ParamDict)
    → tcl_value elaborate_params (elaborate_lines eff) ≡ some (quoted (arguments eff))
unfolding tcl_value set_value starts_with elaborate_lines
value-elaborate_lines eff =
    let le : Text × Value → Text × Value → Bool = λ p q. text_le p.0 q.0 in
    let empty : is_nil (arguments eff) ≡ is_nil eff =
      unfold sorted_items in is_nil-map (sort le eff) ∙ is_nil-sort le eff in
    elim (Bool-cases (is_nil eff)) [ inl e ↦ rw (empty, e) | inr e ↦ rw (empty, e) ]

value-write_params :
    (c : Config) (force : Bool)
    → tcl_value elaborate_params (write_params c force)
      ≡ some (quoted (arguments (effective c.params force)))
unfolding tcl_value set_value starts_with write_params
value-write_params c force =
    let eff = effective c.params force in
    let rest = alias_lines eff ++ elaborate_lines eff in
    let own = value-elaborate_lines eff in
    let tail = tcl_value-append elaborate_params (alias_lines eff) (elaborate_lines eff) in
    let body = tcl_value-append elaborate_params (map param_line (sorted_items eff)) rest in
    simp (or_else-none) (ground (arith, own, tail, body))

-- Where the keys of the configuration are distinct and without blanks and `=`: with the flag or
-- without it, `ELABORATE_PARAMS` is empty or hands the list of arguments to the elaboration, and for
-- each parameter but `ASYNC_RST_EN`, whose setting may be an alias, `k=t` is one of them exactly
-- when Tcl reads `k` as `t` from the same file.
pub write_params-arguments :
    (c : Config) (force : Bool) (k t : Text)
    → IsParamDict c.params
    → is_name k ≡ true
    → k ≢ codes "ASYNC_RST_EN"
    → (tcl_value (codes "ELABORATE_PARAMS") (write_params c force)
        ≡ some (quoted (arguments (effective c.params force))))
      × (contains (arguments (effective c.params force)) (k ++ (b'=' ∷ t))
          ≡ holds (tcl_value (rtl_param k) (write_params c force)) t)
write_params-arguments c force k t p n other =
    let eff = effective c.params force in
    let q = effective-IsParamDict c.params force p in
    let le : Text × Value → Text × Value → Bool = λ x y. text_le x.0 y.0 in
    let found : contains (arguments eff) (k ++ (b'=' ∷ t)) ≡ holds (show_all (lookup k eff)) t =
      contains-map assignment (sorted_items eff) (k ++ (b'=' ∷ t))
      ∙ unfold sorted_items in
        any-sort le (λ x. eqb (assignment x) (k ++ (b'=' ∷ t))) eff
        ∙ any-assignment k t eff n q.distinct q.named in
    let read = tcl_value-effective c p force k n in
    (value-write_params c force, ground (arith, found, read, list_beq_iff async_rst_en k))
