-- ===== src/Const/Merge/Sound.antt =====
-- The bits that are given out as constant, against the elaborations.
use arvern_ips.Prelude.{
  some_injective, ℕ, ◌≡◌, refl, sym, ap, ◌∙◌, ◌↔◌, inl, inr, Bool, true, false, Option, none, some,
  List, [], ◌∷◌, ◌++◌, append-nil, append_assoc, arith, if◌then◌else◌, Bool-cases, Option-cases,
  all, eqb, nat_eq, list_eq, pair_beq_iff, pair_eq, contains, IsDistinct,
}
use arvern_ips.Prelude.Dict.{
  Dict, keys, lookup, has_key, lookup-insert, contains-keys, insert-IsDistinct,
}
use arvern_ips.Const.Bits.{BitSet, intersect}
use mathlib.Core.Path.{subst}
use arvern_ips.Const.Bits.Common.{is_constant_in, intersect-contains}
use arvern_ips.Const.Merge.{
  Elaboration, Name, signals, append_set, collect, is_judged, judged, out_of, constants_of,
}

-- A set goes in front if it is one of the signal's.
abbrev pub with_set : Bool → Option BitSet → List BitSet → List BitSet
with_set c none rest = rest
with_set true (some b) rest = b ∷ rest
with_set false (some b) rest = rest

-- The sets of a signal, in the order of the elaborations that have it.
abbrev pub sets_at : Name → List (Name × List BitSet) → List BitSet
sets_at k [] = []
sets_at k ((j, sets) ∷ sigs) = with_set (eqb j k) (intersect sets) (sets_at k sigs)

abbrev set_list : Option (List BitSet) → List BitSet
set_list none = []
set_list (some bs) = bs

name_iff : (j k : Name) → (eqb j k ≡ true) ↔ (j ≡ k)
name_iff j k = pair_beq_iff j k

append_set-lookup :
    (j k : Name) (b : BitSet) (per : Dict Name (List BitSet))
    → set_list (lookup k (append_set j b per))
      ≡ (if eqb j k then set_list (lookup k per) ++ (b ∷ []) else set_list (lookup k per))
unfolding append_set
append_set-lookup j k b per = elim (Bool-cases (eqb j k)) [
  | inl same ↦
      let at_key = ap (λ i. lookup i per) ((name_iff j k).0 same) in
      elim (Option-cases (lookup j per)) [
        | inl e ↦ rw (append_set, e, lookup-insert j k (b ∷ []) per, same, sym at_key ∙ e) refl
        | inr (bs, e) ↦
            rw (append_set, e, lookup-insert j k (bs ++ (b ∷ [])) per, same, sym at_key ∙ e) refl
      ]
  | inr other ↦ elim (Option-cases (lookup j per)) [
    | inl e ↦ rw (append_set, e, lookup-insert j k (b ∷ []) per, other) refl
    | inr (bs, e) ↦ rw (append_set, e, lookup-insert j k (bs ++ (b ∷ [])) per, other) refl
  ]
]

append_set-IsDistinct :
    (j : Name) (b : BitSet) (per : Dict Name (List BitSet))
    → IsDistinct (keys per)
    → IsDistinct (keys (append_set j b per))
unfolding append_set
append_set-IsDistinct j b per h = elim (Option-cases (lookup j per)) [
  | inl e ↦ rw (append_set, e) (insert-IsDistinct j (b ∷ []) per h)
  | inr (bs, e) ↦ rw (append_set, e) (insert-IsDistinct j (bs ++ (b ∷ [])) per h)
]

choose :
    (c : Bool) (xs : List BitSet) (b : BitSet) (ys : List BitSet)
    → (if c then xs ++ (b ∷ []) else xs) ++ ys ≡ xs ++ (if c then b ∷ ys else ys)
choose true xs b ys = append_assoc xs (b ∷ []) ys
choose false xs b ys = refl

with_set-some :
    (c : Bool) (b : BitSet) (rest : List BitSet)
    → with_set c (some b) rest ≡ (if c then b ∷ rest else rest)
with_set-some true b rest = refl
with_set-some false b rest = refl

sets_at-cons :
    (j k : Name) (b : BitSet) (sets : List BitSet) (sigs : List (Name × List BitSet))
    → intersect sets ≡ some b
    → sets_at k ((j, sets) ∷ sigs) ≡ (if eqb j k then b ∷ sets_at k sigs else sets_at k sigs)
sets_at-cons j k b sets sigs e =
    ap (λ o. with_set (eqb j k) o (sets_at k sigs)) e ∙ with_set-some (eqb j k) b (sets_at k sigs)

collect-lookup :
    (per : Dict Name (List BitSet)) (sigs : List (Name × List BitSet))
    (out : Dict Name (List BitSet)) (k : Name)
    → collect per sigs ≡ some out
    → IsDistinct (keys per)
    → (set_list (lookup k out) ≡ set_list (lookup k per) ++ sets_at k sigs) × IsDistinct (keys out)
unfolding collect
collect-lookup per [] out k h d =
    let same = some_injective h in
    (
      ap (λ p. set_list (lookup k p)) (sym same) ∙ sym (append-nil (set_list (lookup k per))),
      subst (λ p. IsDistinct (keys p)) same d,
    )
collect-lookup per ((j, sets) ∷ sigs) out k h d = elim (Option-cases (intersect sets)) [
  | inl e ↦
      let step : collect per ((j, sets) ∷ sigs) ≡ none = rw (collect, e) refl in
      ground (arith, sym step ∙ h)
  | inr (b, e) ↦
      let step : collect per ((j, sets) ∷ sigs) ≡ collect (append_set j b per) sigs =
        rw (collect, e) refl in
      let rest =
        collect-lookup (append_set j b per) sigs out k (sym step ∙ h)
          (append_set-IsDistinct j b per d) in
      let now = append_set-lookup j k b per in
      (
        rest.0
            ∙ ap (λ s. s ++ sets_at k sigs) now
            ∙ choose (eqb j k) (set_list (lookup k per)) b (sets_at k sigs)
            ∙ ap (λ s. set_list (lookup k per) ++ s) (sym (sets_at-cons j k b sets sigs e)),
        rest.1,
      )
]

judged-nil : (mods : Elaboration) (k : Name) → judged mods k [] ≡ none
unfolding judged intersect
judged-nil mods k = ground arith

out_of-absent :
    (mods : Elaboration) (per : Dict Name (List BitSet)) (k : Name)
    → has_key k per ≡ false
    → lookup k (out_of mods per) ≡ none
unfolding out_of has_key lookup
out_of-absent mods [] k h = refl
out_of-absent mods ((j, sets) ∷ per) k h = elim (Option-cases (judged mods j sets)) [
  | inl e ↦ rw (out_of, e) (out_of-absent mods per k (ground (arith, h)))
  | inr (c, e) ↦ rw (out_of, e) (ground (arith, h, out_of-absent mods per k))
]

out_of-lookup :
    (mods : Elaboration) (per : Dict Name (List BitSet)) (k : Name)
    → IsDistinct (keys per)
    → lookup k (out_of mods per) ≡ judged mods k (set_list (lookup k per))
unfolding out_of lookup keys
out_of-lookup mods [] k d = sym (judged-nil mods k)
out_of-lookup mods ((j, sets) ∷ per) k d = elim (Bool-cases (eqb j k)) [
  | inl same ↦
      let q = (name_iff j k).0 same in
      let absent =
        out_of-absent mods per k
          (ap (λ i. has_key i per) (sym q) ∙ sym (contains-keys j per) ∙ d.0) in
      elim (Option-cases (judged mods j sets)) [
        | inl e ↦ rw (out_of, e, absent, same) (sym (ap (λ i. judged mods i sets) (sym q) ∙ e))
        | inr (c, e) ↦ rw (out_of, e, same) (sym (ap (λ i. judged mods i sets) (sym q) ∙ e))
      ]
  | inr other ↦ elim (Option-cases (judged mods j sets)) [
    | inl e ↦ rw (out_of, e, other) (out_of-lookup mods per k d.1)
    | inr (c, e) ↦ rw (out_of, e, other) (out_of-lookup mods per k d.1)
  ]
]

constants_of-lookup :
    (mods : Elaboration) (out : Dict Name BitSet) (k : Name)
    → constants_of mods ≡ some out
    → lookup k out ≡ judged mods k (sets_at k (signals mods))
unfolding constants_of lookup keys
constants_of-lookup mods out k h = elim (Option-cases (collect [] (signals mods))) [
  | inl e ↦
      let step : constants_of mods ≡ none = rw (constants_of, e) refl in
      ground (arith, sym step ∙ h)
  | inr (per, e) ↦
      let step : constants_of mods ≡ some (out_of mods per) = rw (constants_of, e) refl in
      let found = collect-lookup [] (signals mods) per k e tt in
      ap (lookup k) (sym (some_injective (sym step ∙ h)))
      ∙ out_of-lookup mods per k found.1
      ∙ ap (judged mods k) found.0
]

judged-some :
    (mods : Elaboration) (k : Name) (sets : List BitSet) (c : BitSet)
    → judged mods k sets ≡ some c
    → (is_judged mods k sets ≡ true) × (intersect sets ≡ some c)
unfolding judged
judged-some mods k sets c h = elim (Option-cases (intersect sets)) [
  | inl e ↦ ground (arith, h, e)
  | inr (d, e) ↦ ground (arith, h, e)
]

-- A signal is given out only if it has as many sets as there are elaborations that build its
-- module, or if it stands in a generate scope or an array; and a bit is given out as constant
-- exactly when each of these sets has it, or is of a wire too narrow for it while another is not.
pub constants_of-bits :
    (mods : Elaboration) (out : Dict Name BitSet) (k : Name) (c : BitSet) (i : ℕ)
    → constants_of mods ≡ some out
    → lookup k out ≡ some c
    → (is_judged mods k (sets_at k (signals mods)) ≡ true)
      × (contains c.bits i
          ≡ all (is_constant_in (sets_at k (signals mods)) i) (sets_at k (signals mods)))
constants_of-bits mods out k c i h found =
    let parts =
      judged-some mods k (sets_at k (signals mods)) c
        (sym (constants_of-lookup mods out k h) ∙ found) in
    (parts.0, intersect-contains (sets_at k (signals mods)) c i parts.1)
