-- ===== src/Waivers/Suggest/Groups.antt =====
-- The groups of `suggest_entries` hold every point.
use arvern_ips.Prelude.{
  ℕ, ◌≡◌, refl, sym, ap, ◌∙◌, ◌↔◌, inl, inr, Bool, true, false, ◌&&◌, ◌||◌, Option, none, some,
  List, [], ◌∷◌, ◌++◌, arith, Bool-cases, Option-cases, and-eq-true, or-eq-true, any, Eq, eqb,
  nat_eq, list_beq_iff, list_eq, pair_beq_iff, pair_eq, eqb_refl, contains, contains-append, Text,
}
use arvern_ips.Prelude.Dict.{Dict, lookup, lookup-insert}
use arvern_ips.Waivers.Suggest.{
  Place, indexed, base_of, add_member, by_base, present_bits, plain_names,
}

abbrev pub Member : Type 0
Member = Text × ℕ

abbrev pub has_member : Member → Option (List Member) → Bool
has_member m none = false
has_member m (some members) = contains members m

-- The point belongs to the group, as this member.
abbrev pub is_of : Place → Member → Place × ℕ → Bool
is_of k m ((page, (path, sig)), cnt) = eqb (page, (path, base_of sig)) k && eqb (sig, cnt) m

place_iff : (j k : Place) → (eqb j k ≡ true) ↔ (j ≡ k)
place_iff j k = pair_beq_iff j k

contains-cons : (x m : Member) → contains (x ∷ []) m ≡ eqb x m
unfolding contains
contains-cons x m = ground arith

add_member-lookup :
    (j k : Place) (x m : Member) (groups : Dict Place (List Member))
    → has_member m (lookup k (add_member j x groups))
      ≡ (has_member m (lookup k groups) || (eqb j k && eqb x m))
unfolding add_member
add_member-lookup j k x m groups = elim (Option-cases (lookup j groups)) [
  | inl e ↦ elim (Bool-cases (eqb j k)) [
    | inl same ↦
        let at_key = sym (ap (λ i. lookup i groups) ((place_iff j k).0 same)) ∙ e in
        rw (add_member, e, lookup-insert j k (x ∷ []) groups, same, at_key) (contains-cons x m)
    | inr other ↦ rw (add_member, e, lookup-insert j k (x ∷ []) groups, other) (ground arith)
  ]
  | inr (ms, e) ↦ elim (Bool-cases (eqb j k)) [
    | inl same ↦
        let at_key = sym (ap (λ i. lookup i groups) ((place_iff j k).0 same)) ∙ e in
        rw (add_member, e, lookup-insert j k (ms ++ (x ∷ [])) groups, same, at_key)
          (contains-append ms (x ∷ []) m ∙ rw (contains-cons x m) refl)
    | inr other ↦
        rw (add_member, e, lookup-insert j k (ms ++ (x ∷ [])) groups, other) (ground arith)
  ]
]

by_base-lookup :
    (groups : Dict Place (List Member)) (hits : Dict Place ℕ) (k : Place) (m : Member)
    → has_member m (lookup k (by_base groups hits))
      ≡ (has_member m (lookup k groups) || any (is_of k m) hits)
unfolding by_base
by_base-lookup groups [] k m = ground arith
by_base-lookup groups (((page, (path, sig)), cnt) ∷ hits) k m =
    let j : Place = (page, (path, base_of sig)) in
    let now = add_member-lookup j k (sig, cnt) m groups in
    by_base-lookup (add_member j (sig, cnt) groups) hits k m ∙ rw now (ground arith)

module _ {ℓ κ} {K : Type ℓ} {V : Type κ} ⦃e : Eq K⦄ where
  -- A test that an entry of a dict passes.
  pub lookup-any :
      (q : K × V → Bool) (d : Dict K V) (k : K) (v : V)
      → lookup k d ≡ some v
      → q (k, v) ≡ true
      → any q d ≡ true
  unfolding lookup
  lookup-any q [] k v h t = ground (arith, h)
  lookup-any q ((j, w) ∷ d) k v h t = ground (arith, h, t, e.beq_iff j k, lookup-any q d k v)

-- A point stands in its group.
pub by_base-holds :
    (hits : Dict Place ℕ) (page path sig : Text) (cnt : ℕ)
    → lookup (page, (path, sig)) hits ≡ some cnt
    → has_member (sig, cnt) (lookup (page, (path, base_of sig)) (by_base [] hits)) ≡ true
unfolding lookup
by_base-holds hits page path sig cnt h =
    let k : Place = (page, (path, base_of sig)) in
    let m : Member = (sig, cnt) in
    by_base-lookup [] hits k m
    ∙ lookup-any (is_of k m) hits (page, (path, sig)) cnt h
        ((and-eq-true (eqb k k) (eqb m m)).1 (eqb_refl k, eqb_refl m))

-- The uncovered names of a group.
pub plain_names-contains :
    (members : List Member) (sig : Text)
    → indexed sig ≡ none
    → contains members (sig, 0) ≡ true
    → contains (plain_names members) sig ≡ true
unfolding plain_names contains
plain_names-contains [] sig h m = ground (arith, m)
plain_names-contains ((s, c) ∷ members) sig h m = elim (or-eq-true _ _ m) [
  | inl hit ↦
      let q = (pair_beq_iff (s, c) (sig, 0)).0 hit in
      let same : s ≡ sig = ap (λ (p : Member). p.0) q in
      let bare : indexed s ≡ none = ap indexed same ∙ h in
      let here : eqb s sig ≡ true = (list_beq_iff s sig).1 same in
      let zero_hits : c ≡ 0 = ap (λ (p : Member). p.1) q in
      rw (plain_names, bare) (ground (arith, here, zero_hits))
  | inr later ↦
      let rest = plain_names-contains members sig h later in
      elim (Option-cases (indexed s)) [
        | inl e ↦ rw (plain_names, e) (ground (arith, rest))
        | inr (p, e) ↦ rw (plain_names, e) rest
      ]
]

-- The indices of a group.
pub present_bits-contains :
    (members : List Member) (sig base : Text) (c n : ℕ)
    → indexed sig ≡ some (base, n)
    → contains members (sig, c) ≡ true
    → contains (present_bits members) n ≡ true
unfolding present_bits contains
present_bits-contains [] sig base c n h m = ground (arith, m)
present_bits-contains ((s, d) ∷ members) sig base c n h m = elim (or-eq-true _ _ m) [
  | inl hit ↦
      let q = (pair_beq_iff (s, d) (sig, c)).0 hit in
      let found : indexed s ≡ some (base, n) = ap indexed (ap (λ (p : Member). p.0) q) ∙ h in
      rw (present_bits, found) (ground (arith, eqb_refl n))
  | inr later ↦
      let rest = present_bits-contains members sig base c n h later in
      elim (Option-cases (indexed s)) [
        | inl e ↦ rw (present_bits, e) rest
        | inr (p, e) ↦ rw (present_bits, e) (ground (arith, rest))
      ]
]
