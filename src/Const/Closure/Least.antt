-- ===== src/Const/Closure/Least.antt =====
-- The loop ends with the least set that holds the given constants and is closed under connections.
use arvern_ips.Prelude.{
  ℕ, zero, suc, ◌≤◌, ◌<◌, ◌≡◌, refl, ap, ◌↔◌, inl, inr, Bool, true, false, not, ◌&&◌, ◌||◌, some,
  List, [], ◌∷◌, map, arith, Bool-cases, and-eq-true, length, all, Eq, eqb, nat_eq, list_eq,
  pair_beq_iff, pair_eq, eqb_refl, contains, unseen, unseen-cons-lt,
}
use mathlib.Core.Path.{subst}
use arvern_ips.Const.Closure.{Bit, round, close}

-- The bit is a given constant, or is driven by a constant bit.
pub data IsConstant (alias : List (Bit × Bit)) (given : List Bit) : Bit → Type 0 where
  tied : (b : Bit) → contains given b ≡ true → IsConstant alias given b
  driven :
      (lb rb : Bit)
      → contains alias (lb, rb) ≡ true
      → IsConstant alias given rb
      → IsConstant alias given lb

abbrev Rules : (Bit → Type 0) → List (Bit × Bit) → Type 0
Rules P [] = Unit
Rules P ((lb, rb) ∷ alias) = (P rb → P lb) × Rules P alias

round_sound :
    (P : Bit → Type 0) (alias : List (Bit × Bit)) (const : List Bit)
    → Rules P alias
    → ((b : Bit) → contains const b ≡ true → P b)
    → (b : Bit) → contains (round alias const).0 b ≡ true
    → P b
unfolding round contains
round_sound P [] const rules h b m = h b m
round_sound P ((lb, rb) ∷ alias) const rules h b m =
    elim (Bool-cases (contains const rb && not (contains const lb))) [
      | inl add ↦
          let both = (and-eq-true _ _).0 add in
          let lb_holds : P lb = rules.0 (h rb both.0) in
          round_sound P alias (lb ∷ const) rules.1
            (λ c m'. elim (Bool-cases (eqb lb c)) [
              | inl same ↦ subst P ((pair_beq_iff lb c).0 same) lb_holds
              | inr other ↦ h c (ground (arith, other, m'))
            ])
            b (ground (arith, add, m))
      | inr keep ↦ round_sound P alias const rules.1 h b (ground (arith, keep, m))
    ]

round-grows :
    (alias : List (Bit × Bit)) (const : List Bit) (b : Bit)
    → contains const b ≡ true
    → contains (round alias const).0 b ≡ true
unfolding round contains
round-grows [] const b h = h
round-grows ((lb, rb) ∷ alias) const b h =
    ground (arith, h, round-grows alias const b, round-grows alias (lb ∷ const) b)

-- Every connection carries a constant on.
abbrev closed_under : List (Bit × Bit) → List Bit → Bool
closed_under alias const = all (λ p. not (contains const p.1) || contains const p.0) alias

round-unchanged :
    (alias : List (Bit × Bit)) (const : List Bit)
    → (round alias const).1 ≡ false
    → ((round alias const).0 ≡ const) × (closed_under alias const ≡ true)
unfolding round
round-unchanged [] const h = (refl, refl)
round-unchanged ((lb, rb) ∷ alias) const h = ground (arith, h, round-unchanged alias const)

abbrev lefts : List (Bit × Bit) → List Bit
lefts = map (λ p. p.0)

round-unseen :
    (wires : List Bit) (alias : List (Bit × Bit)) (const : List Bit)
    → all (contains wires) (lefts alias) ≡ true
    → (unseen wires (round alias const).0 ≤ unseen wires const)
      × ((round alias const).1 ≡ true → unseen wires (round alias const).0 < unseen wires const)
unfolding round
round-unseen wires [] const h = (omega arith, λ k. ground (arith, k))
round-unseen wires ((lb, rb) ∷ alias) const h =
    elim (Bool-cases (contains const rb && not (contains const lb))) [
      | inl add ↦
          let later = round-unseen wires alias (lb ∷ const) (ground (arith, h)) in
          let fewer = unseen-cons-lt wires const lb (ground (arith, h)) (ground (arith, add)) in
          rw add (omega (arith, later.0), λ k. omega (arith, later.0))
      | inr keep ↦ rw keep (round-unseen wires alias const (ground (arith, h)))
    ]

module _ {ℓ} {A : Type ℓ} ⦃e : Eq A⦄ where
  all-contains :
      (p : A → Bool) (xs : List A) (a : A) → all p xs ≡ true → contains xs a ≡ true → p a ≡ true
  unfolding contains
  all-contains p [] a h m = ground (arith, m)
  all-contains p (x ∷ xs) a h m = ground (arith, h, m, all-contains p xs a, e.beq_iff x a)

  all_inside :
      (full xs : List A)
      → ((a : A) → contains xs a ≡ true → contains full a ≡ true)
      → all (contains full) xs ≡ true
  unfolding contains
  all_inside full [] h = refl
  all_inside full (x ∷ xs) h =
      let rest = all_inside full xs (λ a m. h a (ground (arith, m))) in
      let here = h x (ground (arith, eqb_refl x)) in ground (arith, rest, here)

contains-lefts :
    (alias : List (Bit × Bit)) (lb rb : Bit)
    → contains alias (lb, rb) ≡ true
    → contains (lefts alias) lb ≡ true
unfolding contains
contains-lefts [] lb rb h = ground (arith, h)
contains-lefts ((l, r) ∷ alias) lb rb h = ground (arith, h, contains-lefts alias lb rb)

unseen-le-length {ℓ} : {A : Type ℓ} ⦃e : Eq A⦄ (xs seen : List A) → unseen xs seen ≤ length xs
unseen-le-length [] seen = omega arith
unseen-le-length (x ∷ xs) seen = ground (arith, unseen-le-length xs seen)

length-lefts : (alias : List (Bit × Bit)) → length (lefts alias) ≡ length alias
length-lefts [] = refl
length-lefts (p ∷ alias) = ap suc (length-lefts alias)

module _ (alias : List (Bit × Bit)) (given : List Bit) where
  Rules-IsConstant :
      (part : List (Bit × Bit))
      → all (contains alias) part ≡ true
      → Rules (IsConstant alias given) part
  Rules-IsConstant [] h = tt
  Rules-IsConstant ((lb, rb) ∷ part) h =
      (driven lb rb ((and-eq-true _ _).0 h).0, Rules-IsConstant part ((and-eq-true _ _).0 h).1)

  closed_complete :
      (const : List Bit)
      → ((b : Bit) → contains given b ≡ true → contains const b ≡ true)
      → closed_under alias const ≡ true
      → {b : Bit} → IsConstant alias given b
      → contains const b ≡ true
  closed_complete const grown closed (tied b m) = grown b m
  closed_complete const grown closed (driven lb rb m source) =
      let carried =
        all-contains (λ p. not (contains const p.1) || contains const p.0) alias (lb, rb) closed
          m in
      let before = closed_complete const grown closed source in ground (arith, carried, before)

  -- The loop ended with the least set.
  abbrev pub IsLeast : List Bit → Type 0
  IsLeast c = (b : Bit) → (contains c b ≡ true) ↔ IsConstant alias given b

  close-Least :
      (fuel : ℕ) (const : List Bit)
      → unseen (lefts alias) const < fuel
      → ((b : Bit) → contains const b ≡ true → IsConstant alias given b)
      → ((b : Bit) → contains given b ≡ true → contains const b ≡ true)
      → (c : List Bit) × (close fuel alias const ≡ some c) × IsLeast c
  unfolding close
  close-Least zero const m sound grown = absurd (omega arith)
  close-Least (suc fuel) const m sound grown =
      let next = (round alias const).0 in
      let inside = all_inside (lefts alias) (lefts alias) (λ a h. h) in
      let falls = round-unseen (lefts alias) alias const inside in
      let rules = Rules-IsConstant alias (all_inside alias alias (λ a h. h)) in
      elim (Bool-cases (round alias const).1) [
        | inl changed ↦
            let fewer : unseen (lefts alias) next < unseen (lefts alias) const = falls.1 changed in
            rw changed (
              close-Least fuel next (omega arith)
                (round_sound (IsConstant alias given) alias const rules sound)
                (λ b h. round-grows alias const b (grown b h)))
        | inr still ↦
            let same = round-unchanged alias const still in
            rw (still, same.0) (const, refl, λ b. (sound b, closed_complete const grown same.1))
      ]

-- With more fuel than there are connections the loop ends, and what it ends with holds a bit exactly
-- when the bit is a given constant or a chain of connections leads to it from one: connections in any
-- order, cycles included.
pub close-IsLeast :
    (alias : List (Bit × Bit)) (given : List Bit) (fuel : ℕ)
    → length alias < fuel
    → (c : List Bit) × (close fuel alias given ≡ some c) × IsLeast alias given c
close-IsLeast alias given fuel h =
    close-Least alias given fuel given
      (omega (arith, unseen-le-length (lefts alias) given, length-lefts alias)) (λ b m. tied b m)
      (λ b m. m)
