-- ===== src/Const/Bits/Common.antt =====
-- A bit is kept exactly when it is constant wherever it exists.
use arvern_ips.Prelude.{
  ℕ, zero, suc, ◌+◌, ◌-◌, ◌≡◌, refl, sym, ap, ◌∙◌, some_injective, Bool, true, false, not, ◌&&◌,
  ◌||◌, some, List, [], ◌∷◌, arith, ltb, leb, keep_if, any, all, nat_eq, list_eq, pair_eq, contains,
  contains-append, contains-keep_if,
}
use arvern_ips.Const.Bits.{BitSet, range, in_span, every, widened, intersect}

and_comm : (a b : Bool) → (a && b) ≡ (b && a)
and_comm true b = ground arith
and_comm false b = ground arith

contains-range : (lo n i : ℕ) → contains (range lo n) i ≡ (leb lo i && ltb i (lo + n))
unfolding range contains
contains-range lo zero i = ground arith
contains-range lo (suc n) i = ground (arith, contains-range (suc lo) n i)

contains-every :
    (sets : List BitSet) (i : ℕ) → contains (every sets) i ≡ any (λ b. in_span b i) sets
unfolding every
contains-every [] i = unfold contains in refl
contains-every (b ∷ sets) i =
    let first : contains (range b.lo (b.hi - b.lo)) i ≡ in_span b i =
      unfold in_span in contains-range b.lo (b.hi - b.lo) i ∙ ground arith in
    contains-append (range b.lo (b.hi - b.lo)) (every sets) i
    ∙ rw (first, contains-every sets i) refl

-- The bit is constant in the set, or the set does not have it and another one has.
abbrev pub is_constant_in : List BitSet → ℕ → BitSet → Bool
is_constant_in sets i b = contains b.bits i || (not (in_span b i) && any (λ t. in_span t i) sets)

contains-widened :
    (sets : List BitSet) (i : ℕ) (b : BitSet)
    → contains (widened (every sets) b) i ≡ is_constant_in sets i b
unfolding widened
contains-widened sets i b =
    contains-append b.bits (keep_if (λ j. not (in_span b j)) (every sets)) i
    ∙ rw (contains-keep_if (λ j. not (in_span b j)) (every sets) i, contains-every sets i) refl

all-pointwise {ℓ} :
    {A : Type ℓ} (p q : A → Bool) (xs : List A) → ((x : A) → p x ≡ q x) → all p xs ≡ all q xs
all-pointwise p q [] h = refl
all-pointwise p q (x ∷ xs) h = rw (h x, all-pointwise p q xs h) refl

-- A bit is in the intersection exactly when every set has it among its constants, but for the sets
-- whose wire is too narrow for it, while some wire has it.
pub intersect-contains :
    (sets : List BitSet) (r : BitSet) (i : ℕ)
    → intersect sets ≡ some r
    → contains r.bits i ≡ all (is_constant_in sets i) sets
unfolding intersect
intersect-contains [] r i h = ground (arith, h)
intersect-contains (b ∷ sets) r i h =
    let all_bits = every (b ∷ sets) in
    let kept =
      contains-keep_if (λ j. all (λ t. contains (widened all_bits t) j) sets) (widened all_bits b)
        i in
    let rest =
      all-pointwise (λ t. contains (widened all_bits t) i) (is_constant_in (b ∷ sets) i) sets
        (contains-widened (b ∷ sets) i) in
    let first = contains-widened (b ∷ sets) i b in
    let same = ap (λ (t : BitSet). contains t.bits i) (sym (some_injective h)) in
    same
    ∙ kept
    ∙ rw (rest, first)
        (and_comm (all (is_constant_in (b ∷ sets) i) sets) (is_constant_in (b ∷ sets) i b))
