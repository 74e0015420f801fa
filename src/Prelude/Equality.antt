-- ===== src/Prelude/Equality.antt =====
-- Equality as an interface, and membership by it: Python's `==` and `in`.
use Prim.Native.Nat.{ℕ, suc, ◌≤◌, ◌<◌}
use mathlib.Core.Path.{◌≡◌, refl}
use mathlib.Core.Logic.{◌↔◌}
use mathlib.Core.Bool.{Bool, true, false, ◌&&◌, ◌||◌}
use mathlib.Core.List.{List, [], ◌∷◌, ◌++◌}
use native.Mathlib.Omega.{arith}
use arvern_ips.Prelude.Tests.{◌==◌, if◌then◌else◌}
use arvern_ips.Prelude.Lists.{keep_if}

pub record Eq {ℓ} (A : Type ℓ) : Type ℓ where
  pub beq : A → A → Bool
  pub beq_iff : (a b : A) → (beq a b ≡ true) ↔ (a ≡ b)

abbrev pub eqb {ℓ} : {A : Type ℓ} ⦃e : Eq A⦄ → A → A → Bool
eqb ⦃e⦄ = e.beq

pub nat_beq_iff : (a b : ℕ) → ((a == b) ≡ true) ↔ (a ≡ b)
nat_beq_iff a b = ground arith

instance abbrev pub nat_eq : Eq ℕ
nat_eq = record { beq = λ a b. a == b; beq_iff = nat_beq_iff }

module _ {ℓ} {A : Type ℓ} ⦃e : Eq A⦄ where
  unfoldable pub list_beq : List A → List A → Bool
  list_beq [] [] = true
  list_beq (x ∷ xs) (y ∷ ys) = eqb x y && list_beq xs ys
  list_beq _ _ = false

  pub list_beq_iff : (xs ys : List A) → (list_beq xs ys ≡ true) ↔ (xs ≡ ys)
  unfolding list_beq
  list_beq_iff (x ∷ xs) (y ∷ ys) = ground (arith, e.beq_iff x y, list_beq_iff xs ys)
  list_beq_iff _ _ = ground arith

instance abbrev pub list_eq {ℓ} : {A : Type ℓ} ⦃e : Eq A⦄ → Eq (List A)
list_eq = record { beq = list_beq; beq_iff = list_beq_iff }

module _ {ℓ κ} {A : Type ℓ} {B : Type κ} ⦃e : Eq A⦄ ⦃f : Eq B⦄ where
  abbrev pub pair_beq : A × B → A × B → Bool
  pair_beq (a, b) (c, d) = e.beq a c && f.beq b d

  pub pair_beq_iff : (p q : A × B) → (pair_beq p q ≡ true) ↔ (p ≡ q)
  pair_beq_iff (a, b) (c, d) = ground (arith, e.beq_iff a c, f.beq_iff b d)

instance abbrev pub pair_eq {ℓ κ} : {A : Type ℓ} {B : Type κ} ⦃e : Eq A⦄ ⦃f : Eq B⦄ → Eq (A × B)
pair_eq = record { beq = pair_beq; beq_iff = pair_beq_iff }

module _ {ℓ} {A : Type ℓ} ⦃e : Eq A⦄ where
  pub eqb_refl : (a : A) → eqb a a ≡ true
  eqb_refl a = (e.beq_iff a a).1 refl

  pub eqb_sym : (a b : A) → eqb a b ≡ eqb b a
  eqb_sym a b = ground (arith, e.beq_iff a b, e.beq_iff b a)

  -- `a in xs`
  unfoldable pub contains : List A → A → Bool
  contains [] a = false
  contains (x ∷ xs) a = eqb x a || contains xs a

  pub contains-append :
      (xs ys : List A) (a : A) → contains (xs ++ ys) a ≡ (contains xs a || contains ys a)
  unfolding contains
  contains-append [] ys a = refl
  contains-append (x ∷ xs) ys a = ground (arith, contains-append xs ys a)

  -- No item stands twice.
  abbrev pub IsDistinct : List A → Type 0
  IsDistinct [] = Unit
  IsDistinct (x ∷ xs) = (contains xs x ≡ false) × IsDistinct xs

  pub contains-keep_if :
      (p : A → Bool) (xs : List A) (a : A) → contains (keep_if p xs) a ≡ (p a && contains xs a)
  unfolding contains
  contains-keep_if p [] a = ground arith
  contains-keep_if p (x ∷ xs) a = ground (arith, contains-keep_if p xs a, e.beq_iff x a)

  -- The items of `xs` that `seen` lacks: what is left to visit.
  abbrev pub unseen : List A → List A → ℕ
  unseen [] seen = 0
  unseen (x ∷ xs) seen = if contains seen x then unseen xs seen else suc (unseen xs seen)

  pub unseen-cons-le : (xs seen : List A) (a : A) → unseen xs (a ∷ seen) ≤ unseen xs seen
  unfolding contains
  unseen-cons-le [] seen a = omega arith
  unseen-cons-le (x ∷ xs) seen a = ground (arith, unseen-cons-le xs seen a)

  pub unseen-cons-lt :
      (xs seen : List A) (a : A)
      → contains xs a ≡ true
      → contains seen a ≡ false
      → unseen xs (a ∷ seen) < unseen xs seen
  unfolding contains
  unseen-cons-lt [] seen a h k = ground arith
  unseen-cons-lt (x ∷ xs) seen a h k =
      ground
        (arith, unseen-cons-lt xs seen a, unseen-cons-le xs seen a, e.beq_iff x a, e.beq_iff a x)
