-- ===== src/Prelude/Parts.antt =====
-- Laws of `in`, `startswith` and `strip`: where a part of a text stands.
use Prim.Native.Nat.{ℕ, zero, suc, ◌+◌}
use mathlib.Core.Path.{◌≡◌, refl, sym, ap, ◌∙◌}
use mathlib.Core.Bool.{true, false}
use mathlib.Core.List.{[], ◌∷◌, ◌++◌, reverse, reverse-append, reverse-reverse}
use native.Mathlib.Omega.{arith}
use arvern_ips.Prelude.Tests.{if◌then◌else◌}
use arvern_ips.Prelude.Lists.{take, drop}
use arvern_ips.Prelude.Equality.{nat_eq, contains}
use arvern_ips.Prelude.Strings.{
  Text, is_space, lstrip, rstrip, strip, starts_with, starts_with-append, has_part, before,
}

pub starts_with-shorter : (s a b : Text) → starts_with s (a ++ b) ≡ true → starts_with s a ≡ true
unfolding starts_with
starts_with-shorter s [] b h = refl
starts_with-shorter [] (c ∷ a) b h = ground (arith, h)
starts_with-shorter (d ∷ s) (c ∷ a) b h = ground (arith, h, starts_with-shorter s a b)

pub has_part-shorter : (s a b : Text) → has_part s (a ++ b) ≡ true → has_part s a ≡ true
unfolding has_part
has_part-shorter [] a b h = starts_with-shorter [] a b h
has_part-shorter (c ∷ s) a b h =
    ground (arith, h, starts_with-shorter (c ∷ s) a b, has_part-shorter s a b)

pub starts_with-longer : (s t p : Text) → starts_with s p ≡ true → starts_with (s ++ t) p ≡ true
unfolding starts_with
starts_with-longer s t [] h = refl
starts_with-longer [] t (c ∷ p) h = ground (arith, h)
starts_with-longer (d ∷ s) t (c ∷ p) h = ground (arith, h, starts_with-longer s t p)

pub has_part-start : (s p : Text) → starts_with s p ≡ true → has_part s p ≡ true
unfolding has_part
has_part-start [] p h = h
has_part-start (c ∷ s) p h = ground (arith, h)

pub has_part-behind : (a s p : Text) → has_part s p ≡ true → has_part (a ++ s) p ≡ true
unfolding has_part
has_part-behind [] s p h = h
has_part-behind (c ∷ a) s p h = ground (arith, has_part-behind a s p h)

-- A text occurs in what is written around it.
pub has_part-around : (a p b : Text) → has_part (a ++ (p ++ b)) p ≡ true
has_part-around a p b =
    has_part-behind a (p ++ b) p (has_part-start (p ++ b) p (starts_with-append p b))

pub before-rest : (mark s : Text) → (rest : Text) × (s ≡ before mark s ++ rest)
unfolding before
before-rest mark [] = ([], refl)
before-rest mark (c ∷ s) =
    let (rest, e) = before-rest mark s in
    elim (starts_with (c ∷ s) mark)
      as (λ b. (r : Text) × (c ∷ s ≡ (if b then [] else c ∷ before mark s) ++ r)) [
        | true ↦ (c ∷ s, refl)
        | false ↦ (rest, ap (λ t. c ∷ t) e)
      ]

pub lstrip-rest : (s : Text) → (pre : Text) × (s ≡ pre ++ lstrip s)
unfolding lstrip
lstrip-rest [] = ([], refl)
lstrip-rest (c ∷ s) =
    let (pre, e) = lstrip-rest s in
    elim (is_space c) as (λ b. (p : Text) × (c ∷ s ≡ p ++ (if b then lstrip s else c ∷ s))) [
      | true ↦ (c ∷ pre, ap (λ t. c ∷ t) e)
      | false ↦ ([], refl)
    ]

rstrip-rest : (s : Text) → (post : Text) × (s ≡ rstrip s ++ post)
unfolding rstrip
rstrip-rest s =
    let (pre, e) = lstrip-rest (reverse s) in
    (reverse pre, sym (reverse-reverse s) ∙ ap reverse e ∙ reverse-append pre (lstrip (reverse s)))

-- Stripping takes a text out of the middle.
pub strip-around : (s : Text) → (a : Text) × (b : Text) × (s ≡ a ++ (strip s ++ b))
unfolding strip
strip-around s =
    let (pre, e) = lstrip-rest s in
    let (post, f) = rstrip-rest (lstrip s) in (pre, post, e ∙ ap (λ t. pre ++ t) f)

take-nil : (n : ℕ) → take {A = ℕ} n [] ≡ []
take-nil zero = refl
take-nil (suc n) = refl

pub take-add : (n k : ℕ) (s : Text) → take (n + k) s ≡ take n s ++ take k (drop n s)
take-add zero k s = ground arith
take-add (suc n) k [] = take-nil (suc n + k) ∙ sym (take-nil k)
take-add (suc n) k (c ∷ s) =
    let e : suc n + k ≡ suc (n + k) = omega arith in rw e (ap (λ t. c ∷ t) (take-add n k s))

-- A text that lacks a character cannot reach across it.
pub starts_with-across :
    (s r p : Text) (n : ℕ)
    → contains p n ≡ false
    → starts_with (s ++ (n ∷ r)) p ≡ true
    → starts_with s p ≡ true
unfolding starts_with contains
starts_with-across s r [] n h k = refl
starts_with-across [] r (c ∷ p) n h k = ground (arith, h, k)
starts_with-across (d ∷ s) r (c ∷ p) n h k = ground (arith, h, k, starts_with-across s r p n)

pub take-drop : (n : ℕ) (s : Text) → take n s ++ drop n s ≡ s
take-drop zero s = refl
take-drop (suc n) [] = refl
take-drop (suc n) (c ∷ s) = ap (λ t. c ∷ t) (take-drop n s)
