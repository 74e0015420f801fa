-- ===== src/Prelude/Decimal.antt =====
-- Decimal numerals: `str(n)` and `int(s)` on digits.
use Prim.Native.Nat.{ℕ, zero, suc, ◌+◌, ◌-◌, ◌*◌, ◌/◌, ◌%◌, ◌<◌}
use mathlib.Core.Path.{◌≡◌, refl, sym, ap, ◌∙◌}
use mathlib.Core.Logic.{inl, inr}
use mathlib.Core.Bool.{Bool, true, false, ◌&&◌}
use mathlib.Core.List.{[], ◌∷◌}
use native.Mathlib.Omega.{arith}
use arvern_ips.Prelude.Tests.{ltb, leb, if◌then◌else◌, Bool-cases}
use arvern_ips.Prelude.Lists.{all}
use arvern_ips.Prelude.Strings.{Text}

unfoldable pub is_digit : ℕ → Bool
is_digit c = leb b'0' c && leb c b'9'

-- `str.isdigit` on ASCII text.
unfoldable pub is_number : Text → Bool
unfolding is_digit
is_number [] = false
is_number (c ∷ s) = is_digit c && all is_digit s

-- `int(s)` of a run of digits, most significant first.
unfoldable pub int_from : ℕ → Text → ℕ
int_from acc [] = acc
int_from acc (c ∷ s) = int_from (acc * 10 + (c - b'0')) s

unfoldable pub int : Text → ℕ
unfolding int_from
int = int_from 0

-- `str(n)`: the digits in front of `rest`. A number below `fuel` has fewer digits than that.
show_onto : ℕ → ℕ → Text → Text
show_onto zero n rest = rest
show_onto (suc fuel) n rest =
    let more = show_onto fuel (n / 10) ((b'0' + n % 10) ∷ rest) in
    if ltb n 10 then (b'0' + n) ∷ rest else more

unfoldable pub show : ℕ → Text
unfolding show_onto
show n = show_onto (suc n) n []

int_from-show_onto :
    (fuel n : ℕ) (rest : Text) → n < fuel → int_from 0 (show_onto fuel n rest) ≡ int_from n rest
unfolding int_from show_onto
int_from-show_onto zero n rest h = elim h [ ]
int_from-show_onto (suc fuel) n rest h = elim (Bool-cases (ltb n 10)) [
  | inl small ↦ rw small (ap (λ k. int_from k rest) (omega arith))
  | inr large ↦
      let e : n / 10 * 10 + (b'0' + n % 10 - b'0') ≡ n = omega arith in
      rw large (int_from-show_onto fuel (n / 10) _ (ground arith) ∙ ap (λ k. int_from k rest) e)
]

-- `int(str(n))` is `n`.
pub int-show : (n : ℕ) → int (show n) ≡ n
unfolding int show int_from
int-show n = int_from-show_onto (suc n) n [] (omega arith)

pub show_injective : (m n : ℕ) → show m ≡ show n → m ≡ n
show_injective m n e = sym (int-show m) ∙ ap int e ∙ int-show n

show_onto-digits :
    (fuel n : ℕ) (rest : Text)
    → n < fuel
    → all is_digit rest ≡ true
    → is_number (show_onto fuel n rest) ≡ true
unfolding show_onto is_number is_digit
show_onto-digits zero n rest h k = elim h [ ]
show_onto-digits (suc fuel) n rest h k =
    ground (arith, show_onto-digits fuel (n / 10) ((b'0' + n % 10) ∷ rest))

-- `str(n)` is made of digits, and is not empty.
pub is_number-show : (n : ℕ) → is_number (show n) ≡ true
unfolding show
is_number-show n = show_onto-digits (suc n) n [] (omega arith) refl
