-- ===== src/Waivers/Load/Markdown/Heads.antt =====
-- How a fence begins: its first character that is no blank, and the test `looks_like_waivers`.
use arvern_ips.Prelude.{
  ℕ, ◌≡◌, refl, sym, ap, ◌∙◌, inl, inr, Bool, false, ◌||◌, Option, none, some, List, [], ◌∷◌, ◌++◌,
  arith, ◌==◌, if◌then◌else◌, Bool-cases, Option-cases, nat_eq, list_eq, pair_eq, Text, codes,
  some_injective, is_space, lstrip, rstrip, strip, starts_with,
}
use mathlib.Core.List.{reverse, reverse-append}
use arvern_ips.Waivers.Load.Markdown.{Block, head_line, looks_like_waivers}

-- The first character that is no blank, of a line and of several.
pub first_char : Text → Option ℕ
first_char [] = none
first_char (c ∷ s) = if is_space c then first_char s else some c

pub first_mark : List Text → Option ℕ
first_mark [] = none
first_mark (l ∷ buf) = elim (first_char l) [ none ↦ first_mark buf | some c ↦ some c ]

abbrev pub is_bracket : Option ℕ → Bool
is_bracket none = false
is_bracket (some c) = c == b'[' || c == b'{'

some-none : {A : Type 0} {c : ℕ} → some c ≡ none → A
some-none h = cc

-- Stripping on the left leaves nothing, or a text that begins with that character.
lstrip-none : (s : Text) → first_char s ≡ none → lstrip s ≡ []
unfolding first_char lstrip
lstrip-none [] h = refl
lstrip-none (c ∷ s) h = elim (Bool-cases (is_space c)) [
  | inl blank ↦ rw blank (lstrip-none s (rw blank at h))
  | inr mark ↦ some-none (rw mark at h)
]

lstrip-some :
    (s : Text) (c : ℕ)
    → first_char s ≡ some c
    → (t : Text) × (lstrip s ≡ c ∷ t) × (is_space c ≡ false)
unfolding first_char lstrip
lstrip-some [] c h = some-none (sym h)
lstrip-some (d ∷ s) c h = elim (Bool-cases (is_space d)) [
  | inl blank ↦ rw blank (lstrip-some s c (rw blank at h))
  | inr mark ↦
      let e : d ≡ c = some_injective (rw mark at h) in
      (s, rw mark (ap (λ x. x ∷ s) e), ap is_space (sym e) ∙ mark)
]

lstrip-concat :
    (xs : Text) (c : ℕ) → is_space c ≡ false → lstrip (xs ++ (c ∷ [])) ≡ lstrip xs ++ (c ∷ [])
unfolding lstrip
lstrip-concat [] c h = rw h
lstrip-concat (x ∷ xs) c h = elim (Bool-cases (is_space x)) [
  | inl blank ↦ rw blank (lstrip-concat xs c h)
  | inr mark ↦ rw mark
]

-- Stripping on the right keeps a first character that is no blank.
rstrip-cons : (c : ℕ) (t : Text) → is_space c ≡ false → (t' : Text) × (rstrip (c ∷ t) ≡ c ∷ t')
unfolding rstrip
rstrip-cons c t h = (
  reverse (lstrip (reverse t)),
  ap (λ x. reverse (lstrip x)) (reverse-append (c ∷ []) t)
      ∙ ap reverse (lstrip-concat (reverse t) c h)
      ∙ reverse-append (lstrip (reverse t)) (c ∷ []),
)

strip-none : (s : Text) → first_char s ≡ none → strip s ≡ []
unfolding strip
strip-none s h = ap rstrip (lstrip-none s h)

strip-some : (s : Text) (c : ℕ) → first_char s ≡ some c → (t : Text) × (strip s ≡ c ∷ t)
unfolding strip
strip-some s c h =
    let (t, e, mark) = lstrip-some s c h in
    let (t', e') = rstrip-cons c t mark in (t', ap rstrip e ∙ e')

abbrev is_opened : Text → Bool
is_opened s = starts_with s (codes "[") || starts_with s (codes "{")

is_opened-head_line : (buf : List Text) → is_opened (head_line buf) ≡ is_bracket (first_mark buf)
unfolding head_line first_mark starts_with
is_opened-head_line [] = refl
is_opened-head_line (l ∷ buf) = elim (Option-cases (first_char l)) [
  | inl e ↦ rw (head_line, strip-none l e, first_mark, e) (is_opened-head_line buf)
  | inr (c, e) ↦ let (t, e') = strip-some l c e in rw (head_line, e', first_mark, e) (ground arith)
]

-- The test of the loader goes by the first character that is no blank.
pub looks_like_waivers-first_mark :
    (b : Block) → looks_like_waivers b ≡ is_bracket (first_mark b.buf)
unfolding looks_like_waivers
looks_like_waivers-first_mark b = is_opened-head_line b.buf
