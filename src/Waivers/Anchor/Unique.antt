-- ===== src/Waivers/Anchor/Unique.antt =====
-- An anchor finds its own line and no other.
use arvern_ips.Prelude.{
  ℕ, zero, suc, ◌+◌, ◌-◌, ◌≤◌, ◌≡◌, refl, sym, ap, ◌∙◌, inl, inr, Bool, true, false, none, some,
  List, [], ◌∷◌, ◌++◌, append_assoc, arith, ◌==◌, ==_iff, Bool-cases, Option-cases, some_injective,
  length, get_elem?, get_or, take, drop, keep_if, is_nil, nat_eq, list_eq, pair_eq, Text, codes,
  strip, starts_with, has_part, before,
}
use mathlib.Core.Path.{subst}
use arvern_ips.Prelude.Parts.{
  has_part-shorter, has_part-around, before-rest, strip-around, take-add, take-drop,
}
use arvern_ips.Waivers.Anchor.{
  word_length, occurrences, anchor_loop, shortest, line_anchor, src_anchor,
}
use arvern_ips.Waivers.Match.{at_text, src_line, locates}

module _ {ℓ} {A : Type ℓ} (p : A → Bool) where
  length-keep_if-zero :
      (xs : List A) (i : ℕ) (d : A)
      → length (keep_if p xs) ≡ 0
      → p d ≡ false
      → p (get_or xs i d) ≡ false
  length-keep_if-zero [] i d h k = k
  length-keep_if-zero (x ∷ xs) zero d h k = ground (arith, h)
  length-keep_if-zero (x ∷ xs) (suc i) d h k = ground (arith, h, length-keep_if-zero xs i d, k)

  length-keep_if-pos :
      (xs : List A) (n : ℕ) (x : A)
      → get_elem? xs n ≡ some x
      → p x ≡ true
      → 1 ≤ length (keep_if p xs)
  length-keep_if-pos [] n x h k = ground (arith, h)
  length-keep_if-pos (y ∷ xs) zero x h k = ground (arith, h, k)
  length-keep_if-pos (y ∷ xs) (suc n) x h k = ground (arith, h, length-keep_if-pos xs n x, k)

  -- An item that is the only one to pass a test stands at one index.
  only_index :
      (xs : List A) (n i : ℕ) (x d : A)
      → get_elem? xs n ≡ some x
      → p x ≡ true
      → p d ≡ false
      → length (keep_if p xs) ≤ 1
      → p (get_or xs i d) ≡ (i == n)
  only_index [] n i x d h k f m = ground (arith, h)
  only_index (y ∷ xs) zero zero x d h k f m = ground (arith, h, k)
  only_index (y ∷ xs) zero (suc i) x d h k f m =
      ground (arith, h, k, f, m, length-keep_if-zero xs i d)
  only_index (y ∷ xs) (suc n) zero x d h k f m = ground (arith, h, k, m, length-keep_if-pos xs n x)
  only_index (y ∷ xs) (suc n) (suc i) x d h k f m =
      ground (arith, h, k, f, m, only_index xs n i x d)

occurrences-shorter : (src : List Text) (a b : Text) → occurrences src (a ++ b) ≤ occurrences src a
unfolding occurrences
occurrences-shorter [] a b = omega arith
occurrences-shorter (l ∷ src) a b =
    ground (arith, has_part-shorter l a b, occurrences-shorter src a b)

-- What an anchor is: it stands in the line, in no more than one, and it is not empty.
abbrev IsAnchor : List Text → Text → Text → Type 0
IsAnchor src raw t = (has_part raw t ≡ true) × ((occurrences src t ≤ 1) × (is_nil t ≡ false))

is_nil-take : (n : ℕ) (s : Text) → 1 ≤ n → is_nil (take n s) ≡ is_nil s
is_nil-take zero s h = absurd (omega (arith, h))
is_nil-take (suc n) [] h = refl
is_nil-take (suc n) (c ∷ s) h = refl

module _ (src : List Text) (raw txt : Text) (inside : has_part raw txt ≡ true)
    (filled : is_nil txt ≡ false) where
  take-inside : (n : ℕ) → has_part raw (take n txt) ≡ true
  take-inside n =
      has_part-shorter raw (take n txt) (drop n txt) (ap (has_part raw) (take-drop n txt) ∙ inside)

  take-IsAnchor :
      (n k : ℕ)
      → 1 ≤ n
      → (occurrences src (take n txt) == 1) ≡ true
      → IsAnchor src raw (take (n + k) txt)
  take-IsAnchor n k h once =
      let fewer = occurrences-shorter src (take n txt) (take k (drop n txt)) in
      let one = (==_iff (occurrences src (take n txt)) 1).0 once in
      (
        take-inside (n + k),
        (
          rw (take-add n k txt) (omega (arith, fewer, one)),
          is_nil-take (n + k) txt (omega (arith, h)) ∙ filled,
        ),
      )

  anchor_loop-IsAnchor :
      (rounds n : ℕ) (t : Text) → 1 ≤ n → anchor_loop src txt rounds n ≡ some t → IsAnchor src raw t
  unfolding anchor_loop
  anchor_loop-IsAnchor zero n t h e = elim (Bool-cases (occurrences src txt == 1)) [
    | inl once ↦
        let step : anchor_loop src txt zero n ≡ some txt = rw (anchor_loop, once) refl in
        subst (IsAnchor src raw) (some_injective (sym step ∙ e))
          (inside, (omega (arith, (==_iff (occurrences src txt) 1).0 once), filled))
    | inr other ↦ ground (arith, e, other)
  ]
  anchor_loop-IsAnchor (suc rounds) n t h e =
      elim (Bool-cases (occurrences src (take n txt) == 1)) [
        | inl once ↦
            let anchor = take (n + word_length (drop n txt)) txt in
            let step : anchor_loop src txt (suc rounds) n ≡ some anchor =
              rw (anchor_loop, once) refl in
            subst (IsAnchor src raw) (some_injective (sym step ∙ e))
              (take-IsAnchor n (word_length (drop n txt)) h once)
        | inr other ↦
            let step : anchor_loop src txt (suc rounds) n ≡ anchor_loop src txt rounds (suc n) =
              rw (anchor_loop, other) refl in
            anchor_loop-IsAnchor rounds (suc n) t (omega (arith, h)) (sym step ∙ e)
      ]

shortest-pos : (want txt : Text) → 1 ≤ shortest want txt
unfolding shortest
shortest-pos want txt = ground arith

line_anchor-IsAnchor :
    (src : List Text) (want raw t : Text) → line_anchor src want raw ≡ some t → IsAnchor src raw t
unfolding line_anchor
line_anchor-IsAnchor src want raw t e =
    let txt = strip (before (codes "//") raw) in
    let (rest, cut) = before-rest (codes "//") raw in
    let (a, b, around) = strip-around (before (codes "//") raw) in
    let whole : raw ≡ a ++ (txt ++ (b ++ rest)) =
      cut
      ∙ ap (λ s. s ++ rest) around
      ∙ (append_assoc a (txt ++ b) rest ∙ ap (λ s. a ++ s) (append_assoc txt b rest)) in
    let inside : has_part raw txt ≡ true =
      ap (λ s. has_part s txt) whole ∙ has_part-around a txt (b ++ rest) in
    elim (Bool-cases (is_nil txt)) [
      | inl empty ↦
          let step : line_anchor src want raw ≡ none = rw (line_anchor, empty) refl in
          ground (arith, sym step ∙ e)
      | inr filled ↦
          let lo = shortest want txt in
          let step : line_anchor src want raw ≡ anchor_loop src txt (suc (length txt) - lo) lo =
            rw (line_anchor, filled) refl in
          anchor_loop-IsAnchor src raw txt inside filled (suc (length txt) - lo) lo t
            (shortest-pos want txt) (sym step ∙ e)
    ]

has_part-nil : (t : Text) → is_nil t ≡ false → has_part [] t ≡ false
unfolding has_part starts_with
has_part-nil [] h = ground (arith, h)
has_part-nil (c ∷ t) h = refl

IsAnchor-locates :
    (source : Text → List Text) (search : Text → Text → Bool) (path raw t : Text) (i n : ℕ)
    → get_elem? (source path) i ≡ some raw
    → IsAnchor (source path) raw t
    → locates source search (at_text t) path n ≡ (n == suc i)
unfolding locates src_line occurrences
IsAnchor-locates source search path raw t i zero found (inside, (fewer, filled)) =
    has_part-nil t filled ∙ ground arith
IsAnchor-locates source search path raw t i (suc j) found (inside, (fewer, filled)) =
    only_index (λ l. has_part l t) (source path) i j raw [] found inside (has_part-nil t filled)
      fewer
    ∙ ground arith

-- Where the text of a line is an anchor for it, a waiver that carries the anchor as its literal
-- locator finds that line of the file and no other.
pub src_anchor-locates :
    (source : Text → List Text) (search : Text → Text → Bool) (path want t : Text) (line n : ℕ)
    → src_anchor (source path) line want ≡ some t
    → locates source search (at_text t) path n ≡ (n == line)
unfolding src_anchor
src_anchor-locates source search path want t zero n e = ground (arith, e)
src_anchor-locates source search path want t (suc i) n e =
    elim (Option-cases (get_elem? (source path) i)) [
      | inl gone ↦
          let step : src_anchor (source path) (suc i) want ≡ none = rw (src_anchor, gone) refl in
          ground (arith, sym step ∙ e)
      | inr (raw, found) ↦
          let step : src_anchor (source path) (suc i) want ≡ line_anchor (source path) want raw =
            rw (src_anchor, found) refl in
          IsAnchor-locates source search path raw t i n found
            (line_anchor-IsAnchor (source path) want raw t (sym step ∙ e))
    ]

pub src_anchor-filled :
    (src : List Text) (want t : Text) (line : ℕ)
    → src_anchor src line want ≡ some t
    → is_nil t ≡ false
unfolding src_anchor locates src_line has_part starts_with
src_anchor-filled src want [] zero e = ground (arith, e)
src_anchor-filled src want [] (suc i) e =
    ground (arith, src_anchor-locates (λ p. src) (λ r l. false) [] want [] (suc i) 0 e)
src_anchor-filled src want (c ∷ t) line e = refl
