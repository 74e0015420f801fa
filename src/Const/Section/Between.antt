-- ===== src/Const/Section/Between.antt =====
-- Replacing what stands between two markers, and replacement texts without a backslash.
use arvern_ips.Prelude.{
  ℕ, suc, ◌+◌, ◌-◌, ◌≡◌, refl, sym, ap, ◌∙◌, inl, inr, true, false, ◌&&◌, some, [], ◌∷◌, ◌++◌,
  append_assoc, arith, ◌==◌, if◌then◌else◌, Bool-cases, length, is_nil, length-append, List-cases,
  drop-append, nat_eq, list_eq, pair_eq, contains, Text, starts_with, starts_with-append, has_part,
}
use arvern_ips.Prelude.Parts.{starts_with-longer, starts_with-across}
use arvern_ips.Const.Section.{newline, rstrip_newlines, find, match_rest, replace_between, expand}

has_part-nil : (t : Text) → has_part t [] ≡ true
unfolding has_part starts_with
has_part-nil [] = refl
has_part-nil (c ∷ t) = refl

pub has_part-front : (s t p : Text) → has_part s p ≡ true → has_part (s ++ t) p ≡ true
unfolding has_part starts_with
has_part-front [] t [] h = has_part-nil t
has_part-front [] t (c ∷ p) h = ground (arith, h)
has_part-front (c ∷ s) t p h =
    ground (arith, h, starts_with-longer (c ∷ s) t p, has_part-front s t p)

pub rstrip_newlines-rest : (s : Text) → (rest : Text) × (s ≡ rstrip_newlines s ++ rest)
unfolding rstrip_newlines
rstrip_newlines-rest [] = ([], refl)
rstrip_newlines-rest (c ∷ s) =
    let (rest, e) = rstrip_newlines-rest s in
    elim (is_nil (rstrip_newlines s) && c == newline)
      as (λ b. (r : Text) × (c ∷ s ≡ (if b then [] else c ∷ rstrip_newlines s) ++ r)) [
        | true ↦ (c ∷ s, refl)
        | false ↦ (rest, ap (λ t. c ∷ t) e)
      ]

find-step :
    (mark : Text) (c n : ℕ) (s : Text)
    → starts_with (c ∷ s) mark ≡ false
    → find mark s ≡ some n
    → find mark (c ∷ s) ≡ some (suc n)
unfolding find
find-step mark c n s h e = rw (find, h, e) refl

find-here : (mark rest : Text) → is_nil mark ≡ false → find mark (mark ++ rest) ≡ some 0
unfolding find
find-here [] rest h = ground (arith, h)
find-here (m ∷ mark) rest h = rw (find, starts_with-append (m ∷ mark) rest) refl

module _ (mark : Text) (filled : is_nil mark ≡ false) (whole : contains mark newline ≡ false) where
  not_across :
      (s rest : Text)
      → starts_with s mark ≡ false
      → starts_with (s ++ (newline ∷ rest)) mark ≡ false
  not_across s rest h = elim (Bool-cases (starts_with (s ++ (newline ∷ rest)) mark)) [
    | inl yes_it ↦ ground (arith, h, starts_with-across s rest mark newline whole yes_it)
    | inr no_it ↦ no_it
  ]

  starts_with-nil : starts_with [] mark ≡ false
  unfolding starts_with
  starts_with-nil = elim (List-cases mark) [
    | inl e ↦ ground (arith, filled, e)
    | inr (m, rest, e) ↦ rw e refl
  ]

  -- The first occurrence behind a text that holds none and a line break.
  find-behind :
      (s rest : Text)
      → has_part s mark ≡ false
      → find mark (s ++ (newline ∷ (mark ++ rest))) ≡ some (length s + 1)
  unfolding has_part
  find-behind [] rest h =
      find-step mark newline 0 (mark ++ rest) (not_across [] (mark ++ rest) starts_with-nil)
        (find-here mark rest filled)
  find-behind (c ∷ s) rest h =
      let more : suc (length s + 1) ≡ suc (length s) + 1 = omega arith in
      find-step mark c (length s + 1) (s ++ (newline ∷ (mark ++ rest)))
        (not_across (c ∷ s) (mark ++ rest) (ground (arith, h)))
        (find-behind s rest (ground (arith, h)))
      ∙ ap some more

replace_between-skip :
    (first last by s t : Text)
    → replace_between first last by (length s) (s ++ t) ≡ replace_between first last by 0 t
unfolding replace_between
replace_between-skip first last by [] t = refl
replace_between-skip first last by (c ∷ s) t = replace_between-skip first last by s t

pub replace_between-keep :
    (first last by : Text) (c : ℕ) (s : Text)
    → starts_with (c ∷ s) first ≡ false
    → replace_between first last by 0 (c ∷ s) ≡ c ∷ replace_between first last by 0 s
unfolding replace_between match_rest
replace_between-keep first last by c s h = rw (replace_between, match_rest, h) refl

-- Text in front of a line break, without the first mark in it, is kept.
pub replace_between-front :
    (first last by s rest : Text)
    → is_nil first ≡ false
    → contains first newline ≡ false
    → has_part s first ≡ false
    → replace_between first last by 0 (s ++ (newline ∷ rest))
      ≡ s ++ (newline ∷ replace_between first last by 0 rest)
unfolding has_part
replace_between-front first last by [] rest filled whole h =
    replace_between-keep first last by newline rest
      (not_across first filled whole [] rest (starts_with-nil first filled whole))
replace_between-front first last by (c ∷ s) rest filled whole h =
    replace_between-keep first last by c (s ++ (newline ∷ rest))
      (not_across first filled whole (c ∷ s) rest (ground (arith, h)))
    ∙ ap (λ t. c ∷ t) (replace_between-front first last by s rest filled whole (ground (arith, h)))

-- A section with its last mark, behind the first character of the first one.
abbrev section_rest : Text → Text → Text → Text
section_rest first mid last = first ++ (mid ++ (newline ∷ last))

match_rest-section :
    (f : ℕ) (first last mid rest : Text)
    → is_nil last ≡ false
    → contains last newline ≡ false
    → has_part mid last ≡ false
    → match_rest (f ∷ first) last ((f ∷ first) ++ (mid ++ (newline ∷ (last ++ rest))))
      ≡ some (length (section_rest first mid last))
unfolding match_rest
match_rest-section f first last mid rest filled whole h =
    let tail = mid ++ (newline ∷ (last ++ rest)) in
    let starts = starts_with-append (f ∷ first) tail in
    let found = find-behind last filled whole mid rest h in
    let size : suc (length first) + ((length mid + 1) + length last) - 1
        ≡ length (section_rest first mid last) =
      omega (
        arith,
        length-append {0} first (mid ++ (newline ∷ last)),
        length-append {0} mid (newline ∷ last),
      ) in
    rw (match_rest, starts, drop-append first tail, found) (ap some size)

-- A section is replaced as a whole.
pub replace_between-section :
    (f : ℕ) (first last by mid rest : Text)
    → is_nil last ≡ false
    → contains last newline ≡ false
    → has_part mid last ≡ false
    → replace_between (f ∷ first) last by 0 ((f ∷ first) ++ (mid ++ (newline ∷ (last ++ rest))))
      ≡ by ++ replace_between (f ∷ first) last by 0 rest
unfolding replace_between
replace_between-section f first last by mid rest filled whole h =
    let found = match_rest-section f first last mid rest filled whole h in
    let joined : section_rest first mid last ++ rest
        ≡ first ++ (mid ++ (newline ∷ (last ++ rest))) =
      append_assoc first (mid ++ (newline ∷ last)) rest
      ∙ ap (λ t. first ++ t) (append_assoc mid (newline ∷ last) rest) in
    rw (replace_between, found)
      (ap (λ t. by ++ t)
        (ap (replace_between (f ∷ first) last by (length (section_rest first mid last)))
            (sym joined)
          ∙ replace_between-skip (f ∷ first) last by (section_rest first mid last) rest))

pub expand-plain : (s : Text) → contains s 92 ≡ false → expand false s ≡ some s
unfolding expand contains
expand-plain [] h = refl
expand-plain (c ∷ s) h = ground (arith, h, expand-plain s)
