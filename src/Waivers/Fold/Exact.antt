-- ===== src/Waivers/Fold/Exact.antt =====
-- The globs that are suggested for a bus select its uncovered bits and no other bit.
use arvern_ips.Prelude.{
  ℕ, ◌≡◌, refl, sym, ap, ◌∙◌, inl, inr, Bool, true, false, ◌&&◌, some, List, [], ◌∷◌, ◌++◌, map,
  arith, leb, ◌==◌, ==_iff, Bool-cases, Option-cases, Bool-ext, and-eq-true, keep_if, all, nat_eq,
  list_beq_iff, list_eq, pair_eq, contains, contains-keep_if, Text, codes,
}
use arvern_ips.Prelude.Decimal.{is_digit, is_number, show, show_injective, is_number-show}
use arvern_ips.Prelude.Sorting.{sort, contains-sort}
use mathlib.Core.List.{concat-ne-nil}
use mathlib.Core.Path.{subst}
use arvern_ips.Waivers.Glob.{fnmatch, glob_literal}
use arvern_ips.Waivers.Glob.Literal.{IsTame, fnmatch-glob_literal}
use arvern_ips.Waivers.Fold.{
  any_glob, bit_name, folded_globs, combine_bits, bit_globs, signal_globs,
}

all-contains :
    (p : ℕ → Bool) (xs : List ℕ) (a : ℕ) → all p xs ≡ true → contains xs a ≡ true → p a ≡ true
unfolding contains
all-contains p [] a h k = cc
all-contains p (x ∷ xs) a h k = elim (Bool-cases (x == a)) [
  | inl same ↦ let e : x ≡ a = (==_iff x a).0 same in rw e at ((and-eq-true (p x) _).0 h).0
  | inr other ↦ all-contains p xs a ((and-eq-true (p x) _).0 h).1 (ground arith)
]

-- Globs that `combine_bits` returns match the name of a present bit exactly when the bit is wanted.
pub combine_bits_exact :
    (base : Text) (want present : List ℕ) {globs : List Text}
    → combine_bits base want present ≡ some globs
    → (b : ℕ) → contains present b ≡ true
    → any_glob globs (bit_name base b) ≡ contains want b
unfolding combine_bits
combine_bits_exact base want present {globs} h b there =
    let gs = folded_globs base want in
    let hit = keep_if (λ c. any_glob gs (bit_name base c)) present in
    let found = contains-keep_if (λ c. any_glob gs (bit_name base c)) present b in
    elim (Bool-cases (all (contains want) hit && all (contains hit) want)) [
      | inr bad ↦ cc (rw bad at h)
      | inl good ↦
          let (sound, whole) = (and-eq-true (all (contains want) hit) _).0 good in
          let same : some gs ≡ some globs = rw good at h in
          let eq : gs ≡ globs = cc same in
          subst (λ x. any_glob x (bit_name base b) ≡ contains want b) eq
            (Bool-ext _ _ (λ k. all-contains (contains want) hit b sound (ground (arith, found)))
              (λ k.
                let in_hit = all-contains (contains hit) want b whole k in ground (arith, found)))
    ]

glob_literal-append : (s t : Text) → glob_literal (s ++ t) ≡ glob_literal s ++ glob_literal t
unfolding glob_literal
glob_literal-append [] t = refl
glob_literal-append (c ∷ s) t = elim (Bool-cases (c == b'[')) [
  | inl bracket ↦ rw bracket (ap (λ r. codes "[[]" ++ r) (glob_literal-append s t))
  | inr plain ↦ rw plain (ap (◌∷◌ c) (glob_literal-append s t))
]

digit_plain :
    (c : ℕ)
    → is_digit c ≡ true
    → ((c == b'*') ≡ false) × ((c == b'?') ≡ false) × ((c == b'[') ≡ false)
unfolding is_digit
digit_plain c h = ground arith

glob_literal-digits : (s : Text) → all is_digit s ≡ true → (glob_literal s ≡ s) × IsTame s
unfolding glob_literal
glob_literal-digits [] h = (refl, tt)
glob_literal-digits (c ∷ s) h =
    let (d, ds) = (and-eq-true (is_digit c) _).0 h in
    let (star, one, bracket) = digit_plain c d in
    let (e, tame) = glob_literal-digits s ds in (rw bracket (ap (◌∷◌ c) e), (star, one, tame))

number-digits : (s : Text) → is_number s ≡ true → all is_digit s ≡ true
unfolding is_number
number-digits [] h = refl
number-digits (c ∷ s) h = h

all-show : (n : ℕ) → all is_digit (show n) ≡ true
all-show n = number-digits (show n) (is_number-show n)

IsTame-append : (s t : Text) → IsTame s → IsTame t → IsTame (s ++ t)
IsTame-append [] t h k = k
IsTame-append (c ∷ s) t h k = (h.0, h.1, IsTame-append s t h.2 k)

bit_name-IsTame : (base : Text) (b : ℕ) → IsTame base → IsTame (bit_name base b)
unfolding bit_name
bit_name-IsTame base b h = IsTame-append base _ h (
  refl,
  refl,
  IsTame-append (show b) _ (glob_literal-digits (show b) (all-show b)).1 (refl, refl, tt),
)

bit_glob-literal :
    (base : Text) (b : ℕ)
    → glob_literal base ++ (codes "[[]" ++ (show b ++ codes "]")) ≡ glob_literal (bit_name base b)
unfolding bit_name
bit_glob-literal base b = rw (glob_literal-append base) (
    ap (λ r. glob_literal base ++ r)
      (unfold glob_literal in
        ap (λ r. codes "[[]" ++ r)
          (sym (
            glob_literal-append (show b) (codes "]")
            ∙ ap (λ r. r ++ codes "]") (glob_literal-digits (show b) (all-show b)).0))))

concat_injective : (s t : Text) (x : ℕ) → s ++ (x ∷ []) ≡ t ++ (x ∷ []) → s ≡ t
concat_injective [] [] x h = refl
concat_injective [] (d ∷ t) x h =
    let e : [] ≡ t ++ (x ∷ []) = cc in absurd (concat-ne-nil x t (sym e))
concat_injective (c ∷ s) [] x h = let e : s ++ (x ∷ []) ≡ [] = cc in absurd (concat-ne-nil x s e)
concat_injective (c ∷ s) (d ∷ t) x h =
    let e = concat_injective s t x (cc) in let f : c ≡ d = cc in cc

append_injective : (front s t : Text) → front ++ s ≡ front ++ t → s ≡ t
append_injective [] s t h = h
append_injective (c ∷ front) s t h = append_injective front s t (cc)

bit_name_injective : (base : Text) (b d : ℕ) → bit_name base b ≡ bit_name base d → b ≡ d
unfolding bit_name
bit_name_injective base b d h =
    show_injective b d
      (concat_injective _ _ b']' (append_injective (b'[' ∷ []) _ _ (append_injective base _ _ h)))

bit_glob-eq :
    (base : Text) (b d : ℕ)
    → IsTame base
    → fnmatch (bit_name base b) (glob_literal base ++ (codes "[[]" ++ (show d ++ codes "]")))
      ≡ (d == b)
bit_glob-eq base b d h =
    rw (bit_glob-literal, fnmatch-glob_literal _ _ (bit_name-IsTame base d h))
      (Bool-ext _ _
        (λ k. let e = bit_name_injective base b d ((list_beq_iff _ _).0 k) in ground arith)
        (λ k. let e : b ≡ d = ground arith in (list_beq_iff _ _).1 (ap (bit_name base) e)))

bit_globs-contains :
    (base : Text) (ds : List ℕ) (b : ℕ)
    → IsTame base
    → any_glob
        (map (λ d. glob_literal base ++ (codes "[[]" ++ (show d ++ codes "]"))) ds)
        (bit_name base b)
      ≡ contains ds b
unfolding contains
bit_globs-contains base [] b h = refl
bit_globs-contains base (d ∷ ds) b h =
    ground (arith, bit_glob-eq base b d h, bit_globs-contains base ds b h)

-- Whichever way `suggest_entries` writes the globs of a signal, folded or one for each bit, they
-- match the name of a bit that is present exactly when that bit is uncovered: for every signal name
-- without the wildcards `*` and `?`.
pub signal_globs_exact :
    (base : Text) (want present : List ℕ) (b : ℕ)
    → IsTame base
    → contains present b ≡ true
    → any_glob (signal_globs base want present) (bit_name base b) ≡ contains want b
unfolding signal_globs
signal_globs_exact base want present b h there =
    elim (Option-cases (combine_bits base (sort leb want) (sort leb present))) [
      | inl none_fits ↦
          rw (none_fits, signal_globs)
            (unfold bit_globs in
              bit_globs-contains base (sort leb want) b h ∙ contains-sort leb want b)
      | inr (globs, e) ↦
          rw (e, signal_globs)
            (combine_bits_exact base (sort leb want) (sort leb present) e b
                (contains-sort leb present b ∙ there)
              ∙ contains-sort leb want b)
    ]
