-- ===== src/Waivers/Glob.antt =====
-- `fnmatch.fnmatch` as the waivers use it (case-sensitive, the whole name), and `_glob_literal`.
pub mod Literal
use arvern_ips.Prelude.{
  ℕ, zero, suc, ◌+◌, ◌-◌, ◌*◌, ◌/◌, ◌%◌, ◌≤◌, ◌<◌, max, min, ◌≡◌, refl, sym, ap, ◌∙◌, ◌≢◌, ◌↔◌, ◌⊎◌,
  inl, inr, Bool, true, false, not, ◌&&◌, ◌||◌, Option, none, some, List, [], ◌∷◌, ◌++◌, map,
  append-nil, append_assoc, arith, ltb, leb, ◌==◌, if◌then◌else◌, ltb→lt, lt→ltb, leb→le, ==_iff,
  Bool-cases, Option-cases, Bool-ext, and-eq-true, or-eq-true, length, get_elem?, get_or, take,
  drop, replicate, keep_if, any, all, is_nil, length-append, List-cases, drop-append,
  keep_if-append, length-keep_if-le, any-append, Eq, eqb, nat_eq, list_beq, list_beq_iff, list_eq,
  pair_beq, pair_beq_iff, pair_eq, eqb_refl, eqb_sym, contains, contains-append, IsDistinct,
  contains-keep_if, unseen, unseen-cons-le, unseen-cons-lt, Text, codes, is_space, lstrip, rstrip,
  strip, starts_with, starts_with-append, ends_with, has_part, before, split_on, join, rpartition,
  basename,
}
use arvern_ips.Prelude.Dict.{
  Dict, keys, lookup, insert, has_key, set_default, lookup-insert, has_key-insert, has_key-lookup,
  contains-keys, insert-IsDistinct,
}
use arvern_ips.Prelude.Decimal.{
  is_digit, is_number, int, show, int-show, show_injective, is_number-show,
}
use arvern_ips.Prelude.Sorting.{
  text_le, text_le_total, text_le_trans, insert_sorted, sort, IsSorted, length-insert_sorted,
  length-sort, all-sort, sort-IsSorted, contains-insert_sorted, contains-sort,
}

-- `one` is `?`, `star` is `*`; a class holds its ranges, and whether it is negated.
pub data Token : Type 0 where
  literal : ℕ → Token
  one : Token
  star : Token
  class : Bool → List (ℕ × ℕ) → Token

-- What stands before the next `]`.
unfoldable pub until_bracket : Text → Option Text
until_bracket [] = none
until_bracket (c ∷ s) = elim (until_bracket s) [
  | some body ↦ if c == b']' then some [] else some (c ∷ body)
  | none ↦ if c == b']' then some [] else none
]

-- A class has at least one character behind its `!`, and that one may be `]`.
unfoldable pub class_rest : Text → Option Text
class_rest [] = none
class_rest (c ∷ s) = elim (until_bracket s) [ some body ↦ some (c ∷ body) | none ↦ none ]

-- The body of a class that `[` opens before this text, or none if the class is not closed.
unfoldable pub class_body : Text → Option Text
class_body [] = none
class_body (c ∷ s) =
    if c == b'!'
    then elim (class_rest s) [ some body ↦ some (c ∷ body) | none ↦ none ]
    else class_rest (c ∷ s)

-- The ranges of a class; a single character is a range of its own.
unfoldable pub class_ranges : Text → List (ℕ × ℕ)
class_ranges [] = []
class_ranges (x ∷ []) = (x, x) ∷ []
class_ranges (x ∷ d ∷ []) = (x, x) ∷ (d, d) ∷ []
class_ranges (x ∷ d ∷ y ∷ s) =
    let span = (x, y) ∷ class_ranges s in
    let single = (x, x) ∷ class_ranges (d ∷ y ∷ s) in if d == b'-' then span else single

unfoldable pub class_token : Text → Token
class_token [] = class false []
class_token (c ∷ s) =
    if c == b'!' then class true (class_ranges s) else class false (class_ranges (c ∷ s))

-- The tokens of a pattern, behind a number of characters that the last class has used up.
unfoldable pub tokens : ℕ → Text → List Token
tokens skip [] = []
tokens (suc skip) (c ∷ s) = tokens skip s
tokens zero (c ∷ s) =
    let rest = tokens 0 s in
    let opened : List Token = elim (class_body s) [
      | some body ↦ class_token body ∷ tokens (suc (length body)) s
      | none ↦ literal b'[' ∷ tokens 0 s
    ] in
    if c == b'*'
    then star ∷ rest
    else if c == b'?'
    then one ∷ rest
    else if c == b'['
    then opened
    else literal c ∷ rest

unfoldable pub token_fits : Token → ℕ → Bool
token_fits (literal d) c = d == c
token_fits one c = true
token_fits star c = true
token_fits (class negated ranges) c =
    let inside = any (λ (r : ℕ × ℕ). leb r.0 c && leb c r.1) ranges in
    if negated then not inside else inside

-- Some tail of the text passes the test.
unfoldable pub any_tail : (Text → Bool) → Text → Bool
any_tail p [] = p []
any_tail p (c ∷ s) = p (c ∷ s) || any_tail p s

unfoldable pub match_tokens : List Token → Text → Bool
match_tokens [] s = is_nil s
match_tokens (star ∷ ts) s = any_tail (match_tokens ts) s
match_tokens (t ∷ ts) [] = false
match_tokens (t ∷ ts) (c ∷ s) = token_fits t c && match_tokens ts s

unfoldable pub fnmatch : Text → Text → Bool
fnmatch name pattern = match_tokens (tokens 0 pattern) name

-- `text.replace('[', '[[]')`
unfoldable pub glob_literal : Text → Text
glob_literal [] = []
glob_literal (c ∷ s) =
    let rest = glob_literal s in if c == b'[' then codes "[[]" ++ rest else c ∷ rest
