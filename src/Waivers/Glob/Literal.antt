-- ===== src/Waivers/Glob/Literal.antt =====
-- An escaped literal without the wildcards `*` and `?`, which the escape leaves alone, matches
-- itself and nothing else.
use arvern_ips.Prelude.{
  ℕ, suc, ◌≡◌, refl, sym, ap, ◌∙◌, inl, inr, true, false, ◌&&◌, [], ◌∷◌, ◌++◌, append-nil, arith,
  ◌==◌, Bool-cases, Option-cases, length, drop, eqb, nat_eq, list_beq, list_eq, pair_eq, Text,
  codes, starts_with,
}
use arvern_ips.Waivers.Glob.{
  literal, class, until_bracket, class_rest, class_body, class_ranges, class_token, tokens,
  token_fits, match_tokens, fnmatch, glob_literal,
}

-- A name with no wildcard other than brackets.
abbrev pub IsTame : Text → Type 0
IsTame [] = Unit
IsTame (c ∷ s) = ((c == b'*') ≡ false) × ((c == b'?') ≡ false) × IsTame s

tokens-bracket :
    (rest : Text) → tokens 0 (codes "[[]" ++ rest) ≡ class false ((b'[', b'[') ∷ []) ∷ tokens 0 rest
unfolding tokens class_body class_rest until_bracket class_token class_ranges
tokens-bracket rest = ground (arith, Option-cases (until_bracket rest))

bracket_fits : (c : ℕ) → token_fits (class false ((b'[', b'[') ∷ [])) c ≡ (b'[' == c)
unfolding token_fits
bracket_fits c = ground arith

bracket_step :
    (c : ℕ) (base rest name : Text)
    → (c == b'[') ≡ true
    → ((s : Text)
        → match_tokens (tokens 0 (glob_literal base ++ rest)) s
          ≡ (starts_with s base && match_tokens (tokens 0 rest) (drop (length base) s)))
    → match_tokens (class false ((b'[', b'[') ∷ []) ∷ tokens 0 (glob_literal base ++ rest)) name ≡ (
        starts_with name (c ∷ base) && match_tokens (tokens 0 rest) (drop (suc (length base)) name))
unfolding match_tokens starts_with
bracket_step c base rest [] e ih = refl
bracket_step c base rest (d ∷ name) e ih = ground (arith, bracket_fits d, ih name)

plain_step :
    (c : ℕ) (base rest name : Text)
    → ((s : Text)
        → match_tokens (tokens 0 (glob_literal base ++ rest)) s
          ≡ (starts_with s base && match_tokens (tokens 0 rest) (drop (length base) s)))
    → match_tokens (literal c ∷ tokens 0 (glob_literal base ++ rest)) name ≡ (
        starts_with name (c ∷ base) && match_tokens (tokens 0 rest) (drop (suc (length base)) name))
unfolding match_tokens starts_with token_fits
plain_step c base rest [] ih = refl
plain_step c base rest (d ∷ name) ih = ground (arith, ih name)

tokens_plain :
    (c : ℕ) (s : Text)
    → (c == b'*') ≡ false
    → (c == b'?') ≡ false
    → (c == b'[') ≡ false
    → tokens 0 (c ∷ s) ≡ literal c ∷ tokens 0 s
unfolding tokens
tokens_plain c s a q b = rw (a, q, b)

exact : (s t : Text) → (starts_with s t && match_tokens (tokens 0 []) (drop (length t) s)) ≡ eqb s t
unfolding starts_with match_tokens tokens list_beq
exact [] [] = refl
exact [] (d ∷ t) = refl
exact (c ∷ s) [] = refl
exact (c ∷ s) (d ∷ t) = ground (arith, exact s t)

-- An escaped literal of this kind in front of a pattern demands itself in front of the name.
pub match-glob_literal :
    (base rest name : Text)
    → IsTame base
    → match_tokens (tokens 0 (glob_literal base ++ rest)) name
      ≡ (starts_with name base && match_tokens (tokens 0 rest) (drop (length base) name))
unfolding glob_literal starts_with
match-glob_literal [] rest name h = refl
match-glob_literal (c ∷ base) rest name h = elim (Bool-cases (c == b'[')) [
  | inl bracket ↦ rw bracket (
      rw (tokens-bracket (glob_literal base ++ rest))
        (bracket_step c base rest name bracket (λ s. match-glob_literal base rest s h.2)))
  | inr plain ↦ rw plain (
      rw (tokens_plain c (glob_literal base ++ rest) h.0 h.1 plain)
        (plain_step c base rest name (λ s. match-glob_literal base rest s h.2)))
]

-- An escaped name that has no `*` and no `?` in it matches exactly itself.
pub fnmatch-glob_literal :
    (name text : Text) → IsTame text → fnmatch name (glob_literal text) ≡ eqb name text
unfolding fnmatch
fnmatch-glob_literal name text h =
    ap (λ p. match_tokens (tokens 0 p) name) (sym (append-nil (glob_literal text)))
    ∙ match-glob_literal text [] name h
    ∙ exact name text
