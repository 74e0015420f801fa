-- ===== src/Waivers/Suggest/Covered.antt =====
-- The suggested entries, loaded and matched.
use arvern_ips.Prelude.{
  ℕ, ◌≡◌, refl, sym, ap, ◌∙◌, inl, inr, Bool, true, false, ◌||◌, none, some, List, [], ◌∷◌, ◌++◌,
  map, arith, leb, if◌then◌else◌, Option-cases, keep_if, any, is_nil, any-append, Eq, eqb, nat_eq,
  list_beq_iff, list_eq, pair_eq, eqb_refl, contains, contains-keep_if, Text, codes,
}
use arvern_ips.Prelude.Decimal.{show}
use arvern_ips.Prelude.Sorting.{text_le, insert_sorted, sort, contains-sort}
use mathlib.Core.Path.{subst}
use arvern_ips.Waivers.Glob.{fnmatch, glob_literal}
use arvern_ips.Waivers.Glob.Literal.{IsTame, fnmatch-glob_literal}
use arvern_ips.Waivers.Fold.{bit_name, signal_globs}
use arvern_ips.Waivers.Fold.Exact.{signal_globs_exact}
use arvern_ips.Waivers.Suggest.{
  Place, indexed, base_of, present_bits, is_uncovered, plain_names, Entry, group_entries,
  all_entries,
}
use arvern_ips.Waivers.Suggest.Groups.{Member, plain_names-contains, present_bits-contains}

module _ {ℓ} {A : Type ℓ} (q : A → Bool) where
  pub any-map {κ} :
      {B : Type κ} (f : B → A) (xs : List B) → any q (map f xs) ≡ any (λ x. q (f x)) xs
  any-map f [] = refl
  any-map f (x ∷ xs) = ground (arith, any-map f xs)

  any-insert_sorted :
      (le : A → A → Bool) (x : A) (xs : List A) → any q (insert_sorted le x xs) ≡ (q x || any q xs)
  unfolding insert_sorted
  any-insert_sorted le x [] = refl
  any-insert_sorted le x (y ∷ ys) = ground (arith, any-insert_sorted le x ys)

  pub any-sort : (le : A → A → Bool) (xs : List A) → any q (sort le xs) ≡ any q xs
  unfolding sort
  any-sort le [] = refl
  any-sort le (x ∷ xs) = any-insert_sorted le x (sort le xs) ∙ rw (any-sort le xs) refl

any-contains {ℓ} :
    {A : Type ℓ} ⦃e : Eq A⦄ (q : A → Bool) (xs : List A) (a : A)
    → contains xs a ≡ true
    → q a ≡ true
    → any q xs ≡ true
unfolding contains
any-contains ⦃e⦄ q [] a h t = ground (arith, h)
any-contains ⦃e⦄ q (x ∷ xs) a h t = ground (arith, h, t, e.beq_iff x a, any-contains q xs a)

pub any-all_entries :
    (q : Entry → Bool) (at : Text) (gs : List (Place × List Member))
    → any q (all_entries at gs) ≡ any (λ g. any q (group_entries at g)) gs
unfolding all_entries
any-all_entries q at [] = refl
any-all_entries q at (g ∷ gs) =
    any-append q (group_entries at g) (all_entries at gs) ∙ rw (any-all_entries q at gs) refl

IsTame-front : (s t : Text) → IsTame (s ++ t) → IsTame s
IsTame-front [] t h = tt
IsTame-front (c ∷ s) t (a, b, h) = (a, b, IsTame-front s t h)

-- The text of an index has no leading zero.
abbrev pub is_canonical : Text → Bool
is_canonical sig = elim (indexed sig) [ none ↦ true | some (base, n) ↦ eqb sig (bit_name base n) ]

-- The globs that a group writes.
abbrev pub globs_of : Text → List Member → List Text
globs_of base members =
    let want = present_bits (keep_if is_uncovered members) in
    let globs : List Text =
      if is_nil want
      then []
      else signal_globs base (sort leb want) (sort leb (present_bits members)) in
    map glob_literal (sort text_le (plain_names members)) ++ globs

filled-contains : (ns : List ℕ) (n : ℕ) → contains ns n ≡ true → is_nil ns ≡ false
unfolding contains
filled-contains [] n h = ground (arith, h)
filled-contains (m ∷ ns) n h = refl

-- An uncovered name without an index is matched by its own glob.
plain_match :
    (base : Text) (members : List Member) (sig : Text)
    → contains members (sig, 0) ≡ true
    → IsTame sig
    → indexed sig ≡ none
    → any (fnmatch sig) (globs_of base members) ≡ true
plain_match base members sig m tame bare =
    let want = present_bits (keep_if is_uncovered members) in
    let globs : List Text =
      if is_nil want
      then []
      else signal_globs base (sort leb want) (sort leb (present_bits members)) in
    let own = plain_names-contains members sig bare m in
    let found : any (fnmatch sig) (map glob_literal (sort text_le (plain_names members))) ≡ true =
      any-map (fnmatch sig) glob_literal (sort text_le (plain_names members))
      ∙ (any-sort (λ x. fnmatch sig (glob_literal x)) text_le (plain_names members)
          ∙ any-contains (λ x. fnmatch sig (glob_literal x)) (plain_names members) sig own
              (fnmatch-glob_literal sig sig tame ∙ eqb_refl sig)) in
    any-append (fnmatch sig) (map glob_literal (sort text_le (plain_names members))) globs
    ∙ rw found refl

-- An uncovered bit is matched by a glob of its signal.
bit_match :
    (base : Text) (members : List Member) (n : ℕ)
    → contains members (bit_name base n, 0) ≡ true
    → IsTame base
    → indexed (bit_name base n) ≡ some (base, n)
    → any (fnmatch (bit_name base n)) (globs_of base members) ≡ true
unfolding is_uncovered
bit_match base members n m tame e =
    let sig = bit_name base n in
    let live = keep_if is_uncovered members in
    let want = present_bits live in
    let present = present_bits members in
    let there = contains-keep_if is_uncovered members (sig, 0) ∙ rw m refl in
    let wanted = present_bits-contains live sig base 0 n e there in
    let stands = present_bits-contains members sig base 0 n e m in
    let found : any (fnmatch sig) (signal_globs base (sort leb want) (sort leb present)) ≡ true =
      signal_globs_exact base (sort leb want) (sort leb present) n tame
        (contains-sort leb present n ∙ stands)
      ∙ (contains-sort leb want n ∙ wanted) in
    rw (filled-contains want n wanted) (
      any-append (fnmatch sig) (map glob_literal (sort text_le (plain_names members)))
        (signal_globs base (sort leb want) (sort leb present))
      ∙ rw found (ground arith))

canonical-name :
    (sig base : Text) (n : ℕ)
    → indexed sig ≡ some (base, n)
    → is_canonical sig ≡ true
    → sig ≡ bit_name base n
canonical-name sig base n e h = (list_beq_iff sig (bit_name base n)).0 (ground (arith, e, h))

-- An uncovered member of a group is matched by a glob of it.
pub globs_of-match :
    (members : List Member) (sig : Text)
    → contains members (sig, 0) ≡ true
    → IsTame sig
    → is_canonical sig ≡ true
    → any (fnmatch sig) (globs_of (base_of sig) members) ≡ true
unfolding base_of bit_name
globs_of-match members sig m tame canonical = elim (Option-cases (indexed sig)) [
  | inl bare ↦ plain_match (base_of sig) members sig m tame bare
  | inr ((base, n), e) ↦
      let name = canonical-name sig base n e canonical in
      let bits =
        bit_match base members n (subst (λ s. contains members (s, 0) ≡ true) name m)
          (IsTame-front base (b'[' ∷ (show n ++ codes "]")) (subst IsTame name tame))
          (ap indexed (sym name) ∙ e) in
      rw (base_of, e) (subst (λ s. any (fnmatch s) (globs_of base members) ≡ true) (sym name) bits)
]
