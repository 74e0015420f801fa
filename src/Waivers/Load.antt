-- ===== src/Waivers/Load.antt =====
-- ahb_aclint/sim/rtl_sim/bin/cov_waive.py: what the two loaders of waivers share, and `_add_dict`.
-- `compiles` says which regular expressions compile, and `repr` is the text of a list or object. The
-- file of an entry is kept as its text, which it is where it is a string; a line number is a run of
-- digits, where `int` also takes a sign, blanks and underscores.
pub mod Markdown
pub mod Lines
pub mod Sound
use arvern_ips.Prelude.{
  ℕ, zero, suc, ◌+◌, ◌-◌, ◌*◌, ◌/◌, ◌%◌, ◌≤◌, ◌<◌, max, min, ◌≡◌, refl, sym, ap, ◌∙◌, ◌≢◌, ◌↔◌, ◌⊎◌,
  inl, inr, Bool, true, false, not, ◌&&◌, ◌||◌, Option, none, some, List, [], ◌∷◌, ◌++◌, map,
  append-nil, append_assoc, arith, ltb, leb, ◌==◌, if◌then◌else◌, ltb→lt, lt→ltb, leb→le, ==_iff,
  Bool-cases, Option-cases, Bool-ext, and-eq-true, or-eq-true, length, get_elem?, get_or, take,
  drop, replicate, keep_if, any, all, is_nil, length-append, List-cases, drop-append,
  keep_if-append, length-keep_if-le, any-append, Eq, eqb, nat_eq, list_beq, list_beq_iff, list_eq,
  pair_beq, pair_beq_iff, pair_eq, eqb_refl, eqb_sym, contains, contains-append, IsDistinct,
  contains-keep_if, unseen, unseen-cons-le, unseen-cons-lt, Text, codes, is_space, lstrip, rstrip,
  strip, starts_with, starts_with-append, ends_with, has_part, before, split_on, join, rpartition,
  basename,
}
use arvern_ips.Prelude.Dict.{
  Dict, keys, lookup, insert, has_key, set_default, lookup-insert, has_key-insert, has_key-lookup,
  contains-keys, insert-IsDistinct,
}
use arvern_ips.Prelude.Decimal.{
  is_digit, is_number, int, show, int-show, show_injective, is_number-show,
}
use arvern_ips.Prelude.Sorting.{
  text_le, text_le_total, text_le_trans, insert_sorted, sort, IsSorted, length-insert_sorted,
  length-sort, all-sort, sort-IsSorted, contains-insert_sorted, contains-sort,
}
use Prim.Native.String.{String}
use arvern_ips.Waivers.Json.{
  Json, null, bool, num, str, arr, obj, elems, props, get, truthy, is_null, text_of,
}
use arvern_ips.Waivers.Match.{Locator, at_line, at_text, at_regex, Waiver, types}

-- What is wrong with an entry, a line or a file.
pub data Trouble : Type 0 where
  not_object no_file_or_at no_why placeholder_left bad_regex bad_at : Trouble
  unknown_keys : List Text → Trouble
  unknown_type : Text → Trouble
  unknown_field : Text → Trouble
  unterminated not_json not_list no_waivers no_reason bad_line : Trouble
  wrong_label : Text → Trouble

-- An item of `errors`: the place and the trouble.
pub record Problem : Type 0 where
  pub place : Text
  pub trouble : Trouble

-- `items` and `errors`
pub record Loaded : Type 0 where
  pub items : List Waiver
  pub errors : List Problem

abbrev pub placeholder : Text
placeholder = codes "<MECHANISM>"

abbrev pub known_keys : List Text
known_keys = codes "file" ∷ codes "at" ∷ codes "type" ∷ codes "sig" ∷ codes "why" ∷ []

abbrev pub all_pages : List Text
all_pages = codes "v_line" ∷ codes "v_branch" ∷ codes "v_toggle" ∷ []

pub data Located : Type 0 where
  located : Locator → Located
  unlocated : Trouble → Located

-- The pages of a type, or none where it is not known.
unfoldable pub pages_of : Text → Option (List Text)
pages_of t =
    if eqb t (codes "all")
    then some all_pages
    else elim (lookup t types) [ none ↦ none | some p ↦ some (p ∷ []) ]

-- `pages`, and the errors on types that are not known.
unfoldable pub read_types : Text → List Text → List Text × List Problem
read_types place [] = ([], [])
read_types place (t ∷ ts) =
    let (pages, problems) = read_types place ts in
    elim (pages_of t) [
      | none ↦ (pages, record { place = place; trouble = unknown_type t } ∷ problems)
      | some ps ↦ (ps ++ pages, problems)
    ]

-- The first of the troubles whose test holds.
unfoldable pub first_trouble : List (Bool × Trouble) → Option Trouble
first_trouble [] = none
first_trouble ((test, t) ∷ checks) = if test then some t else first_trouble checks

unfoldable pub problem : Text → Trouble → Problem
problem place t = record { place = place; trouble = t }

-- What one entry adds: a waiver or none, and errors.
abbrev pub Outcome : Type 0
Outcome = Option Waiver × List Problem

-- `items.append` and `errors.append`
unfoldable pub add_outcome : Loaded → Outcome → Loaded
add_outcome l (w, problems) = record {
  items = l.items ++ elim w [ none ↦ [] | some v ↦ v ∷ [] ];
  errors = l.errors ++ problems;
}

-- `set(w) - KEYS`
unfoldable pub extra_keys : Dict Text Json → List Text
extra_keys d = keep_if (λ k. not (contains known_keys k)) (keys d)

module _ (compiles : Text → Bool) (repr : Json → Text) where
  unfoldable pub locate : Text → Located
  locate loc =
      if starts_with loc (codes "re/") && (ends_with loc (codes "/") && ltb 4 (length loc))
      then (if compiles (take (length loc - 4) (drop 3 loc))
          then located (at_regex (take (length loc - 4) (drop 3 loc)))
          else unlocated bad_regex)
      else if starts_with loc (codes "/") && (ends_with loc (codes "/") && ltb 2 (length loc))
      then located (at_text (take (length loc - 2) (drop 1 loc)))
      else if is_number loc
      then located (at_line (int loc))
      else unlocated bad_at

  -- `types if isinstance(types, list) else str(types).split(',')`, each stripped.
  unfoldable pub type_list : Json → List Text
  type_list (arr vs) = map (λ (v : Json). strip (text_of repr v)) (elems vs)
  type_list v = map strip (split_on b',' (text_of repr v))

  unfoldable pub entry_types : Dict Text Json → List Text
  entry_types d = elim (lookup (codes "type") d) [ none ↦ codes "all" ∷ [] | some v ↦ type_list v ]

  unfoldable pub entry_sig : Dict Text Json → Option Text
  entry_sig d = if is_null (get "sig" d) then none else some (text_of repr (get "sig" d))

  -- The checks in their order, up to the locator.
  unfoldable pub entry_checks : Dict Text Json → List (Bool × Trouble)
  entry_checks d =
      (not (is_nil (extra_keys d)), unknown_keys (sort text_le (extra_keys d)))
      ∷ (not (truthy (get "file" d)) || is_null (get "at" d), no_file_or_at)
      ∷ (not (truthy (get "why" d)), no_why)
      ∷ (has_part (text_of repr (get "why" d)) placeholder, placeholder_left)
      ∷ []

  -- A waiver with these pages, if there are any.
  unfoldable pub finish :
      Text → Text → Text → Option Text → Locator → List Text × List Problem → Outcome
  finish place file why sig loc (pages, problems) = (
    if is_nil pages
        then none
        else some (record {
          file = file;
          locator = loc;
          pages = pages;
          sig = sig;
          reason = why;
          src = place;
          hits = 0;
        }),
    problems,
  )

  unfoldable pub build_located : Text → Dict Text Json → Located → Outcome
  build_located place d (unlocated t) = (none, problem place t ∷ [])
  build_located place d (located loc) =
      finish place (text_of repr (get "file" d)) (text_of repr (get "why" d)) (entry_sig d) loc
        (read_types place (entry_types d))

  unfoldable pub build_entry : Text → Dict Text Json → Outcome
  build_entry place d = elim (first_trouble (entry_checks d)) [
    | some t ↦ (none, problem place t ∷ [])
    | none ↦ build_located place d (locate (text_of repr (get "at" d)))
  ]

  unfoldable pub build : Text → Json → Outcome
  build place (obj ps) = build_entry place (props ps)
  build place v = (none, problem place not_object ∷ [])

  -- `_add_dict`
  unfoldable pub add_dict : Loaded → Text → Json → Loaded
  add_dict l place v = add_outcome l (build place v)
