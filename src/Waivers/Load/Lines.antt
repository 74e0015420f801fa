-- ===== src/Waivers/Load/Lines.antt =====
-- ahb_aclint/sim/rtl_sim/bin/cov_waive.py: `_load_txt`, on the lines of the file.
pub mod Complete
use arvern_ips.Prelude.{
  ℕ, zero, suc, ◌+◌, ◌-◌, ◌*◌, ◌/◌, ◌%◌, ◌≤◌, ◌<◌, max, min, ◌≡◌, refl, sym, ap, ◌∙◌, ◌≢◌, ◌↔◌, ◌⊎◌,
  inl, inr, Bool, true, false, not, ◌&&◌, ◌||◌, Option, none, some, List, [], ◌∷◌, ◌++◌, map,
  append-nil, append_assoc, arith, ltb, leb, ◌==◌, if◌then◌else◌, ltb→lt, lt→ltb, leb→le, ==_iff,
  Bool-cases, Option-cases, Bool-ext, and-eq-true, or-eq-true, length, get_elem?, get_or, take,
  drop, replicate, keep_if, any, all, is_nil, length-append, List-cases, drop-append,
  keep_if-append, length-keep_if-le, any-append, Eq, eqb, nat_eq, list_beq, list_beq_iff, list_eq,
  pair_beq, pair_beq_iff, pair_eq, eqb_refl, eqb_sym, contains, contains-append, IsDistinct,
  contains-keep_if, unseen, unseen-cons-le, unseen-cons-lt, Text, codes, is_space, lstrip, rstrip,
  strip, starts_with, starts_with-append, ends_with, has_part, before, split_on, join, rpartition,
  basename,
}
use arvern_ips.Prelude.Dict.{
  Dict, keys, lookup, insert, has_key, set_default, lookup-insert, has_key-insert, has_key-lookup,
  contains-keys, insert-IsDistinct,
}
use arvern_ips.Prelude.Decimal.{
  is_digit, is_number, int, show, int-show, show_injective, is_number-show,
}
use arvern_ips.Prelude.Sorting.{
  text_le, text_le_total, text_le_trans, insert_sorted, sort, IsSorted, length-insert_sorted,
  length-sort, all-sort, sort-IsSorted, contains-insert_sorted, contains-sort,
}
use arvern_ips.Sweep.Coverage.{words}
use arvern_ips.Waivers.Json.{Json}
use arvern_ips.Waivers.Match.{Waiver}
use arvern_ips.Waivers.Load.{
  no_reason, placeholder_left, bad_line, unknown_field, Problem, problem, Loaded, Located, located,
  unlocated, read_types, Outcome, add_outcome, placeholder, locate,
}
use arvern_ips.Waivers.Load.Markdown.{place_at}

-- `s.partition(sep)`, without the separator.
unfoldable pub partition : ℕ → Text → Text × Text
partition sep [] = ([], [])
partition sep (c ∷ s) = let (a, b) = partition sep s in if c == sep then ([], s) else (c ∷ a, b)

-- The longest prefix whose characters pass a test, and the rest.
unfoldable pub span : (ℕ → Bool) → Text → Text × Text
span p [] = ([], [])
span p (c ∷ s) = let (a, b) = span p s in if p c then (c ∷ a, b) else ([], c ∷ s)

unfoldable pub begins_blank : Text → Bool
begins_blank [] = false
begins_blank (c ∷ s) = is_space c

-- The cut behind the last slash that white space follows.
unfoldable pub last_slash : Text → Option (Text × Text)
last_slash [] = none
last_slash (c ∷ s) = elim (last_slash s) [
  | some (a, b) ↦ some (c ∷ a, b)
  | none ↦ if c == b'/' && begins_blank s then some (c ∷ [], s) else none
]

-- `(\d+|re/.+/|/.+/)` in front of white space, and what follows.
unfoldable pub cut_locator : Text → Option (Text × Text)
cut_locator s =
    let (ds, rest) = span is_digit s in
    if not (is_nil ds)
    then (if begins_blank rest then some (ds, rest) else none)
    else elim (last_slash s) [
      | none ↦ none
      | some (loc, tail) ↦
          if (starts_with loc (codes "re/") && leb 5 (length loc))
            || (starts_with loc (codes "/") && leb 3 (length loc))
          then some (loc, tail)
          else none
    ]

-- The file, the locator, the types and the fields of a line.
pub record Fields : Type 0 where
  pub file : Text
  pub loc : Text
  pub kinds : Text
  pub more : List Text

-- `re.match(r'^([^\s:]+):(\d+|re/.+/|/.+/)\s+(\S+)(?:\s+(.*))?$', body)` on a stripped text.
unfoldable pub match_line : Text → Option Fields
match_line body =
    let (file, rest) = partition b':' body in
    elim (cut_locator rest) [
      | none ↦ none
      | some (loc, tail) ↦ elim (words tail) [
        | [] ↦ none
        | kinds ∷ more ↦
            if is_nil file || any is_space file
            then none
            else some (record { file = file; loc = loc; kinds = kinds; more = more })
      ]
    ]

-- The loop over the fields: the last `sig=`, and the errors.
unfoldable pub read_fields : Text → Option Text → List Text → Option Text × List Problem
read_fields place sig [] = (sig, [])
read_fields place sig (t ∷ ts) =
    if starts_with t (codes "sig=")
    then read_fields place (some (drop 4 t)) ts
    else (let (found, problems) = read_fields place sig ts in
        (found, problem place (unknown_field t) ∷ problems))

module _ (compiles : Text → Bool) (repr : Json → Text) where
  unfoldable pub finish_line : Text → Text → Fields → Located → Outcome
  finish_line place reason f (unlocated t) = (none, problem place t ∷ [])
  finish_line place reason f (located loc) =
      let (pages, problems) = read_types place (split_on b',' f.kinds) in
      let (sig, more) = read_fields place none f.more in
      if is_nil pages then (none, problems) else (
        some (record {
          file = f.file;
          locator = loc;
          pages = pages;
          sig = sig;
          reason = reason;
          src = place;
          hits = 0;
        }),
        problems ++ more,
      )

  unfoldable pub build_body : Text → Text → Text → Outcome
  build_body place body reason =
      if is_nil reason
      then (none, problem place no_reason ∷ [])
      else if has_part reason placeholder
      then (none, problem place placeholder_left ∷ [])
      else elim (match_line body) [
        | none ↦ (none, problem place bad_line ∷ [])
        | some f ↦ finish_line place reason f (locate compiles repr f.loc)
      ]

  unfoldable pub build_line : Text → Text → Outcome
  build_line place raw =
      let (body, reason) = partition b'#' raw in
      if is_nil (strip body) then (none, []) else build_body place (strip body) (strip reason)

  unfoldable pub load_lines : Text → ℕ → Loaded → List Text → Loaded
  load_lines path n l [] = l
  load_lines path n l (raw ∷ lines) =
      load_lines path (suc n) (add_outcome l (build_line (place_at path n) raw)) lines

  -- `_load_txt`
  unfoldable pub load_txt : Text → List Text → Loaded
  load_txt path = load_lines path 1 (record { items = []; errors = [] })
