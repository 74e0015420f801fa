-- ===== src/Waivers/Load/Markdown.antt =====
-- ahb_aclint/sim/rtl_sim/bin/cov_waive.py: `_load_md`, on the lines of the file. The JSON parser is
-- the parameter `loads`.
pub mod Document
pub mod Heads
pub mod Complete
pub mod Fences
use arvern_ips.Prelude.{
  ℕ, zero, suc, ◌+◌, ◌-◌, ◌*◌, ◌/◌, ◌%◌, ◌≤◌, ◌<◌, max, min, ◌≡◌, refl, sym, ap, ◌∙◌, ◌≢◌, ◌↔◌, ◌⊎◌,
  inl, inr, Bool, true, false, not, ◌&&◌, ◌||◌, Option, none, some, List, [], ◌∷◌, ◌++◌, map,
  append-nil, append_assoc, arith, ltb, leb, ◌==◌, if◌then◌else◌, ltb→lt, lt→ltb, leb→le, ==_iff,
  Bool-cases, Option-cases, Bool-ext, and-eq-true, or-eq-true, length, get_elem?, get_or, take,
  drop, replicate, keep_if, any, all, is_nil, length-append, List-cases, drop-append,
  keep_if-append, length-keep_if-le, any-append, Eq, eqb, nat_eq, list_beq, list_beq_iff, list_eq,
  pair_beq, pair_beq_iff, pair_eq, eqb_refl, eqb_sym, contains, contains-append, IsDistinct,
  contains-keep_if, unseen, unseen-cons-le, unseen-cons-lt, Text, codes, is_space, lstrip, rstrip,
  strip, starts_with, starts_with-append, ends_with, has_part, before, split_on, join, rpartition,
  basename,
}
use arvern_ips.Prelude.Dict.{
  Dict, keys, lookup, insert, has_key, set_default, lookup-insert, has_key-insert, has_key-lookup,
  contains-keys, insert-IsDistinct,
}
use arvern_ips.Prelude.Decimal.{
  is_digit, is_number, int, show, int-show, show_injective, is_number-show,
}
use arvern_ips.Prelude.Sorting.{
  text_le, text_le_total, text_le_trans, insert_sorted, sort, IsSorted, length-insert_sorted,
  length-sort, all-sort, sort-IsSorted, contains-insert_sorted, contains-sort,
}
use arvern_ips.Waivers.Anchor.{is_word}
use arvern_ips.Waivers.Json.{Json, null, bool, num, str, arr, obj, elems}
use arvern_ips.Waivers.Load.{
  Problem, problem, Loaded, unterminated, wrong_label, not_json, not_list, no_waivers, add_dict,
}

-- `re.match(r'\s*```(\w*)\s*$', ln)`, and the label.
unfoldable pub fence_label : Text → Option Text
fence_label ln =
    let s = lstrip ln in
    let label = rstrip (drop 3 s) in
    if starts_with s (codes "```") && all is_word label then some label else none

-- `re.match(r'\s*```\s*$', ln)`
unfoldable pub is_close : Text → Bool
is_close ln = elim (fence_label ln) [ none ↦ false | some label ↦ is_nil label ]

-- `(lang, start, buf)`
pub record Block : Type 0 where
  pub lang : Text
  pub start : ℕ
  pub buf : List Text

-- The blocks behind a line number; or the start of the fence that is not closed.
pub data Scan : Type 0 where
  scanned : List Block → Scan
  open_fence : ℕ → Scan

abbrev pub cons_block : Block → Scan → Scan
cons_block b (scanned bs) = scanned (b ∷ bs)
cons_block b (open_fence n) = open_fence n

unfoldable pub scan : ℕ → Option Block → List Text → Scan
scan n none [] = scanned []
scan n (some b) [] = open_fence b.start
scan n none (ln ∷ lines) =
    scan (suc n)
      (elim (fence_label ln) [
        | none ↦ none
        | some label ↦ some (record { lang = label; start = n; buf = [] })
      ])
      lines
scan n (some b) (ln ∷ lines) =
    let closed = cons_block b (scan (suc n) none lines) in
    let inside = scan (suc n) (some (record b { buf = b.buf ++ (ln ∷ []) })) lines in
    if is_close ln then closed else inside

-- `next((l.strip() for l in buf if l.strip()), '')`
unfoldable pub head_line : List Text → Text
head_line [] = []
head_line (l ∷ buf) = if is_nil (strip l) then head_line buf else strip l

unfoldable pub looks_like_waivers : Block → Bool
looks_like_waivers b =
    starts_with (head_line b.buf) (codes "[") || starts_with (head_line b.buf) (codes "{")

unfoldable pub place_at : Text → ℕ → Text
place_at path n = path ++ (b':' ∷ show n)

abbrev pub add_problem : Loaded → Problem → Loaded
add_problem l p = record l { errors = l.errors ++ (p ∷ []) }

module _ (loads : Text → Option Json) (compiles : Text → Bool) (repr : Json → Text)
    (path : Text) where
  unfoldable pub add_entries : Text → Loaded → List Json → Loaded
  add_entries place l [] = l
  add_entries place l (w ∷ ws) = add_entries place (add_dict compiles repr l place w) ws

  -- What a `json` block holds, if it holds a list.
  unfoldable pub load_json : ℕ → Loaded → Option Json → Loaded
  load_json start l none = add_problem l (problem (place_at path start) not_json)
  load_json start l (some (arr ws)) = add_entries (place_at path start) l (elems ws)
  load_json start l (some v) = add_problem l (problem (place_at path start) not_list)

  unfoldable pub load_block : Loaded → Block → Loaded
  load_block l b =
      if eqb b.lang (codes "json")
      then load_json b.start l (loads (join (codes "\n") b.buf))
      else if looks_like_waivers b
      then add_problem l (problem (place_at path b.start) (wrong_label b.lang))
      else l

  unfoldable pub load_blocks : Loaded → List Block → Loaded
  load_blocks l [] = l
  load_blocks l (b ∷ bs) = load_blocks (load_block l b) bs

  abbrev pub entries_of : Option Json → List Json
  entries_of (some (arr ws)) = elems ws
  entries_of v = []

  -- The entries of a block: `found` counts them.
  unfoldable pub block_entries : Block → List Json
  block_entries b =
      if eqb b.lang (codes "json") then entries_of (loads (join (codes "\n") b.buf)) else []

  unfoldable pub all_entries : List Block → List Json
  all_entries [] = []
  all_entries (b ∷ bs) = block_entries b ++ all_entries bs

  unfoldable pub load_scan : Scan → Loaded
  load_scan (open_fence n) = record {
    items = [];
    errors = problem (place_at path n) unterminated ∷ [];
  }
  load_scan (scanned blocks) =
      let l = load_blocks (record { items = []; errors = [] }) blocks in
      if is_nil (all_entries blocks) && is_nil l.errors
      then add_problem l (problem path no_waivers)
      else l

  unfoldable pub load_md : List Text → Loaded
  load_md lines = load_scan (scan 1 none lines)
