-- ===== src/Waivers/Match.antt =====
-- `Waiver`, `Waivers.match` and `Waivers.stale`. The regular expressions of `re/.../` locators are
-- the parameter `search`, and what the source files hold is the parameter `source`.
pub mod Stale
use arvern_ips.Prelude.{
  ℕ, zero, suc, ◌+◌, ◌-◌, ◌*◌, ◌/◌, ◌%◌, ◌≤◌, ◌<◌, max, min, ◌≡◌, refl, sym, ap, ◌∙◌, ◌≢◌, ◌↔◌, ◌⊎◌,
  inl, inr, Bool, true, false, not, ◌&&◌, ◌||◌, Option, none, some, List, [], ◌∷◌, ◌++◌, map,
  append-nil, append_assoc, arith, ltb, leb, ◌==◌, if◌then◌else◌, ltb→lt, lt→ltb, leb→le, ==_iff,
  Bool-cases, Option-cases, Bool-ext, and-eq-true, or-eq-true, length, get_elem?, get_or, take,
  drop, replicate, keep_if, any, all, is_nil, length-append, List-cases, drop-append,
  keep_if-append, length-keep_if-le, any-append, Eq, eqb, nat_eq, list_beq, list_beq_iff, list_eq,
  pair_beq, pair_beq_iff, pair_eq, eqb_refl, eqb_sym, contains, contains-append, IsDistinct,
  contains-keep_if, unseen, unseen-cons-le, unseen-cons-lt, Text, codes, is_space, lstrip, rstrip,
  strip, starts_with, starts_with-append, ends_with, has_part, before, split_on, join, rpartition,
  basename,
}
use arvern_ips.Prelude.Dict.{
  Dict, keys, lookup, insert, has_key, set_default, lookup-insert, has_key-insert, has_key-lookup,
  contains-keys, insert-IsDistinct,
}
use arvern_ips.Prelude.Decimal.{
  is_digit, is_number, int, show, int-show, show_injective, is_number-show,
}
use arvern_ips.Prelude.Sorting.{
  text_le, text_le_total, text_le_trans, insert_sorted, sort, IsSorted, length-insert_sorted,
  length-sort, all-sort, sort-IsSorted, contains-insert_sorted, contains-sort,
}
use arvern_ips.Waivers.Glob.{fnmatch}

-- The line number, the literal text or the regular expression of a waiver: exactly one is set.
pub data Locator : Type 0 where
  at_line : ℕ → Locator
  at_text : Text → Locator
  at_regex : Text → Locator

pub record Waiver : Type 0 where
  pub file : Text
  pub locator : Locator
  pub pages : List Text
  pub sig : Option Text
  pub reason : Text
  pub src : Text
  pub hits : ℕ

-- `TYPES`
abbrev pub types : Dict Text Text
types =
    (codes "line", codes "v_line")
    ∷ (codes "branch", codes "v_branch")
    ∷ (codes "toggle", codes "v_toggle")
    ∷ []

-- One coverage point.
pub record Point : Type 0 where
  pub path : Text
  pub line : ℕ
  pub page : Text
  pub sig : Text

-- `str(w)`
unfoldable pub waiver_name : Waiver → Text
waiver_name w =
    w.file
    ++ (b':' ∷ elim w.locator [
      | at_line n ↦ show n
      | at_text t ↦ b'/' ∷ (t ++ codes "/")
      | at_regex r ↦ codes "re/" ++ (r ++ codes "/")
    ])

module _ (source : Text → List Text) (search : Text → Text → Bool) where
  -- `_srcline`: a line of the file counted from 1, or the empty text out of range.
  unfoldable pub src_line : Text → ℕ → Text
  src_line path zero = []
  src_line path (suc n) = get_or (source path) n []

  unfoldable pub locates : Locator → Text → ℕ → Bool
  locates (at_line n) path line = n == line
  locates (at_text t) path line = has_part (src_line path line) t
  locates (at_regex r) path line = search r (src_line path line)

  -- `not (w.sig and not fnmatch(sig or '', w.sig))`: an empty glob selects every signal.
  unfoldable pub selects : Option Text → Text → Bool
  selects none sig = true
  selects (some glob) sig = is_nil glob || fnmatch sig glob

  -- The tests of one round of the loop of `match`.
  unfoldable pub covers : Waiver → Point → Bool
  covers w p =
      eqb w.file (basename p.path)
      && (contains w.pages p.page && (locates w.locator p.path p.line && selects w.sig p.sig))

  -- The first waiver that covers the point, with its hit counted, and all waivers afterwards.
  unfoldable pub match : List Waiver → Point → Option Waiver × List Waiver
  match [] p = (none, [])
  match (w ∷ ws) p =
      let rest = match ws p in
      let counted = record w { hits = w.hits + 1 } in
      if covers w p then (some counted, counted ∷ ws) else (rest.0, w ∷ rest.1)

  -- The points of a report are matched in turn, as `cov_report.main` does: the points that no
  -- waiver covers are kept.
  unfoldable pub match_all : List Waiver → List Point → List Point × List Waiver
  match_all ws [] = ([], ws)
  match_all ws (p ∷ ps) =
      let (found, ws') = match ws p in
      let rest = match_all ws' ps in elim found [ some w ↦ rest | none ↦ (p ∷ rest.0, rest.1) ]

-- `stale`
unfoldable pub stale : List Waiver → List Waiver
stale = keep_if (λ (w : Waiver). w.hits == 0)
