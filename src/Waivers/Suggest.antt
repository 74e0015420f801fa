-- ===== src/Waivers/Suggest.antt =====
-- ahb_aclint/sim/rtl_sim/bin/cov_waive.py: `suggest_entries`. What the source files hold is the
-- parameter `source`.
pub mod Entries
pub mod Groups
pub mod Covered
pub mod Loaded
use arvern_ips.Prelude.{
  ℕ, ◌-◌, max, Bool, true, false, not, ◌&&◌, ◌||◌, Option, none, some, List, [], ◌∷◌, ◌++◌, map,
  leb, ◌==◌, if◌then◌else◌, length, take, drop, keep_if, is_nil, eqb, nat_eq, list_eq, pair_eq,
  Text, codes, ends_with, before, rpartition, basename,
}
use arvern_ips.Prelude.Dict.{Dict, lookup, insert}
use arvern_ips.Prelude.Decimal.{is_number, int, show}
use arvern_ips.Prelude.Sorting.{text_le, sort}
use arvern_ips.Waivers.Glob.{glob_literal}
use arvern_ips.Waivers.Fold.{signal_globs}
use arvern_ips.Waivers.Match.{types}
use arvern_ips.Waivers.Json.{Json, str, obj, end, prop}
use arvern_ips.Waivers.Load.{placeholder}
use arvern_ips.Waivers.Anchor.{src_anchor}
use arvern_ips.Points.Database.{Hit, fields, field_or}

-- `(page, path, line, sig, count)`
pub record Sighting : Type 0 where
  pub page : Text
  pub path : Text
  pub line : ℕ
  pub sig : Text
  pub count : ℕ

-- `(page, path, sig)`, and `(page, path, base)`
abbrev pub Place : Type 0
Place = Text × (Text × Text)

-- `kind and TYPES.get(kind) != page`
unfoldable pub is_other_kind : Option Text → Text → Bool
is_other_kind none page = false
is_other_kind (some kind) page =
    not (is_nil kind) && elim (lookup kind types) [ none ↦ true | some p ↦ not (eqb p page) ]

unfoldable pub is_asked : Text → ℕ → Option Text → Sighting → Bool
is_asked file_hint line kind r =
    (ends_with r.path (b'/' ∷ file_hint) || eqb (basename r.path) file_hint)
    && (r.line == line && not (is_other_kind kind r.page))

-- `acc[k] = max(acc.get(k, 0), cnt)`
unfoldable pub add_sighting : Dict Place ℕ → Sighting → Dict Place ℕ
add_sighting acc r =
    let k : Place = (r.page, (r.path, r.sig)) in
    elim (lookup k acc) [ none ↦ insert k r.count acc | some n ↦ insert k (max n r.count) acc ]

unfoldable pub collapse : Text → ℕ → Option Text → Dict Place ℕ → List Sighting → Dict Place ℕ
collapse file_hint line kind acc [] = acc
collapse file_hint line kind acc (r ∷ rs) =
    collapse file_hint line kind
      (if is_asked file_hint line kind r then add_sighting acc r else acc) rs

-- The base and the index of `base[index]`.
unfoldable pub indexed : Text → Option (Text × ℕ)
indexed sig = elim (rpartition b'[' sig) [
  | none ↦ none
  | some (base, rest) ↦
      let n = length rest - 1 in
      if is_number (take n rest) && eqb (drop n rest) (codes "]")
      then some (base, int (take n rest))
      else none
]

unfoldable pub base_of : Text → Text
base_of sig = elim (indexed sig) [ none ↦ sig | some (base, n) ↦ base ]

-- `bybase.setdefault(k, []).append(m)`
unfoldable pub add_member :
    Place → Text × ℕ → Dict Place (List (Text × ℕ)) → Dict Place (List (Text × ℕ))
add_member k m groups = elim (lookup k groups) [
  | none ↦ insert k (m ∷ []) groups
  | some members ↦ insert k (members ++ (m ∷ [])) groups
]

unfoldable pub by_base : Dict Place (List (Text × ℕ)) → Dict Place ℕ → Dict Place (List (Text × ℕ))
by_base groups [] = groups
by_base groups (((page, (path, sig)), cnt) ∷ hits) =
    by_base (add_member (page, (path, base_of sig)) (sig, cnt) groups) hits

unfoldable pub present_bits : List (Text × ℕ) → List ℕ
present_bits [] = []
present_bits ((sig, cnt) ∷ members) = elim (indexed sig) [
  | none ↦ present_bits members
  | some (base, n) ↦ n ∷ present_bits members
]

unfoldable pub is_uncovered : Text × ℕ → Bool
is_uncovered (sig, cnt) = cnt == 0

-- The uncovered signals without an index.
unfoldable pub plain_names : List (Text × ℕ) → List Text
plain_names [] = []
plain_names ((sig, cnt) ∷ members) = elim (indexed sig) [
  | none ↦ if cnt == 0 then sig ∷ plain_names members else plain_names members
  | some p ↦ plain_names members
]

pub record Entry : Type 0 where
  pub file : Text
  pub at : Text
  pub kind : Text
  pub sig : Text
  pub why : Text

-- The text for a person to complete, with the placeholder in it.
abbrev pub stub : Text
stub = codes "unreachable: " ++ (placeholder ++ codes " ")

-- `rev.get(page, page)`
unfoldable pub kind_of_page : Dict Text Text → Text → Text
kind_of_page [] page = page
kind_of_page ((kind, p) ∷ ts) page = if eqb p page then kind else kind_of_page ts page

unfoldable pub group_entries : Text → Place × List (Text × ℕ) → List Entry
group_entries at ((page, (path, base)), members) =
    let want = present_bits (keep_if is_uncovered members) in
    let globs : List Text =
      if is_nil want
      then []
      else signal_globs base (sort leb want) (sort leb (present_bits members)) in
    map
      (λ (glob : Text). record {
        file = basename path;
        at = at;
        kind = kind_of_page types page;
        sig = glob;
        why = stub;
      })
      (map glob_literal (sort text_le (plain_names members)) ++ globs)

-- The dict of an entry, as JSON, without the key `_folded`, which the callers take out.
unfoldable pub entry_json : Entry → Json
entry_json e = obj (
    prop (codes "file") (str e.file) (
      prop (codes "at") (str e.at) (
        prop (codes "type") (str e.kind)
          (prop (codes "sig") (str e.sig) (prop (codes "why") (str e.why) end)))))

unfoldable pub all_entries : Text → List (Place × List (Text × ℕ)) → List Entry
all_entries at [] = []
all_entries at (g ∷ gs) = group_entries at g ++ all_entries at gs

-- The order of tuples.
unfoldable pub place_le : Place → Place → Bool
place_le (a, (b, c)) (a', (b', c')) =
    if eqb a a' then (if eqb b b' then text_le c c' else text_le b b') else text_le a a'

module _ (source : Text → List Text) where
  unfoldable pub anchor_of : Dict Place ℕ → ℕ → Option Text
  anchor_of [] line = none
  anchor_of (((page, (path, sig)), cnt) ∷ live) line =
      src_anchor (source path) line (before (codes "[") sig)

  unfoldable pub locator_of : Option Text → ℕ → Text
  locator_of none line = show line
  locator_of (some anchor) line = b'/' ∷ (anchor ++ codes "/")

  -- The entries, the number of covered points left out, and whether the anchor is literal.
  unfoldable pub suggest_entries : List Sighting → Text → ℕ → Option Text → List Entry × (ℕ × Bool)
  suggest_entries records file_hint line kind =
      let hits = collapse file_hint line kind [] records in
      let live = keep_if (λ (h : Place × ℕ). h.1 == 0) hits in
      let anchor = anchor_of live line in
      let groups =
        sort (λ (g : Place × List (Text × ℕ)) (h : Place × List (Text × ℕ)). place_le g.0 h.0)
          (by_base [] hits) in
      if is_nil live then ([], (length hits, true)) else (
        all_entries (locator_of anchor line) groups,
        (length hits - length live, elim anchor [ none ↦ false | some a ↦ true ]),
      )

-- `records_from_report`
unfoldable pub records_from_report : Dict Text Hit → List Sighting
records_from_report [] = []
records_from_report ((key, h) ∷ points) =
    let d = fields key in
    let l = field_or (codes "l") d [] in
    record {
      page = before (codes "/") h.page;
      path = h.path;
      line = (if is_nil l then 0 else int l);
      sig = field_or (codes "o") d [];
      count = h.count;
    }
    ∷ records_from_report points
