-- ===== src/Html/Pages.antt =====
-- ahb_aclint/sim/rtl_sim/bin/cov_html.py: the rest of `build`, from a view to the annotated files and
-- the totals.
pub mod Groups
pub mod Totals
use arvern_ips.Prelude.{
  ℕ, zero, suc, ◌+◌, ◌-◌, ◌*◌, ◌/◌, ◌%◌, ◌≤◌, ◌<◌, max, min, ◌≡◌, refl, sym, ap, ◌∙◌, ◌≢◌, ◌↔◌, ◌⊎◌,
  inl, inr, Bool, true, false, not, ◌&&◌, ◌||◌, Option, none, some, List, [], ◌∷◌, ◌++◌, map,
  append-nil, append_assoc, arith, ltb, leb, ◌==◌, if◌then◌else◌, ltb→lt, lt→ltb, leb→le, ==_iff,
  Bool-cases, Option-cases, Bool-ext, and-eq-true, or-eq-true, length, get_elem?, get_or, take,
  drop, replicate, keep_if, any, all, is_nil, length-append, List-cases, drop-append,
  keep_if-append, length-keep_if-le, any-append, Eq, eqb, nat_eq, list_beq, list_beq_iff, list_eq,
  pair_beq, pair_beq_iff, pair_eq, eqb_refl, eqb_sym, contains, contains-append, IsDistinct,
  contains-keep_if, unseen, unseen-cons-le, unseen-cons-lt, Text, codes, is_space, lstrip, rstrip,
  strip, starts_with, starts_with-append, ends_with, has_part, before, split_on, join, rpartition,
  basename,
}
use arvern_ips.Prelude.Dict.{
  Dict, keys, lookup, insert, has_key, set_default, lookup-insert, has_key-insert, has_key-lookup,
  contains-keys, insert-IsDistinct,
}
use arvern_ips.Prelude.Decimal.{
  is_digit, is_number, int, show, int-show, show_injective, is_number-show,
}
use arvern_ips.Prelude.Sorting.{
  text_le, text_le_total, text_le_trans, insert_sorted, sort, IsSorted, length-insert_sorted,
  length-sort, all-sort, sort-IsSorted, contains-insert_sorted, contains-sort,
}
use arvern_ips.Points.Scope.{add_all}
use arvern_ips.Html.Read.{pages, Key}
use arvern_ips.Html.Views.{Place, Entry, is_waived}

-- What `per_file` holds: `(sig, cnt, tests, r)` under its path, page and line.
pub record Item : Type 0 where
  pub path : Text
  pub line : ℕ
  pub page : Text
  pub sig : Text
  pub entry : Entry

-- The items of a view, whose keys begin with the path, the line, the page and the signal.
unfoldable pub items_of {ℓ} :
    {K : Type ℓ} → Dict (Text × (ℕ × (Text × (Text × K)))) Entry → List Item
items_of [] = []
items_of (((path, (line, (page, (sig, rest)))), e) ∷ view) =
    record { path = path; line = line; page = page; sig = sig; entry = e } ∷ items_of view

-- The keys of a dict that the items are appended under, in the order of the first ones.
unfoldable pub groups {ℓ κ} : {A : Type ℓ} {B : Type κ} ⦃e : Eq B⦄ → (A → B) → List A → List B
groups key [] = []
groups key (x ∷ xs) = key x ∷ keep_if (λ k. not (eqb k (key x))) (groups key xs)

abbrev pub is_live : Item → Bool
is_live it = not (is_waived it.entry.reason)

abbrev pub is_hit : Item → Bool
is_hit it = ltb 0 it.entry.count

unfoldable pub count_if {ℓ} : {A : Type ℓ} → (A → Bool) → List A → ℕ
count_if q [] = 0
count_if q (x ∷ xs) = (if q x then 1 else 0) + count_if q xs

-- An entry of `detail`; few tests are named.
pub record Detail : Type 0 where
  pub sig : Text
  pub count : ℕ
  pub n_tests : ℕ
  pub named : Option (List Text)

-- `key=lambda x: (x[0], -x[1])`
unfoldable pub detail_le : Item → Item → Bool
detail_le a b = if eqb a.sig b.sig then leb b.entry.count a.entry.count else text_le a.sig b.sig

unfoldable pub detail : Item → Detail
detail it = record {
  sig = it.sig;
  count = it.entry.count;
  n_tests = length it.entry.tests;
  named =
      (if ltb 0 (length it.entry.tests) && leb (length it.entry.tests) 6
        then some (sort text_le it.entry.tests)
        else none);
}

pub record LineView : Type 0 where
  pub line : ℕ
  pub hit : ℕ
  pub tot : ℕ
  pub miss : List Text
  pub details : List Detail
  pub waived : List (Text × (ℕ × Option Text))

unfoldable pub missed : List Item → List Text
missed live = take 24 (
    sort text_le (
      add_all
        (map (λ (it : Item). it.sig)
          (keep_if (λ (it : Item). not (is_hit it) && not (is_nil it.sig)) live))
        []))

unfoldable pub line_view : ℕ → List Item → LineView
line_view line items =
    let live = keep_if is_live items in
    let wvd = keep_if (λ it. not (is_live it)) items in
    record {
      line = line;
      hit = count_if is_hit live;
      tot = length live;
      miss = missed live;
      details = map detail (take 40 (sort detail_le live));
      waived =
          map (λ (it : Item). (it.sig, (it.entry.count, it.entry.reason)))
            (take 12 (sort (λ (a : Item) (b : Item). text_le a.sig b.sig) wvd));
    }

pub record PageView : Type 0 where
  pub page : Text
  pub lines : List LineView
  pub hit : ℕ
  pub found : ℕ
  pub n_waived : ℕ

abbrev pub line_of : Item → ℕ
line_of it = it.line

abbrev pub path_of : Item → Text
path_of it = it.path

unfoldable pub add_lines : Text → List Item → List ℕ → PageView
add_lines page items [] = record { page = page; lines = []; hit = 0; found = 0; n_waived = 0 }
add_lines page items (line ∷ lines) =
    let here = keep_if (λ (it : Item). eqb it.line line) items in
    let v = line_view line here in
    let rest = add_lines page items lines in
    record {
      page = page;
      lines = v ∷ rest.lines;
      hit = v.hit + rest.hit;
      found = v.tot + rest.found;
      n_waived = length (keep_if (λ it. not (is_live it)) here) + rest.n_waived;
    }

-- `pv[page]`, from `pages[page]` of one file.
unfoldable pub page_view : List Item → Text → PageView
page_view items page =
    let here = keep_if (λ (it : Item). eqb it.page page) items in
    add_lines page here (groups line_of here)

abbrev pub in_file : List Item → Text → List Item
in_file items path = keep_if (λ (it : Item). eqb it.path path) items

unfoldable pub file_view : List Item → Text → List PageView
file_view items path = map (page_view (in_file items path)) pages

unfoldable pub paths_of : List Item → List Text
paths_of items = sort text_le (groups path_of items)

-- `totals[view][page]`
unfoldable pub add_totals : List Item → Text → List Text → ℕ × ℕ
add_totals items page [] = (0, 0)
add_totals items page (path ∷ paths) =
    let v = page_view (in_file items path) page in
    let rest = add_totals items page paths in (v.hit + rest.0, v.found + rest.1)

unfoldable pub total : List Item → Text → ℕ × ℕ
total items page = add_totals items page (paths_of items)

-- `files[name]`; a view that was not reached yet has no pages.
pub record FileEntry : Type 0 where
  pub path : Text
  pub src : List Text
  pub acc : List PageView
  pub inst : List PageView

module _ (read : Text → Option (List Text)) where
  unfoldable pub source_of : Text → List Text
  source_of path = elim (read path) [
    | some src ↦ src
    | none ↦ (codes "(source not readable: " ++ (path ++ codes ")")) ∷ []
  ]

  -- A file whose name is there keeps its path and its source, and gets the new pages.
  unfoldable pub file_at : Dict Text FileEntry → Text → FileEntry
  file_at files path = elim (lookup (basename path) files) [
    | some entry ↦ entry
    | none ↦ record { path = path; src = source_of path; acc = []; inst = [] }
  ]

  unfoldable pub add_acc : List Item → Dict Text FileEntry → List Text → Dict Text FileEntry
  add_acc items files [] = files
  add_acc items files (path ∷ paths) =
      let entry : FileEntry = record (file_at files path) { acc = file_view items path } in
      add_acc items (insert (basename path) entry files) paths

  unfoldable pub add_inst : List Item → Dict Text FileEntry → List Text → Dict Text FileEntry
  add_inst items files [] = files
  add_inst items files (path ∷ paths) =
      let entry : FileEntry = record (file_at files path) { inst = file_view items path } in
      add_inst items (insert (basename path) entry files) paths

  -- `files`
  unfoldable pub build_files : Dict Place Entry → Dict Key Entry → Dict Text FileEntry
  build_files acc inst =
      let files = add_acc (items_of acc) [] (paths_of (items_of acc)) in
      add_inst (items_of inst) files (paths_of (items_of inst))
