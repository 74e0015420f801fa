-- ===== src/Html/Pages/Totals.antt =====
-- The totals of a page, against the points of the view.
use arvern_ips.Prelude.{
  ℕ, ◌≡◌, refl, ◌∙◌, Bool, ◌&&◌, List, [], ◌∷◌, keep_if, eqb, nat_eq, list_eq, pair_eq, Text,
}
use arvern_ips.Prelude.Sorting.{text_le, contains-sort}
use arvern_ips.Html.Pages.{
  Item, groups, is_live, is_hit, count_if, line_view, line_of, path_of, add_lines, page_view,
  in_file, paths_of, add_totals, total,
}
use arvern_ips.Html.Pages.Groups.{
  count_if-keep_if, length-keep_if, sort-IsDistinct, groups-IsDistinct, groups-contains, sum_counts,
  sum_counts_lem,
}

-- The point is not waived and was hit.
abbrev pub is_live_hit : Item → Bool
is_live_hit it = is_hit it && is_live it

-- The point is of the page.
abbrev pub on_page : Text → Item → Bool
on_page page it = eqb it.page page

add_lines-counts :
    (page : Text) (items : List Item) (lines : List ℕ)
    → ((add_lines page items lines).hit ≡ sum_counts line_of is_live_hit items lines)
      × ((add_lines page items lines).found ≡ sum_counts line_of is_live items lines)
unfolding add_lines line_view
add_lines-counts page items [] = (refl, refl)
add_lines-counts page items (line ∷ lines) =
    let here = keep_if (λ (it : Item). eqb it.line line) items in
    let rest = add_lines-counts page items lines in
    let hits =
      count_if-keep_if is_hit is_live here
      ∙ count_if-keep_if is_live_hit (λ (it : Item). eqb it.line line) items in
    let lives =
      length-keep_if is_live here
      ∙ count_if-keep_if is_live (λ (it : Item). eqb it.line line) items in
    (rw (hits, rest.0) refl, rw (lives, rest.1) refl)

page_view-counts :
    (items : List Item) (page : Text)
    → ((page_view items page).hit ≡ count_if (λ it. is_live_hit it && on_page page it) items)
      × ((page_view items page).found ≡ count_if (λ it. is_live it && on_page page it) items)
unfolding page_view
page_view-counts items page =
    let here = keep_if (λ (it : Item). eqb it.page page) items in
    let counts = add_lines-counts page here (groups line_of here) in
    let sums = λ (q : Item → Bool).
      sum_counts_lem line_of q here (groups line_of here) (groups-IsDistinct line_of here)
        (λ k h. groups-contains line_of here k ∙ h) in
    (
      counts.0 ∙ sums is_live_hit ∙ count_if-keep_if is_live_hit (on_page page) items,
      counts.1 ∙ sums is_live ∙ count_if-keep_if is_live (on_page page) items,
    )

add_totals-counts :
    (items : List Item) (page : Text) (paths : List Text)
    → add_totals items page paths ≡ (
      sum_counts path_of (λ it. is_live_hit it && on_page page it) items paths,
      sum_counts path_of (λ it. is_live it && on_page page it) items paths,
    )
unfolding add_totals
add_totals-counts items page [] = refl
add_totals-counts items page (path ∷ paths) =
    let counts = page_view-counts (in_file items path) page in
    let filed = λ (q : Item → Bool). count_if-keep_if q (λ (it : Item). eqb it.path path) items in
    rw
      (
        counts.0,
        counts.1,
        filed (λ it. is_live_hit it && on_page page it),
        filed (λ it. is_live it && on_page page it),
        add_totals-counts items page paths,
      )
      refl

-- The totals of a view count, over all files and lines, each point of the page that is not waived
-- once among the found ones, and each of these that some test hit once among the hit ones.
pub total-counts :
    (items : List Item) (page : Text)
    → total items page ≡ (
      count_if (λ it. is_live_hit it && on_page page it) items,
      count_if (λ it. is_live it && on_page page it) items,
    )
unfolding total paths_of
total-counts items page =
    let sums = λ (q : Item → Bool).
      sum_counts_lem path_of q items (paths_of items)
        (sort-IsDistinct text_le (groups path_of items) (groups-IsDistinct path_of items))
        (λ k h.
          contains-sort text_le (groups path_of items) k ∙ groups-contains path_of items k ∙ h) in
    rw
      (
        add_totals-counts items page (paths_of items),
        sums (λ it. is_live_hit it && on_page page it),
        sums (λ it. is_live it && on_page page it),
      )
      refl
