-- ===== src/Tests/Page.antt =====
-- Examples of the theorems on the page of the code coverage.
use arvern_ips.Prelude.{
  ℕ, zero, suc, ◌+◌, ◌-◌, ◌*◌, ◌/◌, ◌%◌, ◌≤◌, ◌<◌, max, min, ◌≡◌, refl, sym, ap, ◌∙◌, ◌≢◌, ◌↔◌, ◌⊎◌,
  inl, inr, Bool, true, false, not, ◌&&◌, ◌||◌, Option, none, some, List, [], ◌∷◌, ◌++◌, map,
  append-nil, append_assoc, arith, ltb, leb, ◌==◌, if◌then◌else◌, ltb→lt, lt→ltb, leb→le, ==_iff,
  Bool-cases, Option-cases, Bool-ext, and-eq-true, or-eq-true, length, get_elem?, get_or, take,
  drop, replicate, keep_if, any, all, is_nil, length-append, List-cases, drop-append,
  keep_if-append, length-keep_if-le, any-append, Eq, eqb, nat_eq, list_beq, list_beq_iff, list_eq,
  pair_beq, pair_beq_iff, pair_eq, eqb_refl, eqb_sym, contains, contains-append, IsDistinct,
  contains-keep_if, unseen, unseen-cons-le, unseen-cons-lt, Text, codes, is_space, lstrip, rstrip,
  strip, starts_with, starts_with-append, ends_with, has_part, before, split_on, join, rpartition,
  basename,
}
use arvern_ips.Prelude.Dict.{Dict, lookup, insert}
use arvern_ips.Prelude.Decimal.{
  is_digit, is_number, int, show, int-show, show_injective, is_number-show,
}
use arvern_ips.Html.Read.{Key, Cover, parse}
use arvern_ips.Html.Read.Tests.{names, is_hit, counts, counted_by, parse-tests}
use arvern_ips.Html.Views.{Place, Entry, inst_view, acc_from, acc_view}
use arvern_ips.Html.Views.Collapse.{is_open, some_at, was_hit, was_open, acc_from-instances}
use arvern_ips.Html.Pages.{items_of, count_if, is_live, total}
use arvern_ips.Html.Pages.Totals.{is_live_hit, on_page, total-counts}

abbrev rtl : List Text
rtl = codes "/rtl/verilog/" ∷ []

abbrev point_key : Text
point_key =
    1 ∷ codes "f"
    ++ (2 ∷ codes "/rtl/verilog/a.v"
        ++ (1 ∷ codes "page" ++ (2 ∷ codes "v_line" ++ (1 ∷ codes "l" ++ (2 ∷ codes "7")))))

abbrev dats : List (Text × List Text)
dats = (codes "dats/cov_reset.dat", (codes "C '" ++ (point_key ++ codes "' 3")) ∷ []) ∷ []

abbrev at_key : Key
at_key = (codes "/rtl/verilog/a.v", (7, (codes "v_line", ([], ([], ([], codes "v_line"))))))

abbrev out : Dict Key Cover
out = (at_key, record { count = 3; tests = codes "reset" ∷ [] }) ∷ []

parse-dats : parse rtl dats ≡ some out
unfolding parse arvern_ips.Html.Read.parse_files arvern_ips.Html.Read.parse_lines
    arvern_ips.Html.Read.parse_line starts_with is_number strip arvern_ips.Points.Database.cut_count
    has_part arvern_ips.Points.Database.field_or lookup arvern_ips.Points.Database.fields
    arvern_ips.Points.Database.add_fields split_on arvern_ips.Points.Database.split_pair insert
    list_beq contains arvern_ips.Html.Read.add_point arvern_ips.Html.Read.bumped
    arvern_ips.Html.Read.key_of arvern_ips.Html.Read.known arvern_ips.Html.Read.test_name
    arvern_ips.Points.Scope.add int arvern_ips.Prelude.Decimal.int_from is_digit basename before
    is_space lstrip rpartition rstrip
parse-dats = refl

parse-tests_example :
    (names (codes "reset") (lookup at_key out) ≡ counted_by rtl at_key (codes "reset") dats)
    × (is_hit (lookup at_key out)
        ≡ any (λ (d : Text × List Text). any (counts rtl at_key) d.1) dats)
parse-tests_example = parse-tests rtl dats at_key (codes "reset") out parse-dats

abbrev other_key : Key
other_key =
    (codes "/rtl/verilog/a.v", (7, (codes "v_line", ([], (codes "top.u1", ([], codes "v_line"))))))

abbrev two_instances : Dict Key Entry
two_instances =
    (at_key, record { count = 3; tests = codes "reset" ∷ []; reason = none })
    ∷ (other_key, record { count = 0; tests = []; reason = some (codes "tied off") })
    ∷ []

abbrev line_seven : Place
line_seven = (codes "/rtl/verilog/a.v", (7, (codes "v_line", ([], []))))

acc_from-instances_example :
    (arvern_ips.Html.Views.Collapse.is_hit (lookup line_seven (acc_from [] two_instances))
      ≡ some_at was_hit line_seven two_instances)
    × (is_open (lookup line_seven (acc_from [] two_instances))
        ≡ some_at was_open line_seven two_instances)
acc_from-instances_example = acc_from-instances two_instances line_seven

total-counts_example : total (items_of two_instances) (codes "v_line") ≡ (
  count_if (λ it. is_live_hit it && on_page (codes "v_line") it) (items_of two_instances),
  count_if (λ it. is_live it && on_page (codes "v_line") it) (items_of two_instances),
)
total-counts_example = total-counts (items_of two_instances) (codes "v_line")
