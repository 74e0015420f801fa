-- ===== src/Tests/Reports.antt =====
-- Examples of the theorems on coverage, waivers and waves.
use arvern_ips.Prelude.{
  ℕ, ◌≡◌, refl, ◌↔◌, Bool, true, false, not, ◌&&◌, ◌||◌, none, some, List, [], ◌∷◌, ◌++◌, ltb,
  length, keep_if, any, all, eqb, nat_eq, list_beq, list_eq, pair_eq, contains, Text, codes,
  has_part,
}
use arvern_ips.Prelude.Dict.{Dict, lookup, insert, has_key}
use arvern_ips.Prelude.Decimal.{is_number, int}
use arvern_ips.Waivers.Glob.{fnmatch, glob_literal}
use arvern_ips.Waivers.Glob.Literal.{IsTame, fnmatch-glob_literal}
use arvern_ips.Waivers.Fold.{bit_name, any_glob, signal_globs}
use arvern_ips.Waivers.Fold.Exact.{signal_globs_exact}
use arvern_ips.Waivers.Match.{Waiver, at_line, at_text, Point, match_all}
use arvern_ips.Waivers.Match.Stale.{hits_of, expected_hits, is_waived, match_all-hits}
use arvern_ips.Waivers.Lint.{lint_points}
use arvern_ips.Waivers.Lint.Points.{is_justified, lint_points-eq-zero}
use arvern_ips.Points.Database.{Hit, fold_directions, parse_lines}
use arvern_ips.Points.Database.Directions.{is_hit, is_direction, fold_directions-covered}
use arvern_ips.Points.Database.Union.{counts, parse_lines-hit}
use arvern_ips.Vcd.Sample.{Row, posedge, sample}
use arvern_ips.Vcd.Sample.Window.{AreRows, sample-AreRows}

q-IsTame : IsTame (codes "q[0]")
q-IsTame = (refl, refl, (refl, refl, (refl, refl, (refl, refl, tt))))

fnmatch-glob_literal_example :
    fnmatch (codes "q[0]") (glob_literal (codes "q[0]")) ≡ eqb (codes "q[0]") (codes "q[0]")
fnmatch-glob_literal_example = fnmatch-glob_literal (codes "q[0]") (codes "q[0]") q-IsTame

four_present : contains {A = ℕ} (0 ∷ 3 ∷ 4 ∷ 5 ∷ []) 4 ≡ true
unfolding contains
four_present = refl

signal_globs_exact_example :
    any_glob
      (signal_globs (codes "q") (3 ∷ 4 ∷ 5 ∷ []) (0 ∷ 3 ∷ 4 ∷ 5 ∷ []))
      (bit_name (codes "q") 4)
    ≡ contains {A = ℕ} (3 ∷ 4 ∷ 5 ∷ []) 4
signal_globs_exact_example =
    signal_globs_exact (codes "q") (3 ∷ 4 ∷ 5 ∷ []) (0 ∷ 3 ∷ 4 ∷ 5 ∷ []) 4 ((refl, refl, tt))
      four_present

abbrev source : Text → List Text
source path = codes "assign q = d;" ∷ codes "assign r = 0;" ∷ []

abbrev search : Text → Text → Bool
search pattern line = has_part line pattern

abbrev waivers : List Waiver
waivers =
    record {
      file = codes "a.v";
      locator = at_line 1;
      pages = codes "v_toggle" ∷ [];
      sig = none;
      reason = codes "tied off";
      src = codes "w.toml";
      hits = 0;
    }
    ∷ record {
      file = codes "a.v";
      locator = at_text (codes "assign");
      pages = codes "v_toggle" ∷ [];
      sig = some (codes "r*");
      reason = codes "constant";
      src = codes "w.toml";
      hits = 0;
    }
    ∷ []

abbrev points : List Point
points =
    record { path = codes "/rtl/a.v"; line = 1; page = codes "v_toggle"; sig = codes "q" }
    ∷ record { path = codes "/rtl/a.v"; line = 2; page = codes "v_toggle"; sig = codes "r" }
    ∷ []

match_all-hits_example :
    (hits_of (match_all source search waivers points).1
      ≡ expected_hits source search (λ p. false) waivers points)
    × ((match_all source search waivers points).0
        ≡ keep_if (λ p. not (is_waived source search waivers p)) points)
match_all-hits_example = match_all-hits source search waivers points

abbrev unreached : Hit
unreached = record { page = codes "v_toggle"; path = codes "/rtl/a.v"; count = 0 }

-- The two points as a database has them.
abbrev unreached_points : Dict Text Hit
unreached_points =
    (codes "l" ++ (2 ∷ b'1' ∷ 1 ∷ b'o' ∷ 2 ∷ codes "q"), unreached)
    ∷ (codes "l" ++ (2 ∷ b'2' ∷ 1 ∷ b'o' ∷ 2 ∷ codes "r"), unreached)
    ∷ []

lint_points-eq-zero_example :
    ((lint_points source search waivers unreached_points ≡ 0)
      ↔ (all (is_justified source search unreached_points) waivers ≡ true))
    × (lint_points source search waivers unreached_points
        ≡ length (keep_if (λ w. not (is_justified source search unreached_points w)) waivers))
lint_points-eq-zero_example = lint_points-eq-zero source search waivers unreached_points

abbrev rise : Hit
rise = record { page = codes "v_toggle"; path = codes "/rtl/a.v"; count = 2 }

abbrev recorded : Dict Text Hit
recorded = (codes "q:0->1", rise) ∷ (codes "q:1->0", record rise { count = 0 }) ∷ []

no_plain : has_key (codes "q") recorded ≡ false
unfolding has_key list_beq
no_plain = refl

fold_directions-covered_example : is_hit (lookup (codes "q") (fold_directions [] recorded)) ≡ (
    any (is_direction (codes "q")) recorded
    && all (λ q. not (is_direction (codes "q") q) || ltb 0 q.1.count) recorded)
fold_directions-covered_example = fold_directions-covered recorded (codes "q") no_plain

abbrev key : Text
key = 1 ∷ codes "f" ++ (2 ∷ codes "/rtl/verilog/a.v")

abbrev database : List Text
database = (codes "C '" ++ (key ++ codes "' 3")) ∷ []

parse_lines-hit_example :
    is_hit (lookup key (parse_lines (codes "/rtl/verilog/" ∷ []) [] database))
    ≡ any (counts (codes "/rtl/verilog/" ∷ []) key) database
parse_lines-hit_example = parse_lines-hit (codes "/rtl/verilog/" ∷ []) database key

abbrev sig_ids : Dict Text Text
sig_ids = (codes "tb.q", codes "q") ∷ []

abbrev wave : List Text
wave =
    codes "#0" ∷ codes "0c" ∷ codes "1q" ∷ codes "#5" ∷ codes "1c" ∷ codes "#10" ∷ codes "0c" ∷ []

abbrev rows : List Row
rows = (5, (codes "tb.q", codes "1") ∷ []) ∷ []

sample-wave : sample sig_ids (codes "c") 1 0 20 posedge wave ≡ some rows
unfolding sample arvern_ips.Vcd.Sample.sample_lines is_number arvern_ips.Vcd.Sample.is_after int
    arvern_ips.Vcd.Sample.flush arvern_ips.Vcd.Sample.at_edge list_beq arvern_ips.Vcd.Sample.want
    arvern_ips.Vcd.Sample.value lookup arvern_ips.Vcd.Sample.set_value contains insert
    arvern_ips.Vcd.Sample.lower arvern_ips.Vcd.Sample.snapshot
sample-wave = refl

sample-AreRows_example : AreRows sig_ids (codes "c") 1 0 20 posedge rows
sample-AreRows_example = sample-AreRows sig_ids (codes "c") 1 0 20 posedge wave rows sample-wave
