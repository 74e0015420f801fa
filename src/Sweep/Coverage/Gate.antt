-- ===== src/Sweep/Coverage/Gate.antt =====
-- The gate fails exactly on the required bins that no log line names.
use arvern_ips.Prelude.{
  ◌≡◌, refl, inl, inr, Bool, false, not, ◌&&◌, ◌||◌, none, some, List, [], ◌∷◌, arith, Bool-cases,
  Option-cases, any, all, is_nil, eqb, nat_eq, list_beq_iff, list_eq, pair_eq, contains,
  contains-keep_if, Text,
}
use arvern_ips.Sweep.Coverage.{bin_of, collect_lines, collect, report}

abbrev names_bin : Text → Text → Bool
names_bin b line = elim (bin_of line) [ none ↦ false | some c ↦ eqb c b ]

-- Some line of some log names the bin.
abbrev pub is_hit : List (List Text) → Text → Bool
is_hit logs b = any (λ (log : List Text). any (names_bin b) log) logs

contains-collect_lines :
    (hit log : List Text) (b : Text)
    → contains (collect_lines hit log) b ≡ (contains hit b || any (names_bin b) log)
unfolding collect_lines contains
contains-collect_lines hit [] b = ground arith
contains-collect_lines hit (line ∷ rest) b = elim (Option-cases (bin_of line)) [
  | inl e ↦ ground (arith, e, contains-collect_lines hit rest b)
  | inr (c, e) ↦ elim (Bool-cases (contains hit c)) [
    | inl old ↦ ground (arith, e, contains-collect_lines hit rest b, list_beq_iff c b)
    | inr new ↦ ground (arith, e, contains-collect_lines (c ∷ hit) rest b)
  ]
]

pub contains-collect :
    (hit : List Text) (logs : List (List Text)) (b : Text)
    → contains (collect hit logs) b ≡ (contains hit b || is_hit logs b)
unfolding collect
contains-collect hit [] b = ground arith
contains-collect hit (log ∷ logs) b =
    ground
      (arith, contains-collect (collect_lines hit log) logs b, contains-collect_lines hit log b)

module _ (mandatory sweep_only : List Text) where
  -- A bin is missing exactly when it is mandatory, no log line names it, and it is not excused: only
  -- a run of the single default configuration excuses the bins that need the sweep. A bin is listed
  -- as expected-absent exactly when it is mandatory, excused and not named.
  pub report-missing :
      (logs : List (List Text)) (single : Bool) (b : Text)
      → (contains (report mandatory sweep_only logs single).missing b ≡ (
          contains mandatory b && (not (is_hit logs b) && not (single && contains sweep_only b))))
        × (contains (report mandatory sweep_only logs single).expected b
            ≡ (contains mandatory b && (not (is_hit logs b) && (single && contains sweep_only b))))
  unfolding report
  report-missing logs single b =
      let e : contains (collect [] logs) b ≡ is_hit logs b =
        unfold contains in contains-collect [] logs b in
      (
        rw (contains-keep_if, contains-keep_if, e) (ground arith),
        rw (contains-keep_if, e) (ground arith),
      )

-- In a sweep nothing is excused: no bin is missing exactly when every mandatory bin is named.
pub report-missing_sweep :
    (mandatory sweep_only : List Text) (logs : List (List Text))
    → is_nil (report mandatory sweep_only logs false).missing ≡ all (is_hit logs) mandatory
unfolding report
report-missing_sweep [] sweep_only logs = refl
report-missing_sweep (b ∷ bs) sweep_only logs =
    let e : contains (collect [] logs) b ≡ is_hit logs b =
      unfold contains in contains-collect [] logs b in
    ground (arith, e, report-missing_sweep bs sweep_only logs)
