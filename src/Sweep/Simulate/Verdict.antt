-- ===== src/Sweep/Simulate/Verdict.antt =====
-- The exit status of the simulation sweep is 0 exactly when the suite is good.
use arvern_ips.Prelude.{
  ℕ, suc, ◌+◌, ◌≡◌, refl, ◌↔◌, inl, inr, Bool, true, false, not, List, [], ◌∷◌, arith, ◌==◌,
  if◌then◌else◌, Bool-cases, length, keep_if, all, nat_eq, list_eq, pair_eq, Text,
}
use arvern_ips.Sweep.Coverage.Gate.{is_hit, report-missing_sweep}
use arvern_ips.Sweep.Simulate.{
  Status, pass, fail, skip, compile_fail, inconclusive, miss, Tools, SimConfig, Run, run_all,
  same_status, Counts, count, tally, log_lines, exit_status,
}

-- Passed, or opted out of.
abbrev pub is_good : Status → Bool
is_good pass = true
is_good skip = true
is_good _ = false

abbrev failures : Counts → ℕ
failures counts = counts fail + counts compile_fail + counts inconclusive + counts miss

failures-count :
    (counts : Counts) (s : Status)
    → failures (count counts s) ≡ (if is_good s then failures counts else suc (failures counts))
unfolding count same_status
failures-count counts pass = refl
failures-count counts fail = omega arith
failures-count counts skip = refl
failures-count counts compile_fail = omega arith
failures-count counts inconclusive = omega arith
failures-count counts miss = omega arith

pub failures-tally :
    (counts : Counts) (rs : List Run)
    → failures (tally counts rs)
      ≡ failures counts + length (keep_if (λ (r : Run). not (is_good r.status)) rs)
unfolding tally
failures-tally counts [] = omega arith
failures-tally counts (r ∷ rs) =
    let step = failures-count counts r.status in
    let rest = failures-tally (count counts r.status) rs in
    elim (Bool-cases (is_good r.status)) [
      | inl good ↦ rw good (omega (arith, rest, rw good at step))
      | inr bad ↦ rw bad (omega (arith, rest, rw bad at step))
    ]

pub length-keep_if-not :
    (rs : List Run)
    → (length (keep_if (λ (r : Run). not (is_good r.status)) rs) == 0)
      ≡ all (λ (r : Run). is_good r.status) rs
length-keep_if-not [] = refl
length-keep_if-not (r ∷ rs) = ground (arith, length-keep_if-not rs)

-- The sweep exits with 0 exactly when every test of every configuration passed or declared itself
-- skipped (a simulation that failed, did not compile, has no stimulus file, or printed no verdict
-- counts against it) and some line of some log of the sweep names each mandatory coverage bin.
pub exit_status-eq-zero :
    (tools : Tools) (mandatory sweep_only : List Text) (configs : List SimConfig)
    → (exit_status tools mandatory sweep_only configs ≡ 0) ↔ (
        (all (λ (r : Run). is_good r.status) (run_all tools configs) ≡ true)
        × (all (is_hit (log_lines (run_all tools configs))) mandatory ≡ true))
unfolding exit_status
exit_status-eq-zero tools mandatory sweep_only configs =
    let rs = run_all tools configs in
    let sum = failures-tally (λ s. 0) rs in
    let none_bad = length-keep_if-not rs in
    let gate = report-missing_sweep mandatory sweep_only (log_lines rs) in
    (λ h. ground (arith, sum, none_bad, gate), λ h. ground (arith, sum, none_bad, gate))
