-- ===== src/Sweep/Lint/Verdict.antt =====
-- The verdict of the lint sweep.
use arvern_ips.Prelude.{
  ℕ, ◌+◌, ◌≤◌, ◌≡◌, refl, ◌↔◌, Bool, true, List, [], ◌∷◌, arith, ◌==◌, length, keep_if, all,
  length-keep_if-le, nat_eq, list_eq, pair_eq, Text,
}
use arvern_ips.Params.Select.{ParamDict}
use arvern_ips.Sweep.Lint.{LintRun, lint_cmd, lint_all, count_failures, lint_exit}

abbrev pub is_clean : LintRun → Bool
is_clean r = r.rc == 0

count_failures-keep_if :
    (n : ℕ) (rs : List LintRun) → count_failures n rs + length (keep_if is_clean rs) ≡ n + length rs
unfolding count_failures
count_failures-keep_if n [] = refl
count_failures-keep_if n (r ∷ rs) =
    ground (arith, count_failures-keep_if n rs, count_failures-keep_if (n + 1) rs)

keep_if-all :
    (rs : List LintRun) → (length rs ≤ length (keep_if is_clean rs)) ↔ (all is_clean rs ≡ true)
keep_if-all [] = (λ h. refl, λ h. omega arith)
keep_if-all (r ∷ rs) =
    let ih = keep_if-all rs in
    let short = length-keep_if-le is_clean rs in (λ h. ground arith, λ h. ground arith)

all-lint_all :
    (verilator : List Text → ℕ) (top waivers submit : Text) (configs : List (Text × ParamDict))
    → all is_clean (lint_all verilator top waivers submit configs)
      ≡ all (λ (c : Text × ParamDict). verilator (lint_cmd top waivers submit c.1) == 0) configs
unfolding lint_all
all-lint_all verilator top waivers submit [] = refl
all-lint_all verilator top waivers submit (c ∷ configs) =
    ground (arith, all-lint_all verilator top waivers submit configs)

-- The lint sweep exits with 0 exactly when Verilator returned 0 for the command of every
-- configuration; the failures it reports and the clean runs add up to the number of
-- configurations.
pub lint_exit-eq-zero :
    (verilator : List Text → ℕ) (top waivers submit : Text) (configs : List (Text × ParamDict))
    → let rs = lint_all verilator top waivers submit configs in
      ((lint_exit rs ≡ 0) ↔ (
        all (λ (c : Text × ParamDict). verilator (lint_cmd top waivers submit c.1) == 0) configs
        ≡ true))
      × (count_failures 0 rs + length (keep_if is_clean rs) ≡ length rs)
unfolding lint_exit
lint_exit-eq-zero verilator top waivers submit configs =
    let rs = lint_all verilator top waivers submit configs in
    let sum = count_failures-keep_if 0 rs in
    let whole = keep_if-all rs in
    let short = length-keep_if-le is_clean rs in
    let same = all-lint_all verilator top waivers submit configs in
    (
      (λ h. ground (arith, sum, whole, short, same), λ h. ground (arith, sum, whole, short, same)),
      omega (arith, sum),
    )
