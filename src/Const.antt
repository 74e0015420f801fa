-- ===== src/Const.antt =====
-- ahb_aclint/sim/rtl_sim/bin/cov_const.py: `split_top`.
pub mod Closure
pub mod Bits
pub mod Rtlil
pub mod Merge
pub mod Section
pub mod Configs
use arvern_ips.Prelude.{
  ℕ, suc, Bool, not, ◌&&◌, List, [], ◌∷◌, ◌++◌, ◌==◌, if◌then◌else◌, nat_eq, list_eq, pair_eq,
  contains, Text, codes, strip,
}

-- `s in '{(['`, and `s in '})]'`
unfoldable pub opens : ℕ → Bool
opens c = contains (codes "{([") c

unfoldable pub closes : ℕ → Bool
closes c = contains (codes "})]") c

-- The depth, which closing brackets can take below 0, is the difference of two counts.
unfoldable pub split_from : ℕ → ℕ → ℕ → Text → Text → List Text
split_from sep up down cur [] = strip cur ∷ []
split_from sep up down cur (c ∷ s) =
    let up' = if opens c then suc up else up in
    let down' = if not (opens c) && closes c then suc down else down in
    let cut = split_from sep up' down' [] s in
    let longer = split_from sep up' down' (cur ++ (c ∷ [])) s in
    if c == sep && up' == down' then strip cur ∷ cut else longer

unfoldable pub split_top : ℕ → Text → List Text
split_top sep = split_from sep 0 0 []
