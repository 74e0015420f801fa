-- ===== src/Points/Scope.antt =====
-- ahb_aclint/sim/rtl_sim/bin/cov_scope.py: the files and directories outside the design. The file
-- system and `os.path.normpath` are parameters; the recursion takes fuel.
use arvern_ips.Prelude.{
  ℕ, zero, suc, Bool, not, ◌||◌, Option, none, some, List, [], ◌∷◌, ◌++◌, map, if◌then◌else◌, drop,
  keep_if, any, is_nil, eqb, nat_eq, list_eq, pair_eq, contains, Text, codes, strip, starts_with,
  split_on,
}
use arvern_ips.Prelude.Sorting.{text_le, sort}
use arvern_ips.Filelist.Flatten.{join_path, parent, Outcome, done, raised, exhausted}

-- The sets `files` and `dirs`.
pub record Found : Type 0 where
  pub files : List Text
  pub dirs : List Text

unfoldable pub add : Text → List Text → List Text
add x xs = if contains xs x then xs else x ∷ xs

unfoldable pub add_all : List Text → List Text → List Text
add_all [] xs = xs
add_all (y ∷ ys) xs = add_all ys (add y xs)

module _ (read : Text → Option (List Text)) (normpath : Text → Text) where
  unfoldable pub add_dirs : Text → List Text → List Text → List Text
  add_dirs base [] dirs = dirs
  add_dirs base (d ∷ ds) dirs =
      add_dirs base ds (if is_nil d then dirs else add (normpath (join_path base d)) dirs)

  module _ (walk_in : Text → Found → Outcome Found) (base : Text) where
    unfoldable pub walk_line : Text → Found → Outcome Found
    walk_line l found =
        if is_nil l || starts_with l (codes "//")
        then done found
        else if starts_with l (codes "-f")
        then walk_in (normpath (join_path base (strip (drop 2 l)))) found
        else if starts_with l (codes "+incdir+")
        then done (record found { dirs = add_dirs base (split_on b'+' (drop 8 l)) found.dirs })
        else if starts_with l (codes "-") || starts_with l (codes "+")
        then done found
        else done (record found { files = add (normpath (join_path base l)) found.files })

    unfoldable pub walk_lines : List Text → Found → Outcome Found
    walk_lines [] found = done found
    walk_lines (raw ∷ lines) found = elim (walk_line (strip raw) found) [
      | done found' ↦ walk_lines lines found'
      | raised ↦ raised
      | exhausted ↦ exhausted
    ]

  unfoldable pub walk : ℕ → Text → Found → Outcome Found
  walk zero flist found = exhausted
  walk (suc fuel) flist found = elim (read flist) [
    | none ↦ raised
    | some lines ↦ walk_lines (walk fuel) (parent flist) lines found
  ]

unfoldable pub inside : List Text → Text → Bool
inside duts p = any (λ d. eqb p d || starts_with p (d ++ codes "/")) duts

-- The lines that `main` writes.
unfoldable pub scope_lines : List Text → Found → List Text
scope_lines duts found =
    let dirs = add_all (map parent found.files) found.dirs in
    codes "`verilator_config"
    ∷ (map (λ (d : Text). codes "coverage_off -file \"" ++ (d ++ codes "/*\""))
          (keep_if (λ d. not (inside duts d)) (sort text_le dirs))
        ++ map (λ (f : Text). codes "coverage_off -file \"" ++ (f ++ codes "\""))
            (keep_if (λ f. not (inside duts f)) (sort text_le found.files)))
