-- ===== src/Vcd/Names.antt =====
-- ahb_interconnect/sim/rtl_sim/bin/vcd_window.py: the table of names of `VCD` and the choice of the
-- signals. The header is its tokens.
use arvern_ips.Prelude.{
  ℕ, ◌*◌, Option, none, some, List, [], ◌∷◌, ◌++◌, ltb, if◌then◌else◌, length, keep_if, is_nil,
  nat_eq, list_eq, pair_eq, contains, Text, codes, starts_with, ends_with, has_part, join,
}
use arvern_ips.Prelude.Dict.{Dict, keys, insert, has_key, set_default}
use arvern_ips.Prelude.Decimal.{is_digit, int}
use arvern_ips.Prelude.Sorting.{text_le, sort}

-- `name_to_id`, `id_width` and `timescale_ps`
pub record Names : Type 0 where
  pub name_to_id : Dict Text Text
  pub id_width : Dict Text ℕ
  pub timescale_ps : ℕ

-- `UNIT_PS`, with the longer names first as the alternatives of the regular expressions are.
abbrev pub unit_ps : Dict Text ℕ
unit_ps =
    (codes "ps", 1)
    ∷ (codes "ns", 1000)
    ∷ (codes "us", 1000000)
    ∷ (codes "ms", 1000000000)
    ∷ (codes "s", 1000000000000)
    ∷ []

unfoldable pub digits : Text → Text × Text
digits [] = ([], [])
digits (c ∷ s) = let (ds, rest) = digits s in if is_digit c then (c ∷ ds, rest) else ([], c ∷ s)

-- The factor of the first unit that the text begins with.
unfoldable pub unit_of : Dict Text ℕ → Text → Option ℕ
unit_of [] s = none
unit_of ((u, ps) ∷ units) s = if starts_with s u then some ps else unit_of units s

-- `re.match(r'(\d+)(ps|ns|us|ms|s)', s)`
unfoldable pub timescale : Text → Option ℕ
timescale s =
    let (ds, rest) = digits s in
    if is_nil ds
    then none
    else elim (unit_of unit_ps rest) [ none ↦ none | some ps ↦ some (int ds * ps) ]

-- `scope.pop()` and `'.'.join(scope + [name])`, with the scopes in their order.
unfoldable pub pop : List Text → List Text
pop [] = []
pop (s ∷ []) = []
pop (s ∷ t ∷ scope) = s ∷ pop (t ∷ scope)

unfoldable pub full_name : List Text → Text → Text
full_name scope name = join (codes ".") (scope ++ (name ∷ []))

-- The first identifier of a name is kept, the last width of an identifier counts.
unfoldable pub add_var : List Text → Text → Text → Text → Names → Names
add_var scope width ident name ns = record ns {
  name_to_id = set_default (full_name scope name) ident ns.name_to_id;
  id_width = insert ident (int width) ns.id_width;
}

-- `resolve`: candidates by suffix, else by part; the first of the shortest.
unfoldable pub shortest : List Text → Option Text
shortest [] = none
shortest (n ∷ ns) = elim (shortest ns) [
  | none ↦ some n
  | some m ↦ if ltb (length m) (length n) then some m else some n
]

unfoldable pub candidates : List Text → Text → List Text
candidates names query =
    let by_suffix = keep_if (λ n. ends_with n (b'.' ∷ query)) names in
    if is_nil by_suffix then keep_if (λ n. has_part n query) names else by_suffix

unfoldable pub resolve : Names → Text → Option Text
resolve ns query =
    if has_key query ns.name_to_id
    then some query
    else shortest (candidates (keys ns.name_to_id) query)

-- `list_matching`
unfoldable pub list_matching : Names → Text → List Text
list_matching ns prefix = sort text_le (keep_if (λ n. has_part n prefix) (keys ns.name_to_id))

-- The loop of `main` over the queries: each signal once, unmatched queries left out.
unfoldable pub choose_signals : Names → List Text → List Text → List Text
choose_signals ns seen [] = []
choose_signals ns seen (q ∷ qs) =
    let skipped = choose_signals ns seen qs in
    elim (resolve ns q) [
      | none ↦ skipped
      | some full ↦
          let more = choose_signals ns (full ∷ seen) qs in
          if contains seen full then skipped else full ∷ more
    ]
