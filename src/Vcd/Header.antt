-- ===== src/Vcd/Header.antt =====
-- ahb_interconnect/sim/rtl_sim/bin/vcd_window.py: the loop of `VCD.parse_header` over the tokens of
-- the header, and `bin_to_hex`.
use arvern_ips.Prelude.{
  ℕ, zero, suc, ◌+◌, ◌-◌, ◌*◌, ◌/◌, ◌%◌, Bool, false, Option, none, some, List, [], ◌∷◌, ◌++◌, ltb,
  if◌then◌else◌, get_elem?, any, is_nil, eqb, nat_eq, list_eq, pair_eq, contains, Text, codes,
}
use arvern_ips.Prelude.Decimal.{is_number}
use arvern_ips.Vcd.Names.{Names, timescale, pop, add_var}

-- What the loop does with the next token: it looks for a keyword, gathers the text of the time
-- scale, skips to `$end`, or skips to the `$end` of the definitions.
pub data Mode : Type 0 where
  looking : Mode
  gathering : Text → Mode
  skipping : Mode
  ending : Mode

pub record Header : Type 0 where
  pub mode : Mode
  pub scope : List Text
  pub names : Names

-- `$scope <type> <name> $end`, from behind the keyword.
unfoldable pub enter_scope : Header → List Text → Option Header
enter_scope h rest = elim (get_elem? rest 1) [
  | none ↦ none
  | some name ↦ some (record h { mode = skipping; scope = h.scope ++ (name ∷ []) })
]

-- `$var <type> <width> <id> <name> ... $end`, from behind the keyword.
unfoldable pub declare : Header → List Text → Option Header
declare h (_ ∷ width ∷ ident ∷ name ∷ rest) =
    if is_number width
    then some (record h { mode = skipping; names = add_var h.scope width ident name h.names })
    else none
declare h _ = none

-- A token where a keyword is looked for. None is an exception.
unfoldable pub on_keyword : Header → Text → List Text → Option Header
on_keyword h t rest =
    if eqb t (codes "$timescale")
    then some (record h { mode = gathering [] })
    else if eqb t (codes "$scope")
    then enter_scope h rest
    else if eqb t (codes "$upscope")
    then (if is_nil h.scope then none else some (record h { mode = skipping; scope = pop h.scope }))
    else if eqb t (codes "$var")
    then declare h rest
    else if eqb t (codes "$enddefinitions")
    then some (record h { mode = ending })
    else some h

unfoldable pub on_timescale : Header → Text → Text → Option Header
on_timescale h buf t =
    if eqb t (codes "$end")
    then elim (timescale buf) [
      | none ↦ none
      | some ps ↦ some (record h { mode = looking; names = record h.names { timescale_ps = ps } })
    ]
    else some (record h { mode = gathering (buf ++ t) })

unfoldable pub on_token : Header → Text → List Text → Option Header
on_token h t rest = elim h.mode [
  | looking ↦ on_keyword h t rest
  | gathering buf ↦ on_timescale h buf t
  | skipping ↦ if eqb t (codes "$end") then some (record h { mode = looking }) else some h
  | ending ↦ some h
]

unfoldable pub is_over : Header → Text → Bool
is_over h t = elim h.mode [
  | looking ↦ false
  | gathering buf ↦ false
  | skipping ↦ false
  | ending ↦ eqb t (codes "$end")
]

-- The end of the tokens is an exception unless a keyword is looked for.
unfoldable pub at_last : Header → Option Names
at_last h = elim h.mode [
  | looking ↦ some h.names
  | gathering buf ↦ none
  | skipping ↦ none
  | ending ↦ none
]

unfoldable pub parse_tokens : Header → List Text → Option Names
parse_tokens h [] = at_last h
parse_tokens h (t ∷ rest) =
    let next = elim (on_token h t rest) as (λ _. Option Names) [
      | none ↦ none
      | some h' ↦ parse_tokens h' rest
    ] in
    if is_over h t then some h.names else next

-- `parse_header` of the tokens.
unfoldable pub parse_header : List Text → Option Names
parse_header = parse_tokens (record {
  mode = looking;
  scope = [];
  names = record { name_to_id = []; id_width = []; timescale_ps = 1 };
})

-- `int(bits, 2)` of binary digits, from a first value on.
unfoldable pub binary_from : ℕ → Text → ℕ
binary_from acc [] = acc
binary_from acc (c ∷ bits) = binary_from (acc * 2 + (c - b'0')) bits

unfoldable pub hex_digit : ℕ → ℕ
hex_digit d = if ltb d 10 then b'0' + d else b'a' + (d - 10)

-- The last `n` hexadecimal digits of a number.
unfoldable pub hex : ℕ → ℕ → Text
hex zero val = []
hex (suc n) val = hex n (val / 16) ++ (hex_digit (val % 16) ∷ [])

-- `bin_to_hex` of a value with at most as many digits as the width.
unfoldable pub bin_to_hex : Text → ℕ → Text
bin_to_hex bits width =
    if any (contains (codes "xzXZ")) bits then bits else hex ((width + 3) / 4) (binary_from 0 bits)
