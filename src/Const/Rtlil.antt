-- ===== src/Const/Rtlil.antt =====
-- ahb_aclint/sim/rtl_sim/bin/cov_const.py: `_ysig_bits`, `_rtlil_consts` and `_base`, on the lines of
-- an RTLIL module as Yosys writes them, with blanks between the items of a concatenation.
use arvern_ips.Prelude.{
  ℕ, zero, suc, ◌+◌, ◌-◌, ◌/◌, ◌%◌, Bool, not, ◌&&◌, Option, none, some, List, [], ◌∷◌, ◌++◌, map,
  ltb, ◌==◌, if◌then◌else◌, length, take, drop, all, is_nil, eqb, nat_eq, list_eq, pair_eq,
  contains, Text, codes, lstrip, strip, starts_with, ends_with, rpartition,
}
use arvern_ips.Prelude.Dict.{Dict, lookup, insert}
use arvern_ips.Prelude.Decimal.{is_number, int}
use arvern_ips.Sweep.Coverage.{words}
use arvern_ips.Waivers.Load.Lines.{partition}
use arvern_ips.Const.Closure.{Bit, close}

-- `('w', wire, idx)` or `('c', digit)`
pub data SigBit : Type 0 where
  wire_bit : Text → ℕ → SigBit
  const_bit : ℕ → SigBit

-- `widths`: the width and the offset of a wire.
abbrev pub Widths : Type 0
Widths = Dict Text (ℕ × ℕ)

-- The binary digits of a number below 2 ^ n, most significant first.
unfoldable pub binary : ℕ → ℕ → Text
binary zero v = []
binary (suc n) v = binary n (v / 2) ++ ((b'0' + v % 2) ∷ [])

-- The bits from `lo + n - 1` down to `lo`.
unfoldable pub bits_down : Text → ℕ → ℕ → List SigBit
bits_down wire lo zero = []
bits_down wire lo (suc n) = wire_bit wire (lo + n) ∷ bits_down wire lo n

unfoldable pub is_wire_name : Text → Bool
is_wire_name s = starts_with s (b'\\' ∷ []) && ltb 1 (length s)

-- `[hi:lo]` or `[i]`: the highest and the lowest index.
unfoldable pub selection : Text → Option (ℕ × ℕ)
selection s =
    let inner = take (length s - 2) (drop 1 s) in
    let (hi, lo) = partition b':' inner in
    if not (starts_with s (codes "[") && ends_with s (codes "]"))
    then none
    else if is_number inner
    then some (int inner, int inner)
    else if is_number hi && is_number lo
    then some (int hi, int lo)
    else none

unfoldable pub whole_wire : Widths → Text → List SigBit
whole_wire widths wire = elim (lookup wire widths) [
  | none ↦ bits_down wire 0 1
  | some (w, off) ↦ bits_down wire off w
]

-- An item without a selection: a sized constant, an integer of 32 bits, or a wire.
unfoldable pub plain_bits : Widths → Text → Option (List SigBit)
plain_bits widths s =
    let (size, digits) = partition b'\'' s in
    if is_number size && (not (is_nil digits) && all (contains (codes "01xzm-")) digits)
    then some (map const_bit digits)
    else if is_number s
    then some (map const_bit (binary 32 (int s % 4294967296)))
    else if starts_with s (codes "-") && is_number (drop 1 s)
    then some (map const_bit (binary 32 ((4294967296 - int (drop 1 s) % 4294967296) % 4294967296)))
    else if is_wire_name s
    then some (whole_wire widths s)
    else none

abbrev pub join_bits : Option (List SigBit) → Option (List SigBit) → Option (List SigBit)
join_bits (some a) (some b) = some (a ++ b)
join_bits _ _ = none

-- The bits of a selection of a wire.
unfoldable pub selected_bits : Text → ℕ × ℕ → List SigBit
selected_bits wire (hi, lo) = bits_down wire lo (hi + 1 - lo)

-- The items one after the other: a wire and the word behind it that selects go together.
unfoldable pub item_bits : Widths → List Text → Option (List SigBit)
item_bits widths [] = some []
item_bits widths (t ∷ []) = plain_bits widths t
item_bits widths (t ∷ u ∷ ts) =
    let alone = join_bits (plain_bits widths t) (item_bits widths (u ∷ ts)) in
    let rest = item_bits widths ts in
    elim (selection u) [
      | none ↦ alone
      | some range ↦ if is_wire_name t then join_bits (some (selected_bits t range)) rest else alone
    ]

-- `spec[1:spec.rindex('}')]` of a concatenation.
unfoldable pub inside_braces : Text → Text
inside_braces spec = elim (rpartition b'}' (drop 1 spec)) [ none ↦ [] | some (a, b) ↦ a ]

-- `_ysig_bits`
unfoldable pub ysig_bits : Text → Widths → Option (List SigBit)
ysig_bits raw widths =
    let spec = strip raw in
    if starts_with spec (codes "{")
    then item_bits widths (words (inside_braces spec))
    else elim (words spec) [ [] ↦ none | t ∷ ts ↦ item_bits widths (t ∷ ts) ]

-- An optional attribute with a number, and the words behind it.
unfoldable pub attribute : Text → ℕ → List Text → ℕ × List Text
attribute name dflt (k ∷ v ∷ ws) =
    if eqb k name && is_number v then (int v, ws) else (dflt, k ∷ v ∷ ws)
attribute name dflt ws = (dflt, ws)

unfoldable pub skip_port : List Text → List Text
skip_port (k ∷ v ∷ ws) =
    if contains (codes "input" ∷ codes "output" ∷ codes "inout" ∷ []) k && is_number v
    then ws
    else k ∷ v ∷ ws
skip_port ws = ws

unfoldable pub skip_word : Text → List Text → List Text
skip_word name (k ∷ ws) = if eqb k name then ws else k ∷ ws
skip_word name [] = []

-- The name, the width and the offset of a `wire` line.
unfoldable pub wire_line : Text → Option (Text × (ℕ × ℕ))
wire_line ln = elim (words ln) [
  | [] ↦ none
  | k ∷ ws ↦
      let (width, rest) = attribute (codes "width") 1 ws in
      let (offset, more) = attribute (codes "offset") 0 rest in
      elim (skip_word (codes "signed") (skip_port more)) [
        | [] ↦ none
        | name ∷ others ↦
            if eqb k (codes "wire") && is_wire_name name then some (name, (width, offset)) else none
      ]
]

unfoldable pub read_widths : Widths → List Text → Widths
read_widths widths [] = widths
read_widths widths (ln ∷ lines) = elim (wire_line ln) [
  | none ↦ read_widths widths lines
  | some (name, wo) ↦ read_widths (insert name wo widths) lines
]

-- `re.match(r'\s*\[', s)`
unfoldable pub selects_next : Text → Bool
selects_next s = starts_with (lstrip s) (codes "[")

-- The cut of a connection at the first blank outside braces that no selection follows. The second
-- argument counts the open braces.
unfoldable pub cut_connection : ℕ → Text → Option (Text × Text)
cut_connection depth [] = none
cut_connection depth (c ∷ s) =
    let depth' = if c == b'{' then suc depth else if c == b'}' then depth - 1 else depth in
    let later = elim (cut_connection depth' s) as (λ _. Option (Text × Text)) [
      | none ↦ none
      | some (a, b) ↦ some (c ∷ a, b)
    ] in
    if c == b' ' && (depth == 0 && not (selects_next (c ∷ s))) then some ([], c ∷ s) else later

-- `^\s*connect (.+)$`
unfoldable pub connect_line : Text → Option (Text × Text)
connect_line ln =
    let s = lstrip ln in
    if starts_with s (codes "connect ") then cut_connection 0 (drop 8 s) else none

-- The constants and the aliases that a connection adds, bit by bit.
unfoldable pub connect_bits :
    List SigBit → List SigBit → List Bit × List (Bit × Bit) → List Bit × List (Bit × Bit)
connect_bits (wire_bit w i ∷ lhs) (const_bit c ∷ rhs) (const, alias) =
    connect_bits lhs rhs ((if contains (codes "01") c then (w, i) ∷ const else const), alias)
connect_bits (wire_bit w i ∷ lhs) (wire_bit v j ∷ rhs) (const, alias) =
    connect_bits lhs rhs (const, alias ++ (((w, i), (v, j)) ∷ []))
connect_bits (const_bit d ∷ lhs) (r ∷ rhs) found = connect_bits lhs rhs found
connect_bits _ _ found = found

unfoldable pub connect_sides :
    Option (List SigBit)
    → Option (List SigBit)
    → List Bit × List (Bit × Bit)
    → List Bit × List (Bit × Bit)
connect_sides (some lhs) (some rhs) found =
    if length lhs == length rhs then connect_bits lhs rhs found else found
connect_sides _ _ found = found

unfoldable pub read_connections :
    Widths → List Bit × List (Bit × Bit) → List Text → List Bit × List (Bit × Bit)
read_connections widths found [] = found
read_connections widths found (ln ∷ lines) =
    read_connections widths
      (elim (connect_line ln) [
        | none ↦ found
        | some (lhs, rhs) ↦ connect_sides (ysig_bits lhs widths) (ysig_bits rhs widths) found
      ])
      lines

-- `_rtlil_consts`, with fuel for one round more than there are aliases.
unfoldable pub rtlil_consts : List Text → Widths × Option (List Bit)
rtlil_consts lines =
    let widths = read_widths [] lines in
    let (const, alias) = read_connections widths ([], []) lines in
    (widths, close (suc (length alias)) alias const)
