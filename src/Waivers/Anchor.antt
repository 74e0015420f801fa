-- ===== src/Waivers/Anchor.antt =====
-- `_src_anchor`: a literal text that occurs on the line of a waiver and on no other.
pub mod Unique
use arvern_ips.Prelude.{
  ℕ, zero, suc, ◌+◌, ◌-◌, max, Bool, not, ◌&&◌, ◌||◌, Option, none, some, List, [], ◌∷◌, leb, ◌==◌,
  if◌then◌else◌, length, get_elem?, take, drop, keep_if, is_nil, nat_eq, list_eq, pair_eq, Text,
  codes, strip, starts_with, has_part, before,
}

-- `text.index(part)` where `part` occurs.
unfoldable pub index_of : Text → Text → ℕ
index_of part [] = 0
index_of part (c ∷ s) =
    let later = index_of part s in if starts_with (c ∷ s) part then 0 else suc later

-- `c.isalnum() or c == '_'` on ASCII.
unfoldable pub is_word : ℕ → Bool
is_word c =
    (leb b'0' c && leb c b'9')
    || (leb b'A' c && leb c b'Z')
    || (leb b'a' c && leb c b'z')
    || c == b'_'

-- The number of word characters in front of the text.
unfoldable pub word_length : Text → ℕ
word_length [] = 0
word_length (c ∷ s) = let more = word_length s in if is_word c then suc more else 0

-- `sum(1 for l in src if cand in l)`
unfoldable pub occurrences : List Text → Text → ℕ
occurrences src cand = length (keep_if (λ l. has_part l cand) src)

-- `for n in range(n, n + rounds)`
unfoldable pub anchor_loop : List Text → Text → ℕ → ℕ → Option Text
anchor_loop src txt zero n = if occurrences src txt == 1 then some txt else none
anchor_loop src txt (suc rounds) n =
    let next = anchor_loop src txt rounds (suc n) in
    if occurrences src (take n txt) == 1
    then some (take (n + word_length (drop n txt)) txt)
    else next

-- The shortest length that is tried: through the wanted signal, if the line shows it.
unfoldable pub shortest : Text → Text → ℕ
shortest want txt =
    if not (is_nil want) && has_part txt want then max 12 (index_of want txt + length want) else 12

unfoldable pub line_anchor : List Text → Text → Text → Option Text
line_anchor src want raw =
    let txt = strip (before (codes "//") raw) in
    let lo = shortest want txt in
    if is_nil txt then none else anchor_loop src txt (suc (length txt) - lo) lo

-- The lines are counted from 1.
unfoldable pub src_anchor : List Text → ℕ → Text → Option Text
src_anchor src zero want = none
src_anchor src (suc n) want = elim (get_elem? src n) [
  | none ↦ none
  | some raw ↦ line_anchor src want raw
]
