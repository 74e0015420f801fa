-- ===== src/Tests/Constants.antt =====
-- Examples of the theorems on constant bits.
use arvern_ips.Prelude.{
  ◌≡◌, refl, true, false, some, List, [], ◌∷◌, ◌++◌, arith, all, nat_eq, list_beq, list_eq, pair_eq,
  contains, Text, codes, starts_with, has_part, split_on, join,
}
use arvern_ips.Prelude.Dict.{lookup, insert}
use arvern_ips.Prelude.Decimal.{is_digit, is_number}
use arvern_ips.Const.Section.{
  begin_mark, end_mark, newline, body, block_of, rstrip_newlines, manual_part, write_section,
}
use arvern_ips.Const.Section.Rewrite.{with_section, write_section_again}
use arvern_ips.Const.Closure.{Bit, close}
use arvern_ips.Const.Closure.Least.{IsLeast, close-IsLeast}
use arvern_ips.Const.Bits.{BitSet, intersect}
use arvern_ips.Const.Bits.Common.{is_constant_in, intersect-contains}
use arvern_ips.Const.Merge.{Elaboration, Name, signals, is_judged, constants_of}
use arvern_ips.Const.Merge.Sound.{sets_at, constants_of-bits}
use arvern_ips.Const.Configs.{value_eq}

abbrev q : Bit
q = (codes "\\q", 0)

abbrev d : Bit
d = (codes "\\d", 0)

close-IsLeast_example :
    (c : List Bit) × (close 2 ((q, d) ∷ []) (d ∷ []) ≡ some c) × IsLeast ((q, d) ∷ []) (d ∷ []) c
close-IsLeast_example = close-IsLeast ((q, d) ∷ []) (d ∷ []) 2 (omega arith)

abbrev wide : BitSet
wide = record { bits = 0 ∷ 3 ∷ []; lo = 0; hi = 4 }

abbrev narrow : BitSet
narrow = record { bits = 0 ∷ []; lo = 0; hi = 2 }

abbrev common : BitSet
common = record { bits = 0 ∷ 3 ∷ []; lo = 0; hi = 4 }

intersect-two : intersect (wide ∷ narrow ∷ []) ≡ some common
unfolding intersect contains arvern_ips.Const.Bits.widened arvern_ips.Const.Bits.lowest
    arvern_ips.Const.Bits.highest arvern_ips.Const.Bits.every arvern_ips.Const.Bits.range
    arvern_ips.Const.Bits.in_span
intersect-two = refl

intersect-contains_example :
    contains common.bits 3 ≡ all (is_constant_in (wide ∷ narrow ∷ []) 3) (wide ∷ narrow ∷ [])
intersect-contains_example = intersect-contains (wide ∷ narrow ∷ []) common 3 intersect-two

abbrev builds : Elaboration
builds =
    (codes "m", (codes "genblk1.q", wide ∷ []) ∷ [])
    ∷ (codes "m", (codes "q", narrow ∷ []) ∷ [])
    ∷ []

abbrev m_q : Name
m_q = (codes "m", codes "q")

builds-constants : constants_of builds ≡ some ((m_q, common) ∷ [])
unfolding constants_of signals is_judged arvern_ips.Const.Merge.named_sets
    arvern_ips.Const.Merge.unscoped arvern_ips.Const.Merge.drop_genblks
    arvern_ips.Const.Merge.is_genblk arvern_ips.Const.Merge.n_variants
    arvern_ips.Const.Merge.append_set arvern_ips.Const.Merge.collect arvern_ips.Const.Merge.judged
    arvern_ips.Const.Merge.out_of intersect contains arvern_ips.Const.Bits.widened
    arvern_ips.Const.Bits.lowest arvern_ips.Const.Bits.highest arvern_ips.Const.Bits.every
    arvern_ips.Const.Bits.range arvern_ips.Const.Bits.in_span join split_on starts_with is_number
    lookup insert list_beq has_part is_digit
builds-constants = refl

m_q-found : lookup m_q ((m_q, common) ∷ []) ≡ some common
unfolding lookup list_beq
m_q-found = refl

constants_of-bits_example :
    (is_judged builds m_q (sets_at m_q (signals builds)) ≡ true)
    × (contains common.bits 3
        ≡ all (is_constant_in (sets_at m_q (signals builds)) 3) (sets_at m_q (signals builds)))
constants_of-bits_example =
    constants_of-bits builds ((m_q, common) ∷ []) m_q common 3 builds-constants m_q-found

-- The hand-written part of a waiver file.
abbrev notes : Text
notes = codes "# Waivers" ++ (10 ∷ 10 ∷ [])

abbrev stale : List Text
stale = codes "{\"file\":\"a.v\"}" ∷ []

abbrev fresh : List Text
fresh = codes "{\"file\":\"b.v\"}" ∷ codes "{\"file\":\"c.v\"}" ∷ []

notes-plain : has_part notes begin_mark ≡ false
unfolding has_part starts_with
notes-plain = refl

stale-closed : has_part (body stale) end_mark ≡ false
unfolding has_part starts_with body join
stale-closed = refl

fresh-simple : contains (block_of fresh) 92 ≡ false
unfolding contains block_of body join
fresh-simple = refl

write_section_again_example :
    (write_section stale notes ≡ some (with_section stale notes))
    × ((write_section fresh (with_section stale notes) ≡ write_section fresh notes)
        × (manual_part (with_section stale notes)
            ≡ rstrip_newlines notes ++ (newline ∷ newline ∷ newline ∷ [])))
write_section_again_example =
    write_section_again stale fresh notes notes-plain stale-closed fresh-simple
