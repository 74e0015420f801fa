-- ===== src/Filelist/Dedup/Laws.antt =====
-- What `dedup_lines` keeps.
use arvern_ips.Prelude.{
  ◌+◌, ◌≡◌, refl, inl, inr, Bool, true, false, not, ◌||◌, List, [], ◌∷◌, ◌++◌, arith, if◌then◌else◌,
  Bool-cases, length, keep_if, nat_eq, list_beq_iff, list_eq, pair_eq, eqb_refl, contains,
  contains-append, IsDistinct, Text,
}
use arvern_ips.Filelist.Dedup.{is_passthrough, dedup_loop, dedup_lines}

abbrev pub keyed : Text → Bool
keyed ln = not (is_passthrough ln)

contains-dedup_loop :
    (seen lines : List Text) (a : Text)
    → (contains (dedup_loop seen lines).0 a || contains seen a)
      ≡ (contains lines a || contains seen a)
unfolding dedup_loop contains
contains-dedup_loop seen [] a = refl
contains-dedup_loop seen (ln ∷ lines) a = ground (
  arith,
  contains-dedup_loop seen lines a,
  contains-dedup_loop (ln ∷ seen) lines a,
  list_beq_iff ln a,
)

-- A line that was seen before and is keyed is not emitted again.
dedup_loop-fresh :
    (seen lines : List Text) (a : Text)
    → contains seen a ≡ true
    → contains (keep_if keyed (dedup_loop seen lines).0) a ≡ false
unfolding dedup_loop contains
dedup_loop-fresh seen [] a h = refl
dedup_loop-fresh seen (ln ∷ lines) a h =
    ground (
      arith,
      dedup_loop-fresh seen lines a,
      dedup_loop-fresh (ln ∷ seen) lines a,
      list_beq_iff ln a,
    )

dedup_loop-IsDistinct :
    (seen lines : List Text) → IsDistinct (keep_if keyed (dedup_loop seen lines).0)
unfolding dedup_loop contains
dedup_loop-IsDistinct seen [] = tt
dedup_loop-IsDistinct seen (ln ∷ lines) = ground (
  arith,
  dedup_loop-IsDistinct seen lines,
  dedup_loop-IsDistinct (ln ∷ seen) lines,
  dedup_loop-fresh (ln ∷ seen) lines ln,
  eqb_refl ln,
)

dedup_loop-directives :
    (seen lines : List Text)
    → keep_if is_passthrough (dedup_loop seen lines).0 ≡ keep_if is_passthrough lines
unfolding dedup_loop
dedup_loop-directives seen [] = refl
dedup_loop-directives seen (ln ∷ lines) =
    ground (arith, dedup_loop-directives seen lines, dedup_loop-directives (ln ∷ seen) lines)

dedup_loop-length :
    (seen lines : List Text)
    → length (dedup_loop seen lines).0 + (dedup_loop seen lines).1 ≡ length lines
unfolding dedup_loop
dedup_loop-length seen [] = omega arith
dedup_loop-length seen (ln ∷ lines) =
    ground (arith, dedup_loop-length seen lines, dedup_loop-length (ln ∷ seen) lines)

-- `dedup_lines` keeps exactly the lines it was given, each file path and include directory once,
-- every other directive as often and in the same order as before, and what is kept and what is
-- counted as dropped add up to the input.
pub dedup_lines_lem :
    (lines : List Text)
    → ((a : Text) → contains (dedup_lines lines) a ≡ contains lines a)
      × IsDistinct (keep_if keyed (dedup_lines lines))
      × (keep_if is_passthrough (dedup_lines lines) ≡ keep_if is_passthrough lines)
      × (length (dedup_lines lines) + (dedup_loop [] lines).1 ≡ length lines)
unfolding dedup_lines contains
dedup_lines_lem lines = (
  λ a. ground (arith, contains-dedup_loop [] lines a),
  dedup_loop-IsDistinct [] lines,
  dedup_loop-directives [] lines,
  dedup_loop-length [] lines,
)

-- The first occurrence wins: a line is kept or dropped by the lines in front of it alone.
unfoldable pub firsts : List Text → List Text → List Text
firsts front [] = []
firsts front (ln ∷ lines) =
    let rest = firsts (front ++ (ln ∷ [])) lines in
    if is_passthrough ln || not (contains front ln) then ln ∷ rest else rest

-- The set of the loop and the lines in front agree on every keyed line.
abbrev Agree : List Text → List Text → Type 0
Agree seen front = (a : Text) → is_passthrough a ≡ false → contains seen a ≡ contains front a

dedup_loop-firsts :
    (seen front lines : List Text)
    → Agree seen front
    → (dedup_loop seen lines).0 ≡ firsts front lines
unfolding dedup_loop firsts contains
dedup_loop-firsts seen front [] h = refl
dedup_loop-firsts seen front (ln ∷ lines) h =
    let same : Agree seen (front ++ (ln ∷ []))
        → (dedup_loop seen lines).0 ≡ firsts (front ++ (ln ∷ [])) lines =
      dedup_loop-firsts seen (front ++ (ln ∷ [])) lines in
    let more : Agree (ln ∷ seen) (front ++ (ln ∷ []))
        → (dedup_loop (ln ∷ seen) lines).0 ≡ firsts (front ++ (ln ∷ [])) lines =
      dedup_loop-firsts (ln ∷ seen) (front ++ (ln ∷ [])) lines in
    elim (Bool-cases (is_passthrough ln)) [
      | inl p ↦
          let e =
            same (λ a k.
              ground (arith, h a k, contains-append front (ln ∷ []) a, list_beq_iff ln a)) in
          ground arith
      | inr p ↦ elim (Bool-cases (contains seen ln)) [
        | inl old ↦
            let e = same (λ a k.
              ground
                (arith, h a k, h ln p, contains-append front (ln ∷ []) a, list_beq_iff ln a)) in
            ground (arith, h ln p)
        | inr new ↦
            let e = more (λ a k. ground (arith, h a k, contains-append front (ln ∷ []) a)) in
            ground (arith, h ln p)
      ]
    ]

-- `dedup_lines` keeps a line exactly when it is a passthrough directive or no earlier line of the
-- input equals it, so the order of first occurrences is the compile order.
pub dedup_lines-firsts : (lines : List Text) → dedup_lines lines ≡ firsts [] lines
unfolding dedup_lines
dedup_lines-firsts lines = dedup_loop-firsts [] [] lines (λ a _. refl)
