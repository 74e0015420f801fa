-- ===== src/Waivers/Load/Lines/Complete.antt =====
-- No waiver of a text file is lost in silence, and what is loaded is usable.
use arvern_ips.Prelude.{
  ℕ, suc, ◌+◌, ◌≡◌, refl, inl, inr, Bool, true, false, not, ◌&&◌, Option, none, some, List, [], ◌∷◌,
  arith, if◌then◌else◌, Bool-cases, Option-cases, length, keep_if, is_nil, length-append,
  List-cases, nat_eq, list_eq, pair_eq, Text, strip, split_on,
}
use arvern_ips.Waivers.Json.{Json}
use arvern_ips.Waivers.Match.{Waiver}
use arvern_ips.Waivers.Load.{Loaded, Located, located, unlocated, Outcome, add_outcome, locate}
use arvern_ips.Waivers.Load.Markdown.{place_at}
use arvern_ips.Waivers.Load.Markdown.Complete.{is_some, is_nil-append, read_types-nonempty}
use arvern_ips.Waivers.Load.Lines.{
  partition, Fields, match_line, finish_line, build_body, build_line, load_lines, load_txt,
}

split_on-nonempty : (sep : ℕ) (s : Text) → is_nil (split_on sep s) ≡ false
unfolding split_on
split_on-nonempty sep [] = refl
split_on-nonempty sep (c ∷ s) = ground (arith, List-cases (split_on sep s))

-- The line holds more than a comment.
abbrev pub is_waiver_line : Text → Bool
is_waiver_line raw = not (is_nil (strip (partition b'#' raw).0))

abbrev made : Option Waiver → ℕ
made none = 0
made (some w) = 1

made-some : (o : Option Waiver) → is_some o ≡ true → made o ≡ 1
made-some none h = ground (arith, h)
made-some (some w) h = refl

add_outcome-counts :
    (l : Loaded) (o : Outcome)
    → (is_nil (add_outcome l o).errors ≡ (is_nil l.errors && is_nil o.1))
      × (length (add_outcome l o).items ≡ length l.items + made o.0)
unfolding add_outcome
add_outcome-counts l (none, problems) =
    (is_nil-append l.errors problems, omega (arith, length-append l.items []))
add_outcome-counts l (some w, problems) =
    (is_nil-append l.errors problems, omega (arith, length-append l.items (w ∷ [])))

module _ (compiles : Text → Bool) (repr : Json → Text) where
  finish_line-some :
      (place reason : Text) (f : Fields) (l : Located)
      → is_nil (finish_line compiles repr place reason f l).1 ≡ true
      → is_some (finish_line compiles repr place reason f l).0 ≡ true
  unfolding finish_line
  finish_line-some place reason f (unlocated t) k = ground (arith, k)
  finish_line-some place reason f (located loc) k =
      ground (
        arith,
        k,
        split_on-nonempty b',' f.kinds,
        read_types-nonempty place (split_on b',' f.kinds),
      )

  build_body-some :
      (place body reason : Text)
      → is_nil (build_body compiles repr place body reason).1 ≡ true
      → is_some (build_body compiles repr place body reason).0 ≡ true
  unfolding build_body
  build_body-some place body reason k = elim (Option-cases (match_line body)) [
    | inl e ↦ ground (arith, e, k)
    | inr (f, e) ↦
        ground (arith, e, k, finish_line-some place reason f (locate compiles repr f.loc))
  ]

  -- How many waivers the line makes, without errors.
  abbrev share : Text → ℕ
  share raw = if is_waiver_line raw then 1 else 0

  build_line-share :
      (place raw : Text)
      → is_nil (build_line compiles repr place raw).1 ≡ true
      → made (build_line compiles repr place raw).0 ≡ share raw
  unfolding build_line
  build_line-share place raw k =
      let body = strip (partition b'#' raw).0 in
      let reason = strip (partition b'#' raw).1 in
      elim (Bool-cases (is_nil body)) [
        | inl blank ↦ rw blank refl
        | inr full ↦ rw full (
            made-some (build_body compiles repr place body reason).0
              (build_body-some place body reason (rw (full, build_line) at k)))
      ]

  load_lines_complete :
      (path : Text) (n : ℕ) (l : Loaded) (lines : List Text)
      → is_nil (load_lines compiles repr path n l lines).errors ≡ true
      → (is_nil l.errors ≡ true)
        × (length (load_lines compiles repr path n l lines).items
            ≡ length l.items + length (keep_if is_waiver_line lines))
  unfolding load_lines
  load_lines_complete path n l [] k = (k, omega arith)
  load_lines_complete path n l (raw ∷ lines) k =
      let next = add_outcome l (build_line compiles repr (place_at path n) raw) in
      let later = load_lines_complete path (suc n) next lines k in
      let here = add_outcome-counts l (build_line compiles repr (place_at path n) raw) in
      let mine = build_line-share (place_at path n) raw in ground (arith, later, here, mine)

  -- Where loading a text file reports no error, every line that holds more than a comment has become
  -- one waiver.
  pub load_txt_complete :
      (path : Text) (lines : List Text)
      → is_nil (load_txt compiles repr path lines).errors ≡ true
      → length (load_txt compiles repr path lines).items ≡ length (keep_if is_waiver_line lines)
  unfolding load_txt
  load_txt_complete path lines k =
      let counted = load_lines_complete path 1 (record { items = []; errors = [] }) lines k in
      omega (arith, counted.1)
