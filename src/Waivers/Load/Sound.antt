-- ===== src/Waivers/Load/Sound.antt =====
-- What the loaders of waivers let through.
use arvern_ips.Prelude.{
  ℕ, suc, ◌≡◌, refl, inl, inr, Bool, true, false, not, ◌&&◌, Option, none, some, List, [], ◌∷◌,
  append-nil, arith, Bool-cases, Option-cases, all, is_nil, eqb, nat_eq, list_eq, pair_eq, Text,
  codes, strip, has_part, split_on, join,
}
use arvern_ips.Prelude.Dict.{Dict}
use arvern_ips.Waivers.Json.{Json, arr, obj, elems, props, get, text_of}
use arvern_ips.Waivers.Match.{Waiver}
use arvern_ips.Waivers.Load.{
  Loaded, Located, located, unlocated, read_types, first_trouble, Outcome, add_outcome, placeholder,
  entry_checks, entry_types, locate, finish, build_located, build_entry, build, add_dict,
}
use arvern_ips.Waivers.Load.Markdown.{
  Block, Scan, scanned, open_fence, scan, add_entries, load_json, load_block, load_blocks,
  load_scan, load_md, looks_like_waivers, place_at,
}
use arvern_ips.Waivers.Load.Markdown.Complete.{all-append}
use arvern_ips.Waivers.Load.Lines.{
  partition, Fields, match_line, finish_line, build_body, build_line, load_lines, load_txt,
}

-- The waiver selects some kind of points, and says why.
abbrev pub is_usable : Waiver → Bool
is_usable w = not (is_nil w.pages) && not (has_part w.reason placeholder)

abbrev pub AllUsable : Loaded → Type 0
AllUsable l = all is_usable l.items ≡ true

abbrev IsGood : Option Waiver → Type 0
IsGood none = Unit
IsGood (some w) = is_usable w ≡ true

add_outcome-usable :
    (l : Loaded) (o : Outcome) → AllUsable l → IsGood o.0 → AllUsable (add_outcome l o)
unfolding add_outcome
add_outcome-usable l (none, problems) h g = rw append-nil h
add_outcome-usable l (some w, problems) h g =
    let both = all-append is_usable l.items (w ∷ []) in ground (arith, both, h, g)

module _ (compiles : Text → Bool) (repr : Json → Text) where
  build_located-IsGood :
      (place : Text) (d : Dict Text Json) (l : Located)
      → has_part (text_of repr (get "why" d)) placeholder ≡ false
      → IsGood (build_located compiles repr place d l).0
  unfolding build_located finish
  build_located-IsGood place d (unlocated t) h = tt
  build_located-IsGood place d (located loc) h =
      elim (Bool-cases (is_nil (read_types place (entry_types compiles repr d)).0)) [
        | inl e ↦ rw e tt
        | inr e ↦ rw e (rw (e, h) refl)
      ]

  entry_checks-why :
      (d : Dict Text Json)
      → first_trouble (entry_checks compiles repr d) ≡ none
      → has_part (text_of repr (get "why" d)) placeholder ≡ false
  unfolding entry_checks first_trouble
  entry_checks-why d e = ground (arith, e)

  build_entry-IsGood :
      (place : Text) (d : Dict Text Json) → IsGood (build_entry compiles repr place d).0
  unfolding build_entry
  build_entry-IsGood place d = elim (Option-cases (first_trouble (entry_checks compiles repr d))) [
    | inl e ↦
        rw (e, build_entry)
          (build_located-IsGood place d (locate compiles repr (text_of repr (get "at" d)))
            (entry_checks-why d e))
    | inr (t, e) ↦ rw (e, build_entry) tt
  ]

  build-IsGood : (place : Text) (v : Json) → IsGood (build compiles repr place v).0
  unfolding build
  build-IsGood place (obj ps) = build_entry-IsGood place (props ps)
  build-IsGood place _ = tt

  finish_line-IsGood :
      (place reason : Text) (f : Fields) (l : Located)
      → has_part reason placeholder ≡ false
      → IsGood (finish_line compiles repr place reason f l).0
  unfolding finish_line
  finish_line-IsGood place reason f (unlocated t) h = tt
  finish_line-IsGood place reason f (located loc) h =
      elim (Bool-cases (is_nil (read_types place (split_on b',' f.kinds)).0)) [
        | inl e ↦ rw e tt
        | inr e ↦ rw e (rw (e, h) refl)
      ]

  build_body-IsGood :
      (place body reason : Text) → IsGood (build_body compiles repr place body reason).0
  unfolding build_body
  build_body-IsGood place body reason = elim (Bool-cases (is_nil reason)) [
    | inl e ↦ rw e tt
    | inr e ↦ elim (Bool-cases (has_part reason placeholder)) [
      | inl left ↦ rw (e, left) tt
      | inr gone ↦ elim (Option-cases (match_line body)) [
        | inl m ↦ rw (e, gone, m) tt
        | inr (f, m) ↦
            rw (e, gone, m) (finish_line-IsGood place reason f (locate compiles repr f.loc) gone)
      ]
    ]
  ]

  build_line-IsGood : (place raw : Text) → IsGood (build_line compiles repr place raw).0
  unfolding build_line
  build_line-IsGood place raw =
      let body = strip (partition b'#' raw).0 in
      elim (Bool-cases (is_nil body)) [
        | inl e ↦ rw e tt
        | inr e ↦ rw e (build_body-IsGood place body (strip (partition b'#' raw).1))
      ]

  load_lines-usable :
      (path : Text) (n : ℕ) (l : Loaded) (lines : List Text)
      → AllUsable l
      → AllUsable (load_lines compiles repr path n l lines)
  unfolding load_lines
  load_lines-usable path n l [] h = h
  load_lines-usable path n l (raw ∷ lines) h = load_lines-usable path (suc n) _ lines (
      add_outcome-usable l (build_line compiles repr (place_at path n) raw) h
        (build_line-IsGood (place_at path n) raw))

  module _ (loads : Text → Option Json) (path : Text) where
    add_entries-usable :
        (place : Text) (l : Loaded) (ws : List Json)
        → AllUsable l
        → AllUsable (add_entries loads compiles repr path place l ws)
    unfolding add_entries add_dict
    add_entries-usable place l [] h = h
    add_entries-usable place l (w ∷ ws) h =
        add_entries-usable place (add_dict compiles repr l place w) ws
          (add_outcome-usable l (build compiles repr place w) h (build-IsGood place w))

    load_json-usable :
        (start : ℕ) (l : Loaded) (o : Option Json)
        → AllUsable l
        → AllUsable (load_json loads compiles repr path start l o)
    unfolding load_json
    load_json-usable start l none h = h
    load_json-usable start l (some (arr ws)) h =
        add_entries-usable (place_at path start) l (elems ws) h
    load_json-usable start l (some _) h = h

    load_block-usable :
        (l : Loaded) (b : Block) → AllUsable l → AllUsable (load_block loads compiles repr path l b)
    unfolding load_block
    load_block-usable l b h = elim (Bool-cases (eqb b.lang (codes "json"))) [
      | inl e ↦ rw e (load_json-usable b.start l (loads (join (codes "\n") b.buf)) h)
      | inr e ↦ elim (Bool-cases (looks_like_waivers b)) [
        | inl f ↦ rw (e, f) h
        | inr f ↦ rw (e, f) h
      ]
    ]

    load_blocks-usable :
        (l : Loaded) (bs : List Block)
        → AllUsable l
        → AllUsable (load_blocks loads compiles repr path l bs)
    unfolding load_blocks
    load_blocks-usable l [] h = h
    load_blocks-usable l (b ∷ bs) h =
        load_blocks-usable (load_block loads compiles repr path l b) bs (load_block-usable l b h)

    load_scan-usable : (sc : Scan) → AllUsable (load_scan loads compiles repr path sc)
    unfolding load_scan
    load_scan-usable (open_fence n) = refl
    load_scan-usable (scanned bs) =
        let l = load_blocks loads compiles repr path (record { items = []; errors = [] }) bs in
        let h : AllUsable l = load_blocks-usable (record { items = []; errors = [] }) bs refl in
        ground (arith, h)

-- Every waiver that either loader lets through, errors or not, selects at least one kind of points,
-- and its reason is not the placeholder that `--suggest` writes.
pub load-usable :
    (loads : Text → Option Json) (compiles : Text → Bool) (repr : Json → Text) (path : Text)
    (lines : List Text)
    → (all is_usable (load_md loads compiles repr path lines).items ≡ true)
      × (all is_usable (load_txt compiles repr path lines).items ≡ true)
unfolding load_md load_txt
load-usable loads compiles repr path lines = (
  load_scan-usable compiles repr loads path (scan 1 none lines),
  load_lines-usable compiles repr path 1 (record { items = []; errors = [] }) lines refl,
)
