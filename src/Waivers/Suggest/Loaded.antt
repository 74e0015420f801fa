-- ===== src/Waivers/Suggest/Loaded.antt =====
-- The suggested entries through the loader and the match.
use arvern_ips.Prelude.{
  ℕ, ◌≡◌, refl, sym, ap, ◌∙◌, inl, inr, Bool, true, false, Option, none, some, List, [], ◌∷◌, ◌++◌,
  map, arith, ◌==◌, Option-cases, and-eq-true, keep_if, any, all, is_nil, eqb, nat_eq, list_beq_iff,
  list_eq, pair_eq, eqb_refl, contains, Text, codes, has_part, before, basename,
}
use arvern_ips.Prelude.Dict.{Dict, lookup}
use arvern_ips.Prelude.Sorting.{sort}
use arvern_ips.Waivers.Glob.{fnmatch}
use arvern_ips.Waivers.Glob.Literal.{IsTame}
use arvern_ips.Waivers.Json.{Json}
use arvern_ips.Waivers.Match.{Locator, types, Point, locates, selects, covers}
use arvern_ips.Waivers.Load.{Outcome, all_pages, placeholder, locate, located, build}
use arvern_ips.Waivers.Anchor.{src_anchor}
use arvern_ips.Waivers.Anchor.Unique.{src_anchor-locates, src_anchor-filled}
use arvern_ips.Waivers.Suggest.{
  Sighting, Place, collapse, base_of, by_base, Entry, stub, kind_of_page, group_entries, entry_json,
  all_entries, place_le, anchor_of, locator_of, suggest_entries,
}
use arvern_ips.Waivers.Suggest.Entries.{
  locator_from, is_rejected, locate-locator_of, build-entry_json, build-stub,
}
use arvern_ips.Waivers.Suggest.Groups.{Member, has_member, lookup-any, by_base-holds}
use arvern_ips.Waivers.Suggest.Covered.{
  any-map, any-sort, any-all_entries, is_canonical, globs_of, globs_of-match,
}

-- An entry as a group writes it.
abbrev pub made : Text → Text → Text → Text → Entry
made path at page glob = record {
  file = basename path;
  at = at;
  kind = kind_of_page types page;
  sig = glob;
  why = stub;
}

any_mono {ℓ} :
    {A : Type ℓ} (p q : A → Bool) (xs : List A)
    → ((x : A) → p x ≡ true → q x ≡ true)
    → any p xs ≡ true
    → any q xs ≡ true
any_mono p q [] h t = ground (arith, t)
any_mono p q (x ∷ xs) h t = ground (arith, t, h x, any_mono p q xs h)

is_nil-keep_if {ℓ} :
    {A : Type ℓ} (p : A → Bool) (xs : List A) → any p xs ≡ true → is_nil (keep_if p xs) ≡ false
is_nil-keep_if p [] h = ground (arith, h)
is_nil-keep_if p (x ∷ xs) h = ground (arith, h, is_nil-keep_if p xs)

all-keep_if {ℓ} :
    {A : Type ℓ} (p q : A → Bool) (xs : List A) → all p xs ≡ true → all p (keep_if q xs) ≡ true
all-keep_if p q [] h = refl
all-keep_if p q (x ∷ xs) h = ground (arith, h, all-keep_if p q xs)

-- The order of the groups.
abbrev group_le : Place × List Member → Place × List Member → Bool
group_le g h = place_le g.0 h.0

-- The group of the point, among the groups of the hits.
has_member-some :
    (m : Member) (o : Option (List Member))
    → has_member m o ≡ true
    → (members : List Member) × ((o ≡ some members) × (contains members m ≡ true))
has_member-some m none h = ground (arith, h)
has_member-some m (some members) h = (members, (refl, h))

module _ (source : Text → List Text) (search : Text → Text → Bool) where
  -- An entry was taken without an error, and its waiver covers the point.
  abbrev pub accepts : Point → Outcome → Bool
  accepts p (some w, []) = covers source search w p
  accepts p (some w, b ∷ problems) = false
  accepts p (none, problems) = false

  -- The place of the anchor is the line itself.
  anchor_of-locates :
      (live : Dict Place ℕ) (path : Text) (line : ℕ)
      → all (λ (h : Place × ℕ). eqb h.0.1.0 path) live ≡ true
      → (locates source search (locator_from (anchor_of source live line) line) path line ≡ true)
        × ((elim (anchor_of source live line) [ none ↦ false | some a ↦ is_nil a ]) ≡ false)
  unfolding anchor_of locates
  anchor_of-locates [] path line h = ground arith
  anchor_of-locates (((page, (p, sig)), cnt) ∷ live) path line h =
      let same = (list_beq_iff p path).0 ((and-eq-true _ _).0 h).0 in
      elim (Option-cases (src_anchor (source p) line (before (codes "[") sig))) [
        | inl e ↦ rw (anchor_of, e) (ground arith)
        | inr (a, e) ↦
            let at_line_itself =
              src_anchor-locates source search path (before (codes "[") sig) a line line
                (ap (λ f. src_anchor (source f) line (before (codes "[") sig)) (sym same) ∙ e) in
            rw (anchor_of, e)
              (
                at_line_itself ∙ ground arith,
                src_anchor-filled (source p) (before (codes "[") sig) a line e,
              )
      ]

  module _ (compiles : Text → Bool) (repr : Json → Text) (place why : Text)
      (stated : is_nil why ≡ false) (filled : has_part why placeholder ≡ false) where
    -- The entry, completed and loaded, covers the point.
    abbrev pub completed_covers : Point → Entry → Bool
    completed_covers p e =
        accepts p (build compiles repr place (entry_json (record e { why = why })))

    -- A glob that matches the signal makes an entry that covers the point.
    made-covers :
        (page path sig at glob : Text) (line : ℕ) (loc : Locator)
        → contains all_pages page ≡ true
        → is_nil (basename path) ≡ false
        → locate compiles repr at ≡ located loc
        → locates source search loc path line ≡ true
        → fnmatch sig glob ≡ true
        → completed_covers
            (record { path = path; line = line; page = page; sig = sig })
            (made path at page glob)
          ≡ true
    unfolding covers selects contains
    made-covers page path sig at glob line loc known named found here fits =
        let p : Point = record { path = path; line = line; page = page; sig = sig } in
        let e : Entry = record (made path at page glob) { why = why } in
        ap (accepts p)
          (build-entry_json compiles repr place page loc e known refl named stated filled found)
        ∙ ground (arith, eqb_refl (basename path), eqb_refl page, here, fits)

    group_entries-covers :
        (page path sig base at : Text) (line : ℕ) (loc : Locator) (members : List Member)
        → contains all_pages page ≡ true
        → is_nil (basename path) ≡ false
        → locate compiles repr at ≡ located loc
        → locates source search loc path line ≡ true
        → any (fnmatch sig) (globs_of base members) ≡ true
        → any
            (completed_covers (record { path = path; line = line; page = page; sig = sig }))
            (group_entries at ((page, (path, base)), members))
          ≡ true
    unfolding group_entries
    group_entries-covers page path sig base at line loc members known named found here matched =
        let p : Point = record { path = path; line = line; page = page; sig = sig } in
        any-map (completed_covers p) (made path at page) (globs_of base members)
        ∙ any_mono (fnmatch sig) (λ glob. completed_covers p (made path at page glob))
            (globs_of base members)
            (λ glob fits. made-covers page path sig at glob line loc known named found here fits)
            matched

    rejected-append :
        (xs ys : List Entry)
        → all (λ e. is_rejected compiles repr (build compiles repr place (entry_json e))) xs ≡ true
        → all (λ e. is_rejected compiles repr (build compiles repr place (entry_json e))) ys ≡ true
        → all (λ e. is_rejected compiles repr (build compiles repr place (entry_json e))) (xs ++ ys)
          ≡ true
    rejected-append [] ys h k = k
    rejected-append (x ∷ xs) ys h k = ground (arith, h, k, rejected-append xs ys)

    made-rejected :
        (path at page : Text) (globs : List Text)
        → all
            (λ e. is_rejected compiles repr (build compiles repr place (entry_json e)))
            (map (made path at page) globs)
          ≡ true
    made-rejected path at page [] = refl
    made-rejected path at page (glob ∷ globs) =
        rw (build-stub compiles repr place (made path at page glob) refl)
          (made-rejected path at page globs)

    all_entries-rejected :
        (at : Text) (gs : List (Place × List Member))
        → all
            (λ e. is_rejected compiles repr (build compiles repr place (entry_json e)))
            (all_entries at gs)
          ≡ true
    unfolding all_entries group_entries
    all_entries-rejected at [] = refl
    all_entries-rejected at (((page, (path, base)), members) ∷ gs) =
        rejected-append (group_entries at ((page, (path, base)), members)) (all_entries at gs)
          (made-rejected path at page (globs_of base members)) (all_entries-rejected at gs)

    -- Where all points that are asked for stand in one file, each uncovered one of a known page,
    -- with a name without wildcards and an index without leading zeros, is covered by some
    -- suggested entry that was completed and loaded; as they are printed, the loader refuses them all.
    pub suggest_entries-covers :
        (records : List Sighting) (file_hint : Text) (line : ℕ) (kind : Option Text)
        (page path sig : Text)
        → lookup (page, (path, sig)) (collapse file_hint line kind [] records) ≡ some 0
        → all (λ (h : Place × ℕ). eqb h.0.1.0 path) (collapse file_hint line kind [] records) ≡ true
        → contains all_pages page ≡ true
        → is_nil (basename path) ≡ false
        → IsTame sig
        → is_canonical sig ≡ true
        → (any
              (completed_covers (record { path = path; line = line; page = page; sig = sig }))
              (suggest_entries source records file_hint line kind).0
            ≡ true)
          × (all
                (λ e. is_rejected compiles repr (build compiles repr place (entry_json e)))
                (suggest_entries source records file_hint line kind).0
              ≡ true)
    unfolding suggest_entries
    suggest_entries-covers records file_hint line kind page path sig hole single known named tame
          canonical =
        let p : Point = record { path = path; line = line; page = page; sig = sig } in
        let hits = collapse file_hint line kind [] records in
        let live = keep_if (λ (h : Place × ℕ). h.1 == 0) hits in
        let at = locator_of source (anchor_of source live line) line in
        let groups = by_base [] hits in
        let k : Place = (page, (path, base_of sig)) in
        let some_live =
          is_nil-keep_if (λ (h : Place × ℕ). h.1 == 0) hits
            (lookup-any (λ (h : Place × ℕ). h.1 == 0) hits (page, (path, sig)) 0 hole refl) in
        let (members, (group, m)) =
          has_member-some (sig, 0) (lookup k groups) (by_base-holds hits page path sig 0 hole) in
        let (here, solid) = anchor_of-locates live path line (
          all-keep_if (λ (h : Place × ℕ). eqb h.0.1.0 path) (λ (h : Place × ℕ). h.1 == 0) hits
            single) in
        let matched = globs_of-match members sig m tame canonical in
        let mine =
          group_entries-covers page path sig (base_of sig) at line
            (locator_from (anchor_of source live line) line) members known named
            (locate-locator_of compiles repr source (anchor_of source live line) line solid) here
            matched in
        rw some_live (
          any-all_entries (completed_covers p) at (sort group_le groups)
              ∙ (any-sort (λ g. any (completed_covers p) (group_entries at g)) group_le groups
                  ∙ lookup-any (λ g. any (completed_covers p) (group_entries at g)) groups k members
                      group mine),
          all_entries-rejected at (sort group_le groups),
        )
