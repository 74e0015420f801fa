-- ===== src/Waivers/Suggest/Entries.antt =====
-- What the loader makes of a suggested entry.
use arvern_ips.Prelude.{
  ℕ, ◌+◌, ◌-◌, ◌≤◌, ◌≡◌, refl, ap, ◌∙◌, inl, inr, Bool, true, false, not, Option, none, some, List,
  [], ◌∷◌, ◌++◌, arith, ltb, if◌then◌else◌, lt→ltb, Bool-cases, or-eq-true, length, take, is_nil,
  length-append, eqb, nat_eq, list_beq, list_beq_iff, list_eq, pair_eq, contains, Text, codes,
  strip, starts_with, ends_with, has_part, split_on,
}
use arvern_ips.Prelude.Dict.{Dict, keys, lookup}
use arvern_ips.Prelude.Decimal.{is_digit, is_number, show, int-show, is_number-show}
use mathlib.Core.Path.{subst}
use mathlib.Core.List.{reverse-append}
use arvern_ips.Waivers.Json.{Json, str, get, truthy, is_null, text_of}
use arvern_ips.Waivers.Match.{Locator, at_line, at_text, Waiver, types}
use arvern_ips.Waivers.Load.{
  placeholder_left, no_file_or_at, located, all_pages, pages_of, read_types, first_trouble, Outcome,
  placeholder, extra_keys, locate, type_list, entry_types, entry_sig, entry_checks, finish,
  build_located, build_entry, build,
}
use arvern_ips.Waivers.Suggest.{Entry, stub, kind_of_page, entry_json, locator_of}

-- What a locator becomes.
abbrev pub locator_from : Option Text → ℕ → Locator
locator_from none line = at_line line
locator_from (some anchor) line = at_text anchor

-- The waiver of an entry whose page and locator are known.
abbrev pub waiver_of : Text → Text → Locator → Entry → Waiver
waiver_of place page loc e = record {
  file = e.file;
  locator = loc;
  pages = page ∷ [];
  sig = some e.sig;
  reason = e.why;
  src = place;
  hits = 0;
}

ends_with-append : (s : Text) (c : ℕ) → ends_with (s ++ (c ∷ [])) (c ∷ []) ≡ true
unfolding ends_with starts_with
ends_with-append s c = rw (reverse-append s (c ∷ [])) (ground arith)

take-length : (s t : Text) → take (length s) (s ++ t) ≡ s
take-length [] t = refl
take-length (c ∷ s) t = ap (λ r. c ∷ r) (take-length s t)

length-pos : (s : Text) → is_nil s ≡ false → 1 ≤ length s
length-pos [] h = ground (arith, h)
length-pos (c ∷ s) h = omega arith

is_digit-slash :
    (s : Text)
    → is_number s ≡ true
    → (starts_with s (codes "/") ≡ false) × (starts_with s (codes "re/") ≡ false)
unfolding is_number is_digit starts_with
is_digit-slash [] h = ground (arith, h)
is_digit-slash (c ∷ s) h = ground (arith, h)

stub-has_part : has_part stub placeholder ≡ true
unfolding has_part starts_with
stub-has_part = refl

module _ (compiles : Text → Bool) (repr : Json → Text) where
  pub locate-locator_of :
      (source : Text → List Text) (anchor : Option Text) (line : ℕ)
      → (elim anchor [ none ↦ false | some a ↦ is_nil a ]) ≡ false
      → locate compiles repr (locator_of source anchor line) ≡ located (locator_from anchor line)
  unfolding locate locator_of starts_with
  locate-locator_of source none line h =
      let digits = is_number-show line in
      let other = is_digit-slash (show line) digits in
      rw (other.1, other.0, digits, int-show line) refl
  locate-locator_of source (some a) line h =
      let loc : Text = b'/' ∷ (a ++ codes "/") in
      let size : length (a ++ codes "/") ≡ length a + 1 = length-append a (codes "/") in
      let some_text = length-pos a h in
      let ended = ends_with-append (b'/' ∷ a) b'/' in
      let long : ltb 2 (length loc) ≡ true =
        lt→ltb 2 (length loc) (omega (arith, size, some_text)) in
      let short : length loc - 2 ≡ length a = omega (arith, size) in
      rw (ended, long, short, take-length a (codes "/")) refl

  abbrev KindLoads : Text → Text → Type 0
  KindLoads place page =
      read_types place (type_list compiles repr (str (kind_of_page types page))) ≡ (page ∷ [], [])

  kind_lines : (place : Text) → KindLoads place (codes "v_line")
  unfolding read_types type_list kind_of_page pages_of text_of list_beq lookup split_on strip
  kind_lines place = refl

  kind_branches : (place : Text) → KindLoads place (codes "v_branch")
  unfolding read_types type_list kind_of_page pages_of text_of list_beq lookup split_on strip
  kind_branches place = refl

  kind_toggles : (place : Text) → KindLoads place (codes "v_toggle")
  unfolding read_types type_list kind_of_page pages_of text_of list_beq lookup split_on strip
  kind_toggles place = refl

  kind_at : (place p page : Text) → eqb p page ≡ true → KindLoads place p → KindLoads place page
  kind_at place p page e h = subst (KindLoads place) ((list_beq_iff p page).0 e) h

  kind_of_page-types : (place page : Text) → contains all_pages page ≡ true → KindLoads place page
  unfolding contains
  kind_of_page-types place page h = elim (or-eq-true _ _ h) [
    | inl e ↦ kind_at place (codes "v_line") page e (kind_lines place)
    | inr h' ↦ elim (or-eq-true _ _ h') [
      | inl e ↦ kind_at place (codes "v_branch") page e (kind_branches place)
      | inr h'' ↦ kind_at place (codes "v_toggle") page (ground (arith, h'')) (kind_toggles place)
    ]
  ]

  abbrev entry_dict : Entry → Dict Text Json
  entry_dict e =
      (codes "file", str e.file)
      ∷ (codes "at", str e.at)
      ∷ (codes "type", str e.kind)
      ∷ (codes "sig", str e.sig)
      ∷ (codes "why", str e.why)
      ∷ []

  checks-entry_dict :
      (e : Entry) (bad : Bool)
      → is_nil e.file ≡ false
      → is_nil e.why ≡ false
      → has_part e.why placeholder ≡ bad
      → first_trouble (entry_checks compiles repr (entry_dict e))
        ≡ (if bad then some placeholder_left else none)
  unfolding entry_checks first_trouble extra_keys get lookup truthy is_null text_of list_beq keys
      contains
  checks-entry_dict e bad file why filled = ground (arith, file, why, filled)

  checks-unnamed :
      (e : Entry)
      → is_nil e.file ≡ true
      → first_trouble (entry_checks compiles repr (entry_dict e)) ≡ some no_file_or_at
  unfolding entry_checks first_trouble extra_keys get lookup truthy is_null text_of list_beq keys
      contains
  checks-unnamed e unnamed = ground (arith, unnamed)

  pub build-entry_json :
      (place page : Text) (loc : Locator) (e : Entry)
      → contains all_pages page ≡ true
      → e.kind ≡ kind_of_page types page
      → is_nil e.file ≡ false
      → is_nil e.why ≡ false
      → has_part e.why placeholder ≡ false
      → locate compiles repr e.at ≡ located loc
      → build compiles repr place (entry_json e) ≡ (some (waiver_of place page loc e), [])
  unfolding build build_entry entry_json build_located entry_types entry_sig finish get lookup
      is_null text_of list_beq
  build-entry_json place page loc e known kind file why filled found =
      let read : read_types place (type_list compiles repr (str e.kind)) ≡ (page ∷ [], []) =
        ap (λ k. read_types place (type_list compiles repr (str k))) kind
        ∙ kind_of_page-types place page known in
      let passed = checks-entry_dict e false file why filled in
      rw (build_entry, passed, found, read) refl

  -- What adds an error and no waiver.
  abbrev pub is_rejected : Outcome → Bool
  is_rejected (none, problems) = not (is_nil problems)
  is_rejected (some w, problems) = false

  pub build-stub :
      (place : Text) (e : Entry)
      → e.why ≡ stub
      → is_rejected (build compiles repr place (entry_json e)) ≡ true
  unfolding build build_entry entry_json
  build-stub place e why = elim (Bool-cases (is_nil e.file)) [
    | inl unnamed ↦ rw (build_entry, checks-unnamed e unnamed) refl
    | inr named ↦
        let filled : has_part e.why placeholder ≡ true =
          ap (λ t. has_part t placeholder) why ∙ stub-has_part in
        let stated : is_nil e.why ≡ false = ap (λ (t : Text). is_nil t) why in
        rw (build_entry, checks-entry_dict e true named stated filled) refl
  ]
