-- ===== src/Waivers/Load/Markdown/Complete.antt =====
-- One entry of a Markdown file: a waiver or an error, but for an empty list of types.
use arvern_ips.Prelude.{
  ◌≡◌, refl, ◌∙◌, inl, inr, Bool, true, false, not, ◌&&◌, Option, none, some, List, [], ◌∷◌, ◌++◌,
  map, append-nil, arith, Option-cases, all, is_nil, nat_eq, list_eq, pair_eq, Text, codes,
}
use arvern_ips.Prelude.Dict.{Dict, lookup}
use arvern_ips.Waivers.Json.{text_of, get, Json, arr, obj, nil, Props, props}
use arvern_ips.Waivers.Match.{Locator, Waiver}
use arvern_ips.Waivers.Load.{
  Loaded, Located, located, unlocated, pages_of, read_types, first_trouble, add_outcome,
  entry_types, entry_checks, locate, finish, build_located, build_entry, build, add_dict, type_list,
}
use mathlib.Core.List.{map-append}

abbrev pub is_some {ℓ} : {A : Type ℓ} → Option A → Bool
is_some none = false
is_some (some a) = true

pub all-append {ℓ} :
    {A : Type ℓ} (p : A → Bool) (xs ys : List A) → all p (xs ++ ys) ≡ (all p xs && all p ys)
all-append p [] ys = refl
all-append p (x ∷ xs) ys = ground (arith, all-append p xs ys)

pub is_nil-append {ℓ} : {A : Type ℓ} (xs ys : List A) → is_nil (xs ++ ys) ≡ (is_nil xs && is_nil ys)
is_nil-append [] ys = refl
is_nil-append (x ∷ xs) ys = refl

pages_of-nonempty : (t : Text) (ps : List Text) → pages_of t ≡ some ps → is_nil ps ≡ false
unfolding pages_of
pages_of-nonempty t ps e = ground (arith, e)

pub read_types-nonempty :
    (place : Text) (ts : List Text)
    → is_nil ts ≡ false
    → is_nil (read_types place ts).1 ≡ true
    → is_nil (read_types place ts).0 ≡ false
unfolding read_types
read_types-nonempty place [] h k = ground (arith, h)
read_types-nonempty place (t ∷ ts) h k = elim (Option-cases (pages_of t)) [
  | inl e ↦ ground (arith, e, k)
  | inr (ps, e) ↦
      rw (e, read_types)
        (is_nil-append ps (read_types place ts).0 ∙ rw (pages_of-nonempty t ps e) refl)
]

module _ (loads : Text → Option Json) (compiles : Text → Bool) (repr : Json → Text) where
  -- The entry does not carry an empty list of types.
  abbrev pub has_types : Json → Bool
  has_types (obj ps) = not (is_nil (entry_types compiles repr (props ps)))
  has_types v = true

  build_located-some :
      (place : Text) (ps : Dict Text Json) (l : Located)
      → is_nil (entry_types compiles repr ps) ≡ false
      → is_nil (build_located compiles repr place ps l).1 ≡ true
      → is_some (build_located compiles repr place ps l).0 ≡ true
  unfolding build_located finish
  build_located-some place ps (unlocated t) h k = ground (arith, k)
  build_located-some place ps (located loc) h k =
      ground (arith, read_types-nonempty place (entry_types compiles repr ps))

  build-some :
      (place : Text) (v : Json)
      → has_types v ≡ true
      → is_nil (build compiles repr place v).1 ≡ true
      → is_some (build compiles repr place v).0 ≡ true
  unfolding build build_entry
  build-some place (obj ps) h k =
      elim (Option-cases (first_trouble (entry_checks compiles repr (props ps)))) [
        | inl e ↦
            let goal =
              build_located-some place (props ps)
                (locate compiles repr (text_of repr (get "at" (props ps)))) in
            ground (arith, e, h, k, goal)
        | inr (t, e) ↦ ground (arith, e, k)
      ]
  build-some place _ h k = ground (arith, k)

  -- What the loader makes of an entry.
  abbrev pub built : Text → Json → Option Waiver
  built place v = (build compiles repr place v).0

  pub items-add_dict :
      (l : Loaded) (place : Text) (v : Json)
      → has_types v ≡ true
      → is_nil (add_dict compiles repr l place v).errors ≡ true
      → (is_nil l.errors ≡ true)
        × (map some (add_dict compiles repr l place v).items
            ≡ map some l.items ++ (built place v ∷ []))
  unfolding add_dict add_outcome
  items-add_dict l place v h k =
      let parts = is_nil-append l.errors (build compiles repr place v).1 in
      let some_w = build-some place v h in
      elim (Option-cases (build compiles repr place v).0) [
        | inl e ↦ ground (arith, e, parts, some_w, k)
        | inr (w, e) ↦
            (ground (arith, parts, k), rw (e, add_dict) (map-append some l.items (w ∷ [])))
      ]

  build-empty_types :
      (place : Text) (ps : Props) (loc : Locator)
      → lookup (codes "type") (props ps) ≡ some (arr nil)
      → first_trouble (entry_checks compiles repr (props ps)) ≡ none
      → locate compiles repr (text_of repr (get "at" (props ps))) ≡ located loc
      → build compiles repr place (obj ps) ≡ (none, [])
  unfolding build build_entry entry_types build_located
  build-empty_types place ps loc empty passed found =
      rw (passed, build_entry)
        (rw (found, build_located)
          (rw (empty, entry_types) (unfold finish type_list read_types in refl)))

  -- An entry that is otherwise good and has the empty list for its types is dropped in silence: it
  -- adds no waiver and no error.
  pub add_dict-empty_types :
      (l : Loaded) (place : Text) (ps : Props) (loc : Locator)
      → lookup (codes "type") (props ps) ≡ some (arr nil)
      → first_trouble (entry_checks compiles repr (props ps)) ≡ none
      → locate compiles repr (text_of repr (get "at" (props ps))) ≡ located loc
      → add_dict compiles repr l place (obj ps) ≡ l
  unfolding add_dict add_outcome
  add_dict-empty_types l place ps loc empty passed found =
      rw (build-empty_types place ps loc empty passed found)
        (rw (append-nil l.items, append-nil l.errors) refl)
