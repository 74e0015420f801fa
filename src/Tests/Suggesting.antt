-- ===== src/Tests/Suggesting.antt =====
-- Examples of the theorems on the suggested waivers.
use arvern_ips.Prelude.{
  ℕ, ◌≡◌, refl, Bool, true, false, none, some, List, [], ◌∷◌, any, all, is_nil, eqb, nat_eq,
  list_beq, list_eq, pair_eq, contains, Text, codes, strip, ends_with, has_part, before, rpartition,
  basename,
}
use arvern_ips.Prelude.Dict.{lookup, insert}
use arvern_ips.Prelude.Decimal.{is_number, int, show}
use arvern_ips.Waivers.Glob.Literal.{IsTame}
use arvern_ips.Waivers.Json.{Json}
use arvern_ips.Waivers.Match.{at_text, locates}
use arvern_ips.Waivers.Load.{all_pages, placeholder, build}
use arvern_ips.Waivers.Anchor.{src_anchor}
use arvern_ips.Waivers.Anchor.Unique.{src_anchor-locates}
use arvern_ips.Waivers.Suggest.{Sighting, Place, collapse, entry_json, suggest_entries}
use arvern_ips.Waivers.Suggest.Entries.{is_rejected}
use arvern_ips.Waivers.Suggest.Covered.{is_canonical}
use arvern_ips.Waivers.Suggest.Loaded.{completed_covers, suggest_entries-covers}

abbrev rtl : Text → List Text
rtl p = codes "module a;" ∷ codes "  assign q = ready_in;" ∷ codes "  assign p = ready_in;" ∷ []

abbrev search : Text → Text → Bool
search r l = has_part l r

abbrev path : Text
path = codes "rtl/a.v"

rtl_anchor : src_anchor (rtl path) 2 (codes "q") ≡ some (codes "assign q = ready_in")
unfolding src_anchor arvern_ips.Waivers.Anchor.line_anchor strip before
    arvern_ips.Waivers.Anchor.anchor_loop arvern_ips.Waivers.Anchor.shortest has_part
    arvern_ips.Waivers.Anchor.index_of arvern_ips.Waivers.Anchor.occurrences
    arvern_ips.Waivers.Anchor.word_length arvern_ips.Waivers.Anchor.is_word
rtl_anchor = refl

src_anchor-locates_example :
    locates rtl search (at_text (codes "assign q = ready_in")) path 2 ≡ true
src_anchor-locates_example =
    src_anchor-locates rtl search path (codes "q") (codes "assign q = ready_in") 2 2 rtl_anchor

abbrev sighting : Text → ℕ → Sighting
sighting sig count = record {
  page = codes "v_toggle";
  path = path;
  line = 2;
  sig = sig;
  count = count;
}

-- Two bits, of which one was seen to toggle.
abbrev seen : List Sighting
seen = sighting (codes "q[0]") 4 ∷ sighting (codes "q[1]") 0 ∷ []

abbrev why : Text
why = codes "unreachable: tied off"

abbrev compiles : Text → Bool
compiles r = true

abbrev repr : Json → Text
repr v = codes "{}"

why-filled : has_part why placeholder ≡ false
unfolding has_part
why-filled = refl

seen-hole :
    lookup (codes "v_toggle", (path, codes "q[1]")) (collapse (codes "a.v") 2 none [] seen) ≡ some 0
unfolding collapse lookup arvern_ips.Waivers.Suggest.is_asked ends_with
    arvern_ips.Waivers.Suggest.is_other_kind arvern_ips.Waivers.Suggest.add_sighting insert list_beq
seen-hole = refl

seen-single :
    all (λ (h : Place × ℕ). eqb h.0.1.0 path) (collapse (codes "a.v") 2 none [] seen) ≡ true
unfolding collapse lookup arvern_ips.Waivers.Suggest.is_asked ends_with
    arvern_ips.Waivers.Suggest.is_other_kind arvern_ips.Waivers.Suggest.add_sighting insert list_beq
seen-single = refl

toggle-known : contains all_pages (codes "v_toggle") ≡ true
unfolding contains list_beq
toggle-known = refl

path-named : is_nil (basename path) ≡ false
unfolding basename
path-named = refl

bit-IsTame : IsTame (codes "q[1]")
bit-IsTame = (refl, refl, (refl, refl, (refl, refl, (refl, refl, tt))))

bit-canonical : is_canonical (codes "q[1]") ≡ true
unfolding show arvern_ips.Waivers.Suggest.indexed rpartition is_number list_beq
    arvern_ips.Waivers.Fold.bit_name int
bit-canonical = refl

suggest_entries-covers_example :
    (any
        (completed_covers rtl search compiles repr
          (codes "a.md")
          why
          refl
          why-filled
          (record { path = path; line = 2; page = codes "v_toggle"; sig = codes "q[1]" }))
        (suggest_entries rtl seen (codes "a.v") 2 none).0
      ≡ true)
    × (all
          (λ e. is_rejected compiles repr (build compiles repr (codes "a.md") (entry_json e)))
          (suggest_entries rtl seen (codes "a.v") 2 none).0
        ≡ true)
suggest_entries-covers_example =
    suggest_entries-covers rtl search compiles repr (codes "a.md") why refl why-filled seen
      (codes "a.v") 2 none (codes "v_toggle") path (codes "q[1]") seen-hole seen-single toggle-known
      path-named bit-IsTame bit-canonical
