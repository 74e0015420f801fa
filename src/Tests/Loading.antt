-- ===== src/Tests/Loading.antt =====
-- Examples of the theorems on the loaders of waivers.
use arvern_ips.Prelude.{
  ℕ, zero, suc, ◌+◌, ◌-◌, ◌*◌, ◌/◌, ◌%◌, ◌≤◌, ◌<◌, max, min, ◌≡◌, refl, sym, ap, ◌∙◌, ◌≢◌, ◌↔◌, ◌⊎◌,
  inl, inr, Bool, true, false, not, ◌&&◌, ◌||◌, Option, none, some, List, [], ◌∷◌, ◌++◌, map,
  append-nil, append_assoc, arith, ltb, leb, ◌==◌, if◌then◌else◌, ltb→lt, lt→ltb, leb→le, ==_iff,
  Bool-cases, Option-cases, Bool-ext, and-eq-true, or-eq-true, length, get_elem?, get_or, take,
  drop, replicate, keep_if, any, all, is_nil, length-append, List-cases, drop-append,
  keep_if-append, length-keep_if-le, any-append, Eq, eqb, nat_eq, list_beq, list_beq_iff, list_eq,
  pair_beq, pair_beq_iff, pair_eq, eqb_refl, eqb_sym, contains, contains-append, IsDistinct,
  contains-keep_if, unseen, unseen-cons-le, unseen-cons-lt, Text, codes, is_space, lstrip, rstrip,
  strip, starts_with, starts_with-append, ends_with, has_part, before, split_on, join, rpartition,
  basename,
}
use arvern_ips.Prelude.Dict.{keys, lookup}
use arvern_ips.Prelude.Decimal.{
  is_digit, is_number, int, show, int-show, show_injective, is_number-show,
}
use arvern_ips.Prelude.Sorting.{text_le, insert_sorted, sort}
use arvern_ips.Waivers.Json.{
  Json, null, bool, num, str, arr, obj, Elems, nil, cons, Props, end, prop, props, get, text_of,
}
use arvern_ips.Waivers.Match.{at_line}
use arvern_ips.Waivers.Load.{
  Loaded, first_trouble, entry_checks, locate, located, add_dict, placeholder,
}
use arvern_ips.Waivers.Load.Markdown.{scan, all_entries, load_md}
use arvern_ips.Waivers.Load.Markdown.Document.{Part, prose, fence, HaveForm, render, fences}
use arvern_ips.Waivers.Load.Markdown.Complete.{has_types, add_dict-empty_types}
use arvern_ips.Waivers.Load.Markdown.Fences.{all_built, AreRead, load_md_complete}
use arvern_ips.Waivers.Load.Lines.{load_txt}
use arvern_ips.Waivers.Load.Lines.Complete.{is_waiver_line, load_txt_complete}
use arvern_ips.Waivers.Load.Sound.{is_usable, load-usable}

abbrev compiles : Text → Bool
compiles r = true

abbrev repr : Json → Text
repr v = codes "{}"

abbrev entry : Json
entry = obj (
    prop (codes "file") (str (codes "a.v"))
      (prop (codes "at") (num 3) (prop (codes "why") (str (codes "tied off")) end)))

-- A parser that knows one text.
abbrev loads : Text → Option Json
loads t = if eqb t (codes "[1]") then some (arr (cons entry nil)) else none

-- A title, a fence with an entry, and a fence without a label.
abbrev document : List Part
document =
    prose (codes "# Waivers")
    ∷ fence [] (codes "json") [] (codes "[1]" ∷ []) [] []
    ∷ fence [] [] [] (codes "make" ∷ []) [] []
    ∷ []

document-HaveForm : HaveForm document
unfolding lstrip starts_with is_space arvern_ips.Waivers.Anchor.is_word
document-HaveForm =
    (refl, (refl, refl, refl, refl, refl, refl, (refl, refl, refl, refl, refl, refl, tt)))

document-typed :
    all
      (has_types loads compiles repr)
      (all_entries loads compiles repr (codes "w.md") (fences 1 document))
    ≡ true
unfolding arvern_ips.Waivers.Load.Markdown.fence_label arvern_ips.Waivers.Load.Markdown.is_close
    arvern_ips.Waivers.Load.Markdown.all_entries arvern_ips.Waivers.Load.Markdown.block_entries
    arvern_ips.Waivers.Load.Markdown.load_scan arvern_ips.Waivers.Load.Markdown.load_blocks
    arvern_ips.Waivers.Load.Markdown.load_block arvern_ips.Waivers.Load.Markdown.add_entries
    arvern_ips.Waivers.Load.Markdown.head_line arvern_ips.Waivers.Load.Markdown.load_json
    arvern_ips.Waivers.Load.Markdown.looks_like_waivers arvern_ips.Waivers.Load.Markdown.place_at
    arvern_ips.Waivers.Anchor.is_word scan load_md join int arvern_ips.Prelude.Decimal.int_from
    is_digit is_number show keys contains insert_sorted sort text_le ends_with has_part is_space
    split_on strip get text_of lookup list_beq starts_with lstrip rstrip
    arvern_ips.Waivers.Json.is_null arvern_ips.Waivers.Json.truthy add_dict
    arvern_ips.Waivers.Load.add_outcome arvern_ips.Waivers.Load.build
    arvern_ips.Waivers.Load.build_entry arvern_ips.Waivers.Load.build_located
    arvern_ips.Waivers.Load.entry_sig arvern_ips.Waivers.Load.entry_types
    arvern_ips.Waivers.Load.extra_keys arvern_ips.Waivers.Load.finish
    arvern_ips.Waivers.Load.pages_of arvern_ips.Waivers.Load.problem
    arvern_ips.Waivers.Load.read_types arvern_ips.Waivers.Load.type_list entry_checks first_trouble
    locate
document-typed = refl

document-clean : is_nil (load_md loads compiles repr (codes "w.md") (render document)).errors ≡ true
unfolding arvern_ips.Waivers.Load.Markdown.fence_label arvern_ips.Waivers.Load.Markdown.is_close
    arvern_ips.Waivers.Load.Markdown.all_entries arvern_ips.Waivers.Load.Markdown.block_entries
    arvern_ips.Waivers.Load.Markdown.load_scan arvern_ips.Waivers.Load.Markdown.load_blocks
    arvern_ips.Waivers.Load.Markdown.load_block arvern_ips.Waivers.Load.Markdown.add_entries
    arvern_ips.Waivers.Load.Markdown.head_line arvern_ips.Waivers.Load.Markdown.load_json
    arvern_ips.Waivers.Load.Markdown.looks_like_waivers arvern_ips.Waivers.Load.Markdown.place_at
    arvern_ips.Waivers.Anchor.is_word scan load_md join int arvern_ips.Prelude.Decimal.int_from
    is_digit is_number show keys contains insert_sorted sort text_le ends_with has_part is_space
    split_on strip get text_of lookup list_beq starts_with lstrip rstrip
    arvern_ips.Waivers.Json.is_null arvern_ips.Waivers.Json.truthy add_dict
    arvern_ips.Waivers.Load.add_outcome arvern_ips.Waivers.Load.build
    arvern_ips.Waivers.Load.build_entry arvern_ips.Waivers.Load.build_located
    arvern_ips.Waivers.Load.entry_sig arvern_ips.Waivers.Load.entry_types
    arvern_ips.Waivers.Load.extra_keys arvern_ips.Waivers.Load.finish
    arvern_ips.Waivers.Load.pages_of arvern_ips.Waivers.Load.problem
    arvern_ips.Waivers.Load.read_types arvern_ips.Waivers.Load.type_list entry_checks first_trouble
    locate
document-clean = refl

load_md_complete_example :
    (map some (load_md loads compiles repr (codes "w.md") (render document)).items
      ≡ all_built loads compiles repr (codes "w.md") (fences 1 document))
    × (is_nil (all_entries loads compiles repr (codes "w.md") (fences 1 document)) ≡ false)
    × AreRead loads compiles repr (codes "w.md") (fences 1 document)
load_md_complete_example =
    load_md_complete loads compiles repr (codes "w.md") document document-HaveForm document-typed
      document-clean

abbrev typeless : Props
typeless = prop (codes "type") (arr nil) (
    prop (codes "file") (str (codes "a.v"))
      (prop (codes "at") (num 3) (prop (codes "why") (str (codes "tied off")) end)))

abbrev empty : Loaded
empty = record { items = []; errors = [] }

typeless-type : lookup (codes "type") (props typeless) ≡ some (arr nil)
unfolding lookup list_beq
typeless-type = refl

typeless-passed : first_trouble (entry_checks compiles repr (props typeless)) ≡ none
unfolding int arvern_ips.Prelude.Decimal.int_from is_digit is_number show keys contains
    insert_sorted sort text_le ends_with has_part is_space split_on strip get text_of lookup
    list_beq starts_with lstrip rstrip arvern_ips.Waivers.Json.is_null
    arvern_ips.Waivers.Json.truthy add_dict arvern_ips.Waivers.Load.add_outcome
    arvern_ips.Waivers.Load.build arvern_ips.Waivers.Load.build_entry
    arvern_ips.Waivers.Load.build_located arvern_ips.Waivers.Load.entry_sig
    arvern_ips.Waivers.Load.entry_types arvern_ips.Waivers.Load.extra_keys
    arvern_ips.Waivers.Load.finish arvern_ips.Waivers.Load.pages_of arvern_ips.Waivers.Load.problem
    arvern_ips.Waivers.Load.read_types arvern_ips.Waivers.Load.type_list entry_checks first_trouble
    locate
typeless-passed = refl

typeless-located :
    locate compiles repr (text_of repr (get "at" (props typeless))) ≡ located (at_line 3)
unfolding int arvern_ips.Prelude.Decimal.int_from is_digit is_number show keys contains
    insert_sorted sort text_le ends_with has_part is_space split_on strip get text_of lookup
    list_beq starts_with lstrip rstrip arvern_ips.Waivers.Json.is_null
    arvern_ips.Waivers.Json.truthy add_dict arvern_ips.Waivers.Load.add_outcome
    arvern_ips.Waivers.Load.build arvern_ips.Waivers.Load.build_entry
    arvern_ips.Waivers.Load.build_located arvern_ips.Waivers.Load.entry_sig
    arvern_ips.Waivers.Load.entry_types arvern_ips.Waivers.Load.extra_keys
    arvern_ips.Waivers.Load.finish arvern_ips.Waivers.Load.pages_of arvern_ips.Waivers.Load.problem
    arvern_ips.Waivers.Load.read_types arvern_ips.Waivers.Load.type_list entry_checks first_trouble
    locate
typeless-located = refl

add_dict-empty_types_example : add_dict compiles repr empty (codes "w.md:2") (obj typeless) ≡ empty
add_dict-empty_types_example =
    add_dict-empty_types loads compiles repr empty (codes "w.md:2") typeless (at_line 3)
      typeless-type typeless-passed typeless-located

abbrev lines : List Text
lines = codes "# a comment" ∷ codes "a.v:3 toggle sig=q # tied off" ∷ []

lines-clean : is_nil (load_txt compiles repr (codes "w.txt") lines).errors ≡ true
unfolding arvern_ips.Waivers.Load.Lines.partition arvern_ips.Waivers.Load.Lines.span
    arvern_ips.Waivers.Load.Lines.begins_blank arvern_ips.Waivers.Load.Lines.last_slash
    arvern_ips.Waivers.Load.Lines.cut_locator arvern_ips.Waivers.Load.Lines.match_line
    arvern_ips.Waivers.Load.Lines.read_fields arvern_ips.Waivers.Load.Lines.finish_line
    arvern_ips.Waivers.Load.Lines.build_body arvern_ips.Waivers.Load.Lines.build_line
    arvern_ips.Waivers.Load.Lines.load_lines load_txt arvern_ips.Sweep.Coverage.words
    arvern_ips.Sweep.Coverage.words_from arvern_ips.Waivers.Load.Markdown.place_at int
    arvern_ips.Prelude.Decimal.int_from is_digit is_number show keys contains insert_sorted sort
    text_le ends_with has_part is_space split_on strip get text_of lookup list_beq starts_with
    lstrip rstrip arvern_ips.Waivers.Json.is_null arvern_ips.Waivers.Json.truthy add_dict
    arvern_ips.Waivers.Load.add_outcome arvern_ips.Waivers.Load.build
    arvern_ips.Waivers.Load.build_entry arvern_ips.Waivers.Load.build_located
    arvern_ips.Waivers.Load.entry_sig arvern_ips.Waivers.Load.entry_types
    arvern_ips.Waivers.Load.extra_keys arvern_ips.Waivers.Load.finish
    arvern_ips.Waivers.Load.pages_of arvern_ips.Waivers.Load.problem
    arvern_ips.Waivers.Load.read_types arvern_ips.Waivers.Load.type_list entry_checks first_trouble
    locate
lines-clean = refl

load_txt_complete_example :
    length (load_txt compiles repr (codes "w.txt") lines).items
    ≡ length (keep_if is_waiver_line lines)
load_txt_complete_example = load_txt_complete compiles repr (codes "w.txt") lines lines-clean

load-usable_example :
    (all is_usable (load_md loads compiles repr (codes "w.md") (render document)).items ≡ true)
    × (all is_usable (load_txt compiles repr (codes "w.md") (render document)).items ≡ true)
load-usable_example = load-usable loads compiles repr (codes "w.md") (render document)
