-- ===== src/Waivers/Load/Markdown/Fences.antt =====
-- The fences of a Markdown file and the waivers that are loaded from them.
use arvern_ips.Prelude.{
  ℕ, ◌≡◌, refl, sym, ap, ◌∙◌, inl, inr, Bool, true, false, Option, none, some, List, [], ◌∷◌, ◌++◌,
  map, append-nil, append_assoc, arith, Bool-cases, all, is_nil, eqb, nat_eq, list_eq, pair_eq,
  Text, codes, join,
}
use arvern_ips.Waivers.Json.{Json, arr, Elems, elems}
use arvern_ips.Waivers.Match.{Waiver}
use arvern_ips.Waivers.Load.{problem, Loaded, add_dict, not_json, not_list, wrong_label, no_waivers}
use arvern_ips.Waivers.Load.Markdown.{
  Block, scanned, looks_like_waivers, add_entries, load_json, load_block, load_blocks,
  block_entries, all_entries, load_scan, load_md, place_at, entries_of,
}
use arvern_ips.Waivers.Load.Markdown.Document.{Part, HaveForm, render, fences, scan-render}
use arvern_ips.Waivers.Load.Markdown.Heads.{first_mark, is_bracket, looks_like_waivers-first_mark}
use arvern_ips.Waivers.Load.Markdown.Complete.{
  all-append, is_nil-append, has_types, built, items-add_dict,
}

module _ (loads : Text → Option Json) (compiles : Text → Bool) (repr : Json → Text)
    (path : Text) where
  abbrev load : Loaded → List Block → Loaded
  load = load_blocks loads compiles repr path

  items-add_entries :
      (place : Text) (l : Loaded) (ws : List Json)
      → all (has_types loads compiles repr) ws ≡ true
      → is_nil (add_entries loads compiles repr path place l ws).errors ≡ true
      → (is_nil l.errors ≡ true)
        × (map some (add_entries loads compiles repr path place l ws).items
            ≡ map some l.items ++ map (built loads compiles repr place) ws)
  unfolding add_entries
  items-add_entries place l [] h k = (k, sym (append-nil (map some l.items)))
  items-add_entries place l (w ∷ ws) h k =
      let later =
        items-add_entries place (add_dict compiles repr l place w) ws (ground (arith, h)) k in
      let here = items-add_dict loads compiles repr l place w (ground (arith, h)) later.0 in
      (
        here.0,
        later.1
            ∙ ap (λ t. t ++ map (built loads compiles repr place) ws) here.1
            ∙ append_assoc (map some l.items) (built loads compiles repr place w ∷ [])
                (map (built loads compiles repr place) ws),
      )

  -- The text is a JSON list.
  abbrev pub IsList : Option Json → Type 0
  IsList o = (ws : Elems) × (o ≡ some (arr ws))

  load_json_complete :
      (start : ℕ) (l : Loaded) (o : Option Json)
      → all (has_types loads compiles repr) (entries_of loads compiles repr path o) ≡ true
      → is_nil (load_json loads compiles repr path start l o).errors ≡ true
      → (is_nil l.errors ≡ true)
        × (map some (load_json loads compiles repr path start l o).items
            ≡ map some l.items
              ++ map
                  (built loads compiles repr (place_at path start))
                  (entries_of loads compiles repr path o))
        × IsList o
  unfolding load_json
  load_json_complete start l none h k =
      let parts = is_nil-append l.errors (problem (place_at path start) not_json ∷ []) in
      absurd (ground (arith, parts, k))
  load_json_complete start l (some (arr ws)) h k =
      let (clean, items) = items-add_entries (place_at path start) l (elems ws) h k in
      (clean, items, (ws, refl))
  load_json_complete start l (some _) h k =
      let parts = is_nil-append l.errors (problem (place_at path start) not_list ∷ []) in
      absurd (ground (arith, parts, k))

  -- A fence with the label `json` holds a list, and one with another label or none does not begin
  -- like one.
  abbrev pub IsRead : Block → Type 0
  IsRead b =
      (eqb b.lang (codes "json") ≡ true → IsList (loads (join (codes "\n") b.buf)))
      × (eqb b.lang (codes "json") ≡ false → is_bracket (first_mark b.buf) ≡ false)

  abbrev pub AreRead : List Block → Type 0
  AreRead [] = Unit
  AreRead (b ∷ bs) = IsRead b × AreRead bs

  -- What the loader makes of the entries of the fences, in their order.
  abbrev pub all_built : List Block → List (Option Waiver)
  all_built [] = []
  all_built (b ∷ bs) =
      map (built loads compiles repr (place_at path b.start))
        (block_entries loads compiles repr path b)
      ++ all_built bs

  load_block_complete :
      (l : Loaded) (b : Block)
      → all (has_types loads compiles repr) (block_entries loads compiles repr path b) ≡ true
      → is_nil (load_block loads compiles repr path l b).errors ≡ true
      → (is_nil l.errors ≡ true)
        × (map some (load_block loads compiles repr path l b).items
            ≡ map some l.items
              ++ map
                  (built loads compiles repr (place_at path b.start))
                  (block_entries loads compiles repr path b))
        × IsRead b
  unfolding load_block block_entries
  load_block_complete l b h k = elim (Bool-cases (eqb b.lang (codes "json"))) [
    | inl json ↦
        let (clean, items, list) =
          load_json_complete b.start l (loads (join (codes "\n") b.buf)) (ground (arith, json, h))
            (ground (arith, json, k)) in
        (clean, rw json items, (λ _. list, λ other. absurd (ground (arith, json, other))))
    | inr other ↦ elim (Bool-cases (looks_like_waivers b)) [
      | inl looks ↦
          let parts =
            is_nil-append l.errors (problem (place_at path b.start) (wrong_label b.lang) ∷ []) in
          absurd (ground (arith, other, looks, parts, k))
      | inr clean ↦ (
        ground (arith, other, clean, k),
        rw (other, clean) (sym (append-nil (map some l.items))),
        (
          λ json. absurd (ground (arith, other, json)),
          λ _. sym (looks_like_waivers-first_mark b) ∙ clean,
        ),
      )
    ]
  ]

  load_blocks_complete :
      (l : Loaded) (bs : List Block)
      → all (has_types loads compiles repr) (all_entries loads compiles repr path bs) ≡ true
      → is_nil (load l bs).errors ≡ true
      → (is_nil l.errors ≡ true)
        × (map some (load l bs).items ≡ map some l.items ++ all_built bs)
        × AreRead bs
  unfolding load_blocks all_entries
  load_blocks_complete l [] h k = (k, sym (append-nil (map some l.items)), tt)
  load_blocks_complete l (b ∷ bs) h k =
      let mine = block_entries loads compiles repr path b in
      let both =
        all-append (has_types loads compiles repr) mine (all_entries loads compiles repr path bs) in
      let next = load_block loads compiles repr path l b in
      let (clean, items, reads) = load_blocks_complete next bs (ground (arith, both, h)) k in
      let (clean', items', read) = load_block_complete l b (ground (arith, both, h)) clean in
      let here = map (built loads compiles repr (place_at path b.start)) mine in
      (
        clean',
        items
            ∙ ap (λ t. t ++ all_built bs) items'
            ∙ append_assoc (map some l.items) here (all_built bs),
        (read, reads),
      )

  load_scanned_complete :
      (bs : List Block)
      → all (has_types loads compiles repr) (all_entries loads compiles repr path bs) ≡ true
      → is_nil (load_scan loads compiles repr path (scanned bs)).errors ≡ true
      → (map some (load_scan loads compiles repr path (scanned bs)).items ≡ all_built bs)
        × (is_nil (all_entries loads compiles repr path bs) ≡ false)
        × AreRead bs
  unfolding load_scan
  load_scanned_complete bs h k =
      let start : Loaded = record { items = []; errors = [] } in
      let more = is_nil-append (load start bs).errors (problem path no_waivers ∷ []) in
      let clean : is_nil (load start bs).errors ≡ true = ground (arith, more, k) in
      let (_, items, reads) = load_blocks_complete start bs h clean in
      let found : is_nil (all_entries loads compiles repr path bs) ≡ false =
        ground (arith, more, k) in
      (rw found items, found, reads)

  -- For a file that is written as prose and fences, in which no entry has an empty list of types:
  -- where loading it reports no error, every fence with the label `json` holds a list, in every other
  -- fence, labelled or not, the first character that is no blank is neither `[` nor `{`, and the
  -- waivers are what the loader makes of the entries of the `json` fences, one for each entry, in
  -- their order; and there is at least one. Fences open with three backquotes and at most a label; a
  -- file with any other line that begins with backquotes is not covered.
  pub load_md_complete :
      (parts : List Part)
      → HaveForm parts
      → all (has_types loads compiles repr) (all_entries loads compiles repr path (fences 1 parts))
        ≡ true
      → is_nil (load_md loads compiles repr path (render parts)).errors ≡ true
      → (map some (load_md loads compiles repr path (render parts)).items
          ≡ all_built (fences 1 parts))
        × (is_nil (all_entries loads compiles repr path (fences 1 parts)) ≡ false)
        × AreRead (fences 1 parts)
  unfolding load_md
  load_md_complete parts form h k =
      let e = scan-render 1 parts form in
      rw e (load_scanned_complete (fences 1 parts) h (rw e at k))
