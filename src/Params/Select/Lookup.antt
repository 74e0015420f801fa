-- ===== src/Params/Select/Lookup.antt =====
-- Every configuration can be selected, by its index and by its label.
use arvern_ips.Prelude.{
  ℕ, zero, suc, ◌-◌, ◌≤◌, ◌<◌, ◌≡◌, refl, true, false, ◌&&◌, none, some, List, [], ◌∷◌, arith, leb,
  length, get_elem?, nat_eq, list_beq_iff, list_eq, pair_eq, eqb_refl, contains, IsDistinct, Text,
}
use arvern_ips.Prelude.Decimal.{is_number, show, int-show, is_number-show}
use arvern_ips.Params.Select.{
  Config, out_of_range, unknown_config, ok, err, find_label, labels, entry_at, resolve,
}

get_elem?-length :
    (entries : List Config) (i : ℕ) {c : Config} → get_elem? entries i ≡ some c → i < length entries
get_elem?-length [] i h = cc
get_elem?-length (c ∷ cs) zero h = omega arith
get_elem?-length (c ∷ cs) (suc i) h = omega (arith, get_elem?-length cs i h)

in_range : (j n : ℕ) → 1 ≤ j → j ≤ n → (leb 1 j && leb j n) ≡ true
in_range j n h k = ground arith

beyond : (j n : ℕ) → n < j → (leb 1 j && leb j n) ≡ false
beyond j n h = ground arith

-- The decimal index of a configuration, counted from 1, selects that configuration, and the decimal
-- numeral of an index beyond the table is an error that names the index and the size.
pub resolve-show :
    (entries : List Config) (i : ℕ)
    → ((c : Config) → get_elem? entries i ≡ some c → resolve entries (some (show (suc i))) ≡ ok c)
      × (length entries ≤ i
          → resolve entries (some (show (suc i))) ≡ err (out_of_range (suc i) (length entries)))
unfolding resolve
resolve-show entries i = (
  λ c h.
      let inside = get_elem?-length entries i h in
      let back : suc i - 1 ≡ i = omega arith in
      rw (is_number-show, int-show)
        (rw (in_range (suc i) (length entries) (omega arith) (omega arith), back, h, entry_at)),
  λ h. rw (is_number-show, int-show) (rw (beyond (suc i) (length entries) (omega arith))),
)

find_label-labels :
    (entries : List Config) (i : ℕ) (c : Config)
    → IsDistinct (labels entries)
    → get_elem? entries i ≡ some c
    → (find_label c.label entries ≡ some c) × (contains (labels entries) c.label ≡ true)
unfolding find_label contains
find_label-labels [] i c d h = cc
find_label-labels (e ∷ es) zero c d h = ground (arith, eqb_refl c.label)
find_label-labels (e ∷ es) (suc i) c d h =
    ground (arith, find_label-labels es i c d.1 h, list_beq_iff e.label c.label)

find_label-absent :
    (sel : Text) (entries : List Config)
    → contains (labels entries) sel ≡ false
    → find_label sel entries ≡ none
unfolding find_label contains
find_label-absent sel [] h = refl
find_label-absent sel (e ∷ es) h = ground (arith, find_label-absent sel es)

-- A selector that is no number selects by label: where the labels are distinct, the label of each
-- configuration selects that configuration, and a text that is no label is an error that lists the
-- labels.
pub resolve-label :
    (entries : List Config) (sel : Text)
    → IsDistinct (labels entries)
    → is_number sel ≡ false
    → ((i : ℕ) (c : Config)
        → get_elem? entries i ≡ some c
        → c.label ≡ sel
        → resolve entries (some sel) ≡ ok c)
      × (contains (labels entries) sel ≡ false
          → resolve entries (some sel) ≡ err (unknown_config sel (labels entries)))
unfolding resolve
resolve-label entries sel d k = (
  λ i c h e. rw k (rw (← e) (rw ((find_label-labels entries i c d h).0))),
  λ h. rw (k, find_label-absent sel entries h),
)
