-- ===== src/Html/Pages/Groups.antt =====
-- Counting items group by group counts each item once.
use arvern_ips.Prelude.{
  ℕ, ◌+◌, ◌≡◌, refl, ◌∙◌, Bool, true, false, not, ◌&&◌, List, [], ◌∷◌, arith, if◌then◌else◌, length,
  keep_if, any, Eq, eqb, nat_eq, list_eq, pair_eq, eqb_refl, eqb_sym, contains, IsDistinct,
  contains-keep_if,
}
use arvern_ips.Prelude.Sorting.{insert_sorted, sort, contains-insert_sorted, contains-sort}
use arvern_ips.Html.Pages.{groups, count_if}

pub count_if-keep_if {ℓ} :
    {A : Type ℓ} (q p : A → Bool) (xs : List A)
    → count_if q (keep_if p xs) ≡ count_if (λ x. q x && p x) xs
unfolding count_if
count_if-keep_if q p [] = refl
count_if-keep_if q p (x ∷ xs) = ground (arith, count_if-keep_if q p xs)

pub length-keep_if {ℓ} :
    {A : Type ℓ} (p : A → Bool) (xs : List A) → length (keep_if p xs) ≡ count_if p xs
unfolding count_if
length-keep_if p [] = refl
length-keep_if p (x ∷ xs) = ground (arith, length-keep_if p xs)

module _ {κ} {B : Type κ} ⦃e : Eq B⦄ where
  keep_if-IsDistinct : (p : B → Bool) (ks : List B) → IsDistinct ks → IsDistinct (keep_if p ks)
  keep_if-IsDistinct p [] h = tt
  keep_if-IsDistinct p (k ∷ ks) h =
      ground (arith, keep_if-IsDistinct p ks h.1, contains-keep_if p ks k)

  insert_sorted-IsDistinct :
      (le : B → B → Bool) (k : B) (ks : List B)
      → contains ks k ≡ false
      → IsDistinct ks
      → IsDistinct (insert_sorted le k ks)
  unfolding insert_sorted contains
  insert_sorted-IsDistinct le k [] h d = (refl, tt)
  insert_sorted-IsDistinct le k (j ∷ ks) h d =
      ground
        (arith, insert_sorted-IsDistinct le k ks, contains-insert_sorted le k ks j, eqb_sym j k)

  pub sort-IsDistinct : (le : B → B → Bool) (ks : List B) → IsDistinct ks → IsDistinct (sort le ks)
  unfolding sort
  sort-IsDistinct le [] d = tt
  sort-IsDistinct le (k ∷ ks) d =
      insert_sorted-IsDistinct le k (sort le ks) (contains-sort le ks k ∙ d.0)
        (sort-IsDistinct le ks d.1)

module _ {ℓ κ} {A : Type ℓ} {B : Type κ} ⦃e : Eq B⦄ (key : A → B) where
  pub groups-IsDistinct : (xs : List A) → IsDistinct (groups key xs)
  unfolding groups
  groups-IsDistinct [] = tt
  groups-IsDistinct (x ∷ xs) = (
    contains-keep_if (λ k. not (eqb k (key x))) (groups key xs) (key x)
        ∙ rw (eqb_refl (key x)) (ground arith),
    keep_if-IsDistinct (λ k. not (eqb k (key x))) (groups key xs) (groups-IsDistinct xs),
  )

  -- Some item has the key.
  abbrev pub has_item : List A → B → Bool
  has_item xs k = any (λ x. eqb (key x) k) xs

  pub groups-contains : (xs : List A) (k : B) → contains (groups key xs) k ≡ has_item xs k
  unfolding groups contains
  groups-contains [] k = refl
  groups-contains (x ∷ xs) k = ground (
    arith,
    contains-keep_if (λ j. not (eqb j (key x))) (groups key xs) k,
    groups-contains xs k,
    eqb_sym k (key x),
  )

  -- The items that pass `q`, counted under each key in turn.
  abbrev pub sum_counts : (A → Bool) → List A → List B → ℕ
  sum_counts q xs [] = 0
  sum_counts q xs (k ∷ ks) = count_if (λ x. q x && eqb (key x) k) xs + sum_counts q xs ks

  sum_counts-nil : (q : A → Bool) (ks : List B) → sum_counts q [] ks ≡ 0
  unfolding count_if
  sum_counts-nil q [] = refl
  sum_counts-nil q (k ∷ ks) = omega (arith, sum_counts-nil q ks)

  sum_counts-cons :
      (q : A → Bool) (x : A) (xs : List A) (ks : List B)
      → IsDistinct ks
      → sum_counts q (x ∷ xs) ks
        ≡ (if q x && contains ks (key x) then 1 else 0) + sum_counts q xs ks
  unfolding count_if contains
  sum_counts-cons q x xs [] d = ground arith
  sum_counts-cons q x xs (k ∷ ks) d =
      ground (arith, sum_counts-cons q x xs ks d.1, e.beq_iff (key x) k, eqb_sym k (key x))

  pub sum_counts_lem :
      (q : A → Bool) (xs : List A) (ks : List B)
      → IsDistinct ks
      → ((k : B) → has_item xs k ≡ true → contains ks k ≡ true)
      → sum_counts q xs ks ≡ count_if q xs
  unfolding count_if
  sum_counts_lem q [] ks d h = sum_counts-nil q ks
  sum_counts_lem q (x ∷ xs) ks d h =
      let rest = sum_counts_lem q xs ks d (λ k found. h k (ground (arith, found))) in
      let here = h (key x) (ground (arith, eqb_refl (key x))) in
      sum_counts-cons q x xs ks d ∙ rw (here, rest) (ground arith)
