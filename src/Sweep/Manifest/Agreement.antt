-- ===== src/Sweep/Manifest/Agreement.antt =====
-- The manifest check passes exactly when the two files name the same RTL.
use arvern_ips.Prelude.{
  ◌≡◌, refl, ◌↔◌, true, false, not, ◌&&◌, Option, none, some, List, [], ◌∷◌, arith, is_nil, nat_eq,
  list_beq_iff, list_eq, pair_eq, contains, contains-keep_if, Text, basename,
}
use Prim.{⊥}
use arvern_ips.Sweep.Manifest.{
  verdict, filelist_rtl, core_rtl, without, compare, not_found, core_path, flist_path,
  manifest_main,
}

-- Two lists with the same elements.
abbrev pub HasSameFiles : List Text → List Text → Type 0
HasSameFiles xs ys = (f : Text) → contains xs f ≡ contains ys f

-- Both files are there, and they name the same files.
abbrev pub Agree : Option (List Text) → Option (List Text) → Type 0
Agree (some core) (some flist) = HasSameFiles (filelist_rtl flist) (core_rtl core)
Agree none _ = ⊥
Agree (some _) none = ⊥

nil-contains : (zs : List Text) (f : Text) → is_nil zs ≡ true → contains zs f ≡ false
unfolding contains
nil-contains [] f h = refl
nil-contains (z ∷ zs) f h = ground (arith, h)

contains-nil : (zs : List Text) → ((f : Text) → contains zs f ≡ false) → is_nil zs ≡ true
unfolding contains
contains-nil [] h = refl
contains-nil (z ∷ zs) h = ground (arith, h z, list_beq_iff z z)

contains-without :
    (xs ys : List Text) (f : Text)
    → contains (without xs ys) f ≡ (contains xs f && not (contains ys f))
unfolding without
contains-without xs ys f =
    let e = contains-keep_if (λ g. not (contains ys g)) xs f in rw e (ground arith)

compare-eq-zero :
    (ip : Text) (want have : List Text) → ((compare ip want have).0 ≡ 0) ↔ HasSameFiles want have
unfolding compare
compare-eq-zero ip want have = (
  λ h f.
      let missing = nil-contains (without want have) f in
      let extra = nil-contains (without have want) f in
      ground (arith, h, missing, extra, contains-without want have f, contains-without have want f),
  λ h.
      let missing =
        contains-nil (without want have)
          (λ f. rw (contains-without want have f, h f) (ground arith)) in
      let extra =
        contains-nil (without have want)
          (λ f. rw (contains-without have want f, h f) (ground arith)) in
      rw (missing, extra) refl,
)

verdict-eq-zero :
    (ip_dir : Text) (core flist : Option (List Text))
    → ((verdict ip_dir core flist).0 ≡ 0) ↔ Agree core flist
unfolding verdict not_found
verdict-eq-zero ip_dir none flist = (λ h. ground (arith, h), λ h. absurd h)
verdict-eq-zero ip_dir (some core) none = (λ h. ground (arith, h), λ h. absurd h)
verdict-eq-zero ip_dir (some core) (some flist) =
    compare-eq-zero (basename ip_dir) (filelist_rtl flist) (core_rtl core)

-- The check exits with 0 exactly when the manifest and the filelist are both there and name the same
-- files.
pub manifest_main-eq-zero :
    (disk : Text → Option (List Text)) (ip_dir : Text)
    → ((manifest_main disk ip_dir).0 ≡ 0)
      ↔ Agree (disk (core_path ip_dir)) (disk (flist_path ip_dir))
unfolding manifest_main
manifest_main-eq-zero disk ip_dir =
    verdict-eq-zero ip_dir (disk (core_path ip_dir)) (disk (flist_path ip_dir))
