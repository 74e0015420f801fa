-- ===== src/Filelist/Relative/RoundTrip.antt =====
-- Every entry of a relativized list leads from the directory to the path that it named before.
use arvern_ips.Prelude.{
  ℕ, zero, suc, ◌-◌, ◌≡◌, refl, sym, ap, ◌∙◌, inl, inr, true, false, not, ◌||◌, List, [], ◌∷◌, ◌++◌,
  append-nil, append_assoc, arith, ◌==◌, if◌then◌else◌, Bool-cases, length, drop, replicate,
  keep_if, is_nil, eqb, nat_eq, list_beq, list_beq_iff, list_eq, pair_eq, Text, codes, split_on,
  join, starts_with,
}
use arvern_ips.Filelist.Line.{incdir_mark}
use arvern_ips.Filelist.Flatten.{Disk}
use arvern_ips.Filelist.Relative.{
  parts, common, rel_parts, relpath, rel, relativize_line, relativize_lines,
}

-- All names but the last.
unfoldable pub climb : List Text → List Text
climb [] = []
climb (x ∷ []) = []
climb (x ∷ y ∷ ys) = x ∷ climb (y ∷ ys)

-- Where a list of steps leads from a directory.
unfoldable pub follow : List Text → List Text → List Text
follow dir [] = dir
follow dir (s ∷ steps) =
    follow
      (if eqb s (codes "..") then climb dir else if eqb s (codes ".") then dir else dir ++ (s ∷ []))
      steps

-- A name that is a real directory entry: no `.`, no `..`.
abbrev pub IsNormal : List Text → Type 0
IsNormal [] = Unit
IsNormal (x ∷ xs) = (eqb x (codes "..") ≡ false) × (eqb x (codes ".") ≡ false) × IsNormal xs

climb-concat : (dir : List Text) (x : Text) → climb (dir ++ (x ∷ [])) ≡ dir
unfolding climb
climb-concat [] x = refl
climb-concat (y ∷ []) x = refl
climb-concat (y ∷ z ∷ dir) x = ap (◌∷◌ y) (climb-concat (z ∷ dir) x)

climb_times : ℕ → List Text → List Text
climb_times zero dir = dir
climb_times (suc k) dir = climb_times k (climb dir)

climb_times-climb :
    (k : ℕ) (dir : List Text) → climb_times k (climb dir) ≡ climb (climb_times k dir)
unfolding climb_times
climb_times-climb zero dir = refl
climb_times-climb (suc k) dir = climb_times-climb k (climb dir)

climb_times-append : (front back : List Text) → climb_times (length back) (front ++ back) ≡ front
unfolding climb_times
climb_times-append front [] = append-nil front
climb_times-append front (x ∷ back) =
    climb_times-climb (length back) (front ++ (x ∷ back))
    ∙ ap climb (
        ap (climb_times (length back)) (sym (append_assoc front (x ∷ []) back))
        ∙ climb_times-append (front ++ (x ∷ [])) back)
    ∙ climb-concat front x

follow-replicate :
    (k : ℕ) (dir steps : List Text)
    → follow dir (replicate k (codes "..") ++ steps) ≡ follow (climb_times k dir) steps
unfolding follow climb_times list_beq
follow-replicate zero dir steps = refl
follow-replicate (suc k) dir steps = follow-replicate k (climb dir) steps

follow_down : (dir steps : List Text) → IsNormal steps → follow dir steps ≡ dir ++ steps
unfolding follow
follow_down dir [] n = sym (append-nil dir)
follow_down dir (s ∷ steps) n =
    rw (n.0, n.1) (follow_down (dir ++ (s ∷ [])) steps n.2 ∙ append_assoc dir (s ∷ []) steps)

-- Up from what the start has beyond the common prefix, then down what the path has beyond it.
follow_rel :
    (front start path : List Text)
    → IsNormal path
    → follow
        (front ++ start)
        (replicate (length start - common start path) (codes "..") ++ drop (common start path) path)
      ≡ front ++ path
unfolding common
follow_rel front [] path n = follow_down _ path n ∙ ap (λ d. d ++ path) (append-nil front)
follow_rel front (x ∷ start) [] n =
    let whole : suc (length start) - 0 ≡ suc (length start) = omega arith in
    rw (whole, append-nil front)
      (follow-replicate (suc (length start)) (front ++ (x ∷ start)) []
        ∙ unfold follow in climb_times-append front (x ∷ start))
follow_rel front (x ∷ start) (y ∷ path) n = elim (Bool-cases (eqb x y)) [
  | inl same ↦
      let e : x ≡ y = (list_beq_iff x y).0 same in
      let shorter : suc (length start) - suc (common start path)
          ≡ length start - common start path =
        omega arith in
      rw (same, shorter)
        (rw (← e) (
          rw (← append_assoc front (x ∷ []) start, ← append_assoc front (x ∷ []) path)
            (follow_rel (front ++ (x ∷ [])) start path n.2)))
  | inr other ↦
      let whole : suc (length start) - 0 ≡ suc (length start) = omega arith in
      rw (other, whole)
        (follow-replicate (suc (length start)) (front ++ (x ∷ start)) (y ∷ path)
          ∙ ap (λ d. follow d (y ∷ path)) (climb_times-append front (x ∷ start))
          ∙ follow_down front (y ∷ path) n)
]

-- Joining with the separator and splitting again gives the parts, if none holds the separator.
abbrev Lacks : ℕ → Text → Type 0
Lacks sep [] = Unit
Lacks sep (c ∷ s) = ((c == sep) ≡ false) × Lacks sep s

-- Names as `parts` gives them: not empty, and with no separator.
abbrev AreNames : List Text → Type 0
AreNames [] = Unit
AreNames (x ∷ xs) = (is_nil x ≡ false) × Lacks b'/' x × AreNames xs

split_on_cons : (sep : ℕ) (s : Text) → (p : Text) × (ps : List Text) × (split_on sep s ≡ p ∷ ps)
unfolding split_on
split_on_cons sep [] = ([], [], refl)
split_on_cons sep (c ∷ s) =
    let (p, ps, e) = split_on_cons sep s in
    elim (Bool-cases (c == sep)) [
      | inl cut ↦ ([], p ∷ ps, ground arith)
      | inr kept ↦ (c ∷ p, ps, ground arith)
    ]

split_on-Lacks :
    (sep : ℕ) (x rest : Text)
    → Lacks sep x
    → split_on sep (x ++ (sep ∷ rest)) ≡ x ∷ split_on sep rest
unfolding split_on
split_on-Lacks sep [] rest h = let (p, ps, e) = split_on_cons sep rest in ground arith
split_on-Lacks sep (c ∷ x) rest h = ground (arith, split_on-Lacks sep x rest h.1)

split_on-Lacks_end : (sep : ℕ) (x : Text) → Lacks sep x → split_on sep x ≡ x ∷ []
unfolding split_on
split_on-Lacks_end sep [] h = refl
split_on-Lacks_end sep (c ∷ x) h = ground (arith, split_on-Lacks_end sep x h.1)

parts-join :
    (x : Text) (xs : List Text) → AreNames (x ∷ xs) → parts (join (codes "/") (x ∷ xs)) ≡ x ∷ xs
unfolding parts join
parts-join x [] n = rw (split_on-Lacks_end b'/' x n.1, n.0)
parts-join x (y ∷ xs) n =
    rw (split_on-Lacks b'/' x (join (codes "/") (y ∷ xs)) n.1, n.0)
      (ap (◌∷◌ x) (unfold parts in parts-join y xs n.2))

-- Splitting gives names, whatever the text.
abbrev AllLack : List Text → Type 0
AllLack [] = Unit
AllLack (x ∷ xs) = Lacks b'/' x × AllLack xs

split_on-AllLack : (s : Text) → AllLack (split_on b'/' s)
unfolding split_on
split_on-AllLack [] = (tt, tt)
split_on-AllLack (c ∷ s) = next (split_on b'/' s) (split_on-AllLack s)
  where
    next :
        (ps : List Text)
        → AllLack ps
        → AllLack (elim ps [
          | [] ↦ [] ∷ []
          | part ∷ parts ↦ if c == b'/' then [] ∷ part ∷ parts else (c ∷ part) ∷ parts
        ])
    next [] h = (tt, tt)
    next (p ∷ ps) h = elim (Bool-cases (c == b'/')) [
      | inl cut ↦ rw cut (tt, h)
      | inr kept ↦ rw kept ((kept, h.0), h.1)
    ]

keep_if-AreNames : (xs : List Text) → AllLack xs → AreNames (keep_if (λ x. not (is_nil x)) xs)
keep_if-AreNames [] h = tt
keep_if-AreNames ([] ∷ xs) h = keep_if-AreNames xs h.1
keep_if-AreNames ((c ∷ x) ∷ xs) h = (refl, h.0, keep_if-AreNames xs h.1)

parts-AreNames : (s : Text) → AreNames (parts s)
unfolding parts
parts-AreNames s = keep_if-AreNames (split_on b'/' s) (split_on-AllLack s)

AreNames-drop : (n : ℕ) (xs : List Text) → AreNames xs → AreNames (drop n xs)
AreNames-drop zero xs h = h
AreNames-drop (suc n) [] h = tt
AreNames-drop (suc n) (x ∷ xs) h = AreNames-drop n xs h.2

AreNames-up : (k : ℕ) (xs : List Text) → AreNames xs → AreNames (replicate k (codes "..") ++ xs)
AreNames-up zero xs h = h
AreNames-up (suc k) xs h = (refl, (refl, (refl, tt)), AreNames-up k xs h)

parts-join_names :
    (xs : List Text)
    → AreNames xs
    → (start path : List Text) → follow start xs ≡ path
    → follow start (parts (if is_nil xs then codes "." else join (codes "/") xs)) ≡ path
parts-join_names [] n start path h = unfold follow parts split_on list_beq in h
parts-join_names (x ∷ xs) n start path h = rw (parts-join x xs n) h

-- The relative path that `relpath` prints, followed from the start directory, leads to the path it
-- was made from: for any two absolute paths, as long as the target has no `.` and no `..` in it.
follow-relpath :
    (path start : Text)
    → IsNormal (parts path)
    → follow (parts start) (parts (relpath path start)) ≡ parts path
unfolding relpath rel_parts
follow-relpath path start n =
    let a = parts path in
    let b = parts start in
    let i = common b a in
    parts-join_names (replicate (length b - i) (codes "..") ++ drop i a)
      (AreNames-up (length b - i) (drop i a) (AreNames-drop i a (parts-AreNames path))) b a
      (follow_rel [] (parts start) (parts path) n)

starts_with-drop : (s p : Text) → starts_with s p ≡ true → s ≡ p ++ drop (length p) s
unfolding starts_with
starts_with-drop s [] h = refl
starts_with-drop [] (c ∷ p) h = cc
starts_with-drop (d ∷ s) (c ∷ p) h = ground (arith, starts_with-drop s p)

module _ (disk : Disk) where
  -- `out` is a way from the directory `dir` to what `p` names on the disk.
  abbrev pub LeadsTo : Text → Text → Text → Type 0
  LeadsTo dir p out = follow (parts (disk.resolve dir)) (parts out) ≡ parts (disk.resolve p)

  -- What becomes of one line in a list for the directory `dir`.
  pub data IsMoved (dir : Text) : Text → Text → Type 0 where
    kept_directive :
        {ln : Text}
        → starts_with ln incdir_mark ≡ false
        → (starts_with ln (codes "+") || starts_with ln (codes "-")) ≡ true
        → IsMoved dir ln ln
    kept_local : {ln : Text} → starts_with ln (codes "./") ≡ true → IsMoved dir ln ln
    kept_incdir :
        {ln : Text} (p : Text)
        → ln ≡ incdir_mark ++ p
        → starts_with p (codes "./") ≡ true
        → IsMoved dir ln ln
    moved_incdir :
        {ln out : Text} (p q : Text)
        → ln ≡ incdir_mark ++ p
        → starts_with p (codes "./") ≡ false
        → out ≡ incdir_mark ++ q
        → LeadsTo dir p q
        → IsMoved dir ln out
    moved_path :
        {ln out : Text}
        → (starts_with ln (codes "+") || starts_with ln (codes "-")) ≡ false
        → starts_with ln (codes "./") ≡ false
        → LeadsTo dir ln out
        → IsMoved dir ln out

  -- Line by line, and as many of them.
  abbrev pub AreMoved : Text → List Text → List Text → Type 0
  AreMoved dir [] [] = Unit
  AreMoved dir (ln ∷ lines) (out ∷ outs) = IsMoved dir ln out × AreMoved dir lines outs
  AreMoved dir _ _ = ⊥

  -- `Path.resolve` gives a path without `.` and `..`.
  abbrev pub ResolvesNormal : Type 0
  ResolvesNormal = (p : Text) → IsNormal (parts (disk.resolve p))

  rel-LeadsTo : ResolvesNormal → (dir p : Text) → LeadsTo dir p (rel disk (disk.resolve dir) p)
  unfolding rel
  rel-LeadsTo normal dir p = follow-relpath (disk.resolve p) (disk.resolve dir) (normal p)

  relativize_line-IsMoved :
      ResolvesNormal → (dir ln : Text) → IsMoved dir ln (relativize_line disk (disk.resolve dir) ln)
  unfolding relativize_line
  relativize_line-IsMoved normal dir ln = elim (Bool-cases (starts_with ln incdir_mark)) [
    | inl inc ↦
        let whole = starts_with-drop ln incdir_mark inc in
        elim (Bool-cases (starts_with (drop 8 ln) (codes "./"))) [
          | inl here ↦ rw (inc, here) (rw (← whole) (kept_incdir (drop 8 ln) whole here))
          | inr away ↦
              rw (inc, away)
                (moved_incdir (drop 8 ln) _ whole away refl (rel-LeadsTo normal dir (drop 8 ln)))
        ]
    | inr other ↦ elim (Bool-cases (starts_with ln (codes "+") || starts_with ln (codes "-"))) [
      | inl passed ↦ rw (other, passed) (kept_directive other passed)
      | inr path ↦ elim (Bool-cases (starts_with ln (codes "./"))) [
        | inl here ↦ rw (other, path, here) (kept_local here)
        | inr away ↦ rw (other, path, away) (moved_path path away (rel-LeadsTo normal dir ln))
      ]
    ]
  ]

  -- Where the file system resolves every path to one without `.` and `..`: a relativized list has a
  -- line for each line, in their order. Directives other than `+incdir+` and everything that starts
  -- with `./` stay as they are, and each other path, followed from the directory, leads to what the
  -- line named before.
  pub relativize_lines-AreMoved :
      ResolvesNormal
      → (lines : List Text) (dir : Text) → AreMoved dir lines (relativize_lines disk lines dir)
  unfolding relativize_lines
  relativize_lines-AreMoved normal [] dir = tt
  relativize_lines-AreMoved normal (ln ∷ lines) dir =
      (relativize_line-IsMoved normal dir ln, relativize_lines-AreMoved normal lines dir)
