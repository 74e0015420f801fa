-- ===== src/Waivers/Load/Markdown/Document.antt =====
-- A Markdown file as prose lines and fences, written down without the scan of `_load_md`, and the
-- scan on such a file. A fence opens with three backquotes and a label, which may be empty, and
-- blanks may stand around these; a line that opens otherwise with backquotes is not described here.
use arvern_ips.Prelude.{
  ℕ, suc, ◌+◌, ◌≡◌, refl, sym, ap, ◌∙◌, Bool, true, false, not, ◌&&◌, some, none, List, [], ◌∷◌,
  ◌++◌, append-nil, append_assoc, and-eq-true, arith, length, all, is_nil, nat_eq, Text, codes,
  is_space, lstrip, rstrip, starts_with,
}
use mathlib.Core.List.{reverse, reverse-append, reverse-reverse}
use arvern_ips.Waivers.Anchor.{is_word}
use arvern_ips.Waivers.Load.Markdown.{Block, scanned, cons_block, scan, fence_label, is_close}

-- A line of prose; or a fence: the blanks and the label of its opening, the lines inside, and the
-- blanks of its closing.
pub data Part : Type 0 where
  prose : Text → Part
  fence : (pre label post : Text) → List Text → (before behind : Text) → Part

abbrev pub opening : Text → Text → Text → Text
opening pre label post = pre ++ (codes "```" ++ (label ++ post))

-- The lines of the file.
abbrev pub render : List Part → List Text
render [] = []
render (prose ln ∷ parts) = ln ∷ render parts
render (fence pre label post buf before behind ∷ parts) =
    opening pre label post ∷ (buf ++ (opening before [] behind ∷ render parts))

-- No backquotes at its beginning.
abbrev pub is_plain : Text → Bool
is_plain ln = not (starts_with (lstrip ln) (codes "```"))

-- Prose and the lines inside a fence do not begin with backquotes, and what stands around the
-- backquotes is blank.
abbrev pub HaveForm : List Part → Type 0
HaveForm [] = Unit
HaveForm (prose ln ∷ parts) = (is_plain ln ≡ true) × HaveForm parts
HaveForm (fence pre label post buf before behind ∷ parts) =
    (all is_space pre ≡ true)
    × (all is_word label ≡ true)
    × (all is_space post ≡ true)
    × (all is_plain buf ≡ true)
    × (all is_space before ≡ true)
    × (all is_space behind ≡ true)
    × HaveForm parts

-- The fences, each with the number of its first line.
abbrev pub fences : ℕ → List Part → List Block
fences n [] = []
fences n (prose ln ∷ parts) = fences (suc n) parts
fences n (fence pre label post buf before behind ∷ parts) =
    record { lang = label; start = n; buf = buf } ∷ fences (suc (suc n + length buf)) parts

lstrip-blanks : (pre s : Text) → all is_space pre ≡ true → lstrip (pre ++ s) ≡ lstrip s
unfolding lstrip
lstrip-blanks [] s h = refl
lstrip-blanks (c ∷ pre) s h =
    let (blank, blanks) = (and-eq-true (is_space c) (all is_space pre)).0 h in
    rw blank (lstrip-blanks pre s blanks)

all-reverse : (p : ℕ → Bool) (xs : Text) → all p (reverse xs) ≡ all p xs
all-reverse p [] = refl
all-reverse p (x ∷ xs) =
    ap (all p) (reverse-append (x ∷ []) xs)
    ∙ all-concat (reverse xs)
    ∙ ground (arith, all-reverse p xs)
  where
    all-concat : (ys : Text) → all p (ys ++ (x ∷ [])) ≡ (all p ys && p x)
    all-concat [] = ground arith
    all-concat (y ∷ ys) = ground (arith, all-concat ys)

word_no_space : (c : ℕ) → is_word c ≡ true → is_space c ≡ false
unfolding is_word is_space
word_no_space c h = ground arith

lstrip-words : (s : Text) → all is_word s ≡ true → lstrip s ≡ s
unfolding lstrip
lstrip-words [] h = refl
lstrip-words (c ∷ s) h = ground (arith, word_no_space c)

rstrip-words :
    (label post : Text)
    → all is_word label ≡ true
    → all is_space post ≡ true
    → rstrip (label ++ post) ≡ label
unfolding rstrip
rstrip-words label post h g =
    ap (λ t. reverse (lstrip t)) (reverse-append label post)
    ∙ ap reverse (
        lstrip-blanks (reverse post) (reverse label) (all-reverse is_space post ∙ g)
        ∙ lstrip-words (reverse label) (all-reverse is_word label ∙ h))
    ∙ reverse-reverse label

fence_label-opening :
    (pre label post : Text)
    → all is_space pre ≡ true
    → all is_word label ≡ true
    → all is_space post ≡ true
    → fence_label (opening pre label post) ≡ some label
unfolding fence_label lstrip is_space starts_with
fence_label-opening pre label post h g k =
    rw (lstrip-blanks pre (codes "```" ++ (label ++ post)) h)
      (unfold lstrip is_space in rw (rstrip-words label post g k, g))

fence_label-plain : (ln : Text) → is_plain ln ≡ true → fence_label ln ≡ none
unfolding fence_label
fence_label-plain ln h = ground arith

is_close-opening :
    (before behind : Text)
    → all is_space before ≡ true
    → all is_space behind ≡ true
    → is_close (opening before [] behind) ≡ true
unfolding is_close
is_close-opening before behind g k =
    ap (λ o. elim o [ none ↦ false | some label ↦ is_nil label ])
      (fence_label-opening before [] behind g refl k)

is_close-plain : (ln : Text) → is_plain ln ≡ true → is_close ln ≡ false
unfolding is_close
is_close-plain ln h = rw (is_close, fence_label-plain ln h)

scan-close :
    (n : ℕ) (b : Block) (ln : Text) (rest : List Text)
    → is_close ln ≡ true
    → scan n (some b) (ln ∷ rest) ≡ cons_block b (scan (suc n) none rest)
unfolding scan
scan-close n b ln rest h = rw h

scan-inner :
    (n : ℕ) (b : Block) (ln : Text) (rest : List Text)
    → is_close ln ≡ false
    → scan n (some b) (ln ∷ rest) ≡ scan (suc n) (some (record b { buf = b.buf ++ (ln ∷ []) })) rest
unfolding scan
scan-inner n b ln rest h = rw h

scan_inside :
    (n : ℕ) (b : Block) (buf rest : List Text) (before behind : Text)
    → all is_plain buf ≡ true
    → all is_space before ≡ true
    → all is_space behind ≡ true
    → scan n (some b) (buf ++ (opening before [] behind ∷ rest))
      ≡ cons_block (record b { buf = b.buf ++ buf }) (scan (suc (n + length buf)) none rest)
scan_inside n b [] rest before behind h g k =
    let e : n ≡ n + 0 = omega arith in
    scan-close n b (opening before [] behind) rest (is_close-opening before behind g k)
    ∙ ap (λ m. cons_block b (scan (suc m) none rest)) e
    ∙ ap (λ t. cons_block (record b { buf = t }) (scan (suc (n + 0)) none rest))
        (sym (append-nil b.buf))
scan_inside n b (ln ∷ buf) rest before behind h g k =
    let (plain, plains) = (and-eq-true (is_plain ln) (all is_plain buf)).0 h in
    let e : suc n + length buf ≡ n + suc (length buf) = omega arith in
    let b' : Block = record b { buf = b.buf ++ (ln ∷ []) } in
    scan-inner n b ln (buf ++ (opening before [] behind ∷ rest)) (is_close-plain ln plain)
    ∙ scan_inside (suc n) b' buf rest before behind plains g k
    ∙ ap (λ m. cons_block (record b { buf = b'.buf ++ buf }) (scan (suc m) none rest)) e
    ∙ ap (λ t. cons_block (record b { buf = t }) (scan (suc (n + suc (length buf))) none rest))
        (append_assoc b.buf (ln ∷ []) buf)

-- The scan finds the fences of the file, with their labels and their lines, and nothing else.
pub scan-render :
    (n : ℕ) (parts : List Part)
    → HaveForm parts
    → scan n none (render parts) ≡ scanned (fences n parts)
unfolding scan
scan-render n [] h = refl
scan-render n (prose ln ∷ parts) h =
    rw (scan, fence_label-plain ln h.0) (scan-render (suc n) parts h.1)
scan-render n (fence pre label post buf before behind ∷ parts) (h, g, k, i, j, l, rest) =
    rw (scan, fence_label-opening pre label post h g k)
      (scan_inside (suc n) (record { lang = label; start = n; buf = [] }) buf (render parts) before
          behind i j l
        ∙ ap (cons_block (record { lang = label; start = n; buf = buf }))
            (scan-render (suc (suc n + length buf)) parts rest))
