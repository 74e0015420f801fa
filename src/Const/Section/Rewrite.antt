-- ===== src/Const/Section/Rewrite.antt =====
-- Writing the generated section again.
use arvern_ips.Prelude.{
  ◌≡◌, refl, sym, ap, ◌∙◌, inl, inr, true, false, some, List, [], ◌∷◌, ◌++◌, append_assoc, arith,
  Bool-cases, nat_eq, list_eq, pair_eq, contains, Text, codes, starts_with, starts_with-append,
  has_part,
}
use arvern_ips.Prelude.Parts.{starts_with-longer, has_part-behind, has_part-start}
use arvern_ips.Const.Section.{
  begin_mark, end_mark, newline, body, block_of, rstrip_newlines, replace_between, manual_part,
  write_section,
}
use arvern_ips.Const.Section.Between.{
  has_part-front, rstrip_newlines-rest, replace_between-keep, replace_between-front,
  replace_between-section, expand-plain,
}

begin-newline : contains begin_mark newline ≡ false
unfolding contains
begin-newline = refl

end-newline : contains end_mark newline ≡ false
unfolding contains
end-newline = refl

-- The file with a section: what the first run makes of a text without one.
abbrev pub with_section : List Text → Text → Text
with_section entries txt =
    rstrip_newlines txt ++ (newline ∷ newline ∷ (block_of entries ++ (newline ∷ [])))

kept-plain :
    (txt : Text)
    → has_part txt begin_mark ≡ false
    → has_part (rstrip_newlines txt) begin_mark ≡ false
kept-plain txt h =
    let (rest, e) = rstrip_newlines-rest txt in
    elim (Bool-cases (has_part (rstrip_newlines txt) begin_mark)) [
      | inr none_there ↦ none_there
      | inl there ↦
          let again : has_part txt begin_mark ≡ true =
            ap (λ t. has_part t begin_mark) e
            ∙ has_part-front (rstrip_newlines txt) rest begin_mark there in
          ground (arith, sym h ∙ again)
    ]

newline-first : (s mark : Text) → starts_with (newline ∷ s) (b'<' ∷ mark) ≡ false
unfolding starts_with
newline-first s mark = refl

-- The block is a section, with a line break in front of its body.
block_of-section :
    (entries : List Text)
    → block_of entries ++ (newline ∷ [])
      ≡ begin_mark ++ ((newline ∷ body entries) ++ (newline ∷ (end_mark ++ (newline ∷ []))))
unfolding block_of
block_of-section entries =
    append_assoc begin_mark (newline ∷ (body entries ++ (newline ∷ end_mark))) (newline ∷ [])
    ∙ ap (λ t. begin_mark ++ (newline ∷ t))
        (append_assoc (body entries) (newline ∷ end_mark) (newline ∷ []))

body-closed :
    (entries : List Text)
    → has_part (body entries) end_mark ≡ false
    → has_part (newline ∷ body entries) end_mark ≡ false
unfolding has_part
body-closed entries h =
    rw (newline-first (body entries) (codes "!-- END generated by cov_const.py -->")) h

-- The marks without their first characters.
abbrev begin_rest : Text
begin_rest = codes "!-- BEGIN generated by cov_const.py: do not edit by hand -->"

abbrev in_file : Text → Text → Text
in_file by = replace_between begin_mark end_mark by 0

in_file-nil : (by : Text) → in_file by [] ≡ []
unfolding replace_between
in_file-nil by = refl

replace-with_section :
    (by : Text) (entries : List Text) (txt : Text)
    → has_part txt begin_mark ≡ false
    → has_part (body entries) end_mark ≡ false
    → in_file by (with_section entries txt)
      ≡ rstrip_newlines txt ++ (newline ∷ newline ∷ (by ++ (newline ∷ [])))
replace-with_section by entries txt plain closed =
    let section = block_of entries ++ (newline ∷ []) in
    let lead =
      replace_between-front begin_mark end_mark by (rstrip_newlines txt) (newline ∷ section) refl
        begin-newline (kept-plain txt plain) in
    let gap =
      replace_between-keep begin_mark end_mark by newline section
        (newline-first section begin_rest) in
    let put =
      ap (in_file by) (block_of-section entries)
      ∙ replace_between-section b'<' begin_rest end_mark by (newline ∷ body entries) (newline ∷ [])
          refl end-newline (body-closed entries closed) in
    let last =
      replace_between-keep begin_mark end_mark by newline [] (newline-first [] begin_rest) in
    lead
    ∙ ap (λ t. rstrip_newlines txt ++ (newline ∷ t))
        (gap
          ∙ ap (λ t. newline ∷ t)
              (put ∙ ap (λ t. by ++ t) (last ∙ ap (λ t. newline ∷ t) (in_file-nil by))))

with_section-marked :
    (entries : List Text) (txt : Text) → has_part (with_section entries txt) begin_mark ≡ true
unfolding block_of
with_section-marked entries txt =
    let section = block_of entries ++ (newline ∷ []) in
    let starts =
      starts_with-longer (block_of entries) (newline ∷ []) begin_mark
        (starts_with-append begin_mark (newline ∷ (body entries ++ (newline ∷ end_mark)))) in
    has_part-behind (rstrip_newlines txt) (newline ∷ newline ∷ section) begin_mark (
      has_part-behind (newline ∷ newline ∷ []) section begin_mark
        (has_part-start section begin_mark starts))

-- Where the hand-written text has no begin marker, what is generated has no end marker inside and
-- no backslash, a second run replaces the section of the first: the file is as if the second run
-- had been the only one, and its hand-written part is that text up to line breaks at the end.
pub write_section_again :
    (old new : List Text) (txt : Text)
    → has_part txt begin_mark ≡ false
    → has_part (body old) end_mark ≡ false
    → contains (block_of new) 92 ≡ false
    → (write_section old txt ≡ some (with_section old txt))
      × ((write_section new (with_section old txt) ≡ write_section new txt)
          × (manual_part (with_section old txt)
              ≡ rstrip_newlines txt ++ (newline ∷ newline ∷ newline ∷ [])))
unfolding write_section manual_part
write_section_again old new txt plain closed simple =
    let first_run : (entries : List Text)
        → write_section entries txt ≡ some (with_section entries txt) =
      λ entries. rw (write_section, plain) refl in
    let second_run : write_section new (with_section old txt)
        ≡ some (in_file (block_of new) (with_section old txt)) =
      rw (write_section, with_section-marked old txt, expand-plain (block_of new) simple) refl in
    (
      first_run old,
      (
        second_run
            ∙ (ap some (replace-with_section (block_of new) old txt plain closed)
                ∙ sym (first_run new)),
        replace-with_section [] old txt plain closed,
      ),
    )
