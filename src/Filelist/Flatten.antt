-- ===== src/Filelist/Flatten.antt =====
-- `process_filelist`: the recursive walk over nested filelists, with the set of visited lists.
-- The file system is the parameter `Disk`; the recursion takes fuel.
pub mod Termination
pub mod Output
use arvern_ips.Prelude.{
  ℕ, zero, suc, ◌+◌, ◌-◌, ◌*◌, ◌/◌, ◌%◌, ◌≤◌, ◌<◌, max, min, ◌≡◌, refl, sym, ap, ◌∙◌, ◌≢◌, ◌↔◌, ◌⊎◌,
  inl, inr, Bool, true, false, not, ◌&&◌, ◌||◌, Option, none, some, List, [], ◌∷◌, ◌++◌, map,
  append-nil, append_assoc, arith, ltb, leb, ◌==◌, if◌then◌else◌, ltb→lt, lt→ltb, leb→le, ==_iff,
  Bool-cases, Option-cases, Bool-ext, and-eq-true, or-eq-true, length, get_elem?, get_or, take,
  drop, replicate, keep_if, any, all, is_nil, length-append, List-cases, drop-append,
  keep_if-append, length-keep_if-le, any-append, Eq, eqb, nat_eq, list_beq, list_beq_iff, list_eq,
  pair_beq, pair_beq_iff, pair_eq, eqb_refl, eqb_sym, contains, contains-append, IsDistinct,
  contains-keep_if, unseen, unseen-cons-le, unseen-cons-lt, Text, codes, is_space, lstrip, rstrip,
  strip, starts_with, starts_with-append, ends_with, has_part, before, split_on, join, rpartition,
  basename,
}
use arvern_ips.Prelude.Dict.{
  Dict, keys, lookup, insert, has_key, set_default, lookup-insert, has_key-insert, has_key-lookup,
  contains-keys, insert-IsDistinct,
}
use arvern_ips.Prelude.Decimal.{
  is_digit, is_number, int, show, int-show, show_injective, is_number-show,
}
use arvern_ips.Prelude.Sorting.{
  text_le, text_le_total, text_le_trans, insert_sorted, sort, IsSorted, length-insert_sorted,
  length-sort, all-sort, sort-IsSorted, contains-insert_sorted, contains-sort,
}
use arvern_ips.Filelist.Line.{
  Line, skipped, nested, incdir, directive, run_local, source, classify, incdir_mark,
}

-- What `open(path)` and reading give: the lines, a `FileNotFoundError`, or another exception.
pub data Contents : Type 0 where
  file_lines : List Text → Contents
  not_found : Contents
  unreadable : Contents

-- The file system: `Path(p).resolve()`, `p.exists()`, and the contents of a file.
pub record Disk : Type 0 where
  pub resolve : Text → Text
  pub exists : Text → Bool
  pub read : Text → Contents

-- `base / p` before it is resolved: an absolute path replaces the base.
unfoldable pub join_path : Text → Text → Text
join_path base p = if starts_with p (codes "/") then p else base ++ (b'/' ∷ p)

-- `path.parent` of a resolved path.
unfoldable pub parent : Text → Text
parent p = elim (rpartition b'/' p) [
  | some ([], name) ↦ codes "/"
  | some (dir, name) ↦ dir
  | none ↦ codes "."
]

-- What goes to stderr.
pub data Warning : Type 0 where
  nested_not_found : Text → Text → Warning
  file_not_found : Text → Text → Warning
  cannot_open : Text → Warning

-- `processed`, the set that all calls share, and the messages so far.
pub record Marks : Type 0 where
  pub processed : List Text
  pub warnings : List Warning

abbrev pub warn : Warning → Marks → Marks
warn w m = record m { warnings = m.warnings ++ (w ∷ []) }

-- A call returns, raises an exception, or has used up the fuel of the model.
pub data Outcome {ℓ} (A : Type ℓ) : Type ℓ where
  done : A → Outcome A
  raised : Outcome A
  exhausted : Outcome A

infixl 5 ◌>>=◌
abbrev pub ◌>>=◌ {ℓ κ} : {A : Type ℓ} {B : Type κ} → Outcome A → (A → Outcome B) → Outcome B
done a >>= f = f a
raised >>= f = raised
exhausted >>= f = exhausted

-- The lines a call returns, with the shared state.
abbrev pub Walk : Type 0
Walk = List Text × Marks

module _ (disk : Disk) where
  module _ (recurse : Text → Marks → Outcome Walk) (file : Text) where
    -- One round of the loop, after classification.
    unfoldable pub process_line : Line → List Text → Marks → Outcome Walk
    process_line skipped out m = done (out, m)
    process_line (nested p) out m =
        let full = disk.resolve (join_path (parent file) p) in
        if disk.exists full
        then (do (more, m') ← recurse full m; done (out ++ more, m'))
        else done (out, warn (nested_not_found full file) m)
    process_line (incdir p) out m =
        if starts_with p (codes "./")
        then done (out ++ ((incdir_mark ++ p) ∷ []), m)
        else done (out ++ ((incdir_mark ++ disk.resolve (join_path (parent file) p)) ∷ []), m)
    process_line (directive s) out m = done (out ++ (s ∷ []), m)
    process_line (run_local s) out m = done (out ++ (s ∷ []), m)
    process_line (source s) out m =
        let full = disk.resolve (join_path (parent file) s) in
        done (out ++ (full ∷ []), if disk.exists full then m else warn (file_not_found full file) m)

    unfoldable pub process_lines : List Text → List Text → Marks → Outcome Walk
    process_lines [] out m = done (out, m)
    process_lines (raw ∷ rest) out m = do
      (out', m') ← process_line (classify raw) out m
      process_lines rest out' m'

    -- The body of the `try`.
    unfoldable pub process_contents : Contents → Marks → Outcome Walk
    process_contents (file_lines ls) m = process_lines ls [] m
    process_contents not_found m = done ([], warn (cannot_open file) m)
    process_contents unreadable m = raised

  unfoldable pub process_filelist : ℕ → Text → Marks → Outcome Walk
  process_filelist zero path m = exhausted
  process_filelist (suc fuel) path m =
      let file = disk.resolve path in
      let entered = record m { processed = file ∷ m.processed } in
      let body = process_contents (process_filelist fuel) file (disk.read file) entered in
      if contains m.processed file then done ([], m) else body
