-- ===== src/Filelist/Flatten/Termination.antt =====
-- The recursion of `process_filelist` ends: a list is entered once, and there are finitely many.
use arvern_ips.Prelude.{
  ℕ, zero, suc, ◌≤◌, ◌<◌, ◌≡◌, ◌≢◌, inl, inr, true, List, [], ◌∷◌, arith, Bool-cases, length,
  nat_eq, list_eq, pair_eq, contains, unseen, unseen-cons-le, unseen-cons-lt, Text,
}
use arvern_ips.Filelist.Line.{Line, skipped, nested, incdir, directive, run_local, source, classify}
use arvern_ips.Filelist.Flatten.{
  Contents, file_lines, not_found, unreadable, Disk, Marks, Outcome, done, raised, exhausted, ◌>>=◌,
  Walk, join_path, parent, process_line, process_lines, process_contents, process_filelist,
}

-- The documented behaviour of the file system that the walk relies on: resolving twice changes
-- nothing, and only finitely many paths exist.
pub record IsFinite (disk : Disk) (files : List Text) : Type 0 where
  pub resolve-resolve : (p : Text) → disk.resolve (disk.resolve p) ≡ disk.resolve p
  pub exists-contains : (p : Text) → disk.exists p ≡ true → contains files p ≡ true

module _ (disk : Disk) (files : List Text) where
  -- The call ends, and leaves at most `n` existing files unvisited.
  abbrev Ends : ℕ → Outcome Walk → Type 0
  Ends n (done (out, m)) = unseen files m.processed ≤ n
  Ends n raised = Unit
  Ends n exhausted = ⊥

  Ends-mono : (r : Outcome Walk) {a b : ℕ} → a ≤ b → Ends a r → Ends b r
  Ends-mono (done (out, m)) h e = omega arith
  Ends-mono raised h e = tt
  Ends-mono exhausted h e = e

  Ends-bind :
      (r : Outcome Walk) (f : Walk → Outcome Walk) (n : ℕ)
      → Ends n r
      → ((out : List Text) (m : Marks) → unseen files m.processed ≤ n → Ends n (f (out, m)))
      → Ends n (r >>= f)
  Ends-bind (done (out, m)) f n e next = next out m e
  Ends-bind raised f n e next = tt
  Ends-bind exhausted f n e next = e

  module _ (finite : IsFinite disk files) (recurse : Text → Marks → Outcome Walk) (bound : ℕ)
      (ends : (p : Text) (m : Marks)
        → contains files (disk.resolve p) ≡ true
        → unseen files m.processed < bound
        → Ends (unseen files m.processed) (recurse p m))
      (file : Text) where
    process_line-Ends :
        (l : Line) (out : List Text) (m : Marks)
        → unseen files m.processed < bound
        → Ends (unseen files m.processed) (process_line disk recurse file l out m)
    unfolding process_line
    process_line-Ends skipped out m h = omega arith
    process_line-Ends (nested p) out m h =
        let full = disk.resolve (join_path (parent file) p) in
        elim (Bool-cases (disk.exists full)) [
          | inl there ↦ rw there (
              Ends-bind (recurse full m) _ _
                (ends full m (rw finite.resolve-resolve (finite.exists-contains full there)) h)
                (λ _ _ e. e))
          | inr absent ↦ rw absent (omega arith)
        ]
    process_line-Ends (incdir p) out m h = ground arith
    process_line-Ends (directive s) out m h = omega arith
    process_line-Ends (run_local s) out m h = omega arith
    process_line-Ends (source s) out m h = ground arith

    process_lines-Ends :
        (ls : List Text) (out : List Text) (m : Marks)
        → unseen files m.processed < bound
        → Ends (unseen files m.processed) (process_lines disk recurse file ls out m)
    unfolding process_lines
    process_lines-Ends [] out m h = omega arith
    process_lines-Ends (raw ∷ rest) out m h =
        Ends-bind (process_line disk recurse file (classify raw) out m) _ _
          (process_line-Ends (classify raw) out m h)
          (λ out' m' e. Ends-mono _ e (process_lines-Ends rest out' m' (omega arith)))

    process_contents-Ends :
        (c : Contents) (m : Marks)
        → unseen files m.processed < bound
        → Ends (unseen files m.processed) (process_contents disk recurse file c m)
    unfolding process_contents
    process_contents-Ends (file_lines ls) m h = process_lines-Ends ls [] m h
    process_contents-Ends not_found m h = omega arith
    process_contents-Ends unreadable m h = tt

  module _ (finite : IsFinite disk files) where
    process_filelist-Ends :
        (fuel : ℕ) (p : Text) (m : Marks)
        → contains files (disk.resolve p) ≡ true
        → unseen files m.processed < fuel
        → Ends (unseen files m.processed) (process_filelist disk fuel p m)
    unfolding process_filelist
    process_filelist-Ends zero p m there h = elim h [ ]
    process_filelist-Ends (suc fuel) p m there h =
        let file = disk.resolve p in
        let falls = unseen-cons-lt files m.processed file there in
        elim (Bool-cases (contains m.processed file)) [
          | inl old ↦ rw old (omega arith)
          | inr new ↦ rw new (
              Ends-mono _ (omega (arith, falls new)) (
                process_contents-Ends finite (process_filelist disk fuel) fuel
                  (process_filelist-Ends fuel) file (disk.read file)
                  (record m { processed = file ∷ m.processed }) (omega (arith, falls new))))
        ]

    -- From any state, fuel for two calls more than there are unvisited files is enough, whether or
    -- not the first list exists.
    process_filelist-Ends_root :
        (fuel : ℕ) (p : Text) (m : Marks)
        → suc (unseen files m.processed) < fuel
        → Ends (unseen files m.processed) (process_filelist disk fuel p m)
    unfolding process_filelist
    process_filelist-Ends_root zero p m h = elim h [ ]
    process_filelist-Ends_root (suc fuel) p m h =
        let file = disk.resolve p in
        let grown = unseen-cons-le files m.processed file in
        elim (Bool-cases (contains m.processed file)) [
          | inl old ↦ rw old (omega arith)
          | inr new ↦ rw new (
              Ends-mono _ grown (
                process_contents-Ends finite (process_filelist disk fuel) fuel
                  (process_filelist-Ends fuel) file (disk.read file)
                  (record m { processed = file ∷ m.processed }) (omega arith)))
        ]

    unseen-le-length : (fs seen : List Text) → unseen fs seen ≤ length fs
    unseen-le-length [] seen = omega arith
    unseen-le-length (f ∷ fs) seen = ground (arith, unseen-le-length fs seen)

    not-exhausted : (r : Outcome Walk) (n : ℕ) → Ends n r → r ≢ exhausted
    not-exhausted (done w) n e = λ k. cc
    not-exhausted raised n e = λ k. cc
    not-exhausted exhausted n e = absurd e

    -- Flattening any list from any state ends, circular includes or not: with fuel above the number
    -- of files of the disk plus one, the walk never runs out, on a disk where resolving is idempotent
    -- and finitely many paths exist.
    pub process_filelist_terminates :
        (fuel : ℕ) (path : Text) (m : Marks)
        → suc (length files) < fuel
        → process_filelist disk fuel path m ≢ exhausted
    process_filelist_terminates fuel path m h =
        not-exhausted _ _ (
          process_filelist-Ends_root fuel path m
            (omega (arith, unseen-le-length files m.processed)))
