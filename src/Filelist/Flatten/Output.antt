-- ===== src/Filelist/Flatten/Output.antt =====
-- What `process_filelist` returns: the forms of its lines, and a set of visited lists without
-- repetition. A line `-f` with a tab behind it is no nested list to the code: it passes through.
use arvern_ips.Prelude.{
  ◌≡◌, true, false, ◌||◌, List, [], ◌∷◌, ◌++◌, nat_eq, list_eq, pair_eq, IsDistinct, Text, codes,
  starts_with,
}
use arvern_ips.Filelist.Line.{Line, directive, run_local, incdir_mark}
use arvern_ips.Filelist.Flatten.{Disk, Outcome, done, Walk}

-- What may stand in the result: a directive that is no `-f` with a space behind it, a path local to the run directory, a
-- resolved path, and an include directory of these two kinds.
pub data IsEntry (disk : Disk) : Text → Type 0 where
  directive_entry :
      {s : Text}
      → (starts_with s (codes "+") || starts_with s (codes "-")) ≡ true
      → starts_with s (codes "-f ") ≡ false
      → IsEntry disk s
  local_entry : {s : Text} → starts_with s (codes "./") ≡ true → IsEntry disk s
  path_entry : {s : Text} (p : Text) → s ≡ disk.resolve p → IsEntry disk s
  local_incdir :
      {s : Text} (p : Text)
      → s ≡ incdir_mark ++ p
      → starts_with p (codes "./") ≡ true
      → IsEntry disk s
  path_incdir : {s : Text} (p : Text) → s ≡ incdir_mark ++ disk.resolve p → IsEntry disk s

abbrev pub AreEntries : Disk → List Text → Type 0
AreEntries disk [] = Unit
AreEntries disk (s ∷ ss) = IsEntry disk s × AreEntries disk ss

-- What the classification guarantees of the lines that are passed through.
abbrev Fits : Line → Type 0
Fits (directive s) =
    ((starts_with s (codes "+") || starts_with s (codes "-")) ≡ true)
    × (starts_with s (codes "-f ") ≡ false)
Fits (run_local s) = starts_with s (codes "./") ≡ true
Fits _ = Unit

module _ (disk : Disk) where
  abbrev Sound : Outcome Walk → Type 0
  Sound (done (out, m)) = AreEntries disk out × IsDistinct m.processed
  Sound _ = Unit
