-- ===== src/LogFile.antt =====
-- tryReadLog0 and tryReadLog1 (jiexi/src/Log1Producer.cc, jiexi/src/Log2Producer.cc): the complete
-- lines of a log file from an offset on, at most 501 at a time, and the switch to the next file.
pub mod Reading
use explorer_kv.Prelude.{
  ℕ, zero, suc, ◌+◌, ◌-◌, Bool, true, false, not, Option, none, some, List, [], ◌∷◌, if◌then◌else◌,
  ltb, ◌==◌, length, drop, is_some,
}
use explorer_kv.Prelude.Result.{Result, ok, err, exception, ◌>>=◌, ◌>>◌, guard}
use explorer_kv.OrdMap.{Map, find, has, erase}
use explorer_kv.OrdMap.Order.{nat_ord}
use explorer_kv.Log1.{Text, newline}

-- getline, where the text ends the line with a newline: the line and what follows
unfoldable pub get_line : Text → Option (Text × Text)
get_line [] = none
get_line (c ∷ s) =
    let rest = get_line s in
    if c == newline
    then some ([], s)
    else elim rest [ none ↦ none | some (line, s') ↦ some (c ∷ line, s') ]

-- The loop: at most `rounds` lines, and by how much the offset grows.
unfoldable pub read_lines : ℕ → Text → List Text × ℕ
read_lines zero s = ([], 0)
read_lines (suc rounds) s = elim (get_line s) [
  | none ↦ ([], 0)
  | some (line, rest) ↦
      let (lines, n) = read_lines rounds rest in (line ∷ lines, suc (length line) + n)
]

-- The loop stops when more than 500 lines are read.
abbrev pub max_lines : ℕ
max_lines = 501

-- A directory of numbered files, and the place up to which it is read.
abbrev pub Files : Type 0
Files = Map ℕ Text

pub record Place : Type 0 where
  pub file_index : ℕ
  pub file_offset : ℕ

-- tryRemoveOldLog0 and tryRemoveOldLog1: downwards from the index given, up to a missing file
unfoldable pub remove_down : ℕ → Files → Files
remove_down zero files = erase 0 files
remove_down (suc i) files =
    let rest = remove_down i (erase (suc i) files) in if has (suc i) files then rest else files

unfoldable pub try_remove_old : ℕ → ℕ → Files → Files
unfolding remove_down
try_remove_old keep index files = if ltb index keep then files else remove_down (index - keep) files

-- tryReadLog1: the lines, the new place, the files that are left
unfoldable pub try_read : ℕ → Files → Place → Result (List Text × Place × Files)
unfolding read_lines try_remove_old
try_read keep files at = elim (find at.file_index files) [
  | none ↦ err exception
  | some text ↦
      let (lines, n) = read_lines max_lines (drop at.file_offset text) in
      elim lines [
        | line ∷ more ↦ ok (line ∷ more, record at { file_offset = at.file_offset + n }, files)
        | [] ↦
            if has (suc at.file_index) files
            then ok (
              [],
              record { file_index = suc at.file_index; file_offset = 0 },
              try_remove_old keep (suc at.file_index) files,
            )
            else ok ([], at, files)
      ]
]

-- tryReadLog0 refuses changed files first: the BEGIN file's time, and a file that shrank.
unfoldable pub try_read_log0 : ℕ → ℕ → ℕ → Files → Place → Result (List Text × Place × Files)
unfolding try_read
try_read_log0 keep begin_time last_begin_time files at = do
  guard (last_begin_time == begin_time) exception
  elim (find at.file_index files) [
    | none ↦ err exception
    | some text ↦ do
      guard (not (ltb (length text) at.file_offset)) exception
      try_read keep files at
  ]
