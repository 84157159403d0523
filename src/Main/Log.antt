-- ===== src/Main/Log.antt =====
-- `DeferredLog` of src/main.rs: the file of the log is opened at the first write. `none` is a
-- panic; the file system is a parameter.
pub mod Laws
use vmtest.Base.{ℕ, List, [], ◌∷◌, Option, none, some, Text, text, Result, ok, err}
use vmtest.Base.Panics.{◌>>=◌}

-- `OnceCell<File>`
abbrev pub Cell : Type 0 → Type 0
Cell File = Option File

pub data Op : Type 0 where
  write : Text → Op
  flush : Op

-- What an operation returns to the logger.
pub data Answer : Type 0 where
  written : Result ℕ → Answer
  flushed : Result (Unit {0}) → Answer

pub record Files (S File : Type 0) : Type 0 where
  -- `OpenOptions` for `.vmtest.log`, created and appended to
  pub open_log : S → Result File × S
  pub write_file : File → Text → S → Result ℕ × S
  pub flush_file : File → S → Result (Unit {0}) × S

module _ {S File : Type 0} (fs : Files S File) where
  abbrev pub opened : Result File × S → Option (File × (Cell File × S))
  opened (ok f, s) = some (f, (some f, s))
  opened (err e, s) = none

  -- `get_or_init`
  unfoldable pub file : Cell File → S → Option (File × (Cell File × S))
  file (some f) s = some (f, (some f, s))
  file none s = opened (fs.open_log s)

  abbrev pub act : Op → File → S → Answer × S
  act (write buf) f s = let (r, s') = fs.write_file f buf s in (written r, s')
  act flush f s = let (r, s') = fs.flush_file f s in (flushed r, s')

  -- `write` and `flush`
  unfoldable pub log_op : Op → Cell File → S → Option (Answer × (Cell File × S))
  unfolding file
  log_op op cell s = do
    (f, (cell', s')) ← file cell s
    let (r, s'') = act op f s'
    some (r, (cell', s''))

  -- What the logger asks for, one after the other.
  unfoldable pub log_ops : List Op → Cell File → S → Option (List Answer × (Cell File × S))
  log_ops [] cell s = some ([], (cell, s))
  log_ops (op ∷ ops) cell s = do
    (r, (cell', s')) ← log_op op cell s
    (rs, last) ← log_ops ops cell' s'
    some (r ∷ rs, last)
