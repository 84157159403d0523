-- ===== src/Main/Log/Laws.antt =====
-- When the log file is opened.
use vmtest.Base.{sym, Option, ◌∙◌, List, [], ◌∷◌, none, some, Result, ok, err, ◌≡◌, refl, ◌∙◌}
use vmtest.Base.Panics.{◌>>=◌}
use vmtest.Main.Log.{Cell, Files, Op, write, flush, Answer, file, log_op, log_ops}

-- The same files, but for what opening the log does.
abbrev pub reopening : {S File : Type 0} → Files S File → (S → Result File × S) → Files S File
reopening fs other = record fs { open_log = other }

module _ {S File : Type 0} (fs : Files S File) (other : S → Result File × S) where
  log_op-opened :
      (op : Op) (f : File) (s : S)
      → (r : Answer × S) × (log_op fs op (some f) s ≡ some (r.0, (some f, r.1)))
        × (log_op (reopening fs other) op (some f) s ≡ some (r.0, (some f, r.1)))
  unfolding log_op file
  log_op-opened (write buf) f s = (_, refl, refl)
  log_op-opened flush f s = (_, refl, refl)

  log_ops-opened :
      (ops : List Op) (f : File) (s : S)
      → (r : List Answer × S) × (log_ops fs ops (some f) s ≡ some (r.0, (some f, r.1)))
        × (log_ops (reopening fs other) ops (some f) s ≡ some (r.0, (some f, r.1)))
  unfolding log_ops
  log_ops-opened [] f s = (([], s), refl, refl)
  log_ops-opened (op ∷ ops) f s =
      let (r, here, there) = log_op-opened op f s in
      let (rs, more, also) = log_ops-opened ops f r.1 in
      ((r.0 ∷ rs.0, rs.1), rw (here, ◌>>=◌, more), rw (there, ◌>>=◌, also))

  -- What follows the opening: a panic, or the operations on the open file.
  abbrev pub on_opened : List Op → Result File × S → Option (List Answer × (Cell File × S))
  on_opened ops (err e, s) = none
  on_opened ops (ok f, s) = log_ops (reopening fs other) ops (some f) s

  opening :
      (op : Op) (ops : List Op) (s : S) (r : Result File × S)
      → fs.open_log s ≡ r
      → log_ops fs (op ∷ ops) none s ≡ on_opened (op ∷ ops) r
  opening op ops s (err e, s') h = unfold log_ops log_op file in rw h refl
  opening op ops s (ok f, s') h =
      let (r, here, there) = log_ops-opened (op ∷ ops) f s' in
      let same : log_ops fs (op ∷ ops) none s ≡ log_ops fs (op ∷ ops) (some f) s' =
        unfold log_ops log_op file in rw h refl in
      same ∙ here ∙ sym there

  -- Nothing is opened where nothing is written or flushed. The first operation opens the file,
  -- and panics if it cannot; else all operations are those on the open file, whatever opening it
  -- once more would do. On an open file they do not panic, and leave it open.
  pub log_ops-lazy :
      (op : Op) (ops : List Op) (s : S) (f : File)
      → (log_ops fs [] none s ≡ some ([], (none, s)))
        × (log_ops fs (op ∷ ops) none s ≡ on_opened (op ∷ ops) (fs.open_log s))
        × ((r : List Answer × S) × (log_ops fs (op ∷ ops) (some f) s ≡ some (r.0, (some f, r.1))))
  log_ops-lazy op ops s f =
      let (r, here, there) = log_ops-opened (op ∷ ops) f s in
      (unfold log_ops in refl, opening op ops s (fs.open_log s) refl, (r, here))
