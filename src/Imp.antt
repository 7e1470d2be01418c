-- ===== src/Imp.antt =====
-- imp.rs: the public database, which runs each step of a batch on all trees.
pub mod Loops
pub mod Failures
pub mod Invariant
pub mod Cursors
use block_rust.Base.{
  ℕ, Bool, true, false, Option, none, some, List, [], ◌∷◌, Error, Outcome, ok, err, panic,
}
use block_rust.Base.Exec.{Exec, pure, fail, update, ◌>>=◌, ◌>>◌}
use block_rust.Types.{Key, Value, Batch, BatchCommit, Commit}
use block_rust.Command.{Command}
use block_rust.CommitLog.{CommitCommand}
use block_rust.LogFile.{LogFile}
use block_rust.Index.Cursor.{Cursor}
use block_rust.Db
use block_rust.Db.{Db, Name}

-- The batch writer is its number.
pub record WriteBatch : Type 0 where
  pub inner : Batch
  pub trees : List Name
  pub closed : Bool

-- An error is a value that the caller looks at; a panic goes on.
abbrev pub attempt : {S : Type 0} → Exec S (Unit {0}) → Exec S (Option Error)
attempt m s =
    let (r, s') = m s in
    elim r [ ok u ↦ (ok none, s') | err e ↦ (ok (some e), s') | panic ↦ (panic, s') ]

-- A loop over the trees with `?` in its body.
unfoldable pub each : {S : Type 0} → (Name → Exec S (Unit {0})) → List Name → Exec S (Unit {0})
each body [] = pure tt
each body (tree ∷ trees) = do body tree; each body trees

-- A loop over the trees that reports errors and goes on.
unfoldable pub each_attempt :
    {S : Type 0} → (Name → Exec S (Unit {0})) → List Name → Exec S (Unit {0})
each_attempt body [] = pure tt
each_attempt body (tree ∷ trees) = do error ← attempt (body tree); each_attempt body trees

-- The loop of `commit`: the trees behind one that fails abort. It returns the first error.
unfoldable pub ready_trees :
    {S : Type 0}
    → (Name → Exec S (Unit {0}))
    → (Name → Exec S (Unit {0}))
    → Option Error
    → List Name
    → Exec S (Option Error)
ready_trees ready abort error [] = pure error
ready_trees ready abort none (tree ∷ trees) = do
  error ← attempt (ready tree)
  ready_trees ready abort error trees
ready_trees ready abort (some e) (tree ∷ trees) = do
  reported ← attempt (abort tree)
  ready_trees ready abort (some e) trees

module _ (f : LogFile Command) (g : LogFile CommitCommand) where
  -- `Db::write_batch`.
  unfoldable pub write_batch : List Name → Exec (Db f g) WriteBatch
  unfolding each
  write_batch trees = do
    batch ← Db.batch f g
    each (Db.open_batch f g batch) trees
    pure (record { inner = batch; trees = trees; closed = false })

  -- `WriteBatch::push_save_point` and its siblings.
  unfoldable pub push_save_point : WriteBatch → Exec (Db f g) (Unit {0})
  unfolding each
  push_save_point wb = each (Db.push_save_point f g wb.inner) wb.trees

  unfoldable pub pop_save_point : WriteBatch → Exec (Db f g) (Unit {0})
  unfolding each
  pop_save_point wb = each (Db.pop_save_point f g wb.inner) wb.trees

  unfoldable pub rollback_save_point : WriteBatch → Exec (Db f g) (Unit {0})
  unfolding each
  rollback_save_point wb = each (Db.rollback_save_point f g wb.inner) wb.trees

  -- The end of `commit`: the first error, or the commit of the batch.
  unfoldable pub finish_commit : Batch → BatchCommit → Option Error → Exec (Db f g) (Unit {0})
  finish_commit batch batch_commit (some e) = fail e
  finish_commit batch batch_commit none = Db.commit f g batch batch_commit

  -- `WriteBatch::commit`.
  unfoldable pub commit : WriteBatch → Exec (Db f g) (Unit {0})
  unfolding ready_trees finish_commit
  commit wb = do
    batch_commit ← Db.new_batch_commit_number f g
    error ←
        ready_trees (Db.ready_commit f g wb.inner batch_commit)
          (Db.abort_commit f g wb.inner batch_commit) none wb.trees
    finish_commit wb.inner batch_commit error

  -- `WriteBatch::abort`.
  unfoldable pub abort : WriteBatch → Exec (Db f g) (Unit {0})
  unfolding each_attempt
  abort wb = do
    batch_commit ← Db.new_batch_commit_number f g
    each_attempt (Db.abort_commit f g wb.inner batch_commit) wb.trees

  -- `WriteBatch::close`.
  unfoldable pub close : WriteBatch → Exec (Db f g) WriteBatch
  unfolding each_attempt
  close wb = do each_attempt (Db.close f g wb.inner) wb.trees; pure (record wb { closed = true })

  -- The methods of `WriteTree`, on the name of its tree; `from_slice` copies the bytes.
  unfoldable pub write : WriteBatch → Name → List ℕ → List ℕ → Exec (Db f g) (Unit {0})
  write wb tree key value = Db.write f g wb.inner tree key value

  unfoldable pub delete : WriteBatch → Name → List ℕ → Exec (Db f g) (Unit {0})
  delete wb tree key = Db.delete f g wb.inner tree key

  unfoldable pub delete_range : WriteBatch → Name → List ℕ → List ℕ → Exec (Db f g) (Unit {0})
  delete_range wb tree start_key end_key = Db.delete_range f g wb.inner tree start_key end_key

  -- `Db::read_view`: a view is its commit limit.
  unfoldable pub read_view : Exec (Db f g) Commit
  read_view = Db.view f g

  -- `ReadTree::read` and `ReadTree::cursor`.
  unfoldable pub read : Db f g → Commit → Name → List ℕ → Outcome (Option (List ℕ))
  read db view tree key = Db.read f g db view tree key

  unfoldable pub cursor : Db f g → Commit → Name → Outcome Cursor
  cursor db view tree = Db.cursor f g db view tree
