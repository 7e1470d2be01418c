-- ===== src/Db.antt =====
-- basic_db.rs: a database of several trees with atomic commits.
pub mod Trees
pub mod Commits
pub mod Writers
pub mod Failures
pub mod Steady
pub mod Visible
pub mod Progress
pub mod Init
pub mod Reopen
use block_rust.Base.{
  ℕ, ◌+◌, Bool, false, not, Option, none, some, List, [], ◌∷◌, ltb, ◌==◌, if◌then◌else◌, u64_mod,
  checked_add, Outcome, ok, err, panic, expect,
}
use Prim.Native.Nat.{◌%◌, ◌-◌}
use block_rust.Base.Exec.{Exec, pure, lift, gets, update, require, zoom, ◌>>=◌, ◌>>◌}
use block_rust.Base.Ord.{bytes_ord}
use block_rust.OrdMap.{OrdMap, get, insert}
use block_rust.Types.{Key, Value, Batch, BatchCommit, Commit}
use block_rust.Command.{Command}
use block_rust.CommitLog
use block_rust.CommitLog.{CommitCommand}
use block_rust.LogFile.{LogFile}
use block_rust.Index.Cursor.{Cursor}
use block_rust.Index.Cursor
use block_rust.Tree.Ops
use block_rust.Tree.Ops.{Tree}

-- The name of a tree: the bytes of a `String`.
abbrev pub Name : Type 0
Name = List ℕ

module _ (f : LogFile Command) (g : LogFile CommitCommand) where
  -- The counters are atomics that the writers share with the database; so are the trees.
  pub record Db : Type 0 where
    pub initialized : Bool
    pub next_batch : ℕ
    pub next_batch_commit : ℕ
    pub next_commit : ℕ
    pub view_commit_limit : ℕ
    pub trees : OrdMap Name (Tree f)
    pub commit_log : LogFile.State g

  abbrev pub new_trees : OrdMap Name (LogFile.State f) → OrdMap Name (Tree f)
  new_trees [] = []
  new_trees ((name, log) ∷ logs) = (name, Ops.new f log) ∷ new_trees logs

  -- `Db::new`.
  abbrev pub new : OrdMap Name (LogFile.State f) → LogFile.State g → Db
  new tree_logs commit_log = record {
    initialized = false;
    next_batch = 0;
    next_batch_commit = 0;
    next_commit = 0;
    view_commit_limit = 0;
    trees = new_trees tree_logs;
    commit_log = commit_log;
  }

  -- `fetch_add(1)` on a `u64` wraps.
  abbrev pub wrapping_next : ℕ → ℕ
  wrapping_next n = (n + 1) % u64_mod

  -- `Db::batch`: the number of a new writer.
  unfoldable pub batch : Exec Db Batch
  batch = do
    db ← gets (λ db. db)
    require db.initialized
    update (λ db. record db { next_batch = wrapping_next db.next_batch })
    require (not (db.next_batch == u64_mod - 1))
    pure db.next_batch

  -- `Db::view`: the commit limit of a new view.
  unfoldable pub view : Exec Db Commit
  view = do db ← gets (λ db. db); require db.initialized; pure db.view_commit_limit

  -- A method of one tree's writer; the name must be that of a tree.
  unfoldable pub put_tree : Name → Outcome (Unit {0}) × Tree f → Exec Db (Unit {0})
  put_tree name (r, t) db = (r, record db { trees = insert name t db.trees })

  unfoldable pub on_found : Name → Exec (Tree f) (Unit {0}) → Option (Tree f) → Exec Db (Unit {0})
  unfolding put_tree
  on_found name m none db = (panic, db)
  on_found name m (some t) db = put_tree name (m t) db

  unfoldable pub on_tree : Name → Exec (Tree f) (Unit {0}) → Exec Db (Unit {0})
  unfolding on_found
  on_tree name m db = on_found name m (get name db.trees) db

  unfoldable pub open_batch : Batch → Name → Exec Db (Unit {0})
  unfolding on_tree
  open_batch batch tree = on_tree tree (Ops.open_batch f batch)

  unfoldable pub write : Batch → Name → Key → Value → Exec Db (Unit {0})
  unfolding on_tree
  write batch tree key value = on_tree tree (Ops.write f batch key value)

  unfoldable pub delete : Batch → Name → Key → Exec Db (Unit {0})
  unfolding on_tree
  delete batch tree key = on_tree tree (Ops.delete f batch key)

  unfoldable pub delete_range : Batch → Name → Key → Key → Exec Db (Unit {0})
  unfolding on_tree
  delete_range batch tree start_key end_key =
      on_tree tree (Ops.delete_range f batch start_key end_key)

  unfoldable pub push_save_point : Batch → Name → Exec Db (Unit {0})
  unfolding on_tree
  push_save_point batch tree = on_tree tree (Ops.push_save_point f batch)

  unfoldable pub pop_save_point : Batch → Name → Exec Db (Unit {0})
  unfolding on_tree
  pop_save_point batch tree = on_tree tree (Ops.pop_save_point f batch)

  unfoldable pub rollback_save_point : Batch → Name → Exec Db (Unit {0})
  unfolding on_tree
  rollback_save_point batch tree = on_tree tree (Ops.rollback_save_point f batch)

  unfoldable pub ready_commit : Batch → BatchCommit → Name → Exec Db (Unit {0})
  unfolding on_tree
  ready_commit batch batch_commit tree = on_tree tree (Ops.ready_commit f batch batch_commit)

  unfoldable pub abort_commit : Batch → BatchCommit → Name → Exec Db (Unit {0})
  unfolding on_tree
  abort_commit batch batch_commit tree = on_tree tree (Ops.abort_commit f batch batch_commit)

  unfoldable pub close : Batch → Name → Exec Db (Unit {0})
  unfolding on_tree
  close batch tree = on_tree tree (Ops.close f batch)

  -- `BatchWriter::new_batch_commit_number`.
  unfoldable pub new_batch_commit_number : Exec Db BatchCommit
  new_batch_commit_number = do
    db ← gets (λ db. db)
    update (λ db. record db { next_batch_commit = wrapping_next db.next_batch_commit })
    require (not (db.next_batch_commit == u64_mod - 1))
    pure db.next_batch_commit

  -- The loop of `commit` over the trees, which a panic leaves.
  unfoldable pub commit_trees :
      Batch → BatchCommit → Commit → Exec (OrdMap Name (Tree f)) (Unit {0})
  commit_trees writer batch_commit commit [] = (ok tt, [])
  commit_trees writer batch_commit commit ((name, t) ∷ trees) =
      let (r, t') = Ops.commit_to_index f writer batch_commit commit t in
      let (r', trees') = commit_trees writer batch_commit commit trees in
      elim r [
        | ok u ↦ (r', (name, t') ∷ trees')
        | err e ↦ (err e, (name, t') ∷ trees)
        | panic ↦ (panic, (name, t') ∷ trees)
      ]

  abbrev pub on_trees : Exec (OrdMap Name (Tree f)) (Unit {0}) → Exec Db (Unit {0})
  on_trees = zoom (λ db. db.trees) (λ trees db. record db { trees = trees })

  abbrev pub on_commit_log : Exec (LogFile.State g) (Unit {0}) → Exec Db (Unit {0})
  on_commit_log = zoom (λ db. db.commit_log) (λ log db. record db { commit_log = log })

  -- The end of `commit`: the new limit of the views, which must be above the old one.
  unfoldable pub bump_view : Commit → Exec Db (Unit {0})
  bump_view commit = do
    limit ← lift (expect (checked_add u64_mod commit 1))
    db ← gets (λ db. db)
    update (λ db. record db { view_commit_limit = limit })
    require (ltb db.view_commit_limit limit)

  -- `BatchWriter::commit`. The commit lock is held throughout, so no other commit is in between.
  unfoldable pub commit : Batch → BatchCommit → Exec Db (Unit {0})
  unfolding commit_trees bump_view
  commit batch batch_commit = do
    db ← gets (λ db. db)
    update (λ db. record db { next_commit = wrapping_next db.next_commit })
    require (not (db.next_commit == u64_mod - 1))
    on_commit_log (CommitLog.commit g batch batch_commit db.next_commit)
    on_trees (commit_trees batch batch_commit db.next_commit)
    bump_view db.next_commit

  abbrev pub read_tree : Commit → Key → Option (Tree f) → Outcome (Option Value)
  read_tree commit_limit key none = panic
  read_tree commit_limit key (some t) = Ops.read f t commit_limit key

  -- `ViewReader::read` and `ViewReader::cursor`, of a view with this commit limit.
  unfoldable pub read : Db → Commit → Name → Key → Outcome (Option Value)
  read db commit_limit tree key = read_tree commit_limit key (get tree db.trees)

  unfoldable pub cursor : Db → Commit → Name → Outcome Cursor
  cursor db commit_limit tree = elim (get tree db.trees) [
    | none ↦ panic
    | some t ↦ if t.initialized then Cursor.cursor t.index commit_limit else panic
  ]

  -- `Db::sync`: the logs of the trees, up to the first that fails.
  unfoldable pub sync_trees : OrdMap Name (Tree f) → Outcome (Unit {0})
  sync_trees [] = ok tt
  sync_trees ((name, t) ∷ trees) = elim (Ops.sync_tree f t) [
    | ok u ↦ sync_trees trees
    | err e ↦ err e
    | panic ↦ panic
  ]

  unfoldable pub sync : Db → Outcome (Unit {0})
  unfolding sync_trees
  sync db = sync_trees db.trees
