-- ===== src/Db/Progress.antt =====
-- basic_db.rs: a commit succeeds where nothing stands against it.
use Prim.Native.Nat.{◌-◌}
use block_rust.Base.{
  ◌+◌, ◌<◌, ◌≡◌, refl, true, false, List, [], ◌∷◌, arith, ltb, ◌==◌, u32_mod, u64_mod, length, ok,
}
use block_rust.Base.Ord.{bytes_ord}
use block_rust.OrdMap.{OrdMap}
use block_rust.Types.{Batch, BatchCommit, Commit}
use block_rust.Command.{Command}
use block_rust.CommitLog
use block_rust.CommitLog.{CommitCommand}
use block_rust.LogFile.{LogFile}
use block_rust.BatchPlayer.{IndexOp, replay}
use block_rust.Tree.CommitToIndex
use block_rust.Tree.Commits.{all_in_order}
use block_rust.Tree.CommitOps.{commit_ops-ok}
use block_rust.Tree.Ops
use block_rust.Tree.Ops.{Tree}
use block_rust.Db.{Db, Name, bump_view, commit_trees, commit, wrapping_next}
use block_rust.Db.Trees.{IsTreeAt, AreTreesAt}
use block_rust.Db.Commits.{IsDb}

module _ {f : LogFile Command} where
  -- The batch replays to writes whose ranges are in order and that a `u32` counts.
  pub record IsReady (b : Batch) (bc : BatchCommit) (t : Tree f) : Type 0 where
    pub ops : List IndexOp
    pub replayed : replay b bc t.batch_player ≡ ok ops
    pub order : all_in_order ops ≡ true
    pub count : length ops < u32_mod

  abbrev pub AreReady : Batch → BatchCommit → OrdMap Name (Tree f) → Type 0
  AreReady b bc [] = Unit
  AreReady b bc ((name, t) ∷ trees) = IsReady b bc t × AreReady b bc trees

  tree-ok :
      (view : Commit) (b : Batch) (bc : BatchCommit) (c : Commit) (t : Tree f)
      → c + 1 < u64_mod
      → IsTreeAt view c t
      → IsReady b bc t
      → (Ops.commit_to_index f b bc c t).0 ≡ ok tt
  unfolding Ops.commit_to_index CommitToIndex.commit_to_index
  tree-ok view b bc c t room h r =
      let (index, e, k, n) = commit_ops-ok h.is_index c r.ops h.not_passed r.order r.count room in
      rw (r.replayed, CommitToIndex.commit_to_index, e)

  commit_trees-ok :
      (g : LogFile CommitCommand) (view : Commit) (b : Batch) (bc : BatchCommit) (c : Commit)
      (trees : OrdMap Name (Tree f))
      → c + 1 < u64_mod
      → AreTreesAt view c trees
      → AreReady b bc trees
      → (commit_trees f g b bc c trees).0 ≡ ok tt
  unfolding commit_trees
  commit_trees-ok g view b bc c [] room h r = refl
  commit_trees-ok g view b bc c ((name, t) ∷ trees) room h r =
      rw (tree-ok view b bc c t room h.0 r.0, commit_trees)
        (commit_trees-ok g view b bc c trees room h.1 r.1)

module _ {f : LogFile Command} {g : LogFile CommitCommand} where
  -- Take a database in which the index of each tree stands for a history of writes, has reached the
  -- limit of the views and has not passed the next commit, which is at least that limit and below
  -- 2 ^ 64 - 1. If the commit log takes the record of the commit, and in each tree the batch replays
  -- to less than 2 ^ 32 writes whose ranges are in order, then `commit` returns a value.
  pub commit-succeeds :
      (db : Db f g) (b : Batch) (bc : BatchCommit)
      → IsDb db
      → db.next_commit + 1 < u64_mod
      → (CommitLog.commit g b bc db.next_commit db.commit_log).0 ≡ ok tt
      → AreReady b bc db.trees
      → (commit f g b bc db).0 ≡ ok tt
  unfolding commit bump_view
  commit-succeeds db b bc h room logged ready =
      let wrap : wrapping_next f g db.next_commit ≡ db.next_commit + 1 = ground arith in
      let test : (db.next_commit == u64_mod - 1) ≡ false = ground arith in
      let fits : ltb (db.next_commit + 1) u64_mod ≡ true = ground arith in
      let up : ltb db.view_commit_limit (db.next_commit + 1) ≡ true = ground (arith, h.in_step) in
      let done =
        commit_trees-ok g db.view_commit_limit b bc db.next_commit db.trees room h.trees_at ready in
      rw (test, wrap, logged, done, fits, up)
