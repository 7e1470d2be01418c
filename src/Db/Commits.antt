-- ===== src/Db/Commits.antt =====
-- basic_db.rs: what a commit leaves of the trees and the counters, on each way out.
use Prim.Native.Nat.{◌-◌}
use block_rust.Base.{
  ◌+◌, ◌<◌, ◌≤◌, ◌≡◌, refl, true, false, arith, ltb, ◌==◌, u64_mod, Outcome, ok, err, panic,
}
use block_rust.Base.Exec.{continue, ◌>>◌}
use block_rust.Base.Ord.{bytes_ord}
use block_rust.OrdMap.{OrdMap}
use block_rust.Types.{Key, Batch, BatchCommit, Commit}
use block_rust.Command.{Command}
use block_rust.CommitLog
use block_rust.CommitLog.{CommitCommand}
use block_rust.LogFile.{LogFile}
use block_rust.Tree.Ops.{Tree}
use block_rust.Db.{Db, Name, bump_view, commit_trees, commit, on_trees, wrapping_next, read}
use block_rust.Db.Trees.{
  AreTreesAt, AreAfter, IsCommitted, weaken-AreTreesAt, unchanged-AreAfter,
  commit_trees-IsCommitted, get-AreAfter,
}

module _ {f : LogFile Command} {g : LogFile CommitCommand} where
  -- The trees have reached the limit of the views, and have not passed the next commit.
  pub record IsDb (db : Db f g) : Type 0 where
    pub trees_at : AreTreesAt db.view_commit_limit db.next_commit db.trees
    pub in_step : db.view_commit_limit ≤ db.next_commit

  record IsKept (db db' : Db f g) : Type 0 where
    is_db : IsDb db'
    after : AreAfter db.next_commit db.trees db'.trees

  finish :
      (db : Db f g) (log : LogFile.State g) (x : Outcome (Unit {0}) × OrdMap Name (Tree f))
      → IsDb db
      → db.next_commit + 1 < u64_mod
      → IsCommitted db.view_commit_limit db.next_commit db.trees x
      → IsKept db
          (continue x.0
            (λ u. bump_view f g db.next_commit)
            (record db { next_commit = db.next_commit + 1; commit_log = log; trees = x.1 })).1
  unfolding bump_view
  finish db log (ok u, trees) h room k =
      let fits : ltb (db.next_commit + 1) u64_mod ≡ true = ground arith in
      rw fits (record {
        is_db = record { trees_at = k.done refl; in_step = omega arith };
        after = k.after;
      })
  finish db log (err e, trees) h room k = record {
    is_db = record { trees_at = k.trees_at; in_step = omega (arith, h.in_step) };
    after = k.after;
  }
  finish db log (panic, trees) h room k = record {
    is_db = record { trees_at = k.trees_at; in_step = omega (arith, h.in_step) };
    after = k.after;
  }

  logged :
      (db : Db f g) (b : Batch) (bc : BatchCommit) (x : Outcome (Unit {0}) × LogFile.State g)
      → IsDb db
      → db.next_commit + 1 < u64_mod
      → IsKept db
          (continue x.0
            (λ u.
              on_trees f g (commit_trees f g b bc db.next_commit) >> bump_view f g db.next_commit)
            (record db { next_commit = db.next_commit + 1; commit_log = x.1 })).1
  logged db b bc (ok u, log) h room =
      finish db log (commit_trees f g b bc db.next_commit db.trees) h room (
        commit_trees-IsCommitted g db.view_commit_limit b bc db.next_commit db.trees room
          h.trees_at)
  logged db b bc (err e, log) h room = record {
    is_db = record {
      trees_at = weaken-AreTreesAt db.view_commit_limit db.next_commit db.trees h.trees_at;
      in_step = omega (arith, h.in_step);
    };
    after = unchanged-AreAfter db.view_commit_limit db.next_commit db.trees room h.trees_at;
  }
  logged db b bc (panic, log) h room = record {
    is_db = record {
      trees_at = weaken-AreTreesAt db.view_commit_limit db.next_commit db.trees h.trees_at;
      in_step = omega (arith, h.in_step);
    };
    after = unchanged-AreAfter db.view_commit_limit db.next_commit db.trees room h.trees_at;
  }

  commit-IsKept :
      (db : Db f g) (b : Batch) (bc : BatchCommit)
      → IsDb db
      → db.next_commit + 1 < u64_mod
      → IsKept db (commit f g b bc db).1
  unfolding commit
  commit-IsKept db b bc h room =
      let wrap : wrapping_next f g db.next_commit ≡ db.next_commit + 1 = ground arith in
      let test : (db.next_commit == u64_mod - 1) ≡ false = ground arith in
      rw (test, wrap) (logged db b bc (CommitLog.commit g b bc db.next_commit db.commit_log) h room)

  -- Take a database in which the index of each tree stands for a history of writes, has reached the
  -- limit of the views and has not passed the next commit, and the limit is at most the next commit.
  -- If the next commit is below 2 ^ 64 - 1, all of this holds after `commit`, whatever it returns.
  pub commit-IsDb :
      (db : Db f g) (b : Batch) (bc : BatchCommit)
      → IsDb db
      → db.next_commit + 1 < u64_mod
      → IsDb (commit f g b bc db).1
  commit-IsDb db b bc h room = (commit-IsKept db b bc h room).is_db

  -- Take a database in which the index of each tree stands for a history of writes, has reached the
  -- limit of the views and has not passed the next commit, which is at least that limit and below
  -- 2 ^ 64 - 1. A view whose limit is at most that of the views reads the same, for each tree and key,
  -- before and after a `commit` of any batch, whatever the commit returns.
  pub read-commit :
      (db : Db f g) (b : Batch) (bc : BatchCommit) (limit : Commit) (tree : Name) (key : Key)
      → IsDb db
      → db.next_commit + 1 < u64_mod
      → limit ≤ db.view_commit_limit
      → read f g (commit f g b bc db).1 limit tree key ≡ read f g db limit tree key
  unfolding read
  read-commit db b bc limit tree key h room old =
      get-AreAfter g db.view_commit_limit limit db.next_commit tree key db.trees
        (commit f g b bc db).1.trees h.trees_at (commit-IsKept db b bc h room).after old
        (omega (arith, old, h.in_step))
