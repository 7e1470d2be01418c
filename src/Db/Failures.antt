-- ===== src/Db/Failures.antt =====
-- basic_db.rs: a commit that returns an error has changed no tree.
use Prim.Native.Nat.{◌-◌}
use block_rust.Base.{
  ◌≡◌, refl, [], ◌∷◌, arith, ◌==◌, u64_mod, Outcome, ok, err, panic, Error, Bool-cases, inl, inr,
}
use block_rust.Base.Exec.{continue, ◌>>◌}
use block_rust.OrdMap.{OrdMap}
use block_rust.Types.{Batch, BatchCommit, Commit}
use block_rust.Command.{Command}
use block_rust.CommitLog
use block_rust.CommitLog.{CommitCommand}
use block_rust.LogFile.{LogFile}
use block_rust.Tree.NoError.{NoError, continue-NoError, commit_to_index-NoError}
use block_rust.Tree.Ops
use block_rust.Tree.Ops.{Tree}
use block_rust.Db.{Db, Name, bump_view, commit_trees, commit, on_trees, wrapping_next}

module _ (f : LogFile Command) (g : LogFile CommitCommand) where
  tree-NoError :
      (b : Batch) (bc : BatchCommit) (c : Commit) (t : Tree f)
      → NoError (Ops.commit_to_index f b bc c t).0
  unfolding Ops.commit_to_index
  tree-NoError b bc c t = commit_to_index-NoError t.batch_player b bc c t.index

  commit_trees-NoError :
      (b : Batch) (bc : BatchCommit) (c : Commit) (trees : OrdMap Name (Tree f))
      → NoError (commit_trees f g b bc c trees).0
  unfolding commit_trees
  commit_trees-NoError b bc c [] = tt
  commit_trees-NoError b bc c ((name, t) ∷ trees) =
      step (Ops.commit_to_index f b bc c t).0 (Ops.commit_to_index f b bc c t).1
        (commit_trees f g b bc c trees) (tree-NoError b bc c t) (commit_trees-NoError b bc c trees)
    where
      step :
          (r : Outcome (Unit {0})) (t' : Tree f) (x : Outcome (Unit {0}) × OrdMap Name (Tree f))
          → NoError r
          → NoError x.0
          → NoError
              (elim r as (λ x. Outcome (Unit {0}) × OrdMap Name (Tree f)) [
                | ok u ↦ (x.0, (name, t') ∷ x.1)
                | err e ↦ (err e, (name, t') ∷ trees)
                | panic ↦ (panic, (name, t') ∷ trees)
              ]).0
      step (ok u) t' x h k = k
      step (err e) t' x h k = absurd h
      step panic t' x h k = tt

  bump_view-NoError : (c : Commit) (db : Db f g) → NoError (bump_view f g c db).0
  unfolding bump_view
  bump_view-NoError c db = ground arith

  -- The trees and the limit of the views are those of before.
  pub record IsUntouched (db db' : Db f g) : Type 0 where
    pub trees : db'.trees ≡ db.trees
    pub view : db'.view_commit_limit ≡ db.view_commit_limit

  error-absurd : {A : Type 0} (r : Outcome A) (e : Error) → NoError r → r ≡ err e → ⊥
  error-absurd (ok a) e h q = cc
  error-absurd (err x) e h q = h
  error-absurd panic e h q = cc

  logged-IsUntouched :
      (db : Db f g) (b : Batch) (bc : BatchCommit) (n : Commit) (e : Error)
      (x : Outcome (Unit {0}) × LogFile.State g)
      → (continue x.0
          (λ u. on_trees f g (commit_trees f g b bc db.next_commit) >> bump_view f g db.next_commit)
          (record db { next_commit = n; commit_log = x.1 })).0
        ≡ err e
      → IsUntouched db
          (continue x.0
            (λ u.
              on_trees f g (commit_trees f g b bc db.next_commit) >> bump_view f g db.next_commit)
            (record db { next_commit = n; commit_log = x.1 })).1
  logged-IsUntouched db b bc n e (ok u, log) h = absurd (
      error-absurd _ e
        (continue-NoError (commit_trees f g b bc db.next_commit db.trees).0
          (λ u. bump_view f g db.next_commit)
          (record db {
            next_commit = n;
            commit_log = log;
            trees = (commit_trees f g b bc db.next_commit db.trees).1;
          })
          (commit_trees-NoError b bc db.next_commit db.trees)
          (λ u s. bump_view-NoError db.next_commit s))
        h)
  logged-IsUntouched db b bc n e (err x, log) h = record { trees = refl; view = refl }
  logged-IsUntouched db b bc n e (panic, log) h = record { trees = refl; view = refl }

  pub commit-IsUntouched :
      (db : Db f g) (b : Batch) (bc : BatchCommit) (e : Error)
      → (commit f g b bc db).0 ≡ err e
      → IsUntouched db (commit f g b bc db).1
  unfolding commit
  commit-IsUntouched db b bc e h = elim (Bool-cases (db.next_commit == u64_mod - 1)) [
    | inl full ↦ rw (full) (record { trees = refl; view = refl })
    | inr room ↦ rw room (
        logged-IsUntouched db b bc (wrapping_next f g db.next_commit) e
          (CommitLog.commit g b bc db.next_commit db.commit_log) (rw room at h))
  ]
