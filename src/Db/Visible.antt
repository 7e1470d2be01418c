-- ===== src/Db/Visible.antt =====
-- basic_db.rs: what a commit that returns a value makes visible.
use mathlib.Core.Path.{subst}
use Prim.Native.Nat.{◌-◌}
use block_rust.Base.{
  ◌+◌, ◌<◌, ◌≡◌, refl, ap, ◌∙◌, inl, inr, some, List, [], ◌∷◌, arith, ◌==◌, ltb, true, false,
  u64_mod, Outcome, ok, err, panic, Bool-cases,
}
use block_rust.Base.Exec.{continue, ◌>>◌}
use block_rust.Base.Ord.{bytes_ord}
use block_rust.OrdMap.{OrdMap, get}
use block_rust.Types.{Key, Batch, BatchCommit, Commit}
use block_rust.Command.{Command}
use block_rust.CommitLog
use block_rust.CommitLog.{CommitCommand}
use block_rust.LogFile.{LogFile}
use block_rust.BatchPlayer.{IndexOp, replay}
use block_rust.Index.Defs.{key_true_value}
use block_rust.Index.Events.{effects}
use block_rust.Tree.Visible.{commit_to_index-returned}
use block_rust.Tree.Ops
use block_rust.Tree.Ops.{Tree}
use block_rust.Db.{Db, Name, bump_view, commit_trees, commit, on_trees, wrapping_next}
use block_rust.Db.Trees.{IsTreeAt, AreTreesAt}
use block_rust.Db.Commits.{IsDb}

module _ {f : LogFile Command} where
  -- The limit above the commit `c` sees the map below it, changed by the writes of the batch.
  pub record IsApplied (b : Batch) (bc : BatchCommit) (c : Commit) (t t' : Tree f) : Type 0 where
    pub ops : List IndexOp
    pub replayed : replay b bc t.batch_player ≡ ok ops
    pub seen :
        (key : Key)
        → key_true_value t'.index.state (c + 1) key
          ≡ effects ops key (key_true_value t.index.state c key)

  -- The loop over the trees goes on only behind a tree that is committed.
  went_on :
      (name : Name) (t' : Tree f) (trees : OrdMap Name (Tree f))
      (x : Outcome (Unit {0}) × OrdMap Name (Tree f)) (r : Outcome (Unit {0}))
      → (elim r as (λ z. Outcome (Unit {0}) × OrdMap Name (Tree f)) [
        | ok u ↦ (x.0, (name, t') ∷ x.1)
        | err e ↦ (err e, (name, t') ∷ trees)
        | panic ↦ (panic, (name, t') ∷ trees)
      ]).0
        ≡ ok tt
      → (r ≡ ok tt)
        × (x.0 ≡ ok tt)
        × ((elim r as (λ z. Outcome (Unit {0}) × OrdMap Name (Tree f)) [
          | ok u ↦ (x.0, (name, t') ∷ x.1)
          | err e ↦ (err e, (name, t') ∷ trees)
          | panic ↦ (panic, (name, t') ∷ trees)
        ]).1
            ≡ (name, t') ∷ x.1)
  went_on name t' trees x (ok tt) h = (refl, h, refl)
  went_on name t' trees x (err e) h = cc
  went_on name t' trees x panic h = cc

  module _ (g : LogFile CommitCommand) (view : Commit) (b : Batch) (bc : BatchCommit) (c : Commit)
      (room : c + 1 < u64_mod) where
    tree-IsApplied :
        (t : Tree f)
        → IsTreeAt view c t
        → (Ops.commit_to_index f b bc c t).0 ≡ ok tt
        → IsApplied b bc c t (Ops.commit_to_index f b bc c t).1
    unfolding Ops.commit_to_index
    tree-IsApplied t h r =
        let (ops, e, seen) =
          commit_to_index-returned h.is_index c t.batch_player b bc h.not_passed room r in
        record { ops = ops; replayed = e; seen = seen }

    commit_trees-IsApplied :
        (trees : OrdMap Name (Tree f))
        → AreTreesAt view c trees
        → (commit_trees f g b bc c trees).0 ≡ ok tt
        → (name : Name) (t : Tree f) → get name trees ≡ some t
        → (t' : Tree f) × (get name (commit_trees f g b bc c trees).1 ≡ some t')
          × IsApplied b bc c t t'
    unfolding commit_trees get
    commit_trees-IsApplied [] h r name t e = absurd (cc)
    commit_trees-IsApplied ((n, u) ∷ trees) h r name t e =
        let u' = (Ops.commit_to_index f b bc c u).1 in
        let (first, rest, front) =
          went_on n u' trees (commit_trees f g b bc c trees) (Ops.commit_to_index f b bc c u).0 r in
        elim (Bool-cases (bytes_ord.eq n name)) [
          | inl hit ↦
              let same : u ≡ t = ground (arith, e) in
              (
                u',
                ap (get name) front ∙ rw hit,
                subst (λ s. IsApplied b bc c s u') same (tree-IsApplied u h.0 first),
              )
          | inr miss ↦
              let (t', found, k) = commit_trees-IsApplied trees h.1 rest name t (rw miss at e) in
              (t', ap (get name) front ∙ rw miss found, k)
        ]

module _ {f : LogFile Command} {g : LogFile CommitCommand} where
  -- The end of a commit, behind the loop over the trees.
  bumped :
      (db : Db f g) (c : Commit) (log : LogFile.State g)
      (x : Outcome (Unit {0}) × OrdMap Name (Tree f))
      → c + 1 < u64_mod
      → (continue x.0
          (λ u. bump_view f g c)
          (record db { next_commit = c + 1; commit_log = log; trees = x.1 })).0
        ≡ ok tt
      → (x.0 ≡ ok tt)
        × ((continue x.0
              (λ u. bump_view f g c)
              (record db { next_commit = c + 1; commit_log = log; trees = x.1 })).1
            ≡ record db {
              next_commit = c + 1;
              commit_log = log;
              trees = x.1;
              view_commit_limit = c + 1;
            })
  unfolding bump_view
  bumped db c log (ok tt, trees) room h =
      let fits : ltb (c + 1) u64_mod ≡ true = ground arith in (refl, rw fits)
  bumped db c log (err e, trees) room h = cc
  bumped db c log (panic, trees) room h = cc

  record Finished (b : Batch) (bc : BatchCommit) (db db' : Db f g) : Type 0 where
    limit : db'.view_commit_limit ≡ db.next_commit + 1
    done : (commit_trees f g b bc db.next_commit db.trees).0 ≡ ok tt
    trees : db'.trees ≡ (commit_trees f g b bc db.next_commit db.trees).1

  logged-Finished :
      (db : Db f g) (b : Batch) (bc : BatchCommit) (x : Outcome (Unit {0}) × LogFile.State g)
      → db.next_commit + 1 < u64_mod
      → (continue x.0
          (λ u. on_trees f g (commit_trees f g b bc db.next_commit) >> bump_view f g db.next_commit)
          (record db { next_commit = db.next_commit + 1; commit_log = x.1 })).0
        ≡ ok tt
      → Finished b bc db
          (continue x.0
            (λ u.
              on_trees f g (commit_trees f g b bc db.next_commit) >> bump_view f g db.next_commit)
            (record db { next_commit = db.next_commit + 1; commit_log = x.1 })).1
  logged-Finished db b bc (ok u, log) room h =
      let (done, e) =
        bumped db db.next_commit log (commit_trees f g b bc db.next_commit db.trees) room h in
      record { limit = ap (λ d. d.view_commit_limit) e; done = done; trees = ap (λ d. d.trees) e }
  logged-Finished db b bc (err e, log) room h = absurd (cc)
  logged-Finished db b bc (panic, log) room h = absurd (cc)

  commit-Finished :
      (db : Db f g) (b : Batch) (bc : BatchCommit)
      → db.next_commit + 1 < u64_mod
      → (commit f g b bc db).0 ≡ ok tt
      → Finished b bc db (commit f g b bc db).1
  unfolding commit
  commit-Finished db b bc room h =
      let wrap : wrapping_next f g db.next_commit ≡ db.next_commit + 1 = ground arith in
      let test : (db.next_commit == u64_mod - 1) ≡ false = ground arith in
      rw (test, wrap)
        (logged-Finished db b bc (CommitLog.commit g b bc db.next_commit db.commit_log) room
          (rw (test, wrap) at h))

  -- Take a database in which the index of each tree stands for a history of writes, has reached the
  -- limit of the views and has not passed the next commit, which is at least that limit and below
  -- 2 ^ 64 - 1. If `commit` returns a value, the new limit of the views is one above the number of the
  -- commit, and for each tree: the tree is still there, its batch player replays the batch to some
  -- writes, and the map that the new limit sees in it is the map that the number of the commit saw
  -- before, changed by all of these writes in their order.
  pub commit-visible :
      (db : Db f g) (b : Batch) (bc : BatchCommit) (name : Name) (t : Tree f)
      → IsDb db
      → db.next_commit + 1 < u64_mod
      → (commit f g b bc db).0 ≡ ok tt
      → get name db.trees ≡ some t
      → ((commit f g b bc db).1.view_commit_limit ≡ db.next_commit + 1)
        × (t' : Tree f) × (get name (commit f g b bc db).1.trees ≡ some t')
        × (ops : List IndexOp) × (replay b bc t.batch_player ≡ ok ops)
        × ((key : Key)
            → key_true_value t'.index.state (db.next_commit + 1) key
              ≡ effects ops key (key_true_value t.index.state db.next_commit key))
  commit-visible db b bc name t h room r e =
      let fin = commit-Finished db b bc room r in
      let (t', found, k) =
        commit_trees-IsApplied g db.view_commit_limit b bc db.next_commit room db.trees h.trees_at
          fin.done name t e in
      (fin.limit, t', ap (get name) fin.trees ∙ found, k.ops, k.replayed, k.seen)
