-- ===== src/Imp/Failures.antt =====
-- imp.rs: a batch that does not commit changes no index.
use Prim.Native.Nat.{◌-◌}
use block_rust.Base.{
  ◌≡◌, refl, ◌∙◌, true, Option, none, some, List, ◌==◌, u64_mod, Outcome, ok, err, panic, Error,
  Bool-cases, inl, inr, ap,
}
use block_rust.Base.Exec.{continue}
use block_rust.Base.Ord.{bytes_ord}
use block_rust.OrdMap.{get}
use block_rust.Types.{Batch, BatchCommit}
use block_rust.Command.{Command}
use block_rust.CommitLog.{CommitCommand}
use block_rust.LogFile.{LogFile}
use block_rust.Db
use block_rust.Db.{Db, Name, wrapping_next, new_batch_commit_number}
use block_rust.Db.Failures
use block_rust.Db.Steady.{
  IsSteady, index_of, index_in, ready_commit-IsSteady, abort_commit-IsSteady, close-IsSteady,
}
use block_rust.Imp.{WriteBatch, ready_trees, each_attempt, finish_commit, commit, abort, close}
use block_rust.Imp.Loops.{Keeps, bind-Keeps, each_attempt-Keeps, ready_trees-Keeps}

module _ {f : LogFile Command} {g : LogFile CommitCommand} where
  new_number-IsSteady : (db0 : Db f g) → Keeps (IsSteady db0) (new_batch_commit_number f g)
  unfolding new_batch_commit_number
  new_number-IsSteady db0 db h = elim (Bool-cases (db.next_batch_commit == u64_mod - 1)) [
    | inl full ↦ rw full (record { indexes = h.indexes; view = h.view; next = h.next })
    | inr room ↦ rw room (record { indexes = h.indexes; view = h.view; next = h.next })
  ]

  -- All that a commit of the batch may have done before it commits.
  readied :
      (db0 : Db f g) (b : Batch) (bc : BatchCommit) (trees : List Name) (error : Option Error)
      → Keeps
          (IsSteady db0)
          (ready_trees (Db.ready_commit f g b bc) (Db.abort_commit f g b bc) error trees)
  readied db0 b bc trees error =
      ready_trees-Keeps (IsSteady db0) (Db.ready_commit f g b bc) (Db.abort_commit f g b bc) error
        trees (λ tree db h. ready_commit-IsSteady db0 db h b bc tree)
        (λ tree db h. abort_commit-IsSteady db0 db h b bc tree)

  numbered-IsSteady :
      (db : Db f g) (n : BatchCommit) → IsSteady db (record db { next_batch_commit = n })
  numbered-IsSteady db n = record { indexes = λ tree. refl; view = refl; next = refl }

  abbrev numbered : Db f g → Db f g
  numbered db = record db { next_batch_commit = wrapping_next f g db.next_batch_commit }

  -- A commit that fails leaves what it found.
  finish-failed :
      (db0 : Db f g) (b : Batch) (bc : BatchCommit) (e : Error)
      (x : Outcome (Option Error) × Db f g)
      → IsSteady db0 x.1
      → (continue x.0 (finish_commit f g b bc) x.1).0 ≡ err e
      → ((tree : Name)
          → index_of tree (continue x.0 (finish_commit f g b bc) x.1).1 ≡ index_of tree db0)
        × ((continue x.0 (finish_commit f g b bc) x.1).1.view_commit_limit ≡ db0.view_commit_limit)
  unfolding finish_commit
  finish-failed db0 b bc e (ok (some e'), db) h q = (h.indexes, h.view)
  finish-failed db0 b bc e (ok none, db) h q =
      let u = Failures.commit-IsUntouched f g db b bc e q in
      (λ tree. ap (λ ts. index_in (get tree ts)) u.trees ∙ h.indexes tree, u.view ∙ h.view)
  finish-failed db0 b bc e (err e', db) h q = (h.indexes, h.view)
  finish-failed db0 b bc e (panic, db) h q = (h.indexes, h.view)

  -- If the commit of a batch returns an error, because a tree's log or the commit log failed, then no
  -- index of any tree has changed, and neither has the limit of the views.
  pub commit-failed :
      (wb : WriteBatch) (db : Db f g) (e : Error)
      → (commit f g wb db).0 ≡ err e
      → ((tree : Name) → index_of tree (commit f g wb db).1 ≡ index_of tree db)
        × ((commit f g wb db).1.view_commit_limit ≡ db.view_commit_limit)
  unfolding commit new_batch_commit_number
  commit-failed wb db e h = elim (Bool-cases (db.next_batch_commit == u64_mod - 1)) [
    | inl full ↦ rw full (λ tree. refl, refl)
    | inr room ↦ rw room (
        finish-failed db wb.inner db.next_batch_commit e
          (ready_trees (Db.ready_commit f g wb.inner db.next_batch_commit)
            (Db.abort_commit f g wb.inner db.next_batch_commit) none wb.trees (numbered db))
          (readied db wb.inner db.next_batch_commit wb.trees none (numbered db)
            (numbered-IsSteady db (wrapping_next f g db.next_batch_commit)))
          (rw room at h))
  ]

  -- Neither `abort` nor `close` changes an index, the limit of the views or the next commit, whatever
  -- the logs return.
  pub abort-IsSteady :
      (wb : WriteBatch) (db : Db f g)
      → IsSteady db (abort f g wb db).1 × IsSteady db (close f g wb db).1
  unfolding abort close new_batch_commit_number
  abort-IsSteady wb db = (
    bind-Keeps (IsSteady db) (new_batch_commit_number f g)
        (λ bc. each_attempt (Db.abort_commit f g wb.inner bc) wb.trees) (new_number-IsSteady db)
        (λ bc.
          each_attempt-Keeps (IsSteady db) (Db.abort_commit f g wb.inner bc) wb.trees
            (λ tree s h. abort_commit-IsSteady db s h wb.inner bc tree))
        db (numbered-IsSteady db db.next_batch_commit),
    bind-Keeps (IsSteady db) (each_attempt (Db.close f g wb.inner) wb.trees)
        (λ u s. (ok (record wb { closed = true }), s))
        (each_attempt-Keeps (IsSteady db) (Db.close f g wb.inner) wb.trees
          (λ tree s h. close-IsSteady db s h wb.inner tree))
        (λ u s h. h) db (record { indexes = λ tree. refl; view = refl; next = refl }),
  )
