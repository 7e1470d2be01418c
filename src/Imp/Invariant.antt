-- ===== src/Imp/Invariant.antt =====
-- imp.rs: the operations of a batch on all trees keep the database in step.
use Prim.Native.Nat.{◌-◌}
use block_rust.Base.{
  ◌+◌, ◌<◌, ◌≡◌, refl, ◌∙◌, true, Option, none, some, arith, ◌==◌, u64_mod, Outcome, ok, err, panic,
  Error, Bool-cases, inl, inr,
}
use block_rust.Base.Exec.{continue}
use block_rust.Base.Ord.{bytes_ord}
use block_rust.Types.{Batch, BatchCommit}
use block_rust.Command.{Command}
use block_rust.CommitLog.{CommitCommand}
use block_rust.LogFile.{LogFile}
use block_rust.Db
use block_rust.Db.{Db, Name, wrapping_next, new_batch_commit_number}
use block_rust.Db.Commits
use block_rust.Db.Commits.{IsDb}
use block_rust.Db.Steady.{ready_commit-IsSteady, abort_commit-IsSteady}
use block_rust.Db.Writers.{writer-IsDb}
use block_rust.Imp.{
  WriteBatch, ready_trees, each, each_attempt, write_batch, push_save_point, pop_save_point,
  rollback_save_point, finish_commit, commit, abort, close,
}
use block_rust.Imp.Loops.{Keeps, bind-Keeps, each-Keeps, each_attempt-Keeps, ready_trees-Keeps}

module _ {f : LogFile Command} {g : LogFile CommitCommand} where
  -- The state of a batch before its commit: in step, and with the next commit of `db0`.
  record IsBefore (db0 db : Db f g) : Type 0 where
    is_db : IsDb db
    next : db.next_commit ≡ db0.next_commit

  new_number-IsBefore : (db0 : Db f g) → Keeps (IsBefore db0) (new_batch_commit_number f g)
  unfolding new_batch_commit_number
  new_number-IsBefore db0 db h = elim (Bool-cases (db.next_batch_commit == u64_mod - 1)) [
    | inl full ↦ rw full (record {
      is_db = record { trees_at = h.is_db.trees_at; in_step = h.is_db.in_step };
      next = h.next;
    })
    | inr room ↦ rw room (record {
      is_db = record { trees_at = h.is_db.trees_at; in_step = h.is_db.in_step };
      next = h.next;
    })
  ]

  ready-IsBefore :
      (db0 : Db f g) (b : Batch) (bc : BatchCommit) (tree : Name)
      → Keeps (IsBefore db0) (Db.ready_commit f g b bc tree)
  ready-IsBefore db0 b bc tree db h = record {
    is_db = (writer-IsDb db b tree h.is_db).7 bc;
    next =
        (ready_commit-IsSteady db db (record { indexes = λ t. refl; view = refl; next = refl }) b bc
          tree).next
        ∙ h.next;
  }

  abort-IsBefore :
      (db0 : Db f g) (b : Batch) (bc : BatchCommit) (tree : Name)
      → Keeps (IsBefore db0) (Db.abort_commit f g b bc tree)
  abort-IsBefore db0 b bc tree db h = record {
    is_db = (writer-IsDb db b tree h.is_db).8 bc;
    next =
        (abort_commit-IsSteady db db (record { indexes = λ t. refl; view = refl; next = refl }) b bc
          tree).next
        ∙ h.next;
  }

  finish-IsDb :
      (db0 : Db f g) (b : Batch) (bc : BatchCommit) (x : Outcome (Option Error) × Db f g)
      → db0.next_commit + 1 < u64_mod
      → IsBefore db0 x.1
      → IsDb (continue x.0 (finish_commit f g b bc) x.1).1
  unfolding finish_commit
  finish-IsDb db0 b bc (ok (some e), db) room h = h.is_db
  finish-IsDb db0 b bc (ok none, db) room h =
      Commits.commit-IsDb db b bc h.is_db (omega (arith, h.next))
  finish-IsDb db0 b bc (err e, db) room h = h.is_db
  finish-IsDb db0 b bc (panic, db) room h = h.is_db

  commit-IsDb :
      (wb : WriteBatch) (db : Db f g)
      → IsDb db
      → db.next_commit + 1 < u64_mod
      → IsDb (commit f g wb db).1
  unfolding commit
  commit-IsDb wb db h room =
      go (new_batch_commit_number f g db).0 (new_batch_commit_number f g db).1
        (new_number-IsBefore db db (record { is_db = h; next = refl }))
    where
      go :
          (r : Outcome BatchCommit) (s : Db f g)
          → IsBefore db s
          → IsDb
              (continue r
                (λ bc s'.
                  continue
                    (ready_trees
                      (Db.ready_commit f g wb.inner bc)
                      (Db.abort_commit f g wb.inner bc)
                      none
                      wb.trees
                      s').0
                    (finish_commit f g wb.inner bc)
                    (ready_trees
                      (Db.ready_commit f g wb.inner bc)
                      (Db.abort_commit f g wb.inner bc)
                      none
                      wb.trees
                      s').1)
                s).1
      go (ok bc) s k =
          finish-IsDb db wb.inner bc
            (ready_trees (Db.ready_commit f g wb.inner bc) (Db.abort_commit f g wb.inner bc) none
              wb.trees s)
            room
            (ready_trees-Keeps (IsBefore db) (Db.ready_commit f g wb.inner bc)
              (Db.abort_commit f g wb.inner bc) none wb.trees (ready-IsBefore db wb.inner bc)
              (abort-IsBefore db wb.inner bc) s k)
      go (err e) s k = k.is_db
      go panic s k = k.is_db

  new_number-IsDb : Keeps IsDb (new_batch_commit_number f g)
  new_number-IsDb db h = (new_number-IsBefore db db (record { is_db = h; next = refl })).is_db

  batch-IsDb : Keeps IsDb (Db.batch f g)
  unfolding Db.batch
  batch-IsDb db h = elim (Bool-cases db.initialized) [
    | inr off ↦ rw off (record { trees_at = h.trees_at; in_step = h.in_step })
    | inl on ↦ elim (Bool-cases (db.next_batch == u64_mod - 1)) [
      | inl full ↦ rw (on, full) (record { trees_at = h.trees_at; in_step = h.in_step })
      | inr room ↦ rw (on, room) (record { trees_at = h.trees_at; in_step = h.in_step })
    ]
  ]

  -- Take a database in which the index of each tree stands for a history of writes, has reached the
  -- limit of the views and has not passed the next commit, which is at least that limit and below
  -- 2 ^ 64 - 1. All but the bound hold after each operation of a batch: its opening, its save points,
  -- its commit, its abort and its end, whatever these return.
  pub WriteBatch-IsDb :
      (wb : WriteBatch) (db : Db f g)
      → IsDb db
      → db.next_commit + 1 < u64_mod
      → IsDb (write_batch f g wb.trees db).1
        × IsDb (push_save_point f g wb db).1
        × IsDb (pop_save_point f g wb db).1
        × IsDb (rollback_save_point f g wb db).1
        × IsDb (commit f g wb db).1
        × IsDb (abort f g wb db).1
        × IsDb (close f g wb db).1
  unfolding write_batch push_save_point pop_save_point rollback_save_point abort close
  WriteBatch-IsDb wb db h room = (
    bind-Keeps IsDb (Db.batch f g) _ batch-IsDb
        (λ b.
          bind-Keeps IsDb (each (Db.open_batch f g b) wb.trees) _
            (each-Keeps IsDb (Db.open_batch f g b) wb.trees
              (λ tree s k. (writer-IsDb s b tree k).0))
            (λ u s k. k))
        db h,
    each-Keeps IsDb (Db.push_save_point f g wb.inner) wb.trees
        (λ tree s k. (writer-IsDb s wb.inner tree k).4) db h,
    each-Keeps IsDb (Db.pop_save_point f g wb.inner) wb.trees
        (λ tree s k. (writer-IsDb s wb.inner tree k).5) db h,
    each-Keeps IsDb (Db.rollback_save_point f g wb.inner) wb.trees
        (λ tree s k. (writer-IsDb s wb.inner tree k).6) db h,
    commit-IsDb wb db h room,
    bind-Keeps IsDb (new_batch_commit_number f g)
        (λ bc. each_attempt (Db.abort_commit f g wb.inner bc) wb.trees) new_number-IsDb
        (λ bc.
          each_attempt-Keeps IsDb (Db.abort_commit f g wb.inner bc) wb.trees
            (λ tree s k. (writer-IsDb s wb.inner tree k).8 bc))
        db h,
    bind-Keeps IsDb (each_attempt (Db.close f g wb.inner) wb.trees)
        (λ u s. (ok (record wb { closed = true }), s))
        (each_attempt-Keeps IsDb (Db.close f g wb.inner) wb.trees
          (λ tree s k. (writer-IsDb s wb.inner tree k).9))
        (λ u s k. k) db h,
  )
