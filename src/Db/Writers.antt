-- ===== src/Db/Writers.antt =====
-- basic_db.rs: the methods of a writer on one tree keep the database in step.
use block_rust.Base.{
  ◌≡◌, refl, arith, Outcome, ok, err, panic, some, [], ◌∷◌, Bool-cases, Option-cases, ◌∙◌, inl, inr,
}
use block_rust.Base.Exec.{Exec, continue}
use block_rust.Base.Ord.{bytes_ord}
use block_rust.OrdMap.{OrdMap, get, insert}
use block_rust.Types.{Address, Key, Value, Batch, BatchCommit, Commit}
use block_rust.Command.{Command}
use block_rust.CommitLog.{CommitCommand}
use block_rust.LogFile.{LogFile}
use block_rust.BatchPlayer.{record_command, emergency_close}
use block_rust.Tree.Ops
use block_rust.Tree.Ops.{Tree}
use block_rust.Db.{
  Db, Name, on_tree, on_found, put_tree, open_batch, write, delete, delete_range, push_save_point,
  pop_save_point, rollback_save_point, ready_commit, abort_commit, close,
}
use block_rust.Db.Trees.{IsTreeAt, AreTreesAt}
use block_rust.Db.Commits.{IsDb}

module _ {f : LogFile Command} where
  -- A command of a writer leaves the index alone.
  pub append_record-index :
      (cmd : Command) (t : Tree f) → (Ops.append_record f cmd t).1.index ≡ t.index
  unfolding Ops.append_record
  append_record-index cmd t = go (LogFile.append f cmd t.log).0 (LogFile.append f cmd t.log).1
    where
      go :
          (r : Outcome Address) (log : LogFile.State f)
          → (continue r
              (λ a. Ops.on_player f (record_command cmd a))
              (record t { log = log })).1.index
            ≡ t.index
      go (ok a) log = refl
      go (err e) log = refl
      go panic log = refl

  settle-index :
      (r : Outcome (Unit {0})) (x : Outcome (Unit {0})) (t : Tree f)
      → (continue r (λ _ t'. (x, t')) t).1.index ≡ t.index
  settle-index (ok u) x t = refl
  settle-index (err e) x t = refl
  settle-index panic x t = refl

  finish_close-index :
      (b : Batch) (r : Outcome (Unit {0})) (t : Tree f)
      → (Ops.finish_close f b r t).1.index ≡ t.index
  unfolding Ops.finish_close
  finish_close-index b (ok u) t = refl
  finish_close-index b (err e) t =
      settle-index (emergency_close b t.batch_player).0 (err e)
        (record t { batch_player = (emergency_close b t.batch_player).1 })
  finish_close-index b panic t = refl

  pub close-index : (b : Batch) (t : Tree f) → (Ops.close f b t).1.index ≡ t.index
  unfolding Ops.close
  close-index b t =
      finish_close-index b (Ops.append_record f (Command.close b) t).0
        (Ops.append_record f (Command.close b) t).1
      ∙ append_record-index (Command.close b) t

  insert-AreTreesAt :
      (view next : Commit) (name : Name) (t : Tree f) (trees : OrdMap Name (Tree f))
      → IsTreeAt view next t
      → AreTreesAt view next trees
      → AreTreesAt view next (insert name t trees)
  unfolding insert
  insert-AreTreesAt view next name t [] h hs = (h, tt)
  insert-AreTreesAt view next name t ((n, u) ∷ trees) h hs =
      ground (arith, hs.0, hs.1, h, insert-AreTreesAt view next name t trees h hs.1)

  get-AreTreesAt :
      (view next : Commit) (name : Name) (t : Tree f) (trees : OrdMap Name (Tree f))
      → AreTreesAt view next trees
      → get name trees ≡ some t
      → IsTreeAt view next t
  unfolding get
  get-AreTreesAt view next name t [] h e = cc
  get-AreTreesAt view next name t ((n, u) ∷ trees) h e = elim (Bool-cases (bytes_ord.eq n name)) [
    | inl hit ↦ let same : u ≡ t = ground (arith, hit) in rw (← same) h.0
    | inr miss ↦ get-AreTreesAt view next name t trees h.1 (ground (arith, miss))
  ]

  same-IsTreeAt :
      (view next : Commit) (t t' : Tree f)
      → IsTreeAt view next t
      → t'.index ≡ t.index
      → IsTreeAt view next t'
  same-IsTreeAt view next t t' h e = record {
    events = h.events;
    is_index = rw e h.is_index;
    reached = rw e h.reached;
    not_passed = rw e h.not_passed;
  }

module _ {f : LogFile Command} {g : LogFile CommitCommand} where
  put_tree-IsDb :
      (db : Db f g) (name : Name) (x : Outcome (Unit {0}) × Tree f)
      → IsDb db
      → IsTreeAt db.view_commit_limit db.next_commit x.1
      → IsDb (put_tree f g name x db).1
  unfolding put_tree
  put_tree-IsDb db name (r, t) h k = record {
    trees_at = insert-AreTreesAt db.view_commit_limit db.next_commit name t db.trees k h.trees_at;
    in_step = h.in_step;
  }

  on_tree-IsDb :
      (db : Db f g) (name : Name) (m : Exec (Tree f) (Unit {0}))
      → ((t : Tree f) → (m t).1.index ≡ t.index)
      → IsDb db
      → IsDb (on_tree f g name m db).1
  unfolding on_tree on_found
  on_tree-IsDb db name m same h = elim (Option-cases (get name db.trees)) [
    | inl e ↦ rw e h
    | inr (t, e) ↦ rw e (
        put_tree-IsDb db name (m t) h (
          same-IsTreeAt db.view_commit_limit db.next_commit t (m t).1
            (get-AreTreesAt db.view_commit_limit db.next_commit name t db.trees h.trees_at e)
            (same t)))
  ]

  logged-IsDb :
      (db : Db f g) (name : Name) (cmd : Command)
      → IsDb db
      → IsDb (on_tree f g name (Ops.append_record f cmd) db).1
  logged-IsDb db name cmd h =
      on_tree-IsDb db name (Ops.append_record f cmd) (append_record-index cmd) h

  -- Take a database in which the index of each tree stands for a history of writes, has reached the
  -- limit of the views and has not passed the next commit, and the limit is at most the next commit.
  -- All of this holds after each method of a writer but `commit`, whatever it returns.
  pub writer-IsDb :
      (db : Db f g) (b : Batch) (tree : Name)
      → IsDb db
      → IsDb (open_batch f g b tree db).1
        × ((key : Key) (value : Value) → IsDb (write f g b tree key value db).1)
        × ((key : Key) → IsDb (delete f g b tree key db).1)
        × ((start_key end_key : Key) → IsDb (delete_range f g b tree start_key end_key db).1)
        × IsDb (push_save_point f g b tree db).1
        × IsDb (pop_save_point f g b tree db).1
        × IsDb (rollback_save_point f g b tree db).1
        × ((bc : BatchCommit) → IsDb (ready_commit f g b bc tree db).1)
        × ((bc : BatchCommit) → IsDb (abort_commit f g b bc tree db).1)
        × IsDb (close f g b tree db).1
  unfolding open_batch write delete delete_range push_save_point pop_save_point rollback_save_point
      ready_commit abort_commit close Ops.open_batch Ops.write Ops.delete Ops.delete_range
      Ops.push_save_point Ops.pop_save_point Ops.rollback_save_point Ops.ready_commit
      Ops.abort_commit
  writer-IsDb db b tree h = (
    logged-IsDb db tree (Command.open_batch b) h,
    λ key value. logged-IsDb db tree (Command.write b key value) h,
    λ key. logged-IsDb db tree (Command.delete b key) h,
    λ start_key end_key. logged-IsDb db tree (Command.delete_range b start_key end_key) h,
    logged-IsDb db tree (Command.push_save_point b) h,
    logged-IsDb db tree (Command.pop_save_point b) h,
    logged-IsDb db tree (Command.rollback_save_point b) h,
    λ bc. logged-IsDb db tree (Command.ready_commit b bc) h,
    λ bc. logged-IsDb db tree (Command.abort_commit b bc) h,
    on_tree-IsDb db tree (Ops.close f b) (close-index b) h,
  )
