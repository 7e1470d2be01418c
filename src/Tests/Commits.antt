-- ===== src/Tests/Commits.antt =====
-- Commits of a database of one tree, by the writer and by the public batch.
use block_rust.Base.{
  ◌⊎◌, Error, ◌≡◌, refl, ◌+◌, some, List, [], ◌∷◌, arith, ok, err, io, true, false,
}
use block_rust.CommitLog
use block_rust.CommitLog.{CommitCommand}
use block_rust.Base.Ord.{bytes_ord, bytes_eq}
use block_rust.LogFile.{LogFile}
use block_rust.MemLogFile.{append}
use block_rust.OrdMap.{get, contains_key, insert, modify, range_from, range_to}
use block_rust.BatchPlayer.{IndexOp, replay, record_command}
use block_rust.Index.Defs.{key_true_value}
use block_rust.Index.Events.{effects}
use block_rust.Index.Writer
use block_rust.Index.Writer.{drop, update_keymap, first, last}
use block_rust.Tree.CommitToIndex
use block_rust.Tree.CommitToIndex.{apply_ops, commit_ops}
use block_rust.Tree.Ops
use block_rust.Tree.Ops.{Tree}
use block_rust.Types.{Key, Address}
use block_rust.Db
use block_rust.Db.{Db, Name, commit}
use block_rust.Db.Steady.{index_of, IsSteady}
use block_rust.Db.Commits.{IsDb}
use block_rust.Db.Visible.{commit-visible}
use block_rust.Db.Progress.{AreReady, commit-succeeds}
use block_rust.Tree.Commits.{all_in_order}
use block_rust.Tree.ReadBack.{one_write, one_write-read}
use block_rust.Imp
use block_rust.Imp.{WriteBatch, ready_trees}
use block_rust.Imp.Failures.{commit-failed, abort-IsSteady}
use block_rust.Imp.Invariant.{WriteBatch-IsDb}
use block_rust.Tests.Trees.{memory, memory-IsLog, empty, empty-IsTree, ready, written}
use block_rust.Tests.Databases.{commits, one_tree, one_tree-IsDb}

committed : (commit memory commits 1 0 one_tree).0 ≡ ok tt
unfolding commit Ops.commit_to_index CommitToIndex.commit_to_index replay get Ops.append_record
    append record_command contains_key insert modify drop apply_ops Writer.write update_keymap first
    last range_from range_to CommitLog.commit
committed = refl

found : get (116 ∷ []) one_tree.trees ≡ some ready
unfolding get bytes_eq
found = refl

commit-visible_example :
    ((commit memory commits 1 0 one_tree).1.view_commit_limit ≡ one_tree.next_commit + 1)
    × (t' : Tree memory) × (get (116 ∷ []) (commit memory commits 1 0 one_tree).1.trees ≡ some t')
    × (ops : List IndexOp) × (replay 1 0 ready.batch_player ≡ ok ops)
    × ((key : Key)
        → key_true_value t'.index.state (one_tree.next_commit + 1) key
          ≡ effects ops key (key_true_value ready.index.state one_tree.next_commit key))
commit-visible_example =
    commit-visible one_tree 1 0 (116 ∷ []) ready one_tree-IsDb (omega arith) committed found

abbrev batch_one : WriteBatch
batch_one = record { inner = 1; trees = (116 ∷ []) ∷ []; closed = false }

WriteBatch-IsDb_example :
    IsDb (Imp.write_batch memory commits batch_one.trees one_tree).1
    × IsDb (Imp.push_save_point memory commits batch_one one_tree).1
    × IsDb (Imp.pop_save_point memory commits batch_one one_tree).1
    × IsDb (Imp.rollback_save_point memory commits batch_one one_tree).1
    × IsDb (Imp.commit memory commits batch_one one_tree).1
    × IsDb (Imp.abort memory commits batch_one one_tree).1
    × IsDb (Imp.close memory commits batch_one one_tree).1
WriteBatch-IsDb_example = WriteBatch-IsDb batch_one one_tree one_tree-IsDb (omega arith)

abort-IsSteady_example :
    IsSteady one_tree (Imp.abort memory commits batch_one one_tree).1
    × IsSteady one_tree (Imp.close memory commits batch_one one_tree).1
abort-IsSteady_example = abort-IsSteady batch_one one_tree

-- A commit log on a device that is full.
abbrev full_device : LogFile CommitCommand
full_device = record commits { append = λ c s. (err io, s) }

abbrev full_db : Db memory full_device
full_db = record (Db.new memory full_device [] []) {
  initialized = true;
  next_batch = 2;
  next_batch_commit = 1;
  trees = (116 ∷ [], written) ∷ [];
}

full : (Imp.commit memory full_device batch_one full_db).0 ≡ err io
unfolding Imp.commit Db.new_batch_commit_number Db.ready_commit commit ready_trees get bytes_eq
    Ops.ready_commit append record_command contains_key insert modify CommitLog.commit
full = refl

commit-failed_example :
    ((tree : Name)
      → index_of tree (Imp.commit memory full_device batch_one full_db).1 ≡ index_of tree full_db)
    × ((Imp.commit memory full_device batch_one full_db).1.view_commit_limit
        ≡ full_db.view_commit_limit)
commit-failed_example = commit-failed batch_one full_db io full

ready_tree : AreReady 1 0 one_tree.trees
unfolding replay get Ops.append_record append record_command contains_key insert modify all_in_order
ready_tree = (
  record {
    ops = IndexOp.write (7 ∷ []) 1 ∷ [];
    replayed = refl;
    order = refl;
    count = omega arith;
  },
  tt,
)

logged : (CommitLog.commit commits 1 0 0 one_tree.commit_log).0 ≡ ok tt
unfolding CommitLog.commit append
logged = refl

commit-succeeds_example : (commit memory commits 1 0 one_tree).0 ≡ ok tt
commit-succeeds_example = commit-succeeds one_tree 1 0 one_tree-IsDb (omega arith) logged ready_tree

one_write_done : (one_write memory memory-IsLog 1 0 0 (7 ∷ []) (8 ∷ []) empty).0 ≡ ok tt
unfolding one_write Ops.open_batch Ops.write Ops.ready_commit Ops.commit_to_index
    CommitToIndex.commit_to_index replay get Ops.append_record append record_command contains_key
    insert modify drop apply_ops Writer.write update_keymap first last range_from range_to
one_write_done = refl

one_write-read_example :
    (Ops.read memory (one_write memory memory-IsLog 1 0 0 (7 ∷ []) (8 ∷ []) empty).1 1 (7 ∷ [])
      ≡ ok (some (8 ∷ [])))
    ⊎ ((a : Address) × (e : Error) × (LogFile.read_at memory a
            (one_write memory memory-IsLog 1 0 0 (7 ∷ []) (8 ∷ []) empty).1.log
          ≡ err e)
        × (Ops.read memory
              (one_write memory memory-IsLog 1 0 0 (7 ∷ []) (8 ∷ []) empty).1
              1
              (7 ∷ [])
            ≡ err e))
one_write-read_example =
    one_write-read memory memory-IsLog 1 0 0 (7 ∷ []) (8 ∷ []) empty empty-IsTree refl (omega arith)
      (omega arith) one_write_done
