-- ===== src/Tests/Databases.antt =====
-- A database of one tree, and the commit of its batch.
use block_rust.Base.{ℕ, ◌≡◌, List, [], ◌∷◌, arith, Outcome, true, ok, err, codec}
use block_rust.CommitLog.{CommitCommand}
use block_rust.LogFile.{LogFile}
use block_rust.MemLogFile.{create}
use block_rust.Db
use block_rust.Db.{
  Db, commit, read, open_batch, write, delete, delete_range, push_save_point, pop_save_point,
  rollback_save_point, ready_commit, abort_commit, close,
}
use block_rust.Db.Writers.{writer-IsDb}
use block_rust.Types.{Key, Value, BatchCommit}
use block_rust.Db.Commits.{IsDb, commit-IsDb, read-commit}
use block_rust.Tests.Trees.{memory, ready, ready-IsTree, ready-limit}

abbrev decode : List ℕ → Outcome CommitCommand
decode (b ∷ c ∷ n ∷ []) = ok (record { batch = b; batch_commit = c; commit = n })
decode _ = err codec

abbrev encode : CommitCommand → Outcome (List ℕ)
encode c = ok (c.batch ∷ c.batch_commit ∷ c.commit ∷ [])

pub round_trip : (c : CommitCommand) (bin : List ℕ) → encode c ≡ ok bin → decode bin ≡ ok c
round_trip c bin h = ground (arith, h)

abbrev pub commits : LogFile CommitCommand
commits = create (record { to_vec = encode; from_slice = decode; round_trip = round_trip })

abbrev pub one_tree : Db memory commits
one_tree = record (Db.new memory commits [] []) {
  initialized = true;
  next_batch = 2;
  next_batch_commit = 1;
  trees = (116 ∷ [], ready) ∷ [];
}

pub one_tree-IsDb : IsDb one_tree
one_tree-IsDb = record {
  trees_at = (
    record {
      events = ready-IsTree.events;
      is_index = ready-IsTree.is_index;
      reached = omega arith;
      not_passed = omega (arith, ready-limit);
    },
    tt,
  );
  in_step = omega arith;
}

commit-IsDb_example : IsDb (commit memory commits 1 0 one_tree).1
commit-IsDb_example = commit-IsDb one_tree 1 0 one_tree-IsDb (omega arith)

read-commit_example :
    read memory commits (commit memory commits 1 0 one_tree).1 0 (116 ∷ []) (7 ∷ [])
    ≡ read memory commits one_tree 0 (116 ∷ []) (7 ∷ [])
read-commit_example =
    read-commit one_tree 1 0 0 (116 ∷ []) (7 ∷ []) one_tree-IsDb (omega arith) (omega arith)

writer-IsDb_example :
    IsDb (open_batch memory commits 1 (116 ∷ []) one_tree).1
    × ((key : Key) (value : Value) → IsDb (write memory commits 1 (116 ∷ []) key value one_tree).1)
    × ((key : Key) → IsDb (delete memory commits 1 (116 ∷ []) key one_tree).1)
    × ((start_key end_key : Key)
        → IsDb (delete_range memory commits 1 (116 ∷ []) start_key end_key one_tree).1)
    × IsDb (push_save_point memory commits 1 (116 ∷ []) one_tree).1
    × IsDb (pop_save_point memory commits 1 (116 ∷ []) one_tree).1
    × IsDb (rollback_save_point memory commits 1 (116 ∷ []) one_tree).1
    × ((bc : BatchCommit) → IsDb (ready_commit memory commits 1 bc (116 ∷ []) one_tree).1)
    × ((bc : BatchCommit) → IsDb (abort_commit memory commits 1 bc (116 ∷ []) one_tree).1)
    × IsDb (close memory commits 1 (116 ∷ []) one_tree).1
writer-IsDb_example = writer-IsDb one_tree 1 (116 ∷ []) one_tree-IsDb
