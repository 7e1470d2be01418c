-- ===== src/Tests/Trees.antt =====
-- A tree on a log in memory: a batch of one write, its commit and its end.
use block_rust.Base.{◌≡◌, refl, ◌⊎◌, none, some, [], ◌∷◌, arith, true, ok, err, Error, ◌>>=◌, io}
use block_rust.Types.{Address, Batch, Value}
use block_rust.Command.{Command}
use block_rust.LogFile.{LogFile, IsLog}
use block_rust.MemLogFile.{create, append}
use block_rust.OrdMap.{get, contains_key, insert, modify, range_from, range_to}
use block_rust.BatchPlayer.{replay, record_command}
use block_rust.Index.Writer
use block_rust.Index.Writer.{drop, update_keymap, first, last}
use block_rust.Tree.CommitToIndex
use block_rust.Tree.CommitToIndex.{apply_ops}
use block_rust.MemLogFile.Laws.{create-IsLog}
use block_rust.Index.Defs.{key_true_value}
use block_rust.Tree.Ops
use block_rust.Tree.Ops.{Tree}
use block_rust.Tree.Addresses.{IsTree, new-IsTree, append_record-IsTree, commit_to_index-IsTree}
use block_rust.Tree.Closing.{Closed, close-Closed}
use block_rust.Tree.Reads.{read-entry}
use block_rust.Tests.Encoding.{command_codec}

abbrev pub memory : LogFile Command
memory = create command_codec

pub memory-IsLog : IsLog memory
memory-IsLog = create-IsLog command_codec

abbrev pub empty : Tree memory
empty = Ops.skip_init memory (Ops.new memory [])

abbrev pub opened : Tree memory
opened = (Ops.append_record memory (Command.open_batch 1) empty).1

abbrev pub written : Tree memory
written = (Ops.append_record memory (Command.write 1 (7 ∷ []) (8 ∷ 9 ∷ [])) opened).1

abbrev pub ready : Tree memory
ready = (Ops.append_record memory (Command.ready_commit 1 0) written).1

abbrev pub committed : Tree memory
committed = (Ops.commit_to_index memory 1 0 0 ready).1

pub empty-IsTree : IsTree memory memory-IsLog empty
empty-IsTree =
    let h = new-IsTree memory memory-IsLog [] in
    record { events = h.events; is_index = h.is_index; in_log = h.in_log; batches = h.batches }

pub ready-IsTree : IsTree memory memory-IsLog ready
ready-IsTree = append_record-IsTree memory memory-IsLog written (Command.ready_commit 1 0) (
    append_record-IsTree memory memory-IsLog opened (Command.write 1 (7 ∷ []) (8 ∷ 9 ∷ []))
      (append_record-IsTree memory memory-IsLog empty (Command.open_batch 1) empty-IsTree))

committed-IsTree : IsTree memory memory-IsLog committed
committed-IsTree = commit_to_index-IsTree memory memory-IsLog ready 1 0 0 (omega arith) ready-IsTree

append_record-IsTree_example :
    IsTree memory memory-IsLog (Ops.append_record memory (Command.delete 1 (7 ∷ [])) ready).1
append_record-IsTree_example =
    append_record-IsTree memory memory-IsLog ready (Command.delete 1 (7 ∷ [])) ready-IsTree

-- A log that fails to append.
abbrev broken : LogFile Command
broken = record memory { append = λ cmd s. (err io, s) }

abbrev writing : Tree broken
writing = record {
  initialized = true;
  log = written.log;
  batch_player = written.batch_player;
  index = written.index;
}

close-Closed_example :
    ((Ops.close broken 1 writing).0
      ≡ ((LogFile.append broken (Command.close 1) writing.log).0 >>= λ _. ok tt))
    × Closed broken 1 writing (Ops.close broken 1 writing).1
unfolding Ops.append_record record_command contains_key insert modify append
close-Closed_example = close-Closed broken 1 writing refl (λ e. cc)

commit_to_index-IsTree_example :
    IsTree memory memory-IsLog (Ops.commit_to_index memory 1 0 5 ready).1
commit_to_index-IsTree_example =
    commit_to_index-IsTree memory memory-IsLog ready 1 0 5 (omega arith) ready-IsTree

pub committed-initialized : committed.initialized ≡ true
unfolding Ops.commit_to_index Ops.append_record append
committed-initialized = refl

pub ready-limit : ready.index.maybe_next_commit ≡ 0
unfolding Ops.append_record append
ready-limit = refl

pub committed-limit : committed.index.maybe_next_commit ≡ 1
unfolding Ops.commit_to_index CommitToIndex.commit_to_index replay get Ops.append_record append
    record_command contains_key insert modify drop apply_ops Writer.write update_keymap first last
    range_from range_to
committed-limit = refl

read-entry_example :
    ((key_true_value committed.index.state 1 (7 ∷ []) ≡ none)
      × (Ops.read memory committed 1 (7 ∷ []) ≡ ok none))
    ⊎ ((a : Address) × (b : Batch) × (v : Value) × (key_true_value committed.index.state 1 (7 ∷ [])
          ≡ some a)
        × (memory-IsLog.entry committed.log a ≡ some (Command.write b (7 ∷ []) v))
        × ((Ops.read memory committed 1 (7 ∷ []) ≡ ok (some v))
            ⊎ ((e : Error) × (LogFile.read_at memory a committed.log ≡ err e)
                × (Ops.read memory committed 1 (7 ∷ []) ≡ err e))))
read-entry_example =
    read-entry memory memory-IsLog committed 1 (7 ∷ []) committed-IsTree committed-initialized
      (omega (arith, committed-limit))
