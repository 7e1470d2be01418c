-- ===== src/Command.antt =====
-- command.rs: the records of a tree's log.
use block_rust.Types.{Key, Value, Batch, BatchCommit}

pub data Command : Type 0 where
  open_batch : Batch → Command
  write : Batch → Key → Value → Command
  delete : Batch → Key → Command
  delete_range : Batch → Key → Key → Command
  push_save_point pop_save_point rollback_save_point : Batch → Command
  ready_commit abort_commit : Batch → BatchCommit → Command
  close : Batch → Command

-- `Command::batch`.
unfoldable pub batch : Command → Batch
batch (open_batch b) = b
batch (write b k v) = b
batch (delete b k) = b
batch (delete_range b s e) = b
batch (push_save_point b) = b
batch (pop_save_point b) = b
batch (rollback_save_point b) = b
batch (ready_commit b c) = b
batch (abort_commit b c) = b
batch (close b) = b
