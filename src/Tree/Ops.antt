-- ===== src/Tree/Ops.antt =====
-- tree.rs: `Tree`, `BatchWriter` and `Cursor`, over any log file. A batch writer shares the log, the
-- player and the index with its tree, so its methods act on the tree.
use block_rust.Base.{
  Bool, true, false, Option, none, some, Outcome, ok, err, panic, unexpected_log, if◌then◌else◌,
}
use block_rust.Base.Exec.{Exec, zoom, ◌>>=◌}
use block_rust.Base.Ord.{bytes_ord}
use block_rust.Types.{Key, Value, Batch, BatchCommit, Commit, Address}
use block_rust.Command.{Command}
use block_rust.LogFile.{LogFile}
use block_rust.Log.{read_command}
use block_rust.BatchPlayer
use block_rust.BatchPlayer.{BatchPlayer, record_command, emergency_close}
use block_rust.Index.Defs
use block_rust.Index.Defs.{Index, IndexState}
use block_rust.Index.Cursor
use block_rust.Index.Cursor.{Cursor}
use block_rust.Tree.CommitToIndex

module _ (f : LogFile Command) where
  open f use {State, append, sync}

  pub record Tree : Type 0 where
    pub initialized : Bool
    pub log : State
    pub batch_player : BatchPlayer
    pub index : Index

  -- `Tree::new`, on the state of a log.
  abbrev pub new : State → Tree
  new log = record {
    initialized = false;
    log = log;
    batch_player = BatchPlayer.new;
    index = Defs.new;
  }

  -- `Tree::skip_init`.
  abbrev pub skip_init : Tree → Tree
  skip_init t = record t { initialized = true }

  abbrev pub on_log : {A : Type 0} → Exec State A → Exec Tree A
  on_log = zoom (λ t. t.log) (λ log t. record t { log = log })

  abbrev pub on_player : Exec BatchPlayer (Unit {0}) → Exec Tree (Unit {0})
  on_player = zoom (λ t. t.batch_player) (λ player t. record t { batch_player = player })

  abbrev pub on_index : Exec Index (Unit {0}) → Exec Tree (Unit {0})
  on_index = zoom (λ t. t.index) (λ index t. record t { index = index })

  -- `Tree::batch`: a batch writer is the number of its batch.
  unfoldable pub batch : Tree → Batch → Outcome Batch
  batch t number = if t.initialized then ok number else panic

  -- `Tree::cursor`.
  unfoldable pub cursor : Tree → Commit → Outcome Cursor
  unfolding Cursor.cursor
  cursor t commit_limit = if t.initialized then Cursor.cursor t.index commit_limit else panic

  -- `Tree::sync`. It reads no field but the log.
  unfoldable pub sync_tree : Tree → Outcome (Unit {0})
  sync_tree t = sync t.log

  -- `append_record`.
  unfoldable pub append_record : Command → Exec Tree (Unit {0})
  append_record cmd = do address ← on_log (append cmd); on_player (record_command cmd address)

  -- The methods of `BatchWriter` that log one command.
  unfoldable pub open_batch : Batch → Exec Tree (Unit {0})
  unfolding append_record
  open_batch batch = append_record (Command.open_batch batch)

  unfoldable pub write : Batch → Key → Value → Exec Tree (Unit {0})
  unfolding append_record
  write batch key value = append_record (Command.write batch key value)

  unfoldable pub delete : Batch → Key → Exec Tree (Unit {0})
  unfolding append_record
  delete batch key = append_record (Command.delete batch key)

  unfoldable pub delete_range : Batch → Key → Key → Exec Tree (Unit {0})
  unfolding append_record
  delete_range batch start_key end_key =
      append_record (Command.delete_range batch start_key end_key)

  unfoldable pub push_save_point : Batch → Exec Tree (Unit {0})
  unfolding append_record
  push_save_point batch = append_record (Command.push_save_point batch)

  unfoldable pub pop_save_point : Batch → Exec Tree (Unit {0})
  unfolding append_record
  pop_save_point batch = append_record (Command.pop_save_point batch)

  unfoldable pub rollback_save_point : Batch → Exec Tree (Unit {0})
  unfolding append_record
  rollback_save_point batch = append_record (Command.rollback_save_point batch)

  unfoldable pub ready_commit : Batch → BatchCommit → Exec Tree (Unit {0})
  unfolding append_record
  ready_commit batch batch_commit = append_record (Command.ready_commit batch batch_commit)

  unfoldable pub abort_commit : Batch → BatchCommit → Exec Tree (Unit {0})
  unfolding append_record
  abort_commit batch batch_commit = append_record (Command.abort_commit batch batch_commit)

  -- `BatchWriter::commit_to_index`.
  unfoldable pub commit_to_index : Batch → BatchCommit → Commit → Exec Tree (Unit {0})
  commit_to_index batch batch_commit commit t =
      on_index (CommitToIndex.commit_to_index t.batch_player batch batch_commit commit) t

  -- The end of `BatchWriter::close`: a log that fails still closes the batch in memory.
  unfoldable pub finish_close : Batch → Outcome (Unit {0}) → Exec Tree (Unit {0})
  finish_close batch (ok u) t = (ok u, t)
  finish_close batch (err e) t = (on_player (emergency_close batch) >>= λ _ t'. (err e, t')) t
  finish_close batch panic t = (panic, t)

  -- `BatchWriter::close`.
  unfoldable pub close : Batch → Exec Tree (Unit {0})
  unfolding append_record finish_close
  close batch t = let (res, t') = append_record (Command.close batch) t in finish_close batch res t'

  -- The command that a read of the log returned, as the value of `key`.
  unfoldable pub value_of : Key → Command → Outcome Value
  value_of key (Command.write b log_key value) =
      if bytes_ord.eq key log_key then ok value else panic
  value_of key _ = err unexpected_log

  unfoldable pub read_address : Key → Address → State → Outcome Value
  unfolding value_of
  read_address key addr log = elim (read_command f addr log) [
    | ok cmd ↦ value_of key cmd
    | err e ↦ err e
    | panic ↦ panic
  ]

  -- The value behind what the index returned.
  unfoldable pub value_at : Key → State → Outcome (Option Address) → Outcome (Option Value)
  unfolding read_address
  value_at key log (ok none) = ok none
  value_at key log (ok (some addr)) = elim (read_address key addr log) [
    | ok value ↦ ok (some value)
    | err e ↦ err e
    | panic ↦ panic
  ]
  value_at key log (err e) = err e
  value_at key log panic = panic

  -- `Tree::read`.
  unfoldable pub read : Tree → Commit → Key → Outcome (Option Value)
  unfolding value_at
  read t commit_limit key =
      if t.initialized then value_at key t.log (Defs.read t.index commit_limit key) else panic

  -- `Cursor::value`. The field `value` of the source's cursor is never set, so it is left out.
  unfoldable pub cursor_value : Tree → Cursor → Outcome Value
  unfolding read_address
  cursor_value t c = elim c.current [
    | none ↦ panic
    | some (key, addr) ↦ read_address key addr t.log
  ]
