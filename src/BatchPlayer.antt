-- ===== src/BatchPlayer.antt =====
-- batch_player.rs: collects the commands of the open batches, and replays a batch into index writes.
pub mod SavePoints
pub mod Scripts
pub mod Ops
use block_rust.Base.{
  ℕ, not, List, [], ◌∷◌, ◌++◌, leb, ◌==◌, if◌then◌else◌, length, take, Outcome, ok, panic, none,
  some,
}
use block_rust.Base.Exec.{Exec, gets, require, update, ◌>>=◌, ◌>>◌}
use block_rust.Base.Ord.{nat_ord}
use block_rust.OrdMap.{OrdMap, get, contains_key, insert, remove, modify}
use block_rust.Types.{Key, Address, Batch, BatchCommit}
use block_rust.Command.{Command}

pub data SimpleCommand : Type 0 where
  write : Key → Address → SimpleCommand
  delete : Key → Address → SimpleCommand
  delete_range : Key → Key → Address → SimpleCommand
  push_save_point pop_save_point rollback_save_point : SimpleCommand
  ready_commit abort_commit : BatchCommit → SimpleCommand

pub data IndexOp : Type 0 where
  write : Key → Address → IndexOp
  delete : Key → Address → IndexOp
  delete_range : Key → Key → Address → IndexOp

-- `BatchData` is its list of commands.
abbrev pub BatchPlayer : Type 0
BatchPlayer = OrdMap Batch (List SimpleCommand)

-- `BatchPlayer::new`.
abbrev pub new : BatchPlayer
new = []

-- `batches.get_mut(batch).expect("batch").commands.push(c)`.
unfoldable pub push_command : Batch → SimpleCommand → Exec BatchPlayer (Unit {0})
push_command batch c = do
  require_open ← gets (contains_key batch)
  require require_open
  update (modify batch (λ commands. commands ++ c ∷ []))

-- `BatchPlayer::record`.
unfoldable pub record_command : Command → Address → Exec BatchPlayer (Unit {0})
unfolding push_command
record_command (Command.open_batch batch) address = do
  known ← gets (contains_key batch)
  require (not known)
  update (insert batch [])
record_command (Command.write batch key value) address =
    push_command batch (SimpleCommand.write key address)
record_command (Command.delete batch key) address =
    push_command batch (SimpleCommand.delete key address)
record_command (Command.delete_range batch start_key end_key) address =
    push_command batch (SimpleCommand.delete_range start_key end_key address)
record_command (Command.push_save_point batch) address = push_command batch push_save_point
record_command (Command.pop_save_point batch) address = push_command batch pop_save_point
record_command (Command.rollback_save_point batch) address = push_command batch rollback_save_point
record_command (Command.ready_commit batch batch_commit) address =
    push_command batch (ready_commit batch_commit)
record_command (Command.abort_commit batch batch_commit) address =
    push_command batch (abort_commit batch_commit)
record_command (Command.close batch) address = do
  known ← gets (contains_key batch)
  require known
  update (remove batch)

-- `BatchPlayer::emergency_close`.
unfoldable pub emergency_close : Batch → Exec BatchPlayer (Unit {0})
emergency_close batch = do known ← gets (contains_key batch); require known; update (remove batch)

-- The loop of `BatchPlayer::replay` over the commands of the batch: the writes so far, and the
-- lengths that the open save points have saved, the innermost first.
unfoldable pub replay_commands :
    BatchCommit → List IndexOp → List ℕ → List SimpleCommand → Outcome (List IndexOp)
replay_commands batch_commit ops save_points [] = panic
replay_commands batch_commit ops save_points (write key address ∷ rest) =
    replay_commands batch_commit (ops ++ IndexOp.write key address ∷ []) save_points rest
replay_commands batch_commit ops save_points (delete key address ∷ rest) =
    replay_commands batch_commit (ops ++ IndexOp.delete key address ∷ []) save_points rest
replay_commands batch_commit ops save_points (delete_range start_key end_key address ∷ rest) =
    replay_commands batch_commit (ops ++ IndexOp.delete_range start_key end_key address ∷ [])
      save_points rest
replay_commands batch_commit ops save_points (push_save_point ∷ rest) =
    replay_commands batch_commit ops (length ops ∷ save_points) rest
replay_commands batch_commit ops [] (pop_save_point ∷ rest) =
    replay_commands batch_commit ops [] rest
replay_commands batch_commit ops (save_point ∷ outer) (pop_save_point ∷ rest) =
    replay_commands batch_commit ops outer rest
replay_commands batch_commit ops [] (rollback_save_point ∷ rest) = panic
replay_commands batch_commit ops (save_point ∷ outer) (rollback_save_point ∷ rest) =
    let replayed = replay_commands batch_commit (take save_point ops) outer rest in
    if leb save_point (length ops) then replayed else panic
replay_commands batch_commit ops save_points (ready_commit bc ∷ rest) =
    if batch_commit == bc then ok ops else replay_commands batch_commit ops save_points rest
replay_commands batch_commit ops save_points (abort_commit bc ∷ rest) =
    if batch_commit == bc then ok [] else replay_commands batch_commit ops save_points rest

-- `BatchPlayer::replay`.
unfoldable pub replay : Batch → BatchCommit → BatchPlayer → Outcome (List IndexOp)
unfolding replay_commands
replay batch batch_commit player = elim (get batch player) [
  | none ↦ panic
  | some commands ↦ replay_commands batch_commit [] [] commands
]
