-- ===== src/CommitLog.antt =====
-- commit_log.rs: the master commit log, a log of `CommitCommand`.
use block_rust.Base.{Bool, Outcome, ok, err, panic, List, [], ◌∷◌}
use block_rust.Base.Exec.{Exec, update, ◌>>=◌}
use block_rust.Types.{Address, Batch, BatchCommit, Commit}
use block_rust.LogFile.{LogFile}

pub record CommitCommand : Type 0 where
  pub batch : Batch
  pub batch_commit : BatchCommit
  pub commit : Commit

abbrev pub without_address : Outcome (CommitCommand × Address) → Outcome CommitCommand
without_address (ok (cmd, a)) = ok cmd
without_address (err e) = err e
without_address panic = panic

-- `CommitLog::replay`, on the items of the stream of its log.
unfoldable pub replay : List (Outcome (CommitCommand × Address)) → List (Outcome CommitCommand)
replay [] = []
replay (r ∷ stream) = without_address r ∷ replay stream

module _ (f : LogFile CommitCommand) where
  open f use {State, append, is_empty}

  unfoldable pub log_is_empty : State → Outcome Bool
  log_is_empty s = is_empty s

  -- `CommitLog::commit`.
  unfoldable pub commit : Batch → BatchCommit → Commit → Exec State (Unit {0})
  commit batch batch_commit number = do
    address ← append (record { batch = batch; batch_commit = batch_commit; commit = number })
    update (λ s. s)
