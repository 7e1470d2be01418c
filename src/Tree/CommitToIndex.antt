-- ===== src/Tree/CommitToIndex.antt =====
-- tree.rs: `commit_to_index`.
use block_rust.Base.{ok, err, panic, List, [], ◌∷◌}
use block_rust.Base.Exec.{Exec, pure, ◌>>◌}
use block_rust.Types.{Batch, BatchCommit, Commit}
use block_rust.BatchPlayer.{BatchPlayer, IndexOp, write, delete, delete_range, replay}
use block_rust.Index.Defs.{Index}
use block_rust.Index.Writer
use block_rust.Index.Writer.{Writer, writer, drop}

unfoldable pub apply_op : IndexOp → Exec Writer (Unit {0})
apply_op (write key address) = Writer.write key address
apply_op (delete key address) = Writer.delete key address
apply_op (delete_range start_key end_key address) = Writer.delete_range start_key end_key address

-- The loop over the writes; it leaves by the panic of one of them.
unfoldable pub apply_ops : List IndexOp → Exec Writer (Unit {0})
unfolding apply_op
apply_ops [] = pure tt
apply_ops (op ∷ ops) = do apply_op op; apply_ops ops

-- What a commit of these writes returns and leaves: the writer is dropped on every way out.
unfoldable pub commit_ops : Commit → List IndexOp → Exec Index (Unit {0})
unfolding writer
commit_ops commit ops index = elim (writer index commit) [
  | ok w ↦ let (result, w') = apply_ops ops w in drop result w'
  | err e ↦ (err e, index)
  | panic ↦ (panic, index)
]

-- The whole of `commit_to_index`.
unfoldable pub commit_to_index : BatchPlayer → Batch → BatchCommit → Commit → Exec Index (Unit {0})
unfolding commit_ops
commit_to_index batch_player batch batch_commit commit index =
    elim (replay batch batch_commit batch_player) [
      | ok index_ops ↦ commit_ops commit index_ops index
      | err e ↦ (err e, index)
      | panic ↦ (panic, index)
    ]
