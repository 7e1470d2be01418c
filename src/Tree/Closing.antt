-- ===== src/Tree/Closing.antt =====
-- tree.rs: the end of a batch, whatever its log does.
use block_rust.Base.{
  ◌≡◌, ◌≢◌, refl, true, none, if◌then◌else◌, ◌==◌, arith, Outcome, ok, err, panic, ◌>>=◌,
}
use block_rust.Base.Ord.{nat_ord}
use block_rust.OrdMap.{get, contains_key, get-remove}
use block_rust.Types.{Batch, Address}
use block_rust.Command.{Command}
use block_rust.LogFile.{LogFile}
use block_rust.BatchPlayer.{record_command, emergency_close}
use block_rust.Tree.Ops
use block_rust.Tree.Ops.{Tree}

module _ (f : LogFile Command) where
  -- Behind the close of a batch: the log is what its append has left, the batch is not open any more,
  -- and all else is as it was.
  pub record Closed (b : Batch) (t t' : Tree f) : Type 0 where
    pub log : t'.log ≡ (LogFile.append f (Command.close b) t.log).1
    pub batches :
        (b' : Batch) → get b' t'.batch_player ≡ (if b == b' then none else get b' t.batch_player)
    pub index : t'.index ≡ t.index
    pub initialized : t'.initialized ≡ t.initialized

  -- Close a batch that is open, with a log whose append of the close does not panic. The close returns
  -- if the append returns an address, and otherwise the error of the append. In both cases the
  -- batch is then not open any more, while each other batch, the index and the initialisation are as they
  -- were, and the log is what the append has left.
  pub close-Closed :
      (b : Batch) (t : Tree f)
      → contains_key b t.batch_player ≡ true
      → (LogFile.append f (Command.close b) t.log).0 ≢ panic
      → ((Ops.close f b t).0 ≡ ((LogFile.append f (Command.close b) t.log).0 >>= λ _. ok tt))
        × Closed b t (Ops.close f b t).1
  unfolding Ops.close Ops.finish_close Ops.append_record record_command emergency_close
  close-Closed b t known h = by_append (LogFile.append f (Command.close b) t.log) refl h
    where
      by_append :
          (x : Outcome Address × LogFile.State f)
          → LogFile.append f (Command.close b) t.log ≡ x
          → x.0 ≢ panic
          → ((Ops.close f b t).0 ≡ ((LogFile.append f (Command.close b) t.log).0 >>= λ _. ok tt))
            × Closed b t (Ops.close f b t).1
      by_append (ok a, log) e k = (
        ground (arith, e, known),
        record {
          log = ground (arith, e, known);
          batches = λ b'. ground (arith, e, known, get-remove b b' t.batch_player);
          index = ground (arith, e, known);
          initialized = ground (arith, e, known);
        },
      )
      by_append (err x, log) e k = (
        ground (arith, e, known),
        record {
          log = ground (arith, e, known);
          batches = λ b'. ground (arith, e, known, get-remove b b' t.batch_player);
          index = ground (arith, e, known);
          initialized = ground (arith, e, known);
        },
      )
      by_append (panic, log) e k = absurd (k refl)
