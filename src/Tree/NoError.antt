-- ===== src/Tree/NoError.antt =====
-- tree.rs, batch_player.rs, index.rs: a commit to an index succeeds or panics, and returns no error.
use block_rust.Base.{
  ℕ, List, [], ◌∷◌, ◌++◌, arith, leb, ◌==◌, length, take, u64_mod, checked_add, Outcome, ok, err,
  panic, Bool-cases, Option-cases, inl, inr, if◌then◌else◌, Bool, true, false,
}
use block_rust.Base.Exec.{Exec, continue}
use block_rust.Base.Ord.{nat_ord, bytes_ord}
use block_rust.OrdMap.{get}
use block_rust.Types.{Batch, BatchCommit, Commit}
use block_rust.BatchPlayer.{
  BatchPlayer, SimpleCommand, IndexOp, push_save_point, pop_save_point, rollback_save_point,
  ready_commit, abort_commit, replay_commands, replay,
}
use block_rust.Index.Defs.{Entry, Index, written, deleted}
use block_rust.Index.Writer
use block_rust.Index.Writer.{Writer, writer, drop}
use block_rust.Index.Points.{update_keymap-Appends}
use block_rust.Tree.CommitToIndex
use block_rust.Tree.CommitToIndex.{apply_op, apply_ops, commit_ops}

abbrev pub NoError {ℓ} : {A : Type ℓ} → Outcome A → Type 0
NoError (ok a) = Unit
NoError (err e) = ⊥
NoError panic = Unit

pub if-NoError :
    {A : Type 0} (b : Bool) (x y : Outcome A) → NoError x → NoError y → NoError (if b then x else y)
if-NoError true x y h k = h
if-NoError false x y h k = k

pub continue-NoError :
    {S A B : Type 0} (r : Outcome A) (next : A → Exec S B) (s : S)
    → NoError r
    → ((a : A) (s : S) → NoError (next a s).0)
    → NoError (continue r next s).0
continue-NoError (ok a) next s h k = k a s
continue-NoError (err e) next s h k = absurd h
continue-NoError panic next s h k = tt

replay_commands-NoError :
    (bc : BatchCommit) (ops : List IndexOp) (ns : List ℕ) (cs : List SimpleCommand)
    → NoError (replay_commands bc ops ns cs)
unfolding replay_commands
replay_commands-NoError bc ops ns [] = tt
replay_commands-NoError bc ops ns (SimpleCommand.write k a ∷ cs) =
    replay_commands-NoError bc (ops ++ IndexOp.write k a ∷ []) ns cs
replay_commands-NoError bc ops ns (SimpleCommand.delete k a ∷ cs) =
    replay_commands-NoError bc (ops ++ IndexOp.delete k a ∷ []) ns cs
replay_commands-NoError bc ops ns (SimpleCommand.delete_range s e a ∷ cs) =
    replay_commands-NoError bc (ops ++ IndexOp.delete_range s e a ∷ []) ns cs
replay_commands-NoError bc ops ns (push_save_point ∷ cs) =
    replay_commands-NoError bc ops (length ops ∷ ns) cs
replay_commands-NoError bc ops [] (pop_save_point ∷ cs) = replay_commands-NoError bc ops [] cs
replay_commands-NoError bc ops (n ∷ ns) (pop_save_point ∷ cs) = replay_commands-NoError bc ops ns cs
replay_commands-NoError bc ops [] (rollback_save_point ∷ cs) = tt
replay_commands-NoError bc ops (n ∷ ns) (rollback_save_point ∷ cs) =
    if-NoError (leb n (length ops)) _ _ (replay_commands-NoError bc (take n ops) ns cs) tt
replay_commands-NoError bc ops ns (ready_commit c ∷ cs) =
    if-NoError (bc == c) _ _ tt (replay_commands-NoError bc ops ns cs)
replay_commands-NoError bc ops ns (abort_commit c ∷ cs) =
    if-NoError (bc == c) _ _ tt (replay_commands-NoError bc ops ns cs)

replay-NoError :
    (b : Batch) (bc : BatchCommit) (player : BatchPlayer) → NoError (replay b bc player)
unfolding replay
replay-NoError b bc player = elim (Option-cases (get b player)) [
  | inl e ↦ rw (e, NoError) tt
  | inr (cs, e) ↦ rw (e, NoError) (replay_commands-NoError bc [] [] cs)
]

apply_op-NoError : (op : IndexOp) (w : Writer) → NoError (apply_op op w).0
unfolding apply_op Writer.write Writer.delete Writer.delete_range
apply_op-NoError (IndexOp.write key addr) w =
    let entry : Entry = record {
      commit = w.commit;
      value = written addr;
      batch_idx = w.batch_index;
    } in
    let (m, e, a) = update_keymap-Appends key entry w.state.keymap in ground (arith, e)
apply_op-NoError (IndexOp.delete key addr) w =
    let entry : Entry = record {
      commit = w.commit;
      value = deleted addr;
      batch_idx = w.batch_index;
    } in
    let (m, e, a) = update_keymap-Appends key entry w.state.keymap in ground (arith, e)
apply_op-NoError (IndexOp.delete_range start end addr) w = ground arith

apply_ops-NoError : (ops : List IndexOp) (w : Writer) → NoError (apply_ops ops w).0
unfolding apply_ops
apply_ops-NoError [] w = tt
apply_ops-NoError (op ∷ ops) w =
    continue-NoError (apply_op op w).0 (λ u. apply_ops ops) (apply_op op w).1
      (apply_op-NoError op w) (λ u. apply_ops-NoError ops)

drop-NoError : (r : Outcome (Unit {0})) (w : Writer) → NoError r → NoError (drop r w).0
unfolding drop
drop-NoError r w h = elim (Option-cases (checked_add u64_mod w.commit 1)) [
  | inl e ↦ rw (e, NoError) tt
  | inr (n, e) ↦ rw (e, NoError) h
]

commit_ops-NoError :
    (c : Commit) (ops : List IndexOp) (index : Index) → NoError (commit_ops c ops index).0
unfolding commit_ops
commit_ops-NoError c ops index = elim (Bool-cases (leb index.maybe_next_commit c)) [
  | inl e ↦ rw (e, NoError) (drop-NoError _ _ (apply_ops-NoError ops _))
  | inr e ↦ rw (e, NoError) tt
]

pub commit_to_index-NoError :
    (player : BatchPlayer) (b : Batch) (bc : BatchCommit) (c : Commit) (index : Index)
    → NoError (CommitToIndex.commit_to_index player b bc c index).0
unfolding CommitToIndex.commit_to_index
commit_to_index-NoError player b bc c index = go (replay b bc player) (replay-NoError b bc player)
  where
    go :
        (r : Outcome (List IndexOp))
        → NoError r
        → NoError
            (elim r as (λ x. Outcome (Unit {0}) × Index) [
              | ok ops ↦ commit_ops c ops index
              | err e ↦ (err e, index)
              | panic ↦ (panic, index)
            ]).0
    go (ok ops) h = commit_ops-NoError c ops index
    go (err e) h = absurd h
    go panic h = tt
