-- ===== src/BatchPlayer/Scripts.antt =====
-- batch_player.rs: what a batch with nested save points means.
use block_rust.Base.{
  ℕ, ◌≡◌, ◌∙◌, true, false, List, [], ◌∷◌, ◌++◌, arith, leb, ◌==◌, length, take, take-append,
  take-length, length-append, ok,
}
use mathlib.Core.List.{append_assoc, append-nil}
use block_rust.Types.{Key, Address, BatchCommit}
use block_rust.BatchPlayer.{
  SimpleCommand, IndexOp, push_save_point, pop_save_point, rollback_save_point, ready_commit,
  abort_commit, replay_commands,
}

-- A batch whose save points nest: each is either popped, which keeps the writes behind it, or rolled
-- back. `readied` and `aborted` are attempts to commit with another number.
pub data Script : Type 0 where
  done : Script
  write : Key → Address → Script → Script
  delete : Key → Address → Script → Script
  delete_range : Key → Key → Address → Script → Script
  popped : Script → Script → Script
  rolled_back : Script → Script → Script
  readied aborted : BatchCommit → Script → Script

-- Its commands.
unfoldable pub commands : Script → List SimpleCommand
commands done = []
commands (write k a s) = SimpleCommand.write k a ∷ commands s
commands (delete k a s) = SimpleCommand.delete k a ∷ commands s
commands (delete_range b e a s) = SimpleCommand.delete_range b e a ∷ commands s
commands (popped inner s) = push_save_point ∷ (commands inner ++ (pop_save_point ∷ commands s))
commands (rolled_back inner s) =
    push_save_point ∷ (commands inner ++ (rollback_save_point ∷ commands s))
commands (readied c s) = ready_commit c ∷ commands s
commands (aborted c s) = abort_commit c ∷ commands s

-- Its writes.
unfoldable pub meaning : Script → List IndexOp
meaning done = []
meaning (write k a s) = IndexOp.write k a ∷ meaning s
meaning (delete k a s) = IndexOp.delete k a ∷ meaning s
meaning (delete_range b e a s) = IndexOp.delete_range b e a ∷ meaning s
meaning (popped inner s) = meaning inner ++ meaning s
meaning (rolled_back inner s) = meaning s
meaning (readied c s) = meaning s
meaning (aborted c s) = meaning s

-- It makes no attempt to commit with the number `bc`.
abbrev pub Avoids : BatchCommit → Script → Type 0
Avoids bc done = Unit
Avoids bc (write k a s) = Avoids bc s
Avoids bc (delete k a s) = Avoids bc s
Avoids bc (delete_range b e a s) = Avoids bc s
Avoids bc (popped inner s) = Avoids bc inner × Avoids bc s
Avoids bc (rolled_back inner s) = Avoids bc inner × Avoids bc s
Avoids bc (readied c s) = (bc == c ≡ false) × Avoids bc s
Avoids bc (aborted c s) = (bc == c ≡ false) × Avoids bc s

take-append_self : (ops more : List IndexOp) → take (length ops) (ops ++ more) ≡ ops
take-append_self ops more = take-append (length ops) ops more (omega arith) ∙ take-length ops

-- The loop runs through a nested batch with the writes that it means, and with the save points that it
-- found.
replay_script :
    (bc : BatchCommit) (s : Script) (ops : List IndexOp) (ns : List ℕ) (rest : List SimpleCommand)
    → Avoids bc s
    → replay_commands bc ops ns (commands s ++ rest) ≡ replay_commands bc (ops ++ meaning s) ns rest
unfolding commands meaning replay_commands
replay_script bc done ops ns rest h = rw append-nil
replay_script bc (write k a s) ops ns rest h =
    replay_script bc s (ops ++ IndexOp.write k a ∷ []) ns rest h ∙ rw append_assoc
replay_script bc (delete k a s) ops ns rest h =
    replay_script bc s (ops ++ IndexOp.delete k a ∷ []) ns rest h ∙ rw append_assoc
replay_script bc (delete_range b e a s) ops ns rest h =
    replay_script bc s (ops ++ IndexOp.delete_range b e a ∷ []) ns rest h ∙ rw append_assoc
replay_script bc (popped inner s) ops ns rest h = rw (append_assoc (commands inner)) (
    replay_script bc inner ops (length ops ∷ ns) (pop_save_point ∷ (commands s ++ rest)) h.0
    ∙ replay_script bc s (ops ++ meaning inner) ns rest h.1
    ∙ rw append_assoc)
replay_script bc (rolled_back inner s) ops ns rest h =
    let fits : leb (length ops) (length (ops ++ meaning inner)) ≡ true =
      ground (arith, length-append ops (meaning inner)) in
    rw (append_assoc (commands inner)) (
      replay_script bc inner ops (length ops ∷ ns) (rollback_save_point ∷ (commands s ++ rest)) h.0
      ∙ rw (fits, take-append_self ops (meaning inner)) (replay_script bc s ops ns rest h.1))
replay_script bc (readied c s) ops ns rest h = rw h.0 (replay_script bc s ops ns rest h.1)
replay_script bc (aborted c s) ops ns rest h = rw h.0 (replay_script bc s ops ns rest h.1)

-- For a batch whose save points nest and that has made no attempt to commit with the number `bc`, the
-- replay of a ready commit of `bc` behind it yields its writes that no rollback took back, in their
-- order, and the replay of an abort of `bc` behind it yields none. What follows makes no difference.
pub replay_commands-meaning :
    (bc : BatchCommit) (s : Script) (rest : List SimpleCommand)
    → Avoids bc s
    → (replay_commands bc [] [] (commands s ++ ready_commit bc ∷ rest) ≡ ok (meaning s))
      × (replay_commands bc [] [] (commands s ++ abort_commit bc ∷ rest) ≡ ok [])
unfolding replay_commands
replay_commands-meaning bc s rest h = (
  replay_script bc s [] [] (ready_commit bc ∷ rest) h ∙ ground arith,
  replay_script bc s [] [] (abort_commit bc ∷ rest) h ∙ ground arith,
)
