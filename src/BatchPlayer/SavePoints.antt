-- ===== src/BatchPlayer/SavePoints.antt =====
-- batch_player.rs: the saved lengths of `replay` stand for saved copies of the writes.
use block_rust.Base.{
  ℕ, true, ◌≤◌, ◌≡◌, refl, ◌∙◌, sym, List, [], ◌∷◌, ◌++◌, arith, leb, ◌==◌, if◌then◌else◌, length,
  take, take-append, take-take, take-length, length-take, length-append, Outcome, ok, panic,
}
use block_rust.Types.{BatchCommit}
use block_rust.BatchPlayer.{
  SimpleCommand, IndexOp, write, delete, delete_range, push_save_point, pop_save_point,
  rollback_save_point, ready_commit, abort_commit, replay_commands,
}

-- The same loop with copies of the writes for save points: `push` saves a copy, `pop` forgets the last
-- one, and `rollback` goes back to it.
unfoldable pub replay_copies :
    BatchCommit → List IndexOp → List (List IndexOp) → List SimpleCommand → Outcome (List IndexOp)
replay_copies batch_commit ops saved [] = panic
replay_copies batch_commit ops saved (write k a ∷ rest) =
    replay_copies batch_commit (ops ++ IndexOp.write k a ∷ []) saved rest
replay_copies batch_commit ops saved (delete k a ∷ rest) =
    replay_copies batch_commit (ops ++ IndexOp.delete k a ∷ []) saved rest
replay_copies batch_commit ops saved (delete_range s e a ∷ rest) =
    replay_copies batch_commit (ops ++ IndexOp.delete_range s e a ∷ []) saved rest
replay_copies batch_commit ops saved (push_save_point ∷ rest) =
    replay_copies batch_commit ops (ops ∷ saved) rest
replay_copies batch_commit ops [] (pop_save_point ∷ rest) = replay_copies batch_commit ops [] rest
replay_copies batch_commit ops (copy ∷ saved) (pop_save_point ∷ rest) =
    replay_copies batch_commit ops saved rest
replay_copies batch_commit ops [] (rollback_save_point ∷ rest) = panic
replay_copies batch_commit ops (copy ∷ saved) (rollback_save_point ∷ rest) =
    replay_copies batch_commit copy saved rest
replay_copies batch_commit ops saved (ready_commit bc ∷ rest) =
    if batch_commit == bc then ok ops else replay_copies batch_commit ops saved rest
replay_copies batch_commit ops saved (abort_commit bc ∷ rest) =
    if batch_commit == bc then ok [] else replay_copies batch_commit ops saved rest

-- Each length is within the writes that it was saved from, and its copy is that many of them.
abbrev Saved : List IndexOp → List ℕ → List (List IndexOp) → Type 0
Saved ops [] [] = Unit
Saved ops [] (copy ∷ copies) = ⊥
Saved ops (n ∷ ns) [] = ⊥
Saved ops (n ∷ ns) (copy ∷ copies) = (n ≤ length ops) × (copy ≡ take n ops) × Saved copy ns copies

Saved-append :
    (ops : List IndexOp) (ns : List ℕ) (copies : List (List IndexOp)) (op : IndexOp)
    → Saved ops ns copies
    → Saved (ops ++ op ∷ []) ns copies
Saved-append ops [] [] op h = tt
Saved-append ops [] (copy ∷ copies) op h = h
Saved-append ops (n ∷ ns) [] op h = h
Saved-append ops (n ∷ ns) (copy ∷ copies) op h = (
  omega (arith, h.0, length-append ops (op ∷ [])),
  h.1 ∙ sym (take-append n ops (op ∷ []) h.0),
  h.2,
)

Saved-take :
    (n : ℕ) (ops : List IndexOp) (ns : List ℕ) (copies : List (List IndexOp))
    → n ≤ length ops
    → Saved (take n ops) ns copies
    → Saved ops ns copies
Saved-take n ops [] [] h s = tt
Saved-take n ops [] (copy ∷ copies) h s = s
Saved-take n ops (m ∷ ns) [] h s = s
Saved-take n ops (m ∷ ns) (copy ∷ copies) h s = (
  omega (arith, s.0, length-take n ops h),
  s.1 ∙ take-take m n ops (omega (arith, s.0, length-take n ops h)),
  s.2,
)

Saved-pop :
    (n : ℕ) (ops copy : List IndexOp) (ns : List ℕ) (copies : List (List IndexOp))
    → n ≤ length ops
    → copy ≡ take n ops
    → Saved copy ns copies
    → Saved ops ns copies
Saved-pop n ops copy ns copies h e s = Saved-take n ops ns copies h (rw e at s)

replay_commands-copies :
    (bc : BatchCommit) (ops : List IndexOp) (ns : List ℕ) (copies : List (List IndexOp))
    (commands : List SimpleCommand)
    → Saved ops ns copies
    → replay_commands bc ops ns commands ≡ replay_copies bc ops copies commands
unfolding replay_commands replay_copies
replay_commands-copies bc ops ns copies [] h = refl
replay_commands-copies bc ops ns copies (write k a ∷ rest) h =
    replay_commands-copies bc (ops ++ IndexOp.write k a ∷ []) ns copies rest
      (Saved-append ops ns copies _ h)
replay_commands-copies bc ops ns copies (delete k a ∷ rest) h =
    replay_commands-copies bc (ops ++ IndexOp.delete k a ∷ []) ns copies rest
      (Saved-append ops ns copies _ h)
replay_commands-copies bc ops ns copies (delete_range s e a ∷ rest) h =
    replay_commands-copies bc (ops ++ IndexOp.delete_range s e a ∷ []) ns copies rest
      (Saved-append ops ns copies _ h)
replay_commands-copies bc ops ns copies (push_save_point ∷ rest) h =
    replay_commands-copies bc ops (length ops ∷ ns) (ops ∷ copies) rest
      (omega arith, sym (take-length ops), h)
replay_commands-copies bc ops [] [] (pop_save_point ∷ rest) h =
    replay_commands-copies bc ops [] [] rest h
replay_commands-copies bc ops [] (copy ∷ copies) (pop_save_point ∷ rest) h = absurd h
replay_commands-copies bc ops (n ∷ ns) [] (pop_save_point ∷ rest) h = absurd h
replay_commands-copies bc ops (n ∷ ns) (copy ∷ copies) (pop_save_point ∷ rest) h =
    replay_commands-copies bc ops ns copies rest (Saved-pop n ops copy ns copies h.0 h.1 h.2)
replay_commands-copies bc ops [] [] (rollback_save_point ∷ rest) h = refl
replay_commands-copies bc ops [] (copy ∷ copies) (rollback_save_point ∷ rest) h = absurd h
replay_commands-copies bc ops (n ∷ ns) [] (rollback_save_point ∷ rest) h = absurd h
replay_commands-copies bc ops (n ∷ ns) (copy ∷ copies) (rollback_save_point ∷ rest) h =
    let fits : leb n (length ops) ≡ true = ground (arith, h.0) in
    rw (fits, ← h.1) (replay_commands-copies bc copy ns copies rest h.2)
replay_commands-copies bc ops ns copies (ready_commit c ∷ rest) h =
    ground (arith, replay_commands-copies bc ops ns copies rest h)
replay_commands-copies bc ops ns copies (abort_commit c ∷ rest) h =
    ground (arith, replay_commands-copies bc ops ns copies rest h)

-- From no writes and no save points, the loop of `replay` returns for all commands what the loop
-- returns that keeps a copy of the writes for each save point and restores it on a rollback.
pub replay_commands-replay_copies :
    (bc : BatchCommit) (commands : List SimpleCommand)
    → replay_commands bc [] [] commands ≡ replay_copies bc [] [] commands
replay_commands-replay_copies bc commands = replay_commands-copies bc [] [] [] commands tt
