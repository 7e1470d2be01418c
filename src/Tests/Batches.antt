-- ===== src/Tests/Batches.antt =====
-- A batch with a popped and a rolled back save point.
use block_rust.Base.{◌≡◌, refl, [], ◌∷◌, ◌++◌, ok}
use block_rust.BatchPlayer.{
  SimpleCommand, ready_commit, abort_commit, push_save_point, rollback_save_point, pop_save_point,
  replay_commands,
}
use block_rust.BatchPlayer.SavePoints.{replay_copies, replay_commands-replay_copies}
use block_rust.BatchPlayer.Scripts.{Script, commands, meaning, replay_commands-meaning}

abbrev nested : Script
nested = Script.write (1 ∷ []) 1 (
    Script.rolled_back
      (Script.delete (1 ∷ []) 3 (Script.popped (Script.write (2 ∷ []) 5 Script.done) Script.done))
      (Script.aborted 7 (Script.delete_range [] (3 ∷ []) 9 Script.done)))

replay_commands-meaning_example :
    (replay_commands 8 [] [] (commands nested ++ ready_commit 8 ∷ push_save_point ∷ [])
      ≡ ok (meaning nested))
    × (replay_commands 8 [] [] (commands nested ++ abort_commit 8 ∷ push_save_point ∷ []) ≡ ok [])
replay_commands-meaning_example =
    replay_commands-meaning 8 nested (push_save_point ∷ []) ((tt, tt), (refl, tt))

replay_commands-replay_copies_example :
    replay_commands 2 [] [] (
      push_save_point
      ∷ SimpleCommand.write [] 1
      ∷ push_save_point
      ∷ pop_save_point
      ∷ rollback_save_point
      ∷ ready_commit 2
      ∷ [])
    ≡ replay_copies 2 [] [] (
        push_save_point
        ∷ SimpleCommand.write [] 1
        ∷ push_save_point
        ∷ pop_save_point
        ∷ rollback_save_point
        ∷ ready_commit 2
        ∷ [])
replay_commands-replay_copies_example = replay_commands-replay_copies 2 (
    push_save_point
    ∷ SimpleCommand.write [] 1
    ∷ push_save_point
    ∷ pop_save_point
    ∷ rollback_save_point
    ∷ ready_commit 2
    ∷ [])
