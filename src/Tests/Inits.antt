-- ===== src/Tests/Inits.antt =====
-- A database that is loaded from the log of a committed batch.
use block_rust.Base.{◌≡◌, refl, List, [], ◌∷◌, Outcome, ok, err, panic}
use block_rust.Base.Ord.{nat_ord, bytes_ord}
use block_rust.Types.{Address}
use block_rust.Command.{Command, batch}
use block_rust.CommitLog
use block_rust.CommitLog.{CommitCommand}
use block_rust.MemLogFile.{is_empty}
use block_rust.OrdMap.{get, contains_key, insert, modify, range_from, range_to}
use block_rust.BatchPlayer.{replay, record_command}
use block_rust.Index.Writer
use block_rust.Index.Writer.{drop, update_keymap, first, last}
use block_rust.Tree.CommitToIndex
use block_rust.Tree.CommitToIndex.{apply_ops}
use block_rust.Tree.Replay.{waits, replay_commit, replay_rest, record_cmd}
use block_rust.Loader.{load}
use block_rust.Db
use block_rust.Db.{Db, Name}
use block_rust.Db.Commits.{IsDb}
use block_rust.Db.Init.{init, init-IsDb}
use block_rust.Tests.Trees.{memory}
use block_rust.Tests.Databases.{commits}

abbrev commit_stream : List (Outcome CommitCommand)
commit_stream = ok (record { batch = 1; batch_commit = 0; commit = 0 }) ∷ []

abbrev stream : Name → List (Outcome (Command × Address))
stream name =
    ok (Command.open_batch 1, 0)
    ∷ ok (Command.write 1 (7 ∷ []) (8 ∷ []), 1)
    ∷ ok (Command.ready_commit 1 0, 2)
    ∷ ok (Command.close 1, 3)
    ∷ []

abbrev new_db : Db memory commits
new_db = Db.new memory commits ((116 ∷ [], []) ∷ []) ((1 ∷ 0 ∷ 0 ∷ []) ∷ [])

abbrev result : Outcome (Db memory commits) → Db memory commits
result r = elim r [ ok db ↦ db | err e ↦ new_db | panic ↦ new_db ]

abbrev loaded : Db memory commits
loaded = result (init memory commits commit_stream stream new_db)

loads : init memory commits commit_stream stream new_db ≡ ok loaded
unfolding init CommitLog.log_is_empty is_empty load waits replay_commit replay_rest record_cmd
    CommitToIndex.commit_to_index replay get batch record_command contains_key insert modify drop
    apply_ops Writer.write update_keymap first last range_from range_to
loads = refl

init-IsDb_example : IsDb loaded
init-IsDb_example =
    init-IsDb memory commits ((116 ∷ [], []) ∷ []) ((1 ∷ 0 ∷ 0 ∷ []) ∷ []) commit_stream stream
      loaded (λ name. (tt, (tt, (tt, (tt, tt))))) loads
