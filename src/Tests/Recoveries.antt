-- ===== src/Tests/Recoveries.antt =====
-- Two batches of a tree that become ready in one order and commit in the other, the first of which goes
-- on and commits again; and the load of the tree.
use block_rust.Base.{◌≡◌, refl, true, false, List, [], ◌∷◌, arith, ok, ◌>>=◌, take}
use block_rust.Base.Ord.{bytes_eq, bytes_lt}
use block_rust.Types.{Address}
use block_rust.Command.{Command, batch}
use block_rust.CommitLog
use block_rust.CommitLog.{CommitCommand}
use block_rust.LogFile.{LogFile}
use block_rust.Log
use block_rust.MemLogFile.{append}
use block_rust.Db
use block_rust.Db.{Db}
use block_rust.Tests.Encoding
use block_rust.Tests.Trees.{memory}
use block_rust.Tests.Databases.{commits}
use block_rust.OrdMap.{get, contains_key, insert, modify, range_from, range_to}
use block_rust.BatchPlayer
use block_rust.BatchPlayer.{BatchPlayer, record_command, replay}
use block_rust.Index.Defs
use block_rust.Index.Defs.{Index}
use block_rust.Index.Writer
use block_rust.Index.Writer.{drop, update_keymap, first, last}
use block_rust.Tree.CommitToIndex.{commit_to_index, apply_ops}
use block_rust.Tree.Recovery.{Life, born, logged, committed}
use block_rust.Loader.{Players, load}
use block_rust.Tree.Recovery.Stops.{after}
use block_rust.Loader.Recovery.{
  Running, HaveIndexes, commit_items, players_of, counters, load-HaveIndexes,
}

abbrev log : List (Command × Address)
log =
    (Command.open_batch 1, 0)
    ∷ (Command.write 1 (7 ∷ []) (8 ∷ []), 1)
    ∷ (Command.open_batch 2, 2)
    ∷ (Command.delete 2 (7 ∷ []), 3)
    ∷ (Command.ready_commit 2 0, 4)
    ∷ (Command.ready_commit 1 1, 5)
    ∷ (Command.write 1 (9 ∷ []) (6 ∷ []), 6)
    ∷ (Command.ready_commit 1 2, 7)
    ∷ []

abbrev ready : BatchPlayer
ready =
    (
      1,
      BatchPlayer.write (7 ∷ []) 1
          ∷ BatchPlayer.ready_commit 1
          ∷ BatchPlayer.write (9 ∷ []) 6
          ∷ BatchPlayer.ready_commit 2
          ∷ [],
    )
    ∷ (2, BatchPlayer.delete (7 ∷ []) 3 ∷ BatchPlayer.ready_commit 0 ∷ [])
    ∷ []

abbrev one : CommitCommand
one = record { batch = 1; batch_commit = 1; commit = 0 }

abbrev two : CommitCommand
two = record { batch = 2; batch_commit = 0; commit = 1 }

abbrev three : CommitCommand
three = record { batch = 1; batch_commit = 2; commit = 2 }

abbrev index_one : Index
index_one = (commit_to_index ready 1 1 0 Defs.new).1

abbrev index_two : Index
index_two = (commit_to_index ready 2 0 1 index_one).1

abbrev index_three : Index
index_three = (commit_to_index ready 1 2 2 index_two).1

tried-Life : Life (take 6 log) [] (after [] (take 6 log)) Defs.new
unfolding record_command contains_key insert modify
tried-Life =
    logged (Command.ready_commit 1 1) 5
      (logged (Command.ready_commit 2 0) 4
        (logged (Command.delete 2 (7 ∷ [])) 3
          (logged (Command.open_batch 2) 2
            (logged (Command.write 1 (7 ∷ []) (8 ∷ [])) 1
              (logged (Command.open_batch 1) 0 born tt refl) tt refl)
            tt refl)
          tt refl)
        (tt, tt) refl)
      ((refl, tt), (tt, tt)) refl

-- The first batch goes on behind its first commit.
all-Life : Life log (one ∷ two ∷ three ∷ []) ready index_three
unfolding commit_to_index record_command contains_key replay get insert modify drop apply_ops
    Writer.write Writer.delete update_keymap first last range_from range_to bytes_eq bytes_lt
all-Life =
    committed three
      (logged (Command.ready_commit 1 2) 7
        (logged (Command.write 1 (9 ∷ []) (6 ∷ [])) 6
          (committed two (committed one tried-Life refl refl refl refl) refl refl refl refl)
          ((refl, tt), (tt, tt)) refl)
        ((refl, (refl, tt)), ((refl, tt), (tt, tt))) refl)
      refl refl refl refl

abbrev tree : Running
tree = record { name = 116 ∷ []; log = log; player = ready; index = index_three }

load-HaveIndexes_example :
    (players : Players) × (load
        (ok false)
        (commit_items (one ∷ two ∷ three ∷ []))
        (players_of (tree ∷ []))
      ≡ (counters false (one ∷ two ∷ three ∷ []) (tree ∷ []) >>= λ state. ok (state, players)))
    × HaveIndexes (tree ∷ []) players
load-HaveIndexes_example =
    load-HaveIndexes false (one ∷ two ∷ three ∷ []) (tree ∷ []) (λ e. cc) (all-Life, tt)
      (omega arith, (omega arith, tt))

-- The log in memory behind these commands.
abbrev stored : List (Command × Address) → LogFile.State memory → LogFile.State memory
stored [] s = s
stored ((cmd, a) ∷ rest) s = stored rest (LogFile.append memory cmd s).1

abbrev running_db : Db memory commits
running_db = record {
  initialized = true;
  next_batch = 3;
  next_batch_commit = 3;
  next_commit = 3;
  view_commit_limit = 3;
  trees =
      (
        116 ∷ [],
        record {
          initialized = true;
          log = stored log [];
          batch_player = ready;
          index = index_three;
        },
      )
      ∷ [];
  commit_log = (1 ∷ 1 ∷ 0 ∷ []) ∷ (2 ∷ 0 ∷ 1 ∷ []) ∷ (1 ∷ 2 ∷ 2 ∷ []) ∷ [];
}

abbrev commit_records : List (CommitCommand × Address)
commit_records = (one, 0) ∷ (two, 1) ∷ (three, 2) ∷ []
