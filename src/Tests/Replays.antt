-- ===== src/Tests/Replays.antt =====
-- Logs whose batch aborts a commit, and a commit log of one commit.
use block_rust.Base.{
  ◌≡◌, refl, false, Option, none, List, [], ◌∷◌, ◌++◌, Outcome, ok, err, panic, batch_mismatch,
}
use block_rust.Types.{Address, Commit}
use block_rust.Command.{Command, write, push_save_point, abort_commit, ready_commit, open_batch}
use block_rust.CommitLog.{CommitCommand}
use block_rust.Index.Defs
use block_rust.Tree.Replay.{
  InitReplayer, init_replayer, replay_commit, replay_rest, waits, record_cmd,
}
use block_rust.OrdMap.{contains_key, get, insert, modify}
use block_rust.BatchPlayer.{record_command, replay}
use block_rust.Tree.CommitToIndex.{commit_to_index, apply_ops}
use block_rust.Index.Writer.{drop}
use block_rust.Tree.Replay.Mismatch.{stream_of, replay_commit-mismatch, replay_commit-aborted}
use block_rust.Tree.Replay.Plain.{items}
use block_rust.Tree.Recovery.{Life, born, logged}
use block_rust.Tree.Recovery.Loop.{replay_all}
use block_rust.Tree.Recovery.Stops.{after}
use block_rust.Loader.{Players, DbInitState, load}
use block_rust.Loader.Recovery.{Running, commit_items, players_of}
use block_rust.Loader.Mismatch.{load-mismatch}
use block_rust.Loader.Counters.{IsGrowing, AreBelow, load-next_commit}

abbrev writes : List (Command × Address)
writes = (push_save_point 3, 1) ∷ (write 3 (1 ∷ []) (2 ∷ []), 2) ∷ []

abbrev rest : List (Outcome (Command × Address))
rest = ok (ready_commit 3 1, 4) ∷ []

-- A batch that aborts an attempt and makes another ready.
abbrev tries_again : List (Command × Address)
tries_again =
    (open_batch 3, 0)
    ∷ (write 3 (1 ∷ []) (2 ∷ []), 1)
    ∷ (abort_commit 3 0, 2)
    ∷ (ready_commit 3 1, 3)
    ∷ []

tries_again-Life : Life tries_again [] (after [] tries_again) Defs.new
unfolding record_command contains_key insert modify
tries_again-Life =
    logged (ready_commit 3 1) 3
      (logged (abort_commit 3 0) 2
        (logged (write 3 (1 ∷ []) (2 ∷ [])) 1 (logged (open_batch 3) 0 born tt refl) tt refl)
        (tt, tt) refl)
      ((refl, tt), (tt, tt)) refl

replay_commit-mismatch_example :
    (r : InitReplayer) × (replay_all [] (init_replayer (items (tries_again ++ [])) Defs.new)
      ≡ (ok tt, r))
    × ((replay_commit 3 1 0 r).0 ≡ err batch_mismatch)
replay_commit-mismatch_example =
    replay_commit-mismatch [] (record { batch = 3; batch_commit = 1; commit = 0 }) tries_again-Life
      refl refl

abbrev again : CommitCommand
again = record { batch = 3; batch_commit = 1; commit = 0 }

abbrev tree : Running
tree = record {
  name = 116 ∷ [];
  log = tries_again;
  player = after [] tries_again;
  index = Defs.new;
}

load-mismatch_example :
    load (ok false) (commit_items [] ++ ok again ∷ []) (players_of (tree ∷ [])) ≡ err batch_mismatch
load-mismatch_example = load-mismatch [] again [] tree [] (tries_again-Life, tt) tt refl refl

replay_commit-aborted_example :
    (r' : InitReplayer) × (replay_commit 3 1 0
        (init_replayer (stream_of 3 1 0 Defs.new 0 writes (abort_commit 3 1) 3 rest) Defs.new)
      ≡ (ok tt, r'))
    × (r'.index ≡ Defs.new)
replay_commit-aborted_example =
    replay_commit-aborted 3 1 0 Defs.new 0 3 writes rest (refl, (refl, tt))

abbrev commits : List (Outcome CommitCommand)
commits = ok (record { batch = 3; batch_commit = 0; commit = 6 }) ∷ []

abbrev one_batch : List (Outcome (Command × Address))
one_batch = ok (open_batch 3, 0) ∷ ok (ready_commit 3 0, 1) ∷ ok (open_batch 8, 2) ∷ []

abbrev players : Players
players = ([], init_replayer one_batch Defs.new) ∷ []

abbrev replayed : Players
replayed = elim (load (ok false) commits players) [
  | ok (state, players') ↦ players'
  | err e ↦ []
  | panic ↦ []
]

abbrev loaded : DbInitState
loaded = record { next_batch = 9; next_batch_commit = 1; next_commit = 7 }

commits-load : load (ok false) commits players ≡ ok (loaded, replayed)
unfolding load replay_commit replay_rest waits contains_key record_cmd get insert record_command
    modify commit_to_index replay drop apply_ops
commits-load = refl

load-next_commit_example :
    ((k : Option Commit) × IsGrowing none commits k) × AreBelow loaded.next_commit commits
load-next_commit_example = load-next_commit commits players replayed loaded commits-load
