-- ===== src/Tree/Recovery/Passing.antt =====
-- tree.rs: a command that is not about the commit that is replayed is passed over.
use block_rust.Base.{◌≡◌, refl, true, false, ==_refl, some, [], ◌∷◌, ◌++◌, arith, ok}
use block_rust.Base.Exec.{pure, ◌>>◌}
use block_rust.Base.Ord.{nat_ord}
use block_rust.OrdMap.{remove}
use block_rust.Types.{Address, Batch, BatchCommit, Commit}
use block_rust.Command.{
  Command, open_batch, write, delete, delete_range, push_save_point, pop_save_point,
  rollback_save_point, ready_commit, abort_commit, close,
}
use block_rust.BatchPlayer.{BatchPlayer, SimpleCommand, record_command}
use block_rust.Tree.Replay.{InitReplayer, record_cmd, replay_cmd, keep_waiting, waits}
use block_rust.Tree.Recovery.Pairs.{pair_of, has, Differ}
use block_rust.Tree.Recovery.Players.{SameAll, simple, record-SameAll}
use block_rust.Tree.Recovery.Opened.{open-Passed, close-Passed}

-- The replayer has taken the command, and goes on.
pub record Passed (p : BatchPlayer) (cmd : Command) (r r' : InitReplayer) : Type 0 where
  pub index : r'.index ≡ r.index
  pub stream : r'.cmd_stream ≡ r.cmd_stream
  pub same : SameAll p r'.batch_players
  pub waiting : r'.waiting_to_commit ≡ pair_of cmd ++ r.waiting_to_commit
  pub batches : r'.max_batch_seen ≡ r.max_batch_seen
  pub batch_commits : r'.max_batch_commit_seen ≡ r.max_batch_commit_seen

module _ (target : Batch) (target_commit : BatchCommit) (c : Commit) (a : Address) (p : BatchPlayer)
    (r : InitReplayer) (same : SameAll p r.batch_players) where
  abbrev Passes : Command → Type 0
  Passes cmd =
      (r' : InitReplayer) × (replay_cmd target target_commit c cmd a r ≡ (ok false, r'))
      × Passed (record_command cmd a p).1 cmd r r'

  plain-Passes :
      (cmd : Command) (x : SimpleCommand)
      → simple cmd a ≡ some x
      → pair_of cmd ≡ []
      → (record_command cmd a p).0 ≡ ok tt
      → (r' : InitReplayer) × ((record_cmd cmd a >> pure false) r ≡ (ok false, r'))
        × Passed (record_command cmd a p).1 cmd r r'
  plain-Passes cmd x h n e =
      let (players, step, sa) = record-SameAll cmd a x p r h e same in
      (
        record r { batch_players = players },
        rw step refl,
        record {
          index = refl;
          stream = refl;
          same = sa;
          waiting = rw n refl;
          batches = refl;
          batch_commits = refl;
        },
      )

  pub replay_cmd-Passed :
      (cmd : Command)
      → (record_command cmd a p).0 ≡ ok tt
      → Differ target target_commit (pair_of cmd)
      → ((b : Batch) (bc : BatchCommit)
          → has b bc (pair_of cmd) ≡ true
          → waits b bc r.waiting_to_commit ≡ false)
      → Passes cmd
  unfolding replay_cmd keep_waiting
  replay_cmd-Passed (open_batch b) e d w =
      let (unknown, players, step, sa) = open-Passed a p r same b e in
      (
        record r { batch_players = players },
        rw (unknown, step) refl,
        record {
          index = refl;
          stream = refl;
          same = sa;
          waiting = refl;
          batches = refl;
          batch_commits = refl;
        },
      )
  replay_cmd-Passed (close b) e d w =
      let (known, players, step, sa) = close-Passed a p r same b e in
      (
        record r { batch_players = remove b players },
        rw (known, step) refl,
        record {
          index = refl;
          stream = refl;
          same = sa;
          waiting = refl;
          batches = refl;
          batch_commits = refl;
        },
      )
  replay_cmd-Passed (ready_commit b bc) e d w =
      let (players, step, sa) =
        record-SameAll (ready_commit b bc) a (SimpleCommand.ready_commit bc) p r refl e same in
      let free = w b bc (ground (arith, ==_refl b, ==_refl bc)) in
      (
        record r { batch_players = players; waiting_to_commit = (b, bc) ∷ r.waiting_to_commit },
        rw (step, d.0, d.1, free) refl,
        record {
          index = refl;
          stream = refl;
          same = sa;
          waiting = refl;
          batches = refl;
          batch_commits = refl;
        },
      )
  replay_cmd-Passed (abort_commit b bc) e d w =
      let (players, step, sa) =
        record-SameAll (abort_commit b bc) a (SimpleCommand.abort_commit bc) p r refl e same in
      let free = w b bc (ground (arith, ==_refl b, ==_refl bc)) in
      (
        record r { batch_players = players; waiting_to_commit = (b, bc) ∷ r.waiting_to_commit },
        rw (step, d.0, d.1, free) refl,
        record {
          index = refl;
          stream = refl;
          same = sa;
          waiting = refl;
          batches = refl;
          batch_commits = refl;
        },
      )
  replay_cmd-Passed (write b k v) e d w = plain-Passes (write b k v) _ refl refl e
  replay_cmd-Passed (delete b k) e d w = plain-Passes (delete b k) _ refl refl e
  replay_cmd-Passed (delete_range b s t) e d w = plain-Passes (delete_range b s t) _ refl refl e
  replay_cmd-Passed (push_save_point b) e d w = plain-Passes (push_save_point b) _ refl refl e
  replay_cmd-Passed (pop_save_point b) e d w = plain-Passes (pop_save_point b) _ refl refl e
  replay_cmd-Passed (rollback_save_point b) e d w =
      plain-Passes (rollback_save_point b) _ refl refl e
