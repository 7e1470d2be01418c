-- ===== src/Tree/Replay/Mismatch.antt =====
-- tree.rs: what `replay_commit` makes of an aborted commit in front of the one that it looks for.
use block_rust.Base.{
  ◌≡◌, refl, ◌∙◌, true, false, none, some, List, [], ◌∷◌, ◌++◌, arith, ==_refl, Outcome, ok, err,
  batch_mismatch,
}
use block_rust.Base.Ord.{nat_ord}
use block_rust.OrdMap.{get, contains_key, insert}
use block_rust.Types.{Batch, BatchCommit, Commit, Address}
use block_rust.Command.{Command, open_batch, ready_commit, abort_commit, close, batch}
use block_rust.BatchPlayer.{BatchPlayer, SimpleCommand, record_command}
use block_rust.CommitLog.{CommitCommand}
use block_rust.Index.Defs
use block_rust.Index.Defs.{Index}
use block_rust.Tree.Replay.{
  InitReplayer, init_replayer, replay_commit, replay_items, replay_cmd, recorded, record_cmd, waits,
  update_max, new_batch_commit, max_seen,
}
use block_rust.Tree.Replay.Plain.{
  IsPlain, items, ArePlain, HasOpen, update_max-HasOpen, stream-HasOpen, pushed-HasOpen,
  recorded_plain,
}
use block_rust.Tree.Recovery.{Life, Life-Apart, follows}
use block_rust.Tree.Recovery.Loop.{committed_pairs, replay_all}
use block_rust.Tree.Recovery.Pairs.{has_ready}
use block_rust.Tree.Recovery.Turns.{in_turn}
use block_rust.Tree.Recovery.OutOfTurn.{replay_commit-out_of_turn}

module _ (target : Batch) (bc : BatchCommit) (c : Commit) (b : Batch) (index : Index) where
  replay_plain :
      (cmd : Command) (a : Address) (r r' : InitReplayer)
      → IsPlain b cmd
      → record_cmd cmd a r ≡ (ok tt, r')
      → replay_cmd target bc c cmd a r ≡ (ok false, r')
  unfolding replay_cmd
  replay_plain (open_batch b') a r r' p e = absurd p
  replay_plain (ready_commit b' x) a r r' p e = absurd p
  replay_plain (abort_commit b' x) a r r' p e = absurd p
  replay_plain (close b') a r r' p e = absurd p
  replay_plain _ a r r' p e = ground (arith, e)

  -- The loop runs through the plain commands of an open batch.
  skip_plain :
      (log : List (Command × Address)) (rest : List (Outcome (Command × Address)))
      (r : InitReplayer)
      → ArePlain b log
      → HasOpen b index r
      → (r' : InitReplayer) × (replay_items target bc c (items log ++ rest) r
          ≡ replay_items target bc c rest r')
        × HasOpen b index r'
  unfolding replay_items
  skip_plain [] rest r p h = (r, refl, h)
  skip_plain ((cmd, a) ∷ log) rest r p h =
      let r0 = record r { cmd_stream = items log ++ rest } in
      let (r1, e, h1) =
        recorded_plain b index cmd a r0 p.0 (stream-HasOpen b index (items log ++ rest) r h) in
      let r2 = update_max (some (batch cmd)) (new_batch_commit cmd) r1 in
      let (r', e', h') =
        skip_plain log rest r2 p.1
          (update_max-HasOpen b index (some (batch cmd)) (new_batch_commit cmd) r1 h1) in
      (r', ground (arith, replay_plain cmd a r0 r1 p.0 e, e'), h')

  opened : List (Outcome (Command × Address)) → InitReplayer
  opened rest = record {
    cmd_stream = rest;
    index = index;
    batch_players = (b, (b, []) ∷ []) ∷ [];
    max_batch_seen = some b;
    max_batch_commit_seen = none;
    waiting_to_commit = [];
  }

  -- The loop opens the batch.
  open-HasOpen :
      (a : Address) (rest : List (Outcome (Command × Address)))
      → (r' : InitReplayer) × (replay_commit target bc c
            (init_replayer (ok (open_batch b, a) ∷ rest) index)
          ≡ replay_items target bc c rest r')
        × HasOpen b index r'
  unfolding replay_commit replay_items replay_cmd record_cmd recorded record_command batch waits
      contains_key get insert opened max_seen
  open-HasOpen a rest = (
    opened rest,
    ground (arith, ==_refl b),
    record {
      player = (b, []) ∷ [];
      found = ground (arith, ==_refl b);
      known = ground (arith, ==_refl b);
      same = refl;
      nothing_waits = refl;
    },
  )

module _ (b : Batch) (bc : BatchCommit) (c : Commit) (index : Index) where
  -- The log of a batch that opens, writes and then readies or aborts a commit.
  abbrev pub stream_of :
      Address
      → List (Command × Address)
      → Command
      → Address
      → List (Outcome (Command × Address))
      → List (Outcome (Command × Address))
  stream_of a log attempt a' rest = ok (open_batch b, a) ∷ items log ++ ok (attempt, a') ∷ rest

  reach_attempt :
      (a : Address) (log : List (Command × Address)) (rest : List (Outcome (Command × Address)))
      → ArePlain b log
      → (r' : InitReplayer) × (replay_commit b bc c
            (init_replayer (ok (open_batch b, a) ∷ items log ++ rest) index)
          ≡ replay_items b bc c rest r')
        × HasOpen b index r'
  reach_attempt a log rest p =
      let (r0, e0, h0) = open-HasOpen b bc c b index a (items log ++ rest) in
      let (r1, e1, h1) = skip_plain b bc c b index log rest r0 p h0 in (r1, e0 ∙ e1, h1)

  abort_reached :
      (a' : Address) (rest : List (Outcome (Command × Address))) (r1 r2 : InitReplayer)
      → record_cmd (abort_commit b bc) a' (record r1 { cmd_stream = rest }) ≡ (ok tt, r2)
      → replay_items b bc c (ok (abort_commit b bc, a') ∷ rest) r1
        ≡ (ok tt, update_max (some b) (some bc) r2)
  unfolding replay_items replay_cmd batch
  abort_reached a' rest r1 r2 e = rw (e, ==_refl b, ==_refl bc)

  module _ (a a' : Address) (log : List (Command × Address))
      (rest : List (Outcome (Command × Address))) (p : ArePlain b log) where
    -- Take a log that begins with the opening of a batch, writes and save points of it, and an abort of
    -- it under the number to replay. A new replayer's `replay_commit` of that batch then succeeds and
    -- leaves the index as it was, whatever the rest of the log is.
    pub replay_commit-aborted :
        (r' : InitReplayer) × (replay_commit b bc c
            (init_replayer (stream_of a log (abort_commit b bc) a' rest) index)
          ≡ (ok tt, r'))
        × (r'.index ≡ index)
    unfolding replay_items replay_cmd record_command batch
    replay_commit-aborted =
        let (r1, e1, h1) = reach_attempt a log (ok (abort_commit b bc, a') ∷ rest) p in
        let (r2, e2, h2) =
          pushed-HasOpen b index (abort_commit b bc) (SimpleCommand.abort_commit bc) a'
            (record r1 { cmd_stream = rest }) (stream-HasOpen b index rest r1 h1) refl refl in
        (
          update_max (some b) (some bc) r2,
          e1 ∙ abort_reached a' rest r1 r2 e2,
          (update_max-HasOpen b index (some b) (some bc) r2 h2).same,
        )

-- Take the replayer of a tree, and a commit `c` that the log made ready. In the log, in front of the command that made it ready, stands another attempt of its batch that is neither the
-- ready command of a commit done before, nor in front of one. Then the replayer, which replays the
-- commits done before, fails at `c` with the mismatch error, whatever commands the log goes on with.
pub replay_commit-mismatch :
    {log : List (Command × Address)} {cs : List CommitCommand} {player : BatchPlayer}
    {index : Index} (more : List (Command × Address)) (c : CommitCommand)
    → Life log cs player index
    → has_ready c.batch c.batch_commit log ≡ true
    → in_turn c.batch c.batch_commit (committed_pairs cs) log ≡ false
    → (r : InitReplayer) × (replay_all cs (init_replayer (items (log ++ more)) Defs.new)
        ≡ (ok tt, r))
      × ((replay_commit c.batch c.batch_commit c.commit r).0 ≡ err batch_mismatch)
replay_commit-mismatch {log} {cs} {player} {index} more c l q turn =
    let (r, run, at) = follows more l in
    (
      r,
      run,
      replay_commit-out_of_turn c.batch c.batch_commit c.commit (committed_pairs cs) more log player
          index r (Life-Apart l) q turn at,
    )
