-- ===== src/Tree/Recovery/Scan.antt =====
-- tree.rs: the replay of a commit whose ready command is still to be read.
use mathlib.Core.Path.{subst}
use block_rust.Base.{
  not, ◌≡◌, refl, ap, ◌∙◌, true, false, ◌&&◌, ◌||◌, ◌==◌, ==_refl, none, some, List, [], ◌∷◌, ◌++◌,
  arith, Bool-cases, Option-cases, ◌⊎◌, inl, inr, ok, panic, Outcome,
}
use block_rust.Base.Ord.{nat_ord}
use block_rust.OrdMap.{OrdMap, get}
use block_rust.Types.{Address, Batch, BatchCommit, Commit}
use block_rust.Command.{Command, ready_commit}
use block_rust.BatchPlayer.{BatchPlayer, SimpleCommand, IndexOp, record_command, replay}
use block_rust.Index.Defs.{Index}
use block_rust.Tree.CommitToIndex.{commit_to_index, commit_ops}
use block_rust.Tree.Replay.{InitReplayer, replay_cmd, commit_batch, commit_player, waits}
use block_rust.Tree.Replay.Plain.{items}
use block_rust.Tree.Recovery.Pairs.{
  Pairs, pair_of, pairs, has, has-append, Unlike-has, Apart, Apart-front,
}
use block_rust.Tree.Recovery.Players.{Same, SameAll, record-SameAll}
use block_rust.Tree.Recovery.Passing.{Passed}
use block_rust.Tree.Recovery.Numbers.{Numbers}
use block_rust.Tree.Recovery.Turns.{Tight}
use block_rust.Tree.Recovery.Stops.{after, Plays}

-- The replayer against the commands read so far: its players are those of `p`, and it keeps the pairs
-- that it has seen and not committed.
pub record IsGood (committed seen : Pairs) (p : BatchPlayer) (r : InitReplayer) : Type 0 where
  pub same : SameAll p r.batch_players
  pub waiting :
      (b : Batch) (bc : BatchCommit)
      → waits b bc r.waiting_to_commit ≡ (has b bc seen && not (has b bc committed))
  pub within : (b : Batch) (bc : BatchCommit) → has b bc committed ≡ true → has b bc seen ≡ true

-- The replayer of a tree with this log, player and index, when the log goes on with `more`.
pub record IsAt (log more : List (Command × Address)) (committed : Pairs) (player : BatchPlayer)
    (index : Index) (r : InitReplayer) : Type 0 where
  pub read : List (Command × Address)
  pub rest : List (Command × Address)
  pub split : log ≡ read ++ rest
  pub p : BatchPlayer
  pub live : after p rest ≡ player
  pub plays : Plays p rest
  pub stream : r.cmd_stream ≡ items (rest ++ more)
  pub index_same : r.index ≡ index
  pub good : IsGood committed (pairs read) p r
  pub numbers : Numbers read r
  pub tight : Tight committed read

pub waits-has : (b : Batch) (bc : BatchCommit) (ps : Pairs) → waits b bc ps ≡ has b bc ps
unfolding waits
waits-has b bc [] = refl
waits-has b bc ((b', bc') ∷ ps) = ap (λ x. (b == b' && bc == bc') || x) (waits-has b bc ps)

pub IsGood-pass :
    (committed seen : Pairs) (p p' : BatchPlayer) (cmd : Command) (r r' : InitReplayer)
    → Apart (seen ++ pair_of cmd)
    → IsGood committed seen p r
    → Passed p' cmd r r'
    → IsGood committed (seen ++ pair_of cmd) p' r'
IsGood-pass committed seen p p' cmd r r' d g h = record {
  same = h.same;
  waiting = λ b bc.
      ap (waits b bc) h.waiting
      ∙ waits-has b bc (pair_of cmd ++ r.waiting_to_commit)
      ∙ waiting_pairs b bc (Bool-cases (has b bc (pair_of cmd))) (Bool-cases (has b bc seen));
  within = λ b bc k. ground (arith, has-append b bc seen (pair_of cmd), g.within b bc k);
}
  where
    waiting_pairs :
        (b : Batch) (bc : BatchCommit)
        → (has b bc (pair_of cmd) ≡ true) ⊎ (has b bc (pair_of cmd) ≡ false)
        → (has b bc seen ≡ true) ⊎ (has b bc seen ≡ false)
        → has b bc (pair_of cmd ++ r.waiting_to_commit)
          ≡ (has b bc (seen ++ pair_of cmd) && not (has b bc committed))
    waiting_pairs b bc (inl new) (inl old) =
        let none_new = Unlike-has b bc (pair_of cmd) (Apart-front b bc seen (pair_of cmd) d old) in
        absurd (cc)
    waiting_pairs b bc (inl new) (inr unseen) = ground (
      arith,
      has-append b bc (pair_of cmd) r.waiting_to_commit,
      has-append b bc seen (pair_of cmd),
      new,
      unseen,
      g.within b bc,
    )
    waiting_pairs b bc (inr other) k = ground (
      arith,
      has-append b bc (pair_of cmd) r.waiting_to_commit,
      has-append b bc seen (pair_of cmd),
      other,
      waits-has b bc r.waiting_to_commit,
      g.waiting b bc,
    )

-- The replay by a player depends on the commands of the batch.
replay-same :
    (b : Batch) (bc : BatchCommit) (p player : BatchPlayer) (commands : List SimpleCommand)
    → get b p ≡ some commands
    → get b player ≡ some commands
    → replay b bc player ≡ replay b bc p
unfolding replay
replay-same b bc p player commands h k = ground (arith, h, k)

replay-none :
    (b : Batch) (bc : BatchCommit) (p : BatchPlayer) (ops : List IndexOp)
    → get b p ≡ none
    → replay b bc p ≡ ok ops
    → ⊥
unfolding replay
replay-none b bc p ops h k = ground (arith, h, k)

pub commit-ops :
    (b : Batch) (bc : BatchCommit) (c : Commit) (p : BatchPlayer) (ops : List IndexOp)
    (index : Index)
    → replay b bc p ≡ ok ops
    → commit_to_index p b bc c index ≡ commit_ops c ops index
unfolding commit_to_index
commit-ops b bc c p ops index h = rw (h, commit_to_index) refl

module _ (b : Batch) (bc : BatchCommit) (c : Commit) (ops : List IndexOp) (index' : Index) where
  pub commit_player-ok :
      (missing : Outcome (Unit {0})) (p : BatchPlayer) (r : InitReplayer)
      → SameAll p r.batch_players
      → replay b bc p ≡ ok ops
      → commit_ops c ops r.index ≡ (ok tt, index')
      → commit_batch missing b bc c r ≡ (ok tt, record r { index = index' })
  unfolding commit_batch commit_player
  commit_player-ok missing p r same h e = elim (Option-cases (get b p)) [
    | inl missing_here ↦ absurd (replay-none b bc p ops missing_here h)
    | inr (commands, here) ↦
        let (player, entry, inner) = subst (λ o. Same b o (get b r.batch_players)) here (same b) in
        let step : commit_to_index player b bc c r.index ≡ (ok tt, index') =
          commit-ops b bc c player ops r.index (replay-same b bc p player commands here inner ∙ h)
          ∙ e in
        rw (entry, commit_player, step) refl
  ]

  pub found :
      (a : Address) (p : BatchPlayer) (r : InitReplayer)
      → SameAll p r.batch_players
      → (record_command (ready_commit b bc) a p).0 ≡ ok tt
      → replay b bc (record_command (ready_commit b bc) a p).1 ≡ ok ops
      → commit_ops c ops r.index ≡ (ok tt, index')
      → (players : OrdMap Batch BatchPlayer) × (replay_cmd b bc c (ready_commit b bc) a r
          ≡ (ok true, record r { batch_players = players; index = index' }))
        × SameAll (record_command (ready_commit b bc) a p).1 players
  unfolding replay_cmd
  found a p r same l h e =
      let (players, step, sa) =
        record-SameAll (ready_commit b bc) a (SimpleCommand.ready_commit bc) p r refl l same in
      let committed =
        commit_player-ok panic (record_command (ready_commit b bc) a p).1
          (record r { batch_players = players }) sa h e in
      (players, rw (step, ==_refl b, ==_refl bc, committed) refl, sa)
