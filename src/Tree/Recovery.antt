-- ===== src/Tree/Recovery.antt =====
-- tree.rs: the index that the replay of a log rebuilds.
pub mod Pairs
pub mod Turns
mod Players
mod Opened
mod Passing
pub mod Stops
pub mod Numbers
pub mod Loop
mod Scan
mod Waiting
mod Commits
pub mod OutOfTurn
use mathlib.Core.Path.{subst}
use mathlib.Core.List.{append_assoc, append-nil}
use block_rust.Base.{
  ◌≡◌, refl, sym, ap, ◌∙◌, true, false, none, List, [], ◌∷◌, ◌++◌, arith, Outcome-cases, inl, inr,
  ok, err, panic, Outcome,
}
use block_rust.OrdMap.{get}
use block_rust.Base.Exec.{Exec, pure, continue, ◌>>◌}
use block_rust.Types.{Address, Batch, BatchCommit, Commit}
use block_rust.Command.{Command}
use block_rust.CommitLog.{CommitCommand}
use block_rust.BatchPlayer
use block_rust.BatchPlayer.{BatchPlayer, record_command, replay}
use block_rust.Index.Defs
use block_rust.Index.Defs.{Index}
use block_rust.Tree.CommitToIndex.{commit_to_index, commit_ops}
use block_rust.Tree.Replay.{InitReplayer, init_replayer, replay_commit, waits}
use block_rust.Tree.Replay.Plain.{items}
use block_rust.Tree.Recovery.Pairs.{pairs-push, pair_of, pairs, has, Apart, has_ready}
use block_rust.Tree.Recovery.Turns.{in_turn}
use block_rust.Tree.Recovery.Stops.{after, Plays, Plays-push, after-append}
use block_rust.Tree.Recovery.Numbers.{
  largest, largest_commit, largest-append, largest_commit-append,
}
use block_rust.Tree.Recovery.Loop.{
  committed_pairs, committed_pairs-append, replay_all, replay_all-push,
}
use block_rust.Tree.Recovery.Scan.{IsGood, IsAt, commit-ops}
use block_rust.Tree.Recovery.Commits.{replay_commit-Commits}

-- The life of a tree: its log, the commits, the player of all logged commands, which keeps what is closed
-- in memory only, and its index. It logs a command and records it,
-- where a command that makes a commit ready or aborts one has a batch commit of its own, and a batch
-- may have many of them; or it commits what is ready, once and in turn.
pub data Life : List (Command × Address) → List CommitCommand → BatchPlayer → Index → Type 0 where
  born : Life [] [] BatchPlayer.new Defs.new
  logged :
      (cmd : Command) (a : Address) {log : List (Command × Address)} {cs : List CommitCommand}
      {player player' : BatchPlayer} {index : Index}
      → Life log cs player index
      → Apart (pairs log ++ pair_of cmd)
      → record_command cmd a player ≡ (ok tt, player')
      → Life (log ++ (cmd, a) ∷ []) cs player' index
  committed :
      (c : CommitCommand) {log : List (Command × Address)} {cs : List CommitCommand}
      {player : BatchPlayer} {index index' : Index}
      → Life log cs player index
      → has_ready c.batch c.batch_commit log ≡ true
      → has c.batch c.batch_commit (committed_pairs cs) ≡ false
      → in_turn c.batch c.batch_commit (committed_pairs cs) log ≡ true
      → commit_to_index player c.batch c.batch_commit c.commit index ≡ (ok tt, index')
      → Life log (cs ++ c ∷ []) player index'

pub Life-Apart :
    {log : List (Command × Address)} {cs : List CommitCommand} {player : BatchPlayer}
    {index : Index}
    → Life log cs player index
    → Apart (pairs log)
Life-Apart born = tt
Life-Apart (logged cmd a {log} l d e) = rw (pairs-push log cmd a) d
Life-Apart (committed c l q f turn e) = Life-Apart l

-- The index of a tree without commits.
pub Life-new :
    {log : List (Command × Address)} {cs : List CommitCommand} {player : BatchPlayer}
    {index : Index}
    → Life log cs player index
    → cs ≡ []
    → index ≡ Defs.new
Life-new born h = refl
Life-new (logged cmd a l d e) h = Life-new l h
Life-new (committed c {log} {cs} l q f turn e) h = absurd (push-ne-nil cs c h)
  where
    push-ne-nil : (xs : List CommitCommand) (x : CommitCommand) → xs ++ x ∷ [] ≡ [] → ⊥
    push-ne-nil [] x k = cc
    push-ne-nil (y ∷ xs) x k = cc

-- What the replay of the commits makes of the log, when the log goes on with `more`.
abbrev pub Follows :
    (log : List (Command × Address)) (cs : List CommitCommand) (player : BatchPlayer)
    (index : Index) (more : List (Command × Address))
    → Type 0
Follows log cs player index more =
    (r : InitReplayer) × (replay_all cs (init_replayer (items (log ++ more)) Defs.new) ≡ (ok tt, r))
    × IsAt log more (committed_pairs cs) player index r

pub follows :
    {log : List (Command × Address)} {cs : List CommitCommand} {player : BatchPlayer}
    {index : Index} (more : List (Command × Address))
    → Life log cs player index
    → Follows log cs player index more
unfolding replay_all get waits commit_to_index largest largest_commit
follows more born = (
  init_replayer (items more) Defs.new,
  refl,
  record {
    read = [];
    rest = [];
    split = refl;
    p = BatchPlayer.new;
    live = refl;
    plays = tt;
    stream = refl;
    index_same = refl;
    good = record { same = λ b. refl; waiting = λ b bc. refl; within = λ b bc k. absurd (cc) };
    numbers = (refl, refl);
    tight = tt;
  },
)
follows more (logged cmd a {log} {cs} {player} {player'} {index} l d e) =
    let (r, run, at) = follows ((cmd, a) ∷ more) l in
    (
      r,
      rw (append_assoc log ((cmd, a) ∷ []) more) run,
      record {
        read = at.read;
        rest = at.rest ++ (cmd, a) ∷ [];
        split =
            ap (λ x. x ++ (cmd, a) ∷ []) at.split ∙ append_assoc at.read at.rest ((cmd, a) ∷ []);
        p = at.p;
        live =
            after-append at.p at.rest ((cmd, a) ∷ [])
            ∙ ap (λ x. (record_command cmd a x).1) at.live
            ∙ ap (λ x. x.1) e;
        plays =
            Plays-push at.p at.rest cmd a at.plays
              (ap (λ x. (record_command cmd a x).0) at.live ∙ ap (λ x. x.0) e);
        stream = rw (append_assoc at.rest ((cmd, a) ∷ []) more) at.stream;
        index_same = at.index_same;
        good = at.good;
        numbers = at.numbers;
        tight = at.tight;
      },
    )
follows more (committed c {log} {cs} {player} {index} {index'} l q f turn e) =
    let (r, run, at) = follows more l in
    elim (Outcome-cases (replay c.batch c.batch_commit player)) [
      | inl (ops, replayed) ↦
          let e' = sym (commit-ops c.batch c.batch_commit c.commit player ops index replayed) ∙ e in
          let (r', step, at') =
            replay_commit-Commits c.batch c.batch_commit c.commit ops index' log more
              (committed_pairs cs) player replayed index r (Life-Apart l) q f turn e' at in
          (
            r',
            replay_all-push cs c (init_replayer (items (log ++ more)) Defs.new) r run
                ∙ rw (replay_all, step) refl,
            rw (committed_pairs-append cs (c ∷ [])) at',
          )
      | inr (inl (x, failed)) ↦ absurd (cc (rw (failed, commit_to_index) at e))
      | inr (inr failed) ↦ absurd (cc (rw (failed, commit_to_index) at e))
    ]

followed :
    {log : List (Command × Address)} {cs : List CommitCommand} {player : BatchPlayer}
    {index : Index}
    → Life log cs player index
    → (r : InitReplayer) × (replay_all cs (init_replayer (items (log ++ [])) Defs.new) ≡ (ok tt, r))
      × IsAt log [] (committed_pairs cs) player index r
followed l = follows [] l

-- The end of a replay: the index, and the largest numbers of the whole log, which the rest of it can
-- still be read for.
pub record Ends (log : List (Command × Address)) (index : Index) (r : InitReplayer) : Type 0 where
  pub rest : List (Command × Address)
  pub stream : r.cmd_stream ≡ items rest
  pub index_same : r.index ≡ index
  pub batches : largest r.max_batch_seen rest ≡ largest none log
  pub batch_commits : largest_commit r.max_batch_commit_seen rest ≡ largest_commit none log

-- The replay of the commits over the log of a tree returns, and has the index of the running tree.
pub replay_all-Life :
    {log : List (Command × Address)} {cs : List CommitCommand} {player : BatchPlayer}
    {index : Index}
    → Life log cs player index
    → (r : InitReplayer) × (replay_all cs (init_replayer (items log) Defs.new) ≡ (ok tt, r))
      × Ends log index r
replay_all-Life {log} {cs} l =
    let (r, run, at) = followed l in
    (
      r,
      subst (λ x. replay_all cs (init_replayer (items x) Defs.new) ≡ (ok tt, r)) (append-nil log)
          run,
      record {
        rest = at.rest;
        stream = subst (λ x. r.cmd_stream ≡ items x) (append-nil at.rest) at.stream;
        index_same = at.index_same;
        batches =
            ap (λ x. largest x at.rest) at.numbers.0
            ∙ sym (largest-append none at.read at.rest)
            ∙ ap (largest none) (sym at.split);
        batch_commits =
            ap (λ x. largest_commit x at.rest) at.numbers.1
            ∙ sym (largest_commit-append none at.read at.rest)
            ∙ ap (largest_commit none) (sym at.split);
      },
    )
