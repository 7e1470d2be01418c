-- ===== src/Loader.antt =====
-- loader.rs: rebuilds the trees from their logs and the commit log.
pub mod Counters
pub mod Reached
pub mod Recovery
pub mod Mismatch
use block_rust.Base.{
  ℕ, ◌+◌, Bool, true, false, Option, none, some, List, [], ◌∷◌, ltb, if◌then◌else◌, u64_mod,
  checked_add, Outcome, ok, err, panic, non_monotonic, expect, ◌>>=◌,
}
use block_rust.Base.Exec.{Exec}
use block_rust.OrdMap.{OrdMap}
use block_rust.Types.{Batch, BatchCommit, Commit}
use block_rust.CommitLog.{CommitCommand}
use block_rust.Tree.Replay.{InitReplayer, replay_commit, replay_rest, max_seen}

pub record DbInitState : Type 0 where
  pub next_batch : Batch
  pub next_batch_commit : BatchCommit
  pub next_commit : Commit

-- The players of the trees, by the trees' names.
abbrev pub Players : Type 0
Players = OrdMap (List ℕ) InitReplayer

-- The inner loop: each tree replays the commit.
unfoldable pub replay_in_all : CommitCommand → Players → Outcome Players
replay_in_all next [] = ok []
replay_in_all next ((name, player) ∷ rest) =
    let (result, player') = replay_commit next.batch next.batch_commit next.commit player in
    result >>= λ _. replay_in_all next rest >>= λ rest'. ok ((name, player') ∷ rest')

-- The test that commit numbers grow.
unfoldable pub check_monotonic : Option Commit → Commit → Outcome (Unit {0})
check_monotonic none commit = ok tt
check_monotonic (some max_commit) commit =
    if ltb max_commit commit then ok tt else err non_monotonic

-- The loop over the commit log: the largest commit and the players behind it.
unfoldable pub replay_commits :
    Option Commit → List (Outcome CommitCommand) → Players → Outcome (Option Commit × Players)
unfolding replay_in_all check_monotonic
replay_commits max_commit [] players = ok (max_commit, players)
replay_commits max_commit (next_commit ∷ rest) players = next_commit >>= λ next.
    replay_in_all next players >>= λ players'.
    check_monotonic max_commit next.commit >>= λ _. replay_commits (some next.commit) rest players'

-- The loop that reads the rest of each tree's log.
unfoldable pub replay_rests :
    Option Batch
    → Option BatchCommit
    → Players
    → Outcome (Option Batch × Option BatchCommit × Players)
replay_rests max_batch max_batch_commit [] = ok (max_batch, max_batch_commit, [])
replay_rests max_batch max_batch_commit ((name, player) ∷ rest) =
    let (result, player') = replay_rest player in
    result >>= λ seen.
    replay_rests (max_seen max_batch seen.0) (max_seen max_batch_commit seen.1) rest >>= λ r.
    ok (r.0, r.1, (name, player') ∷ r.2)

-- `n.map(|b| b.checked_add(1).expect("overflow")).unwrap_or(0)`.
unfoldable pub after : Option ℕ → Outcome ℕ
after none = ok 0
after (some n) = expect (checked_add u64_mod n 1)

unfoldable pub init_state : Option Batch → Option BatchCommit → Option Commit → Outcome DbInitState
unfolding after
init_state max_batch max_batch_commit max_commit = do
  next_batch ← after max_batch
  next_batch_commit ← after max_batch_commit
  next_commit ← after max_commit
  ok (record {
    next_batch = next_batch;
    next_batch_commit = next_batch_commit;
    next_commit = next_commit;
  })

-- `load`, on whether the commit log is empty, the stream of the commit log and the new players of the
-- trees. It returns the state of the database's counters and the players whose indexes the trees share.
unfoldable pub load :
    Outcome Bool → List (Outcome CommitCommand) → Players → Outcome (DbInitState × Players)
unfolding replay_commits replay_rests init_state
load is_empty commit_stream players = is_empty >>= λ empty.
    if empty
    then ok (record { next_batch = 0; next_batch_commit = 0; next_commit = 0 }, players)
    else (replay_commits none commit_stream players >>= λ replayed.
        replay_rests none none replayed.1 >>= λ seen.
        init_state seen.0 seen.1 replayed.0 >>= λ state. ok (state, seen.2))
