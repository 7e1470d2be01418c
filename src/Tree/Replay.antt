-- ===== src/Tree/Replay.antt =====
-- tree.rs: `InitReplayer`, which rebuilds an index from the log of its tree, commit by commit.
pub mod Plain
pub mod Mismatch
pub mod Places
pub mod Steps
pub mod Reached
use Prim.Native.Nat.{max}
use block_rust.Base.{
  ℕ, Bool, true, false, not, ◌&&◌, ◌||◌, xor, Option, none, some, List, [], ◌∷◌, ◌==◌,
  if◌then◌else◌, Outcome, ok, err, panic, Error, batch_mismatch, duplicate_batch_commit,
  closed_before_commit, redundant_open, stray_close, not_opened, commit_not_found,
}
use block_rust.Base.Exec.{Exec, pure, fail, lift, gets, update, require, continue, ◌>>=◌, ◌>>◌}
use block_rust.Base.Ord.{nat_ord}
use block_rust.OrdMap.{OrdMap, get, contains_key, insert, remove}
use block_rust.Types.{Batch, BatchCommit, Commit, Address}
use block_rust.Command
use block_rust.Command.{Command, batch}
use block_rust.BatchPlayer
use block_rust.BatchPlayer.{BatchPlayer, record_command}
use block_rust.Index.Defs.{Index}
use block_rust.Tree.CommitToIndex.{commit_to_index}

-- The stream is the list of the items that it is still to yield. The index is that of the tree.
pub record InitReplayer : Type 0 where
  pub cmd_stream : List (Outcome (Command × Address))
  pub index : Index
  pub batch_players : OrdMap Batch BatchPlayer
  pub max_batch_seen : Option Batch
  pub max_batch_commit_seen : Option BatchCommit
  pub waiting_to_commit : List (Batch × BatchCommit)

-- `Tree::init_replayer`, on the stream of the log and the index of the tree.
abbrev pub init_replayer : List (Outcome (Command × Address)) → Index → InitReplayer
init_replayer stream index = record {
  cmd_stream = stream;
  index = index;
  batch_players = [];
  max_batch_seen = none;
  max_batch_commit_seen = none;
  waiting_to_commit = [];
}

-- The set of the commits that wait.
unfoldable pub waits : Batch → BatchCommit → List (Batch × BatchCommit) → Bool
waits b c [] = false
waits b c ((b', c') ∷ set) = (b == b' && c == c') || waits b c set

unfoldable pub take_out :
    Batch → BatchCommit → List (Batch × BatchCommit) → List (Batch × BatchCommit)
take_out b c [] = []
take_out b c ((b', c') ∷ set) =
    let rest = take_out b c set in if b == b' && c == c' then rest else (b', c') ∷ rest

-- The larger of what was seen and what is new.
unfoldable pub max_seen : Option ℕ → Option ℕ → Option ℕ
max_seen none new = new
max_seen (some seen) (some new) = some (max seen new)
max_seen (some seen) none = some seen

-- `update_max_batch_and_batch_commit`.
unfoldable pub update_max : Option Batch → Option BatchCommit → InitReplayer → InitReplayer
unfolding max_seen
update_max new_batch new_batch_commit r = record r {
  max_batch_seen = max_seen r.max_batch_seen new_batch;
  max_batch_commit_seen = max_seen r.max_batch_commit_seen new_batch_commit;
}

-- The recording of a command with the player of its batch.
unfoldable pub recorded : Command → Address → Option BatchPlayer → Exec InitReplayer (Unit {0})
recorded cmd addr none r = (err not_opened, r)
recorded cmd addr (some player) r =
    let (result, player') = record_command cmd addr player in
    (result, record r { batch_players = insert (batch cmd) player' r.batch_players })

-- `record_cmd`.
unfoldable pub record_cmd : Command → Address → Exec InitReplayer (Unit {0})
unfolding recorded batch
record_cmd cmd addr r = recorded cmd addr (get (batch cmd) r.batch_players) r

-- `commit_to_index` with the player of the batch, which is the error `missing` if there is none.
unfoldable pub commit_player :
    Outcome (Unit {0})
    → Batch
    → BatchCommit
    → Commit
    → Option BatchPlayer
    → Exec InitReplayer (Unit {0})
commit_player missing b bc c none r = (missing, r)
commit_player missing b bc c (some player) r =
    let (result, index) = commit_to_index player b bc c r.index in
    (result, record r { index = index })

unfoldable pub commit_batch :
    Outcome (Unit {0}) → Batch → BatchCommit → Commit → Exec InitReplayer (Unit {0})
unfolding commit_player
commit_batch missing b bc c r = commit_player missing b bc c (get b r.batch_players) r

-- A ready or aborted commit that is not the target is kept for later.
unfoldable pub keep_waiting : Batch → BatchCommit → Exec InitReplayer (Unit {0})
keep_waiting b bc r =
    if waits b bc r.waiting_to_commit
    then (err duplicate_batch_commit, r)
    else (ok tt, record r { waiting_to_commit = (b, bc) ∷ r.waiting_to_commit })

-- The match of `replay_commit` on a command. It returns whether the target was reached.
unfoldable pub replay_cmd :
    Batch → BatchCommit → Commit → Command → Address → Exec InitReplayer Bool
unfolding commit_batch keep_waiting
replay_cmd target target_commit commit (Command.open_batch b) addr = do
  known ← gets (λ r. contains_key b r.batch_players)
  lift (if known then err redundant_open else ok tt)
  update (λ r. record r { batch_players = insert b BatchPlayer.new r.batch_players })
  record_cmd (Command.open_batch b) addr
  pure false
replay_cmd target target_commit commit (Command.close b) addr = do
  known ← gets (λ r. contains_key b r.batch_players)
  lift (if known then ok tt else err stray_close)
  record_cmd (Command.close b) addr
  update (λ r. record r { batch_players = remove b r.batch_players })
  pure false
replay_cmd target target_commit commit (Command.ready_commit b bc) addr = do
  record_cmd (Command.ready_commit b bc) addr
  lift (if xor (target == b) (target_commit == bc) then err batch_mismatch else ok tt)
  if target == b && target_commit == bc
      then (do commit_batch panic b bc commit; pure true)
      else (do keep_waiting b bc; pure false)
replay_cmd target target_commit commit (Command.abort_commit b bc) addr = do
  record_cmd (Command.abort_commit b bc) addr
  lift (if xor (target == b) (target_commit == bc) then err batch_mismatch else ok tt)
  if target == b && target_commit == bc then pure true else (do keep_waiting b bc; pure false)
replay_cmd target target_commit commit cmd addr = do record_cmd cmd addr; pure false

-- The number of the commit in a command, if it has one.
unfoldable pub new_batch_commit : Command → Option BatchCommit
new_batch_commit (Command.ready_commit b bc) = some bc
new_batch_commit (Command.abort_commit b bc) = some bc
new_batch_commit cmd = none

-- The loop of `replay_commit` over the items of the stream.
unfoldable pub replay_items :
    Batch → BatchCommit → Commit → List (Outcome (Command × Address)) → Exec InitReplayer (Unit {0})
unfolding replay_cmd update_max new_batch_commit
replay_items target target_commit commit [] r = (err commit_not_found, record r { cmd_stream = [] })
replay_items target target_commit commit (err e ∷ rest) r = (err e, record r { cmd_stream = rest })
replay_items target target_commit commit (panic ∷ rest) r = (panic, record r { cmd_stream = rest })
replay_items target target_commit commit (ok (cmd, addr) ∷ rest) r =
    (replay_cmd target target_commit commit cmd addr >>= λ done r'.
    let r'' = update_max (some (batch cmd)) (new_batch_commit cmd) r' in
    let more = replay_items target target_commit commit rest r'' in
    if done then (ok tt, r'') else more)
      (record r { cmd_stream = rest })

-- `replay_commit`.
unfoldable pub replay_commit : Batch → BatchCommit → Commit → Exec InitReplayer (Unit {0})
unfolding replay_items commit_batch
replay_commit target target_commit commit r =
    if waits target target_commit r.waiting_to_commit
    then commit_batch (err closed_before_commit) target target_commit commit
        (record r { waiting_to_commit = take_out target target_commit r.waiting_to_commit })
    else replay_items target target_commit commit r.cmd_stream r

-- `replay_rest`.
unfoldable pub rest_items :
    List (Outcome (Command × Address)) → Exec InitReplayer (Option Batch × Option BatchCommit)
unfolding update_max new_batch_commit
rest_items [] r = (ok (r.max_batch_seen, r.max_batch_commit_seen), record r { cmd_stream = [] })
rest_items (err e ∷ rest) r = (err e, record r { cmd_stream = rest })
rest_items (panic ∷ rest) r = (panic, record r { cmd_stream = rest })
rest_items (ok (cmd, addr) ∷ rest) r =
    rest_items rest
      (update_max (some (batch cmd)) (new_batch_commit cmd) (record r { cmd_stream = rest }))

unfoldable pub replay_rest : Exec InitReplayer (Option Batch × Option BatchCommit)
unfolding rest_items
replay_rest r = rest_items r.cmd_stream r
