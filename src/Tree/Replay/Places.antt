-- ===== src/Tree/Replay/Places.antt =====
-- tree.rs: what a commit of the replay leaves, and which methods keep index and stream.
use block_rust.Base.{
  Bool, ◌+◌, ◌<◌, ◌≤◌, ◌≡◌, refl, sym, ap, ◌∙◌, true, false, ltb, leb, ltb→lt, List, arith, u64_mod,
  Outcome, ok, Outcome-cases, Bool-cases, Option-cases, inl, inr,
}
use block_rust.Base.Ord.{nat_ord}
use block_rust.OrdMap.{get}
use block_rust.Types.{Address, Batch, BatchCommit, Commit}
use block_rust.Command.{Command, batch}
use block_rust.BatchPlayer.{BatchPlayer, IndexOp, replay}
use block_rust.Index.Defs.{Index}
use block_rust.Index.Writer.{Writer, drop}
use block_rust.Index.Events.{Event}
use block_rust.Tree.CommitToIndex.{commit_to_index, commit_ops, apply_ops}
use block_rust.Tree.CommitOps.{
  IsIndex, opened, opened-IsWriting, commit_ops-stale, commit_ops-drop, AnyOp, All-AnyOp,
  AllOps-AnyOp,
}
use block_rust.Tree.Commits.{apply_ops-IsWriting}
use block_rust.Tree.Snapshots.{committed-IsAfter}
use block_rust.Tree.Replay.{
  InitReplayer, recorded, commit_batch, commit_player, keep_waiting, record_cmd, waits,
}

-- The index stands for a history, and its next commit is `n`.
pub record IsAt (n : Commit) (index : Index) : Type 0 where
  pub events : List Event
  pub is_index : IsIndex index events
  pub next : index.maybe_next_commit ≡ n

drop-bound : (r : Outcome (Unit {0})) (w : Writer) → (drop r w).0 ≡ ok tt → w.commit + 1 < u64_mod
unfolding drop
drop-bound r w h = elim (Bool-cases (ltb (w.commit + 1) u64_mod)) [
  | inl room ↦ ltb→lt _ _ room
  | inr full ↦ absurd (ground (arith, h, full))
]

-- A commit that returns a value was not too early or too large.
module _ {index : Index} {es : List Event} (h : IsIndex index es) (c : Commit) where
  commit_ops-bounds :
      (ops : List IndexOp)
      → (commit_ops c ops index).0 ≡ ok tt
      → (index.maybe_next_commit ≤ c) × (c + 1 < u64_mod)
  commit_ops-bounds ops r = elim (Bool-cases (leb index.maybe_next_commit c)) [
    | inr late ↦ absurd (ground (arith, r, commit_ops-stale c ops index (ground arith)))
    | inl early ↦
        let fits : index.maybe_next_commit ≤ c = ground arith in
        let (es', h', same, k', s') =
          apply_ops-IsWriting AnyOp ops (opened index c) es (opened-IsWriting h c fits)
            (All-AnyOp ops) (AllOps-AnyOp es) in
        let r' = ap (λ x. x.0) (sym (commit_ops-drop c ops index fits)) ∙ r in
        (fits, omega (arith, same, drop-bound _ (apply_ops ops (opened index c)).1 r'))
  ]

  commit_to_index-IsAt :
      (player : BatchPlayer) (b : Batch) (bc : BatchCommit)
      → (commit_to_index player b bc c index).0 ≡ ok tt
      → IsAt (c + 1) (commit_to_index player b bc c index).1
  unfolding commit_to_index
  commit_to_index-IsAt player b bc r = elim (Outcome-cases (replay b bc player)) [
    | inr (inl (e, failed)) ↦ absurd (cc (rw (failed, commit_to_index) at r))
    | inr (inr failed) ↦ absurd (cc (rw (failed, commit_to_index) at r))
    | inl (ops, replayed) ↦
        let (fits, room) = commit_ops-bounds ops (rw (replayed, commit_to_index) at r) in
        let (k, n) = committed-IsAfter h c room fits (replay b bc player) in
        record { events = k.events; is_index = k.is_index; next = n r }
  ]

-- The index and the stream are those of before.
pub record IsSame (r r' : InitReplayer) : Type 0 where
  pub index : r'.index ≡ r.index
  pub stream : r'.cmd_stream ≡ r.cmd_stream

pub record_cmd-IsSame :
    (cmd : Command) (addr : Address) (r : InitReplayer) → IsSame r (record_cmd cmd addr r).1
unfolding record_cmd recorded
record_cmd-IsSame cmd addr r = elim (Option-cases (get (batch cmd) r.batch_players)) [
  | inl e ↦ rw (e, recorded) (record { index = refl; stream = refl })
  | inr (player, e) ↦ rw (e, recorded) (record { index = refl; stream = refl })
]

pub keep_waiting-IsSame :
    (b : Batch) (bc : BatchCommit) (r : InitReplayer) → IsSame r (keep_waiting b bc r).1
unfolding keep_waiting
keep_waiting-IsSame b bc r = elim (Bool-cases (waits b bc r.waiting_to_commit)) [
  | inl e ↦ rw e (record { index = refl; stream = refl })
  | inr e ↦ rw e (record { index = refl; stream = refl })
]

-- What a commit of the replay leaves if it returns a value.
pub record Reached (c : Commit) (r r' : InitReplayer) : Type 0 where
  pub at : IsAt (c + 1) r'.index
  pub stream : r'.cmd_stream ≡ r.cmd_stream

pub commit_batch-Reached :
    (missing : Outcome (Unit {0})) (b : Batch) (bc : BatchCommit) (c n : Commit) (r : InitReplayer)
    → (missing ≡ ok tt → ⊥)
    → IsAt n r.index
    → (commit_batch missing b bc c r).0 ≡ ok tt
    → Reached c r (commit_batch missing b bc c r).1
unfolding commit_batch commit_player
commit_batch-Reached missing b bc c n r fails h e = elim (Option-cases (get b r.batch_players)) [
  | inl none_here ↦ absurd (fails (rw (none_here, commit_player) at e))
  | inr (player, found) ↦
      rw (found, commit_player)
        (record {
          at = commit_to_index-IsAt h.is_index c player b bc (rw (found, commit_player) at e);
          stream = refl;
        })
]

-- A command of the log behind which the replay has reached the commit, or goes on.
abbrev pub After : Commit → InitReplayer → InitReplayer → Bool → Type 0
After c r r' true = Reached c r r'
After c r r' false = IsSame r r'

abbrev pub NoAbort : Command → Type 0
NoAbort (Command.abort_commit b bc) = ⊥
NoAbort _ = Unit
