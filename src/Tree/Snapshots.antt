-- ===== src/Tree/Snapshots.antt =====
-- tree.rs, index.rs: what a commit leaves of an index, however it ends.
use block_rust.Base.{
  ◌+◌, ◌<◌, ◌≤◌, ◌≡◌, refl, sym, ◌∙◌, true, List, arith, ltb, u64_mod, Outcome, ok, err, panic,
}
use block_rust.Types.{Key, Commit}
use block_rust.BatchPlayer.{IndexOp}
use block_rust.Index.Defs.{Index, key_true_value}
use block_rust.Index.Writer.{Writer, drop}
use block_rust.Index.Events.{Event}
use block_rust.Index.History.{key_true_value-view}
use block_rust.Tree.CommitToIndex.{apply_ops, commit_ops}
use block_rust.Tree.Commits.{apply_ops-IsWriting}
use block_rust.Tree.CommitOps.{
  IsIndex, AnyOp, All-AnyOp, AllOps-AnyOp, opened, opened-IsWriting, drop-IsIndex, commit_ops-drop,
}

-- After a commit with the number `c`: the index still stands for a history, it has reached at least
-- what it had reached and at most `c + 1`, and the limits up to `c` see what they saw.
pub record IsAfter (c : Commit) (index index' : Index) : Type 0 where
  pub events : List Event
  pub is_index : IsIndex index' events
  pub not_back : index.maybe_next_commit ≤ index'.maybe_next_commit
  pub not_past : index'.maybe_next_commit ≤ c + 1
  pub snapshot :
      (limit : Commit) (key : Key)
      → limit ≤ c
      → key_true_value index'.state limit key ≡ key_true_value index.state limit key

drop-limit :
    (result : Outcome (Unit {0})) (w : Writer) (c : Commit)
    → w.commit ≡ c
    → c + 1 < u64_mod
    → ((drop result w).1.maybe_next_commit ≡ c + 1) × ((drop result w).1.state ≡ w.state)
unfolding drop
drop-limit result w c e room =
    let fits : ltb (w.commit + 1) u64_mod ≡ true = ground arith in
    rw (fits, drop) (ground arith, refl)

module _ {index : Index} {es : List Event} (h : IsIndex index es) (c : Commit)
    (room : c + 1 < u64_mod) (fits : index.maybe_next_commit ≤ c) where
  pub unchanged-IsAfter : IsAfter c index index
  unchanged-IsAfter = record {
    events = es;
    is_index = h;
    not_back = omega arith;
    not_past = omega arith;
    snapshot = λ limit key below. refl;
  }

  commit_ops-IsAfter :
      (ops : List IndexOp)
      → IsAfter c index (commit_ops c ops index).1
        × ((commit_ops c ops index).1.maybe_next_commit ≡ c + 1)
  commit_ops-IsAfter ops =
      let (es', h', ec, k', s') =
        apply_ops-IsWriting AnyOp ops (opened index c) es (opened-IsWriting h c fits)
          (All-AnyOp ops) (AllOps-AnyOp es) in
      let r = (apply_ops ops (opened index c)).0 in
      let w = (apply_ops ops (opened index c)).1 in
      let (n, s) = drop-limit r w c ec room in
      rw (commit_ops-drop c ops index fits) (
        record {
          events = es';
          is_index = drop-IsIndex r w es' c h' ec room;
          not_back = omega (arith, n, fits);
          not_past = omega (arith, n);
          snapshot = λ limit key below. rw s (
              key_true_value-view w.state es' limit key h'.represents
              ∙ s' limit key below
              ∙ sym (key_true_value-view index.state es limit key h.represents));
        },
        n,
      )

  -- The writes of a batch whose replay may panic.
  pub committed-IsAfter :
      (r : Outcome (List IndexOp))
      → let x : Outcome (Unit {0}) × Index = elim r [
        | ok ops ↦ commit_ops c ops index
        | err e ↦ (err e, index)
        | panic ↦ (panic, index)
      ] in
        IsAfter c index x.1 × (x.0 ≡ ok tt → x.1.maybe_next_commit ≡ c + 1)
  committed-IsAfter (ok ops) = let (k, n) = commit_ops-IsAfter ops in (k, λ done. n)
  committed-IsAfter (err e) = (unchanged-IsAfter, λ done. cc)
  committed-IsAfter panic = (unchanged-IsAfter, λ done. cc)
