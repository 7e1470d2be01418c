-- ===== src/Tree/Visible.antt =====
-- tree.rs, index.rs: a commit to an index that returns a value has applied the whole batch.
use block_rust.Base.{
  ◌+◌, ◌<◌, ◌≤◌, ◌≡◌, refl, inl, inr, true, List, [], ◌∷◌, arith, ltb, u32_mod, u64_mod, length, ok,
  Bool-cases, Outcome-cases, ltb→lt,
}
use block_rust.Types.{Key, Batch, BatchCommit, Commit}
use block_rust.BatchPlayer.{BatchPlayer, IndexOp, replay}
use block_rust.Index.Defs.{Index, key_true_value}
use block_rust.Index.Writer.{Writer, drop}
use block_rust.Index.Events.{Event, effects, view, AllBefore}
use block_rust.Index.History.{IsWriting, event, key_true_value-view}
use block_rust.Tree.CommitToIndex
use block_rust.Tree.CommitToIndex.{apply_op, apply_ops, commit_ops}
use block_rust.Tree.Commits.{
  in_order, all_in_order, push_events, view-push_events, apply_op-Applied, apply_op-full,
  apply_op-disorder,
}
use block_rust.Tree.CommitOps.{IsIndex, opened, opened-IsWriting, commit_ops-ok}

-- The ranges were in order, and a `u32` has counted the writes.
apply_ops-returned :
    (ops : List IndexOp) (w : Writer) (es : List Event)
    → IsWriting w es
    → w.batch_index < u32_mod
    → (apply_ops ops w).0 ≡ ok tt
    → (all_in_order ops ≡ true) × (w.batch_index + length ops < u32_mod)
unfolding apply_ops all_in_order
apply_ops-returned [] w es h fits r = (refl, omega arith)
apply_ops-returned (op ∷ ops) w es h fits r = elim (Bool-cases (ltb (w.batch_index + 1) u32_mod)) [
  | inr full ↦ absurd (cc (rw (apply_op-full h op (ground arith)) at r))
  | inl room ↦ elim (Bool-cases (in_order op)) [
    | inr bad ↦ absurd (cc (rw (apply_op-disorder h op bad (ground arith)) at r))
    | inl good ↦
        let (w', e, applied) = apply_op-Applied h op good (ground arith) in
        let (order, count) =
          apply_ops-returned ops w' (event w op ∷ es) applied.writing
            (omega (arith, applied.position, ltb→lt _ _ room)) (rw e at r) in
        (rw (good, order), omega (arith, applied.position, count))
  ]
]

-- What stands at and above the limit `m` is not there yet, so that a later limit sees no more.
view-AllBefore :
    (c d m : Commit) (es : List Event) (key : Key)
    → AllBefore es m 0
    → m ≤ c
    → m ≤ d
    → view c es key ≡ view d es key
unfolding view
view-AllBefore c d m [] key b h k = refl
view-AllBefore c d m (e ∷ es) key b h k = ground (arith, view-AllBefore c d m es key b.1 h k)

module _ {index : Index} {es : List Event} (h : IsIndex index es) (c : Commit) where
  commit_ops-returned :
      (ops : List IndexOp)
      → index.maybe_next_commit ≤ c
      → c + 1 < u64_mod
      → (commit_ops c ops index).0 ≡ ok tt
      → (index' : Index) × (commit_ops c ops index ≡ (ok tt, index'))
        × ((key : Key)
            → key_true_value index'.state (c + 1) key
              ≡ effects ops key (key_true_value index.state c key))
  unfolding commit_ops drop
  commit_ops-returned ops fits room r =
      let done : (apply_ops ops (opened index c)).0 ≡ ok tt = ground arith in
      let (order, count) =
        apply_ops-returned ops (opened index c) es (opened-IsWriting h c fits) (omega arith) done in
      let (index', e, h', n) = commit_ops-ok h c ops fits order (omega (arith, count)) room in
      (
        index',
        e,
        λ key. ground (
          arith,
          key_true_value-view index.state es c key h.represents,
          key_true_value-view index'.state (push_events c 0 ops es) (c + 1) key h'.represents,
          view-push_events (c + 1) c 0 ops es key,
          view-AllBefore (c + 1) c index.maybe_next_commit es key h.before (omega (arith, fits))
              fits,
        ),
      )

  -- The batch was replayed, and its writes applied.
  pub commit_to_index-returned :
      (player : BatchPlayer) (b : Batch) (bc : BatchCommit)
      → index.maybe_next_commit ≤ c
      → c + 1 < u64_mod
      → (CommitToIndex.commit_to_index player b bc c index).0 ≡ ok tt
      → (ops : List IndexOp) × (replay b bc player ≡ ok ops)
        × ((key : Key)
            → key_true_value (CommitToIndex.commit_to_index player b bc c index).1.state (c + 1) key
              ≡ effects ops key (key_true_value index.state c key))
  unfolding CommitToIndex.commit_to_index
  commit_to_index-returned player b bc fits room r = elim (Outcome-cases (replay b bc player)) [
    | inl (ops, e) ↦
        let (index', q, seen) =
          commit_ops-returned ops fits room (rw (e, CommitToIndex.commit_to_index) at r) in
        (ops, e, λ key. rw (e, CommitToIndex.commit_to_index, q) (seen key))
    | inr (inl (x, e)) ↦ absurd (cc (rw (e, CommitToIndex.commit_to_index) at r))
    | inr (inr e) ↦ absurd (cc (rw (e, CommitToIndex.commit_to_index) at r))
  ]
