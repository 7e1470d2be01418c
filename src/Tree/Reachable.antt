-- ===== src/Tree/Reachable.antt =====
-- tree.rs, index.rs: every index that commits build stands for the history of their writes.
use block_rust.Base.{
  ◌+◌, ◌<◌, ◌≤◌, ◌≡◌, refl, true, false, List, [], ◌∷◌, ◌++◌, arith, ltb, if◌then◌else◌, u32_mod,
  u64_mod, length, ok, panic,
}
use block_rust.Types.{Key, Commit}
use block_rust.BatchPlayer.{IndexOp}
use block_rust.Index.Defs
use block_rust.Index.Defs.{Index, IndexState, key_true_value, read, point_query, range_delete_query}
use block_rust.Index.Events.{Event, effects}
use block_rust.Index.History.{key_true_value-view}
use block_rust.Tree.CommitToIndex.{commit_ops}
use block_rust.Tree.Commits.{in_order, all_in_order, push_events, view-push_events}
use block_rust.Tree.CommitOps.{
  IsIndex, new-IsIndex, commit_ops-ok, commit_ops-disorder, commit_ops-IsIndex, AnyOp, All-AnyOp,
  AllOps-AnyOp,
}

-- The indexes that commits build, whatever their numbers and writes, and however they end.
pub data Reachable : Index → Type 0 where
  start : Reachable Defs.new
  commit :
      (c : Commit) (ops : List IndexOp) {index index' : Index}
      → c + 1 < u64_mod
      → Reachable index
      → index' ≡ (commit_ops c ops index).1
      → Reachable index'

pub Reachable-IsIndex : {index : Index} → Reachable index → (es : List Event) × IsIndex index es
Reachable-IsIndex start = ([], new-IsIndex)
Reachable-IsIndex (commit c ops {index} room r e) =
    let (es, h) = Reachable-IsIndex r in
    let (es', h', k) =
      commit_ops-IsIndex AnyOp c ops index es room h (All-AnyOp ops) (AllOps-AnyOp es) in
    rw e (es', h')

module _ {index : Index} (r : Reachable index) (c : Commit) where
  -- Take an index that commits built, a commit number that it has not passed and that a `u64` can
  -- follow, and writes whose ranges are in order and whose number is below 2 ^ 32. Their commit
  -- succeeds. A limit above its number then sees the map it saw before, changed by the writes in their
  -- order; every other limit sees the map it saw before.
  pub commit_ops-view :
      (ops : List IndexOp)
      → index.maybe_next_commit ≤ c
      → all_in_order ops ≡ true
      → length ops < u32_mod
      → c + 1 < u64_mod
      → ((commit_ops c ops index).0 ≡ ok tt)
        × ((limit : Commit) (key : Key)
            → key_true_value (commit_ops c ops index).1.state limit key ≡ (
                if ltb c limit
                then effects ops key (key_true_value index.state limit key)
                else key_true_value index.state limit key))
  commit_ops-view ops fits order count room =
      let (es, h) = Reachable-IsIndex r in
      let (index', e, h', n) = commit_ops-ok h c ops fits order count room in
      rw e (
        refl,
        λ limit key. ground (
          arith,
          key_true_value-view index.state es limit key h.represents,
          key_true_value-view index'.state (push_events c 0 ops es) limit key h'.represents,
          view-push_events limit c 0 ops es key,
        ),
      )

  -- Take an index that commits built, a commit number that it has not passed and that a `u64` can
  -- follow, and writes of which one has a range that is not in order, with less than 2 ^ 32 - 1 writes
  -- before it whose ranges are in order. Their commit panics. A limit above its number then sees the
  -- map it saw before, changed by the writes before that range; every other limit sees the map it saw
  -- before.
  pub commit_ops-partial :
      (ops : List IndexOp) (bad : IndexOp) (rest : List IndexOp)
      → index.maybe_next_commit ≤ c
      → all_in_order ops ≡ true
      → in_order bad ≡ false
      → length ops + 1 < u32_mod
      → c + 1 < u64_mod
      → ((commit_ops c (ops ++ bad ∷ rest) index).0 ≡ panic)
        × ((limit : Commit) (key : Key)
            → key_true_value (commit_ops c (ops ++ bad ∷ rest) index).1.state limit key ≡ (
                if ltb c limit
                then effects ops key (key_true_value index.state limit key)
                else key_true_value index.state limit key))
  commit_ops-partial ops bad rest fits order wrong count room =
      let (es, h) = Reachable-IsIndex r in
      let (index', e, h', n) = commit_ops-disorder h c ops bad rest fits order wrong count room in
      rw e (
        refl,
        λ limit key. ground (
          arith,
          key_true_value-view index.state es limit key h.represents,
          key_true_value-view index'.state (push_events c 0 ops es) limit key h'.represents,
          view-push_events limit c 0 ops es key,
        ),
      )
