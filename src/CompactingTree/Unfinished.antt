-- ===== src/CompactingTree/Unfinished.antt =====
-- compacting_tree.rs: what the unfinished compaction does.
use block_rust.Base.{ℕ, ◌≡◌, refl, Bool, true, false, some, arith, inl, inr, ◌⊎◌, ok, panic}
use block_rust.Command.{Command}
use block_rust.LogFile.{LogFile}
use block_rust.CompactingTree.{
  CompactingTree, CompactState, not_compacting, compacting_now, Trees, initial, normal,
  initial_compacting, compacting, compact, compaction, claim, under_write,
  move_trees_for_compaction,
}

module _ (f : LogFile Command) where
  move-panic : (trees : Trees f) → move_trees_for_compaction f trees ≡ panic
  unfolding move_trees_for_compaction
  move-panic (initial active) = refl
  move-panic (normal active compacted trash) = refl
  move-panic (initial_compacting active being wip) = refl
  move-panic (compacting active being compacted wip trash) = refl

  -- One call of `compact`, and the calls behind it.
  abbrev pub Claimed : ℕ → CompactingTree f → Type 0
  Claimed fuel c =
      ((c.compact_state ≡ compacting_now) × (compact f fuel c ≡ (ok (some false), c)))
      ⊎ ((c.compact_state ≡ not_compacting)
          × ((compact f fuel c).0 ≡ panic)
          × ((compact f fuel c).1.trees ≡ c.trees)
          × ((later : ℕ)
              → compact f later (compact f fuel c).1 ≡ (ok (some false), (compact f fuel c).1)))

  -- A compaction is claimed once. A call that finds it claimed returns false and changes nothing. Any
  -- other call panics and keeps the trees, and every call behind it returns false and changes nothing.
  pub compact-Claimed : (fuel : ℕ) (c : CompactingTree f) → Claimed fuel c
  unfolding compact claim compaction under_write
  compact-Claimed fuel c = by_state c.compact_state c.poisoned refl refl
    where
      by_state :
          (s : CompactState) (p : Bool) → c.compact_state ≡ s → c.poisoned ≡ p → Claimed fuel c
      by_state compacting_now p e q = inl (e, ground (arith, e))
      by_state not_compacting true e q =
          inr (e, ground (arith, e, q), ground (arith, e, q), λ later. ground (arith, e, q))
      by_state not_compacting false e q =
          let stuck = move-panic c.trees in
          inr (
            e,
            ground (arith, e, q, stuck),
            ground (arith, e, q, stuck),
            λ later. ground (arith, e, q, stuck),
          )
