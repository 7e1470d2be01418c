-- ===== src/CompactingTree.antt =====
-- compacting_tree.rs: `CompactingTree`, whose compaction is unfinished in the source: the functions whose
-- body is `todo!()` panic.
pub mod Cursor
pub mod Best
pub mod Seeks
pub mod Unfinished
use block_rust.Base.{
  ℕ, zero, suc, ◌+◌, Bool, true, false, Option, none, some, List, [], ◌∷◌, ltb, u64_mod, Outcome,
  ok, err, panic, if◌then◌else◌,
}
use block_rust.Base.Exec.{Exec, pure, lift, gets, update, ◌>>=◌, ◌>>◌}
use block_rust.Types.{Key, Value, Batch, BatchCommit, Commit}
use block_rust.Command.{Command}
use block_rust.LogFile.{LogFile}
use block_rust.Tree.Ops
use block_rust.Tree.Ops.{Tree}
use block_rust.CompactingTree.Cursor.{
  TreeCursor, MergeCursor, open_all, seek_first, valid, key, value,
}

abbrev pub compacted_batch_num : Batch
compacted_batch_num = 0

abbrev pub compacted_batch_commit_num : BatchCommit
compacted_batch_commit_num = 0

pub data CompactState : Type 0 where
  not_compacting compacting_now : CompactState

module _ (f : LogFile Command) where
  pub data Trees : Type 0 where
    initial : Tree f → Trees
    initial_compacting : (active compacting compacted_wip : Tree f) → Trees
    normal : (active compacted : Tree f) → List (Tree f) → Trees
    compacting : (active compacting compacted compacted_wip : Tree f) → List (Tree f) → Trees

  -- `poisoned` says that a panic met a holder of the write lock of `trees`.
  pub record CompactingTree : Type 0 where
    pub trees : Trees
    pub poisoned : Bool
    pub compact_state : CompactState

  -- The claim of the routine: false if another call holds it.
  unfoldable pub claim : Exec CompactingTree Bool
  claim c = elim c.compact_state [
    | not_compacting ↦ (ok true, record c { compact_state = compacting_now })
    | compacting_now ↦ (ok false, c)
  ]

  -- `self.trees.write().expect("lock")` and what is done under this lock.
  unfoldable pub under_write : (Trees → Outcome Trees) → Exec CompactingTree (Unit {0})
  under_write move c = if c.poisoned then (panic, c) else elim (move c.trees) [
    | ok trees ↦ (ok tt, record c { trees = trees })
    | err e ↦ (err e, c)
    | panic ↦ (panic, record c { poisoned = true })
  ]

  -- The arms are `todo!()`, or the panic "already compacting".
  unfoldable pub move_trees_for_compaction : Trees → Outcome Trees
  move_trees_for_compaction (initial active) = panic
  move_trees_for_compaction (normal active compacted trash) = panic
  move_trees_for_compaction (initial_compacting active being compacted_wip) = panic
  move_trees_for_compaction (compacting active being compacted compacted_wip trash) = panic

  -- The arms are `todo!()`, or the panic "not compacting".
  unfoldable pub move_trees_for_end_compaction : Trees → Outcome Trees
  move_trees_for_end_compaction (initial_compacting active being compacted_wip) = panic
  move_trees_for_end_compaction (compacting active being compacted compacted_wip trash) = panic
  move_trees_for_end_compaction (initial active) = panic
  move_trees_for_end_compaction (normal active compacted trash) = panic

  -- `todo!()`.
  unfoldable pub wait_for_all_writes_to_compacting_tree : Exec CompactingTree Commit
  wait_for_all_writes_to_compacting_tree c = (panic, c)

  unfoldable pub try_empty_trash : Exec CompactingTree (Unit {0})
  try_empty_trash c = (panic, c)

  -- `Commit(last_commit.0.checked_add(1).expect("overflow"))`.
  unfoldable pub limit_after : Commit → Outcome Commit
  limit_after last_commit = if ltb (last_commit + 1) u64_mod then ok (last_commit + 1) else panic

  -- `self.trees.read().expect("lock")`, the cursors of the trees that are compacted, and the writer.
  unfoldable pub open_sources : Commit → Trees → Outcome (List (TreeCursor f))
  unfolding open_all
  open_sources commit_limit (initial_compacting active being compacted_wip) =
      open_all f compacted_batch_num commit_limit compacted_wip (being ∷ [])
  open_sources commit_limit (compacting active being compacted compacted_wip trash) =
      open_all f compacted_batch_num commit_limit compacted_wip (being ∷ compacted ∷ [])
  open_sources commit_limit _ = panic

  unfoldable pub under_read : {A : Type 0} → (Trees → Outcome A) → Exec CompactingTree A
  under_read look c = if c.poisoned then (panic, c) else (look c.trees, c)

  -- A method of the writer acts on the tree `compacted_wip`, which it shares.
  unfoldable pub on_wip : {A : Type 0} → Exec (Tree f) A → Exec CompactingTree A
  on_wip m c = elim c.trees [
    | initial_compacting active being wip ↦
        let (r, wip') = m wip in (r, record c { trees = initial_compacting active being wip' })
    | compacting active being compacted wip trash ↦
        let (r, wip') = m wip in
        (r, record c { trees = compacting active being compacted wip' trash })
    | initial active ↦ (panic, c)
    | normal active compacted trash ↦ (panic, c)
  ]

  -- `while cursor.valid()`, on the tree of the writer; false says that the fuel ran out. The body never
  -- moves the cursor.
  unfoldable pub copy : ℕ → MergeCursor f → Exec (Tree f) Bool
  unfolding valid key value Ops.write
  copy zero cursor = pure false
  copy (suc fuel) cursor =
      let rest = copy fuel cursor in
      let body : Exec (Tree f) Bool = do
        k ← lift (key f cursor)
        v ← lift (value f cursor)
        Ops.write f compacted_batch_num k v
        rest
      in if valid f cursor then body else pure true

  -- The block that writes the compacted tree.
  unfoldable pub fill : ℕ → MergeCursor f → Exec (Tree f) Bool
  unfolding seek_first copy Ops.open_batch Ops.ready_commit Ops.close
  fill fuel cursor = do
    Ops.open_batch f compacted_batch_num
    finished ← copy fuel (seek_first f cursor)
    if finished
        then (do
          Ops.ready_commit f compacted_batch_num compacted_batch_commit_num
          Ops.close f compacted_batch_num
          pure true)
        else pure false

  -- The first async block, `compaction_result`.
  unfoldable pub compaction : ℕ → Exec CompactingTree Bool
  unfolding under_write move_trees_for_compaction wait_for_all_writes_to_compacting_tree limit_after
      under_read open_sources on_wip fill
  compaction fuel = do
    under_write move_trees_for_compaction
    last_commit ← wait_for_all_writes_to_compacting_tree
    commit_limit ← lift (limit_after last_commit)
    sources ← under_read (open_sources commit_limit)
    on_wip (fill fuel (record { trees = sources; current = none }))

  -- The second async block, whose errors are `todo!()`, and the end of `compact`.
  unfoldable pub end_compaction : Outcome Bool → Exec CompactingTree (Option Bool)
  unfolding under_write move_trees_for_end_compaction try_empty_trash
  end_compaction (ok false) = pure none
  end_compaction (ok true) = do
    λ c.
        (let (r, c') = under_write move_trees_for_end_compaction c in
          (elim r [ ok u ↦ ok u | err e ↦ panic | panic ↦ panic ], c'))
    update (λ c. record c { compact_state = not_compacting })
    try_empty_trash
    pure (some true)
  end_compaction (err e) = λ c. (panic, c)
  end_compaction panic = λ c. (panic, c)

  -- `CompactingTree::compact`; `none` says that the fuel of its loop ran out.
  unfoldable pub compact : ℕ → Exec CompactingTree (Option Bool)
  unfolding claim compaction end_compaction
  compact fuel = do
    claimed ← claim
    if claimed
        then (λ c. let (r, c') = compaction fuel c in end_compaction r c')
        else pure (some false)

  -- The methods of the users, each `todo!()`. A writer has no fields.
  unfoldable pub batch : CompactingTree → Batch → Outcome (Unit {0})
  batch c number = panic

  unfoldable pub read : CompactingTree → Commit → Key → Outcome (Option Value)
  read c commit_limit k = panic

  unfoldable pub cursor : CompactingTree → Commit → Outcome (MergeCursor f)
  cursor c commit_limit = panic

  unfoldable pub sync : CompactingTree → Outcome (Unit {0})
  sync c = panic
