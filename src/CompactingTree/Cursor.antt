-- ===== src/CompactingTree/Cursor.antt =====
-- compacting_tree.rs: `Cursor`, which merges the cursors of several trees.
use block_rust.Base.{
  ℕ, ◌+◌, Bool, true, false, Option, none, some, List, [], ◌∷◌, get_elem?, Outcome, ok, panic,
  if◌then◌else◌, expect, ◌>>=◌,
}
use block_rust.Base.Ord.{bytes_ord}
use block_rust.Types.{Key, Value, Batch, Commit}
use block_rust.Command.{Command}
use block_rust.LogFile.{LogFile}
use block_rust.Index.Cursor
use block_rust.Tree.Ops
use block_rust.Tree.Ops.{Tree}

module _ (f : LogFile Command) where
  -- A cursor of one tree, with that tree, whose log and index it shares.
  pub record TreeCursor : Type 0 where
    pub tree : Tree f
    pub at : Cursor.Cursor

  pub record MergeCursor : Type 0 where
    pub trees : List TreeCursor
    pub current : Option ℕ

  -- The cursors of the trees that are compacted, and then the writer of the tree `wip`.
  unfoldable pub open_all : Batch → Commit → Tree f → List (Tree f) → Outcome (List TreeCursor)
  unfolding Ops.cursor Ops.batch
  open_all number commit_limit wip [] = do writer ← Ops.batch f wip number; ok []
  open_all number commit_limit wip (t ∷ trees) = do
    tree_cursor ← Ops.cursor f t commit_limit
    rest ← open_all number commit_limit wip trees
    ok (record { tree = t; at = tree_cursor } ∷ rest)

  unfoldable pub valid : MergeCursor → Bool
  valid c = elim c.current [ none ↦ false | some idx ↦ true ]

  -- `self.trees[idx]` of the tree that `current` names.
  unfoldable pub current_tree : MergeCursor → Outcome TreeCursor
  current_tree c = do idx ← expect c.current; expect (get_elem? c.trees idx)

  unfoldable pub key : MergeCursor → Outcome Key
  unfolding current_tree Cursor.key
  key c = do t ← current_tree c; Cursor.key t.at

  unfoldable pub value : MergeCursor → Outcome Value
  unfolding current_tree
  value c = do t ← current_tree c; Ops.cursor_value f t.tree t.at

  -- `next` and `prev` read the key of the current tree, and then panic in any case.
  unfoldable pub next : MergeCursor → Outcome (Unit {0})
  unfolding key
  next c = do current_key ← key c; panic

  unfoldable pub prev : MergeCursor → Outcome (Unit {0})
  unfolding key
  prev c = do current_key ← key c; panic

  -- The match on `key_idx` for a tree that is valid: its key is better than the old one, or passes.
  unfoldable pub keep_better : (Key → Key → Bool) → Option (Key × ℕ) → Key → ℕ → Option (Key × ℕ)
  keep_better better none new_key new_idx = some (new_key, new_idx)
  keep_better better (some (old_key, old_idx)) new_key new_idx =
      if better new_key old_key then some (new_key, new_idx) else some (old_key, old_idx)

  -- The test `tree.valid()` and the key of the tree, whose current entry holds both.
  unfoldable pub offer : (Key → Key → Bool) → Option (Key × ℕ) → ℕ → TreeCursor → Option (Key × ℕ)
  unfolding keep_better
  offer better key_idx new_idx t = elim t.at.current [
    | none ↦ key_idx
    | some (new_key, addr) ↦ keep_better better key_idx new_key new_idx
  ]

  -- The loop over `trees.iter_mut().enumerate()`.
  unfoldable pub seek_all :
      (TreeCursor → TreeCursor)
      → (Key → Key → Bool)
      → ℕ
      → Option (Key × ℕ)
      → List TreeCursor
      → List TreeCursor × Option (Key × ℕ)
  unfolding offer
  seek_all seek better new_idx key_idx [] = ([], key_idx)
  seek_all seek better new_idx key_idx (t ∷ trees) =
      let rest = seek_all seek better (new_idx + 1) (offer better key_idx new_idx (seek t)) trees in
      (seek t ∷ rest.0, rest.1)

  -- The cursor behind the loop. Where no tree is valid, `current` stays what it was.
  unfoldable pub chosen : MergeCursor → List TreeCursor × Option (Key × ℕ) → MergeCursor
  chosen c (trees, none) = record c { trees = trees }
  chosen c (trees, some (k, idx)) = record c { trees = trees; current = some idx }

  abbrev pub on_cursor : (Cursor.Cursor → Cursor.Cursor) → TreeCursor → TreeCursor
  on_cursor move t = record t { at = move t.at }

  unfoldable pub seek_first : MergeCursor → MergeCursor
  unfolding seek_all chosen
  seek_first c =
      let seek : TreeCursor → TreeCursor =
        λ t. on_cursor (Cursor.seek_first t.tree.index.state) t in
      chosen c (seek_all seek (λ new old. bytes_ord.lt new old) 0 none c.trees)

  unfoldable pub seek_last : MergeCursor → MergeCursor
  unfolding seek_all chosen
  seek_last c =
      let seek : TreeCursor → TreeCursor = λ t. on_cursor (Cursor.seek_last t.tree.index.state) t in
      chosen c (seek_all seek (λ new old. bytes_ord.lt old new) 0 none c.trees)

  unfoldable pub seek_key : Key → MergeCursor → MergeCursor
  unfolding seek_all chosen
  seek_key k c =
      let seek : TreeCursor → TreeCursor =
        λ t. on_cursor (Cursor.seek_key t.tree.index.state k) t in
      chosen c (seek_all seek (λ new old. bytes_ord.lt new old) 0 none c.trees)

  unfoldable pub seek_key_rev : Key → MergeCursor → MergeCursor
  unfolding seek_all chosen
  seek_key_rev k c =
      let seek : TreeCursor → TreeCursor =
        λ t. on_cursor (Cursor.seek_key_rev t.tree.index.state k) t in
      chosen c (seek_all seek (λ new old. bytes_ord.lt old new) 0 none c.trees)
