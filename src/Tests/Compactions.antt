-- ===== src/Tests/Compactions.antt =====
-- A merging cursor over two trees, and a tree whose compaction is called for.
use block_rust.Base.{◌≡◌, refl, none, some, false, [], ◌∷◌, arith, ok, rfind}
use block_rust.Base.Ord.{bytes_lt, bytes_eq}
use block_rust.OrdMap.{get, range_from, range_to, insert, modify}
use block_rust.Types.{Key}
use block_rust.Index.Defs
use block_rust.Index.Defs.{Index}
use block_rust.Index.Cursor
use block_rust.Index.Writer
use block_rust.Index.Writer.{drop, update_keymap, first, last}
use block_rust.Index.Cursor.Nearest.{smaller, larger, any_key, from_key, to_key}
use block_rust.Tree.CommitToIndex.{commit_ops, apply_ops}
use block_rust.Tree.Reachable.{start, commit}
use block_rust.Tree.Lists.{Reachable-IsList}
use block_rust.CompactingTree.{CompactingTree, initial, not_compacting}
use block_rust.CompactingTree.Cursor.{
  TreeCursor, MergeCursor, key, seek_first, seek_last, seek_key, seek_key_rev,
}
use block_rust.CompactingTree.Seeks.{Lands, AllLists, seeks-Lands}
use block_rust.CompactingTree.Unfinished.{Claimed, compact-Claimed}
use block_rust.Tests.Trees.{memory, empty, committed}
use block_rust.Tests.Indexes.{one_commit, two_commits, two_commits-Reachable, first_ops}

abbrev over : Index → TreeCursor memory
over index = record {
  tree = record empty { index = index };
  at = record { commit_limit = index.maybe_next_commit; current = none };
}

-- A new tree and the one that was compacted before.
abbrev both : MergeCursor memory
both = record { trees = over two_commits ∷ over one_commit ∷ []; current = none }

both-AllLists : AllLists memory both.trees
both-AllLists = (
  Reachable-IsList two_commits-Reachable,
  (Reachable-IsList (commit 0 first_ops (omega arith) start refl), tt),
)

seeks-Lands_example :
    Lands memory smaller any_key both (seek_first memory both)
    × Lands memory larger any_key both (seek_last memory both)
    × ((k : Key) → Lands memory smaller (from_key k) both (seek_key memory k both))
    × ((k : Key) → Lands memory larger (to_key k) both (seek_key_rev memory k both))
seeks-Lands_example = seeks-Lands memory both both-AllLists

-- The key that the new tree has deleted stands in the old one; both have the last key, and behind all
-- keys the cursor stays where it was.
seeks-both :
    ((seek_first memory both).current ≡ some 1)
    × (key memory (seek_first memory both) ≡ ok (1 ∷ []))
    × ((seek_last memory both).current ≡ some 0)
    × ((seek_key memory (9 ∷ []) (seek_first memory both)).current ≡ some 1)
unfolding seek_first seek_last seek_key key commit_ops drop apply_ops Writer.write update_keymap get
    first range_from last range_to bytes_eq bytes_lt Writer.delete_range insert modify
    Cursor.seek_first Cursor.seek_last Cursor.seek_key Cursor.first_within_commit_limit
    Cursor.value_within_commit_limit Defs.range_delete_query Defs.node_value_within_commit_limit
    rfind
seeks-both = (refl, refl, refl, refl)

abbrev resting : CompactingTree memory
resting = record { trees = initial committed; poisoned = false; compact_state = not_compacting }

compact-Claimed_example : Claimed memory 3 resting
compact-Claimed_example = compact-Claimed memory 3 resting
