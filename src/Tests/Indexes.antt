-- ===== src/Tests/Indexes.antt =====
-- An index of three commits, a map of two nodes and the theorems about them.
use block_rust.Base.{
  ◌≡◌, refl, none, some, true, false, List, [], ◌∷◌, ◌++◌, arith, ltb, if◌then◌else◌, suc, length,
  ok, panic,
}
use mathlib.Core.List.{reverse}
use block_rust.Base.Ord.{bytes_ord, bytes_lt, bytes_eq}
use block_rust.OrdMap.{OrdMap, get, range_from, range_to, insert, modify}
use block_rust.Types.{Key, Commit, Address}
use block_rust.BatchPlayer.{IndexOp, write, delete, delete_range}
use block_rust.Index.Defs
use block_rust.Index.Defs.{Index, IndexState, Node, Entry, written, key_true_value}
use block_rust.Index.Events.{effects}
use block_rust.Index.Writer.{drop, update_keymap, first, last}
use block_rust.Index.Writer
use block_rust.Index.Links.Splice.{Linked, IsAscending}
use block_rust.Index.Cursor.{Cursor, next, prev, first_within_commit_limit, seek_first}
use block_rust.Index.Cursor.Listing.{collect, IsListed}
use block_rust.Index.Cursor.Pointers.{above, below, next-first_within, prev-first_within}
use block_rust.Tree.CommitToIndex.{commit_ops, apply_ops}
use block_rust.Tree.Commits.{all_in_order, in_order}
use block_rust.Tree.Reachable.{Reachable, start, commit, commit_ops-view, commit_ops-partial}
use block_rust.Tree.Lists.{IsList, update_keymap-IsList, Reachable-IsList, collect-key_true_value}

abbrev pub first_ops : List IndexOp
first_ops = write (1 ∷ []) 10 ∷ write (3 ∷ []) 30 ∷ []

abbrev pub second_ops : List IndexOp
second_ops = delete_range (1 ∷ []) (3 ∷ []) 40 ∷ write (2 ∷ []) 20 ∷ []

abbrev later_ops : List IndexOp
later_ops = delete (3 ∷ []) 50 ∷ write (1 ∷ []) 60 ∷ []

abbrev pub one_commit : Index
one_commit = (commit_ops 0 first_ops Defs.new).1

abbrev pub two_commits : Index
two_commits = (commit_ops 4 second_ops one_commit).1

pub two_commits-Reachable : Reachable two_commits
two_commits-Reachable =
    commit 4 second_ops (omega arith) (commit 0 first_ops (omega arith) start refl) refl

two_commits-limit : two_commits.maybe_next_commit ≡ 5
unfolding commit_ops drop apply_ops Writer.write update_keymap get first range_from last range_to
    bytes_eq bytes_lt Writer.delete_range insert modify
two_commits-limit = refl

later-in_order : all_in_order later_ops ≡ true
unfolding all_in_order
later-in_order = refl

one-in_order : all_in_order (write [] 5 ∷ []) ≡ true
unfolding all_in_order
one-in_order = refl

backward-in_order : in_order (delete_range (2 ∷ []) (1 ∷ []) 6) ≡ false
unfolding in_order bytes_lt
backward-in_order = refl

commit_ops-view_example :
    ((commit_ops 5 later_ops two_commits).0 ≡ ok tt)
    × ((limit : Commit) (key : Key)
        → key_true_value (commit_ops 5 later_ops two_commits).1.state limit key ≡ (
            if ltb 5 limit
            then effects later_ops key (key_true_value two_commits.state limit key)
            else key_true_value two_commits.state limit key))
commit_ops-view_example =
    commit_ops-view two_commits-Reachable 5 later_ops (omega (arith, two_commits-limit))
      later-in_order (omega arith) (omega arith)

commit_ops-partial_example :
    ((commit_ops 5 (write [] 5 ∷ [] ++ delete_range (2 ∷ []) (1 ∷ []) 6 ∷ later_ops) two_commits).0
      ≡ panic)
    × ((limit : Commit) (key : Key)
        → key_true_value
            (commit_ops 5
              (write [] 5 ∷ [] ++ delete_range (2 ∷ []) (1 ∷ []) 6 ∷ later_ops)
              two_commits).1.state
            limit
            key
          ≡ (if ltb 5 limit
              then effects (write [] 5 ∷ []) key (key_true_value two_commits.state limit key)
              else key_true_value two_commits.state limit key))
commit_ops-partial_example =
    commit_ops-partial two_commits-Reachable 5 (write [] 5 ∷ []) (delete_range (2 ∷ []) (1 ∷ []) 6)
      later_ops (omega (arith, two_commits-limit)) one-in_order backward-in_order (omega arith)
      (omega arith)

Reachable-IsList_example : IsList two_commits.state.keymap
Reachable-IsList_example = Reachable-IsList two_commits-Reachable

collect-key_true_value_example :
    (entries : List (Key × Address)) × (collect
        (suc (length two_commits.state.keymap))
        two_commits.state
        (seek_first two_commits.state (record { commit_limit = 5; current = none }))
      ≡ some entries)
    × IsListed entries
    × ((k : Key) → get k entries ≡ key_true_value two_commits.state 5 k)
collect-key_true_value_example =
    collect-key_true_value two_commits-Reachable (record { commit_limit = 5; current = none })

abbrev first_node : Node
first_node = record {
  key = 1 ∷ [];
  prev = none;
  next = some (3 ∷ []);
  history = record { commit = 0; value = written 10; batch_idx = 0 } ∷ [];
}

abbrev second_node : Node
second_node = record {
  key = 3 ∷ [];
  prev = some (1 ∷ []);
  next = none;
  history = record { commit = 0; value = written 30; batch_idx = 1 } ∷ [];
}

abbrev two_nodes : OrdMap Key Node
two_nodes = (1 ∷ [], first_node) ∷ (3 ∷ [], second_node) ∷ []

two_nodes-Linked : Linked none two_nodes
two_nodes-Linked = (refl, refl, refl, (refl, refl, refl, tt))

two_nodes-IsAscending : IsAscending two_nodes
unfolding bytes_lt
two_nodes-IsAscending = ((refl, tt), (tt, tt))

update_keymap-IsList_example :
    (m' : OrdMap Key Node) × (update_keymap
        (2 ∷ [])
        (record { commit = 4; value = written 20; batch_idx = 0 })
        two_nodes
      ≡ ok m')
    × IsList m'
update_keymap-IsList_example =
    update_keymap-IsList (2 ∷ []) (record { commit = 4; value = written 20; batch_idx = 0 })
      two_nodes (record { linked = two_nodes-Linked; ascending = two_nodes-IsAscending })

abbrev two_entries : IndexState
two_entries = record { keymap = two_nodes; range_deletes = [] }

abbrev at_first : Cursor
at_first = record { commit_limit = 1; current = some (1 ∷ [], 10) }

abbrev at_second : Cursor
at_second = record { commit_limit = 1; current = some (3 ∷ [], 30) }

next-first_within_example : next two_entries at_first ≡ (
  ok tt,
  record at_first { current = first_within_commit_limit two_entries 1 (above (1 ∷ []) two_nodes) },
)
unfolding get bytes_eq
next-first_within_example =
    next-first_within two_entries at_first (1 ∷ []) 10 first_node two_nodes-Linked
      two_nodes-IsAscending refl refl

prev-first_within_example : prev two_entries at_second ≡ (
  ok tt,
  record at_second {
    current = first_within_commit_limit two_entries 1 (reverse (below (3 ∷ []) two_nodes));
  },
)
unfolding get bytes_eq
prev-first_within_example =
    prev-first_within two_entries at_second (3 ∷ []) 30 second_node two_nodes-Linked
      two_nodes-IsAscending refl refl
