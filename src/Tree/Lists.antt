-- ===== src/Tree/Lists.antt =====
-- index.rs, tree.rs: in every index that commits build, the nodes form a list, and cursors list the map.
use block_rust.Base.{
  suc, ◌+◌, ◌≡◌, inl, inr, none, some, List, [], ◌∷◌, arith, ltb, leb, u32_mod, length, Outcome, ok,
  err, panic, Bool-cases,
}
use block_rust.Base.Ord.{bytes_ord, le}
use block_rust.Base.Exec.{continue}
use block_rust.OrdMap.{OrdMap, get}
use block_rust.Types.{Key, Address, Commit}
use block_rust.BatchPlayer.{IndexOp, write, delete, delete_range}
use block_rust.Index.Defs.{Entry, Node, Index, written, deleted, key_true_value}
use block_rust.Index.Writer
use block_rust.Index.Writer.{Writer, writer, drop, update_keymap}
use block_rust.Index.Points.{update_keymap-Appends}
use block_rust.Index.Links.Splice.{Linked, IsAscending}
use block_rust.Index.Links.Update.{update_keymap-Linked}
use block_rust.Index.Cursor.{Cursor, seek_first}
use block_rust.Index.Cursor.Listing.{
  collect, live_entries, IsListed, IsListed-live, collect-live_entries, get-live_entries,
}
use block_rust.Tree.CommitToIndex.{apply_op, apply_ops, commit_ops}
use block_rust.Tree.CommitOps.{commit_ops-stale, commit_ops-drop, opened}
use block_rust.Tree.Reachable.{Reachable, start, commit}

-- The map is ascending, and its nodes are doubly linked in that order.
pub record IsList (m : OrdMap Key Node) : Type 0 where
  pub linked : Linked none m
  pub ascending : IsAscending m

-- If the nodes of the map are doubly linked in the order of their keys, which ascend strictly, then the
-- update of a key succeeds, whether the map has the key or not, and those of the new map are too.
pub update_keymap-IsList :
    (key : Key) (e : Entry) (m : OrdMap Key Node)
    → IsList m
    → (m' : OrdMap Key Node) × (update_keymap key e m ≡ ok m') × IsList m'
update_keymap-IsList key e m h =
    let (m', eq, a) = update_keymap-Appends key e m in
    let (l, s) = update_keymap-Linked key e m m' h.linked h.ascending eq in
    (m', eq, record { linked = l; ascending = s })

module _ (w : Writer) (h : IsList w.state.keymap) where
  apply_op-IsList : (op : IndexOp) → IsList (apply_op op w).1.state.keymap
  unfolding apply_op Writer.write Writer.delete Writer.delete_range
  apply_op-IsList (write key addr) =
      let (m', e, h') =
        update_keymap-IsList key
          (record { commit = w.commit; value = written addr; batch_idx = w.batch_index })
          w.state.keymap h in
      elim (Bool-cases (ltb (w.batch_index + 1) u32_mod)) [
        | inl room ↦ rw (room, e) h'
        | inr full ↦ rw full h
      ]
  apply_op-IsList (delete key addr) =
      let (m', e, h') =
        update_keymap-IsList key
          (record { commit = w.commit; value = deleted addr; batch_idx = w.batch_index })
          w.state.keymap h in
      elim (Bool-cases (ltb (w.batch_index + 1) u32_mod)) [
        | inl room ↦ rw (room, e) h'
        | inr full ↦ rw full h
      ]
  apply_op-IsList (delete_range from to addr) =
      elim (Bool-cases (ltb (w.batch_index + 1) u32_mod)) [
        | inl room ↦ elim (Bool-cases (le from to)) [
          | inl good ↦ rw (room, good) h
          | inr bad ↦ rw (room, bad) h
        ]
        | inr full ↦ rw full h
      ]

-- What the rest of a batch keeps is kept behind a write, whether that panics or not.
continue-IsList :
    (k : Writer → Outcome (Unit {0}) × Writer) (r : Outcome (Unit {0})) (w : Writer)
    → IsList w.state.keymap
    → ((w' : Writer) → IsList w'.state.keymap → IsList (k w').1.state.keymap)
    → IsList (continue r (λ _. k) w).1.state.keymap
continue-IsList k (ok u) w h keep = keep w h
continue-IsList k (err e) w h keep = h
continue-IsList k panic w h keep = h

apply_ops-IsList :
    (ops : List IndexOp) (w : Writer)
    → IsList w.state.keymap
    → IsList (apply_ops ops w).1.state.keymap
unfolding apply_ops
apply_ops-IsList [] w h = h
apply_ops-IsList (op ∷ ops) w h =
    continue-IsList (apply_ops ops) (apply_op op w).0 (apply_op op w).1 (apply_op-IsList w h op)
      λ w' h'. apply_ops-IsList ops w' h'

keymap-drop : (r : Outcome (Unit {0})) (w : Writer) → (drop r w).1.state.keymap ≡ w.state.keymap
unfolding drop
keymap-drop r w = ground arith

commit_ops-IsList :
    (c : Commit) (ops : List IndexOp) (index : Index)
    → IsList index.state.keymap
    → IsList (commit_ops c ops index).1.state.keymap
commit_ops-IsList c ops index h = elim (Bool-cases (leb index.maybe_next_commit c)) [
  | inr stale ↦ rw (commit_ops-stale c ops index (ground arith)) h
  | inl fits ↦
      rw (commit_ops-drop c ops index (ground arith), keymap-drop)
        (apply_ops-IsList ops (opened index c) h)
]

-- Whatever commits build an index from the empty one, and however they end, its nodes are doubly
-- linked in the strict order of their keys. The numbers of the commits can be followed in a `u64`.
pub Reachable-IsList : {index : Index} → Reachable index → IsList index.state.keymap
Reachable-IsList start = record { linked = tt; ascending = tt }
Reachable-IsList (commit c ops {index} room r e) =
    rw e (commit_ops-IsList c ops index (Reachable-IsList r))

-- On an index that commits built, a cursor that seeks the first entry and is moved on while it is valid
-- comes to an end without a panic, within one step for each node and one more. It has listed its
-- entries in strictly ascending order of their keys, and they are just the keys that have a value at
-- its limit, with the addresses of these values.
pub collect-key_true_value :
    {index : Index}
    → Reachable index
    → (c : Cursor)
    → (entries : List (Key × Address)) × (collect
          (suc (length index.state.keymap))
          index.state
          (seek_first index.state c)
        ≡ some entries)
      × IsListed entries
      × ((k : Key) → get k entries ≡ key_true_value index.state c.commit_limit k)
collect-key_true_value {index} r c =
    let l = Reachable-IsList r in
    (
      live_entries index.state c.commit_limit index.state.keymap,
      collect-live_entries index.state l.linked l.ascending c,
      IsListed-live index.state c.commit_limit index.state.keymap l.ascending,
      λ k. get-live_entries index.state c.commit_limit k l.linked l.ascending,
    )
