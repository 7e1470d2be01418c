-- ===== src/Index/Writer.antt =====
-- index.rs: `Writer`, which holds the write lock on the index for one commit.
use block_rust.Base.{
  ℕ, true, false, Option, none, some, [], ◌∷◌, ◌++◌, leb, u32_mod, u64_mod, checked_add, Outcome,
  ok, panic, expect,
}
use block_rust.Base.Exec.{Exec, pure, lift, gets, update, require, ◌>>=◌, ◌>>◌}
use block_rust.Base.Ord.{bytes_ord, le}
use block_rust.OrdMap.{OrdMap, get, insert, modify, range_from, range_to}
use block_rust.Types.{Key, Address, Commit}
use block_rust.Index.Defs.{BatchIdx, ReadValue, written, deleted, Entry, Node, IndexState, Index}

-- The guard of the lock is the state itself: no other thread reads or writes it meanwhile.
pub record Writer : Type 0 where
  pub commit : Commit
  pub state : IndexState
  pub batch_index : BatchIdx
  pub maybe_next_commit : ℕ

-- `Index::writer`.
unfoldable pub writer : Index → Commit → Outcome Writer
writer index commit = elim (leb index.maybe_next_commit commit) [
  | false ↦ panic
  | true ↦ ok (record {
    commit = commit;
    state = index.state;
    batch_index = 0;
    maybe_next_commit = index.maybe_next_commit;
  })
]

abbrev pub push_history : Entry → Node → Node
push_history e node = record node { history = node.history ++ e ∷ [] }

abbrev pub set_prev : Option Key → Node → Node
set_prev p node = record node { prev = p }

abbrev pub set_next : Option Key → Node → Node
set_next p node = record node { next = p }

-- A write through a pointer that may be null.
abbrev pub modify_at : Option Key → (Node → Node) → OrdMap Key Node → OrdMap Key Node
modify_at none f m = m
modify_at (some k) f m = modify k f m

-- The head of an iterator over the map.
unfoldable pub first : OrdMap Key Node → Option Node
first [] = none
first ((k, n) ∷ m) = some n

-- The head of the reversed iterator.
unfoldable pub last : OrdMap Key Node → Option Node
last [] = none
last ((k, n) ∷ m) = elim (last m) [ none ↦ some n | some l ↦ some l ]

-- The new node of a key that the map lacks, linked between `next` and its predecessor.
unfoldable pub link_before : Key → Entry → Node → OrdMap Key Node → OrdMap Key Node
link_before key e next m =
    insert key (record { key = key; prev = next.prev; next = some next.key; history = e ∷ [] })
      (modify next.key (set_prev (some key)) (modify_at next.prev (set_next (some key)) m))

-- The new node of a key above all others, linked behind `prev`.
unfoldable pub link_after : Key → Entry → Node → OrdMap Key Node → OrdMap Key Node
link_after key e prev m =
    insert key (record { key = key; prev = some prev.key; next = prev.next; history = e ∷ [] })
      (modify prev.key (set_next (some key)) (modify_at prev.next (set_prev (some key)) m))

-- The three cases of a key that the map lacks.
unfoldable pub insert_node :
    Key → Entry → Option Node → Option Node → OrdMap Key Node → Outcome (OrdMap Key Node)
unfolding link_before link_after
insert_node key e (some next) prev m = ok (link_before key e next m)
insert_node key e none (some prev) m = ok (link_after key e prev m)
insert_node key e none none [] =
    ok ((key, record { key = key; prev = none; next = none; history = e ∷ [] }) ∷ [])
insert_node key e none none (x ∷ m) = panic

unfoldable pub update_keymap : Key → Entry → OrdMap Key Node → Outcome (OrdMap Key Node)
unfolding insert_node
update_keymap key e m = elim (get key m) [
  | some node ↦ ok (modify key (push_history e) m)
  | none ↦ insert_node key e (first (range_from key m)) (last (range_to key m)) m
]

-- `Writer::next_batch_index`.
unfoldable pub next_batch_index : Exec Writer BatchIdx
next_batch_index = do
  idx ← gets (λ w. w.batch_index)
  next ← lift (expect (checked_add u32_mod idx 1))
  update (λ w. record w { batch_index = next })
  pure idx

unfoldable pub update_value : Key → ReadValue → BatchIdx → Exec Writer (Unit {0})
update_value key value batch_idx = do
  w ← gets (λ w. w)
  keymap ← lift (
      update_keymap key (record { commit = w.commit; value = value; batch_idx = batch_idx })
        w.state.keymap)
  update (λ w. record w { state = record w.state { keymap = keymap } })

-- `Writer::write`.
unfoldable pub write : Key → Address → Exec Writer (Unit {0})
unfolding next_batch_index update_value
write key addr = do batch_idx ← next_batch_index; update_value key (written addr) batch_idx

-- `Writer::delete`.
unfoldable pub delete : Key → Address → Exec Writer (Unit {0})
unfolding next_batch_index update_value
delete key addr = do batch_idx ← next_batch_index; update_value key (deleted addr) batch_idx

abbrev pub push_range_delete : Key → Key → BatchIdx → Writer → Writer
push_range_delete start end batch_idx w = record w {
  state = record w.state {
    range_deletes =
        w.state.range_deletes
        ++ record { commit = w.commit; start = start; end = end; batch_idx = batch_idx } ∷ [];
  };
}

-- `Writer::delete_range`.
unfoldable pub delete_range : Key → Key → Address → Exec Writer (Unit {0})
unfolding next_batch_index
delete_range start end addr = do
  batch_idx ← next_batch_index
  require (le start end)
  update (push_range_delete start end batch_idx)

-- `Drop for Writer`: the lock is released, also when the holder panics.
unfoldable pub drop : Outcome (Unit {0}) → Writer → Outcome (Unit {0}) × Index
drop result w = elim (checked_add u64_mod w.commit 1) [
  | some next ↦ (result, record { state = w.state; maybe_next_commit = next })
  | none ↦ (panic, record { state = w.state; maybe_next_commit = w.maybe_next_commit })
]
