-- ===== src/Index/Cursor.antt =====
-- index.rs: `Cursor`. It shares the state with the index, so the state is an argument.
pub mod Pointers
pub mod Listing
pub mod Within
pub mod Nearest
use mathlib.Core.List.{reverse}
use block_rust.Base.{
  ℕ, zero, suc, Bool, true, false, Option, none, some, List, [], ◌∷◌, leb, length, Outcome, ok,
  panic,
}
use block_rust.Base.Exec.{Exec, pure, lift, gets, update, require, ◌>>=◌, ◌>>◌}
use block_rust.Base.Ord.{bytes_ord}
use block_rust.OrdMap.{OrdMap, get, range_from, range_to}
use block_rust.Types.{Key, Address, Commit}
use block_rust.Index.Defs.{Node, IndexState, Index, node_true_value}

-- The current node is a pointer, and so the node's key.
pub record Cursor : Type 0 where
  pub commit_limit : Commit
  pub current : Option (Key × Address)

-- `Index::cursor`.
unfoldable pub cursor : Index → Commit → Outcome Cursor
cursor index commit_limit = elim (leb commit_limit index.maybe_next_commit) [
  | true ↦ ok (record { commit_limit = commit_limit; current = none })
  | false ↦ panic
]

unfoldable pub valid : Cursor → Bool
valid c = elim c.current [ none ↦ false | some x ↦ true ]

-- `Cursor::key` and `Cursor::address`.
unfoldable pub key : Cursor → Outcome Key
key c = elim c.current [ none ↦ panic | some (k, addr) ↦ ok k ]

unfoldable pub address : Cursor → Outcome Address
address c = elim c.current [ none ↦ panic | some (k, addr) ↦ ok addr ]

-- `value_within_commit_limit`.
unfoldable pub value_within_commit_limit : IndexState → Commit → Node → Option Address
unfolding node_true_value
value_within_commit_limit state commit_limit node = node_true_value state commit_limit node

-- `first_within_commit_limit`, over the entries that an iterator yields.
unfoldable pub first_within_commit_limit :
    IndexState → Commit → OrdMap Key Node → Option (Key × Address)
first_within_commit_limit state commit_limit [] = none
first_within_commit_limit state commit_limit ((k, node) ∷ rest) =
    elim (value_within_commit_limit state commit_limit node) [
      | some addr ↦ some (k, addr)
      | none ↦ first_within_commit_limit state commit_limit rest
    ]

-- The loop of `next` and `prev` along the pointers that `link` follows. It ends where a pointer is
-- null; `stuck` means that the fuel ran out, or that a pointer led nowhere.
pub data Walk : Type 0 where
  stopped : Option (Key × Address) → Walk
  stuck : Walk

unfoldable pub walk : (Node → Option Key) → IndexState → Commit → ℕ → Option Key → Walk
walk link state commit_limit fuel none = stopped none
walk link state commit_limit zero (some k) = stuck
walk link state commit_limit (suc fuel) (some k) = elim (get k state.keymap) [
  | none ↦ stuck
  | some node ↦ elim (value_within_commit_limit state commit_limit node) [
    | some addr ↦ stopped (some (k, addr))
    | none ↦ walk link state commit_limit fuel (link node)
  ]
]

-- The pointer of the current node, from which the loop starts.
unfoldable pub candidate :
    (Node → Option Key) → IndexState → Option (Key × Address) → Outcome (Option Key)
candidate link state none = panic
candidate link state (some (k, addr)) = elim (get k state.keymap) [
  | none ↦ panic
  | some node ↦ ok (link node)
]

abbrev pub landed : Walk → Exec Cursor (Unit {0})
landed (stopped found) c = (ok tt, record c { current = found })
landed stuck c = (panic, c)

unfoldable pub step_along : (Node → Option Key) → IndexState → Exec Cursor (Unit {0})
unfolding candidate walk
step_along link state = do
  c ← gets (λ c. c)
  start ← lift (candidate link state c.current)
  landed (walk link state c.commit_limit (length state.keymap) start)

-- `Cursor::next` and `Cursor::prev`.
unfoldable pub next : IndexState → Exec Cursor (Unit {0})
unfolding step_along
next = step_along (λ node. node.next)

unfoldable pub prev : IndexState → Exec Cursor (Unit {0})
unfolding step_along
prev = step_along (λ node. node.prev)

-- `Cursor::seek_first`, `seek_last`, `seek_key` and `seek_key_rev`.
unfoldable pub seek_first : IndexState → Cursor → Cursor
seek_first state c = record c {
  current = first_within_commit_limit state c.commit_limit state.keymap;
}

unfoldable pub seek_last : IndexState → Cursor → Cursor
seek_last state c = record c {
  current = first_within_commit_limit state c.commit_limit (reverse state.keymap);
}

unfoldable pub seek_key : IndexState → Key → Cursor → Cursor
seek_key state k c = record c {
  current = first_within_commit_limit state c.commit_limit (range_from k state.keymap);
}

unfoldable pub seek_key_rev : IndexState → Key → Cursor → Cursor
seek_key_rev state k c = record c {
  current = first_within_commit_limit state c.commit_limit (reverse (range_to k state.keymap));
}
