-- ===== src/Index/Defs.antt =====
-- index.rs: `Index`, `IndexState`, `Node`, `ReadValue` and the queries.
--
-- The map owns the nodes, which are never removed, and has one node for each key; a shared pointer
-- `Arc<Node>` is therefore the node's key, and is followed by a lookup in the map.
use block_rust.Base.{
  ℕ, Bool, ◌&&◌, Option, none, some, List, [], ltb, leb, if◌then◌else◌, rfind, Outcome, ok, ◌>>◌,
  assert, ◌==◌,
}
use block_rust.Base.Ord.{bytes_ord, le}
use block_rust.OrdMap.{OrdMap, get}
use block_rust.Types.{Key, Address, Commit}

-- A position within the writes of one commit: a `u32`.
abbrev pub BatchIdx : Type 0
BatchIdx = ℕ

pub data ReadValue : Type 0 where
  written : Address → ReadValue
  deleted : Address → ReadValue

-- An element of a node's history.
pub record Entry : Type 0 where
  pub commit : Commit
  pub value : ReadValue
  pub batch_idx : BatchIdx

pub record Node : Type 0 where
  pub key : Key
  pub prev : Option Key
  pub next : Option Key
  pub history : List Entry

pub record RangeDelete : Type 0 where
  pub commit : Commit
  pub start : Key
  pub end : Key
  pub batch_idx : BatchIdx

pub record IndexState : Type 0 where
  pub keymap : OrdMap Key Node
  pub range_deletes : List RangeDelete

pub record Index : Type 0 where
  pub state : IndexState
  pub open state use *
  pub maybe_next_commit : ℕ

-- `Index::new`.
abbrev pub new : Index
new = record { state = record { keymap = []; range_deletes = [] }; maybe_next_commit = 0 }

-- `Range::contains`: the start is in the range and the end is not.
unfoldable pub range_contains : Key → Key → Key → Bool
range_contains start end key = le start key && bytes_ord.lt key end

-- `node_value_within_commit_limit`.
unfoldable pub node_value_within_commit_limit : Commit → Node → Option Entry
node_value_within_commit_limit commit_limit node =
    rfind (λ e. ltb e.commit commit_limit) node.history

unfoldable pub point_query : IndexState → Commit → Key → Option Entry
unfolding node_value_within_commit_limit
point_query state commit_limit key = elim (get key state.keymap) [
  | some node ↦ node_value_within_commit_limit commit_limit node
  | none ↦ none
]

unfoldable pub range_delete_query : IndexState → Commit → Key → Option RangeDelete
unfolding range_contains
range_delete_query state commit_limit key =
    rfind (λ r. ltb r.commit commit_limit && range_contains r.start r.end key) state.range_deletes

-- The match of `inner_true_value`, on the value of the point query.
unfoldable pub shadowed : Commit → ReadValue → BatchIdx → Option RangeDelete → Option Address
shadowed p_commit (written addr) p_batch_idx none = some addr
shadowed p_commit (deleted addr) p_batch_idx none = none
shadowed p_commit (deleted addr) p_batch_idx (some rd) = none
shadowed p_commit (written addr) p_batch_idx (some rd) =
    if ltb rd.commit p_commit
    then some addr
    else if p_commit == rd.commit
    then (if ltb rd.batch_idx p_batch_idx then some addr else none)
    else none

unfoldable pub inner_true_value : Option Entry → Option RangeDelete → Option Address
unfolding shadowed
inner_true_value none range_delete_result = none
inner_true_value (some p) range_delete_result =
    shadowed p.commit p.value p.batch_idx range_delete_result

unfoldable pub key_true_value : IndexState → Commit → Key → Option Address
unfolding inner_true_value
key_true_value state commit_limit key =
    inner_true_value (point_query state commit_limit key)
      (range_delete_query state commit_limit key)

unfoldable pub node_true_value : IndexState → Commit → Node → Option Address
unfolding inner_true_value
node_true_value state commit_limit node =
    inner_true_value (node_value_within_commit_limit commit_limit node)
      (range_delete_query state commit_limit node.key)

-- `Index::read`.
unfoldable pub read : Index → Commit → Key → Outcome (Option Address)
read index commit_limit key = do
  assert (leb commit_limit index.maybe_next_commit)
  ok (key_true_value index.state commit_limit key)
