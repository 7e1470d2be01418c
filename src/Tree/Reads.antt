-- ===== src/Tree/Reads.antt =====
-- tree.rs: what a read of a tree returns.
use block_rust.Base.{◌≤◌, ◌≡◌, ◌⊎◌, inl, inr, true, none, some, arith, ok, err, Error, Option-cases}
use block_rust.Base.Ord.{bytes_ord}
use block_rust.Types.{Key, Value, Batch, Commit, Address}
use block_rust.Command.{Command}
use block_rust.LogFile.{LogFile, IsLog}
use block_rust.Log.{read_command}
use block_rust.Index.Defs
use block_rust.Index.Defs.{key_true_value}
use block_rust.Tree.Ops
use block_rust.Tree.Ops.{Tree}
use block_rust.Tree.Addresses.{IsTree, key_true_value-Written}

module _ (f : LogFile Command) (l : IsLog f) where
  open l use {entry}

  read_address-Written :
      (log : LogFile.State f) (key : Key) (a : Address) (b : Batch) (v : Value)
      → entry log a ≡ some (Command.write b key v)
      → (Ops.read_address f key a log ≡ ok v)
        ⊎ ((e : Error) × (LogFile.read_at f a log ≡ err e) × (Ops.read_address f key a log ≡ err e))
  unfolding Ops.read_address read_command
  read_address-Written log key a b v h = elim (l.read_entry log (Command.write b key v) a h) [
    | inl (next, e) ↦ inl (ground (arith, e, bytes_ord.eq_iff key key))
    | inr (x, e) ↦ inr (x, e, ground (arith, e))
  ]

  -- Over an append-only log, read an initialised tree whose addresses are those of logged writes of
  -- their keys, at a limit that its index has reached. The read returns nothing if the index has no
  -- address for the key; otherwise the log holds a write of the key at that address, and the read
  -- returns the value of this write, or the error with which the log failed to read it.
  pub read-entry :
      (t : Tree f) (limit : Commit) (key : Key)
      → IsTree f l t
      → t.initialized ≡ true
      → limit ≤ t.index.maybe_next_commit
      → ((key_true_value t.index.state limit key ≡ none) × (Ops.read f t limit key ≡ ok none))
        ⊎ ((a : Address) × (b : Batch) × (v : Value) × (key_true_value t.index.state limit key
              ≡ some a)
            × (entry t.log a ≡ some (Command.write b key v))
            × ((Ops.read f t limit key ≡ ok (some v))
                ⊎ ((e : Error) × (LogFile.read_at f a t.log ≡ err e)
                    × (Ops.read f t limit key ≡ err e))))
  unfolding Ops.read Defs.read
  read-entry t limit key h i fits = elim (Option-cases (key_true_value t.index.state limit key)) [
    | inl e ↦ inl (e, ground (arith, e))
    | inr (a, e) ↦
        let (b, v, w) = key_true_value-Written f l t limit key a h e in
        inr (
          a,
          b,
          v,
          e,
          w,
          elim (read_address-Written t.log key a b v w) [
            | inl r ↦ inl (ground (arith, e, r))
            | inr (x, q, r) ↦ inr (x, q, ground (arith, e, r))
          ],
        )
  ]
