-- ===== src/Imp/Cursors.antt =====
-- imp.rs: `Cursor`, on the tree that it borrows. The cursors of basic_db.rs and tree.rs pass on the
-- same calls to the cursor of the index.
use block_rust.Base.{Bool, List, ℕ, Outcome}
use block_rust.Base.Exec.{Exec}
use block_rust.Command.{Command}
use block_rust.LogFile.{LogFile}
use block_rust.Index.Cursor
use block_rust.Index.Cursor.{Cursor}
use block_rust.Tree.Ops
use block_rust.Tree.Ops.{Tree}

unfoldable pub valid : Cursor → Bool
unfolding Cursor.valid
valid c = Cursor.valid c

unfoldable pub key : Cursor → Outcome (List ℕ)
unfolding Cursor.key
key c = Cursor.key c

module _ (f : LogFile Command) (t : Tree f) where
  unfoldable pub value : Cursor → Outcome (List ℕ)
  value c = Ops.cursor_value f t c

  unfoldable pub next : Exec Cursor (Unit {0})
  next = Cursor.next t.index.state

  unfoldable pub prev : Exec Cursor (Unit {0})
  prev = Cursor.prev t.index.state

  unfoldable pub seek_first : Cursor → Cursor
  seek_first = Cursor.seek_first t.index.state

  unfoldable pub seek_last : Cursor → Cursor
  seek_last = Cursor.seek_last t.index.state

  unfoldable pub seek_key : List ℕ → Cursor → Cursor
  seek_key k = Cursor.seek_key t.index.state k

  unfoldable pub seek_key_rev : List ℕ → Cursor → Cursor
  seek_key_rev k = Cursor.seek_key_rev t.index.state k
