-- ===== src/Script/Run.antt =====
-- cmdscript.rs: `exec`, from the open database on.
use block_rust.Base.{
  ℕ, zero, suc, Bool, true, false, Option, none, some, List, [], ◌∷◌, ◌++◌, bytes, length, panic,
  expect,
}
use block_rust.Base.Exec.{Exec, pure, lift, gets, update, require, zoom, ◌>>=◌, ◌>>◌}
use block_rust.Base.Ord.{bytes_ord, bytes_eq}
use block_rust.OrdMap.{OrdMap, get, insert, remove}
use block_rust.Types.{Commit}
use block_rust.Command.{Command as LoggedCommand}
use block_rust.CommitLog.{CommitCommand}
use block_rust.LogFile.{LogFile}
use block_rust.Index.Cursor.{Cursor}
use block_rust.Tree.Ops.{Tree}
use block_rust.Db.{Db, Name}
use block_rust.Imp
use block_rust.Imp.{WriteBatch}
use block_rust.Imp.Cursors
use block_rust.Script.{
  Word, Command, write, delete, delete_range, read, read_assert, iterate, batch_open, batch_write,
  batch_delete, batch_delete_range, batch_push_save_point, batch_pop_save_point,
  batch_rollback_save_point, batch_commit, batch_abort, batch_close, view_open, view_read,
  view_iterate, view_close,
}

-- A line of the output: a key with its value, or with `<none>`.
abbrev pub Line : Type 0
Line = Word × Option Word

-- The configuration of `exec`.
abbrev pub tree_names : List Name
tree_names = bytes "t1" ∷ bytes "t2" ∷ []

abbrev pub same_value : Option Word → Option Word → Bool
same_value none none = true
same_value none (some w) = false
same_value (some v) none = false
same_value (some v) (some w) = bytes_eq v w

-- `is_utf8` is the test of `String::from_utf8`.
module _ (f : LogFile LoggedCommand) (g : LogFile CommitCommand) (is_utf8 : List ℕ → Bool) where
  pub record Session : Type 0 where
    pub db : Db f g
    pub batches : OrdMap Word WriteBatch
    pub views : OrdMap Word Commit
    pub output : List Line

  abbrev pub on_db : {A : Type 0} → Exec (Db f g) A → Exec Session A
  on_db = zoom (λ s. s.db) (λ db s. record s { db = db })

  abbrev pub print : Line → Exec Session (Unit {0})
  print line = update (λ s. record s { output = s.output ++ line ∷ [] })

  -- The arms of `Write`, `Delete` and `DeleteRange`: a batch of one call.
  unfoldable pub in_batch : (WriteBatch → Exec (Db f g) (Unit {0})) → Exec (Db f g) (Unit {0})
  in_batch body = do
    batch ← Imp.write_batch f g tree_names
    body batch
    Imp.commit f g batch
    closed ← Imp.close f g batch
    pure tt

  unfoldable pub show : Word → Option (List ℕ) → Exec Session (Unit {0})
  show key none = print (key, none)
  show key (some value) = do require (is_utf8 value); print (key, some value)

  unfoldable pub read_value : Commit → Name → Word → Exec Session (Option (List ℕ))
  read_value view tree key = do db ← gets (λ s. s.db); lift (Imp.read f g db view tree key)

  -- `while cursor.valid()`. Each round moves the cursor on, so one round more than the index has
  -- nodes is enough.
  unfoldable pub show_rest : ℕ → Tree f → Cursor → Exec Session (Unit {0})
  show_rest zero t c = lift panic
  show_rest (suc fuel) t c = elim (Cursors.valid c) [
    | false ↦ pure tt
    | true ↦ (do
      key ← lift (Cursors.key c)
      require (is_utf8 key)
      value ← lift (Cursors.value f t c)
      require (is_utf8 value)
      print (key, some value)
      let (moved, c') = Cursors.next f t c
      lift moved
      show_rest fuel t c')
  ]

  unfoldable pub show_tree : Commit → Name → Exec Session (Unit {0})
  unfolding show_rest
  show_tree view tree = do
    db ← gets (λ s. s.db)
    c ← lift (Imp.cursor f g db view tree)
    t ← lift (expect (get tree db.trees))
    show_rest (suc (length t.index.state.keymap)) t (Cursors.seek_first f t c)

  unfoldable pub batch_of : Word → Exec Session WriteBatch
  batch_of name = do batches ← gets (λ s. s.batches); lift (expect (get name batches))

  unfoldable pub with_batch :
      Word → (WriteBatch → Exec (Db f g) (Unit {0})) → Exec Session (Unit {0})
  unfolding batch_of
  with_batch name body = do batch ← batch_of name; on_db (body batch)

  unfoldable pub view_of : Word → Exec Session Commit
  view_of name = do views ← gets (λ s. s.views); lift (expect (get name views))

  -- One round of the loop over the commands.
  unfoldable pub exec_command : Command → Exec Session (Unit {0})
  unfolding in_batch show read_value show_tree with_batch view_of
  exec_command (write tree key value) = on_db (in_batch (λ b. Imp.write f g b tree key value))
  exec_command (delete tree key) = on_db (in_batch (λ b. Imp.delete f g b tree key))
  exec_command (delete_range tree start end) =
      on_db (in_batch (λ b. Imp.delete_range f g b tree start end))
  exec_command (read tree key) = do
    view ← on_db (Imp.read_view f g)
    value ← read_value view tree key
    show key value
  exec_command (read_assert tree key expected_value) = do
    view ← on_db (Imp.read_view f g)
    value ← read_value view tree key
    show key value
    require (same_value expected_value value)
  exec_command (iterate tree) = do view ← on_db (Imp.read_view f g); show_tree view tree
  exec_command (batch_open batch) = do
    b ← on_db (Imp.write_batch f g tree_names)
    update (λ s. record s { batches = insert batch b s.batches })
  exec_command (batch_write batch tree key value) =
      with_batch batch (λ b. Imp.write f g b tree key value)
  exec_command (batch_delete batch tree key) = with_batch batch (λ b. Imp.delete f g b tree key)
  exec_command (batch_delete_range batch tree start end) =
      with_batch batch (λ b. Imp.delete_range f g b tree start end)
  exec_command (batch_push_save_point batch) = with_batch batch (Imp.push_save_point f g)
  exec_command (batch_pop_save_point batch) = with_batch batch (Imp.pop_save_point f g)
  exec_command (batch_rollback_save_point batch) = with_batch batch (Imp.rollback_save_point f g)
  exec_command (batch_commit batch) = with_batch batch (Imp.commit f g)
  exec_command (batch_abort batch) = with_batch batch (Imp.abort f g)
  exec_command (batch_close batch) = do
    b ← batch_of batch
    update (λ s. record s { batches = remove batch s.batches })
    closed ← on_db (Imp.close f g b)
    pure tt
  exec_command (view_open view) = do
    v ← on_db (Imp.read_view f g)
    update (λ s. record s { views = insert view v s.views })
  exec_command (view_read view tree key) = do
    v ← view_of view
    value ← read_value v tree key
    show key value
  exec_command (view_iterate view tree) = do v ← view_of view; show_tree v tree
  exec_command (view_close view) = update (λ s. record s { views = remove view s.views })

  -- `exec`, behind `Db::open`.
  unfoldable pub exec : List Command → Exec Session (Unit {0})
  unfolding exec_command
  exec [] = pure tt
  exec (command ∷ commands) = do exec_command command; exec commands
