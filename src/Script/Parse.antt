-- ===== src/Script/Parse.antt =====
-- cmdscript.rs: `parse_commands`.
use block_rust.Base.{
  bytes, ℕ, zero, suc, Option, none, some, List, [], ◌∷◌, length, if◌then◌else◌, Outcome, ok, err,
  panic, expected_path, expected_batch, expected_view, expected_tree, expected_key, expected_value,
  unknown_command, Error, ◌++◌,
}
use block_rust.Base.Ord.{bytes_eq}
use block_rust.Script.{
  Word, Command, Keyword, keyword, write, delete, delete_range, read, read_assert, iterate,
  batch_open, batch_write, batch_delete, batch_delete_range, batch_push_save_point,
  batch_pop_save_point, batch_rollback_save_point, batch_commit, batch_abort, batch_close,
  view_open, view_read, view_iterate, view_close, separator, unknown, the_write, the_delete,
  the_delete_range, the_read, the_read_assert, the_iterate, the_batch_open, the_batch_write,
  the_batch_delete, the_batch_delete_range, the_batch_push_save_point, the_batch_pop_save_point,
  the_batch_rollback_save_point, the_batch_commit, the_batch_abort, the_batch_close, the_view_open,
  the_view_read, the_view_iterate, the_view_close,
}

-- A parser of the words that the iterator still yields.
abbrev pub Parser : Type 0 → Type 0
Parser A = List Word → Outcome (A × List Word)

infixl 5 ◌>>=◌
abbrev pub ◌>>=◌ : {A B : Type 0} → Parser A → (A → Parser B) → Parser B
◌>>=◌ p f words = elim (p words) [ ok (a, rest) ↦ f a rest | err e ↦ err e | panic ↦ panic ]

abbrev pub pure : {A : Type 0} → A → Parser A
pure a words = ok (a, words)

abbrev pub fail : {A : Type 0} → Error → Parser A
fail e words = err e

-- `iter.next().ok_or_else(|| e)`.
abbrev pub next_word : Error → Parser Word
next_word e [] = err e
next_word e (w ∷ words) = ok (w, words)

abbrev pub parse_batch : Parser Word
parse_batch = next_word expected_batch

abbrev pub parse_view : Parser Word
parse_view = next_word expected_view

abbrev pub parse_tree : Parser Word
parse_tree = next_word expected_tree

abbrev pub parse_key : Parser Word
parse_key = next_word expected_key

abbrev pub parse_value : Parser Word
parse_value = next_word expected_value

abbrev pub parse_expected_value : Parser (Option Word)
parse_expected_value = do
  s ← next_word expected_value
  pure (if bytes_eq s (bytes "<none>") then none else some s)

-- The arms of the `match`: a command, or nothing for the separator.
unfoldable pub parse_fields : Keyword → Parser (Option Command)
parse_fields separator = pure none
parse_fields unknown = fail unknown_command
parse_fields the_write = do
  tree ← parse_tree
  key ← parse_key
  value ← parse_value
  pure (some (write tree key value))
parse_fields the_delete = do tree ← parse_tree; key ← parse_key; pure (some (delete tree key))
parse_fields the_delete_range = do
  tree ← parse_tree
  start ← parse_key
  end ← parse_key
  pure (some (delete_range tree start end))
parse_fields the_read = do tree ← parse_tree; key ← parse_key; pure (some (read tree key))
parse_fields the_read_assert = do
  tree ← parse_tree
  key ← parse_key
  expected ← parse_expected_value
  pure (some (read_assert tree key expected))
parse_fields the_iterate = do tree ← parse_tree; pure (some (iterate tree))
parse_fields the_batch_open = do batch ← parse_batch; pure (some (batch_open batch))
parse_fields the_batch_write = do
  batch ← parse_batch
  tree ← parse_tree
  key ← parse_key
  value ← parse_value
  pure (some (batch_write batch tree key value))
parse_fields the_batch_delete = do
  batch ← parse_batch
  tree ← parse_tree
  key ← parse_key
  pure (some (batch_delete batch tree key))
parse_fields the_batch_delete_range = do
  batch ← parse_batch
  tree ← parse_tree
  start ← parse_key
  end ← parse_key
  pure (some (batch_delete_range batch tree start end))
parse_fields the_batch_push_save_point = do
  batch ← parse_batch
  pure (some (batch_push_save_point batch))
parse_fields the_batch_pop_save_point = do
  batch ← parse_batch
  pure (some (batch_pop_save_point batch))
parse_fields the_batch_rollback_save_point = do
  batch ← parse_batch
  pure (some (batch_rollback_save_point batch))
parse_fields the_batch_commit = do batch ← parse_batch; pure (some (batch_commit batch))
parse_fields the_batch_abort = do batch ← parse_batch; pure (some (batch_abort batch))
parse_fields the_batch_close = do batch ← parse_batch; pure (some (batch_close batch))
parse_fields the_view_open = do view ← parse_view; pure (some (view_open view))
parse_fields the_view_read = do
  view ← parse_view
  tree ← parse_tree
  key ← parse_key
  pure (some (view_read view tree key))
parse_fields the_view_iterate = do
  view ← parse_view
  tree ← parse_tree
  pure (some (view_iterate view tree))
parse_fields the_view_close = do view ← parse_view; pure (some (view_close view))

-- The loop over the words. Each round takes a word, so the words' number and one more rounds are
-- enough; `none` means that the fuel ran out.
unfoldable pub parse_loop : ℕ → List Command → List Word → Option (Outcome (List Command))
parse_loop zero commands words = none
parse_loop (suc fuel) commands [] = some (ok commands)
parse_loop (suc fuel) commands (w ∷ words) = elim (parse_fields (keyword w) words) [
  | ok (none, rest) ↦ parse_loop fuel commands rest
  | ok (some command, rest) ↦ parse_loop fuel (commands ++ command ∷ []) rest
  | err e ↦ some (err e)
  | panic ↦ some panic
]

-- `.filter(|s| !s.is_empty())`.
unfoldable pub non_empty : List Word → List Word
non_empty [] = []
non_empty ([] ∷ words) = non_empty words
non_empty ((x ∷ w) ∷ words) = (x ∷ w) ∷ non_empty words

-- Where the script's database is: in a directory, or in memory.
unfoldable pub parse_path : Parser (Option Word)
unfolding bytes_eq
parse_path = do
  path ← next_word expected_path
  if bytes_eq path (bytes "path")
      then (do p ← next_word expected_path; pure (some p))
      else if bytes_eq path (bytes "mem")
      then pure none
      else fail expected_path

abbrev pub with_path :
    Option Word → Option (Outcome (List Command)) → Option (Outcome (Option Word × List Command))
with_path path none = none
with_path path (some (ok commands)) = some (ok (path, commands))
with_path path (some (err e)) = some (err e)
with_path path (some panic) = some panic

-- `parse_commands`.
unfoldable pub parse_commands : List Word → Option (Outcome (Option Word × List Command))
unfolding parse_path parse_loop non_empty
parse_commands args = elim (parse_path (non_empty args)) [
  | ok (path, words) ↦ with_path path (parse_loop (suc (length words)) [] words)
  | err e ↦ some (err e)
  | panic ↦ some panic
]
