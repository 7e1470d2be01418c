-- ===== src/Script.antt =====
-- cmdscript.rs: the commands of a script and their parser. A `String` is its bytes.
pub mod Parse
pub mod Print
pub mod Total
pub mod Run
pub mod Listing
use block_rust.Base.{
  bytes, ℕ, zero, suc, Bool, true, false, not, Option, none, some, List, [], ◌∷◌, length,
  if◌then◌else◌, Outcome, ok, err, panic, expected_path, expected_batch, expected_view,
  expected_tree, expected_key, expected_value, unknown_command, Error, ◌++◌,
}
use block_rust.Base.Ord.{bytes_eq}

abbrev pub Word : Type 0
Word = List ℕ

pub data Command : Type 0 where
  write : Word → Word → Word → Command
  delete : Word → Word → Command
  delete_range : Word → Word → Word → Command
  read : Word → Word → Command
  read_assert : Word → Word → Option Word → Command
  iterate : Word → Command
  batch_open : Word → Command
  batch_write : Word → Word → Word → Word → Command
  batch_delete : Word → Word → Word → Command
  batch_delete_range : Word → Word → Word → Word → Command
  batch_push_save_point batch_pop_save_point batch_rollback_save_point : Word → Command
  batch_commit batch_abort batch_close : Word → Command
  view_open : Word → Command
  view_read : Word → Word → Word → Command
  view_iterate : Word → Word → Command
  view_close : Word → Command

-- The literals of the `match` on the next word.
pub data Keyword : Type 0 where
  separator unknown : Keyword
  the_write the_delete the_delete_range the_read the_read_assert the_iterate : Keyword
  the_batch_open the_batch_write the_batch_delete the_batch_delete_range : Keyword
  the_batch_push_save_point the_batch_pop_save_point the_batch_rollback_save_point : Keyword
  the_batch_commit the_batch_abort the_batch_close the_view_open the_view_read : Keyword
  the_view_iterate the_view_close : Keyword

unfoldable pub keyword : Word → Keyword
unfolding bytes_eq
keyword w =
    if bytes_eq w (bytes "/")
    then separator
    else if bytes_eq w (bytes "write")
    then the_write
    else if bytes_eq w (bytes "delete")
    then the_delete
    else if bytes_eq w (bytes "delete-range")
    then the_delete_range
    else if bytes_eq w (bytes "read")
    then the_read
    else if bytes_eq w (bytes "read-assert")
    then the_read_assert
    else if bytes_eq w (bytes "iterate")
    then the_iterate
    else if bytes_eq w (bytes "batch-open")
    then the_batch_open
    else if bytes_eq w (bytes "batch-write")
    then the_batch_write
    else if bytes_eq w (bytes "batch-delete")
    then the_batch_delete
    else if bytes_eq w (bytes "batch-delete-range")
    then the_batch_delete_range
    else if bytes_eq w (bytes "batch-push-save-point")
    then the_batch_push_save_point
    else if bytes_eq w (bytes "batch-pop-save-point")
    then the_batch_pop_save_point
    else if bytes_eq w (bytes "batch-rollback-save-point")
    then the_batch_rollback_save_point
    else if bytes_eq w (bytes "batch-commit")
    then the_batch_commit
    else if bytes_eq w (bytes "batch-abort")
    then the_batch_abort
    else if bytes_eq w (bytes "batch-close")
    then the_batch_close
    else if bytes_eq w (bytes "view-open")
    then the_view_open
    else if bytes_eq w (bytes "view-read")
    then the_view_read
    else if bytes_eq w (bytes "view-iterate")
    then the_view_iterate
    else if bytes_eq w (bytes "view-close")
    then the_view_close
    else unknown
