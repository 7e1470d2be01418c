-- ===== src/Tests/Scripts.antt =====
-- The parser of scripts at concrete words.
use block_rust.Base.{
  true, bytes, ◌≡◌, refl, Option, none, some, List, [], ◌∷◌, Outcome, ok, All, arith,
}
use block_rust.Base.Ord.{bytes_ord, bytes_eq}
use block_rust.Types.{Key, Address}
use block_rust.MemLogFile.{append}
use block_rust.OrdMap.{get, contains_key, insert, modify}
use block_rust.BatchPlayer.{IndexOp, replay, record_command}
use block_rust.Index.Defs.{key_true_value}
use block_rust.Index.Cursor.Listing.{IsListed}
use block_rust.Tree.CommitToIndex
use block_rust.Tree.Ops
use block_rust.Tree.Reachable.{Reachable}
use block_rust.Script.{Word, Command}
use block_rust.Script.Parse.{parse_commands}
use block_rust.Script.Print.{script, print, IsWord, IsExpected, parse_commands-script}
use block_rust.Script.Total.{parse_commands-total}
use block_rust.Script.Run.{Session, show_tree}
use block_rust.Script.Listing.{show_all, show_tree-show_all}
use block_rust.Tests.Trees.{memory, committed, committed-initialized, committed-limit}
use block_rust.Tests.Databases.{commits, one_tree}

abbrev some_commands : List Command
some_commands =
    Command.write (bytes "main") (bytes "key") (bytes "value")
    ∷ Command.read_assert (bytes "main") (bytes "key") (some (bytes "value"))
    ∷ Command.read_assert (bytes "main") (bytes "other") none
    ∷ []

words : All IsWord (script (some (bytes "db")) some_commands)
unfolding script print
words = omega arith

expectations : All IsExpected some_commands
unfolding bytes_eq
expectations = (tt, (refl, (tt, tt)))

parse_commands-script_example :
    parse_commands (script (some (bytes "db")) some_commands)
    ≡ some (ok (some (bytes "db"), some_commands))
parse_commands-script_example =
    parse_commands-script (some (bytes "db")) some_commands words expectations

parse_commands-total_example :
    (r : Outcome (Option Word × List Command)) × (parse_commands
        (bytes "mem" ∷ bytes "read" ∷ bytes "main" ∷ [])
      ≡ some r)
parse_commands-total_example = parse_commands-total (bytes "mem" ∷ bytes "read" ∷ bytes "main" ∷ [])

abbrev session : Session memory commits (λ text. true)
session = record {
  db = record one_tree { trees = (bytes "t1", committed) ∷ [] };
  batches = [];
  views = [];
  output = [];
}

found : get (bytes "t1") session.db.trees ≡ some committed
unfolding get bytes_eq
found = refl

built : Reachable committed.index
unfolding Ops.commit_to_index CommitToIndex.commit_to_index replay get Ops.append_record append
    record_command contains_key insert modify
built = Reachable.commit 0 (IndexOp.write (7 ∷ []) 1 ∷ []) (omega arith) Reachable.start refl

show_tree-show_all_example :
    (entries : List (Key × Address)) × IsListed entries
    × ((k : Key) → get k entries ≡ key_true_value committed.index.state 1 k)
    × (show_tree memory commits (λ text. true) 1 (bytes "t1") session
        ≡ show_all memory commits (λ text. true) committed entries session)
show_tree-show_all_example =
    show_tree-show_all memory commits (λ text. true) session 1 (bytes "t1") committed found
      committed-initialized built (omega (arith, committed-limit))
