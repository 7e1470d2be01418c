-- ===== src/Lib.antt =====
-- block_rust: a verification library for the key/value store of this repository.
--
-- The store keeps a set of trees. Each tree has a log of commands, an index from keys to addresses in
-- that log, and a player of the batches that are open; a commit log says which batches of all trees are
-- committed, in which order. A batch writer appends its commands to the logs of the trees and records
-- them in the players. A commit appends one record to the commit log, and then each tree replays the
-- batch into writes and puts them into its index. A view reads below a commit number: it looks up the
-- address in the index and then reads the command in the log. When a database is opened, the trees
-- are rebuilt from the logs.
--
-- Files:
-- - Types and Command: src/types.rs and src/command.rs. The newtypes over `u64` are numbers, keys and
--   values are lists of bytes.
-- - Log, LogFile, MemLogFile and CommitLog: src/log.rs, src/log_file.rs, src/mem_log_file.rs and
--   src/commit_log.rs. A log file is a record of its operations over a state. `Codec` stands for
--   serde_cbor, and is a parameter with its round trip; `IsLog` is what the trees rely on, and
--   MemLogFile/Laws shows it of the log in memory.
-- - BatchPlayer: src/batch_player.rs, with `record` as `record_command` and the loop of `replay` as
--   `replay_commands`. SavePoints, Scripts and Ops are about that loop.
-- - Index: src/index.rs. Defs has the data and the queries, Writer the writer of one commit, Cursor the
--   cursor. Events and History relate the index to the history of its writes; Points and Links are
--   about the map of the nodes and the pointers between them; Cursor/Pointers and Cursor/Listing are
--   about the steps and the run of a cursor.
-- - Tree: src/tree.rs. CommitToIndex has the function `commit_to_index`, Ops the methods of `Tree`,
--   `BatchWriter` and `Cursor`, Replay the `InitReplayer`. Commits, CommitOps, Reachable and Lists are about the
--   indexes that commits build; Addresses, Reads and ReadBack about a tree and its log; Closing about
--   the end of a batch; Replay/Plain and Replay/Mismatch about logs in which a batch tried to commit more
--   than once. Recovery is about the replay of the log of a running tree: Pairs, Turns, Players, Opened,
--   Passing, Stops, Loop, Scan, Waiting, Commits and Numbers follow the replayer through it, and in
--   OutOfTurn it stops.
-- - Loader: src/loader.rs, with Loader/Counters on the commit numbers, Loader/Reached and
--   Tree/Replay/Places, Steps and Reached on how far a load takes the indexes, and Loader/Recovery and
--   Loader/Mismatch on all trees.
-- - Db: src/basic_db.rs, with `init` in Db/Init. Db/Trees and Db/Commits are about `commit`, and Db/Writers
--   about the other methods of a writer; Db/Failures and Db/Steady say what changes no index, and
--   Db/Visible what a commit makes visible, and Db/Progress when it succeeds; Db/Reopen is
--   about a database that is opened on the logs of a running one. Tree/Snapshots,
--   Tree/NoError and Tree/Visible have what these need of one tree.
-- - Frame: src/frame.rs, with `write` as `frame`, the bytes that it writes, and the marker lines; its
--   RoundTrip is about `read`. `Libraries` stands for toml and for the test of UTF-8, and has what is
--   documented of them: a text is read back, also between empty lines, and a header is one line.
-- - FsThread: the handles of src/fs_thread.rs for one file, and the file as its bytes, with a schedule
--   of the writes that fail in their middle. FsThread/Context has the handles of all files, and
--   FsThread/Thread the thread and its channel, as a step relation; FsThread/Served is about its
--   requests. A closure is a function on the context.
-- - SimpleLogFile: src/simple_log_file.rs, with the methods that change nothing in Reads. Appends and
--   Replay are about the file behind appends and the stream of src/log.rs over it.
-- - Imp: src/imp.rs, the public batches, views and tree handles, without `Db::open` and `Db::sync`.
--   Loops has the rules for the loops over the trees; Cursors has the cursors; Failures and
--   Invariant are about the batches.
-- - CompactingTree: src/compacting_tree.rs, with its cursor in CompactingTree/Cursor. A function whose
--   body is `todo!()` panics. Best and Seeks are about that cursor, over Index/Cursor/Nearest on the
--   cursor of one tree; Unfinished is about `compact`.
-- - Script: src/cmdscript.rs, with the commands here and `parse_commands` in Script/Parse. A word is a
--   list of bytes. Script/Print writes scripts, and Script/Total is about the fuel of the parser.
--   Script/Run has `exec`, from the open database on, and Script/Listing is about its loop over a tree.
-- - Base has the helpers that all share: the tests on numbers, lists, `Outcome` for results that may be
--   an error or a panic, `Exec` for methods that change a state, and orders. OrdMap has BTreeMap as an
--   ascending association list, and the HashMaps as well. Tests applies the theorems to examples.
--
-- How the source is modelled:
-- - A panic is an outcome of its own. The state that was changed before an error or a panic stays
--   changed, since the index uses locks that are not poisoned. That the mutex of a player, or of a
--   node, is poisoned by a panic is not modelled.
-- - A shared pointer to a node is the key of the node, since a map owns its nodes, has one for each
--   key, and never removes one. What a pointer leads to is looked up in the map.
-- - Machine integers are natural numbers; where the source checks an addition or wraps around, the
--   bound 2 ^ 32 or 2 ^ 64 is written out.
-- - The loops of a cursor along the pointers run on as much fuel as the map has nodes; the theorems on
--   `next` and `prev` show that this is enough. The loop of the parser of scripts runs on one more than
--   the words that it is given, of which each round takes one. The loop of a script over a tree runs on
--   one more than its index has nodes, of which each round leaves one behind. The loop of a compaction,
--   which moves no cursor, takes any fuel.
-- - The streams of the replay are lists of what they still yield, errors included. The steps of a
--   running tree (`Life` in Tree/Recovery) are the commands that it logged and recorded and its commits,
--   each of them in turn (`in_turn` in Recovery/Turns): each attempt of its batch in the log in front
--   of its ready command is the ready command of a commit done before, or stands in front of one. A batch
--   may commit more than once. Its player is that of all logged commands, which still has a batch that
--   was closed in memory only; the source never commits such a batch any more.
-- - The commit lock is held throughout a commit, and the write lock of an index throughout its part of
--   the commit, so each of them is one step.
--
-- Not modelled: the database that a failed `init` leaves, what of a file a device has not yet written,
-- the directories that src/imp.rs makes when it opens a database and syncs with it, memory that runs
-- out, and the text output of src/doc.rs and src/pretty.rs.
mod Base
pub mod OrdMap
pub mod Types
pub mod Command
pub mod BatchPlayer
pub mod Index
pub mod Tree
pub mod LogFile
pub mod MemLogFile
pub mod SimpleLogFile
pub mod Log
pub mod CommitLog
pub mod Loader
pub mod Db
pub mod Frame
pub mod FsThread
pub mod Imp
pub mod CompactingTree
pub mod Script
pub mod Tests
