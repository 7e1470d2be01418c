-- ===== src/Db/Init.antt =====
-- basic_db.rs: `Db::init`, which loads the counters and the indexes from the logs.
use mathlib.Core.Path.{subst}
use block_rust.Base.{
  Bool, true, not, ◌&&◌, ◌||◌, ◌≡◌, refl, List, [], ◌∷◌, arith, Outcome, ok, assert, returned,
  ◌>>=◌, ◌>>◌,
}
use block_rust.OrdMap.{OrdMap}
use block_rust.Types.{Address, Commit}
use block_rust.Command.{Command}
use block_rust.CommitLog
use block_rust.CommitLog.{CommitCommand}
use block_rust.LogFile.{LogFile}
use block_rust.Loader.{Players, load}
use block_rust.Loader.Reached.{AreReplayers, AreAt, load-AreAt}
use block_rust.Tree.Ops.{Tree}
use block_rust.Tree.CommitOps.{new-IsIndex}
use block_rust.Tree.Replay.{init_replayer}
use block_rust.Tree.Replay.Reached.{NoAborts}
use block_rust.Db
use block_rust.Db.{Db, Name, new_trees}
use block_rust.Db.Trees.{AreTreesAt}
use block_rust.Db.Commits.{IsDb}

ok-injective : {A : Type 0} {a b : A} → ok a ≡ ok b → a ≡ b
ok-injective h = cc

module _ (f : LogFile Command) (g : LogFile CommitCommand) where
  -- `init_replayer` of each tree, whose stream is what the replay of its log yields. It asserts that
  -- the tree is not initialized.
  abbrev pub new_players :
      (Name → List (Outcome (Command × Address))) → OrdMap Name (Tree f) → Players
  new_players streams [] = []
  new_players streams ((name, t) ∷ trees) =
      (name, init_replayer (streams name) t.index) ∷ new_players streams trees

  abbrev pub none_initialized : OrdMap Name (Tree f) → Bool
  none_initialized [] = true
  none_initialized ((name, t) ∷ trees) = not t.initialized && none_initialized trees

  -- The players have worked on the indexes of the trees, which are in the same order; the end of a
  -- load initialises the trees.
  abbrev pub loaded_trees : Players → OrdMap Name (Tree f) → OrdMap Name (Tree f)
  loaded_trees [] trees = []
  loaded_trees ((name, player) ∷ players) [] = []
  loaded_trees ((name, player) ∷ players) ((name', t) ∷ trees) =
      (name', record t { initialized = true; index = player.index }) ∷ loaded_trees players trees

  -- `Db::init`. A database whose `init` fails is dropped by its only caller, so nothing is said of it.
  unfoldable pub init :
      List (Outcome CommitCommand)
      → (Name → List (Outcome (Command × Address)))
      → Db f g
      → Outcome (Db f g)
  init commit_stream streams db = do
    assert (not db.initialized)
    empty ← CommitLog.log_is_empty g db.commit_log
    assert (empty || none_initialized db.trees)
    (state, players) ← load (ok empty) commit_stream (new_players streams db.trees)
    ok (record db {
      initialized = true;
      next_batch = state.next_batch;
      next_batch_commit = state.next_batch_commit;
      next_commit = state.next_commit;
      view_commit_limit = state.next_commit;
      trees = loaded_trees players db.trees;
    })

  new_players-AreReplayers :
      (streams : Name → List (Outcome (Command × Address))) (logs : OrdMap Name (LogFile.State f))
      → ((name : Name) → NoAborts (streams name))
      → AreReplayers 0 (new_players streams (new_trees f g logs))
  new_players-AreReplayers streams [] quiet = tt
  new_players-AreReplayers streams ((name, log) ∷ logs) quiet = (
    record { at = record { events = []; is_index = new-IsIndex; next = refl }; quiet = quiet name },
    new_players-AreReplayers streams logs quiet,
  )

  loaded_trees-AreTreesAt :
      (n : Commit) (players : Players) (trees : OrdMap Name (Tree f))
      → AreAt n players
      → AreTreesAt n n (loaded_trees players trees)
  loaded_trees-AreTreesAt n [] trees h = tt
  loaded_trees-AreTreesAt n ((name, player) ∷ players) [] h = tt
  loaded_trees-AreTreesAt n ((name, player) ∷ players) ((name', t) ∷ trees) h = (
    record {
      events = h.0.events;
      is_index = h.0.is_index;
      reached = omega (arith, h.0.next);
      not_passed = omega (arith, h.0.next);
    },
    loaded_trees-AreTreesAt n players trees h.1,
  )

  -- If `init` succeeds on a new database, and no log of a tree has a command that aborts a commit,
  -- then in the database that it leaves the index of each tree stands for a history of writes, has
  -- reached the limit of the views and has not passed the next commit, which is at least that limit.
  pub init-IsDb :
      (tree_logs : OrdMap Name (LogFile.State f)) (commit_log : LogFile.State g)
      (commit_stream : List (Outcome CommitCommand))
      (streams : Name → List (Outcome (Command × Address))) (db : Db f g)
      → ((name : Name) → NoAborts (streams name))
      → init commit_stream streams (Db.new f g tree_logs commit_log) ≡ ok db
      → IsDb db
  unfolding init
  init-IsDb tree_logs commit_log commit_stream streams db quiet e =
      let (empty, e1, h1) = returned _ (CommitLog.log_is_empty g commit_log) e in
      let (u, e2, h2) =
        returned _ (assert (empty || none_initialized (new_trees f g tree_logs))) h1 in
      let (loaded, e3, h3) =
        returned _ (load (ok empty) commit_stream (new_players streams (new_trees f g tree_logs)))
          h2 in
      let at =
        load-AreAt empty commit_stream (new_players streams (new_trees f g tree_logs)) loaded.1
          loaded.0 (new_players-AreReplayers streams tree_logs quiet) e3 in
      subst IsDb (ok-injective h3) (record {
        trees_at =
            loaded_trees-AreTreesAt loaded.0.next_commit loaded.1 (new_trees f g tree_logs) at;
        in_step = omega arith;
      })
