-- ===== src/Db/Reopen.antt =====
-- basic_db.rs: a database that is opened again from the logs of a running one.
use block_rust.Base.{◌≡◌, true, List, [], ◌∷◌, Outcome, ok}
use block_rust.OrdMap.{OrdMap}
use block_rust.Types.{Address}
use block_rust.Command.{Command}
use block_rust.CommitLog
use block_rust.CommitLog.{CommitCommand}
use block_rust.LogFile.{LogFile}
use block_rust.BatchPlayer.{BatchPlayer}
use block_rust.Log.{Yields}
use block_rust.Tree.Ops
use block_rust.Tree.Ops.{Tree}
use block_rust.Loader.Recovery.{Running}
use block_rust.Db
use block_rust.Db.{Db, Name}

-- Commits that were read without an error.
abbrev pub oks : List (CommitCommand × Address) → List (Outcome (CommitCommand × Address))
oks [] = []
oks (c ∷ cs) = ok c ∷ oks cs

abbrev pub commits_in : List (CommitCommand × Address) → List CommitCommand
commits_in [] = []
commits_in (c ∷ cs) = c.0 ∷ commits_in cs

module _ (f : LogFile Command) (g : LogFile CommitCommand) where
  -- The logs of the trees.
  abbrev pub logs_of : OrdMap Name (Tree f) → OrdMap Name (LogFile.State f)
  logs_of [] = []
  logs_of ((name, t) ∷ trees) = (name, t.log) ∷ logs_of trees

  -- The trees with the commands of their logs, which `history` has by the names, and the players of
  -- all these commands, which `kept` has: those of the trees, and the batches closed in memory only.
  abbrev pub running :
      (Name → List (Command × Address)) → (Name → BatchPlayer) → OrdMap Name (Tree f) → List Running
  running history kept [] = []
  running history kept ((name, t) ∷ trees) =
      record { name = name; log = history name; player = kept name; index = t.index }
      ∷ running history kept trees

  abbrev pub AllOpen : OrdMap Name (Tree f) → Type 0
  AllOpen [] = Unit
  AllOpen ((name, t) ∷ trees) = (t.initialized ≡ true) × AllOpen trees

  -- These are what the streams of the trees' logs yield.
  abbrev pub AreStreams :
      (Name → List (Outcome (Command × Address))) → OrdMap Name (Tree f) → Type 0
  AreStreams streams [] = Unit
  AreStreams streams ((name, t) ∷ trees) = Yields f t.log (streams name) × AreStreams streams trees
