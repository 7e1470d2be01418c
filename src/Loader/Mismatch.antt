-- ===== src/Loader/Mismatch.antt =====
-- loader.rs: a load that comes to a commit which is out of turn fails.
use mathlib.Core.Path.{subst}
use mathlib.Core.List.{append-nil}
use block_rust.Base.{
  ◌≡◌, refl, ap, true, false, Option, none, some, List, [], ◌∷◌, ◌++◌, arith, ltb, Outcome, ok, err,
  batch_mismatch,
}
use block_rust.Types.{Commit}
use block_rust.CommitLog.{CommitCommand}
use block_rust.Index.Defs
use block_rust.Tree.Replay.{init_replayer}
use block_rust.Tree.Replay.Plain.{items}
use block_rust.Tree.Replay.Mismatch.{replay_commit-mismatch}
use block_rust.Tree.Recovery.{replay_all-Life}
use block_rust.Tree.Recovery.Loop.{replay_all, committed_pairs}
use block_rust.Tree.Recovery.Pairs.{has_ready}
use block_rust.Tree.Recovery.Turns.{in_turn}
use block_rust.Loader.{Players, load, replay_commits, replay_in_all, check_monotonic}
use block_rust.Loader.Recovery.{
  Running, AllLive, IsRising, commit_items, players_of, last_commit, replay_all-first,
}

-- Each player replays the commits.
abbrev Replay : List CommitCommand → Players → Players → Type 0
Replay cs [] [] = Unit
Replay cs ((name, r) ∷ players) ((name', r') ∷ players') =
    (name ≡ name') × (replay_all cs r ≡ (ok tt, r')) × Replay cs players players'
Replay cs _ _ = ⊥

players_of-Replay :
    (cs : List CommitCommand) (trees : List Running)
    → AllLive cs trees
    → (players : Players) × Replay cs (players_of trees) players
players_of-Replay cs [] l = ([], tt)
players_of-Replay cs (t ∷ trees) l =
    let (r, run, ends) = replay_all-Life l.0 in
    let (players, more) = players_of-Replay cs trees l.1 in
    ((t.name, r) ∷ players, (refl, run, more))

Replay-none : (players players' : Players) → Replay [] players players' → players ≡ players'
unfolding replay_all
Replay-none [] [] h = refl
Replay-none [] (x ∷ players') h = absurd h
Replay-none (x ∷ players) [] h = absurd h
Replay-none ((name, r) ∷ players) ((name', r') ∷ players') h =
    let more = Replay-none players players' h.2 in
    let same : r ≡ r' = ap (λ x. x.1) h.1 in rw (h.0, same, more) refl

replay_in_all-Replay :
    (c : CommitCommand) (cs : List CommitCommand) (players players' : Players)
    → Replay (c ∷ cs) players players'
    → (between : Players) × (replay_in_all c players ≡ ok between) × Replay cs between players'
unfolding replay_in_all
replay_in_all-Replay c cs [] [] h = ([], refl, tt)
replay_in_all-Replay c cs [] (x ∷ players') h = absurd h
replay_in_all-Replay c cs (x ∷ players) [] h = absurd h
replay_in_all-Replay c cs ((name, r) ∷ players) ((name', r') ∷ players') h =
    let (s, step, run) = replay_all-first c cs r r' h.1 in
    let (between, all, more) = replay_in_all-Replay c cs players players' h.2 in
    ((name, s) ∷ between, rw (step, all) refl, (h.0, run, more))

replay_commits-Replay :
    (max_commit : Option Commit) (cs : List CommitCommand) (rest : List (Outcome CommitCommand))
    (players players' : Players)
    → IsRising max_commit cs
    → Replay cs players players'
    → replay_commits max_commit (commit_items cs ++ rest) players
      ≡ replay_commits (last_commit max_commit cs) rest players'
unfolding replay_commits check_monotonic
replay_commits-Replay max_commit [] rest players players' up h =
    ap (replay_commits max_commit rest) (Replay-none players players' h)
replay_commits-Replay none (c ∷ cs) rest players players' up h =
    let (between, all, more) = replay_in_all-Replay c cs players players' h in
    rw all (replay_commits-Replay (some c.commit) cs rest between players' up more)
replay_commits-Replay (some max_commit) (c ∷ cs) rest players players' up h =
    let (between, all, more) = replay_in_all-Replay c cs players players' h in
    let grows : ltb max_commit c.commit ≡ true = ground (arith, up.0) in
    rw (all, grows) (replay_commits-Replay (some c.commit) cs rest between players' up.1 more)

-- Take trees that have lived through the commits `cs`, whose numbers grow, and a commit `c` that the log
-- of the first tree made ready. In that log, in front of the command that made it ready, stands another
-- attempt of its batch that is neither the ready command of a commit of `cs`, nor in front of one. Then a
-- load fails with the mismatch error if the commit log has `cs` and then `c`, whatever follows, and
-- is not reported empty.
pub load-mismatch :
    (cs : List CommitCommand) (c : CommitCommand) (rest : List (Outcome CommitCommand))
    (t : Running) (trees : List Running)
    → AllLive cs (t ∷ trees)
    → IsRising none cs
    → has_ready c.batch c.batch_commit t.log ≡ true
    → in_turn c.batch c.batch_commit (committed_pairs cs) t.log ≡ false
    → load (ok false) (commit_items cs ++ ok c ∷ rest) (players_of (t ∷ trees)) ≡ err batch_mismatch
unfolding load replay_commits replay_in_all
load-mismatch cs c rest t trees l up q turn =
    let (r, run, fails) = replay_commit-mismatch [] c l.0 q turn in
    let run' : replay_all cs (init_replayer (items t.log) Defs.new) ≡ (ok tt, r) =
      subst (λ x. replay_all cs (init_replayer (items x) Defs.new) ≡ (ok tt, r)) (append-nil t.log)
        run in
    let (players, more) = players_of-Replay cs trees l.1 in
    let front =
      replay_commits-Replay none cs (ok c ∷ rest) (players_of (t ∷ trees)) ((t.name, r) ∷ players)
        up (refl, run', more) in
    rw (front, fails) refl
