-- ===== src/Loader/Recovery.antt =====
-- loader.rs: the loader rebuilds the indexes of all trees.
use block_rust.Base.{
  ℕ, ◌<◌, ◌≡◌, refl, sym, ap, ◌∙◌, Bool, true, false, Option, none, some, List, [], ◌∷◌, arith, ltb,
  Outcome, ok, err, panic, ◌>>=◌,
}
use block_rust.Base.Exec.{continue}
use block_rust.Types.{Address, Batch, BatchCommit, Commit}
use block_rust.Command.{Command, batch}
use block_rust.CommitLog.{CommitCommand}
use block_rust.BatchPlayer.{BatchPlayer}
use block_rust.Index.Defs
use block_rust.Index.Defs.{Index}
use block_rust.Tree.Replay.{
  InitReplayer, init_replayer, replay_commit, replay_rest, rest_items, update_max, max_seen,
  new_batch_commit,
}
use block_rust.Tree.Replay.Plain.{items}
use block_rust.Tree.Recovery.{Life, Life-new, Ends, replay_all-Life}
use block_rust.Tree.Recovery.Loop.{replay_all}
use block_rust.Tree.Recovery.Numbers.{largest, largest_commit}
use mathlib.Core.Path.{subst}
use block_rust.Loader.{
  Players, DbInitState, load, replay_commits, replay_in_all, replay_rests, check_monotonic,
  init_state,
}

-- A running tree, by its name.
pub record Running : Type 0 where
  pub name : List ℕ
  pub log : List (Command × Address)
  pub player : BatchPlayer
  pub index : Index

-- All trees have lived through the same commits.
abbrev pub AllLive : List CommitCommand → List Running → Type 0
AllLive cs [] = Unit
AllLive cs (t ∷ trees) = Life t.log cs t.player t.index × AllLive cs trees

-- The commit numbers grow.
abbrev pub IsRising : Option Commit → List CommitCommand → Type 0
IsRising max_commit [] = Unit
IsRising none (c ∷ cs) = IsRising (some c.commit) cs
IsRising (some max_commit) (c ∷ cs) = (max_commit < c.commit) × IsRising (some c.commit) cs

-- The streams of the logs, and the new players of the trees over them.
abbrev pub commit_items : List CommitCommand → List (Outcome CommitCommand)
commit_items [] = []
commit_items (c ∷ cs) = ok c ∷ commit_items cs

abbrev pub players_of : List Running → Players
players_of [] = []
players_of (t ∷ trees) = (t.name, init_replayer (items t.log) Defs.new) ∷ players_of trees

-- The players have the indexes of the running trees.
abbrev pub HaveIndexes : List Running → Players → Type 0
HaveIndexes [] [] = Unit
HaveIndexes (t ∷ trees) ((name, r) ∷ players) =
    (name ≡ t.name) × (r.index ≡ t.index) × HaveIndexes trees players
HaveIndexes _ _ = ⊥

-- The players of all trees, each of which replays the commits, and can read the rest of its log.
abbrev Runs : List CommitCommand → List Running → Players → Type 0
Runs cs [] [] = Unit
Runs cs (t ∷ trees) ((name, r) ∷ players) =
    (name ≡ t.name)
    × ((r' : InitReplayer) × (replay_all cs r ≡ (ok tt, r')) × Ends t.log t.index r')
    × Runs cs trees players
Runs cs _ _ = ⊥

players_of-Runs :
    (cs : List CommitCommand) (trees : List Running)
    → AllLive cs trees
    → Runs cs trees (players_of trees)
players_of-Runs cs [] l = tt
players_of-Runs cs (t ∷ trees) l = (refl, replay_all-Life l.0, players_of-Runs cs trees l.1)

-- The first of the commits returns.
pub replay_all-first :
    (c : CommitCommand) (cs : List CommitCommand) (r r' : InitReplayer)
    → replay_all (c ∷ cs) r ≡ (ok tt, r')
    → (s : InitReplayer) × (replay_commit c.batch c.batch_commit c.commit r ≡ (ok tt, s))
      × (replay_all cs s ≡ (ok tt, r'))
unfolding replay_all
replay_all-first c cs r r' h = first (replay_commit c.batch c.batch_commit c.commit r) h
  where
    first :
        (x : Outcome (Unit {0}) × InitReplayer)
        → continue x.0 (λ u. replay_all cs) x.1 ≡ (ok tt, r')
        → (s : InitReplayer) × (x ≡ (ok tt, s)) × (replay_all cs s ≡ (ok tt, r'))
    first (ok u, s) k = (s, refl, k)
    first (err e, s) k = absurd (cc)
    first (panic, s) k = absurd (cc)

replay_in_all-Runs :
    (c : CommitCommand) (cs : List CommitCommand) (trees : List Running) (players : Players)
    → Runs (c ∷ cs) trees players
    → (players' : Players) × (replay_in_all c players ≡ ok players') × Runs cs trees players'
unfolding replay_in_all
replay_in_all-Runs c cs [] [] h = ([], refl, tt)
replay_in_all-Runs c cs [] (x ∷ players) h = absurd h
replay_in_all-Runs c cs (t ∷ trees) [] h = absurd h
replay_in_all-Runs c cs (t ∷ trees) ((name, r) ∷ players) h =
    let (named, (r', run, ends), others) = h in
    let (s, step, more) = replay_all-first c cs r r' run in
    let (players', all, runs) = replay_in_all-Runs c cs trees players others in
    ((name, s) ∷ players', rw (step, all) refl, (named, (r', more, ends), runs))

abbrev pub last_commit : Option Commit → List CommitCommand → Option Commit
last_commit max_commit [] = max_commit
last_commit max_commit (c ∷ cs) = last_commit (some c.commit) cs

replay_commits-Runs :
    (max_commit : Option Commit) (cs : List CommitCommand) (trees : List Running)
    (players : Players)
    → IsRising max_commit cs
    → Runs cs trees players
    → (players' : Players) × (replay_commits max_commit (commit_items cs) players
        ≡ ok (last_commit max_commit cs, players'))
      × Runs [] trees players'
unfolding replay_commits check_monotonic
replay_commits-Runs max_commit [] trees players up h = (players, refl, h)
replay_commits-Runs none (c ∷ cs) trees players up h =
    let (players', all, runs) = replay_in_all-Runs c cs trees players h in
    let (done, e, end) = replay_commits-Runs (some c.commit) cs trees players' up runs in
    (done, rw all e, end)
replay_commits-Runs (some max_commit) (c ∷ cs) trees players up h =
    let (players', all, runs) = replay_in_all-Runs c cs trees players h in
    let (done, e, end) = replay_commits-Runs (some c.commit) cs trees players' up.1 runs in
    let grows : ltb max_commit c.commit ≡ true = ground (arith, up.0) in
    (done, rw (all, grows) e, end)

-- The rest of a log is read without an error, for its numbers, and changes no index.
rest_items-largest :
    (log : List (Command × Address)) (r : InitReplayer)
    → (r' : InitReplayer) × (rest_items (items log) r
        ≡ (ok (largest r.max_batch_seen log, largest_commit r.max_batch_commit_seen log), r'))
      × (r'.index ≡ r.index)
unfolding rest_items update_max largest largest_commit
rest_items-largest [] r = (record r { cmd_stream = [] }, refl, refl)
rest_items-largest ((cmd, a) ∷ log) r =
    rest_items-largest log
      (update_max (some (batch cmd)) (new_batch_commit cmd) (record r { cmd_stream = items log }))

-- The largest numbers in the logs of all trees.
abbrev pub largest_of : Option Batch → List Running → Option Batch
largest_of seen [] = seen
largest_of seen (t ∷ trees) = largest_of (max_seen seen (largest none t.log)) trees

abbrev pub largest_commit_of : Option BatchCommit → List Running → Option BatchCommit
largest_commit_of seen [] = seen
largest_commit_of seen (t ∷ trees) =
    largest_commit_of (max_seen seen (largest_commit none t.log)) trees

replay_rests-Runs :
    (mb : Option Batch) (mbc : Option BatchCommit) (trees : List Running) (players : Players)
    → Runs [] trees players
    → (players' : Players) × (replay_rests mb mbc players
        ≡ ok (largest_of mb trees, largest_commit_of mbc trees, players'))
      × HaveIndexes trees players'
unfolding replay_rests replay_rest replay_all
replay_rests-Runs mb mbc [] [] h = ([], refl, tt)
replay_rests-Runs mb mbc [] (x ∷ players) h = absurd h
replay_rests-Runs mb mbc (t ∷ trees) [] h = absurd h
replay_rests-Runs mb mbc (t ∷ trees) ((name, r) ∷ players) h =
    let (named, (r', run, ends), others) = h in
    let at_end : r ≡ r' = ap (λ x. x.1) run in
    let ends' : Ends t.log t.index r = subst (Ends t.log t.index) (sym at_end) ends in
    let (s, read, kept) = rest_items-largest ends'.rest r in
    let whole : rest_items r.cmd_stream r
        ≡ (ok (largest none t.log, largest_commit none t.log), s) =
      ap (λ x. rest_items x r) ends'.stream
      ∙ read
      ∙ ap (λ x. (ok (x, largest_commit r.max_batch_commit_seen ends'.rest), s)) ends'.batches
      ∙ ap (λ x. (ok (largest none t.log, x), s)) ends'.batch_commits in
    let (players', e, indexes) =
      replay_rests-Runs (max_seen mb (largest none t.log))
        (max_seen mbc (largest_commit none t.log)) trees players others in
    ((name, s) ∷ players', rw (whole, e) refl, (named, kept ∙ ends'.index_same, indexes))

-- The counters behind a load, on whether the commit log is reported empty.
abbrev pub counters : Bool → List CommitCommand → List Running → Outcome DbInitState
counters true cs trees = ok (record { next_batch = 0; next_batch_commit = 0; next_commit = 0 })
counters false cs trees =
    init_state (largest_of none trees) (largest_commit_of none trees) (last_commit none cs)

new-HaveIndexes : (trees : List Running) → AllLive [] trees → HaveIndexes trees (players_of trees)
new-HaveIndexes [] l = tt
new-HaveIndexes (t ∷ trees) l = (refl, sym (Life-new l.0 refl), new-HaveIndexes trees l.1)

-- The commit log has the commits that all trees have lived through, each of them in turn, and their
-- numbers grow; it is reported empty only if there are none. Then the load of the trees from their logs comes to its end.
-- If the commit log is reported empty, the counters are 0, whatever the logs hold, and otherwise they
-- follow the largest batch and batch commit of all logs and the last commit. The load fails only if
-- these overflow, and otherwise each tree has the index of the running tree.
pub load-HaveIndexes :
    (empty : Bool) (cs : List CommitCommand) (trees : List Running)
    → (empty ≡ true → cs ≡ [])
    → AllLive cs trees
    → IsRising none cs
    → (players : Players) × (load (ok empty) (commit_items cs) (players_of trees)
        ≡ (counters empty cs trees >>= λ state. ok (state, players)))
      × HaveIndexes trees players
unfolding load
load-HaveIndexes true cs trees no_commits l up = (
  players_of trees,
  refl,
  new-HaveIndexes trees (subst (λ x. AllLive x trees) (no_commits refl) l),
)
load-HaveIndexes false cs trees no_commits l up =
    let (players, e, runs) =
      replay_commits-Runs none cs trees (players_of trees) up (players_of-Runs cs trees l) in
    let (players', e', indexes) = replay_rests-Runs none none trees players runs in
    (players', rw (e, e') refl, indexes)
