-- ===== src/Loader/Counters.antt =====
-- loader.rs: the commit numbers of a database that was loaded.
use block_rust.Base.{
  ◌+◌, ◌<◌, ◌≤◌, ◌≡◌, refl, false, Option, none, some, List, [], ◌∷◌, arith, Outcome, ok, err,
  panic, returned,
}
use block_rust.Types.{Commit}
use block_rust.CommitLog.{CommitCommand}
use block_rust.Loader.{
  DbInitState, Players, replay_in_all, check_monotonic, replay_commits, replay_rests, after,
  init_state, load,
}

-- Each item was read, and its commit is above the one before it, at first above `m`; `k` is the last.
abbrev pub IsGrowing : Option Commit → List (Outcome CommitCommand) → Option Commit → Type 0
IsGrowing m [] k = k ≡ m
IsGrowing m (ok c ∷ rest) k =
    ((n : Commit) → m ≡ some n → n < c.commit) × IsGrowing (some c.commit) rest k
IsGrowing m (err e ∷ rest) k = ⊥
IsGrowing m (panic ∷ rest) k = ⊥

check_monotonic-lt :
    (m : Option Commit) (c n : Commit) (u : Unit {0})
    → check_monotonic m c ≡ ok u
    → m ≡ some n
    → n < c
unfolding check_monotonic
check_monotonic-lt none c n u h e = cc
check_monotonic-lt (some x) c n u h e = ground arith

replay_commits-IsGrowing :
    (m k : Option Commit) (stream : List (Outcome CommitCommand)) (players players' : Players)
    → replay_commits m stream players ≡ ok (k, players')
    → IsGrowing m stream k
unfolding replay_commits
replay_commits-IsGrowing m k [] players players' h = ground arith
replay_commits-IsGrowing m k (err e ∷ rest) players players' h = cc
replay_commits-IsGrowing m k (panic ∷ rest) players players' h = cc
replay_commits-IsGrowing m k (ok c ∷ rest) players players' h =
    let (ps, e, h') = returned _ (replay_in_all c players) h in
    let (u, e', h'') = returned _ (check_monotonic m c.commit) h' in
    (
      λ n q. check_monotonic-lt m c.commit n u e' q,
      replay_commits-IsGrowing (some c.commit) k rest ps players' h'',
    )

-- Each item was read, and its commit is below `n`.
abbrev pub AreBelow : Commit → List (Outcome CommitCommand) → Type 0
AreBelow n [] = Unit
AreBelow n (ok c ∷ rest) = (c.commit < n) × AreBelow n rest
AreBelow n (err e ∷ rest) = ⊥
AreBelow n (panic ∷ rest) = ⊥

AreBelow-weaken :
    (m n : Commit) (stream : List (Outcome CommitCommand))
    → m ≤ n
    → AreBelow m stream
    → AreBelow n stream
AreBelow-weaken m n [] le b = tt
AreBelow-weaken m n (ok c ∷ rest) le b = (omega arith, AreBelow-weaken m n rest le b.1)
AreBelow-weaken m n (err e ∷ rest) le b = absurd b
AreBelow-weaken m n (panic ∷ rest) le b = absurd b

IsGrowing-last :
    (n : Commit) (stream : List (Outcome CommitCommand)) (k : Option Commit)
    → IsGrowing (some n) stream k
    → (q : Commit) × (k ≡ some q) × (n ≤ q) × AreBelow (q + 1) stream
IsGrowing-last n [] k h = (n, h, omega arith, tt)
IsGrowing-last n (err e ∷ rest) k h = absurd h
IsGrowing-last n (panic ∷ rest) k h = absurd h
IsGrowing-last n (ok c ∷ rest) k h =
    let (q, e, le, b) = IsGrowing-last c.commit rest k h.1 in
    let lt = h.0 n refl in (q, e, omega arith, (omega arith, b))

-- The next commit of an empty log is 0, and otherwise follows the last one.
abbrev NextIs : Option Commit → Commit → Type 0
NextIs none n = n ≡ 0
NextIs (some k) n = n ≡ k + 1

after-NextIs : (k : Option Commit) (n : Commit) → after k ≡ ok n → NextIs k n
unfolding after
after-NextIs none n h = ground arith
after-NextIs (some k) n h = ground arith

-- If `load` succeeds on a commit log that is not reported empty, then each record of that log was read,
-- the commit numbers in it grow strictly, and the next commit number is above them all.
pub load-next_commit :
    (stream : List (Outcome CommitCommand)) (players players' : Players) (state : DbInitState)
    → load (ok false) stream players ≡ ok (state, players')
    → ((k : Option Commit) × IsGrowing none stream k) × AreBelow state.next_commit stream
unfolding load init_state
load-next_commit stream players players' state h =
    let (replayed, e1, h1) = returned _ (replay_commits none stream players) h in
    let (seen, e2, h2) = returned _ (replay_rests none none replayed.1) h1 in
    let (st, e3, h3) = returned _ (init_state seen.0 seen.1 replayed.0) h2 in
    let (nb, e4, h4) = returned _ (after seen.0) e3 in
    let (nbc, e5, h5) = returned _ (after seen.1) h4 in
    let (nc, e6, h6) = returned _ (after replayed.0) h5 in
    let same : state.next_commit ≡ nc = ground arith in
    (
      (replayed.0, replay_commits-IsGrowing none replayed.0 stream players replayed.1 e1),
      rw same (
          below replayed.0 stream nc
            (replay_commits-IsGrowing none replayed.0 stream players replayed.1 e1)
            (after-NextIs replayed.0 nc e6)),
    )
  where
    below :
        (k : Option Commit) (s : List (Outcome CommitCommand)) (n : Commit)
        → IsGrowing none s k
        → NextIs k n
        → AreBelow n s
    below k [] n g x = tt
    below k (err e ∷ rest) n g x = absurd g
    below k (panic ∷ rest) n g x = absurd g
    below none (ok c ∷ rest) n g x = let (q, e, le, b) = IsGrowing-last c.commit rest none g.1 in cc
    below (some k) (ok c ∷ rest) n g x =
        let (q, e, le, b) = IsGrowing-last c.commit rest (some k) g.1 in
        let nq : n ≡ q + 1 = ground arith in
        (omega arith, AreBelow-weaken (q + 1) n rest (omega arith) b)
